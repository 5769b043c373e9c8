-- ===== src/Strings/Split.antt =====
-- Laws of `split` and `join`.
use kt_connect.Common.{ℕ, ◌≡◌, ◌≢◌, refl, false, List, [], ◌∷◌, ◌++◌, arith, Text, All}
use kt_connect.Strings.{split, join, cons_head, contains_byte}

-- No byte of the text is the separator.
abbrev pub Lacks : ℕ → Text → Type 0
Lacks sep = All (λ c. c ≢ sep)

pub Lacks-contains_byte : (s : Text) (c : ℕ) → contains_byte s c ≡ false → Lacks c s
unfolding contains_byte
Lacks-contains_byte [] c h = tt
Lacks-contains_byte (d ∷ s) c h = (ground arith, Lacks-contains_byte s c (ground arith))

pub split-cons_sep : (sep : ℕ) (s : Text) → split (sep ∷ s) sep ≡ [] ∷ split s sep
unfolding split
split-cons_sep sep s = ground arith

pub split-cons_ne : (c sep : ℕ) (s : Text) → c ≢ sep → split (c ∷ s) sep ≡ cons_head c (split s sep)
unfolding split
split-cons_ne c sep s h = ground arith

-- A text that lacks the separator is one part.
pub split-Lacks : (sep : ℕ) (p : Text) → Lacks sep p → split p sep ≡ p ∷ []
split-Lacks sep [] h = unfold split in refl
split-Lacks sep (c ∷ p) (hc, hp) =
    rw (split-cons_ne c sep p hc, split-Lacks sep p hp) (unfold cons_head in refl)

-- The part before the first separator, and the parts behind it.
pub split-append :
    (sep : ℕ) (p rest : Text) → Lacks sep p → split (p ++ (sep ∷ rest)) sep ≡ p ∷ split rest sep
split-append sep [] rest h = split-cons_sep sep rest
split-append sep (c ∷ p) rest (hc, hp) =
    rw (split-cons_ne c sep (p ++ (sep ∷ rest)) hc, split-append sep p rest hp)
      (unfold cons_head in refl)

pub split-join :
    (sep : ℕ) (ps : List Text) → ps ≢ [] → All (Lacks sep) ps → split (join ps sep) sep ≡ ps
unfolding join
split-join sep [] ne h = absurd (ne refl)
split-join sep (p ∷ []) ne (hp, _) = split-Lacks sep p hp
split-join sep (p ∷ q ∷ ps) ne (hp, hps) =
    rw (split-append sep p _ hp, split-join sep (q ∷ ps) (cc) hps) refl
