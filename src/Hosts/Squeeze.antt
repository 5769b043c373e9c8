-- ===== src/Hosts/Squeeze.antt =====
-- updateHostsFile: of empty lines in a row one is written.
use kt_connect.Common.{
  ◌≡◌, refl, sym, ap, ◌∙◌, Bool, true, false, ◌&&◌, List, [], ◌∷◌, ◌++◌, if◌then◌else◌, Text,
  text_eq, All, Bool-cases, inl, inr,
}
use kt_connect.Common.Dict.{Dict}
use kt_connect.Hosts.{escape_begin, escape_end, records_of, squeeze}

-- A line that is none of the marks.
abbrev pub IsPlain : Text → Type 0
IsPlain l = (text_eq l escape_begin ≡ false) × (text_eq l escape_end ≡ false)

abbrev pub IsFilled : Text → Type 0
IsFilled l = text_eq l [] ≡ false

pub squeeze_step :
    (b : Bool) (l : Text) (ls : List Text)
    → squeeze b (l ∷ ls)
      ≡ (if b && text_eq l [] then squeeze (text_eq l []) ls else l ∷ squeeze (text_eq l []) ls)
unfolding squeeze
squeeze_step b l ls = refl

pub squeeze_filled :
    (b : Bool) (l : Text) (ls : List Text) → IsFilled l → squeeze b (l ∷ ls) ≡ l ∷ squeeze false ls
squeeze_filled true l ls h = rw (squeeze_step true l ls, h) refl
squeeze_filled false l ls h = rw (squeeze_step false l ls, h) refl

pub squeeze_filled_append :
    (xs ys : List Text) → All IsFilled xs → squeeze false (xs ++ ys) ≡ xs ++ squeeze false ys
squeeze_filled_append [] ys h = refl
squeeze_filled_append (x ∷ xs) ys (hx, h) =
    squeeze_filled false x (xs ++ ys) hx ∙ ap (λ r. x ∷ r) (squeeze_filled_append xs ys h)

-- Behind an empty line the rest is squeezed on its own.
pub squeeze-append :
    (b : Bool) (xs ys : List Text)
    → squeeze b (xs ++ ([] ∷ ys)) ≡ squeeze b (xs ++ ([] ∷ [])) ++ squeeze true ys
unfolding squeeze text_eq
squeeze-append true [] ys = refl
squeeze-append false [] ys = refl
squeeze-append b (x ∷ xs) ys = elim (Bool-cases (b && text_eq x [])) [
  | inl skipped ↦
      rw (squeeze_step b x (xs ++ ([] ∷ ys)), squeeze_step b x (xs ++ ([] ∷ [])), skipped)
        (squeeze-append (text_eq x []) xs ys)
  | inr stays ↦
      rw (squeeze_step b x (xs ++ ([] ∷ ys)), squeeze_step b x (xs ++ ([] ∷ [])), stays)
        (ap (λ r. x ∷ r) (squeeze-append (text_eq x []) xs ys))
]

-- Squeezed lines that end in an empty one swallow a further one.
pub squeeze-squeeze :
    (b : Bool) (xs : List Text)
    → squeeze b (squeeze b (xs ++ ([] ∷ [])) ++ ([] ∷ [])) ≡ squeeze b (xs ++ ([] ∷ []))
squeeze-squeeze true [] = unfold squeeze text_eq in refl
squeeze-squeeze false [] = unfold squeeze text_eq in refl
squeeze-squeeze true ([] ∷ xs) =
    let here : squeeze true ([] ∷ (xs ++ ([] ∷ []))) ≡ squeeze true (xs ++ ([] ∷ [])) =
      unfold squeeze text_eq in refl in
    ap (λ r. squeeze true (r ++ ([] ∷ []))) here ∙ squeeze-squeeze true xs ∙ sym here
squeeze-squeeze false ([] ∷ xs) =
    let here : squeeze false ([] ∷ (xs ++ ([] ∷ []))) ≡ [] ∷ squeeze true (xs ++ ([] ∷ [])) =
      unfold squeeze text_eq in refl in
    let there : squeeze false ([] ∷ (squeeze true (xs ++ ([] ∷ [])) ++ ([] ∷ [])))
        ≡ [] ∷ squeeze true (squeeze true (xs ++ ([] ∷ [])) ++ ([] ∷ [])) =
      unfold squeeze text_eq in refl in
    ap (λ r. squeeze false (r ++ ([] ∷ []))) here
    ∙ there
    ∙ ap (λ r. [] ∷ r) (squeeze-squeeze true xs)
    ∙ sym here
squeeze-squeeze b ((c ∷ x) ∷ xs) =
    let filled : IsFilled (c ∷ x) = unfold text_eq in refl in
    let here = squeeze_filled b (c ∷ x) (xs ++ ([] ∷ [])) filled in
    ap (λ r. squeeze b (r ++ ([] ∷ []))) here
    ∙ squeeze_filled b (c ∷ x) (squeeze false (xs ++ ([] ∷ [])) ++ ([] ∷ [])) filled
    ∙ ap (λ r. (c ∷ x) ∷ r) (squeeze-squeeze false xs)
    ∙ sym here

pub squeeze-IsPlain : (b : Bool) (xs : List Text) → All IsPlain xs → All IsPlain (squeeze b xs)
squeeze-IsPlain b [] h = unfold squeeze in tt
squeeze-IsPlain b (x ∷ xs) (hx, h) = elim (Bool-cases (b && text_eq x [])) [
  | inl skipped ↦ rw (squeeze_step b x xs, skipped) (squeeze-IsPlain (text_eq x []) xs h)
  | inr stays ↦ rw (squeeze_step b x xs, stays) (hx, squeeze-IsPlain (text_eq x []) xs h)
]

pub records_of-IsFilled : (hosts : Dict Text) → All IsFilled (records_of hosts)
unfolding records_of
records_of-IsFilled [] = tt
records_of-IsFilled ((host, ip) ∷ hosts) = go ip host hosts (records_of-IsFilled hosts)
  where
    go :
        (ip host : Text) (hosts : Dict Text)
        → All IsFilled (records_of hosts)
        → All IsFilled (records_of ((host, ip) ∷ hosts))
    go [] host hosts h = unfold text_eq in h
    go (c ∷ ip) host hosts h = unfold text_eq in (refl, h)
