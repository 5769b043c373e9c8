-- ===== src/Hosts/Block.antt =====
-- DumpHosts and DropHosts: the block is added behind the file's own lines and taken out again.
use kt_connect.Common.{
  ℕ, zero, suc, ◌+◌, ◌≡◌, refl, sym, ap, ◌∙◌, true, false, Option, none, some, List, [], ◌∷◌, ◌++◌,
  append_assoc, arith, ltb, length, length-append, take, drop, Text, text_eq, text_eq_refl, All,
}
use kt_connect.Common.Outcome.{ok}
use kt_connect.Hosts.{
  Options, Marks, escape_begin, escape_end, no_marks, scan_line, scan, cut, drop_hosts,
}
use kt_connect.Hosts.Squeeze.{IsPlain}

module _ (o : Options) where
  scan-append :
      (ns : Text) (i : ℕ) (xs ys : List Text) (m : Marks)
      → scan o ns i (xs ++ ys) m ≡ scan o ns (i + length xs) ys (scan o ns i xs m)
  unfolding scan
  scan-append ns i [] ys m = ap (λ n. scan o ns n ys m) (omega arith)
  scan-append ns i (x ∷ xs) ys m =
      scan-append ns (suc i) xs ys (scan_line o ns i x m)
      ∙ ap (λ n. scan o ns n ys (scan o ns (suc i) xs (scan_line o ns i x m))) (omega arith)

  scan-cons :
      (ns : Text) (i : ℕ) (x : Text) (xs : List Text) (m : Marks)
      → scan o ns i (x ∷ xs) m ≡ scan o ns (suc i) xs (scan_line o ns i x m)
  unfolding scan
  scan-cons ns i x xs m = refl

  scan_line_outside :
      (ns : Text) (i : ℕ) (x : Text) (m : Marks)
      → IsPlain x
      → m.begin_at ≡ none
      → scan_line o ns i x m ≡ m
  unfolding scan_line
  scan_line_outside ns i x m (hb, he) h = rw (hb, he, h) refl

  -- Plain lines before the block change nothing.
  scan_outside :
      (ns : Text) (i : ℕ) (xs : List Text) (m : Marks)
      → m.begin_at ≡ none
      → All IsPlain xs
      → scan o ns i xs m ≡ m
  scan_outside ns i [] m h hs = unfold scan in refl
  scan_outside ns i (x ∷ xs) m h (hx, hs) =
      scan-cons ns i x xs m
      ∙ ap (scan o ns (suc i) xs) (scan_line_outside ns i x m hx h)
      ∙ scan_outside ns (suc i) xs m h hs

  scan_line_plain : (i : ℕ) (x : Text) (m : Marks) → IsPlain x → scan_line o [] i x m ≡ m
  unfolding scan_line
  scan_line_plain i x m (hb, he) = rw (hb, he, text_eq_refl []) (ground arith)

  -- Without a namespace, plain lines change nothing anywhere.
  scan_plain : (i : ℕ) (xs : List Text) (m : Marks) → All IsPlain xs → scan o [] i xs m ≡ m
  scan_plain i [] m hs = unfold scan in refl
  scan_plain i (x ∷ xs) m (hx, hs) =
      scan-cons [] i x xs m
      ∙ ap (scan o [] (suc i) xs) (scan_line_plain i x m hx)
      ∙ scan_plain (suc i) xs m hs

  -- The marks of a file with one block.
  scan_block :
      (before inside behind : List Text)
      → All IsPlain before
      → All IsPlain inside
      → All IsPlain behind
      → scan o [] 0 (before ++ (escape_begin ∷ (inside ++ (escape_end ∷ behind)))) no_marks
        ≡ record {
          begin_at = some (length before);
          end_at = some (suc (length before) + length inside);
          kept = [];
        }
  scan_block before inside behind hb hi he =
      scan-append [] 0 before (escape_begin ∷ (inside ++ (escape_end ∷ behind))) no_marks
      ∙ ap (scan o [] (0 + length before) (escape_begin ∷ (inside ++ (escape_end ∷ behind))))
          (scan_plain 0 before no_marks hb)
      ∙ ap (λ n. scan o [] n (escape_begin ∷ (inside ++ (escape_end ∷ behind))) no_marks)
          (omega arith)
      ∙ scan-cons [] (length before) escape_begin (inside ++ (escape_end ∷ behind)) no_marks
      ∙ ap (scan o [] (suc (length before)) (inside ++ (escape_end ∷ behind)))
          (begun (length before))
      ∙ scan-append [] (suc (length before)) inside (escape_end ∷ behind) _
      ∙ ap (scan o [] (suc (length before) + length inside) (escape_end ∷ behind))
          (scan_plain (suc (length before)) inside _ hi)
      ∙ scan-cons [] (suc (length before) + length inside) escape_end behind _
      ∙ ap (scan o [] (suc (suc (length before) + length inside)) behind)
          (ended (suc (length before) + length inside) (some (length before)))
      ∙ scan_plain (suc (suc (length before) + length inside)) behind _ he
    where
      begun :
          (i : ℕ)
          → scan_line o [] i escape_begin no_marks
            ≡ record { begin_at = some i; end_at = none; kept = [] }
      begun i = unfold scan_line text_eq in refl

      ended :
          (i : ℕ) (b : Option ℕ)
          → scan_line o [] i escape_end (record { begin_at = b; end_at = none; kept = [] })
            ≡ record { begin_at = b; end_at = some i; kept = [] }
      ended i b = unfold scan_line text_eq in refl

take_append : (xs ys : List Text) → take (length xs) (xs ++ ys) ≡ xs
take_append [] ys = refl
take_append (x ∷ xs) ys = ap (λ r. x ∷ r) (take_append xs ys)

drop_append : (n : ℕ) (xs ys : List Text) → n ≡ length xs → drop n (xs ++ ys) ≡ ys
drop_append zero [] ys h = refl
drop_append (suc n) [] ys h = absurd (omega (arith, h))
drop_append zero (x ∷ xs) ys h = absurd (omega (arith, h))
drop_append (suc n) (x ∷ xs) ys h = drop_append n xs ys (omega (arith, h))

-- A block, its marks included, with what stands before and behind it.
abbrev pub file_of : List Text → List Text → List Text → List Text
file_of before inside behind = before ++ (escape_begin ∷ (inside ++ (escape_end ∷ behind)))

behind_block :
    (before inside behind : List Text)
    → drop (suc (suc (length before) + length inside)) (file_of before inside behind) ≡ behind
behind_block before inside behind =
    let shape : file_of before inside behind
        ≡ (before ++ (escape_begin ∷ (inside ++ (escape_end ∷ [])))) ++ behind =
      ap (λ r. before ++ (escape_begin ∷ r)) (sym (append_assoc inside (escape_end ∷ []) behind))
      ∙ sym (append_assoc before (escape_begin ∷ (inside ++ (escape_end ∷ []))) behind) in
    ap (drop (suc (suc (length before) + length inside))) shape
    ∙ drop_append (suc (suc (length before) + length inside))
        (before ++ (escape_begin ∷ (inside ++ (escape_end ∷ [])))) behind
        (omega (
          arith,
          length-append before (escape_begin ∷ (inside ++ (escape_end ∷ []))),
          length-append inside (escape_end ∷ []),
        ))

cut_block :
    (before inside behind kept : List Text)
    → cut
        (file_of before inside behind)
        kept
        (some (length before))
        (some (suc (length before) + length inside))
      ≡ ok (before ++ behind, kept)
cut_block before inside behind kept =
    let ordered : ltb (suc (length before) + length inside) (length before) ≡ false =
      ground arith in
    let later : ltb 0 (suc (length before) + length inside) ≡ true = ground arith in
    unfold cut in
    rw
      (
        ordered,
        later,
        take_append before (escape_begin ∷ (inside ++ (escape_end ∷ behind))),
        behind_block before inside behind,
      )
      refl

module _ (o : Options) where
  pub drop_hosts_block :
      (before inside behind : List Text)
      → All IsPlain before
      → All IsPlain inside
      → All IsPlain behind
      → drop_hosts o (file_of before inside behind) [] ≡ ok (before ++ behind, [])
  drop_hosts_block before inside behind hb hi he =
      let marks = scan_block o before inside behind hb hi he in
      unfold drop_hosts in rw marks (cut_block before inside behind [])

  pub drop_hosts_plain :
      (ns : Text) (lines : List Text) → All IsPlain lines → drop_hosts o lines ns ≡ ok (lines, [])
  drop_hosts_plain ns lines h =
      unfold drop_hosts in rw (scan_outside o ns 0 lines no_marks refl h) (unfold cut in refl)
