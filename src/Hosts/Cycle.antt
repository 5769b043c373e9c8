-- ===== src/Hosts/Cycle.antt =====
-- DumpHosts, and DropHosts behind it.
use kt_connect.Common.{
  ◌≡◌, ◌<◌, refl, ap, ◌∙◌, true, false, List, [], ◌∷◌, ◌++◌, append_assoc, arith, ltb, length,
  length-append, Text, text_eq, All, All-append,
}
use kt_connect.Common.Dict.{Dict}
use kt_connect.Common.Outcome.{ok}
use kt_connect.Hosts.{
  Options, escape_begin, escape_end, drop_hosts, records_of, dump_hosts, merge_lines, squeeze,
  update_hosts_file, dropped_file, drop_hosts_of_file, dump_hosts_to_file,
}
use kt_connect.Hosts.Squeeze.{
  IsPlain, IsFilled, squeeze_filled, squeeze_filled_append, squeeze-append, squeeze-squeeze,
  squeeze-IsPlain, records_of-IsFilled,
}
use kt_connect.Hosts.Block.{file_of, drop_hosts_block, drop_hosts_plain}

-- The file's own lines as the program writes them.
abbrev pub own_lines : List Text → List Text
own_lines lines = squeeze false (lines ++ ([] ∷ []))

dumped_file :
    (hosts : Dict Text) (lines : List Text)
    → update_hosts_file (merge_lines lines (dump_hosts hosts []))
      ≡ file_of (own_lines lines) (records_of hosts) ([] ∷ [])
unfolding update_hosts_file merge_lines dump_hosts
dumped_file hosts lines =
    let tail = records_of hosts ++ (escape_end ∷ []) in
    squeeze-append false lines (escape_begin ∷ (tail ++ ([] ∷ [])))
    ∙ ap (λ r. own_lines lines ++ r)
        (squeeze_filled true escape_begin (tail ++ ([] ∷ [])) begin_filled
          ∙ ap (λ r. escape_begin ∷ squeeze false r)
              (append_assoc (records_of hosts) (escape_end ∷ []) ([] ∷ []))
          ∙ ap (λ r. escape_begin ∷ r)
              (squeeze_filled_append (records_of hosts) (escape_end ∷ ([] ∷ []))
                  (records_of-IsFilled hosts)
                ∙ ap (λ r. records_of hosts ++ r)
                    (squeeze_filled false escape_end ([] ∷ []) end_filled
                      ∙ ap (λ r. escape_end ∷ r) one_blank)))
  where
    begin_filled : IsFilled escape_begin
    begin_filled = unfold text_eq in refl

    end_filled : IsFilled escape_end
    end_filled = unfold text_eq in refl

    one_blank : squeeze false ([] ∷ []) ≡ [] ∷ []
    one_blank = unfold squeeze text_eq in refl

module _ (o : Options) where
  dump_step :
      (hosts : Dict Text) (ns : Text) (lines : List Text)
      → All IsPlain lines
      → dump_hosts_to_file o false hosts ns lines
        ≡ ok (update_hosts_file (merge_lines lines (dump_hosts hosts [])))
  unfolding dump_hosts_to_file
  dump_step hosts ns lines h = rw (drop_hosts_plain o ns lines h) refl

  drop_step :
      (file after : List Text)
      → drop_hosts o file [] ≡ ok (after, [])
      → length after < length file
      → (drop_hosts_of_file o file).0 ≡ update_hosts_file after
  drop_step file after dropped shorter =
      let less : ltb (length after) (length file) ≡ true = ground arith in
      unfold drop_hosts_of_file in rw (dropped, dropped_file, less) refl

  -- For a hosts file and records of which no line is one of the marks: DumpHosts succeeds and puts
  -- the block behind the file's own lines, in which of empty lines in a row one is kept and at whose
  -- end an empty line stands; DropHosts then writes exactly these lines of the file's own.
  pub drop_hosts-dump_hosts :
      (hosts : Dict Text) (ns : Text) (lines : List Text)
      → All IsPlain lines
      → All IsPlain (records_of hosts)
      → (file : List Text) × ((dump_hosts_to_file o false hosts ns lines ≡ ok file)
          × ((file ≡ file_of (own_lines lines) (records_of hosts) ([] ∷ []))
              × ((drop_hosts_of_file o file).0 ≡ own_lines lines)))
  drop_hosts-dump_hosts hosts ns lines hl hr =
      let own = own_lines lines in
      let file = file_of own (records_of hosts) ([] ∷ []) in
      let plain_blank : All IsPlain ([] ∷ []) =
        ((unfold text_eq in refl, unfold text_eq in refl), tt) in
      let plain_own : All IsPlain own =
        squeeze-IsPlain false (lines ++ ([] ∷ []))
          (All-append IsPlain lines ([] ∷ []) hl plain_blank) in
      let dropped : drop_hosts o file [] ≡ ok (own ++ ([] ∷ []), []) =
        drop_hosts_block o own (records_of hosts) ([] ∷ []) plain_own hr plain_blank in
      let shorter : length (own ++ ([] ∷ [])) < length file = omega (
        arith,
        length-append own ([] ∷ []),
        length-append own (escape_begin ∷ (records_of hosts ++ (escape_end ∷ ([] ∷ [])))),
        length-append (records_of hosts) (escape_end ∷ ([] ∷ [])),
      ) in
      (
        file,
        (
          dump_step hosts ns lines hl ∙ ap ok (dumped_file hosts lines),
          (refl, drop_step file (own ++ ([] ∷ [])) dropped shorter ∙ written own lines),
        ),
      )
    where
      written :
          (own lines : List Text)
          → update_hosts_file (own_lines lines ++ ([] ∷ [])) ≡ own_lines lines
      written own lines = unfold update_hosts_file in squeeze-squeeze false lines
