-- ===== src/Hosts.antt =====
-- pkg/kt/service/dns/hosts.go: the block of records that the program keeps in the hosts file.
-- A file is the list of its lines; reading it, the file lock and the options are arguments.
pub mod Squeeze
pub mod Block
pub mod Cycle
mod Tests
use kt_connect.Common.{
  ℕ, zero, suc, ◌+◌, ◌-◌, ◌≡◌, Bool, true, false, not, ◌&&◌, ◌||◌, Option, none, some, List, [],
  ◌∷◌, ◌++◌, ltb, leb, ◌==◌, if◌then◌else◌, length, take, drop, Text, text_eq, codes,
}
use kt_connect.Common.Dict.{Dict}
use kt_connect.Common.Outcome.{Outcome, ok, err, panic, ◌>>=◌}
use kt_connect.Strings.{has_suffix}

abbrev pub escape_begin : Text
escape_begin = codes "# Kt Hosts Begin"

abbrev pub escape_end : Text
escape_end = codes "# Kt Hosts End"

-- What dropHosts reads of the options, and the match of the regular expression `.+ [^.]+$`.
pub record Options : Type 0 where
  pub namespace : Text
  pub cluster_domain : Text
  pub is_short_domain : Text → Bool

-- The marks that were met: line numbers, `none` for -1.
pub record Marks : Type 0 where
  pub begin_at : Option ℕ
  pub end_at : Option ℕ
  pub kept : List Text

abbrev is_some : Option ℕ → Bool
is_some none = false
is_some (some _) = true

-- Whether a record inside the block is kept.
unfoldable pub is_kept : Options → Text → Text → Bool
is_kept o namespace_to_drop l =
    if o.is_short_domain l
    then not (text_eq namespace_to_drop o.namespace)
    else not (has_suffix l (b'.' ∷ namespace_to_drop))
      && not (has_suffix l (b'.' ∷ (namespace_to_drop ++ (codes ".svc." ++ o.cluster_domain))))

-- One line of the loop of dropHosts.
unfoldable pub scan_line : Options → Text → ℕ → Text → Marks → Marks
unfolding is_kept
scan_line o namespace_to_drop i l m =
    if text_eq l escape_begin
    then record m { begin_at = some i }
    else if text_eq l escape_end
    then record m { end_at = some i }
    else if is_some m.begin_at
        && not (is_some m.end_at)
        && not (text_eq namespace_to_drop [])
        && is_kept o namespace_to_drop l
    then record m { kept = m.kept ++ (l ∷ []) }
    else m

-- The loop of dropHosts.
unfoldable pub scan : Options → Text → ℕ → List Text → Marks → Marks
unfolding scan_line
scan o namespace_to_drop i [] m = m
scan o namespace_to_drop i (l ∷ ls) m =
    scan o namespace_to_drop (suc i) ls (scan_line o namespace_to_drop i l m)

abbrev pub no_marks : Marks
no_marks = record { begin_at = none; end_at = none; kept = [] }

-- The cuts of dropHosts. An end mark in the first line alone counts for none.
unfoldable pub cut : List Text → List Text → Option ℕ → Option ℕ → Outcome (List Text × List Text)
cut raw_lines kept (some b) (some e) =
    if ltb e b
    then err
    else if ltb 0 e
    then ok (take b raw_lines ++ drop (suc e) raw_lines, kept)
    else err
cut raw_lines kept (some b) none = err
cut raw_lines kept none (some e) = if ltb 0 e then err else ok (raw_lines, [])
cut raw_lines kept none none = ok (raw_lines, [])

-- dropHosts
unfoldable pub drop_hosts : Options → List Text → Text → Outcome (List Text × List Text)
unfolding scan cut
drop_hosts o raw_lines namespace_to_drop =
    let m = scan o namespace_to_drop 0 raw_lines no_marks in
    cut raw_lines m.kept m.begin_at m.end_at

-- The records of dumpHosts.
unfoldable pub records_of : Dict Text → List Text
records_of [] = []
records_of ((host, ip) ∷ hosts) =
    let rest = records_of hosts in if text_eq ip [] then rest else (ip ++ (b' ' ∷ host)) ∷ rest

-- dumpHosts
unfoldable pub dump_hosts : Dict Text → List Text → List Text
unfolding records_of
dump_hosts hosts_map lines_to_keep =
    escape_begin ∷ (records_of hosts_map ++ (lines_to_keep ++ (escape_end ∷ [])))

-- mergeLines: the array has an empty line before and after the second part.
unfoldable pub merge_lines : List Text → List Text → List Text
merge_lines lines_before lines_after = lines_before ++ ([] ∷ (lines_after ++ ([] ∷ [])))

-- The loop of updateHostsFile: of empty lines in a row one is written.
unfoldable pub squeeze : Bool → List Text → List Text
squeeze continual_empty_line [] = []
squeeze continual_empty_line (l ∷ lines) =
    let rest = squeeze (text_eq l []) lines in
    if continual_empty_line && text_eq l [] then rest else l ∷ rest

-- updateHostsFile, as the lines that are written
unfoldable pub update_hosts_file : List Text → List Text
unfolding squeeze
update_hosts_file lines = squeeze false lines

-- What DropHosts writes: nothing, if no line went.
unfoldable pub dropped_file : List Text → Outcome (List Text × List Text) → List Text
unfolding update_hosts_file
dropped_file lines (ok (after, _)) =
    if ltb (length after) (length lines) then update_hosts_file after else lines
dropped_file lines err = lines
dropped_file lines panic = lines

-- DropHosts: the file and the mark that forbids later dumps.
unfoldable pub drop_hosts_of_file : Options → List Text → List Text × Bool
unfolding dropped_file drop_hosts
drop_hosts_of_file o lines = (dropped_file lines (drop_hosts o lines []), true)

-- DumpHosts
unfoldable pub dump_hosts_to_file :
    Options → Bool → Dict Text → Text → List Text → Outcome (List Text)
unfolding update_hosts_file merge_lines dump_hosts drop_hosts
dump_hosts_to_file o do_not_dump hosts_map namespace_to_drop lines =
    if do_not_dump then ok lines else (do
      (before, kept) ← drop_hosts o lines namespace_to_drop
      ok (update_hosts_file (merge_lines before (dump_hosts hosts_map kept))))
