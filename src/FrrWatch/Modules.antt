-- ===== src/FrrWatch/Modules.antt =====
-- parseFRRModules: the process IDs in the answer to "show modules".
use ovn_network_agent.Prelude.{
  ℕ, ◌+◌, ◌-◌, ◌*◌, ◌^◌, ◌<◌, String, ◌≡◌, refl, inl, inr, true, ◌&&◌, not, Option, none, some,
  List, [], ◌∷◌, arith, ltb, leb, if◌then◌else◌, Option-cases, ◌==◌, nat_eq, string_eq, bool_eq,
  pair_eq, is_empty, all, insert, keys, contains-keys-insert, Nodup, trim_space, cut_prefix,
}
use Prim.Native.Char.{Char, code}
use ovn_network_agent.FrrWatch.{Incarnation}
use ovn_network_agent.FrrWatch.Changes.{IsWellFormed}

prepend : Char → Option String → Option String
prepend c none = none
prepend c (some s) = some (String.◌∷◌ c s)

-- strings.CutSuffix
cut_suffix : String → String → Option String
unfolding prepend
cut_suffix suffix String.[] = if suffix == "" then some "" else none
cut_suffix suffix (String.◌∷◌ c s) =
    let rest = prepend c (cut_suffix suffix s) in if suffix == String.◌∷◌ c s then some "" else rest

push : Char → List String → List String
push c [] = String.◌∷◌ c String.[] ∷ []
push c (l ∷ ls) = String.◌∷◌ c l ∷ ls

-- strings.Lines, without the newlines, which the trimming takes away
lines : String → List String
unfolding push
lines String.[] = []
lines (String.◌∷◌ c s) = let rest = lines s in if code c == 10 then "" ∷ rest else push c rest

digits : ℕ → String → Option ℕ
digits n String.[] = some n
digits n (String.◌∷◌ c s) =
    let d = code c in
    let rest = digits (10 * n + (d - 48)) s in if leb 48 d && leb d 57 then rest else none

in_range : Option ℕ → Option ℕ
in_range none = none
in_range (some n) = if ltb 0 n && ltb n (2 ^ 63) then some n else none

-- strconv.Atoi where its result is positive: a sign, which is `+`, digits, the range of an int
positive_int : String → Option ℕ
unfolding digits in_range
positive_int String.[] = none
positive_int (String.◌∷◌ c s) =
    if code c == b'+' && not (s == "")
    then in_range (digits 0 s)
    else in_range (digits 0 (String.◌∷◌ c s))

-- the loop's variables: the daemon of the section, and the map
abbrev pub Scan : Type 0
Scan = String × Incarnation

section_name : Option String → String
section_name none = ""
section_name (some name) = name

record_pid : String → Option ℕ → Incarnation → Incarnation
record_pid daemon none inc = inc
record_pid daemon (some pid) inc = insert daemon pid inc

-- a line that is no header
pid_line : Scan → Option String → Scan
unfolding record_pid positive_int
pid_line (daemon, inc) none = (daemon, inc)
pid_line (daemon, inc) (some rest) =
    if daemon == ""
    then (daemon, inc)
    else ("", record_pid daemon (positive_int (trim_space rest)) inc)

header_or_pid : Scan → String → Option String → Scan
unfolding section_name cut_suffix pid_line cut_prefix
header_or_pid (daemon, inc) line (some rest) = (section_name (cut_suffix ":" rest), inc)
header_or_pid scan line none = pid_line scan (cut_prefix "pid:" line)

parse_lines : Scan → List String → Incarnation
unfolding header_or_pid
parse_lines scan [] = scan.1
parse_lines scan (l ∷ ls) =
    let line = trim_space l in
    parse_lines (header_or_pid scan line (cut_prefix "Module information for " line)) ls

-- `none` is errFRRModulesUnparsed
unfoldable pub parse_frr_modules : String → Option Incarnation
unfolding parse_lines lines
parse_frr_modules out =
    let inc = parse_lines ("", []) (lines out) in if is_empty inc then none else some inc

-- the answer of two daemons, with a warning of vtysh between them
answer_of_two :
    parse_frr_modules
      "Module information for zebra:\n pid: 41\nwarning\nModule information for bgpd:\n pid: 7\n"
    ≡ some (("zebra", 41) ∷ ("bgpd", 7) ∷ [])
unfolding parse_frr_modules trim_space
answer_of_two = refl

-- every process ID that has been recorded is positive, and no daemon stands twice
abbrev IsGood : Incarnation → Type 0
IsGood inc = (all (λ e. ltb 0 e.1) inc ≡ true) × Nodup (keys inc)

IsGood-insert :
    (daemon : String) (pid : ℕ) (inc : Incarnation)
    → 0 < pid
    → IsGood inc
    → IsGood (insert daemon pid inc)
IsGood-insert daemon pid [] pos g = (ground arith, (refl, tt))
IsGood-insert daemon pid ((j, v) ∷ inc) pos g = ground (
  arith,
  IsGood-insert daemon pid inc,
  contains-keys-insert daemon j pid inc,
  string_eq.same_iff daemon j,
  string_eq.same_iff j daemon,
)

positive-in_range : (o : Option ℕ) (n : ℕ) → in_range o ≡ some n → 0 < n
unfolding in_range
positive-in_range none n h = cc
positive-in_range (some m) n h = ground arith

positive-positive_int : (s : String) (n : ℕ) → positive_int s ≡ some n → 0 < n
unfolding positive_int
positive-positive_int String.[] n h = cc
positive-positive_int (String.◌∷◌ c s) n h =
    ground
      (arith, positive-in_range (digits 0 s) n, positive-in_range (digits 0 (String.◌∷◌ c s)) n)

IsGood-record_pid :
    (daemon text : String) (inc : Incarnation)
    → IsGood inc
    → IsGood (record_pid daemon (positive_int text) inc)
unfolding record_pid
IsGood-record_pid daemon text inc g = elim (Option-cases (positive_int text)) [
  | inl e ↦ rw (e, record_pid) g
  | inr (pid, e) ↦
      rw (e, record_pid) (IsGood-insert daemon pid inc (positive-positive_int text pid e) g)
]

IsGood-pid_line : (scan : Scan) (o : Option String) → IsGood scan.1 → IsGood (pid_line scan o).1
unfolding pid_line
IsGood-pid_line (daemon, inc) none g = g
IsGood-pid_line (daemon, inc) (some rest) g =
    ground (arith, IsGood-record_pid daemon (trim_space rest) inc)

IsGood-header_or_pid :
    (scan : Scan) (line : String) (o : Option String)
    → IsGood scan.1
    → IsGood (header_or_pid scan line o).1
unfolding header_or_pid
IsGood-header_or_pid (daemon, inc) line none g =
    IsGood-pid_line (daemon, inc) (cut_prefix "pid:" line) g
IsGood-header_or_pid (daemon, inc) line (some rest) g = g

IsGood-parse_lines : (scan : Scan) (ls : List String) → IsGood scan.1 → IsGood (parse_lines scan ls)
unfolding parse_lines
IsGood-parse_lines scan [] g = g
IsGood-parse_lines scan (l ∷ ls) g =
    let line = trim_space l in
    let o = cut_prefix "Module information for " line in
    IsGood-parse_lines (header_or_pid scan line o) ls (IsGood-header_or_pid scan line o g)

IsWellFormed-of_IsGood :
    (found inc : Incarnation)
    → IsGood found
    → (if is_empty found then none else some found) ≡ some inc
    → IsWellFormed inc
IsWellFormed-of_IsGood [] inc g h = cc
IsWellFormed-of_IsGood (e ∷ es) inc g h =
    let same : e ∷ es ≡ inc = cc in
    rw (← same) (record { unique = g.1; positive = g.0; some_daemon = refl })

-- An answer that is accepted names at least one daemon, none twice, and no process ID of 0.
pub parse_frr_modules-IsWellFormed :
    (out : String) (inc : Incarnation) → parse_frr_modules out ≡ some inc → IsWellFormed inc
unfolding parse_frr_modules
parse_frr_modules-IsWellFormed out inc h =
    IsWellFormed-of_IsGood (parse_lines ("", []) (lines out)) inc
      (IsGood-parse_lines ("", []) (lines out) (refl, tt)) h
