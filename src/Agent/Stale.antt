-- ===== src/Agent/Stale.antt =====
-- cleanupStaleChassis of agent.go: the tracking of chassis that managed routes name and that the SB
-- database no longer has. Durations and times are numbers of nanoseconds.
pub mod Grace
pub mod Passes
use ovn_network_agent.Prelude.{
  ℕ, zero, suc, ◌+◌, ◌-◌, ◌*◌, ◌/◌, ◌%◌, ◌^◌, ◌≤◌, ◌<◌, String, ◌≡◌, refl, sym, ap, ◌∙◌, ◌≢◌, ◌↔◌,
  ◌⊎◌, inl, inr, Bool, true, false, ◌&&◌, ◌||◌, not, Option, none, some, List, [], ◌∷◌, ◌++◌, map,
  arith, ltb, leb, nat_beq, if◌then◌else◌, ltb→lt, leb→le, Bool-cases, Option-cases, is_some,
  Comparable, ◌==◌, nat_eq, string_eq, bool_eq, pair_eq, length, is_empty, filter, any, all, All,
  length-append, length-filter, filter-append, all-append, any-append, all-filter, all-filter_self,
  contains, eq_self, contains-append, contains-filter, all-contains, without, contains-without,
  lookup, insert, keys, remove, lookup-insert, lookup-remove, contains-keys-insert, contains-keys,
  Nodup, str_leb, trim_space, sort_strings, contains-sort_strings, Nodup-sort_strings,
  all-sort_strings, nil_of_contains, not_nil_of_contains, trim_suffix, cut_prefix, split_on,
  fields_func, lower_code, is_space, insert_by, sort_by, ℤ, pos, negsuc, pos_part, neg_part, ◌≤ℤ◌,
  int_leb, int_leb_iff, int_eq, All-map, All-pi,
}

-- What one pass reads: the chassis that managed routes name, `none` if their listing failed, all
-- chassis of the snapshot, the time, and whether a cleanup succeeds.
pub record StalePass : Type 0 where
  pub referenced : Option (List String)
  pub all_chassis : List String
  pub now : ℕ
  pub cleanup_ok : Bool

abbrev pub Missing : Type 0
Missing = List (String × ℕ)

unfoldable pub track_one : List String → ℕ → String → Missing → Missing
track_one all_chassis now c m =
    if contains all_chassis c
    then remove c m
    else if is_some (lookup c m)
    then m
    else insert c now m

-- the loop over the chassis that are named
unfoldable pub track : List String → ℕ → List String → Missing → Missing
track all_chassis now [] m = m
track all_chassis now (c ∷ cs) m = track all_chassis now cs (track_one all_chassis now c m)

unfoldable pub prune : List String → Missing → Missing
prune referenced m = filter (λ e. contains referenced e.0) m

unfoldable pub exceeded : ℕ → ℕ → Missing → List String
exceeded effective_grace now m = keys (filter (λ e. leb (e.1 + effective_grace) now) m)

-- the cleanup, with the tracker that it leaves and the chassis that it was asked to clean up
clean_up : Bool → List String → Missing → Missing × List String
clean_up ok stale m =
    if is_empty stale
    then (m, [])
    else (if ok then filter (λ e. not (contains stale e.0)) m else m, stale)

pass_listed : ℕ → StalePass → Option (List String) → Missing → Missing × List String
pass_listed effective_grace p none m = (m, [])
pass_listed effective_grace p (some referenced) m =
    let tracked = prune referenced (track p.all_chassis p.now referenced m) in
    clean_up p.cleanup_ok (exceeded effective_grace p.now tracked) tracked

unfoldable pub cleanup_stale_chassis : ℕ → ℕ → StalePass → Missing → Missing × List String
unfolding pass_listed clean_up
cleanup_stale_chassis grace jitter p m =
    if grace == 0 then (m, []) else pass_listed (grace + jitter) p p.referenced m

-- passes one after the other, with what each was asked to clean up
unfoldable pub stale_passes : ℕ → ℕ → List StalePass → Missing → Missing × List (List String)
stale_passes grace jitter [] m = (m, [])
stale_passes grace jitter (p ∷ ps) m =
    let (m', stale) = cleanup_stale_chassis grace jitter p m in
    let (end, later) = stale_passes grace jitter ps m' in (end, stale ∷ later)
