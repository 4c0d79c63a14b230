-- ===== src/Ovn/Loop.antt =====
-- refreshLoop of ovn.go, and the observation of a failover. Timers are Booleans: whether they run.
pub mod Signals
pub mod Observation
use ovn_network_agent.Prelude.{
  ℕ, zero, suc, ◌+◌, ◌-◌, ◌*◌, ◌/◌, ◌%◌, ◌^◌, ◌≤◌, ◌<◌, String, ◌≡◌, refl, sym, ap, ◌∙◌, ◌≢◌, ◌↔◌,
  ◌⊎◌, inl, inr, Bool, true, false, ◌&&◌, ◌||◌, not, Option, none, some, List, [], ◌∷◌, ◌++◌, map,
  arith, ltb, leb, nat_beq, if◌then◌else◌, ltb→lt, leb→le, Bool-cases, Option-cases, is_some,
  Comparable, ◌==◌, nat_eq, string_eq, bool_eq, pair_eq, length, is_empty, filter, any, all, All,
  length-append, length-filter, filter-append, all-append, any-append, all-filter, all-filter_self,
  contains, eq_self, contains-append, contains-filter, all-contains, without, contains-without,
  lookup, insert, keys, remove, lookup-insert, lookup-remove, contains-keys-insert, contains-keys,
  Nodup, str_leb, trim_space, sort_strings, contains-sort_strings, Nodup-sort_strings,
  all-sort_strings, nil_of_contains, not_nil_of_contains, trim_suffix, cut_prefix, split_on,
  fields_func, lower_code, is_space, insert_by, sort_by, ℤ, pos, negsuc, pos_part, neg_part, ◌≤ℤ◌,
  int_leb, int_leb_iff, int_eq, All-map, All-pi,
}

-- the two timers
pub record LoopState : Type 0 where
  pub debounce : Bool
  pub reconcile : Bool

-- what the select receives, but for the end of the context
pub data LoopInput : Type 0 where
  debounce_signal : LoopInput
  debounce_fire : LoopInput
  reconcile_fire : LoopInput
  immediate_signal : LoopInput

pub data LoopAction : Type 0 where
  refresh : LoopAction
  on_change : LoopAction

-- the call of the callback, if the client has one
called : Bool → List LoopAction
called has_callback = if has_callback then on_change ∷ [] else []

unfoldable pub loop_step : Bool → LoopState → LoopInput → LoopState × List LoopAction
unfolding called
loop_step has_callback s debounce_signal = (record s { debounce = true }, [])
loop_step has_callback s debounce_fire =
    (record { debounce = false; reconcile = s.reconcile || has_callback }, refresh ∷ [])
loop_step has_callback s reconcile_fire = (record s { reconcile = false }, called has_callback)
loop_step has_callback s immediate_signal =
    (record s { debounce = false }, refresh ∷ called has_callback)

unfoldable pub refresh_loop : Bool → LoopState → List LoopInput → LoopState × List LoopAction
refresh_loop has_callback s [] = (s, [])
refresh_loop has_callback s (i ∷ is) =
    let (s', now) = loop_step has_callback s i in
    let (end, later) = refresh_loop has_callback s' is in (end, now ++ later)

-- the observation that is pending, with the pass before it, and the number of passes begun
pub record Failover : Type 0 where
  pub observed : Option (ℕ × ℕ)
  pub refresh_seq : ℕ

-- the stamp of immediateStateRefresh at a time, on a client that is ready
unfoldable pub stamp_observed : Failover → ℕ → Failover
stamp_observed f now = elim f.observed [
  | none ↦ record f { observed = some (now, f.refresh_seq) }
  | some obs ↦ f
]

take_pending : Failover → Option (ℕ × ℕ) → ℕ → Failover × Option ℕ
take_pending f none snap_gen = (f, none)
take_pending f (some (at, gen)) snap_gen =
    if leb snap_gen gen then (f, none) else (record f { observed = none }, some at)

unfoldable pub take_failover_observed_at : Failover → ℕ → Failover × Option ℕ
unfolding take_pending
take_failover_observed_at f snap_gen = take_pending f f.observed snap_gen

-- a change is observed at a time, a pass begins, a reconcile takes with the generation of its
-- snapshot
pub data FailoverEvent : Type 0 where
  observe : ℕ → FailoverEvent
  begin_pass : FailoverEvent
  take : ℕ → FailoverEvent

unfoldable pub failover_step : Failover → FailoverEvent → Failover × Option ℕ
failover_step f (observe now) = (stamp_observed f now, none)
failover_step f begin_pass = (record f { refresh_seq = f.refresh_seq + 1 }, none)
failover_step f (take snap_gen) = take_failover_observed_at f snap_gen

unfoldable pub failover_run : Failover → List FailoverEvent → Failover × List (Option ℕ)
failover_run f [] = (f, [])
failover_run f (e ∷ es) =
    let (f', out) = failover_step f e in let (end, outs) = failover_run f' es in (end, out ∷ outs)
