-- ===== src/DriftWatch.antt =====
-- drift_watch.go: the loop of the route watch and of the flow watch. Times and durations are
-- numbers of nanoseconds; the zero time is `none`. What an event is and when it is drift is up to
-- the watch: here an event is drift or not.
pub mod Backoff
pub mod Rate
use ovn_network_agent.Prelude.{
  ℕ, zero, suc, ◌+◌, ◌-◌, ◌*◌, ◌/◌, ◌%◌, ◌^◌, ◌≤◌, ◌<◌, String, ◌≡◌, refl, sym, ap, ◌∙◌, ◌≢◌, ◌↔◌,
  ◌⊎◌, inl, inr, Bool, true, false, ◌&&◌, ◌||◌, not, Option, none, some, List, [], ◌∷◌, ◌++◌, map,
  arith, ltb, leb, nat_beq, if◌then◌else◌, ltb→lt, leb→le, Bool-cases, Option-cases, is_some,
  Comparable, ◌==◌, nat_eq, string_eq, bool_eq, pair_eq, length, is_empty, filter, any, all, All,
  length-append, length-filter, filter-append, all-append, any-append, all-filter, all-filter_self,
  contains, eq_self, contains-append, contains-filter, all-contains, without, contains-without,
  lookup, insert, keys, remove, lookup-insert, lookup-remove, contains-keys-insert, contains-keys,
  Nodup, str_leb, trim_space, sort_strings, contains-sort_strings, Nodup-sort_strings,
  all-sort_strings, nil_of_contains, not_nil_of_contains, trim_suffix, cut_prefix, split_on,
  fields_func, lower_code, is_space, insert_by, sort_by, ℤ, pos, negsuc, pos_part, neg_part, ◌≤ℤ◌,
  int_leb, int_leb_iff, int_eq, All-map, All-pi,
}
use Prim.Native.Nat.{min, max}

-- the settings of driftWatcher
pub record Settings : Type 0 where
  pub debounce : ℕ
  pub min_interval : ℕ
  pub backoff_min : ℕ
  pub backoff_max : ℕ

unfoldable pub next_backoff : ℕ → ℕ → ℕ → ℕ → ℕ
next_backoff prev lived lo hi = if prev == 0 || leb hi lived then lo else min (2 * prev) hi

-- the variables of `consume`: the time of the last trigger, and when the timer fires
pub record Pending : Type 0 where
  pub last_trigger : Option ℕ
  pub fires_at : Option ℕ

-- What the select of `consume` receives, where the end of the channel and the timer say whether the
-- context is done by then.
pub data Input : Type 0 where
  cancelled : Input
  closed : Bool → Input
  drift : Input
  other : Input
  fire : Bool → Input

-- max(debounce, minInterval - time.Since(lastTrigger)), where the difference may be negative
wait : Settings → Option ℕ → ℕ → ℕ
wait w none now = w.debounce
wait w (some last) now = max w.debounce (w.min_interval - (now - last))

arm : Settings → Pending → ℕ → Pending
unfolding wait
arm w p now = elim p.fires_at [
  | none ↦ record p { fires_at = some (now + wait w p.last_trigger now) }
  | some at ↦ p
]

-- fireTrigger: the pending state, and whether it called `trigger`
fire_trigger : Pending → Bool → ℕ → Pending × Bool
fire_trigger p ctx_done now =
    if ctx_done
    then (record p { fires_at = none }, false)
    else (record { last_trigger = some now; fires_at = none }, true)

-- The pending state after one input, and whether the input called `trigger`. A closed channel
-- does not leave a pending trigger to its timer.
unfoldable pub consume_step : Settings → Pending → Input → ℕ → Pending × Bool
unfolding arm fire_trigger
consume_step w p drift now = (arm w p now, false)
consume_step w p (fire ctx_done) now = fire_trigger p ctx_done now
consume_step w p (closed ctx_done) now =
    if is_some p.fires_at then fire_trigger p ctx_done now else (p, false)
consume_step w p other now = (p, false)
consume_step w p cancelled now = (record p { fires_at = none }, false)

-- the inputs after which `consume` returns
unfoldable pub ends : Input → Bool
ends cancelled = true
ends (closed ctx_done) = true
ends _ = false

noted : Bool → ℕ → List ℕ → List ℕ
noted triggered now times = if triggered then now ∷ times else times

-- the loop over the inputs and their times: the time it returns, and the times of the triggers
unfoldable pub consume : Settings → Pending → List (Input × ℕ) → Option ℕ × List ℕ
unfolding noted
consume w p [] = (p.last_trigger, [])
consume w p ((input, now) ∷ rest) =
    let (p', triggered) = consume_step w p input now in
    let (last, times) = consume w p' rest in
    if ends input
    then (p'.last_trigger, noted triggered now [])
    else (last, noted triggered now times)

-- the loop of `run`: the wait, whether an outage was warned of
pub record RunState : Type 0 where
  pub backoff : ℕ
  pub outage : Bool

-- one pass: the subscribe failed, or its subscription held for a time
pub data Outcome : Type 0 where
  failed : Outcome
  held : ℕ → Outcome

pub record Report : Type 0 where
  pub warned : Bool
  pub back : Bool

unfoldable pub run_step : Settings → RunState → Outcome → RunState × Report
run_step w s failed = (
  record { backoff = next_backoff s.backoff 0 w.backoff_min w.backoff_max; outage = true },
  record { warned = not s.outage; back = false },
)
run_step w s (held lived) = (
  record { backoff = next_backoff s.backoff lived w.backoff_min w.backoff_max; outage = true },
  record { warned = true; back = s.outage },
)

unfoldable pub run_steps : Settings → RunState → List Outcome → RunState × List Report
run_steps w s [] = (s, [])
run_steps w s (o ∷ os) =
    let (s', r) = run_step w s o in let (end, rs) = run_steps w s' os in (end, r ∷ rs)
