-- ===== src/FrrWatch.antt =====
-- frr_watch.go: the decision logic of the watch for FRR restarts. A time is a number of
-- nanoseconds; Go's zero time is `none`, and so is a nil map. A poll is `none` where it failed.
pub mod Modules
pub mod Changes
pub mod Runs
pub mod Detection
use ovn_network_agent.Prelude.{
  ℕ, zero, suc, ◌+◌, ◌-◌, ◌*◌, ◌/◌, ◌%◌, ◌^◌, ◌≤◌, ◌<◌, String, ◌≡◌, refl, sym, ap, ◌∙◌, ◌≢◌, ◌↔◌,
  ◌⊎◌, inl, inr, Bool, true, false, ◌&&◌, ◌||◌, not, Option, none, some, List, [], ◌∷◌, ◌++◌, map,
  arith, ltb, leb, nat_beq, if◌then◌else◌, ltb→lt, leb→le, Bool-cases, Option-cases, is_some,
  Comparable, ◌==◌, nat_eq, string_eq, bool_eq, pair_eq, length, is_empty, filter, any, all, All,
  length-append, length-filter, filter-append, all-append, any-append, all-filter, all-filter_self,
  contains, eq_self, contains-append, contains-filter, all-contains, without, contains-without,
  lookup, insert, keys, remove, lookup-insert, lookup-remove, contains-keys-insert, contains-keys,
  Nodup, str_leb, trim_space, sort_strings, contains-sort_strings, Nodup-sort_strings,
  all-sort_strings, nil_of_contains,
}

-- frrIncarnation
abbrev pub Incarnation : Type 0
Incarnation = List (String × ℕ)

-- frrStep; `restart` is empty where Go's is nil
pub record FrrStep : Type 0 where
  pub restart : List String
  pub follow_up : Bool
  pub warn : Bool
  pub back : Bool

-- frrWatchState
pub record WatchState : Type 0 where
  pub known : Option Incarnation
  pub prev : Option Incarnation
  pub saw_failure : Bool
  pub failing_since : Option ℕ
  pub warned : Bool
  pub follow_up_at : Option ℕ
  pub follow_up_delay : ℕ
  pub outage_warn_after : ℕ

-- a read of a Go map of numbers
abbrev pub pid_of : Incarnation → String → ℕ
pid_of inc name = elim (lookup name inc) [ none ↦ 0 | some pid ↦ pid ]

abbrev pub within : Incarnation → Incarnation → Bool
within a b = all (λ e. elim (lookup e.0 b) [ none ↦ false | some pid ↦ pid == e.1 ]) a

-- maps.Equal: the same keys with the same values
unfoldable pub maps_equal : Incarnation → Incarnation → Bool
maps_equal a b = within a b && within b a

-- changedDaemons, its map `old` empty where it is nil
unfoldable pub changed_daemons : Incarnation → Incarnation → List String
changed_daemons old cur = sort_strings (
    keys (filter (λ e. not (pid_of old e.0 == e.1)) cur)
    ++ filter (λ name. not (contains (keys cur) name)) (keys old))

abbrev pub or_empty_map : Option Incarnation → Incarnation
or_empty_map none = []
or_empty_map (some inc) = inc

unfoldable pub prime : WatchState → Option Incarnation → WatchState
prime s none = record s { saw_failure = true }
prime s (some inc) = record s { known = some inc }

-- now.Sub(since) >= limit, with `now` where the run of failures begins with this poll
lasts : Option ℕ → ℕ → ℕ → Bool
lasts none now limit = leb limit 0
lasts (some since) now limit = leb (since + limit) now

begun : Option ℕ → ℕ → Option ℕ
begun none now = some now
begun (some since) now = some since

-- the branch of a failed poll
on_failure : WatchState → ℕ → WatchState × FrrStep
unfolding lasts begun
on_failure s now =
    let warns = not s.warned && lasts s.failing_since now s.outage_warn_after in
    (
      record s {
        prev = none;
        saw_failure = s.saw_failure || not (is_some s.known);
        failing_since = begun s.failing_since now;
        warned = s.warned || warns;
      },
      record { restart = []; follow_up = false; warn = warns; back = false },
    )

-- the restart that a successful poll shows
restart_of : WatchState → Incarnation → List String
restart_of s inc = if not (maps_equal inc (or_empty_map s.prev)) then [] else elim s.known [
  | none ↦ if s.saw_failure then changed_daemons [] inc else []
  | some k ↦ if maps_equal inc k then [] else changed_daemons k inc
]

-- what a successful poll leaves in `known`: a settled answer that is new
known_after : WatchState → Incarnation → Option Incarnation
known_after s inc =
    if not (maps_equal inc (or_empty_map s.prev))
    then s.known
    else elim s.known [ none ↦ some inc | some k ↦ if maps_equal inc k then some k else some inc ]

-- the branch of a successful poll
on_answer : WatchState → Incarnation → ℕ → WatchState × FrrStep
unfolding restart_of known_after
on_answer s inc now =
    let restart = restart_of s inc in
    (
      record s {
        known = known_after s inc;
        prev = some inc;
        failing_since = none;
        warned = false;
        follow_up_at = if is_empty restart then s.follow_up_at else some (now + s.follow_up_delay);
      },
      record { restart = restart; follow_up = false; warn = false; back = s.warned },
    )

is_due : Option ℕ → ℕ → Bool
is_due none now = false
is_due (some at) now = leb at now

-- the end of a step
follow : ℕ → WatchState × FrrStep → WatchState × FrrStep
unfolding is_due
follow now (s, st) =
    if is_due s.follow_up_at now
    then (record s { follow_up_at = none }, record st { follow_up = true })
    else (s, st)

branch : WatchState → Option Incarnation → ℕ → WatchState × FrrStep
unfolding on_failure on_answer
branch s none now = on_failure s now
branch s (some inc) now = on_answer s inc now

unfoldable pub step : WatchState → Option Incarnation → ℕ → WatchState × FrrStep
unfolding follow branch
step s poll now = follow now (branch s poll now)

-- the polls of `run`, each with its time
unfoldable pub watch : WatchState → List (Option Incarnation × ℕ) → WatchState × List FrrStep
watch s [] = (s, [])
watch s ((poll, now) ∷ rest) =
    let (s', st) = step s poll now in let (end, sts) = watch s' rest in (end, st ∷ sts)
