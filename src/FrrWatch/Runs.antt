-- ===== src/FrrWatch/Runs.antt =====
-- What holds of any sequence of polls.
use ovn_network_agent.Prelude.{
  ℕ, ◌+◌, ◌≤◌, ◌≡◌, refl, Bool, true, not, Option, none, some, List, [], ◌∷◌, arith, if◌then◌else◌,
  is_some, nat_eq, string_eq, bool_eq, pair_eq, is_empty,
}
use ovn_network_agent.FrrWatch.{Incarnation, FrrStep, WatchState, maps_equal, step, watch}

abbrev pub count : (FrrStep → Bool) → List FrrStep → ℕ
count p [] = 0
count p (st ∷ sts) = (if p st then 1 else 0) + count p sts

abbrev pub restarts : FrrStep → Bool
restarts st = not (is_empty st.restart)

abbrev pub one_if : Bool → ℕ
one_if b = if b then 1 else 0

warned-step :
    (s : WatchState) (poll : Option Incarnation) (now : ℕ)
    → let (s', st) = step s poll now in
      one_if st.warn + one_if s.warned ≡ one_if st.back + one_if s'.warned
unfolding step
warned-step s none now = ground arith
warned-step s (some inc) now = ground arith

-- Every outage warns at most once and ends with one recovery: over any polls, the warnings exceed
-- the recoveries by what the state says about a warning that is pending.
pub count_warn_back :
    (s : WatchState) (polls : List (Option Incarnation × ℕ))
    → let (s', sts) = watch s polls in
      count (λ st. st.warn) sts + one_if s.warned ≡ count (λ st. st.back) sts + one_if s'.warned
unfolding watch
count_warn_back s [] = refl
count_warn_back s ((poll, now) ∷ rest) =
    omega (arith, warned-step s poll now, count_warn_back (step s poll now).0 rest)

pending-step :
    (s : WatchState) (poll : Option Incarnation) (now : ℕ)
    → let (s', st) = step s poll now in
      one_if st.follow_up + one_if (is_some s'.follow_up_at)
      ≤ one_if (restarts st) + one_if (is_some s.follow_up_at)
unfolding step
pending-step s none now = ground arith
pending-step s (some inc) now = ground arith

-- A follow-up reconcile has a restart of its own: over any polls there are no more follow-ups than
-- restarts, counting one that was pending at the start.
pub follow_ups-le-restarts :
    (s : WatchState) (polls : List (Option Incarnation × ℕ))
    → let (s', sts) = watch s polls in
      count (λ st. st.follow_up) sts + one_if (is_some s'.follow_up_at)
      ≤ count restarts sts + one_if (is_some s.follow_up_at)
unfolding watch
follow_ups-le-restarts s [] = omega arith
follow_ups-le-restarts s ((poll, now) ∷ rest) =
    omega (arith, pending-step s poll now, follow_ups-le-restarts (step s poll now).0 rest)

-- a poll that fails, or answers with the known processes
abbrev pub Unchanged : Incarnation → List (Option Incarnation × ℕ) → Type 0
Unchanged k [] = Unit
Unchanged k ((none, now) ∷ rest) = Unchanged k rest
Unchanged k ((some inc, now) ∷ rest) = (maps_equal inc k ≡ true) × Unchanged k rest

quiet-step :
    (s : WatchState) (k inc : Incarnation) (now : ℕ)
    → s.known ≡ some k
    → maps_equal inc k ≡ true
    → (is_empty (step s (some inc) now).1.restart ≡ true)
      × ((step s (some inc) now).0.known ≡ some k)
unfolding step
quiet-step s k inc now known same = ground arith

failed-step :
    (s : WatchState) (now : ℕ)
    → (is_empty (step s none now).1.restart ≡ true) × ((step s none now).0.known ≡ s.known)
unfolding step
failed-step s now = ground arith

-- While FRR's processes stay the known ones no restart is reported, however many polls fail and
-- however the answers are ordered.
pub no_false_restart :
    (s : WatchState) (k : Incarnation) (polls : List (Option Incarnation × ℕ))
    → s.known ≡ some k
    → Unchanged k polls
    → count restarts (watch s polls).1 ≡ 0
unfolding watch
no_false_restart s k [] known same = refl
no_false_restart s k ((none, now) ∷ rest) known same =
    ground (arith, failed-step s now, no_false_restart (step s none now).0 k rest)
no_false_restart s k ((some inc, now) ∷ rest) known same =
    ground (
      arith,
      quiet-step s k inc now known same.0,
      no_false_restart (step s (some inc) now).0 k rest,
    )
