-- ===== src/DriftWatch/Backoff.antt =====
-- The wait before the next subscribe, and the log of outages.
use ovn_network_agent.Prelude.{
  ℕ, ◌+◌, ◌≤◌, ◌≡◌, refl, ◌⊎◌, Bool, List, [], ◌∷◌, arith, if◌then◌else◌, nat_eq, string_eq,
  bool_eq, pair_eq,
}
use ovn_network_agent.DriftWatch.{
  Settings, next_backoff, RunState, Outcome, failed, held, Report, run_step, run_steps,
}

-- the wait is 0 before the first subscribe, and between its bounds after it
abbrev pub IsBounded : Settings → ℕ → Type 0
IsBounded w b = (b ≡ 0) ⊎ ((w.backoff_min ≤ b) × (b ≤ w.backoff_max))

step-IsBounded :
    (w : Settings) (s : RunState) (o : Outcome)
    → w.backoff_min ≤ w.backoff_max
    → IsBounded w s.backoff
    → IsBounded w (run_step w s o).0.backoff
unfolding run_step next_backoff
step-IsBounded w s failed le h = ground arith
step-IsBounded w s (held lived) le h = ground arith

-- With the lower bound at most the upper one, the wait stays 0 or between its bounds, however many
-- subscribes fail and however long the others hold.
pub backoff-run_steps-IsBounded :
    (w : Settings) (s : RunState) (os : List Outcome)
    → w.backoff_min ≤ w.backoff_max
    → IsBounded w s.backoff
    → IsBounded w (run_steps w s os).0.backoff
unfolding run_steps
backoff-run_steps-IsBounded w s [] le h = h
backoff-run_steps-IsBounded w s (o ∷ os) le h =
    backoff-run_steps-IsBounded w (run_step w s o).0 os le (step-IsBounded w s o le h)

abbrev pub count : (Report → Bool) → List Report → ℕ
count p [] = 0
count p (r ∷ rs) = (if p r then 1 else 0) + count p rs

abbrev pub one_if : Bool → ℕ
one_if b = if b then 1 else 0

warned-run_step :
    (w : Settings) (s : RunState) (o : Outcome)
    → let (s', r) = run_step w s o in
      one_if r.warned + one_if s.outage ≡ one_if r.back + one_if s'.outage
unfolding run_step
warned-run_step w s failed = ground arith
warned-run_step w s (held lived) = ground arith

-- One outage is one warning: over any outcomes, the warnings exceed the recoveries by what the
-- state says about an outage that is going on.
pub count_warned_back :
    (w : Settings) (s : RunState) (os : List Outcome)
    → let (s', rs) = run_steps w s os in
      count (λ r. r.warned) rs + one_if s.outage ≡ count (λ r. r.back) rs + one_if s'.outage
unfolding run_steps
count_warned_back w s [] = refl
count_warned_back w s (o ∷ os) =
    omega (arith, warned-run_step w s o, count_warned_back w (run_step w s o).0 os)
