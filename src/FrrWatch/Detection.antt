-- ===== src/FrrWatch/Detection.antt =====
-- A restart is seen.
use ovn_network_agent.Prelude.{
  ℕ, ◌+◌, ◌≤◌, ◌<◌, ◌≡◌, true, false, ◌||◌, Option, none, some, [], arith, nat_eq, string_eq,
  bool_eq, pair_eq, keys, Nodup,
}
use ovn_network_agent.FrrWatch.{Incarnation, WatchState, maps_equal, step}
use ovn_network_agent.FrrWatch.Changes.{
  IsWellFormed, nonempty-differs, is_empty-changed_daemons, maps_equal_self,
}
use ovn_network_agent.FrrWatch.Runs.{restarts}

-- Once a daemon of FRR runs as another process and two polls in a row find the same processes, one
-- of the two polls reports a restart. The known daemons have distinct names, and the answer is
-- well-formed.
pub restart_detected :
    (s : WatchState) (k inc : Incarnation) (t u : ℕ)
    → s.known ≡ some k
    → Nodup (keys k)
    → IsWellFormed inc
    → maps_equal inc k ≡ false
    → let (s', first) = step s (some inc) t in
      let second = (step s' (some inc) u).1 in (restarts first || restarts second) ≡ true
unfolding step
restart_detected s k inc t u known nodup wf differ =
    ground (arith, is_empty-changed_daemons k inc nodup wf.positive, maps_equal_self inc wf.unique)

-- With FRR down when the agent started, the first well-formed answer that two polls in a row give
-- is a restart.
pub restart_after_failed_start :
    (s : WatchState) (inc : Incarnation) (t u : ℕ)
    → s.known ≡ none
    → s.saw_failure ≡ true
    → IsWellFormed inc
    → let (s', first) = step s (some inc) t in
      let second = (step s' (some inc) u).1 in (restarts first || restarts second) ≡ true
unfolding step
restart_after_failed_start s inc t u unknown failed wf = ground (
  arith,
  is_empty-changed_daemons [] inc tt wf.positive,
  nonempty-differs inc wf.some_daemon,
  maps_equal_self inc wf.unique,
)

-- After a restart at time `t`, which does not ask for the second reconcile itself, the next poll
-- asks for it if it is at `t + follow_up_delay` or later, unless it reports another restart; the
-- delay is positive.
pub follow_up_after_restart :
    (s : WatchState) (inc : Incarnation) (poll : Option Incarnation) (t u : ℕ)
    → restarts (step s (some inc) t).1 ≡ true
    → 0 < s.follow_up_delay
    → t + s.follow_up_delay ≤ u
    → let (s', first) = step s (some inc) t in
      let second = (step s' poll u).1 in
      (first.follow_up ≡ false) × ((second.follow_up || restarts second) ≡ true)
unfolding step
follow_up_after_restart s inc none t u r pos late = ground arith
follow_up_after_restart s inc (some next) t u r pos late = ground arith
