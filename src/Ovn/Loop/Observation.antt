-- ===== src/Ovn/Loop/Observation.antt =====
-- An observed failover is measured by a reconcile that sees it.
use ovn_network_agent.Prelude.{
  ℕ, ◌+◌, ◌<◌, ◌≡◌, refl, Bool, true, not, none, some, List, [], ◌∷◌, arith, leb, is_some, nat_eq,
  string_eq, bool_eq, pair_eq, all, int_eq,
}
use ovn_network_agent.Ovn.Loop.{
  Failover, stamp_observed, take_pending, take_failover_observed_at, FailoverEvent, observe,
  begin_pass, take, failover_step, failover_run,
}

-- The events take nothing: every snapshot was begun with pass `gen` or before.
abbrev pub is_stale : ℕ → FailoverEvent → Bool
is_stale gen (observe now) = true
is_stale gen begin_pass = true
is_stale gen (take snap_gen) = leb snap_gen gen

kept :
    (f : Failover) (at gen : ℕ) (es : List FailoverEvent)
    → f.observed ≡ some (at, gen)
    → all (is_stale gen) es ≡ true
    → ((failover_run f es).0.observed ≡ some (at, gen))
      × (all (λ o. not (is_some o)) (failover_run f es).1 ≡ true)
unfolding failover_run failover_step stamp_observed take_failover_observed_at take_pending
kept f at gen [] h s = (h, refl)
kept f at gen (observe now ∷ es) h s = ground (arith, kept f at gen es h s)
kept f at gen (begin_pass ∷ es) h s =
    kept (record f { refresh_seq = f.refresh_seq + 1 }) at gen es h s
kept f at gen (take snap_gen ∷ es) h s = ground (arith, kept f at gen es h (ground arith))

stamped :
    (f : Failover) (at : ℕ)
    → f.observed ≡ none
    → (stamp_observed f at).observed ≡ some (at, f.refresh_seq)
unfolding stamp_observed
stamped f at h = ground arith

taken :
    (at gen snap_gen : ℕ) (f : Failover)
    → f.observed ≡ some (at, gen)
    → gen < snap_gen
    → ((take_failover_observed_at f snap_gen).1 ≡ some at)
      × ((take_failover_observed_at f snap_gen).0.observed ≡ none)
unfolding take_failover_observed_at take_pending
taken at gen snap_gen f h lt = ground arith

-- A failover that is observed with none pending is reported by the first reconcile whose snapshot
-- was begun after it, with its time, and then no longer pending: no event before, observations,
-- passes, or reconciles of older snapshots, takes it.
pub failover_measured :
    (f : Failover) (at snap_gen : ℕ) (es : List FailoverEvent)
    → f.observed ≡ none
    → all (is_stale f.refresh_seq) es ≡ true
    → f.refresh_seq < snap_gen
    → let (f', outs) = failover_run (stamp_observed f at) es in
      (all (λ o. not (is_some o)) outs ≡ true)
      × ((take_failover_observed_at f' snap_gen).1 ≡ some at)
      × ((take_failover_observed_at f' snap_gen).0.observed ≡ none)
failover_measured f at snap_gen es free stale fresh =
    let (k, quiet) = kept (stamp_observed f at) at f.refresh_seq es (stamped f at free) stale in
    let t = taken at f.refresh_seq snap_gen (failover_run (stamp_observed f at) es).0 k fresh in
    (quiet, t.0, t.1)
