-- ===== src/Gateway/Drain.antt =====
-- What a drain lowers, and what the next start restores.
use ovn_network_agent.Prelude.{
  ℕ, String, ◌≡◌, refl, sym, ap, ◌∙◌, ◌↔◌, Bool, true, false, ◌&&◌, ◌||◌, not, Option, none, some,
  List, [], ◌∷◌, map, arith, ltb, if◌then◌else◌, ◌==◌, nat_eq, string_eq, bool_eq, pair_eq, filter,
  any, all, contains, Nodup, int_eq,
}
use ovn_network_agent.Ovn.State.{LocalRouterInfo}
use ovn_network_agent.Gateway.{
  GatewayChassis, is_local, set_all, filter_restore_candidates, filter_drain_candidates,
  sole_candidate_ports, without_sole_candidates, recovered, restore_drained_gateways, waiting, Poll,
  drain_wait, drain_gateways, lower, drain_rows, NbClient, built, send, raise_all,
}
use ovn_network_agent.Gateway.Rows.{updated, uuids, with_priority, updated-set_all}

-- the rows of this chassis that a drain lowers
abbrev pub drainable : String → List String → GatewayChassis → Bool
drainable local sole g = is_local local g && ltb 0 g.priority && not (contains sole g.uuid)

-- the rows that it asks to lower
abbrev pub lowered : NbClient → String → List String → GatewayChassis → Bool
lowered nb local sole g = drainable local sole g && nb.builds g.uuid

abbrev pub drained : String → GatewayChassis → Bool
drained local g = is_local local g && g.priority == 0

pub filter-filter :
    (p q : GatewayChassis → Bool) (rows : List GatewayChassis)
    → filter p (filter q rows) ≡ filter (λ g. q g && p g) rows
filter-filter p q [] = refl
filter-filter p q (g ∷ rows) = ground (arith, filter-filter p q rows)

pub filter_cong :
    (p q : GatewayChassis → Bool) (rows : List GatewayChassis)
    → ((g : GatewayChassis) → p g ≡ q g)
    → filter p rows ≡ filter q rows
filter_cong p q [] h = refl
filter_cong p q (g ∷ rows) h = ground (arith, h g, filter_cong p q rows h)

updates-lower :
    (rows : List GatewayChassis) (nb : NbClient) (polls : List Poll)
    → (lower rows nb polls).updates ≡ set_all 0 (built nb.builds rows)
unfolding lower send built
updates-lower [] nb polls = refl
updates-lower (g ∷ rows) nb polls = refl

recovered-drain :
    (cache : List GatewayChassis) (server : Option (List GatewayChassis)) (local : String)
    → any (is_local local) cache ≡ true
    → recovered filter_drain_candidates cache server local
      ≡ some (filter (λ g. is_local local g && ltb 0 g.priority) cache)
unfolding recovered filter_drain_candidates
recovered-drain cache server local h = ground arith

pub built-drainable :
    (nb : NbClient) (local : String) (sole : List String) (rows : List GatewayChassis)
    → built nb.builds (filter (drainable local sole) rows) ≡ filter (lowered nb local sole) rows
unfolding built
built-drainable nb local sole rows =
    filter-filter (λ g. nb.builds g.uuid) (drainable local sole) rows

drain_updates :
    (cache : List GatewayChassis) (server : Option (List GatewayChassis))
    (routers : List LocalRouterInfo) (local : String) (nb : NbClient) (polls : List Poll)
    → any (is_local local) cache ≡ true
    → (drain_gateways (some cache) server routers local nb polls).updates
      ≡ set_all 0 (filter (lowered nb local (sole_candidate_ports routers).gc_uuids) cache)
unfolding drain_gateways drain_rows without_sole_candidates
drain_updates cache server routers local nb polls h =
    let sole = (sole_candidate_ports routers).gc_uuids in
    let kept = filter (λ g. is_local local g && ltb 0 g.priority) cache in
    rw (recovered-drain cache server local h) (
      updates-lower (filter (λ g. not (contains sole g.uuid)) kept) nb polls
      ∙ ap (λ rows. set_all 0 (built nb.builds rows))
          (filter-filter (λ g. not (contains sole g.uuid))
              (λ g. is_local local g && ltb 0 g.priority) cache
            ∙ filter_cong
                (λ g. (is_local local g && ltb 0 g.priority) && not (contains sole g.uuid))
                (drainable local sole) cache (λ g. ground arith))
      ∙ ap (set_all 0) (built-drainable nb local sole cache))

-- What the transaction of a drain asks for, with a cache that holds the rows of the table, their
-- UUIDs distinct, and one of them of this chassis: each row of this chassis whose update can be
-- built gets priority 0, unless it is the only candidate of its port, and every other row stays as
-- it is.
pub drain_gateways-rows :
    (rows : List GatewayChassis) (server : Option (List GatewayChassis))
    (routers : List LocalRouterInfo) (local : String) (nb : NbClient) (polls : List Poll)
    → Nodup (uuids rows)
    → any (is_local local) rows ≡ true
    → map (updated (drain_gateways (some rows) server routers local nb polls).updates) rows
      ≡ with_priority (lowered nb local (sole_candidate_ports routers).gc_uuids) 0 rows
drain_gateways-rows rows server routers local nb polls n h =
    rw (drain_updates rows server routers local nb polls h)
      (updated-set_all (lowered nb local (sole_candidate_ports routers).gc_uuids) 0 rows n)

recovered-server :
    (cache rows : List GatewayChassis) (local : String)
    → any (is_local local) cache ≡ false
    → recovered filter_drain_candidates cache (some rows) local
      ≡ some (filter (λ g. is_local local g && ltb 0 g.priority) rows)
unfolding recovered filter_drain_candidates
recovered-server cache rows local h = ground arith

-- Where the cache has no row of this chassis, and the server answers with those of the table,
-- whose UUIDs are distinct, a drain asks for the same: each row of this chassis whose update can
-- be built gets priority 0, unless it is the only candidate of its port, and every other row stays
-- as it is.
pub drain_gateways-recovered :
    (cache rows : List GatewayChassis) (routers : List LocalRouterInfo) (local : String)
    (nb : NbClient) (polls : List Poll)
    → Nodup (uuids rows)
    → any (is_local local) cache ≡ false
    → let answer = filter (is_local local) rows in
      map (updated (drain_gateways (some cache) (some answer) routers local nb polls).updates) rows
      ≡ with_priority (lowered nb local (sole_candidate_ports routers).gc_uuids) 0 rows
unfolding drain_gateways drain_rows without_sole_candidates
drain_gateways-recovered cache rows routers local nb polls n h =
    let sole = (sole_candidate_ports routers).gc_uuids in
    let answer = filter (is_local local) rows in
    let low = λ (g : GatewayChassis). is_local local g && ltb 0 g.priority in
    let kept = λ (g : GatewayChassis). not (contains sole g.uuid) in
    let rest =
      updates-lower (filter kept (filter low answer)) nb polls
      ∙ ap (λ rs. set_all 0 (built nb.builds rs))
          (ap (filter kept) (filter-filter low (is_local local) rows)
            ∙ filter-filter kept (λ g. is_local local g && low g) rows
            ∙ filter_cong (λ g. (is_local local g && low g) && kept g) (drainable local sole) rows
                (λ g. ground arith))
      ∙ ap (set_all 0) (built-drainable nb local sole rows) in
    rw (recovered-server cache answer local h, rest)
      (updated-set_all (lowered nb local sole) 0 rows n)

-- the rows that a restore asks to raise
abbrev pub raised_again : (String → Bool) → String → GatewayChassis → Bool
raised_again builds local g = drained local g && builds g.uuid

recovered-restore :
    (cache : List GatewayChassis) (server : Option (List GatewayChassis)) (local : String)
    → any (is_local local) cache ≡ true
    → recovered filter_restore_candidates cache server local ≡ some (filter (drained local) cache)
unfolding recovered filter_restore_candidates
recovered-restore cache server local h = ground arith

restore-built :
    (builds : String → Bool) (local : String) (rows : List GatewayChassis)
    → built builds (filter (drained local) rows) ≡ filter (raised_again builds local) rows
unfolding built
restore-built builds local rows = filter-filter (λ g. builds g.uuid) (drained local) rows

restore_updates :
    (cache : List GatewayChassis) (server : Option (List GatewayChassis)) (local : String)
    (builds : String → Bool)
    → any (is_local local) cache ≡ true
    → restore_drained_gateways (some cache) server local builds
      ≡ set_all 1 (filter (raised_again builds local) cache)
unfolding restore_drained_gateways
restore_updates cache server local builds h =
    ap (raise_all builds) (recovered-restore cache server local h)
    ∙ ap (set_all 1) (restore-built builds local cache)

-- a row after a drain and the restore of the next start
abbrev pub rejoined :
    NbClient → (String → Bool) → String → List String → GatewayChassis → GatewayChassis
rejoined nb builds local sole g =
    if (lowered nb local sole g || drained local g) && builds g.uuid
    then record g { priority = 1 }
    else if lowered nb local sole g
    then record g { priority = 0 }
    else g

uuids-with_priority :
    (test : GatewayChassis → Bool) (p : ℕ) (rows : List GatewayChassis)
    → uuids (with_priority test p rows) ≡ uuids rows
uuids-with_priority test p [] = refl
uuids-with_priority test p (g ∷ rows) = ground (arith, uuids-with_priority test p rows)

any-with_priority :
    (local : String) (test : GatewayChassis → Bool) (p : ℕ) (rows : List GatewayChassis)
    → any (is_local local) (with_priority test p rows) ≡ any (is_local local) rows
unfolding is_local
any-with_priority local test p [] = refl
any-with_priority local test p (g ∷ rows) = ground (arith, any-with_priority local test p rows)

Nodup-cong : (xs ys : List String) → xs ≡ ys → Nodup xs → Nodup ys
Nodup-cong xs ys e n = rw (← e) n

with_priority_twice :
    (nb : NbClient) (builds : String → Bool) (local : String) (sole : List String)
    (rows : List GatewayChassis)
    → with_priority (raised_again builds local) 1 (with_priority (lowered nb local sole) 0 rows)
      ≡ map (rejoined nb builds local sole) rows
unfolding is_local
with_priority_twice nb builds local sole [] = refl
with_priority_twice nb builds local sole (g ∷ rows) =
    ground (arith, with_priority_twice nb builds local sole rows)

-- A drain and the restore of the next start, with caches that hold the rows of the table, their
-- UUIDs distinct, and one of them of this chassis: each row of this chassis that the drain lowers,
-- or that was at 0 before, is at priority 1 if the restore can build its update and at 0 if not;
-- every other row stays as it is, such as one that is the only candidate of its port and was not
-- at 0, and every row of another chassis.
pub restore-drain_gateways :
    (rows : List GatewayChassis) (server : Option (List GatewayChassis))
    (routers : List LocalRouterInfo) (local : String) (nb : NbClient) (polls : List Poll)
    (builds : String → Bool)
    → Nodup (uuids rows)
    → any (is_local local) rows ≡ true
    → let left =
        map (updated (drain_gateways (some rows) server routers local nb polls).updates) rows in
      map (updated (restore_drained_gateways (some left) server local builds)) left
      ≡ map (rejoined nb builds local (sole_candidate_ports routers).gc_uuids) rows
restore-drain_gateways rows server routers local nb polls builds n h =
    let test = lowered nb local (sole_candidate_ports routers).gc_uuids in
    let left = with_priority test 0 rows in
    rw
      (
        drain_gateways-rows rows server routers local nb polls n h,
        restore_updates left server local builds (any-with_priority local test 0 rows ∙ h),
      )
      (updated-set_all (raised_again builds local) 1 left
          (Nodup-cong (uuids rows) (uuids left) (sym (uuids-with_priority test 0 rows)) n)
        ∙ with_priority_twice nb builds local (sole_candidate_ports routers).gc_uuids rows)

-- The wait ends by the first round in which no port is left here, the read fails, or the deadline passes, and only then.
pub drain_wait_ends :
    (polls : List Poll)
    → (drain_wait polls ≡ waiting) ↔ (
        all (λ p. elim p.remaining [ none ↦ false | some n ↦ ltb 0 n && not p.deadline ]) polls
        ≡ true)
unfolding drain_wait
drain_wait_ends [] = ground arith
drain_wait_ends (poll ∷ polls) = ground (arith, drain_wait_ends polls)
