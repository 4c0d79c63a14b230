-- ===== src/Gateway/Returns.antt =====
-- What DrainGateways returns.
use ovn_network_agent.Prelude.{
  ℕ, String, ◌≡◌, refl, ap, ◌∙◌, Bool, false, ◌&&◌, ◌||◌, not, Option, none, some, List, [], ◌∷◌,
  arith, ltb, if◌then◌else◌, nat_eq, string_eq, bool_eq, pair_eq, is_empty, filter, any, contains,
  int_eq,
}
use ovn_network_agent.Ovn.State.{LocalRouterInfo}
use ovn_network_agent.Gateway.{
  GatewayChassis, is_local, set_all, filter_drain_candidates, sole_candidate_ports,
  without_sole_candidates, recovered, Poll, drain_gateways, SolePorts, lower, drain_rows, NbClient,
  built, send,
}
use ovn_network_agent.Gateway.Drain.{
  filter-filter, filter_cong, built-drainable, drainable, lowered,
}

-- the rows that a drain looks at: all rows of the cache, or those that the server has of this
-- chassis where the cache has none
abbrev pub rows_seen :
    List GatewayChassis → Option (List GatewayChassis) → String → Option (List GatewayChassis)
rows_seen cache server local = if any (is_local local) cache then some cache else server

-- what DrainGateways returns for the rows that it looks at
abbrev pub returns : NbClient → String → List String → List GatewayChassis → Bool
returns nb local sole rows =
    any (drainable local sole) rows && (not (any (lowered nb local sole) rows) || nb.transacts)

is_empty-set_all :
    (test : GatewayChassis → Bool) (p : ℕ) (rows : List GatewayChassis)
    → is_empty (set_all p (filter test rows)) ≡ not (any test rows)
is_empty-set_all test p [] = refl
is_empty-set_all test p (g ∷ rows) = ground (arith, is_empty-set_all test p rows)

drained-lower :
    (rows : List GatewayChassis) (nb : NbClient) (polls : List Poll)
    → (lower rows nb polls).drained
      ≡ (not (is_empty rows) && (is_empty (set_all 0 (built nb.builds rows)) || nb.transacts))
unfolding lower send
drained-lower [] nb polls = refl
drained-lower (g ∷ rows) nb polls = refl

is_empty-filter :
    (test : GatewayChassis → Bool) (rows : List GatewayChassis)
    → is_empty (filter test rows) ≡ not (any test rows)
is_empty-filter test [] = refl
is_empty-filter test (g ∷ rows) = ground (arith, is_empty-filter test rows)

-- the candidates of rows, without the sole ones
abbrev kept : String → List String → List GatewayChassis → List GatewayChassis
kept local sole rows =
    filter (λ g. not (contains sole g.uuid))
      (filter (λ g. is_local local g && ltb 0 g.priority) rows)

kept_lem :
    (local : String) (sole : List String) (rows : List GatewayChassis)
    → kept local sole rows ≡ filter (drainable local sole) rows
kept_lem local sole rows =
    filter-filter (λ g. not (contains sole g.uuid)) (λ g. is_local local g && ltb 0 g.priority) rows
    ∙ filter_cong (λ g. (is_local local g && ltb 0 g.priority) && not (contains sole g.uuid))
        (drainable local sole) rows (λ g. ground arith)

drained-rows :
    (rows : List GatewayChassis) (sole : SolePorts) (local : String) (nb : NbClient)
    (polls : List Poll)
    → (drain_rows (some (filter_drain_candidates rows local).0) sole nb polls).drained
      ≡ returns nb local sole.gc_uuids rows
unfolding drain_rows filter_drain_candidates without_sole_candidates
drained-rows rows sole local nb polls =
    let test = drainable local sole.gc_uuids in
    rw
      (
        kept_lem local sole.gc_uuids rows,
        drained-lower (filter test rows) nb polls,
        built-drainable nb local sole.gc_uuids rows,
      )
      (ground (
        arith,
        is_empty-filter test rows,
        is_empty-set_all (lowered nb local sole.gc_uuids) 0 rows,
      ))

-- the candidates of the rows that were read
abbrev candidates_of : Option (List GatewayChassis) → String → Option (List GatewayChassis)
candidates_of none local = none
candidates_of (some rows) local = some (filter_drain_candidates rows local).0

recovered_lem :
    (cache : List GatewayChassis) (server : Option (List GatewayChassis)) (local : String)
    → recovered filter_drain_candidates cache server local
      ≡ candidates_of (rows_seen cache server local) local
unfolding recovered filter_drain_candidates
recovered_lem cache none local = ground arith
recovered_lem cache (some rows) local = ground arith

drained-found :
    (found : Option (List GatewayChassis)) (sole : SolePorts) (local : String) (nb : NbClient)
    (polls : List Poll)
    → (drain_rows (candidates_of found local) sole nb polls).drained
      ≡ elim found [ none ↦ false | some rows ↦ returns nb local sole.gc_uuids rows ]
unfolding drain_rows
drained-found none sole local nb polls = refl
drained-found (some rows) sole local nb polls = drained-rows rows sole local nb polls

-- With the rows of the cache read, DrainGateways returns `true` exactly if, of the rows that it
-- looks at, one of this chassis has a priority above 0 and is not the only candidate of its port,
-- and either the transaction went through or no update of these rows could be built, so that none
-- ran; it looks at the cache, or at what the server answers where the cache has no row of this
-- chassis, and returns `false` where that read fails.
pub drained_iff :
    (cache : List GatewayChassis) (server : Option (List GatewayChassis))
    (routers : List LocalRouterInfo) (local : String) (nb : NbClient) (polls : List Poll)
    → (drain_gateways (some cache) server routers local nb polls).drained
      ≡ elim (rows_seen cache server local) [
        | none ↦ false
        | some rows ↦ returns nb local (sole_candidate_ports routers).gc_uuids rows
      ]
unfolding drain_gateways
drained_iff cache server routers local nb polls =
    let sole = sole_candidate_ports routers in
    ap (λ found. (drain_rows found sole nb polls).drained) (recovered_lem cache server local)
    ∙ drained-found (rows_seen cache server local) sole local nb polls
