-- ===== src/Gateway.antt =====
-- ovn_gateway.go: rows of Gateway_Chassis, and what a drain and a restore write to them. An update
-- of a transaction is the UUID of a row and its new priority. A read that failed is `none`, and a
-- row whose update operation cannot be built is skipped.
pub mod Rows
pub mod Drain
pub mod Returns
pub mod Lead
use ovn_network_agent.Prelude.{
  ℕ, zero, suc, ◌+◌, ◌-◌, ◌*◌, ◌/◌, ◌%◌, ◌^◌, ◌≤◌, ◌<◌, String, ◌≡◌, refl, sym, ap, ◌∙◌, ◌≢◌, ◌↔◌,
  ◌⊎◌, inl, inr, Bool, true, false, ◌&&◌, ◌||◌, not, Option, none, some, List, [], ◌∷◌, ◌++◌, map,
  arith, ltb, leb, nat_beq, if◌then◌else◌, ltb→lt, leb→le, Bool-cases, Option-cases, is_some,
  Comparable, ◌==◌, nat_eq, string_eq, bool_eq, pair_eq, length, is_empty, filter, any, all, All,
  length-append, length-filter, filter-append, all-append, any-append, all-filter, all-filter_self,
  contains, eq_self, contains-append, contains-filter, all-contains, without, contains-without,
  lookup, insert, keys, remove, lookup-insert, lookup-remove, contains-keys-insert, contains-keys,
  Nodup, str_leb, trim_space, sort_strings, contains-sort_strings, Nodup-sort_strings,
  all-sort_strings, nil_of_contains, not_nil_of_contains, trim_suffix, cut_prefix, split_on,
  fields_func, lower_code, is_space, insert_by, sort_by, ℤ, pos, negsuc, pos_part, neg_part, ◌≤ℤ◌,
  int_leb, int_leb_iff, int_eq, All-map, All-pi,
}
use ovn_network_agent.Ovn.State.{LocalRouterInfo}

-- NBGatewayChassis
pub record GatewayChassis : Type 0 where
  pub uuid : String
  pub name : String
  pub chassis_name : String
  pub priority : ℕ

unfoldable pub is_local : String → GatewayChassis → Bool
is_local local g = g.chassis_name == local

-- the rows, and whether one of this chassis is among all of them
unfoldable pub filter_restore_candidates : List GatewayChassis → String → List GatewayChassis × Bool
unfolding is_local
filter_restore_candidates rows local =
    (filter (λ g. is_local local g && g.priority == 0) rows, any (is_local local) rows)

unfoldable pub filter_drain_candidates : List GatewayChassis → String → List GatewayChassis × Bool
unfolding is_local
filter_drain_candidates rows local =
    (filter (λ g. is_local local g && ltb 0 g.priority) rows, any (is_local local) rows)

-- the results of soleCandidatePorts
pub record SolePorts : Type 0 where
  pub gc_uuids : List String
  pub cr_ports : List String
  pub lrp_names : List String

non_empty : String → List String → List String
non_empty s rest = if s == "" then rest else s ∷ rest

-- what a router with these references adds
sole_router : LocalRouterInfo → List String → SolePorts → SolePorts
unfolding non_empty
sole_router lr (u ∷ []) rest = record {
  gc_uuids = u ∷ rest.gc_uuids;
  cr_ports = non_empty lr.cr_port rest.cr_ports;
  lrp_names = non_empty lr.lrp_name rest.lrp_names;
}
sole_router lr _ rest = rest

unfoldable pub sole_candidate_ports : List LocalRouterInfo → SolePorts
unfolding sole_router
sole_candidate_ports [] = record { gc_uuids = []; cr_ports = []; lrp_names = [] }
sole_candidate_ports (lr ∷ lrs) = sole_router lr lr.gateway_chassis_uuids (sole_candidate_ports lrs)

unfoldable pub without_sole_candidates : List GatewayChassis → List String → List GatewayChassis × ℕ
without_sole_candidates rows sole =
    let kept = filter (λ g. not (contains sole g.uuid)) rows in (kept, length rows - length kept)

-- updates that set every row to one priority
abbrev pub set_all : ℕ → List GatewayChassis → List (String × ℕ)
set_all p rows = map (λ g. (g.uuid, p)) rows

-- the rows that a drain or a restore goes on with: those of the cache, or of the server where the
-- cache has no row of this chassis; `none` where the read of the server failed
unfoldable pub recovered :
    (List GatewayChassis → String → List GatewayChassis × Bool)
    → List GatewayChassis
    → Option (List GatewayChassis)
    → String
    → Option (List GatewayChassis)
recovered candidates cache server local =
    if (candidates cache local).1
    then some (candidates cache local).0
    else elim server [ none ↦ none | some rows ↦ some (candidates rows local).0 ]

-- the rows whose update can be built, with the answer for a UUID
unfoldable pub built : (String → Bool) → List GatewayChassis → List GatewayChassis
built builds rows = filter (λ g. builds g.uuid) rows

raise_all : (String → Bool) → Option (List GatewayChassis) → List (String × ℕ)
raise_all builds none = []
raise_all builds (some rows) = set_all 1 (built builds rows)

-- the updates of RestoreDrainedGateways, none where a read failed
unfoldable pub restore_drained_gateways :
    Option (List GatewayChassis)
    → Option (List GatewayChassis)
    → String
    → (String → Bool)
    → List (String × ℕ)
unfolding raise_all
restore_drained_gateways none server local builds = []
restore_drained_gateways (some cache) server local builds =
    raise_all builds (recovered filter_restore_candidates cache server local)

-- how DrainGateways ends
pub data DrainEnd : Type 0 where
  list_failed : DrainEnd
  select_failed : DrainEnd
  nothing_to_drain : DrainEnd
  lower_failed : DrainEnd
  query_failed : DrainEnd
  migrated : DrainEnd
  timed_out : DrainEnd
  waiting : DrainEnd

-- what one round of the wait reads: the ports left here, and whether the deadline passes in it
pub record Poll : Type 0 where
  pub remaining : Option ℕ
  pub deadline : Bool

-- the wait for the migration; `waiting` where the rounds are used up
unfoldable pub drain_wait : List Poll → DrainEnd
drain_wait [] = waiting
drain_wait (poll ∷ polls) =
    let rest = drain_wait polls in
    elim poll.remaining [
      | none ↦ query_failed
      | some n ↦ if n == 0 then migrated else if poll.deadline then timed_out else rest
    ]

-- the transaction, the Boolean that is returned, and the end
pub record DrainResult : Type 0 where
  pub updates : List (String × ℕ)
  pub drained : Bool
  pub end : DrainEnd

abbrev stopped : DrainEnd → DrainResult
stopped e = record { updates = []; drained = false; end = e }

-- how the NB client answers: whether the update of a row can be built, and whether a transaction
-- goes through
pub record NbClient : Type 0 where
  pub builds : String → Bool
  pub transacts : Bool

-- the transaction, which is not run without an update, and the wait
send : List (String × ℕ) → NbClient → List Poll → DrainResult
send updates nb polls =
    let through = is_empty updates || nb.transacts in
    record {
      updates = updates;
      drained = through;
      end = if through then drain_wait polls else lower_failed;
    }

lower : List GatewayChassis → NbClient → List Poll → DrainResult
unfolding send
lower [] nb polls = stopped nothing_to_drain
lower (g ∷ rows) nb polls = send (set_all 0 (built nb.builds (g ∷ rows))) nb polls

drain_rows : Option (List GatewayChassis) → SolePorts → NbClient → List Poll → DrainResult
unfolding lower
drain_rows none sole nb polls = stopped select_failed
drain_rows (some rows) sole nb polls = lower (without_sole_candidates rows sole.gc_uuids).0 nb polls

unfoldable pub drain_gateways :
    Option (List GatewayChassis)
    → Option (List GatewayChassis)
    → List LocalRouterInfo
    → String
    → NbClient
    → List Poll
    → DrainResult
unfolding drain_rows
drain_gateways none server routers local nb polls = stopped list_failed
drain_gateways (some cache) server routers local nb polls =
    drain_rows (recovered filter_drain_candidates cache server local) (sole_candidate_ports routers)
      nb polls
