-- ===== src/Gateway/Lead.antt =====
-- EnsureActivePriorityLead in ovn_gateway.go: the rows of each local port's HA group, and the
-- priorities that keep this chassis ahead of its peers. A read that failed is `none`.
pub mod Margin
pub mod Raise
use ovn_network_agent.Prelude.{
  ℕ, zero, suc, ◌+◌, ◌-◌, ◌*◌, ◌/◌, ◌%◌, ◌^◌, ◌≤◌, ◌<◌, String, ◌≡◌, refl, sym, ap, ◌∙◌, ◌≢◌, ◌↔◌,
  ◌⊎◌, inl, inr, Bool, true, false, ◌&&◌, ◌||◌, not, Option, none, some, List, [], ◌∷◌, ◌++◌, map,
  arith, ltb, leb, nat_beq, if◌then◌else◌, ltb→lt, leb→le, Bool-cases, Option-cases, is_some,
  Comparable, ◌==◌, nat_eq, string_eq, bool_eq, pair_eq, length, is_empty, filter, any, all, All,
  length-append, length-filter, filter-append, all-append, any-append, all-filter, all-filter_self,
  contains, eq_self, contains-append, contains-filter, all-contains, without, contains-without,
  lookup, insert, keys, remove, lookup-insert, lookup-remove, contains-keys-insert, contains-keys,
  Nodup, str_leb, trim_space, sort_strings, contains-sort_strings, Nodup-sort_strings,
  all-sort_strings, nil_of_contains, not_nil_of_contains, trim_suffix,
}
use Prim.Native.Nat.{max}
use Prim.Native.String as Str
use ovn_network_agent.Ovn.State.{LocalRouterInfo}
use ovn_network_agent.Gateway.{GatewayChassis, is_local}

set_refs : List String → String → List (String × String) → List (String × String)
set_refs [] lrp m = m
set_refs (u ∷ us) lrp m = set_refs us lrp (insert u lrp m)

-- lrpByGatewayChassisUUID, filled router by router
fill_lrp_by_uuid : List LocalRouterInfo → List (String × String) → List (String × String)
unfolding set_refs
fill_lrp_by_uuid [] m = m
fill_lrp_by_uuid (lr ∷ lrs) m =
    fill_lrp_by_uuid lrs (set_refs lr.gateway_chassis_uuids lr.lrp_name m)

-- crPortByLRP, filled router by router
fill_cr_port_by_lrp : List LocalRouterInfo → List (String × String) → List (String × String)
fill_cr_port_by_lrp [] m = m
fill_cr_port_by_lrp (lr ∷ lrs) m = fill_cr_port_by_lrp lrs (insert lr.lrp_name lr.cr_port m)

unfoldable pub gw_chassis_lrp_name : GatewayChassis → List (String × String) → List String → String
gw_chassis_lrp_name g lrp_by_uuid active_lrps =
    let parsed = trim_suffix (Str.◌++◌ "_" g.chassis_name) g.name in
    elim (lookup g.uuid lrp_by_uuid) [
      | none ↦ if contains active_lrps parsed then parsed else ""
      | some lrp ↦ lrp
    ]

-- haGroup, whose `maxPeer` is -1 where there is no peer
pub record HaGroup : Type 0 where
  pub local : Option GatewayChassis
  pub max_peer : Option ℕ

-- the variables that the loops read
pub record Lead : Type 0 where
  pub local_chassis : String
  pub lrp_name_of : GatewayChassis → String
  pub cr_port_by_lrp : List (String × String)
  pub cr_chassis : Option (List (String × String))

raised : Option ℕ → ℕ → ℕ
raised none p = p
raised (some m) p = if ltb m p then p else m

grouped : String → GatewayChassis → HaGroup → HaGroup
unfolding raised is_local
grouped local g grp =
    if is_local local g
    then record grp { local = some g }
    else record grp { max_peer = some (raised grp.max_peer g.priority) }

or_new : Option HaGroup → HaGroup
or_new none = record { local = none; max_peer = none }
or_new (some grp) = grp

-- a row's turn in the loop
add_row : Lead → List (String × HaGroup) → GatewayChassis → List (String × HaGroup)
unfolding or_new grouped
add_row cx groups g =
    let lrp = cx.lrp_name_of g in
    if lrp == ""
    then groups
    else insert lrp (grouped cx.local_chassis g (or_new (lookup lrp groups))) groups

unfoldable pub groups_from :
    Lead → List (String × HaGroup) → List GatewayChassis → List (String × HaGroup)
unfolding add_row
groups_from cx groups [] = groups
groups_from cx groups (g ∷ rows) = groups_from cx (add_row cx groups g) rows

min_active_priority : ℕ
min_active_priority = 2

-- the chassisredirect port is known to be bound, and not here
unfoldable pub bound_elsewhere : Lead → String → Bool
bound_elsewhere cx lrp = elim cx.cr_chassis [
  | none ↦ false
  | some bound ↦
      elim (lookup (elim (lookup lrp cx.cr_port_by_lrp) [ none ↦ "" | some port ↦ port ]) bound) [
        | none ↦ false
        | some host ↦ not (host == cx.local_chassis)
      ]
]

-- the update of a group, if it needs one
boost : Lead → String → Option GatewayChassis → Option ℕ → List (String × ℕ)
unfolding bound_elsewhere min_active_priority
boost cx lrp (some me) (some max_peer) =
    if ltb max_peer me.priority && leb min_active_priority me.priority
    then []
    else if bound_elsewhere cx lrp
    then []
    else (me.uuid, max (max_peer + 1) min_active_priority) ∷ []
boost cx lrp _ _ = []

unfoldable pub boosts : Lead → List (String × HaGroup) → List (String × ℕ)
unfolding boost
boosts cx [] = []
boosts cx ((lrp, grp) ∷ groups) = boost cx lrp grp.local grp.max_peer ++ boosts cx groups

-- the rows of the cache, with those of the server where none is of this chassis
unfoldable pub merged_rows :
    List GatewayChassis → Option (List GatewayChassis) → String → Option (List GatewayChassis)
unfolding is_local
merged_rows cache server local =
    if any (is_local local) cache
    then some cache
    else elim server [ none ↦ none | some rows ↦ some (cache ++ rows) ]

unfoldable pub lead_of : List LocalRouterInfo → Option (List (String × String)) → String → Lead
unfolding fill_lrp_by_uuid fill_cr_port_by_lrp
lead_of routers cr_chassis local = record {
  local_chassis = local;
  lrp_name_of =
      λ g. gw_chassis_lrp_name g (fill_lrp_by_uuid routers []) (map (λ lr. lr.lrp_name) routers);
  cr_port_by_lrp = fill_cr_port_by_lrp routers [];
  cr_chassis = cr_chassis;
}

-- the updates of the transaction; `none` where a read failed
unfoldable pub ensure_active_priority_lead :
    List LocalRouterInfo
    → Option (List GatewayChassis)
    → Option (List GatewayChassis)
    → Option (List (String × String))
    → String
    → Option (List (String × ℕ))
ensure_active_priority_lead [] cache server cr_chassis local = some []
ensure_active_priority_lead (lr ∷ lrs) none server cr_chassis local = none
ensure_active_priority_lead (lr ∷ lrs) (some cache) server cr_chassis local =
    let cx = lead_of (lr ∷ lrs) cr_chassis local in
    elim (merged_rows cache server local) [
      | none ↦ none
      | some rows ↦ some (boosts cx (groups_from cx [] rows))
    ]
