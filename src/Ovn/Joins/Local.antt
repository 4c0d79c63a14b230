-- ===== src/Ovn/Joins/Local.antt =====
-- Which routers the joins find.
use ovn_network_agent.Prelude.{
  String, ◌≡◌, refl, inl, inr, Bool, false, ◌&&◌, ◌||◌, not, none, some, List, [], ◌∷◌, ◌++◌, map,
  arith, Option-cases, is_some, ◌==◌, nat_eq, string_eq, bool_eq, pair_eq, any, contains, lookup,
  insert, keys, contains-keys-insert,
}
use ovn_network_agent.Ovn.State.{LocalnetSegment, LocalRouterInfo}
use ovn_network_agent.Ovn.Rows.{PortBinding, RouterPort}
use ovn_network_agent.Northbound.{LogicalRouter}
use ovn_network_agent.Ovn.Joins.{
  cr_port_lrp_name, redirects_here, local_cr_ports_from, local_cr_ports, LrpIndex,
  local_lrp_uuid_set, matched_port, or_zero, LocalRouters, add_router, router_info, collect_from,
  collect_local_routers,
}

-- the port redirects here for the LRP of this name
abbrev pub redirects_for : List (String × String) → String → String → String → PortBinding → Bool
redirects_for by_ref local gateway_port lrp pb =
    redirects_here by_ref local gateway_port pb && lrp == cr_port_lrp_name pb

local_from :
    (by_ref : List (String × String)) (local gateway_port : String) (pbs : List PortBinding)
    (m : List (String × String)) (lrp : String)
    → contains (keys (local_cr_ports_from by_ref local gateway_port pbs m)) lrp ≡ (
        contains (keys m) lrp
        || (not (lrp == "") && any (redirects_for by_ref local gateway_port lrp) pbs))
unfolding local_cr_ports_from
local_from by_ref local gateway_port [] m lrp = ground arith
local_from by_ref local gateway_port (pb ∷ pbs) m lrp =
    let name = cr_port_lrp_name pb in
    ground (
      arith,
      local_from by_ref local gateway_port pbs m lrp,
      local_from by_ref local gateway_port pbs (insert name pb.logical_port m) lrp,
      contains-keys-insert name lrp pb.logical_port m,
      string_eq.same_iff lrp name,
    )

-- An LRP counts as local exactly if a chassisredirect port that is bound here redirects for it.
pub contains-local_cr_ports :
    (pbs : List PortBinding) (by_ref : List (String × String)) (local gateway_port lrp : String)
    → contains (keys (local_cr_ports pbs by_ref local gateway_port)) lrp
      ≡ (not (lrp == "") && any (redirects_for by_ref local gateway_port lrp) pbs)
contains-local_cr_ports pbs by_ref local gateway_port lrp =
    local_from by_ref local gateway_port pbs [] lrp

-- the indexed row of the name has this UUID
abbrev pub named : LrpIndex → String → String → Bool
named idx uuid name = elim (lookup name idx.by_name) [ none ↦ false | some lrp ↦ uuid == lrp.uuid ]

pub contains-local_lrp_uuid_set :
    (names : List String) (idx : LrpIndex) (uuid : String)
    → contains (local_lrp_uuid_set names idx) uuid ≡ any (named idx uuid) names
unfolding local_lrp_uuid_set
contains-local_lrp_uuid_set [] idx uuid = refl
contains-local_lrp_uuid_set (n ∷ names) idx uuid = elim (Option-cases (lookup n idx.by_name)) [
  | inl e ↦ ground (arith, contains-local_lrp_uuid_set names idx uuid)
  | inr (lrp, e) ↦ ground (arith, contains-local_lrp_uuid_set names idx uuid)
]

is_some-matched_port :
    (uuids ports : List String) → is_some (matched_port uuids ports) ≡ any (contains uuids) ports
unfolding matched_port
is_some-matched_port uuids [] = refl
is_some-matched_port uuids (p ∷ ports) = ground (arith, is_some-matched_port uuids ports)

abbrev pub router_uuids : List LocalRouterInfo → List String
router_uuids lrs = map (λ lr. lr.router_uuid) lrs

router_uuids-snoc :
    (lrs : List LocalRouterInfo) (lr : LocalRouterInfo) (u : String)
    → contains (router_uuids (lrs ++ lr ∷ [])) u
      ≡ (contains (router_uuids lrs) u || u == lr.router_uuid)
router_uuids-snoc [] lr u = ground arith
router_uuids-snoc (x ∷ lrs) lr u = ground (arith, router_uuids-snoc lrs lr u)

-- the router has a port of one of the UUIDs
abbrev pub owns_local : List String → String → LogicalRouter → Bool
owns_local local_uuids u r = u == r.uuid && any (contains local_uuids) r.ports

router_uuids-add :
    (local_lrps : List (String × String)) (segments : List (String × LocalnetSegment))
    (r : LogicalRouter) (lrp : RouterPort) (found : LocalRouters) (u : String)
    → contains (router_uuids (add_router local_lrps segments r lrp found).routers) u
      ≡ (contains (router_uuids found.routers) u || u == r.uuid)
unfolding add_router router_info
router_uuids-add local_lrps segments r lrp found u =
    router_uuids-snoc found.routers (router_info r lrp local_lrps (lookup lrp.name segments)) u

collected :
    (idx : LrpIndex) (uuids : List String) (local_lrps : List (String × String))
    (segments : List (String × LocalnetSegment)) (routers : List LogicalRouter)
    (found : LocalRouters) (u : String)
    → contains (router_uuids (collect_from idx uuids local_lrps segments routers found).routers) u
      ≡ (contains (router_uuids found.routers) u || any (owns_local uuids u) routers)
unfolding collect_from
collected idx uuids local_lrps segments [] found u = ground arith
collected idx uuids local_lrps segments (r ∷ routers) found u =
    elim (Option-cases (matched_port uuids r.ports)) [
      | inl e ↦ ground (
        arith,
        collected idx uuids local_lrps segments routers found u,
        is_some-matched_port uuids r.ports,
      )
      | inr (p, e) ↦
          let lrp = or_zero (lookup p idx.by_uuid) in
          ground (
            arith,
            collected idx uuids local_lrps segments routers
                (add_router local_lrps segments r lrp found) u,
            is_some-matched_port uuids r.ports,
            router_uuids-add local_lrps segments r lrp found u,
          )
    ]

-- A router is collected exactly if one of its ports is local.
pub contains-collect_local_routers :
    (routers : List LogicalRouter) (idx : LrpIndex) (uuids : List String)
    (local_lrps : List (String × String)) (segments : List (String × LocalnetSegment)) (u : String)
    → contains
        (router_uuids (collect_local_routers routers idx uuids local_lrps segments).routers)
        u
      ≡ any (owns_local uuids u) routers
contains-collect_local_routers routers idx uuids local_lrps segments u =
    collected idx uuids local_lrps segments routers
      (record { routers = []; nat_macs = []; nat_segments = [] }) u
