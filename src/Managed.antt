-- ===== src/Managed.antt =====
-- The entries of ovn_gateway.go that carry the agent's tag: the default route and the MAC binding
-- that it ensures, and the removal of its own entries and of those of vanished chassis. Reads and
-- the construction of operations do not fail; each removal is a transaction of its own.
pub mod DefaultRoute
pub mod Settled
pub mod Spared
use ovn_network_agent.Prelude.{
  ℕ, zero, suc, ◌+◌, ◌-◌, ◌*◌, ◌/◌, ◌%◌, ◌^◌, ◌≤◌, ◌<◌, String, ◌≡◌, refl, sym, ap, ◌∙◌, ◌≢◌, ◌↔◌,
  ◌⊎◌, inl, inr, Bool, true, false, ◌&&◌, ◌||◌, not, Option, none, some, List, [], ◌∷◌, ◌++◌, map,
  arith, ltb, leb, nat_beq, if◌then◌else◌, ltb→lt, leb→le, Bool-cases, Option-cases, is_some,
  Comparable, ◌==◌, nat_eq, string_eq, bool_eq, pair_eq, length, is_empty, filter, any, all, All,
  length-append, length-filter, filter-append, all-append, any-append, all-filter, all-filter_self,
  contains, eq_self, contains-append, contains-filter, all-contains, without, contains-without,
  lookup, insert, keys, remove, lookup-insert, lookup-remove, contains-keys-insert, contains-keys,
  Nodup, str_leb, trim_space, sort_strings, contains-sort_strings, Nodup-sort_strings,
  all-sort_strings, nil_of_contains, not_nil_of_contains, trim_suffix, cut_prefix, split_on,
  fields_func, lower_code, is_space, insert_by, sort_by, ℤ, pos, negsuc, pos_part, neg_part, ◌≤ℤ◌,
  int_leb, int_leb_iff, int_eq, All-map, All-pi,
}
use ovn_network_agent.Ovn.State.{LocalRouterInfo}
use ovn_network_agent.Northbound.{
  StaticRoute, LogicalRouter, MacBinding, read, is_managed, chassis_tag,
}

-- a transaction's write
pub data Write : Type 0 where
  create_route : String → StaticRoute → Write
  update_route : StaticRoute → Write
  create_mac : MacBinding → Write
  update_mac : MacBinding → Write

find_router : String → List LogicalRouter → Option LogicalRouter
find_router uuid [] = none
find_router uuid (r ∷ routers) = if r.uuid == uuid then some r else find_router uuid routers

-- the first default route of the router
find_default : List String → List StaticRoute → Option StaticRoute
find_default uuids [] = none
find_default uuids (route ∷ routes) =
    if contains uuids route.uuid && route.ip_prefix == "0.0.0.0/0"
    then some route
    else find_default uuids routes

abbrev tagged : String → List (String × String) → List (String × String)
tagged chassis ids = insert "ovn-network-agent-chassis" chassis ids

-- what becomes of a default route that is there; `none` leaves it as it is
unfoldable pub adjusted : LocalRouterInfo → String → String → StaticRoute → Option StaticRoute
adjusted lr vgw_ip chassis route =
    if not (is_managed route)
    then none
    else if route.nexthop == vgw_ip
    then (if chassis_tag route == chassis
        then none
        else some (record route { external_ids = tagged chassis route.external_ids }))
    else some (record route {
      nexthop = vgw_ip;
      output_port = some lr.lrp_name;
      external_ids = tagged chassis route.external_ids;
    })

unfoldable pub new_route : LocalRouterInfo → String → String → StaticRoute
new_route lr vgw_ip chassis = record {
  uuid = "new_route";
  ip_prefix = "0.0.0.0/0";
  nexthop = vgw_ip;
  output_port = some lr.lrp_name;
  external_ids = ("ovn-network-agent", "managed") ∷ ("ovn-network-agent-chassis", chassis) ∷ [];
}

-- the write of ensureDefaultRoute, if there is one; `none` where the router is not found
unfoldable pub ensure_default_route :
    LocalRouterInfo
    → String
    → String
    → List StaticRoute
    → List LogicalRouter
    → Option (Option Write)
unfolding find_router find_default
ensure_default_route lr vgw_ip chassis routes routers = elim (find_router lr.router_uuid routers) [
  | none ↦ none
  | some router ↦ elim (find_default router.static_routes routes) [
    | none ↦ some (some (create_route lr.router_uuid (new_route lr vgw_ip chassis)))
    | some route ↦ elim (adjusted lr vgw_ip chassis route) [
      | none ↦ some none
      | some new ↦ some (some (update_route new))
    ]
  ]
]

unfoldable pub ensure_static_mac_binding : String → String → String → List MacBinding → Option Write
ensure_static_mac_binding lrp ip mac [] =
    some (create_mac (record { uuid = "new_mac_binding"; logical_port = lrp; ip = ip; mac = mac }))
ensure_static_mac_binding lrp ip mac (b ∷ bindings) =
    let rest = ensure_static_mac_binding lrp ip mac bindings in
    if b.logical_port == lrp && b.ip == ip
    then (if b.mac == mac then none else some (update_mac (record b { mac = mac })))
    else rest

-- the router that a removal unlinks the route from, and the UUIDs of routes and of MAC bindings
pub record Removal : Type 0 where
  pub routes : List (String × String)
  pub bindings : List String

-- the first of the local routers that has the route
local_owner : List String → String → List LogicalRouter → Option String
local_owner locals uuid [] = none
local_owner locals uuid (r ∷ routers) =
    if contains locals r.uuid && contains r.static_routes uuid
    then some r.uuid
    else local_owner locals uuid routers

linked : (StaticRoute → Option String) → StaticRoute → List (String × String)
linked owner route = elim (owner route) [ none ↦ [] | some router ↦ (router, route.uuid) ∷ [] ]

unlink_all :
    (StaticRoute → Bool) → (StaticRoute → Option String) → List StaticRoute → List (String × String)
unfolding linked
unlink_all test owner [] = []
unlink_all test owner (route ∷ routes) =
    if test route
    then linked owner route ++ unlink_all test owner routes
    else unlink_all test owner routes

-- what RemoveManagedNBEntries removes
unfoldable pub remove_managed_nb_entries :
    List LocalRouterInfo → List StaticRoute → List LogicalRouter → List MacBinding → Removal
unfolding unlink_all local_owner
remove_managed_nb_entries [] routes routers bindings = record { routes = []; bindings = [] }
remove_managed_nb_entries (lr ∷ lrs) routes routers bindings =
    let locals = map (λ r. r.router_uuid) (lr ∷ lrs) in
    let ports = map (λ r. r.lrp_name) (lr ∷ lrs) in
    record {
      routes = unlink_all is_managed (λ route. local_owner locals route.uuid routers) routes;
      bindings = map (λ b. b.uuid) (filter (λ b. contains ports b.logical_port) bindings);
    }

unfoldable pub list_managed_route_chassis : List StaticRoute → List String
list_managed_route_chassis [] = []
list_managed_route_chassis (route ∷ routes) =
    if is_managed route && not (chassis_tag route == "")
    then chassis_tag route ∷ list_managed_route_chassis routes
    else list_managed_route_chassis routes

-- the last router that has the route
last_owner : String → List LogicalRouter → Option String → Option String
last_owner uuid [] found = found
last_owner uuid (r ∷ routers) found =
    last_owner uuid routers (if contains r.static_routes uuid then some r.uuid else found)

-- a managed route of a chassis that is there, with this output port
abbrev pub is_live_on : List String → String → StaticRoute → Bool
is_live_on stale port route =
    is_managed route
    && not (chassis_tag route == "")
    && not (contains stale (chassis_tag route))
    && elim route.output_port [ none ↦ false | some p ↦ p == port ]

-- a managed route of a chassis that is gone
abbrev pub is_stale : List String → StaticRoute → Bool
is_stale stale route =
    is_managed route && not (chassis_tag route == "") && contains stale (chassis_tag route)

-- the key of the route's MAC binding, unless a chassis that is there has a route on the port
binding_key : List String → List StaticRoute → StaticRoute → List (String × String)
binding_key stale table route = elim route.output_port [
  | none ↦ []
  | some port ↦ if any (is_live_on stale port) table then [] else (port, route.nexthop) ∷ []
]

stale_keys :
    List String → List StaticRoute → List LogicalRouter → List StaticRoute → List (String × String)
unfolding binding_key last_owner
stale_keys stale table routers [] = []
stale_keys stale table routers (route ∷ routes) =
    let rest = stale_keys stale table routers routes in
    if is_stale stale route && is_some (last_owner route.uuid routers none)
    then binding_key stale table route ++ rest
    else rest

-- what CleanupStaleChassisManagedEntries removes
unfoldable pub cleanup_stale_entries :
    List String → List StaticRoute → List LogicalRouter → List MacBinding → Removal
unfolding unlink_all last_owner stale_keys
cleanup_stale_entries stale routes routers bindings =
    let keys = stale_keys stale routes routers routes in
    record {
      routes = unlink_all (is_stale stale) (λ route. last_owner route.uuid routers none) routes;
      bindings = map (λ b. b.uuid) (filter (λ b. contains keys (b.logical_port, b.ip)) bindings);
    }
