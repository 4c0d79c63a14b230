-- ===== src/Takeover.antt =====
-- The two halves of the drain's takeover handshake in ovn_gateway.go: the marker on the managed
-- default routes, which the takeover chassis writes and the draining one waits for.
pub mod Markers
pub mod Handshake
pub mod Release
use ovn_network_agent.Prelude.{
  ℕ, zero, suc, ◌+◌, ◌-◌, ◌*◌, ◌/◌, ◌%◌, ◌^◌, ◌≤◌, ◌<◌, String, ◌≡◌, refl, sym, ap, ◌∙◌, ◌≢◌, ◌↔◌,
  ◌⊎◌, inl, inr, Bool, true, false, ◌&&◌, ◌||◌, not, Option, none, some, List, [], ◌∷◌, ◌++◌, map,
  arith, ltb, leb, nat_beq, if◌then◌else◌, ltb→lt, leb→le, Bool-cases, Option-cases, is_some,
  Comparable, ◌==◌, nat_eq, string_eq, bool_eq, pair_eq, length, is_empty, filter, any, all, All,
  length-append, length-filter, filter-append, all-append, any-append, all-filter, all-filter_self,
  contains, eq_self, contains-append, contains-filter, all-contains, without, contains-without,
  lookup, insert, keys, remove, lookup-insert, lookup-remove, contains-keys-insert, contains-keys,
  Nodup, str_leb, trim_space, sort_strings, contains-sort_strings, Nodup-sort_strings,
  all-sort_strings, nil_of_contains, not_nil_of_contains, trim_suffix,
}
use ovn_network_agent.Ovn.State.{LocalRouterInfo}
use ovn_network_agent.Northbound.{StaticRoute, LogicalRouter, read, is_managed, owned_routes}

abbrev pub is_default : StaticRoute → Bool
is_default route = route.ip_prefix == "0.0.0.0/0"

unfoldable pub local_managed_default_routes :
    List LocalRouterInfo → List LogicalRouter → List StaticRoute → List StaticRoute
local_managed_default_routes locals routers routes =
    let local_uuids = map (λ lr. lr.router_uuid) locals in
    let owned = owned_routes (λ r. contains local_uuids r.uuid) routers in
    filter (λ route. contains owned route.uuid && is_default route && is_managed route) routes

-- an update of a row's external_ids
abbrev pub MarkerUpdate : Type 0
MarkerUpdate = String × List (String × String)

abbrev pub marker_of : StaticRoute → String
marker_of route = read route.external_ids "ovn-network-agent-advertised"

abbrev stamp : String → StaticRoute → MarkerUpdate
stamp chassis route = (route.uuid, insert "ovn-network-agent-advertised" chassis route.external_ids)

-- the updates of MarkTakeoverReady's transaction, with the reads successful
unfoldable pub mark_takeover_ready :
    String → List LocalRouterInfo → List LogicalRouter → List StaticRoute → List MarkerUpdate
mark_takeover_ready chassis locals routers routes = map (stamp chassis) (
    filter (λ route. not (marker_of route == chassis))
      (local_managed_default_routes locals routers routes))

-- markerByUUID, filled row by row
fill_markers : List StaticRoute → List (String × String) → List (String × String)
fill_markers [] m = m
fill_markers (route ∷ routes) m = fill_markers routes (insert route.uuid (marker_of route) m)

-- the marker of this row lets the wait end
satisfied : String → Option String → Bool
satisfied local none = true
satisfied local (some marker) = not (marker == "" || marker == local)

unfoldable pub takeover_markers_ready : List StaticRoute → List String → String → Bool
unfolding fill_markers satisfied
takeover_markers_ready routes wait_uuids local =
    let markers = fill_markers routes [] in
    all (λ uuid. satisfied local (lookup uuid markers)) wait_uuids

-- how awaitTakeoverReady ends: the handshake is off; it held the safety margin only; it saw the
-- marker and then held the margin; the deadline passed; or the rounds are used up
pub data AwaitEnd : Type 0 where
  handshake_off : AwaitEnd
  margin_only : AwaitEnd
  marker_seen : AwaitEnd
  gave_up : AwaitEnd
  still_waiting : AwaitEnd

-- what one round of the wait reads, and whether the deadline passes in it
pub record Round : Type 0 where
  pub rows : Option (List StaticRoute)
  pub deadline : Bool

round_ready : List String → String → Option (List StaticRoute) → Bool
round_ready wait_uuids local none = false
round_ready wait_uuids local (some rows) = takeover_markers_ready rows wait_uuids local

unfoldable pub await_rounds : List String → String → List Round → AwaitEnd
unfolding round_ready
await_rounds wait_uuids local [] = still_waiting
await_rounds wait_uuids local (round ∷ rounds) =
    let rest = await_rounds wait_uuids local rounds in
    if round_ready wait_uuids local round.rows
    then marker_seen
    else if round.deadline
    then gave_up
    else rest

abbrev pub wait_set :
    List String → List LocalRouterInfo → List LogicalRouter → List StaticRoute → List String
wait_set skip_lrps locals routers routes =
    map (λ route. route.uuid)
      (local_managed_default_routes (filter (λ lr. not (contains skip_lrps lr.lrp_name)) locals)
        routers routes)

-- the read that resolves the wait set is `none` where it failed
unfoldable pub await_takeover_ready :
    ℕ
    → List LocalRouterInfo
    → List String
    → Option (List LogicalRouter × List StaticRoute)
    → String
    → List Round
    → AwaitEnd
await_takeover_ready settle_delay locals skip_lrps read local rounds =
    if settle_delay == 0 then handshake_off else elim read [
      | none ↦ margin_only
      | some (routers, routes) ↦
          let wait_uuids = wait_set skip_lrps locals routers routes in
          if is_empty wait_uuids then margin_only else await_rounds wait_uuids local rounds
    ]
