-- ===== src/Takeover/Handshake.antt =====
-- A draining chassis is released once another chassis has marked its routes.
use ovn_network_agent.Prelude.{
  String, ◌≡◌, refl, sym, Bool, true, false, ◌&&◌, not, none, some, List, [], ◌∷◌, map, arith,
  if◌then◌else◌, ◌==◌, nat_eq, string_eq, bool_eq, pair_eq, filter, all, contains, lookup,
  lookup-insert, Nodup,
}
use ovn_network_agent.Ovn.State.{LocalRouterInfo}
use ovn_network_agent.Northbound.{StaticRoute, LogicalRouter, is_managed, owned_routes}
use ovn_network_agent.Takeover.{
  local_managed_default_routes, MarkerUpdate, marker_of, stamp, mark_takeover_ready,
  takeover_markers_ready, is_default,
}
use ovn_network_agent.Takeover.Markers.{route_uuids, marker_at, takeover_markers_ready_iff}

-- a row under the updates of a transaction
abbrev pub marked : List MarkerUpdate → StaticRoute → StaticRoute
marked ups route = record route {
  external_ids = elim (lookup route.uuid ups) [ none ↦ route.external_ids | some ids ↦ ids ];
}

-- the routes of the agent among the owned ones
abbrev due : List String → StaticRoute → Bool
due owned route = contains owned route.uuid && is_default route && is_managed route

abbrev marks : String → List String → List StaticRoute → List MarkerUpdate
marks chassis owned routes =
    map (stamp chassis) (filter (λ r. not (marker_of r == chassis)) (filter (due owned) routes))

-- a row that carries the mark after the transaction
abbrev with_mark : String → List String → StaticRoute → StaticRoute
with_mark chassis owned route =
    if due owned route && not (marker_of route == chassis)
    then record route { external_ids = (stamp chassis route).1 }
    else route

lookup-marks :
    (chassis : String) (owned : List String) (routes : List StaticRoute) (uuid : String)
    → contains (route_uuids routes) uuid ≡ false
    → lookup uuid (marks chassis owned routes) ≡ none
lookup-marks chassis owned [] uuid h = refl
lookup-marks chassis owned (r ∷ routes) uuid h =
    ground (arith, lookup-marks chassis owned routes uuid)

marked-skip :
    (uuid : String) (ids : List (String × String)) (ups : List MarkerUpdate)
    (routes : List StaticRoute)
    → contains (route_uuids routes) uuid ≡ false
    → map (marked ((uuid, ids) ∷ ups)) routes ≡ map (marked ups) routes
marked-skip uuid ids ups [] h = refl
marked-skip uuid ids ups (r ∷ routes) h = ground (
  arith,
  marked-skip uuid ids ups routes,
  string_eq.same_iff uuid r.uuid,
  string_eq.same_iff r.uuid uuid,
)

marked-marks :
    (chassis : String) (owned : List String) (routes : List StaticRoute)
    → Nodup (route_uuids routes)
    → map (marked (marks chassis owned routes)) routes ≡ map (with_mark chassis owned) routes
marked-marks chassis owned [] n = refl
marked-marks chassis owned (r ∷ routes) n =
    let rest = marks chassis owned routes in
    ground (
      arith,
      marked-marks chassis owned routes n.1,
      marked-skip r.uuid (stamp chassis r).1 rest routes n.0,
      lookup-marks chassis owned routes r.uuid n.0,
      string_eq.same_iff r.uuid r.uuid,
    )

marker-with_mark :
    (chassis : String) (owned : List String) (route : StaticRoute)
    → due owned route ≡ true
    → marker_of (with_mark chassis owned route) ≡ chassis
marker-with_mark chassis owned route h = ground (
  arith,
  lookup-insert "ovn-network-agent-advertised" "ovn-network-agent-advertised" chassis
      route.external_ids,
  string_eq.same_iff (marker_of route) chassis,
)

due-with_mark :
    (chassis : String) (owned : List String) (route : StaticRoute)
    → due owned (with_mark chassis owned route) ≡ due owned route
due-with_mark chassis owned route = ground (
  arith,
  lookup-insert "ovn-network-agent-advertised" "ovn-network-agent" chassis route.external_ids,
)

uuid-with_mark :
    (chassis : String) (owned : List String) (route : StaticRoute)
    → (with_mark chassis owned route).uuid ≡ route.uuid
uuid-with_mark chassis owned route = ground arith

contains-filter_uuids :
    (test : StaticRoute → Bool) (routes : List StaticRoute) (uuid : String)
    → contains (route_uuids (filter test routes)) uuid ≡ true
    → contains (route_uuids routes) uuid ≡ true
contains-filter_uuids test [] uuid h = h
contains-filter_uuids test (r ∷ routes) uuid h =
    ground (arith, contains-filter_uuids test routes uuid)

marker_at-with_mark :
    (chassis : String) (owned : List String) (routes : List StaticRoute) (uuid : String)
    → Nodup (route_uuids routes)
    → contains (route_uuids (filter (due owned) routes)) uuid ≡ true
    → marker_at uuid (map (with_mark chassis owned) routes) ≡ some chassis
marker_at-with_mark chassis owned [] uuid n h = cc
marker_at-with_mark chassis owned (r ∷ routes) uuid n h = ground (
  arith,
  marker_at-with_mark chassis owned routes uuid n.1,
  marker-with_mark chassis owned r,
  uuid-with_mark chassis owned r,
  contains-filter_uuids (due owned) routes uuid,
  string_eq.same_iff uuid r.uuid,
)

route_uuids-with_mark :
    (chassis : String) (owned : List String) (routes : List StaticRoute)
    → route_uuids (map (with_mark chassis owned) routes) ≡ route_uuids routes
route_uuids-with_mark chassis owned [] = refl
route_uuids-with_mark chassis owned (r ∷ routes) =
    ground (arith, route_uuids-with_mark chassis owned routes)

marks_idem :
    (chassis : String) (owned : List String) (routes : List StaticRoute)
    → marks chassis owned (map (with_mark chassis owned) routes) ≡ []
marks_idem chassis owned [] = refl
marks_idem chassis owned (r ∷ routes) = ground (
  arith,
  marks_idem chassis owned routes,
  due-with_mark chassis owned r,
  marker-with_mark chassis owned r,
  string_eq.same_iff (marker_of (with_mark chassis owned r)) chassis,
)

Nodup-cong : (xs ys : List String) → xs ≡ ys → Nodup xs → Nodup ys
Nodup-cong xs ys e n = rw (← e) n

released :
    (chassis local : String) (owned : List String) (routes : List StaticRoute)
    (wait_uuids : List String)
    → Nodup (route_uuids routes)
    → (chassis == "") ≡ false
    → (chassis == local) ≡ false
    → all (contains (route_uuids (filter (due owned) routes))) wait_uuids ≡ true
    → all
        (λ uuid. elim (marker_at uuid (map (with_mark chassis owned) routes)) [
          | none ↦ true
          | some v ↦ not (v == "") && not (v == local)
        ])
        wait_uuids
      ≡ true
released chassis local owned routes [] n named other waits = refl
released chassis local owned routes (uuid ∷ uuids) n named other waits = ground (
  arith,
  released chassis local owned routes uuids n named other,
  marker_at-with_mark chassis owned routes uuid n,
)

-- The handshake: once another chassis, whose name is not empty, has marked the routes of its
-- routers, a chassis that waits for some of these routes is released by the rows that the
-- transaction leaves; the UUIDs of the routes are distinct.
pub marked_ready :
    (chassis local : String) (locals : List LocalRouterInfo) (routers : List LogicalRouter)
    (routes : List StaticRoute) (wait_uuids : List String)
    → Nodup (route_uuids routes)
    → (chassis == "") ≡ false
    → (chassis == local) ≡ false
    → all (contains (route_uuids (local_managed_default_routes locals routers routes))) wait_uuids
      ≡ true
    → takeover_markers_ready
        (map (marked (mark_takeover_ready chassis locals routers routes)) routes)
        wait_uuids
        local
      ≡ true
unfolding mark_takeover_ready local_managed_default_routes
marked_ready chassis local locals routers routes wait_uuids n named other waits =
    let owned = owned_routes (λ r. contains (map (λ lr. lr.router_uuid) locals) r.uuid) routers in
    let left = map (with_mark chassis owned) routes in
    let n' =
      Nodup-cong (route_uuids routes) (route_uuids left)
        (sym (route_uuids-with_mark chassis owned routes)) n in
    rw (marked-marks chassis owned routes n, takeover_markers_ready_iff left wait_uuids local n')
      (released chassis local owned routes wait_uuids n named other waits)

-- A second MarkTakeoverReady, on the rows that the first one's transaction leaves, writes nothing.
pub mark_takeover_ready_idem :
    (chassis : String) (locals : List LocalRouterInfo) (routers : List LogicalRouter)
    (routes : List StaticRoute)
    → Nodup (route_uuids routes)
    → mark_takeover_ready chassis locals routers
        (map (marked (mark_takeover_ready chassis locals routers routes)) routes)
      ≡ []
unfolding mark_takeover_ready local_managed_default_routes
mark_takeover_ready_idem chassis locals routers routes n =
    let owned = owned_routes (λ r. contains (map (λ lr. lr.router_uuid) locals) r.uuid) routers in
    rw (marked-marks chassis owned routes n) (marks_idem chassis owned routes)
