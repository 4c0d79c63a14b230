-- ===== src/Takeover/Markers.antt =====
-- When the wait for the markers ends.
use ovn_network_agent.Prelude.{
  String, ◌≡◌, refl, true, false, ◌&&◌, not, Option, none, some, List, [], ◌∷◌, map, arith,
  if◌then◌else◌, ◌==◌, nat_eq, string_eq, bool_eq, pair_eq, all, contains, lookup, insert,
  lookup-insert, Nodup,
}
use ovn_network_agent.Northbound.{StaticRoute}
use ovn_network_agent.Takeover.{marker_of, fill_markers, satisfied, takeover_markers_ready}

abbrev pub route_uuids : List StaticRoute → List String
route_uuids routes = map (λ route. route.uuid) routes

-- the marker on the row of a UUID, if it has a row
abbrev pub marker_at : String → List StaticRoute → Option String
marker_at uuid [] = none
marker_at uuid (route ∷ routes) =
    if uuid == route.uuid then some (marker_of route) else marker_at uuid routes

marker_at-none :
    (uuid : String) (routes : List StaticRoute)
    → contains (route_uuids routes) uuid ≡ false
    → marker_at uuid routes ≡ none
marker_at-none uuid [] h = refl
marker_at-none uuid (route ∷ routes) h = ground (arith, marker_at-none uuid routes)

lookup-fill_markers :
    (uuid : String) (routes : List StaticRoute) (m : List (String × String))
    → Nodup (route_uuids routes)
    → lookup uuid (fill_markers routes m)
      ≡ elim (marker_at uuid routes) [ none ↦ lookup uuid m | some v ↦ some v ]
unfolding fill_markers
lookup-fill_markers uuid [] m n = refl
lookup-fill_markers uuid (route ∷ routes) m n = ground (
  arith,
  lookup-fill_markers uuid routes (insert route.uuid (marker_of route) m) n.1,
  lookup-insert route.uuid uuid (marker_of route) m,
  marker_at-none uuid routes,
  string_eq.same_iff uuid route.uuid,
)

-- With the UUIDs of the routes distinct, one read of the routes counts as ready, in
-- takeoverMarkersReady, exactly if each route waited for has no row any more, or a marker that is
-- not empty and does not name this chassis.
pub takeover_markers_ready_iff :
    (routes : List StaticRoute) (wait_uuids : List String) (local : String)
    → Nodup (route_uuids routes)
    → takeover_markers_ready routes wait_uuids local
      ≡ all
          (λ uuid. elim (marker_at uuid routes) [
            | none ↦ true
            | some v ↦ not (v == "") && not (v == local)
          ])
          wait_uuids
unfolding takeover_markers_ready satisfied
takeover_markers_ready_iff routes [] local n = refl
takeover_markers_ready_iff routes (uuid ∷ uuids) local n =
    ground
      (arith, takeover_markers_ready_iff routes uuids local n, lookup-fill_markers uuid routes [] n)
