-- ===== src/Takeover/Release.antt =====
-- The draining chassis sees the marker of the chassis that took over.
use ovn_network_agent.Prelude.{
  ℕ, ◌<◌, String, ◌≡◌, Bool, true, false, not, some, List, [], ◌∷◌, ◌++◌, map, arith, ◌==◌, nat_eq,
  string_eq, bool_eq, pair_eq, is_empty, all, contains, Nodup,
}
use ovn_network_agent.Ovn.State.{LocalRouterInfo}
use ovn_network_agent.Northbound.{StaticRoute, LogicalRouter}
use ovn_network_agent.Takeover.{
  local_managed_default_routes, mark_takeover_ready, takeover_markers_ready, Round, marker_seen,
  round_ready, await_rounds, wait_set, await_takeover_ready,
}
use ovn_network_agent.Takeover.Handshake.{marked, marked_ready}
use ovn_network_agent.Takeover.Markers.{route_uuids}

released_by :
    (wait_uuids : List String) (local : String) (earlier later : List Round)
    (rows : List StaticRoute) (deadline : Bool)
    → all (λ r. not r.deadline) earlier ≡ true
    → takeover_markers_ready rows wait_uuids local ≡ true
    → await_rounds wait_uuids local
        (earlier ++ record { rows = some rows; deadline = deadline } ∷ later)
      ≡ marker_seen
unfolding await_rounds round_ready
released_by wait_uuids local [] later rows deadline running ready = ground arith
released_by wait_uuids local (r ∷ earlier) later rows deadline running ready =
    ground (arith, released_by wait_uuids local earlier later rows deadline)

-- With the handshake on, a route to wait for, distinct UUIDs of the routes, and another chassis
-- whose name is not empty and whose routers have all routes waited for: once a round of the
-- draining chassis, before the deadline has passed, reads the rows that MarkTakeoverReady of that
-- chassis leaves, its wait has ended by a marker that it saw.
pub await_released :
    (settle_delay : ℕ) (locals others : List LocalRouterInfo) (skip_lrps : List String)
    (routers : List LogicalRouter) (routes : List StaticRoute) (local chassis : String)
    (earlier later : List Round) (deadline : Bool)
    → 0 < settle_delay
    → is_empty (wait_set skip_lrps locals routers routes) ≡ false
    → Nodup (route_uuids routes)
    → (chassis == "") ≡ false
    → (chassis == local) ≡ false
    → all
        (contains (route_uuids (local_managed_default_routes others routers routes)))
        (wait_set skip_lrps locals routers routes)
      ≡ true
    → all (λ r. not r.deadline) earlier ≡ true
    → let rows = map (marked (mark_takeover_ready chassis others routers routes)) routes in
      await_takeover_ready settle_delay locals skip_lrps
        (some (routers, routes))
        local
        (earlier ++ record { rows = some rows; deadline = deadline } ∷ later)
      ≡ marker_seen
unfolding await_takeover_ready
await_released settle_delay locals others skip_lrps routers routes local chassis earlier later
      deadline pos some_route n named other covered running =
    let wait_uuids = wait_set skip_lrps locals routers routes in
    let rows = map (marked (mark_takeover_ready chassis others routers routes)) routes in
    ground (
      arith,
      released_by wait_uuids local earlier later rows deadline running
          (marked_ready chassis local others routers routes wait_uuids n named other covered),
    )
