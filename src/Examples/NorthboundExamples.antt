-- ===== src/Examples/NorthboundExamples.antt =====
-- Tests of the writes to routes and MAC bindings: the takeover handshake and the managed entries.
use ovn_network_agent.Prelude.{
  String, ◌≡◌, refl, true, false, ◌&&◌, not, none, some, List, [], ◌∷◌, map, arith, ◌==◌, nat_eq,
  string_eq, bool_eq, pair_eq, filter, all, contains, Nodup, int_eq,
}
use ovn_network_agent.Ovn.State.{LocalRouterInfo}
use ovn_network_agent.Northbound.{StaticRoute, LogicalRouter, MacBinding}
use ovn_network_agent.Takeover.{
  mark_takeover_ready, takeover_markers_ready, local_managed_default_routes,
}
use ovn_network_agent.Takeover.Handshake.{marked}
use ovn_network_agent.Takeover.Markers.{route_uuids, marker_at, takeover_markers_ready_iff}
use ovn_network_agent.Takeover.{await_takeover_ready, marker_seen}
use ovn_network_agent.Takeover.Release.{await_released}
use ovn_network_agent.Managed.{
  adjusted, update_route, ensure_default_route, ensure_static_mac_binding, cleanup_stale_entries,
}
use ovn_network_agent.Managed.DefaultRoute.{IsWanted, ensure_default_route-settles}
use ovn_network_agent.Managed.Settled.{written, mac_of, mac_of-written}
use ovn_network_agent.Managed.Spared.{is_linked, cleanup_spares_live, cleanup-routes}
use ovn_network_agent.Examples.GatewayExamples.{two_routers}

abbrev managed_by : String → List (String × String)
managed_by chassis = ("ovn-network-agent", "managed") ∷ ("ovn-network-agent-chassis", chassis) ∷ []

abbrev route_1 : StaticRoute
route_1 = record {
  uuid = "s1";
  ip_prefix = "0.0.0.0/0";
  nexthop = "192.0.2.254";
  output_port = some "lrp-1";
  external_ids = managed_by "net1";
}

-- the default route of another owner
abbrev route_2 : StaticRoute
route_2 = record {
  uuid = "s2";
  ip_prefix = "0.0.0.0/0";
  nexthop = "198.51.100.254";
  output_port = none;
  external_ids = [];
}

abbrev routes : List StaticRoute
routes = route_1 ∷ route_2 ∷ []

abbrev nb_routers : List LogicalRouter
nb_routers =
    record { uuid = "u1"; name = "r"; ports = []; nat = []; static_routes = "s1" ∷ [] }
    ∷ record { uuid = "u2"; name = "r"; ports = []; nat = []; static_routes = "s2" ∷ [] }
    ∷ []

routes_Nodup : Nodup (route_uuids routes)
routes_Nodup = (refl, (refl, tt))

takeover_markers_ready_iff_example :
    takeover_markers_ready routes ("s1" ∷ []) "net1"
    ≡ all
        (λ uuid. elim (marker_at uuid routes) [
          | none ↦ true
          | some v ↦ not (v == "") && not (v == "net1")
        ])
        ("s1" ∷ [])
takeover_markers_ready_iff_example =
    takeover_markers_ready_iff routes ("s1" ∷ []) "net1" routes_Nodup

-- a round before the mark, and the one after it
await_released_example :
    await_takeover_ready 5 two_routers ("lrp-2" ∷ []) (some (nb_routers, routes)) "net1" (
      record { rows = some routes; deadline = false }
      ∷ record {
        rows =
            some (map (marked (mark_takeover_ready "net2" two_routers nb_routers routes)) routes);
        deadline = false;
      }
      ∷ [])
    ≡ marker_seen
unfolding local_managed_default_routes
await_released_example =
    await_released 5 two_routers two_routers ("lrp-2" ∷ []) nb_routers routes "net1" "net2"
      (record { rows = some routes; deadline = false } ∷ []) [] false (ground arith) refl
      routes_Nodup refl refl refl refl

abbrev router_1 : LocalRouterInfo
router_1 = record {
  router_name = "r1";
  router_uuid = "u1";
  lrp_name = "lrp-1";
  lrp_uuid = "p1";
  lrp_mac = "fa:16:3e:00:00:01";
  lrp_networks = "192.0.2.1/24" ∷ [];
  cr_port = "cr-lrp-1";
  segment = none;
  gateway_chassis_uuids = "g1" ∷ "g2" ∷ [];
}

abbrev retagged : StaticRoute
retagged = record route_1 { external_ids = managed_by "net2" }

retag :
    ensure_default_route router_1 "192.0.2.254" "net2" routes nb_routers
    ≡ some (some (update_route retagged))
unfolding ensure_default_route adjusted
retag = refl

ensure_default_route-settles_example :
    IsWanted router_1 "192.0.2.254" "net2" routes (update_route retagged)
    × (ensure_default_route router_1 "192.0.2.254" "net2" (retagged ∷ route_2 ∷ []) nb_routers
        ≡ some none)
ensure_default_route-settles_example =
    ensure_default_route-settles router_1 "192.0.2.254" "net2" routes nb_routers
      (update_route retagged) routes_Nodup refl retag

abbrev bindings : List MacBinding
bindings =
    record { uuid = "b1"; logical_port = "lrp-1"; ip = "192.0.2.254"; mac = "aa" }
    ∷ record { uuid = "b2"; logical_port = "lrp-2"; ip = "198.51.100.254"; mac = "bb" }
    ∷ []

mac_of-written_example :
    mac_of "lrp-2" "198.51.100.254"
      (written (ensure_static_mac_binding "lrp-2" "198.51.100.254" "cc" bindings) bindings)
    ≡ some "cc"
mac_of-written_example = mac_of-written "lrp-2" "198.51.100.254" "cc" bindings (refl, (refl, tt))

cleanup_of_a_run :
    cleanup_stale_entries ("net1" ∷ []) routes nb_routers bindings
    ≡ record { routes = ("u1", "s1") ∷ []; bindings = "b1" ∷ [] }
unfolding cleanup_stale_entries
cleanup_of_a_run = refl

-- the takeover on `net2` has a route on the port of the one that `net1` left behind
abbrev route_3 : StaticRoute
route_3 = record {
  uuid = "s3";
  ip_prefix = "0.0.0.0/0";
  nexthop = "192.0.2.254";
  output_port = some "lrp-1";
  external_ids = managed_by "net2";
}

abbrev route_4 : StaticRoute
route_4 = record {
  uuid = "s4";
  ip_prefix = "0.0.0.0/0";
  nexthop = "198.51.100.254";
  output_port = some "lrp-2";
  external_ids = managed_by "net1";
}

abbrev both_chassis : List StaticRoute
both_chassis = route_1 ∷ route_3 ∷ route_4 ∷ []

abbrev more_routers : List LogicalRouter
more_routers =
    record { uuid = "u1"; name = "r"; ports = []; nat = []; static_routes = "s1" ∷ "s3" ∷ [] }
    ∷ record { uuid = "u2"; name = "r"; ports = []; nat = []; static_routes = "s4" ∷ [] }
    ∷ []

-- both routes of `net1` go, and only the binding of the port without a live chassis
cleanup_beside_live :
    cleanup_stale_entries ("net1" ∷ []) both_chassis more_routers bindings
    ≡ record { routes = ("u1", "s1") ∷ ("u2", "s4") ∷ []; bindings = "b2" ∷ [] }
unfolding cleanup_stale_entries
cleanup_beside_live = refl

cleanup_spares_live_example :
    (cleanup_stale_entries ("net1" ∷ []) both_chassis more_routers bindings).bindings
    ≡ (cleanup_stale_entries
        ("net1" ∷ [])
        both_chassis
        more_routers
        (filter (λ b. not (b.logical_port == "lrp-1")) bindings)).bindings
cleanup_spares_live_example =
    cleanup_spares_live ("net1" ∷ []) (route_1 ∷ []) (route_4 ∷ []) route_3 more_routers bindings
      "net2" "lrp-1" refl refl (ground (arith, string_eq.same_iff "net2" "")) refl refl

cleanup-routes_example :
    let removed = (cleanup_stale_entries ("net1" ∷ []) both_chassis more_routers bindings).routes in
    (contains (map (λ e. e.1) removed) "s4" ≡ true)
    × (all (λ e. is_linked more_routers e.0 e.1) removed ≡ true)
cleanup-routes_example = cleanup-routes ("net1" ∷ []) both_chassis more_routers bindings "s4"
