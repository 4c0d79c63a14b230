-- ===== src/RouteWatch/Classes.antt =====
-- What drift means, and what it leaves out.
use ovn_network_agent.Prelude.{
  String, ◌≡◌, ◌⊎◌, true, false, none, some, arith, nat_eq, string_eq, bool_eq, pair_eq, contains,
  int_eq,
}
use ovn_network_agent.RouteWatch.{
  RouteEvent, RouteOwnership, DriftKind, kernel, frr, cut_host, classify_route_event,
}

-- the owned route that an event hits is named by its destination
abbrev pub Owns : RouteEvent → RouteOwnership → DriftKind → Type 0
Owns ev owned kernel =
    (contains owned.kernel_ips (cut_host ev.dst).0 ≡ true)
    ⊎ (contains owned.leak_nets ev.dst ≡ true)
Owns ev owned frr = contains owned.frr_ips (cut_host ev.dst).0 ≡ true

-- An event is drift only for a route that the agent owns: for any other destination it is not.
pub drift-Owns :
    (ev : RouteEvent) (owned : RouteOwnership) (veth_nexthop : String) (kind : DriftKind)
    → classify_route_event ev owned veth_nexthop ≡ some kind
    → Owns ev owned kind
unfolding classify_route_event
drift-Owns ev owned veth_nexthop kernel h = ground arith
drift-Owns ev owned veth_nexthop frr h = ground arith

-- The agent's own writes are no drift: what it adds carries its protocol, and what zebra installs
-- again for an owned static has the agent's next hop or none that is known.
pub own_writes_ignored :
    (ev : RouteEvent) (owned : RouteOwnership) (veth_nexthop : String)
    → ev.deleted ≡ false
    → (ev.agent_proto ≡ true)
      ⊎ ((ev.kernel_table ≡ false) × ((ev.gw ≡ veth_nexthop) ⊎ (ev.gw ≡ "")))
    → classify_route_event ev owned veth_nexthop ≡ none
unfolding classify_route_event
own_writes_ignored ev owned veth_nexthop d h =
    ground (arith, string_eq.same_iff ev.gw veth_nexthop, string_eq.same_iff ev.gw "")
