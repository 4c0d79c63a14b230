-- ===== src/Examples/DesiredExamples.antt =====
-- Tests of desired_state.go.
use ovn_network_agent.Prelude.{
  ◌≡◌, refl, true, false, ◌&&◌, ◌||◌, some, [], ◌∷◌, nat_eq, string_eq, bool_eq, pair_eq, contains,
  lookup, keys, trim_space, sort_strings, int_eq,
}
use ovn_network_agent.Ovn.State.{LocalRouterInfo, OvnState}
use ovn_network_agent.PortForward.{PortForwardVip}
use ovn_network_agent.Addresses.{unique_ips}
use ovn_network_agent.Desired.{
  split_ipv4, compute_desired_state, build_hairpin_targets, is_v4_text, build_desired_segments,
}
use ovn_network_agent.Desired.Plane.{contains-frr_static_ips}
use ovn_network_agent.Desired.Targets.{
  gateway_addresses, contains-build_hairpin_targets, first_segment, lookup-build_desired_segments,
}
use ovn_network_agent.Examples.SampleNet.{sample_net}

abbrev router : LocalRouterInfo
router = record {
  router_name = "r1";
  router_uuid = "u1";
  lrp_name = "lrp-1";
  lrp_uuid = "p1";
  lrp_mac = "fa:16:3e:00:00:01";
  lrp_networks = "192.0.2.1/24" ∷ "broken" ∷ [];
  cr_port = "cr-lrp-1";
  segment = some (record { localnet_port = "ext"; network_name = "physnet1"; vlan_tag = some 100 });
  gateway_chassis_uuids = "g1" ∷ "g2" ∷ [];
}

abbrev state : OvnState
state = record {
  local_chassis_name = "gw1";
  local_routers = router ∷ [];
  has_local_routers = true;
  snat_ips = [];
  nat_ip_to_router_mac =
      ("192.0.2.10", "fa:16:3e:00:00:01") ∷ ("2001:db8::1", "fa:16:3e:00:00:01") ∷ [];
  nat_ip_to_segment = ("192.0.2.10", "ext") ∷ [];
  discovered_networks = [];
  all_chassis_names = "gw1" ∷ [];
  gen = 1;
}

abbrev forward : PortForwardVip
forward = record {
  vip = "203.0.113.5";
  manage_vip = true;
  masquerade = false;
  hairpin_masquerade = false;
  router_masquerade = false;
  rules = [];
}

routes_of_state :
    (compute_desired_state sample_net state (forward ∷ []) true).desired_ips
    ≡ "192.0.2.1" ∷ "192.0.2.10" ∷ "203.0.113.5" ∷ []
unfolding compute_desired_state build_hairpin_targets split_ipv4 is_v4_text build_desired_segments
    unique_ips sort_strings trim_space sample_net
routes_of_state = refl

contains-frr_static_ips_example :
    contains
      (compute_desired_state sample_net state (forward ∷ []) true).frr_static_ips
      "2001:db8::1"
    ≡ (contains (keys (build_hairpin_targets sample_net state)) "2001:db8::1"
        && is_v4_text sample_net "2001:db8::1")
contains-frr_static_ips_example =
    contains-frr_static_ips sample_net state (forward ∷ []) true "2001:db8::1"

contains-build_hairpin_targets_example :
    contains (keys (build_hairpin_targets sample_net state)) "192.0.2.1" ≡ (
      contains (gateway_addresses sample_net state.local_routers) "192.0.2.1"
      || contains (keys state.nat_ip_to_router_mac) "192.0.2.1")
contains-build_hairpin_targets_example = contains-build_hairpin_targets sample_net state "192.0.2.1"

lookup-build_desired_segments_example :
    lookup "ext" (build_desired_segments (router ∷ [])).1 ≡ first_segment "ext" (router ∷ [])
lookup-build_desired_segments_example = lookup-build_desired_segments (router ∷ []) "ext"
