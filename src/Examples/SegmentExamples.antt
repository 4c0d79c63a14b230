-- ===== src/Examples/SegmentExamples.antt =====
-- Tests of the segment bindings and of the flows that they ask for.
use ovn_network_agent.Prelude.{
  String, ◌≡◌, refl, ap, true, false, Option, none, some, List, [], ◌∷◌, map, arith, if◌then◌else◌,
  ◌==◌, nat_eq, string_eq, bool_eq, pair_eq, all, lookup, trim_space, trim_suffix, cut_prefix,
  split_on, fields_func, is_space, int_eq,
}
use ovn_network_agent.Desired.{DesiredSegment}
use ovn_network_agent.FlowPlane.{
  FlowKey, key_eq, FlowCommand, del_flow, current_from, plane_adds, plane_dels, in_phases,
  apply_flow_adds, reconcile_flow_plane,
}
use ovn_network_agent.FlowPlane.Switch.{run}
use ovn_network_agent.Examples.FlowExamples.{table_switch}
use ovn_network_agent.Segments.Ports.{
  Ovs, SegmentBinding, Segments, get_of_port, patch_by_localnet, port_names, trim_quotes,
}
use ovn_network_agent.Segments.{bind_segment, bind_segments, refresh_segment_bindings, tags_equal}
use ovn_network_agent.Segments.Live.{IsLive}
use ovn_network_agent.Segments.Refresh.{refresh_segment_bindings-IsLive}
use ovn_network_agent.DesiredFlows.{
  normalize_actions, desired_mac_tweak_flows, ovs_cookie_mac_tweak,
}
use ovn_network_agent.DesiredFlows.Keys.{segment_flows}
use ovn_network_agent.DesiredFlows.Tweaks.{WritesMac, mac_tweak_key}

abbrev ovs : Ovs
ovs = record {
  list_ports = some "patch-ext eth0";
  localnet_port = λ p. if p == "patch-ext" then some "\"ext\"" else some "";
  interface_type = λ p. if p == "patch-ext" then some "patch" else some "";
  ofport = λ p. if p == "patch-ext" then some "7" else none;
  bridge_mac = some "02:00:00:00:00:01";
  segment_interface = λ tag. none;
}

abbrev ext : DesiredSegment
ext = record { localnet_port = "ext"; vlan_tag = none }

abbrev bound : SegmentBinding
bound = record {
  patch_port = "patch-ext";
  of_port = "7";
  kernel_dev = "br-ex";
  kernel_mac = "02:00:00:00:00:01";
  vlan_tag = none;
}

-- a cached port number that is out of date
abbrev stale : Segments
stale = ("ext", record bound { of_port = "3" }) ∷ []

refreshed : refresh_segment_bindings "br-ex" ovs stale (ext ∷ []) ≡ (("ext", bound) ∷ [], false)
unfolding refresh_segment_bindings port_names fields_func split_on trim_space is_space trim_quotes
    patch_by_localnet bind_segments bind_segment get_of_port tags_equal
refreshed = refl

one_spelling :
    normalize_actions "mod_dl_src:AA:bb,set_field:00:11->eth_dst, IN_PORT"
    ≡ "mod_dl_src:aa:bb,mod_dl_dst:00:11,output:in_port"
unfolding normalize_actions split_on trim_space cut_prefix trim_suffix
one_spelling = refl

refresh_segment_bindings-IsLive_example : IsLive "br-ex" ovs bound
refresh_segment_bindings-IsLive_example =
    refresh_segment_bindings-IsLive "br-ex" ovs stale (ext ∷ []) "ext" bound refl
      (ap (λ r. lookup "ext" r.0) refreshed)

abbrev segments : Segments
segments = ("ext", bound) ∷ []

abbrev empty_table : FlowKey → Option String
empty_table k = none

all_succeed : (cs : List FlowCommand) → all (λ c. true) cs ≡ true
all_succeed [] = refl
all_succeed (c ∷ cs) = all_succeed cs

run_ok : (adds dels : List FlowCommand) → (in_phases (λ c. true) adds dels).1 ≡ false
unfolding in_phases
run_ok adds dels = ground (arith, all_succeed adds, all_succeed dels)

reconciled_ok :
    (reconcile_flow_plane ovs_cookie_mac_tweak
      (some [])
      (desired_mac_tweak_flows segments)
      true
      true
      (λ c. true)).1
    ≡ false
unfolding reconcile_flow_plane in_phases apply_flow_adds
reconciled_ok =
    run_ok
      (apply_flow_adds true true
        (plane_adds (current_from [] []) (desired_mac_tweak_flows segments)))
      (map del_flow
        (plane_dels ovs_cookie_mac_tweak (current_from [] []) (desired_mac_tweak_flows segments)))

segment_flows_example : WritesMac segments "7" (
    table_switch.flow_at
      (run table_switch
        (reconcile_flow_plane ovs_cookie_mac_tweak
          (some [])
          (desired_mac_tweak_flows segments)
          true
          true
          (λ c. true)).0
        empty_table)
      (mac_tweak_key "7" true))
unfolding current_from
segment_flows_example =
    segment_flows table_switch empty_table segments [] true true (λ c. true) "ext" bound true refl
      refl refl reconciled_ok
