-- ===== src/DesiredFlows/Keys.antt =====
-- A reconcile of the MAC-tweak plane installs what the bindings ask for.
use ovn_network_agent.Prelude.{
  String, ◌≡◌, sym, Bool, true, false, some, List, [], nat_eq, string_eq, bool_eq, pair_eq, lookup,
  int_eq,
}
use ovn_network_agent.FlowPlane.{FlowCommand, current_from, reconcile_flow_plane, key_eq, FlowKey}
use ovn_network_agent.FlowPlane.Switch.{Switch, run}
use ovn_network_agent.FlowPlane.Converge.{desired_at, flow-reconcile_flow_plane}
use mathlib.Core.Path.{subst}
use ovn_network_agent.DesiredFlows.Texts.{is_clear}
use ovn_network_agent.Segments.Ports.{SegmentBinding, Segments}
use ovn_network_agent.DesiredFlows.{ovs_cookie_mac_tweak, desired_mac_tweak_flows}
use ovn_network_agent.DesiredFlows.Distinct.{desired_mac_tweak_flows-Nodup}
use ovn_network_agent.DesiredFlows.Tweaks.{
  mac_tweak_key, WritesMac, tweak-WritesMac, desired-IsTweak,
}

-- With a port number whose text has no comma at its end or before an `a`, a dump that is right
-- about the key, and no error returned: after a reconcile of the MAC-tweak plane that the bindings
-- ask for, the port of a bound segment has, for either family, a flow whose actions set the
-- destination to the MAC of a segment bound to this port and go on as NORMAL, in the form in which
-- actions are compared; the segment is this one, or another where segments share the port.
pub segment_flows :
    (sw : Switch) (s : sw.State) (segs : Segments) (dump : List (FlowKey × String))
    (stdin_ok bundle : Bool) (succeeds : FlowCommand → Bool) (name : String) (b : SegmentBinding)
    (ipv6 : Bool)
    → lookup name segs ≡ some b
    → is_clear b.of_port ≡ true
    → lookup (mac_tweak_key b.of_port ipv6) (current_from dump [])
      ≡ sw.flow_at s (mac_tweak_key b.of_port ipv6)
    → (reconcile_flow_plane ovs_cookie_mac_tweak
        (some dump)
        (desired_mac_tweak_flows segs)
        stdin_ok
        bundle
        succeeds).1
      ≡ false
    → WritesMac segs b.of_port (
        sw.flow_at
          (run sw
            (reconcile_flow_plane ovs_cookie_mac_tweak
              (some dump)
              (desired_mac_tweak_flows segs)
              stdin_ok
              bundle
              succeeds).0
            s)
          (mac_tweak_key b.of_port ipv6))
segment_flows sw s segs dump stdin_ok bundle succeeds name b ipv6 h clear right ok =
    let key = mac_tweak_key b.of_port ipv6 in
    let desired = desired_mac_tweak_flows segs in
    subst (WritesMac segs b.of_port)
      (sym (
        flow-reconcile_flow_plane sw s ovs_cookie_mac_tweak dump desired stdin_ok bundle succeeds
          key (desired_mac_tweak_flows-Nodup segs) right ok))
      (tweak-WritesMac segs b.of_port ipv6 (desired_at key desired) clear
        (desired-IsTweak segs name b ipv6 h))
