-- ===== src/Desired.antt =====
-- desired_state.go: what a reconcile derives from a snapshot of OVN and the configured VIPs.
pub mod Plane
pub mod Targets
use ovn_network_agent.Prelude.{
  ℕ, String, ◌≡◌, Bool, true, false, ◌&&◌, not, Option, none, some, List, [], ◌∷◌, ◌++◌, map, ◌==◌,
  string_eq, if◌then◌else◌, contains, lookup, insert, keys, filter, sort_strings, str_leb, is_some,
}
use ovn_network_agent.Net.{Ip, IpNet, Net, is_v4}
use ovn_network_agent.Ovn.State.{LocalnetSegment, LocalRouterInfo, segment_name, OvnState}
use ovn_network_agent.PortForward.{PortForwardVip, collect_vips}
use ovn_network_agent.Addresses.{unique_ips}

-- ovs.go
pub record HairpinTarget : Type 0 where
  pub router_mac : String
  pub segment : String

-- ovs.go
pub record DesiredSegment : Type 0 where
  pub localnet_port : String
  pub vlan_tag : Option ℕ

pub record DesiredState : Type 0 where
  pub hairpin_targets : List (String × HairpinTarget)
  pub segments : List DesiredSegment
  pub segment_by_name : List (String × DesiredSegment)
  pub hairpin_ips : List String
  pub excluded_non_v4 : List String
  pub desired_ips : List String
  pub frr_static_ips : List String
  pub dormant_vips : List String
  pub announced_vips : List String

-- a map read: the empty text where the key is missing
abbrev pub or_empty : Option String → String
or_empty none = ""
or_empty (some s) = s

abbrev pub Targets : Type 0
Targets = List (String × HairpinTarget)

-- the loop over NATIPToRouterMAC
nat_targets : List (String × String) → List (String × String) → Targets → Targets
nat_targets segs [] targets = targets
nat_targets segs ((ip, mac) ∷ macs) targets =
    nat_targets segs macs
      (insert ip (record { router_mac = mac; segment = or_empty (lookup ip segs) }) targets)

module _ (net : Net) where
  -- one network of a router port
  add_lrp_target : LocalRouterInfo → Option (Ip × IpNet) → Targets → Targets
  add_lrp_target lr none targets = targets
  add_lrp_target lr (some (ip, n)) targets =
      if lr.lrp_mac == ""
      then targets
      else insert (net.ip_string ip)
          (record { router_mac = lr.lrp_mac; segment = segment_name lr.segment }) targets

  -- the loop over the networks of one router port
  lrp_targets : LocalRouterInfo → List String → Targets → Targets
  lrp_targets lr [] targets = targets
  lrp_targets lr (cidr ∷ cidrs) targets =
      lrp_targets lr cidrs (add_lrp_target lr (net.parse_cidr cidr) targets)

  -- the loop over the local routers
  router_targets : List LocalRouterInfo → Targets → Targets
  router_targets [] targets = targets
  router_targets (lr ∷ lrs) targets = router_targets lrs (lrp_targets lr lr.lrp_networks targets)

  unfoldable pub build_hairpin_targets : OvnState → Targets
  unfolding nat_targets add_lrp_target lrp_targets router_targets segment_name
  build_hairpin_targets state =
      router_targets state.local_routers
        (nat_targets state.nat_ip_to_segment state.nat_ip_to_router_mac [])

  -- parsed != nil && parsed.To4() != nil
  unfoldable pub is_v4_text : String → Bool
  is_v4_text ip = elim (net.parse_ip ip) [ none ↦ false | some a ↦ is_v4 a ]

  unfoldable pub split_ipv4 : Targets → List String × List String
  split_ipv4 targets = (
    sort_strings (filter is_v4_text (keys targets)),
    sort_strings (filter (λ ip. not (is_v4_text ip)) (keys targets)),
  )

vlan_tag_of : Option LocalnetSegment → Option ℕ
vlan_tag_of none = none
vlan_tag_of (some seg) = seg.vlan_tag

-- the loop of buildDesiredSegments that fills the map
segment_set : List LocalRouterInfo → List (String × DesiredSegment) → List (String × DesiredSegment)
unfolding vlan_tag_of
segment_set [] set = set
segment_set (lr ∷ lrs) set =
    let key = segment_name lr.segment in
    segment_set lrs (
      if is_some (lookup key set)
      then set
      else insert key (record { localnet_port = key; vlan_tag = vlan_tag_of lr.segment }) set)

insert_segment : DesiredSegment → List DesiredSegment → List DesiredSegment
insert_segment d [] = d ∷ []
insert_segment d (x ∷ xs) =
    if str_leb d.localnet_port x.localnet_port then d ∷ x ∷ xs else x ∷ insert_segment d xs

sort_segments : List DesiredSegment → List DesiredSegment
unfolding insert_segment
sort_segments [] = []
sort_segments (d ∷ ds) = insert_segment d (sort_segments ds)

unfoldable pub build_desired_segments :
    List LocalRouterInfo → List DesiredSegment × List (String × DesiredSegment)
unfolding segment_set sort_segments segment_name
build_desired_segments lrs =
    let set = segment_set lrs [] in (sort_segments (map (λ p. p.1) set), set)

unfoldable pub compute_desired_state : Net → OvnState → List PortForwardVip → Bool → DesiredState
unfolding collect_vips
compute_desired_state net state forwards announce_vips =
    let targets = build_hairpin_targets net state in
    let (hairpin_ips, excluded) = split_ipv4 net targets in
    let (segments, by_name) = build_desired_segments state.local_routers in
    let dormant = if announce_vips then [] else collect_vips forwards in
    let announced = if announce_vips then collect_vips forwards else [] in
    record {
      hairpin_targets = targets;
      segments = segments;
      segment_by_name = by_name;
      hairpin_ips = hairpin_ips;
      excluded_non_v4 = excluded;
      desired_ips = unique_ips (hairpin_ips ++ announced);
      frr_static_ips = unique_ips hairpin_ips;
      dormant_vips = unique_ips dormant;
      announced_vips = unique_ips announced;
    }
