-- ===== src/Desired/Targets.antt =====
-- buildHairpinTargets and buildDesiredSegments: what they cover.
use ovn_network_agent.Prelude.{
  String, ◌≡◌, refl, ◌||◌, Option, none, some, List, [], ◌∷◌, ◌++◌, arith, if◌then◌else◌, ◌==◌,
  nat_eq, string_eq, bool_eq, pair_eq, contains, contains-append, lookup, insert, keys,
  lookup-insert, contains-keys-insert, int_eq,
}
use ovn_network_agent.Net.{Ip, IpNet, Net}
use ovn_network_agent.Ovn.State.{LocalRouterInfo, segment_name, OvnState}
use ovn_network_agent.Desired.{
  HairpinTarget, or_empty, DesiredSegment, Targets, nat_targets, add_lrp_target, lrp_targets,
  router_targets, build_hairpin_targets, vlan_tag_of, segment_set, build_desired_segments,
}

contains-nat_targets :
    (segs macs : List (String × String)) (t : Targets) (x : String)
    → contains (keys (nat_targets segs macs t)) x ≡ (contains (keys macs) x || contains (keys t) x)
unfolding nat_targets
contains-nat_targets segs [] t x = refl
contains-nat_targets segs ((ip, mac) ∷ macs) t x =
    let target : HairpinTarget = record { router_mac = mac; segment = or_empty (lookup ip segs) } in
    ground (
      arith,
      contains-nat_targets segs macs (insert ip target t) x,
      contains-keys-insert ip x target t,
    )

-- The gateway addresses of the routers that have a MAC.
address_texts : Net → Option (Ip × IpNet) → List String
address_texts net none = []
address_texts net (some (ip, n)) = net.ip_string ip ∷ []

port_addresses : Net → List String → List String
unfolding address_texts
port_addresses net [] = []
port_addresses net (c ∷ cs) = address_texts net (net.parse_cidr c) ++ port_addresses net cs

pub gateway_addresses : Net → List LocalRouterInfo → List String
unfolding port_addresses
gateway_addresses net [] = []
gateway_addresses net (lr ∷ lrs) =
    (if lr.lrp_mac == "" then [] else port_addresses net lr.lrp_networks)
    ++ gateway_addresses net lrs

contains-add_lrp_target :
    (net : Net) (lr : LocalRouterInfo) (o : Option (Ip × IpNet)) (t : Targets) (x : String)
    → contains (keys (add_lrp_target net lr o t)) x
      ≡ (contains (if lr.lrp_mac == "" then [] else address_texts net o) x || contains (keys t) x)
unfolding add_lrp_target address_texts
contains-add_lrp_target net lr none t x = ground arith
contains-add_lrp_target net lr (some (ip, n)) t x =
    let target : HairpinTarget = record {
      router_mac = lr.lrp_mac;
      segment = segment_name lr.segment;
    } in
    ground (arith, contains-keys-insert (net.ip_string ip) x target t)

contains-lrp_targets :
    (net : Net) (lr : LocalRouterInfo) (cs : List String) (t : Targets) (x : String)
    → contains (keys (lrp_targets net lr cs t)) x
      ≡ (contains (if lr.lrp_mac == "" then [] else port_addresses net cs) x || contains (keys t) x)
unfolding lrp_targets port_addresses
contains-lrp_targets net lr [] t x = ground arith
contains-lrp_targets net lr (c ∷ cs) t x = ground (
  arith,
  contains-lrp_targets net lr cs (add_lrp_target net lr (net.parse_cidr c) t) x,
  contains-add_lrp_target net lr (net.parse_cidr c) t x,
  contains-append (address_texts net (net.parse_cidr c)) (port_addresses net cs) x,
)

contains-router_targets :
    (net : Net) (lrs : List LocalRouterInfo) (t : Targets) (x : String)
    → contains (keys (router_targets net lrs t)) x
      ≡ (contains (gateway_addresses net lrs) x || contains (keys t) x)
unfolding router_targets gateway_addresses
contains-router_targets net [] t x = refl
contains-router_targets net (lr ∷ lrs) t x =
    let here = if lr.lrp_mac == "" then [] else port_addresses net lr.lrp_networks in
    ground (
      arith,
      contains-router_targets net lrs (lrp_targets net lr lr.lrp_networks t) x,
      contains-lrp_targets net lr lr.lrp_networks t x,
      contains-append here (gateway_addresses net lrs) x,
    )

-- An address is a hairpin target exactly if it is a NAT address or a gateway address of a local
-- router whose port has a MAC.
pub contains-build_hairpin_targets :
    (net : Net) (state : OvnState) (x : String)
    → contains (keys (build_hairpin_targets net state)) x ≡ (
        contains (gateway_addresses net state.local_routers) x
        || contains (keys state.nat_ip_to_router_mac) x)
unfolding build_hairpin_targets
contains-build_hairpin_targets net state x = ground (
  arith,
  contains-router_targets net state.local_routers
      (nat_targets state.nat_ip_to_segment state.nat_ip_to_router_mac []) x,
  contains-nat_targets state.nat_ip_to_segment state.nat_ip_to_router_mac [] x,
)

-- The segment that the first router on it asks for.
pub first_segment : String → List LocalRouterInfo → Option DesiredSegment
first_segment name [] = none
first_segment name (lr ∷ lrs) =
    if name == segment_name lr.segment
    then some (record { localnet_port = name; vlan_tag = vlan_tag_of lr.segment })
    else first_segment name lrs

or_else : Option DesiredSegment → Option DesiredSegment → Option DesiredSegment
or_else none o = o
or_else (some d) o = some d

lookup-segment_set :
    (lrs : List LocalRouterInfo) (set : List (String × DesiredSegment)) (n : String)
    → lookup n (segment_set lrs set) ≡ or_else (lookup n set) (first_segment n lrs)
unfolding segment_set first_segment or_else
lookup-segment_set [] set n = ground arith
lookup-segment_set (lr ∷ lrs) set n =
    let key = segment_name lr.segment in
    let d : DesiredSegment = record { localnet_port = key; vlan_tag = vlan_tag_of lr.segment } in
    ground (
      arith,
      lookup-segment_set lrs set n,
      lookup-segment_set lrs (insert key d set) n,
      lookup-insert key n d set,
      string_eq.same_iff n key,
    )

pub lookup-build_desired_segments :
    (lrs : List LocalRouterInfo) (n : String)
    → lookup n (build_desired_segments lrs).1 ≡ first_segment n lrs
unfolding build_desired_segments or_else
lookup-build_desired_segments lrs n = lookup-segment_set lrs [] n
