-- ===== src/Ovn/State.antt =====
-- ovn.go: the snapshot that a refresh publishes and a reconcile reads. A Go map is an association
-- list, a set of names a list.
use ovn_network_agent.Prelude.{ℕ, String, Bool, Option, none, some, List}
use ovn_network_agent.Net.{IpNet}

pub record LocalnetSegment : Type 0 where
  pub localnet_port : String
  pub network_name : String
  pub vlan_tag : Option ℕ

pub record LocalRouterInfo : Type 0 where
  pub router_name : String
  pub router_uuid : String
  pub lrp_name : String
  pub lrp_uuid : String
  pub lrp_mac : String
  pub lrp_networks : List String
  pub cr_port : String
  pub segment : Option LocalnetSegment
  pub gateway_chassis_uuids : List String

unfoldable pub segment_name : Option LocalnetSegment → String
segment_name none = ""
segment_name (some seg) = seg.localnet_port

pub record OvnState : Type 0 where
  pub local_chassis_name : String
  pub local_routers : List LocalRouterInfo
  pub has_local_routers : Bool
  pub snat_ips : List String
  pub nat_ip_to_router_mac : List (String × String)
  pub nat_ip_to_segment : List (String × String)
  pub discovered_networks : List IpNet
  pub all_chassis_names : List String
  pub gen : ℕ
