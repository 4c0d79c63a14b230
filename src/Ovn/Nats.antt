-- ===== src/Ovn/Nats.antt =====
-- The NAT addresses of a refresh (ovn.go): those of the NB rows of local routers, and those that a
-- gateway port carries in the SB database.
pub mod Ingest
use ovn_network_agent.Prelude.{
  ℕ, zero, suc, ◌+◌, ◌-◌, ◌*◌, ◌/◌, ◌%◌, ◌^◌, ◌≤◌, ◌<◌, String, ◌≡◌, refl, sym, ap, ◌∙◌, ◌≢◌, ◌↔◌,
  ◌⊎◌, inl, inr, Bool, true, false, ◌&&◌, ◌||◌, not, Option, none, some, List, [], ◌∷◌, ◌++◌, map,
  arith, ltb, leb, nat_beq, if◌then◌else◌, ltb→lt, leb→le, Bool-cases, Option-cases, is_some,
  Comparable, ◌==◌, nat_eq, string_eq, bool_eq, pair_eq, length, is_empty, filter, any, all, All,
  length-append, length-filter, filter-append, all-append, any-append, all-filter, all-filter_self,
  contains, eq_self, contains-append, contains-filter, all-contains, without, contains-without,
  lookup, insert, keys, remove, lookup-insert, lookup-remove, contains-keys-insert, contains-keys,
  Nodup, str_leb, trim_space, sort_strings, contains-sort_strings, Nodup-sort_strings,
  all-sort_strings, nil_of_contains, not_nil_of_contains, trim_suffix, cut_prefix, split_on,
  fields_func, lower_code, is_space, insert_by, sort_by,
}
use ovn_network_agent.Net.{Ip, IpNet, Net, is_v4, net_contains}
use ovn_network_agent.Ovn.State.{LocalnetSegment, LocalRouterInfo}
use ovn_network_agent.Ovn.Rows.{PortBinding, NatRow}
use ovn_network_agent.Ovn.Joins.{LrpIndex, or_zero, peers_local}
use ovn_network_agent.Northbound.{read}

-- natCollection, without the count of a log line
pub record NatCollection : Type 0 where
  pub snat_ips : List String
  pub ip_to_router_mac : List (String × String)
  pub ip_to_segment : List (String × String)

abbrev pub new_nat_collection : NatCollection
new_nat_collection = record { snat_ips = []; ip_to_router_mac = []; ip_to_segment = [] }

-- containedInAny
unfoldable pub contained_in_any : Ip → List IpNet → Bool
contained_in_any ip nets = any (λ n. net_contains n.ip n.ones ip) nets

unfoldable pub passes_filters : List IpNet → Ip → Bool
passes_filters filters ip = is_empty filters || contained_in_any ip filters

-- the append to SNATIPs
with_snat : Bool → Ip → String → List String → List String
with_snat is_snat a ip snats = if is_snat && is_v4 a then snats ++ ip ∷ [] else snats

with_segment : Option String → String → List (String × String) → List (String × String)
with_segment none ip m = m
with_segment (some seg) ip m = insert ip seg m

-- up to the field that says where the entry is resident
before_resident : List String → List String
before_resident [] = []
before_resident (f ∷ fs) = elim (cut_prefix "is_chassis_resident" f) [
  | none ↦ f ∷ before_resident fs
  | some rest ↦ []
]

-- a patch port of the gateway of a local router
abbrev pub is_gateway_patch : List String → PortBinding → Bool
is_gateway_patch lrps pb =
    peers_local lrps pb && read pb.external_ids "neutron:device_owner" == "network:router_gateway"

module _ (net : Net) where
  unfoldable pub parse_nat_address_ips : String → List String
  unfolding before_resident
  parse_nat_address_ips s = elim (fields_func is_space s) [
    | [] ↦ []
    | mac ∷ fs ↦ filter (λ f. is_some (net.parse_ip f)) (before_resident fs)
  ]

  abbrev pub concat_ips : List String → List String
  concat_ips [] = []
  concat_ips (s ∷ ss) = parse_nat_address_ips s ++ concat_ips ss

module _ (net : Net) (filters : List IpNet) where
  -- a row of a local router with a valid address
  nat_entry : String → Option String → NatRow → Ip → NatCollection → NatCollection
  unfolding with_snat with_segment
  nat_entry mac seg nat a nc = record {
    snat_ips = with_snat (nat.kind == "snat") a nat.external_ip nc.snat_ips;
    ip_to_router_mac = insert nat.external_ip mac nc.ip_to_router_mac;
    ip_to_segment = with_segment seg nat.external_ip nc.ip_to_segment;
  }

  add_nat : Option String → Option String → Option Ip → NatRow → NatCollection → NatCollection
  unfolding nat_entry
  add_nat (some mac) seg (some a) nat nc =
      if passes_filters filters a then nat_entry mac seg nat a nc else nc
  add_nat _ seg _ nat nc = nc

  unfoldable pub add_nb_nats :
      List (String × String) → List (String × String) → List NatRow → NatCollection → NatCollection
  unfolding add_nat
  add_nb_nats macs segs [] nc = nc
  add_nb_nats macs segs (nat ∷ nats) nc =
      add_nb_nats macs segs nats (
        add_nat (lookup nat.uuid macs) (lookup nat.uuid segs) (net.parse_ip nat.external_ip) nat nc)

  -- one address of a gateway port
  add_address : String → Option LocalnetSegment → Option Ip → String → NatCollection → NatCollection
  unfolding with_snat with_segment
  add_address mac seg none ip nc = nc
  add_address mac seg (some a) ip nc = if not (passes_filters filters a) then nc else record {
    snat_ips = with_snat true a ip nc.snat_ips;
    ip_to_router_mac = if mac == "" then nc.ip_to_router_mac else insert ip mac nc.ip_to_router_mac;
    ip_to_segment =
        with_segment (elim seg [ none ↦ none | some s ↦ some s.localnet_port ]) ip nc.ip_to_segment;
  }

  add_addresses : String → Option LocalnetSegment → List String → NatCollection → NatCollection
  unfolding add_address
  add_addresses mac seg [] nc = nc
  add_addresses mac seg (ip ∷ ips) nc =
      add_addresses mac seg ips (add_address mac seg (net.parse_ip ip) ip nc)

  unfoldable pub add_sb_gateway_nat_addresses :
      List PortBinding
      → List String
      → LrpIndex
      → List (String × LocalnetSegment)
      → NatCollection
      → NatCollection
  unfolding add_addresses
  add_sb_gateway_nat_addresses [] lrps idx segments nc = nc
  add_sb_gateway_nat_addresses (pb ∷ pbs) lrps idx segments nc =
      let peer = read pb.options "peer" in
      let mac = (or_zero (lookup peer idx.by_name)).mac in
      add_sb_gateway_nat_addresses pbs lrps idx segments (
        if is_gateway_patch lrps pb
        then add_addresses mac (lookup peer segments) (concat_ips net pb.nat_addresses) nc
        else nc)
