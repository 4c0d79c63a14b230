-- ===== src/Ovn/Refresh.antt =====
-- refreshState of ovn.go: the snapshot of a pass over the rows, and its publication. A read that
-- failed is `none`. The rows and the configured settings are arguments.
pub mod Bound
pub mod Snapshot
use ovn_network_agent.Prelude.{
  ℕ, zero, suc, ◌+◌, ◌-◌, ◌*◌, ◌/◌, ◌%◌, ◌^◌, ◌≤◌, ◌<◌, String, ◌≡◌, refl, sym, ap, ◌∙◌, ◌≢◌, ◌↔◌,
  ◌⊎◌, inl, inr, Bool, true, false, ◌&&◌, ◌||◌, not, Option, none, some, List, [], ◌∷◌, ◌++◌, map,
  arith, ltb, leb, nat_beq, if◌then◌else◌, ltb→lt, leb→le, Bool-cases, Option-cases, is_some,
  Comparable, ◌==◌, nat_eq, string_eq, bool_eq, pair_eq, length, is_empty, filter, any, all, All,
  length-append, length-filter, filter-append, all-append, any-append, all-filter, all-filter_self,
  contains, eq_self, contains-append, contains-filter, all-contains, without, contains-without,
  lookup, insert, keys, remove, lookup-insert, lookup-remove, contains-keys-insert, contains-keys,
  Nodup, str_leb, trim_space, sort_strings, contains-sort_strings, Nodup-sort_strings,
  all-sort_strings, nil_of_contains, not_nil_of_contains, trim_suffix, cut_prefix, split_on,
  fields_func, lower_code, is_space, insert_by, sort_by,
}
use ovn_network_agent.Net.{Ip, IpNet, Net}
use ovn_network_agent.Ovn.State.{LocalRouterInfo, OvnState}
use ovn_network_agent.Ovn.Rows.{PortBinding, Chassis, RouterPort, NatRow}
use ovn_network_agent.Ovn.Joins.{
  chassis_index, local_cr_ports, segments_by_lrp, index_lrps, local_lrp_uuid_set,
  collect_local_routers,
}
use ovn_network_agent.Ovn.Nats.{new_nat_collection, add_nb_nats, add_sb_gateway_nat_addresses}
use ovn_network_agent.Northbound.{LogicalRouter}

module _ (net : Net) where
  -- the networks of which no text stood before, after `seen`
  unique_networks_from : List String → List IpNet → List IpNet
  unique_networks_from seen [] = []
  unique_networks_from seen (n ∷ nets) =
      let fresh = n ∷ unique_networks_from (net.net_string n ∷ seen) nets in
      let rest = unique_networks_from seen nets in
      if contains seen (net.net_string n) then rest else fresh

  unfoldable pub unique_networks : List IpNet → List IpNet
  unfolding unique_networks_from
  unique_networks nets = sort_by net.net_string (unique_networks_from [] nets)

  parsed_networks : List String → List IpNet
  parsed_networks [] = []
  parsed_networks (c ∷ cs) =
      elim (net.parse_cidr c) [ none ↦ [] | some (ip, n) ↦ n ∷ [] ] ++ parsed_networks cs

  all_networks : List LocalRouterInfo → List IpNet
  unfolding parsed_networks
  all_networks [] = []
  all_networks (lr ∷ lrs) = parsed_networks lr.lrp_networks ++ all_networks lrs

  unfoldable pub discover_lrp_networks : List LocalRouterInfo → List IpNet
  unfolding all_networks
  discover_lrp_networks lrs = unique_networks (all_networks lrs)

unfoldable pub effective_network_filters : List IpNet → List IpNet → List IpNet
effective_network_filters manual discovered = if is_empty manual then discovered else manual

-- the configured settings that a refresh reads
pub record RefreshSettings : Type 0 where
  pub gateway_port : String
  pub network_filters : List IpNet

pub record Rows : Type 0 where
  pub port_bindings : List PortBinding
  pub chassis : List Chassis
  pub router_ports : List RouterPort
  pub routers : List LogicalRouter
  pub nats : List NatRow

-- the five reads
pub record Reads : Type 0 where
  pub port_bindings : Option (List PortBinding)
  pub chassis : Option (List Chassis)
  pub router_ports : Option (List RouterPort)
  pub routers : Option (List LogicalRouter)
  pub nats : Option (List NatRow)

unfoldable pub rows_of : Reads → Option Rows
rows_of r = elim r.port_bindings [
  | none ↦ none
  | some pbs ↦ elim r.chassis [
    | none ↦ none
    | some chs ↦ elim r.router_ports [
      | none ↦ none
      | some lrps ↦ elim r.routers [
        | none ↦ none
        | some routers ↦ elim r.nats [
          | none ↦ none
          | some nats ↦ some (record {
            port_bindings = pbs;
            chassis = chs;
            router_ports = lrps;
            routers = routers;
            nats = nats;
          })
        ]
      ]
    ]
  ]
]

-- the state that a pass computes for the chassis `local`, before its name is filled in
unfoldable pub derived : Net → RefreshSettings → String → ℕ → Rows → OvnState
derived net cfg local seq rows =
    let (by_ref, names) = chassis_index rows.chassis in
    let local_lrps = local_cr_ports rows.port_bindings by_ref local cfg.gateway_port in
    let segments = segments_by_lrp rows.port_bindings local_lrps in
    let idx = index_lrps rows.router_ports in
    let uuids = local_lrp_uuid_set (keys local_lrps) idx in
    let found = collect_local_routers rows.routers idx uuids local_lrps segments in
    let discovered = discover_lrp_networks net found.routers in
    let filters = effective_network_filters cfg.network_filters discovered in
    let nb =
      add_nb_nats net filters found.nat_macs found.nat_segments rows.nats new_nat_collection in
    let nc =
      add_sb_gateway_nat_addresses net filters rows.port_bindings (keys local_lrps) idx segments
        nb in
    record {
      local_chassis_name = "";
      local_routers = found.routers;
      has_local_routers = not (is_empty found.routers);
      snat_ips = nc.snat_ips;
      nat_ip_to_router_mac = nc.ip_to_router_mac;
      nat_ip_to_segment = nc.ip_to_segment;
      discovered_networks = discovered;
      all_chassis_names = names;
      gen = seq;
    }

-- ovnStateHolder.Replace
unfoldable pub replace : OvnState → OvnState → OvnState
replace cur next =
    if next.local_chassis_name == ""
    then record next { local_chassis_name = cur.local_chassis_name }
    else next

-- the end of a pass: what it publishes, if its reads succeeded
unfoldable pub publish : Net → RefreshSettings → OvnState → ℕ → Option Rows → OvnState
publish net cfg state seq none = state
publish net cfg state seq (some rows) =
    replace state (derived net cfg state.local_chassis_name seq rows)

-- the state and refreshSeq after a pass
unfoldable pub refresh_state : Net → RefreshSettings → Reads → OvnState × ℕ → OvnState × ℕ
refresh_state net cfg reads (state, seq) =
    (publish net cfg state (seq + 1) (rows_of reads), seq + 1)
