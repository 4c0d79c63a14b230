-- ===== src/Ovn/Joins.antt =====
-- The joins of a refresh (ovn.go): which gateway ports are bound here, the segments behind them, and
-- the routers that own them. Rows are read in order, and a later row of a key replaces an earlier.
pub mod Indexes
pub mod Local
use ovn_network_agent.Prelude.{
  ℕ, zero, suc, ◌+◌, ◌-◌, ◌*◌, ◌/◌, ◌%◌, ◌^◌, ◌≤◌, ◌<◌, String, ◌≡◌, refl, sym, ap, ◌∙◌, ◌≢◌, ◌↔◌,
  ◌⊎◌, inl, inr, Bool, true, false, ◌&&◌, ◌||◌, not, Option, none, some, List, [], ◌∷◌, ◌++◌, map,
  arith, ltb, leb, nat_beq, if◌then◌else◌, ltb→lt, leb→le, Bool-cases, Option-cases, is_some,
  Comparable, ◌==◌, nat_eq, string_eq, bool_eq, pair_eq, length, is_empty, filter, any, all, All,
  length-append, length-filter, filter-append, all-append, any-append, all-filter, all-filter_self,
  contains, eq_self, contains-append, contains-filter, all-contains, without, contains-without,
  lookup, insert, keys, remove, lookup-insert, lookup-remove, contains-keys-insert, contains-keys,
  Nodup, str_leb, trim_space, sort_strings, contains-sort_strings, Nodup-sort_strings,
  all-sort_strings, nil_of_contains, not_nil_of_contains, trim_suffix, cut_prefix, split_on,
  fields_func, lower_code, is_space,
}
use ovn_network_agent.Ovn.State.{LocalnetSegment, LocalRouterInfo}
use ovn_network_agent.Ovn.Rows.{PortBinding, Chassis, RouterPort}
use ovn_network_agent.Ovn.Hosts.{short_hostname, hostnames_equal}
use ovn_network_agent.Northbound.{LogicalRouter, read}

-- hostnameByRef, and allChassisNames as a list of names
abbrev pub ChassisIndex : Type 0
ChassisIndex = List (String × String) × List String

index_from : List Chassis → ChassisIndex → ChassisIndex
index_from [] idx = idx
index_from (ch ∷ chassis) (by_ref, names) = index_from chassis (
  insert ch.name ch.hostname (insert ch.uuid ch.hostname by_ref),
  short_hostname ch.hostname ∷ names,
)

unfoldable pub chassis_index : List Chassis → ChassisIndex
unfolding index_from
chassis_index chassis = index_from chassis ([], [])

-- the text after the "cr-" of the name, or none
unfoldable pub cr_port_lrp_name : PortBinding → String
cr_port_lrp_name pb =
    let lrp = read pb.options "distributed-port" in
    if not (lrp == "")
    then lrp
    else elim (cut_prefix "cr-" pb.logical_port) [ none ↦ "" | some rest ↦ rest ]

-- the chassis column, "" where it is unset
abbrev pub chassis_ref : PortBinding → String
chassis_ref pb = elim pb.chassis [ none ↦ "" | some c ↦ c ]

-- a chassisredirect port that is bound to this chassis, and that the configuration does not leave out
unfoldable pub redirects_here : List (String × String) → String → String → PortBinding → Bool
redirects_here by_ref local gateway_port pb =
    pb.kind == "chassisredirect"
    && not (chassis_ref pb == "")
    && (gateway_port == "" || pb.logical_port == gateway_port)
    && hostnames_equal (read by_ref (chassis_ref pb)) local

-- the map from the name of an LRP to its chassisredirect port, filled row by row
unfoldable pub local_cr_ports_from :
    List (String × String)
    → String
    → String
    → List PortBinding
    → List (String × String)
    → List (String × String)
local_cr_ports_from by_ref local gateway_port [] m = m
local_cr_ports_from by_ref local gateway_port (pb ∷ pbs) m =
    let lrp = cr_port_lrp_name pb in
    local_cr_ports_from by_ref local gateway_port pbs (
      if redirects_here by_ref local gateway_port pb && not (lrp == "")
      then insert lrp pb.logical_port m
      else m)

abbrev pub local_cr_ports :
    List PortBinding → List (String × String) → String → String → List (String × String)
local_cr_ports pbs by_ref local gateway_port = local_cr_ports_from by_ref local gateway_port pbs []

-- localnetByDatapath
localnets_from : List PortBinding → List (String × PortBinding) → List (String × PortBinding)
localnets_from [] m = m
localnets_from (pb ∷ pbs) m =
    localnets_from pbs (if pb.kind == "localnet" then insert pb.datapath pb m else m)

abbrev segment_of : PortBinding → LocalnetSegment
segment_of ln = record {
  localnet_port = ln.logical_port;
  network_name = read ln.options "network_name";
  vlan_tag = ln.tag;
}

-- the patch port of the switch on the other side of a local LRP
abbrev pub peers_local : List String → PortBinding → Bool
peers_local lrps pb =
    pb.kind == "patch"
    && not (read pb.options "peer" == "")
    && contains lrps (read pb.options "peer")

add_segment :
    List (String × PortBinding)
    → PortBinding
    → List (String × LocalnetSegment)
    → List (String × LocalnetSegment)
add_segment localnets pb m = elim (lookup pb.datapath localnets) [
  | none ↦ m
  | some ln ↦ insert (read pb.options "peer") (segment_of ln) m
]

segments_from :
    List (String × PortBinding)
    → List String
    → List PortBinding
    → List (String × LocalnetSegment)
    → List (String × LocalnetSegment)
unfolding add_segment
segments_from localnets lrps [] m = m
segments_from localnets lrps (pb ∷ pbs) m =
    segments_from localnets lrps pbs (if peers_local lrps pb then add_segment localnets pb m else m)

unfoldable pub segments_by_lrp :
    List PortBinding → List (String × String) → List (String × LocalnetSegment)
unfolding localnets_from segments_from
segments_by_lrp pbs local_lrps = segments_from (localnets_from pbs []) (keys local_lrps) pbs []

pub record LrpIndex : Type 0 where
  pub by_name : List (String × RouterPort)
  pub by_uuid : List (String × RouterPort)

index_lrps_from : List RouterPort → LrpIndex → LrpIndex
index_lrps_from [] idx = idx
index_lrps_from (lrp ∷ lrps) idx = index_lrps_from lrps (record {
  by_name = insert lrp.name lrp idx.by_name;
  by_uuid = insert lrp.uuid lrp idx.by_uuid;
})

unfoldable pub index_lrps : List RouterPort → LrpIndex
unfolding index_lrps_from
index_lrps lrps = index_lrps_from lrps (record { by_name = []; by_uuid = [] })

-- the UUIDs of the rows of these names
unfoldable pub local_lrp_uuid_set : List String → LrpIndex → List String
local_lrp_uuid_set [] idx = []
local_lrp_uuid_set (name ∷ names) idx =
    elim (lookup name idx.by_name) [ none ↦ [] | some lrp ↦ lrp.uuid ∷ [] ]
    ++ local_lrp_uuid_set names idx

-- the first port of the router that is local
unfoldable pub matched_port : List String → List String → Option String
matched_port local_uuids [] = none
matched_port local_uuids (p ∷ ports) =
    if contains local_uuids p then some p else matched_port local_uuids ports

-- what Go reads for a key that is not in the map
abbrev zero_port : RouterPort
zero_port = record { uuid = ""; name = ""; mac = ""; networks = []; gateway_chassis = [] }

abbrev pub or_zero : Option RouterPort → RouterPort
or_zero none = zero_port
or_zero (some lrp) = lrp

-- the results of collectLocalRouters
pub record LocalRouters : Type 0 where
  pub routers : List LocalRouterInfo
  pub nat_macs : List (String × String)
  pub nat_segments : List (String × String)

-- m[k] = v for each of the keys
unfoldable pub set_each : List String → String → List (String × String) → List (String × String)
set_each [] v m = m
set_each (k ∷ ks) v m = set_each ks v (insert k v m)

router_info :
    LogicalRouter → RouterPort → List (String × String) → Option LocalnetSegment → LocalRouterInfo
router_info r lrp local_lrps segment = record {
  router_name = r.name;
  router_uuid = r.uuid;
  lrp_name = lrp.name;
  lrp_uuid = lrp.uuid;
  lrp_mac = lrp.mac;
  lrp_networks = lrp.networks;
  cr_port = read local_lrps lrp.name;
  segment = segment;
  gateway_chassis_uuids = lrp.gateway_chassis;
}

set_macs : LogicalRouter → RouterPort → List (String × String) → List (String × String)
set_macs r lrp m = if lrp.mac == "" then m else set_each r.nat lrp.mac m

set_segments :
    LogicalRouter → Option LocalnetSegment → List (String × String) → List (String × String)
set_segments r none m = m
set_segments r (some seg) m = set_each r.nat seg.localnet_port m

-- a router with a local port
add_router :
    List (String × String)
    → List (String × LocalnetSegment)
    → LogicalRouter
    → RouterPort
    → LocalRouters
    → LocalRouters
unfolding set_macs set_segments router_info
add_router local_lrps segments r lrp found =
    let segment = lookup lrp.name segments in
    record {
      routers = found.routers ++ router_info r lrp local_lrps segment ∷ [];
      nat_macs = set_macs r lrp found.nat_macs;
      nat_segments = set_segments r segment found.nat_segments;
    }

unfoldable pub collect_from :
    LrpIndex
    → List String
    → List (String × String)
    → List (String × LocalnetSegment)
    → List LogicalRouter
    → LocalRouters
    → LocalRouters
unfolding add_router
collect_from idx local_uuids local_lrps segments [] found = found
collect_from idx local_uuids local_lrps segments (r ∷ routers) found =
    collect_from idx local_uuids local_lrps segments routers
      (elim (matched_port local_uuids r.ports) [
        | none ↦ found
        | some p ↦ add_router local_lrps segments r (or_zero (lookup p idx.by_uuid)) found
      ])

abbrev pub collect_local_routers :
    List LogicalRouter
    → LrpIndex
    → List String
    → List (String × String)
    → List (String × LocalnetSegment)
    → LocalRouters
collect_local_routers routers idx local_uuids local_lrps segments =
    collect_from idx local_uuids local_lrps segments routers
      (record { routers = []; nat_macs = []; nat_segments = [] })
