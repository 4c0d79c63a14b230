-- ===== src/RouteWatch.antt =====
-- route_watch.go: which kernel route notifications are drift. A Go set of texts is a list.
pub mod Classes
use ovn_network_agent.Prelude.{
  ℕ, zero, suc, ◌+◌, ◌-◌, ◌*◌, ◌/◌, ◌%◌, ◌^◌, ◌≤◌, ◌<◌, String, ◌≡◌, refl, sym, ap, ◌∙◌, ◌≢◌, ◌↔◌,
  ◌⊎◌, inl, inr, Bool, true, false, ◌&&◌, ◌||◌, not, Option, none, some, List, [], ◌∷◌, ◌++◌, map,
  arith, ltb, leb, nat_beq, if◌then◌else◌, ltb→lt, leb→le, Bool-cases, Option-cases, is_some,
  Comparable, ◌==◌, nat_eq, string_eq, bool_eq, pair_eq, length, is_empty, filter, any, all, All,
  length-append, length-filter, filter-append, all-append, any-append, all-filter, all-filter_self,
  contains, eq_self, contains-append, contains-filter, all-contains, without, contains-without,
  lookup, insert, keys, remove, lookup-insert, lookup-remove, contains-keys-insert, contains-keys,
  Nodup, str_leb, trim_space, sort_strings, contains-sort_strings, Nodup-sort_strings,
  all-sort_strings, nil_of_contains, not_nil_of_contains,
}
use ovn_network_agent.Net.{IpNet, Net}

-- routeEvent
pub record RouteEvent : Type 0 where
  pub deleted : Bool
  pub replaced : Bool
  pub kernel_table : Bool
  pub vrf_table : Bool
  pub agent_proto : Bool
  pub dst : String
  pub gw : String

-- routeOwnership
pub record RouteOwnership : Type 0 where
  pub kernel_ips : List String
  pub frr_ips : List String
  pub leak_nets : List String

-- the values of the kind label
pub data DriftKind : Type 0 where
  kernel frr : DriftKind

unfoldable pub new_route_ownership : Net → List String → List String → List IpNet → RouteOwnership
new_route_ownership net kernel_ips frr_ips leak_nets = record {
  kernel_ips = kernel_ips;
  frr_ips = frr_ips;
  leak_nets = map net.net_string leak_nets;
}

-- strings.CutSuffix(dst, "/32"): the text before the suffix, or the whole text, and whether it was
-- there
unfoldable pub cut_host : String → String × Bool
cut_host String.[] = ("", false)
cut_host (String.◌∷◌ c s) =
    let (rest, found) = cut_host s in
    if String.◌∷◌ c s == "/32" then ("", true) else (String.◌∷◌ c rest, found)

-- the cases of a deleted route
classify_deleted : RouteEvent → RouteOwnership → String → Bool → Option DriftKind
classify_deleted ev owned ip is_host =
    if ev.kernel_table && ev.agent_proto && is_host && contains owned.kernel_ips ip
    then some kernel
    else if ev.vrf_table && ev.agent_proto && contains owned.leak_nets ev.dst
    then some kernel
    else if ev.vrf_table && not ev.agent_proto && is_host && contains owned.frr_ips ip
    then some frr
    else none

-- the cases of a new route
classify_new : RouteEvent → RouteOwnership → String → String → Bool → Option DriftKind
classify_new ev owned veth_nexthop ip is_host =
    if not ev.replaced || ev.agent_proto || not is_host
    then none
    else if ev.kernel_table && contains owned.kernel_ips ip
    then some kernel
    else if ev.vrf_table
        && contains owned.frr_ips ip
        && not (ev.gw == "")
        && not (ev.gw == veth_nexthop)
    then some frr
    else none

-- `none` is an event that is no drift
unfoldable pub classify_route_event : RouteEvent → RouteOwnership → String → Option DriftKind
unfolding classify_deleted classify_new cut_host
classify_route_event ev owned veth_nexthop =
    let (ip, is_host) = cut_host ev.dst in
    if ev.deleted
    then classify_deleted ev owned ip is_host
    else classify_new ev owned veth_nexthop ip is_host
