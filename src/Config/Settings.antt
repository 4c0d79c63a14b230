-- ===== src/Config/Settings.antt =====
-- validateSettings of config.go. The computed fields are derived first: a check that returns an
-- error before them hides what they would be.
pub mod Forwards
pub mod Accepts
pub mod Derived
use ovn_network_agent.Prelude.{
  ℕ, zero, suc, ◌+◌, ◌-◌, ◌*◌, ◌/◌, ◌%◌, ◌^◌, ◌≤◌, ◌<◌, String, ◌≡◌, refl, sym, ap, ◌∙◌, ◌≢◌, ◌↔◌,
  ◌⊎◌, inl, inr, Bool, true, false, ◌&&◌, ◌||◌, not, Option, none, some, List, [], ◌∷◌, ◌++◌, map,
  arith, ltb, leb, nat_beq, if◌then◌else◌, ltb→lt, leb→le, Bool-cases, Option-cases, is_some,
  Comparable, ◌==◌, nat_eq, string_eq, bool_eq, pair_eq, length, is_empty, filter, any, all, All,
  length-append, length-filter, filter-append, all-append, any-append, all-filter, all-filter_self,
  contains, eq_self, contains-append, contains-filter, all-contains, without, contains-without,
  lookup, insert, keys, remove, lookup-insert, lookup-remove, contains-keys-insert, contains-keys,
  Nodup, str_leb, trim_space, sort_strings, contains-sort_strings, Nodup-sort_strings,
  all-sort_strings, nil_of_contains, not_nil_of_contains, trim_suffix, cut_prefix, split_on,
  fields_func, lower_code, is_space, insert_by, sort_by, ℤ, pos, negsuc, pos_part, neg_part, ◌≤ℤ◌,
  int_leb, int_leb_iff, int_eq, All-map, All-pi,
}
use ovn_network_agent.Net.{Net, Ip, v4, v6, IpNet, is_v4}
use ovn_network_agent.PortForward.{PortForwardRule, PortForwardVip, backends}
use ovn_network_agent.Config.{
  Config, Check, of_option, of_forward, of_rule, first_error, Checked, checked,
}
use Prim.Native.Char.{Char, code}
use Prim.Native.String as Str

-- the bytes of an IPv4 address counted up, with the carry, which is lost at the last address
unfoldable pub next_ip_in_subnet : Ip → Option Ip
next_ip_in_subnet (v4 a) = some (v4 ((a + 1) % 2 ^ 32))
next_ip_in_subnet (v6 a) = none

is_identifier_char : Char → Bool
is_identifier_char ch =
    let c = code ch in
    (leb b'a' c && leb c b'z')
    || (leb b'A' c && leb c b'Z')
    || (leb b'0' c && leb c b'9')
    || c == b'-'
    || c == b'_'
    || c == b'.'

all_identifier_chars : String → Bool
all_identifier_chars Str.[] = true
all_identifier_chars (Str.◌∷◌ c s) = is_identifier_char c && all_identifier_chars s

unfoldable pub is_valid_identifier : String → Bool
unfolding is_identifier_char all_identifier_chars
is_valid_identifier s = all_identifier_chars s && not (s == "")

-- n is outside lo..hi
abbrev pub outside : ℤ → ℕ → ℕ → Bool
outside n lo hi = not (int_leb (pos lo) n) || not (int_leb n (pos hi))

abbrev pub when : Bool → List Check → List Check
when true checks = checks
when false checks = []

module _ (net : Net) where
  -- an address of the IPv4 family
  abbrev pub reads_v4 : String → Bool
  reads_v4 s = elim (net.parse_ip s) [ none ↦ false | some a ↦ is_v4 a ]

  abbrev pub reads_ip : String → Bool
  reads_ip s = is_some (net.parse_ip s)

  abbrev pub reads_cidr : String → Bool
  reads_cidr s = is_some (net.parse_cidr s)

  parsed_filters : List String → List IpNet
  parsed_filters [] = []
  parsed_filters (s ∷ ss) = elim (net.parse_cidr s) [
    | none ↦ parsed_filters ss
    | some (ip, n) ↦ n ∷ parsed_filters ss
  ]

  -- a nil IP prints as "<nil>"
  ip_text : Option Ip → String
  ip_text none = "<nil>"
  ip_text (some a) = net.ip_string a

  next_text : Option Ip → String
  unfolding ip_text
  next_text none = ip_text none
  next_text (some a) = ip_text (next_ip_in_subnet a)

  -- the fields that the code computes
  unfoldable pub derive_settings : Config → Config
  unfolding parsed_filters next_text
  derive_settings cfg = record cfg {
    network_filters =
        if is_empty cfg.network_cidrs
        then cfg.network_filters
        else parsed_filters cfg.network_cidrs;
    veth_provider_ip =
        if cfg.veth_leak_enabled && cfg.veth_provider_ip == ""
        then next_text (net.parse_ip cfg.veth_nexthop)
        else cfg.veth_provider_ip;
    port_forward_enabled = not (is_empty cfg.port_forwards);
  }

  -- the loop over the backends of a rule; `seen` are those before
  addr_checks : ℕ → ℕ → List String → List String → List Check
  addr_checks i j seen [] = []
  addr_checks i j seen (a ∷ addrs) =
      (not (reads_ip a), of_rule i j "invalid dest_addr")
      ∷ (not (reads_v4 a), of_rule i j "IPv6 dest_addr not supported")
      ∷ (contains seen a, of_rule i j "duplicate dest_addr")
      ∷ addr_checks i j (a ∷ seen) addrs

  rule_checks : ℕ → ℕ → List (String × ℤ) → PortForwardRule → List Check
  rule_checks i j seen r =
      (not (r.proto == "tcp") && not (r.proto == "udp"), of_rule i j "invalid proto")
      ∷ (outside r.port 1 65535, of_rule i j "invalid port")
      ∷ (contains seen (r.proto, r.port), of_rule i j "duplicate port on VIP")
      ∷ (
        not (r.dest_addr == "") && not (is_empty r.dest_addrs),
        of_rule i j "dest_addr and dest_addrs are mutually exclusive",
      )
      ∷ (is_empty (backends r), of_rule i j "dest_addr or dest_addrs required")
      ∷ (ltb 256 (length (backends r)), of_rule i j "dest_addrs has too many entries")
      ∷ (addr_checks i j [] (backends r)
          ++ (outside r.dest_port 0 65535, of_rule i j "invalid dest_port") ∷ [])

  rules_checks : ℕ → ℕ → List (String × ℤ) → List PortForwardRule → List Check
  rules_checks i j seen [] = []
  rules_checks i j seen (r ∷ rs) =
      rule_checks i j seen r ++ rules_checks i (j + 1) ((r.proto, r.port) ∷ seen) rs

  pub forward_checks : ℕ → List String → List PortForwardVip → List Check
  forward_checks i seen [] = []
  forward_checks i seen (pf ∷ pfs) =
      (not (reads_ip pf.vip), of_forward i "invalid VIP")
      ∷ (not (reads_v4 pf.vip), of_forward i "IPv6 VIP not supported")
      ∷ (contains seen pf.vip, of_forward i "duplicate VIP")
      ∷ (is_empty pf.rules, of_forward i "no rules defined")
      ∷ (rules_checks i 0 [] pf.rules ++ forward_checks (i + 1) (pf.vip ∷ seen) pfs)

  pub cidr_checks : List String → List Check
  cidr_checks [] = []
  cidr_checks (s ∷ ss) = (not (reads_cidr s), of_option "network-cidr") ∷ cidr_checks ss

  name_checks : Config → List Check
  name_checks cfg =
      (not (reads_ip cfg.veth_nexthop), of_option "veth-nexthop")
      ∷ (not (cfg.vrf_name == "") && not (is_valid_identifier cfg.vrf_name), of_option "vrf-name")
      ∷ (outside cfg.route_table_id 0 252, of_option "route-table-id")
      ∷ cidr_checks cfg.network_cidrs

  time_checks : Config → List Check
  time_checks cfg =
      (
        not (cfg.frr_prefix_list == "") && not (is_valid_identifier cfg.frr_prefix_list),
        of_option "frr-prefix-list",
      )
      ∷ (int_leb cfg.reconcile_interval (pos 0), of_option "reconcile-interval")
      ∷ (not (int_leb (pos 0) cfg.drain_timeout), of_option "drain-timeout")
      ∷ (cfg.drain_on_shutdown && cfg.drain_timeout == pos 0, of_option "drain-on-shutdown")
      ∷ (not (int_leb (pos 0) cfg.drain_settle_delay), of_option "drain-settle-delay")
      ∷ (
        not (int_leb (pos 0) cfg.stale_chassis_grace_period),
        of_option "stale-chassis-grace-period",
      )
      ∷ (
        not (cfg.metrics_listen == "") && not (net.is_host_port cfg.metrics_listen),
        of_option "metrics-listen",
      )
      ∷ []

  leak_checks : Config → List Check
  leak_checks cfg =
      (outside cfg.veth_leak_table_id 1 252, of_option "veth-leak-table-id")
      ∷ (not (int_leb (pos 2) cfg.veth_leak_rule_priority), of_option "veth-leak-rule-priority")
      ∷ (
        cfg.veth_leak_table_id == cfg.route_table_id && not (cfg.route_table_id == pos 0),
        of_option "veth-leak-table-id",
      )
      ∷ (not (reads_ip cfg.veth_provider_ip), of_option "veth-provider-ip")
      ∷ []

  port_checks : Config → List Check
  port_checks cfg =
      (outside cfg.port_forward_table_id 1 252, of_option "port-forward-table-id")
      ∷ (
        cfg.port_forward_table_id == cfg.route_table_id && not (cfg.route_table_id == pos 0),
        of_option "port-forward-table-id",
      )
      ∷ (outside cfg.port_forward_ct_zone 1 65535, of_option "port-forward-ct-zone")
      ∷ (cfg.port_forward_table_id == cfg.veth_leak_table_id, of_option "port-forward-table-id")
      ∷ (not (is_valid_identifier cfg.port_forward_dev), of_option "port-forward-dev")
      ∷ (not cfg.veth_leak_enabled, of_option "veth_leak_enabled")
      ∷ forward_checks 0 [] cfg.port_forwards

  -- the checks on a configuration with its computed fields
  unfoldable pub setting_checks : Config → List Check
  unfolding cidr_checks name_checks time_checks leak_checks port_checks forward_checks rules_checks
      rule_checks addr_checks
  setting_checks cfg =
      name_checks cfg
      ++ (time_checks cfg
          ++ (when cfg.veth_leak_enabled (leak_checks cfg)
              ++ when cfg.port_forward_enabled (port_checks cfg)))

  unfoldable pub validate_settings : Config → Checked
  unfolding derive_settings checked setting_checks
  validate_settings cfg =
      let cfg' = derive_settings cfg in checked cfg' (first_error (setting_checks cfg'))
