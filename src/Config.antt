-- ===== src/Config.antt =====
-- config.go: the configuration (Config), the mode of operation (validateMode), and in the modules
-- below the registry of the options and the validation of the settings. A duration is a number of
-- nanoseconds. The TLS configuration that OVNTLS points to is left out, of OVNClientCert it counts
-- whether it is there.
pub mod Options
pub mod Settings
pub mod Sound
pub mod Passes
pub mod Mode
use ovn_network_agent.Prelude.{
  ℕ, zero, suc, ◌+◌, ◌-◌, ◌*◌, ◌/◌, ◌%◌, ◌^◌, ◌≤◌, ◌<◌, String, ◌≡◌, refl, sym, ap, ◌∙◌, ◌≢◌, ◌↔◌,
  ◌⊎◌, inl, inr, Bool, true, false, ◌&&◌, ◌||◌, not, Option, none, some, List, [], ◌∷◌, ◌++◌, map,
  arith, ltb, leb, nat_beq, if◌then◌else◌, ltb→lt, leb→le, Bool-cases, Option-cases, is_some,
  Comparable, ◌==◌, nat_eq, string_eq, bool_eq, pair_eq, length, is_empty, filter, any, all, All,
  length-append, length-filter, filter-append, all-append, any-append, all-filter, all-filter_self,
  contains, eq_self, contains-append, contains-filter, all-contains, without, contains-without,
  lookup, insert, keys, remove, lookup-insert, lookup-remove, contains-keys-insert, contains-keys,
  Nodup, str_leb, trim_space, sort_strings, contains-sort_strings, Nodup-sort_strings,
  all-sort_strings, nil_of_contains, not_nil_of_contains, trim_suffix, cut_prefix, split_on,
  fields_func, lower_code, is_space, insert_by, sort_by, ℤ, pos, negsuc, pos_part, neg_part, ◌≤ℤ◌,
  int_leb, int_leb_iff, int_eq,
}
use ovn_network_agent.Net.{IpNet}
use ovn_network_agent.PortForward.{PortForwardVip}

pub record Config : Type 0 where
  pub ovn_sb_remote : String
  pub ovn_nb_remote : String
  pub ovn_ssl_ca : String
  pub ovn_ssl_cert : String
  pub ovn_ssl_key : String
  pub has_client_cert : Bool
  pub bridge_dev : String
  pub vrf_name : String
  pub veth_nexthop : String
  pub network_cidrs : List String
  pub network_filters : List IpNet
  pub gateway_port : String
  pub route_table_id : ℤ
  pub bridge_ip : String
  pub ovs_wrapper : String
  pub reconcile_interval : ℤ
  pub route_watch : Bool
  pub ovs_flow_watch : Bool
  pub frr_watch : Bool
  pub log_level : String
  pub dry_run : Bool
  pub check_config : Bool
  pub cleanup_on_shutdown : Bool
  pub drain_on_shutdown : Bool
  pub drain_timeout : ℤ
  pub drain_settle_delay : ℤ
  pub frr_prefix_list : String
  pub stale_chassis_grace_period : ℤ
  pub metrics_listen : String
  pub veth_leak_enabled : Bool
  pub veth_provider_ip : String
  pub veth_leak_table_id : ℤ
  pub veth_leak_rule_priority : ℤ
  pub port_forward_only : Bool
  pub port_forward_enabled : Bool
  pub port_forward_dev : String
  pub port_forward_table_id : ℤ
  pub port_forward_l3mdev_accept : Bool
  pub port_forward_ct_zone : ℤ
  pub port_forwards : List PortForwardVip

-- What an error names: an option, or a forward, or a rule of a forward, by position.
pub data ConfigError : Type 0 where
  of_option : String → ConfigError
  of_forward : ℕ → String → ConfigError
  of_rule : ℕ → ℕ → String → ConfigError

-- A test with the error of the return under it. They stand in the order of the code.
abbrev pub Check : Type 0
Check = Bool × ConfigError

unfoldable pub first_error : List Check → Option ConfigError
first_error [] = none
first_error ((failed, e) ∷ checks) =
    let rest = first_error checks in if failed then some e else rest

pub data Checked : Type 0 where
  accepted : Config → Checked
  rejected : ConfigError → Checked

unfoldable pub checked : Config → Option ConfigError → Checked
checked cfg none = accepted cfg
checked cfg (some e) = rejected e

mode_checks : Config → ℕ → List PortForwardVip → List Check
mode_checks cfg i [] = []
mode_checks cfg i (pf ∷ pfs) =
    (pf.router_masquerade, of_forward i "router_masquerade requires an OVN connection")
    ∷ (
      pf.hairpin_masquerade && is_empty cfg.network_cidrs,
      of_forward i "hairpin_masquerade in port-forward-only mode requires network_cidr",
    )
    ∷ mode_checks cfg (i + 1) pfs

unfoldable pub validate_mode : Config → Checked
unfolding mode_checks checked first_error
validate_mode cfg =
    let sb_set = not (cfg.ovn_sb_remote == "") in
    let nb_set = not (cfg.ovn_nb_remote == "") in
    if sb_set && nb_set
    then accepted (record cfg { port_forward_only = false })
    else if not sb_set && not nb_set
    then (if is_empty cfg.port_forwards
        then rejected (of_option "port_forwards")
        else checked (record cfg { port_forward_only = true })
            (first_error (mode_checks cfg 0 cfg.port_forwards)))
    else rejected (of_option "ovn-sb-remote and ovn-nb-remote")
