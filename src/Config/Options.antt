-- ===== src/Config/Options.antt =====
-- The registry of config.go: configOptions, with the key, the default and the accessors of each
-- option. An accessor of the source is a pointer to a field, here the reading and the writing of the
-- field.
pub mod Lenses
use ovn_network_agent.Prelude.{
  ℕ, zero, suc, ◌+◌, ◌-◌, ◌*◌, ◌/◌, ◌%◌, ◌^◌, ◌≤◌, ◌<◌, String, ◌≡◌, refl, sym, ap, ◌∙◌, ◌≢◌, ◌↔◌,
  ◌⊎◌, inl, inr, Bool, true, false, ◌&&◌, ◌||◌, not, Option, none, some, List, [], ◌∷◌, ◌++◌, map,
  arith, ltb, leb, nat_beq, if◌then◌else◌, ltb→lt, leb→le, Bool-cases, Option-cases, is_some,
  Comparable, ◌==◌, nat_eq, string_eq, bool_eq, pair_eq, length, is_empty, filter, any, all, All,
  length-append, length-filter, filter-append, all-append, any-append, all-filter, all-filter_self,
  contains, eq_self, contains-append, contains-filter, all-contains, without, contains-without,
  lookup, insert, keys, remove, lookup-insert, lookup-remove, contains-keys-insert, contains-keys,
  Nodup, str_leb, trim_space, sort_strings, contains-sort_strings, Nodup-sort_strings,
  all-sort_strings, nil_of_contains, not_nil_of_contains, trim_suffix, cut_prefix, split_on,
  fields_func, lower_code, is_space, insert_by, sort_by, ℤ, pos, negsuc, pos_part, neg_part, ◌≤ℤ◌,
  int_leb, int_leb_iff, int_eq,
}
use ovn_network_agent.PortForward.{PortForwardVip}
use ovn_network_agent.Config.{Config}
use Prim.Native.Char.{Char, code}
use Prim.Native.String as Str

-- a value of a field, as `value` returns it
pub data Value : Type 0 where
  text : String → Value
  truth : Bool → Value
  number : ℤ → Value
  texts : List String → Value
  forwards : List PortForwardVip → Value

pub record ConfigOption : Type 0 where
  pub key : String
  pub apply_default : Config → Config
  pub value : Config → Value
  pub copy_value : Config → Config → Config

unfoldable pub yaml_key_name : String → String
yaml_key_name Str.[] = ""
yaml_key_name (Str.◌∷◌ c s) =
    Str.◌++◌ (if code c == b'-' then "_" else Str.◌∷◌ c "") (yaml_key_name s)

abbrev with_accessors {ℓ} :
    {A : Type ℓ}
    → String
    → (Config → Config)
    → (A → Value)
    → (Config → A)
    → (Config → A → Config)
    → ConfigOption
with_accessors key default wrap get set = record {
  key = key;
  apply_default = default;
  value = λ c. wrap (get c);
  copy_value = λ dst src. set dst (get src);
}

abbrev string_opt : String → String → (Config → String) → (Config → String → Config) → ConfigOption
string_opt flag def get set = with_accessors (yaml_key_name flag) (λ c. set c def) text get set

abbrev bool_opt : String → Bool → (Config → Bool) → (Config → Bool → Config) → ConfigOption
bool_opt flag def get set = with_accessors (yaml_key_name flag) (λ c. set c def) truth get set

abbrev int_opt : String → ℤ → (Config → ℤ) → (Config → ℤ → Config) → ConfigOption
int_opt flag def get set = with_accessors (yaml_key_name flag) (λ c. set c def) number get set

abbrev duration_opt : String → ℤ → (Config → ℤ) → (Config → ℤ → Config) → ConfigOption
duration_opt flag def get set = with_accessors (yaml_key_name flag) (λ c. set c def) number get set

abbrev string_slice_opt :
    String → (Config → List String) → (Config → List String → Config) → ConfigOption
string_slice_opt flag get set = with_accessors (yaml_key_name flag) (λ c. c) texts get set

abbrev port_forwards_opt :
    String → (Config → List PortForwardVip) → (Config → List PortForwardVip → Config) → ConfigOption
port_forwards_opt key get set = with_accessors key (λ c. c) forwards get set

abbrev seconds : ℕ → ℤ
seconds n = pos (n * 1000000000)

unfoldable pub config_options : List ConfigOption
unfolding yaml_key_name
config_options =
    string_opt "ovn-sb-remote" "" (λ c. c.ovn_sb_remote) (λ c v. record c { ovn_sb_remote = v })
    ∷ string_opt "ovn-nb-remote" "" (λ c. c.ovn_nb_remote) (λ c v. record c { ovn_nb_remote = v })
    ∷ string_opt "ovn-ssl-ca" "" (λ c. c.ovn_ssl_ca) (λ c v. record c { ovn_ssl_ca = v })
    ∷ string_opt "ovn-ssl-cert" "" (λ c. c.ovn_ssl_cert) (λ c v. record c { ovn_ssl_cert = v })
    ∷ string_opt "ovn-ssl-key" "" (λ c. c.ovn_ssl_key) (λ c v. record c { ovn_ssl_key = v })
    ∷ string_opt "bridge-dev" "br-ex" (λ c. c.bridge_dev) (λ c v. record c { bridge_dev = v })
    ∷ string_opt "vrf-name" "vrf-provider" (λ c. c.vrf_name) (λ c v. record c { vrf_name = v })
    ∷ string_opt "veth-nexthop" "169.254.0.1" (λ c. c.veth_nexthop)
        (λ c v. record c { veth_nexthop = v })
    ∷ string_slice_opt "network-cidr" (λ c. c.network_cidrs) (λ c v. record c { network_cidrs = v })
    ∷ string_opt "gateway-port" "" (λ c. c.gateway_port) (λ c v. record c { gateway_port = v })
    ∷ int_opt "route-table-id" (pos 0) (λ c. c.route_table_id)
        (λ c v. record c { route_table_id = v })
    ∷ string_opt "bridge-ip" "169.254.169.254" (λ c. c.bridge_ip)
        (λ c v. record c { bridge_ip = v })
    ∷ string_opt "ovs-wrapper" "" (λ c. c.ovs_wrapper) (λ c v. record c { ovs_wrapper = v })
    ∷ duration_opt "reconcile-interval" (seconds 60) (λ c. c.reconcile_interval)
        (λ c v. record c { reconcile_interval = v })
    ∷ bool_opt "route-watch" true (λ c. c.route_watch) (λ c v. record c { route_watch = v })
    ∷ bool_opt "ovs-flow-watch" true (λ c. c.ovs_flow_watch)
        (λ c v. record c { ovs_flow_watch = v })
    ∷ bool_opt "frr-watch" true (λ c. c.frr_watch) (λ c v. record c { frr_watch = v })
    ∷ string_opt "log-level" "info" (λ c. c.log_level) (λ c v. record c { log_level = v })
    ∷ bool_opt "dry-run" false (λ c. c.dry_run) (λ c v. record c { dry_run = v })
    ∷ bool_opt "cleanup-on-shutdown" true (λ c. c.cleanup_on_shutdown)
        (λ c v. record c { cleanup_on_shutdown = v })
    ∷ bool_opt "drain-on-shutdown" true (λ c. c.drain_on_shutdown)
        (λ c v. record c { drain_on_shutdown = v })
    ∷ duration_opt "drain-timeout" (seconds 60) (λ c. c.drain_timeout)
        (λ c v. record c { drain_timeout = v })
    ∷ duration_opt "drain-settle-delay" (pos 500000000) (λ c. c.drain_settle_delay)
        (λ c v. record c { drain_settle_delay = v })
    ∷ string_opt "frr-prefix-list" "ANNOUNCED-NETWORKS" (λ c. c.frr_prefix_list)
        (λ c v. record c { frr_prefix_list = v })
    ∷ duration_opt "stale-chassis-grace-period" (seconds 300) (λ c. c.stale_chassis_grace_period)
        (λ c v. record c { stale_chassis_grace_period = v })
    ∷ bool_opt "veth-leak-enabled" true (λ c. c.veth_leak_enabled)
        (λ c v. record c { veth_leak_enabled = v })
    ∷ string_opt "veth-provider-ip" "" (λ c. c.veth_provider_ip)
        (λ c v. record c { veth_provider_ip = v })
    ∷ int_opt "veth-leak-table-id" (pos 200) (λ c. c.veth_leak_table_id)
        (λ c v. record c { veth_leak_table_id = v })
    ∷ int_opt "veth-leak-rule-priority" (pos 2000) (λ c. c.veth_leak_rule_priority)
        (λ c v. record c { veth_leak_rule_priority = v })
    ∷ string_opt "metrics-listen" "" (λ c. c.metrics_listen)
        (λ c v. record c { metrics_listen = v })
    ∷ string_opt "port-forward-dev" "loopback1" (λ c. c.port_forward_dev)
        (λ c v. record c { port_forward_dev = v })
    ∷ int_opt "port-forward-table-id" (pos 201) (λ c. c.port_forward_table_id)
        (λ c v. record c { port_forward_table_id = v })
    ∷ bool_opt "port-forward-l3mdev-accept" false (λ c. c.port_forward_l3mdev_accept)
        (λ c v. record c { port_forward_l3mdev_accept = v })
    ∷ int_opt "port-forward-ct-zone" (pos 64000) (λ c. c.port_forward_ct_zone)
        (λ c v. record c { port_forward_ct_zone = v })
    ∷ port_forwards_opt "port_forwards" (λ c. c.port_forwards)
        (λ c v. record c { port_forwards = v })
    ∷ []

-- the defaults, layer 0 of loadConfig
unfoldable pub apply_defaults : List ConfigOption → Config → Config
apply_defaults [] cfg = cfg
apply_defaults (o ∷ os) cfg = apply_defaults os (o.apply_default cfg)
