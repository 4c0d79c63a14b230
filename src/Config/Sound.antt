-- ===== src/Config/Sound.antt =====
-- What validateSettings of config.go asks of a configuration, without its loops and maps.
use ovn_network_agent.Prelude.{
  ℕ, String, Bool, true, ◌&&◌, ◌||◌, not, List, [], ◌∷◌, map, leb, Comparable, ◌==◌, nat_eq,
  string_eq, bool_eq, pair_eq, length, is_empty, all, contains, ℤ, pos, int_leb, int_eq,
}
use ovn_network_agent.Net.{Net}
use ovn_network_agent.PortForward.{PortForwardRule, PortForwardVip, backends}
use ovn_network_agent.Config.{Config}
use ovn_network_agent.Config.Settings.{is_valid_identifier, reads_ip, reads_v4, reads_cidr}

abbrev pub in_range : ℕ → ℕ → ℤ → Bool
in_range lo hi n = int_leb (pos lo) n && int_leb n (pos hi)

-- no element stands twice
abbrev pub distinct {ℓ} : {A : Type ℓ} ⦃e : Comparable A⦄ → List A → Bool
distinct [] = true
distinct (x ∷ xs) = not (contains xs x) && distinct xs

abbrev pub is_positive : ℤ → Bool
is_positive n = not (int_leb n (pos 0))

abbrev pub implies : Bool → Bool → Bool
implies a b = not a || b

abbrev pub rule_key : PortForwardRule → String × ℤ
rule_key r = (r.proto, r.port)

-- a routing table beside the main table, which a route table 0 stands for
abbrev pub own_table : Config → ℤ → Bool
own_table cfg id =
    in_range 1 252 id && (not (id == cfg.route_table_id) || cfg.route_table_id == pos 0)

module _ (net : Net) where
  abbrev pub sound_addrs : List String → Bool
  sound_addrs addrs = all (reads_v4 net) addrs && distinct addrs

  abbrev pub sound_rule : PortForwardRule → Bool
  sound_rule r =
      (r.proto == "tcp" || r.proto == "udp")
      && in_range 1 65535 r.port
      && (r.dest_addr == "" || is_empty r.dest_addrs)
      && not (is_empty (backends r))
      && leb (length (backends r)) 256
      && sound_addrs (backends r)
      && in_range 0 65535 r.dest_port

  abbrev pub sound_rules : List PortForwardRule → Bool
  sound_rules rs = all sound_rule rs && distinct (map rule_key rs)

  abbrev pub sound_forward : PortForwardVip → Bool
  sound_forward pf = reads_v4 net pf.vip && not (is_empty pf.rules) && sound_rules pf.rules

  abbrev pub sound_forwards : List PortForwardVip → Bool
  sound_forwards pfs = all sound_forward pfs && distinct (map (λ pf. pf.vip) pfs)

  abbrev pub sound_names : Config → Bool
  sound_names cfg =
      reads_ip net cfg.veth_nexthop
      && (cfg.vrf_name == "" || is_valid_identifier cfg.vrf_name)
      && in_range 0 252 cfg.route_table_id
      && all (reads_cidr net) cfg.network_cidrs

  abbrev pub sound_times : Config → Bool
  sound_times cfg =
      (cfg.frr_prefix_list == "" || is_valid_identifier cfg.frr_prefix_list)
      && is_positive cfg.reconcile_interval
      && int_leb (pos 0) cfg.drain_timeout
      && implies cfg.drain_on_shutdown (not (cfg.drain_timeout == pos 0))
      && int_leb (pos 0) cfg.drain_settle_delay
      && int_leb (pos 0) cfg.stale_chassis_grace_period
      && (cfg.metrics_listen == "" || net.is_host_port cfg.metrics_listen)

  abbrev pub sound_leak : Config → Bool
  sound_leak cfg =
      own_table cfg cfg.veth_leak_table_id
      && int_leb (pos 2) cfg.veth_leak_rule_priority
      && reads_ip net cfg.veth_provider_ip

  abbrev pub sound_ports : Config → Bool
  sound_ports cfg =
      own_table cfg cfg.port_forward_table_id
      && in_range 1 65535 cfg.port_forward_ct_zone
      && not (cfg.port_forward_table_id == cfg.veth_leak_table_id)
      && is_valid_identifier cfg.port_forward_dev
      && cfg.veth_leak_enabled
      && sound_forwards cfg.port_forwards

  unfoldable pub is_sound : Config → Bool
  is_sound cfg =
      sound_names cfg
      && sound_times cfg
      && implies cfg.veth_leak_enabled (sound_leak cfg)
      && implies cfg.port_forward_enabled (sound_ports cfg)
