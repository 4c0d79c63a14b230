-- ===== src/Examples/OvnExamples.antt =====
-- Tests of the refresh of the snapshot and of its loop.
use ovn_network_agent.Prelude.{
  ◌≡◌, refl, true, false, ◌&&◌, ◌||◌, not, none, some, [], ◌∷◌, arith, is_some, nat_eq, string_eq,
  bool_eq, pair_eq, all, contains, cut_prefix, int_eq,
}
use ovn_network_agent.Examples.SampleNet.{sample_net}
use ovn_network_agent.Ovn.State.{OvnState}
use ovn_network_agent.Ovn.Rows.{PortBinding}
use ovn_network_agent.Ovn.Joins.{cr_port_lrp_name}
use ovn_network_agent.Ovn.Joins.Local.{router_uuids}
use ovn_network_agent.Ovn.Hosts.{hostnames_equal_lem, hostnames_equal, short_hostname, equal_fold}
use ovn_network_agent.Ovn.Refresh.{RefreshSettings, Rows, Reads, rows_of, refresh_state}
use ovn_network_agent.Ovn.Refresh.Snapshot.{
  filters_of, IsIngested, routers-refresh_state, refresh_state-IsIngested,
}
use ovn_network_agent.Ovn.Loop.{
  LoopState, debounce_signal, debounce_fire, reconcile_fire, refresh_loop, loop_step, Failover,
  stamp_observed, take_failover_observed_at, begin_pass, take, failover_run,
}
use ovn_network_agent.Ovn.Loop.Signals.{reconciled, signal_reconciled}
use ovn_network_agent.Ovn.Loop.Observation.{failover_measured}

abbrev redirect : PortBinding
redirect = record {
  logical_port = "cr-lrp-r1";
  kind = "chassisredirect";
  chassis = some "c1";
  datapath = "d1";
  tag = none;
  options = [];
  external_ids = [];
  nat_addresses = [];
}

abbrev rows : Rows
rows = record {
  port_bindings = redirect ∷ [];
  chassis = record { uuid = "c1"; name = "chassis-1"; hostname = "GW-1.example.net" } ∷ [];
  router_ports =
      record {
        uuid = "p1";
        name = "lrp-r1";
        mac = "fa:16:3e:00:00:01";
        networks = "192.0.2.1/24" ∷ [];
        gateway_chassis = [];
      }
      ∷ [];
  routers =
      record {
        uuid = "r1";
        name = "router-1";
        ports = "p1" ∷ [];
        nat = "n1" ∷ [];
        static_routes = [];
      }
      ∷ record { uuid = "r2"; name = "router-2"; ports = "p2" ∷ []; nat = []; static_routes = [] }
      ∷ [];
  nats = record { uuid = "n1"; kind = "snat"; external_ip = "192.0.2.10" } ∷ [];
}

abbrev reads : Reads
reads = record {
  port_bindings = some rows.port_bindings;
  chassis = some rows.chassis;
  router_ports = some rows.router_ports;
  routers = some rows.routers;
  nats = some rows.nats;
}

abbrev settings : RefreshSettings
settings = record { gateway_port = ""; network_filters = [] }

abbrev before : OvnState
before = record {
  local_chassis_name = "gw-1";
  local_routers = [];
  has_local_routers = false;
  snat_ips = [];
  nat_ip_to_router_mac = [];
  nat_ip_to_segment = [];
  discovered_networks = [];
  all_chassis_names = [];
  gen = 6;
}

reads_succeed : rows_of reads ≡ some rows
unfolding rows_of
reads_succeed = refl

same_host : hostnames_equal "gw-1" "GW-1.example.net" ≡ true
unfolding hostnames_equal short_hostname equal_fold
same_host = refl

-- the redirect port is bound to this host, and `lrp-r1` is a port of `r1`
routers-refresh_state_example :
    let after = (refresh_state sample_net settings reads (before, 6)).0 in
    (contains (router_uuids after.local_routers) "r1" ≡ true)
    × (after.local_chassis_name ≡ "gw-1")
    × (after.gen ≡ 7)
unfolding cr_port_lrp_name hostnames_equal short_hostname equal_fold cut_prefix
routers-refresh_state_example =
    routers-refresh_state sample_net settings reads rows before 6 "r1" reads_succeed

refresh_state-IsIngested_example :
    let after = (refresh_state sample_net settings reads (before, 6)).0 in
    IsIngested sample_net (filters_of settings after) after
refresh_state-IsIngested_example =
    refresh_state-IsIngested sample_net settings reads rows before 6 reads_succeed

abbrev idle : LoopState
idle = record { debounce = false; reconcile = false }

signal_reconciled_example :
    reconciled (refresh_loop true idle (debounce_signal ∷ debounce_fire ∷ reconcile_fire ∷ [])).1
    ≡ true
unfolding refresh_loop loop_step
signal_reconciled_example =
    signal_reconciled idle (debounce_fire ∷ reconcile_fire ∷ []) (refl, (refl, (refl, tt))) refl

abbrev unobserved : Failover
unobserved = record { observed = none; refresh_seq = 4 }

failover_measured_example :
    let (f, outs) = failover_run (stamp_observed unobserved 1000) (take 4 ∷ begin_pass ∷ []) in
    (all (λ o. not (is_some o)) outs ≡ true)
    × ((take_failover_observed_at f 5).1 ≡ some 1000)
    × ((take_failover_observed_at f 5).0.observed ≡ none)
failover_measured_example =
    failover_measured unobserved 1000 5 (take 4 ∷ begin_pass ∷ []) refl refl (omega arith)

hostnames_equal_lem_example :
    (hostnames_equal "gw-1.example.net" "gw-1" ≡ true)
    × (hostnames_equal "GW-1" "gw-1.test" ≡ hostnames_equal "gw-1.test" "GW-1")
    × ((not (hostnames_equal "gw-1" "GW-1" && hostnames_equal "GW-1" "gw-1.test")
          || hostnames_equal "gw-1" "gw-1.test")
        ≡ true)
hostnames_equal_lem_example = hostnames_equal_lem "gw-1" "GW-1" "gw-1.test" "." "example.net" refl
