-- ===== src/Examples/ConfigExamples.antt =====
-- Tests of the configuration and of its reload.
use ovn_network_agent.Prelude.{
  ◌≡◌, refl, ◌↔◌, inr, true, false, none, some, [], ◌∷◌, nat_eq, string_eq, bool_eq, pair_eq, All,
  pos, int_eq,
}
use ovn_network_agent.PortForward.{PortForwardRule, PortForwardVip, backends}
use ovn_network_agent.Examples.SampleNet.{sample_net}
use ovn_network_agent.Examples.SampleEquality.{value_eq}
use ovn_network_agent.Config.{Config, accepted, rejected, of_rule, first_error, validate_mode}
use ovn_network_agent.Config.Options.{config_options}
use ovn_network_agent.Config.Settings.{derive_settings, validate_settings, is_valid_identifier}
use ovn_network_agent.Config.Sound.{is_sound}
use ovn_network_agent.Config.Mode.{runs_as, validate_mode-runs_as}
use ovn_network_agent.Config.Settings.Accepts.{accepted_iff-is_sound}
use ovn_network_agent.Config.Settings.Derived.{validate_settings_again}
use ovn_network_agent.Reload.{
  FileChanges, ReloadPlan, startup_only, decide, reloadable_keys, plan_reload, planned,
}
use ovn_network_agent.Reload.Apply.{Agent, handle_reload}
use ovn_network_agent.Reload.Plan.{Treated}
use ovn_network_agent.Reload.Options.{plan_reload-Treated}
use ovn_network_agent.Reload.Effect.{IsCoherent, handle_reload-IsCoherent}

abbrev rule : PortForwardRule
rule = record {
  proto = "tcp";
  port = pos 443;
  dest_addr = "192.0.2.1";
  dest_addrs = [];
  dest_port = pos 0;
  masquerade = none;
}

abbrev forward : PortForwardVip
forward = record {
  vip = "192.0.2.10";
  manage_vip = true;
  masquerade = false;
  hairpin_masquerade = false;
  router_masquerade = false;
  rules = rule ∷ [];
}

-- the defaults, with two remotes and a forward
abbrev running : Config
running = record {
  ovn_sb_remote = "tcp:192.0.2.1:6642";
  ovn_nb_remote = "tcp:192.0.2.1:6641";
  ovn_ssl_ca = "";
  ovn_ssl_cert = "";
  ovn_ssl_key = "";
  has_client_cert = false;
  bridge_dev = "br-ex";
  vrf_name = "vrf-provider";
  veth_nexthop = "192.0.2.1";
  network_cidrs = [];
  network_filters = [];
  gateway_port = "";
  route_table_id = pos 0;
  bridge_ip = "169.254.169.254";
  ovs_wrapper = "";
  reconcile_interval = pos 60000000000;
  route_watch = true;
  ovs_flow_watch = true;
  frr_watch = true;
  log_level = "info";
  dry_run = false;
  check_config = false;
  cleanup_on_shutdown = true;
  drain_on_shutdown = true;
  drain_timeout = pos 60000000000;
  drain_settle_delay = pos 500000000;
  frr_prefix_list = "ANNOUNCED-NETWORKS";
  stale_chassis_grace_period = pos 300000000000;
  metrics_listen = "";
  veth_leak_enabled = true;
  veth_provider_ip = "192.0.2.10";
  veth_leak_table_id = pos 200;
  veth_leak_rule_priority = pos 2000;
  port_forward_only = false;
  port_forward_enabled = true;
  port_forward_dev = "loopback1";
  port_forward_table_id = pos 201;
  port_forward_l3mdev_accept = false;
  port_forward_ct_zone = pos 64000;
  port_forwards = forward ∷ [];
}

-- a reloadable change and one that needs a restart
abbrev next : Config
next = record running { reconcile_interval = pos 30000000000; vrf_name = "vrf-blue" }

abbrev no_changes : FileChanges
no_changes = record { client_cert_changed = false; ca_content_changed = false }

abbrev plan : ReloadPlan
plan = record {
  merged = record running { reconcile_interval = pos 30000000000 };
  next = next;
  applied = "reconcile_interval" ∷ [];
  restart_required = record { key = "vrf_name"; reason = startup_only } ∷ [];
}

settings_of_running : validate_settings sample_net running ≡ accepted running
unfolding validate_settings first_error is_valid_identifier sample_net backends
settings_of_running = refl

mode_of_running : validate_mode running ≡ accepted running
unfolding validate_mode
mode_of_running = refl

plan_of_next : plan_reload sample_net running next no_changes ≡ planned plan
unfolding plan_reload decide reloadable_keys config_options validate_settings validate_mode
    first_error is_valid_identifier sample_net backends
plan_of_next = refl

rule_on_port_0 :
    validate_settings sample_net (record running {
      port_forwards = record forward { rules = record rule { port = pos 0 } ∷ [] } ∷ [];
    })
    ≡ rejected (of_rule 0 0 "invalid port")
unfolding validate_settings first_error is_valid_identifier sample_net backends
rule_on_port_0 = refl

abbrev agent : Agent
agent = record {
  cfg = running;
  routing_cfg = running;
  has_ovn = true;
  ovn_drain_settle_delay = pos 500000000;
  missing_chassis = [];
  log_level = "info";
  client_cert = none;
}

agent-IsCoherent : IsCoherent sample_net agent
agent-IsCoherent = record {
  validated = (settings_of_running, mode_of_running);
  routing = refl;
  settle_delay = inr refl;
  no_tracking = inr refl;
  level = refl;
}

accepted_iff-is_sound_example :
    (validate_settings sample_net next ≡ accepted (derive_settings sample_net next))
    ↔ (is_sound sample_net (derive_settings sample_net next) ≡ true)
accepted_iff-is_sound_example = accepted_iff-is_sound sample_net next

validate_settings_again_example : validate_settings sample_net running ≡ accepted running
validate_settings_again_example =
    validate_settings_again sample_net running running settings_of_running

validate_mode-runs_as_example :
    (validate_mode running ≡ accepted (record running { port_forward_only = false }))
    ↔ (runs_as running ≡ some false)
validate_mode-runs_as_example = validate_mode-runs_as running false

plan_reload-Treated_example : All (Treated running next plan) config_options
plan_reload-Treated_example =
    plan_reload-Treated sample_net running next no_changes plan
      (settings_of_running, mode_of_running) plan_of_next

handle_reload-IsCoherent_example :
    IsCoherent sample_net (handle_reload sample_net agent (some next) no_changes none).0
handle_reload-IsCoherent_example =
    handle_reload-IsCoherent sample_net agent (some next) no_changes none agent-IsCoherent
