-- ===== src/Reload.antt =====
-- reload.go: which changes of the configuration a reload applies (planReload), and their effect
-- (applyReload, handleReload). Values are compared by reflect.DeepEqual, an argument; an empty list
-- and none are one value. What clientCertChanged and caContentChanged say of the files is an argument.
pub mod Lists
pub mod Merge
pub mod Plan
pub mod Validated
pub mod Options
pub mod Apply
pub mod Effect
use ovn_network_agent.Prelude.{
  ℕ, zero, suc, ◌+◌, ◌-◌, ◌*◌, ◌/◌, ◌%◌, ◌^◌, ◌≤◌, ◌<◌, String, ◌≡◌, refl, sym, ap, ◌∙◌, ◌≢◌, ◌↔◌,
  ◌⊎◌, inl, inr, Bool, true, false, ◌&&◌, ◌||◌, not, Option, none, some, List, [], ◌∷◌, ◌++◌, map,
  arith, ltb, leb, nat_beq, if◌then◌else◌, ltb→lt, leb→le, Bool-cases, Option-cases, is_some,
  Comparable, ◌==◌, nat_eq, string_eq, bool_eq, pair_eq, length, is_empty, filter, any, all, All,
  length-append, length-filter, filter-append, all-append, any-append, all-filter, all-filter_self,
  contains, eq_self, contains-append, contains-filter, all-contains, without, contains-without,
  lookup, insert, keys, remove, lookup-insert, lookup-remove, contains-keys-insert, contains-keys,
  Nodup, str_leb, trim_space, sort_strings, contains-sort_strings, Nodup-sort_strings,
  all-sort_strings, nil_of_contains, not_nil_of_contains, trim_suffix, cut_prefix, split_on,
  fields_func, lower_code, is_space, insert_by, sort_by, ℤ, pos, negsuc, pos_part, neg_part, ◌≤ℤ◌,
  int_leb, int_leb_iff, int_eq, All-map, All-pi,
}
use ovn_network_agent.Net.{Net}
use ovn_network_agent.PortForward.{PortForwardVip}
use ovn_network_agent.Config.{Config, ConfigError, Checked, accepted, rejected, validate_mode}
use ovn_network_agent.Config.Settings.{validate_settings}
use ovn_network_agent.Config.Options.{ConfigOption, Value, config_options}

-- reloadableKeys
unfoldable pub reloadable_keys : List String
reloadable_keys =
    "log_level" ∷ "reconcile_interval" ∷ "frr_prefix_list" ∷ "stale_chassis_grace_period"
    ∷ "port_forwards" ∷ "cleanup_on_shutdown" ∷ "drain_on_shutdown" ∷ "drain_timeout"
    ∷ "drain_settle_delay" ∷ "ovn_ssl_cert" ∷ "ovn_ssl_key" ∷ []

pub data Reason : Type 0 where
  startup_only : Reason
  port_forward_toggle : Reason
  client_cert_toggle : Reason
  ca_content : Reason

pub record RestartChange : Type 0 where
  pub key : String
  pub reason : Reason

-- what clientCertChanged and caContentChanged return
pub record FileChanges : Type 0 where
  pub client_cert_changed : Bool
  pub ca_content_changed : Bool

pub record ReloadPlan : Type 0 where
  pub merged : Config
  pub next : Config
  pub applied : List String
  pub restart_required : List RestartChange

pub data Planned : Type 0 where
  planned : ReloadPlan → Planned
  refused : ConfigError → Planned

-- what the loop does with an option: nothing, append it to the applied keys, copy its value first,
-- or keep it
pub data Decision : Type 0 where
  untouched : Decision
  renewed : Decision
  copied : Decision
  kept : Reason → Decision

abbrev pub carry_out : ReloadPlan → ConfigOption → Decision → ReloadPlan
carry_out p o untouched = p
carry_out p o renewed = record p { applied = p.applied ++ (o.key ∷ []) }
carry_out p o copied = record p {
  merged = o.copy_value p.merged p.next;
  applied = p.applied ++ (o.key ∷ []);
}
carry_out p o (kept r) = record p {
  restart_required = p.restart_required ++ (record { key = o.key; reason = r } ∷ []);
}

abbrev pub with_mode : ReloadPlan → Checked → Planned
with_mode p (accepted cfg) = planned (record p { merged = cfg })
with_mode p (rejected e) = refused e

abbrev pub with_settings : ReloadPlan → Checked → Planned
with_settings p (accepted cfg) = with_mode p (validate_mode cfg)
with_settings p (rejected e) = refused e

module _ ⦃deep : Comparable Value⦄ where
  unfoldable pub decide : Config → Config → FileChanges → ConfigOption → Decision
  decide running next files o =
      let both_client_cert = running.has_client_cert && next.has_client_cert in
      if o.value running == o.value next
      then (if o.key == "ovn_ssl_cert" && both_client_cert && files.client_cert_changed
          then renewed
          else if o.key == "ovn_ssl_ca" && files.ca_content_changed
          then kept ca_content
          else untouched)
      else if not (contains reloadable_keys o.key)
      then kept startup_only
      else if o.key == "port_forwards"
          && not (is_empty running.port_forwards == is_empty next.port_forwards)
      then kept port_forward_toggle
      else if (o.key == "ovn_ssl_cert" || o.key == "ovn_ssl_key") && not both_client_cert
      then kept client_cert_toggle
      else copied

  -- the loop over the options
  unfoldable pub plan_options : Config → FileChanges → List ConfigOption → ReloadPlan → ReloadPlan
  plan_options running files [] p = p
  plan_options running files (o ∷ os) p =
      plan_options running files os (carry_out p o (decide running p.next files o))

  unfoldable pub plan_reload : Net → Config → Config → FileChanges → Planned
  unfolding plan_options
  plan_reload net running next files =
      let p =
        plan_options running files config_options
          (record { merged = running; next = next; applied = []; restart_required = [] }) in
      with_settings p (validate_settings net p.merged)

unfoldable pub managed_vips : List PortForwardVip → List String
managed_vips pfs = map (λ pf. pf.vip) (filter (λ pf. pf.manage_vip) pfs)

unfoldable pub withdrawn_managed_vips : List PortForwardVip → List PortForwardVip → List String
unfolding managed_vips
withdrawn_managed_vips running next =
    filter (λ v. not (contains (managed_vips next) v)) (managed_vips running)
