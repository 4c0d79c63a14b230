-- ===== src/Reload/Apply.antt =====
-- applyReload, reload and handleReload of reload.go, on the parts of the agent that they change. A
-- certificate is named by its leaf; the errors of the cleanups are logged and change nothing.
use ovn_network_agent.Prelude.{
  ℕ, String, Bool, false, ◌&&◌, ◌||◌, not, Option, none, some, List, [], ◌∷◌, ◌++◌, if◌then◌else◌,
  Comparable, ◌==◌, nat_eq, string_eq, bool_eq, pair_eq, is_empty, contains, ℤ, pos, int_leb,
  int_eq,
}
use ovn_network_agent.Net.{Net}
use ovn_network_agent.Config.{Config}
use ovn_network_agent.Config.Options.{Value}
use ovn_network_agent.Reload.{
  FileChanges, ReloadPlan, plan_reload, Planned, planned, refused, withdrawn_managed_vips,
}

pub record Agent : Type 0 where
  pub cfg : Config
  pub routing_cfg : Config
  pub has_ovn : Bool
  pub ovn_drain_settle_delay : ℤ
  pub missing_chassis : List (String × ℕ)
  pub log_level : String
  pub client_cert : Option String

pub data ReloadCall : Type 0 where
  empty_prefix_list : String → ReloadCall
  withdraw_vips : List String → ReloadCall
  trigger_reconcile : ReloadCall

abbrev has_applied : ReloadPlan → String → Bool
has_applied p key = contains p.applied key

unfoldable pub cleanups : Agent → ReloadPlan → List ReloadCall
cleanups a p =
    let running = a.cfg in
    (if has_applied p "frr_prefix_list" && not (running.frr_prefix_list == "")
      then empty_prefix_list a.routing_cfg.frr_prefix_list ∷ []
      else [])
    ++ (if has_applied p "port_forwards"
        then (let vips = withdrawn_managed_vips running.port_forwards p.merged.port_forwards in
            if is_empty vips then [] else withdraw_vips vips ∷ [])
        else [])

unfoldable pub apply_reload : Agent → ReloadPlan → Option String → Agent × List ReloadCall
apply_reload a p next_cert = (
  record {
    cfg = p.merged;
    routing_cfg = p.merged;
    has_ovn = a.has_ovn;
    ovn_drain_settle_delay =
        if has_applied p "drain_settle_delay" && a.has_ovn
        then p.merged.drain_settle_delay
        else a.ovn_drain_settle_delay;
    missing_chassis =
        if has_applied p "stale_chassis_grace_period"
          && int_leb p.merged.stale_chassis_grace_period (pos 0)
        then []
        else a.missing_chassis;
    log_level = if has_applied p "log_level" then p.merged.log_level else a.log_level;
    client_cert =
        if has_applied p "ovn_ssl_cert" || has_applied p "ovn_ssl_key"
        then next_cert
        else a.client_cert;
  },
  cleanups a p,
)

module _ ⦃deep : Comparable Value⦄ (net : Net) where
  unfoldable pub after_plan : Agent → Option String → Planned → Agent × List ReloadCall × Bool
  after_plan a next_cert (refused e) = (a, [], false)
  after_plan a next_cert (planned p) =
      let (a', calls) = apply_reload a p next_cert in
      (
        a',
        calls ++ (if is_empty p.applied then [] else trigger_reconcile ∷ []),
        contains p.applied "reconcile_interval",
      )

  -- What the loader returns, `none` where it is missing or fails. The result says whether the
  -- interval of the reconciles changed.
  unfoldable pub handle_reload :
      Agent → Option Config → FileChanges → Option String → Agent × List ReloadCall × Bool
  unfolding after_plan apply_reload cleanups
  handle_reload a none files next_cert = (a, [], false)
  handle_reload a (some next) files next_cert =
      after_plan a next_cert (plan_reload net a.cfg next files)
