-- ===== src/Reload/Validated.antt =====
-- The plan of a reload after its validation: the merged configuration is one that validation leaves
-- as it is, and it differs from the running one in the applied keys only.
use mathlib.Core.Path.{subst}
use ovn_network_agent.Prelude.{
  ◌≡◌, refl, sym, Bool, Option, none, some, arith, Comparable, nat_eq, string_eq, bool_eq, pair_eq,
  int_eq,
}
use ovn_network_agent.Net.{Net}
use ovn_network_agent.Config.{
  Config, ConfigError, first_error, checked, Checked, accepted, rejected, validate_mode,
}
use ovn_network_agent.Config.Mode.{validate_mode_sets, validate_mode_again}
use ovn_network_agent.Config.Settings.{validate_settings, derive_settings, setting_checks}
use ovn_network_agent.Config.Settings.Derived.{validate_settings_again}
use ovn_network_agent.Config.Options.{Value, config_options}
use ovn_network_agent.Reload.{
  FileChanges, ReloadPlan, plan_reload, planned, with_mode, with_settings,
}
use ovn_network_agent.Reload.Plan.{planned_options}

-- Validation accepts the configuration, and changes nothing.
abbrev pub IsValidated : Net → Config → Type 0
IsValidated net cfg =
    (validate_settings net cfg ≡ accepted cfg) × (validate_mode cfg ≡ accepted cfg)

abbrev with_only : Config → Bool → Config
with_only cfg b = record cfg { port_forward_only = b }

checked_only :
    (b : Bool) (c d : Config) (o : Option ConfigError)
    → checked c o ≡ accepted d
    → checked (with_only c b) o ≡ accepted (with_only d b)
unfolding checked
checked_only b c d none h = cc
checked_only b c d (some e) h = cc

module _ (net : Net) where
  settings_only :
      (b : Bool) (c : Config)
      → validate_settings net c ≡ accepted c
      → validate_settings net (with_only c b) ≡ accepted (with_only c b)
  unfolding validate_settings derive_settings setting_checks
  settings_only b c h =
      checked_only b (derive_settings net c) c
        (first_error (setting_checks net (derive_settings net c))) h

module _ (net : Net) where
  both_again :
      (c d e : Config)
      → validate_settings net c ≡ accepted d
      → validate_mode d ≡ accepted e
      → IsValidated net e
  both_again c d e s m =
      let (b, q) = validate_mode_sets d e m in
      (
        subst (λ x. validate_settings net x ≡ accepted x) (sym q)
            (settings_only net b d (validate_settings_again net c d s)),
        validate_mode_again d e m,
      )

  -- the two validations of a plan
  validations :
      (p q : ReloadPlan) (r : Checked)
      → with_settings p r ≡ planned q
      → (d : Config) × (r ≡ accepted d) × (with_mode p (validate_mode d) ≡ planned q)
  validations p q (accepted d) h = (d, refl, h)
  validations p q (rejected e) h = absurd (ground arith)

  validated_mode :
      (p q : ReloadPlan) (r : Checked)
      → with_mode p r ≡ planned q
      → (e : Config) × (r ≡ accepted e) × (record p { merged = e } ≡ q)
  validated_mode p q (accepted e) h = (e, refl, cc)
  validated_mode p q (rejected e) h = absurd (ground arith)

  module _ ⦃deep : Comparable Value⦄ where
    pub plan_parts :
        (running next : Config) (files : FileChanges) (q : ReloadPlan)
        → plan_reload net running next files ≡ planned q
        → let p = planned_options running next files config_options in
          (d : Config) × (e : Config) × (validate_settings net p.merged ≡ accepted d)
          × (validate_mode d ≡ accepted e)
          × (record p { merged = e } ≡ q)
    unfolding plan_reload planned_options
    plan_parts running next files q h =
        let p = planned_options running next files config_options in
        let (d, s, h') = validations p q (validate_settings net p.merged) h in
        let (e, m, c) = validated_mode p q (validate_mode d) h' in (d, e, s, m, c)

    -- The merged configuration of a planned reload is one that validation accepts as it is.
    pub plan_reload-IsValidated :
        (running next : Config) (files : FileChanges) (q : ReloadPlan)
        → plan_reload net running next files ≡ planned q
        → IsValidated net q.merged
    plan_reload-IsValidated running next files q h =
        let (d, e, s, m, c) = plan_parts running next files q h in
        rw (← c) (both_again (planned_options running next files config_options).merged d e s m)
