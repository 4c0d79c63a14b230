-- ===== src/Reload/Options.antt =====
-- Each option after a reload.
use mathlib.Core.Path.{subst}
use ovn_network_agent.Prelude.{
  ℕ, zero, suc, ◌≡◌, refl, sym, ap, ◌∙◌, inl, inr, Bool, true, false, ◌&&◌, List, [], ◌∷◌, arith,
  Bool-cases, Comparable, ◌==◌, nat_eq, string_eq, bool_eq, pair_eq, All, contains, int_eq,
}
use ovn_network_agent.Net.{Net}
use ovn_network_agent.Config.{Config, accepted}
use ovn_network_agent.Config.Mode.{validate_mode_sets}
use ovn_network_agent.Config.Settings.{validate_settings, derive_settings}
use ovn_network_agent.Config.Settings.Derived.{derived_sound, sound_parts, provider_kept}
use ovn_network_agent.Config.Options.{ConfigOption, Value, text, truth, config_options}
use ovn_network_agent.Config.Sound.{is_sound}
use ovn_network_agent.Reload.{FileChanges, ReloadPlan, plan_reload, planned, reloadable_keys}
use ovn_network_agent.Reload.Plan.{Treated, planned_options, planned_options-Treated}
use ovn_network_agent.Reload.Validated.{IsValidated, plan_parts}

unfoldable pub drop {ℓ} : {A : Type ℓ} → ℕ → List A → List A
drop zero xs = xs
drop (suc n) [] = []
drop (suc n) (x ∷ xs) = drop n xs

pub All-drop {ℓ κ} :
    {A : Type ℓ} (P : A → Type κ) (n : ℕ) (xs : List A) → All P xs → All P (drop n xs)
unfolding drop
All-drop P zero xs h = h
All-drop P (suc n) [] h = tt
All-drop P (suc n) (x ∷ xs) h = All-drop P n xs h.1

All-zip {ℓ κ ι λ'} :
    {A : Type ℓ} {P : A → Type κ} {Q : A → Type ι} {R : A → Type λ'} (f : (x : A) → P x → Q x → R x)
    (xs : List A)
    → All P xs
    → All Q xs
    → All R xs
All-zip f [] h k = tt
All-zip f (x ∷ xs) h k = (f x h.0 k.0, All-zip f xs h.1 k.1)

-- the test for which a configuration gets a computed provider address
abbrev wants_provider : Config → Bool
wants_provider c = c.veth_leak_enabled && c.veth_provider_ip == ""

module _ (net : Net) where
  values_kept :
      (c : Config) (b : Bool)
      → wants_provider c ≡ false
      → All
          (λ o. o.value (record (derive_settings net c) { port_forward_only = b }) ≡ o.value c)
          config_options
  unfolding config_options derive_settings
  values_kept c b h = ground arith

  running_provider : (c : Config) → validate_settings net c ≡ accepted c → wants_provider c ≡ false
  running_provider c h =
      let (e, sound) = derived_sound net c c h in
      provider_kept net c (sound_parts net c (subst (λ x. is_sound net x ≡ true) e sound)).1

pub kept_value :
    ⦃deep : Comparable Value⦄ (running next : Config) (p : ReloadPlan) (o : ConfigOption)
    → Treated running next p o
    → contains reloadable_keys o.key ≡ false
    → o.value p.merged ≡ o.value running
kept_value running next p o (v, r, a, c) h = elim (Bool-cases (contains p.applied o.key)) [
  | inl e ↦ absurd (ground arith)
  | inr e ↦ v ∙ rw e
]

wants_provider_of :
    (m c : Config)
    → truth m.veth_leak_enabled ≡ truth c.veth_leak_enabled
    → text m.veth_provider_ip ≡ text c.veth_provider_ip
    → wants_provider c ≡ false
    → wants_provider m ≡ false
wants_provider_of m c e f h = ground arith

merged_provider :
    ⦃deep : Comparable Value⦄ (running next : Config) (p : ReloadPlan)
    → All (Treated running next p) config_options
    → wants_provider running ≡ false
    → wants_provider p.merged ≡ false
unfolding config_options drop reloadable_keys
merged_provider running next p t h =
    let rest = All-drop (Treated running next p) 25 config_options t in
    wants_provider_of p.merged running
      (kept_value running next p
        (record {
          key = "veth_leak_enabled";
          apply_default = λ c. c;
          value = λ c. truth c.veth_leak_enabled;
          copy_value = λ c d. c;
        })
        rest.0 refl)
      (kept_value running next p
        (record {
          key = "veth_provider_ip";
          apply_default = λ c. c;
          value = λ c. text c.veth_provider_ip;
          copy_value = λ c d. c;
        })
        rest.1.0 refl)
      h

module _ (net : Net) ⦃deep : Comparable Value⦄ where
  -- A planned reload of a validated configuration, option by option: an option has its new value
  -- if its key is applied and its running value if not, also after the validation of the merged
  -- configuration; a key that is applied is reloadable and not among those that need a restart;
  -- and each changed option is among the applied ones or those that need a restart.
  pub plan_reload-Treated :
      (running next : Config) (files : FileChanges) (q : ReloadPlan)
      → IsValidated net running
      → plan_reload net running next files ≡ planned q
      → All (Treated running next q) config_options
  plan_reload-Treated running next files q valid h =
      let p = planned_options running next files config_options in
      let (d, e, s, m, c) = plan_parts net running next files q h in
      let t = planned_options-Treated running next files in
      let (b, sets) = validate_mode_sets d e m in
      let derived = (derived_sound net p.merged d s).0 in
      let idle = merged_provider running next p t (running_provider net running valid.0) in
      let e' : record (derive_settings net p.merged) { port_forward_only = b } ≡ e =
        ap {A = Config} (λ x. record x { port_forward_only = b }) derived ∙ sym sets in
      rw (← c) (
        All-zip (λ o tr k. ((k ∙ tr.0), tr.1, tr.2, tr.3)) config_options t
          (subst (λ x. All (λ o. o.value x ≡ o.value p.merged) config_options) e'
            (values_kept net p.merged b idle)))
