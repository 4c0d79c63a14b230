-- ===== src/Config/Settings/Derived.antt =====
-- Validating an accepted configuration again changes nothing.
use ovn_network_agent.Prelude.{
  String, ◌≡◌, refl, sym, ap, ◌∙◌, ◌≢◌, inl, inr, Bool, true, false, ◌&&◌, not, Option, none, some,
  arith, if◌then◌else◌, Bool-cases, is_some, ◌==◌, nat_eq, string_eq, bool_eq, pair_eq, is_empty,
  int_eq,
}
use mathlib.Core.Path.{subst}
use ovn_network_agent.Net.{Net}
use ovn_network_agent.Config.{Config, ConfigError, first_error, accepted, checked}
use ovn_network_agent.Config.Settings.{
  parsed_filters, next_text, reads_ip, setting_checks, derive_settings, validate_settings,
}
use ovn_network_agent.Config.Settings.Accepts.{accepted_iff-is_sound}
use ovn_network_agent.Config.Sound.{
  sound_names, sound_times, sound_leak, sound_ports, is_sound, implies,
}

accepted-checked :
    {cfg cfg' : Config} (o : Option ConfigError) → checked cfg o ≡ accepted cfg' → cfg ≡ cfg'
unfolding checked
accepted-checked none h = cc
accepted-checked (some e) h = cc

and_parts :
    (a b c d : Bool) → (a && b && c && d) ≡ true → (a ≡ true) × (b ≡ true) × (c ≡ true) × (d ≡ true)
and_parts a b c d h = ground arith

if_filters {ℓ} :
    {A : Type ℓ} (b : Bool) (x y : A)
    → (if b then (if b then x else y) else y) ≡ (if b then x else y)
if_filters true x y = refl
if_filters false x y = refl

if_idle {ℓ} : {A : Type ℓ} (b : Bool) (x y : A) → b ≡ false → (if b then x else y) ≡ y
if_idle true x y h = cc
if_idle false x y h = refl

module _ (net : Net) where
  pub sound_parts :
      (cfg : Config)
      → is_sound net cfg ≡ true
      → (sound_times net cfg ≡ true)
        × (implies cfg.veth_leak_enabled (sound_leak net cfg) ≡ true)
        × (implies cfg.port_forward_enabled (sound_ports net cfg) ≡ true)
  unfolding is_sound
  sound_parts cfg h =
      let (names, times, leak, ports) =
        and_parts (sound_names net cfg) (sound_times net cfg)
          (implies cfg.veth_leak_enabled (sound_leak net cfg))
          (implies cfg.port_forward_enabled (sound_ports net cfg)) h in
      (times, leak, ports)

  unread : (s : String) → s ≡ "" → reads_ip net s ≢ true
  unread s e h = ground (arith, ap (reads_ip net) e, ap is_some net.parse_ip-nil)

  reads_ip-ne-nil : (s : String) → reads_ip net s ≡ true → (s == "") ≡ false
  reads_ip-ne-nil s h = elim (Bool-cases (s == "")) [
    | inl e ↦ absurd (unread s ((string_eq.same_iff s "").0 e) h)
    | inr e ↦ e
  ]

  pub provider_kept :
      (cfg : Config)
      → implies cfg.veth_leak_enabled (sound_leak net cfg) ≡ true
      → (cfg.veth_leak_enabled && cfg.veth_provider_ip == "") ≡ false
  provider_kept cfg h = ground (arith, reads_ip-ne-nil cfg.veth_provider_ip)

  derive-derive_settings :
      (cfg : Config)
      → is_sound net (derive_settings net cfg) ≡ true
      → derive_settings net (derive_settings net cfg) ≡ derive_settings net cfg
  unfolding derive_settings
  derive-derive_settings cfg h =
      let kept =
        provider_kept (derive_settings net cfg) (sound_parts (derive_settings net cfg) h).1 in
      λ i. record cfg {
        network_filters =
            if_filters (is_empty cfg.network_cidrs) cfg.network_filters
              (parsed_filters net cfg.network_cidrs) i;
        veth_provider_ip =
            if_idle (cfg.veth_leak_enabled && (derive_settings net cfg).veth_provider_ip == "")
              (next_text net (net.parse_ip cfg.veth_nexthop))
              (derive_settings net cfg).veth_provider_ip kept i;
        port_forward_enabled = not (is_empty cfg.port_forwards);
      }

  pub derived_sound :
      (cfg cfg' : Config)
      → validate_settings net cfg ≡ accepted cfg'
      → (derive_settings net cfg ≡ cfg') × (is_sound net (derive_settings net cfg) ≡ true)
  unfolding validate_settings
  derived_sound cfg cfg' h =
      let e = accepted-checked (first_error (setting_checks net (derive_settings net cfg))) h in
      (e, (accepted_iff-is_sound net cfg).0 (h ∙ ap accepted (sym e)))

  -- Validating an accepted configuration again accepts it and changes no field, which a reload
  -- relies on when it validates its merged configuration.
  pub validate_settings_again :
      (cfg cfg' : Config)
      → validate_settings net cfg ≡ accepted cfg'
      → validate_settings net cfg' ≡ accepted cfg'
  validate_settings_again cfg cfg' h =
      let (e, sound) = derived_sound cfg cfg' h in
      let again = derive-derive_settings cfg sound in
      let d = derive_settings net cfg in
      let r = (accepted_iff-is_sound net d).1 (rw again sound) in
      subst (λ c. validate_settings net c ≡ accepted c) e (r ∙ ap accepted again)
