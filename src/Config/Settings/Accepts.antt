-- ===== src/Config/Settings/Accepts.antt =====
-- validateSettings accepts exactly the sound configurations.
use ovn_network_agent.Prelude.{
  ◌≡◌, refl, ap, ◌∙◌, ◌↔◌, Bool, true, false, ◌&&◌, ◌||◌, not, Option, none, some, List, [], ◌++◌,
  map, arith, is_some, nat_eq, string_eq, bool_eq, pair_eq, int_eq,
}
use ovn_network_agent.Net.{Net}
use ovn_network_agent.Config.{Config, Check, ConfigError, first_error, accepted, checked}
use ovn_network_agent.Config.Settings.{
  name_checks, time_checks, leak_checks, port_checks, setting_checks, when, derive_settings,
  validate_settings,
}
use ovn_network_agent.Config.Settings.Forwards.{passes-cidr_checks, passes-forward_checks}
use ovn_network_agent.Config.Sound.{sound_names, sound_times, sound_leak, sound_ports, is_sound}
use ovn_network_agent.Config.Passes.{passes, first_error-passes, passes-append, fresh-distinct}

and_assoc : (a b c d : Bool) → (a && (b && (c && d))) ≡ (a && b && c && d)
and_assoc a b c d = ground arith

passes-when : (b : Bool) (checks : List Check) → passes (when b checks) ≡ (not b || passes checks)
passes-when true checks = refl
passes-when false checks = refl

checked_iff :
    (cfg : Config) (o : Option ConfigError) (b : Bool)
    → is_some o ≡ not b
    → (checked cfg o ≡ accepted cfg) ↔ (b ≡ true)
unfolding checked
checked_iff cfg none b h = (λ e. ground arith, λ e. refl)
checked_iff cfg (some e) b h = (λ q. cc, λ q. ground arith)

module _ (net : Net) where
  passes-name_checks : (cfg : Config) → passes (name_checks net cfg) ≡ sound_names net cfg
  unfolding setting_checks
  passes-name_checks cfg = ground (arith, passes-cidr_checks net cfg.network_cidrs)

  passes-time_checks : (cfg : Config) → passes (time_checks net cfg) ≡ sound_times net cfg
  unfolding setting_checks
  passes-time_checks cfg = ground arith

  passes-leak_checks : (cfg : Config) → passes (leak_checks net cfg) ≡ sound_leak net cfg
  unfolding setting_checks
  passes-leak_checks cfg = ground arith

  passes-port_checks : (cfg : Config) → passes (port_checks net cfg) ≡ sound_ports net cfg
  unfolding setting_checks
  passes-port_checks cfg = ground (
    arith,
    passes-forward_checks net 0 [] cfg.port_forwards,
    fresh-distinct (map (λ pf. pf.vip) cfg.port_forwards),
  )

  passes-setting_checks : (cfg : Config) → passes (setting_checks net cfg) ≡ is_sound net cfg
  unfolding is_sound setting_checks
  passes-setting_checks cfg =
      rw
        (
          passes-append (name_checks net cfg) (
              time_checks net cfg
              ++ (when cfg.veth_leak_enabled (leak_checks net cfg)
                  ++ when cfg.port_forward_enabled (port_checks net cfg))),
          passes-append (time_checks net cfg) (
              when cfg.veth_leak_enabled (leak_checks net cfg)
              ++ when cfg.port_forward_enabled (port_checks net cfg)),
          passes-append (when cfg.veth_leak_enabled (leak_checks net cfg))
              (when cfg.port_forward_enabled (port_checks net cfg)),
          passes-when cfg.veth_leak_enabled (leak_checks net cfg),
          passes-when cfg.port_forward_enabled (port_checks net cfg),
          passes-name_checks cfg,
          passes-time_checks cfg,
          passes-leak_checks cfg,
          passes-port_checks cfg,
        )
        (and_assoc (sound_names net cfg) (sound_times net cfg)
          (not cfg.veth_leak_enabled || sound_leak net cfg)
          (not cfg.port_forward_enabled || sound_ports net cfg))

  first_error-is_sound :
      (cfg : Config) → is_some (first_error (setting_checks net cfg)) ≡ not (is_sound net cfg)
  first_error-is_sound cfg =
      first_error-passes (setting_checks net cfg) ∙ ap not (passes-setting_checks cfg)

  -- validateSettings accepts a configuration exactly if, with its computed fields, it is sound:
  -- the names, ranges and times are right, the tables of the veth leak and of the port forwards
  -- are apart if these are on, and each forward has an IPv4 address that no other has, and rules
  -- of distinct protocols and ports, each with one to 256 distinct IPv4 backends given in one way.
  pub accepted_iff-is_sound :
      (cfg : Config)
      → (validate_settings net cfg ≡ accepted (derive_settings net cfg))
        ↔ (is_sound net (derive_settings net cfg) ≡ true)
  unfolding validate_settings
  accepted_iff-is_sound cfg =
      let cfg' = derive_settings net cfg in
      checked_iff cfg' (first_error (setting_checks net cfg')) (is_sound net cfg')
        (first_error-is_sound cfg')
