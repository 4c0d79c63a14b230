-- ===== src/Config/Options/Lenses.antt =====
-- Each option of the registry has a field of its own.
use ovn_network_agent.Prelude.{
  ◌≡◌, map, arith, if◌then◌else◌, ◌==◌, nat_eq, string_eq, bool_eq, pair_eq, All, Nodup, int_eq,
  All-map, All-pi,
}
use ovn_network_agent.Config.{Config}
use ovn_network_agent.Config.Options.{ConfigOption, config_options}

abbrev CopiesTo : ConfigOption → Config → Config → ConfigOption → Type 0
CopiesTo p dst src o =
    p.value (o.copy_value dst src) ≡ (if p.key == o.key then p.value src else p.value dst)

-- p changes its value by a copy of the option with its key, and of no other.
abbrev pub Copies : ConfigOption → ConfigOption → Type 0
Copies p o = (dst src : Config) → CopiesTo p dst src o

copies : (dst src : Config) → All (λ p. All (CopiesTo p dst src) config_options) config_options
unfolding config_options
copies dst src = ground arith

-- Each option has a field of its own.
pub config_options-Copies : All (λ p. All (Copies p) config_options) config_options
config_options-Copies =
    All-map (λ p h. All-pi (CopiesTo p) config_options h) config_options
      (All-pi (λ dst src p. All (CopiesTo p dst src) config_options) config_options copies)

-- No two options share a key.
pub config_options-Nodup : Nodup (map (λ o. o.key) config_options)
unfolding config_options
config_options-Nodup = ground arith
