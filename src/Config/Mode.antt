-- ===== src/Config/Mode.antt =====
-- The mode of operation.
use ovn_network_agent.Prelude.{
  ℕ, ◌+◌, ◌≡◌, refl, sym, ap, ◌∙◌, ◌↔◌, Bool, true, false, ◌&&◌, ◌||◌, not, Option, none, some,
  List, [], ◌∷◌, arith, if◌then◌else◌, is_some, ◌==◌, nat_eq, string_eq, bool_eq, pair_eq, is_empty,
  all, int_eq,
}
use ovn_network_agent.PortForward.{PortForwardVip}
use mathlib.Core.Path.{subst}
use ovn_network_agent.Config.{
  rejected, ConfigError, of_option, Config, first_error, accepted, checked, mode_checks,
  validate_mode,
}

-- a forward that does without what is discovered of OVN
abbrev pub needs_no_ovn : Config → PortForwardVip → Bool
needs_no_ovn cfg pf =
    not pf.router_masquerade && (not pf.hairpin_masquerade || not (is_empty cfg.network_cidrs))

-- The mode, port-forward-only or not, if there is one: the table above the function in the source.
unfoldable pub runs_as : Config → Option Bool
runs_as cfg =
    if cfg.ovn_sb_remote == ""
    then (if cfg.ovn_nb_remote == ""
          && not (is_empty cfg.port_forwards)
          && all (needs_no_ovn cfg) cfg.port_forwards
        then some true
        else none)
    else (if cfg.ovn_nb_remote == "" then none else some false)

mode_checks-needs_no_ovn :
    (cfg : Config) (i : ℕ) (pfs : List PortForwardVip)
    → is_some (first_error (mode_checks cfg i pfs)) ≡ not (all (needs_no_ovn cfg) pfs)
unfolding first_error mode_checks
mode_checks-needs_no_ovn cfg i [] = refl
mode_checks-needs_no_ovn cfg i (pf ∷ pfs) = ground (arith, mode_checks-needs_no_ovn cfg (i + 1) pfs)

-- validateMode accepts a configuration in a mode, changing nothing else, exactly if the table in
-- its comment gives that mode: full with both remotes, port-forward-only with none of them, some
-- forwards, and no forward that needs what is discovered of OVN.
pub validate_mode-runs_as :
    (cfg : Config) (b : Bool)
    → (validate_mode cfg ≡ accepted (record cfg { port_forward_only = b })) ↔ (runs_as cfg ≡ some b)
unfolding validate_mode runs_as checked
validate_mode-runs_as cfg b = ground (arith, mode_checks-needs_no_ovn cfg 0 cfg.port_forwards)

-- The mode is all that validation sets.
mode_shape :
    (sb nb unset : Bool) (cfg d : Config) (e f : ConfigError) (o : Option ConfigError)
    → (if sb && nb
        then accepted (record cfg { port_forward_only = false })
        else if not sb && not nb
        then (if unset then rejected e else checked (record cfg { port_forward_only = true }) o)
        else rejected f)
      ≡ accepted d
    → (b : Bool) × (d ≡ record cfg { port_forward_only = b })
unfolding checked
mode_shape true true unset cfg d e f o h = (false, cc)
mode_shape true false unset cfg d e f o h = absurd (ground arith)
mode_shape false true unset cfg d e f o h = absurd (ground arith)
mode_shape false false true cfg d e f o h = absurd (ground arith)
mode_shape false false false cfg d e f none h = (true, cc)
mode_shape false false false cfg d e f (some g) h = absurd (ground arith)

pub validate_mode_sets :
    (cfg d : Config)
    → validate_mode cfg ≡ accepted d
    → (b : Bool) × (d ≡ record cfg { port_forward_only = b })
unfolding validate_mode
validate_mode_sets cfg d h =
    mode_shape (not (cfg.ovn_sb_remote == "")) (not (cfg.ovn_nb_remote == ""))
      (is_empty cfg.port_forwards) cfg d (of_option "port_forwards")
      (of_option "ovn-sb-remote and ovn-nb-remote")
      (first_error (mode_checks cfg 0 cfg.port_forwards)) h

-- Validating the mode again changes nothing.
pub validate_mode_again :
    (cfg d : Config) → validate_mode cfg ≡ accepted d → validate_mode d ≡ accepted d
unfolding runs_as
validate_mode_again cfg d h =
    let (b, e) = validate_mode_sets cfg d h in
    let runs = (validate_mode-runs_as cfg b).0 (h ∙ ap accepted e) in
    subst (λ c. validate_mode c ≡ accepted c) (sym e)
      ((validate_mode-runs_as (record cfg { port_forward_only = b }) b).1 runs)
