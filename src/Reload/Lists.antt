-- ===== src/Reload/Lists.antt =====
-- The lists that planReload fills, and the values that it merges, option by option.
use ovn_network_agent.Prelude.{
  String, ◌≡◌, ◌∙◌, Bool, true, false, List, [], ◌∷◌, ◌++◌, map, Comparable, nat_eq, string_eq,
  bool_eq, pair_eq, int_eq,
}
use mathlib.Core.List.{append-nil, append_assoc}
use ovn_network_agent.Config.{Config}
use ovn_network_agent.Config.Options.{ConfigOption, Value}
use ovn_network_agent.Reload.{
  plan_options, carry_out, ReloadPlan, FileChanges, RestartChange, Decision, untouched, renewed,
  copied, kept, decide,
}

abbrev pub is_applied : Decision → Bool
is_applied renewed = true
is_applied copied = true
is_applied untouched = false
is_applied (kept r) = false

abbrev pub is_kept : Decision → Bool
is_kept (kept r) = true
is_kept untouched = false
is_kept renewed = false
is_kept copied = false

abbrev pub key_if : Bool → String → List String
key_if true k = k ∷ []
key_if false k = []

abbrev pub copy_if : Decision → ConfigOption → Config → Config → Config
copy_if copied o dst src = o.copy_value dst src
copy_if untouched o dst src = dst
copy_if renewed o dst src = dst
copy_if (kept r) o dst src = dst

abbrev pub change_of : Decision → ConfigOption → List RestartChange
change_of (kept r) o = record { key = o.key; reason = r } ∷ []
change_of untouched o = []
change_of renewed o = []
change_of copied o = []

abbrev pub restart_keys : List RestartChange → List String
restart_keys changes = map (λ c. c.key) changes

module _ ⦃deep : Comparable Value⦄ (running next : Config) (files : FileChanges) where
  abbrev pub keys_where : (Decision → Bool) → List ConfigOption → List String
  keys_where test [] = []
  keys_where test (o ∷ os) = key_if (test (decide running next files o)) o.key ++ keys_where test os

  abbrev pub merged_from : List ConfigOption → Config → Config
  merged_from [] m = m
  merged_from (o ∷ os) m = merged_from os (copy_if (decide running next files o) o m next)

  abbrev pub changes_from : List ConfigOption → List RestartChange
  changes_from [] = []
  changes_from (o ∷ os) = change_of (decide running next files o) o ++ changes_from os

  abbrev plan_of : Config → List String → List RestartChange → ReloadPlan
  plan_of m a r = record { merged = m; next = next; applied = a; restart_required = r }

  carried :
      (d : Decision) (o : ConfigOption) (m : Config) (a : List String) (r : List RestartChange)
      → carry_out (plan_of m a r) o d
        ≡ plan_of (copy_if d o m next) (a ++ key_if (is_applied d) o.key) (r ++ change_of d o)
  carried untouched o m a r = simp (append-nil)
  carried renewed o m a r = simp (append-nil)
  carried copied o m a r = simp (append-nil)
  carried (kept q) o m a r = simp (append-nil)

  planned_as :
      (os : List ConfigOption) (m : Config) (a : List String) (r : List RestartChange)
      → plan_options running files os (plan_of m a r)
        ≡ plan_of (merged_from os m) (a ++ keys_where is_applied os) (r ++ changes_from os)
  unfolding plan_options
  planned_as [] m a r = simp (append-nil)
  planned_as (o ∷ os) m a r =
      let d = decide running next files o in
      rw (carried d o m a r) (
        planned_as os (copy_if d o m next) (a ++ key_if (is_applied d) o.key) (r ++ change_of d o)
        ∙ simp (append_assoc))

  -- The plan before it is validated.
  pub plan_options_lem :
      (os : List ConfigOption)
      → plan_options running files os
          (record { merged = running; next = next; applied = []; restart_required = [] })
        ≡ record {
          merged = merged_from os running;
          next = next;
          applied = keys_where is_applied os;
          restart_required = changes_from os;
        }
  plan_options_lem os = planned_as os running [] []
