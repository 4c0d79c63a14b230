-- ===== src/Reload/Plan.antt =====
-- What becomes of each option in a reload.
use ovn_network_agent.Prelude.{
  String, ◌≡◌, refl, ap, ◌∙◌, Bool, true, false, ◌&&◌, ◌||◌, not, List, [], ◌∷◌, ◌++◌, arith,
  if◌then◌else◌, Comparable, ◌==◌, nat_eq, string_eq, bool_eq, pair_eq, is_empty, All, contains,
  int_eq,
}
use ovn_network_agent.Config.{Config}
use ovn_network_agent.Config.Options.{ConfigOption, Value, config_options}
use ovn_network_agent.Config.Options.Lenses.{Copies, config_options-Copies, config_options-Nodup}
use ovn_network_agent.Reload.{
  startup_only, port_forward_toggle, client_cert_toggle, ca_content, RestartChange, FileChanges,
  ReloadPlan, Decision, untouched, renewed, copied, kept, decide, reloadable_keys, plan_options,
}
use ovn_network_agent.Reload.Lists.{
  is_applied, is_kept, change_of, changes_from, restart_keys, keys_where, merged_from,
  plan_options_lem, key_if,
}
use ovn_network_agent.Reload.Merge.{is_copied, listed, merged_value}

-- The option has its value of `next` if its key is applied, and its running value if not. A key that
-- is applied is reloadable and needs no restart, and a change is applied or reported.
abbrev pub Treated :
    ⦃deep : Comparable Value⦄ → Config → Config → ReloadPlan → ConfigOption → Type 0
Treated running next p o =
    (o.value p.merged ≡ (if contains p.applied o.key then o.value next else o.value running))
    × ((contains p.applied o.key && contains (restart_keys p.restart_required) o.key) ≡ false)
    × ((not (contains p.applied o.key) || contains reloadable_keys o.key) ≡ true)
    × ((o.value running == o.value next
          || contains p.applied o.key
          || contains (restart_keys p.restart_required) o.key)
        ≡ true)

-- the branches of `decide`, on its tests
chain : Bool → Bool → Bool → Bool → Bool → Bool → Decision
chain same renew ca reloadable toggle cert =
    if same
    then (if renew then renewed else if ca then kept ca_content else untouched)
    else if not reloadable
    then kept startup_only
    else if toggle
    then kept port_forward_toggle
    else if cert
    then kept client_cert_toggle
    else copied

-- what a decision says of its option, by whether its value is unchanged and its key reloadable
Decided : Bool → Bool → Decision → Type 0
Decided same reloadable d =
    ((not (is_applied d) || reloadable) ≡ true)
    × ((is_applied d && is_kept d) ≡ false)
    × ((is_copied d || not (is_applied d) || same) ≡ true)
    × ((same || is_applied d || is_kept d) ≡ true)

chain-Decided :
    (same renew ca reloadable toggle cert : Bool)
    → (renew ≡ true → reloadable ≡ true)
    → Decided same reloadable (chain same renew ca reloadable toggle cert)
unfolding Decided chain
chain-Decided same renew ca reloadable toggle cert h =
    (ground arith, ground arith, ground arith, ground arith)

cert_reloadable :
    (k : String) (b c : Bool)
    → (k == "ovn_ssl_cert" && b && c) ≡ true
    → contains reloadable_keys k ≡ true
unfolding reloadable_keys
cert_reloadable k b c h = ground arith

keyed :
    (d : Decision) (o : ConfigOption) (changes : List RestartChange)
    → restart_keys (change_of d o ++ changes) ≡ key_if (is_kept d) o.key ++ restart_keys changes
keyed untouched o changes = refl
keyed renewed o changes = refl
keyed copied o changes = refl
keyed (kept r) o changes = refl

module _ ⦃deep : Comparable Value⦄ (running next : Config) (files : FileChanges) where
  decided :
      (o : ConfigOption)
      → Decided
          (o.value running == o.value next)
          (contains reloadable_keys o.key)
          (decide running next files o)
  unfolding decide chain
  decided o =
      let both = running.has_client_cert && next.has_client_cert in
      chain-Decided (o.value running == o.value next)
        (o.key == "ovn_ssl_cert" && both && files.client_cert_changed)
        (o.key == "ovn_ssl_ca" && files.ca_content_changed) (contains reloadable_keys o.key)
        (o.key == "port_forwards"
          && not (is_empty running.port_forwards == is_empty next.port_forwards))
        ((o.key == "ovn_ssl_cert" || o.key == "ovn_ssl_key") && not both)
        (cert_reloadable o.key both files.client_cert_changed)

  restart_keys-changes_from :
      (os : List ConfigOption)
      → restart_keys (changes_from running next files os) ≡ keys_where running next files is_kept os
  restart_keys-changes_from [] = refl
  restart_keys-changes_from (o ∷ os) =
      keyed (decide running next files o) o (changes_from running next files os)
      ∙ ap (λ ks. key_if (is_kept (decide running next files o)) o.key ++ ks)
          (restart_keys-changes_from os)

  valued :
      (o : ConfigOption) (d : Decision) (reloadable : Bool) (v : Value)
      → Decided (o.value running == o.value next) reloadable d
      → v ≡ (if is_copied d then o.value next else o.value running)
      → v ≡ (if is_applied d then o.value next else o.value running)
  unfolding Decided
  valued o untouched reloadable v h m = m
  valued o renewed reloadable v h m = m ∙ (deep.same_iff (o.value running) (o.value next)).0 h.2
  valued o copied reloadable v h m = m
  valued o (kept r) reloadable v h m = m

  decided-Treated :
      (o : ConfigOption) (p : ReloadPlan)
      → contains p.applied o.key ≡ is_applied (decide running next files o)
      → contains (restart_keys p.restart_required) o.key ≡ is_kept (decide running next files o)
      → o.value p.merged
        ≡ (if is_copied (decide running next files o) then o.value next else o.value running)
      → Treated running next p o
  unfolding Decided
  decided-Treated o p a r m =
      let d = decide running next files o in
      let h = decided o in
      rw (a, r) (valued o d (contains reloadable_keys o.key) (o.value p.merged) h m, h.1, h.0, h.3)

  -- the plan before it is validated
  unfoldable pub planned_options : List ConfigOption → ReloadPlan
  planned_options opts =
      plan_options running files opts
        (record { merged = running; next = next; applied = []; restart_required = [] })

  -- at an option, what the three lists of keys hold
  IsListed : List ConfigOption → (Decision → Bool) → ConfigOption → Type 0
  IsListed opts test o =
      contains (keys_where running next files test opts) o.key ≡ test (decide running next files o)

  treated :
      (opts os : List ConfigOption)
      → All (IsListed opts is_applied) os
      → All (IsListed opts is_kept) os
      → All (IsListed opts is_copied) os
      → All (λ p. All (Copies p) opts) os
      → All (Treated running next (planned_options opts)) os
  unfolding planned_options IsListed
  treated opts [] a k c l = tt
  treated opts (o ∷ os) a k c l = (
    rw (plan_options_lem running next files opts) (
        decided-Treated o
          (record {
            merged = merged_from running next files opts running;
            next = next;
            applied = keys_where running next files is_applied opts;
            restart_required = changes_from running next files opts;
          })
          a.0 (ap (λ ks. contains ks o.key) (restart_keys-changes_from opts) ∙ k.0)
          (merged_value running next files o opts running l.0
            ∙ ap (λ b. if b then o.value next else o.value running) c.0)),
    treated opts os a.1 k.1 c.1 l.1,
  )

  pub planned_options-Treated :
      All (Treated running next (planned_options config_options)) config_options
  unfolding IsListed
  planned_options-Treated =
      let at = λ (test : Decision → Bool).
        listed running next files test config_options config_options-Nodup in
      treated config_options config_options (at is_applied) (at is_kept) (at is_copied)
        config_options-Copies
