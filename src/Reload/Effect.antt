-- ===== src/Reload/Effect.antt =====
-- After a reload the parts of the agent agree with its configuration.
use ovn_network_agent.Prelude.{
  ℕ, String, ◌≡◌, refl, ap, ◌∙◌, ◌⊎◌, inl, inr, Bool, true, false, ◌&&◌, Option, none, some, List,
  [], arith, if◌then◌else◌, Bool-cases, Comparable, nat_eq, string_eq, bool_eq, pair_eq, All,
  contains, ℤ, pos, int_leb, int_eq,
}
use ovn_network_agent.Net.{Net}
use ovn_network_agent.Config.{Config}
use ovn_network_agent.Config.Options.{Value, text, truth, number, texts, forwards, config_options}
use ovn_network_agent.Reload.{FileChanges, ReloadPlan, plan_reload, Planned, planned, refused}
use ovn_network_agent.Reload.Apply.{Agent, apply_reload, handle_reload, after_plan}
use ovn_network_agent.Reload.Plan.{Treated}
use ovn_network_agent.Reload.Validated.{IsValidated, plan_reload-IsValidated}
use ovn_network_agent.Reload.Options.{plan_reload-Treated, drop, All-drop}

-- The configuration is validated, and what was set from it follows it.
pub record IsCoherent (net : Net) (a : Agent) : Type 0 where
  pub validated : IsValidated net a.cfg
  pub routing : a.routing_cfg ≡ a.cfg
  pub settle_delay : (a.has_ovn ≡ false) ⊎ (a.ovn_drain_settle_delay ≡ a.cfg.drain_settle_delay)
  pub no_tracking :
      (int_leb a.cfg.stale_chassis_grace_period (pos 0) ≡ false) ⊎ (a.missing_chassis ≡ [])
  pub level : a.log_level ≡ a.cfg.log_level

-- What follows a field that is set if its key is applied, and kept if it is not.
settled :
    (b on : Bool) (m n r old : ℤ)
    → number m ≡ (if b then number n else number r)
    → (on ≡ false) ⊎ (old ≡ r)
    → (on ≡ false) ⊎ ((if b && on then m else old) ≡ m)
settled b false m n r old h e = inl refl
settled true true m n r old h e = inr refl
settled false true m n r old h (inl e) = inl e
settled false true m n r old h (inr e) = inr (ground arith)

off_at : Value → Bool
off_at (number n) = int_leb n (pos 0)
off_at (text s) = false
off_at (truth b) = false
off_at (texts l) = false
off_at (forwards l) = false

untracked :
    (b : Bool) (m n r : ℤ) (l : List (String × ℕ))
    → number m ≡ (if b then number n else number r)
    → (int_leb r (pos 0) ≡ false) ⊎ (l ≡ [])
    → (int_leb m (pos 0) ≡ false) ⊎ ((if b && int_leb m (pos 0) then [] else l) ≡ [])
unfolding off_at
untracked true m n r l h e = elim (Bool-cases (int_leb m (pos 0))) [
  | inl off ↦ inr (rw off)
  | inr on ↦ inl on
]
untracked false m n r l h (inl on) = inl (ap off_at h ∙ on)
untracked false m n r l h (inr none_left) = inr none_left

levelled :
    (b : Bool) (m n r old : String)
    → text m ≡ (if b then text n else text r)
    → old ≡ r
    → (if b then m else old) ≡ m
levelled true m n r old h e = refl
levelled false m n r old h e = ground arith

module _ (net : Net) ⦃deep : Comparable Value⦄ where
  apply-IsCoherent :
      (a : Agent) (p : ReloadPlan) (next : Config) (cert : Option String)
      → IsCoherent net a
      → IsValidated net p.merged
      → All (Treated a.cfg next p) config_options
      → IsCoherent net (apply_reload a p cert).0
  unfolding apply_reload config_options drop
  apply-IsCoherent a p next cert c v t =
      let level = (All-drop (Treated a.cfg next p) 17 config_options t).0 in
      let delay = (All-drop (Treated a.cfg next p) 22 config_options t).0 in
      let grace = (All-drop (Treated a.cfg next p) 24 config_options t).0 in
      record {
        validated = v;
        routing = refl;
        settle_delay =
            settled (contains p.applied "drain_settle_delay") a.has_ovn p.merged.drain_settle_delay
              next.drain_settle_delay a.cfg.drain_settle_delay a.ovn_drain_settle_delay delay.0
              c.settle_delay;
        no_tracking =
            untracked (contains p.applied "stale_chassis_grace_period")
              p.merged.stale_chassis_grace_period next.stale_chassis_grace_period
              a.cfg.stale_chassis_grace_period a.missing_chassis grace.0 c.no_tracking;
        level =
            levelled (contains p.applied "log_level") p.merged.log_level next.log_level
              a.cfg.log_level a.log_level level.0 c.level;
      }

  after_plan-IsCoherent :
      (a : Agent) (next : Config) (files : FileChanges) (cert : Option String) (r : Planned)
      → IsCoherent net a
      → plan_reload net a.cfg next files ≡ r
      → IsCoherent net (after_plan net a cert r).0
  unfolding after_plan
  after_plan-IsCoherent a next files cert (refused e) c h = c
  after_plan-IsCoherent a next files cert (planned p) c h =
      apply-IsCoherent a p next cert c (plan_reload-IsValidated net a.cfg next files p h)
        (plan_reload-Treated net a.cfg next files p c.validated h)

  -- However the configuration is loaded, a reload keeps the agent coherent: its configuration is
  -- one that validation accepts as it is, the routing layer has the same one, and the drain delay
  -- of an OVN client, the log level, and the tracking of missing chassis, which is empty while its
  -- grace period is off, follow it.
  pub handle_reload-IsCoherent :
      (a : Agent) (loaded : Option Config) (files : FileChanges) (cert : Option String)
      → IsCoherent net a
      → IsCoherent net (handle_reload net a loaded files cert).0
  unfolding handle_reload
  handle_reload-IsCoherent a none files cert c = c
  handle_reload-IsCoherent a (some next) files cert c =
      after_plan-IsCoherent a next files cert (plan_reload net a.cfg next files) c refl
