-- ===== src/Examples/StaleExamples.antt =====
-- Tests of the stale-chassis cleanup of agent.go.
use ovn_network_agent.Prelude.{
  ◌≡◌, refl, true, not, some, [], ◌∷◌, arith, nat_eq, string_eq, bool_eq, pair_eq, all, contains,
  int_eq,
}
use ovn_network_agent.Agent.Stale.{
  StalePass, Missing, track_one, track, prune, exceeded, cleanup_stale_chassis, stale_passes,
}
use ovn_network_agent.Agent.Stale.Passes.{seen_spared}

-- the first pass sees both chassis
abbrev both : StalePass
both = record {
  referenced = some ("net1" ∷ "net2" ∷ []);
  all_chassis = "net1" ∷ "net2" ∷ [];
  now = 1000;
  cleanup_ok = true;
}

abbrev without_net2 : StalePass
without_net2 = record {
  referenced = some ("net1" ∷ "net2" ∷ []);
  all_chassis = "net1" ∷ [];
  now = 1010;
  cleanup_ok = true;
}

-- still within the grace period after the first pass
abbrev within_grace : StalePass
within_grace = record {
  referenced = some ("net1" ∷ "net2" ∷ []);
  all_chassis = "net1" ∷ [];
  now = 1310;
  cleanup_ok = true;
}

-- after the grace period
abbrev overdue : StalePass
overdue = record {
  referenced = some ("net1" ∷ "net2" ∷ []);
  all_chassis = "net1" ∷ [];
  now = 1320;
  cleanup_ok = true;
}

-- net2 was tracked since long before
abbrev tracked : Missing
tracked = ("net2", 100) ∷ []

stale_after_grace :
    stale_passes 300 10 (both ∷ without_net2 ∷ within_grace ∷ overdue ∷ []) tracked
    ≡ ([], [] ∷ [] ∷ [] ∷ ("net2" ∷ []) ∷ [])
unfolding stale_passes cleanup_stale_chassis exceeded prune track track_one
stale_after_grace = refl

seen_spared_example :
    all
      (λ stale. not (contains stale "net2"))
      (stale_passes 300 20 (both ∷ without_net2 ∷ within_grace ∷ []) tracked).1
    ≡ true
seen_spared_example =
    seen_spared 300 20 "net2" both ("net1" ∷ "net2" ∷ []) (without_net2 ∷ within_grace ∷ []) tracked
      (omega arith) refl refl refl
