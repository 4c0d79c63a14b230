-- ===== src/Examples/GatewayExamples.antt =====
-- Tests of the priorities of gateways: drain, restore and the lead of the active chassis.
use ovn_network_agent.Prelude.{
  ℕ, ◌≤◌, String, ◌≡◌, refl, true, false, ◌||◌, not, none, some, List, [], ◌∷◌, map, ltb, ◌==◌,
  nat_eq, string_eq, bool_eq, pair_eq, filter, all, lookup, Nodup, int_eq,
}
use ovn_network_agent.Ovn.State.{LocalRouterInfo}
use ovn_network_agent.Gateway.{
  is_local, GatewayChassis, restore_drained_gateways, drain_gateways, Poll, drain_wait,
  sole_candidate_ports, recovered, NbClient, built, migrated, filter_drain_candidates,
  without_sole_candidates,
}
use ovn_network_agent.Gateway.Rows.{updated, uuids, with_priority}
use ovn_network_agent.Gateway.Drain.{
  lowered, rejoined, drain_gateways-rows, drain_gateways-recovered, restore-drain_gateways,
}
use ovn_network_agent.Gateway.Returns.{drained_iff}
use ovn_network_agent.Gateway.Lead.{
  HaGroup, Lead, groups_from, boosts, lead_of, ensure_active_priority_lead, bound_elsewhere,
  merged_rows, gw_chassis_lrp_name,
}
use ovn_network_agent.Gateway.Lead.Margin.{gets, is_peer, boosts_lead}
use ovn_network_agent.Gateway.Lead.Raise.{raises, boosts_only_raise}

-- `lrp-1` has a standby on `net2`, `lrp-2` has none
abbrev pub two_routers : List LocalRouterInfo
two_routers =
    record {
      router_name = "r1";
      router_uuid = "u1";
      lrp_name = "lrp-1";
      lrp_uuid = "p1";
      lrp_mac = "fa:16:3e:00:00:01";
      lrp_networks = "192.0.2.1/24" ∷ [];
      cr_port = "cr-lrp-1";
      segment = none;
      gateway_chassis_uuids = "g1" ∷ "g2" ∷ [];
    }
    ∷ record {
      router_name = "r2";
      router_uuid = "u2";
      lrp_name = "lrp-2";
      lrp_uuid = "p2";
      lrp_mac = "fa:16:3e:00:00:02";
      lrp_networks = "198.51.100.1/24" ∷ [];
      cr_port = "cr-lrp-2";
      segment = none;
      gateway_chassis_uuids = "g3" ∷ [];
    }
    ∷ []

abbrev row : String → String → String → ℕ → GatewayChassis
row uuid name chassis p = record { uuid = uuid; name = name; chassis_name = chassis; priority = p }

abbrev gateway_rows : List GatewayChassis
gateway_rows =
    row "g1" "lrp-1_net1" "net1" 2
    ∷ row "g2" "lrp-1_net2" "net2" 3
    ∷ row "g3" "lrp-2_net1" "net1" 5
    ∷ []

rows_Nodup : Nodup (uuids gateway_rows)
rows_Nodup = (refl, (refl, (refl, tt)))

abbrev nb : NbClient
nb = record { builds = λ u. true; transacts = true }

abbrev nb_failing : NbClient
nb_failing = record { builds = λ u. true; transacts = false }

-- the update of `g1` cannot be built
abbrev nb_without_g1 : NbClient
nb_without_g1 = record { builds = λ u. not (u == "g1"); transacts = false }

abbrev done : List Poll
done =
    record { remaining = some 1; deadline = false }
    ∷ record { remaining = some 0; deadline = false }
    ∷ []

drain_of_a_run :
    (drain_gateways (some gateway_rows) none two_routers "net1" nb done).updates ≡ ("g1", 0) ∷ []
unfolding drain_gateways recovered filter_drain_candidates without_sole_candidates
    sole_candidate_ports drain_wait built
drain_of_a_run = refl

drain_gateways-rows_example :
    map
      (updated (drain_gateways (some gateway_rows) none two_routers "net1" nb done).updates)
      gateway_rows
    ≡ with_priority (lowered nb "net1" (sole_candidate_ports two_routers).gc_uuids) 0 gateway_rows
unfolding is_local
drain_gateways-rows_example =
    drain_gateways-rows gateway_rows none two_routers "net1" nb done rows_Nodup refl

-- the cache has only the row of the peer
drain_gateways-recovered_example :
    map
      (updated
        (drain_gateways
          (some (row "g2" "lrp-1_net2" "net2" 3 ∷ []))
          (some (filter (is_local "net1") gateway_rows))
          two_routers
          "net1"
          nb
          done).updates)
      gateway_rows
    ≡ with_priority (lowered nb "net1" (sole_candidate_ports two_routers).gc_uuids) 0 gateway_rows
unfolding is_local
drain_gateways-recovered_example =
    drain_gateways-recovered (row "g2" "lrp-1_net2" "net2" 3 ∷ []) gateway_rows two_routers "net1"
      nb done rows_Nodup refl

restore-drain_gateways_example :
    let left =
      map
        (updated (drain_gateways (some gateway_rows) none two_routers "net1" nb done).updates)
        gateway_rows in
    map (updated (restore_drained_gateways (some left) none "net1" (λ u. true))) left
    ≡ map (rejoined nb (λ u. true) "net1" (sole_candidate_ports two_routers).gc_uuids) gateway_rows
unfolding is_local
restore-drain_gateways_example =
    restore-drain_gateways gateway_rows none two_routers "net1" nb done (λ u. true) rows_Nodup refl

-- no transaction is run, and the drain goes on to its wait
drained_without_update :
    let result = drain_gateways (some gateway_rows) none two_routers "net1" nb_without_g1 done in
    (result.updates ≡ []) × (result.drained ≡ true) × (result.end ≡ migrated)
unfolding drain_gateways recovered filter_drain_candidates without_sole_candidates
    sole_candidate_ports drain_wait built
drained_without_update = (refl, refl, refl)

-- the transaction fails
drained_iff_example :
    (drain_gateways (some gateway_rows) none two_routers "net1" nb_failing done).drained ≡ false
unfolding is_local sole_candidate_ports
drained_iff_example = drained_iff gateway_rows none two_routers "net1" nb_failing done

abbrev cx : Lead
cx = lead_of two_routers (some (("cr-lrp-1", "net1") ∷ [])) "net1"

lead_of_a_run :
    ensure_active_priority_lead two_routers
      (some gateway_rows)
      none
      (some (("cr-lrp-1", "net1") ∷ []))
      "net1"
    ≡ some (("g1", 4) ∷ [])
unfolding ensure_active_priority_lead merged_rows lead_of groups_from boosts gw_chassis_lrp_name
    bound_elsewhere
lead_of_a_run = refl

abbrev group_1 : HaGroup
group_1 = record { local = some (row "g1" "lrp-1_net1" "net1" 2); max_peer = some 3 }

found_1 : lookup "lrp-1" (groups_from cx [] gateway_rows) ≡ some group_1
unfolding lead_of groups_from gw_chassis_lrp_name
found_1 = refl

bound_here : bound_elsewhere cx "lrp-1" ≡ false
unfolding bound_elsewhere lead_of
bound_here = refl

boosts_lead_example :
    (p : ℕ) × (gets (boosts cx (groups_from cx [] gateway_rows)) (row "g1" "lrp-1_net1" "net1" 2) p
      ≡ true)
    × (2 ≤ p)
    × (all (λ g. not (is_peer cx "lrp-1" g) || ltb g.priority p) gateway_rows ≡ true)
boosts_lead_example =
    boosts_lead cx gateway_rows "lrp-1" group_1 (row "g1" "lrp-1_net1" "net1" 2) 3 refl found_1 refl
      refl bound_here

boosts_only_raise_example :
    all (raises "net1" gateway_rows) (boosts cx (groups_from cx [] gateway_rows)) ≡ true
unfolding lead_of
boosts_only_raise_example = boosts_only_raise cx gateway_rows
