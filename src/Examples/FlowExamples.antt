-- ===== src/Examples/FlowExamples.antt =====
-- Tests of the flow planes, on a table that is a function.
use ovn_network_agent.Prelude.{
  String, ◌≡◌, refl, ap, true, false, ◌||◌, not, Option, none, some, List, [], ◌∷◌, if◌then◌else◌,
  ◌==◌, nat_eq, string_eq, bool_eq, pair_eq, any, all, lookup, Nodup, sort_by, int_eq,
}
use ovn_network_agent.FlowPlane.{
  in_phases, FlowKey, key_eq, DesiredFlow, delete_match, FlowCommand, add_flow, add_flows, del_flow,
  current_from, plane_adds, wanted_keys, plane_dels, apply_flow_adds, reconcile_flow_plane,
}
use ovn_network_agent.FlowPlane.Sorting.{over}
use ovn_network_agent.FlowPlane.Switch.{Switch, run, last_flow}
use ovn_network_agent.FlowPlane.Converge.{desired_at, flow-reconcile_flow_plane}
use ovn_network_agent.FlowPlane.Safety.{deletes, is_delete, wanted_stay, failures_reported}

abbrev pub table_exec : FlowCommand → (FlowKey → Option String) → FlowKey → Option String
table_exec (add_flow d) s k = if k == d.key then some d.actions else s k
table_exec (add_flows bundle ds) s k = over (last_flow k ds) (s k)
table_exec (del_flow j) s k = if k == j then none else s k

abbrev pub table_switch : Switch
table_switch = record {
  State = FlowKey → Option String;
  flow_at = λ s k. s k;
  exec = table_exec;
  flow-add_flow = λ s d k. refl;
  flow-add_flows = λ s bundle ds k. refl;
  flow-del_flow = λ s j k. refl;
}

abbrev hairpin : String → FlowKey
hairpin dst = record { priority = 910; ipv6 = false; in_port = "1"; dst = dst }

abbrev flow : String → DesiredFlow
flow dst = record { key = hairpin dst; actions = "output:in_port"; spec = dst }

abbrev desired : List DesiredFlow
desired = flow "192.0.2.11" ∷ flow "192.0.2.10" ∷ []

-- one flow is right, one is stale
abbrev dump : List (FlowKey × String)
dump = (hairpin "192.0.2.10", "output:in_port") ∷ (hairpin "192.0.2.99", "drop") ∷ []

abbrev before : FlowKey → Option String
before k = lookup k dump

delete_text :
    delete_match "0x998" (hairpin "192.0.2.99")
    ≡ "cookie=0x998/-1,priority=910,ip,in_port=1,nw_dst=192.0.2.99"
unfolding delete_match
delete_text = refl

reconcile_of_a_run :
    reconcile_flow_plane "0x998" (some dump) desired true true (λ c. true)
    ≡ (add_flows true (flow "192.0.2.11" ∷ []) ∷ del_flow (hairpin "192.0.2.99") ∷ [], false)
unfolding reconcile_flow_plane in_phases plane_adds plane_dels sort_by current_from apply_flow_adds
reconcile_of_a_run = refl

desired-Nodup : Nodup (wanted_keys desired)
desired-Nodup = (refl, (refl, tt))

flow-reconcile_flow_plane_example :
    table_switch.flow_at
      (run table_switch
        (reconcile_flow_plane "0x998" (some dump) desired true true (λ c. true)).0
        before)
      (hairpin "192.0.2.99")
    ≡ desired_at (hairpin "192.0.2.99") desired
unfolding current_from
flow-reconcile_flow_plane_example =
    flow-reconcile_flow_plane table_switch before "0x998" dump desired true true (λ c. true)
      (hairpin "192.0.2.99") desired-Nodup refl (ap (λ r. r.1) reconcile_of_a_run)

wanted_stay_example :
    any
      (deletes (hairpin "192.0.2.10"))
      (reconcile_flow_plane "0x998" (some dump) desired true true (λ c. true)).0
    ≡ false
wanted_stay_example =
    wanted_stay "0x998" (some dump) desired true true (λ c. true) (hairpin "192.0.2.10") refl

failures_reported_example :
    let (cs, failed) = reconcile_flow_plane "0x998" (some dump) desired true true is_delete in
    (failed ≡ not (all is_delete cs))
    × ((not (any is_delete cs) || all (λ c. is_delete c || is_delete c) cs) ≡ true)
failures_reported_example = failures_reported "0x998" dump desired true true is_delete
