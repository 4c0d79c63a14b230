-- ===== src/FlowPlane/Switch.antt =====
-- What the commands do to the flow table of a bridge: an add replaces the entry of its key, a strict
-- delete takes away the entry of its key and no other.
use ovn_network_agent.Prelude.{
  String, ◌≡◌, refl, ◌∙◌, Bool, true, false, ◌||◌, Option, none, some, List, [], ◌∷◌, ◌++◌, map,
  arith, if◌then◌else◌, ◌==◌, nat_eq, string_eq, bool_eq, pair_eq, contains,
}
use ovn_network_agent.FlowPlane.{
  FlowKey, key_eq, DesiredFlow, FlowCommand, add_flow, add_flows, del_flow, apply_flow_adds,
  del_commands,
}
use ovn_network_agent.FlowPlane.Sorting.{last_for, over}

abbrev pub last_flow : FlowKey → List DesiredFlow → Option String
last_flow k ds = last_for (λ d. d.key) (λ d. d.actions) k ds

pub record Switch : Type 1 where
  pub State : Type 0
  pub flow_at : State → FlowKey → Option String
  pub exec : FlowCommand → State → State
  pub flow-add_flow :
      (s : State) (d : DesiredFlow) (k : FlowKey)
      → flow_at (exec (add_flow d) s) k ≡ (if k == d.key then some d.actions else flow_at s k)
  pub flow-add_flows :
      (s : State) (bundle : Bool) (ds : List DesiredFlow) (k : FlowKey)
      → flow_at (exec (add_flows bundle ds) s) k ≡ over (last_flow k ds) (flow_at s k)
  pub flow-del_flow :
      (s : State) (j k : FlowKey)
      → flow_at (exec (del_flow j) s) k ≡ (if k == j then none else flow_at s k)

over_if :
    (last : Option String) (same : Bool) (actions : String) (old : Option String)
    → over last (if same then some actions else old)
      ≡ over (elim last [ none ↦ if same then some actions else none | some a ↦ some a ]) old
over_if none true actions old = refl
over_if none false actions old = refl
over_if (some a) same actions old = refl

if_twice :
    (same later : Bool) (old : Option String)
    → (if later then none else if same then none else old) ≡ (if same || later then none else old)
if_twice same later old = ground arith

module _ (sw : Switch) where
  unfoldable pub run : List FlowCommand → sw.State → sw.State
  run [] s = s
  run (c ∷ cs) s = run cs (sw.exec c s)

  pub run-append : (cs ds : List FlowCommand) (s : sw.State) → run (cs ++ ds) s ≡ run ds (run cs s)
  unfolding run
  run-append [] ds s = refl
  run-append (c ∷ cs) ds s = run-append cs ds (sw.exec c s)

  flow-run-singles :
      (ds : List DesiredFlow) (s : sw.State) (k : FlowKey)
      → sw.flow_at (run (map add_flow ds) s) k ≡ over (last_flow k ds) (sw.flow_at s k)
  unfolding run
  flow-run-singles [] s k = refl
  flow-run-singles (d ∷ ds) s k =
      flow-run-singles ds (sw.exec (add_flow d) s) k
      ∙ rw (sw.flow-add_flow s d k)
          (over_if (last_flow k ds) (k == d.key) d.actions (sw.flow_at s k))

  -- Either way of adding leaves the same table.
  pub flow-run-adds :
      (stdin_ok bundle : Bool) (ds : List DesiredFlow) (s : sw.State) (k : FlowKey)
      → sw.flow_at (run (apply_flow_adds stdin_ok bundle ds) s) k
        ≡ over (last_flow k ds) (sw.flow_at s k)
  unfolding apply_flow_adds run
  flow-run-adds stdin_ok bundle [] s k = refl
  flow-run-adds true bundle (d ∷ ds) s k = sw.flow-add_flows s bundle (d ∷ ds) k
  flow-run-adds false bundle (d ∷ ds) s k = flow-run-singles (d ∷ ds) s k

  pub flow-run-dels :
      (ks : List FlowKey) (s : sw.State) (k : FlowKey)
      → sw.flow_at (run (del_commands ks) s) k ≡ (if contains ks k then none else sw.flow_at s k)
  unfolding run
  flow-run-dels [] s k = refl
  flow-run-dels (j ∷ ks) s k =
      flow-run-dels ks (sw.exec (del_flow j) s) k
      ∙ rw (sw.flow-del_flow s j k) (if_twice (k == j) (contains ks k) (sw.flow_at s k))
