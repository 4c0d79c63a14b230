-- ===== src/FlowPlane/Safety.antt =====
-- What a reconcile never does, whatever fails.
use ovn_network_agent.Prelude.{
  String, ◌≡◌, refl, ap, ◌∙◌, Bool, true, false, ◌&&◌, ◌||◌, not, Option, none, some, List, [], ◌∷◌,
  map, arith, is_some, ◌==◌, nat_eq, string_eq, bool_eq, pair_eq, any, all, all-append, any-append,
  contains, lookup,
}
use ovn_network_agent.FlowPlane.{
  in_phases, FlowKey, key_eq, DesiredFlow, FlowCommand, add_flow, add_flows, del_flow, current_from,
  plane_adds, wanted_keys, plane_dels, apply_flow_adds, del_commands, reconcile_flow_plane,
}
use ovn_network_agent.FlowPlane.Converge.{contains-plane_dels}

-- the command deletes the flow of a key
abbrev pub deletes : FlowKey → FlowCommand → Bool
deletes k (add_flow d) = false
deletes k (add_flows bundle ds) = false
deletes k (del_flow j) = k == j

abbrev pub is_delete : FlowCommand → Bool
is_delete (del_flow j) = true
is_delete _ = false

any-dels : (ks : List FlowKey) (k : FlowKey) → any (deletes k) (del_commands ks) ≡ contains ks k
any-dels [] k = refl
any-dels (j ∷ ks) k = ap (λ b. k == j || b) (any-dels ks k)

any-singles :
    (p : FlowCommand → Bool) (ds : List DesiredFlow)
    → ((d : DesiredFlow) → p (add_flow d) ≡ false)
    → any p (map add_flow ds) ≡ false
any-singles p [] h = refl
any-singles p (d ∷ ds) h = ground (arith, h d, any-singles p ds h)

any-adds :
    (p : FlowCommand → Bool) (stdin_ok bundle : Bool) (ds : List DesiredFlow)
    → ((d : DesiredFlow) → p (add_flow d) ≡ false)
    → ((batch : List DesiredFlow) → p (add_flows bundle batch) ≡ false)
    → any p (apply_flow_adds stdin_ok bundle ds) ≡ false
unfolding apply_flow_adds
any-adds p stdin_ok bundle [] single batch = refl
any-adds p true bundle (d ∷ ds) single batch = ground (arith, batch (d ∷ ds))
any-adds p false bundle (d ∷ ds) single batch = any-singles p (d ∷ ds) single

and_false : (b : Bool) → (b && not true) ≡ false
and_false b = ground arith

any-in_phases :
    (p succeeds : FlowCommand → Bool) (adds dels : List FlowCommand)
    → any p adds ≡ false
    → any p dels ≡ false
    → any p (in_phases succeeds adds dels).0 ≡ false
unfolding in_phases
any-in_phases p succeeds adds dels a d = ground (arith, any-append p adds dels)

-- No command of a reconcile deletes a flow at a key that is desired, whatever the dump says and
-- whatever fails.
pub wanted_stay :
    (cookie : String) (dump : Option (List (FlowKey × String))) (desired : List DesiredFlow)
    (stdin_ok bundle : Bool) (succeeds : FlowCommand → Bool) (k : FlowKey)
    → contains (wanted_keys desired) k ≡ true
    → any (deletes k) (reconcile_flow_plane cookie dump desired stdin_ok bundle succeeds).0 ≡ false
unfolding reconcile_flow_plane
wanted_stay cookie none desired stdin_ok bundle succeeds k want = refl
wanted_stay cookie (some dump) desired stdin_ok bundle succeeds k want =
    let current = current_from dump [] in
    let adds = apply_flow_adds stdin_ok bundle (plane_adds current desired) in
    let dels = plane_dels cookie current desired in
    let spared : contains dels k ≡ false =
      contains-plane_dels cookie current desired k
      ∙ rw want (and_false (is_some (lookup k current))) in
    any-in_phases (deletes k) succeeds adds (del_commands dels)
      (any-adds (deletes k) stdin_ok bundle (plane_adds current desired) (λ d. refl) (λ b. refl))
      (any-dels dels k ∙ spared)

all-weaker :
    (succeeds : FlowCommand → Bool) (cs : List FlowCommand)
    → all succeeds cs ≡ true
    → all (λ c. is_delete c || succeeds c) cs ≡ true
all-weaker succeeds [] h = refl
all-weaker succeeds (c ∷ cs) h = ground (arith, all-weaker succeeds cs)

all-deletes :
    (succeeds : FlowCommand → Bool) (cs : List FlowCommand)
    → all is_delete cs ≡ true
    → all (λ c. is_delete c || succeeds c) cs ≡ true
all-deletes succeeds [] h = refl
all-deletes succeeds (c ∷ cs) h = ground (arith, all-deletes succeeds cs)

all-del_commands : (ks : List FlowKey) → all is_delete (del_commands ks) ≡ true
all-del_commands [] = refl
all-del_commands (k ∷ ks) = all-del_commands ks

two_phases :
    (succeeds : FlowCommand → Bool) (adds dels : List FlowCommand)
    → any is_delete adds ≡ false
    → all is_delete dels ≡ true
    → let (cs, failed) = in_phases succeeds adds dels in
      (failed ≡ not (all succeeds cs))
      × ((not (any is_delete cs) || all (λ c. is_delete c || succeeds c) cs) ≡ true)
unfolding in_phases
two_phases succeeds adds dels a d = ground (
  arith,
  all-append succeeds adds dels,
  any-append is_delete adds dels,
  all-append (λ c. is_delete c || succeeds c) adds dels,
  all-weaker succeeds adds,
  all-deletes succeeds dels d,
)

-- With a dump, a reconcile of a flow plane returns an error exactly if a command that it ran
-- failed, and runs a delete only if every add succeeded.
pub failures_reported :
    (cookie : String) (dump : List (FlowKey × String)) (desired : List DesiredFlow)
    (stdin_ok bundle : Bool) (succeeds : FlowCommand → Bool)
    → let (cs, failed) = reconcile_flow_plane cookie (some dump) desired stdin_ok bundle succeeds in
      (failed ≡ not (all succeeds cs))
      × ((not (any is_delete cs) || all (λ c. is_delete c || succeeds c) cs) ≡ true)
unfolding reconcile_flow_plane
failures_reported cookie dump desired stdin_ok bundle succeeds =
    let current = current_from dump [] in
    two_phases succeeds (apply_flow_adds stdin_ok bundle (plane_adds current desired))
      (del_commands (plane_dels cookie current desired))
      (any-adds is_delete stdin_ok bundle (plane_adds current desired) (λ d. refl) (λ b. refl))
      (all-del_commands (plane_dels cookie current desired))
