-- ===== src/FlowPlane/Converge.antt =====
-- A reconcile makes the flows of the bridge those that are desired.
use ovn_network_agent.Prelude.{
  String, ◌≡◌, refl, ap, ◌∙◌, Bool, false, ◌&&◌, not, Option, none, some, List, [], ◌∷◌, ◌++◌,
  arith, if◌then◌else◌, is_some, ◌==◌, nat_eq, string_eq, bool_eq, pair_eq, filter, contains,
  contains-filter, lookup, keys, contains-keys, Nodup,
}
use ovn_network_agent.FlowPlane.{
  FlowKey, key_eq, DesiredFlow, delete_match, FlowCommand, current_from, is_installed, plane_adds,
  wanted_keys, plane_dels, apply_flow_adds, del_commands, reconcile_flow_plane, in_phases,
}
use ovn_network_agent.FlowPlane.Sorting.{
  first_for, over, holds, over-missing, last_for-sort_by, last_for-first, first_for-contains,
  contains-sort_by_self, Nodup-filter_keys,
}
use ovn_network_agent.FlowPlane.Switch.{
  Switch, run, run-append, last_flow, flow-run-adds, flow-run-dels,
}

abbrev pub key_of : DesiredFlow → FlowKey
key_of d = d.key

abbrev pub actions_of : DesiredFlow → String
actions_of d = d.actions

-- the actions that are desired at a key
abbrev pub desired_at : FlowKey → List DesiredFlow → Option String
desired_at k ds = first_for key_of actions_of k ds

filter-ext :
    (p q : DesiredFlow → Bool) (ds : List DesiredFlow)
    → ((d : DesiredFlow) → p d ≡ q d)
    → filter p ds ≡ filter q ds
filter-ext p q [] h = refl
filter-ext p q (d ∷ ds) h = ground (arith, h d, filter-ext p q ds h)

installed_holds :
    (o : Option String) (v : String)
    → (elim o [ none ↦ false | some a ↦ a == v ]) ≡ holds key_of actions_of o v
installed_holds none v = refl
installed_holds (some a) v = refl

pub over-plane_adds :
    (current : List (FlowKey × String)) (desired : List DesiredFlow) (k : FlowKey)
    → Nodup (wanted_keys desired)
    → over (last_flow k (plane_adds current desired)) (lookup k current)
      ≡ over (desired_at k desired) (lookup k current)
unfolding plane_adds
over-plane_adds current desired k n =
    let p = λ (d : DesiredFlow). not (is_installed current d) in
    let q = λ (d : DesiredFlow). not (holds key_of actions_of (lookup d.key current) d.actions) in
    let ext =
      filter-ext p q desired (λ d. ap not (installed_holds (lookup d.key current) d.actions)) in
    let missing = filter q desired in
    let nodup = Nodup-filter_keys key_of actions_of q desired n in
    rw
      (
        ext,
        last_for-sort_by key_of actions_of (λ d. d.spec) missing k nodup,
        last_for-first key_of actions_of k missing nodup,
      )
      (over-missing key_of actions_of (λ j. lookup j current) k desired n)

pub contains-plane_dels :
    (cookie : String) (current : List (FlowKey × String)) (desired : List DesiredFlow) (k : FlowKey)
    → contains (plane_dels cookie current desired) k
      ≡ (is_some (lookup k current) && not (contains (wanted_keys desired) k))
unfolding plane_dels
contains-plane_dels cookie current desired k =
    let stale = λ (j : FlowKey). not (contains (wanted_keys desired) j) in
    contains-sort_by_self (delete_match cookie) (filter stale (keys current)) k
    ∙ contains-filter stale (keys current) k
    ∙ ap (λ b. b && stale k) (contains-keys k current)

settled :
    (wanted look : Option String) (listed asked : Bool)
    → is_some wanted ≡ asked
    → listed ≡ (is_some look && not asked)
    → (if listed then none else over wanted look) ≡ wanted
settled none none listed asked w l = ground arith
settled none (some a) listed asked w l = ground arith
settled (some v) none listed asked w l = ground arith
settled (some v) (some a) listed asked w l = ground arith

taken :
    (succeeds : FlowCommand → Bool) (adds dels : List FlowCommand)
    → (in_phases succeeds adds dels).1 ≡ false
    → (in_phases succeeds adds dels).0 ≡ adds ++ dels
unfolding in_phases
taken succeeds adds dels h = ground arith

flow-both_phases :
    (sw : Switch) (s : sw.State) (cookie : String) (current : List (FlowKey × String))
    (desired : List DesiredFlow) (stdin_ok bundle : Bool) (k : FlowKey)
    → Nodup (wanted_keys desired)
    → lookup k current ≡ sw.flow_at s k
    → sw.flow_at
        (run sw
          (apply_flow_adds stdin_ok bundle (plane_adds current desired)
            ++ del_commands (plane_dels cookie current desired))
          s)
        k
      ≡ desired_at k desired
flow-both_phases sw s cookie current desired stdin_ok bundle k n right =
    let adds = apply_flow_adds stdin_ok bundle (plane_adds current desired) in
    let dels = plane_dels cookie current desired in
    rw
      (
        run-append sw adds (del_commands dels) s,
        flow-run-dels sw dels (run sw adds s) k,
        flow-run-adds sw stdin_ok bundle (plane_adds current desired) s k,
        ← right,
        over-plane_adds current desired k n,
      )
      (settled (desired_at k desired) (lookup k current) (contains dels k)
        (contains (wanted_keys desired) k) (first_for-contains key_of actions_of k desired)
        (contains-plane_dels cookie current desired k))

-- With distinct keys of the desired flows, a dump that is right about the key, and no error
-- returned: after a reconcile of a flow plane the bridge has at the key the desired flow if there
-- is one, and no flow otherwise.
pub flow-reconcile_flow_plane :
    (sw : Switch) (s : sw.State) (cookie : String) (dump : List (FlowKey × String))
    (desired : List DesiredFlow) (stdin_ok bundle : Bool) (succeeds : FlowCommand → Bool)
    (k : FlowKey)
    → Nodup (wanted_keys desired)
    → lookup k (current_from dump []) ≡ sw.flow_at s k
    → (reconcile_flow_plane cookie (some dump) desired stdin_ok bundle succeeds).1 ≡ false
    → sw.flow_at
        (run sw (reconcile_flow_plane cookie (some dump) desired stdin_ok bundle succeeds).0 s)
        k
      ≡ desired_at k desired
unfolding reconcile_flow_plane
flow-reconcile_flow_plane sw s cookie dump desired stdin_ok bundle succeeds k n right ok =
    let current = current_from dump [] in
    let adds = apply_flow_adds stdin_ok bundle (plane_adds current desired) in
    let dels = del_commands (plane_dels cookie current desired) in
    ap (λ cs. sw.flow_at (run sw cs s) k) (taken succeeds adds dels ok)
    ∙ flow-both_phases sw s cookie current desired stdin_ok bundle k n right
