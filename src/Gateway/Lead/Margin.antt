-- ===== src/Gateway/Lead/Margin.antt =====
-- The lead of the active chassis.
use ovn_network_agent.Prelude.{
  ℕ, ◌+◌, ◌≤◌, String, ◌≡◌, refl, inl, inr, Bool, true, false, ◌&&◌, ◌||◌, not, Option, none, some,
  List, [], ◌∷◌, arith, ltb, leb, if◌then◌else◌, Option-cases, ◌==◌, nat_eq, string_eq, bool_eq,
  pair_eq, all, contains, contains-append, lookup, lookup-insert,
}
use Prim.Native.Nat.{max}
use ovn_network_agent.Gateway.{GatewayChassis, is_local}
use ovn_network_agent.Gateway.Lead.{
  HaGroup, Lead, raised, grouped, or_new, add_row, groups_from, min_active_priority,
  bound_elsewhere, boost, boosts,
}

-- the group knows a peer of this priority or above
covers : Option HaGroup → ℕ → Bool
covers none p = false
covers (some grp) p = elim grp.max_peer [ none ↦ false | some m ↦ leb p m ]

covers-add_row :
    (cx : Lead) (groups : List (String × HaGroup)) (g : GatewayChassis) (lrp : String) (p : ℕ)
    → covers (lookup lrp groups) p ≡ true
    → covers (lookup lrp (add_row cx groups g)) p ≡ true
unfolding add_row covers grouped or_new raised is_local
covers-add_row cx groups g lrp p h =
    let name = cx.lrp_name_of g in
    elim (Option-cases (lookup name groups)) [
      | inl e ↦ ground (
        arith,
        lookup-insert name lrp (grouped cx.local_chassis g (or_new (lookup name groups))) groups,
        string_eq.same_iff lrp name,
      )
      | inr (grp, e) ↦ ground (
        arith,
        lookup-insert name lrp (grouped cx.local_chassis g (or_new (lookup name groups))) groups,
        string_eq.same_iff lrp name,
      )
    ]

covers-groups_from :
    (cx : Lead) (groups : List (String × HaGroup)) (rows : List GatewayChassis) (lrp : String)
    (p : ℕ)
    → covers (lookup lrp groups) p ≡ true
    → covers (lookup lrp (groups_from cx groups rows)) p ≡ true
unfolding groups_from
covers-groups_from cx groups [] lrp p h = h
covers-groups_from cx groups (g ∷ rows) lrp p h =
    covers-groups_from cx (add_row cx groups g) rows lrp p (covers-add_row cx groups g lrp p h)

-- a peer's own turn
covers-peer :
    (cx : Lead) (groups : List (String × HaGroup)) (g : GatewayChassis)
    → is_local cx.local_chassis g ≡ false
    → (cx.lrp_name_of g == "") ≡ false
    → covers (lookup (cx.lrp_name_of g) (add_row cx groups g)) g.priority ≡ true
unfolding add_row covers grouped or_new raised is_local
covers-peer cx groups g h ne =
    let name = cx.lrp_name_of g in
    elim (Option-cases (lookup name groups)) [
      | inl e ↦ ground (
        arith,
        lookup-insert name name (grouped cx.local_chassis g (or_new (lookup name groups))) groups,
        string_eq.same_iff name name,
      )
      | inr (grp, e) ↦ ground (
        arith,
        lookup-insert name name (grouped cx.local_chassis g (or_new (lookup name groups))) groups,
        string_eq.same_iff name name,
      )
    ]

-- a row of another chassis in the HA group of the port
abbrev pub is_peer : Lead → String → GatewayChassis → Bool
is_peer cx lrp g = not (is_local cx.local_chassis g) && lrp == cx.lrp_name_of g

peers_covered :
    (cx : Lead) (groups : List (String × HaGroup)) (rows : List GatewayChassis) (lrp : String)
    → (lrp == "") ≡ false
    → all
        (λ g. not (is_peer cx lrp g) || covers (lookup lrp (groups_from cx groups rows)) g.priority)
        rows
      ≡ true
unfolding groups_from
peers_covered cx groups [] lrp ne = refl
peers_covered cx groups (g ∷ rows) lrp ne = ground (
  arith,
  peers_covered cx (add_row cx groups g) rows lrp ne,
  covers-peer cx groups g,
  covers-groups_from cx (add_row cx groups g) rows lrp g.priority,
  string_eq.same_iff lrp (cx.lrp_name_of g),
)

-- the row has the priority, or the updates ask for it
abbrev pub gets : List (String × ℕ) → GatewayChassis → ℕ → Bool
gets ups me p = me.priority == p || contains ups (me.uuid, p)

-- the priority that leads peers of at most `m`
target : GatewayChassis → ℕ → ℕ
target me m = if ltb m me.priority && leb 2 me.priority then me.priority else max (m + 1) 2

gets-boost :
    (cx : Lead) (lrp : String) (me : GatewayChassis) (m : ℕ)
    → bound_elsewhere cx lrp ≡ false
    → gets (boost cx lrp (some me) (some m)) me (target me m) ≡ true
unfolding boost target min_active_priority
gets-boost cx lrp me m here = ground (
  arith,
  nat_eq.same_iff me.priority me.priority,
  string_eq.same_iff me.uuid me.uuid,
  nat_eq.same_iff (max (m + 1) 2) (max (m + 1) 2),
)

contains-boosts :
    (cx : Lead) (groups : List (String × HaGroup)) (lrp : String) (grp : HaGroup) (u : String × ℕ)
    → lookup lrp groups ≡ some grp
    → contains (boost cx lrp grp.local grp.max_peer) u ≡ true
    → contains (boosts cx groups) u ≡ true
unfolding boosts
contains-boosts cx [] lrp grp u found h = cc
contains-boosts cx ((name, g) ∷ groups) lrp grp u found h = ground (
  arith,
  contains-append (boost cx name g.local g.max_peer) (boosts cx groups) u,
  contains-boosts cx groups lrp grp u,
  string_eq.same_iff lrp name,
)

all-implies :
    (p q : GatewayChassis → Bool) (rows : List GatewayChassis)
    → ((g : GatewayChassis) → p g ≡ true → q g ≡ true)
    → all p rows ≡ true
    → all q rows ≡ true
all-implies p q [] imp h = refl
all-implies p q (g ∷ rows) imp h = ground (arith, imp g, all-implies p q rows imp)

covered_below :
    (grp : HaGroup) (me : GatewayChassis) (m p : ℕ)
    → grp.max_peer ≡ some m
    → covers (some grp) p ≡ true
    → ltb p (target me m) ≡ true
unfolding covers target
covered_below grp me m p peers h = ground arith

peer_below :
    (cx : Lead) (lrp : String) (known : Option HaGroup) (grp : HaGroup) (me : GatewayChassis)
    (m : ℕ) (g : GatewayChassis)
    → known ≡ some grp
    → grp.max_peer ≡ some m
    → (not (is_peer cx lrp g) || covers known g.priority) ≡ true
    → (not (is_peer cx lrp g) || ltb g.priority (target me m)) ≡ true
peer_below cx lrp known grp me m g found peers c =
    let c' : (not (is_peer cx lrp g) || covers (some grp) g.priority) ≡ true = rw (← found) c in
    ground (arith, covered_below grp me m g.priority peers)

target_margin : (me : GatewayChassis) (m : ℕ) → 2 ≤ target me m
unfolding target
target_margin me m = ground arith

-- Where the row of this chassis in the HA group of a local port is `me`, the group has a peer, and
-- the port is not known to be bound elsewhere: `me` has a priority, or the transaction asks for
-- it, that is above that of every peer's row and at least 2, which is above the 1 that a drained
-- peer restores to.
pub boosts_lead :
    (cx : Lead) (rows : List GatewayChassis) (lrp : String) (grp : HaGroup) (me : GatewayChassis)
    (m : ℕ)
    → (lrp == "") ≡ false
    → lookup lrp (groups_from cx [] rows) ≡ some grp
    → grp.local ≡ some me
    → grp.max_peer ≡ some m
    → bound_elsewhere cx lrp ≡ false
    → (p : ℕ) × (gets (boosts cx (groups_from cx [] rows)) me p ≡ true)
      × (2 ≤ p)
      × (all (λ g. not (is_peer cx lrp g) || ltb g.priority p) rows ≡ true)
boosts_lead cx rows lrp grp me m ne found mine peers here =
    let ups = boosts cx (groups_from cx [] rows) in
    let own : gets (boost cx lrp grp.local grp.max_peer) me (target me m) ≡ true =
      rw (mine, peers) (gets-boost cx lrp me m here) in
    (
      target me m,
      ground
          (arith, contains-boosts cx (groups_from cx [] rows) lrp grp (me.uuid, target me m) found),
      target_margin me m,
      all-implies
          (λ g. not (is_peer cx lrp g) || covers (lookup lrp (groups_from cx [] rows)) g.priority)
          (λ g. not (is_peer cx lrp g) || ltb g.priority (target me m)) rows
          (λ g c. peer_below cx lrp (lookup lrp (groups_from cx [] rows)) grp me m g found peers c)
          (peers_covered cx [] rows lrp ne),
    )
