-- ===== src/Gateway/Lead/Raise.antt =====
-- What a boost leaves alone.
use ovn_network_agent.Prelude.{
  ℕ, ◌+◌, String, ◌≡◌, refl, Bool, true, ◌&&◌, ◌||◌, not, Option, none, some, List, [], ◌∷◌, arith,
  ltb, ◌==◌, nat_eq, string_eq, bool_eq, pair_eq, any, all, all-append, lookup, insert,
}
use Prim.Native.Nat.{max}
use ovn_network_agent.Gateway.{GatewayChassis, is_local}
use ovn_network_agent.Gateway.Lead.{
  HaGroup, Lead, grouped, or_new, add_row, groups_from, min_active_priority, boost, boosts,
}

-- the row of the table that an update of this row would change
same_row : String → GatewayChassis → GatewayChassis → Bool
same_row local g h = is_local local h && h.uuid == g.uuid && h.priority == g.priority

present : String → List GatewayChassis → GatewayChassis → Bool
present local table g = any (same_row local g) table

sane : String → List GatewayChassis → HaGroup → Bool
sane local table grp = elim grp.local [ none ↦ true | some g ↦ present local table g ]

all-insert :
    (f : HaGroup → Bool) (k : String) (v : HaGroup) (m : List (String × HaGroup))
    → f v ≡ true
    → all (λ e. f e.1) m ≡ true
    → all (λ e. f e.1) (insert k v m) ≡ true
all-insert f k v [] fv h = ground arith
all-insert f k v ((j, w) ∷ m) fv h = ground (arith, all-insert f k v m fv)

sane-lookup :
    (local : String) (table : List GatewayChassis) (k : String) (m : List (String × HaGroup))
    → all (λ e. sane local table e.1) m ≡ true
    → sane local table (or_new (lookup k m)) ≡ true
unfolding or_new sane
sane-lookup local table k [] h = refl
sane-lookup local table k ((j, w) ∷ m) h = ground (arith, sane-lookup local table k m)

sane-grouped :
    (local : String) (table : List GatewayChassis) (g : GatewayChassis) (grp : HaGroup)
    → (not (is_local local g) || present local table g) ≡ true
    → sane local table grp ≡ true
    → sane local table (grouped local g grp) ≡ true
unfolding sane grouped
sane-grouped local table g grp p h = ground arith

sane-groups_from :
    (cx : Lead) (table : List GatewayChassis) (groups : List (String × HaGroup))
    (rows : List GatewayChassis)
    → all (λ g. not (is_local cx.local_chassis g) || present cx.local_chassis table g) rows ≡ true
    → all (λ e. sane cx.local_chassis table e.1) groups ≡ true
    → all (λ e. sane cx.local_chassis table e.1) (groups_from cx groups rows) ≡ true
unfolding groups_from add_row
sane-groups_from cx table groups [] known h = h
sane-groups_from cx table groups (g ∷ rows) known h =
    let name = cx.lrp_name_of g in
    let grp = grouped cx.local_chassis g (or_new (lookup name groups)) in
    ground (
      arith,
      sane-groups_from cx table groups rows,
      sane-groups_from cx table (insert name grp groups) rows,
      all-insert (sane cx.local_chassis table) name grp groups,
      sane-grouped cx.local_chassis table g (or_new (lookup name groups)),
      sane-lookup cx.local_chassis table name groups h,
    )

known_more :
    (local : String) (h : GatewayChassis) (table rows : List GatewayChassis)
    → all (λ g. not (is_local local g) || present local table g) rows ≡ true
    → all (λ g. not (is_local local g) || present local (h ∷ table) g) rows ≡ true
unfolding present
known_more local h table [] k = refl
known_more local h table (g ∷ rows) k = ground (arith, known_more local h table rows)

known_self :
    (local : String) (rows : List GatewayChassis)
    → all (λ g. not (is_local local g) || present local rows g) rows ≡ true
unfolding present same_row
known_self local [] = refl
known_self local (g ∷ rows) = ground (
  arith,
  known_more local g rows rows (known_self local rows),
  string_eq.same_iff g.uuid g.uuid,
  nat_eq.same_iff g.priority g.priority,
)

-- the update is of a row of this chassis, and above its priority
abbrev pub raises : String → List GatewayChassis → String × ℕ → Bool
raises local rows u = any (λ g. is_local local g && g.uuid == u.0 && ltb g.priority u.1) rows

raises-present :
    (local : String) (table : List GatewayChassis) (g : GatewayChassis) (p : ℕ)
    → present local table g ≡ true
    → ltb g.priority p ≡ true
    → raises local table (g.uuid, p) ≡ true
unfolding present same_row
raises-present local [] g p h lt = h
raises-present local (k ∷ table) g p h lt =
    ground (arith, raises-present local table g p, nat_eq.same_iff k.priority g.priority)

raises-boost :
    (cx : Lead) (table : List GatewayChassis) (lrp : String) (mine : Option GatewayChassis)
    (peer : Option ℕ)
    → elim mine [ none ↦ true | some g ↦ present cx.local_chassis table g ] ≡ true
    → all (raises cx.local_chassis table) (boost cx lrp mine peer) ≡ true
unfolding boost min_active_priority
raises-boost cx table lrp none peer h = refl
raises-boost cx table lrp (some me) none h = refl
raises-boost cx table lrp (some me) (some m) h =
    ground (arith, raises-present cx.local_chassis table me (max (m + 1) 2))

raises-boosts :
    (cx : Lead) (table : List GatewayChassis) (groups : List (String × HaGroup))
    → all (λ e. sane cx.local_chassis table e.1) groups ≡ true
    → all (raises cx.local_chassis table) (boosts cx groups) ≡ true
unfolding boosts sane
raises-boosts cx table [] h = refl
raises-boosts cx table ((lrp, grp) ∷ groups) h = ground (
  arith,
  all-append (raises cx.local_chassis table) (boost cx lrp grp.local grp.max_peer)
      (boosts cx groups),
  raises-boost cx table lrp grp.local grp.max_peer,
  raises-boosts cx table groups,
)

-- A boost touches no row of another chassis and lowers no priority: each of its updates is of a
-- row of this chassis, and above that row's priority.
pub boosts_only_raise :
    (cx : Lead) (rows : List GatewayChassis)
    → all (raises cx.local_chassis rows) (boosts cx (groups_from cx [] rows)) ≡ true
boosts_only_raise cx rows =
    raises-boosts cx rows (groups_from cx [] rows)
      (sane-groups_from cx rows [] rows (known_self cx.local_chassis rows) refl)
