-- ===== src/Gateway/Rows.antt =====
-- The rows that a transaction of priority updates asks for.
use ovn_network_agent.Prelude.{
  ℕ, String, ◌≡◌, refl, Bool, false, none, some, List, [], ◌∷◌, map, arith, if◌then◌else◌, nat_eq,
  string_eq, bool_eq, pair_eq, filter, contains, lookup, Nodup,
}
use ovn_network_agent.Gateway.{GatewayChassis, set_all}

-- a row under the updates, where the one for its UUID counts
abbrev pub updated : List (String × ℕ) → GatewayChassis → GatewayChassis
updated ups g = record g { priority = elim (lookup g.uuid ups) [ none ↦ g.priority | some p ↦ p ] }

abbrev pub uuids : List GatewayChassis → List String
uuids rows = map (λ g. g.uuid) rows

-- the rows with those that pass a test at priority `p`
abbrev pub with_priority : (GatewayChassis → Bool) → ℕ → List GatewayChassis → List GatewayChassis
with_priority test p rows = map (λ g. if test g then record g { priority = p } else g) rows

contains-uuids-filter :
    (test : GatewayChassis → Bool) (rows : List GatewayChassis) (u : String)
    → contains (uuids rows) u ≡ false
    → contains (uuids (filter test rows)) u ≡ false
contains-uuids-filter test [] u h = refl
contains-uuids-filter test (g ∷ rows) u h = ground (arith, contains-uuids-filter test rows u)

lookup-set_all :
    (p : ℕ) (rows : List GatewayChassis) (u : String)
    → contains (uuids rows) u ≡ false
    → lookup u (set_all p rows) ≡ none
lookup-set_all p [] u h = refl
lookup-set_all p (g ∷ rows) u h = ground (arith, lookup-set_all p rows u)

-- an update for no row here does not matter
updated-skip :
    (u : String) (p : ℕ) (ups : List (String × ℕ)) (rows : List GatewayChassis)
    → contains (uuids rows) u ≡ false
    → map (updated ((u, p) ∷ ups)) rows ≡ map (updated ups) rows
updated-skip u p ups [] h = refl
updated-skip u p ups (g ∷ rows) h =
    ground
      (arith, updated-skip u p ups rows, string_eq.same_iff u g.uuid, string_eq.same_iff g.uuid u)

-- Updates of the rows that pass a test change these rows and no other.
pub updated-set_all :
    (test : GatewayChassis → Bool) (p : ℕ) (rows : List GatewayChassis)
    → Nodup (uuids rows)
    → map (updated (set_all p (filter test rows))) rows ≡ with_priority test p rows
updated-set_all test p [] n = refl
updated-set_all test p (g ∷ rows) n =
    let rest = set_all p (filter test rows) in
    ground (
      arith,
      updated-set_all test p rows n.1,
      updated-skip g.uuid p rest rows n.0,
      lookup-set_all p (filter test rows) g.uuid (contains-uuids-filter test rows g.uuid n.0),
      string_eq.same_iff g.uuid g.uuid,
    )
