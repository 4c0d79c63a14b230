-- ===== src/Ovn/Joins/Indexes.antt =====
-- What the indexes of a refresh hold: the last row of a key.
use ovn_network_agent.Prelude.{
  String, ◌≡◌, refl, ap, ◌∙◌, Bool, true, false, ◌||◌, Option, none, some, List, [], ◌∷◌, arith,
  if◌then◌else◌, ◌==◌, nat_eq, string_eq, bool_eq, pair_eq, lookup, insert, lookup-insert, int_eq,
}
use ovn_network_agent.Ovn.Rows.{Chassis, RouterPort}
use ovn_network_agent.Ovn.Hosts.{short_hostname}
use ovn_network_agent.Ovn.Joins.{
  chassis_index, ChassisIndex, index_from, LrpIndex, index_lrps_from, index_lrps,
}

-- the last row that passes a test
abbrev pub last_of {ℓ} : {A : Type ℓ} → (A → Bool) → List A → Option A
last_of test [] = none
last_of test (x ∷ xs) = elim (last_of test xs) [
  | none ↦ if test x then some x else none
  | some y ↦ some y
]

-- a reference names a chassis by its UUID or by its name
abbrev pub names_chassis : String → Chassis → Bool
names_chassis ref ch = ch.uuid == ref || ch.name == ref

-- the host of a chassis, or what an index had before
abbrev pub host_after : Option String → Option Chassis → Option String
host_after old none = old
host_after old (some ch) = some ch.hostname

-- the key is looked up after both keys of a row are set
lookup-both_keys :
    (ch : Chassis) (by_ref : List (String × String)) (ref : String)
    → lookup ref (insert ch.name ch.hostname (insert ch.uuid ch.hostname by_ref))
      ≡ (if names_chassis ref ch then some ch.hostname else lookup ref by_ref)
lookup-both_keys ch by_ref ref = ground (
  arith,
  lookup-insert ch.name ref ch.hostname (insert ch.uuid ch.hostname by_ref),
  lookup-insert ch.uuid ref ch.hostname by_ref,
  string_eq.same_iff ref ch.name,
  string_eq.same_iff ch.name ref,
  string_eq.same_iff ref ch.uuid,
  string_eq.same_iff ch.uuid ref,
)

host_after-both :
    (test : Bool) (ch : Chassis) (old : Option String) (o : Option Chassis)
    → host_after (if test then some ch.hostname else old) o
      ≡ host_after old (elim o [ none ↦ if test then some ch else none | some c ↦ some c ])
host_after-both true ch old none = refl
host_after-both false ch old none = refl
host_after-both test ch old (some c) = refl

lookup-index_from :
    (chassis : List Chassis) (idx : ChassisIndex) (ref : String)
    → lookup ref (index_from chassis idx).0
      ≡ host_after (lookup ref idx.0) (last_of (names_chassis ref) chassis)
unfolding index_from
lookup-index_from [] idx ref = refl
lookup-index_from (ch ∷ chassis) (by_ref, names) ref =
    lookup-index_from chassis
      (
        insert ch.name ch.hostname (insert ch.uuid ch.hostname by_ref),
        short_hostname ch.hostname ∷ names,
      )
      ref
    ∙ ap (λ o. host_after o (last_of (names_chassis ref) chassis)) (lookup-both_keys ch by_ref ref)
    ∙ host_after-both (names_chassis ref ch) ch (lookup ref by_ref)
        (last_of (names_chassis ref) chassis)

pub lookup-chassis_index :
    (chassis : List Chassis) (ref : String)
    → lookup ref (chassis_index chassis).0 ≡ host_after none (last_of (names_chassis ref) chassis)
unfolding chassis_index
lookup-chassis_index chassis ref = lookup-index_from chassis ([], []) ref

abbrev lrp_after : Option RouterPort → Option RouterPort → Option RouterPort
lrp_after old none = old
lrp_after old (some lrp) = some lrp

lrp_after-row :
    (test : Bool) (lrp : RouterPort) (old o : Option RouterPort)
    → lrp_after (if test then some lrp else old) o
      ≡ lrp_after old (elim o [ none ↦ if test then some lrp else none | some l ↦ some l ])
lrp_after-row true lrp old none = refl
lrp_after-row false lrp old none = refl
lrp_after-row test lrp old (some l) = refl

lookup-flipped :
    (name : String) (lrp : RouterPort) (m : List (String × RouterPort))
    → lookup name (insert lrp.name lrp m) ≡ (if lrp.name == name then some lrp else lookup name m)
lookup-flipped name lrp m = ground (
  arith,
  lookup-insert lrp.name name lrp m,
  string_eq.same_iff name lrp.name,
  string_eq.same_iff lrp.name name,
)

lookup-index_lrps_from :
    (lrps : List RouterPort) (idx : LrpIndex) (name : String)
    → lookup name (index_lrps_from lrps idx).by_name
      ≡ lrp_after (lookup name idx.by_name) (last_of (λ lrp. lrp.name == name) lrps)
unfolding index_lrps
lookup-index_lrps_from [] idx name = refl
lookup-index_lrps_from (lrp ∷ lrps) idx name =
    lookup-index_lrps_from lrps
      (record {
        by_name = insert lrp.name lrp idx.by_name;
        by_uuid = insert lrp.uuid lrp idx.by_uuid;
      })
      name
    ∙ ap (λ o. lrp_after o (last_of (λ l. l.name == name) lrps))
        (lookup-flipped name lrp idx.by_name)
    ∙ lrp_after-row (lrp.name == name) lrp (lookup name idx.by_name)
        (last_of (λ l. l.name == name) lrps)

lrp_after-none : (o : Option RouterPort) → lrp_after none o ≡ o
lrp_after-none none = refl
lrp_after-none (some l) = refl

pub lookup-index_lrps :
    (lrps : List RouterPort) (name : String)
    → lookup name (index_lrps lrps).by_name ≡ last_of (λ lrp. lrp.name == name) lrps
unfolding index_lrps
lookup-index_lrps lrps name =
    lookup-index_lrps_from lrps (record { by_name = []; by_uuid = [] }) name
    ∙ lrp_after-none (last_of (λ l. l.name == name) lrps)
