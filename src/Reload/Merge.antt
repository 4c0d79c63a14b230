-- ===== src/Reload/Merge.antt =====
-- The keys that planReload lists, and the values that it merges, at each option.
use ovn_network_agent.Prelude.{
  String, ◌≡◌, refl, ◌∙◌, Bool, true, false, ◌&&◌, ◌||◌, List, [], ◌∷◌, ◌++◌, map, arith,
  if◌then◌else◌, Comparable, ◌==◌, nat_eq, string_eq, bool_eq, pair_eq, All, contains, eq_self,
  Nodup, int_eq,
}
use ovn_network_agent.Config.{Config}
use ovn_network_agent.Config.Options.{ConfigOption, Value}
use ovn_network_agent.Config.Options.Lenses.{Copies}
use ovn_network_agent.Reload.{FileChanges, Decision, untouched, renewed, copied, kept, decide}
use ovn_network_agent.Reload.Lists.{key_if, keys_where, copy_if, merged_from}

abbrev pub is_copied : Decision → Bool
is_copied copied = true
is_copied untouched = false
is_copied renewed = false
is_copied (kept r) = false

abbrev pub option_keys : List ConfigOption → List String
option_keys os = map (λ o. o.key) os

-- an option with another key
abbrev Other : String → ConfigOption → Type 0
Other k p = (p.key == k) ≡ false

keys-Other :
    (k : String) (os : List ConfigOption) → contains (option_keys os) k ≡ false → All (Other k) os
keys-Other k [] h = tt
keys-Other k (o ∷ os) h = (
  ground (arith, string_eq.same_iff o.key k, string_eq.same_iff k o.key),
  keys-Other k os (ground arith),
)

contains-key_if :
    (t : Bool) (k : String) (ks : List String) (j : String)
    → contains (key_if t k ++ ks) j ≡ (t && j == k || contains ks j)
contains-key_if true k ks j = refl
contains-key_if false k ks j = refl

copied_value :
    (d : Decision) (o p : ConfigOption) (m next : Config)
    → Copies p o
    → p.value (copy_if d o m next)
      ≡ (if is_copied d && p.key == o.key then p.value next else p.value m)
copied_value copied o p m next h = h m next
copied_value untouched o p m next h = refl
copied_value renewed o p m next h = refl
copied_value (kept r) o p m next h = refl

if_either {ℓ} :
    {A : Type ℓ} (e c : Bool) (x y : A)
    → (if c then x else (if e then x else y)) ≡ (if e || c then x else y)
if_either true true x y = refl
if_either true false x y = refl
if_either false c x y = refl

module _ ⦃deep : Comparable Value⦄ (running next : Config) (files : FileChanges) where
  contains-keys_where :
      (test : Decision → Bool) (k : String) (os : List ConfigOption)
      → contains (option_keys os) k ≡ false
      → contains (keys_where running next files test os) k ≡ false
  contains-keys_where test k [] h = refl
  contains-keys_where test k (o ∷ os) h = ground (
    arith,
    contains-key_if (test (decide running next files o)) o.key
        (keys_where running next files test os) k,
    contains-keys_where test k os,
  )

  key_listed :
      (test : Decision → Bool) (o : ConfigOption) (os : List ConfigOption)
      → contains (option_keys os) o.key ≡ false
      → contains (keys_where running next files test (o ∷ os)) o.key
        ≡ test (decide running next files o)
  key_listed test o os h = ground (
    arith,
    contains-key_if (test (decide running next files o)) o.key
        (keys_where running next files test os) o.key,
    contains-keys_where test o.key os h,
    eq_self o.key,
  )

  key_passed :
      (test : Decision → Bool) (o : ConfigOption) (os : List ConfigOption) (k : String)
      → (k == o.key) ≡ false
      → contains (keys_where running next files test (o ∷ os)) k
        ≡ contains (keys_where running next files test os) k
  key_passed test o os k h = ground (
    arith,
    contains-key_if (test (decide running next files o)) o.key
        (keys_where running next files test os) k,
  )

  pub merged_value :
      (p : ConfigOption) (os : List ConfigOption) (m : Config)
      → All (Copies p) os
      → p.value (merged_from running next files os m) ≡ (
          if contains (keys_where running next files is_copied os) p.key
          then p.value next
          else p.value m)
  merged_value p [] m h = refl
  merged_value p (o ∷ os) m h =
      let d = decide running next files o in
      merged_value p os (copy_if d o m next) h.1
      ∙ rw
          (
            copied_value d o p m next h.0,
            contains-key_if (is_copied d) o.key (keys_where running next files is_copied os) p.key,
          )
          (if_either (is_copied d && p.key == o.key)
            (contains (keys_where running next files is_copied os) p.key) (p.value next)
            (p.value m))

  later :
      (test : Decision → Bool) (o : ConfigOption) (os ps : List ConfigOption)
      → All (Other o.key) ps
      → All
          (λ p.
            contains (keys_where running next files test os) p.key
            ≡ test (decide running next files p))
          ps
      → All
          (λ p.
            contains (keys_where running next files test (o ∷ os)) p.key
            ≡ test (decide running next files p))
          ps
  later test o os [] h k = tt
  later test o os (p ∷ ps) h k = (key_passed test o os p.key h.0 ∙ k.0, later test o os ps h.1 k.1)

  -- What is listed of an option, and its value after the loop, if the keys are distinct.
  pub listed :
      (test : Decision → Bool) (os : List ConfigOption)
      → Nodup (option_keys os)
      → All
          (λ o.
            contains (keys_where running next files test os) o.key
            ≡ test (decide running next files o))
          os
  listed test [] h = tt
  listed test (o ∷ os) h =
      (key_listed test o os h.0, later test o os os (keys-Other o.key os h.0) (listed test os h.1))
