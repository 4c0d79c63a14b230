-- ===== src/Prelude/Sets.antt =====
-- Go's `map[K]bool` as a list of keys, and `map[K]V` as an association list. Iteration follows the
-- list; what is stated for every list holds for every order that Go may choose.
use mathlib.Core.Path.{◌≡◌, refl}
use mathlib.Core.Bool.{Bool, true, false, ◌&&◌, ◌||◌, not}
use mathlib.Core.Option.{Option, none, some}
use mathlib.Core.List.{List, [], ◌∷◌, ◌++◌, map}
use native.Mathlib.Omega.{arith}
use ovn_network_agent.Prelude.Tests.{if◌then◌else◌, is_some}
use ovn_network_agent.Prelude.Equality.{Comparable, ◌==◌}
use ovn_network_agent.Prelude.Lists.{is_empty, filter, all}

module _ {ℓ} {A : Type ℓ} ⦃e : Comparable A⦄ where
  -- m[x], for a map whose values are all `true`
  abbrev pub contains : List A → A → Bool
  contains [] x = false
  contains (y ∷ ys) x = x == y || contains ys x

  pub eq_self : (x : A) → (x == x) ≡ true
  eq_self x = (e.same_iff x x).1 refl

  pub contains-append :
      (xs ys : List A) (x : A) → contains (xs ++ ys) x ≡ (contains xs x || contains ys x)
  contains-append [] ys x = refl
  contains-append (z ∷ zs) ys x = ground (arith, contains-append zs ys x)

  pub contains-filter :
      (p : A → Bool) (xs : List A) (x : A) → contains (filter p xs) x ≡ (contains xs x && p x)
  contains-filter p [] x = refl
  contains-filter p (z ∷ zs) x = ground (arith, contains-filter p zs x, e.same_iff x z)

  -- What all elements pass, an element passes.
  pub all-contains :
      (p : A → Bool) (xs : List A) (x : A) → all p xs ≡ true → contains xs x ≡ true → p x ≡ true
  all-contains p [] x h m = ground arith
  all-contains p (z ∷ zs) x h m = ground (arith, all-contains p zs x, e.same_iff x z)

  -- delete(m, x)
  abbrev pub without : A → List A → List A
  without x xs = filter (λ y. not (x == y)) xs

  pub contains-without :
      (x : A) (xs : List A) (y : A) → contains (without x xs) y ≡ (contains xs y && not (x == y))
  contains-without x xs y = contains-filter (λ z. not (x == z)) xs y

module _ {ℓ κ} {A : Type ℓ} {V : Type κ} ⦃e : Comparable A⦄ where
  abbrev pub lookup : A → List (A × V) → Option V
  lookup k [] = none
  lookup k ((j, v) ∷ m) = if k == j then some v else lookup k m

  -- m[k] = v
  abbrev pub insert : A → V → List (A × V) → List (A × V)
  insert k v [] = (k, v) ∷ []
  insert k v ((j, w) ∷ m) = if k == j then (k, v) ∷ m else (j, w) ∷ insert k v m

  abbrev pub keys : List (A × V) → List A
  keys m = map (λ p. p.0) m

  -- delete(m, k)
  abbrev pub remove : A → List (A × V) → List (A × V)
  remove k m = filter (λ p. not (k == p.0)) m

  pub lookup-insert :
      (k j : A) (v : V) (m : List (A × V))
      → lookup j (insert k v m) ≡ (if j == k then some v else lookup j m)
  lookup-insert k j v [] = refl
  lookup-insert k j v ((i, w) ∷ m) =
      ground (arith, lookup-insert k j v m, e.same_iff j k, e.same_iff k i, e.same_iff j i)

  pub lookup-remove :
      (k j : A) (m : List (A × V)) → lookup j (remove k m) ≡ (if k == j then none else lookup j m)
  lookup-remove k j [] = ground arith
  lookup-remove k j ((i, w) ∷ m) =
      ground
        (arith, lookup-remove k j m, e.same_iff j k, e.same_iff k j, e.same_iff k i, e.same_iff j i)

  pub contains-keys-insert :
      (k j : A) (v : V) (m : List (A × V))
      → contains (keys (insert k v m)) j ≡ (j == k || contains (keys m) j)
  contains-keys-insert k j v [] = refl
  contains-keys-insert k j v ((i, w) ∷ m) =
      ground (arith, contains-keys-insert k j v m, e.same_iff k i, e.same_iff j i, e.same_iff j k)

  pub contains-keys : (k : A) (m : List (A × V)) → contains (keys m) k ≡ is_some (lookup k m)
  contains-keys k [] = refl
  contains-keys k ((i, w) ∷ m) = ground (arith, contains-keys k m)

module _ {ℓ} {A : Type ℓ} ⦃e : Comparable A⦄ where
  -- No element stands twice.
  abbrev pub Nodup : List A → Type 0
  Nodup [] = Unit
  Nodup (x ∷ xs) = (contains xs x ≡ false) × Nodup xs

  -- A list in which nothing is found is empty.
  pub nil_of_contains : (xs : List A) → ((x : A) → contains xs x ≡ false) → xs ≡ []
  nil_of_contains [] h = refl
  nil_of_contains (x ∷ xs) h = ground (arith, h x, e.same_iff x x)

  -- A list in which something is found is not empty.
  pub not_nil_of_contains : (xs : List A) (x : A) → contains xs x ≡ true → is_empty xs ≡ false
  not_nil_of_contains [] x h = ground arith
  not_nil_of_contains (y ∷ ys) x h = refl
