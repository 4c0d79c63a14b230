-- ===== src/FlowPlane/Sorting.antt =====
-- Sorting keeps the elements, and what a batch with distinct keys leaves at a key.
use ovn_network_agent.Prelude.{
  String, ◌≡◌, refl, sym, ap, ◌∙◌, inl, inr, Bool, false, ◌||◌, not, Option, none, some, List, [],
  ◌∷◌, map, arith, if◌then◌else◌, Bool-cases, Option-cases, is_some, Comparable, ◌==◌, nat_eq,
  string_eq, bool_eq, pair_eq, filter, contains, Nodup, insert_by, sort_by,
}

module _ {A : Type 0} {K : Type 0} ⦃eq : Comparable K⦄ (key : A → K) (f : A → String) where
  contains-insert_by :
      (x : A) (xs : List A) (k : K)
      → contains (map key (insert_by f x xs)) k ≡ (k == key x || contains (map key xs) k)
  unfolding insert_by
  contains-insert_by x [] k = refl
  contains-insert_by x (y ∷ xs) k = ground (arith, contains-insert_by x xs k)

  pub contains-sort_by :
      (xs : List A) (k : K) → contains (map key (sort_by f xs)) k ≡ contains (map key xs) k
  unfolding sort_by
  contains-sort_by [] k = refl
  contains-sort_by (x ∷ xs) k =
      ground (arith, contains-insert_by x (sort_by f xs) k, contains-sort_by xs k)

module _ {K : Type 0} ⦃eq : Comparable K⦄ (f : K → String) where
  contains-map_self : (xs : List K) (k : K) → contains (map (λ x. x) xs) k ≡ contains xs k
  contains-map_self [] k = refl
  contains-map_self (x ∷ xs) k = ground (arith, contains-map_self xs k)

  pub contains-sort_by_self : (xs : List K) (k : K) → contains (sort_by f xs) k ≡ contains xs k
  contains-sort_by_self xs k =
      sym (contains-map_self (sort_by f xs) k)
      ∙ contains-sort_by (λ x. x) f xs k
      ∙ contains-map_self xs k

-- what a table holds at a key after the flows of a batch
abbrev pub over : Option String → Option String → Option String
over none old = old
over (some a) old = some a

module _ {A : Type 0} {K : Type 0} ⦃eq : Comparable K⦄ (key : A → K) (value : A → String) where
  -- what the elements of a batch leave at a key: the last one counts
  abbrev pub last_for : K → List A → Option String
  last_for k [] = none
  last_for k (x ∷ xs) = elim (last_for k xs) [
    | none ↦ if k == key x then some (value x) else none
    | some a ↦ some a
  ]

  -- the value of the first element with the key
  abbrev pub first_for : K → List A → Option String
  first_for k [] = none
  first_for k (x ∷ xs) = if k == key x then some (value x) else first_for k xs

  last_for-none : (k : K) (xs : List A) → contains (map key xs) k ≡ false → last_for k xs ≡ none
  last_for-none k [] h = refl
  last_for-none k (x ∷ xs) h = ground (arith, last_for-none k xs)

  -- With distinct keys the first and the last are the same.
  pub last_for-first : (k : K) (xs : List A) → Nodup (map key xs) → last_for k xs ≡ first_for k xs
  last_for-first k [] n = refl
  last_for-first k (x ∷ xs) n =
      ground (arith, last_for-first k xs n.1, last_for-none k xs, eq.same_iff k (key x))

  pub first_for-contains :
      (k : K) (xs : List A) → is_some (first_for k xs) ≡ contains (map key xs) k
  first_for-contains k [] = refl
  first_for-contains k (x ∷ xs) = ground (arith, first_for-contains k xs)

  -- what is there before and after a batch
  abbrev pub holds : Option String → String → Bool
  holds none v = false
  holds (some a) v = a == v

  contains-filter_keys :
      (p : A → Bool) (xs : List A) (k : K)
      → contains (map key xs) k ≡ false
      → contains (map key (filter p xs)) k ≡ false
  contains-filter_keys p [] k h = refl
  contains-filter_keys p (x ∷ xs) k h = ground (arith, contains-filter_keys p xs k)

  pub Nodup-filter_keys :
      (p : A → Bool) (xs : List A) → Nodup (map key xs) → Nodup (map key (filter p xs))
  Nodup-filter_keys p [] n = tt
  Nodup-filter_keys p (x ∷ xs) n = elim (Bool-cases (p x)) [
    | inl e ↦ rw e (contains-filter_keys p xs (key x) n.0, Nodup-filter_keys p xs n.1)
    | inr e ↦ rw e (Nodup-filter_keys p xs n.1)
  ]

  first_for-none : (k : K) (xs : List A) → contains (map key xs) k ≡ false → first_for k xs ≡ none
  first_for-none k [] h = refl
  first_for-none k (x ∷ xs) h = ground (arith, first_for-none k xs)

  -- A batch of what is not there yet leaves the same as a batch of everything.
  pub over-missing :
      (look : K → Option String) (k : K) (xs : List A)
      → Nodup (map key xs)
      → over (first_for k (filter (λ x. not (holds (look (key x)) (value x))) xs)) (look k)
        ≡ over (first_for k xs) (look k)
  over-missing look k [] n = refl
  over-missing look k (x ∷ xs) n = elim (Bool-cases (k == key x)) [
    | inl e ↦
        let here : k ≡ key x = (eq.same_iff k (key x)).0 e in
        let q = λ (y : A). not (holds (look (key y)) (value y)) in
        let gone : contains (map key xs) k ≡ false = rw here n.0 in
        let rest = first_for-none k (filter q xs) (contains-filter_keys q xs k gone) in
        let there : look k ≡ look (key x) = ap look here in
        elim (Option-cases (look (key x))) [
          | inl f ↦ ground arith
          | inr (a, f) ↦ ground (arith, string_eq.same_iff a (value x))
        ]
    | inr e ↦ ground (arith, over-missing look k xs n.1)
  ]

  module _ (f : A → String) where
    last_for-insert_by :
        (x : A) (xs : List A) (k : K)
        → contains (map key xs) (key x) ≡ false
        → last_for k (insert_by f x xs) ≡ last_for k (x ∷ xs)
    unfolding insert_by
    last_for-insert_by x [] k h = refl
    last_for-insert_by x (y ∷ xs) k h = elim (Option-cases (last_for k xs)) [
      | inl q ↦ ground (
        arith,
        last_for-insert_by x xs k,
        eq.same_iff k (key x),
        eq.same_iff k (key y),
        eq.same_iff (key x) (key y),
      )
      | inr (a, q) ↦ ground (arith, last_for-insert_by x xs k)
    ]

    pub last_for-sort_by :
        (xs : List A) (k : K) → Nodup (map key xs) → last_for k (sort_by f xs) ≡ last_for k xs
    unfolding sort_by
    last_for-sort_by [] k n = refl
    last_for-sort_by (x ∷ xs) k n =
        last_for-insert_by x (sort_by f xs) k (contains-sort_by key f xs (key x) ∙ n.0)
        ∙ ground (arith, last_for-sort_by xs k n.1)
