-- ===== src/FrrWatch/Changes.antt =====
-- changedDaemons and maps.Equal agree: a change names a daemon.
use ovn_network_agent.Prelude.{
  ℕ, String, ◌≡◌, refl, inl, inr, Bool, true, false, ◌&&◌, not, some, List, [], ◌∷◌, ◌++◌, arith,
  ltb, Option-cases, ◌==◌, nat_eq, string_eq, bool_eq, pair_eq, is_empty, filter, all, contains,
  lookup, keys, contains-keys, Nodup, sort_strings, contains-sort_strings, not_nil_of_contains,
}
use ovn_network_agent.FrrWatch.{Incarnation, pid_of, within, maps_equal, changed_daemons}

-- what parseFRRModules returns: a map with at least one daemon, and no process ID of 0
pub record IsWellFormed (inc : Incarnation) : Type 0 where
  pub unique : Nodup (keys inc)
  pub positive : all (λ e. ltb 0 e.1) inc ≡ true
  pub some_daemon : is_empty inc ≡ false

is_empty-insert : (l : List String) → is_empty (sort_strings l) ≡ is_empty l
is_empty-insert [] = unfold sort_strings in refl
is_empty-insert (s ∷ l) = ground (
  arith,
  not_nil_of_contains (sort_strings (s ∷ l)) s,
  contains-sort_strings (s ∷ l) s,
  string_eq.same_iff s s,
)

is_empty-append {ℓ} :
    {A : Type ℓ} (xs ys : List A) → is_empty (xs ++ ys) ≡ (is_empty xs && is_empty ys)
is_empty-append [] ys = refl
is_empty-append (x ∷ xs) ys = refl

is_empty-filter {ℓ} :
    {A : Type ℓ} (p : A → Bool) (xs : List A) → is_empty (filter p xs) ≡ all (λ x. not (p x)) xs
is_empty-filter p [] = refl
is_empty-filter p (x ∷ xs) = ground (arith, is_empty-filter p xs)

is_empty-keys : (m : Incarnation) → is_empty (keys m) ≡ is_empty m
is_empty-keys [] = refl
is_empty-keys (e ∷ m) = refl

-- The first part of the change: a daemon whose process ID differs, or that is new.
same_pids-within :
    (old cur : Incarnation)
    → all (λ e. ltb 0 e.1) cur ≡ true
    → all (λ e. not (not (pid_of old e.0 == e.1))) cur ≡ within cur old
same_pids-within old [] h = refl
same_pids-within old ((n, pid) ∷ cur) h = ground (arith, same_pids-within old cur)

lookup-within :
    (a b : Incarnation) (n : String) (q : ℕ)
    → within a b ≡ true
    → lookup n a ≡ some q
    → lookup n b ≡ some q
lookup-within [] b n q h e = ground arith
lookup-within ((j, v) ∷ a) b n q h e = ground (arith, lookup-within a b n q, string_eq.same_iff n j)

-- each entry is the one that its key finds
abbrev Found : Incarnation → Incarnation → Type 0
Found m [] = Unit
Found m (e ∷ es) = (lookup e.0 m ≡ some e.1) × Found m es

Found-cons :
    (i : String) (w : ℕ) (m es : Incarnation)
    → contains (keys es) i ≡ false
    → Found m es
    → Found ((i, w) ∷ m) es
Found-cons i w m [] h f = tt
Found-cons i w m ((j, v) ∷ es) h f = (
  ground (arith, string_eq.same_iff i j, string_eq.same_iff j i),
  Found-cons i w m es (ground arith) f.1,
)

Found-self : (m : Incarnation) → Nodup (keys m) → Found m m
Found-self [] n = tt
Found-self ((i, w) ∷ m) n =
    (ground (arith, string_eq.same_iff i i), Found-cons i w m m n.0 (Found-self m n.1))

-- The second part: a daemon that is gone.
known_keys-within :
    (old cur es : Incarnation)
    → within cur old ≡ true
    → Found old es
    → all (λ n. not (not (contains (keys cur) n))) (keys es) ≡ within es cur
known_keys-within old cur [] h f = refl
known_keys-within old cur ((n, v) ∷ es) h f = elim (Option-cases (lookup n cur)) [
  | inl e ↦ ground (arith, contains-keys n cur)
  | inr (q, e) ↦ ground (
    arith,
    contains-keys n cur,
    known_keys-within old cur es h f.1,
    lookup-within cur old n q h e,
  )
]

-- With the known daemons distinct and the process IDs of the answer positive, no daemon counts as
-- changed exactly if the two answers are equal.
pub is_empty-changed_daemons :
    (old cur : Incarnation)
    → Nodup (keys old)
    → all (λ e. ltb 0 e.1) cur ≡ true
    → is_empty (changed_daemons old cur) ≡ maps_equal cur old
unfolding changed_daemons maps_equal
is_empty-changed_daemons old cur n pos =
    let news = filter (λ e. not (pid_of old e.0 == e.1)) cur in
    let gone = filter (λ name. not (contains (keys cur) name)) (keys old) in
    ground (
      arith,
      is_empty-insert (keys news ++ gone),
      is_empty-append (keys news) gone,
      is_empty-keys news,
      is_empty-filter (λ e. not (pid_of old e.0 == e.1)) cur,
      is_empty-filter (λ name. not (contains (keys cur) name)) (keys old),
      same_pids-within old cur pos,
      known_keys-within old cur old,
      Found-self old n,
    )

within_of_Found : (m es : Incarnation) → Found m es → within es m ≡ true
within_of_Found m [] f = refl
within_of_Found m ((n, v) ∷ es) f = ground (arith, within_of_Found m es f.1)

pub maps_equal_self : (m : Incarnation) → Nodup (keys m) → maps_equal m m ≡ true
unfolding maps_equal
maps_equal_self m n = ground (arith, within_of_Found m m (Found-self m n))

pub nonempty-differs : (inc : Incarnation) → is_empty inc ≡ false → maps_equal inc [] ≡ false
unfolding maps_equal
nonempty-differs [] h = ground arith
nonempty-differs (e ∷ inc) h = refl
