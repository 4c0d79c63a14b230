-- ===== src/Agent/Stale/Grace.antt =====
-- A chassis that was seen is not cleaned up within the grace period.
use ovn_network_agent.Prelude.{
  ℕ, ◌+◌, ◌≤◌, ◌<◌, String, ◌≡◌, refl, ap, inl, inr, Bool, true, false, ◌||◌, not, List, [], ◌∷◌,
  arith, leb, Bool-cases, ◌==◌, nat_eq, string_eq, bool_eq, pair_eq, all, all-filter,
  all-filter_self, contains, insert, int_eq,
}
use ovn_network_agent.Agent.Stale.{Missing, track_one, track, prune, exceeded}

-- no entry of the chassis is older than `since`
abbrev pub is_recent : String → ℕ → String × ℕ → Bool
is_recent c since e = not (c == e.0) || leb since e.1

abbrev pub is_other : String → String × ℕ → Bool
is_other c e = not (c == e.0)

all-insert :
    (q : String × ℕ → Bool) (k : String) (v : ℕ) (m : Missing)
    → all q m ≡ true
    → q (k, v) ≡ true
    → all q (insert k v m) ≡ true
all-insert q k v [] h e = ground arith
all-insert q k v ((j, w) ∷ m) h e = elim (Bool-cases (k == j)) [
  | inl s ↦ rw s (ground arith)
  | inr d ↦ rw d (ground (arith, all-insert q k v m))
]

track_one-recent :
    (c : String) (since : ℕ) (all_chassis : List String) (now : ℕ) (r : String) (m : Missing)
    → since ≤ now
    → all (is_recent c since) m ≡ true
    → all (is_recent c since) (track_one all_chassis now r m) ≡ true
unfolding track_one
track_one-recent c since all_chassis now r m t h = ground (
  arith,
  all-filter (is_recent c since) (λ e. not (r == e.0)) m,
  all-insert (is_recent c since) r now m,
)

pub track-recent :
    (c : String) (since : ℕ) (all_chassis : List String) (now : ℕ) (refs : List String)
    (m : Missing)
    → since ≤ now
    → all (is_recent c since) m ≡ true
    → all (is_recent c since) (track all_chassis now refs m) ≡ true
unfolding track
track-recent c since all_chassis now [] m t h = h
track-recent c since all_chassis now (r ∷ refs) m t h =
    track-recent c since all_chassis now refs (track_one all_chassis now r m) t
      (track_one-recent c since all_chassis now r m t h)

another :
    (all_chassis : List String) (c r : String)
    → contains all_chassis c ≡ true
    → contains all_chassis r ≡ false
    → (c == r) ≡ false
another all_chassis c r t e = elim (Bool-cases (c == r)) [
  | inl s ↦ absurd (ground (arith, ap (contains all_chassis) ((string_eq.same_iff c r).0 s)))
  | inr d ↦ d
]

-- of a chassis that is there, nothing is tracked anew
track_one-other :
    (c : String) (all_chassis : List String) (now : ℕ) (r : String) (m : Missing)
    → contains all_chassis c ≡ true
    → all (is_other c) m ≡ true
    → all (is_other c) (track_one all_chassis now r m) ≡ true
unfolding track_one
track_one-other c all_chassis now r m t h = elim (Bool-cases (contains all_chassis r)) [
  | inl e ↦ rw e (all-filter (is_other c) (λ x. not (r == x.0)) m h)
  | inr e ↦ rw e (ground (arith, all-insert (is_other c) r now m, another all_chassis c r t e))
]

track_one-gone :
    (c : String) (all_chassis : List String) (now : ℕ) (m : Missing)
    → contains all_chassis c ≡ true
    → all (is_other c) (track_one all_chassis now c m) ≡ true
unfolding track_one
track_one-gone c all_chassis now m t = rw t (all-filter_self (λ e. not (c == e.0)) m)

track-other :
    (c : String) (all_chassis : List String) (now : ℕ) (refs : List String) (m : Missing)
    → contains all_chassis c ≡ true
    → all (is_other c) m ≡ true
    → all (is_other c) (track all_chassis now refs m) ≡ true
unfolding track
track-other c all_chassis now [] m t h = h
track-other c all_chassis now (r ∷ refs) m t h =
    track-other c all_chassis now refs (track_one all_chassis now r m) t
      (track_one-other c all_chassis now r m t h)

pub track-gone :
    (c : String) (all_chassis : List String) (now : ℕ) (refs : List String) (m : Missing)
    → contains all_chassis c ≡ true
    → contains refs c ≡ true
    → all (is_other c) (track all_chassis now refs m) ≡ true
unfolding track
track-gone c all_chassis now [] m t h = absurd (ground arith)
track-gone c all_chassis now (r ∷ refs) m t h = elim (Bool-cases (c == r)) [
  | inl s ↦
      track-other c all_chassis now refs (track_one all_chassis now r m) t
        (rw (← (string_eq.same_iff c r).0 s) (track_one-gone c all_chassis now m t))
  | inr d ↦ track-gone c all_chassis now refs (track_one all_chassis now r m) t (ground arith)
]

kept_key :
    (refs : List String) (c j : String)
    → contains refs c ≡ false
    → (not (contains refs j) || not (c == j)) ≡ true
kept_key refs c j h = elim (Bool-cases (c == j)) [
  | inl s ↦ rw (← (string_eq.same_iff c j).0 s) (ground arith)
  | inr d ↦ rw d (ground arith)
]

-- after the pruning nothing is left of a chassis that is there
pub prune-other :
    (c : String) (refs : List String) (m : Missing)
    → contains refs c ≡ false
    → all (is_other c) (prune refs m) ≡ true
unfolding prune
prune-other c refs [] h = refl
prune-other c refs ((j, w) ∷ m) h = ground (arith, prune-other c refs m h, kept_key refs c j h)

pub recent_of_other :
    (c : String) (since : ℕ) (m : Missing)
    → all (is_other c) m ≡ true
    → all (is_recent c since) m ≡ true
recent_of_other c since [] h = refl
recent_of_other c since (e ∷ m) h = ground (arith, recent_of_other c since m)

pub exceeded-recent :
    (c : String) (since effective_grace now : ℕ) (m : Missing)
    → all (is_recent c since) m ≡ true
    → now < since + effective_grace
    → contains (exceeded effective_grace now m) c ≡ false
unfolding exceeded
exceeded-recent c since g now [] h t = refl
exceeded-recent c since g now ((j, w) ∷ m) h t = ground (arith, exceeded-recent c since g now m)
