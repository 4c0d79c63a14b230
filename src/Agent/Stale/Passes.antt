-- ===== src/Agent/Stale/Passes.antt =====
-- The passes of the stale-chassis cleanup after a chassis was seen.
use ovn_network_agent.Prelude.{
  ℕ, ◌+◌, ◌≤◌, ◌<◌, String, ◌≡◌, refl, sym, inl, inr, Bool, true, false, ◌&&◌, not, Option, none,
  some, List, [], ◌∷◌, arith, ltb, leb, Bool-cases, ◌==◌, nat_eq, string_eq, bool_eq, pair_eq, all,
  all-filter, contains, int_eq,
}
use mathlib.Core.Path.{subst}
use ovn_network_agent.Agent.Stale.{
  StalePass, Missing, track, prune, exceeded, clean_up, pass_listed, cleanup_stale_chassis,
  stale_passes,
}
use ovn_network_agent.Agent.Stale.Grace.{
  is_recent, is_other, track-recent, track-gone, prune-other, recent_of_other, exceeded-recent,
}

-- what holds after a pass that spares a chassis
Spared : String → ℕ → Missing × List String → Type 0
Spared c since r = (all (is_recent c since) r.0 ≡ true) × (contains r.1 c ≡ false)

clean_up-Spared :
    (c : String) (since : ℕ) (ok : Bool) (stale : List String) (m : Missing)
    → all (is_recent c since) m ≡ true
    → contains stale c ≡ false
    → Spared c since (clean_up ok stale m)
unfolding cleanup_stale_chassis Spared
clean_up-Spared c since true [] m h s = (h, refl)
clean_up-Spared c since false [] m h s = (h, refl)
clean_up-Spared c since true (x ∷ stale) m h s =
    (all-filter (is_recent c since) (λ e. not (contains (x ∷ stale) e.0)) m h, s)
clean_up-Spared c since false (x ∷ stale) m h s = (h, s)

listed-Spared :
    (c : String) (since g : ℕ) (p : StalePass) (refs : List String) (m : Missing)
    → all (is_recent c since) (prune refs (track p.all_chassis p.now refs m)) ≡ true
    → p.now < since + g
    → Spared c since (pass_listed g p (some refs) m)
unfolding cleanup_stale_chassis
listed-Spared c since g p refs m h t =
    let tracked = prune refs (track p.all_chassis p.now refs m) in
    clean_up-Spared c since p.cleanup_ok (exceeded g p.now tracked) tracked h
      (exceeded-recent c since g p.now tracked h t)

pruned :
    (c : String) (since : ℕ) (p : StalePass) (refs : List String) (m : Missing)
    → all (is_recent c since) (track p.all_chassis p.now refs m) ≡ true
    → all (is_recent c since) (prune refs (track p.all_chassis p.now refs m)) ≡ true
unfolding prune
pruned c since p refs m h =
    all-filter (is_recent c since) (λ e. contains refs e.0) (track p.all_chassis p.now refs m) h

later-Spared :
    (c : String) (since g : ℕ) (p : StalePass) (refs : Option (List String)) (m : Missing)
    → since ≤ p.now
    → p.now < since + g
    → all (is_recent c since) m ≡ true
    → Spared c since (pass_listed g p refs m)
unfolding cleanup_stale_chassis Spared
later-Spared c since g p none m s t h = (h, refl)
later-Spared c since g p (some refs) m s t h =
    listed-Spared c since g p refs m
      (pruned c since p refs m (track-recent c since p.all_chassis p.now refs m s h)) t

forgotten :
    (c : String) (p : StalePass) (refs : List String) (m : Missing)
    → contains p.all_chassis c ≡ true
    → all (is_other c) (prune refs (track p.all_chassis p.now refs m)) ≡ true
unfolding prune
forgotten c p refs m alive = elim (Bool-cases (contains refs c)) [
  | inl e ↦
      all-filter (is_other c) (λ x. contains refs x.0) (track p.all_chassis p.now refs m)
        (track-gone c p.all_chassis p.now refs m alive e)
  | inr e ↦ prune-other c refs (track p.all_chassis p.now refs m) e
]

seen-Spared :
    (c : String) (g : ℕ) (p : StalePass) (refs : List String) (m : Missing)
    → contains p.all_chassis c ≡ true
    → 0 < g
    → Spared c p.now (pass_listed g p (some refs) m)
seen-Spared c g p refs m alive pos_g =
    listed-Spared c p.now g p refs m
      (recent_of_other c p.now (prune refs (track p.all_chassis p.now refs m))
        (forgotten c p refs m alive))
      (omega arith)

-- A pass stands within the grace period after a time.
abbrev pub is_within : ℕ → ℕ → StalePass → Bool
is_within since g p = leb since p.now && ltb p.now (since + g)

pass-Spared :
    (grace jitter : ℕ) (c : String) (since : ℕ) (p : StalePass) (m : Missing)
    → is_within since (grace + jitter) p ≡ true
    → all (is_recent c since) m ≡ true
    → Spared c since (cleanup_stale_chassis grace jitter p m)
unfolding cleanup_stale_chassis Spared
pass-Spared grace jitter c since p m w h = elim (Bool-cases (grace == 0)) [
  | inl off ↦ rw off (h, refl)
  | inr on ↦
      rw on (later-Spared c since (grace + jitter) p p.referenced m (ground arith) (ground arith) h)
]

passes-Spared :
    (grace jitter : ℕ) (c : String) (since : ℕ) (ps : List StalePass) (m : Missing)
    → all (is_within since (grace + jitter)) ps ≡ true
    → all (is_recent c since) m ≡ true
    → all (λ stale. not (contains stale c)) (stale_passes grace jitter ps m).1 ≡ true
unfolding stale_passes Spared
passes-Spared grace jitter c since [] m w h = refl
passes-Spared grace jitter c since (p ∷ ps) m w h =
    let (recent, spared) = pass-Spared grace jitter c since p m (ground arith) h in
    ground (
      arith,
      passes-Spared grace jitter c since ps (cleanup_stale_chassis grace jitter p m).0
          (ground arith) recent,
    )

first-Spared :
    (grace jitter : ℕ) (c : String) (p : StalePass) (refs : List String) (m : Missing)
    → 0 < grace
    → p.referenced ≡ some refs
    → contains p.all_chassis c ≡ true
    → Spared c p.now (cleanup_stale_chassis grace jitter p m)
unfolding cleanup_stale_chassis
first-Spared grace jitter c p refs m on listed alive =
    let off : (grace == 0) ≡ false = ground arith in
    rw off (
      subst (λ r. Spared c p.now (pass_listed (grace + jitter) p r m)) (sym listed)
        (seen-Spared c (grace + jitter) p refs m alive (omega arith)))

-- With a positive grace period, a chassis that a pass with a successful listing finds in the
-- snapshot is not handed to the cleanup by that pass, nor by any later pass less than the grace
-- period and the jitter after it, whatever the tracker held before and whether cleanups succeed.
pub seen_spared :
    (grace jitter : ℕ) (c : String) (p : StalePass) (refs : List String) (ps : List StalePass)
    (m : Missing)
    → 0 < grace
    → p.referenced ≡ some refs
    → contains p.all_chassis c ≡ true
    → all (is_within p.now (grace + jitter)) ps ≡ true
    → all (λ stale. not (contains stale c)) (stale_passes grace jitter (p ∷ ps) m).1 ≡ true
unfolding stale_passes Spared
seen_spared grace jitter c p refs ps m on listed alive w =
    let (recent, spared) = first-Spared grace jitter c p refs m on listed alive in
    ground (
      arith,
      passes-Spared grace jitter c p.now ps (cleanup_stale_chassis grace jitter p m).0 w recent,
    )
