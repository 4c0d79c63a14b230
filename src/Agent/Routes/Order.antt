-- ===== src/Agent/Routes/Order.antt =====
-- The order of the calls of ensureRoutes, and what its result says of them.
use ovn_network_agent.Prelude.{
  ℕ, ◌≤◌, String, ◌≡◌, refl, inl, inr, Bool, true, false, ◌&&◌, ◌||◌, not, List, [], ◌∷◌, ◌++◌, map,
  arith, Bool-cases, nat_eq, string_eq, bool_eq, pair_eq, is_empty, any, all, all-append,
  any-append,
}
use mathlib.Core.List.{append_assoc}
use ovn_network_agent.Agent.Routes.{
  frr_dels, frr_adds, stale_kernel, kernel_adds, changes_frr, refresh_calls, del_calls,
  desired_route_dev, Listing, add_calls, Wanted, ensure_routes, ensure_calls, KernelRoute, Call,
  add_kernel, add_frr, del_frr, del_kernel, refresh_bgp,
}

-- the stage of ensureRoutes that makes a call
abbrev pub stage : Call → ℕ
stage (add_kernel _ _) = 0
stage (add_frr _) = 1
stage (del_frr _) = 2
stage (del_kernel _ _) = 3
stage refresh_bgp = 4

-- the stages of the calls never go back, and the first is at least `n`
abbrev pub Ascending : ℕ → List Call → Type 0
Ascending n [] = Unit
Ascending n (c ∷ cs) = (n ≤ stage c) × Ascending (stage c) cs

Ascending-add_kernels :
    (f : String → String) (ips : List String) (cs : List Call)
    → Ascending 0 cs
    → Ascending 0 (map (λ ip. add_kernel ip (f ip)) ips ++ cs)
Ascending-add_kernels f [] cs h = h
Ascending-add_kernels f (ip ∷ ips) cs h = (omega arith, Ascending-add_kernels f ips cs h)

Ascending-weaken : (n m : ℕ) (cs : List Call) → n ≤ m → Ascending m cs → Ascending n cs
Ascending-weaken n m [] le h = tt
Ascending-weaken n m (c ∷ cs) le h = (omega arith, h.1)

Ascending-del_kernels :
    (es : List KernelRoute) (cs : List Call)
    → Ascending 3 cs
    → Ascending 3 (map (λ e. del_kernel e.0 e.1) es ++ cs)
Ascending-del_kernels [] cs h = h
Ascending-del_kernels (e ∷ es) cs h = (omega arith, Ascending-del_kernels es cs h)

module _ (w : Wanted) (l : Listing) where
  Ascending-refresh_calls : Ascending 3 (refresh_calls w l)
  unfolding refresh_calls
  Ascending-refresh_calls = elim (Bool-cases (changes_frr w l)) [
    | inl e ↦ rw e (omega arith)
    | inr e ↦ rw e tt
  ]

  Ascending-del_calls : Ascending 1 (del_calls w l ++ refresh_calls w l)
  unfolding del_calls
  Ascending-del_calls =
      let rest = map (λ e. del_kernel e.0 e.1) (stale_kernel w l) ++ refresh_calls w l in
      let kernels =
        Ascending-del_kernels (stale_kernel w l) (refresh_calls w l) Ascending-refresh_calls in
      rw append_assoc (elim (Bool-cases (is_empty (frr_dels w l))) [
        | inl e ↦ rw e (Ascending-weaken 1 3 rest (omega arith) kernels)
        | inr e ↦ rw e (omega arith, Ascending-weaken 2 3 rest (omega arith) kernels)
      ])

  -- The calls of ensureRoutes are in order: kernel adds, the FRR add, the FRR withdrawal, kernel
  -- deletions, the BGP refresh.
  pub ensure_calls-Ascending : Ascending 0 (ensure_calls w l)
  unfolding ensure_calls add_calls
  ensure_calls-Ascending =
      let rest = del_calls w l ++ refresh_calls w l in
      rw append_assoc (
        Ascending-add_kernels (desired_route_dev w) (kernel_adds w l) _
          (elim (Bool-cases (is_empty (frr_adds w l))) [
            | inl e ↦ rw e (Ascending-weaken 0 1 rest (omega arith) Ascending-del_calls)
            | inr e ↦ rw e (omega arith, Ascending-del_calls)
          ]))

abbrev pub withdraws : Call → Bool
withdraws (del_frr _) = true
withdraws (del_kernel _ _) = true
withdraws _ = false

abbrev pub adds_frr : Call → Bool
adds_frr (add_frr _) = true
adds_frr _ = false

abbrev pub concerns_announce : Call → Bool
concerns_announce (add_frr _) = true
concerns_announce refresh_bgp = true
concerns_announce _ = false

module _ (p : Call → Bool) where
  all-add_kernels :
      (f : String → String) (ips : List String)
      → ((ip dev : String) → p (add_kernel ip dev) ≡ true)
      → all p (map (λ ip. add_kernel ip (f ip)) ips) ≡ true
  all-add_kernels f [] h = refl
  all-add_kernels f (ip ∷ ips) h = ground (arith, h ip (f ip), all-add_kernels f ips h)

  all-del_kernels :
      (es : List KernelRoute)
      → ((ip dev : String) → p (del_kernel ip dev) ≡ true)
      → all p (map (λ e. del_kernel e.0 e.1) es) ≡ true
  all-del_kernels [] h = refl
  all-del_kernels (e ∷ es) h = ground (arith, h e.0 e.1, all-del_kernels es h)

  any-add_kernels :
      (f : String → String) (ips : List String)
      → ((ip dev : String) → p (add_kernel ip dev) ≡ false)
      → any p (map (λ ip. add_kernel ip (f ip)) ips) ≡ false
  any-add_kernels f [] h = refl
  any-add_kernels f (ip ∷ ips) h = ground (arith, h ip (f ip), any-add_kernels f ips h)

  any-del_kernels :
      (es : List KernelRoute)
      → ((ip dev : String) → p (del_kernel ip dev) ≡ false)
      → any p (map (λ e. del_kernel e.0 e.1) es) ≡ false
  any-del_kernels [] h = refl
  any-del_kernels (e ∷ es) h = ground (arith, h e.0 e.1, any-del_kernels es h)

  all-ensure_calls :
      (w : Wanted) (l : Listing)
      → all p (ensure_calls w l) ≡ (
          all p (map (λ ip. add_kernel ip (desired_route_dev w ip)) (kernel_adds w l))
          && (is_empty (frr_adds w l) || p (add_frr (frr_adds w l)))
          && (is_empty (frr_dels w l) || p (del_frr (frr_dels w l)))
          && all p (map (λ e. del_kernel e.0 e.1) (stale_kernel w l))
          && (not (changes_frr w l) || p refresh_bgp))
  unfolding ensure_calls add_calls del_calls refresh_calls
  all-ensure_calls w l = simp all-append (ground arith)

  any-ensure_calls :
      (w : Wanted) (l : Listing)
      → any p (ensure_calls w l) ≡ (
          any p (map (λ ip. add_kernel ip (desired_route_dev w ip)) (kernel_adds w l))
          || (not (is_empty (frr_adds w l)) && p (add_frr (frr_adds w l)))
          || (not (is_empty (frr_dels w l)) && p (del_frr (frr_dels w l)))
          || any p (map (λ e. del_kernel e.0 e.1) (stale_kernel w l))
          || (changes_frr w l && p refresh_bgp))
  unfolding ensure_calls add_calls del_calls refresh_calls
  any-ensure_calls w l = simp any-append (ground arith)

all-essential :
    (succeeds : Call → Bool) (f : String → String) (ips : List String)
    → all (λ c. withdraws c || succeeds c) (map (λ ip. add_kernel ip (f ip)) ips)
      ≡ all succeeds (map (λ ip. add_kernel ip (f ip)) ips)
all-essential succeeds f [] = refl
all-essential succeeds f (ip ∷ ips) = ground (arith, all-essential succeeds f ips)

-- ready is true exactly if no call other than a withdrawal failed.
pub ready_iff :
    (w : Wanted) (l : Listing) (succeeds : Call → Bool)
    → let (calls, result) = ensure_routes w l succeeds in
      result.ready ≡ all (λ c. withdraws c || succeeds c) calls
unfolding ensure_routes
ready_iff w l succeeds =
    let p = λ (c : Call). withdraws c || succeeds c in
    ground (
      arith,
      all-ensure_calls p w l,
      all-essential succeeds (desired_route_dev w) (kernel_adds w l),
      all-del_kernels p (stale_kernel w l) (λ ip dev. refl),
    )

-- announced is true exactly if statics were added and neither the add nor the refresh failed.
pub announced_iff :
    (w : Wanted) (l : Listing) (succeeds : Call → Bool)
    → let (calls, result) = ensure_routes w l succeeds in
      result.announced
      ≡ (any adds_frr calls && all (λ c. not (concerns_announce c) || succeeds c) calls)
unfolding ensure_routes
announced_iff w l succeeds =
    let p = λ (c : Call). not (concerns_announce c) || succeeds c in
    ground (
      arith,
      all-ensure_calls p w l,
      any-ensure_calls adds_frr w l,
      all-add_kernels p (desired_route_dev w) (kernel_adds w l) (λ ip dev. refl),
      all-del_kernels p (stale_kernel w l) (λ ip dev. refl),
      any-add_kernels adds_frr (desired_route_dev w) (kernel_adds w l) (λ ip dev. refl),
      any-del_kernels adds_frr (stale_kernel w l) (λ ip dev. refl),
    )
