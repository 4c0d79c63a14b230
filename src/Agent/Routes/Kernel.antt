-- ===== src/Agent/Routes/Kernel.antt =====
-- The kernel routes after a run of ensureRoutes.
use ovn_network_agent.Prelude.{
  String, ◌≡◌, refl, ◌∙◌, true, false, ◌&&◌, not, [], ◌∷◌, ◌++◌, map, arith, if◌then◌else◌, ◌==◌,
  nat_eq, string_eq, bool_eq, pair_eq, is_empty, contains, contains-filter,
}
use ovn_network_agent.Agent.Routes.{
  KernelRoute, add_kernel, add_frr, del_frr, del_kernel, Wanted, Listing, current_kernel,
  needs_kernel, kernel_adds, frr_adds, stale_kernel, frr_dels, add_calls, del_calls, refresh_calls,
  ensure_calls, desired_route_dev,
}
use ovn_network_agent.Agent.Routes.Host.{
  Host, run, run-append, kernel-run-add_kernels, kernel-run-del_kernels, kernel-run-add_batch,
  kernel-run-del_batch,
}

-- the kernel has at most one route to an address in the agent's table
abbrev pub IsFunctional : (h : Host) → h.State → Type 0
IsFunctional h s =
    (ip d d' : String) → h.has_kernel s (ip, d) ≡ true → h.has_kernel s (ip, d') ≡ true → d ≡ d'

module _ (h : Host) (w : Wanted) (l : Listing) (s : h.State) (ip d : String) where
  kernel-run-add_calls : h.has_kernel (run h (add_calls w l) s) (ip, d) ≡ (
      if contains (kernel_adds w l) ip then d == desired_route_dev w ip else h.has_kernel s (ip, d))
  unfolding add_calls
  kernel-run-add_calls =
      let dev = desired_route_dev w in
      let kernels = map (λ j. add_kernel j (dev j)) (kernel_adds w l) in
      let batch = if is_empty (frr_adds w l) then [] else add_frr (frr_adds w l) ∷ [] in
      rw (run-append h kernels batch s) (
        rw (kernel-run-add_batch h (frr_adds w l) (run h kernels s) (ip, d))
          (kernel-run-add_kernels h dev (kernel_adds w l) s ip d))

  kernel-run-del_calls :
      h.has_kernel (run h (del_calls w l) s) (ip, d)
      ≡ (h.has_kernel s (ip, d) && not (contains (stale_kernel w l) (ip, d)))
  unfolding del_calls
  kernel-run-del_calls =
      let batch = if is_empty (frr_dels w l) then [] else del_frr (frr_dels w l) ∷ [] in
      let kernels = map (λ e. del_kernel e.0 e.1) (stale_kernel w l) in
      rw (run-append h batch kernels s) (
        rw (kernel-run-del_kernels h (stale_kernel w l) (run h batch s) (ip, d))
          (rw (kernel-run-del_batch h (frr_dels w l) s (ip, d)) refl))

  kernel-run-refresh : h.has_kernel (run h (refresh_calls w l) s) (ip, d) ≡ h.has_kernel s (ip, d)
  unfolding refresh_calls run
  kernel-run-refresh = ground (arith, h.kernel-refresh s (ip, d))

pub contains-kernel_adds :
    (w : Wanted) (l : Listing) (ip : String)
    → contains (kernel_adds w l) ip ≡ (
        contains w.desired_ips ip
        && not w.port_forward_only
        && not (contains w.skip_kernel ip)
        && not (contains (current_kernel w l) (ip, desired_route_dev w ip)))
unfolding kernel_adds needs_kernel
contains-kernel_adds w l ip = ground (arith, contains-filter (needs_kernel w l) w.desired_ips ip)

pub contains-stale_kernel :
    (w : Wanted) (l : Listing) (e : KernelRoute)
    → contains (stale_kernel w l) e
      ≡ (contains (current_kernel w l) e && not (contains w.desired_ips e.0))
unfolding stale_kernel
contains-stale_kernel w l e =
    contains-filter (λ r. not (contains w.desired_ips r.0)) (current_kernel w l) e

kernel-ensure_raw :
    (h : Host) (w : Wanted) (l : Listing) (s : h.State) (ip d : String)
    → h.has_kernel (run h (ensure_calls w l) s) (ip, d) ≡ (
        (if contains (kernel_adds w l) ip
          then d == desired_route_dev w ip
          else h.has_kernel s (ip, d))
        && not (contains (stale_kernel w l) (ip, d)))
unfolding ensure_calls
kernel-ensure_raw h w l s ip d =
    let added = run h (add_calls w l) s in
    rw (run-append h (add_calls w l) (del_calls w l ++ refresh_calls w l) s) (
      rw (run-append h (del_calls w l) (refresh_calls w l) added) (
        kernel-run-refresh h w l (run h (del_calls w l) added) ip d
        ∙ kernel-run-del_calls h w l added ip d
        ∙ rw (kernel-run-add_calls h w l s ip d) refl))

-- After ensureRoutes, not in port-forward-only mode, with a right listing of the kernel routes, at
-- most one for an address, and all calls successful: each desired address has its route on the
-- device that it wants and on no other, except that one whose segment is unresolved keeps what it
-- had, and no other address has a route.
pub kernel-ensure_calls :
    (h : Host) (w : Wanted) (l : Listing) (s : h.State)
    → w.port_forward_only ≡ false
    → ((e : KernelRoute) → contains (current_kernel w l) e ≡ h.has_kernel s e)
    → IsFunctional h s
    → (ip d : String)
    → h.has_kernel (run h (ensure_calls w l) s) (ip, d) ≡ (
        contains w.desired_ips ip
        && (if contains w.skip_kernel ip
            then h.has_kernel s (ip, d)
            else d == desired_route_dev w ip))
kernel-ensure_calls h w l s full right single ip d = ground (
  arith,
  kernel-ensure_raw h w l s ip d,
  contains-kernel_adds w l ip,
  contains-stale_kernel w l (ip, d),
  right (ip, d),
  right (ip, desired_route_dev w ip),
  single ip d (desired_route_dev w ip),
  string_eq.same_iff d (desired_route_dev w ip),
)

-- In port-forward-only mode a run touches no kernel route.
pub kernel-ensure_calls_pf_only :
    (h : Host) (w : Wanted) (l : Listing) (s : h.State)
    → w.port_forward_only ≡ true
    → (e : KernelRoute) → h.has_kernel (run h (ensure_calls w l) s) e ≡ h.has_kernel s e
unfolding current_kernel
kernel-ensure_calls_pf_only h w l s only (ip, d) = ground (
  arith,
  kernel-ensure_raw h w l s ip d,
  contains-kernel_adds w l ip,
  contains-stale_kernel w l (ip, d),
)
