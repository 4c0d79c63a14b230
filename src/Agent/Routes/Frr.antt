-- ===== src/Agent/Routes/Frr.antt =====
-- The FRR statics after a run of ensureRoutes.
use ovn_network_agent.Prelude.{
  String, ◌≡◌, refl, true, false, ◌&&◌, ◌||◌, not, List, [], ◌∷◌, ◌++◌, map, string_eq, pair_eq,
  if◌then◌else◌, contains, filter, all, arith, contains-append, contains-filter, all-contains,
  is_empty, keys,
}
use ovn_network_agent.Agent.Routes.{
  KernelRoute, add_kernel, add_frr, del_frr, del_kernel, Wanted, Listing, current_kernel,
  current_frr, needs_frr, kernel_adds, frr_adds, stale_kernel, stale_ips, orphans, frr_dels,
  add_calls, del_calls, refresh_calls, ensure_calls, desired_route_dev,
}
use ovn_network_agent.Agent.Routes.Host.{
  Host, run, run-append, frr-run-add_kernels, frr-run-del_kernels, frr-run-add_batch,
  frr-run-del_batch,
}

pub contains-stale_ips :
    (removed : List String) (es : List KernelRoute) (x : String)
    → contains (stale_ips removed es) x ≡ (contains (keys es) x && not (contains removed x))
unfolding stale_ips
contains-stale_ips removed [] x = refl
contains-stale_ips removed ((ip, dev) ∷ es) x = ground (
  arith,
  contains-stale_ips removed es x,
  contains-stale_ips (ip ∷ removed) es x,
  string_eq.same_iff x ip,
)

-- A stale kernel route is none of a desired address.
contains-keys-stale :
    (ips : List String) (es : List KernelRoute) (x : String)
    → contains (keys (filter (λ e. not (contains ips e.0)) es)) x
      ≡ (contains (keys es) x && not (contains ips x))
contains-keys-stale ips [] x = refl
contains-keys-stale ips ((ip, dev) ∷ es) x =
    ground (arith, contains-keys-stale ips es x, string_eq.same_iff x ip)

module _ (w : Wanted) (l : Listing) where
  -- The withdrawn addresses are those of stale kernel routes and the statics that are not wanted.
  pub contains-frr_dels :
      (x : String)
      → contains (frr_dels w l) x ≡ (
          (contains (keys (current_kernel w l)) x && not (contains w.desired_ips x))
          || (contains (current_frr w l) x && not (contains w.frr_static_ips x)))
  unfolding frr_dels orphans stale_kernel
  contains-frr_dels x =
      let stale = stale_kernel w l in
      let gone = stale_ips [] stale in
      ground (
        arith,
        contains-append gone (orphans w l) x,
        contains-filter (λ ip. not (contains w.frr_static_ips ip) && not (contains gone ip))
            (current_frr w l) x,
        contains-stale_ips [] stale x,
        contains-keys-stale w.desired_ips (current_kernel w l) x,
      )

  pub contains-frr_adds :
      (x : String)
      → contains (frr_adds w l) x ≡ (
          contains w.desired_ips x
          && contains w.frr_static_ips x
          && not (contains (current_frr w l) x))
  unfolding frr_adds needs_frr
  contains-frr_adds x = ground (arith, contains-filter (needs_frr w l) w.desired_ips x)

  -- No address that should have a static is withdrawn from FRR, whatever the listings returned,
  -- where every address that wants a static is a desired one.
  pub frr_dels-spare_wanted :
      (x : String)
      → all (contains w.desired_ips) w.frr_static_ips ≡ true
      → contains w.frr_static_ips x ≡ true
      → contains (frr_dels w l) x ≡ false
  frr_dels-spare_wanted x sub want =
      ground (arith, contains-frr_dels x, all-contains (contains w.desired_ips) w.frr_static_ips x)

module _ (h : Host) (w : Wanted) (l : Listing) (s : h.State) (x : String) where
  frr-run-add_calls :
      h.has_frr (run h (add_calls w l) s) x ≡ (contains (frr_adds w l) x || h.has_frr s x)
  unfolding add_calls
  frr-run-add_calls =
      let dev = desired_route_dev w in
      let kernels = map (λ ip. add_kernel ip (dev ip)) (kernel_adds w l) in
      let batch = if is_empty (frr_adds w l) then [] else add_frr (frr_adds w l) ∷ [] in
      rw (run-append h kernels batch s) (
        rw (frr-run-add_batch h (frr_adds w l) (run h kernels s) x)
          (rw (frr-run-add_kernels h dev (kernel_adds w l) s x) refl))

  frr-run-del_calls :
      h.has_frr (run h (del_calls w l) s) x ≡ (h.has_frr s x && not (contains (frr_dels w l) x))
  unfolding del_calls
  frr-run-del_calls =
      let batch = if is_empty (frr_dels w l) then [] else del_frr (frr_dels w l) ∷ [] in
      let kernels = map (λ e. del_kernel e.0 e.1) (stale_kernel w l) in
      rw (run-append h batch kernels s) (
        rw (frr-run-del_kernels h (stale_kernel w l) (run h batch s) x)
          (frr-run-del_batch h (frr_dels w l) s x))

  frr-run-refresh : h.has_frr (run h (refresh_calls w l) s) x ≡ h.has_frr s x
  unfolding refresh_calls run
  frr-run-refresh = ground (arith, h.frr-refresh s x)

-- After ensureRoutes, with a right listing of the FRR statics and all calls successful, the
-- statics of the host are exactly the wanted ones, where every address that wants a static is a
-- desired one.
pub frr-ensure_calls :
    (h : Host) (w : Wanted) (l : Listing) (s : h.State)
    → all (contains w.desired_ips) w.frr_static_ips ≡ true
    → ((x : String) → contains (current_frr w l) x ≡ h.has_frr s x)
    → (x : String) → h.has_frr (run h (ensure_calls w l) s) x ≡ contains w.frr_static_ips x
unfolding ensure_calls
frr-ensure_calls h w l s sub right x =
    let added = run h (add_calls w l) s in
    let deleted = run h (del_calls w l) added in
    rw (run-append h (add_calls w l) (del_calls w l ++ refresh_calls w l) s) (
      rw (run-append h (del_calls w l) (refresh_calls w l) added) (
        ground (
          arith,
          frr-run-refresh h w l deleted x,
          frr-run-del_calls h w l added x,
          frr-run-add_calls h w l s x,
          contains-frr_adds w l x,
          contains-frr_dels w l x,
          all-contains (contains w.desired_ips) w.frr_static_ips x,
          right x,
        )))
