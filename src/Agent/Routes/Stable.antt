-- ===== src/Agent/Routes/Stable.antt =====
-- A second reconcile that finds the host as the first left it makes no call.
use ovn_network_agent.Prelude.{
  String, ◌≡◌, ◌∙◌, true, false, ◌&&◌, not, [], arith, nat_eq, string_eq, bool_eq, pair_eq, all,
  contains, contains-filter, nil_of_contains,
}
use ovn_network_agent.Agent.Routes.{
  KernelRoute, Wanted, Listing, current_kernel, current_frr, kernel_adds, frr_adds, stale_kernel,
  stale_ips, orphans, frr_dels, changes_frr, add_calls, del_calls, refresh_calls, ensure_calls,
  desired_route_dev,
}
use ovn_network_agent.Agent.Routes.Host.{Host, run}
use ovn_network_agent.Agent.Routes.Frr.{contains-frr_adds, frr-ensure_calls}
use ovn_network_agent.Agent.Routes.Kernel.{
  IsFunctional, contains-kernel_adds, contains-stale_kernel, kernel-ensure_calls,
}

-- Nothing is missing, and nothing stands that is not wanted.
pub record InSync (w : Wanted) (l : Listing) : Type 0 where
  pub frr : (x : String) → contains (current_frr w l) x ≡ contains w.frr_static_ips x
  pub kernel_there :
      (ip : String)
      → contains w.desired_ips ip ≡ true
      → contains w.skip_kernel ip ≡ false
      → contains (current_kernel w l) (ip, desired_route_dev w ip) ≡ true
  pub kernel_wanted :
      (e : KernelRoute) → contains (current_kernel w l) e ≡ true → contains w.desired_ips e.0 ≡ true

module _ (w : Wanted) (l : Listing) (sync : InSync w l) where
  frr_adds-nil : frr_adds w l ≡ []
  frr_adds-nil =
      nil_of_contains (frr_adds w l) (λ x. ground (arith, contains-frr_adds w l x, sync.frr x))

  kernel_adds-nil : kernel_adds w l ≡ []
  kernel_adds-nil =
      nil_of_contains (kernel_adds w l)
        (λ x. ground (arith, contains-kernel_adds w l x, sync.kernel_there x))

  stale_kernel-nil : stale_kernel w l ≡ []
  stale_kernel-nil =
      nil_of_contains (stale_kernel w l)
        (λ x. ground (arith, contains-stale_kernel w l x, sync.kernel_wanted x))

  orphans-nil : orphans w l ≡ []
  unfolding orphans
  orphans-nil =
      let p = λ (ip : String).
        not (contains w.frr_static_ips ip) && not (contains (stale_ips [] (stale_kernel w l)) ip) in
      nil_of_contains (orphans w l)
        (λ x. ground (arith, contains-filter p (current_frr w l) x, sync.frr x))

  -- A run on a host that is in sync makes no call, whatever its statics are.
  pub ensure_calls-InSync : ensure_calls w l ≡ []
  unfolding ensure_calls add_calls del_calls refresh_calls changes_frr frr_dels stale_ips
  ensure_calls-InSync = ground (arith, frr_adds-nil, kernel_adds-nil, stale_kernel-nil, orphans-nil)

-- A second ensureRoutes on the host that the first left makes no call, not in port-forward-only
-- mode, where both listings are right, the first finds at most one kernel route for an address,
-- every address that wants a static is a desired one, and all calls are successful.
pub ensure_calls_idem :
    (h : Host) (w : Wanted) (l l' : Listing) (s : h.State)
    → w.port_forward_only ≡ false
    → all (contains w.desired_ips) w.frr_static_ips ≡ true
    → ((x : String) → contains (current_frr w l) x ≡ h.has_frr s x)
    → ((e : KernelRoute) → contains (current_kernel w l) e ≡ h.has_kernel s e)
    → IsFunctional h s
    → ((x : String) → contains (current_frr w l') x ≡ h.has_frr (run h (ensure_calls w l) s) x)
    → ((e : KernelRoute)
        → contains (current_kernel w l') e ≡ h.has_kernel (run h (ensure_calls w l) s) e)
    → ensure_calls w l' ≡ []
ensure_calls_idem h w l l' s full sub frr kernel single frr' kernel' =
    ensure_calls-InSync w l' (record {
      frr = λ x. frr' x ∙ frr-ensure_calls h w l s sub frr x;
      kernel_there = λ ip want here.
          let dev = desired_route_dev w ip in
          ground (
            arith,
            kernel' (ip, dev),
            kernel-ensure_calls h w l s full kernel single ip dev,
            string_eq.same_iff dev dev,
          );
      kernel_wanted = λ e there.
          ground
            (arith, kernel' (e.0, e.1), kernel-ensure_calls h w l s full kernel single e.0 e.1);
    })
