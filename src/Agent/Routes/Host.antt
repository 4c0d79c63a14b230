-- ===== src/Agent/Routes/Host.antt =====
-- The host that the calls of ensureRoutes act on, behind what `ip route replace`, `ip route del`
-- and the configuration of FRR document: a /32 has one route in the agent's table, and the calls
-- for the kernel and for FRR do not disturb each other. The laws are those of calls that succeed.
use ovn_network_agent.Prelude.{
  String, is_empty, ◌≡◌, refl, ◌∙◌, Bool, ◌&&◌, ◌||◌, not, List, [], ◌∷◌, ◌++◌, map, ◌==◌,
  string_eq, pair_eq, if◌then◌else◌, contains, arith,
}
use ovn_network_agent.Agent.Routes.{
  KernelRoute, Call, add_kernel, add_frr, del_frr, del_kernel, refresh_bgp,
}

pub record Host : Type 1 where
  pub State : Type 0
  pub has_kernel : State → KernelRoute → Bool
  pub has_frr : State → String → Bool
  pub exec : Call → State → State
  pub kernel-add_kernel :
      (s : State) (ip dev j d : String)
      → has_kernel (exec (add_kernel ip dev) s) (j, d)
        ≡ (if j == ip then d == dev else has_kernel s (j, d))
  pub kernel-del_kernel :
      (s : State) (ip dev : String) (e : KernelRoute)
      → has_kernel (exec (del_kernel ip dev) s) e ≡ (has_kernel s e && not (e == (ip, dev)))
  pub kernel-add_frr :
      (s : State) (ips : List String) (e : KernelRoute)
      → has_kernel (exec (add_frr ips) s) e ≡ has_kernel s e
  pub kernel-del_frr :
      (s : State) (ips : List String) (e : KernelRoute)
      → has_kernel (exec (del_frr ips) s) e ≡ has_kernel s e
  pub kernel-refresh :
      (s : State) (e : KernelRoute) → has_kernel (exec refresh_bgp s) e ≡ has_kernel s e
  pub frr-add_kernel :
      (s : State) (ip dev x : String) → has_frr (exec (add_kernel ip dev) s) x ≡ has_frr s x
  pub frr-del_kernel :
      (s : State) (ip dev x : String) → has_frr (exec (del_kernel ip dev) s) x ≡ has_frr s x
  pub frr-add_frr :
      (s : State) (ips : List String) (x : String)
      → has_frr (exec (add_frr ips) s) x ≡ (contains ips x || has_frr s x)
  pub frr-del_frr :
      (s : State) (ips : List String) (x : String)
      → has_frr (exec (del_frr ips) s) x ≡ (has_frr s x && not (contains ips x))
  pub frr-refresh : (s : State) (x : String) → has_frr (exec refresh_bgp s) x ≡ has_frr s x

module _ (h : Host) where
  open h use {State, has_kernel, has_frr, exec}

  unfoldable pub run : List Call → State → State
  run [] s = s
  run (c ∷ cs) s = run cs (exec c s)

  pub run-append : (cs ds : List Call) (s : State) → run (cs ++ ds) s ≡ run ds (run cs s)
  unfolding run
  run-append [] ds s = refl
  run-append (c ∷ cs) ds s = run-append cs ds (exec c s)

  pub frr-run-add_kernels :
      (f : String → String) (ips : List String) (s : State) (x : String)
      → has_frr (run (map (λ ip. add_kernel ip (f ip)) ips) s) x ≡ has_frr s x
  unfolding run
  frr-run-add_kernels f [] s x = refl
  frr-run-add_kernels f (ip ∷ ips) s x =
      frr-run-add_kernels f ips (exec (add_kernel ip (f ip)) s) x ∙ h.frr-add_kernel s ip (f ip) x

  pub kernel-run-add_kernels :
      (f : String → String) (ips : List String) (s : State) (j d : String)
      → has_kernel (run (map (λ ip. add_kernel ip (f ip)) ips) s) (j, d)
        ≡ (if contains ips j then d == f j else has_kernel s (j, d))
  unfolding run
  kernel-run-add_kernels f [] s j d = refl
  kernel-run-add_kernels f (ip ∷ ips) s j d = ground (
    arith,
    kernel-run-add_kernels f ips (exec (add_kernel ip (f ip)) s) j d,
    h.kernel-add_kernel s ip (f ip) j d,
    string_eq.same_iff j ip,
  )

  pub frr-run-del_kernels :
      (es : List KernelRoute) (s : State) (x : String)
      → has_frr (run (map (λ e. del_kernel e.0 e.1) es) s) x ≡ has_frr s x
  unfolding run
  frr-run-del_kernels [] s x = refl
  frr-run-del_kernels (e ∷ es) s x =
      frr-run-del_kernels es (exec (del_kernel e.0 e.1) s) x ∙ h.frr-del_kernel s e.0 e.1 x

  pub kernel-run-del_kernels :
      (es : List KernelRoute) (s : State) (e : KernelRoute)
      → has_kernel (run (map (λ r. del_kernel r.0 r.1) es) s) e
        ≡ (has_kernel s e && not (contains es e))
  unfolding run
  kernel-run-del_kernels [] s e = ground arith
  kernel-run-del_kernels (r ∷ es) s e = ground (
    arith,
    kernel-run-del_kernels es (exec (del_kernel r.0 r.1) s) e,
    h.kernel-del_kernel s r.0 r.1 e,
  )

  -- The batches are sent only where they are not empty.
  pub frr-run-add_batch :
      (ips : List String) (s : State) (x : String)
      → has_frr (run (if is_empty ips then [] else add_frr ips ∷ []) s) x
        ≡ (contains ips x || has_frr s x)
  unfolding run
  frr-run-add_batch [] s x = refl
  frr-run-add_batch (ip ∷ ips) s x = h.frr-add_frr s (ip ∷ ips) x

  pub frr-run-del_batch :
      (ips : List String) (s : State) (x : String)
      → has_frr (run (if is_empty ips then [] else del_frr ips ∷ []) s) x
        ≡ (has_frr s x && not (contains ips x))
  unfolding run
  frr-run-del_batch [] s x = ground arith
  frr-run-del_batch (ip ∷ ips) s x = h.frr-del_frr s (ip ∷ ips) x

  pub kernel-run-add_batch :
      (ips : List String) (s : State) (e : KernelRoute)
      → has_kernel (run (if is_empty ips then [] else add_frr ips ∷ []) s) e ≡ has_kernel s e
  unfolding run
  kernel-run-add_batch [] s e = refl
  kernel-run-add_batch (ip ∷ ips) s e = h.kernel-add_frr s (ip ∷ ips) e

  pub kernel-run-del_batch :
      (ips : List String) (s : State) (e : KernelRoute)
      → has_kernel (run (if is_empty ips then [] else del_frr ips ∷ []) s) e ≡ has_kernel s e
  unfolding run
  kernel-run-del_batch [] s e = refl
  kernel-run-del_batch (ip ∷ ips) s e = h.kernel-del_frr s (ip ∷ ips) e
