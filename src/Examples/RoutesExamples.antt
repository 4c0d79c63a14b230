-- ===== src/Examples/RoutesExamples.antt =====
-- Tests of ensureRoutes, on a host that is a pair of lists.
use ovn_network_agent.Prelude.{
  String, ◌≡◌, refl, Bool, true, false, ◌&&◌, ◌||◌, not, some, [], ◌∷◌, arith, if◌then◌else◌, ◌==◌,
  nat_eq, string_eq, bool_eq, pair_eq, contains, int_eq,
}
use mathlib.Core.List.{List}
use ovn_network_agent.Agent.Routes.{
  needs_kernel, needs_frr, kernel_adds, frr_adds, stale_kernel, stale_ips, orphans, changes_frr,
  refresh_calls, del_calls, add_calls, frr_dels, KernelRoute, Call, add_kernel, add_frr, del_frr,
  del_kernel, refresh_bgp, Wanted, Listing, ensure_calls, current_kernel, current_frr,
  desired_route_dev,
}
use ovn_network_agent.Agent.Routes.Host.{Host, run}
use ovn_network_agent.Agent.Routes.Frr.{frr-ensure_calls}
use ovn_network_agent.Agent.Routes.Kernel.{IsFunctional, kernel-ensure_calls}
use ovn_network_agent.Agent.Routes.Order.{Ascending, ensure_calls-Ascending}
use ovn_network_agent.Agent.Routes.Stable.{ensure_calls_idem}

abbrev HostState : Type 0
HostState = (KernelRoute → Bool) × (String → Bool)

-- the sets of routes as their membership tests
abbrev effect : Call → HostState → HostState
effect (add_kernel ip dev) s = (λ e. if e.0 == ip then e.1 == dev else s.0 e, s.1)
effect (add_frr ips) s = (s.0, λ x. contains ips x || s.1 x)
effect (del_frr ips) s = (s.0, λ x. s.1 x && not (contains ips x))
effect (del_kernel ip dev) s = (λ e. s.0 e && not (e == (ip, dev)), s.1)
effect refresh_bgp s = s

abbrev list_host : Host
list_host = record {
  State = HostState;
  has_kernel = λ s e. s.0 e;
  has_frr = λ s x. s.1 x;
  exec = effect;
  kernel-add_kernel = λ s ip dev j d. refl;
  kernel-del_kernel = λ s ip dev e. refl;
  kernel-add_frr = λ s ips e. refl;
  kernel-del_frr = λ s ips e. refl;
  kernel-refresh = λ s e. refl;
  frr-add_kernel = λ s ip dev x. refl;
  frr-del_kernel = λ s ip dev x. refl;
  frr-add_frr = λ s ips x. refl;
  frr-del_frr = λ s ips x. refl;
  frr-refresh = λ s x. refl;
}

-- one address is new, one is on the wrong device, one is no longer wanted
abbrev wanted : Wanted
wanted = record {
  desired_ips = "192.0.2.10" ∷ "192.0.2.11" ∷ "203.0.113.5" ∷ [];
  frr_static_ips = "192.0.2.10" ∷ "192.0.2.11" ∷ [];
  ip_dev = ("192.0.2.10", "br-ex.100") ∷ [];
  skip_kernel = [];
  port_forward_only = false;
  bridge_dev = "br-ex";
}

abbrev kernel : List KernelRoute
kernel = ("192.0.2.10", "br-ex") ∷ ("192.0.2.99", "br-ex") ∷ ("203.0.113.5", "br-ex") ∷ []

abbrev frr : List String
frr = "192.0.2.10" ∷ "203.0.113.5" ∷ []

abbrev listing : Listing
listing = record { kernel = some kernel; frr = some frr }

abbrev before : HostState
before = (contains kernel, contains frr)

calls_of_a_run :
    ensure_calls wanted listing
    ≡ add_kernel "192.0.2.10" "br-ex.100"
      ∷ add_kernel "192.0.2.11" "br-ex"
      ∷ add_frr ("192.0.2.11" ∷ [])
      ∷ del_frr ("192.0.2.99" ∷ "203.0.113.5" ∷ [])
      ∷ del_kernel "192.0.2.99" "br-ex"
      ∷ refresh_bgp
      ∷ []
unfolding ensure_calls add_calls del_calls refresh_calls changes_frr frr_dels orphans stale_ips
    stale_kernel frr_adds kernel_adds needs_frr needs_kernel current_frr current_kernel
    desired_route_dev
calls_of_a_run = refl

single : IsFunctional list_host before
single ip d d' a b = ground (
  arith,
  string_eq.same_iff d "br-ex",
  string_eq.same_iff d' "br-ex",
  string_eq.same_iff ip "192.0.2.10",
  string_eq.same_iff ip "192.0.2.99",
  string_eq.same_iff ip "203.0.113.5",
)

frr-ensure_calls_example :
    list_host.has_frr (run list_host (ensure_calls wanted listing) before) "203.0.113.5"
    ≡ contains wanted.frr_static_ips "203.0.113.5"
unfolding current_frr
frr-ensure_calls_example =
    frr-ensure_calls list_host wanted listing before refl (λ x. refl) "203.0.113.5"

kernel-ensure_calls_example :
    list_host.has_kernel
      (run list_host (ensure_calls wanted listing) before)
      ("192.0.2.10", "br-ex")
    ≡ (contains wanted.desired_ips "192.0.2.10"
        && (if contains wanted.skip_kernel "192.0.2.10"
            then list_host.has_kernel before ("192.0.2.10", "br-ex")
            else "br-ex" == desired_route_dev wanted "192.0.2.10"))
unfolding current_kernel
kernel-ensure_calls_example =
    kernel-ensure_calls list_host wanted listing before refl (λ e. refl) single "192.0.2.10" "br-ex"

ensure_calls-Ascending_example : Ascending 0 (ensure_calls wanted listing)
ensure_calls-Ascending_example = ensure_calls-Ascending wanted listing

abbrev refresh_fails : Call → Bool
refresh_fails refresh_bgp = false
refresh_fails _ = true

-- a host that already has the one route and the one static that are wanted
abbrev settled : Wanted
settled = record wanted { desired_ips = "192.0.2.10" ∷ []; frr_static_ips = "192.0.2.10" ∷ [] }

abbrev first : Listing
first = record { kernel = some []; frr = some [] }

abbrev second : Listing
second = record { kernel = some (("192.0.2.10", "br-ex.100") ∷ []); frr = some ("192.0.2.10" ∷ []) }

ensure_calls_idem_example : ensure_calls settled second ≡ []
unfolding current_kernel current_frr run ensure_calls add_calls del_calls refresh_calls changes_frr
    frr_dels orphans stale_ips stale_kernel frr_adds kernel_adds needs_frr needs_kernel
    desired_route_dev
ensure_calls_idem_example =
    ensure_calls_idem list_host settled first second (contains [], contains []) refl refl
      (λ x. refl) (λ e. refl) (λ ip d d' a b. cc) (λ x. ground arith) (λ e. ground arith)
