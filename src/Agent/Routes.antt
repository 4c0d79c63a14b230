-- ===== src/Agent/Routes.antt =====
-- agent.go: ensureRoutes, which brings the kernel routes and the FRR statics of a host to the
-- desired ones. A run is the list of the calls that it makes, in order; `succeeds` says of a call
-- whether it returned no error.
pub mod Host
pub mod Frr
pub mod Kernel
pub mod Order
pub mod Stable
use ovn_network_agent.Prelude.{
  String, Bool, true, false, ◌&&◌, ◌||◌, not, Option, none, some, List, [], ◌∷◌, ◌++◌, map, ◌==◌,
  string_eq, pair_eq, if◌then◌else◌, contains, lookup, filter, is_empty, all,
}

-- routing.go: kernelRouteEntry, the address and the device
abbrev pub KernelRoute : Type 0
KernelRoute = String × String

pub data Call : Type 0 where
  add_kernel : String → String → Call
  add_frr : List String → Call
  del_frr : List String → Call
  del_kernel : String → String → Call
  refresh_bgp : Call

-- the parameters of ensureRoutes and the two settings that it reads
pub record Wanted : Type 0 where
  pub desired_ips : List String
  pub frr_static_ips : List String
  pub ip_dev : List (String × String)
  pub skip_kernel : List String
  pub port_forward_only : Bool
  pub bridge_dev : String

-- what the two listings return; `none` is an error
pub record Listing : Type 0 where
  pub kernel : Option (List KernelRoute)
  pub frr : Option (List String)

abbrev pub or_nil {ℓ} : {A : Type ℓ} → Option (List A) → List A
or_nil none = []
or_nil (some l) = l

-- desiredRouteDev
unfoldable pub desired_route_dev : Wanted → String → String
desired_route_dev w ip = elim (lookup ip w.ip_dev) [
  | none ↦ w.bridge_dev
  | some dev ↦ if dev == "" then w.bridge_dev else dev
]

module _ (w : Wanted) (l : Listing) where
  -- kernel routes are not listed where they are not managed
  unfoldable pub current_kernel : List KernelRoute
  current_kernel = if w.port_forward_only then [] else or_nil l.kernel

  unfoldable pub current_frr : List String
  current_frr = or_nil l.frr

  unfoldable pub needs_kernel : String → Bool
  needs_kernel ip =
      not w.port_forward_only
      && not (contains w.skip_kernel ip)
      && not (contains current_kernel (ip, desired_route_dev w ip))

  unfoldable pub needs_frr : String → Bool
  needs_frr ip = contains w.frr_static_ips ip && not (contains current_frr ip)

  -- the addresses that the loop gives a kernel route, and those that it collects for FRR
  unfoldable pub kernel_adds : List String
  kernel_adds = filter needs_kernel w.desired_ips

  unfoldable pub frr_adds : List String
  frr_adds = filter needs_frr w.desired_ips

  -- removedKernel
  unfoldable pub stale_kernel : List KernelRoute
  stale_kernel = filter (λ e. not (contains w.desired_ips e.0)) current_kernel

-- the addresses of the stale kernel routes, each once; `removed` is removedSet
unfoldable pub stale_ips : List String → List KernelRoute → List String
stale_ips removed [] = []
stale_ips removed ((ip, dev) ∷ es) =
    let first = ip ∷ stale_ips (ip ∷ removed) es in
    let again = stale_ips removed es in if contains removed ip then again else first

module _ (w : Wanted) (l : Listing) where
  unfoldable pub orphans : List String
  orphans =
      filter
        (λ ip.
          not (contains w.frr_static_ips ip) && not (contains (stale_ips [] (stale_kernel w l)) ip))
        (current_frr w l)

  -- delFRR
  unfoldable pub frr_dels : List String
  frr_dels = stale_ips [] (stale_kernel w l) ++ orphans

  unfoldable pub changes_frr : Bool
  changes_frr = not (is_empty (frr_adds w l)) || not (is_empty frr_dels)

  -- the four stages of ensureRoutes
  unfoldable pub add_calls : List Call
  add_calls =
      map (λ ip. add_kernel ip (desired_route_dev w ip)) (kernel_adds w l)
      ++ (if is_empty (frr_adds w l) then [] else add_frr (frr_adds w l) ∷ [])

  unfoldable pub del_calls : List Call
  del_calls =
      (if is_empty frr_dels then [] else del_frr frr_dels ∷ [])
      ++ map (λ e. del_kernel e.0 e.1) (stale_kernel w l)

  unfoldable pub refresh_calls : List Call
  refresh_calls = if changes_frr then refresh_bgp ∷ [] else []

  unfoldable pub ensure_calls : List Call
  ensure_calls = add_calls ++ (del_calls ++ refresh_calls)

pub record RouteSyncResult : Type 0 where
  pub changed : Bool
  pub announced : Bool
  pub ready : Bool

unfoldable pub ensure_routes : Wanted → Listing → (Call → Bool) → List Call × RouteSyncResult
ensure_routes w l succeeds =
    let adds = frr_adds w l in
    let kernel_ok =
      all succeeds (map (λ ip. add_kernel ip (desired_route_dev w ip)) (kernel_adds w l)) in
    let add_ok = is_empty adds || succeeds (add_frr adds) in
    let refresh_ok = not (changes_frr w l) || succeeds refresh_bgp in
    (
      ensure_calls w l,
      record {
        changed = changes_frr w l;
        announced = not (is_empty adds) && add_ok && refresh_ok;
        ready = kernel_ok && add_ok && refresh_ok;
      },
    )
