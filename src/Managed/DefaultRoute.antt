-- ===== src/Managed/DefaultRoute.antt =====
-- ensureDefaultRoute writes the default route as this chassis wants it, once.
use ovn_network_agent.Prelude.{
  String, ◌≡◌, refl, sym, ap, ◌∙◌, ◌⊎◌, inl, inr, true, false, ◌&&◌, Option, none, some, List, [],
  ◌∷◌, ◌++◌, map, arith, if◌then◌else◌, Bool-cases, Option-cases, ◌==◌, nat_eq, string_eq, bool_eq,
  pair_eq, any, contains, eq_self, contains-append, lookup-insert, Nodup, int_eq,
}
use mathlib.Core.Path.{subst}
use ovn_network_agent.Ovn.State.{LocalRouterInfo}
use ovn_network_agent.Northbound.{StaticRoute, LogicalRouter, is_managed, chassis_tag}
use ovn_network_agent.Managed.{
  Write, create_route, update_route, create_mac, update_mac, adjusted, find_default, find_router,
  ensure_default_route, new_route,
}

-- the default route as this chassis wants it
abbrev pub Wanted : LocalRouterInfo → String → String → StaticRoute → Type 0
Wanted lr vgw_ip chassis route =
    (is_managed route ≡ true) × (route.nexthop ≡ vgw_ip) × (chassis_tag route ≡ chassis)

-- the rows of the routes after a write
abbrev pub routes_after : Write → List StaticRoute → List StaticRoute
routes_after (create_route router route) routes = routes ++ route ∷ []
routes_after (update_route route) routes =
    map (λ old. if old.uuid == route.uuid then route else old) routes
routes_after _ routes = routes

-- the row of a router after a route was added to a router
abbrev pub linked_to : String → String → LogicalRouter → LogicalRouter
linked_to router uuid r =
    if r.uuid == router then record r { static_routes = r.static_routes ++ uuid ∷ [] } else r

-- the rows of the routers after a write
abbrev pub routers_after : Write → List LogicalRouter → List LogicalRouter
routers_after (create_route router route) routers = map (linked_to router route.uuid) routers
routers_after _ routers = routers

-- The write is of a default route as this chassis wants it: an old row that has the agent's tag,
-- or a new one, on the router asked for.
abbrev pub IsWanted : LocalRouterInfo → String → String → List StaticRoute → Write → Type 0
IsWanted lr vgw_ip chassis routes (update_route new) =
    (any (λ old. old.uuid == new.uuid && is_managed old && old.ip_prefix == "0.0.0.0/0") routes
      ≡ true)
    × (new.ip_prefix ≡ "0.0.0.0/0")
    × Wanted lr vgw_ip chassis new
IsWanted lr vgw_ip chassis routes (create_route router new) =
    (router ≡ lr.router_uuid)
    × (new.ip_prefix ≡ "0.0.0.0/0")
    × (new.output_port ≡ some lr.lrp_name)
    × Wanted lr vgw_ip chassis new
IsWanted lr vgw_ip chassis routes (create_mac b) = ⊥
IsWanted lr vgw_ip chassis routes (update_mac b) = ⊥

abbrev pub route_uuids : List StaticRoute → List String
route_uuids routes = map (λ route. route.uuid) routes

-- what the adjustment of a route gives
adjusted-Wanted :
    (lr : LocalRouterInfo) (vgw_ip chassis : String) (route new : StaticRoute)
    → adjusted lr vgw_ip chassis route ≡ some new
    → (is_managed route ≡ true)
      × (new.uuid ≡ route.uuid)
      × (new.ip_prefix ≡ route.ip_prefix)
      × Wanted lr vgw_ip chassis new
      × (adjusted lr vgw_ip chassis new ≡ none)
unfolding adjusted
adjusted-Wanted lr vgw_ip chassis route new h = ground (
  arith,
  lookup-insert "ovn-network-agent-chassis" "ovn-network-agent-chassis" chassis route.external_ids,
  lookup-insert "ovn-network-agent-chassis" "ovn-network-agent" chassis route.external_ids,
  string_eq.same_iff route.nexthop vgw_ip,
  string_eq.same_iff vgw_ip vgw_ip,
  string_eq.same_iff chassis chassis,
)

-- the first default route is a row of the table, and its prefix is that of one
found-default :
    (uuids : List String) (routes : List StaticRoute) (route : StaticRoute)
    → find_default uuids routes ≡ some route
    → (contains (route_uuids routes) route.uuid ≡ true)
      × ((contains uuids route.uuid && route.ip_prefix == "0.0.0.0/0") ≡ true)
unfolding find_default
found-default uuids [] route h = absurd (ground arith)
found-default uuids (r ∷ routes) route h =
    elim (Bool-cases (contains uuids r.uuid && r.ip_prefix == "0.0.0.0/0")) [
      | inl e ↦ ground (arith, eq_self r.uuid)
      | inr e ↦ ground (arith, found-default uuids routes route)
    ]

found-any :
    (uuids : List String) (routes : List StaticRoute) (route : StaticRoute)
    → find_default uuids routes ≡ some route
    → is_managed route ≡ true
    → any (λ old. old.uuid == route.uuid && is_managed old && old.ip_prefix == "0.0.0.0/0") routes
      ≡ true
unfolding find_default
found-any uuids [] route h m = absurd (ground arith)
found-any uuids (r ∷ routes) route h m =
    elim (Bool-cases (contains uuids r.uuid && r.ip_prefix == "0.0.0.0/0")) [
      | inl e ↦ ground (arith, eq_self r.uuid)
      | inr e ↦ ground (arith, found-any uuids routes route)
    ]

-- the first default route after its row was written
default-updated :
    (uuids : List String) (routes : List StaticRoute) (route new : StaticRoute)
    → Nodup (route_uuids routes)
    → find_default uuids routes ≡ some route
    → new.uuid ≡ route.uuid
    → new.ip_prefix ≡ route.ip_prefix
    → find_default uuids (routes_after (update_route new) routes) ≡ some new
unfolding find_default
default-updated uuids [] route new n h u i = absurd (ground arith)
default-updated uuids (r ∷ routes) route new n h u i =
    elim (Bool-cases (contains uuids r.uuid && r.ip_prefix == "0.0.0.0/0")) [
      | inl e ↦
          let same : r ≡ route = ground arith in
          ground (
            arith,
            ap (λ (x : StaticRoute). x.uuid) same ∙ sym u,
            ap (λ (x : StaticRoute). x.ip_prefix) same ∙ sym i,
            ap (λ (x : StaticRoute). contains uuids x.uuid) same ∙ ap (contains uuids) (sym u),
            eq_self new.uuid,
            string_eq.same_iff r.uuid new.uuid,
          )
      | inr e ↦
          let later : find_default uuids routes ≡ some route = ground arith in
          ground (
            arith,
            default-updated uuids routes route new n.1 later u i,
            (found-default uuids routes route later).0,
            ap (contains (route_uuids routes)) u,
            λ (s : r.uuid ≡ new.uuid). ap (contains (route_uuids routes)) s,
            string_eq.same_iff r.uuid new.uuid,
          )
    ]

-- the new row is the first default route where there was none
default-created :
    (uuids : List String) (routes : List StaticRoute) (new : StaticRoute)
    → contains (route_uuids routes) new.uuid ≡ false
    → new.ip_prefix ≡ "0.0.0.0/0"
    → find_default uuids routes ≡ none
    → find_default (uuids ++ new.uuid ∷ []) (routes ++ new ∷ []) ≡ some new
unfolding find_default
default-created uuids [] new fresh i h = ground (
  arith,
  contains-append uuids (new.uuid ∷ []) new.uuid,
  eq_self new.uuid,
  string_eq.same_iff new.ip_prefix "0.0.0.0/0",
)
default-created uuids (r ∷ routes) new fresh i h = ground (
  arith,
  default-created uuids routes new,
  contains-append uuids (new.uuid ∷ []) r.uuid,
  string_eq.same_iff r.uuid new.uuid,
  string_eq.same_iff new.uuid r.uuid,
)

router-linked :
    (uuid route : String) (routers : List LogicalRouter)
    → find_router uuid (map (linked_to uuid route) routers) ≡ elim (find_router uuid routers) [
      | none ↦ none
      | some r ↦ some (record r { static_routes = r.static_routes ++ route ∷ [] })
    ]
unfolding find_router
router-linked uuid route [] = refl
router-linked uuid route (r ∷ routers) = ground (arith, router-linked uuid route routers)

-- the next pass where the router is found, and its default route is settled
settled_at :
    (lr : LocalRouterInfo) (vgw_ip chassis : String) (routes : List StaticRoute)
    (routers : List LogicalRouter) (router : LogicalRouter) (route : StaticRoute)
    → find_router lr.router_uuid routers ≡ some router
    → find_default router.static_routes routes ≡ some route
    → adjusted lr vgw_ip chassis route ≡ none
    → ensure_default_route lr vgw_ip chassis routes routers ≡ some none
unfolding ensure_default_route
settled_at lr vgw_ip chassis routes routers router route a b c = ground arith

-- what the first pass found
abbrev WriteReason :
    LocalRouterInfo → String → String → List StaticRoute → List LogicalRouter → Write → Type 0
WriteReason lr vgw_ip chassis routes routers w =
    (router : LogicalRouter) × (find_router lr.router_uuid routers ≡ some router)
    × (((find_default router.static_routes routes ≡ none)
          × (w ≡ create_route lr.router_uuid (new_route lr vgw_ip chassis)))
        ⊎ ((route : StaticRoute) × (new : StaticRoute) × (find_default router.static_routes routes
              ≡ some route)
            × (adjusted lr vgw_ip chassis route ≡ some new)
            × (w ≡ update_route new)))

ensure_cases :
    (lr : LocalRouterInfo) (vgw_ip chassis : String) (routes : List StaticRoute)
    (routers : List LogicalRouter) (w : Write)
    → ensure_default_route lr vgw_ip chassis routes routers ≡ some (some w)
    → WriteReason lr vgw_ip chassis routes routers w
unfolding ensure_default_route
ensure_cases lr vgw_ip chassis routes routers w h =
    elim (Option-cases (find_router lr.router_uuid routers)) [
      | inl e ↦ absurd (ground arith)
      | inr (router, e) ↦ elim (Option-cases (find_default router.static_routes routes)) [
        | inl f ↦ (router, e, inl (f, ground arith))
        | inr (route, f) ↦ elim (Option-cases (adjusted lr vgw_ip chassis route)) [
          | inl g ↦ absurd (ground arith)
          | inr (new, g) ↦ (router, e, inr (route, new, f, g, ground arith))
        ]
      ]
    ]

-- the new row is as wanted
new_route-Wanted :
    (lr : LocalRouterInfo) (vgw_ip chassis : String)
    → Wanted lr vgw_ip chassis (new_route lr vgw_ip chassis)
      × (adjusted lr vgw_ip chassis (new_route lr vgw_ip chassis) ≡ none)
unfolding new_route adjusted
new_route-Wanted lr vgw_ip chassis =
    ((refl, refl, refl), ground (arith, eq_self vgw_ip, eq_self chassis))

created :
    (lr : LocalRouterInfo) (vgw_ip chassis : String) (routes : List StaticRoute)
    (routers : List LogicalRouter) (router : LogicalRouter)
    → contains (route_uuids routes) "new_route" ≡ false
    → find_router lr.router_uuid routers ≡ some router
    → find_default router.static_routes routes ≡ none
    → let w = create_route lr.router_uuid (new_route lr vgw_ip chassis) in
      IsWanted lr vgw_ip chassis routes w
      × (ensure_default_route lr vgw_ip chassis (routes_after w routes) (routers_after w routers)
          ≡ some none)
unfolding new_route
created lr vgw_ip chassis routes routers router fresh e f =
    let new = new_route lr vgw_ip chassis in
    let wanted = new_route-Wanted lr vgw_ip chassis in
    (
      (refl, refl, refl, wanted.0),
      settled_at lr vgw_ip chassis (routes ++ new ∷ [])
          (map (linked_to lr.router_uuid "new_route") routers)
          (record router { static_routes = router.static_routes ++ "new_route" ∷ [] }) new
          (router-linked lr.router_uuid "new_route" routers
            ∙ ap
                (λ (o : Option LogicalRouter). elim o [
                  | none ↦ none
                  | some r ↦ some (record r { static_routes = r.static_routes ++ "new_route" ∷ [] })
                ])
                e)
          (default-created router.static_routes routes new fresh refl f) wanted.1,
    )

changed :
    (lr : LocalRouterInfo) (vgw_ip chassis : String) (routes : List StaticRoute)
    (routers : List LogicalRouter) (router : LogicalRouter) (route new : StaticRoute)
    → Nodup (route_uuids routes)
    → find_router lr.router_uuid routers ≡ some router
    → find_default router.static_routes routes ≡ some route
    → adjusted lr vgw_ip chassis route ≡ some new
    → let w = update_route new in
      IsWanted lr vgw_ip chassis routes w
      × (ensure_default_route lr vgw_ip chassis (routes_after w routes) (routers_after w routers)
          ≡ some none)
changed lr vgw_ip chassis routes routers router route new n e f g =
    let (tag, uuid, prefix, wanted, settled) = adjusted-Wanted lr vgw_ip chassis route new g in
    let here = (found-default router.static_routes routes route f).1 in
    (
      (
        rw uuid (found-any router.static_routes routes route f tag),
        ground (arith, prefix, here, string_eq.same_iff route.ip_prefix "0.0.0.0/0"),
        wanted,
      ),
      settled_at lr vgw_ip chassis (routes_after (update_route new) routes) routers router new e
          (default-updated router.static_routes routes route new n f uuid prefix) settled,
    )

-- With distinct UUIDs of the routes, and that of the new route not among them: what
-- ensureDefaultRoute writes is a default route with the agent's tag, the next hop asked for and
-- the name of this chassis, either on a row of a default route that had the agent's tag before, or
-- as a new row with the output port of the router, linked to that router; and on the rows after
-- the write it finds nothing to write.
pub ensure_default_route-settles :
    (lr : LocalRouterInfo) (vgw_ip chassis : String) (routes : List StaticRoute)
    (routers : List LogicalRouter) (w : Write)
    → Nodup (route_uuids routes)
    → contains (route_uuids routes) "new_route" ≡ false
    → ensure_default_route lr vgw_ip chassis routes routers ≡ some (some w)
    → IsWanted lr vgw_ip chassis routes w
      × (ensure_default_route lr vgw_ip chassis (routes_after w routes) (routers_after w routers)
          ≡ some none)
ensure_default_route-settles lr vgw_ip chassis routes routers w n fresh h =
    let good = λ (x : Write).
      IsWanted lr vgw_ip chassis routes x
      × (ensure_default_route lr vgw_ip chassis (routes_after x routes) (routers_after x routers)
          ≡ some none) in
    let (router, e, found) = ensure_cases lr vgw_ip chassis routes routers w h in
    elim found [
      | inl (f, same) ↦
          subst good (sym same) (created lr vgw_ip chassis routes routers router fresh e f)
      | inr (route, new, f, g, same) ↦
          subst good (sym same) (changed lr vgw_ip chassis routes routers router route new n e f g)
    ]
