-- ===== src/Managed/Spared.antt =====
-- What the cleanup of vanished chassis leaves alone.
use ovn_network_agent.Prelude.{
  String, ◌≡◌, refl, ap, ◌∙◌, ◌≢◌, inl, inr, Bool, true, false, ◌&&◌, ◌||◌, not, Option, none, some,
  List, [], ◌∷◌, ◌++◌, map, arith, if◌then◌else◌, Option-cases, is_some, ◌==◌, nat_eq, string_eq,
  bool_eq, pair_eq, filter, any, all, contains, lookup, int_eq,
}
use ovn_network_agent.Northbound.{StaticRoute, LogicalRouter, MacBinding}
use ovn_network_agent.Managed.{
  linked, unlink_all, last_owner, is_live_on, is_stale, binding_key, stale_keys,
  cleanup_stale_entries,
}

stale_keys-not_live :
    (stale : List String) (table : List StaticRoute) (routers : List LogicalRouter)
    (routes : List StaticRoute) (port ip : String)
    → any (is_live_on stale port) table ≡ true
    → contains (stale_keys stale table routers routes) (port, ip) ≡ false
unfolding stale_keys binding_key
stale_keys-not_live stale table routers [] port ip h = refl
stale_keys-not_live stale table routers (route ∷ routes) port ip h =
    elim (Option-cases route.output_port) [
      | inl e ↦ ground (arith, stale_keys-not_live stale table routers routes port ip h)
      | inr (p, e) ↦ ground (
        arith,
        stale_keys-not_live stale table routers routes port ip h,
        string_eq.same_iff port p,
        pair_eq.same_iff (port, ip) (p, route.nexthop),
      )
    ]

abbrev pub holds : Option String → String → Bool
holds none value = false
holds (some v) value = v == value

-- the row has this value at this key
abbrev pub has_id : String → String → StaticRoute → Bool
has_id key value route = holds (lookup key route.external_ids) value

filter_spared :
    (stale : List String) (routes : List StaticRoute) (routers : List LogicalRouter)
    (bindings : List MacBinding) (port : String)
    → any (is_live_on stale port) routes ≡ true
    → filter
        (λ b. contains (stale_keys stale routes routers routes) (b.logical_port, b.ip))
        bindings
      ≡ filter
          (λ b. contains (stale_keys stale routes routers routes) (b.logical_port, b.ip))
          (filter (λ b. not (b.logical_port == port)) bindings)
filter_spared stale routes routers [] port h = refl
filter_spared stale routes routers (b ∷ bindings) port h = ground (
  arith,
  filter_spared stale routes routers bindings port h,
  stale_keys-not_live stale routes routers routes port b.ip h,
  string_eq.same_iff b.logical_port port,
)

live_inside :
    (stale : List String) (port : String) (before after : List StaticRoute) (route : StaticRoute)
    → is_live_on stale port route ≡ true
    → any (is_live_on stale port) (before ++ route ∷ after) ≡ true
live_inside stale port [] after route h = ground arith
live_inside stale port (r ∷ before) after route h =
    ground (arith, live_inside stale port before after route h)

live_route :
    (stale : List String) (route : StaticRoute) (chassis port : String)
    → has_id "ovn-network-agent" "managed" route ≡ true
    → has_id "ovn-network-agent-chassis" chassis route ≡ true
    → chassis ≢ ""
    → contains stale chassis ≡ false
    → route.output_port ≡ some port
    → is_live_on stale port route ≡ true
live_route stale route chassis port tag named filled there out =
    elim (Option-cases (lookup "ovn-network-agent-chassis" route.external_ids)) [
      | inl e ↦ absurd (ground arith)
      | inr (c, e) ↦
          let same : c ≡ chassis = (string_eq.same_iff c chassis).0 (ground arith) in
          ground (
            arith,
            same,
            string_eq.same_iff c "",
            string_eq.same_iff port port,
            ap (contains stale) same,
          )
    ]

-- Where a row of the routes has the agent's tag, a non-empty chassis name that is not among those
-- that are gone, and an output port, the cleanup removes no MAC binding of that port: it removes
-- what it would remove of the bindings of other ports alone.
pub cleanup_spares_live :
    (stale : List String) (before after : List StaticRoute) (route : StaticRoute)
    (routers : List LogicalRouter) (bindings : List MacBinding) (chassis port : String)
    → has_id "ovn-network-agent" "managed" route ≡ true
    → has_id "ovn-network-agent-chassis" chassis route ≡ true
    → chassis ≢ ""
    → contains stale chassis ≡ false
    → route.output_port ≡ some port
    → let routes = before ++ route ∷ after in
      (cleanup_stale_entries stale routes routers bindings).bindings
      ≡ (cleanup_stale_entries stale routes routers
          (filter (λ b. not (b.logical_port == port)) bindings)).bindings
unfolding cleanup_stale_entries
cleanup_spares_live stale before after route routers bindings chassis port tag named filled there
      out =
    ap (map (λ b. b.uuid)) (
      filter_spared stale (before ++ route ∷ after) routers bindings port (
        live_inside stale port before after route
          (live_route stale route chassis port tag named filled there out)))

is_some-last_owner :
    (uuid : String) (routers : List LogicalRouter) (found : Option String)
    → is_some (last_owner uuid routers found)
      ≡ (is_some found || any (λ router. contains router.static_routes uuid) routers)
unfolding last_owner
is_some-last_owner uuid [] found = ground arith
is_some-last_owner uuid (r ∷ routers) found =
    ground
      (arith, is_some-last_owner uuid routers found, is_some-last_owner uuid routers (some r.uuid))

contains-linked :
    (route : StaticRoute) (routers : List LogicalRouter) (rest : List (String × String))
    (uuid : String)
    → contains (map (λ e. e.1) (linked (λ r. last_owner r.uuid routers none) route ++ rest)) uuid
      ≡ ((uuid == route.uuid && any (λ router. contains router.static_routes route.uuid) routers)
          || contains (map (λ e. e.1) rest) uuid)
unfolding linked
contains-linked route routers rest uuid =
    let has = is_some-last_owner route.uuid routers none in
    elim (Option-cases (last_owner route.uuid routers none)) [
      | inl e ↦ ground arith
      | inr (o, e) ↦ ground arith
    ]

unlinked :
    (stale : List String) (routes : List StaticRoute) (routers : List LogicalRouter) (uuid : String)
    → contains
        (map
          (λ e. e.1)
          (unlink_all (is_stale stale) (λ route. last_owner route.uuid routers none) routes))
        uuid
      ≡ any
          (λ r.
            r.uuid == uuid
            && is_stale stale r
            && any (λ router. contains router.static_routes uuid) routers)
          routes
unfolding unlink_all
unlinked stale [] routers uuid = refl
unlinked stale (route ∷ routes) routers uuid = ground (
  arith,
  unlinked stale routes routers uuid,
  contains-linked route routers
      (unlink_all (is_stale stale) (λ r. last_owner r.uuid routers none) routes) uuid,
  string_eq.same_iff route.uuid uuid,
  string_eq.same_iff uuid route.uuid,
)

-- a row with the agent's tag and the name of a chassis that is gone
abbrev pub is_left_behind : List String → StaticRoute → Bool
is_left_behind stale route =
    has_id "ovn-network-agent" "managed" route
    && any (λ c. not (c == "") && has_id "ovn-network-agent-chassis" c route) stale

any-named :
    (c : String) (stale : List String)
    → any (λ d. not (d == "") && c == d) stale ≡ (not (c == "") && contains stale c)
any-named c [] = ground arith
any-named c (d ∷ stale) =
    ground (arith, any-named c stale, string_eq.same_iff c d, string_eq.same_iff d "")

any-never : (stale : List String) → any (λ d. not (d == "") && false) stale ≡ false
any-never [] = refl
any-never (d ∷ stale) = ground (arith, any-never stale)

abbrev value_of : Option String → String
value_of none = ""
value_of (some v) = v

left_behind_by :
    (tag named : Option String) (stale : List String)
    → (value_of tag == "managed" && not (value_of named == "") && contains stale (value_of named))
      ≡ (holds tag "managed" && any (λ c. not (c == "") && holds named c) stale)
left_behind_by none named stale = refl
left_behind_by (some m) none stale = ground (arith, any-never stale)
left_behind_by (some m) (some c) stale = ground (arith, any-named c stale)

is_stale_lem :
    (stale : List String) (route : StaticRoute) → is_stale stale route ≡ is_left_behind stale route
is_stale_lem stale route =
    left_behind_by (lookup "ovn-network-agent" route.external_ids)
      (lookup "ovn-network-agent-chassis" route.external_ids) stale

-- a router has the route
abbrev pub is_linked : List LogicalRouter → String → String → Bool
is_linked routers router uuid = any (λ r. r.uuid == router && contains r.static_routes uuid) routers

last_owner-linked :
    (uuid : String) (routers : List LogicalRouter) (found : Option String) (o : String)
    → last_owner uuid routers found ≡ some o
    → (is_linked routers o uuid || elim found [ none ↦ false | some f ↦ f == o ]) ≡ true
unfolding last_owner
last_owner-linked uuid [] none o h = cc
last_owner-linked uuid [] (some f) o h = ground (arith, string_eq.same_iff f o)
last_owner-linked uuid (r ∷ routers) found o h =
    let next = if contains r.static_routes uuid then some r.uuid else found in
    ground (arith, last_owner-linked uuid routers next o h)

linked_all :
    (test : StaticRoute → Bool) (routers : List LogicalRouter) (routes : List StaticRoute)
    → all
        (λ e. is_linked routers e.0 e.1)
        (unlink_all test (λ route. last_owner route.uuid routers none) routes)
      ≡ true
unfolding unlink_all linked
linked_all test routers [] = refl
linked_all test routers (route ∷ routes) =
    elim (Option-cases (last_owner route.uuid routers none)) [
      | inl e ↦ ground (arith, linked_all test routers routes)
      | inr (o, e) ↦
          ground
            (arith, linked_all test routers routes, last_owner-linked route.uuid routers none o e)
    ]

any-cong :
    (p q : StaticRoute → Bool) (routes : List StaticRoute)
    → ((r : StaticRoute) → p r ≡ q r)
    → any p routes ≡ any q routes
any-cong p q [] h = refl
any-cong p q (r ∷ routes) h = ground (arith, h r, any-cong p q routes h)

-- The cleanup removes a route of a UUID exactly if a row with this UUID has the agent's tag and a
-- non-empty chassis name among those that are gone, and a router has the route; it unlinks each
-- route from a router that has it.
pub cleanup-routes :
    (stale : List String) (routes : List StaticRoute) (routers : List LogicalRouter)
    (bindings : List MacBinding) (uuid : String)
    → let removed = (cleanup_stale_entries stale routes routers bindings).routes in
      (contains (map (λ e. e.1) removed) uuid
        ≡ any
            (λ r.
              r.uuid == uuid
              && is_left_behind stale r
              && any (λ router. contains router.static_routes uuid) routers)
            routes)
      × (all (λ e. is_linked routers e.0 e.1) removed ≡ true)
unfolding cleanup_stale_entries
cleanup-routes stale routes routers bindings uuid =
    let linked_here =
      any (λ (router : LogicalRouter). contains router.static_routes uuid) routers in
    (
      unlinked stale routes routers uuid
          ∙ any-cong (λ r. r.uuid == uuid && is_stale stale r && linked_here)
              (λ r. r.uuid == uuid && is_left_behind stale r && linked_here) routes
              (λ r. ap (λ b. r.uuid == uuid && b && linked_here) (is_stale_lem stale r)),
      linked_all (is_stale stale) routers routes,
    )
