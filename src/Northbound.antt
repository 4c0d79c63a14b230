-- ===== src/Northbound.antt =====
-- Rows of the OVN NB tables that the agent writes (internal/nbdb), as far as it reads their columns,
-- and the reads that the writers share. A map of texts is an association list, and a key that is not
-- there reads as "".
use ovn_network_agent.Prelude.{
  String, Bool, Option, none, some, List, [], ◌∷◌, ◌++◌, if◌then◌else◌, ◌==◌, nat_eq, string_eq,
  bool_eq, pair_eq, lookup,
}

-- NBLogicalRouterStaticRoute
pub record StaticRoute : Type 0 where
  pub uuid : String
  pub ip_prefix : String
  pub nexthop : String
  pub output_port : Option String
  pub external_ids : List (String × String)

-- NBLogicalRouter
pub record LogicalRouter : Type 0 where
  pub uuid : String
  pub name : String
  pub ports : List String
  pub nat : List String
  pub static_routes : List String

-- NBStaticMACBinding
pub record MacBinding : Type 0 where
  pub uuid : String
  pub logical_port : String
  pub ip : String
  pub mac : String

-- m[k] of a Go map of texts
abbrev pub read : List (String × String) → String → String
read m k = elim (lookup k m) [ none ↦ "" | some v ↦ v ]

-- route.ExternalIDs["ovn-network-agent"] == "managed"
abbrev pub is_managed : StaticRoute → Bool
is_managed route = read route.external_ids "ovn-network-agent" == "managed"

-- route.ExternalIDs["ovn-network-agent-chassis"]
abbrev pub chassis_tag : StaticRoute → String
chassis_tag route = read route.external_ids "ovn-network-agent-chassis"

-- the static routes of the routers that pass a test
abbrev pub owned_routes : (LogicalRouter → Bool) → List LogicalRouter → List String
owned_routes test [] = []
owned_routes test (r ∷ routers) =
    if test r then r.static_routes ++ owned_routes test routers else owned_routes test routers
