-- ===== src/Ovn/Rows.antt =====
-- Rows of the OVN tables that a refresh reads (internal/sbdb, internal/nbdb), as far as it reads their
-- columns. A map of texts is an association list, and a key that is not there reads as "".
use ovn_network_agent.Prelude.{ℕ, String, Option, List, nat_eq, string_eq, bool_eq, pair_eq}

-- SBPortBinding
pub record PortBinding : Type 0 where
  pub logical_port : String
  pub kind : String
  pub chassis : Option String
  pub datapath : String
  pub tag : Option ℕ
  pub options : List (String × String)
  pub external_ids : List (String × String)
  pub nat_addresses : List String

-- SBChassis
pub record Chassis : Type 0 where
  pub uuid : String
  pub name : String
  pub hostname : String

-- NBLogicalRouterPort
pub record RouterPort : Type 0 where
  pub uuid : String
  pub name : String
  pub mac : String
  pub networks : List String
  pub gateway_chassis : List String

-- NBNAT
pub record NatRow : Type 0 where
  pub uuid : String
  pub kind : String
  pub external_ip : String
