-- ===== src/PortForward.antt =====
-- The configured port forwards (config.go) and what the nftables ruleset collects of them
-- (nftables.go).
use ovn_network_agent.Prelude.{
  String, Bool, not, Option, none, some, List, [], ◌∷◌, ◌++◌, map, if◌then◌else◌, ◌==◌, nat_eq,
  string_eq, bool_eq, pair_eq, is_empty, filter, ℤ, pos, int_eq,
}

pub record PortForwardRule : Type 0 where
  pub proto : String
  pub port : ℤ
  pub dest_addr : String
  pub dest_addrs : List String
  pub dest_port : ℤ
  pub masquerade : Option Bool

pub record PortForwardVip : Type 0 where
  pub vip : String
  pub manage_vip : Bool
  pub masquerade : Bool
  pub hairpin_masquerade : Bool
  pub router_masquerade : Bool
  pub rules : List PortForwardRule

or_default : Option Bool → Bool → Bool
or_default none d = d
or_default (some b) d = b

unfoldable pub effective_masquerade : PortForwardRule → Bool → Bool
unfolding or_default
effective_masquerade r vip_default = or_default r.masquerade vip_default

-- the field and the method of one name: `backends` is the method destAddrs
unfoldable pub backends : PortForwardRule → List String
backends r =
    if not (is_empty r.dest_addrs)
    then r.dest_addrs
    else if not (r.dest_addr == "")
    then r.dest_addr ∷ []
    else []

-- the method destPort
unfoldable pub backend_port : PortForwardRule → ℤ
backend_port r = if r.dest_port == pos 0 then r.port else r.dest_port

unfoldable pub collect_vips : List PortForwardVip → List String
collect_vips forwards = map (λ pf. pf.vip) forwards

unfoldable pub collect_hairpin_vips : List PortForwardVip → List String
collect_hairpin_vips forwards = map (λ pf. pf.vip) (filter (λ pf. pf.hairpin_masquerade) forwards)

unfoldable pub collect_router_masq_vips : List PortForwardVip → List String
collect_router_masq_vips forwards =
    map (λ pf. pf.vip) (filter (λ pf. pf.router_masquerade) forwards)

pub record SnatEntry : Type 0 where
  pub addr : String
  pub proto : String
  pub port : ℤ

unfoldable pub snat_entries_of : Bool → List PortForwardRule → List SnatEntry
snat_entries_of vip_default [] = []
snat_entries_of vip_default (r ∷ rs) =
    (if effective_masquerade r vip_default
      then map (λ a. record { addr = a; proto = r.proto; port = backend_port r }) (backends r)
      else [])
    ++ snat_entries_of vip_default rs

unfoldable pub collect_snat_entries : List PortForwardVip → List SnatEntry
collect_snat_entries [] = []
collect_snat_entries (pf ∷ pfs) = snat_entries_of pf.masquerade pf.rules ++ collect_snat_entries pfs
