-- ===== src/Ovn/Refresh/Bound.antt =====
-- Which LRPs the rows bind to a chassis, said without the indexes of a refresh.
use ovn_network_agent.Prelude.{
  String, ◌≡◌, refl, ap, ◌∙◌, inl, inr, Bool, false, ◌&&◌, ◌||◌, not, Option, none, some, List, [],
  ◌∷◌, arith, Bool-cases, ◌==◌, nat_eq, string_eq, bool_eq, pair_eq, any, insert, keys, int_eq,
}
use ovn_network_agent.Northbound.{read}
use ovn_network_agent.Ovn.Rows.{PortBinding, Chassis, RouterPort}
use ovn_network_agent.Ovn.Hosts.{hostnames_equal}
use ovn_network_agent.Ovn.Joins.{
  chassis_index, redirects_here, local_cr_ports_from, local_cr_ports, cr_port_lrp_name, index_lrps,
}
use ovn_network_agent.Ovn.Joins.Indexes.{
  last_of, names_chassis, host_after, lookup-chassis_index, lookup-index_lrps,
}
use ovn_network_agent.Ovn.Joins.Local.{named}
use ovn_network_agent.Ovn.Refresh.{RefreshSettings, Rows}

-- the host that a reference is to, "" where no row has it
abbrev pub host_of : List Chassis → String → String
host_of chassis ref = elim (last_of (names_chassis ref) chassis) [
  | none ↦ ""
  | some ch ↦ ch.hostname
]

-- The port is a chassisredirect port that is bound to the host of this chassis, and the one that is
-- configured, if one is.
abbrev pub is_bound_here : RefreshSettings → String → Rows → PortBinding → Bool
is_bound_here cfg local rows pb =
    pb.kind == "chassisredirect"
    && elim pb.chassis [
      | none ↦ false
      | some ref ↦ not (ref == "") && hostnames_equal (host_of rows.chassis ref) local
    ]
    && (cfg.gateway_port == "" || pb.logical_port == cfg.gateway_port)

-- the row of the LRP that has this name has this UUID
abbrev pub is_lrp : Rows → String → String → Bool
is_lrp rows uuid name = elim (last_of (λ lrp. lrp.name == name) rows.router_ports) [
  | none ↦ false
  | some lrp ↦ uuid == lrp.uuid
]

-- a bound port redirects for the LRP of this UUID
abbrev pub redirected : RefreshSettings → String → Rows → String → Bool
redirected cfg local rows uuid =
    any
      (λ pb.
        is_bound_here cfg local rows pb
        && not (cr_port_lrp_name pb == "")
        && is_lrp rows uuid (cr_port_lrp_name pb))
      rows.port_bindings

-- what an unset reference reads as
abbrev ref_of : Option String → String
ref_of none = ""
ref_of (some ref) = ref

found_host :
    (o : Option Chassis) → ref_of (host_after none o) ≡ elim o [ none ↦ "" | some ch ↦ ch.hostname ]
found_host none = refl
found_host (some ch) = refl

host_of_lem :
    (chassis : List Chassis) (ref : String)
    → read (chassis_index chassis).0 ref ≡ host_of chassis ref
host_of_lem chassis ref =
    ap ref_of (lookup-chassis_index chassis ref) ∙ found_host (last_of (names_chassis ref) chassis)

-- the tests of a port in the order of the source, and in that of `is_bound_here`
bound_by :
    (kind port : Bool) (c : Option String) (f g : String → Bool)
    → ((ref : String) → f ref ≡ g ref)
    → (kind && not (ref_of c == "") && port && f (ref_of c))
      ≡ (kind && elim c [ none ↦ false | some ref ↦ not (ref == "") && g ref ] && port)
bound_by kind port none f g h = ground arith
bound_by kind port (some ref) f g h = ground (arith, h ref)

redirects_lem :
    (cfg : RefreshSettings) (local : String) (rows : Rows) (pb : PortBinding)
    → redirects_here (chassis_index rows.chassis).0 local cfg.gateway_port pb
      ≡ is_bound_here cfg local rows pb
unfolding redirects_here
redirects_lem cfg local rows pb =
    bound_by (pb.kind == "chassisredirect")
      (cfg.gateway_port == "" || pb.logical_port == cfg.gateway_port) pb.chassis
      (λ ref. hostnames_equal (read (chassis_index rows.chassis).0 ref) local)
      (λ ref. hostnames_equal (host_of rows.chassis ref) local)
      (λ ref. ap (λ h. hostnames_equal h local) (host_of_lem rows.chassis ref))

named_lem :
    (rows : Rows) (uuid name : String)
    → named (index_lrps rows.router_ports) uuid name ≡ is_lrp rows uuid name
named_lem rows uuid name =
    ap (λ (o : Option RouterPort). elim o [ none ↦ false | some lrp ↦ uuid == lrp.uuid ])
      (lookup-index_lrps rows.router_ports name)

any-insert :
    (f : String → Bool) (k v : String) (m : List (String × String))
    → any f (keys (insert k v m)) ≡ (f k || any f (keys m))
any-insert f k v [] = refl
any-insert f k v ((j, w) ∷ m) = elim (Bool-cases (k == j)) [
  | inl e ↦ ground (arith, ap f ((string_eq.same_iff k j).0 e))
  | inr e ↦ ground (arith, any-insert f k v m)
]

any-local_from :
    (f : String → Bool) (by_ref : List (String × String)) (local gateway_port : String)
    (pbs : List PortBinding) (m : List (String × String))
    → any f (keys (local_cr_ports_from by_ref local gateway_port pbs m)) ≡ (
        any f (keys m)
        || any
            (λ pb.
              redirects_here by_ref local gateway_port pb
              && not (cr_port_lrp_name pb == "")
              && f (cr_port_lrp_name pb))
            pbs)
unfolding local_cr_ports_from
any-local_from f by_ref local gateway_port [] m = ground arith
any-local_from f by_ref local gateway_port (pb ∷ pbs) m =
    let name = cr_port_lrp_name pb in
    ground (
      arith,
      any-local_from f by_ref local gateway_port pbs m,
      any-local_from f by_ref local gateway_port pbs (insert name pb.logical_port m),
      any-insert f name pb.logical_port m,
    )

any-same :
    (p q : PortBinding → Bool) (pbs : List PortBinding)
    → ((pb : PortBinding) → p pb ≡ q pb)
    → any p pbs ≡ any q pbs
any-same p q [] h = refl
any-same p q (pb ∷ pbs) h = ground (arith, h pb, any-same p q pbs h)

-- The indexes find the ports that the rows bind here.
pub active_redirected :
    (cfg : RefreshSettings) (local : String) (rows : Rows) (uuid : String)
    → any (named (index_lrps rows.router_ports) uuid) (
        keys
          (local_cr_ports rows.port_bindings (chassis_index rows.chassis).0 local cfg.gateway_port))
      ≡ redirected cfg local rows uuid
active_redirected cfg local rows uuid =
    let idx = index_lrps rows.router_ports in
    let by_ref = (chassis_index rows.chassis).0 in
    any-local_from (named idx uuid) by_ref local cfg.gateway_port rows.port_bindings []
    ∙ any-same
        (λ pb.
          redirects_here by_ref local cfg.gateway_port pb
          && not (cr_port_lrp_name pb == "")
          && named idx uuid (cr_port_lrp_name pb))
        (λ pb.
          is_bound_here cfg local rows pb
          && not (cr_port_lrp_name pb == "")
          && is_lrp rows uuid (cr_port_lrp_name pb))
        rows.port_bindings
        (λ pb.
          ground
            (arith, redirects_lem cfg local rows pb, named_lem rows uuid (cr_port_lrp_name pb)))
