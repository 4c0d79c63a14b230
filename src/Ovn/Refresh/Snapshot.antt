-- ===== src/Ovn/Refresh/Snapshot.antt =====
-- What a published snapshot says.
use ovn_network_agent.Prelude.{
  ℕ, ◌+◌, String, ◌≡◌, refl, ap, ◌∙◌, Bool, true, ◌&&◌, none, some, List, [], ◌∷◌, arith, ◌==◌,
  nat_eq, string_eq, bool_eq, pair_eq, any, all, contains, keys, int_eq,
}
use ovn_network_agent.Net.{IpNet, Net}
use ovn_network_agent.Ovn.State.{OvnState}
use ovn_network_agent.Ovn.Joins.{
  chassis_index, local_cr_ports, index_lrps, local_lrp_uuid_set, collect_local_routers,
  segments_by_lrp,
}
use ovn_network_agent.Ovn.Joins.Local.{
  owns_local, router_uuids, contains-local_lrp_uuid_set, contains-collect_local_routers,
}
use ovn_network_agent.Ovn.Nats.{new_nat_collection, add_nb_nats}
use ovn_network_agent.Ovn.Nats.Ingest.{
  admissible, admissible_v4, IsClean-add_nb_nats, IsClean-add_sb_gateway_nat_addresses,
}
use ovn_network_agent.Northbound.{LogicalRouter}
use ovn_network_agent.Ovn.Refresh.Bound.{redirected, active_redirected}
use ovn_network_agent.Ovn.Refresh.{
  RefreshSettings, Rows, Reads, rows_of, derived, replace, refresh_state, publish,
  effective_network_filters,
}

any-ext : {A : Type 0} (p q : A → Bool) (xs : List A) → ((x : A) → p x ≡ q x) → any p xs ≡ any q xs
any-ext p q [] h = refl
any-ext p q (x ∷ xs) h = ground (arith, h x, any-ext p q xs h)

-- the names of the LRPs that a chassisredirect port redirects for here
abbrev pub active_lrps : RefreshSettings → String → Rows → List String
active_lrps cfg local rows =
    keys (local_cr_ports rows.port_bindings (chassis_index rows.chassis).0 local cfg.gateway_port)

-- the router has the port of an LRP that a chassisredirect port redirects for here
abbrev pub serves_here : RefreshSettings → String → Rows → String → LogicalRouter → Bool
serves_here cfg local rows u r = u == r.uuid && any (redirected cfg local rows) r.ports

owns-serves :
    (cfg : RefreshSettings) (local : String) (rows : Rows) (u : String) (r : LogicalRouter)
    → owns_local
        (local_lrp_uuid_set (active_lrps cfg local rows) (index_lrps rows.router_ports))
        u
        r
      ≡ serves_here cfg local rows u r
owns-serves cfg local rows u r =
    let idx = index_lrps rows.router_ports in
    let lrps = active_lrps cfg local rows in
    ap (λ b. u == r.uuid && b)
      (any-ext (contains (local_lrp_uuid_set lrps idx)) (redirected cfg local rows) r.ports
        (λ p. contains-local_lrp_uuid_set lrps idx p ∙ active_redirected cfg local rows p))

routers-derived :
    (net : Net) (cfg : RefreshSettings) (rows : Rows) (local : String) (seq : ℕ) (u : String)
    → contains (router_uuids (derived net cfg local seq rows).local_routers) u
      ≡ any (serves_here cfg local rows u) rows.routers
unfolding derived
routers-derived net cfg rows local seq u =
    let idx = index_lrps rows.router_ports in
    let lrps =
      local_cr_ports rows.port_bindings (chassis_index rows.chassis).0 local cfg.gateway_port in
    let uuids = local_lrp_uuid_set (keys lrps) idx in
    let segments = segments_by_lrp rows.port_bindings lrps in
    contains-collect_local_routers rows.routers idx uuids lrps segments u
    ∙ any-ext (owns_local uuids u) (serves_here cfg local rows u) rows.routers
        (λ r. owns-serves cfg local rows u r)

gen-derived :
    (net : Net) (cfg : RefreshSettings) (rows : Rows) (local : String) (seq : ℕ)
    → (derived net cfg local seq rows).gen ≡ seq
unfolding derived
gen-derived net cfg rows local seq = refl

-- a pass whose reads succeeded publishes the derived state under the name of the chassis
published :
    (net : Net) (cfg : RefreshSettings) (reads : Reads) (rows : Rows) (state : OvnState) (seq : ℕ)
    → rows_of reads ≡ some rows
    → (refresh_state net cfg reads (state, seq)).0
      ≡ record (derived net cfg state.local_chassis_name (seq + 1) rows) {
        local_chassis_name = state.local_chassis_name;
      }
unfolding refresh_state publish replace derived
published net cfg reads rows state seq e = ap (publish net cfg state (seq + 1)) e

-- With all reads of a refresh answered: a router of a UUID is in the snapshot exactly if a router
-- row with this UUID has a port whose row is the last of its name, and a port binding of kind
-- chassisredirect that stands for an LRP of that name has a chassis, the last row with that UUID
-- or name, whose host is this one, and is the configured gateway port if there is one; the name of
-- this chassis stays, and the generation is the number of the pass.
pub routers-refresh_state :
    (net : Net) (cfg : RefreshSettings) (reads : Reads) (rows : Rows) (state : OvnState) (seq : ℕ)
    (u : String)
    → rows_of reads ≡ some rows
    → let after = (refresh_state net cfg reads (state, seq)).0 in
      (contains (router_uuids after.local_routers) u
        ≡ any (serves_here cfg state.local_chassis_name rows u) rows.routers)
      × (after.local_chassis_name ≡ state.local_chassis_name)
      × (after.gen ≡ seq + 1)
routers-refresh_state net cfg reads rows state seq u e =
    let done = published net cfg reads rows state seq e in
    (
      ap (λ (s : OvnState). contains (router_uuids s.local_routers) u) done
          ∙ routers-derived net cfg rows state.local_chassis_name (seq + 1) u,
      ap (λ (s : OvnState). s.local_chassis_name) done,
      ap (λ (s : OvnState). s.gen) done
          ∙ gen-derived net cfg rows state.local_chassis_name (seq + 1),
    )

-- the filters that a pass applies, of the snapshot that it publishes
abbrev pub filters_of : RefreshSettings → OvnState → List IpNet
filters_of cfg after = effective_network_filters cfg.network_filters after.discovered_networks

-- the addresses of a snapshot
pub record IsIngested (net : Net) (filters : List IpNet) (state : OvnState) : Type 0 where
  pub macs : all (admissible net filters) (keys state.nat_ip_to_router_mac) ≡ true
  pub segments : all (admissible net filters) (keys state.nat_ip_to_segment) ≡ true
  pub snats : all (admissible_v4 net filters) state.snat_ips ≡ true

derived-IsIngested :
    (net : Net) (cfg : RefreshSettings) (rows : Rows) (local : String) (seq : ℕ)
    → IsIngested net
        (filters_of cfg (derived net cfg local seq rows))
        (derived net cfg local seq rows)
unfolding derived
derived-IsIngested net cfg rows local seq =
    let idx = index_lrps rows.router_ports in
    let lrps =
      local_cr_ports rows.port_bindings (chassis_index rows.chassis).0 local cfg.gateway_port in
    let uuids = local_lrp_uuid_set (keys lrps) idx in
    let segments = segments_by_lrp rows.port_bindings lrps in
    let found = collect_local_routers rows.routers idx uuids lrps segments in
    let filters = filters_of cfg (derived net cfg local seq rows) in
    let nb =
      add_nb_nats net filters found.nat_macs found.nat_segments rows.nats new_nat_collection in
    let clean =
      IsClean-add_sb_gateway_nat_addresses net filters rows.port_bindings (keys lrps) idx segments
        nb
        (IsClean-add_nb_nats net filters found.nat_macs found.nat_segments rows.nats
          new_nat_collection (record { macs = refl; segments = refl; snats = refl })) in
    record { macs = clean.macs; segments = clean.segments; snats = clean.snats }

-- With all reads of a refresh answered: each NAT address of the snapshot is a text that reads as
-- an address and passes the network filters in force, the configured ones or else those that the
-- snapshot discovered; each SNAT address is one of IPv4, too.
pub refresh_state-IsIngested :
    (net : Net) (cfg : RefreshSettings) (reads : Reads) (rows : Rows) (state : OvnState) (seq : ℕ)
    → rows_of reads ≡ some rows
    → let after = (refresh_state net cfg reads (state, seq)).0 in
      IsIngested net (filters_of cfg after) after
refresh_state-IsIngested net cfg reads rows state seq e =
    let done = published net cfg reads rows state seq e in
    let good = derived-IsIngested net cfg rows state.local_chassis_name (seq + 1) in
    rw done (record { macs = good.macs; segments = good.segments; snats = good.snats })

-- Where a read fails, the published state stays, and the pass still counts.
pub failed-refresh_state :
    (net : Net) (cfg : RefreshSettings) (reads : Reads) (state : OvnState) (seq : ℕ)
    → rows_of reads ≡ none
    → refresh_state net cfg reads (state, seq) ≡ (state, seq + 1)
unfolding refresh_state publish
failed-refresh_state net cfg reads state seq e =
    ap (λ o. (publish net cfg state (seq + 1) o, seq + 1)) e
