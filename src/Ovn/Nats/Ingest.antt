-- ===== src/Ovn/Nats/Ingest.antt =====
-- No address passes the ingest unless it is valid and wanted.
use ovn_network_agent.Prelude.{
  String, ◌≡◌, refl, inl, inr, Bool, true, false, ◌&&◌, Option, none, some, List, [], ◌∷◌, arith,
  Bool-cases, ◌==◌, nat_eq, string_eq, bool_eq, pair_eq, all, all-append, lookup, insert, keys,
}
use ovn_network_agent.Net.{Ip, IpNet, Net, is_v4}
use ovn_network_agent.Ovn.State.{LocalnetSegment}
use ovn_network_agent.Ovn.Rows.{PortBinding, NatRow}
use ovn_network_agent.Ovn.Joins.{LrpIndex, or_zero}
use ovn_network_agent.Northbound.{read}
use ovn_network_agent.Ovn.Nats.{
  NatCollection, passes_filters, with_snat, with_segment, nat_entry, add_nat, add_nb_nats,
  add_address, add_addresses, concat_ips, is_gateway_patch, add_sb_gateway_nat_addresses,
}

module _ (net : Net) (filters : List IpNet) where
  -- the text is an address that passes the filters
  abbrev pub admissible : String → Bool
  admissible ip = elim (net.parse_ip ip) [ none ↦ false | some a ↦ passes_filters filters a ]

  abbrev pub admissible_v4 : String → Bool
  admissible_v4 ip = elim (net.parse_ip ip) [
    | none ↦ false
    | some a ↦ passes_filters filters a && is_v4 a
  ]

  pub record IsClean (nc : NatCollection) : Type 0 where
    pub macs : all admissible (keys nc.ip_to_router_mac) ≡ true
    pub segments : all admissible (keys nc.ip_to_segment) ≡ true
    pub snats : all admissible_v4 nc.snat_ips ≡ true

  all-keys-insert :
      (p : String → Bool) (k v : String) (m : List (String × String))
      → p k ≡ true
      → all p (keys m) ≡ true
      → all p (keys (insert k v m)) ≡ true
  all-keys-insert p k v [] pk h = ground arith
  all-keys-insert p k v ((j, w) ∷ m) pk h = ground (arith, all-keys-insert p k v m pk)

  snats-with_snat :
      (is_snat : Bool) (a : Ip) (ip : String) (snats : List String)
      → net.parse_ip ip ≡ some a
      → passes_filters filters a ≡ true
      → all admissible_v4 snats ≡ true
      → all admissible_v4 (with_snat is_snat a ip snats) ≡ true
  unfolding with_snat
  snats-with_snat is_snat a ip snats e ok h =
      ground (arith, all-append admissible_v4 snats (ip ∷ []))

  segments-with_segment :
      (seg : Option String) (ip : String) (m : List (String × String))
      → admissible ip ≡ true
      → all admissible (keys m) ≡ true
      → all admissible (keys (with_segment seg ip m)) ≡ true
  unfolding with_segment
  segments-with_segment none ip m ok h = h
  segments-with_segment (some seg) ip m ok h = all-keys-insert admissible ip seg m ok h

  admissible_of :
      (ip : String) (a : Ip)
      → net.parse_ip ip ≡ some a
      → passes_filters filters a ≡ true
      → admissible ip ≡ true
  admissible_of ip a e ok = ground arith

  IsClean-add_nat :
      (mac seg : Option String) (a : Option Ip) (nat : NatRow) (nc : NatCollection)
      → net.parse_ip nat.external_ip ≡ a
      → IsClean nc
      → IsClean (add_nat net filters mac seg a nat nc)
  unfolding add_nat
  IsClean-add_nat none seg a nat nc e h = h
  IsClean-add_nat (some mac) seg none nat nc e h = h
  IsClean-add_nat (some mac) seg (some a) nat nc e h =
      elim (Bool-cases (passes_filters filters a)) [
        | inl ok ↦
            let good = admissible_of nat.external_ip a e ok in
            rw ok (
              unfold nat_entry in
              record {
                macs =
                    all-keys-insert admissible nat.external_ip mac nc.ip_to_router_mac good h.macs;
                segments =
                    segments-with_segment seg nat.external_ip nc.ip_to_segment good h.segments;
                snats =
                    snats-with_snat (nat.kind == "snat") a nat.external_ip nc.snat_ips e ok h.snats;
              })
        | inr bad ↦ rw bad h
      ]

  pub IsClean-add_nb_nats :
      (macs segs : List (String × String)) (nats : List NatRow) (nc : NatCollection)
      → IsClean nc
      → IsClean (add_nb_nats net filters macs segs nats nc)
  unfolding add_nb_nats
  IsClean-add_nb_nats macs segs [] nc h = h
  IsClean-add_nb_nats macs segs (nat ∷ nats) nc h =
      IsClean-add_nb_nats macs segs nats
        (add_nat net filters (lookup nat.uuid macs) (lookup nat.uuid segs)
          (net.parse_ip nat.external_ip) nat nc)
        (IsClean-add_nat (lookup nat.uuid macs) (lookup nat.uuid segs)
          (net.parse_ip nat.external_ip) nat nc refl h)

  IsClean-add_address :
      (mac : String) (seg : Option LocalnetSegment) (a : Option Ip) (ip : String)
      (nc : NatCollection)
      → net.parse_ip ip ≡ a
      → IsClean nc
      → IsClean (add_address net filters mac seg a ip nc)
  unfolding add_address
  IsClean-add_address mac seg none ip nc e h = h
  IsClean-add_address mac seg (some a) ip nc e h = elim (Bool-cases (passes_filters filters a)) [
    | inl ok ↦
        let good = admissible_of ip a e ok in
        let port : Option String = elim seg [ none ↦ none | some s ↦ some s.localnet_port ] in
        rw ok (record {
          macs =
              ground
                (arith, all-keys-insert admissible ip mac nc.ip_to_router_mac good h.macs, h.macs);
          segments = segments-with_segment port ip nc.ip_to_segment good h.segments;
          snats = snats-with_snat true a ip nc.snat_ips e ok h.snats;
        })
    | inr bad ↦ rw bad h
  ]

  IsClean-add_addresses :
      (mac : String) (seg : Option LocalnetSegment) (ips : List String) (nc : NatCollection)
      → IsClean nc
      → IsClean (add_addresses net filters mac seg ips nc)
  unfolding add_addresses
  IsClean-add_addresses mac seg [] nc h = h
  IsClean-add_addresses mac seg (ip ∷ ips) nc h =
      IsClean-add_addresses mac seg ips (add_address net filters mac seg (net.parse_ip ip) ip nc)
        (IsClean-add_address mac seg (net.parse_ip ip) ip nc refl h)

  pub IsClean-add_sb_gateway_nat_addresses :
      (pbs : List PortBinding) (lrps : List String) (idx : LrpIndex)
      (segments : List (String × LocalnetSegment)) (nc : NatCollection)
      → IsClean nc
      → IsClean (add_sb_gateway_nat_addresses net filters pbs lrps idx segments nc)
  unfolding add_sb_gateway_nat_addresses
  IsClean-add_sb_gateway_nat_addresses [] lrps idx segments nc h = h
  IsClean-add_sb_gateway_nat_addresses (pb ∷ pbs) lrps idx segments nc h =
      let peer = read pb.options "peer" in
      let mac = (or_zero (lookup peer idx.by_name)).mac in
      let ips = concat_ips net pb.nat_addresses in
      elim (Bool-cases (is_gateway_patch lrps pb)) [
        | inl e ↦ rw e (
            IsClean-add_sb_gateway_nat_addresses pbs lrps idx segments
              (add_addresses net filters mac (lookup peer segments) ips nc)
              (IsClean-add_addresses mac (lookup peer segments) ips nc h))
        | inr e ↦ rw e (IsClean-add_sb_gateway_nat_addresses pbs lrps idx segments nc h)
      ]
