-- ===== src/DesiredFlows/Distinct.antt =====
-- The MAC-tweak plane wants each flow once.
use ovn_network_agent.Prelude.{
  String, ◌≡◌, refl, ap, inl, inr, Bool, true, false, List, [], ◌∷◌, arith, Bool-cases, ◌==◌,
  nat_eq, string_eq, bool_eq, pair_eq, contains, eq_self, keys, Nodup, sort_strings, int_eq,
}
use ovn_network_agent.FlowPlane.{key_eq, FlowKey, wanted_keys}
use ovn_network_agent.Segments.Ports.{SegmentBinding, Segments}
use ovn_network_agent.DesiredFlows.{
  mac_tweak_desired, mac_tweak_from, bindings_at, desired_mac_tweak_flows,
}

-- a flow of a port that was seen is not among those wanted later
other_port :
    (seen : String → Bool) (p q : String) → seen p ≡ true → seen q ≡ false → (p == q) ≡ false
other_port seen p q h e = elim (Bool-cases (p == q)) [
  | inl s ↦ absurd (ground (arith, ap seen ((string_eq.same_iff p q).0 s)))
  | inr d ↦ d
]

seen_now : (p : String) (seen : List String) → contains (p ∷ seen) p ≡ true
seen_now p seen = ground (arith, eq_self p)

seen_absent :
    (seen : List String) (bs : List SegmentBinding) (k : FlowKey)
    → contains seen k.in_port ≡ true
    → contains (wanted_keys (mac_tweak_from seen bs)) k ≡ false
unfolding desired_mac_tweak_flows
seen_absent seen [] k h = refl
seen_absent seen (b ∷ bs) k h = elim (Bool-cases (contains seen b.of_port)) [
  | inl e ↦ rw e (seen_absent seen bs k h)
  | inr e ↦ rw e (
      ground (
        arith,
        seen_absent (b.of_port ∷ seen) bs k (ground arith),
        other_port (contains seen) k.in_port b.of_port h e,
      ))
]

mac_tweak_Nodup :
    (seen : List String) (bs : List SegmentBinding) → Nodup (wanted_keys (mac_tweak_from seen bs))
unfolding desired_mac_tweak_flows
mac_tweak_Nodup seen [] = tt
mac_tweak_Nodup seen (b ∷ bs) = elim (Bool-cases (contains seen b.of_port)) [
  | inl e ↦ rw e (mac_tweak_Nodup seen bs)
  | inr e ↦ rw e (
    seen_absent (b.of_port ∷ seen) bs (mac_tweak_desired b false).key (seen_now b.of_port seen),
    (
      seen_absent (b.of_port ∷ seen) bs (mac_tweak_desired b true).key (seen_now b.of_port seen),
      mac_tweak_Nodup (b.of_port ∷ seen) bs,
    ),
  )
]

-- The keys of the flows are distinct.
pub desired_mac_tweak_flows-Nodup :
    (segs : Segments) → Nodup (wanted_keys (desired_mac_tweak_flows segs))
unfolding desired_mac_tweak_flows
desired_mac_tweak_flows-Nodup segs =
    mac_tweak_Nodup [] (bindings_at segs (sort_strings (keys segs)))
