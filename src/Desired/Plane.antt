-- ===== src/Desired/Plane.antt =====
-- The announce plane of desired_state.go: which addresses get a route, and which do not.
use ovn_network_agent.Prelude.{
  String, ◌≡◌, refl, ◌∙◌, inl, inr, Bool, true, false, ◌&&◌, ◌||◌, List, [], ◌∷◌, map, arith,
  if◌then◌else◌, Option-cases, nat_eq, string_eq, bool_eq, pair_eq, filter, all, all-filter_self,
  contains, contains-append, contains-filter, keys, trim_space, sort_strings, contains-sort_strings,
  all-sort_strings,
}
use mathlib.Core.List.{map-append}
use ovn_network_agent.Net.{Net}
use ovn_network_agent.Ovn.State.{OvnState}
use ovn_network_agent.PortForward.{PortForwardVip, collect_vips}
use ovn_network_agent.Addresses.{contains-unique_ips}
use ovn_network_agent.Desired.{build_hairpin_targets, is_v4_text, split_ipv4, compute_desired_state}

-- An address gets a kernel route exactly if it gets an FRR static or is an announced VIP.
pub contains-desired_ips :
    (net : Net) (state : OvnState) (forwards : List PortForwardVip) (announce : Bool) (x : String)
    → let d = compute_desired_state net state forwards announce in
      contains d.desired_ips x ≡ (contains d.frr_static_ips x || contains d.announced_vips x)
unfolding compute_desired_state
contains-desired_ips net state forwards announce x =
    let ips = (split_ipv4 net (build_hairpin_targets net state)).0 in
    let vips = if announce then collect_vips forwards else [] in
    simp (contains-unique_ips, map-append, contains-append)
      (ground (arith, string_eq.same_iff x ""))

v4_text-trim : (net : Net) (x : String) → is_v4_text net x ≡ true → trim_space x ≡ x
unfolding is_v4_text
v4_text-trim net x h = elim (Option-cases (net.parse_ip x)) [
  | inl e ↦ absurd (ground arith)
  | inr (a, e) ↦ net.parse_ip-trim x a e
]

map-trim_v4 : (net : Net) (l : List String) → all (is_v4_text net) l ≡ true → map trim_space l ≡ l
map-trim_v4 net [] h = refl
map-trim_v4 net (x ∷ l) h = ground (arith, v4_text-trim net x, map-trim_v4 net l)

not-v4_nil : (net : Net) → is_v4_text net "" ≡ false
unfolding is_v4_text
not-v4_nil net = rw (net.parse_ip-nil, is_v4_text)

-- An address gets an FRR static exactly if it is an IPv4 hairpin target.
pub contains-frr_static_ips :
    (net : Net) (state : OvnState) (forwards : List PortForwardVip) (announce : Bool) (x : String)
    → contains (compute_desired_state net state forwards announce).frr_static_ips x
      ≡ (contains (keys (build_hairpin_targets net state)) x && is_v4_text net x)
unfolding compute_desired_state split_ipv4
contains-frr_static_ips net state forwards announce x =
    let ips = keys (build_hairpin_targets net state) in
    let v4s = filter (is_v4_text net) ips in
    contains-unique_ips (sort_strings v4s) x
    ∙ ground (
      arith,
      map-trim_v4 net (sort_strings v4s),
      all-sort_strings (is_v4_text net) v4s,
      all-filter_self (is_v4_text net) ips,
      contains-sort_strings v4s x,
      contains-filter (is_v4_text net) ips x,
      not-v4_nil net,
      string_eq.same_iff x "",
    )
