-- ===== src/DesiredFlows.antt =====
-- ovs.go: the flows that the two planes want (desiredMACTweakFlows, desiredHairpinFlows), with the
-- specs that ovs-ofctl reads, and the normal form of their actions. Case is folded for ASCII.
pub mod Texts
pub mod Distinct
pub mod Tweaks
pub mod Keys
use ovn_network_agent.Prelude.{
  ℕ, zero, suc, ◌+◌, ◌-◌, ◌*◌, ◌/◌, ◌%◌, ◌^◌, ◌≤◌, ◌<◌, String, ◌≡◌, refl, sym, ap, ◌∙◌, ◌≢◌, ◌↔◌,
  ◌⊎◌, inl, inr, Bool, true, false, ◌&&◌, ◌||◌, not, Option, none, some, List, [], ◌∷◌, ◌++◌, map,
  arith, ltb, leb, nat_beq, if◌then◌else◌, ltb→lt, leb→le, Bool-cases, Option-cases, is_some,
  Comparable, ◌==◌, nat_eq, string_eq, bool_eq, pair_eq, length, is_empty, filter, any, all, All,
  length-append, length-filter, filter-append, all-append, any-append, all-filter, all-filter_self,
  contains, eq_self, contains-append, contains-filter, all-contains, without, contains-without,
  lookup, insert, keys, remove, lookup-insert, lookup-remove, contains-keys-insert, contains-keys,
  Nodup, str_leb, trim_space, sort_strings, contains-sort_strings, Nodup-sort_strings,
  all-sort_strings, nil_of_contains, not_nil_of_contains, trim_suffix, cut_prefix, split_on,
  fields_func, lower_code, is_space, insert_by, sort_by, ℤ, pos, negsuc, pos_part, neg_part, ◌≤ℤ◌,
  int_leb, int_leb_iff, int_eq, All-map, All-pi,
}
use ovn_network_agent.Net.{Net, Ip, is_v4}
use ovn_network_agent.Desired.{HairpinTarget}
use ovn_network_agent.FlowPlane.{FlowKey, DesiredFlow, decimal, joined}
use ovn_network_agent.Segments.Ports.{SegmentBinding, Segments}
use ovn_network_agent.Segments.{segment_binding_for}
use Prim.Native.Char.{Char, code}
use Prim.Native.String as Str

abbrev pub ovs_cookie_mac_tweak : String
ovs_cookie_mac_tweak = "0x999"

abbrev pub ovs_cookie_hairpin : String
ovs_cookie_hairpin = "0x998"

abbrev pub mac_tweak_flow_priority : ℕ
mac_tweak_flow_priority = 900

abbrev pub hairpin_flow_priority : ℕ
hairpin_flow_priority = 910

unfoldable pub mac_tweak_flow : String → String → String → Bool → String
unfolding decimal
mac_tweak_flow cookie of_port mac ipv6 = joined (
    "cookie="
    ∷ cookie
    ∷ ",priority="
    ∷ decimal 20 mac_tweak_flow_priority
    ∷ ","
    ∷ (if ipv6 then "ipv6" else "ip")
    ∷ ",in_port="
    ∷ of_port
    ∷ ",actions=mod_dl_dst:"
    ∷ mac
    ∷ ",NORMAL"
    ∷ [])

unfoldable pub hairpin_flow : String → String → String → String → String → Bool → String
unfolding decimal
hairpin_flow cookie of_port ip bridge_mac router_mac ipv6 = joined (
    "cookie="
    ∷ cookie
    ∷ ",priority="
    ∷ decimal 20 hairpin_flow_priority
    ∷ (if ipv6 then ",ipv6,in_port=" else ",ip,in_port=")
    ∷ of_port
    ∷ (if ipv6 then ",ipv6_dst=" else ",ip_dst=")
    ∷ ip
    ∷ (if ipv6 then "/128" else "/32")
    ∷ ",actions=mod_dl_src:"
    ∷ bridge_mac
    ∷ ",mod_dl_dst:"
    ∷ router_mac
    ∷ ",output:in_port"
    ∷ [])

-- strings.Cut(spec, sep), the part after it
unfoldable pub cut_after : String → String → String
cut_after sep Str.[] = ""
cut_after sep (Str.◌∷◌ c s) =
    let rest = cut_after sep s in
    elim (cut_prefix sep (Str.◌∷◌ c s)) [ some after ↦ after | none ↦ rest ]

unfoldable pub flow_actions : String → String
flow_actions spec = cut_after ",actions=" spec

char_at : ℕ → Char → String → Char
char_at i c Str.[] = c
char_at zero c (Str.◌∷◌ d s) = d
char_at (suc i) c (Str.◌∷◌ d s) = char_at i c s

lower_char : Char → Char
unfolding char_at
lower_char c =
    if leb b'A' (code c) && leb (code c) b'Z'
    then char_at (code c - b'A') c "abcdefghijklmnopqrstuvwxyz"
    else c

to_lower : String → String
to_lower Str.[] = ""
to_lower (Str.◌∷◌ c s) = Str.◌∷◌ (lower_char c) (to_lower s)

has_suffix : String → String → Bool
has_suffix suffix Str.[] = suffix == ""
has_suffix suffix (Str.◌∷◌ c s) = suffix == Str.◌∷◌ c s || has_suffix suffix s

-- a part `set_field:…` with a suffix, in the form of the field
set_field : String → String → String → Option String
set_field suffix field p = elim (cut_prefix "set_field:" p) [
  | none ↦ none
  | some rest ↦
      if has_suffix suffix p then some (Str.◌++◌ field (trim_suffix suffix rest)) else none
]

-- the switch over a part of the list
normal_part : String → String
unfolding set_field has_suffix
normal_part p =
    if p == "in_port" then "output:in_port" else elim (set_field "->eth_src" "mod_dl_src:" p) [
      | some q ↦ q
      | none ↦ elim (set_field "->eth_dst" "mod_dl_dst:" p) [ some q ↦ q | none ↦ p ]
    ]

-- strings.Join
join_rest : List String → String
join_rest [] = ""
join_rest (s ∷ ss) = Str.◌++◌ "," (Str.◌++◌ s (join_rest ss))

join_commas : List String → String
unfolding join_rest
join_commas [] = ""
join_commas (s ∷ ss) = Str.◌++◌ s (join_rest ss)

unfoldable pub normalize_actions : String → String
unfolding to_lower lower_char normal_part join_commas
normalize_actions actions =
    join_commas
      (map (λ p. normal_part (trim_space p)) (split_on (λ c. code c == b',') (to_lower actions)))

mac_tweak_desired : SegmentBinding → Bool → DesiredFlow
mac_tweak_desired b ipv6 =
    let spec = mac_tweak_flow ovs_cookie_mac_tweak b.of_port b.kernel_mac ipv6 in
    record {
      key = record {
        priority = mac_tweak_flow_priority;
        ipv6 = ipv6;
        in_port = b.of_port;
        dst = "";
      };
      actions = normalize_actions (flow_actions spec);
      spec = spec;
    }

-- the loop over the segments, with the port numbers seen before
mac_tweak_from : List String → List SegmentBinding → List DesiredFlow
mac_tweak_from seen [] = []
mac_tweak_from seen (b ∷ bs) =
    let old = contains seen b.of_port in
    let rest = mac_tweak_from (if old then seen else b.of_port ∷ seen) bs in
    if old then rest else mac_tweak_desired b false ∷ mac_tweak_desired b true ∷ rest

bindings_at : Segments → List String → List SegmentBinding
bindings_at segs [] = []
bindings_at segs (k ∷ ks) = elim (lookup k segs) [
  | none ↦ bindings_at segs ks
  | some b ↦ b ∷ bindings_at segs ks
]

unfoldable pub desired_mac_tweak_flows : Segments → List DesiredFlow
unfolding mac_tweak_from mac_tweak_desired bindings_at
desired_mac_tweak_flows segs = mac_tweak_from [] (bindings_at segs (sort_strings (keys segs)))

hairpin_desired : Net → String → HairpinTarget → Ip → SegmentBinding → DesiredFlow
hairpin_desired net ip target parsed b =
    let ipv6 = not (is_v4 parsed) in
    let spec = hairpin_flow ovs_cookie_hairpin b.of_port ip b.kernel_mac target.router_mac ipv6 in
    record {
      key = record {
        priority = hairpin_flow_priority;
        ipv6 = ipv6;
        in_port = b.of_port;
        dst = net.ip_string parsed;
      };
      actions = normalize_actions (flow_actions spec);
      spec = spec;
    }

hairpin_flow_of :
    Net → Segments → String → HairpinTarget → Option Ip → Option SegmentBinding → List DesiredFlow
hairpin_flow_of net segs ip target (some parsed) (some b) =
    hairpin_desired net ip target parsed b ∷ []
hairpin_flow_of net segs ip target (some parsed) none = []
hairpin_flow_of net segs ip target none b = []

unfoldable pub desired_hairpin_flows :
    Net → Segments → List (String × HairpinTarget) → List DesiredFlow
unfolding hairpin_flow_of hairpin_desired
desired_hairpin_flows net segs [] = []
desired_hairpin_flows net segs ((ip, target) ∷ targets) =
    hairpin_flow_of net segs ip target (net.parse_ip ip) (segment_binding_for segs target.segment)
    ++ desired_hairpin_flows net segs targets
