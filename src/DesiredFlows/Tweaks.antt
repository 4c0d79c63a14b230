-- ===== src/DesiredFlows/Tweaks.antt =====
-- What the MAC-tweak plane wants at the port of a bound segment.
use ovn_network_agent.Prelude.{
  String, ◌≡◌, refl, sym, ap, ◌∙◌, inl, inr, Bool, true, false, Option, none, some, List, [], ◌∷◌,
  map, arith, Bool-cases, Option-cases, is_some, ◌==◌, nat_eq, string_eq, bool_eq, pair_eq,
  contains, eq_self, lookup, keys, contains-keys, sort_strings, contains-sort_strings, int_eq,
}
use ovn_network_agent.FlowPlane.{key_eq, FlowKey}
use ovn_network_agent.FlowPlane.Converge.{desired_at}
use mathlib.Core.Path.{subst}
use ovn_network_agent.DesiredFlows.Texts.{is_clear, tweak_text, flow_actions-mac_tweak_flow}
use ovn_network_agent.Segments.Ports.{SegmentBinding, Segments}
use ovn_network_agent.DesiredFlows.{
  mac_tweak_flow, flow_actions, normalize_actions, ovs_cookie_mac_tweak, mac_tweak_flow_priority,
  mac_tweak_from, bindings_at, desired_mac_tweak_flows, mac_tweak_flow, flow_actions,
  normalize_actions,
}

-- the key of the flow of a port and a family
abbrev pub mac_tweak_key : String → Bool → FlowKey
mac_tweak_key port ipv6 = record {
  priority = mac_tweak_flow_priority;
  ipv6 = ipv6;
  in_port = port;
  dst = "";
}

abbrev pub ports_of : List SegmentBinding → List String
ports_of bs = map (λ b. b.of_port) bs

here :
    (segs : Segments) (ks : List String) (j : String) (b : SegmentBinding)
    → lookup j segs ≡ some b
    → contains (ports_of (bindings_at segs (j ∷ ks))) b.of_port ≡ true
unfolding desired_mac_tweak_flows
here segs ks j b h = ground (arith, eq_self b.of_port)

there :
    (segs : Segments) (ks : List String) (j : String) (b : SegmentBinding)
    → contains (ports_of (bindings_at segs ks)) b.of_port ≡ true
    → contains (ports_of (bindings_at segs (j ∷ ks))) b.of_port ≡ true
unfolding desired_mac_tweak_flows
there segs ks j b h = elim (Option-cases (lookup j segs)) [
  | inl e ↦ ground arith
  | inr (c, e) ↦ ground arith
]

contains-ports_of :
    (segs : Segments) (ks : List String) (k : String) (b : SegmentBinding)
    → contains ks k ≡ true
    → lookup k segs ≡ some b
    → contains (ports_of (bindings_at segs ks)) b.of_port ≡ true
unfolding desired_mac_tweak_flows
contains-ports_of segs [] k b c h = absurd (ground arith)
contains-ports_of segs (j ∷ ks) k b c h = elim (Bool-cases (k == j)) [
  | inl e ↦ here segs ks j b (rw (← (string_eq.same_iff k j).0 e) h)
  | inr e ↦ there segs ks j b (contains-ports_of segs ks k b (ground arith) h)
]

-- the actions of the flow of either family that writes a MAC
abbrev tweak_actions : String → String → Bool → String
tweak_actions port mac ipv6 =
    normalize_actions (flow_actions (mac_tweak_flow ovs_cookie_mac_tweak port mac ipv6))

-- The actions found at a port write the MAC of a bound segment on that port.
abbrev pub IsTweak : Segments → String → Bool → Option String → Type 0
IsTweak segs port ipv6 found =
    (name : String) × (b : SegmentBinding) × (lookup name segs ≡ some b)
    × (b.of_port ≡ port)
    × (found ≡ some (tweak_actions port b.kernel_mac ipv6))

abbrev tweak_at : String → Bool → List String → List SegmentBinding → Option String
tweak_at port ipv6 seen bs = desired_at (mac_tweak_key port ipv6) (mac_tweak_from seen bs)

tweak_at-old :
    (seen : List String) (b : SegmentBinding) (bs : List SegmentBinding) (port : String)
    (ipv6 : Bool)
    → contains seen b.of_port ≡ true
    → tweak_at port ipv6 seen (b ∷ bs) ≡ tweak_at port ipv6 seen bs
unfolding desired_mac_tweak_flows
tweak_at-old seen b bs port ipv6 e = ground arith

tweak_at-other :
    (seen : List String) (b : SegmentBinding) (bs : List SegmentBinding) (port : String)
    (ipv6 : Bool)
    → contains seen b.of_port ≡ false
    → (port == b.of_port) ≡ false
    → tweak_at port ipv6 seen (b ∷ bs) ≡ tweak_at port ipv6 (b.of_port ∷ seen) bs
unfolding desired_mac_tweak_flows
tweak_at-other seen b bs port ipv6 e d = ground arith

tweak_at-same :
    (seen : List String) (b : SegmentBinding) (bs : List SegmentBinding) (port : String)
    (ipv6 : Bool)
    → contains seen b.of_port ≡ false
    → port ≡ b.of_port
    → tweak_at port ipv6 seen (b ∷ bs) ≡ some (tweak_actions port b.kernel_mac ipv6)
unfolding desired_mac_tweak_flows
tweak_at-same seen b bs port true e d =
    rw d (ground (arith, eq_self (mac_tweak_key b.of_port true)))
tweak_at-same seen b bs port false e d =
    rw d (ground (arith, eq_self (mac_tweak_key b.of_port false)))

bound_next :
    (segs : Segments) (k : String) (ks : List String) (b : SegmentBinding)
    → lookup k segs ≡ some b
    → bindings_at segs (k ∷ ks) ≡ b ∷ bindings_at segs ks
unfolding desired_mac_tweak_flows
bound_next segs k ks b e = ground arith

unbound_next :
    (segs : Segments) (k : String) (ks : List String)
    → lookup k segs ≡ none
    → bindings_at segs (k ∷ ks) ≡ bindings_at segs ks
unfolding desired_mac_tweak_flows
unbound_next segs k ks e = ground arith

-- a binding in front, where the rest is settled for any ports seen
front-IsTweak :
    (segs : Segments) (seen : List String) (k : String) (b : SegmentBinding)
    (bs : List SegmentBinding) (port : String) (ipv6 : Bool)
    → ((later : List String)
        → contains later port ≡ false
        → contains (ports_of bs) port ≡ true
        → IsTweak segs port ipv6 (tweak_at port ipv6 later bs))
    → lookup k segs ≡ some b
    → contains seen port ≡ false
    → contains (ports_of (b ∷ bs)) port ≡ true
    → IsTweak segs port ipv6 (tweak_at port ipv6 seen (b ∷ bs))
front-IsTweak segs seen k b bs port ipv6 rest e new h =
    let good = IsTweak segs port ipv6 in
    elim (Bool-cases (port == b.of_port)) [
      | inl same ↦
          let here = (string_eq.same_iff port b.of_port).0 same in
          let first : contains seen b.of_port ≡ false = ap (contains seen) (sym here) ∙ new in
          (k, b, e, sym here, tweak_at-same seen b bs port ipv6 first here)
      | inr d ↦ elim (Bool-cases (contains seen b.of_port)) [
        | inl old ↦
            subst good (sym (tweak_at-old seen b bs port ipv6 old)) (rest seen new (ground arith))
        | inr fresh ↦
            subst good (sym (tweak_at-other seen b bs port ipv6 fresh d))
              (rest (b.of_port ∷ seen) (ground arith) (ground arith))
      ]
    ]

nothing_bound : (segs : Segments) → bindings_at segs [] ≡ []
unfolding desired_mac_tweak_flows
nothing_bound segs = refl

bound-IsTweak :
    (segs : Segments) (seen ks : List String) (port : String) (ipv6 : Bool)
    → contains seen port ≡ false
    → contains (ports_of (bindings_at segs ks)) port ≡ true
    → IsTweak segs port ipv6 (tweak_at port ipv6 seen (bindings_at segs ks))
bound-IsTweak segs seen [] port ipv6 new h =
    absurd (ground (arith, ap (λ bs. contains (ports_of bs) port) (nothing_bound segs)))
bound-IsTweak segs seen (k ∷ ks) port ipv6 new h = elim (Option-cases (lookup k segs)) [
  | inl e ↦
      let next = unbound_next segs k ks e in
      subst (λ bs. IsTweak segs port ipv6 (tweak_at port ipv6 seen bs)) (sym next)
        (bound-IsTweak segs seen ks port ipv6 new
          (ap (λ bs. contains (ports_of bs) port) (sym next) ∙ h))
  | inr (b, e) ↦
      let next = bound_next segs k ks b e in
      subst (λ bs. IsTweak segs port ipv6 (tweak_at port ipv6 seen bs)) (sym next)
        (front-IsTweak segs seen k b (bindings_at segs ks) port ipv6
          (λ later new' h'. bound-IsTweak segs later ks port ipv6 new' h') e new
          (ap (λ bs. contains (ports_of bs) port) (sym next) ∙ h))
]

pub desired-IsTweak :
    (segs : Segments) (name : String) (b : SegmentBinding) (ipv6 : Bool)
    → lookup name segs ≡ some b
    → IsTweak segs b.of_port ipv6
        (desired_at (mac_tweak_key b.of_port ipv6) (desired_mac_tweak_flows segs))
unfolding desired_mac_tweak_flows
desired-IsTweak segs name b ipv6 h =
    bound-IsTweak segs [] (sort_strings (keys segs)) b.of_port ipv6 refl (
      contains-ports_of segs (sort_strings (keys segs)) name b
        (contains-sort_strings (keys segs) name ∙ contains-keys name segs ∙ ap is_some h) h)

-- The actions found at a port send its packets to the MAC of a bound segment on that port, in the
-- form in which actions are compared.
abbrev pub WritesMac : Segments → String → Option String → Type 0
WritesMac segs port found =
    (name : String) × (b : SegmentBinding) × (lookup name segs ≡ some b)
    × (b.of_port ≡ port)
    × (found ≡ some (normalize_actions (tweak_text b.kernel_mac)))

pub tweak-WritesMac :
    (segs : Segments) (port : String) (ipv6 : Bool) (found : Option String)
    → is_clear port ≡ true
    → IsTweak segs port ipv6 found
    → WritesMac segs port found
tweak-WritesMac segs port ipv6 found clear tweak =
    let (name, b, bound, here, same) = tweak in
    (
      name,
      b,
      bound,
      here,
      same
          ∙ ap (λ t. some (normalize_actions t))
              (flow_actions-mac_tweak_flow port b.kernel_mac ipv6 clear),
    )
