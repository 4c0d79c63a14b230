-- ===== src/Segments.antt =====
-- ovs.go: how the localnet segments are bound to patch ports and kernel interfaces
-- (refreshSegmentBindings and what it calls). The answers of OVS do not change while one call runs.
pub mod Ports
pub mod Live
pub mod Refresh
use ovn_network_agent.Prelude.{
  ℕ, zero, suc, ◌+◌, ◌-◌, ◌*◌, ◌/◌, ◌%◌, ◌^◌, ◌≤◌, ◌<◌, String, ◌≡◌, refl, sym, ap, ◌∙◌, ◌≢◌, ◌↔◌,
  ◌⊎◌, inl, inr, Bool, true, false, ◌&&◌, ◌||◌, not, Option, none, some, List, [], ◌∷◌, ◌++◌, map,
  arith, ltb, leb, nat_beq, if◌then◌else◌, ltb→lt, leb→le, Bool-cases, Option-cases, is_some,
  Comparable, ◌==◌, nat_eq, string_eq, bool_eq, pair_eq, length, is_empty, filter, any, all, All,
  length-append, length-filter, filter-append, all-append, any-append, all-filter, all-filter_self,
  contains, eq_self, contains-append, contains-filter, all-contains, without, contains-without,
  lookup, insert, keys, remove, lookup-insert, lookup-remove, contains-keys-insert, contains-keys,
  Nodup, str_leb, trim_space, sort_strings, contains-sort_strings, Nodup-sort_strings,
  all-sort_strings, nil_of_contains, not_nil_of_contains, trim_suffix, cut_prefix, split_on,
  fields_func, lower_code, is_space, insert_by, sort_by, ℤ, pos, negsuc, pos_part, neg_part, ◌≤ℤ◌,
  int_leb, int_leb_iff, int_eq, All-map, All-pi,
}
use ovn_network_agent.Desired.{DesiredSegment}
use ovn_network_agent.Segments.Ports.{
  Ovs, SegmentBinding, Segments, ◌>>=◌, on_bridge, get_of_port, fallback_binding, patch_by_localnet,
  port_names,
}

tag_same : Option ℕ → Option ℕ → Bool
tag_same none none = true
tag_same none (some b) = false
tag_same (some a) none = false
tag_same (some a) (some b) = a == b

unfoldable pub tags_equal : Option ℕ → Option ℕ → Bool
unfolding tag_same
tags_equal a b = tag_same a b

abbrev pub Bound : Type 0
Bound = Segments × Option SegmentBinding

-- the map byKey
unfoldable pub by_key :
    List DesiredSegment → List (String × DesiredSegment) → List (String × DesiredSegment)
by_key [] m = m
by_key (d ∷ ds) m = by_key ds (insert d.localnet_port d m)

module _ (bridge_dev : String) (ovs : Ovs) where
  -- the loop over the desired segments; the fallback is looked for once
  add_fallback : String → Segments → SegmentBinding → Bound
  add_fallback key segs b = (insert key b segs, some b)

  bind_fallback : DesiredSegment → Segments → Option SegmentBinding → Option Bound
  unfolding add_fallback
  bind_fallback d segs (some b) = some (add_fallback d.localnet_port segs b)
  bind_fallback d segs none = do
    b ← fallback_binding bridge_dev ovs
    some (add_fallback d.localnet_port segs b)

  -- a VLAN segment with no kernel interface is skipped
  bind_interface :
      DesiredSegment
      → String
      → String
      → ℕ
      → Segments
      → Option SegmentBinding
      → Option (String × String)
      → Option Bound
  bind_interface d patch of_port tag segs fallback none = some (segs, fallback)
  bind_interface d patch of_port tag segs fallback (some (dev, mac)) = some (
    insert d.localnet_port
        (record {
          patch_port = patch;
          of_port = of_port;
          kernel_dev = dev;
          kernel_mac = mac;
          vlan_tag = some tag;
        })
        segs,
    fallback,
  )

  bind_kernel :
      DesiredSegment → String → String → Option ℕ → Segments → Option SegmentBinding → Option Bound
  unfolding bind_interface
  bind_kernel d patch of_port none segs fallback = do
    mac ← ovs.bridge_mac
    some (insert d.localnet_port (on_bridge bridge_dev ovs patch of_port mac) segs, fallback)
  bind_kernel d patch of_port (some tag) segs fallback =
      bind_interface d patch of_port tag segs fallback (ovs.segment_interface tag)

  bind_patch : DesiredSegment → Option String → Segments → Option SegmentBinding → Option Bound
  bind_patch d none segs fallback = bind_fallback d segs fallback
  bind_patch d (some patch) segs fallback =
      if patch == "" then bind_fallback d segs fallback else do
        of_port ← get_of_port bridge_dev ovs patch
        bind_kernel d patch of_port d.vlan_tag segs fallback

  unfoldable pub bind_segment :
      List (String × String)
      → DesiredSegment
      → Segments
      → Option SegmentBinding
      → Option (Segments × Option SegmentBinding)
  unfolding bind_patch bind_kernel bind_fallback add_fallback
  bind_segment patches d segs fallback =
      bind_patch d (if d.localnet_port == "" then none else lookup d.localnet_port patches) segs
        fallback

  unfoldable pub bind_segments :
      List (String × String)
      → List DesiredSegment
      → Segments
      → Option SegmentBinding
      → Option Segments
  bind_segments patches [] segs fallback = some segs
  bind_segments patches (d ∷ ds) segs fallback =
      bind_segment patches d segs fallback >>= λ b. bind_segments patches ds b.0 b.1

  has_port : SegmentBinding → Option String → Bool
  has_port b none = false
  has_port b (some p) = p == b.of_port

  is_bound : DesiredSegment → Option SegmentBinding → Bool
  is_bound d none = false
  is_bound d (some b) =
      tags_equal b.vlan_tag d.vlan_tag && has_port b (get_of_port bridge_dev ovs b.patch_port)

  unfoldable pub is_current : Segments → String → DesiredSegment → Bool
  unfolding is_bound has_port
  is_current segs key d = is_bound d (lookup key segs)

  unfoldable pub segments_current : Segments → List DesiredSegment → Bool
  unfolding is_current by_key
  segments_current segs desired =
      let wanted = by_key desired [] in
      not (is_empty segs)
      && length wanted == length segs
      && all (λ e. is_current segs e.0 e.1) wanted

  rediscover : List DesiredSegment → Option Segments
  rediscover desired = do
    out ← ovs.list_ports
    bind_segments (patch_by_localnet bridge_dev ovs (port_names out) []) desired [] none

  rediscovered : Option Segments → Segments × Bool
  rediscovered none = ([], true)
  rediscovered (some segs) = (segs, false)

  -- the bindings afterwards, and whether an error is returned
  unfoldable pub refresh_segment_bindings : Segments → List DesiredSegment → Segments × Bool
  unfolding rediscover rediscovered segments_current
  refresh_segment_bindings segs desired =
      if segments_current segs desired then (segs, false) else rediscovered (rediscover desired)

unfoldable pub segment_binding_for : Segments → String → Option SegmentBinding
segment_binding_for segs port = elim (lookup port segs) [ none ↦ lookup "" segs | some b ↦ some b ]

unfoldable pub segment_dev : String → Segments → String → String
segment_dev bridge_dev segs port = elim (segment_binding_for segs port) [
  | none ↦ bridge_dev
  | some b ↦ b.kernel_dev
]

unfoldable pub segment_resolved : Segments → String → Bool
segment_resolved segs port = is_some (lookup port segs)

unfoldable pub segment_mac : Segments → String → String
segment_mac segs port = elim (segment_binding_for segs port) [ none ↦ "" | some b ↦ b.kernel_mac ]
