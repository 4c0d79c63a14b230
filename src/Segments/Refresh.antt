-- ===== src/Segments/Refresh.antt =====
-- A refresh of the bindings, by its fast path or anew.
use ovn_network_agent.Prelude.{
  String, ◌≡◌, refl, sym, ap, ◌∙◌, inl, inr, true, ◌||◌, Option, none, some, List, [], ◌∷◌, map,
  arith, Bool-cases, ◌==◌, nat_eq, string_eq, bool_eq, pair_eq, all, contains, lookup, insert, keys,
  contains-keys-insert, int_eq,
}
use mathlib.Core.Path.{subst}
use ovn_network_agent.Desired.{DesiredSegment}
use ovn_network_agent.Segments.Ports.{
  Ovs, SegmentBinding, Segments, get_of_port, patch_by_localnet, port_names,
}
use ovn_network_agent.Segments.{
  by_key, is_current, segments_current, rediscover, rediscovered, refresh_segment_bindings,
  is_bound, has_port,
}
use ovn_network_agent.Segments.Live.{IsLive, AllLive, Post, Post-bind, bind_segments_live}

abbrev pub wanted_ports : List DesiredSegment → List String
wanted_ports ds = map (λ d. d.localnet_port) ds

contains-by_key :
    (ds : List DesiredSegment) (m : List (String × DesiredSegment)) (k : String)
    → contains (keys (by_key ds m)) k ≡ (contains (wanted_ports ds) k || contains (keys m) k)
unfolding by_key
contains-by_key [] m k = refl
contains-by_key (d ∷ ds) m k = ground (
  arith,
  contains-by_key ds (insert d.localnet_port d m) k,
  contains-keys-insert d.localnet_port k d m,
)

module _ (dev : String) (ovs : Ovs) where
  has_port_found :
      (b : SegmentBinding) (o : Option String) → has_port dev ovs b o ≡ true → o ≡ some b.of_port
  unfolding is_current
  has_port_found b none h = absurd (ground arith)
  has_port_found b (some p) h = ap some ((string_eq.same_iff p b.of_port).0 h)

  is_bound-IsLive :
      (d : DesiredSegment) (b : SegmentBinding)
      → is_bound dev ovs d (some b) ≡ true
      → IsLive dev ovs b
  unfolding is_current
  is_bound-IsLive d b h = has_port_found b (get_of_port dev ovs b.patch_port) (ground arith)

  is_current-IsLive :
      (segs : Segments) (k : String) (d : DesiredSegment) (b : SegmentBinding)
      → is_current dev ovs segs k d ≡ true
      → lookup k segs ≡ some b
      → IsLive dev ovs b
  unfolding is_current
  is_current-IsLive segs k d b c h = is_bound-IsLive d b (sym (ap (is_bound dev ovs d) h) ∙ c)

  all_current :
      (segs : Segments) (m : List (String × DesiredSegment)) (k : String)
      → all (λ e. is_current dev ovs segs e.0 e.1) m ≡ true
      → contains (keys m) k ≡ true
      → (d : DesiredSegment) × (is_current dev ovs segs k d ≡ true)
  all_current segs [] k a h = absurd (ground arith)
  all_current segs ((j, d) ∷ m) k a h = elim (Bool-cases (k == j)) [
    | inl e ↦ (d, rw ((string_eq.same_iff k j).0 e) (ground arith))
    | inr e ↦ all_current segs m k (ground arith) (ground arith)
  ]

  some-IsLive : (c b : SegmentBinding) → IsLive dev ovs c → some c ≡ some b → IsLive dev ovs b
  some-IsLive c b l h = subst (Post (IsLive dev ovs)) h l

  AllLive-lookup :
      (segs : Segments) (k : String) (b : SegmentBinding)
      → AllLive dev ovs segs
      → lookup k segs ≡ some b
      → IsLive dev ovs b
  AllLive-lookup [] k b l h = absurd (ground arith)
  AllLive-lookup ((j, c) ∷ segs) k b l h = elim (Bool-cases (k == j)) [
    | inl e ↦ some-IsLive c b l.0 (rw e at h)
    | inr e ↦ AllLive-lookup segs k b l.1 (rw e at h)
  ]

  rediscovered_live :
      (o : Option Segments) → Post (AllLive dev ovs) o → AllLive dev ovs (rediscovered dev ovs o).0
  unfolding refresh_segment_bindings
  rediscovered_live none p = tt
  rediscovered_live (some segs) p = p

  rediscover_live :
      (desired : List DesiredSegment) → Post (AllLive dev ovs) (rediscover dev ovs desired)
  unfolding refresh_segment_bindings
  rediscover_live desired = Post-bind (AllLive dev ovs) ovs.list_ports _ λ out e.
      bind_segments_live dev ovs (patch_by_localnet dev ovs (port_names out) []) desired [] none tt
        tt

  fast :
      (segs : Segments) (desired : List DesiredSegment) (k : String) (b : SegmentBinding)
      → contains (wanted_ports desired) k ≡ true
      → segments_current dev ovs segs desired ≡ true
      → lookup k segs ≡ some b
      → IsLive dev ovs b
  unfolding segments_current
  fast segs desired k b w c h =
      let m = by_key desired [] in
      let (d, current) =
        all_current segs m k (ground arith) (ground (arith, contains-by_key desired [] k)) in
      is_current-IsLive segs k d b current h

  -- After a refresh of the segment bindings, whether it takes the fast path, binds anew or fails,
  -- the binding of each desired segment, if there is one, has the port number that its patch port
  -- has now, while the answers of OVS do not change: no flow is made for a dead port.
  pub refresh_segment_bindings-IsLive :
      (segs : Segments) (desired : List DesiredSegment) (k : String) (b : SegmentBinding)
      → contains (wanted_ports desired) k ≡ true
      → lookup k (refresh_segment_bindings dev ovs segs desired).0 ≡ some b
      → IsLive dev ovs b
  unfolding refresh_segment_bindings
  refresh_segment_bindings-IsLive segs desired k b w h =
      elim (Bool-cases (segments_current dev ovs segs desired)) [
        | inl e ↦ fast segs desired k b w e (rw e at h)
        | inr e ↦
            AllLive-lookup (rediscovered dev ovs (rediscover dev ovs desired)).0 k b
              (rediscovered_live (rediscover dev ovs desired) (rediscover_live desired)) (rw e at h)
      ]
