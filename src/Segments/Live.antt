-- ===== src/Segments/Live.antt =====
-- The bindings after a refresh match the ports of the switch.
use ovn_network_agent.Prelude.{
  ℕ, String, ◌≡◌, refl, inl, inr, Option, none, some, List, [], ◌∷◌, if◌then◌else◌, Bool-cases,
  ◌==◌, nat_eq, string_eq, bool_eq, pair_eq, All, lookup, insert, int_eq,
}
use mathlib.Core.Path.{subst}
use ovn_network_agent.Desired.{DesiredSegment}
use ovn_network_agent.Segments.Ports.{
  Ovs, SegmentBinding, Segments, ◌>>=◌, on_bridge, get_of_port, fallback_binding,
  discover_patch_port,
}
use ovn_network_agent.Segments.{
  Bound, bind_fallback, bind_kernel, bind_interface, bind_patch, bind_segment, bind_segments,
}

-- what holds of a result, if there is one
abbrev pub Post {ℓ κ} : {A : Type ℓ} → (A → Type κ) → Option A → Type κ
Post P none = Unit
Post P (some a) = P a

pub Post-bind {ℓ κ ι} :
    {A : Type ℓ} {B : Type κ} (P : B → Type ι) (m : Option A) (f : A → Option B)
    → ((a : A) → m ≡ some a → Post P (f a))
    → Post P (m >>= f)
Post-bind P none f h = tt
Post-bind P (some a) f h = h a refl

pub Post-some {ℓ κ} :
    {A : Type ℓ} (P : A → Type κ) (m : Option A) (a : A) → Post P m → m ≡ some a → P a
Post-some P m a h e = subst (Post P) e h

module _ (dev : String) (ovs : Ovs) where
  -- the patch port still has the port number of the binding
  abbrev pub IsLive : SegmentBinding → Type 0
  IsLive b = get_of_port dev ovs b.patch_port ≡ some b.of_port

  abbrev pub AllLive : Segments → Type 0
  AllLive segs = All (λ e. IsLive e.1) segs

  AllLive-insert :
      (k : String) (b : SegmentBinding) (segs : Segments)
      → IsLive b
      → AllLive segs
      → AllLive (insert k b segs)
  AllLive-insert k b [] h l = (h, tt)
  AllLive-insert k b ((j, c) ∷ segs) h l = elim (Bool-cases (k == j)) [
    | inl e ↦ rw e (h, l.1)
    | inr e ↦ rw e (l.0, AllLive-insert k b segs h l.1)
  ]

  fallback_binding-IsLive : Post IsLive (fallback_binding dev ovs)
  unfolding fallback_binding
  fallback_binding-IsLive = Post-bind IsLive (discover_patch_port dev ovs) _ λ patch found.
      Post-bind IsLive (get_of_port dev ovs patch) _
        λ of_port live. Post-bind IsLive ovs.bridge_mac _ λ mac e. live

  -- the bindings so far, the fallback among them
  GoodBound : Bound → Type 0
  GoodBound (segs, fallback) = AllLive segs × Post IsLive fallback

  bind_fallback_good :
      (d : DesiredSegment) (segs : Segments) (fallback : Option SegmentBinding)
      → AllLive segs
      → Post IsLive fallback
      → Post GoodBound (bind_fallback dev ovs d segs fallback)
  unfolding bind_segment GoodBound
  bind_fallback_good d segs (some b) l f = (AllLive-insert d.localnet_port b segs f l, f)
  bind_fallback_good d segs none l f = Post-bind GoodBound (fallback_binding dev ovs) _ λ b e.
      let h = Post-some IsLive (fallback_binding dev ovs) b fallback_binding-IsLive e in
      (AllLive-insert d.localnet_port b segs h l, h)

  bind_interface_good :
      (d : DesiredSegment) (patch of_port : String) (tag : ℕ) (segs : Segments)
      (fallback : Option SegmentBinding) (found : Option (String × String))
      → get_of_port dev ovs patch ≡ some of_port
      → AllLive segs
      → Post IsLive fallback
      → Post GoodBound (bind_interface dev ovs d patch of_port tag segs fallback found)
  unfolding bind_segment GoodBound
  bind_interface_good d patch of_port tag segs fallback none h l f = (l, f)
  bind_interface_good d patch of_port tag segs fallback (some (kernel_dev, mac)) h l f = (
    AllLive-insert d.localnet_port
        (record {
          patch_port = patch;
          of_port = of_port;
          kernel_dev = kernel_dev;
          kernel_mac = mac;
          vlan_tag = some tag;
        })
        segs h l,
    f,
  )

  bind_kernel_good :
      (d : DesiredSegment) (patch of_port : String) (tag : Option ℕ) (segs : Segments)
      (fallback : Option SegmentBinding)
      → get_of_port dev ovs patch ≡ some of_port
      → AllLive segs
      → Post IsLive fallback
      → Post GoodBound (bind_kernel dev ovs d patch of_port tag segs fallback)
  unfolding bind_segment GoodBound
  bind_kernel_good d patch of_port none segs fallback h l f =
      Post-bind GoodBound ovs.bridge_mac _
        λ mac e. (AllLive-insert d.localnet_port (on_bridge dev ovs patch of_port mac) segs h l, f)
  bind_kernel_good d patch of_port (some tag) segs fallback h l f =
      bind_interface_good d patch of_port tag segs fallback (ovs.segment_interface tag) h l f

  bind_patch_good :
      (d : DesiredSegment) (patch : Option String) (segs : Segments)
      (fallback : Option SegmentBinding)
      → AllLive segs
      → Post IsLive fallback
      → Post GoodBound (bind_patch dev ovs d patch segs fallback)
  unfolding bind_segment
  bind_patch_good d none segs fallback l f = bind_fallback_good d segs fallback l f
  bind_patch_good d (some patch) segs fallback l f = elim (Bool-cases (patch == "")) [
    | inl e ↦ rw e (bind_fallback_good d segs fallback l f)
    | inr e ↦ rw e (
        Post-bind GoodBound (get_of_port dev ovs patch) _
          λ of_port h. bind_kernel_good d patch of_port d.vlan_tag segs fallback h l f)
  ]

  pub bind_segments_live :
      (patches : List (String × String)) (ds : List DesiredSegment) (segs : Segments)
      (fallback : Option SegmentBinding)
      → AllLive segs
      → Post IsLive fallback
      → Post AllLive (bind_segments dev ovs patches ds segs fallback)
  unfolding bind_segments bind_segment GoodBound
  bind_segments_live patches [] segs fallback l f = l
  bind_segments_live patches (d ∷ ds) segs fallback l f =
      let patch = if d.localnet_port == "" then none else lookup d.localnet_port patches in
      Post-bind AllLive (bind_segment dev ovs patches d segs fallback) _ λ b e.
        let g =
          Post-some GoodBound (bind_patch dev ovs d patch segs fallback) b
            (bind_patch_good d patch segs fallback l f) e in
        bind_segments_live patches ds b.0 b.1 g.0 g.1
