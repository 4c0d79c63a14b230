-- ===== src/Segments/Ports.antt =====
-- ovs.go: what the binding of the segments reads of OVS, the ports of the bridge and their numbers. What the OVS commands and the platform answer is `Ovs`; `none` is an error.
use ovn_network_agent.Prelude.{
  ℕ, String, true, false, ◌&&◌, ◌||◌, Option, none, some, List, [], ◌∷◌, if◌then◌else◌, ◌==◌,
  nat_eq, string_eq, bool_eq, pair_eq, insert, trim_space, fields_func, is_space, int_eq,
}
use Prim.Native.Char.{code}
use Prim.Native.String as Str

pub record Ovs : Type 0 where
  pub list_ports : Option String
  pub localnet_port : String → Option String
  pub interface_type : String → Option String
  pub ofport : String → Option String
  pub bridge_mac : Option String
  pub segment_interface : ℕ → Option (String × String)

-- segmentBinding
pub record SegmentBinding : Type 0 where
  pub patch_port : String
  pub of_port : String
  pub kernel_dev : String
  pub kernel_mac : String
  pub vlan_tag : Option ℕ

abbrev pub Segments : Type 0
Segments = List (String × SegmentBinding)

-- strings.Trim(s, "\"")
trim_quotes_left : String → String
trim_quotes_left Str.[] = ""
trim_quotes_left (Str.◌∷◌ c s) = elim (code c == 34) [
  | true ↦ trim_quotes_left s
  | false ↦ Str.◌∷◌ c s
]

trim_quotes_right : String → String
trim_quotes_right Str.[] = ""
trim_quotes_right (Str.◌∷◌ c s) =
    let rest = trim_quotes_right s in if rest == "" && code c == 34 then "" else Str.◌∷◌ c rest

unfoldable pub trim_quotes : String → String
unfolding trim_quotes_left trim_quotes_right
trim_quotes s = trim_quotes_right (trim_quotes_left s)

-- strings.Fields(strings.TrimSpace(s))
unfoldable pub port_names : String → List String
port_names out = fields_func is_space (trim_space out)

infixl 5 ◌>>=◌
abbrev pub ◌>>=◌ {ℓ κ} : {A : Type ℓ} {B : Type κ} → Option A → (A → Option B) → Option B
none >>= f = none
some a >>= f = f a

module _ (bridge_dev : String) (ovs : Ovs) where
  valid_of_port : String → Option String
  valid_of_port out = let p = trim_space out in if p == "" || p == "-1" then none else some p

  get_raw : Option String → Option String
  get_raw none = none
  get_raw (some out) = valid_of_port out

  unfoldable pub get_of_port : String → Option String
  unfolding get_raw valid_of_port
  get_of_port port = get_raw (ovs.ofport port)

  -- the first port of type patch
  first_patch : List String → Option String
  first_patch [] = none
  first_patch (port ∷ ports) =
      let rest = first_patch ports in
      elim (ovs.interface_type port) [
        | none ↦ rest
        | some t ↦ if trim_space t == "patch" then some port else rest
      ]

  unfoldable pub discover_patch_port : Option String
  unfolding first_patch
  discover_patch_port = elim ovs.list_ports [
    | none ↦ none
    | some out ↦ first_patch (port_names out)
  ]

  abbrev pub on_bridge : String → String → String → SegmentBinding
  on_bridge patch of_port mac = record {
    patch_port = patch;
    of_port = of_port;
    kernel_dev = bridge_dev;
    kernel_mac = mac;
    vlan_tag = none;
  }

  unfoldable pub fallback_binding : Option SegmentBinding
  fallback_binding = do
    patch ← discover_patch_port
    of_port ← get_of_port patch
    mac ← ovs.bridge_mac
    some (on_bridge patch of_port mac)

  -- the loop that fills patchByLocalnet
  unfoldable pub patch_by_localnet : List String → List (String × String) → List (String × String)
  patch_by_localnet [] m = m
  patch_by_localnet (port ∷ ports) m = patch_by_localnet ports (elim (ovs.localnet_port port) [
    | none ↦ m
    | some val ↦
        let name = trim_quotes (trim_space val) in if name == "" then m else insert name port m
  ])
