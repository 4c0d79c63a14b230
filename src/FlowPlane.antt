-- ===== src/FlowPlane.antt =====
-- ovs.go: reconcileFlowPlane and applyFlowAdds, as the ovs-ofctl commands that change flows. The
-- dump is `none` where it failed, and its flows are parsed; what the probes of the wrapper and of
-- bundles say is an argument. The calls of the flow watch and of the metrics are left out.
pub mod Sorting
pub mod Switch
pub mod Converge
pub mod Safety
use ovn_network_agent.Prelude.{
  ℕ, zero, suc, ◌+◌, ◌-◌, ◌*◌, ◌/◌, ◌%◌, ◌^◌, ◌≤◌, ◌<◌, String, ◌≡◌, refl, sym, ap, ◌∙◌, ◌≢◌, ◌↔◌,
  ◌⊎◌, inl, inr, Bool, true, false, ◌&&◌, ◌||◌, not, Option, none, some, List, [], ◌∷◌, ◌++◌, map,
  arith, ltb, leb, nat_beq, if◌then◌else◌, ltb→lt, leb→le, Bool-cases, Option-cases, is_some,
  Comparable, ◌==◌, nat_eq, string_eq, bool_eq, pair_eq, length, is_empty, filter, any, all, All,
  length-append, length-filter, filter-append, all-append, any-append, all-filter, all-filter_self,
  contains, eq_self, contains-append, contains-filter, all-contains, without, contains-without,
  lookup, insert, keys, remove, lookup-insert, lookup-remove, contains-keys-insert, contains-keys,
  Nodup, str_leb, trim_space, sort_strings, contains-sort_strings, Nodup-sort_strings,
  all-sort_strings, nil_of_contains, not_nil_of_contains, trim_suffix, cut_prefix, split_on,
  fields_func, lower_code, is_space, insert_by, sort_by, ℤ, pos, negsuc, pos_part, neg_part, ◌≤ℤ◌,
  int_leb, int_leb_iff, int_eq, All-map, All-pi,
}
use Prim.Native.String as Str

-- flowKey
pub record FlowKey : Type 0 where
  pub priority : ℕ
  pub ipv6 : Bool
  pub in_port : String
  pub dst : String

abbrev pub same_key : FlowKey → FlowKey → Bool
same_key a b =
    a.priority == b.priority && a.ipv6 == b.ipv6 && a.in_port == b.in_port && a.dst == b.dst

pub same_key_iff : (a b : FlowKey) → (same_key a b ≡ true) ↔ (a ≡ b)
same_key_iff a b = ground (
  arith,
  bool_eq.same_iff a.ipv6 b.ipv6,
  string_eq.same_iff a.in_port b.in_port,
  string_eq.same_iff a.dst b.dst,
)

instance abbrev pub key_eq : Comparable FlowKey
key_eq = record { same = same_key; same_iff = same_key_iff }

-- desiredFlow
pub record DesiredFlow : Type 0 where
  pub key : FlowKey
  pub actions : String
  pub spec : String

digit : ℕ → String
digit d =
    if d == 0
    then "0"
    else if d == 1
    then "1"
    else if d == 2
    then "2"
    else if d == 3
    then "3"
    else if d == 4
    then "4"
    else if d == 5
    then "5"
    else if d == 6
    then "6"
    else if d == 7
    then "7"
    else if d == 8
    then "8"
    else "9"

-- %d, with as many digits as the fuel allows
unfoldable pub decimal : ℕ → ℕ → String
unfolding digit
decimal zero n = ""
decimal (suc fuel) n =
    let front = decimal fuel (n / 10) in
    if ltb n 10 then digit n else Str.◌++◌ front (digit (n % 10))

abbrev pub joined : List String → String
joined [] = ""
joined (s ∷ ss) = Str.◌++◌ s (joined ss)

unfoldable pub delete_match : String → FlowKey → String
unfolding decimal
delete_match cookie k = joined (
    "cookie="
    ∷ cookie
    ∷ "/-1,priority="
    ∷ decimal 20 k.priority
    ∷ ","
    ∷ (if k.ipv6 then "ipv6" else "ip")
    ∷ ",in_port="
    ∷ k.in_port
    ∷ (if k.dst == "" then "" else Str.◌++◌ (if k.ipv6 then ",ipv6_dst=" else ",nw_dst=") k.dst)
    ∷ [])

-- a command that changes flows
pub data FlowCommand : Type 0 where
  add_flow : DesiredFlow → FlowCommand
  add_flows : Bool → List DesiredFlow → FlowCommand
  del_flow : FlowKey → FlowCommand

-- the map `current`, filled flow by flow
unfoldable pub current_from :
    List (FlowKey × String) → List (FlowKey × String) → List (FlowKey × String)
current_from [] m = m
current_from ((k, actions) ∷ flows) m = current_from flows (insert k actions m)

abbrev pub is_installed : List (FlowKey × String) → DesiredFlow → Bool
is_installed current d = elim (lookup d.key current) [ none ↦ false | some a ↦ a == d.actions ]

unfoldable pub plane_adds : List (FlowKey × String) → List DesiredFlow → List DesiredFlow
plane_adds current desired =
    sort_by (λ d. d.spec) (filter (λ d. not (is_installed current d)) desired)

abbrev pub wanted_keys : List DesiredFlow → List FlowKey
wanted_keys desired = map (λ d. d.key) desired

unfoldable pub plane_dels : String → List (FlowKey × String) → List DesiredFlow → List FlowKey
plane_dels cookie current desired =
    sort_by (delete_match cookie)
      (filter (λ k. not (contains (wanted_keys desired) k)) (keys current))

-- the commands of applyFlowAdds
unfoldable pub apply_flow_adds : Bool → Bool → List DesiredFlow → List FlowCommand
apply_flow_adds stdin_ok bundle [] = []
apply_flow_adds stdin_ok bundle (d ∷ ds) =
    if stdin_ok then add_flows bundle (d ∷ ds) ∷ [] else map add_flow (d ∷ ds)

abbrev pub del_commands : List FlowKey → List FlowCommand
del_commands ks = map del_flow ks

-- the deletes run after all adds, and only if these succeeded; with them, whether an error is
-- returned
unfoldable pub in_phases :
    (FlowCommand → Bool) → List FlowCommand → List FlowCommand → List FlowCommand × Bool
in_phases succeeds adds dels =
    if all succeeds adds then (adds ++ dels, not (all succeeds dels)) else (adds, true)

-- the commands that run, and whether an error is returned
unfoldable pub reconcile_flow_plane :
    String
    → Option (List (FlowKey × String))
    → List DesiredFlow
    → Bool
    → Bool
    → (FlowCommand → Bool)
    → List FlowCommand × Bool
reconcile_flow_plane cookie none desired stdin_ok bundle succeeds = ([], true)
reconcile_flow_plane cookie (some dump) desired stdin_ok bundle succeeds =
    let current = current_from dump [] in
    in_phases succeeds (apply_flow_adds stdin_ok bundle (plane_adds current desired))
      (del_commands (plane_dels cookie current desired))
