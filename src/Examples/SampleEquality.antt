-- ===== src/Examples/SampleEquality.antt =====
-- The equality of the values of options, which computes.
use ovn_network_agent.Prelude.{
  ◌≡◌, ◌↔◌, Bool, true, false, ◌&&◌, Option, none, some, List, [], ◌∷◌, arith, Comparable, ◌==◌,
  nat_eq, string_eq, bool_eq, pair_eq, int_eq,
}
use ovn_network_agent.PortForward.{PortForwardRule, PortForwardVip}
use ovn_network_agent.Config.Options.{Value, text, truth, number, texts, forwards}

module _ {ℓ} {A : Type ℓ} ⦃e : Comparable A⦄ where
  abbrev pub list_same : List A → List A → Bool
  list_same [] [] = true
  list_same [] (y ∷ ys) = false
  list_same (x ∷ xs) [] = false
  list_same (x ∷ xs) (y ∷ ys) = x == y && list_same xs ys

  pub list_same_iff : (xs ys : List A) → (list_same xs ys ≡ true) ↔ (xs ≡ ys)
  list_same_iff [] [] = ground arith
  list_same_iff [] (y ∷ ys) = ground arith
  list_same_iff (x ∷ xs) [] = ground arith
  list_same_iff (x ∷ xs) (y ∷ ys) = ground (arith, e.same_iff x y, list_same_iff xs ys)

instance abbrev pub list_eq {ℓ} : {A : Type ℓ} ⦃e : Comparable A⦄ → Comparable (List A)
list_eq ⦃e⦄ = record { same = list_same; same_iff = list_same_iff }

abbrev pub flag_same : Option Bool → Option Bool → Bool
flag_same none none = true
flag_same none (some b) = false
flag_same (some a) none = false
flag_same (some a) (some b) = a == b

pub flag_same_iff : (a b : Option Bool) → (flag_same a b ≡ true) ↔ (a ≡ b)
flag_same_iff none none = ground arith
flag_same_iff none (some b) = ground arith
flag_same_iff (some a) none = ground arith
flag_same_iff (some a) (some b) = ground (arith, bool_eq.same_iff a b)

abbrev pub rule_same : PortForwardRule → PortForwardRule → Bool
rule_same a b =
    a.proto == b.proto
    && a.port == b.port
    && a.dest_addr == b.dest_addr
    && a.dest_addrs == b.dest_addrs
    && a.dest_port == b.dest_port
    && flag_same a.masquerade b.masquerade

pub rule_same_iff : (a b : PortForwardRule) → (rule_same a b ≡ true) ↔ (a ≡ b)
rule_same_iff a b = ground (
  arith,
  string_eq.same_iff a.proto b.proto,
  int_eq.same_iff a.port b.port,
  string_eq.same_iff a.dest_addr b.dest_addr,
  list_same_iff a.dest_addrs b.dest_addrs,
  int_eq.same_iff a.dest_port b.dest_port,
  flag_same_iff a.masquerade b.masquerade,
)

instance abbrev pub rule_eq : Comparable PortForwardRule
rule_eq = record { same = rule_same; same_iff = rule_same_iff }

abbrev pub vip_same : PortForwardVip → PortForwardVip → Bool
vip_same a b =
    a.vip == b.vip
    && a.manage_vip == b.manage_vip
    && a.masquerade == b.masquerade
    && a.hairpin_masquerade == b.hairpin_masquerade
    && a.router_masquerade == b.router_masquerade
    && a.rules == b.rules

pub vip_same_iff : (a b : PortForwardVip) → (vip_same a b ≡ true) ↔ (a ≡ b)
vip_same_iff a b = ground (
  arith,
  string_eq.same_iff a.vip b.vip,
  bool_eq.same_iff a.manage_vip b.manage_vip,
  bool_eq.same_iff a.masquerade b.masquerade,
  bool_eq.same_iff a.hairpin_masquerade b.hairpin_masquerade,
  bool_eq.same_iff a.router_masquerade b.router_masquerade,
  list_same_iff a.rules b.rules,
)

instance abbrev pub vip_eq : Comparable PortForwardVip
vip_eq = record { same = vip_same; same_iff = vip_same_iff }

abbrev pub value_same : Value → Value → Bool
value_same (text a) v = elim v [ text b ↦ a == b | _ ↦ false ]
value_same (truth a) v = elim v [ truth b ↦ a == b | _ ↦ false ]
value_same (number a) v = elim v [ number b ↦ a == b | _ ↦ false ]
value_same (texts a) v = elim v [ texts b ↦ a == b | _ ↦ false ]
value_same (forwards a) v = elim v [ forwards b ↦ a == b | _ ↦ false ]

pub value_same_iff : (v w : Value) → (value_same v w ≡ true) ↔ (v ≡ w)
value_same_iff (text a) (text b) = ground (arith, string_eq.same_iff a b)
value_same_iff (truth a) (truth b) = ground (arith, bool_eq.same_iff a b)
value_same_iff (number a) (number b) = ground (arith, int_eq.same_iff a b)
value_same_iff (texts a) (texts b) = ground (arith, list_same_iff a b)
value_same_iff (forwards a) (forwards b) = ground (arith, list_same_iff a b)
value_same_iff v w = ground arith

instance abbrev pub value_eq : Comparable Value
value_eq = record { same = value_same; same_iff = value_same_iff }
