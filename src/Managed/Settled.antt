-- ===== src/Managed/Settled.antt =====
-- A MAC binding has its MAC after the write, and needs one write.
use ovn_network_agent.Prelude.{
  String, ◌≡◌, refl, Bool, true, false, ◌&&◌, Option, none, some, List, [], ◌∷◌, ◌++◌, map, arith,
  if◌then◌else◌, ◌==◌, nat_eq, string_eq, bool_eq, pair_eq, contains, Nodup, int_eq,
}
use ovn_network_agent.Northbound.{MacBinding}
use ovn_network_agent.Managed.{
  Write, create_route, update_route, create_mac, update_mac, ensure_static_mac_binding,
}

-- the rows under the write of a MAC binding
abbrev pub written : Option Write → List MacBinding → List MacBinding
written (some (create_mac b)) bindings = bindings ++ b ∷ []
written (some (update_mac b)) bindings = map (λ old. if old.uuid == b.uuid then b else old) bindings
written _ bindings = bindings

-- the MAC of the first binding of the address on the port
abbrev pub mac_of : String → String → List MacBinding → Option String
mac_of lrp ip [] = none
mac_of lrp ip (b ∷ bindings) =
    if b.logical_port == lrp && b.ip == ip then some b.mac else mac_of lrp ip bindings

abbrev mac_uuids : List MacBinding → List String
mac_uuids bindings = map (λ b. b.uuid) bindings

-- the write is of a row that is there, or of a new one
fits : List MacBinding → Option Write → Bool
fits bindings (some (update_mac b)) = contains (mac_uuids bindings) b.uuid
fits bindings (some (create_route r route)) = false
fits bindings (some (update_route route)) = false
fits bindings _ = true

fits_more :
    (b : MacBinding) (bindings : List MacBinding) (w : Option Write)
    → fits bindings w ≡ true
    → fits (b ∷ bindings) w ≡ true
unfolding fits
fits_more b bindings none f = refl
fits_more b bindings (some (create_mac c)) f = refl
fits_more b bindings (some (create_route r route)) f = f
fits_more b bindings (some (update_route route)) f = f
fits_more b bindings (some (update_mac c)) f = ground arith

fits-ensure :
    (lrp ip mac : String) (bindings : List MacBinding)
    → fits bindings (ensure_static_mac_binding lrp ip mac bindings) ≡ true
unfolding ensure_static_mac_binding fits
fits-ensure lrp ip mac [] = refl
fits-ensure lrp ip mac (b ∷ bindings) = ground (
  arith,
  fits_more b bindings (ensure_static_mac_binding lrp ip mac bindings)
      (fits-ensure lrp ip mac bindings),
  string_eq.same_iff b.uuid b.uuid,
)

-- a row in front that is no binding of the address
mac_of-front :
    (lrp ip : String) (b : MacBinding) (bindings : List MacBinding) (w : Option Write)
    → (b.logical_port == lrp && b.ip == ip) ≡ false
    → contains (mac_uuids bindings) b.uuid ≡ false
    → fits bindings w ≡ true
    → mac_of lrp ip (written w (b ∷ bindings)) ≡ mac_of lrp ip (written w bindings)
unfolding fits
mac_of-front lrp ip b bindings none other new f = ground arith
mac_of-front lrp ip b bindings (some (create_mac c)) other new f = ground arith
mac_of-front lrp ip b bindings (some (create_route r route)) other new f = cc
mac_of-front lrp ip b bindings (some (update_route route)) other new f = cc
mac_of-front lrp ip b bindings (some (update_mac c)) other new f =
    ground (arith, string_eq.same_iff b.uuid c.uuid)

-- With the UUIDs of the rows distinct, after ensureStaticMACBinding the address on the port has
-- the MAC that was asked for, whether its binding was missing, had another MAC, or was right.
pub mac_of-written :
    (lrp ip mac : String) (bindings : List MacBinding)
    → Nodup (map (λ b. b.uuid) bindings)
    → mac_of lrp ip (written (ensure_static_mac_binding lrp ip mac bindings) bindings) ≡ some mac
unfolding ensure_static_mac_binding
mac_of-written lrp ip mac [] n =
    ground (arith, string_eq.same_iff lrp lrp, string_eq.same_iff ip ip)
mac_of-written lrp ip mac (b ∷ bindings) n = ground (
  arith,
  mac_of-written lrp ip mac bindings n.1,
  fits-ensure lrp ip mac bindings,
  mac_of-front lrp ip b bindings (ensure_static_mac_binding lrp ip mac bindings),
  string_eq.same_iff b.mac mac,
  string_eq.same_iff b.uuid b.uuid,
)
