-- ===== src/Ovn/Hosts.antt =====
-- Chassis host names of ovn.go. A host name is an ASCII text, so folding its case is `lower_code`.
use ovn_network_agent.Prelude.{
  String, ◌≡◌, refl, Bool, true, false, ◌&&◌, ◌||◌, not, arith, if◌then◌else◌, ◌==◌, nat_eq,
  string_eq, bool_eq, pair_eq, lower_code,
}
use Prim.Native.Char.{Char, code}
use text.Mathlib.TextLemmas.{nil-append, cons-append}
use Prim.Native.String as Str

unfoldable pub short_hostname : String → String
short_hostname String.[] = ""
short_hostname (String.◌∷◌ c h) =
    let rest = short_hostname h in if code c == b'.' then "" else String.◌∷◌ c rest

-- strings.EqualFold
unfoldable pub equal_fold : String → String → Bool
unfolding lower_code
equal_fold String.[] String.[] = true
equal_fold String.[] (String.◌∷◌ d t) = false
equal_fold (String.◌∷◌ c s) String.[] = false
equal_fold (String.◌∷◌ c s) (String.◌∷◌ d t) =
    lower_code (code c) == lower_code (code d) && equal_fold s t

unfoldable pub hostnames_equal : String → String → Bool
hostnames_equal a b = equal_fold (short_hostname a) (short_hostname b)

equal_fold_refl : (s : String) → equal_fold s s ≡ true
unfolding equal_fold
equal_fold_refl String.[] = refl
equal_fold_refl (String.◌∷◌ c s) = ground (arith, equal_fold_refl s)

equal_fold_comm : (s t : String) → equal_fold s t ≡ equal_fold t s
unfolding equal_fold
equal_fold_comm String.[] String.[] = refl
equal_fold_comm String.[] (String.◌∷◌ d t) = refl
equal_fold_comm (String.◌∷◌ c s) String.[] = refl
equal_fold_comm (String.◌∷◌ c s) (String.◌∷◌ d t) = ground (arith, equal_fold_comm s t)

equal_fold_trans :
    (s t u : String) → equal_fold s t ≡ true → equal_fold t u ≡ true → equal_fold s u ≡ true
unfolding equal_fold
equal_fold_trans String.[] String.[] u h k = k
equal_fold_trans String.[] (String.◌∷◌ d t) u h k = cc
equal_fold_trans (String.◌∷◌ c s) String.[] u h k = cc
equal_fold_trans (String.◌∷◌ c s) (String.◌∷◌ d t) String.[] h k = cc
equal_fold_trans (String.◌∷◌ c s) (String.◌∷◌ d t) (String.◌∷◌ e u) h k =
    ground (arith, equal_fold_trans s t u)

-- a domain behind a host name changes nothing
short_hostname-append :
    (h : String) (dot : Char) (domain : String)
    → code dot ≡ b'.'
    → short_hostname (Str.◌++◌ h (String.◌∷◌ dot domain)) ≡ short_hostname h
unfolding short_hostname
short_hostname-append String.[] dot domain e =
    rw (nil-append (String.◌∷◌ dot domain)) (ground arith)
short_hostname-append (String.◌∷◌ c h) dot domain e =
    rw (cons-append c h (String.◌∷◌ dot domain))
      (ground (arith, short_hostname-append h dot domain e))

pub hostnames_equal_lem :
    (h a b : String) (dot : Char) (domain : String)
    → code dot ≡ b'.'
    → (hostnames_equal (Str.◌++◌ h (String.◌∷◌ dot domain)) h ≡ true)
      × (hostnames_equal a b ≡ hostnames_equal b a)
      × ((not (hostnames_equal h a && hostnames_equal a b) || hostnames_equal h b) ≡ true)
unfolding hostnames_equal
hostnames_equal_lem h a b dot domain e = (
  rw (short_hostname-append h dot domain e) (equal_fold_refl (short_hostname h)),
  equal_fold_comm (short_hostname a) (short_hostname b),
  ground (arith, equal_fold_trans (short_hostname h) (short_hostname a) (short_hostname b)),
)
