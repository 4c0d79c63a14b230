-- ===== src/Prelude/Text.antt =====
-- The parts of Go's package `strings` and `sort` that the agent uses on texts.
use Prim.Native.Nat.{Ordering, ℕ, ◌+◌}
use Prim.Native.Char.{Char, code}
use Prim.Native.String.{String, [], ◌∷◌, compare}
use mathlib.Core.Path.{◌≡◌, refl}
use mathlib.Core.Bool.{Bool, true, false, ◌&&◌, ◌||◌, not}
use mathlib.Core.Option.{Option, none, some}
use mathlib.Core.List.{List}
use native.Mathlib.Omega.{arith}
use ovn_network_agent.Prelude.Tests.{leb, nat_beq, if◌then◌else◌}
use ovn_network_agent.Prelude.Equality.{◌==◌, string_eq}
use ovn_network_agent.Prelude.Lists.{all, filter}
use ovn_network_agent.Prelude.Sets.{contains, Nodup}

-- s <= t, in the order of Go's strings (that of the code points and of the UTF-8 bytes)
abbrev pub str_leb : String → String → Bool
str_leb s t = elim (compare s t) [ Ordering.gt ↦ false | _ ↦ true ]

-- unicode.IsSpace
unfoldable pub is_space : Char → Bool
is_space ch =
    let c = code ch in
    (leb 9 c && leb c 13)
    || nat_beq c 32
    || nat_beq c 0x85
    || nat_beq c 0xa0
    || nat_beq c 0x1680
    || (leb 0x2000 c && leb c 0x200a)
    || nat_beq c 0x2028
    || nat_beq c 0x2029
    || nat_beq c 0x202f
    || nat_beq c 0x205f
    || nat_beq c 0x3000

trim_left : String → String
trim_left [] = []
trim_left (c ∷ s) = elim (is_space c) [ true ↦ trim_left s | false ↦ c ∷ s ]

trim_right : String → String
trim_right [] = []
trim_right (c ∷ s) = let rest = trim_right s in if rest == "" && is_space c then [] else c ∷ rest

-- strings.TrimSpace
unfoldable pub trim_space : String → String
unfolding is_space trim_left trim_right
trim_space s = trim_right (trim_left s)

insert_sorted : String → List String → List String
insert_sorted s List.[] = List.◌∷◌ s List.[]
insert_sorted s (List.◌∷◌ t l) =
    if str_leb s t then List.◌∷◌ s (List.◌∷◌ t l) else List.◌∷◌ t (insert_sorted s l)

-- sort.Strings
unfoldable pub sort_strings : List String → List String
unfolding insert_sorted
sort_strings List.[] = List.[]
sort_strings (List.◌∷◌ s l) = insert_sorted s (sort_strings l)

contains-insert_sorted :
    (s : String) (l : List String) (x : String)
    → contains (insert_sorted s l) x ≡ (x == s || contains l x)
unfolding insert_sorted
contains-insert_sorted s List.[] x = refl
contains-insert_sorted s (List.◌∷◌ t l) x = ground (arith, contains-insert_sorted s l x)

-- Sorting keeps the members.
pub contains-sort_strings :
    (l : List String) (x : String) → contains (sort_strings l) x ≡ contains l x
unfolding sort_strings
contains-sort_strings List.[] x = refl
contains-sort_strings (List.◌∷◌ s l) x =
    ground (arith, contains-insert_sorted s (sort_strings l) x, contains-sort_strings l x)

Nodup-insert_sorted :
    (s : String) (l : List String) → contains l s ≡ false → Nodup l → Nodup (insert_sorted s l)
unfolding insert_sorted
Nodup-insert_sorted s List.[] h n = (refl, tt)
Nodup-insert_sorted s (List.◌∷◌ t l) h n = ground (
  arith,
  contains-insert_sorted s l t,
  Nodup-insert_sorted s l,
  string_eq.same_iff s t,
  string_eq.same_iff t s,
)

pub Nodup-sort_strings : (l : List String) → Nodup l → Nodup (sort_strings l)
unfolding sort_strings
Nodup-sort_strings List.[] n = tt
Nodup-sort_strings (List.◌∷◌ s l) n =
    Nodup-insert_sorted s (sort_strings l) (rw (contains-sort_strings l s) n.0)
      (Nodup-sort_strings l n.1)

all-insert_sorted :
    (p : String → Bool) (s : String) (l : List String)
    → all p (insert_sorted s l) ≡ (p s && all p l)
unfolding insert_sorted
all-insert_sorted p s List.[] = refl
all-insert_sorted p s (List.◌∷◌ t l) = ground (arith, all-insert_sorted p s l)

pub all-sort_strings : (p : String → Bool) (l : List String) → all p (sort_strings l) ≡ all p l
unfolding sort_strings
all-sort_strings p List.[] = refl
all-sort_strings p (List.◌∷◌ s l) =
    ground (arith, all-insert_sorted p s (sort_strings l), all-sort_strings p l)

-- strings.TrimSuffix
unfoldable pub trim_suffix : String → String → String
trim_suffix suffix String.[] = ""
trim_suffix suffix (String.◌∷◌ c s) =
    let rest = trim_suffix suffix s in if suffix == String.◌∷◌ c s then "" else String.◌∷◌ c rest

-- strings.CutPrefix
unfoldable pub cut_prefix : String → String → Option String
cut_prefix String.[] s = some s
cut_prefix (String.◌∷◌ c p) String.[] = none
cut_prefix (String.◌∷◌ c p) (String.◌∷◌ d s) =
    let rest = cut_prefix p s in if nat_beq (code c) (code d) then rest else none

pub push_char : Char → List String → List String
push_char c List.[] = List.◌∷◌ (String.◌∷◌ c String.[]) List.[]
push_char c (List.◌∷◌ w ws) = List.◌∷◌ (String.◌∷◌ c w) ws

-- a text cut at every character that passes a test, empty pieces included
unfoldable pub split_on : (Char → Bool) → String → List String
unfolding push_char
split_on test String.[] = List.◌∷◌ "" List.[]
split_on test (String.◌∷◌ c s) =
    let rest = split_on test s in if test c then List.◌∷◌ "" rest else push_char c rest

-- strings.FieldsFunc: the pieces that are not empty
unfoldable pub fields_func : (Char → Bool) → String → List String
fields_func test s = filter (λ w. not (w == "")) (split_on test s)

-- strings.ToLower, of ASCII texts
unfoldable pub lower_code : ℕ → ℕ
lower_code c = if leb 65 c && leb c 90 then c + 32 else c
