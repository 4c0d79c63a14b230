-- ===== src/Addresses.antt =====
-- uniqueIPs of agent.go: the texts that are left of a list once trimmed, sorted and without
-- duplicates.
use ovn_network_agent.Prelude.{
  String, ◌≡◌, refl, ◌&&◌, not, List, [], ◌∷◌, map, arith, ◌==◌, string_eq, Nodup,
  Nodup-sort_strings, if◌then◌else◌, contains, trim_space, sort_strings, contains-sort_strings,
}

-- the loop of uniqueIPs; `seen` is its map
unique_from : List String → List String → List String
unique_from seen [] = []
unique_from seen (ip ∷ ips) =
    let t = trim_space ip in
    let kept = t ∷ unique_from (t ∷ seen) ips in
    let skipped = unique_from seen ips in
    if not (t == "") && not (contains seen t) then kept else skipped

unfoldable pub unique_ips : List String → List String
unfolding unique_from
unique_ips ips = sort_strings (unique_from [] ips)

contains-unique_from :
    (seen ips : List String) (x : String)
    → contains (unique_from seen ips) x
      ≡ (contains (map trim_space ips) x && not (x == "") && not (contains seen x))
unfolding unique_from
contains-unique_from seen [] x = refl
contains-unique_from seen (ip ∷ ips) x = ground (
  arith,
  contains-unique_from seen ips x,
  contains-unique_from (trim_space ip ∷ seen) ips x,
  string_eq.same_iff x (trim_space ip),
)

-- The result has exactly the trimmed texts that are not empty.
pub contains-unique_ips :
    (ips : List String) (x : String)
    → contains (unique_ips ips) x ≡ (contains (map trim_space ips) x && not (x == ""))
unfolding unique_ips
contains-unique_ips ips x =
    ground (arith, contains-sort_strings (unique_from [] ips) x, contains-unique_from [] ips x)

Nodup-unique_from : (seen ips : List String) → Nodup (unique_from seen ips)
unfolding unique_from
Nodup-unique_from seen [] = tt
Nodup-unique_from seen (ip ∷ ips) = ground (
  arith,
  Nodup-unique_from seen ips,
  Nodup-unique_from (trim_space ip ∷ seen) ips,
  contains-unique_from (trim_space ip ∷ seen) ips (trim_space ip),
  string_eq.same_iff (trim_space ip) (trim_space ip),
)

-- No address stands twice in the result.
pub Nodup-unique_ips : (ips : List String) → Nodup (unique_ips ips)
unfolding unique_ips
Nodup-unique_ips ips = Nodup-sort_strings (unique_from [] ips) (Nodup-unique_from [] ips)
