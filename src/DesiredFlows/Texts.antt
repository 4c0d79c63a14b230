-- ===== src/DesiredFlows/Texts.antt =====
-- The actions that are cut out of the text of a flow.
use ovn_network_agent.Prelude.{
  String, ◌≡◌, refl, sym, ap, ◌∙◌, Bool, true, false, ◌&&◌, ◌||◌, not, none, some, arith, ◌==◌,
  nat_eq, string_eq, bool_eq, pair_eq, cut_prefix, int_eq,
}
use ovn_network_agent.DesiredFlows.{ovs_cookie_mac_tweak, mac_tweak_flow, flow_actions, cut_after}
use Prim.Native.Char.{Char, code}
use text.Mathlib.TextLemmas.{nil-append, cons-append, append_assoc}
use Prim.Native.String as Str

-- the text begins with something that is not an `a`
abbrev begins_otherwise : String → Bool
begins_otherwise String.[] = false
begins_otherwise (String.◌∷◌ c s) = not (code c == b'a')

-- no comma ends the text or stands before an `a`
abbrev pub is_clear : String → Bool
is_clear String.[] = true
is_clear (String.◌∷◌ c s) = (not (code c == b',') || begins_otherwise s) && is_clear s

cut_prefix-append : (p s : String) → cut_prefix p (Str.◌++◌ p s) ≡ some s
unfolding cut_prefix
cut_prefix-append String.[] s = rw (nil-append s) refl
cut_prefix-append (String.◌∷◌ c p) s =
    rw (cons-append c p s) (ground (arith, cut_prefix-append p s))

-- a clear text does not begin with the separator
clear_head :
    (c : Char) (p s : String)
    → is_clear (String.◌∷◌ c p) ≡ true
    → cut_prefix ",actions=" (String.◌∷◌ c (Str.◌++◌ p s)) ≡ none
unfolding cut_prefix
clear_head c String.[] s h = ground arith
clear_head c (String.◌∷◌ d p) s h = rw (cons-append d p s) (ground arith)

cut_after-clear :
    (p s : String)
    → is_clear p ≡ true
    → cut_after ",actions=" (Str.◌++◌ p s) ≡ cut_after ",actions=" s
unfolding cut_after
cut_after-clear String.[] s h = rw (nil-append s) refl
cut_after-clear (String.◌∷◌ c p) s h =
    rw (cons-append c p s) (ground (arith, clear_head c p s h, cut_after-clear p s (ground arith)))

prefix_found :
    (c : Char) (p s : String) → cut_prefix (String.◌∷◌ c p) (String.◌∷◌ c (Str.◌++◌ p s)) ≡ some s
unfolding cut_prefix
prefix_found c p s = ground (arith, cut_prefix-append p s)

-- what follows the separator at the front of a text
cut_after-append :
    (c : Char) (p s : String) → cut_after (String.◌∷◌ c p) (Str.◌++◌ (String.◌∷◌ c p) s) ≡ s
unfolding cut_after
cut_after-append c p s = rw (cons-append c p s) (ground (arith, prefix_found c p s))

-- the text of the actions of a flow
abbrev pub tweak_text : String → String
tweak_text mac = Str.◌++◌ "mod_dl_dst:" (Str.◌++◌ mac ",NORMAL")

abbrev cut : String → String
cut s = cut_after ",actions=" s

-- the part of the match before the port
front_cut :
    (family rest : String)
    → is_clear (Str.◌++◌ "," family) ≡ true
    → cut (
        Str.◌++◌ "cookie=" (
          Str.◌++◌ "0x999" (
            Str.◌++◌ ",priority="
              (Str.◌++◌ "900" (Str.◌++◌ "," (Str.◌++◌ family (Str.◌++◌ ",in_port=" rest)))))))
      ≡ cut rest
front_cut family rest clear =
    let port = Str.◌++◌ ",in_port=" rest in
    let match = Str.◌++◌ "," (Str.◌++◌ family port) in
    cut_after-clear "cookie=" (Str.◌++◌ "0x999" (Str.◌++◌ ",priority=" (Str.◌++◌ "900" match))) refl
    ∙ cut_after-clear "0x999" (Str.◌++◌ ",priority=" (Str.◌++◌ "900" match)) refl
    ∙ cut_after-clear ",priority=" (Str.◌++◌ "900" match) refl
    ∙ cut_after-clear "900" match refl
    ∙ ap cut (sym (append_assoc "," family port))
    ∙ cut_after-clear (Str.◌++◌ "," family) port clear
    ∙ cut_after-clear ",in_port=" rest refl

actions_cut :
    (port mac : String)
    → is_clear port ≡ true
    → cut (Str.◌++◌ port (Str.◌++◌ ",actions=mod_dl_dst:" (Str.◌++◌ mac ",NORMAL")))
      ≡ tweak_text mac
actions_cut port mac clear =
    let end = Str.◌++◌ mac ",NORMAL" in
    cut_after-clear port (Str.◌++◌ ",actions=mod_dl_dst:" end) clear
    ∙ ap cut (append_assoc ",actions=" "mod_dl_dst:" end)
    ∙ cut_after-append "," "actions=" (Str.◌++◌ "mod_dl_dst:" end)

pub flow_actions-mac_tweak_flow :
    (port mac : String) (ipv6 : Bool)
    → is_clear port ≡ true
    → flow_actions (mac_tweak_flow ovs_cookie_mac_tweak port mac ipv6) ≡ tweak_text mac
unfolding flow_actions mac_tweak_flow
flow_actions-mac_tweak_flow port mac true clear =
    front_cut "ipv6" (Str.◌++◌ port (Str.◌++◌ ",actions=mod_dl_dst:" (Str.◌++◌ mac ",NORMAL"))) refl
    ∙ actions_cut port mac clear
flow_actions-mac_tweak_flow port mac false clear =
    front_cut "ip" (Str.◌++◌ port (Str.◌++◌ ",actions=mod_dl_dst:" (Str.◌++◌ mac ",NORMAL"))) refl
    ∙ actions_cut port mac clear
