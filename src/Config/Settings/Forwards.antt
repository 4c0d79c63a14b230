-- ===== src/Config/Settings/Forwards.antt =====
-- The checks on the port forwards pass exactly on sound forwards.
use ovn_network_agent.Prelude.{
  ℕ, ◌+◌, String, ◌≡◌, refl, Bool, ◌&&◌, not, List, [], ◌∷◌, map, arith, nat_eq, string_eq, bool_eq,
  pair_eq, all, contains, ℤ, int_eq,
}
use ovn_network_agent.Net.{Net}
use ovn_network_agent.PortForward.{PortForwardRule, PortForwardVip, backends}
use ovn_network_agent.Config.{of_rule}
use ovn_network_agent.Config.Settings.{
  outside, reads_v4, reads_cidr, addr_checks, rule_checks, rules_checks, forward_checks,
  cidr_checks, setting_checks,
}
use ovn_network_agent.Config.Sound.{sound_rule, rule_key, sound_forward}
use ovn_network_agent.Config.Passes.{passes, passes-append, fresh, fresh-distinct}

and_swap : (a b c d : Bool) → ((not a && b) && (c && d)) ≡ ((b && c) && (not a && d))
and_swap a b c d = ground arith

module _ (net : Net) where
  passes-addr_checks :
      (i j : ℕ) (seen addrs : List String)
      → passes (addr_checks net i j seen addrs) ≡ (all (reads_v4 net) addrs && fresh seen addrs)
  unfolding setting_checks
  passes-addr_checks i j seen [] = refl
  passes-addr_checks i j seen (a ∷ addrs) = ground (arith, passes-addr_checks i j (a ∷ seen) addrs)

  pub passes-cidr_checks :
      (ss : List String) → passes (cidr_checks net ss) ≡ all (reads_cidr net) ss
  unfolding setting_checks
  passes-cidr_checks [] = refl
  passes-cidr_checks (s ∷ ss) = ground (arith, passes-cidr_checks ss)

  passes-rule_checks :
      (i j : ℕ) (seen : List (String × ℤ)) (r : PortForwardRule)
      → passes (rule_checks net i j seen r) ≡ (not (contains seen (rule_key r)) && sound_rule net r)
  unfolding setting_checks
  passes-rule_checks i j seen r = ground (
    arith,
    passes-append (addr_checks net i j [] (backends r))
        ((outside r.dest_port 0 65535, of_rule i j "invalid dest_port") ∷ []),
    passes-addr_checks i j [] (backends r),
    fresh-distinct (backends r),
  )

  passes-rules_checks :
      (i j : ℕ) (seen : List (String × ℤ)) (rs : List PortForwardRule)
      → passes (rules_checks net i j seen rs)
        ≡ (all (sound_rule net) rs && fresh seen (map rule_key rs))
  unfolding setting_checks
  passes-rules_checks i j seen [] = refl
  passes-rules_checks i j seen (r ∷ rs) =
      rw
        (
          passes-append (rule_checks net i j seen r)
              (rules_checks net i (j + 1) (rule_key r ∷ seen) rs),
          passes-rule_checks i j seen r,
          passes-rules_checks i (j + 1) (rule_key r ∷ seen) rs,
        )
        (and_swap (contains seen (rule_key r)) (sound_rule net r) (all (sound_rule net) rs)
          (fresh (rule_key r ∷ seen) (map rule_key rs)))

  pub passes-forward_checks :
      (i : ℕ) (seen : List String) (pfs : List PortForwardVip)
      → passes (forward_checks net i seen pfs)
        ≡ (all (sound_forward net) pfs && fresh seen (map (λ pf. pf.vip) pfs))
  unfolding setting_checks
  passes-forward_checks i seen [] = refl
  passes-forward_checks i seen (pf ∷ pfs) = ground (
    arith,
    passes-append (rules_checks net i 0 [] pf.rules)
        (forward_checks net (i + 1) (pf.vip ∷ seen) pfs),
    passes-rules_checks i 0 [] pf.rules,
    passes-forward_checks (i + 1) (pf.vip ∷ seen) pfs,
    fresh-distinct (map rule_key pf.rules),
  )
