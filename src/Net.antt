-- ===== src/Net.antt =====
-- What the agent uses of Go's package `net`. An address whose To4() is not nil is `v4`, its value
-- the number that its bytes spell. Reading and writing texts is the interface `Net`.
use ovn_network_agent.Prelude.{
  ℕ, ◌-◌, ◌/◌, ◌^◌, String, ◌≡◌, Bool, true, false, Option, none, some, ◌==◌, nat_eq, string_eq,
  bool_eq, pair_eq, trim_space, int_eq,
}

pub data Ip : Type 0 where
  v4 : ℕ → Ip
  v6 : ℕ → Ip

-- a network: its address and the length of its mask
pub record IpNet : Type 0 where
  pub ip : Ip
  pub ones : ℕ

-- ip.To4() != nil
abbrev pub is_v4 : Ip → Bool
is_v4 (v4 _) = true
is_v4 (v6 _) = false

-- n.Contains(ip)
unfoldable pub net_contains : Ip → ℕ → Ip → Bool
net_contains (v4 a) ones (v4 b) = a / 2 ^ (32 - ones) == b / 2 ^ (32 - ones)
net_contains (v6 a) ones (v6 b) = a / 2 ^ (128 - ones) == b / 2 ^ (128 - ones)
net_contains _ ones _ = false

-- The texts of addresses and networks. The laws are documented: ParseIP refuses the empty text and
-- surrounding space.
pub record Net : Type 0 where
  pub parse_ip : String → Option Ip
  pub parse_cidr : String → Option (Ip × IpNet)
  pub ip_string : Ip → String
  pub net_string : IpNet → String
  pub is_host_port : String → Bool
  pub parse_ip-nil : parse_ip "" ≡ none
  pub parse_ip-trim : (s : String) (a : Ip) → parse_ip s ≡ some a → trim_space s ≡ s
