-- ===== src/Examples/SampleNet.antt =====
-- An interface `Net` that knows a few texts.
use ovn_network_agent.Prelude.{
  String, ◌≡◌, refl, true, Option, none, some, arith, if◌then◌else◌, ◌==◌, nat_eq, string_eq,
  bool_eq, pair_eq, trim_space, int_eq,
}
use ovn_network_agent.Net.{Ip, v4, v6, Net}

unfoldable pub parse : String → Option Ip
parse s =
    if s == "192.0.2.10"
    then some (v4 3221225994)
    else if s == "192.0.2.1"
    then some (v4 3221225985)
    else if s == "2001:db8::1"
    then some (v6 42540766411282592856903984951653826561)
    else none

trim_10 : trim_space "192.0.2.10" ≡ "192.0.2.10"
unfolding trim_space
trim_10 = refl

trim_1 : trim_space "192.0.2.1" ≡ "192.0.2.1"
unfolding trim_space
trim_1 = refl

trim_v6 : trim_space "2001:db8::1" ≡ "2001:db8::1"
unfolding trim_space
trim_v6 = refl

-- a text that is read is one of the three
parse-trim_of : (s t : String) → (s == t) ≡ true → trim_space t ≡ t → trim_space s ≡ s
parse-trim_of s t e h = rw ((string_eq.same_iff s t).0 e) h

pub parse-trim : (s : String) (a : Ip) → parse s ≡ some a → trim_space s ≡ s
unfolding parse
parse-trim s a h = ground (
  arith,
  parse-trim_of s "192.0.2.10",
  parse-trim_of s "192.0.2.1",
  parse-trim_of s "2001:db8::1",
  trim_10,
  trim_1,
  trim_v6,
)

unfoldable pub sample_net : Net
unfolding parse
sample_net = record {
  parse_ip = parse;
  parse_cidr = λ s.
      if s == "192.0.2.1/24"
      then some (v4 3221225985, record { ip = v4 3221225984; ones = 24 })
      else none;
  ip_string = λ ip. elim ip [ v4 n ↦ "192.0.2.1" | v6 n ↦ "2001:db8::1" ];
  net_string = λ n. "192.0.2.0/24";
  is_host_port = λ s. s == "127.0.0.1:9273";
  parse_ip-nil = refl;
  parse_ip-trim = parse-trim;
}
