-- ===== src/Tests/Policies.antt =====
-- The network policy on concrete packets, rules and calls.
use proot_termux.Base.{
  ◌<◌, ◌≤◌, ◌≡◌, ◌↔◌, refl, true, false, ◌==◌, Option, some, none, [], ◌∷◌, ◌++◌, length, take,
  Bytes, ok, if◌then◌else◌, arith,
}
use proot_termux.Extension.NetPolicy.Dns.{done, refused, dns_read_name, dns_skip_name}
use proot_termux.Extension.NetPolicy.Dns.Termination.{is_settled, dns_read_name-settled}
use proot_termux.Extension.NetPolicy.Dns.Buffer.{dns_read_name-fits}
use proot_termux.Extension.NetPolicy.Dns.Skip.{dns_skip_name-dns_read_name}
use proot_termux.Extension.NetPolicy.Rules.{inet, Inet, Rule, SockAddr, class_external, ip_matches}
use proot_termux.Extension.NetPolicy.Rules.Prefix.{bits_of, ip_matches-bits_of}
use proot_termux.Extension.NetPolicy.Decision.{
  NetPolicyConfig, policy_deny, Caller, internet, net_bind, net_listen, net_connect,
  check_operation, allowed,
}
use proot_termux.Extension.NetPolicy.Decision.BindListen.{check_operation-bind_listen}
use proot_termux.Extension.NetPolicy.Decision.Monotone.{
  append_allow-IsLooser, check_operation-looser,
}

-- "ab.c" at 0, and "X" with a pointer to it at 6.
abbrev packet : Bytes
packet = 2 ∷ b'a' ∷ b'b' ∷ 1 ∷ b'C' ∷ 0 ∷ 1 ∷ b'X' ∷ 192 ∷ 0 ∷ []

-- A name that points to itself.
abbrev looping : Bytes
looping = 192 ∷ 0 ∷ []

abbrev name_x : Bytes
name_x = b'x' ∷ b'.' ∷ b'a' ∷ b'b' ∷ b'.' ∷ b'c' ∷ []

read_x : dns_read_name packet 6 256 ≡ done (name_x, 10)
unfolding dns_read_name
read_x = refl

looping_refused : dns_read_name looping 0 256 ≡ refused
unfolding dns_read_name
looping_refused = refl

dns_read_name-settled_example :
    (is_settled (dns_read_name looping 0 256) ≡ true)
    × (is_settled (dns_skip_name looping 0) ≡ true)
dns_read_name-settled_example = dns_read_name-settled looping 0 256

dns_read_name-fits_example : (length name_x < 256) × (10 ≤ length packet)
dns_read_name-fits_example = dns_read_name-fits packet 6 256 10 name_x read_x

dns_skip_name-dns_read_name_example : dns_skip_name packet 6 ≡ done 10
dns_skip_name-dns_read_name_example = dns_skip_name-dns_read_name packet 6 256 10 name_x read_x

-- Addresses printed as their bytes.
abbrev four : Bytes → Option Bytes
four text = if length text == 4 then some text else none

abbrev plain : Inet
plain = record { pton = λ family text. four text; ntop = λ family address. address }

abbrev host : SockAddr
host = record { ss_family = inet; address = 10 ∷ 1 ∷ 200 ∷ 7 ∷ [] }

abbrev network : Bytes
network = 10 ∷ 1 ∷ 192 ∷ 1 ∷ []

-- The network with the prefix "/18".
abbrev rule_18 : Bytes
rule_18 = network ++ b'/' ∷ b'1' ∷ b'8' ∷ []

ip_matches-bits_of_example :
    (ip_matches plain rule_18 host ≡ true)
    ↔ (take 18 (bits_of network) ≡ take 18 (bits_of host.address))
ip_matches-bits_of_example =
    ip_matches-bits_of plain rule_18 network network 18 host refl refl refl refl
      (refl, ground arith) (refl, ground arith)

matches_18 : ip_matches plain rule_18 host ≡ true
unfolding ip_matches
matches_18 = refl

abbrev port_80 : Rule
port_80 = record { value = b'8' ∷ b'0' ∷ []; source = []; is_domain = false }

abbrev any_host : Rule
any_host = record { value = b'*' ∷ []; source = []; is_domain = false }

abbrev policy : NetPolicyConfig
policy = record {
  mode = policy_deny;
  allow = any_host ∷ [];
  deny = [];
  allow_bind = port_80 ∷ [];
  deny_bind = [];
  binds = [];
  asks = false;
  has_proxy = false;
}

-- A tracee with an address on port 80.
abbrev server : Caller
server = record {
  pid = 7;
  sysarg = λ n. if n == 1 then 3 else 4096;
  read_sockaddr = λ ptr address_length. some (internet host 80);
  peek_word = λ address. ok 0;
  word_size = 8;
  classify = λ addr port. class_external;
}

check_operation-bind_listen_example :
    check_operation plain server (check_operation plain server policy net_bind).1 net_listen
    ≡ check_operation plain server policy net_bind
check_operation-bind_listen_example =
    check_operation-bind_listen plain server server policy host 80 refl refl refl refl refl refl

connects : (check_operation plain server policy net_connect).0 ≡ allowed
unfolding check_operation
connects = refl

check_operation-looser_example :
    (check_operation plain server
      (record policy { allow = any_host ∷ any_host ∷ []; allow_bind = port_80 ∷ [] })
      net_connect).0
    ≡ allowed
check_operation-looser_example =
    check_operation-looser plain policy
      (record policy { allow = any_host ∷ any_host ∷ []; allow_bind = port_80 ∷ [] }) server
      net_connect (append_allow-IsLooser plain policy (any_host ∷ []) []) connects

-- A query for "ab.C" of type A, and a rule that gives "wxyz" for that name.
abbrev query : Bytes
query =
    0 ∷ 7 ∷ 1 ∷ 0 ∷ 0 ∷ 1 ∷ 0 ∷ 0 ∷ 0 ∷ 0 ∷ 0 ∷ 0 ∷ 2 ∷ b'a' ∷ b'b' ∷ 1 ∷ b'C' ∷ 0 ∷ 0 ∷ 1 ∷ 0 ∷ 1
    ∷ []

abbrev queried : Bytes
queried = b'a' ∷ b'b' ∷ b'.' ∷ b'C' ∷ []

abbrev fixed_rule : Rule
fixed_rule = record {
  value = b'w' ∷ b'x' ∷ b'y' ∷ b'z' ∷ [];
  source = b'A' ∷ b'b' ∷ b'.' ∷ b'c' ∷ [];
  is_domain = false;
}

abbrev answer : Bytes
answer =
    0 ∷ 7 ∷ 129 ∷ 128 ∷ 0 ∷ 1 ∷ 0 ∷ 1 ∷ 0 ∷ 0 ∷ 0 ∷ 0 ∷ 2 ∷ b'a' ∷ b'b' ∷ 1 ∷ b'C' ∷ 0 ∷ 0 ∷ 1 ∷ 0
    ∷ 1 ∷ 192 ∷ 12 ∷ 0 ∷ 1 ∷ 0 ∷ 1 ∷ 0 ∷ 0 ∷ 0 ∷ 60 ∷ 0 ∷ 4 ∷ b'w' ∷ b'x' ∷ b'y' ∷ b'z' ∷ []
