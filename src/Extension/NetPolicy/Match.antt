-- ===== src/Extension/NetPolicy/Match.antt =====
-- Which rules match a destination or a port, of proot/src/extension/net_policy/net_policy.c.
use proot_termux.Base.{
  ℕ, Bool, true, false, ◌&&◌, ◌||◌, not, Option, some, none, ◌==◌, if◌then◌else◌, leb, List, [],
  ◌∷◌, ◌++◌, length, str_eq, strn_eq, Bytes, Result, ok, err,
}
use proot_termux.Extension.NetPolicy.Text.{strchr, strrchr, strstr}
use proot_termux.Extension.NetPolicy.Rules.{
  net_policy_rule_len, SockAddr, NetworkClass, class_unknown, class_virtual, class_external,
  class_bridge, Rule, Inet, parse_port, rule_port, ip_matches,
}

-- The schemes, with their "://".
abbrev pub scheme_mark : Bytes
scheme_mark = b':' ∷ b'/' ∷ b'/' ∷ []

abbrev pub virtual_scheme : Bytes
virtual_scheme = b'v' ∷ b'i' ∷ b'r' ∷ b't' ∷ b'u' ∷ b'a' ∷ b'l' ∷ b':' ∷ b'/' ∷ b'/' ∷ []

abbrev pub bridge_scheme : Bytes
bridge_scheme = b'b' ∷ b'r' ∷ b'i' ∷ b'd' ∷ b'g' ∷ b'e' ∷ b':' ∷ b'/' ∷ b'/' ∷ []

abbrev pub external_scheme : Bytes
external_scheme = b'e' ∷ b'x' ∷ b't' ∷ b'e' ∷ b'r' ∷ b'n' ∷ b'a' ∷ b'l' ∷ b':' ∷ b'/' ∷ b'/' ∷ []

abbrev pub tcp_scheme : Bytes
tcp_scheme = b't' ∷ b'c' ∷ b'p' ∷ b':' ∷ b'/' ∷ b'/' ∷ []

abbrev pub udp_scheme : Bytes
udp_scheme = b'u' ∷ b'd' ∷ b'p' ∷ b':' ∷ b'/' ∷ b'/' ∷ []

abbrev pub star : Bytes
star = b'*' ∷ []

abbrev pub is_class : NetworkClass → NetworkClass → Bool
is_class class_unknown class_unknown = true
is_class class_virtual class_virtual = true
is_class class_external class_external = true
is_class class_bridge class_bridge = true
is_class _ _ = false

-- The wildcards that an unknown class may pass.
abbrev pub hands_off : Bytes → Bool
hands_off rule =
    str_eq rule star || str_eq rule (tcp_scheme ++ star) || str_eq rule (udp_scheme ++ star)

-- Whether the scheme of a rule that has one lets the class pass.
abbrev pub scheme_allows : Bytes → NetworkClass → Bool
scheme_allows rule net_class =
    if strn_eq 10 rule virtual_scheme
    then is_class net_class class_virtual
    else if strn_eq 9 rule bridge_scheme
    then is_class net_class class_bridge
    else if strn_eq 11 rule external_scheme
    then is_class net_class class_external
    else strn_eq 6 rule tcp_scheme || strn_eq 6 rule udp_scheme

-- The host of a rule without its scheme; none where it does not fit the buffer.
abbrev pub fitting : Bytes → Option Bytes
fitting host = if leb net_policy_rule_len (length host) then none else some host

abbrev pub host_of : Bytes → Option ℕ → Option Bytes
host_of [] port = some []
host_of (c ∷ rule) port =
    if c == b'['
    then (elim (strchr b']' rule) [ none ↦ none | some (host, behind) ↦ fitting host ])
    else (elim port [
      | none ↦ some (c ∷ rule)
      | some n ↦ elim (strrchr b':' (c ∷ rule)) [ none ↦ none | some (host, behind) ↦ fitting host ]
    ])

abbrev pub port_allows : Option ℕ → ℕ → Bool
port_allows none port = true
port_allows (some rule_port_value) port = rule_port_value == port

-- `destination_matches`, behind the scheme.
abbrev pub host_matches : Inet → Bytes → SockAddr → ℕ → Bool
unfolding rule_port ip_matches
host_matches net rule addr port = str_eq rule star || (elim (rule_port rule) [
  | err e ↦ false
  | ok rule_port_value ↦ elim (host_of rule rule_port_value) [
    | none ↦ false
    | some rule_host ↦
        port_allows rule_port_value port && (str_eq rule_host star || ip_matches net rule_host addr)
  ]
])

unfoldable pub destination_matches : Inet → Bytes → SockAddr → ℕ → NetworkClass → Bool
unfolding host_matches
destination_matches net rule addr port net_class =
    if is_class net_class class_unknown then hands_off rule else (elim (strstr 3 scheme_mark rule) [
      | none ↦ host_matches net rule addr port
      | some behind ↦ scheme_allows rule net_class && host_matches net behind addr port
    ])

abbrev pub rule_matches : Inet → Rule → SockAddr → ℕ → NetworkClass → Bool
unfolding destination_matches
rule_matches net rule addr port net_class =
    not rule.is_domain && destination_matches net rule.value addr port net_class

unfoldable pub any_rule_matches : Inet → List Rule → SockAddr → ℕ → NetworkClass → Bool
unfolding rule_matches
any_rule_matches net [] addr port net_class = false
any_rule_matches net (rule ∷ rules) addr port net_class =
    rule_matches net rule addr port net_class || any_rule_matches net rules addr port net_class

abbrev pub is_port : Result ℕ → ℕ → Bool
is_port (ok wanted) port = wanted == port
is_port (err e) port = false

unfoldable pub bind_matches : List Rule → ℕ → Bool
unfolding parse_port
bind_matches [] port = false
bind_matches (rule ∷ rules) port =
    str_eq rule.value star || is_port (parse_port rule.value) port || bind_matches rules port
