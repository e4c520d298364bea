-- ===== src/Extension/NetPolicy/Rules.antt =====
-- The rules on destinations and on ports, of proot/src/extension/net_policy/net_policy.c.
pub mod Prefix
use proot_termux.Base.{
  ℕ, zero, suc, ◌+◌, ◌-◌, ◌*◌, ◌/◌, ◌%◌, ◌^◌, bit_and, Bool, true, false, ◌&&◌, ◌||◌, not, Option,
  some, none, ◌==◌, if◌then◌else◌, ltb, leb, List, [], ◌∷◌, ◌++◌, length, take, get_or, char_at,
  str_eq, strn_eq, Bytes, Result, ok, err, einval,
}
use proot_termux.Extension.NetPolicy.Text.{strchr, strrchr, strstr, strtoul, strtol_int}

abbrev pub net_policy_rule_len : ℕ
net_policy_rule_len = 256

abbrev pub net_policy_max_binds : ℕ
net_policy_max_binds = 256

-- `ss_family`.
pub data Family : Type 0 where
  inet inet6 : Family
  other_family : ℕ → Family

-- `struct sockaddr_storage`: the family and the bytes of the address, in the order of the network.
pub record SockAddr : Type 0 where
  pub ss_family : Family
  pub address : Bytes

-- `VnpNetworkClass`
pub data NetworkClass : Type 0 where
  class_unknown class_virtual class_external class_bridge : NetworkClass

-- `NetPolicyRule`, without `resolved`; `source` is the domain of a rule that was made from it.
pub record Rule : Type 0 where
  pub value : Bytes
  pub source : Bytes
  pub is_domain : Bool

-- The C library's `inet_pton` and `inet_ntop`: the bytes that a text stands for, if it stands for an
-- address of the family, and the text of an address.
pub record Inet : Type 0 where
  pub pton : Family → Bytes → Option Bytes
  pub ntop : Family → Bytes → Bytes

unfoldable pub parse_port : Bytes → Result ℕ
parse_port value =
    if str_eq value (b'*' ∷ [])
    then ok 0
    else let (parsed, end) = strtoul value in
      if str_eq value [] || not (str_eq end []) || ltb 65535 parsed then err einval else ok parsed

abbrev pub port_text : Bytes → Result (Option ℕ)
unfolding parse_port
port_text behind =
    if str_eq behind [] || leb 16 (length behind)
    then err einval
    else (elim (parse_port behind) [ err e ↦ err einval | ok port ↦ ok (some port) ])

-- Whether `strchr` and `strrchr` find the same colon.
abbrev pub single_colon : Bytes → Option Bytes
single_colon rule = elim (strchr b':' rule) [
  | none ↦ none
  | some (before, behind) ↦ elim (strchr b':' behind) [ none ↦ some behind | some later ↦ none ]
]

-- The port of a rule, if it has one. The host that the source returns as well is read again by
-- `destination_matches`.
unfoldable pub rule_port : Bytes → Result (Option ℕ)
unfolding port_text
rule_port rule =
    if char_at rule 0 == b'['
    then (elim (strchr b']' rule) [
      | none ↦ ok none
      | some (before, []) ↦ ok none
      | some (before, c ∷ behind) ↦
          if not (c == b':')
          then ok none
          else if leb (net_policy_rule_len + 1) (length before)
          then err einval
          else port_text behind
    ])
    else (elim (single_colon rule) [ none ↦ ok none | some behind ↦ port_text behind ])

-- The number of bits of an address.
abbrev pub width : Family → ℕ
width inet = 32
width _ = 128

-- The text of an address and the length of its prefix; none where the length is malformed or out of
-- range. A negative `int` is at least 2 ^ 31 as a bit pattern.
abbrev pub prefix_of : Family → Bytes → Option (Bytes × ℕ)
prefix_of family rule_copy = elim (strchr b'/' rule_copy) [
  | none ↦ some (rule_copy, width family)
  | some (before, slash) ↦
      let (bits, end) = strtol_int slash in
      if str_eq slash [] || not (str_eq end []) || ltb (width family) bits
      then none
      else some (before, bits)
]

-- `memcmp(a, b, n) == 0`
abbrev pub same_bytes : ℕ → Bytes → Bytes → Bool
same_bytes zero a b = true
same_bytes (suc n) (x ∷ a) (y ∷ b) = x == y && same_bytes n a b
same_bytes (suc n) _ _ = false

-- The comparison of the first `bits` bits.
abbrev pub same_prefix : ℕ → Bytes → Bytes → Bool
same_prefix bits rule_addr actual =
    let bytes = bits / 8 in
    let rem = bits % 8 in
    let mask = 0xff * 2 ^ (8 - rem) % 256 in
    same_bytes bytes rule_addr actual
    && (rem == 0 || bit_and (get_or rule_addr bytes 0) mask == bit_and (get_or actual bytes 0) mask)

abbrev pub pton_both : Inet → Family → Bytes → Bytes → Option (Bytes × Bytes)
pton_both net family rule_text buf = elim (net.pton family rule_text) [
  | none ↦ none
  | some rule_addr ↦ elim (net.pton family buf) [
    | none ↦ none
    | some actual ↦ some (rule_addr, actual)
  ]
]

abbrev pub matches_in : Inet → Family → Bytes → Bytes → Bool
matches_in net family rule_host address =
    elim (prefix_of family (take (net_policy_rule_len - 1) rule_host)) [
      | none ↦ false
      | some (rule_text, bits) ↦ elim (pton_both net family rule_text (net.ntop family address)) [
        | none ↦ false
        | some (rule_addr, actual) ↦ same_prefix bits rule_addr actual
      ]
    ]

abbrev pub is_internet : Family → Bool
is_internet inet = true
is_internet inet6 = true
is_internet _ = false

unfoldable pub ip_matches : Inet → Bytes → SockAddr → Bool
ip_matches net rule_host addr =
    is_internet addr.ss_family && matches_in net addr.ss_family rule_host addr.address
