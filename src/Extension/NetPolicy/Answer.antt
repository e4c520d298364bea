-- ===== src/Extension/NetPolicy/Answer.antt =====
-- The synthetic answers to DNS queries, of proot/src/extension/net_policy/net_policy.c.
pub mod Given
pub mod Format
pub mod Loop
pub mod Authorised
use proot_termux.Base.{
  ℕ, zero, suc, ◌+◌, ◌-◌, ◌*◌, ◌/◌, ◌%◌, Bool, true, false, ◌&&◌, ◌||◌, not, Option, some, none,
  ◌==◌, if◌then◌else◌, ltb, leb, List, [], ◌∷◌, ◌++◌, length, take, drop, get_or, set, Bytes,
  Result, ok, err, einval,
}
use proot_termux.Extension.NetPolicy.Text.{strchr, strstr}
use proot_termux.Extension.NetPolicy.Rules.{
  net_policy_rule_len, Family, inet, inet6, Inet, Rule, same_bytes,
}
use proot_termux.Extension.NetPolicy.Match.{scheme_mark}
use proot_termux.Extension.NetPolicy.Dns.{
  Scan, done, refused, fault, spent, net_dns_name_len, dns_canonical, dns_names_equal,
  dns_skip_name,
}

-- The host of a destination rule; its offsets are left out.
abbrev pub host_in : Bytes → Result Bytes
host_in [] = err einval
host_in (c ∷ start) =
    if c == b'['
    then (elim (strchr b']' start) [
      | none ↦ err einval
      | some (host, []) ↦ ok host
      | some (host, d ∷ behind) ↦ if d == b':' then ok host else err einval
    ])
    else (elim (strchr b':' (c ∷ start)) [
      | none ↦ ok (c ∷ start)
      | some (host, behind) ↦ elim (strchr b':' behind) [
        | some later ↦ ok (c ∷ start)
        | none ↦ if length host == 0 then err einval else ok host
      ]
    ])

unfoldable pub destination_host : Bytes → Result Bytes
destination_host rule = elim (strstr 3 scheme_mark rule) [
  | none ↦ host_in rule
  | some start ↦ host_in start
]

-- The text before a slash.
abbrev pub before_slash : Bytes → Bytes
before_slash host = elim (strchr b'/' host) [ none ↦ host | some (before, behind) ↦ before ]

abbrev pub is_some : Option Bytes → Bool
is_some none = false
is_some (some address) = true

unfoldable pub host_is_numeric : Inet → Bytes → Bool
host_is_numeric net host =
    not (length host == 0)
    && ltb (length host) net_policy_rule_len
    && (is_some (net.pton inet (before_slash host)) || is_some (net.pton inet6 (before_slash host)))

abbrev pub response_size : ℕ
response_size = 4096

-- The family of the addresses that a query of the type 1, A, or 28, AAAA, asks for, and their bytes.
abbrev pub wanted_family : ℕ → Family
wanted_family qtype = if qtype == 1 then inet else inet6

abbrev pub rdlen : ℕ → ℕ
rdlen qtype = if qtype == 1 then 4 else 16

abbrev pub is_family : Family → Family → Bool
is_family inet inet = true
is_family inet6 inet6 = true
is_family _ _ = false

abbrev pub has_colon : Bytes → Bool
has_colon ip = elim (strchr b':' ip) [ none ↦ false | some found ↦ true ]

-- The address that a host stands for, if it is of the family asked for.
abbrev pub address_in : Inet → ℕ → Bytes → Option Bytes
address_in net qtype host =
    let ip = before_slash host in
    let family = if has_colon ip then inet6 else inet in
    if is_family family (wanted_family qtype) then net.pton family ip else none

-- The address that a rule gives for a name, if any.
unfoldable pub rule_address : Inet → ℕ → Bytes → Rule → Option Bytes
unfolding destination_host host_is_numeric dns_names_equal
rule_address net qtype wanted rule =
    if rule.is_domain || length rule.source == 0 || not (dns_names_equal rule.source wanted)
    then none
    else (elim (destination_host rule.value) [
      | err e ↦ none
      | ok host ↦ if host_is_numeric net host then address_in net qtype host else none
    ])

-- A record of the answer: a pointer to the name of the question, the type, the class, 60 seconds and
-- the address.
abbrev pub record_of : ℕ → Bytes → Bytes
record_of qtype address =
    0xc0 ∷ 0x0c ∷ 0 ∷ qtype ∷ 0 ∷ 1 ∷ 0 ∷ 0 ∷ 0 ∷ 60 ∷ 0 ∷ rdlen qtype ∷ take (rdlen qtype) address

-- Whether the record at `rr` has an address.
abbrev pub is_record : Bytes → ℕ → ℕ → Bytes → Bool
is_record out rr qtype address =
    leb (rr + 12 + rdlen qtype) (length out)
    && get_or out rr 0 == 0xc0
    && get_or out (rr + 1) 0 == 0x0c
    && get_or out (rr + 2) 0 == 0
    && get_or out (rr + 3) 0 == qtype
    && same_bytes (rdlen qtype) (drop (rr + 12) out) address

-- The loop over the records, of which `answers` are left, the next one at `rr`.
abbrev pub is_duplicate : ℕ → Bytes → ℕ → ℕ → Bytes → Bool
is_duplicate zero out rr qtype address = false
is_duplicate (suc answers) out rr qtype address =
    is_record out rr qtype address
    || is_duplicate answers out (rr + (12 + rdlen qtype)) qtype address

-- One rule: the response and the number of its answers.
abbrev pub add_answer : ℕ → ℕ → Option Bytes → Bytes × ℕ → Bytes × ℕ
add_answer question_end qtype none (out, answers) = (out, answers)
add_answer question_end qtype (some address) (out, answers) =
    if is_duplicate answers out question_end qtype address
      || ltb response_size (length out + 12 + rdlen qtype)
      || answers == 65535
    then (out, answers)
    else (out ++ record_of qtype address, answers + 1)

abbrev pub add_answers : Inet → ℕ → ℕ → Bytes → List Rule → Bytes × ℕ → Bytes × ℕ
unfolding rule_address
add_answers net question_end qtype wanted [] state = state
add_answers net question_end qtype wanted (rule ∷ allow) state =
    add_answers net question_end qtype wanted allow
      (add_answer question_end qtype (rule_address net qtype wanted rule) state)

-- The question, with the flags of an answer.
abbrev pub header : Bytes → Bytes
header question = set (set (set (set (set (set question 2 0x81) 3 0x80) 4 0) 5 1) 6 0) 7 0

-- NXDOMAIN where there is no answer, and the number of answers.
abbrev pub finished : Bytes × ℕ → Bytes
finished (out, answers) =
    let flagged = if answers == 0 then set out 3 0x83 else out in
    set (set flagged 6 (answers / 256 % 256)) 7 (answers % 256)

abbrev pub answered : Inet → List Rule → Bytes → ℕ → Bytes → ℕ → Option Bytes
unfolding add_answers dns_canonical
answered net allow name qtype packet question_end =
    if ltb (length packet) question_end
      || (not (qtype == 1) && not (qtype == 28))
      || ltb response_size question_end
    then none
    else some (
        finished (
          add_answers net question_end qtype (dns_canonical name net_dns_name_len) allow
            (header (take question_end packet), 0)))

-- The response to a question whose name is skipped.
abbrev pub after_name : Inet → List Rule → Bytes → ℕ → Bytes → Scan ℕ → Option Bytes
unfolding answered
after_name net allow name qtype packet (done skipped) =
    answered net allow name qtype packet (skipped + 4)
after_name net allow name qtype packet _ = none

-- The response to a query for a name, if one is made.
unfoldable pub dns_prepare_response : Inet → List Rule → Bytes → ℕ → Bytes → Option Bytes
unfolding after_name
dns_prepare_response net allow name qtype packet =
    if ltb (length packet) 12 || not (get_or packet 4 0 * 256 + get_or packet 5 0 == 1)
    then none
    else after_name net allow name qtype packet (dns_skip_name packet 12)
