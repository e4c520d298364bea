-- ===== src/Extension/NetPolicy/Answer/Given.antt =====
-- The addresses that a rule gives for a name, by the texts that it is made of.
use proot_termux.Base.{
  ℕ, ◌≡◌, ◌⊎◌, inl, inr, refl, sym, ap, ◌∙◌, arith, true, false, ◌==◌, some, Option-cases,
  Result-cases, Bool-cases, [], ◌∷◌, ◌++◌, drop, Bytes, ok, strn_eq,
}
use proot_termux.Extension.NetPolicy.Text.{strchr, strstr}
use proot_termux.Extension.NetPolicy.Match.{scheme_mark}
use proot_termux.Extension.NetPolicy.Rules.{inet, inet6, Inet, Rule}
use proot_termux.Extension.NetPolicy.Dns.{dns_names_equal}
use proot_termux.Extension.NetPolicy.Answer.{
  host_in, destination_host, before_slash, address_in, rule_address,
}

-- The host alone, before a port, or in brackets.
abbrev pub IsHost : Bytes → Bytes → Type 0
IsHost start host =
    (start ≡ host)
    ⊎ ((rest : Bytes) × (start ≡ host ++ b':' ∷ rest))
    ⊎ ((rest : Bytes) × (start ≡ b'[' ∷ (host ++ b']' ∷ rest)))

-- A destination has a host, at its start or behind a scheme.
abbrev pub HasHost : Bytes → Bytes → Type 0
HasHost value host =
    IsHost value host
    ⊎ ((scheme : Bytes) × (start : Bytes) × (value ≡ scheme ++ (scheme_mark ++ start))
        × IsHost start host)

-- The address of a network, with or without the length of its prefix.
abbrev pub HasIp : Bytes → Bytes → Type 0
HasIp host ip = (host ≡ ip) ⊎ ((bits : Bytes) × (host ≡ ip ++ b'/' ∷ bits))

-- A rule that was made from the name and is for no domain gives the IPv4 address of its host to a
-- query of the type 1, A, and the IPv6 address to one of the type 28, AAAA.
pub record IsGivenBy (net : Inet) (qtype : ℕ) (wanted : Bytes) (rule : Rule) (address : Bytes)
    : Type 0 where
  pub fixed : rule.is_domain ≡ false
  pub named : dns_names_equal rule.source wanted ≡ true
  pub host : Bytes
  pub ip : Bytes
  pub is_host : HasHost rule.value host
  pub is_ip : HasIp host ip
  pub of_ipv4 : qtype ≡ 1 → net.pton inet ip ≡ some address
  pub of_ipv6 : qtype ≡ 28 → net.pton inet6 ip ≡ some address

strchr-split :
    (c : ℕ) (s before behind : Bytes)
    → strchr c s ≡ some (before, behind)
    → s ≡ before ++ c ∷ behind
strchr-split c [] before behind e = absurd (ground arith)
strchr-split c (x ∷ s) before behind e = elim (Bool-cases (x == c)) [
  | inl same ↦ ground arith
  | inr other ↦ elim (Option-cases (strchr c s)) [
    | inl missing ↦ absurd (ground arith)
    | inr ((before', behind'), found) ↦
        let tail = strchr-split c s before' behind' found in
        let first : x ∷ before' ≡ before = ground arith in
        let last : behind' ≡ behind = ground arith in
        ap (λ l. x ∷ l) tail ∙ ap (λ b. b ++ c ∷ behind') first ∙ ap (λ b. before ++ c ∷ b) last
  ]
]

strn_eq-split : (s : Bytes) → strn_eq 3 s scheme_mark ≡ true → s ≡ scheme_mark ++ drop 3 s
strn_eq-split [] e = absurd (ground arith)
strn_eq-split (a ∷ []) e = absurd (ground arith)
strn_eq-split (a ∷ b ∷ []) e = absurd (ground arith)
strn_eq-split (a ∷ b ∷ c ∷ s) e = ground arith

strstr-split :
    (s start : Bytes)
    → strstr 3 scheme_mark s ≡ some start
    → (scheme : Bytes) × (s ≡ scheme ++ (scheme_mark ++ start))
strstr-split [] start e = absurd (ground arith)
strstr-split (x ∷ s) start e = elim (Bool-cases (strn_eq 3 (x ∷ s) scheme_mark)) [
  | inl here ↦
      let same : drop 3 (x ∷ s) ≡ start = ground arith in
      ([], strn_eq-split (x ∷ s) here ∙ ap (λ b. scheme_mark ++ b) same)
  | inr other ↦
      let (scheme, tail) = strstr-split s start (ground arith) in (x ∷ scheme, ap (λ l. x ∷ l) tail)
]

in_brackets :
    (start before behind host : Bytes)
    → strchr b']' start ≡ some (before, behind)
    → host_in (b'[' ∷ start) ≡ ok host
    → before ≡ host
in_brackets start before [] host found e = ground arith
in_brackets start before (d ∷ behind) host found e = ground arith

eq_of : {a b : ℕ} → (a == b) ≡ true → a ≡ b
eq_of e = ground arith

host_in-IsHost : (start host : Bytes) → host_in start ≡ ok host → IsHost start host
host_in-IsHost [] host e = absurd (ground arith)
host_in-IsHost (c ∷ start) host e = elim (Bool-cases (c == b'[')) [
  | inl bracket ↦ elim (Option-cases (strchr b']' start)) [
    | inl missing ↦ absurd (ground arith)
    | inr ((before, behind), found) ↦
        let split = strchr-split b']' start before behind found in
        let whole : host_in (b'[' ∷ start) ≡ ok host =
          ap (λ d. host_in (d ∷ start)) (sym (eq_of bracket)) ∙ e in
        let same = in_brackets start before behind host found whole in
        inr (
          inr (
            behind,
            ap (λ d. d ∷ start) (eq_of bracket)
                ∙ ap (λ l. b'[' ∷ l) (split ∙ ap (λ b. b ++ b']' ∷ behind) same),
          ))
  ]
  | inr plain ↦ elim (Option-cases (strchr b':' (c ∷ start))) [
    | inl missing ↦ inl (ground arith)
    | inr ((before, behind), found) ↦
        let split = strchr-split b':' (c ∷ start) before behind found in
        elim (Option-cases (strchr b':' behind)) [
          | inl single ↦
              let same : before ≡ host = ground arith in
              inr (inl (behind, split ∙ ap (λ b. b ++ b':' ∷ behind) same))
          | inr (later, more) ↦ inl (ground arith)
        ]
  ]
]

destination_host-HasHost :
    (value host : Bytes) → destination_host value ≡ ok host → HasHost value host
unfolding destination_host
destination_host-HasHost value host e = elim (Option-cases (strstr 3 scheme_mark value)) [
  | inl missing ↦ inl (host_in-IsHost value host (ground arith))
  | inr (start, found) ↦
      let (scheme, split) = strstr-split value start found in
      inr (scheme, start, split, host_in-IsHost start host (ground arith))
]

before_slash-HasIp : (host : Bytes) → HasIp host (before_slash host)
before_slash-HasIp host = elim (Option-cases (strchr b'/' host)) [
  | inl missing ↦ inl (rw (before_slash, missing) refl)
  | inr ((before, behind), found) ↦
      inr (behind, rw (before_slash, found) (strchr-split b'/' host before behind found))
]

address_in-pton :
    (net : Inet) (qtype : ℕ) (host address : Bytes)
    → address_in net qtype host ≡ some address
    → (qtype ≡ 1 → net.pton inet (before_slash host) ≡ some address)
      × (qtype ≡ 28 → net.pton inet6 (before_slash host) ≡ some address)
address_in-pton net qtype host address e = (λ a. ground arith, λ aaaa. ground arith)

pub rule_address-IsGivenBy :
    (net : Inet) (qtype : ℕ) (wanted : Bytes) (rule : Rule) (address : Bytes)
    → rule_address net qtype wanted rule ≡ some address
    → IsGivenBy net qtype wanted rule address
unfolding rule_address
rule_address-IsGivenBy net qtype wanted rule address e =
    elim (Result-cases (destination_host rule.value)) [
      | inl (code, malformed) ↦ absurd (ground arith)
      | inr (host, found) ↦
          let (v4, v6) = address_in-pton net qtype host address (ground arith) in
          record {
            fixed = ground arith;
            named = ground arith;
            host = host;
            ip = before_slash host;
            is_host = destination_host-HasHost rule.value host found;
            is_ip = before_slash-HasIp host;
            of_ipv4 = v4;
            of_ipv6 = v6;
          }
    ]
