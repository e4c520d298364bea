-- ===== src/Extension/NetPolicy/Answer/Authorised.antt =====
-- A synthetic answer has the addresses that allow rules give for the name.
use proot_termux.Base.{ℕ, ◌+◌, ◌≤◌, ◌≡◌, ◌⊎◌, List, [], length, take, Bytes}
use proot_termux.Extension.NetPolicy.Rules.{Inet, Rule}
use proot_termux.Extension.NetPolicy.Dns.{Scan, done, dns_canonical, net_dns_name_len}
use proot_termux.Extension.NetPolicy.Answer.Format.{response_of}
use proot_termux.Extension.NetPolicy.Answer.{response_size}
use proot_termux.Extension.NetPolicy.Answer.Loop.{AreGiven, AreSilent}

-- A response to a query that ends at `question_end`.
abbrev pub IsAuthorised : Inet → List Rule → Bytes → ℕ → Bytes → ℕ → Bytes → Type 0
IsAuthorised net allow name qtype packet question_end response =
    (addresses : List Bytes) × AreGiven net qtype (dns_canonical name net_dns_name_len) allow
      addresses
    × ((qtype ≡ 1) ⊎ (qtype ≡ 28))
    × (response ≡ response_of qtype (take question_end packet) addresses)
    × (length response ≤ response_size)
    × (question_end + 28 ≤ response_size
        → addresses ≡ []
        → AreSilent net qtype (dns_canonical name net_dns_name_len) allow)

module _ (net : Inet) (allow : List Rule) (name : Bytes) (qtype : ℕ) (packet response : Bytes) where
  abbrev IsFromQuestion : Scan ℕ → Type 0
  IsFromQuestion scan =
      (skipped : ℕ) × (scan ≡ done skipped)
      × IsAuthorised net allow name qtype packet (skipped + 4) response
