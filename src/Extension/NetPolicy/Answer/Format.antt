-- ===== src/Extension/NetPolicy/Answer/Format.antt =====
-- The bytes of a DNS response.
use proot_termux.Base.{
  ℕ, ◌/◌, ◌%◌, ◌≤◌, ◌≡◌, ◌⊎◌, inl, inr, refl, sym, subst, arith, Bool-cases, ◌==◌, if◌then◌else◌,
  List, [], ◌∷◌, ◌++◌, length, take, drop, Bytes,
}
use proot_termux.Extension.NetPolicy.Answer.{record_of, header, finished}

-- A number of 16 bits, in the order of the network.
abbrev pub u16 : ℕ → Bytes
u16 n = n / 256 % 256 ∷ n % 256 ∷ []

-- The bytes of an address that a query of the type 1, A, or 28, AAAA, asks for.
abbrev pub address_size : ℕ → ℕ
address_size qtype = if qtype == 1 then 4 else 16

-- A record: a pointer to offset 12, the type, the class 1, 60 seconds, the size and the address.
abbrev pub answer_record : ℕ → Bytes → Bytes
answer_record qtype address =
    0xc0
    ∷ 12
    ∷ (u16 qtype
        ++ (u16 1
            ++ (u16 0
                ++ (u16 60 ++ (u16 (address_size qtype) ++ take (address_size qtype) address)))))

abbrev pub answer_records : ℕ → List Bytes → Bytes
answer_records qtype [] = []
answer_records qtype (address ∷ addresses) =
    answer_record qtype address ++ answer_records qtype addresses

-- A response: the id of the query, the flags of an answer, with NXDOMAIN if there is none, one
-- question, the number of answers, the rest of the query up to the end of its question, and the
-- records.
abbrev pub response_of : ℕ → Bytes → List Bytes → Bytes
response_of qtype question addresses =
    take 2 question
    ++ (0x81
        ∷ (if length addresses == 0 then 0x83 else 0x80)
        ∷ (u16 1
            ++ (u16 (length addresses) ++ (drop 8 question ++ answer_records qtype addresses))))

pub record_of-answer_record :
    (qtype : ℕ) (address : Bytes)
    → (qtype ≡ 1) ⊎ (qtype ≡ 28)
    → record_of qtype address ≡ answer_record qtype address
record_of-answer_record qtype address (inl a) =
    subst (λ q. record_of q address ≡ answer_record q address) (sym a) refl
record_of-answer_record qtype address (inr aaaa) =
    subst (λ q. record_of q address ≡ answer_record q address) (sym aaaa) refl

-- The header that is written over that of the query.
pub finished-header :
    (question tail : Bytes) (n : ℕ)
    → 8 ≤ length question
    → finished (header question ++ tail, n)
      ≡ take 2 question
        ++ (0x81
            ∷ (if n == 0 then 0x83 else 0x80)
            ∷ (u16 1 ++ (u16 n ++ (drop 8 question ++ tail))))
finished-header (a ∷ b ∷ c ∷ d ∷ e ∷ f ∷ g ∷ h ∷ rest) tail n l = elim (Bool-cases (n == 0)) [
  | inl none_found ↦ rw none_found refl
  | inr found ↦ rw found refl
]
finished-header [] tail n l = absurd (omega arith)
finished-header (a ∷ []) tail n l = absurd (omega arith)
finished-header (a ∷ b ∷ []) tail n l = absurd (omega arith)
finished-header (a ∷ b ∷ c ∷ []) tail n l = absurd (omega arith)
finished-header (a ∷ b ∷ c ∷ d ∷ []) tail n l = absurd (omega arith)
finished-header (a ∷ b ∷ c ∷ d ∷ e ∷ []) tail n l = absurd (omega arith)
finished-header (a ∷ b ∷ c ∷ d ∷ e ∷ f ∷ []) tail n l = absurd (omega arith)
finished-header (a ∷ b ∷ c ∷ d ∷ e ∷ f ∷ g ∷ []) tail n l = absurd (omega arith)
