-- ===== src/Extension/NetPolicy/Answer/Loop.antt =====
-- What the loop over the rules writes.
use mathlib.Core.List.{append_assoc, append-nil}
use proot_termux.Base.{
  ℕ, zero, suc, ◌+◌, ◌≤◌, ◌≡◌, refl, subst, arith, ◌==◌, Option, some, none, Option-cases, All, ◌⊎◌,
  inl, inr, Bool-cases, ◌∙◌, List, [], ◌∷◌, ◌++◌, length, take, ◌≢◌, ap, sym, set, length-append,
  length-set, Bytes,
}
use proot_termux.Extension.NetPolicy.Rules.{Inet, Rule}
use proot_termux.Extension.NetPolicy.Answer.Given.{IsGivenBy, rule_address-IsGivenBy}
use proot_termux.Extension.NetPolicy.Answer.{
  rule_address, record_of, add_answer, add_answers, header, finished, response_size, rdlen,
}

-- Addresses that some of the rules give for a name, in the order of the rules.
pub data AreGiven (net : Inet) (qtype : ℕ) (wanted : Bytes) : List Rule → List Bytes → Type 0 where
  no_rule : AreGiven net qtype wanted [] []
  without :
      {rule : Rule} {allow : List Rule} {addresses : List Bytes}
      → AreGiven net qtype wanted allow addresses
      → AreGiven net qtype wanted (rule ∷ allow) addresses
  given :
      {rule : Rule} {allow : List Rule} {address : Bytes} {addresses : List Bytes}
      → IsGivenBy net qtype wanted rule address
      → AreGiven net qtype wanted allow addresses
      → AreGiven net qtype wanted (rule ∷ allow) (address ∷ addresses)

abbrev pub records : ℕ → List Bytes → Bytes
records qtype [] = []
records qtype (address ∷ addresses) = record_of qtype address ++ records qtype addresses

length-take_bound : (n : ℕ) (buf : Bytes) → length (take n buf) ≤ n
length-take_bound zero buf = omega arith
length-take_bound (suc n) [] = omega arith
length-take_bound (suc n) (x ∷ buf) = omega (arith, length-take_bound n buf)

length-record_of :
    (qtype : ℕ) (address : Bytes) → length (record_of qtype address) ≤ 12 + rdlen qtype
length-record_of qtype address = omega (arith, length-take_bound (rdlen qtype) address)

length-set_twice : (out : Bytes) (a b : ℕ) → length (set (set out 6 a) 7 b) ≡ length out
length-set_twice out a b = length-set (set out 6 a) 7 b ∙ length-set out 6 a

pub length-finished : (out : Bytes) (answers : ℕ) → length (finished (out, answers)) ≡ length out
length-finished out answers = elim (Bool-cases (answers == 0)) [
  | inl none_found ↦ rw none_found (length-set_twice (set out 3 0x83) _ _ ∙ length-set out 3 0x83)
  | inr found ↦ rw found (length-set_twice out _ _)
]

pub length-header : (question : Bytes) → length (header question) ≡ length question
length-header question =
    let flagged = set (set question 2 0x81) 3 0x80 in
    length-set_twice (set (set flagged 4 0) 5 1) 0 0
    ∙ (length-set (set flagged 4 0) 5 1
        ∙ (length-set flagged 4 0
            ∙ (length-set (set question 2 0x81) 3 0x80 ∙ length-set question 2 0x81)))

module _ (question_end qtype : ℕ) (address out : Bytes) (answers : ℕ) where
  add_answer-cases :
      (add_answer question_end qtype (some address) (out, answers) ≡ (out, answers))
      ⊎ ((add_answer question_end qtype (some address) (out, answers)
            ≡ (out ++ record_of qtype address, answers + 1))
          × (length (out ++ record_of qtype address) ≤ response_size))
  add_answer-cases =
      ground (arith, length-append out (record_of qtype address), length-record_of qtype address)

-- What the loop over the rules gives.
abbrev pub AddedTo : Inet → ℕ → Bytes → List Rule → Bytes × ℕ → Bytes × ℕ → Type 0
AddedTo net qtype wanted allow (out, answers) after =
    (addresses : List Bytes) × AreGiven net qtype wanted allow addresses
    × (after ≡ (out ++ records qtype addresses, answers + length addresses))
    × (length (out ++ records qtype addresses) ≤ response_size)

module _ (net : Inet) (question_end qtype : ℕ) (wanted : Bytes) where
  unanswered :
      (rule : Rule) (allow : List Rule) (before after : Bytes × ℕ)
      → AddedTo net qtype wanted allow before after
      → AddedTo net qtype wanted (rule ∷ allow) before after
  unanswered rule allow before after (addresses, some_given, e, l) =
      (addresses, without some_given, e, l)

  one_more :
      (rule : Rule) (allow : List Rule) (address out : Bytes) (answers : ℕ) (after : Bytes × ℕ)
      → rule_address net qtype wanted rule ≡ some address
      → AddedTo net qtype wanted allow (out ++ record_of qtype address, answers + 1) after
      → AddedTo net qtype wanted (rule ∷ allow) (out, answers) after
  one_more rule allow address out answers after here (addresses, some_given, e, l) =
      let joined = append_assoc out (record_of qtype address) (records qtype addresses) in
      (
        address ∷ addresses,
        given (rule_address-IsGivenBy net qtype wanted rule address here) some_given,
        e ∙ ground (arith, joined),
        subst (λ o. length o ≤ response_size) joined l,
      )

  after_rule :
      (rule : Rule) (allow : List Rule) (out : Bytes) (answers : ℕ) (found : Option Bytes)
      → rule_address net qtype wanted rule ≡ found
      → length out ≤ response_size
      → ((o : Bytes) (n : ℕ)
          → length o ≤ response_size
          → AddedTo net qtype wanted allow
              (o, n)
              (add_answers net question_end qtype wanted allow (o, n)))
      → AddedTo net qtype wanted
          (rule ∷ allow)
          (out, answers)
          (add_answers net question_end qtype wanted allow
            (add_answer question_end qtype found (out, answers)))
  after_rule rule allow out answers none here l rest =
      unanswered rule allow (out, answers) _ (rest out answers l)
  after_rule rule allow out answers (some address) here l rest =
      elim (add_answer-cases question_end qtype address out answers) [
        | inl same ↦ rw same (unanswered rule allow (out, answers) _ (rest out answers l))
        | inr (more, fits) ↦ rw more (
            one_more rule allow address out answers _ here
              (rest (out ++ record_of qtype address) (answers + 1) fits))
      ]

  pub add_answers-AddedTo :
      (allow : List Rule) (out : Bytes) (answers : ℕ)
      → length out ≤ response_size
      → AddedTo net qtype wanted allow
          (out, answers)
          (add_answers net question_end qtype wanted allow (out, answers))
  unfolding add_answers
  add_answers-AddedTo [] out answers l =
      ([], no_rule, ground (arith, append-nil out), rw (append-nil out) l)
  add_answers-AddedTo (rule ∷ allow) out answers l =
      after_rule rule allow out answers (rule_address net qtype wanted rule) refl l
        (λ o n fits. add_answers-AddedTo allow o n fits)

-- No rule gives an address for the name.
abbrev pub AreSilent : Inet → ℕ → Bytes → List Rule → Type 0
AreSilent net qtype wanted allow = All (λ rule. rule_address net qtype wanted rule ≡ none) allow

module _ (net : Inet) (question_end qtype : ℕ) (wanted : Bytes) where
  add_answers-some :
      (rule : Rule) (allow : List Rule) (address out : Bytes)
      → length out + 28 ≤ response_size
      → rule_address net qtype wanted rule ≡ some address
      → (add_answers net question_end qtype wanted (rule ∷ allow) (out, 0)).1 ≢ 0
  unfolding add_answers
  add_answers-some rule allow address out room gives e =
      let out' = out ++ record_of qtype address in
      let added : add_answer question_end qtype (some address) (out, 0) ≡ (out', 1) =
        ground arith in
      let fits : length out' ≤ response_size =
        ground
          (arith, length-append out (record_of qtype address), length-record_of qtype address) in
      let (addresses, some_given, after, l) =
        add_answers-AddedTo net question_end qtype wanted allow out' 1 fits in
      let first : add_answer question_end qtype (rule_address net qtype wanted rule) (out, 0)
          ≡ (out', 1) =
        ap (λ a. add_answer question_end qtype a (out, 0)) gives ∙ added in
      let whole : add_answers net question_end qtype wanted (rule ∷ allow) (out, 0)
          ≡ (out' ++ records qtype addresses, 1 + length addresses) =
        ap (add_answers net question_end qtype wanted allow) first ∙ after in
      ground (arith, ap (λ r. r.1) whole)

  pub add_answers-AreSilent :
      (allow : List Rule) (out : Bytes)
      → length out + 28 ≤ response_size
      → (add_answers net question_end qtype wanted allow (out, 0)).1 ≡ 0
      → AreSilent net qtype wanted allow
  unfolding add_answers
  add_answers-AreSilent [] out room e = tt
  add_answers-AreSilent (rule ∷ allow) out room e =
      elim (Option-cases (rule_address net qtype wanted rule)) [
        | inl silent ↦ (
          silent,
          add_answers-AreSilent allow out room (
              ap
                (λ a.
                  (add_answers net question_end qtype wanted allow
                    (add_answer question_end qtype a (out, 0))).1)
                (sym silent)
              ∙ e),
        )
        | inr (address, gives) ↦ absurd (add_answers-some rule allow address out room gives e)
      ]
