-- ===== src/Syscall/Sysnum.antt =====
-- System call numbers, of proot/src/syscall/sysnum.c and sysnum.h. A table of the architecture is
-- an argument; `Sysnum` is the index of the name in proot/src/syscall/sysnums.list.
use proot_termux.Base.{
  ℕ, zero, suc, ◌+◌, ◌-◌, ◌^◌, ◌<◌, ◌≡◌, ◌≢◌, ◌↔◌, refl, ◌==◌, if◌then◌else◌, ltb, Option, some,
  none, List, [], ◌∷◌, arith, Bool-cases, Option-cases, inl, inr, length, get_elem?, add_word,
}
use proot_termux.Tracee.{Tracee, sysarg_num, RegVersion}
use proot_termux.Tracee.Regs.{peek_reg, poke_reg}

abbrev pub pr_void : ℕ
pr_void = 0

abbrev pub pr_brk : ℕ
pr_brk = 27

abbrev pub pr_mmap : ℕ
pr_mmap = 194

abbrev pub pr_mmap2 : ℕ
pr_mmap2 = 195

abbrev pub pr_mremap : ℕ
pr_mremap = 209

-- SYSCALL_AVOIDER, `(word_t) -2`
abbrev pub syscall_avoider : ℕ
syscall_avoider = 2 ^ 64 - 2

-- `Sysnums`: its `length` is that of the table.
pub record Sysnums : Type 0 where
  pub table : List ℕ
  pub offset : ℕ

-- None is a read behind the table.
unfoldable pub translate_sysnum : Sysnums → ℕ → Option ℕ
translate_sysnum s sysnum =
    if ltb sysnum s.offset
    then some pr_void
    else if ltb (length s.table) (sysnum - s.offset)
    then some pr_void
    else get_elem? s.table (sysnum - s.offset)

-- The loop over the table, from index `i` on.
abbrev pub find_sysnum : List ℕ → ℕ → ℕ → Option ℕ
find_sysnum [] sysnum i = none
find_sysnum (x ∷ table) sysnum i = if x == sysnum then some i else find_sysnum table sysnum (i + 1)

unfoldable pub detranslate_sysnum : Sysnums → ℕ → ℕ
detranslate_sysnum s sysnum =
    if sysnum == pr_void then syscall_avoider else (elim (find_sysnum s.table sysnum 0) [
      | none ↦ syscall_avoider
      | some i ↦ add_word i s.offset
    ])

unfoldable pub get_sysnum : Sysnums → Tracee → RegVersion → Option ℕ
get_sysnum s t version = translate_sysnum s (peek_reg t version sysarg_num)

unfoldable pub set_sysnum : Sysnums → Tracee → ℕ → Tracee
set_sysnum s t sysnum = poke_reg t sysarg_num (detranslate_sysnum s sysnum)

-- The numbers of a table, its offset included, lie below SYSCALL_AVOIDER.
abbrev pub IsSmall : Sysnums → Type 0
IsSmall s = s.offset + length s.table < syscall_avoider

find_sysnum-get_elem? :
    (table : List ℕ) (sysnum i : ℕ) {j : ℕ}
    → find_sysnum table sysnum i ≡ some j
    → (k : ℕ) × (j ≡ i + k) × (k < length table) × (get_elem? table k ≡ some sysnum)
find_sysnum-get_elem? [] sysnum i e = absurd (ground arith)
find_sysnum-get_elem? (x ∷ table) sysnum i {j} e = elim (Bool-cases (x == sysnum)) [
  | inl hit ↦ (0, ground arith, omega arith, ground arith)
  | inr miss ↦
      let (k, e1, e2, e3) = find_sysnum-get_elem? table sysnum (i + 1) (rw miss at e) in
      (suc k, omega arith, omega arith, e3)
]

get_elem?-lt : (table : List ℕ) (i : ℕ) → i < length table → get_elem? table i ≢ none
get_elem?-lt [] i h = absurd (omega arith)
get_elem?-lt (x ∷ table) zero h = ground arith
get_elem?-lt (x ∷ table) (suc i) h = get_elem?-lt table i (omega arith)

get_elem?-length : (table : List ℕ) → get_elem? table (length table) ≡ none
get_elem?-length [] = refl
get_elem?-length (x ∷ table) = get_elem?-length table

-- Where the numbers of the architecture lie below SYSCALL_AVOIDER, a system call that the
-- architecture has is translated back to itself.
pub translate_sysnum-detranslate_sysnum :
    (s : Sysnums) (sysnum : ℕ)
    → IsSmall s
    → detranslate_sysnum s sysnum ≢ syscall_avoider
    → translate_sysnum s (detranslate_sysnum s sysnum) ≡ some sysnum
unfolding translate_sysnum detranslate_sysnum
translate_sysnum-detranslate_sysnum s sysnum small n =
    elim (Option-cases (find_sysnum s.table sysnum 0)) [
      | inl missing ↦ ground arith
      | inr (j, e) ↦
          let (k, e1, e2, e3) = find_sysnum-get_elem? s.table sysnum 0 e in
          let same : j ≡ k = omega arith in ground arith
    ]

-- The number that stands for no system call is translated to PR_void.
pub translate_sysnum-avoider :
    (s : Sysnums) → IsSmall s → translate_sysnum s syscall_avoider ≡ some pr_void
unfolding translate_sysnum
translate_sysnum-avoider s small = ground arith

-- The bound of `translate_sysnum` lets exactly one number through that is behind the table: the
-- one that follows its last entry.
pub translate_sysnum_overrun :
    (s : Sysnums) (sysnum : ℕ)
    → (translate_sysnum s sysnum ≡ none) ↔ (sysnum ≡ s.offset + length s.table)
unfolding translate_sysnum
translate_sysnum_overrun s sysnum = (
  λ e. ground (arith, get_elem?-lt s.table (sysnum - s.offset)),
  λ e. ground (arith, get_elem?-length s.table),
)
