-- ===== src/Tracee/Regs.antt =====
-- The register accessors of proot/src/tracee/reg.c. What ptrace(2) answers is an argument.
use proot_termux.Base.{
  ℕ, ◌≡◌, ap, ◌∙◌, refl, ◌==◌, if◌then◌else◌, Bool, true, false, not, ◌&&◌, ◌||◌, Option, some,
  none, Result, ok, err, Errno, arith, Bool-cases, inl, inr, ==_iff,
}
use proot_termux.Tracee.{
  Reg, sysarg_num, sysarg_1, sysarg_2, sysarg_3, sysarg_4, sysarg_5, sysarg_6, sysarg_result,
  stack_pointer, instr_pointer, userarg_1, RegVersion, current, original, modified,
  original_seccomp_rewrite, Bank, reg_offset, write_slot, Tracee,
}

abbrev pub bank_of : Tracee → RegVersion → Bank
bank_of t current = t.regs_current
bank_of t original = t.regs_original
bank_of t modified = t.regs_modified
bank_of t original_seccomp_rewrite = t.regs_seccomp_rewrite

abbrev pub with_bank : Tracee → RegVersion → Bank → Tracee
with_bank t current b = record t { regs_current = b }
with_bank t original b = record t { regs_original = b }
with_bank t modified b = record t { regs_modified = b }
with_bank t original_seccomp_rewrite b = record t { regs_seccomp_rewrite = b }

-- No mask: the process is a 64-bit one.
abbrev pub peek_reg : Tracee → RegVersion → Reg → ℕ
peek_reg t version reg = bank_of t version (reg_offset reg)

unfoldable pub poke_reg : Tracee → Reg → ℕ → Tracee
poke_reg t reg value = if peek_reg t current reg == value then t else record t {
  regs_current = write_slot t.regs_current (reg_offset reg) value;
  regs_were_changed = true;
}

unfoldable pub save_current_regs : Tracee → RegVersion → Tracee
save_current_regs t original = record t {
  regs_were_changed = false;
  regs_original = t.regs_current;
}
save_current_regs t version = with_bank t version t.regs_current

-- RESTORE(sysarg)
abbrev pub restore : Bank → Reg → Bank → Bank
restore from reg bank =
    if reg_offset sysarg_result == reg_offset reg
    then bank
    else write_slot bank (reg_offset reg) (from (reg_offset reg))

-- The eight registers that are restored at the end of a system call.
unfoldable pub restore_all : Bank → Bank → Bank
restore_all from bank =
    let b1 = restore from sysarg_num bank in
    let b2 = restore from sysarg_1 b1 in
    let b3 = restore from sysarg_2 b2 in
    let b4 = restore from sysarg_3 b3 in
    let b5 = restore from sysarg_4 b4 in
    let b6 = restore from sysarg_5 b5 in
    let b7 = restore from sysarg_6 b6 in restore from stack_pointer b7

-- The answers of ptrace(2) to the two PTRACE_SETREGSET requests.
pub record PtraceAnswers : Type 0 where
  pub sysnum_accepted : Bool
  pub regs_error : Option Errno

-- `RegVersion restore_from`, and the flag that its choice resets.
unfoldable pub restore_regs : Tracee → Tracee
restore_regs t =
    if t.restore_original_regs
    then (if t.restore_original_regs_after_seccomp_event
        then record t {
          restore_original_regs_after_seccomp_event = false;
          regs_current = restore_all t.regs_seccomp_rewrite t.regs_current;
        }
        else record t { regs_current = restore_all t.regs_original t.regs_current })
    else t

-- NT_ARM_SYSTEM_CALL, where the number was changed; a refusal is remembered.
unfoldable pub push_sysnum : PtraceAnswers → Bool → Tracee → Tracee
push_sysnum answers including_sysnum t =
    if including_sysnum
      && not (t.regs_current (reg_offset sysarg_num) == t.regs_original (reg_offset sysarg_num))
      && not answers.sysnum_accepted
    then record t { chain = record (t.chain) { syscall_change_unsupported = true } }
    else t

-- The status, the tracee afterwards, and the bank that was written to the process, if any.
unfoldable pub push_specific_regs :
    PtraceAnswers → Bool → Tracee → Result (Unit {0}) × Tracee × Option Bank
unfolding restore_regs push_sysnum
push_specific_regs answers including_sysnum t =
    if t.regs_were_changed
      || (t.restore_original_regs && t.restore_original_regs_after_seccomp_event)
    then (let t' = push_sysnum answers including_sysnum (restore_regs t) in
        elim answers.regs_error [
          | some e ↦ (err e, t', none)
          | none ↦ (ok tt, t', some t'.regs_current)
        ])
    else (ok tt, t, none)

abbrev pub push_regs : PtraceAnswers → Tracee → Result (Unit {0}) × Tracee × Option Bank
push_regs answers = push_specific_regs answers true

-- A write shows in every register at the same place, and in no other one.
pub peek_reg-poke_reg :
    (t : Tracee) (reg other : Reg) (value : ℕ)
    → peek_reg (poke_reg t reg value) current other
      ≡ (if reg_offset other == reg_offset reg then value else peek_reg t current other)
unfolding poke_reg
peek_reg-poke_reg t reg other value = elim (Bool-cases (peek_reg t current reg == value)) [
  | inl same ↦ elim (Bool-cases (reg_offset other == reg_offset reg)) [
    | inl there ↦
        rw (same, there)
          (ap t.regs_current ((==_iff (reg_offset other) (reg_offset reg)).0 there)
            ∙ (==_iff (peek_reg t current reg) value).0 same)
    | inr elsewhere ↦ rw (same, elsewhere)
  ]
  | inr changed ↦ rw changed
]

-- The other banks and all but the registers stay.
pub poke_reg-others :
    (t : Tracee) (reg : Reg) (value : ℕ)
    → ((poke_reg t reg value).regs_original ≡ t.regs_original)
      × ((poke_reg t reg value).regs_modified ≡ t.regs_modified)
      × ((poke_reg t reg value).chain ≡ t.chain)
      × ((poke_reg t reg value).heap ≡ t.heap)
unfolding poke_reg
poke_reg-others t reg value = elim (Bool-cases (peek_reg t current reg == value)) [
  | inl same ↦ rw same (refl, refl, refl, refl)
  | inr changed ↦ rw changed (refl, refl, refl, refl)
]

-- The registers that a system call keeps for its caller: its number, the arguments that do not
-- share the place of the result, and the stack pointer.
abbrev pub IsKept : Reg → Type 0
IsKept sysarg_num = Unit
IsKept sysarg_2 = Unit
IsKept sysarg_3 = Unit
IsKept sysarg_4 = Unit
IsKept sysarg_5 = Unit
IsKept sysarg_6 = Unit
IsKept stack_pointer = Unit
IsKept _ = ⊥

restore_all-kept :
    (from bank : Bank) (reg : Reg)
    → IsKept reg
    → restore_all from bank (reg_offset reg) ≡ from (reg_offset reg)
unfolding restore_all
restore_all-kept from bank sysarg_num k = refl
restore_all-kept from bank sysarg_1 k = absurd k
restore_all-kept from bank sysarg_2 k = refl
restore_all-kept from bank sysarg_3 k = refl
restore_all-kept from bank sysarg_4 k = refl
restore_all-kept from bank sysarg_5 k = refl
restore_all-kept from bank sysarg_6 k = refl
restore_all-kept from bank sysarg_result k = absurd k
restore_all-kept from bank stack_pointer k = refl
restore_all-kept from bank instr_pointer k = absurd k
restore_all-kept from bank userarg_1 k = absurd k

restore_all-others :
    (from bank : Bank)
    → (restore_all from bank (reg_offset sysarg_result) ≡ bank (reg_offset sysarg_result))
      × (restore_all from bank (reg_offset instr_pointer) ≡ bank (reg_offset instr_pointer))
unfolding restore_all
restore_all-others from bank = (refl, refl)

-- At the end of a system call whose registers were changed and are to be restored, and if
-- ptrace(2) accepts them, the bank written to the process holds the
-- registers of the caller again, but for the result and the instruction pointer, which stay. They
-- come from the bank saved before a rewrite after a seccomp event, if there was one, and otherwise
-- from the bank saved at the entry.
pub push_specific_regs_restores :
    (answers : PtraceAnswers) (including_sysnum : Bool) (t : Tracee) (reg : Reg)
    → t.regs_were_changed ≡ true
    → t.restore_original_regs ≡ true
    → answers.regs_error ≡ none
    → IsKept reg
    → (bank : Bank) × ((push_specific_regs answers including_sysnum t).2 ≡ some bank)
      × (bank (reg_offset reg) ≡ (
          if t.restore_original_regs_after_seccomp_event
          then t.regs_seccomp_rewrite (reg_offset reg)
          else t.regs_original (reg_offset reg)))
      × (bank (reg_offset sysarg_result) ≡ t.regs_current (reg_offset sysarg_result))
      × (bank (reg_offset instr_pointer) ≡ t.regs_current (reg_offset instr_pointer))
unfolding push_specific_regs
push_specific_regs_restores answers including_sysnum t reg changed restored fine kept =
    let from : Bank =
      if t.restore_original_regs_after_seccomp_event
      then t.regs_seccomp_rewrite
      else t.regs_original in
    (
      restore_all from t.regs_current,
      ground arith,
      restore_all-kept from t.regs_current reg kept ∙ ground arith,
      (restore_all-others from t.regs_current).0,
      (restore_all-others from t.regs_current).1,
    )
