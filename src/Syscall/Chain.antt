-- ===== src/Syscall/Chain.antt =====
-- The queue of system calls that PRoot inserts behind one of the tracee's, of
-- proot/src/syscall/chain.c. Allocation does not fail here.
pub mod Fifo
use proot_termux.Base.{
  ℕ, ◌+◌, Bool, true, false, Option, some, none, List, [], ◌∷◌, ◌++◌, if◌then◌else◌, sub_word,
}
use proot_termux.Tracee.{
  Tracee, Chain, ChainedSyscall, Workaround, inactive, process_faulty_call, Restart, ptrace_syscall,
  Reg, sysarg_num, sysarg_1, sysarg_2, sysarg_3, sysarg_4, sysarg_5, sysarg_6, sysarg_result,
  instr_pointer, RegVersion, current, original,
}
use proot_termux.Tracee.Regs.{peek_reg, poke_reg}
use proot_termux.Syscall.Sysnum.{Sysnums, detranslate_sysnum, get_sysnum}

-- SYSTRAP_SIZE of a 64-bit process
abbrev pub systrap_size : ℕ
systrap_size = 4

abbrev pub queue_of : Chain → List ChainedSyscall
queue_of c = elim c.syscalls [ none ↦ [] | some l ↦ l ]

unfoldable pub register_chained_syscall_internal : Tracee → ChainedSyscall → Bool → Tracee
register_chained_syscall_internal t call at_front = record t {
  chain = record (t.chain) {
    syscalls = some (if at_front then call ∷ queue_of t.chain else queue_of t.chain ++ call ∷ []);
  };
}

unfoldable pub register_chained_syscall : Tracee → ChainedSyscall → Tracee
unfolding register_chained_syscall_internal
register_chained_syscall t call = register_chained_syscall_internal t call false

-- The arguments and the number of a chained system call go to the registers.
unfoldable pub poke_call : Sysnums → Tracee → ChainedSyscall → Tracee
poke_call s t call =
    let t1 = poke_reg t sysarg_1 call.arg_1 in
    let t2 = poke_reg t1 sysarg_2 call.arg_2 in
    let t3 = poke_reg t2 sysarg_3 call.arg_3 in
    let t4 = poke_reg t3 sysarg_4 call.arg_4 in
    let t5 = poke_reg t4 sysarg_5 call.arg_5 in
    let t6 = poke_reg t5 sysarg_6 call.arg_6 in
    poke_reg t6 sysarg_num (detranslate_sysnum s call.sysnum)

-- The end of the chain: the queue is freed, and the result is forced if that was asked for.
unfoldable pub chain_finish : Tracee → Tracee
chain_finish t =
    let t' =
      if t.chain.force_final_result then poke_reg t sysarg_result t.chain.final_result else t in
    record t' {
      chain = record (t.chain) { syscalls = none; force_final_result = false; final_result = 0 };
    }

-- The next call of the queue; the instruction pointer goes back to the trap.
unfoldable pub chain_continue : Sysnums → Tracee → ChainedSyscall → List ChainedSyscall → Tracee
chain_continue s t call rest =
    let t' =
      poke_call s
        (record t {
          restore_original_regs = false;
          chain = record (t.chain) { syscalls = some rest };
        })
        call in
    let t'' =
      poke_reg t' instr_pointer (sub_word (peek_reg t' current instr_pointer) systrap_size) in
    record t'' { restart_how = ptrace_syscall }

-- By the queue. Without one the assertion fails: that is a precondition.
abbrev pub next_of : Sysnums → Tracee → Option (List ChainedSyscall) → Tracee
next_of s t none = t
next_of s t (some []) = chain_finish t
next_of s t (some (call ∷ rest)) = chain_continue s t call rest

unfoldable pub chain_next_syscall : Sysnums → Tracee → Tracee
chain_next_syscall s t = next_of s t t.chain.syscalls

unfoldable pub force_chain_final_result : Tracee → ℕ → Tracee
force_chain_final_result t forced_result = record t {
  chain = record (t.chain) { force_final_result = true; final_result = forced_result };
}

-- The system call whose number and arguments are in a bank; the number is none if the table is
-- read out of range.
abbrev pub call_in : Sysnums → Tracee → RegVersion → Option ChainedSyscall
call_in s t version = elim (get_sysnum s t version) [
  | none ↦ none
  | some n ↦ some (record {
    sysnum = n;
    arg_1 = peek_reg t version sysarg_1;
    arg_2 = peek_reg t version sysarg_2;
    arg_3 = peek_reg t version sysarg_3;
    arg_4 = peek_reg t version sysarg_4;
    arg_5 = peek_reg t version sysarg_5;
    arg_6 = peek_reg t version sysarg_6;
  })
]

unfoldable pub restart_original_syscall : Sysnums → Tracee → Option Tracee
unfolding register_chained_syscall
restart_original_syscall s t = elim (call_in s t original) [
  | none ↦ none
  | some call ↦ some (register_chained_syscall t call)
]

-- The assertion on the state of the workaround is a precondition.
unfoldable pub restart_current_syscall_as_chained : Sysnums → Tracee → Option Tracee
unfolding register_chained_syscall_internal
restart_current_syscall_as_chained s t =
    let t' = record t {
      chain = record (t.chain) { sysnum_workaround_state = process_faulty_call };
    } in
    elim (call_in s t' current) [
      | none ↦ none
      | some call ↦ some (register_chained_syscall_internal t' call true)
    ]
