-- ===== src/Tests/Tracing.antt =====
-- Runs of the system call machinery of proot/src/syscall and proot/src/tracee.
use proot_termux.Base.{
  ℕ, ◌+◌, ◌≡◌, ◌↔◌, refl, [], ◌∷◌, true, false, some, none, ◌==◌, if◌then◌else◌, length, map,
  add_word, arith,
}
use proot_termux.Tracee.{
  Tracee, Bank, ChainedSyscall, inactive, ptrace_cont, sysarg_2, sysarg_result, instr_pointer,
  current, reg_offset,
}
use proot_termux.Tracee.Regs.{
  peek_reg, PtraceAnswers, push_specific_regs, push_specific_regs_restores,
}
use proot_termux.Syscall.Sysnum.{
  Sysnums, translate_sysnum, detranslate_sysnum, translate_sysnum-detranslate_sysnum,
  translate_sysnum_overrun, pr_brk, pr_mremap,
}
use proot_termux.Syscall.Chain.Fifo.{issue, register_all, as_issued, issue-register_all}
use proot_termux.Syscall.Brk.{Mapping}
use proot_termux.Syscall.Brk.Cycle.{brk_cycle, brk_cycle_below, brk_cycle_resize}

-- A table with brk(2) as its call 10 and mremap(2) as its call 11.
abbrev sysnums : Sysnums
sysnums = record { table = pr_brk ∷ pr_mremap ∷ []; offset = 10 }

abbrev bank : Bank
bank i = i + 100

-- A heap at 0x1000 with 0x200 bytes, and a call with 0x1800 as its first argument.
abbrev asked : ℕ → Bank
asked request i = if i == 0 then request else i

abbrev tracee : ℕ → Tracee
tracee request = record {
  regs_current = asked request;
  regs_original = bank;
  regs_modified = asked request;
  regs_seccomp_rewrite = bank;
  regs_were_changed = true;
  restore_original_regs = true;
  restore_original_regs_after_seccomp_event = false;
  restart_how = ptrace_cont;
  chain = record {
    syscalls = none;
    force_final_result = false;
    final_result = 0;
    sysnum_workaround_state = inactive;
    syscall_change_unsupported = false;
  };
  heap = record { base = 0x1000; size = 0x200; disabled = false };
}

abbrev bss : Mapping
bss = record { addr = 0x800; length = 0x100 }

abbrev accepted : PtraceAnswers
accepted = record { sysnum_accepted = true; regs_error = none }

abbrev call : ℕ → ChainedSyscall
call sysnum = record {
  sysnum = sysnum;
  arg_1 = 1;
  arg_2 = 2;
  arg_3 = 3;
  arg_4 = 4;
  arg_5 = 5;
  arg_6 = 6;
}

push_specific_regs_restores_example :
    (b : Bank) × ((push_specific_regs accepted true (tracee 7)).2 ≡ some b)
    × (b (reg_offset sysarg_2) ≡ 101)
    × (b (reg_offset sysarg_result) ≡ 7)
    × (b (reg_offset instr_pointer) ≡ 32)
push_specific_regs_restores_example =
    push_specific_regs_restores accepted true (tracee 7) sysarg_2 refl refl refl tt

detranslate_mremap : detranslate_sysnum sysnums pr_mremap ≡ 11
unfolding detranslate_sysnum
detranslate_mremap = refl

translate_sysnum-detranslate_sysnum_example :
    translate_sysnum sysnums (detranslate_sysnum sysnums pr_mremap) ≡ some pr_mremap
translate_sysnum-detranslate_sysnum_example =
    translate_sysnum-detranslate_sysnum sysnums pr_mremap (omega arith)
      (ground (arith, detranslate_mremap))

translate_sysnum_overrun_example :
    (translate_sysnum sysnums 12 ≡ none) ↔ (12 ≡ sysnums.offset + length sysnums.table)
translate_sysnum_overrun_example = translate_sysnum_overrun sysnums 12

issue-register_all_example :
    ((issue sysnums (λ t. bank) 2 (register_all (call pr_brk ∷ call pr_mremap ∷ []) (tracee 7))).0
      ≡ map (as_issued sysnums) (call pr_brk ∷ call pr_mremap ∷ []))
    × ((issue sysnums
          (λ t. bank)
          2
          (register_all (call pr_brk ∷ call pr_mremap ∷ []) (tracee 7))).1.chain
        ≡ record ((tracee 7).chain) { syscalls = some [] })
issue-register_all_example =
    issue-register_all sysnums (λ t. bank) (call pr_brk) (call pr_mremap ∷ []) (tracee 7) refl

brk_cycle_below_example :
    (t' : Tracee) × (brk_cycle sysnums 0x1000 bss 5 (tracee 0x900) ≡ some t')
    × (t'.heap ≡ (tracee 0x900).heap)
    × (peek_reg t' current sysarg_result ≡ 0x1200)
brk_cycle_below_example =
    brk_cycle_below sysnums 0x1000 bss 5 (tracee 0x900) (omega arith) refl (ground arith)
      (omega arith)

-- The heap grows to 0x800 bytes.
brk_cycle_resize_example :
    (t' : Tracee) × (brk_cycle sysnums 0x1000 bss 0 (tracee 0x1800) ≡ some t')
    × (t'.heap.base ≡ 0x1000)
    × (t'.heap.size ≡ 0x800)
    × (peek_reg t' current sysarg_result ≡ add_word t'.heap.base t'.heap.size)
brk_cycle_resize_example =
    brk_cycle_resize sysnums 0x1000 bss 0 (tracee 0x1800) (omega arith)
      (ground (arith, detranslate_mremap)) (omega arith) refl (ground arith) (omega arith)
      (omega arith)
