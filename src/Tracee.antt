-- ===== src/Tracee.antt =====
-- The part of `struct tracee` of proot/src/tracee/tracee.h that the system call machinery keeps,
-- and the cached registers of proot/src/tracee/reg.c, for a 64-bit process on ARM64.
pub mod Regs
use proot_termux.Base.{ℕ, ◌==◌, if◌then◌else◌, Bool, true, false, List, Option}

-- `enum Reg`; RTLD_FINI and STATE_FLAGS have no offset on ARM64.
pub data Reg : Type 0 where
  sysarg_num sysarg_1 sysarg_2 sysarg_3 sysarg_4 sysarg_5 sysarg_6 : Reg
  sysarg_result stack_pointer instr_pointer userarg_1 : Reg

-- `enum RegVersion`
pub data RegVersion : Type 0 where
  current original modified original_seccomp_rewrite : RegVersion

-- A `struct user_regs_struct`, as its words: regs[0] to regs[30], sp and pc.
abbrev pub Bank : Type 0
Bank = ℕ → ℕ

-- `reg_offset`, in words
abbrev pub reg_offset : Reg → ℕ
reg_offset sysarg_num = 8
reg_offset sysarg_1 = 0
reg_offset sysarg_2 = 1
reg_offset sysarg_3 = 2
reg_offset sysarg_4 = 3
reg_offset sysarg_5 = 4
reg_offset sysarg_6 = 5
reg_offset sysarg_result = 0
reg_offset stack_pointer = 31
reg_offset instr_pointer = 32
reg_offset userarg_1 = 0

-- A write to one word of a bank.
abbrev pub write_slot : Bank → ℕ → ℕ → Bank
write_slot bank slot value i = if i == slot then value else bank i

-- `struct chained_syscall`
pub record ChainedSyscall : Type 0 where
  pub sysnum : ℕ
  pub arg_1 : ℕ
  pub arg_2 : ℕ
  pub arg_3 : ℕ
  pub arg_4 : ℕ
  pub arg_5 : ℕ
  pub arg_6 : ℕ

pub data Workaround : Type 0 where
  inactive process_faulty_call process_replaced_call : Workaround

-- `tracee->chain`; `syscalls` is none for NULL.
pub record Chain : Type 0 where
  pub syscalls : Option (List ChainedSyscall)
  pub force_final_result : Bool
  pub final_result : ℕ
  pub sysnum_workaround_state : Workaround
  pub syscall_change_unsupported : Bool

-- `tracee->heap`
pub record Heap : Type 0 where
  pub base : ℕ
  pub size : ℕ
  pub disabled : Bool

-- `restart_how`, as far as the model tells the requests apart.
pub data Restart : Type 0 where
  ptrace_cont ptrace_syscall : Restart

pub record Tracee : Type 0 where
  pub regs_current : Bank
  pub regs_original : Bank
  pub regs_modified : Bank
  pub regs_seccomp_rewrite : Bank
  pub regs_were_changed : Bool
  pub restore_original_regs : Bool
  pub restore_original_regs_after_seccomp_event : Bool
  pub restart_how : Restart
  pub chain : Chain
  pub heap : Heap
