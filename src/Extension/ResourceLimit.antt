-- ===== src/Extension/ResourceLimit.antt =====
-- The limits on the CPUs and processes that a guest sees, of
-- proot/src/extension/resource_limit/resource_limit.c. Allocation does not fail here.
pub mod Count
pub mod Mask
use proot_termux.Base.{
  ℕ, zero, suc, ◌+◌, ◌-◌, ◌%◌, ◌/◌, ◌^◌, bit_or, min, Bool, true, false, not, ◌&&◌, ◌||◌, Option,
  some, none, ◌==◌, if◌then◌else◌, ltb, leb, List, [], ◌∷◌, ◌++◌, Bytes, get_or, set, replicate,
  take,
}
use proot_termux.Tracee.{Tracee, sysarg_2, sysarg_3, sysarg_result, current, original}
use proot_termux.Tracee.Regs.{peek_reg, poke_reg}
use proot_termux.Syscall.Sysnum.{Sysnums, get_sysnum, set_sysnum, pr_void}
use proot_termux.Syscall.Seccomp.{FilteredSysnum, filtered, filter_sysexit}

abbrev pub pr_clone : ℕ
pr_clone = 41

abbrev pub pr_clone3 : ℕ
pr_clone3 = 42

abbrev pub pr_fork : ℕ
pr_fork = 86

abbrev pub pr_sched_getaffinity : ℕ
pr_sched_getaffinity = 295

abbrev pub pr_vfork : ℕ
pr_vfork = 420

-- -EAGAIN as a word
abbrev pub minus_eagain : ℕ
minus_eagain = 2 ^ 64 - 11

-- A limit that is not positive is not set; here it is 0.
pub record RlimitConfig : Type 0 where
  pub cpu_limit : ℕ
  pub proc_limit : ℕ

-- The list without its terminator.
unfoldable pub rlimit_build_sysnums : RlimitConfig → List FilteredSysnum
rlimit_build_sysnums config =
    (if ltb 0 config.cpu_limit then filtered pr_sched_getaffinity filter_sysexit ∷ [] else [])
    ++ (if ltb 0 config.proc_limit
        then filtered pr_clone 0
          ∷ filtered pr_clone3 0
          ∷ filtered pr_fork 0
          ∷ filtered pr_vfork 0
          ∷ []
        else [])

-- sizeof(buf), CPU_SETSIZE / 8
abbrev pub buf_size : ℕ
buf_size = 128

-- How many bytes of the mask are rewritten.
abbrev pub mask_length : ℕ → ℕ → ℕ
mask_length result cpusetsize =
    let n = if ltb cpusetsize result then cpusetsize else result in
    if ltb buf_size n then buf_size else n

-- The loop from `i` on, with `left` turns to go.
abbrev pub set_bits : ℕ → ℕ → ℕ → Bytes → Bytes
set_bits n zero i buf = buf
set_bits n (suc left) i buf =
    set_bits n left (i + 1)
      (if ltb (i / 8) n then set buf (i / 8) (bit_or (get_or buf (i / 8) 0) (2 ^ (i % 8))) else buf)

-- The address and the bytes that are handed to `write_data`, whose status does not matter.
unfoldable pub rlimit_handle_sched_getaffinity : Tracee → RlimitConfig → Option (ℕ × Bytes)
rlimit_handle_sched_getaffinity t config =
    let result = peek_reg t current sysarg_result in
    let n = mask_length result (peek_reg t original sysarg_2) in
    if leb (2 ^ 63) result || config.cpu_limit == 0 || n == 0
    then none
    else some (
      peek_reg t original sysarg_3,
      take n (set_bits n config.cpu_limit 0 (replicate buf_size 0)),
    )

-- The walk over the tracees, each its `terminated`, with the count so far.
abbrev pub count_from : List Bool → ℕ → ℕ → ℕ
count_from [] limit count = count
count_from (terminated ∷ tracees) limit count =
    let count' = if not terminated then count + 1 else count in
    let rest = count_from tracees limit count' in if leb limit count' then count' else rest

-- The list is none where its head is NULL.
unfoldable pub rlimit_count_live_tracees : Option (List Bool) → ℕ → ℕ
rlimit_count_live_tracees none limit = 0
rlimit_count_live_tracees (some tracees) limit =
    if limit == 0 then 0 else count_from tracees limit 0

-- The value that the function returns, and the tracee afterwards.
unfoldable pub rlimit_handle_fork_clone_enter :
    Sysnums → Option (List Bool) → RlimitConfig → Tracee → ℕ × Tracee
rlimit_handle_fork_clone_enter s tracees config t =
    if config.proc_limit == 0
    then (0, t)
    else if ltb (rlimit_count_live_tracees tracees config.proc_limit) config.proc_limit
    then (0, t)
    else (1, poke_reg (set_sysnum s t pr_void) sysarg_result minus_eagain)

-- `rlimit_callback` for SYSCALL_ENTER_START; none is a number that cannot be read.
unfoldable pub rlimit_enter_start :
    Sysnums → Option (List Bool) → RlimitConfig → Tracee → Option (ℕ × Tracee)
rlimit_enter_start s tracees config t = elim (get_sysnum s t current) [
  | none ↦ none
  | some num ↦
      if num == pr_clone || num == pr_clone3 || num == pr_fork || num == pr_vfork
      then some (rlimit_handle_fork_clone_enter s tracees config t)
      else some (0, t)
]

-- `rlimit_callback` for SYSCALL_EXIT_END: what is written to the tracee's memory.
unfoldable pub rlimit_exit_end : Sysnums → RlimitConfig → Tracee → Option (Option (ℕ × Bytes))
rlimit_exit_end s config t = elim (get_sysnum s t original) [
  | none ↦ none
  | some num ↦
      if num == pr_sched_getaffinity
      then some (rlimit_handle_sched_getaffinity t config)
      else some none
]

-- The extension, once it is initialized: its configuration and its filtered system calls.
pub record RlimitExtension : Type 0 where
  pub config : RlimitConfig
  pub filtered_sysnums : List FilteredSysnum

-- `rlimit_callback` for INITIALIZATION, and the refresh of an extension that is there.
abbrev pub rlimit_initialize : RlimitConfig → RlimitExtension
rlimit_initialize requested = record {
  config = requested;
  filtered_sysnums = rlimit_build_sysnums requested;
}

unfoldable pub rlimit_configure : RlimitConfig → Option RlimitExtension → Option RlimitExtension
rlimit_configure requested extension =
    if requested.cpu_limit == 0 && requested.proc_limit == 0 then extension else (elim extension [
      | none ↦ some (rlimit_initialize requested)
      | some e ↦
          some (record e { config = requested; filtered_sysnums = rlimit_build_sysnums requested })
    ])

unfoldable pub rlimit_proc_limit_reached : Option (List Bool) → ℕ → Bool
rlimit_proc_limit_reached tracees limit =
    if limit == 0 then false else leb limit (rlimit_count_live_tracees tracees limit)
