-- ===== src/Tests/Extensions.antt =====
-- Runs of the extensions of proot/src/extension.
use proot_termux.Base.{
  ℕ, ◌+◌, ◌≤◌, ◌≡◌, refl, List, [], ◌∷◌, Bool, true, false, Bytes, Option, some, none, All, ok, err,
  einval, length, get_or, arith,
}
use proot_termux.Tracee.{Tracee, Bank, inactive, ptrace_cont, sysarg_num, sysarg_result, current}
use proot_termux.Tracee.Regs.{peek_reg}
use proot_termux.Syscall.Sysnum.{Sysnums, syscall_avoider}
use proot_termux.Extension.ResourceLimit.{
  RlimitConfig, minus_eagain, rlimit_handle_fork_clone_enter, rlimit_handle_sched_getaffinity,
  rlimit_proc_limit_reached,
}
use proot_termux.Extension.ResourceLimit.Count.{rlimit_handle_fork_clone_enter_refuses}
use proot_termux.Extension.ResourceLimit.Mask.{rlimit_handle_sched_getaffinity_mask}
use proot_termux.Extension.SysvIpc.{
  pos, negsuc, Sembuf, Semaphore, Namespace, lookup_ipc_object, Config, wait_semop, not_waiting,
  entered_ppoll, signaled_ppoll, calm, resume,
}
use proot_termux.Extension.SysvIpc.Sem.{
  sysvipc_max_sems, sysvipc_max_semval, sysvipc_sem_check, sysvipc_semget, created, create_in,
  zeroed,
}
use proot_termux.Extension.SysvIpc.Sem.Check.{sysvipc_sem_check_balance}
use proot_termux.Extension.SysvIpc.Sem.Calls.{removed, semctl_rmid, sysvipc_semop, semop_run}
use proot_termux.Extension.SysvIpc.Sem.Wake.{IsWakeable, semctl_rmid-some}
use proot_termux.Extension.SysvIpc.Sem.Ids.{sysvipc_semget-lookup}
use proot_termux.Extension.SysvIpc.Sem.Removal.{semctl_rmid-lookup}
use proot_termux.Extension.Registry.{
  Extension, Extensions, uncached, remove_extension, initialize_extension, get_extension,
}
use proot_termux.Extension.Registry.Cache.{
  IsCoherent, IsDistinct, remove_extension-IsCoherent, initialize_extension-get_extension,
}

abbrev bank : Bank
bank i = i + 16

abbrev tracee : Tracee
tracee = record {
  regs_current = bank;
  regs_original = bank;
  regs_modified = bank;
  regs_seccomp_rewrite = bank;
  regs_were_changed = false;
  restore_original_regs = true;
  restore_original_regs_after_seccomp_event = false;
  restart_how = ptrace_cont;
  chain = record {
    syscalls = none;
    force_final_result = false;
    final_result = 0;
    sysnum_workaround_state = inactive;
    syscall_change_unsupported = false;
  };
  heap = record { base = 0; size = 0; disabled = false };
}

-- Ten CPUs and two processes.
abbrev limits : RlimitConfig
limits = record { cpu_limit = 10; proc_limit = 2 }

abbrev sysnums : Sysnums
sysnums = record { table = 41 ∷ []; offset = 0 }

-- Two live tracees and one that is terminated.
abbrev tracees : Option (List Bool)
tracees = some (false ∷ true ∷ false ∷ [])

rlimit_handle_fork_clone_enter_refuses_example :
    (rlimit_proc_limit_reached tracees 2 ≡ true)
    × ((rlimit_handle_fork_clone_enter sysnums tracees limits tracee).0 ≡ 1)
    × (peek_reg (rlimit_handle_fork_clone_enter sysnums tracees limits tracee).1 current sysarg_num
        ≡ syscall_avoider)
    × (peek_reg
          (rlimit_handle_fork_clone_enter sysnums tracees limits tracee).1
          current
          sysarg_result
        ≡ minus_eagain)
rlimit_handle_fork_clone_enter_refuses_example =
    rlimit_handle_fork_clone_enter_refuses sysnums tracees limits tracee

-- The kernel copied 16 bytes; the byte at 1 has two CPUs.
rlimit_handle_sched_getaffinity_mask_example :
    (mask : Bytes) × (rlimit_handle_sched_getaffinity tracee limits ≡ some (18, mask))
    × (length mask ≡ 16)
    × (get_or mask 1 0 ≡ 3)
rlimit_handle_sched_getaffinity_mask_example =
    rlimit_handle_sched_getaffinity_mask tracee limits 1 (omega arith) (ground arith) (omega arith)

abbrev pair : Semaphore
pair = record { key = 7; generation = 3; valid = true; sems = 1 ∷ 0 ∷ []; nsems = 2 }

-- Takes 1 from the first value and adds 2 to the second.
abbrev sops : List Sembuf
sops =
    record { sem_num = 0; sem_op = negsuc 0; nowait = false }
    ∷ record { sem_num = 1; sem_op = pos 2; nowait = false }
    ∷ []

sysvipc_sem_check_balance_example :
    (get_or (sysvipc_sem_check sops pair).1.sems 1 0 + 0 ≡ 0 + 2)
    × (get_or (sysvipc_sem_check sops pair).1.sems 1 0 ≤ sysvipc_max_semval)
    × (length (sysvipc_sem_check sops pair).1.sems ≡ 2)
sysvipc_sem_check_balance_example =
    sysvipc_sem_check_balance sops pair 1 (ground arith) (omega arith)

-- IPC_CREAT with a new key, behind `pair`.
abbrev new_pair : List Semaphore
new_pair = pair ∷ created zeroed 9 2 ∷ []

semget_new : sysvipc_semget 9 2 512 (pair ∷ []) ≡ ok (2, new_pair)
unfolding sysvipc_semget
semget_new = refl

sysvipc_semget-lookup_example :
    (i : ℕ) × (s : Semaphore) × (lookup_ipc_object 2 new_pair ≡ ok (i, s))
    × (s.key ≡ 9)
    × (length new_pair ≤ sysvipc_max_sems)
sysvipc_semget-lookup_example =
    sysvipc_semget-lookup (pair ∷ []) 9 2 512 2 new_pair (omega arith) (ground arith) semget_new

-- The id of `pair`: index 1, generation 3.
abbrev one : Namespace
one = record { semaphores = pair ∷ []; configs = [] }

abbrev none_left : Namespace
none_left = record { semaphores = removed pair ∷ []; configs = [] }

lookup_pair : lookup_ipc_object 12289 (pair ∷ []) ≡ ok (0, pair)
unfolding lookup_ipc_object
lookup_pair = refl

semctl_rmid-lookup_example :
    (lookup_ipc_object 12289 (removed pair ∷ []) ≡ err einval)
    × (lookup_ipc_object 12289 (create_in (removed pair ∷ []) 0 9 2).1 ≡ err einval)
semctl_rmid-lookup_example = semctl_rmid-lookup one none_left 12289 0 9 2 pair lookup_pair refl

-- A tracee that waits for the second value of `pair`, and the caller.
abbrev sleeper : Config
sleeper = record {
  wait_reason = wait_semop;
  wait_state = entered_ppoll;
  status_after_wait = ok 0;
  waiting_object_index = 0;
  semop_sops = record { sem_num = 1; sem_op = negsuc 0; nowait = false } ∷ [];
  retries = false;
}

abbrev caller : Config
caller = record {
  wait_reason = not_waiting;
  wait_state = calm;
  status_after_wait = ok 0;
  waiting_object_index = 0;
  semop_sops = [];
  retries = false;
}

abbrev busy : Namespace
busy = record { semaphores = pair ∷ []; configs = sleeper ∷ caller ∷ [] }

-- The caller's operations wake the tracee that waits.
semop_wakes :
    sysvipc_semop (λ address count. ok sops) 1 caller 12289 0 2 busy
    ≡ some (
      ok 0,
      record {
        semaphores = record pair { sems = 0 ∷ 1 ∷ [] } ∷ [];
        configs = resume (record sleeper { semop_sops = [] }) (ok 0) signaled_ppoll ∷ caller ∷ [];
      },
    )
unfolding sysvipc_semop semop_run lookup_ipc_object
semop_wakes = refl

semctl_rmid-some_example :
    (namespace' : Namespace) × (semctl_rmid 0 pair busy ≡ some namespace')
    × (namespace'.semaphores ≡ removed pair ∷ [])
    × All IsWakeable namespace'.configs
semctl_rmid-some_example = semctl_rmid-some 0 pair busy (ground arith)

abbrev first : Extension
first = record { address = 100; callback = 4 }

abbrev second : Extension
second = record { address = 200; callback = 9 }

abbrev loaded : Extensions
loaded = record (uncached (first ∷ [])) { resource_limit = some first }

loaded-IsCoherent : IsCoherent loaded
unfolding get_extension
loaded-IsCoherent callback = ground arith

remove_extension-IsCoherent_example :
    IsCoherent (remove_extension loaded 100)
    × ((remove_extension loaded 100).list ≡ [])
    × IsDistinct []
remove_extension-IsCoherent_example = remove_extension-IsCoherent loaded 100 (ground arith)

initialize_extension-get_extension_example :
    (left : Extensions) × (initialize_extension (some loaded) second false ≡ some left)
    × IsCoherent left
    × (left.list ≡ second ∷ first ∷ [])
    × (get_extension (some left) 9 ≡ some second)
initialize_extension-get_extension_example =
    initialize_extension-get_extension loaded second false loaded-IsCoherent (ground arith) refl
      (ground arith)
