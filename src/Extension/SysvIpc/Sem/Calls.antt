-- ===== src/Extension/SysvIpc/Sem/Calls.antt =====
-- semop(2) and semctl(2), of proot/src/extension/sysvipc/sysvipc_sem.c, on a namespace. None is a
-- failed assertion.
use proot_termux.Base.{
  ℕ, ◌+◌, ◌-◌, ◌%◌, ◌^◌, Bool, true, false, ◌&&◌, ◌||◌, not, Option, some, none, ◌==◌,
  if◌then◌else◌, ltb, List, [], ◌∷◌, length, get_or, set, Result, ok, err, einval, erange, e2big,
  efbig, eidrm,
}
use proot_termux.Extension.SysvIpc.{
  Sembuf, Semaphore, WaitReason, not_waiting, wait_semop, Config, Namespace, sysvipc_wake_tracee,
  lookup_ipc_object,
}
use proot_termux.Extension.SysvIpc.Sem.{
  sysvipc_max_nsops, sysvipc_max_semval, has_bit, sysvipc_sem_check, status_of,
}

abbrev pub is_wait_semop : WaitReason → Bool
is_wait_semop wait_semop = true
is_wait_semop _ = false

-- The test of the loops over the tracees.
abbrev pub waits_for : ℕ → Config → Bool
waits_for semaphore_index config =
    is_wait_semop config.wait_reason && config.waiting_object_index == semaphore_index

-- One other tracee that waits for the semaphore.
abbrev pub recheck : Config → Semaphore → Option (Config × Semaphore)
recheck config semaphore =
    let (outcome, semaphore') = sysvipc_sem_check config.semop_sops semaphore in
    elim (status_of outcome) [
      | none ↦ some (config, semaphore')
      | some status ↦ elim (sysvipc_wake_tracee (record config { semop_sops = [] }) status) [
        | none ↦ none
        | some woken ↦ some (woken, semaphore')
      ]
    ]

-- The loop over the tracees, from the `i`th on; the caller is the one at `me`.
abbrev pub recheck_all : ℕ → ℕ → ℕ → List Config → Semaphore → Option (List Config × Semaphore)
recheck_all me semaphore_index i [] semaphore = some ([], semaphore)
recheck_all me semaphore_index i (config ∷ configs) semaphore =
    let step : Option (Config × Semaphore) =
      if not (i == me) && waits_for semaphore_index config
      then recheck config semaphore
      else some (config, semaphore) in
    elim step [
      | none ↦ none
      | some (config', semaphore') ↦
          elim (recheck_all me semaphore_index (i + 1) configs semaphore') [
            | none ↦ none
            | some (configs', semaphore'') ↦ some (config' ∷ configs', semaphore'')
          ]
    ]

-- The caller's configuration while its operations are tried, and when they are settled.
abbrev pub waiting : Config → ℕ → List Sembuf → Config
waiting config semaphore_index sops = record config {
  wait_reason = wait_semop;
  waiting_object_index = semaphore_index;
  semop_sops = sops;
}

abbrev pub settled : Config → Config
settled config = record config { wait_reason = not_waiting; semop_sops = [] }

abbrev pub all_in_range : List Sembuf → ℕ → Bool
all_in_range [] nsems = true
all_in_range (sop ∷ sops) nsems = ltb sop.sem_num nsems && all_in_range sops nsems

-- From where the arguments are checked: the caller's operations, then those of the others.
unfoldable pub semop_run :
    ℕ → Config → ℕ → Semaphore → List Sembuf → Namespace → Option (Result ℕ × Namespace)
semop_run me config semaphore_index semaphore sops namespace =
    let (outcome, semaphore') = sysvipc_sem_check sops semaphore in
    let own : Config = elim (status_of outcome) [
      | none ↦ waiting config semaphore_index sops
      | some status ↦ settled (waiting config semaphore_index sops)
    ] in
    let result : Result ℕ = elim (status_of outcome) [ none ↦ ok 0 | some status ↦ status ] in
    elim (recheck_all me semaphore_index 0 namespace.configs semaphore') [
      | none ↦ none
      | some (configs, semaphore'') ↦ some (
        result,
        record {
          semaphores = set namespace.semaphores semaphore_index semaphore'';
          configs = set configs me own;
        },
      )
    ]

-- `read_data` gives the operations, or its error. The caller is the tracee at `me`.
unfoldable pub sysvipc_semop :
    (ℕ → ℕ → Result (List Sembuf))
    → ℕ
    → Config
    → ℕ
    → ℕ
    → ℕ
    → Namespace
    → Option (Result ℕ × Namespace)
sysvipc_semop read_data me config sysarg_1 sops_ptr nsops namespace =
    elim (lookup_ipc_object sysarg_1 namespace.semaphores) [
      | err e ↦ some (err e, namespace)
      | ok (semaphore_index, semaphore) ↦
          if ltb sysvipc_max_nsops nsops
          then some (err e2big, namespace)
          else if nsops == 0
          then some (err einval, namespace)
          else (elim (read_data sops_ptr nsops) [
            | err e ↦ some (err e, namespace)
            | ok sops ↦
                if not (all_in_range sops semaphore.nsems)
                then some (err efbig, namespace)
                else semop_run me config semaphore_index semaphore sops namespace
          ])
    ]

abbrev pub sysvipc_semop_timedout : Config → Config
sysvipc_semop_timedout config = settled config

-- The tracees that wait for a semaphore that goes away.
abbrev pub wake_all : ℕ → List Config → Option (List Config)
wake_all semaphore_index [] = some []
wake_all semaphore_index (config ∷ configs) =
    let step : Option Config =
      if waits_for semaphore_index config
      then sysvipc_wake_tracee config (err eidrm)
      else some config in
    elim step [
      | none ↦ none
      | some config' ↦ elim (wake_all semaphore_index configs) [
        | none ↦ none
        | some configs' ↦ some (config' ∷ configs')
      ]
    ]

abbrev pub removed : Semaphore → Semaphore
removed semaphore = record semaphore {
  valid = false;
  generation = (semaphore.generation + 1) % 2 ^ 16;
  sems = [];
}

-- `semnum` is cut to an `int`, whose negative values are not below `nsems`.
abbrev pub in_range : ℕ → Semaphore → Bool
in_range semnum semaphore = ltb (semnum % 2 ^ 32) semaphore.nsems

abbrev pub semctl_getval : ℕ → Semaphore → Result ℕ
semctl_getval semnum semaphore =
    if not (in_range semnum semaphore)
    then err einval
    else ok (get_or semaphore.sems (semnum % 2 ^ 32) 0)

abbrev pub semctl_setval : ℕ → ℕ → Semaphore → Result Semaphore
semctl_setval semnum cmdarg semaphore =
    if ltb sysvipc_max_semval cmdarg
    then err erange
    else if not (in_range semnum semaphore)
    then err einval
    else ok (record semaphore { sems = set semaphore.sems (semnum % 2 ^ 32) cmdarg })

abbrev pub semctl_rmid : ℕ → Semaphore → Namespace → Option Namespace
semctl_rmid semaphore_index semaphore namespace =
    elim (wake_all semaphore_index namespace.configs) [
      | none ↦ none
      | some configs ↦ some (record {
        semaphores = set namespace.semaphores semaphore_index (removed semaphore);
        configs = configs;
      })
    ]

-- What is written to the tracee's memory: all values, or a `struct SysVIpcSeminfo` by its `semusz`
-- and `semaem`, the other fields being constants.
pub data Written : Type 0 where
  all_values : List ℕ → Written
  seminfo : ℕ → ℕ → Written

abbrev pub total_nsems : List Semaphore → ℕ
total_nsems [] = 0
total_nsems (x ∷ semaphores) = x.nsems + total_nsems semaphores

-- The two fields are filled in for SEM_INFO as it stands, without IPC_64.
abbrev pub semctl_info : ℕ → List Semaphore → Written
semctl_info cmd semaphores =
    if cmd == 19 then seminfo (length semaphores) (total_nsems semaphores) else seminfo 0 0

-- The result and the namespace, and what was written, at which address.
abbrev pub Reply : Type 0
Reply = Result ℕ × Namespace × Option (ℕ × Written)

abbrev pub semctl_write : Result ℕ → Namespace → ℕ → Written → Reply
semctl_write (ok _) namespace cmdarg written = (ok 0, namespace, some (cmdarg, written))
semctl_write (err e) namespace cmdarg written = (err e, namespace, none)

abbrev pub semctl_set : Result Semaphore → ℕ → Namespace → Reply
semctl_set (ok semaphore) semaphore_index namespace = (
  ok 0,
  record namespace { semaphores = set namespace.semaphores semaphore_index semaphore },
  none,
)
semctl_set (err e) semaphore_index namespace = (err e, namespace, none)

-- `write_status` is what `write_data` answers. The commands are GETVAL, SETVAL, GETALL, IPC_RMID,
-- IPC_INFO and SEM_INFO.
unfoldable pub sysvipc_semctl : Result ℕ → ℕ → ℕ → ℕ → ℕ → Namespace → Option Reply
sysvipc_semctl write_status sysarg_1 semnum sysarg_3 cmdarg namespace =
    elim (lookup_ipc_object sysarg_1 namespace.semaphores) [
      | err e ↦ some (err e, namespace, none)
      | ok (semaphore_index, semaphore) ↦
          let cmd = sysarg_3 % 2 ^ 32 in
          let base = if has_bit cmd 8 then cmd - 2 ^ 8 else cmd in
          if base == 12
          then some (semctl_getval semnum semaphore, namespace, none)
          else if base == 16
          then some (semctl_set (semctl_setval semnum cmdarg semaphore) semaphore_index namespace)
          else if base == 13
          then some (semctl_write write_status namespace cmdarg (all_values semaphore.sems))
          else if base == 0
          then (elim (semctl_rmid semaphore_index semaphore namespace) [
            | none ↦ none
            | some namespace' ↦ some (ok 0, namespace', none)
          ])
          else if base == 3 || base == 19
          then some
              (semctl_write write_status namespace cmdarg (semctl_info cmd namespace.semaphores))
          else some (err einval, namespace, none)
    ]
