-- ===== src/Extension/SysvIpc/Sem.antt =====
-- The semaphore system calls, of proot/src/extension/sysvipc/sysvipc_sem.c. What the tracee's memory
-- holds is an argument, and allocation does not fail here.
pub mod Check
pub mod Lookup
pub mod Keys
pub mod Removal
pub mod Ids
pub mod Calls
pub mod Wake
use proot_termux.Base.{
  ℕ, zero, suc, ◌+◌, ◌-◌, ◌*◌, ◌/◌, ◌%◌, ◌^◌, Bool, true, false, ◌&&◌, ◌||◌, not, Option, some,
  none, ◌==◌, if◌then◌else◌, ltb, leb, List, [], ◌∷◌, ◌++◌, length, get_or, get_elem?, set,
  replicate, Result, ok, err, ◌>>=◌, Errno, einval, enoent, enospc, eexist, eagain, erange, e2big,
  efbig, eidrm,
}
use proot_termux.Extension.SysvIpc.{
  ℤ, pos, negsuc, Sembuf, Semaphore, WaitReason, not_waiting, wait_semop, Config, Namespace,
  sysvipc_wake_tracee, ipc_object_id, lookup_ipc_object,
}

abbrev pub sysvipc_max_sems : ℕ
sysvipc_max_sems = 512

abbrev pub sysvipc_max_nsems : ℕ
sysvipc_max_nsems = 512

abbrev pub sysvipc_max_nsops : ℕ
sysvipc_max_nsops = 512

abbrev pub sysvipc_max_semval : ℕ
sysvipc_max_semval = 0x7000

-- IPC_CREAT and IPC_EXCL are the bits 9 and 10.
abbrev pub has_bit : ℕ → ℕ → Bool
has_bit flags bit = flags / 2 ^ bit % 2 == 1

-- How the search of `sysvipc_semget` ends: at an entry, or at the end with the first unused slot.
pub data Search : Type 0 where
  found : ℕ → Semaphore → Search
  missing : Option ℕ → Search

-- The loop, from `semaphore_index` on.
abbrev pub search_key : List Semaphore → ℕ → ℕ → Option ℕ → Search
search_key [] semaphore_id semaphore_index unused_slot = missing unused_slot
search_key (x ∷ semaphores) semaphore_id semaphore_index unused_slot =
    let unused : Option ℕ = elim unused_slot [
      | none ↦ some semaphore_index
      | some slot ↦ some slot
    ] in
    let rest_valid = search_key semaphores semaphore_id (semaphore_index + 1) unused_slot in
    let rest_unused = search_key semaphores semaphore_id (semaphore_index + 1) unused in
    if x.valid
    then (if not (semaphore_id == 0) && x.key == semaphore_id % 2 ^ 32
        then found semaphore_index x
        else rest_valid)
    else rest_unused

-- A new entry in place of `old`.
abbrev pub created : Semaphore → ℕ → ℕ → Semaphore
created old semaphore_id nsems = record old {
  key = semaphore_id % 2 ^ 32;
  valid = true;
  sems = replicate nsems 0;
  nsems = nsems;
}

abbrev pub zeroed : Semaphore
zeroed = record { key = 0; generation = 0; valid = false; sems = []; nsems = 0 }

-- The two ways to get a slot: an unused one, or a new one at the end.
abbrev pub create_in : List Semaphore → ℕ → ℕ → ℕ → ℕ × List Semaphore
create_in semaphores slot semaphore_id nsems =
    let old = get_or semaphores slot zeroed in
    (ipc_object_id slot old.generation, set semaphores slot (created old semaphore_id nsems))

abbrev pub create : List Semaphore → Option ℕ → ℕ → ℕ → Result (ℕ × List Semaphore)
create semaphores (some slot) semaphore_id nsems = ok (create_in semaphores slot semaphore_id nsems)
create semaphores none semaphore_id nsems =
    if leb sysvipc_max_sems (length semaphores)
    then err enospc
    else ok (create_in (semaphores ++ zeroed ∷ []) (length semaphores) semaphore_id nsems)

abbrev pub semget_at : List Semaphore → Search → ℕ → ℕ → ℕ → Result (ℕ × List Semaphore)
semget_at semaphores (missing unused_slot) semaphore_id nsems semflg =
    if not (has_bit semflg 9) then err enoent else create semaphores unused_slot semaphore_id nsems
semget_at semaphores (found i semaphore) semaphore_id nsems semflg =
    if has_bit semflg 9 && has_bit semflg 10
    then err eexist
    else if ltb semaphore.nsems nsems
    then err einval
    else ok (ipc_object_id i semaphore.generation, semaphores)

-- By the three argument registers; the second and the third are cut to an `int`.
unfoldable pub sysvipc_semget : ℕ → ℕ → ℕ → List Semaphore → Result (ℕ × List Semaphore)
sysvipc_semget semaphore_id sysarg_2 sysarg_3 semaphores =
    let nsems = sysarg_2 % 2 ^ 32 in
    if nsems == 0 || ltb sysvipc_max_nsems nsems
    then err einval
    else semget_at semaphores (search_key semaphores semaphore_id 0 none) semaphore_id nsems
        (sysarg_3 % 2 ^ 32)

-- Which of the two counts a waiting operation belongs to, 'n' or 'z'.
pub data WaitType : Type 0 where
  until_more until_zero : WaitType

-- How the loop over the operations ends: with the new values, in a wait, or in an error.
pub data Outcome : Type 0 where
  done : List ℕ → Outcome
  waits : WaitType → Outcome
  fails : Errno → Outcome

abbrev pub block : Sembuf → WaitType → Outcome
block sop type = if sop.nowait then fails eagain else waits type

abbrev pub run_sops : List Sembuf → List ℕ → Outcome
run_sops [] new_sems = done new_sems
run_sops (sop ∷ sops) new_sems =
    let value = get_or new_sems sop.sem_num 0 in
    elim sop.sem_op [
      | pos zero ↦ if not (value == 0) then block sop until_zero else run_sops sops new_sems
      | pos (suc up) ↦
          if ltb sysvipc_max_semval (value + suc up)
          then fails erange
          else run_sops sops (set new_sems sop.sem_num (value + suc up))
      | negsuc down ↦
          if ltb value (suc down)
          then block sop until_more
          else if ltb sysvipc_max_semval (value - suc down)
          then fails erange
          else run_sops sops (set new_sems sop.sem_num (value - suc down))
    ]

-- The values go back to the semaphore only at the end.
abbrev pub settle : Outcome → Semaphore → Outcome × Semaphore
settle (done new_sems) semaphore = (done new_sems, record semaphore { sems = new_sems })
settle (waits type) semaphore = (waits type, semaphore)
settle (fails e) semaphore = (fails e, semaphore)

abbrev pub sysvipc_sem_check : List Sembuf → Semaphore → Outcome × Semaphore
sysvipc_sem_check sops semaphore = settle (run_sops sops semaphore.sems) semaphore

-- The status that a system call returns, none for one that waits.
abbrev pub status_of : Outcome → Option (Result ℕ)
status_of (done new_sems) = some (ok 0)
status_of (waits type) = none
status_of (fails e) = some (err e)
