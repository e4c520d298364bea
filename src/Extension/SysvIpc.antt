-- ===== src/Extension/SysvIpc.antt =====
-- The System V IPC objects of a namespace and the tracees that wait for them, of
-- proot/src/extension/sysvipc.
pub mod Sem
pub mod Wait
pub mod Msg
use proot_termux.Base.{
  ℕ, ◌+◌, ◌-◌, ◌*◌, ◌/◌, ◌%◌, ◌^◌, Bool, true, false, ◌&&◌, ◌||◌, not, Option, some, none, ◌==◌,
  if◌then◌else◌, ltb, leb, List, length, get_elem?, Result, ok, err, einval,
}

-- An integer, for the signed fields.
pub data ℤ : Type 0 where
  pos : ℕ → ℤ
  negsuc : ℕ → ℤ

-- `struct SysVIpcSembuf`; whether `sem_flg` has IPC_NOWAIT.
pub record Sembuf : Type 0 where
  pub sem_num : ℕ
  pub sem_op : ℤ
  pub nowait : Bool

-- `struct SysVIpcSemaphore`. The key and the generation are bit patterns, of 32 and 16 bits;
-- freed `sems` are the empty list.
pub record Semaphore : Type 0 where
  pub key : ℕ
  pub generation : ℕ
  pub valid : Bool
  pub sems : List ℕ
  pub nsems : ℕ

-- `enum SysVIpcWaitReason`
pub data WaitReason : Type 0 where
  not_waiting wait_queue_recv wait_semop wait_shmat_helper_busy : WaitReason

-- `enum SysVIpcWaitState`
pub data WaitState : Type 0 where
  calm restarted_into_ppoll_canceled restarted_into_ppoll : WaitState
  entered_ppoll signaled_ppoll entered_getpid : WaitState

-- What `struct SysVIpcConfig` keeps for a tracee that waits. `retries` is whether `chain_state` is
-- CSTATE_MSGRCV_RETRY.
pub record Config : Type 0 where
  pub wait_reason : WaitReason
  pub wait_state : WaitState
  pub status_after_wait : Result ℕ
  pub waiting_object_index : ℕ
  pub semop_sops : List Sembuf
  pub retries : Bool

-- The semaphores of a namespace, and the configurations of its tracees, in the order of the list
-- of tracees.
pub record Namespace : Type 0 where
  pub semaphores : List Semaphore
  pub configs : List Config

-- `sysvipc_wake_tracee`, but for the SIGSTOP that it sends; none is a failed assertion.
abbrev pub resume : Config → Result ℕ → WaitState → Config
resume config status state = record config {
  wait_reason = not_waiting;
  status_after_wait = status;
  wait_state = state;
}

abbrev pub wake_state : WaitState → Option WaitState
wake_state entered_ppoll = some signaled_ppoll
wake_state restarted_into_ppoll = some restarted_into_ppoll_canceled
wake_state _ = none

abbrev pub is_waiting : WaitReason → Bool
is_waiting not_waiting = false
is_waiting _ = true

abbrev pub sysvipc_wake_tracee : Config → Result ℕ → Option Config
sysvipc_wake_tracee config status = elim (wake_state config.wait_state) [
  | none ↦ none
  | some state ↦ if is_waiting config.wait_reason then some (resume config status state) else none
]

-- `generation << 12`, of the sign-extended generation, as 32 bits.
abbrev pub shifted_generation : ℕ → ℕ
shifted_generation generation =
    if ltb generation (2 ^ 15) then generation * 2 ^ 12 else 2 ^ 32 - (2 ^ 16 - generation) * 2 ^ 12

-- IPC_OBJECT_ID, as 32 bits. An index is below 4095, so the two parts have no common bit, and the
-- `|` is a sum.
abbrev pub ipc_object_id : ℕ → ℕ → ℕ
ipc_object_id index generation = (index + 1) + shifted_generation generation

-- The test of the generation, which is negative as an `int` from 2 ^ 15 on.
abbrev pub is_generation : ℕ → ℕ → Bool
is_generation generation object_id =
    ltb generation (2 ^ 15) && generation == object_id / 2 ^ 12 % 2 ^ 16

-- LOOKUP_IPC_OBJECT, on the semaphores.
unfoldable pub lookup_ipc_object : ℕ → List Semaphore → Result (ℕ × Semaphore)
lookup_ipc_object sysarg_1 semaphores =
    let object_id = sysarg_1 % 2 ^ 32 in
    let object_index = object_id % 2 ^ 12 in
    if object_index == 0 || ltb (length semaphores) object_index
    then err einval
    else (elim (get_elem? semaphores (object_index - 1)) [
      | none ↦ err einval
      | some semaphore ↦
          if not semaphore.valid || not (is_generation semaphore.generation object_id)
          then err einval
          else ok (object_index - 1, semaphore)
    ])
