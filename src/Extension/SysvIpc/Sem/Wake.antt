-- ===== src/Extension/SysvIpc/Sem/Wake.antt =====
-- The assertions of `sysvipc_wake_tracee` hold in semop(2) and semctl(2).
use proot_termux.Base.{
  ℕ, ◌≡◌, refl, Bool, true, false, not, ◌||◌, Option, some, none, List, [], ◌∷◌, All, arith,
  Bool-cases, Option-cases, inl, inr, Result, err, set, eidrm,
}
use proot_termux.Extension.SysvIpc.{
  Semaphore, Config, Namespace, WaitState, WaitReason, wait_semop, is_waiting, wake_state, resume,
  sysvipc_wake_tracee,
}
use proot_termux.Extension.SysvIpc.Sem.Calls.{
  waits_for, is_wait_semop, wake_all, semctl_rmid, removed,
}

abbrev is_some : Option WaitState → Bool
is_some none = false
is_some (some state) = true

-- A tracee that waits is in one of the two states in which it can be woken.
abbrev pub can_wake : Config → Bool
can_wake config = not (is_waiting config.wait_reason) || is_some (wake_state config.wait_state)

abbrev pub IsWakeable : Config → Type 0
IsWakeable config = can_wake config ≡ true

wait_semop-waits : (reason : WaitReason) → is_wait_semop reason ≡ true → is_waiting reason ≡ true
wait_semop-waits wait_semop h = refl
wait_semop-waits _ h = ground arith

-- A wake-up has its state, and leaves a tracee that does not wait.
sysvipc_wake_tracee-some :
    (config : Config) (status : Result ℕ)
    → IsWakeable config
    → is_waiting config.wait_reason ≡ true
    → (config' : Config) × (sysvipc_wake_tracee config status ≡ some config') × IsWakeable config'
sysvipc_wake_tracee-some config status w h = elim (Option-cases (wake_state config.wait_state)) [
  | inl stuck ↦ absurd (ground arith)
  | inr (state, e) ↦ (resume config status state, ground arith, refl)
]

waits_for-waits :
    (semaphore_index : ℕ) (config : Config)
    → waits_for semaphore_index config ≡ true
    → is_waiting config.wait_reason ≡ true
waits_for-waits semaphore_index config h = wait_semop-waits config.wait_reason (ground arith)

wake_all-some :
    (semaphore_index : ℕ) (configs : List Config)
    → All IsWakeable configs
    → (configs' : List Config) × (wake_all semaphore_index configs ≡ some configs')
      × All IsWakeable configs'
wake_all-some semaphore_index [] w = ([], refl, tt)
wake_all-some semaphore_index (config ∷ configs) w =
    let (configs', e, w') = wake_all-some semaphore_index configs w.1 in
    elim (Bool-cases (waits_for semaphore_index config)) [
      | inr other ↦ (config ∷ configs', ground arith, (w.0, w'))
      | inl waits ↦
          let (woken, e', w'') =
            sysvipc_wake_tracee-some config (err eidrm) w.0
              (waits_for-waits semaphore_index config waits) in
          (woken ∷ configs', ground arith, (w'', w'))
    ]

-- Where each tracee of the namespace that waits is in a state in which it can be woken, IPC_RMID
-- fails no assertion, removes the semaphore, and leaves each tracee so.
pub semctl_rmid-some :
    (semaphore_index : ℕ) (semaphore : Semaphore) (namespace : Namespace)
    → All IsWakeable namespace.configs
    → (namespace' : Namespace) × (semctl_rmid semaphore_index semaphore namespace ≡ some namespace')
      × (namespace'.semaphores ≡ set namespace.semaphores semaphore_index (removed semaphore))
      × All IsWakeable namespace'.configs
semctl_rmid-some semaphore_index semaphore namespace w =
    let (configs, e, w') = wake_all-some semaphore_index namespace.configs w in
    let left = set namespace.semaphores semaphore_index (removed semaphore) in
    (record { semaphores = left; configs = configs }, ground arith, refl, w')
