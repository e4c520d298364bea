-- ===== src/Extension/SysvIpc/Wait/Outcome.antt =====
-- The stop that comes next in a phase, of a tracee that may wait.
use proot_termux.Base.{
  ◌≡◌, refl, Bool-cases, Option-cases, ℕ, ◌⊎◌, inl, inr, Bool, true, false, Option, some, none,
  arith, Result, ok, err, eintr,
}
use proot_termux.Extension.SysvIpc.{Config, calm}
use proot_termux.Extension.SysvIpc.Sem.Wake.{IsWakeable}
use proot_termux.Extension.SysvIpc.Wait.{
  Handler, Retry, Stop, sysvipc_syscall_common, syscall_enter_start, sigsys_occ, syscall_exit_start,
}
use proot_termux.Extension.SysvIpc.Wait.Reach.{
  Phase, outside, restarting, inside, Thread, IsConsistent, Step, reenter, exit, after, EndsChain,
}

-- The outcome of the stop that comes next in a phase.
abbrev pub next_stop : Phase → Handler → Retry → Result ℕ → Config → Option Stop
next_stop inside handler retry ppoll_status config = syscall_exit_start retry ppoll_status config
next_stop _ handler retry ppoll_status config = syscall_enter_start handler retry config

-- The configuration for which that stop calls `sysvipc_msgrcv_retry`.
abbrev pub seen_in : Phase → Config → Config
seen_in inside config = record config { wait_state = calm }
seen_in _ config = config

-- The retry that a tracee was asked for fails an assertion.
abbrev pub IsFailing : Thread → Retry → Type 0
IsFailing t retry = (t.config.retries ≡ true) × (retry (seen_in t.phase t.config) ≡ none)

-- A call that is none of System V IPC, and a retry that finds no message.
abbrev pub no_call : Handler
no_call config = none

abbrev pub interrupts : Retry
interrupts config = some (err eintr, record config { retries = false })

pub interrupts-EndsChain : EndsChain interrupts
interrupts-EndsChain config rested = (refl, rested, refl)

abbrev pub is_stop : Option Stop → Bool
is_stop none = false
is_stop (some stop) = true

pub is_stop-some : (o : Option Stop) → is_stop o ≡ true → (stop : Stop) × (o ≡ some stop)
is_stop-some none h = absurd (ground arith)
is_stop-some (some stop) h = (stop, refl)

-- A stop with a retry that fails no assertion, and one with no retry.
next_stop-is_stop :
    (t : Thread) (handler : Handler) (retry : Retry) (ppoll_status : Result ℕ)
    → IsConsistent t
    → (status : Result ℕ) (left : Config) → retry (seen_in t.phase t.config) ≡ some (status, left)
    → is_stop (next_stop t.phase handler retry ppoll_status t.config) ≡ true
unfolding syscall_enter_start syscall_exit_start sysvipc_syscall_common
next_stop-is_stop t handler retry ppoll_status inv status left e = ground arith

next_stop-no_retry :
    (t : Thread) (handler : Handler) (retry : Retry) (ppoll_status : Result ℕ)
    → IsConsistent t
    → t.config.retries ≡ false
    → is_stop (next_stop t.phase handler retry ppoll_status t.config) ≡ true
unfolding syscall_enter_start syscall_exit_start sysvipc_syscall_common
next_stop-no_retry t handler retry ppoll_status inv e = ground arith

pub next_stop-outcome :
    (t : Thread) (handler : Handler) (retry : Retry) (ppoll_status : Result ℕ)
    → IsConsistent t
    → ((stop : Stop) × (next_stop t.phase handler retry ppoll_status t.config ≡ some stop))
      ⊎ IsFailing t retry
next_stop-outcome t handler retry ppoll_status inv = elim (Bool-cases t.config.retries) [
  | inl asked ↦ elim (Option-cases (retry (seen_in t.phase t.config))) [
    | inl fails ↦ inr (asked, fails)
    | inr ((status, left), e) ↦
        inl (is_stop-some _ (next_stop-is_stop t handler retry ppoll_status inv status left e))
  ]
  | inr unasked ↦ inl (is_stop-some _ (next_stop-no_retry t handler retry ppoll_status inv unasked))
]

pub sigsys-is_stop :
    (t : Thread) (handler : Handler)
    → IsConsistent t
    → t.phase ≡ outside
    → is_stop (sigsys_occ handler t.config) ≡ true
unfolding sigsys_occ sysvipc_syscall_common
sigsys-is_stop t handler inv p = ground arith

pub IsConsistent-IsWakeable : (t : Thread) → IsConsistent t → IsWakeable t.config
IsConsistent-IsWakeable t inv = ground arith

step_of_stop :
    (u : Thread)
    → IsConsistent u
    → (u.phase ≡ restarting) ⊎ (u.phase ≡ inside)
    → (retry : Retry) → EndsChain retry
    → (stop : Stop) → next_stop u.phase no_call retry (ok 0) u.config ≡ some stop
    → (v : Thread) × Step u v
step_of_stop u inv (inl p) retry r stop e =
    let e' : syscall_enter_start no_call retry u.config ≡ some stop = ground arith in
    (after inside stop, reenter p no_call (λ config. tt) retry r e')
step_of_stop u inv (inr p) retry r stop e =
    let e' : syscall_exit_start retry (ok 0) u.config ≡ some stop = ground arith in
    (after outside stop, exit p retry r (ok 0) e')

-- The step that a consistent tracee takes, where its retry, if any, fails no assertion.
pub next_step :
    (u : Thread)
    → IsConsistent u
    → (u.phase ≡ restarting) ⊎ (u.phase ≡ inside)
    → (retry : Retry) → EndsChain retry
    → ¬ IsFailing u retry
    → (v : Thread) × Step u v
next_step u inv phase retry r works = elim (next_stop-outcome u no_call retry (ok 0) inv) [
  | inl (stop, e) ↦ step_of_stop u inv phase retry r stop e
  | inr fails ↦ absurd (works fails)
]
