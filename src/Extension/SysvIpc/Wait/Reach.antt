-- ===== src/Extension/SysvIpc/Wait/Reach.antt =====
-- The stops of one tracee, in the orders in which they come, and what holds at each.
use proot_termux.Base.{
  ◌≡◌, Bool, true, false, not, ◌&&◌, Option, some, none, arith, ℕ, Result, err, eagain,
  if◌then◌else◌,
}
use proot_termux.Extension.SysvIpc.{
  Config, wait_queue_recv, WaitState, calm, restarted_into_ppoll, restarted_into_ppoll_canceled,
  entered_ppoll, signaled_ppoll, entered_getpid, is_waiting, sysvipc_wake_tracee,
}
use proot_termux.Extension.SysvIpc.Wait.{
  Handled, Handler, Retry, Stop, sysvipc_syscall_common, syscall_enter_start, sigsys_occ,
  syscall_exit_start,
}

-- Where a tracee stands: in its own code, before the stop at the entry of a call that was restarted
-- after SIGSYS, or in the kernel, before the stop at the exit of the call.
pub data Phase : Type 0 where
  outside restarting inside : Phase

-- A tracee; whether a stop at the exit is certain to follow; the last result given to it.
pub record Thread : Type 0 where
  pub phase : Phase
  pub config : Config
  pub traced : Bool
  pub reply : Option (Result ℕ)

abbrev pub after : Phase → Stop → Thread
after phase stop = record {
  phase = phase;
  config = stop.config;
  traced = stop.traced;
  reply = stop.reply;
}

abbrev pub after_sigsys : Stop → Thread
after_sigsys stop = after (if stop.restarted then restarting else outside) stop

-- A handler leaves `wait_state` and the retry to sysvipc.c.
abbrev pub LeftBy : Config → Handled → Type 0
LeftBy config none = Unit
LeftBy config (some (status, timeout, left)) =
    (left.wait_state ≡ config.wait_state) × (left.retries ≡ config.retries)

abbrev pub IsHandler : Handler → Type 0
IsHandler handler = (config : Config) → LeftBy config (handler config)

-- A retry clears `chain_state`, leaves `wait_state` as it is, and does not wait, which
-- `sysvipc_msgrcv_retry-EndsChain` shows of `sysvipc_msgrcv_retry`.
abbrev pub RetriedFrom : Config → Option (Result ℕ × Config) → Type 0
RetriedFrom config none = Unit
RetriedFrom config (some (status, left)) =
    (left.wait_state ≡ config.wait_state)
    × (is_waiting left.wait_reason ≡ false)
    × (left.retries ≡ false)

abbrev pub EndsChain : Retry → Type 0
EndsChain retry =
    (config : Config) → is_waiting config.wait_reason ≡ false → RetriedFrom config (retry config)

-- The order of the stops is the one of the event loop; a call whose exit is not traced may end with
-- no stop. Another tracee may wake this one at any time; msgsnd(2) asks for a retry by `notify`.
pub data Step : Thread → Thread → Type 0 where
  enter :
      {t : Thread} {stop : Stop}
      → t.phase ≡ outside
      → (handler : Handler) → IsHandler handler
      → (retry : Retry) → EndsChain retry
      → syscall_enter_start handler retry t.config ≡ some stop
      → Step t (after inside stop)
  sigsys :
      {t : Thread} {stop : Stop}
      → t.phase ≡ outside
      → (handler : Handler) → IsHandler handler
      → sigsys_occ handler t.config ≡ some stop
      → Step t (after_sigsys stop)
  reenter :
      {t : Thread} {stop : Stop}
      → t.phase ≡ restarting
      → (handler : Handler) → IsHandler handler
      → (retry : Retry) → EndsChain retry
      → syscall_enter_start handler retry t.config ≡ some stop
      → Step t (after inside stop)
  exit :
      {t : Thread} {stop : Stop}
      → t.phase ≡ inside
      → (retry : Retry) → EndsChain retry
      → (ppoll_status : Result ℕ) → syscall_exit_start retry ppoll_status t.config ≡ some stop
      → Step t (after outside stop)
  no_exit :
      {t : Thread} → t.phase ≡ inside → t.traced ≡ false → Step t (record t { phase = outside })
  wake :
      {t : Thread} {woken : Config}
      → (status : Result ℕ) → is_waiting t.config.wait_reason ≡ true
      → sysvipc_wake_tracee t.config status ≡ some woken
      → Step t (record t { config = woken })
  notify :
      {t : Thread} {woken : Config}
      → t.config.wait_reason ≡ wait_queue_recv
      → sysvipc_wake_tracee t.config (err eagain) ≡ some woken
      → Step t (record t { config = record woken { retries = true } })

-- A tracee begins in its own code, in a configuration that INITIALIZATION and INHERIT_CHILD cleared.
pub data Reach : Thread → Type 0 where
  start :
      {t : Thread}
      → t.phase ≡ outside
      → t.config.wait_state ≡ calm
      → is_waiting t.config.wait_reason ≡ false
      → t.config.retries ≡ false
      → Reach t
  later : {t u : Thread} → Reach t → Step t u → Reach u

-- Which states a phase has, and in which of them the tracee waits, or may have to try again.
abbrev pub fits : Phase → WaitState → Bool → Bool → Bool → Bool
fits outside calm waits traced retries = not waits && not retries
fits restarting restarted_into_ppoll waits traced retries = waits && not retries
fits restarting restarted_into_ppoll_canceled waits traced retries = not waits
fits inside calm waits traced retries = not waits && not retries
fits inside entered_ppoll waits traced retries = waits && traced && not retries
fits inside signaled_ppoll waits traced retries = not waits && traced
fits inside entered_getpid waits traced retries = not waits && traced && not retries
fits _ _ waits traced retries = false

abbrev pub IsConsistent : Thread → Type 0
IsConsistent t =
    fits t.phase t.config.wait_state (is_waiting t.config.wait_reason) t.traced t.config.retries
    ≡ true

enter-IsConsistent :
    (handler : Handler) (retry : Retry) (t : Thread) (stop : Stop)
    → IsHandler handler
    → IsConsistent t
    → t.phase ≡ outside
    → syscall_enter_start handler retry t.config ≡ some stop
    → IsConsistent (after inside stop)
unfolding syscall_enter_start sysvipc_syscall_common
enter-IsConsistent handler retry t stop ok_handler inv at_user e =
    ground (arith, ok_handler t.config)

sigsys-IsConsistent :
    (handler : Handler) (t : Thread) (stop : Stop)
    → IsHandler handler
    → IsConsistent t
    → t.phase ≡ outside
    → sigsys_occ handler t.config ≡ some stop
    → IsConsistent (after_sigsys stop)
unfolding sigsys_occ sysvipc_syscall_common
sigsys-IsConsistent handler t stop ok_handler inv at_user e = ground (arith, ok_handler t.config)

reenter-IsConsistent :
    (handler : Handler) (retry : Retry) (t : Thread) (stop : Stop)
    → EndsChain retry
    → IsConsistent t
    → t.phase ≡ restarting
    → syscall_enter_start handler retry t.config ≡ some stop
    → IsConsistent (after inside stop)
unfolding syscall_enter_start sysvipc_syscall_common
reenter-IsConsistent handler retry t stop ok_retry inv p e = ground (arith, ok_retry t.config)

exit-IsConsistent :
    (retry : Retry) (ppoll_status : Result ℕ) (t : Thread) (stop : Stop)
    → EndsChain retry
    → IsConsistent t
    → t.phase ≡ inside
    → syscall_exit_start retry ppoll_status t.config ≡ some stop
    → IsConsistent (after outside stop)
unfolding syscall_exit_start
exit-IsConsistent retry ppoll_status t stop ok_retry inv p e =
    ground (arith, ok_retry (record t.config { wait_state = calm }))

no_exit-IsConsistent :
    (t : Thread)
    → IsConsistent t
    → t.phase ≡ inside
    → t.traced ≡ false
    → IsConsistent (record t { phase = outside })
no_exit-IsConsistent t inv p e = ground arith

wake-IsConsistent :
    (status : Result ℕ) (t : Thread) (woken : Config)
    → IsConsistent t
    → is_waiting t.config.wait_reason ≡ true
    → sysvipc_wake_tracee t.config status ≡ some woken
    → IsConsistent (record t { config = woken })
wake-IsConsistent status t woken inv waits e = ground arith

notify-IsConsistent :
    (t : Thread) (woken : Config)
    → IsConsistent t
    → t.config.wait_reason ≡ wait_queue_recv
    → sysvipc_wake_tracee t.config (err eagain) ≡ some woken
    → IsConsistent (record t { config = record woken { retries = true } })
notify-IsConsistent t woken inv waits e = ground arith

Step-IsConsistent : {t u : Thread} → Step t u → IsConsistent t → IsConsistent u
Step-IsConsistent (enter {t} {stop} p handler h retry r e) inv =
    enter-IsConsistent handler retry t stop h inv p e
Step-IsConsistent (sigsys {t} {stop} p handler h e) inv =
    sigsys-IsConsistent handler t stop h inv p e
Step-IsConsistent (reenter {t} {stop} p handler h retry r e) inv =
    reenter-IsConsistent handler retry t stop r inv p e
Step-IsConsistent (exit {t} {stop} p retry r ppoll_status e) inv =
    exit-IsConsistent retry ppoll_status t stop r inv p e
Step-IsConsistent (no_exit {t} p e) inv = no_exit-IsConsistent t inv p e
Step-IsConsistent (wake {t} {woken} status waits e) inv =
    wake-IsConsistent status t woken inv waits e
Step-IsConsistent (notify {t} {woken} waits e) inv = notify-IsConsistent t woken inv waits e

-- In every reachable state of a tracee, `wait_state` is one that its phase allows, and the tracee
-- has a reason to wait exactly where `wait_state` is that of a tracee in ppoll(2), or on its way
-- there. It has a message to try again for only if it was woken.
pub Reach-IsConsistent : {t : Thread} → Reach t → IsConsistent t
Reach-IsConsistent (start p calm_at_first idle unchained) = ground arith
Reach-IsConsistent (later reached step) = Step-IsConsistent step (Reach-IsConsistent reached)
