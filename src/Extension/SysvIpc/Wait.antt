-- ===== src/Extension/SysvIpc/Wait.antt =====
-- How a tracee is made to wait, of proot/src/extension/sysvipc/sysvipc.c: `sysvipc_syscall_common`
-- and the stops of `sysvipc_callback`, for a tracee whose `chain_state` is CSTATE_NOT_CHAINED or
-- CSTATE_MSGRCV_RETRY. None is a failed assertion.
pub mod Reach
pub mod Retry
pub mod Outcome
pub mod Woken
pub mod Progress
use proot_termux.Base.{
  ℕ, Bool, true, false, not, Option, some, none, if◌then◌else◌, Result, ok, err, Errno, efault,
  eintr,
}
use proot_termux.Extension.SysvIpc.{
  Config, WaitReason, not_waiting, wait_semop, WaitState, calm, restarted_into_ppoll_canceled,
  restarted_into_ppoll, entered_ppoll, signaled_ppoll, entered_getpid, is_waiting,
}
use proot_termux.Extension.SysvIpc.Sem.Calls.{sysvipc_semop_timedout}

-- The number that a stop leaves in the register of the system call.
-- `ppoll` has the third argument of that call, the others being 0.
pub data Sysnum : Type 0 where
  unchanged getpid avoider : Sysnum
  ppoll : ℕ → Sysnum

-- What a stop leaves: the configuration, the number of the call, whether `restart_how` was made
-- PTRACE_SYSCALL, whether the call is restarted after SIGSYS, and the result given to the tracee.
pub record Stop : Type 0 where
  pub config : Config
  pub sysnum : Sysnum
  pub traced : Bool
  pub restarted : Bool
  pub reply : Option (Result ℕ)

-- A stop that changes nothing, and returns 0.
abbrev pub ignored : Config → Stop
ignored config = record {
  config = config;
  sysnum = unchanged;
  traced = false;
  restarted = false;
  reply = none;
}

abbrev pub is_calm : WaitState → Bool
is_calm calm = true
is_calm _ = false

-- The branch of a handler that asked for a wait.
abbrev pub into_ppoll : Bool → ℕ → Config → Stop
into_ppoll from_sigsys timeout config = record {
  config = record config {
    wait_state = if from_sigsys then restarted_into_ppoll else entered_ppoll;
  };
  sysnum = ppoll timeout;
  traced = true;
  restarted = from_sigsys;
  reply = none;
}

-- The branch of a handler that has its result.
abbrev pub at_once : Bool → Result ℕ → Config → Stop
at_once true status config = record {
  config = config;
  sysnum = unchanged;
  traced = false;
  restarted = false;
  reply = some status;
}
at_once false status config = record {
  config = record config { status_after_wait = status; wait_state = entered_getpid };
  sysnum = getpid;
  traced = true;
  restarted = false;
  reply = none;
}

-- The `switch` on the system call: what the handler returned, the timeout, which is 0 for all but
-- semtimedop(2), and the configuration that the handler left; or none where the call is not one of
-- System V IPC.
abbrev pub Handled : Type 0
Handled = Option (Result ℕ × ℕ × Config)

abbrev pub Handler : Type 0
Handler = Config → Handled

abbrev pub handled : Bool → Handled → Config → Stop
handled from_sigsys none config = ignored config
handled from_sigsys (some (status, timeout, left)) config =
    if is_waiting left.wait_reason
    then into_ppoll from_sigsys timeout left
    else at_once from_sigsys status left

unfoldable pub sysvipc_syscall_common : Bool → Handler → Config → Option Stop
sysvipc_syscall_common from_sigsys handler config =
    if is_calm config.wait_state then some (handled from_sigsys (handler config) config) else none

-- `sysvipc_msgrcv_retry` for the tracee: the result, and the configuration that it leaves.
abbrev pub Retry : Type 0
Retry = Config → Option (Result ℕ × Config)

-- The result of a wait that was woken, and of a call that did not wait.
abbrev pub status_of_wait : Retry → Config → Option (Result ℕ × Config)
status_of_wait retry config =
    if config.retries then retry config else some (config.status_after_wait, config)

-- The number is PR_void, which the kernel does not run.
abbrev pub canceled_with : Option (Result ℕ × Config) → Option Stop
canceled_with none = none
canceled_with (some (status, left)) = some (record {
  config = record left { wait_state = calm };
  sysnum = avoider;
  traced = false;
  restarted = false;
  reply = some status;
})

abbrev pub canceled : Retry → Config → Option Stop
canceled retry config = canceled_with (status_of_wait retry config)

-- SYSCALL_ENTER_START. The number of a call that was restarted is the one set, which the source
-- asserts.
abbrev pub enter_start_in : WaitState → Handler → Retry → Config → Option Stop
unfolding sysvipc_syscall_common
enter_start_in calm handler retry config = sysvipc_syscall_common false handler config
enter_start_in restarted_into_ppoll handler retry config = some (record {
  config = record config { wait_state = entered_ppoll };
  sysnum = unchanged;
  traced = true;
  restarted = false;
  reply = none;
})
enter_start_in restarted_into_ppoll_canceled handler retry config = canceled retry config
enter_start_in _ handler retry config = none

unfoldable pub syscall_enter_start : Handler → Retry → Config → Option Stop
syscall_enter_start handler retry config = enter_start_in config.wait_state handler retry config

-- SIGSYS_OCC.
unfoldable pub sigsys_occ : Handler → Config → Option Stop
unfolding sysvipc_syscall_common
sigsys_occ handler config = sysvipc_syscall_common true handler config

-- The wait that ppoll(2) ended by itself.
abbrev pub timed_out : WaitReason → Config → Option Config
timed_out not_waiting config = none
timed_out wait_semop config = some (sysvipc_semop_timedout config)
timed_out _ config = some (record config { wait_reason = not_waiting })

abbrev pub keeps_status : Errno → Bool
keeps_status efault = true
keeps_status eintr = true
keeps_status _ = false

-- The result that the tracee sees, of the one that ppoll(2) gave.
abbrev pub ppoll_reply : Result ℕ → Result ℕ
ppoll_reply (ok _) = err eintr
ppoll_reply (err code) = if keeps_status code then err code else err eintr

abbrev pub exit_with : Config → Result ℕ → Stop
exit_with config status = record {
  config = config;
  sysnum = unchanged;
  traced = false;
  restarted = false;
  reply = some status;
}

-- The end of a wait that was woken, and of a call that did not wait.
abbrev pub done_with : Option (Result ℕ × Config) → Option Stop
done_with none = none
done_with (some (status, left)) = some (exit_with left status)

abbrev pub exit_done : Retry → Config → Option Stop
exit_done retry config =
    if is_waiting config.wait_reason
    then none
    else done_with (status_of_wait retry (record config { wait_state = calm }))

abbrev pub exit_start_in : WaitState → Retry → Result ℕ → Config → Option Stop
exit_start_in calm retry ppoll_status config = some (ignored config)
exit_start_in entered_ppoll retry ppoll_status config =
    elim (timed_out config.wait_reason (record config { wait_state = calm })) [
      | none ↦ none
      | some left ↦ some (exit_with left (ppoll_reply ppoll_status))
    ]
exit_start_in signaled_ppoll retry ppoll_status config = exit_done retry config
exit_start_in entered_getpid retry ppoll_status config = exit_done retry config
exit_start_in _ retry ppoll_status config = none

-- SYSCALL_EXIT_START; `ppoll_status` is the result in the register.
unfoldable pub syscall_exit_start : Retry → Result ℕ → Config → Option Stop
syscall_exit_start retry ppoll_status config =
    exit_start_in config.wait_state retry ppoll_status config
