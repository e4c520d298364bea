-- ===== src/Tests/Waits.antt =====
-- A tracee that waits, at concrete stops.
use proot_termux.Base.{
  ℕ, ◌∷◌, ◌≡◌, refl, ◌⊎◌, true, false, some, none, [], Result, ok, err, eintr, efault, eagain,
}
use proot_termux.Extension.SysvIpc.{
  pos, Config, calm, signaled_ppoll, not_waiting, wait_queue_recv, entered_ppoll, is_waiting,
}
use proot_termux.Extension.SysvIpc.Wait.{
  Handler, Stop, unchanged, sysvipc_syscall_common, syscall_enter_start, syscall_exit_start,
}
use proot_termux.Extension.SysvIpc.Wait.Reach.{
  outside, inside, Thread, enter, Reach, start, later, IsConsistent, Reach-IsConsistent,
}
use proot_termux.Extension.SysvIpc.Wait.Progress.{exit-err}
use proot_termux.Extension.SysvIpc.Wait.Outcome.{interrupts, interrupts-EndsChain}
use proot_termux.Extension.SysvIpc.Wait.Retry.{retry_of}
use proot_termux.Extension.SysvIpc.Msg.{Receiver, Write}
use proot_termux.Extension.SysvIpc.Msg.Calls.{Queues, sysvipc_msgrcv_retry}

abbrev idle : Config
idle = record {
  wait_reason = not_waiting;
  wait_state = calm;
  status_after_wait = ok 0;
  waiting_object_index = 0;
  semop_sops = [];
  retries = false;
}

-- A msgrcv(2) that finds no message.
abbrev blocks : Handler
blocks config = some (ok 0, 0, record config { wait_reason = wait_queue_recv })

abbrev at_user : Thread
at_user = record { phase = outside; config = idle; traced = false; reply = none }

abbrev asleep : Thread
asleep = record {
  phase = inside;
  config = record idle { wait_reason = wait_queue_recv; wait_state = entered_ppoll };
  traced = true;
  reply = none;
}

Reach-asleep : Reach asleep
unfolding syscall_enter_start sysvipc_syscall_common
Reach-asleep =
    later {t = at_user} (start refl refl refl refl)
      (enter refl blocks (λ config. (refl, refl)) interrupts interrupts-EndsChain refl)

abbrev interrupted : Stop
interrupted = record {
  config = idle;
  sysnum = unchanged;
  traced = false;
  restarted = false;
  reply = some (err eintr);
}

Reach-IsConsistent_example : IsConsistent asleep
Reach-IsConsistent_example = Reach-IsConsistent Reach-asleep

-- A message came, but its queue was removed before the tracee tried again.
abbrev receiver : Receiver
receiver = record {
  pid = 9;
  config = idle;
  msgrcv_msgp = 4096;
  msgrcv_msgsz = 10;
  msgrcv_msgtyp = pos 0;
  msgrcv_msgflg = 0;
}

abbrev no_queue : Queues
no_queue = record { queues = []; receivers = receiver ∷ [] }

abbrev asked : Thread
asked = record asleep {
  config = record idle {
    wait_state = signaled_ppoll;
    status_after_wait = err eagain;
    retries = true;
  };
}

abbrev writes : Write
writes address bytes = ok tt

-- There the assertion fails.
asked_fails :
    syscall_exit_start (retry_of writes 70 0 receiver no_queue) (err eintr) asked.config ≡ none
unfolding syscall_exit_start sysvipc_msgrcv_retry
asked_fails = refl

abbrev again : Result ℕ
again = err eagain

exit-err_example :
    ((interrupted.reply ≡ some (err eintr)) ⊎ (interrupted.reply ≡ some (err efault)))
    × (is_waiting interrupted.config.wait_reason ≡ false)
unfolding syscall_exit_start
exit-err_example = exit-err {stop = interrupted} Reach-asleep refl refl interrupts (err eagain) refl
