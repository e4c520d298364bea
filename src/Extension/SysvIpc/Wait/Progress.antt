-- ===== src/Extension/SysvIpc/Wait/Progress.antt =====
-- What a reachable tracee comes to: which stops fail an assertion, and how a wait ends.
use proot_termux.Base.{◌≡◌, ℕ, ◌⊎◌, true, false, some, arith, Result, err, eintr, efault}
use proot_termux.Extension.SysvIpc.{Config, is_waiting}
use proot_termux.Extension.SysvIpc.Wait.{Retry, Stop, syscall_exit_start}
use proot_termux.Extension.SysvIpc.Wait.Reach.{
  outside, inside, Thread, Reach, IsConsistent, Reach-IsConsistent, Step, after,
}
use proot_termux.Extension.SysvIpc.Wait.Woken.{IsAnswered, IsRetried}

-- What comes of a tracee that was woken with a status.
abbrev pub IsWokenWith : Thread → Config → Result ℕ → Type 0
IsWokenWith t woken status =
    ((v : Thread) × Step (record t { config = woken }) v)
    × ((v : Thread) → Step (record t { config = woken }) v → IsAnswered v status)

-- What comes of one that was also asked to try again.
abbrev pub IsNotified : Thread → Config → Type 0
IsNotified t woken =
    ((v : Thread) × Step (record t { config = woken }) v)
    × ((v : Thread) → Step (record t { config = woken }) v → IsRetried t.phase woken v)

exit-refused :
    (t : Thread) (stop : Stop) (retry : Retry) (ppoll_status : Result ℕ)
    → IsConsistent t
    → t.phase ≡ inside
    → is_waiting t.config.wait_reason ≡ true
    → syscall_exit_start retry ppoll_status t.config ≡ some stop
    → ((stop.reply ≡ some (err eintr)) ⊎ (stop.reply ≡ some (err efault)))
      × IsConsistent (after outside stop)
unfolding syscall_exit_start
exit-refused t stop retry ppoll_status inv p waits e = ground arith

-- In every reachable state in which a tracee waits inside the kernel, the exit of ppoll(2) ends the
-- wait with EINTR or EFAULT, whatever ppoll(2) returned, and the tracee waits no more.
pub exit-err :
    {t : Thread} {stop : Stop}
    → Reach t
    → t.phase ≡ inside
    → is_waiting t.config.wait_reason ≡ true
    → (retry : Retry) (ppoll_status : Result ℕ)
    → syscall_exit_start retry ppoll_status t.config ≡ some stop
    → ((stop.reply ≡ some (err eintr)) ⊎ (stop.reply ≡ some (err efault)))
      × (is_waiting stop.config.wait_reason ≡ false)
exit-err {t} {stop} reached p waits retry ppoll_status e =
    let (refused, inv) =
      exit-refused t stop retry ppoll_status (Reach-IsConsistent reached) p waits e in
    (refused, ground arith)
