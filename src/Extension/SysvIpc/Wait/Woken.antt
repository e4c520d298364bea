-- ===== src/Extension/SysvIpc/Wait/Woken.antt =====
-- What a wake-up leaves of a tracee, and what the next stop gives it.
use proot_termux.Base.{
  ◌≡◌, refl, sym, Option-cases, ℕ, inl, inr, Bool, true, false, Option, some, none, arith, subst,
  ap, Result,
}
use proot_termux.Extension.SysvIpc.{
  Config, calm, restarted_into_ppoll_canceled, signaled_ppoll, is_waiting, sysvipc_wake_tracee,
}
use proot_termux.Extension.SysvIpc.Wait.{
  Handler, Retry, Stop, status_of_wait, syscall_enter_start, syscall_exit_start, canceled,
  enter_start_in,
}
use proot_termux.Extension.SysvIpc.Wait.Reach.{
  Phase, outside, restarting, inside, Thread, IsConsistent, Step, enter, sigsys, reenter, exit,
  no_exit, wake, notify, after, EndsChain,
}
use proot_termux.Extension.SysvIpc.Wait.Outcome.{seen_in}

abbrev pub is_waking : Option Config → Bool
is_waking none = false
is_waking (some woken) = true

pub is_waking-some : (o : Option Config) → is_waking o ≡ true → (woken : Config) × (o ≡ some woken)
is_waking-some none h = absurd (ground arith)
is_waking-some (some woken) h = (woken, refl)

pub wake-is_waking :
    (t : Thread) (status : Result ℕ)
    → IsConsistent t
    → is_waiting t.config.wait_reason ≡ true
    → is_waking (sysvipc_wake_tracee t.config status) ≡ true
wake-is_waking t status inv waits = ground arith

-- A tracee to which its result was given, and that waits no more.
pub record IsAnswered (u : Thread) (status : Result ℕ) : Type 0 where
  pub replied : u.reply ≡ some status
  pub rested : u.config.wait_state ≡ calm
  pub unblocked : is_waiting u.config.wait_reason ≡ false

abbrev pub is_phase : Phase → Phase → Bool
is_phase outside outside = true
is_phase restarting restarting = true
is_phase inside inside = true
is_phase _ _ = false

-- What a wake-up leaves, by the phase of the tracee.
pub woken_state :
    (t : Thread) (woken : Config) (status : Result ℕ)
    → IsConsistent t
    → is_waiting t.config.wait_reason ≡ true
    → sysvipc_wake_tracee t.config status ≡ some woken
    → (woken.status_after_wait ≡ status)
      × (woken.retries ≡ false)
      × (is_waiting woken.wait_reason ≡ false)
      × (is_phase outside t.phase ≡ false)
      × (t.phase ≡ restarting → woken.wait_state ≡ restarted_into_ppoll_canceled)
      × (t.phase ≡ inside → (woken.wait_state ≡ signaled_ppoll) × (t.traced ≡ true))
woken_state t woken status inv waits e = ground arith

-- The result that the next stop gives, and that some retry gave it where the tracee was asked to try
-- again.
abbrev pub IsAnsweredBy : Phase → Config → Retry → Thread → Type 0
IsAnsweredBy phase woken retry v =
    (status : Result ℕ) × (left : Config) × (status_of_wait retry (seen_in phase woken)
      ≡ some (status, left))
    × IsAnswered v status

reenter-IsAnswered :
    (handler : Handler) (retry : Retry) (woken : Config) (stop : Stop)
    → EndsChain retry
    → woken.wait_state ≡ restarted_into_ppoll_canceled
    → is_waiting woken.wait_reason ≡ false
    → syscall_enter_start handler retry woken ≡ some stop
    → IsAnsweredBy restarting woken retry (after inside stop)
unfolding syscall_enter_start enter_start_in
reenter-IsAnswered handler retry woken stop ok_retry state rested e =
    let run : syscall_enter_start handler retry woken ≡ canceled retry woken =
      ap (λ s. enter_start_in s handler retry woken) state in
    elim (Option-cases (status_of_wait retry woken)) [
      | inl fails ↦ absurd (ground arith)
      | inr ((status, left), given) ↦ (status, left, given, ground (arith, ok_retry woken rested))
    ]

exit-IsAnswered :
    (retry : Retry) (ppoll_status : Result ℕ) (woken : Config) (stop : Stop)
    → EndsChain retry
    → woken.wait_state ≡ signaled_ppoll
    → is_waiting woken.wait_reason ≡ false
    → syscall_exit_start retry ppoll_status woken ≡ some stop
    → IsAnsweredBy inside woken retry (after outside stop)
unfolding syscall_exit_start
exit-IsAnswered retry ppoll_status woken stop ok_retry state rested e =
    let seen = record woken { wait_state = calm } in
    elim (Option-cases (status_of_wait retry seen)) [
      | inl fails ↦ absurd (ground arith)
      | inr ((status, left), given) ↦ (status, left, given, ground (arith, ok_retry seen rested))
    ]

-- The result that a step after a wake-up gives, by a retry if one was asked for.
abbrev pub IsAnsweredBySome : Phase → Config → Thread → Type 0
IsAnsweredBySome phase woken v =
    (retry : Retry) × EndsChain retry × IsAnsweredBy phase woken retry v

pub Step-IsAnsweredBySome :
    {u v : Thread}
    → Step u v
    → is_waiting u.config.wait_reason ≡ false
    → is_phase outside u.phase ≡ false
    → (u.phase ≡ restarting → u.config.wait_state ≡ restarted_into_ppoll_canceled)
    → (u.phase ≡ inside → (u.config.wait_state ≡ signaled_ppoll) × (u.traced ≡ true))
    → IsAnsweredBySome u.phase u.config v
Step-IsAnsweredBySome (enter p handler h retry r e) rested away at_entry at_exit =
    absurd (ground arith)
Step-IsAnsweredBySome (sigsys p handler h e) rested away at_entry at_exit = absurd (ground arith)
Step-IsAnsweredBySome (reenter {t} {stop} p handler h retry r e) rested away at_entry at_exit = (
  retry,
  r,
  subst (λ phase. IsAnsweredBy phase t.config retry (after inside stop)) (sym p)
      (reenter-IsAnswered handler retry t.config stop r (at_entry p) rested e),
)
Step-IsAnsweredBySome (exit {t} {stop} p retry r ppoll_status e) rested away at_entry at_exit = (
  retry,
  r,
  subst (λ phase. IsAnsweredBy phase t.config retry (after outside stop)) (sym p)
      (exit-IsAnswered retry ppoll_status t.config stop r (at_exit p).0 rested e),
)
Step-IsAnsweredBySome (no_exit p untraced) rested away at_entry at_exit =
    absurd (ground (arith, at_exit p))
Step-IsAnsweredBySome (wake status waits e) rested away at_entry at_exit = absurd (ground arith)
Step-IsAnsweredBySome (notify waits e) rested away at_entry at_exit = absurd (ground arith)

pub unasked-IsAnswered :
    (phase : Phase) (woken : Config) (v : Thread)
    → woken.retries ≡ false
    → IsAnsweredBySome phase woken v
    → IsAnswered v woken.status_after_wait
unasked-IsAnswered inside woken v unasked (retry, r, (status, left, given, done)) =
    subst (IsAnswered v) (ground arith) done
unasked-IsAnswered outside woken v unasked (retry, r, (status, left, given, done)) =
    subst (IsAnswered v) (ground arith) done
unasked-IsAnswered restarting woken v unasked (retry, r, (status, left, given, done)) =
    subst (IsAnswered v) (ground arith) done

-- The result that a tracee which was asked to try again is given: that of a retry.
abbrev pub IsRetried : Phase → Config → Thread → Type 0
IsRetried phase woken v =
    (retry : Retry) × EndsChain retry
    × (status : Result ℕ) × (left : Config) × (retry (seen_in phase woken) ≡ some (status, left))
    × IsAnswered v status

pub asked-IsRetried :
    (phase : Phase) (woken : Config) (v : Thread)
    → woken.retries ≡ true
    → IsAnsweredBySome phase woken v
    → IsRetried phase woken v
asked-IsRetried inside woken v asked (retry, r, (status, left, given, done)) =
    (retry, r, status, left, ground arith, done)
asked-IsRetried outside woken v asked (retry, r, (status, left, given, done)) =
    (retry, r, status, left, ground arith, done)
asked-IsRetried restarting woken v asked (retry, r, (status, left, given, done)) =
    (retry, r, status, left, ground arith, done)
