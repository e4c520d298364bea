-- ===== src/Extension/SysvIpc/Wait/Retry.antt =====
-- `sysvipc_msgrcv_retry` of proot/src/extension/sysvipc/sysvipc_msg.c, as the stops of a tracee call
-- it.
use proot_termux.Base.{
  ℕ, ◌<◌, ◌≡◌, ◌⊎◌, inl, inr, Option-cases, true, false, Option, some, none, arith, Result, err,
  eagain, List, length, get_or, get_elem?, get_or-set_self,
}
use proot_termux.Extension.SysvIpc.{Config}
use proot_termux.Extension.SysvIpc.Msg.{Queue, Receiver, Write}
use proot_termux.Extension.SysvIpc.Msg.Calls.{
  Queues, sysvipc_do_msgrcv, unchained, sysvipc_msgrcv_retry,
}
use proot_termux.Extension.SysvIpc.Wait.{Retry}
use proot_termux.Extension.SysvIpc.Wait.Reach.{EndsChain}

-- The configuration that is left is that of the tracee at `me`.
abbrev pub left_by : ℕ → Receiver → Option (Result ℕ × Queues) → Option (Result ℕ × Config)
left_by me receiver none = none
left_by me receiver (some (status, namespace)) =
    some (status, (get_or namespace.receivers me receiver).config)

abbrev pub retry_of : Write → ℕ → ℕ → Receiver → Queues → Retry
retry_of write_data current_time me receiver namespace config = left_by me receiver (
    sysvipc_msgrcv_retry write_data current_time me (record receiver { config = config }) namespace)

-- A tracee is to try again at a queue that is not there.
abbrev pub IsGone : List Queue → Config → Type 0
IsGone queues config =
    (config.retries ≡ true)
    × (config.status_after_wait ≡ err eagain)
    × ((get_elem? queues config.waiting_object_index ≡ none)
        ⊎ ((queue : Queue) × (get_elem? queues config.waiting_object_index ≡ some queue)
            × (queue.valid ≡ false)))

wait_state-sysvipc_do_msgrcv :
    (write_data : Write) (current_time : ℕ) (receiver : Receiver) (queue_index : ℕ) (queue : Queue)
    → (sysvipc_do_msgrcv write_data current_time receiver queue_index queue).1.config.wait_state
      ≡ receiver.config.wait_state
unfolding sysvipc_do_msgrcv
wait_state-sysvipc_do_msgrcv write_data current_time receiver queue_index queue = ground arith

module _ (write_data : Write) (current_time me : ℕ) (receiver : Receiver) (namespace : Queues) where
  -- A tracee of the namespace that tries again ends its chain, is given a result, and does not wait.
  pub sysvipc_msgrcv_retry-EndsChain :
      me < length namespace.receivers
      → EndsChain (retry_of write_data current_time me receiver namespace)
  unfolding sysvipc_msgrcv_retry
  sysvipc_msgrcv_retry-EndsChain inside config rested =
      let caller = record receiver { config = config } in
      let at_once = record caller { config = record config { retries = false } } in
      let kept = get_or-set_self namespace.receivers me at_once receiver inside in
      elim (Option-cases (get_elem? namespace.queues config.waiting_object_index)) [
        | inl missing ↦ ground (arith, kept)
        | inr (queue, found) ↦
            let index = config.waiting_object_index in
            let received = sysvipc_do_msgrcv write_data current_time caller index queue in
            ground (
              arith,
              kept,
              get_or-set_self namespace.receivers me (unchained received.1) receiver inside,
              wait_state-sysvipc_do_msgrcv write_data current_time caller index queue,
            )
      ]

  -- The assertions of the retry fail only where the queue is gone.
  pub sysvipc_msgrcv_retry-none :
      (config : Config)
      → config.retries ≡ true
      → retry_of write_data current_time me receiver namespace config ≡ none
      → IsGone namespace.queues config
  unfolding sysvipc_msgrcv_retry
  sysvipc_msgrcv_retry-none config asked e =
      elim (Option-cases (get_elem? namespace.queues config.waiting_object_index)) [
        | inl missing ↦ (asked, ground arith, inl missing)
        | inr (queue, found) ↦ (asked, ground arith, inr (queue, found, ground arith))
      ]
