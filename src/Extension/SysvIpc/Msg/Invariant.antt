-- ===== src/Extension/SysvIpc/Msg/Invariant.antt =====
-- Each system call on message queues keeps the counts of all queues.
use proot_termux.Base.{
  ℕ, ◌%◌, ◌^◌, ◌≡◌, refl, subst, ◌&&◌, ◌||◌, ◌==◌, arith, ltb, leb, Option, some, none, List, [],
  ◌∷◌, ◌++◌, length, get_or, All, All-append, Result, ok, err, Bool-cases, Option-cases,
  Result-cases, inl, inr,
}
use proot_termux.Extension.SysvIpc.Sem.{has_bit}
use proot_termux.Extension.SysvIpc.Msg.{sysvipc_max_msg_size, Item, Stats, Queue, Receiver, Write}
use proot_termux.Extension.SysvIpc.Msg.Get.{
  no_queue, new_queue, search_queue, msgget_at, create_queue, found_queue, no_such_queue,
  QueueSearch, sysvipc_msgget, lookup_queue,
}
use proot_termux.Extension.SysvIpc.Msg.Calls.{
  Queues, send, Sent, sysvipc_msgsnd, wake_receiver, Args, called_with, sysvipc_msgrcv,
  removed_queue, wake_receivers, msgctl_rmid, sysvipc_msgctl,
}
use proot_termux.Extension.SysvIpc.Msg.Counts.{
  IsCounted, AllCounted, All-set, All-get_elem?, lookup_queue-found, enqueued-IsCounted,
  sysvipc_do_msgrcv-IsCounted,
}

new_queue-IsCounted : (old : Queue) (queue_id : ℕ) → IsCounted (new_queue old queue_id)
new_queue-IsCounted old queue_id valid = (refl, refl)

no_queue-IsCounted : IsCounted no_queue
no_queue-IsCounted valid = (refl, refl)

create_queue-AllCounted :
    (queues : List Queue) (unused_slot : Option ℕ) (queue_id : ℕ)
    → All IsCounted queues
    → All IsCounted (create_queue queues unused_slot queue_id).1
create_queue-AllCounted queues (some slot) queue_id h =
    All-set IsCounted queues slot _ h (new_queue-IsCounted (get_or queues slot no_queue) queue_id)
create_queue-AllCounted queues none queue_id h =
    let more = queues ++ no_queue ∷ [] in
    All-set IsCounted more (length queues) _
      (All-append IsCounted queues (no_queue ∷ []) h (no_queue-IsCounted, tt))
      (new_queue-IsCounted (get_or more (length queues) no_queue) queue_id)

-- What a call leaves, if it leaves anything.
abbrev KeepsGet : Result (ℕ × List Queue) → Type 0
KeepsGet (err e) = Unit
KeepsGet (ok (id, queues)) = All IsCounted queues

msgget_at-KeepsGet :
    (queues : List Queue) (search : QueueSearch) (queue_id msgflg : ℕ)
    → All IsCounted queues
    → KeepsGet (msgget_at queues search queue_id msgflg)
msgget_at-KeepsGet queues (no_such_queue unused_slot) queue_id msgflg h =
    elim (Bool-cases (has_bit msgflg 9)) [
      | inl create ↦ rw create (create_queue-AllCounted queues unused_slot queue_id h)
      | inr only_find ↦ rw only_find tt
    ]
msgget_at-KeepsGet queues (found_queue i queue) queue_id msgflg h =
    elim (Bool-cases (has_bit msgflg 9 && has_bit msgflg 10)) [
      | inl exclusive ↦ rw exclusive tt
      | inr shared ↦ rw shared h
    ]

abbrev Keeps : Option (Result ℕ × Queues) → Type 0
Keeps none = Unit
Keeps (some (result, namespace)) = AllCounted namespace

send-Keeps :
    (queue_index : ℕ) (queue : Queue) (item : Item) (pid current_time : ℕ) (namespace : Queues)
    → AllCounted namespace
    → IsCounted queue
    → Keeps (send queue_index queue item pid current_time namespace)
send-Keeps queue_index queue item pid current_time namespace h counted =
    elim (Option-cases (wake_receiver queue_index item namespace.receivers)) [
      | inl failed ↦ rw (Keeps, send, failed) tt
      | inr (receivers, woken) ↦
          rw (Keeps, send, woken)
            (All-set IsCounted namespace.queues queue_index _ h
              (enqueued-IsCounted queue item pid current_time counted))
    ]

msgsnd-Keeps :
    (sent : Sent) (pid current_time sysarg_1 msgsz : ℕ) (namespace : Queues)
    → AllCounted namespace
    → Keeps (sysvipc_msgsnd sent pid current_time sysarg_1 msgsz namespace)
unfolding sysvipc_msgsnd
msgsnd-Keeps sent pid current_time sysarg_1 msgsz namespace h =
    elim (Result-cases (lookup_queue sysarg_1 namespace.queues)) [
      | inl (e, missing) ↦ rw (Keeps, sysvipc_msgsnd, missing) h
      | inr ((i, queue), found) ↦
          let (here, valid) = lookup_queue-found sysarg_1 i namespace.queues queue found in
          let counted = All-get_elem? IsCounted namespace.queues i queue h here in
          elim (Bool-cases (ltb sysvipc_max_msg_size msgsz)) [
            | inl large ↦ rw (Keeps, sysvipc_msgsnd, found, large) h
            | inr small ↦ elim (Result-cases sent.read_type) [
              | inl (e, unread) ↦ rw (Keeps, sysvipc_msgsnd, found, small, unread) h
              | inr (mtype, typed) ↦ elim (Bool-cases (mtype == 0 || leb (2 ^ 63) mtype)) [
                | inl bad ↦ rw (Keeps, sysvipc_msgsnd, found, small, typed, bad) h
                | inr good ↦ elim (Result-cases (sent.read_text msgsz)) [
                  | inl (e, unread) ↦
                      rw (Keeps, sysvipc_msgsnd, found, small, typed, good, unread) h
                  | inr (mtext, text) ↦
                      let item : Item = record { mtype = mtype; mtext = mtext } in
                      rw (Keeps, sysvipc_msgsnd, found, small, typed, good, text)
                        (send-Keeps i queue item pid current_time namespace h counted)
                ]
              ]
            ]
          ]
    ]

msgrcv-AllCounted :
    (write_data : Write) (current_time me : ℕ) (receiver : Receiver) (args : Args) (sysarg_1 : ℕ)
    (namespace : Queues)
    → AllCounted namespace
    → AllCounted (sysvipc_msgrcv write_data current_time me receiver args sysarg_1 namespace).1
unfolding sysvipc_msgrcv
msgrcv-AllCounted write_data current_time me receiver args sysarg_1 namespace h =
    elim (Result-cases (lookup_queue sysarg_1 namespace.queues)) [
      | inl (e, missing) ↦ rw (sysvipc_msgrcv, missing) h
      | inr ((i, queue), found) ↦
          let (here, valid) = lookup_queue-found sysarg_1 i namespace.queues queue found in
          let counted = All-get_elem? IsCounted namespace.queues i queue h here in
          rw (sysvipc_msgrcv, found)
            (All-set IsCounted namespace.queues i _ h (
              sysvipc_do_msgrcv-IsCounted write_data current_time (called_with receiver args) i
                queue counted))
    ]

removed_queue-IsCounted : (queue : Queue) → IsCounted (removed_queue queue)
removed_queue-IsCounted queue valid = absurd (ground arith)

msgctl-Keeps :
    (write_stats : Stats → Result (Unit {0})) (sysarg_1 sysarg_2 : ℕ) (namespace : Queues)
    → AllCounted namespace
    → Keeps (sysvipc_msgctl write_stats sysarg_1 sysarg_2 namespace)
unfolding sysvipc_msgctl
msgctl-Keeps write_stats sysarg_1 sysarg_2 namespace h =
    let cmd = sysarg_2 % 2 ^ 32 in
    elim (Result-cases (lookup_queue sysarg_1 namespace.queues)) [
      | inl (e, missing) ↦ rw (Keeps, sysvipc_msgctl, msgctl_rmid, missing) h
      | inr ((i, queue), found) ↦ elim (Bool-cases (cmd == 0 || cmd == 256)) [
        | inl removal ↦ elim (Option-cases (wake_receivers i namespace.receivers)) [
          | inl failed ↦ rw (Keeps, sysvipc_msgctl, msgctl_rmid, found, removal, failed) tt
          | inr (receivers, woken) ↦
              rw (Keeps, sysvipc_msgctl, msgctl_rmid, found, removal, woken)
                (All-set IsCounted namespace.queues i _ h (removed_queue-IsCounted queue))
        ]
        | inr other ↦ elim (Bool-cases (cmd == 2 || cmd == 258)) [
          | inl stat ↦ rw (Keeps, sysvipc_msgctl, msgctl_rmid, found, other, stat) h
          | inr unknown ↦ rw (Keeps, sysvipc_msgctl, msgctl_rmid, found, other, unknown) h
        ]
      ]
    ]

-- In a namespace in which each queue in use has its number of messages and their bytes in its
-- statistics, each of msgget(2), msgsnd(2), msgrcv(2) and msgctl(2), with any arguments, leaves it
-- so, unless an assertion fails.
pub sysvipc_msg-AllCounted :
    (namespace : Queues)
    → AllCounted namespace
    → ((queue_id msgflg id : ℕ) (queues : List Queue)
        → sysvipc_msgget queue_id msgflg namespace.queues ≡ ok (id, queues)
        → All IsCounted queues)
      × ((sent : Sent) (pid current_time sysarg_1 msgsz : ℕ) (result : Result ℕ)
            (namespace' : Queues)
          → sysvipc_msgsnd sent pid current_time sysarg_1 msgsz namespace
            ≡ some (result, namespace')
          → AllCounted namespace')
      × ((write_data : Write) (current_time me : ℕ) (receiver : Receiver) (args : Args)
            (sysarg_1 : ℕ)
          → AllCounted
              (sysvipc_msgrcv write_data current_time me receiver args sysarg_1 namespace).1)
      × ((write_stats : Stats → Result (Unit {0})) (sysarg_1 sysarg_2 : ℕ) (result : Result ℕ)
            (namespace' : Queues)
          → sysvipc_msgctl write_stats sysarg_1 sysarg_2 namespace ≡ some (result, namespace')
          → AllCounted namespace')
unfolding sysvipc_msgget
sysvipc_msg-AllCounted namespace h = (
  λ queue_id msgflg id queues e. subst KeepsGet e (
      msgget_at-KeepsGet namespace.queues (search_queue namespace.queues queue_id 0 none) queue_id
        msgflg h),
  λ sent pid current_time sysarg_1 msgsz result namespace' e.
      subst Keeps e (msgsnd-Keeps sent pid current_time sysarg_1 msgsz namespace h),
  λ write_data current_time me receiver args sysarg_1.
      msgrcv-AllCounted write_data current_time me receiver args sysarg_1 namespace h,
  λ write_stats sysarg_1 sysarg_2 result namespace' e.
      subst Keeps e (msgctl-Keeps write_stats sysarg_1 sysarg_2 namespace h),
)
