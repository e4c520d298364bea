-- ===== src/Extension/SysvIpc/Msg/Counts.antt =====
-- The statistics of a queue count its messages and their bytes.
use proot_termux.Base.{
  ℕ, zero, suc, ◌+◌, ◌-◌, ◌%◌, ◌^◌, ◌≡◌, refl, sym, ap, subst, ◌∙◌, true, arith, some, List, [],
  ◌∷◌, ◌++◌, length, length-append, get_elem?, set, All, Result, ok, err, Bool-cases, Option-cases,
  Result-cases, inl, inr,
}
use proot_termux.Extension.SysvIpc.Sem.{has_bit}
use proot_termux.Extension.SysvIpc.Msg.{
  Item, Queue, Receiver, find_item, is_wanted, Write, sysvipc_msg_deliver, delivered_size,
  write_message, received,
}
use proot_termux.Extension.SysvIpc.Msg.Get.{lookup_queue}
use proot_termux.Extension.SysvIpc.Msg.Calls.{
  Queues, enqueued, dequeued, is_refused, take_message, sysvipc_do_msgrcv,
}

abbrev pub total_bytes : List Item → ℕ
total_bytes [] = 0
total_bytes (item ∷ items) = length item.mtext + total_bytes items

-- A queue that is in use has its messages counted.
abbrev pub IsCounted : Queue → Type 0
IsCounted queue =
    queue.valid ≡ true
    → (queue.stats.msg_qnum ≡ length queue.items)
      × (queue.stats.msg_cbytes ≡ total_bytes queue.items)

abbrev pub AllCounted : Queues → Type 0
AllCounted namespace = All IsCounted namespace.queues

total_bytes-append :
    (items more : List Item) → total_bytes (items ++ more) ≡ total_bytes items + total_bytes more
total_bytes-append [] more = omega arith
total_bytes-append (item ∷ items) more = omega (arith, total_bytes-append items more)

find_item-split :
    (receiver : Receiver) (index : ℕ) (items before : List Item) (item : Item) (behind : List Item)
    → find_item receiver index items ≡ some (before, item, behind)
    → items ≡ before ++ item ∷ behind
find_item-split receiver index [] before item behind e = absurd (ground arith)
find_item-split receiver index (first ∷ items) before item behind e =
    elim (Bool-cases (is_wanted receiver index first)) [
      | inl wanted ↦ ground arith
      | inr unwanted ↦ elim (Option-cases (find_item receiver (index + 1) items)) [
        | inl missing ↦ absurd (ground arith)
        | inr ((before', item', behind'), found) ↦
            let later = find_item-split receiver (index + 1) items before' item' behind' found in
            ground arith
      ]
    ]

pub All-set :
    (P : Queue → Type 0) (queues : List Queue) (i : ℕ) (queue : Queue)
    → All P queues
    → P queue
    → All P (set queues i queue)
All-set P [] i queue h p = tt
All-set P (x ∷ queues) zero queue h p = (p, h.1)
All-set P (x ∷ queues) (suc i) queue h p = (h.0, All-set P queues i queue h.1 p)

pub All-get_elem? :
    (P : Queue → Type 0) (queues : List Queue) (i : ℕ) (queue : Queue)
    → All P queues
    → get_elem? queues i ≡ some queue
    → P queue
All-get_elem? P [] i queue h e = absurd (ground arith)
All-get_elem? P (x ∷ queues) zero queue h e =
    let same : x ≡ queue = ground arith in subst P same h.0
All-get_elem? P (x ∷ queues) (suc i) queue h e = All-get_elem? P queues i queue h.1 e

pub lookup_queue-found :
    (sysarg_1 i : ℕ) (queues : List Queue) (queue : Queue)
    → lookup_queue sysarg_1 queues ≡ ok (i, queue)
    → (get_elem? queues i ≡ some queue) × (queue.valid ≡ true)
lookup_queue-found sysarg_1 i queues queue e =
    let index = sysarg_1 % 2 ^ 32 % 2 ^ 12 in
    elim (Option-cases (get_elem? queues (index - 1))) [
      | inl missing ↦ absurd (ground arith)
      | inr (found, here) ↦ ground arith
    ]

pub enqueued-IsCounted :
    (queue : Queue) (item : Item) (pid current_time : ℕ)
    → IsCounted queue
    → IsCounted (enqueued queue item pid current_time)
enqueued-IsCounted queue item pid current_time h valid =
    let (number, bytes) = h valid in
    (
      omega (arith, length-append queue.items (item ∷ [])),
      omega (arith, total_bytes-append queue.items (item ∷ [])),
    )

dequeued-IsCounted :
    (queue : Queue) (before : List Item) (item : Item) (behind : List Item)
    → queue.items ≡ before ++ item ∷ behind
    → IsCounted queue
    → IsCounted (dequeued queue before item behind)
dequeued-IsCounted queue before item behind split h valid =
    let (number, bytes) = h valid in
    let number' : queue.stats.msg_qnum ≡ length (before ++ item ∷ behind) =
      number ∙ ap length split in
    let bytes' : queue.stats.msg_cbytes ≡ total_bytes (before ++ item ∷ behind) =
      bytes ∙ ap total_bytes split in
    (
      omega (arith, length-append before (item ∷ behind), length-append before behind),
      omega (arith, total_bytes-append before (item ∷ behind), total_bytes-append before behind),
    )

deliver-IsCounted :
    (write_data : Write) (receiver : Receiver) (queue : Queue) (item : Item) (current_time n : ℕ)
    (queue' : Queue)
    → sysvipc_msg_deliver write_data receiver queue item current_time ≡ ok (n, queue')
    → received queue receiver current_time ≡ queue'
unfolding sysvipc_msg_deliver
deliver-IsCounted write_data receiver queue item current_time n queue' e =
    elim (Result-cases (delivered_size receiver item)) [
      | inl (code, refused) ↦ absurd (ground arith)
      | inr (size, sized) ↦ elim (Result-cases (write_message write_data receiver item size)) [
        | inl (code, unwritten) ↦ absurd (ground arith)
        | inr (written, done) ↦ ground arith
      ]
    ]

take_message-IsCounted :
    (receiver : Receiver) (queue : Queue) (delivered : Result (ℕ × Queue)) (before : List Item)
    (item : Item) (behind : List Item)
    → queue.items ≡ before ++ item ∷ behind
    → IsCounted queue
    → ((n : ℕ) (queue' : Queue)
        → delivered ≡ ok (n, queue')
        → IsCounted queue' × (queue'.items ≡ queue.items))
    → IsCounted (take_message receiver queue delivered before item behind).2
take_message-IsCounted receiver queue (err e) before item behind split h d = h
take_message-IsCounted receiver queue (ok (n, queue')) before item behind split h d =
    let (counted, same) = d n queue' refl in
    elim (Bool-cases (has_bit receiver.msgrcv_msgflg 14)) [
      | inl copy ↦ rw copy counted
      | inr taken ↦ rw taken (dequeued-IsCounted queue' before item behind (same ∙ split) counted)
    ]

pub sysvipc_do_msgrcv-IsCounted :
    (write_data : Write) (current_time : ℕ) (receiver : Receiver) (queue_index : ℕ) (queue : Queue)
    → IsCounted queue
    → IsCounted (sysvipc_do_msgrcv write_data current_time receiver queue_index queue).2
unfolding sysvipc_do_msgrcv
sysvipc_do_msgrcv-IsCounted write_data current_time receiver queue_index queue h =
    elim (Bool-cases (is_refused receiver)) [
      | inl refused ↦ rw refused h
      | inr fine ↦ elim (Option-cases (find_item receiver 0 queue.items)) [
        | inl missing ↦ elim (Bool-cases (has_bit receiver.msgrcv_msgflg 11)) [
          | inl at_once ↦ rw (fine, missing, at_once) h
          | inr waits ↦ rw (fine, missing, waits) h
        ]
        | inr ((before, item, behind), found) ↦
            rw (fine, found)
              (take_message-IsCounted receiver queue
                (sysvipc_msg_deliver write_data receiver queue item current_time) before item behind
                (find_item-split receiver 0 queue.items before item behind found) h
                (λ n queue' e.
                  let same =
                    deliver-IsCounted write_data receiver queue item current_time n queue' e in
                  (subst IsCounted same h, ap (λ q. q.items) (sym same))))
      ]
    ]
