-- ===== src/Extension/SysvIpc/Msg/Calls.antt =====
-- msgsnd(2), msgrcv(2) and msgctl(2), of proot/src/extension/sysvipc/sysvipc_msg.c, on a
-- namespace. None is a failed assertion.
use proot_termux.Base.{
  ℕ, ◌+◌, ◌-◌, ◌/◌, ◌%◌, ◌^◌, Bool, true, false, ◌&&◌, ◌||◌, not, Option, some, none, ◌==◌,
  if◌then◌else◌, ltb, leb, List, [], ◌∷◌, ◌++◌, length, get_elem?, set, Bytes, Errno, Result, ok,
  err, einval, eagain, enomsg, eidrm, eintr,
}
use proot_termux.Extension.SysvIpc.{
  WaitReason, not_waiting, wait_queue_recv, is_waiting, sysvipc_wake_tracee,
}
use proot_termux.Extension.SysvIpc.Sem.{has_bit}
use proot_termux.Extension.SysvIpc.Msg.Get.{lookup_queue}
use proot_termux.Extension.SysvIpc.Msg.{
  sysvipc_max_msg_size, Item, Stats, Queue, Receiver, to_int, sysvipc_msg_match, find_item, Write,
  sysvipc_msg_deliver,
}

-- The queues of a namespace, and its tracees in the order of the list of tracees.
pub record Queues : Type 0 where
  pub queues : List Queue
  pub receivers : List Receiver

abbrev pub is_wait_recv : WaitReason → Bool
is_wait_recv wait_queue_recv = true
is_wait_recv _ = false

abbrev pub waits_on : ℕ → Receiver → Bool
waits_on queue_index receiver =
    is_wait_recv receiver.config.wait_reason && receiver.config.waiting_object_index == queue_index

-- The loop over the tracees in `sysvipc_msgsnd`, which stops at the first that the message is for.
abbrev pub wake_receiver : ℕ → Item → List Receiver → Option (List Receiver)
wake_receiver queue_index item [] = some []
wake_receiver queue_index item (receiver ∷ receivers) =
    let rest : Option (List Receiver) = elim (wake_receiver queue_index item receivers) [
      | none ↦ none
      | some receivers' ↦ some (receiver ∷ receivers')
    ] in
    if waits_on queue_index receiver
      && sysvipc_msg_match item.mtype receiver.msgrcv_msgtyp receiver.msgrcv_msgflg
    then (elim (sysvipc_wake_tracee receiver.config (err eagain)) [
      | none ↦ none
      | some woken ↦ some (record receiver { config = record woken { retries = true } } ∷ receivers)
    ])
    else rest

-- A queue with one more message, from the tracee `pid`.
abbrev pub enqueued : Queue → Item → ℕ → ℕ → Queue
enqueued queue item pid current_time = record queue {
  items = queue.items ++ item ∷ [];
  stats = record queue.stats {
    msg_lspid = pid;
    msg_stime = current_time;
    msg_qnum = queue.stats.msg_qnum + 1;
    msg_cbytes = queue.stats.msg_cbytes + length item.mtext;
  };
}

abbrev pub send : ℕ → Queue → Item → ℕ → ℕ → Queues → Option (Result ℕ × Queues)
send queue_index queue item pid current_time namespace =
    elim (wake_receiver queue_index item namespace.receivers) [
      | none ↦ none
      | some receivers ↦ some (
        ok 0,
        record {
          queues = set namespace.queues queue_index (enqueued queue item pid current_time);
          receivers = receivers;
        },
      )
    ]

-- What `read_data` answers for the type of the message and for its text.
pub record Sent : Type 0 where
  pub read_type : Result ℕ
  pub read_text : ℕ → Result Bytes

-- The type is a `long`, whose bit pattern is from 2 ^ 63 on if it is negative.
unfoldable pub sysvipc_msgsnd : Sent → ℕ → ℕ → ℕ → ℕ → Queues → Option (Result ℕ × Queues)
sysvipc_msgsnd sent pid current_time sysarg_1 msgsz namespace =
    elim (lookup_queue sysarg_1 namespace.queues) [
      | err e ↦ some (err e, namespace)
      | ok (queue_index, queue) ↦
          if ltb sysvipc_max_msg_size msgsz
          then some (err einval, namespace)
          else (elim sent.read_type [
            | err e ↦ some (err e, namespace)
            | ok mtype ↦
                if mtype == 0 || leb (2 ^ 63) mtype
                then some (err einval, namespace)
                else (elim (sent.read_text msgsz) [
                  | err e ↦ some (err e, namespace)
                  | ok mtext ↦
                      send queue_index queue (record { mtype = mtype; mtext = mtext }) pid
                        current_time namespace
                ])
          ])
    ]

-- The flags and the size that `sysvipc_do_msgrcv` refuses.
abbrev pub is_refused : Receiver → Bool
is_refused receiver =
    let msgflg = receiver.msgrcv_msgflg in
    leb (2 ^ 31) (receiver.msgrcv_msgsz % 2 ^ 32)
    || not (msgflg % 2 ^ 11 == 0)
    || not (msgflg / 2 ^ 15 == 0)
    || (has_bit msgflg 14 && (not (has_bit msgflg 11) || has_bit msgflg 13))

abbrev pub wait_for_message : Receiver → ℕ → Receiver
wait_for_message receiver queue_index = record receiver {
  config = record receiver.config {
    wait_reason = wait_queue_recv;
    waiting_object_index = queue_index;
  };
}

abbrev pub dequeued : Queue → List Item → Item → List Item → Queue
dequeued queue before item behind = record queue {
  items = before ++ behind;
  stats = record queue.stats {
    msg_qnum = queue.stats.msg_qnum - 1;
    msg_cbytes = queue.stats.msg_cbytes - length item.mtext;
  };
}

-- The result, the receiver and the queue.
abbrev pub Received : Type 0
Received = Result ℕ × Receiver × Queue

abbrev pub take_message :
    Receiver → Queue → Result (ℕ × Queue) → List Item → Item → List Item → Received
take_message receiver queue (err e) before item behind = (err e, receiver, queue)
take_message receiver queue (ok (msgsz, queue')) before item behind =
    if has_bit receiver.msgrcv_msgflg 14
    then (ok msgsz, receiver, queue')
    else (ok msgsz, receiver, dequeued queue' before item behind)

unfoldable pub sysvipc_do_msgrcv : Write → ℕ → Receiver → ℕ → Queue → Received
unfolding sysvipc_msg_deliver
sysvipc_do_msgrcv write_data current_time receiver queue_index queue =
    if is_refused receiver
    then (err einval, receiver, queue)
    else (elim (find_item receiver 0 queue.items) [
      | none ↦
          if has_bit receiver.msgrcv_msgflg 11
          then (err enomsg, receiver, queue)
          else (ok 0, wait_for_message receiver queue_index, queue)
      | some (before, item, behind) ↦
          take_message receiver queue
            (sysvipc_msg_deliver write_data receiver queue item current_time) before item behind
    ])

-- A call that the queue with the index answers.
abbrev pub put_back : ℕ → ℕ → Received → Queues → Result ℕ × Queues
put_back me queue_index (result, receiver, queue) namespace = (
  result,
  record {
    queues = set namespace.queues queue_index queue;
    receivers = set namespace.receivers me receiver;
  },
)

-- The arguments of msgrcv(2) behind the queue.
pub record Args : Type 0 where
  pub msgp : ℕ
  pub msgsz : ℕ
  pub msgtyp : ℕ
  pub msgflg : ℕ

abbrev pub called_with : Receiver → Args → Receiver
called_with receiver args = record receiver {
  msgrcv_msgp = args.msgp;
  msgrcv_msgsz = args.msgsz;
  msgrcv_msgtyp = to_int args.msgtyp;
  msgrcv_msgflg = args.msgflg % 2 ^ 32;
}

-- The caller is the tracee at `me`.
unfoldable pub sysvipc_msgrcv : Write → ℕ → ℕ → Receiver → Args → ℕ → Queues → Result ℕ × Queues
unfolding sysvipc_do_msgrcv
sysvipc_msgrcv write_data current_time me receiver args sysarg_1 namespace =
    elim (lookup_queue sysarg_1 namespace.queues) [
      | err e ↦ (err e, namespace)
      | ok (queue_index, queue) ↦
          put_back me queue_index
            (sysvipc_do_msgrcv write_data current_time (called_with receiver args) queue_index
              queue)
            namespace
    ]

-- The tracee when its retry ends, which waits no more.
abbrev pub unchained : Receiver → Receiver
unchained receiver = record receiver {
  config = record receiver.config { wait_reason = not_waiting; retries = false };
}

-- A retry that would wait is a spurious wake-up.
abbrev pub retried : Received → Received
retried (result, receiver, queue) =
    let status = if is_waiting receiver.config.wait_reason then err eintr else result in
    (status, unchained receiver, queue)

abbrev pub is_eagain : Errno → Bool
is_eagain eagain = true
is_eagain _ = false

abbrev pub retry_in : Write → ℕ → ℕ → Receiver → Queues → Option Queue → Option (Result ℕ × Queues)
unfolding sysvipc_do_msgrcv
retry_in write_data current_time me receiver namespace none = none
retry_in write_data current_time me receiver namespace (some queue) =
    let queue_index = receiver.config.waiting_object_index in
    if not queue.valid
    then none
    else some (
        put_back me queue_index
          (retried (sysvipc_do_msgrcv write_data current_time receiver queue_index queue))
          namespace)

abbrev pub not_retried : ℕ → Receiver → Result ℕ → Queues → Option (Result ℕ × Queues)
not_retried me receiver result namespace = some (
  result,
  record namespace {
    receivers =
        set namespace.receivers me
          (record receiver { config = record receiver.config { retries = false } });
  },
)

unfoldable pub sysvipc_msgrcv_retry : Write → ℕ → ℕ → Receiver → Queues → Option (Result ℕ × Queues)
unfolding retry_in
sysvipc_msgrcv_retry write_data current_time me receiver namespace =
    if not receiver.config.retries then none else (elim receiver.config.status_after_wait [
      | ok _ ↦ not_retried me receiver (ok 0) namespace
      | err e ↦
          if is_eagain e
          then retry_in write_data current_time me receiver namespace
              (get_elem? namespace.queues receiver.config.waiting_object_index)
          else not_retried me receiver (err e) namespace
    ])

-- The tracees that wait for a queue that goes away.
abbrev pub wake_receivers : ℕ → List Receiver → Option (List Receiver)
wake_receivers queue_index [] = some []
wake_receivers queue_index (receiver ∷ receivers) =
    let step : Option Receiver =
      if waits_on queue_index receiver
      then (elim (sysvipc_wake_tracee receiver.config (err eidrm)) [
        | none ↦ none
        | some woken ↦ some (record receiver { config = woken })
      ])
      else some receiver in
    elim step [
      | none ↦ none
      | some receiver' ↦ elim (wake_receivers queue_index receivers) [
        | none ↦ none
        | some receivers' ↦ some (receiver' ∷ receivers')
      ]
    ]

abbrev pub removed_queue : Queue → Queue
removed_queue queue = record queue {
  valid = false;
  generation = (queue.generation + 1) % 2 ^ 16;
  items = [];
}

abbrev pub msgctl_rmid : ℕ → Queue → Queues → Option (Result ℕ × Queues)
msgctl_rmid queue_index queue namespace = elim (wake_receivers queue_index namespace.receivers) [
  | none ↦ none
  | some receivers ↦ some (
    ok 0,
    record {
      queues = set namespace.queues queue_index (removed_queue queue);
      receivers = receivers;
    },
  )
]

abbrev pub msgctl_stat : Result (Unit {0}) → Result ℕ
msgctl_stat (err e) = err e
msgctl_stat (ok _) = ok 0

-- The commands are IPC_RMID and IPC_STAT, with SYSVIPC_IPC_64 or without. `write_stats` is what
-- `write_data` answers for the statistics of a queue.
unfoldable pub sysvipc_msgctl :
    (Stats → Result (Unit {0})) → ℕ → ℕ → Queues → Option (Result ℕ × Queues)
sysvipc_msgctl write_stats sysarg_1 sysarg_2 namespace =
    elim (lookup_queue sysarg_1 namespace.queues) [
      | err e ↦ some (err e, namespace)
      | ok (queue_index, queue) ↦
          let cmd = sysarg_2 % 2 ^ 32 in
          if cmd == 0 || cmd == 256
          then msgctl_rmid queue_index queue namespace
          else if cmd == 2 || cmd == 258
          then some (msgctl_stat (write_stats queue.stats), namespace)
          else some (err einval, namespace)
    ]
