-- ===== src/Tests/Messages.antt =====
-- Message queues at concrete calls.
use proot_termux.Base.{
  ℕ, ◌≡◌, refl, true, false, some, none, List, [], ◌∷◌, All, Result, ok, err, eagain, arith,
}
use proot_termux.Extension.SysvIpc.{
  negsuc, calm, not_waiting, wait_queue_recv, entered_ppoll, signaled_ppoll, is_waiting,
}
use proot_termux.Extension.SysvIpc.Msg.{Item, Stats, Queue, Receiver, Write}
use proot_termux.Extension.SysvIpc.Msg.Get.{no_stats, sysvipc_msgget}
use proot_termux.Extension.SysvIpc.Msg.Calls.{
  Queues, Sent, Args, sysvipc_do_msgrcv, sysvipc_msgsnd, sysvipc_msgrcv, sysvipc_msgctl,
  sysvipc_msgrcv_retry,
}
use proot_termux.Extension.SysvIpc.Msg.First.{IsUnmatched, TakesFirst, sysvipc_do_msgrcv-first}
use proot_termux.Extension.SysvIpc.Msg.Counts.{IsCounted, AllCounted}
use proot_termux.Extension.SysvIpc.Msg.Invariant.{sysvipc_msg-AllCounted}

abbrev hello : Item
hello = record { mtype = 5; mtext = b'h' ∷ b'i' ∷ [] }

abbrev reply : Item
reply = record { mtype = 2; mtext = b'o' ∷ [] }

abbrev counts : Stats
counts = record no_stats { msg_qnum = 2; msg_cbytes = 3 }

abbrev two_messages : Queue
two_messages = record {
  key = 7;
  generation = 0;
  valid = true;
  items = hello ∷ reply ∷ [];
  stats = counts;
}

abbrev writes : Write
writes address bytes = ok tt

-- A tracee that asks for the types up to 3.
abbrev asks_three : Receiver
asks_three = record {
  pid = 9;
  config = record {
    wait_reason = not_waiting;
    wait_state = calm;
    status_after_wait = ok 0;
    waiting_object_index = 0;
    semop_sops = [];
    retries = false;
  };
  msgrcv_msgp = 4096;
  msgrcv_msgsz = 10;
  msgrcv_msgtyp = negsuc 2;
  msgrcv_msgflg = 0;
}

abbrev one_left : Queue
one_left = record two_messages {
  items = hello ∷ [];
  stats = record counts { msg_qnum = 1; msg_cbytes = 2; msg_lrpid = 9; msg_rtime = 50 };
}

takes_reply : sysvipc_do_msgrcv writes 50 asks_three 0 two_messages ≡ (ok 1, asks_three, one_left)
unfolding sysvipc_do_msgrcv
takes_reply = refl

sysvipc_do_msgrcv-first_example :
    (is_waiting asks_three.config.wait_reason ≡ false
      → TakesFirst asks_three two_messages one_left 1)
    × (is_waiting asks_three.config.wait_reason ≡ true
        → All (IsUnmatched asks_three) two_messages.items × (one_left ≡ two_messages))
sysvipc_do_msgrcv-first_example =
    sysvipc_do_msgrcv-first writes 50 0 1 asks_three asks_three two_messages one_left (ground arith)
      refl refl takes_reply

-- A tracee that waits for that queue.
abbrev sleeping : Receiver
sleeping = record asks_three {
  config = record asks_three.config { wait_reason = wait_queue_recv; wait_state = entered_ppoll };
}

abbrev office : Queues
office = record { queues = two_messages ∷ []; receivers = sleeping ∷ [] }

office-AllCounted : AllCounted office
office-AllCounted = (λ valid. (refl, refl), tt)

abbrev letter : Sent
letter = record { read_type = ok 1; read_text = λ n. ok (b'x' ∷ []) }

-- The message wakes the tracee that waits for it.
letter_wakes :
    sysvipc_msgsnd letter 8 60 1 1 office
    ≡ some (
      ok 0,
      record {
        queues =
            record two_messages {
              items = hello ∷ reply ∷ record { mtype = 1; mtext = b'x' ∷ [] } ∷ [];
              stats = record counts { msg_qnum = 3; msg_cbytes = 4; msg_lspid = 8; msg_stime = 60 };
            }
            ∷ [];
        receivers =
            record sleeping {
              config = record sleeping.config {
                wait_reason = not_waiting;
                wait_state = signaled_ppoll;
                status_after_wait = err eagain;
                retries = true;
              };
            }
            ∷ [];
      },
    )
unfolding sysvipc_msgsnd
letter_wakes = refl

sysvipc_msg-AllCounted_example :
    ((queue_id msgflg id : ℕ) (queues : List Queue)
      → sysvipc_msgget queue_id msgflg office.queues ≡ ok (id, queues)
      → All IsCounted queues)
    × ((sent : Sent) (pid current_time sysarg_1 msgsz : ℕ) (result : Result ℕ) (namespace' : Queues)
        → sysvipc_msgsnd sent pid current_time sysarg_1 msgsz office ≡ some (result, namespace')
        → AllCounted namespace')
    × ((write_data : Write) (current_time me : ℕ) (receiver : Receiver) (args : Args) (sysarg_1 : ℕ)
        → AllCounted (sysvipc_msgrcv write_data current_time me receiver args sysarg_1 office).1)
    × ((write_stats : Stats → Result (Unit {0})) (sysarg_1 sysarg_2 : ℕ) (result : Result ℕ)
          (namespace' : Queues)
        → sysvipc_msgctl write_stats sysarg_1 sysarg_2 office ≡ some (result, namespace')
        → AllCounted namespace')
sysvipc_msg-AllCounted_example = sysvipc_msg-AllCounted office office-AllCounted

-- The tracee that the message woke tries again after the queue was removed: the assertion that the
-- queue is valid fails.
abbrev removed_office : Queues
removed_office = record {
  queues = record two_messages { valid = false; generation = 1; items = [] } ∷ [];
  receivers = sleeping ∷ [];
}

abbrev woken : Receiver
woken = record sleeping {
  config = record sleeping.config {
    wait_reason = not_waiting;
    wait_state = signaled_ppoll;
    status_after_wait = err eagain;
    retries = true;
  };
}

retry_fails : sysvipc_msgrcv_retry writes 70 0 woken removed_office ≡ none
unfolding sysvipc_msgrcv_retry
retry_fails = refl
