-- ===== src/Extension/SysvIpc/Msg.antt =====
-- The message queues, of proot/src/extension/sysvipc/sysvipc_msg.c. What the memory of a tracee holds
-- and the time are arguments, and allocation does not fail.
pub mod Get
pub mod Calls
pub mod Counts
pub mod First
pub mod Invariant
use proot_termux.Base.{
  ℕ, zero, suc, ◌+◌, ◌-◌, ◌*◌, ◌/◌, ◌%◌, ◌^◌, bit_and, Bool, true, false, ◌&&◌, ◌||◌, not, Option,
  some, none, ◌==◌, if◌then◌else◌, ltb, leb, List, [], ◌∷◌, ◌++◌, length, take, get_or, get_elem?,
  set, Bytes, Result, ok, err, einval, enoent, eexist, eagain, e2big, enomsg, eidrm,
}
use proot_termux.Extension.SysvIpc.{
  ℤ, pos, negsuc, Config, WaitReason, wait_queue_recv, sysvipc_wake_tracee, ipc_object_id,
  is_generation,
}
use proot_termux.Extension.SysvIpc.Sem.{has_bit}

abbrev pub sysvipc_max_msg_size : ℕ
sysvipc_max_msg_size = 0xffff

-- `struct SysVIpcMsgQueueItem`; the length is that of `mtext`.
pub record Item : Type 0 where
  pub mtype : ℕ
  pub mtext : Bytes

-- `struct msqid_ds`, but for its permissions.
pub record Stats : Type 0 where
  pub msg_qnum : ℕ
  pub msg_cbytes : ℕ
  pub msg_qbytes : ℕ
  pub msg_lspid : ℕ
  pub msg_lrpid : ℕ
  pub msg_stime : ℕ
  pub msg_rtime : ℕ

-- `struct SysVIpcMsgQueue`; freed `items` are the empty list.
pub record Queue : Type 0 where
  pub key : ℕ
  pub generation : ℕ
  pub valid : Bool
  pub items : List Item
  pub stats : Stats

-- A tracee: its pid, its part of the wait mechanism, and what msgrcv(2) was called with. The filter is signed; size and flags are bit patterns.
pub record Receiver : Type 0 where
  pub pid : ℕ
  pub config : Config
  pub msgrcv_msgp : ℕ
  pub msgrcv_msgsz : ℕ
  pub msgrcv_msgtyp : ℤ
  pub msgrcv_msgflg : ℕ

-- A `long` or a word, cut to an `int`.
abbrev pub to_int : ℕ → ℤ
to_int n = let low = n % 2 ^ 32 in if ltb low (2 ^ 31) then pos low else negsuc (2 ^ 32 - 1 - low)

-- The flags IPC_NOWAIT, MSG_NOERROR, MSG_EXCEPT and MSG_COPY are the bits 11, 12, 13 and 14.
abbrev pub is_type : ℤ → ℤ → Bool
is_type (pos m) (pos n) = n == 0 || m == n
is_type (negsuc m) (pos n) = n == 0
is_type (pos m) (negsuc n) = leb m (n + 1)
is_type (negsuc m) (negsuc n) = true

-- The negation of a filter that is INT_MIN, which overflows, is taken for 2 ^ 31.
abbrev pub sysvipc_msg_match : ℕ → ℤ → ℕ → Bool
sysvipc_msg_match sender_type receiver_filter receiver_flag =
    let matched = is_type (to_int sender_type) receiver_filter in
    if has_bit receiver_flag 13 then not matched else matched

-- The first message that is taken, with those before and behind it: by its place or by its type.
abbrev pub copied : ℤ → ℕ → Bool
copied (pos n) index = n == index
copied (negsuc n) index = false

abbrev pub is_wanted : Receiver → ℕ → Item → Bool
is_wanted receiver index item =
    if has_bit receiver.msgrcv_msgflg 14
    then copied receiver.msgrcv_msgtyp index
    else sysvipc_msg_match item.mtype receiver.msgrcv_msgtyp receiver.msgrcv_msgflg

abbrev pub find_item : Receiver → ℕ → List Item → Option (List Item × Item × List Item)
find_item receiver index [] = none
find_item receiver index (item ∷ items) =
    let rest : Option (List Item × Item × List Item) = elim (find_item receiver (index + 1) items) [
      | none ↦ none
      | some (before, found, behind) ↦ some (item ∷ before, found, behind)
    ] in
    if is_wanted receiver index item then some ([], item, items) else rest

-- `write_data`: what was written, at which address, or the error.
abbrev pub Write : Type 0
Write = ℕ → Bytes → Result (Unit {0})

-- The 8 bytes of a `long`.
abbrev pub long_bytes : ℕ → ℕ → Bytes
long_bytes zero n = []
long_bytes (suc left) n = n % 256 ∷ long_bytes left (n / 256)

abbrev pub delivered_size : Receiver → Item → Result ℕ
delivered_size receiver msg =
    if ltb receiver.msgrcv_msgsz (length msg.mtext)
    then (if has_bit receiver.msgrcv_msgflg 12 then ok receiver.msgrcv_msgsz else err e2big)
    else ok (length msg.mtext)

abbrev pub write_message : Write → Receiver → Item → ℕ → Result (Unit {0})
write_message write_data receiver msg msgsz =
    elim (write_data receiver.msgrcv_msgp (long_bytes 8 msg.mtype)) [
      | err e ↦ err e
      | ok _ ↦ write_data (receiver.msgrcv_msgp + 8) (take msgsz msg.mtext)
    ]

abbrev pub received : Queue → Receiver → ℕ → Queue
received queue receiver delivery_time = record queue {
  stats = record queue.stats { msg_lrpid = receiver.pid; msg_rtime = delivery_time };
}

unfoldable pub sysvipc_msg_deliver : Write → Receiver → Queue → Item → ℕ → Result (ℕ × Queue)
sysvipc_msg_deliver write_data receiver queue msg delivery_time =
    elim (delivered_size receiver msg) [
      | err e ↦ err e
      | ok msgsz ↦ elim (write_message write_data receiver msg msgsz) [
        | err e ↦ err e
        | ok _ ↦ ok (msgsz, received queue receiver delivery_time)
      ]
    ]
