-- ===== src/Extension/SysvIpc/Msg/Get.antt =====
-- msgget(2), and how a queue is looked up, of proot/src/extension/sysvipc/sysvipc_msg.c.
use proot_termux.Base.{
  bit_and, ℕ, ◌+◌, ◌-◌, ◌*◌, ◌%◌, ◌^◌, true, false, ◌&&◌, ◌||◌, not, Option, some, none, ◌==◌,
  if◌then◌else◌, ltb, List, [], ◌∷◌, ◌++◌, length, get_or, get_elem?, set, Result, ok, err, einval,
  enoent, eexist,
}
use proot_termux.Extension.SysvIpc.{shifted_generation, is_generation}
use proot_termux.Extension.SysvIpc.Sem.{has_bit}
use proot_termux.Extension.SysvIpc.Msg.{Stats, Queue}

abbrev pub no_stats : Stats
no_stats = record {
  msg_qnum = 0;
  msg_cbytes = 0;
  msg_qbytes = 0;
  msg_lspid = 0;
  msg_lrpid = 0;
  msg_stime = 0;
  msg_rtime = 0;
}

abbrev pub no_queue : Queue
no_queue = record { key = 0; generation = 0; valid = false; items = []; stats = no_stats }

-- How the search of `sysvipc_msgget` ends: at a queue, or with the first unused slot.
pub data QueueSearch : Type 0 where
  found_queue : ℕ → Queue → QueueSearch
  no_such_queue : Option ℕ → QueueSearch

abbrev pub search_queue : List Queue → ℕ → ℕ → Option ℕ → QueueSearch
search_queue [] queue_id queue_index unused_slot = no_such_queue unused_slot
search_queue (x ∷ queues) queue_id queue_index unused_slot =
    let unused : Option ℕ = elim unused_slot [ none ↦ some queue_index | some slot ↦ some slot ] in
    let rest_valid = search_queue queues queue_id (queue_index + 1) unused_slot in
    let rest_unused = search_queue queues queue_id (queue_index + 1) unused in
    if x.valid
    then (if not (queue_id == 0) && x.key == queue_id % 2 ^ 32
        then found_queue queue_index x
        else rest_valid)
    else rest_unused

-- A new queue in place of `old`.
abbrev pub new_queue : Queue → ℕ → Queue
new_queue old queue_id = record old {
  key = queue_id % 2 ^ 32;
  valid = true;
  items = [];
  stats = record no_stats { msg_qbytes = 1024 * 64 };
}

-- `(queue_index + 1) | (queue->generation << 12)`, as 32 bits. The number of queues has no maximum, so
-- the two parts may have a common bit.
abbrev pub queue_object_id : ℕ → ℕ → ℕ
queue_object_id queue_index generation =
    let low = (queue_index + 1) % 2 ^ 32 in
    let high = shifted_generation generation in low + high - bit_and low high

abbrev pub queue_in : List Queue → ℕ → ℕ → ℕ × List Queue
queue_in queues slot queue_id =
    let old = get_or queues slot no_queue in
    (queue_object_id slot old.generation, set queues slot (new_queue old queue_id))

abbrev pub create_queue : List Queue → Option ℕ → ℕ → ℕ × List Queue
create_queue queues (some slot) queue_id = queue_in queues slot queue_id
create_queue queues none queue_id = queue_in (queues ++ no_queue ∷ []) (length queues) queue_id

abbrev pub msgget_at : List Queue → QueueSearch → ℕ → ℕ → Result (ℕ × List Queue)
msgget_at queues (no_such_queue unused_slot) queue_id msgflg =
    if not (has_bit msgflg 9) then err enoent else ok (create_queue queues unused_slot queue_id)
msgget_at queues (found_queue i queue) queue_id msgflg =
    if has_bit msgflg 9 && has_bit msgflg 10
    then err eexist
    else ok (queue_object_id i queue.generation, queues)

unfoldable pub sysvipc_msgget : ℕ → ℕ → List Queue → Result (ℕ × List Queue)
sysvipc_msgget queue_id msgflg queues =
    msgget_at queues (search_queue queues queue_id 0 none) queue_id msgflg

-- LOOKUP_IPC_OBJECT, on the queues.
abbrev pub lookup_queue : ℕ → List Queue → Result (ℕ × Queue)
lookup_queue sysarg_1 queues =
    let object_id = sysarg_1 % 2 ^ 32 in
    let object_index = object_id % 2 ^ 12 in
    if object_index == 0 || ltb (length queues) object_index
    then err einval
    else (elim (get_elem? queues (object_index - 1)) [
      | none ↦ err einval
      | some queue ↦
          if not queue.valid || not (is_generation queue.generation object_id)
          then err einval
          else ok (object_index - 1, queue)
    ])
