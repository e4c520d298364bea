-- ===== src/Extension/SysvIpc/Msg/First.antt =====
-- Which message msgrcv(2) takes.
use proot_termux.Base.{
  ℕ, ◌+◌, ◌≡◌, ◌<◌, ◌≤◌, ◌^◌, ◌⊎◌, Bool, not, refl, sym, ap, subst, ◌∙◌, true, false, arith,
  if◌then◌else◌, ltb, Option, some, none, List, [], ◌∷◌, ◌++◌, length, ok, Bool-cases, Option-cases,
  Result-cases, inl, inr, All,
}
use proot_termux.Extension.SysvIpc.{ℤ, pos, negsuc, is_waiting}
use proot_termux.Extension.SysvIpc.Sem.{has_bit}
use proot_termux.Extension.SysvIpc.Msg.{
  Item, Queue, Receiver, to_int, is_type, sysvipc_msg_match, is_wanted, find_item, Write,
  sysvipc_msg_deliver, delivered_size, write_message, received,
}
use proot_termux.Extension.SysvIpc.Msg.Calls.{
  is_refused, wait_for_message, dequeued, sysvipc_do_msgrcv,
}

-- The types that a filter stands for: all for 0, the number itself if it is positive, and those up to
-- its absolute value if it is negative.
abbrev pub IsOfType : ℤ → ℕ → Type 0
IsOfType (pos n) mtype = (n ≡ 0) ⊎ (mtype ≡ n)
IsOfType (negsuc n) mtype = mtype ≤ n + 1

-- With MSG_EXCEPT, all other types.
abbrev pub IsSelected : Bool → Type 0 → Type 0
IsSelected false p = p
IsSelected true p = ¬ p

-- Whether a receiver wants a message by its type.
abbrev pub IsMatched : Receiver → Item → Type 0
IsMatched receiver item =
    IsSelected (has_bit receiver.msgrcv_msgflg 13) (IsOfType receiver.msgrcv_msgtyp item.mtype)

abbrev pub IsUnmatched : Receiver → Item → Type 0
IsUnmatched receiver item =
    IsSelected (not (has_bit receiver.msgrcv_msgflg 13))
      (IsOfType receiver.msgrcv_msgtyp item.mtype)

-- The type of a message is kept when it is cut to an `int`.
abbrev pub FitsInt : Item → Type 0
FitsInt item = item.mtype < 2 ^ 31

is_type-IsOfType :
    (filter : ℤ) (mtype : ℕ)
    → mtype < 2 ^ 31
    → (is_type (to_int mtype) filter ≡ true → IsOfType filter mtype)
      × (is_type (to_int mtype) filter ≡ false → ¬ IsOfType filter mtype)
is_type-IsOfType (pos n) mtype h = (λ e. ground arith, λ e of_type. ground arith)
is_type-IsOfType (negsuc n) mtype h = (λ e. ground arith, λ e of_type. ground arith)

sysvipc_msg_match-IsMatched :
    (receiver : Receiver) (item : Item)
    → FitsInt item
    → (sysvipc_msg_match item.mtype receiver.msgrcv_msgtyp receiver.msgrcv_msgflg ≡ true
        → IsMatched receiver item)
      × (sysvipc_msg_match item.mtype receiver.msgrcv_msgtyp receiver.msgrcv_msgflg ≡ false
          → IsUnmatched receiver item)
sysvipc_msg_match-IsMatched receiver item h =
    let (of_type, of_other) = is_type-IsOfType receiver.msgrcv_msgtyp item.mtype h in
    elim (Bool-cases (has_bit receiver.msgrcv_msgflg 13)) [
      | inl except ↦ rw except (λ e. of_other (ground arith), λ e. of_type (ground arith))
      | inr plain ↦ rw plain (of_type, of_other)
    ]

abbrev IsFirst : Receiver → List Item → Option (List Item × Item × List Item) → Type 0
IsFirst receiver items none = All (IsUnmatched receiver) items
IsFirst receiver items (some (before, item, behind)) =
    (items ≡ before ++ item ∷ behind) × All (IsUnmatched receiver) before × IsMatched receiver item

IsFirst-cons :
    (receiver : Receiver) (item : Item) (items : List Item)
    (rest : Option (List Item × Item × List Item))
    → IsUnmatched receiver item
    → IsFirst receiver items rest
    → IsFirst receiver (item ∷ items) (elim rest [
      | none ↦ none
      | some (before, found, behind) ↦ some (item ∷ before, found, behind)
    ])
IsFirst-cons receiver item items none h rest = (h, rest)
IsFirst-cons receiver item items (some (before, found, behind)) h (split, unmatched, matched) =
    (ap (λ l. item ∷ l) split, (h, unmatched), matched)

find_item-IsFirst :
    (receiver : Receiver) (index : ℕ) (items : List Item)
    → All FitsInt items
    → has_bit receiver.msgrcv_msgflg 14 ≡ false
    → IsFirst receiver items (find_item receiver index items)
find_item-IsFirst receiver index [] fits by_type = tt
find_item-IsFirst receiver index (item ∷ items) fits by_type =
    let (to_matched, to_unmatched) = sysvipc_msg_match-IsMatched receiver item fits.0 in
    elim (Bool-cases (sysvipc_msg_match item.mtype receiver.msgrcv_msgtyp receiver.msgrcv_msgflg)) [
      | inl matched ↦
          let wanted : is_wanted receiver index item ≡ true = rw by_type matched in
          rw wanted (refl, tt, to_matched matched)
      | inr unmatched ↦
          let unwanted : is_wanted receiver index item ≡ false = rw by_type unmatched in
          rw unwanted (
            IsFirst-cons receiver item items (find_item receiver (index + 1) items)
              (to_unmatched unmatched)
              (find_item-IsFirst receiver (index + 1) items fits.1 by_type))
    ]

-- What the size of a message that is delivered is.
abbrev pub cut_to : Receiver → Item → ℕ
cut_to receiver item =
    if ltb receiver.msgrcv_msgsz (length item.mtext)
    then receiver.msgrcv_msgsz
    else length item.mtext

-- The first message for a receiver was taken from a queue, and all others stayed.
pub record TakesFirst (receiver : Receiver) (queue queue' : Queue) (size : ℕ) : Type 0 where
  pub before : List Item
  pub item : Item
  pub behind : List Item
  pub split : queue.items ≡ before ++ item ∷ behind
  pub left : queue'.items ≡ before ++ behind
  pub unmatched : All (IsUnmatched receiver) before
  pub matched : IsMatched receiver item
  pub cut : size ≡ cut_to receiver item

sysvipc_msg_deliver-ok :
    (write_data : Write) (receiver : Receiver) (queue : Queue) (item : Item) (current_time n : ℕ)
    (queue' : Queue)
    → sysvipc_msg_deliver write_data receiver queue item current_time ≡ ok (n, queue')
    → (n ≡ cut_to receiver item) × (queue'.items ≡ queue.items)
unfolding sysvipc_msg_deliver
sysvipc_msg_deliver-ok write_data receiver queue item current_time n queue' e =
    elim (Result-cases (delivered_size receiver item)) [
      | inl (code, refused) ↦ absurd (ground arith)
      | inr (size, sized) ↦ elim (Result-cases (write_message write_data receiver item size)) [
        | inl (code, unwritten) ↦ absurd (ground arith)
        | inr (written, done) ↦
            let same : n ≡ size = ground arith in
            let cut : size ≡ cut_to receiver item = ground arith in
            let kept : received queue receiver current_time ≡ queue' = ground arith in
            (same ∙ cut, ap (λ q. q.items) (sym kept))
      ]
    ]

-- Where the types of the messages fit an `int`, and msgrcv(2) without MSG_COPY succeeds for a tracee
-- that did not wait: if it does not wait now, it took from the queue the first message of a type that
-- its filter stands for, or does not stand for if MSG_EXCEPT is given, left all others in their
-- order, and returns the length of the message, or the size of the buffer if that is less; if it
-- waits, the queue has no such message and is unchanged.
pub sysvipc_do_msgrcv-first :
    (write_data : Write) (current_time queue_index n : ℕ) (receiver receiver' : Receiver)
    (queue queue' : Queue)
    → All FitsInt queue.items
    → has_bit receiver.msgrcv_msgflg 14 ≡ false
    → is_waiting receiver.config.wait_reason ≡ false
    → sysvipc_do_msgrcv write_data current_time receiver queue_index queue
      ≡ (ok n, receiver', queue')
    → (is_waiting receiver'.config.wait_reason ≡ false → TakesFirst receiver queue queue' n)
      × (is_waiting receiver'.config.wait_reason ≡ true
          → All (IsUnmatched receiver) queue.items × (queue' ≡ queue))
unfolding sysvipc_do_msgrcv
sysvipc_do_msgrcv-first write_data current_time queue_index n receiver receiver' queue queue' fits
      by_type idle e =
    let first = find_item-IsFirst receiver 0 queue.items fits by_type in
    elim (Bool-cases (is_refused receiver)) [
      | inl refused ↦ absurd (ground arith)
      | inr taken ↦ elim (Option-cases (find_item receiver 0 queue.items)) [
        | inl missing ↦
            let unmatched : All (IsUnmatched receiver) queue.items =
              subst (IsFirst receiver queue.items) missing first in
            elim (Bool-cases (has_bit receiver.msgrcv_msgflg 11)) [
              | inl at_once ↦ absurd (ground arith)
              | inr waits ↦
                  let moved : wait_for_message receiver queue_index ≡ receiver' = ground arith in
                  let same : queue ≡ queue' = ground arith in
                  let blocked : is_waiting receiver'.config.wait_reason ≡ true =
                    ap (λ r. is_waiting r.config.wait_reason) (sym moved) in
                  (λ free. absurd (ground arith), λ w. (unmatched, sym same))
            ]
        | inr ((before, item, behind), found) ↦
            let (split, unmatched, matched) = subst (IsFirst receiver queue.items) found first in
            elim (Result-cases (sysvipc_msg_deliver write_data receiver queue item current_time)) [
              | inl (code, undelivered) ↦ absurd (ground arith)
              | inr ((size, left_queue), delivered) ↦
                  let (cut, items) =
                    sysvipc_msg_deliver-ok write_data receiver queue item current_time size
                      left_queue delivered in
                  let same_size : size ≡ n = ground arith in
                  let same_receiver : receiver ≡ receiver' = ground arith in
                  let same_queue : dequeued left_queue before item behind ≡ queue' = ground arith in
                  let takes : TakesFirst receiver queue queue' n = record {
                    before = before;
                    item = item;
                    behind = behind;
                    split = split;
                    left = ap (λ q. q.items) (sym same_queue);
                    unmatched = unmatched;
                    matched = matched;
                    cut = sym same_size ∙ cut;
                  } in
                  (λ free. takes, λ w. absurd (ground arith))
            ]
      ]
    ]
