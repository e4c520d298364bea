-- ===== src/Extension/NetPolicy/Dns/Buffer.antt =====
-- What dns_read_name writes fits the buffer.
use proot_termux.Base.{
  ℕ, zero, suc, ◌+◌, ◌≡◌, ◌≤◌, ◌<◌, true, arith, ◌==◌, [], ◌∷◌, length, length-append, get_elem?,
  Bytes, Bool-cases, inl, inr, Option-cases, subst, ◌*◌,
}
use proot_termux.Extension.NetPolicy.Dns.{
  done, Reader, Turn, leave, again, append_byte, separate, copy_label, turn_on, turn, read_from,
  reader_at, dns_read_name, to_lower,
}
use proot_termux.Extension.NetPolicy.Dns.Turns.{turn-cases, turn-induct}

-- The name and its NUL are inside the buffer, and `resume` is inside the packet once it is set.
abbrev IsInside : Bytes → ℕ → Reader → Type 0
IsInside packet name_size r =
    (length r.name < name_size) × (r.jumped ≡ true → r.resume ≤ length packet)

abbrev IsInsideTurn : Bytes → ℕ → Turn → Type 0
IsInsideTurn packet name_size (leave (done (name, next))) =
    (length name < name_size) × (next ≤ length packet)
IsInsideTurn packet name_size (leave _) = Unit
IsInsideTurn packet name_size (again r) = IsInside packet name_size r

append_byte-IsInside :
    (packet : Bytes) (name_size c : ℕ) (r : Reader)
    → IsInside packet name_size r
    → IsInside packet name_size (append_byte name_size c r)
append_byte-IsInside packet name_size c r h = ground (arith, length-append r.name (c ∷ []))

copy_label-inside :
    (label : ℕ) (packet : Bytes) (name_size : ℕ) (r : Reader)
    → IsInside packet name_size r
    → IsInsideTurn packet name_size (copy_label label packet name_size r)
copy_label-inside zero packet name_size r h = h
copy_label-inside (suc label) packet name_size r h =
    elim (Option-cases (get_elem? packet r.cursor)) [
      | inl none_left ↦ ground arith
      | inr (c, e) ↦
          let written = append_byte name_size (to_lower c) r in
          let (fits, resumes) = append_byte-IsInside packet name_size (to_lower c) r h in
          let next : Reader = record written { cursor = r.cursor + 1 } in
          let kept : IsInside packet name_size next = (fits, resumes) in
          let later = copy_label-inside label packet name_size next kept in ground arith
    ]

turn_on-inside :
    (packet : Bytes) (name_size label : ℕ) (r : Reader)
    → IsInside packet name_size r
    → r.cursor ≤ length packet
    → IsInsideTurn packet name_size (turn_on packet name_size label r)
turn_on-inside packet name_size label r h at_most =
    let written : IsInside packet name_size (separate name_size r) =
      ground (arith, append_byte-IsInside packet name_size b'.' r h) in
    let copied = copy_label-inside label packet name_size (separate name_size r) written in
    ground arith

turn-inside :
    (packet : Bytes) (name_size : ℕ) (r : Reader)
    → IsInside packet name_size r
    → IsInsideTurn packet name_size (turn packet name_size r)
turn-inside packet name_size r h =
    turn-induct (IsInsideTurn packet name_size) packet name_size r tt
      (λ label before e. turn_on-inside packet name_size label _ h (omega arith))

read_from-inside :
    (fuel : ℕ) (packet : Bytes) (name_size : ℕ) (r : Reader) (name : Bytes) (next : ℕ)
    → IsInside packet name_size r
    → read_from fuel packet name_size r ≡ done (name, next)
    → (length name < name_size) × (next ≤ length packet)
read_from-inside zero packet name_size r name next h e = absurd (ground arith)
read_from-inside (suc fuel) packet name_size r name next h e =
    let inside = turn-inside packet name_size r h in
    elim (turn-cases (turn packet name_size r)) [
      | inl (out, left) ↦
          let returned : turn packet name_size r ≡ leave (done (name, next)) = ground arith in
          subst (IsInsideTurn packet name_size) returned inside
      | inr (r', on) ↦
          read_from-inside fuel packet name_size r' name next
            (subst (IsInsideTurn packet name_size) on inside) (ground arith)
    ]

-- Where dns_read_name returns a name, the name and the NUL behind it fit the buffer of `name_size`
-- bytes, and `*next` is not behind the end of the packet.
pub dns_read_name-fits :
    (packet : Bytes) (offset name_size next : ℕ) (name : Bytes)
    → dns_read_name packet offset name_size ≡ done (name, next)
    → (length name < name_size) × (next ≤ length packet)
unfolding dns_read_name
dns_read_name-fits packet offset name_size next name e = elim (Bool-cases (name_size == 0)) [
  | inl no_room ↦ absurd (ground arith)
  | inr room ↦
      read_from-inside (17 * (length packet + 1)) packet name_size (reader_at offset) name next
        (ground arith) (ground arith)
]
