-- ===== src/Extension/NetPolicy/Dns/Turns.antt =====
-- The turns of the loop of dns_read_name, one at a time.
use proot_termux.Base.{
  ℕ, zero, suc, ◌+◌, ◌≡◌, ◌≤◌, ◌<◌, refl, false, arith, some, ltb, List, [], ◌∷◌, length, get_elem?,
  Bytes, Bool-cases, inl, inr, ◌⊎◌, ◌==◌,
}
use proot_termux.Extension.NetPolicy.Dns.{
  Scan, refused, Reader, Turn, leave, again, append_byte, separate, copy_label, ended, follow,
  turn_on, turn, is_pointer, is_malformed, to_lower,
}

pub get_elem?-some {ℓ} :
    {A : Type ℓ} (l : List A) (i : ℕ) → i < length l → (x : A) × (get_elem? l i ≡ some x)
get_elem?-some [] i h = absurd (omega arith)
get_elem?-some (x ∷ l) zero h = (x, refl)
get_elem?-some (x ∷ l) (suc i) h = get_elem?-some l i (omega arith)

pub turn-cases :
    (t : Turn) → ((out : Scan (Bytes × ℕ)) × (t ≡ leave out)) ⊎ ((r : Reader) × (t ≡ again r))
turn-cases (leave out) = inl (out, refl)
turn-cases (again r) = inr (r, refl)

-- What copying a label does to all but the name.
pub copy_label-again :
    (label : ℕ) (packet : Bytes) (name_size : ℕ) (r : Reader)
    → r.cursor + label ≤ length packet
    → (r' : Reader) × (copy_label label packet name_size r ≡ again r')
      × (r'.cursor ≡ r.cursor + label)
      × (r'.jumps ≡ r.jumps)
      × (r'.jumped ≡ r.jumped)
      × (r'.resume ≡ r.resume)
copy_label-again zero packet name_size r h = (r, refl, omega arith, refl, refl, refl)
copy_label-again (suc label) packet name_size r h =
    let (c, e) = get_elem?-some packet r.cursor (omega arith) in
    let next : Reader = record (append_byte name_size (to_lower c) r) { cursor = r.cursor + 1 } in
    let kept : (next.jumps ≡ r.jumps) × (next.jumped ≡ r.jumped) × (next.resume ≡ r.resume) =
      ground arith in
    let (r', same, moved, jumps, jumped, resume) =
      copy_label-again label packet name_size next (ground arith) in
    (r', ground arith, ground arith, ground arith, ground arith, ground arith)

-- What `separate` leaves alone.
pub separate-rest :
    (name_size : ℕ) (r : Reader)
    → let s = separate name_size r in
      (s.cursor ≡ r.cursor) × (s.jumps ≡ r.jumps) × (s.jumped ≡ r.jumped) × (s.resume ≡ r.resume)
separate-rest name_size r = ground arith

-- What holds of a turn, if it holds of each way to go on from the label read.
pub turn-induct {κ} :
    (P : Turn → Type κ) (packet : Bytes) (name_size : ℕ) (r : Reader)
    → P (leave refused)
    → ((label : ℕ)
        → r.cursor < length packet
        → get_elem? packet r.cursor ≡ some label
        → P (turn_on packet name_size label (record r { cursor = r.cursor + 1 })))
    → P (turn packet name_size r)
turn-induct P packet name_size r at_end on = elim (Bool-cases (ltb r.cursor (length packet))) [
  | inr behind ↦ rw behind at_end
  | inl before ↦
      let (label, e) = get_elem?-some packet r.cursor (ground arith) in
      rw (before, e) (on label (ground arith) e)
]

pub turn_on-induct {κ} :
    (P : Turn → Type κ) (packet : Bytes) (name_size label : ℕ) (r : Reader)
    → P (leave refused)
    → P (ended r)
    → P (follow packet label r)
    → (is_malformed packet label r.cursor ≡ false
        → P (copy_label label packet name_size (separate name_size r)))
    → P (turn_on packet name_size label r)
turn_on-induct P packet name_size label r bad last pointer copied = elim (Bool-cases (label == 0)) [
  | inl e ↦ rw e last
  | inr e ↦ elim (Bool-cases (is_pointer label)) [
    | inl e' ↦ rw (e, e') pointer
    | inr e' ↦ elim (Bool-cases (is_malformed packet label r.cursor)) [
      | inl e'' ↦ rw (e, e', e'') bad
      | inr e'' ↦ rw (e, e', e'') (copied e'')
    ]
  ]
]
