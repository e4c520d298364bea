-- ===== src/Extension/NetPolicy/Dns/Termination.antt =====
-- The scans of a packet end, and read no byte behind its end.
use proot_termux.Base.{
  ℕ, zero, suc, ◌+◌, ◌-◌, ◌*◌, ◌≡◌, ◌≤◌, ◌<◌, refl, Bool, true, false, arith, ltb, length, Bytes,
  Bool-cases, inl, inr, subst,
}
use proot_termux.Extension.NetPolicy.Dns.Turns.{
  get_elem?-some, turn-cases, copy_label-again, separate-rest, turn-induct, turn_on-induct,
}
use proot_termux.Extension.NetPolicy.Dns.{
  Scan, done, refused, Reader, Turn, leave, again, separate, copy_label, follow, turn, read_from,
  reader_at, dns_read_name, skip_from, dns_skip_name, is_malformed,
}

-- Whether a scan ended, and inside the packet.
abbrev pub is_settled {ℓ} : {A : Type ℓ} → Scan A → Bool
is_settled (done out) = true
is_settled refused = true
is_settled _ = false

skip_from-settled :
    (fuel : ℕ) (packet : Bytes) (cursor : ℕ)
    → length packet + 1 ≤ fuel + cursor
    → 0 < fuel
    → is_settled (skip_from fuel packet cursor) ≡ true
skip_from-settled zero packet cursor enough some_fuel = absurd (omega arith)
skip_from-settled (suc fuel) packet cursor enough some_fuel =
    elim (Bool-cases (ltb cursor (length packet))) [
      | inr behind ↦ ground arith
      | inl inside ↦
          let (label, e) = get_elem?-some packet cursor (ground arith) in
          let later = skip_from-settled fuel packet (cursor + 1 + label) in ground (arith, later)
    ]

-- How much is left to the loop: a pointer leads back, but uses up one of the 16 jumps.
abbrev pub remaining : Bytes → Reader → ℕ
remaining packet r = (16 - r.jumps) * (length packet + 1) + (length packet - r.cursor)

-- A turn that ends well: it returns inside the packet, or leaves less to do.
abbrev IsGood : Bytes → Reader → Turn → Type 0
IsGood packet r (leave out) = is_settled out ≡ true
IsGood packet r (again r') = remaining packet r' < remaining packet r

jump-times : (j n : ℕ) → j < 16 → (16 - j) * n ≡ (16 - (j + 1)) * n + n
jump-times j n h = let split : 16 - j ≡ suc (16 - (j + 1)) = omega arith in rw split (omega arith)

follow-IsGood :
    (packet : Bytes) (label : ℕ) (r : Reader)
    → IsGood packet r (follow packet label (record r { cursor = r.cursor + 1 }))
follow-IsGood packet label r = elim (Bool-cases (ltb (r.cursor + 1) (length packet))) [
  | inr behind ↦ ground arith
  | inl inside ↦
      let (low, e) = get_elem?-some packet (r.cursor + 1) (ground arith) in
      ground (arith, jump-times r.jumps (length packet + 1))
]

label-IsGood :
    (packet : Bytes) (name_size label : ℕ) (r : Reader)
    → r.cursor < length packet
    → is_malformed packet label (r.cursor + 1) ≡ false
    → IsGood packet r (
        copy_label label packet name_size (separate name_size (record r { cursor = r.cursor + 1 })))
label-IsGood packet name_size label r inside fits =
    let next = separate name_size (record r { cursor = r.cursor + 1 }) in
    let (at_next, jumps, _, _) = separate-rest name_size (record r { cursor = r.cursor + 1 }) in
    let (r', same, moved, jumps', _, _) =
      copy_label-again label packet name_size next (ground arith) in
    let kept : r'.jumps ≡ r.jumps = ground arith in
    let on : r'.cursor ≡ r.cursor + 1 + label = ground arith in
    let less : remaining packet r' < remaining packet r = rw (kept, on) (omega arith) in
    ground arith

turn-IsGood :
    (packet : Bytes) (name_size : ℕ) (r : Reader) → IsGood packet r (turn packet name_size r)
turn-IsGood packet name_size r =
    turn-induct (IsGood packet r) packet name_size r refl (λ label before e.
      turn_on-induct (IsGood packet r) packet name_size label (record r { cursor = r.cursor + 1 })
        refl (ground arith) (follow-IsGood packet label r)
        (label-IsGood packet name_size label r before))

read_from-settled :
    (fuel : ℕ) (packet : Bytes) (name_size : ℕ) (r : Reader)
    → remaining packet r < fuel
    → is_settled (read_from fuel packet name_size r) ≡ true
read_from-settled zero packet name_size r h = absurd (omega arith)
read_from-settled (suc fuel) packet name_size r h =
    let good = turn-IsGood packet name_size r in
    elim (turn-cases (turn packet name_size r)) [
      | inl (out, e) ↦ ground (arith, good)
      | inr (r', e) ↦
          let less : remaining packet r' < remaining packet r = subst (IsGood packet r) e good in
          ground (arith, read_from-settled fuel packet name_size r' (omega arith))
    ]

-- On every packet, offset and size of the buffer, dns_read_name and dns_skip_name come to an end
-- within the fuel given, and read no byte behind the end of the packet.
pub dns_read_name-settled :
    (packet : Bytes) (offset name_size : ℕ)
    → (is_settled (dns_read_name packet offset name_size) ≡ true)
      × (is_settled (dns_skip_name packet offset) ≡ true)
unfolding dns_read_name dns_skip_name
dns_read_name-settled packet offset name_size = (
  ground (arith, read_from-settled (17 * (length packet + 1)) packet name_size (reader_at offset)),
  skip_from-settled (length packet + 1) packet offset (omega arith) (omega arith),
)
