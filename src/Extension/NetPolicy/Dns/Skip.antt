-- ===== src/Extension/NetPolicy/Dns/Skip.antt =====
-- dns_skip_name skips the names that dns_read_name reads.
use proot_termux.Base.{
  ℕ, zero, suc, ◌+◌, ◌*◌, ◌≡◌, ◌≤◌, refl, sym, subst, ◌∙◌, true, false, arith, ltb, ◌==◌, length,
  Bytes, Bool-cases, inl, inr, if◌then◌else◌,
}
use proot_termux.Extension.NetPolicy.Dns.{
  Scan, done, refused, Reader, Turn, leave, again, separate, turn_on, turn, read_from, reader_at,
  dns_read_name, skip_from, dns_skip_name, skip_pointer, is_pointer, is_malformed,
}
use proot_termux.Extension.NetPolicy.Dns.Turns.{
  turn-cases, copy_label-again, separate-rest, turn-induct, turn_on-induct,
}

-- Behind a pointer, `resume` stays what it is, and is what is returned.
abbrev KeepsResume : ℕ → Turn → Type 0
KeepsResume resume (leave (done (name, next))) = next ≡ resume
KeepsResume resume (leave _) = Unit
KeepsResume resume (again r) = (r.jumped ≡ true) × (r.resume ≡ resume)

turn_on-KeepsResume :
    (packet : Bytes) (name_size label : ℕ) (r : Reader)
    → r.jumped ≡ true
    → KeepsResume r.resume (turn_on packet name_size label r)
turn_on-KeepsResume packet name_size label r jumped =
    turn_on-induct (KeepsResume r.resume) packet name_size label r tt (ground arith) (ground arith)
      (λ fits.
        let next = separate name_size r in
        let (at_next, jumps, same_jumped, same_resume) = separate-rest name_size r in
        let (r', same, moved, jumps', jumped', resume') =
          copy_label-again label packet name_size next (ground arith) in
        ground arith)

read_from-KeepsResume :
    (fuel : ℕ) (packet : Bytes) (name_size : ℕ) (r : Reader) (name : Bytes) (next : ℕ)
    → r.jumped ≡ true
    → read_from fuel packet name_size r ≡ done (name, next)
    → next ≡ r.resume
read_from-KeepsResume zero packet name_size r name next jumped e = absurd (ground arith)
read_from-KeepsResume (suc fuel) packet name_size r name next jumped e =
    let kept =
      turn-induct (KeepsResume r.resume) packet name_size r tt
        (λ label before e'. turn_on-KeepsResume packet name_size label _ jumped) in
    elim (turn-cases (turn packet name_size r)) [
      | inl (out, left) ↦
          let returned : turn packet name_size r ≡ leave (done (name, next)) = ground arith in
          subst (KeepsResume r.resume) returned kept
      | inr (r', on) ↦
          let (jumped', same) = subst (KeepsResume r.resume) on kept in
          let later =
            read_from-KeepsResume fuel packet name_size r' name next jumped' (ground arith) in
          ground arith
    ]

-- The turn of dns_read_name that goes with one of dns_skip_name, for a reader that has followed no
-- pointer: what dns_skip_name returns at the cursor, for whatever it returns behind the label.
abbrev GoesWith : Bytes → ℕ → ℕ → Scan ℕ → Turn → Type 0
GoesWith packet fuel from here (leave (done (name, next))) = here ≡ done next
GoesWith packet fuel from here (leave _) = Unit
GoesWith packet fuel from here (again r) =
    (r.jumped ≡ true → here ≡ done r.resume)
    × (r.jumped ≡ false → (here ≡ skip_from fuel packet r.cursor) × (from ≤ r.cursor))

-- What dns_skip_name does at a label.
abbrev skip_on : Bytes → ℕ → ℕ → ℕ → Scan ℕ
skip_on packet fuel label cursor =
    let rest = skip_from fuel packet (cursor + label) in
    if label == 0
    then done cursor
    else if is_pointer label
    then skip_pointer packet cursor 0
    else if is_malformed packet label cursor
    then refused
    else rest

turn_on-GoesWith :
    (packet : Bytes) (name_size fuel label : ℕ) (r : Reader)
    → r.jumped ≡ false
    → GoesWith packet fuel r.cursor
        (skip_on packet fuel label r.cursor)
        (turn_on packet name_size label r)
turn_on-GoesWith packet name_size fuel label r unjumped = elim (Bool-cases (label == 0)) [
  | inl e ↦ ground arith
  | inr e ↦ elim (Bool-cases (is_pointer label)) [
    | inl e' ↦ ground arith
    | inr e' ↦ elim (Bool-cases (is_malformed packet label r.cursor)) [
      | inl e'' ↦ ground arith
      | inr e'' ↦
          let next = separate name_size r in
          let (at_next, jumps, same_jumped, same_resume) = separate-rest name_size r in
          let (r', same, moved, jumps', jumped', resume') =
            copy_label-again label packet name_size next (ground arith) in
          let at_r : r'.cursor ≡ r.cursor + label = ground arith in
          let unjumped' : r'.jumped ≡ false = ground arith in
          let here : skip_on packet fuel label r.cursor ≡ skip_from fuel packet r'.cursor =
            rw (e, e', e'', at_r) refl in
          let there : turn_on packet name_size label r ≡ again r' = rw (e, e', e'') same in
          subst (GoesWith packet fuel r.cursor (skip_on packet fuel label r.cursor)) (sym there)
            (λ j. absurd (ground arith), λ j. (here, omega arith))
    ]
  ]
]

turn-GoesWith :
    (packet : Bytes) (name_size fuel : ℕ) (r : Reader)
    → r.jumped ≡ false
    → GoesWith packet fuel
        (r.cursor + 1)
        (skip_from (suc fuel) packet r.cursor)
        (turn packet name_size r)
turn-GoesWith packet name_size fuel r unjumped =
    turn-induct (GoesWith packet fuel (r.cursor + 1) (skip_from (suc fuel) packet r.cursor)) packet
      name_size r tt
      (λ label before e.
        let same : skip_from (suc fuel) packet r.cursor ≡ skip_on packet fuel label (r.cursor + 1) =
          ground arith in
        let on : Reader = record r { cursor = r.cursor + 1 } in
        subst (λ here. GoesWith packet fuel (r.cursor + 1) here (turn_on packet name_size label on))
          (sym same) (turn_on-GoesWith packet name_size fuel label on unjumped))

read_from_behind :
    (fuel : ℕ) (packet : Bytes) (name_size : ℕ) (r : Reader)
    → length packet ≤ r.cursor
    → read_from (suc fuel) packet name_size r ≡ refused
read_from_behind fuel packet name_size r h =
    let behind : ltb r.cursor (length packet) ≡ false = ground arith in rw (read_from, behind) refl

read_from-skip :
    (fuel fuel' : ℕ) (packet : Bytes) (name_size : ℕ) (r : Reader) (name : Bytes) (next : ℕ)
    → r.jumped ≡ false
    → length packet + 1 ≤ fuel' + r.cursor
    → read_from fuel packet name_size r ≡ done (name, next)
    → skip_from fuel' packet r.cursor ≡ done next
read_from-skip zero fuel' packet name_size r name next unjumped enough e = absurd (ground arith)
read_from-skip (suc fuel) zero packet name_size r name next unjumped enough e =
    let behind = read_from_behind fuel packet name_size r (omega arith) in
    absurd (ground (arith, sym e ∙ behind))
read_from-skip (suc fuel) (suc fuel') packet name_size r name next unjumped enough e =
    let Goes = GoesWith packet fuel' (r.cursor + 1) (skip_from (suc fuel') packet r.cursor) in
    let together = turn-GoesWith packet name_size fuel' r unjumped in
    elim (turn-cases (turn packet name_size r)) [
      | inl (out, left) ↦
          let returned : turn packet name_size r ≡ leave (done (name, next)) = ground arith in
          subst Goes returned together
      | inr (r', on) ↦
          let (if_jumped, if_not) = subst Goes on together in
          let rest : read_from fuel packet name_size r' ≡ done (name, next) = ground arith in
          elim (Bool-cases r'.jumped) [
            | inl j ↦
                let same = read_from-KeepsResume fuel packet name_size r' name next j rest in
                rw (if_jumped j, same) refl
            | inr j ↦
                let (here, further) = if_not j in
                rw here
                  (read_from-skip fuel fuel' packet name_size r' name next j (omega arith) rest)
          ]
    ]

-- Where dns_read_name returns a name, dns_skip_name returns the same `*next` from the same offset,
-- with compression pointers in the name or without.
pub dns_skip_name-dns_read_name :
    (packet : Bytes) (offset name_size next : ℕ) (name : Bytes)
    → dns_read_name packet offset name_size ≡ done (name, next)
    → dns_skip_name packet offset ≡ done next
unfolding dns_read_name dns_skip_name
dns_skip_name-dns_read_name packet offset name_size next name e =
    elim (Bool-cases (name_size == 0)) [
      | inl no_room ↦ absurd (ground arith)
      | inr room ↦
          read_from-skip (17 * (length packet + 1)) (length packet + 1) packet name_size
            (reader_at offset) name next refl (omega arith) (ground arith)
    ]
