-- ===== src/Extension/NetPolicy/Dns.antt =====
-- The domain names in a DNS packet, of proot/src/extension/net_policy/net_policy.c. A packet is the
-- list of its bytes; reading behind its end is an outcome of its own.
pub mod Turns
pub mod Termination
pub mod Buffer
pub mod Skip
use proot_termux.Base.{
  ℕ, zero, suc, ◌+◌, ◌-◌, ◌*◌, bit_and, bit_or, Bool, true, false, ◌&&◌, ◌||◌, not, Option, some,
  none, ◌==◌, if◌then◌else◌, ltb, leb, List, [], ◌∷◌, ◌++◌, length, take, get_elem?, str_eq, Bytes,
}

abbrev pub net_dns_name_len : ℕ
net_dns_name_len = 256

-- How a scan of a packet ends: with its result, with -1, by reading behind the end of the packet, or
-- for want of fuel.
pub data Scan {ℓ} (A : Type ℓ) : Type ℓ where
  done : A → Scan A
  refused fault spent : Scan A

-- The lower-case letter of an ASCII capital.
abbrev pub to_lower : ℕ → ℕ
to_lower c = if leb b'A' c && leb c b'Z' then c + 32 else c

abbrev pub lower_all : Bytes → Bytes
lower_all [] = []
lower_all (c ∷ s) = to_lower c ∷ lower_all s

-- The name without the dot at its end.
abbrev pub without_dot : Bytes → Bytes
without_dot [] = []
without_dot (c ∷ []) = if c == b'.' then [] else c ∷ []
without_dot (c ∷ d ∷ s) = c ∷ without_dot (d ∷ s)

-- `output` has room for `size` bytes, with the NUL.
unfoldable pub dns_canonical : Bytes → ℕ → Bytes
dns_canonical input size = lower_all (take (size - 1) (without_dot input))

unfoldable pub dns_names_equal : Bytes → Bytes → Bool
unfolding dns_canonical
dns_names_equal a b = str_eq (dns_canonical a net_dns_name_len) (dns_canonical b net_dns_name_len)

-- The loop of `dns_skip_name`; `jumps` is 0 there, for a pointer ends the name.
abbrev pub skip_pointer : Bytes → ℕ → ℕ → Scan ℕ
skip_pointer packet cursor jumps =
    if not (ltb cursor (length packet)) || ltb 16 (jumps + 1) then refused else done (cursor + 1)

abbrev pub is_pointer : ℕ → Bool
is_pointer label = bit_and label 0xc0 == 0xc0

-- Whether a label that is no pointer is malformed, or longer than the rest of the packet.
abbrev pub is_malformed : Bytes → ℕ → ℕ → Bool
is_malformed packet label cursor =
    not (bit_and label 0xc0 == 0) || ltb 63 label || ltb (length packet) (cursor + label)

abbrev pub skip_from : ℕ → Bytes → ℕ → Scan ℕ
skip_from zero packet cursor = spent
skip_from (suc fuel) packet cursor =
    if not (ltb cursor (length packet)) then refused else (elim (get_elem? packet cursor) [
      | none ↦ fault
      | some label ↦
          let rest = skip_from fuel packet (cursor + 1 + label) in
          if label == 0
          then done (cursor + 1)
          else if is_pointer label
          then skip_pointer packet (cursor + 1) 0
          else if is_malformed packet label (cursor + 1)
          then refused
          else rest
    ])

-- Each turn moves the cursor on.
unfoldable pub dns_skip_name : Bytes → ℕ → Scan ℕ
dns_skip_name packet offset = skip_from (length packet + 1) packet offset

-- The variables of `dns_read_name`. `name` is what was written of the buffer: `used` is its length.
pub record Reader : Type 0 where
  pub cursor : ℕ
  pub resume : ℕ
  pub jumps : ℕ
  pub jumped : Bool
  pub overflow : Bool
  pub name : Bytes

-- How one turn of the loop ends: the function returns, or the loop goes on.
pub data Turn : Type 0 where
  leave : Scan (Bytes × ℕ) → Turn
  again : Reader → Turn

-- A byte of the name, where there is room for it and for the NUL.
abbrev pub append_byte : ℕ → ℕ → Reader → Reader
append_byte name_size c r =
    if ltb (length r.name + 1) name_size
    then record r { name = r.name ++ c ∷ [] }
    else record r { overflow = true }

abbrev pub separate : ℕ → Reader → Reader
separate name_size r = if length r.name == 0 then r else append_byte name_size b'.' r

-- `while (label-- != 0)`
abbrev pub copy_label : ℕ → Bytes → ℕ → Reader → Turn
copy_label zero packet name_size r = again r
copy_label (suc label) packet name_size r = elim (get_elem? packet r.cursor) [
  | none ↦ leave fault
  | some c ↦
      let written = append_byte name_size (to_lower c) r in
      copy_label label packet name_size (record written { cursor = r.cursor + 1 })
]

-- The end of the name. The '.' that the source writes for an empty name is overwritten by the NUL,
-- for `used` stays 0.
abbrev pub ended : Reader → Turn
ended r =
    let resume = if r.jumped then r.resume else r.cursor in
    if r.overflow then leave refused else leave (done (r.name, resume))

abbrev pub target_of : ℕ → ℕ → ℕ
target_of label low = bit_or (bit_and label 0x3f * 256) low

-- A compression pointer.
abbrev pub follow : Bytes → ℕ → Reader → Turn
follow packet label r =
    if not (ltb r.cursor (length packet)) || ltb 16 (r.jumps + 1)
    then leave refused
    else (elim (get_elem? packet r.cursor) [
      | none ↦ leave fault
      | some low ↦
          if not (ltb (target_of label low) (length packet))
          then leave refused
          else again (record r {
            cursor = target_of label low;
            resume = if r.jumped then r.resume else r.cursor + 1;
            jumps = r.jumps + 1;
            jumped = true;
          })
    ])

-- The body of the loop, behind the read of `label`.
abbrev pub turn_on : Bytes → ℕ → ℕ → Reader → Turn
turn_on packet name_size label r =
    if label == 0
    then ended r
    else if is_pointer label
    then follow packet label r
    else if is_malformed packet label r.cursor
    then leave refused
    else copy_label label packet name_size (separate name_size r)

abbrev pub turn : Bytes → ℕ → Reader → Turn
turn packet name_size r =
    if not (ltb r.cursor (length packet))
    then leave refused
    else (elim (get_elem? packet r.cursor) [
      | none ↦ leave fault
      | some label ↦ turn_on packet name_size label (record r { cursor = r.cursor + 1 })
    ])

abbrev pub read_from : ℕ → Bytes → ℕ → Reader → Scan (Bytes × ℕ)
read_from zero packet name_size r = spent
read_from (suc fuel) packet name_size r = elim (turn packet name_size r) [
  | leave out ↦ out
  | again r' ↦ read_from fuel packet name_size r'
]

abbrev pub reader_at : ℕ → Reader
reader_at offset = record {
  cursor = offset;
  resume = 0;
  jumps = 0;
  jumped = false;
  overflow = false;
  name = [];
}

-- The name and `*next`. At most 16 pointers are followed, and between two of them each turn moves
-- the cursor on.
unfoldable pub dns_read_name : Bytes → ℕ → ℕ → Scan (Bytes × ℕ)
dns_read_name packet offset name_size =
    if name_size == 0
    then refused
    else read_from (17 * (length packet + 1)) packet name_size (reader_at offset)
