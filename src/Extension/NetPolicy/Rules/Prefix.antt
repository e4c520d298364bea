-- ===== src/Extension/NetPolicy/Rules/Prefix.antt =====
-- The comparison of addresses, against the bits of the addresses.
use proot_termux.Base.{
  ℕ, zero, suc, ◌+◌, ◌-◌, ◌*◌, ◌/◌, ◌%◌, ◌^◌, bit_and, ◌≡◌, ◌≤◌, ◌<◌, ◌↔◌, refl, ap, subst, Bool,
  true, not, ◌&&◌, ◌||◌, ◌==◌, ==_iff, arith, some, List, [], ◌∷◌, ◌++◌, length, take, Bytes, All,
  ltb, Bool-cases, Option-cases, str_eq, inl, inr,
}
use proot_termux.Extension.NetPolicy.Text.{strchr, strtol_int}
use proot_termux.Extension.NetPolicy.Rules.{
  net_policy_rule_len, width, Family, SockAddr, Inet, prefix_of, same_prefix, is_internet,
  ip_matches,
}

abbrev IsByte : ℕ → Type 0
IsByte x = x < 256

-- The bits of a byte and of a string of bytes, the first one first.
abbrev pub byte_bits : ℕ → List ℕ
byte_bits x =
    x / 128 ∷ x / 64 % 2 ∷ x / 32 % 2 ∷ x / 16 % 2 ∷ x / 8 % 2 ∷ x / 4 % 2 ∷ x / 2 % 2 ∷ x % 2 ∷ []

abbrev pub bits_of : Bytes → List ℕ
bits_of [] = []
bits_of (x ∷ s) = byte_bits x ++ bits_of s

all_below : ℕ → (ℕ → Bool) → Bool
all_below zero p = true
all_below (suc n) p = p n && all_below n p

all_below-at : (n : ℕ) (p : ℕ → Bool) (x : ℕ) → all_below n p ≡ true → x < n → p x ≡ true
unfolding all_below
all_below-at zero p x h lt = absurd (omega arith)
all_below-at (suc n) p x h lt = ground (arith, all_below-at n p x)

-- The mask of the first `rem` bits, for each `rem` below 8.
abbrev is_mask : ℕ → ℕ → Bool
is_mask rem x = bit_and x (0xff * 2 ^ (8 - rem) % 256) == x / 2 ^ (8 - rem) * 2 ^ (8 - rem)

mask_table : all_below 8 (λ rem. all_below 256 (is_mask rem)) ≡ true
unfolding all_below
mask_table = refl

mask_meaning :
    (rem x : ℕ)
    → rem < 8
    → IsByte x
    → bit_and x (0xff * 2 ^ (8 - rem) % 256) ≡ x / 2 ^ (8 - rem) * 2 ^ (8 - rem)
mask_meaning rem x small byte = (==_iff _ _).0 (
    all_below-at 256 (is_mask rem) x
      (all_below-at 8 (λ r. all_below 256 (is_mask r)) rem mask_table small) byte)

-- The first `rem` bits of a byte are its quotient.
top_bits :
    (rem x y : ℕ)
    → rem < 8
    → IsByte x
    → IsByte y
    → (x / 2 ^ (8 - rem) ≡ y / 2 ^ (8 - rem)) ↔ (take rem (byte_bits x) ≡ take rem (byte_bits y))
top_bits zero x y small bx by = ground arith
top_bits (suc zero) x y small bx by = ground arith
top_bits (suc (suc zero)) x y small bx by = ground arith
top_bits (suc (suc (suc zero))) x y small bx by = ground arith
top_bits (suc (suc (suc (suc zero)))) x y small bx by = ground arith
top_bits (suc (suc (suc (suc (suc zero))))) x y small bx by = ground arith
top_bits (suc (suc (suc (suc (suc (suc zero)))))) x y small bx by = ground arith
top_bits (suc (suc (suc (suc (suc (suc (suc zero))))))) x y small bx by = ground arith
top_bits (suc (suc (suc (suc (suc (suc (suc (suc n)))))))) x y small bx by = absurd (omega arith)

byte_bits_iff : (x y : ℕ) → IsByte x → IsByte y → (x ≡ y) ↔ (byte_bits x ≡ byte_bits y)
byte_bits_iff x y bx by = ground arith

take_byte :
    (rem x : ℕ) (l : List ℕ) → rem < 8 → take rem (byte_bits x ++ l) ≡ take rem (byte_bits x)
take_byte zero x l h = refl
take_byte (suc zero) x l h = refl
take_byte (suc (suc zero)) x l h = refl
take_byte (suc (suc (suc zero))) x l h = refl
take_byte (suc (suc (suc (suc zero)))) x l h = refl
take_byte (suc (suc (suc (suc (suc zero))))) x l h = refl
take_byte (suc (suc (suc (suc (suc (suc zero)))))) x l h = refl
take_byte (suc (suc (suc (suc (suc (suc (suc zero))))))) x l h = refl
take_byte (suc (suc (suc (suc (suc (suc (suc (suc n)))))))) x l h = absurd (omega arith)

take_behind_byte :
    (bits x : ℕ) (l : List ℕ) → take (bits + 8) (byte_bits x ++ l) ≡ byte_bits x ++ take bits l
take_behind_byte bits x l =
    let eight : bits + 8 ≡ suc (suc (suc (suc (suc (suc (suc (suc bits))))))) = omega arith in
    rw eight refl

byte_bits-append :
    (x y : ℕ) (l m : List ℕ)
    → (byte_bits x ++ l ≡ byte_bits y ++ m) ↔ ((byte_bits x ≡ byte_bits y) × (l ≡ m))
byte_bits-append x y l m = ground arith

-- One byte of the comparison.
same_prefix_byte :
    (bits x y : ℕ) (a b : Bytes)
    → same_prefix (bits + 8) (x ∷ a) (y ∷ b) ≡ (x == y && same_prefix bits a b)
same_prefix_byte bits x y a b =
    let more : (bits + 8) / 8 ≡ suc (bits / 8) = omega arith in
    let same : (bits + 8) % 8 ≡ bits % 8 = omega arith in rw (more, same) (ground arith)

power_some : (k : ℕ) → 0 < 2 ^ k
power_some zero = omega arith
power_some (suc k) = omega (arith, power_some k)

times_cancel : (m n p : ℕ) → 0 < p → m * p ≡ n * p → m ≡ n
times_cancel zero zero p h e = refl
times_cancel zero (suc n) p h e = absurd (omega arith)
times_cancel (suc m) zero p h e = absurd (omega arith)
times_cancel (suc m) (suc n) p h e = ap suc (times_cancel m n p h (omega arith))

scaled :
    (rem x y : ℕ)
    → rem < 8
    → IsByte x
    → IsByte y
    → (x / 2 ^ (8 - rem) * 2 ^ (8 - rem) ≡ y / 2 ^ (8 - rem) * 2 ^ (8 - rem))
      ↔ (take rem (byte_bits x) ≡ take rem (byte_bits y))
scaled rem x y small bx by =
    let (there, back) = top_bits rem x y small bx by in
    (
      λ e. there (times_cancel _ _ (2 ^ (8 - rem)) (power_some (8 - rem)) e),
      λ e. ap (λ q. q * 2 ^ (8 - rem)) (back e),
    )

same_prefix_rem :
    (rem x y : ℕ) (a b : Bytes)
    → rem < 8
    → IsByte x
    → IsByte y
    → (same_prefix rem (x ∷ a) (y ∷ b) ≡ true) ↔ (take rem (byte_bits x) ≡ take rem (byte_bits y))
same_prefix_rem zero x y a b small bx by = ground arith
same_prefix_rem (suc n) x y a b small bx by =
    let whole : suc n / 8 ≡ 0 = omega arith in
    let part : suc n % 8 ≡ suc n = omega arith in
    rw (whole, part, mask_meaning (suc n) x small bx, mask_meaning (suc n) y small by)
      (ground (arith, scaled (suc n) x y small bx by))

same_prefix_iff :
    (bits : ℕ) (a b : Bytes)
    → length a ≡ length b
    → bits ≤ length a * 8
    → All IsByte a
    → All IsByte b
    → (same_prefix bits a b ≡ true) ↔ (take bits (bits_of a) ≡ take bits (bits_of b))
same_prefix_iff bits [] [] same fits ha hb =
    let none_left : bits ≡ 0 = omega arith in rw none_left (ground arith)
same_prefix_iff bits [] (y ∷ b) same fits ha hb = absurd (omega arith)
same_prefix_iff bits (x ∷ a) [] same fits ha hb = absurd (omega arith)
same_prefix_iff bits (x ∷ a) (y ∷ b) same fits ha hb = elim (Bool-cases (ltb bits 8)) [
  | inl small ↦
      let few : bits < 8 = ground arith in
      rw (take_byte bits x (bits_of a) few, take_byte bits y (bits_of b) few)
        (same_prefix_rem bits x y a b few ha.0 hb.0)
  | inr large ↦
      let rest : (bits - 8) + 8 ≡ bits = ground arith in
      let later = same_prefix_iff (bits - 8) a b (omega arith) (omega arith) ha.1 hb.1 in
      subst
        (λ n.
          (same_prefix n (x ∷ a) (y ∷ b) ≡ true)
          ↔ (take n (byte_bits x ++ bits_of a) ≡ take n (byte_bits y ++ bits_of b)))
        rest
        (rw
          (
            same_prefix_byte (bits - 8) x y a b,
            take_behind_byte (bits - 8) x (bits_of a),
            take_behind_byte (bits - 8) y (bits_of b),
          )
          (ground (
            arith,
            later,
            byte_bits_iff x y ha.0 hb.0,
            byte_bits-append x y (take (bits - 8) (bits_of a)) (take (bits - 8) (bits_of b)),
          )))
]

prefix_of_bounded :
    (family : Family) (rule_copy rule_text : Bytes) (bits : ℕ)
    → prefix_of family rule_copy ≡ some (rule_text, bits)
    → bits ≤ width family
prefix_of_bounded family rule_copy rule_text bits e = elim (Option-cases (strchr b'/' rule_copy)) [
  | inl none_left ↦ ground arith
  | inr ((before, slash), found) ↦
      let limits = Bool-cases (
        str_eq slash []
        || not (str_eq (strtol_int slash).1 [])
        || ltb (width family) (strtol_int slash).0) in
      elim limits [ inl bad ↦ absurd (ground arith) | inr good ↦ ground arith ]
]

-- The bytes of an address of a family, as `inet_pton` gives them.
abbrev pub IsAddress : Family → Bytes → Type 0
IsAddress family address = (length address * 8 ≡ width family) × All IsByte address

-- A rule with the text of an address and a prefix of `bits` bits matches an address of AF_INET or
-- AF_INET6 exactly where the first `bits` bits of the two addresses are equal. It is assumed that
-- `inet_pton` reads both texts, giving 4 or 16 bytes, and reads what `inet_ntop` prints as the
-- address printed.
pub ip_matches-bits_of :
    (net : Inet) (rule_host rule_text rule_addr : Bytes) (bits : ℕ) (addr : SockAddr)
    → is_internet addr.ss_family ≡ true
    → prefix_of addr.ss_family (take (net_policy_rule_len - 1) rule_host) ≡ some (rule_text, bits)
    → net.pton addr.ss_family rule_text ≡ some rule_addr
    → net.pton addr.ss_family (net.ntop addr.ss_family addr.address) ≡ some addr.address
    → IsAddress addr.ss_family rule_addr
    → IsAddress addr.ss_family addr.address
    → (ip_matches net rule_host addr ≡ true)
      ↔ (take bits (bits_of rule_addr) ≡ take bits (bits_of addr.address))
unfolding ip_matches
ip_matches-bits_of net rule_host rule_text rule_addr bits addr family prefix read printed ha hb =
    let bounded =
      prefix_of_bounded addr.ss_family (take (net_policy_rule_len - 1) rule_host) rule_text bits
        prefix in
    let same : ip_matches net rule_host addr ≡ same_prefix bits rule_addr addr.address =
      rw (family, prefix, read, printed) refl in
    rw same (same_prefix_iff bits rule_addr addr.address (omega arith) (omega arith) ha.1 hb.1)
