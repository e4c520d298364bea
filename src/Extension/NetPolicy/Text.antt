-- ===== src/Extension/NetPolicy/Text.antt =====
-- The functions of the C library on strings that the rules are read with.
use proot_termux.Base.{
  ℕ, ◌+◌, ◌-◌, ◌*◌, ◌%◌, ◌^◌, Bool, true, false, ◌&&◌, ◌||◌, Option, some, none, ◌==◌,
  if◌then◌else◌, ltb, leb, [], ◌∷◌, drop, strn_eq, Bytes,
}

-- `strchr`, and `strrchr`: what is before the byte, and what is behind it.
abbrev pub strchr : ℕ → Bytes → Option (Bytes × Bytes)
strchr c [] = none
strchr c (x ∷ s) =
    let rest : Option (Bytes × Bytes) = elim (strchr c s) [
      | none ↦ none
      | some (before, behind) ↦ some (x ∷ before, behind)
    ] in
    if x == c then some ([], s) else rest

abbrev pub strrchr : ℕ → Bytes → Option (Bytes × Bytes)
strrchr c [] = none
strrchr c (x ∷ s) = elim (strrchr c s) [
  | some (before, behind) ↦ some (x ∷ before, behind)
  | none ↦ if x == c then some ([], s) else none
]

-- `strstr`: what is behind the first occurrence, of `n` bytes.
abbrev pub strstr : ℕ → Bytes → Bytes → Option Bytes
strstr n needle [] = none
strstr n needle (x ∷ s) =
    let rest = strstr n needle s in if strn_eq n (x ∷ s) needle then some (drop n (x ∷ s)) else rest

-- `isspace`
abbrev pub is_space : ℕ → Bool
is_space c = c == b' ' || (leb 9 c && leb c 13)

abbrev pub skip_spaces : Bytes → Bytes
skip_spaces [] = []
skip_spaces (c ∷ s) = let rest = skip_spaces s in if is_space c then rest else c ∷ s

abbrev pub is_digit : ℕ → Bool
is_digit c = leb b'0' c && leb c b'9'

-- The value of the digits at the front, without a bound, and what follows them.
abbrev pub digits_from : ℕ → Bytes → ℕ × Bytes
digits_from acc [] = (acc, [])
digits_from acc (c ∷ s) =
    let rest = digits_from (acc * 10 + (c - b'0')) s in if is_digit c then rest else (acc, c ∷ s)

abbrev pub starts_with_digit : Bytes → Bool
starts_with_digit [] = false
starts_with_digit (c ∷ s) = is_digit c

-- Whether there is a minus sign, and what follows the sign.
abbrev pub scan_sign : Bytes → Bool × Bytes
scan_sign [] = (false, [])
scan_sign (c ∷ s) =
    if c == b'-' then (true, s) else if c == b'+' then (false, s) else (false, c ∷ s)

-- The number that `strtol` and `strtoul` see, with base 10, before it is cut to their range: its
-- sign, its magnitude, and `*end`.
abbrev pub scan_number : Bytes → Bool × ℕ × Bytes
scan_number value =
    let (negative, digits) = scan_sign (skip_spaces value) in
    let (magnitude, end) = digits_from 0 digits in
    if starts_with_digit digits then (negative, magnitude, end) else (false, 0, value)

-- `strtoul`, with an `unsigned long` of 64 bits.
abbrev pub strtoul : Bytes → ℕ × Bytes
strtoul value =
    let (negative, magnitude, end) = scan_number value in
    let parsed =
      if ltb (2 ^ 64 - 1) magnitude
      then 2 ^ 64 - 1
      else if negative
      then (2 ^ 64 - magnitude) % 2 ^ 64
      else magnitude in
    (parsed, end)

-- `(int) strtol`, with a `long` of 64 bits, as the bit pattern of the 32-bit `int`.
abbrev pub strtol_int : Bytes → ℕ × Bytes
strtol_int value =
    let (negative, magnitude, end) = scan_number value in
    let cut = if negative then 2 ^ 63 else 2 ^ 63 - 1 in
    let kept = if ltb cut magnitude then cut else magnitude in
    let pattern = if negative then (2 ^ 64 - kept) % 2 ^ 32 else kept % 2 ^ 32 in (pattern, end)
