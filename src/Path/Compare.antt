-- ===== src/Path/Compare.antt =====
-- `compare_paths2()` and `compare_paths()` of proot/src/path/path.c.
use proot_termux.Base.{
  ℕ, zero, suc, ◌↔◌, ◌-◌, ◌≤◌, ◌≡◌, ◌≢◌, refl, ◌⊎◌, not, ◌&&◌, ◌||◌, [], ◌∷◌, ◌++◌, arith, ltb,
  ◌==◌, if◌then◌else◌, length, take, char_at, strn_eq, All, Bytes,
}

-- `enum Comparison`
pub data Comparison : Type 0 where
  paths_are_equal path1_is_prefix path2_is_prefix paths_are_not_comparable : Comparison

-- `length--` at a trailing separator
abbrev pub trim_length : Bytes → ℕ → ℕ
trim_length path n = if char_at path (n - 1) == b'/' then n - 1 else n

-- What `compare_paths2` does once both lengths are without the trailing separator.
unfoldable pub compare_trimmed : Bytes → ℕ → Bytes → ℕ → Comparison
compare_trimmed path1 length1 path2 length2 =
    let length_min = if ltb length1 length2 then length1 else length2 in
    let sentinel = if ltb length1 length2 then char_at path2 length1 else char_at path1 length2 in
    if not (sentinel == b'/') && not (sentinel == 0)
    then paths_are_not_comparable
    else if not (strn_eq length_min path1 path2)
    then paths_are_not_comparable
    else if length1 == length2
    then paths_are_equal
    else if ltb length1 length2
    then path1_is_prefix
    else path2_is_prefix

unfoldable pub compare_paths2 : Bytes → ℕ → Bytes → ℕ → Comparison
unfolding compare_trimmed
compare_paths2 path1 length1 path2 length2 =
    if length1 == 0 || length2 == 0
    then paths_are_not_comparable
    else compare_trimmed path1 (trim_length path1 length1) path2 (trim_length path2 length2)

abbrev pub compare_paths : Bytes → Bytes → Comparison
compare_paths path1 path2 = compare_paths2 path1 (length path1) path2 (length path2)

-- A path without one trailing separator.
abbrev pub trim : Bytes → Bytes
trim path = take (trim_length path (length path)) path

-- The comparison of two trimmed paths, byte by byte.
abbrev pub compare_bytes : Bytes → Bytes → Comparison
compare_bytes [] [] = paths_are_equal
compare_bytes [] (y ∷ ys) = if y == b'/' then path1_is_prefix else paths_are_not_comparable
compare_bytes (x ∷ xs) [] = if x == b'/' then path2_is_prefix else paths_are_not_comparable
compare_bytes (x ∷ xs) (y ∷ ys) =
    let rest = compare_bytes xs ys in if x == y then rest else paths_are_not_comparable

abbrev pub NoNul : Bytes → Type 0
NoNul s = All (λ c. c ≢ 0) s

-- The byte behind a trimmed length is the separator or the end of the string.
abbrev AtEnd : Bytes → ℕ → Type 0
AtEnd path n = (char_at path n ≡ b'/') ⊎ (char_at path n ≡ 0)

compare_trimmed-bytes :
    (p : Bytes) (n : ℕ) (q : Bytes) (m : ℕ)
    → NoNul p
    → NoNul q
    → n ≤ length p
    → m ≤ length q
    → AtEnd p n
    → AtEnd q m
    → compare_trimmed p n q m ≡ compare_bytes (take n p) (take m q)
unfolding compare_trimmed
compare_trimmed-bytes p zero q zero hp hq a b e f = ground arith
compare_trimmed-bytes p zero [] (suc m) hp hq a b e f = absurd (omega arith)
compare_trimmed-bytes p zero (y ∷ q) (suc m) hp hq a b e f = ground arith
compare_trimmed-bytes [] (suc n) q m hp hq a b e f = absurd (omega arith)
compare_trimmed-bytes (x ∷ p) (suc n) q zero hp hq a b e f = ground arith
compare_trimmed-bytes (x ∷ p) (suc n) [] (suc m) hp hq a b e f = absurd (omega arith)
compare_trimmed-bytes (x ∷ p) (suc n) (y ∷ q) (suc m) hp hq a b e f =
    ground (arith, compare_trimmed-bytes p n q m hp.1 hq.1 (omega arith) (omega arith) e f)

char_at-length : (p : Bytes) → char_at p (length p) ≡ 0
char_at-length [] = refl
char_at-length (x ∷ p) = char_at-length p

trim_length-AtEnd : (p : Bytes) → AtEnd p (trim_length p (length p))
trim_length-AtEnd p = ground (arith, char_at-length p)

-- `compare_paths` agrees with the byte by byte comparison of the trimmed paths.
pub compare_paths-bytes :
    (p q : Bytes)
    → NoNul p
    → NoNul q
    → p ≢ []
    → q ≢ []
    → compare_paths p q ≡ compare_bytes (trim p) (trim q)
unfolding compare_paths2
compare_paths-bytes [] q hp hq np nq = absurd (np refl)
compare_paths-bytes (x ∷ p) [] hp hq np nq = absurd (nq refl)
compare_paths-bytes (x ∷ p) (y ∷ q) hp hq np nq = ground (
  arith,
  compare_trimmed-bytes (x ∷ p) (trim_length (x ∷ p) (suc (length p))) (y ∷ q)
      (trim_length (y ∷ q) (suc (length q))) hp hq,
  trim_length-AtEnd (x ∷ p),
  trim_length-AtEnd (y ∷ q),
)

-- `p` is a proper ancestor directory of `q`.
abbrev pub IsAbove : Bytes → Bytes → Type 0
IsAbove p q = (rest : Bytes) × (q ≡ p ++ b'/' ∷ rest)

pub compare_bytes-equal : (p q : Bytes) → (compare_bytes p q ≡ paths_are_equal) ↔ (p ≡ q)
compare_bytes-equal [] [] = ground arith
compare_bytes-equal [] (y ∷ q) = ground arith
compare_bytes-equal (x ∷ p) [] = ground arith
compare_bytes-equal (x ∷ p) (y ∷ q) = ground (arith, compare_bytes-equal p q)

compare_bytes-IsAbove : (p q : Bytes) → compare_bytes p q ≡ path1_is_prefix → IsAbove p q
compare_bytes-IsAbove [] [] h = absurd (ground arith)
compare_bytes-IsAbove [] (y ∷ q) h = (q, ground arith)
compare_bytes-IsAbove (x ∷ p) [] h = absurd (ground arith)
compare_bytes-IsAbove (x ∷ p) (y ∷ q) h =
    let (rest, e) = compare_bytes-IsAbove p q (ground arith) in (rest, ground arith)

compare_bytes-below : (p rest : Bytes) → compare_bytes p (p ++ b'/' ∷ rest) ≡ path1_is_prefix
compare_bytes-below [] rest = refl
compare_bytes-below (x ∷ p) rest = ground (arith, compare_bytes-below p rest)

-- Which of two paths contains the other does not depend on their order.
abbrev pub swap_comparison : Comparison → Comparison
swap_comparison path1_is_prefix = path2_is_prefix
swap_comparison path2_is_prefix = path1_is_prefix
swap_comparison c = c

pub compare_bytes-swap : (p q : Bytes) → compare_bytes q p ≡ swap_comparison (compare_bytes p q)
compare_bytes-swap [] [] = refl
compare_bytes-swap [] (y ∷ q) = ground arith
compare_bytes-swap (x ∷ p) [] = ground arith
compare_bytes-swap (x ∷ p) (y ∷ q) = ground (arith, compare_bytes-swap p q)

module _ (p q : Bytes) (hp : NoNul p) (hq : NoNul q) (np : p ≢ []) (nq : q ≢ []) where
  -- For two non-empty paths without a NUL, `compare_paths` answers that they are equal exactly
  -- if they are the same up to one trailing separator, that the first contains the second exactly
  -- if the second goes on with a separator behind the first, and the reverse for the third answer.
  pub compare_paths_meaning :
      ((compare_paths p q ≡ paths_are_equal) ↔ (trim p ≡ trim q))
      × ((compare_paths p q ≡ path1_is_prefix) ↔ IsAbove (trim p) (trim q))
      × ((compare_paths p q ≡ path2_is_prefix) ↔ IsAbove (trim q) (trim p))
  compare_paths_meaning = rw (compare_paths-bytes p q hp hq np nq) (
    compare_bytes-equal (trim p) (trim q),
    (compare_bytes-IsAbove (trim p) (trim q), λ r. rw (r.1) (compare_bytes-below (trim p) r.0)),
    (
      λ e. compare_bytes-IsAbove (trim q) (trim p) (rw (compare_bytes-swap (trim p) (trim q), e)),
      λ r. rw (compare_bytes-swap (trim q) (trim p), r.1, compare_bytes-below (trim q) r.0),
    ),
  )
