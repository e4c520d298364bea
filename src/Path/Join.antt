-- ===== src/Path/Join.antt =====
-- `join_paths()`, `chop_finality()` and `substitute_path_prefix()` of proot/src/path/path.c.
-- A `char result[PATH_MAX]` is the string that it holds. After an error the callers do not read
-- the result, so it is dropped.
use proot_termux.Base.{
  ℕ, ◌+◌, ◌-◌, ◌<◌, ◌≡◌, ◌≢◌, ◌⊎◌, inl, inr, not, ◌&&◌, List, [], ◌∷◌, ◌++◌, arith, ltb, leb, ◌==◌,
  if◌then◌else◌, length, take, drop, char_at, Bytes, Option, some, none, Result, ok, err, ◌>>=◌,
  >>=-ok, take_length, drop_length, enametoolong, path_max, refl, ap, ◌∙◌, Bool-cases,
  length-append, drop-append, length-drop,
}
use mathlib.Core.List.{append-nil, append_assoc}

-- `result[length - 1]`
abbrev pub last_char : Bytes → ℕ
last_char s = char_at s (length s - 1)

-- One round of the loop: `path` is appended, with one separator in between.
unfoldable pub join_one : Bytes → Bytes → Result Bytes
join_one result path =
    if ltb 0 (length result) && not (last_char result == b'/') && not (char_at path 0 == b'/')
    then (if leb path_max (length result + length path + 1 + 1)
        then err enametoolong
        else ok ((result ++ b'/' ∷ []) ++ path))
    else if ltb 0 (length result) && last_char result == b'/' && char_at path 0 == b'/'
    then (if leb path_max (length result + length path - 1 + 1)
        then err enametoolong
        else ok (result ++ drop 1 path))
    else (if leb path_max (length result + length path + 1)
        then err enametoolong
        else ok (result ++ path))

-- The loop over the variadic arguments; a NULL path is skipped.
join_from : Bytes → List (Option Bytes) → Result Bytes
join_from result [] = ok result
join_from result (none ∷ paths) = join_from result paths
join_from result (some path ∷ paths) = do joined ← join_one result path; join_from joined paths

unfoldable pub join_paths : List (Option Bytes) → Result Bytes
unfolding join_from join_one
join_paths paths = join_from [] paths

-- `join_paths(2, result, a, b)`
abbrev pub join2 : Bytes → Bytes → Result Bytes
join2 a b = join_paths (some a ∷ some b ∷ [])

-- Removes the trailing "/" or "/.". The assertion of the first branch is a precondition.
unfoldable pub chop_finality : Bytes → Bytes
chop_finality path =
    if last_char path == b'.'
    then (if length path == 2 then take 1 path else take (length path - 2) path)
    else if last_char path == b'/'
    then (if ltb 1 (length path) then take (length path - 1) path else path)
    else path

-- The bytes `path + old_prefix_length ..` move behind the new prefix. The -ENAMETOOLONG, which
-- the C function returns through a `size_t`, leaves `path` as it is.
unfoldable pub substitute_path_prefix : Bytes → ℕ → Bytes → ℕ → Result Bytes
substitute_path_prefix path old_prefix_length new_prefix new_prefix_length =
    if new_prefix_length == 1
    then (if length path - old_prefix_length == 0
        then ok (b'/' ∷ [])
        else ok (drop old_prefix_length path))
    else if old_prefix_length == 1
    then (if leb path_max (new_prefix_length + length path)
        then err enametoolong
        else if ltb 1 (length path)
        then ok (take new_prefix_length new_prefix ++ path)
        else ok (take new_prefix_length new_prefix))
    else (if leb path_max (length path - old_prefix_length + new_prefix_length)
        then err enametoolong
        else ok (take new_prefix_length new_prefix ++ drop old_prefix_length path))

-- No round of `join_paths` makes a string that does not fit its buffer.
join_one_fits :
    (result path : Bytes) {r : Bytes} → join_one result path ≡ ok r → length r + 1 < path_max
unfolding join_one
join_one_fits result path h = ground (
  arith,
  length-append (result ++ b'/' ∷ []) path,
  length-append result (b'/' ∷ []),
  length-append result (drop 1 path),
  length-append result path,
  length-drop 1 path,
)

join_from_fits :
    (result : Bytes) (paths : List (Option Bytes)) {r : Bytes}
    → length result + 1 < path_max
    → join_from result paths ≡ ok r
    → length r + 1 < path_max
unfolding join_from
join_from_fits result [] h e = ground arith
join_from_fits result (none ∷ paths) h e = join_from_fits result paths h e
join_from_fits result (some path ∷ paths) h e =
    let (joined, rest, one) = >>=-ok (join_one result path) e in
    join_from_fits joined paths (join_one_fits result path one) rest

-- Whatever `join_paths` accepts fits a `char[PATH_MAX]` with its NUL, for any number of paths.
join_paths_fits :
    (paths : List (Option Bytes)) {r : Bytes} → join_paths paths ≡ ok r → length r + 1 < path_max
unfolding join_paths
join_paths_fits paths e = join_from_fits [] paths (omega arith) e

-- A path less the separator that it ends with, or begins with, if any.
abbrev pub without_last : Bytes → Bytes
without_last a = if last_char a == b'/' then take (length a - 1) a else a

abbrev pub without_first : Bytes → Bytes
without_first [] = []
without_first (c ∷ b) = if c == b'/' then b else c ∷ b

-- One separator between two paths.
abbrev pub slash_between : Bytes → Bytes → Bytes
slash_between a b = without_last a ++ b'/' ∷ without_first b

-- What does not fit a `char[PATH_MAX]` with its NUL is refused.
abbrev pub bounded : Bytes → Result Bytes
bounded s = if leb path_max (length s + 1) then err enametoolong else ok s

last-split :
    (c : ℕ) (a : Bytes)
    → char_at (c ∷ a) (length a) ≡ b'/'
    → c ∷ a ≡ take (length a) (c ∷ a) ++ b'/' ∷ []
last-split c [] e = ap (λ d. d ∷ []) e
last-split c (d ∷ a) e = ap (λ l. c ∷ l) (last-split d a e)

drop_first :
    (c : ℕ) (a b : Bytes)
    → char_at (c ∷ a) (length a) ≡ b'/'
    → (c ∷ a) ++ b ≡ take (length a) (c ∷ a) ++ b'/' ∷ b
drop_first c a b e =
    ap (λ l. l ++ b) (last-split c a e) ∙ append_assoc (take (length a) (c ∷ a)) (b'/' ∷ []) b

join_ended :
    (c : ℕ) (a b : Bytes)
    → length (c ∷ a) + 1 < path_max
    → char_at (c ∷ a) (length a) ≡ b'/'
    → join2 (c ∷ a) b ≡ bounded (slash_between (c ∷ a) b)
unfolding join_paths
join_ended c a [] fits e = ground (arith, drop_first c a [] e, length-append (c ∷ a) [])
join_ended c a (d ∷ b) fits e = ground (
  arith,
  drop_first c a b e,
  drop_first c a (d ∷ b) e,
  length-append (c ∷ a) b,
  length-append (c ∷ a) (d ∷ b),
)

join_unended :
    (c : ℕ) (a b : Bytes)
    → length (c ∷ a) + 1 < path_max
    → char_at (c ∷ a) (length a) ≢ b'/'
    → join2 (c ∷ a) b ≡ bounded (slash_between (c ∷ a) b)
unfolding join_paths
join_unended c a [] fits e =
    ground (arith, append_assoc (c ∷ a) (b'/' ∷ []) [], length-append (c ∷ a) (b'/' ∷ []))
join_unended c a (d ∷ b) fits e = ground (
  arith,
  append_assoc (c ∷ a) (b'/' ∷ []) (d ∷ b),
  length-append (c ∷ a) (b'/' ∷ d ∷ b),
  length-append (c ∷ a) (d ∷ b),
)

-- Joining two paths, the first neither empty nor too long for its buffer, gives them with exactly
-- one separator in between, instead of that which the first may end with and that which the second
-- may begin with. It fails with ENAMETOOLONG exactly if the outcome and its NUL need all of
-- PATH_MAX.
pub join_paths-slash_between :
    (a b : Bytes)
    → a ≢ []
    → length a + 1 < path_max
    → join_paths (some a ∷ some b ∷ []) ≡ bounded (slash_between a b)
join_paths-slash_between [] b na fits = absurd (na refl)
join_paths-slash_between (c ∷ a) b na fits =
    elim (Bool-cases (char_at (c ∷ a) (length a) == b'/')) [
      | inl ends ↦ join_ended c a b fits (ground arith)
      | inr unended ↦ join_unended c a b fits (ground arith)
    ]

-- A directory by its path without the separator at the end: the root is the empty string.
abbrev pub dir_name : Bytes → Bytes
dir_name [] = b'/' ∷ []
dir_name (c ∷ d) = c ∷ d

-- The directory itself, or what lies at a relative path below it.
abbrev pub at : Bytes → Option Bytes → Bytes
at d none = dir_name d
at d (some rest) = d ++ b'/' ∷ rest

-- Substituting a prefix moves a path from one directory to the other.
pub substitute_path_prefix-at :
    (d e : Bytes) (r : Option Bytes)
    → length d ≢ 1
    → length e ≢ 1
    → (d ≢ []) ⊎ (e ≢ [])
    → r ≢ some []
    → length (at e r) + 1 < path_max
    → substitute_path_prefix (at d r) (length (dir_name d)) (dir_name e) (length (dir_name e))
      ≡ ok (at e r)
unfolding substitute_path_prefix
substitute_path_prefix-at [] [] r hd he n nr fits = absurd (ground arith)
substitute_path_prefix-at [] (x ∷ e) none hd he n nr fits = ground (arith, take_length e)
substitute_path_prefix-at [] (x ∷ e) (some rest) hd he n nr fits =
    ground (arith, take_length e, length-append e (b'/' ∷ rest))
substitute_path_prefix-at (x ∷ d) [] none hd he n nr fits = ground arith
substitute_path_prefix-at (x ∷ d) [] (some rest) hd he n nr fits =
    ground (arith, drop-append d (b'/' ∷ rest), length-append d (b'/' ∷ rest))
substitute_path_prefix-at (x ∷ d) (y ∷ e) none hd he n nr fits =
    ground (arith, take_length e, drop_length d, append-nil e)
substitute_path_prefix-at (x ∷ d) (y ∷ e) (some rest) hd he n nr fits = ground (
  arith,
  take_length e,
  drop-append d (b'/' ∷ rest),
  length-append d (b'/' ∷ rest),
  length-append e (b'/' ∷ rest),
)

-- Moving a path from one directory to another and back gives the path again. Both directories are
-- written without a separator at the end, at most one of them is the root, and both paths fit
-- their buffers.
pub substitute_path_prefix_round_trip :
    (d e : Bytes) (r : Option Bytes)
    → length d ≢ 1
    → length e ≢ 1
    → (d ≢ []) ⊎ (e ≢ [])
    → r ≢ some []
    → length (at d r) + 1 < path_max
    → length (at e r) + 1 < path_max
    → (do
      moved ←
          substitute_path_prefix (at d r) (length (dir_name d)) (dir_name e) (length (dir_name e))
      substitute_path_prefix moved (length (dir_name e)) (dir_name d) (length (dir_name d)))
      ≡ ok (at d r)
substitute_path_prefix_round_trip d e r hd he n nr fd fe =
    rw (substitute_path_prefix-at d e r hd he n nr fe)
      (substitute_path_prefix-at e d r he hd (elim n [ inl p ↦ inr p | inr p ↦ inl p ]) nr fd)
