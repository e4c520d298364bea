-- ===== src/Path/Normalize.antt =====
-- `normalize_guest_path()` of proot/src/path/path.c. The bytes of `normalized` before the cursor
-- `out` are kept last first, so that `out[-1]` is the head and `out--` drops it.
pub mod Names
pub mod Stack
pub mod Meaning
use mathlib.Core.List.{reverse}
use proot_termux.Base.{
  ℕ, zero, suc, ◌+◌, Bool, true, false, not, ◌&&◌, List, [], ◌∷◌, ◌++◌, ◌==◌, if◌then◌else◌, ltb,
  leb, length, char_at, str_eq, Bytes, Option, some, none, Result, ok, err, einval, enametoolong,
  path_max, name_max,
}

-- `while (*cursor == '/') cursor++;`
abbrev pub skip_slashes : Bytes → Bytes
skip_slashes [] = []
skip_slashes (c ∷ s) = if c == b'/' then skip_slashes s else c ∷ s

-- The component at the cursor, up to a separator or the end.
abbrev pub component_of : Bytes → Bytes
component_of [] = []
component_of (c ∷ s) = if c == b'/' then [] else c ∷ component_of s

-- `cursor += length`
abbrev pub after_component : Bytes → Bytes
after_component [] = []
after_component (c ∷ s) = if c == b'/' then c ∷ s else after_component s

-- `while (out > normalized && out[-1] != '/') out--;`
abbrev pub back_to_slash : Bytes → Bytes
back_to_slash [] = []
back_to_slash (c ∷ out) = if c == b'/' then c ∷ out else back_to_slash out

abbrev pub pop_out : Bytes → Bytes
pop_out [] = []
pop_out (c ∷ []) = c ∷ []
pop_out (c ∷ d ∷ out) = back_to_slash (d ∷ out)

abbrev pub push_out : Bytes → Bytes → Result Bytes
push_out component out =
    if leb (length out + length component + 2) path_max
    then ok (
        reverse component
        ++ (if ltb 1 (length out) && not (char_at out 0 == b'/') then b'/' ∷ out else out))
    else err enametoolong

-- What the loop does with one component.
unfoldable pub normalize_component : Bytes → Bytes → Result Bytes
normalize_component component out =
    if leb name_max (length component)
    then err enametoolong
    else if str_eq component (b'.' ∷ [])
    then ok out
    else if str_eq component (b'.' ∷ b'.' ∷ [])
    then ok (pop_out out)
    else push_out component out

-- The loop over the cursor, with fuel: `none` means that the fuel ran out.
unfoldable pub normalize_from : ℕ → Bytes → Bytes → Option (Result Bytes)
normalize_from zero cursor out = none
normalize_from (suc fuel) cursor out = elim (component_of (skip_slashes cursor)) [
  | [] ↦ some (ok out)
  | c ∷ s ↦ elim (normalize_component (c ∷ s) out) [
    | err e ↦ some (err e)
    | ok out' ↦ normalize_from fuel (after_component (skip_slashes cursor)) out'
  ]
]

-- `if (out > normalized + 1 && out[-1] == '/') out[-1] = '\0';`
abbrev pub chop_out : Bytes → Bytes
chop_out [] = []
chop_out (c ∷ []) = c ∷ []
chop_out (c ∷ d ∷ out) = if c == b'/' then d ∷ out else c ∷ d ∷ out

unfoldable pub normalize_guest_path : Bytes → Option (Result Bytes)
normalize_guest_path path =
    if not (char_at path 0 == b'/')
    then some (err einval)
    else (elim (normalize_from (length path + 1) path (b'/' ∷ [])) [
      | none ↦ none
      | some (err e) ↦ some (err e)
      | some (ok out) ↦ some (ok (reverse (chop_out out)))
    ])
