-- ===== src/Tests/Paths.antt =====
-- Runs of the functions of proot/src/path/path.c.
use proot_termux.Base.{◌++◌, ◌≡◌, ◌↔◌, refl, inl, [], ◌∷◌, Bytes, some, ok, ◌>>=◌, length, arith}
use proot_termux.Path.Compare.{
  paths_are_equal, path1_is_prefix, path2_is_prefix, compare_paths, trim, IsAbove,
  compare_paths_meaning,
}
use proot_termux.Path.Join.{
  join_paths, bounded, slash_between, join_paths-slash_between, substitute_path_prefix, dir_name,
  at, substitute_path_prefix_round_trip,
}
use proot_termux.Path.Normalize.{normalize_guest_path}
use proot_termux.Path.Normalize.Names.{components}
use proot_termux.Path.Normalize.Meaning.{AllShort, normalize_guest_path-resolve}

-- "/a", "/a/b" and "b"
abbrev dir_a : Bytes
dir_a = b'/' ∷ b'a' ∷ []

abbrev dir_ab : Bytes
dir_ab = b'/' ∷ b'a' ∷ b'/' ∷ b'b' ∷ []

abbrev name_b : Bytes
name_b = b'b' ∷ []

-- "/a//../b/."
abbrev crooked : Bytes
crooked = b'/' ∷ b'a' ∷ b'/' ∷ b'/' ∷ b'.' ∷ b'.' ∷ b'/' ∷ b'b' ∷ b'/' ∷ b'.' ∷ []

crooked-AllShort : AllShort (components crooked)
unfolding components
crooked-AllShort = ground arith

normalize_guest_path-resolve_example : normalize_guest_path crooked ≡ some (ok (b'/' ∷ b'b' ∷ []))
unfolding components
normalize_guest_path-resolve_example =
    normalize_guest_path-resolve crooked refl (omega arith) crooked-AllShort

compare_paths_meaning_example :
    ((compare_paths dir_a dir_ab ≡ paths_are_equal) ↔ (trim dir_a ≡ trim dir_ab))
    × ((compare_paths dir_a dir_ab ≡ path1_is_prefix) ↔ IsAbove (trim dir_a) (trim dir_ab))
    × ((compare_paths dir_a dir_ab ≡ path2_is_prefix) ↔ IsAbove (trim dir_ab) (trim dir_a))
compare_paths_meaning_example =
    compare_paths_meaning dir_a dir_ab (ground arith) (ground arith) (ground arith) (ground arith)

join_a_b : join_paths (some dir_a ∷ some name_b ∷ []) ≡ ok dir_ab
join_a_b = join_paths-slash_between dir_a name_b (ground arith) (omega arith)

-- "/a/" and "/b", where two separators become one.
abbrev ended_a : Bytes
ended_a = dir_a ++ b'/' ∷ []

join_ended_b : join_paths (some ended_a ∷ some (b'/' ∷ name_b) ∷ []) ≡ ok dir_ab
join_ended_b = join_paths-slash_between ended_a (b'/' ∷ name_b) (ground arith) (omega arith)

join_paths-slash_between_example :
    join_paths (some ended_a ∷ some (b'/' ∷ name_b) ∷ [])
    ≡ bounded (slash_between ended_a (b'/' ∷ name_b))
join_paths-slash_between_example =
    join_paths-slash_between ended_a (b'/' ∷ name_b) (ground arith) (omega arith)

-- From "/a" to the root and back.
substitute_path_prefix_round_trip_example :
    (do
      moved ← substitute_path_prefix (at dir_a (some name_b)) (length dir_a) (dir_name []) 1
      substitute_path_prefix moved 1 dir_a (length dir_a))
    ≡ ok (at dir_a (some name_b))
substitute_path_prefix_round_trip_example =
    substitute_path_prefix_round_trip dir_a [] (some name_b) (ground arith) (ground arith)
      (inl (ground arith)) (ground arith) (omega arith) (omega arith)
