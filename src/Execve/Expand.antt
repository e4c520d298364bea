-- ===== src/Execve/Expand.antt =====
-- Scripts that are replaced by their interpreters, expand_shebang() of proot/src/execve/shebang.c,
-- with the array of arguments of proot/src/execve/aoxp.c. The translation of a path, the bytes of a
-- file and argv[] in the tracee's memory are arguments; memory can be had, and writes succeed.
pub mod Final
use proot_termux.Base.{
  ℕ, zero, suc, ◌+◌, ◌≡◌, ◌⊎◌, inl, inr, refl, sym, ap, ◌∙◌, Bool, true, false, ◌==◌, ==_iff, arith,
  if◌then◌else◌, Option, some, none, List, [], ◌∷◌, ◌++◌, length, set, drop, replicate, Bytes,
  Result, ok, err, ◌>>=◌, >>=-ok, eloop, Bool-cases, Result-cases, Option-cases,
}
use proot_termux.Execve.Shebang.{Shebang, extract_shebang}

-- The number of glibc; that of bionic is 8.
abbrev pub maxsymlinks : ℕ
maxsymlinks = 20

-- `ArrayOfXPointers`: the strings, and none for the null pointer at the end.
abbrev pub Argv : Type 0
Argv = List (Option Bytes)

-- `resize_array_of_xpointers`, at the index 0, by some more entries.
abbrev pub resize : ℕ → Argv → Argv
resize delta argv = replicate delta none ++ argv

abbrev pub write_xpointees : ℕ → List Bytes → Argv → Argv
write_xpointees index [] argv = argv
write_xpointees index (object ∷ objects) argv =
    write_xpointees (index + 1) objects (set argv index (some object))

-- One more entry where argv[] holds the null pointer only.
abbrev pub extra : Argv → ℕ
extra argv = if length argv == 1 then 1 else 0

abbrev pub with_strings : Bytes → Bytes → Bytes → Argv → Argv
with_strings user_path [] old_user_path argv =
    write_xpointees 0 (user_path ∷ old_user_path ∷ []) (resize (1 + extra argv) argv)
with_strings user_path (c ∷ s) old_user_path argv =
    write_xpointees 0 (user_path ∷ (c ∷ s) ∷ old_user_path ∷ []) (resize (2 + extra argv) argv)

abbrev pub with_interpreter : Shebang → Bytes → Argv → Argv
with_interpreter shebang old_user_path argv =
    with_strings shebang.user_path shebang.argument old_user_path argv

-- What `translate_and_check_exec`, the reads of a file and `fetch_array_of_xpointers` answer.
pub record Host : Type 0 where
  pub translate : Bytes → Result Bytes
  pub content : Bytes → Result Bytes
  pub fetch : Result Argv

-- What is run, and argv[] where it was changed; `has_shebang` is whether it was.
pub record Expanded : Type 0 where
  pub host_path : Bytes
  pub user_path : Bytes
  pub argv : Option Argv

abbrev pub fetched : Host → Option Argv → Result Argv
fetched host none = host.fetch
fetched host (some argv) = ok argv

-- The loop; the first argument is `MAXSYMLINKS - i`.
abbrev pub expand_from : ℕ → Host → Bytes → Option Argv → Result Expanded
unfolding extract_shebang
expand_from zero host user_path argv = err eloop
expand_from (suc left) host user_path argv = host.translate user_path >>= λ host_path.
    host.content host_path >>= λ file. extract_shebang file >>= λ found. elim found [
      | none ↦ ok (record { host_path = host_path; user_path = user_path; argv = argv })
      | some shebang ↦ host.translate shebang.user_path >>= λ interpreter.
          fetched host argv >>= λ entries.
          expand_from left host shebang.user_path
            (some (with_interpreter shebang user_path entries))
    ]

unfoldable pub expand_shebang : Host → Bytes → Result Expanded
unfolding expand_from
expand_shebang host user_path = expand_from maxsymlinks host user_path none
