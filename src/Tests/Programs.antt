-- ===== src/Tests/Programs.antt =====
-- Scripts and their interpreters.
use proot_termux.Base.{
  ◌≡◌, ◌⊎◌, refl, some, none, [], ◌∷◌, Bytes, ok, err, enoexec, arith, str_eq, if◌then◌else◌,
}
use proot_termux.Execve.Shebang.{extract_shebang}
use proot_termux.Execve.Shebang.Argument.{extract_shebang-line}
use proot_termux.Execve.Expand.{Argv, Host, Expanded, expand_shebang}
use proot_termux.Execve.Expand.Final.{IsProgram, BeginsEnds, arguments_of, expand_shebang-IsProgram}

abbrev sh : Bytes
sh = b'/' ∷ b's' ∷ b'h' ∷ []

abbrev dash_x : Bytes
dash_x = b'-' ∷ b'x' ∷ []

-- "#! /sh  -x \n:"
abbrev script : Bytes
script =
    b'#' ∷ b'!' ∷ b' ' ∷ b'/' ∷ b's' ∷ b'h' ∷ b' ' ∷ b' ' ∷ b'-' ∷ b'x' ∷ b' ' ∷ b'\n' ∷ b':' ∷ []

extract_shebang-line_example :
    extract_shebang script ≡ ok (some (record { user_path = sh; argument = dash_x }))
extract_shebang-line_example =
    extract_shebang-line b'/' b' ' b'-' b'\n' (b' ' ∷ []) (b's' ∷ b'h' ∷ []) (b' ' ∷ []) (b'x' ∷ [])
      (b' ' ∷ []) (b':' ∷ []) (ground arith) (ground arith) (ground arith) (ground arith)
      (ground arith) refl (ground arith) refl (omega arith)

-- Without an end of the line, the last byte of the path is lost.
cut_short :
    extract_shebang (b'#' ∷ b'!' ∷ sh)
    ≡ ok (some (record { user_path = b'/' ∷ b's' ∷ []; argument = [] }))
unfolding extract_shebang
cut_short = refl

no_path : extract_shebang (b'#' ∷ b'!' ∷ b' ' ∷ []) ≡ err enoexec
unfolding extract_shebang
no_path = refl

abbrev name_s : Bytes
name_s = b's' ∷ []

-- "s" is the script, and all other files are programs.
abbrev one_script : Host
one_script = record {
  translate = λ path. ok path;
  content = λ path. ok (if str_eq path name_s then script else []);
  fetch = ok (some name_s ∷ some dash_x ∷ none ∷ []);
}

abbrev shell : Expanded
shell = record {
  host_path = sh;
  user_path = sh;
  argv = some (some sh ∷ some dash_x ∷ some name_s ∷ some dash_x ∷ none ∷ []);
}

runs_shell : expand_shebang one_script name_s ≡ ok shell
unfolding expand_shebang
runs_shell = refl

expand_shebang-IsProgram_example :
    IsProgram one_script shell
    × (((shell.user_path ≡ name_s) × (shell.argv ≡ none))
        ⊎ ((last : Argv) × (shell.argv ≡ some last)
            × BeginsEnds shell.user_path
                (some name_s ∷ arguments_of (some name_s ∷ some dash_x ∷ none ∷ []))
                last))
expand_shebang-IsProgram_example =
    expand_shebang-IsProgram one_script name_s (some name_s ∷ some dash_x ∷ none ∷ []) shell refl
      (omega arith) runs_shell
