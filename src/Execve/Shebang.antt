-- ===== src/Execve/Shebang.antt =====
-- The first line of a script, of proot/src/execve/shebang.c. A file is the list of its bytes;
-- open(2) and read(2) succeed.
pub mod Line
pub mod Argument
use proot_termux.Base.{
  ℕ, zero, suc, ◌+◌, ◌-◌, Bool, true, false, ◌&&◌, ◌||◌, not, Option, some, none, ◌==◌,
  if◌then◌else◌, ltb, List, [], ◌∷◌, ◌++◌, Bytes, Result, ok, err, enoexec,
}

abbrev pub binprm_buf_size : ℕ
binprm_buf_size = 256

-- What a script asks for: the interpreter and its argument, which may be empty.
pub record Shebang : Type 0 where
  pub user_path : Bytes
  pub argument : Bytes

abbrev pub is_blank : ℕ → Bool
is_blank c = c == b' ' || c == b'\t'

abbrev pub is_line_end : ℕ → Bool
is_line_end c = c == b'\n' || c == b'\r'

-- A C string as it stands in a buffer: the bytes up to the first NUL.
abbrev pub c_string : Bytes → Bytes
c_string [] = []
c_string (c ∷ s) = let rest = c_string s in if c == 0 then [] else c ∷ rest

-- The bytes without the blanks at the end, but for the first byte. `kept` is reversed.
abbrev pub trim_blanks : Bytes → Bytes
trim_blanks [] = []
trim_blanks (c ∷ []) = c ∷ []
trim_blanks (c ∷ d ∷ kept) =
    let rest = trim_blanks (d ∷ kept) in if is_blank c then rest else c ∷ d ∷ kept

abbrev pub reverse_onto : Bytes → Bytes → Bytes
reverse_onto [] s = s
reverse_onto (c ∷ kept) s = reverse_onto kept (c ∷ s)

abbrev pub forwards : Bytes → Bytes
forwards kept = reverse_onto kept []

-- The loop at the label `argument`. `room` is BINPRM_BUF_SIZE - current_length; `kept` are the bytes
-- written to argument[], the last one first; `tmp` is the byte read.
abbrev pub slurp_argument : ℕ → Bytes → ℕ → Bytes → Bytes
slurp_argument zero kept tmp file = forwards kept
slurp_argument (suc room) kept tmp [] = if is_line_end tmp then forwards (trim_blanks kept) else []
slurp_argument (suc room) kept tmp (next ∷ file) =
    let rest = slurp_argument room (tmp ∷ kept) next file in
    if is_line_end tmp then forwards (trim_blanks kept) else rest

-- What is found: user_path[] and argument[] as C strings.
abbrev pub with_argument : Bytes → Bytes → Shebang
with_argument kept argument = record {
  user_path = c_string (forwards kept);
  argument = c_string argument;
}

-- Whether the byte before is the NUL that stands for a blank, at an index above 1.
abbrev pub at_argument : Bytes → Bool
at_argument [] = false
at_argument (c ∷ []) = false
at_argument (c ∷ d ∷ kept) = c == 0

-- The loop over the interpreter's path; `kept` are the bytes written to user_path[], the last one
-- first. At the end of the file, the NUL is written over the last byte.
abbrev pub slurp_path : ℕ → Bytes → ℕ → Bytes → Shebang
slurp_path zero kept tmp file = with_argument kept []
slurp_path (suc room) kept tmp [] =
    if not (is_blank tmp) && not (is_line_end tmp) && at_argument kept
    then with_argument kept (slurp_argument (suc room) [] tmp [])
    else with_argument kept []
slurp_path (suc room) kept tmp (next ∷ file) =
    let written = if is_blank tmp then 0 else tmp in
    let rest = slurp_path room (written ∷ kept) next file in
    if is_line_end tmp
    then with_argument kept []
    else if not (is_blank tmp) && at_argument kept
    then with_argument kept (slurp_argument (suc room) [] tmp (next ∷ file))
    else rest

-- The loop over the blanks behind "#!": the byte that ends it, the room that is left, and the rest of
-- the file. It is entered with some room.
abbrev pub skip_blanks : ℕ → Bytes → Result (ℕ × ℕ × Bytes)
skip_blanks zero file = err enoexec
skip_blanks (suc room) [] = err enoexec
skip_blanks (suc room) (tmp ∷ file) =
    let rest = skip_blanks room file in
    if is_blank tmp && ltb 0 room then rest else ok (tmp, room, file)

abbrev pub script_text : Bytes → Result (Option Shebang)
script_text file = elim (skip_blanks (binprm_buf_size - 2) file) [
  | err e ↦ err e
  | ok (tmp, room, behind) ↦ ok (some (slurp_path room [] tmp behind))
]

-- The shebang of a file; none where it is no script.
unfoldable pub extract_shebang : Bytes → Result (Option Shebang)
extract_shebang [] = ok none
extract_shebang (c ∷ []) = ok none
extract_shebang (c ∷ d ∷ file) =
    let read = script_text file in if c == b'#' && d == b'!' then read else ok none
