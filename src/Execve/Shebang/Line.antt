-- ===== src/Execve/Shebang/Line.antt =====
-- The lines that extract_shebang reads.
use proot_termux.Base.{
  ℕ, zero, suc, ◌+◌, ◌≡◌, ◌<◌, refl, ap, ◌∙◌, Bool, true, false, not, arith, ltb, [], ◌∷◌, ◌++◌,
  length, All, Bytes, ok, replicate,
}
use proot_termux.Execve.Shebang.{
  is_blank, is_line_end, c_string, trim_blanks, forwards, reverse_onto, slurp_argument,
  with_argument, at_argument, slurp_path, skip_blanks,
}

-- A byte of a word: no blank, no end of a line and no NUL.
abbrev pub IsPlain : ℕ → Type 0
IsPlain c = (is_blank c ≡ false) × (is_line_end c ≡ false) × (0 < c)

abbrev pub IsBlank : ℕ → Type 0
IsBlank c = is_blank c ≡ true

-- Bytes that an argument may have: blanks as well.
abbrev pub IsText : ℕ → Type 0
IsText c = (is_line_end c ≡ false) × (0 < c)

-- The reversal of a string onto another, as the loops keep it.
abbrev pub onto : Bytes → Bytes → Bytes
onto kept [] = kept
onto kept (c ∷ s) = onto (c ∷ kept) s

-- Bytes that are read into argument[], up to the end of the line.
pub slurp_argument-text :
    (text : Bytes) (room : ℕ) (kept : Bytes) (tmp newline : ℕ) (rest : Bytes)
    → All IsText (tmp ∷ text)
    → is_line_end newline ≡ true
    → length text + 1 < room
    → slurp_argument room kept tmp (text ++ newline ∷ rest)
      ≡ forwards (trim_blanks (onto (tmp ∷ kept) text))
slurp_argument-text text zero kept tmp newline rest h e small = absurd (omega arith)
slurp_argument-text text (suc zero) kept tmp newline rest h e small = absurd (omega arith)
slurp_argument-text [] (suc (suc room)) kept tmp newline [] h e small = ground arith
slurp_argument-text [] (suc (suc room)) kept tmp newline (r ∷ rest) h e small = ground arith
slurp_argument-text (c ∷ text) (suc (suc room)) kept tmp newline rest h e small =
    ground
      (arith, slurp_argument-text text (suc room) (tmp ∷ kept) c newline rest h.1 e (omega arith))

-- The room that a byte and a string leave `room` of.
abbrev pub room_for : Bytes → ℕ → ℕ
room_for [] room = suc room
room_for (c ∷ s) room = suc (room_for s room)

pub room_for_sum : (s : Bytes) (room : ℕ) → room_for s room ≡ length s + 1 + room
room_for_sum [] room = omega arith
room_for_sum (c ∷ s) room = omega (arith, room_for_sum s room)

-- One byte of the interpreter's path, and one blank behind it.
slurp_path_plain :
    (room : ℕ) (kept : Bytes) (tmp next : ℕ) (file : Bytes)
    → IsPlain tmp
    → at_argument kept ≡ false
    → slurp_path (suc room) kept tmp (next ∷ file) ≡ slurp_path room (tmp ∷ kept) next file
slurp_path_plain room kept tmp next file (blank, end, nonzero) first = rw (blank, end, first) refl

slurp_path_blank :
    (room : ℕ) (kept : Bytes) (tmp next : ℕ) (file : Bytes)
    → IsBlank tmp
    → slurp_path (suc room) kept tmp (next ∷ file) ≡ slurp_path room (0 ∷ kept) next file
slurp_path_blank room kept tmp next file blank =
    let end : is_line_end tmp ≡ false = ground arith in rw (blank, end) refl

behind_plain : (tmp : ℕ) (kept : Bytes) → 0 < tmp → at_argument (tmp ∷ kept) ≡ false
behind_plain tmp [] h = refl
behind_plain tmp (d ∷ kept) h = ground arith

pub slurp_path-word :
    (word : Bytes) (room : ℕ) (kept : Bytes) (tmp next : ℕ) (rest : Bytes)
    → All IsPlain (tmp ∷ word)
    → at_argument kept ≡ false
    → slurp_path (room_for word room) kept tmp (word ++ next ∷ rest)
      ≡ slurp_path room (onto (tmp ∷ kept) word) next rest
slurp_path-word [] room kept tmp next rest h first =
    slurp_path_plain room kept tmp next rest h.0 first
slurp_path-word (c ∷ word) room kept tmp next rest h first =
    let behind : at_argument (tmp ∷ kept) ≡ false = behind_plain tmp kept h.0.2 in
    slurp_path_plain (room_for word room) kept tmp c (word ++ next ∷ rest) h.0 first
    ∙ slurp_path-word word room (tmp ∷ kept) c next rest h.1 behind

pub slurp_path-blanks :
    (blanks : Bytes) (room : ℕ) (kept : Bytes) (tmp next : ℕ) (rest : Bytes)
    → All IsBlank (tmp ∷ blanks)
    → slurp_path (room_for blanks room) kept tmp (blanks ++ next ∷ rest)
      ≡ slurp_path room (onto (0 ∷ kept) (replicate (length blanks) 0)) next rest
slurp_path-blanks [] room kept tmp next rest h = slurp_path_blank room kept tmp next rest h.0
slurp_path-blanks (c ∷ blanks) room kept tmp next rest h =
    slurp_path_blank (room_for blanks room) kept tmp c (blanks ++ next ∷ rest) h.0
    ∙ slurp_path-blanks blanks room (0 ∷ kept) c next rest h.1

pub slurp_path-slurp_argument :
    (room : ℕ) (kept : Bytes) (tmp : ℕ) (file : Bytes)
    → IsPlain tmp
    → at_argument kept ≡ true
    → slurp_path (suc room) kept tmp file
      ≡ with_argument kept (slurp_argument (suc room) [] tmp file)
slurp_path-slurp_argument room kept tmp [] (blank, end, nonzero) here = rw (blank, end, here) refl
slurp_path-slurp_argument room kept tmp (next ∷ file) (blank, end, nonzero) here =
    rw (blank, end, here) refl

-- The blanks behind "#!".
pub skip_blanks-append :
    (lead : Bytes) (room tmp : ℕ) (file : Bytes)
    → All IsBlank lead
    → is_blank tmp ≡ false
    → skip_blanks (room_for lead room) (lead ++ tmp ∷ file) ≡ ok (tmp, room, file)
skip_blanks-append [] room tmp file h plain = rw plain refl
skip_blanks-append (c ∷ lead) room tmp file h plain =
    let some_room : ltb 0 (room_for lead room) ≡ true = ground (arith, room_for_sum lead room) in
    rw (h.0, some_room) (skip_blanks-append lead room tmp file h.1 plain)

-- What the buffers hold.
pub reverse_onto-onto :
    (kept s t : Bytes) → reverse_onto (onto kept s) t ≡ reverse_onto kept (s ++ t)
reverse_onto-onto kept [] t = refl
reverse_onto-onto kept (c ∷ s) t = reverse_onto-onto (c ∷ kept) s t

pub append_nil : (s : Bytes) → s ++ [] ≡ s
append_nil [] = refl
append_nil (c ∷ s) = ap (λ r. c ∷ r) (append_nil s)

pub c_string-text : (s : Bytes) → All (λ c. 0 < c) s → c_string s ≡ s
c_string-text [] h = refl
c_string-text (c ∷ s) h = ground (arith, c_string-text s h.1)

pub c_string-word : (s rest : Bytes) → All (λ c. 0 < c) s → c_string (s ++ 0 ∷ rest) ≡ s
c_string-word [] rest h = refl
c_string-word (c ∷ s) rest h = ground (arith, c_string-word s rest h.1)

pub trim_blanks-onto_blanks :
    (trail : Bytes) (c : ℕ) (kept : Bytes)
    → All IsBlank trail
    → trim_blanks (onto (c ∷ kept) trail) ≡ trim_blanks (c ∷ kept)
trim_blanks-onto_blanks [] c kept h = refl
trim_blanks-onto_blanks (d ∷ trail) c kept h =
    trim_blanks-onto_blanks trail d (c ∷ kept) h.1 ∙ rw h.0 refl

-- Whether the last byte is no blank.
abbrev pub ends_plain : Bytes → Bool
ends_plain [] = true
ends_plain (c ∷ []) = not (is_blank c)
ends_plain (c ∷ d ∷ s) = ends_plain (d ∷ s)

pub trim_blanks-ends_plain :
    (s : Bytes) (c : ℕ) (kept : Bytes)
    → ends_plain (c ∷ s) ≡ true
    → trim_blanks (onto (c ∷ kept) s) ≡ onto (c ∷ kept) s
trim_blanks-ends_plain [] c [] h = refl
trim_blanks-ends_plain [] c (d ∷ kept) h = ground arith
trim_blanks-ends_plain (d ∷ s) c kept h = trim_blanks-ends_plain s d (c ∷ kept) h

pub onto-append : (kept s t : Bytes) → onto kept (s ++ t) ≡ onto (onto kept s) t
onto-append kept [] t = refl
onto-append kept (c ∷ s) t = onto-append (c ∷ kept) s t

pub above_zero : (s : Bytes) → All IsPlain s → All (λ c. 0 < c) s
above_zero [] h = tt
above_zero (c ∷ s) h = (h.0.2, above_zero s h.1)

pub text_above_zero : (s : Bytes) → All IsText s → All (λ c. 0 < c) s
text_above_zero [] h = tt
text_above_zero (c ∷ s) h = (h.0.1, text_above_zero s h.1)

pub onto_zeros-at_argument :
    (n c : ℕ) (kept : Bytes) → at_argument (onto (0 ∷ c ∷ kept) (replicate n 0)) ≡ true
onto_zeros-at_argument zero c kept = refl
onto_zeros-at_argument (suc n) c kept = onto_zeros-at_argument n 0 (c ∷ kept)

pub onto-some :
    (s : Bytes) (c : ℕ) (kept : Bytes) → (d : ℕ) × (rest : Bytes) × (onto (c ∷ kept) s ≡ d ∷ rest)
onto-some [] c kept = (c, kept, refl)
onto-some (d ∷ s) c kept = onto-some s d (c ∷ kept)
