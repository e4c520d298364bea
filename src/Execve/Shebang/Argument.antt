-- ===== src/Execve/Shebang/Argument.antt =====
-- A whole line with an argument.
use proot_termux.Base.{
  ℕ, suc, ◌+◌, ◌-◌, ◌≡◌, ◌<◌, refl, sym, ap, ap₂, subst, ◌∙◌, true, false, arith, some, [], ◌∷◌,
  ◌++◌, length, All, All-append, replicate, Bytes, ok,
}
use proot_termux.Execve.Shebang.{
  binprm_buf_size, is_line_end, c_string, trim_blanks, forwards, slurp_argument, with_argument,
  at_argument, slurp_path, skip_blanks, script_text, extract_shebang,
}
use proot_termux.Execve.Shebang.Line.{
  IsPlain, IsBlank, IsText, onto, room_for, room_for_sum, ends_plain, slurp_argument-text,
  slurp_path-word, slurp_path-blanks, slurp_path-slurp_argument, skip_blanks-append,
  reverse_onto-onto, append_nil, c_string-text, c_string-word, trim_blanks-onto_blanks,
  trim_blanks-ends_plain, onto-append, above_zero, text_above_zero, onto_zeros-at_argument,
  onto-some,
}

-- user_path[], with its blanks as NUL, is the path.
path_read :
    (c n : ℕ) (path : Bytes)
    → All IsPlain (c ∷ path)
    → c_string (forwards (onto (0 ∷ onto (c ∷ []) path) (replicate n 0))) ≡ c ∷ path
path_read c n path h =
    let zeros = replicate n 0 in
    ap c_string (
      reverse_onto-onto (0 ∷ onto (c ∷ []) path) zeros []
      ∙ reverse_onto-onto (c ∷ []) path (0 ∷ (zeros ++ [])))
    ∙ c_string-word (c ∷ path) (zeros ++ []) (above_zero (c ∷ path) h)

-- argument[], without the blanks at its end, is the argument.
argument_read :
    (c : ℕ) (argument trail : Bytes)
    → All IsText (c ∷ argument)
    → All IsBlank trail
    → ends_plain (c ∷ argument) ≡ true
    → c_string (forwards (trim_blanks (onto (c ∷ []) (argument ++ trail)))) ≡ c ∷ argument
argument_read c argument trail h blanks plain =
    let (d, kept, e) = onto-some argument c [] in
    let trimmed : trim_blanks (onto (c ∷ []) (argument ++ trail)) ≡ onto (c ∷ []) argument =
      ap trim_blanks (onto-append (c ∷ []) argument trail ∙ ap (λ k. onto k trail) e)
      ∙ trim_blanks-onto_blanks trail d kept blanks
      ∙ ap trim_blanks (sym e)
      ∙ trim_blanks-ends_plain argument c [] plain in
    ap (λ k. c_string (forwards k)) trimmed
    ∙ ap c_string (reverse_onto-onto (c ∷ []) argument [] ∙ ap (λ s. c ∷ s) (append_nil argument))
    ∙ c_string-text (c ∷ argument) (text_above_zero (c ∷ argument) h)

blank-IsText : (s : Bytes) → All IsBlank s → All IsText s
blank-IsText [] h = tt
blank-IsText (c ∷ s) h =
    let text : (is_line_end c ≡ false) × (0 < c) = ground (arith, h.0) in (text, blank-IsText s h.1)

-- The loop from the first byte of the path on.
slurp_path-line :
    (room c b d newline : ℕ) (path blanks argument trail rest : Bytes)
    → All IsPlain (c ∷ path)
    → All IsBlank (b ∷ blanks)
    → IsPlain d
    → All IsText (d ∷ argument)
    → All IsBlank trail
    → ends_plain (d ∷ argument) ≡ true
    → is_line_end newline ≡ true
    → length (argument ++ trail) < room
    → slurp_path
        (room_for path (room_for blanks (suc room)))
        []
        c
        (path ++ b ∷ (blanks ++ d ∷ ((argument ++ trail) ++ newline ∷ rest)))
      ≡ record { user_path = c ∷ path; argument = d ∷ argument }
slurp_path-line room c b d newline path blanks argument trail rest hp hb hd ha ht plain end small =
    let kept = onto (0 ∷ onto (c ∷ []) path) (replicate (length blanks) 0) in
    let text = argument ++ trail in
    let (last, before, e) = onto-some path c [] in
    let here : at_argument kept ≡ true =
      rw e (onto_zeros-at_argument (length blanks) last before) in
    let read : slurp_argument (suc room) [] d (text ++ newline ∷ rest)
        ≡ forwards (trim_blanks (onto (d ∷ []) text)) =
      slurp_argument-text text (suc room) [] d newline rest
        (ha.0, All-append IsText argument trail ha.1 (blank-IsText trail ht)) end (omega arith) in
    slurp_path-word path (room_for blanks (suc room)) [] c b _ hp refl
    ∙ slurp_path-blanks blanks (suc room) (onto (c ∷ []) path) b d _ hb
    ∙ slurp_path-slurp_argument room kept d (text ++ newline ∷ rest) hd here
    ∙ ap (with_argument kept) read
    ∙ ap₂ (λ p a. record { user_path = p; argument = a }) (path_read c (length blanks) path hp)
        (argument_read d argument trail ha ht plain)

-- A first line "#!", blanks, a path, blanks, an argument, blanks and the end of the line, of fewer than
-- BINPRM_BUF_SIZE bytes, gives the path and the argument, whatever follows it. The path has no blank,
-- the argument may have some, but not at its ends; no byte of the two is NUL or ends a line.
pub extract_shebang-line :
    (c b d newline : ℕ) (lead path blanks argument trail rest : Bytes)
    → All IsBlank lead
    → All IsPlain (c ∷ path)
    → All IsBlank (b ∷ blanks)
    → IsPlain d
    → All IsText (d ∷ argument)
    → ends_plain (d ∷ argument) ≡ true
    → All IsBlank trail
    → is_line_end newline ≡ true
    → length lead + length path + length blanks + length (argument ++ trail) + 6 < binprm_buf_size
    → extract_shebang (
        b'#'
        ∷ b'!'
        ∷ (lead ++ c ∷ (path ++ b ∷ (blanks ++ d ∷ ((argument ++ trail) ++ newline ∷ rest)))))
      ≡ ok (some (record { user_path = c ∷ path; argument = d ∷ argument }))
unfolding extract_shebang
extract_shebang-line c b d newline lead path blanks argument trail rest hl hp hb hd ha plain ht end
      h =
    let text = argument ++ trail in
    let room = 250 - (length lead + length path + length blanks) in
    let left = room_for path (room_for blanks (suc room)) in
    let file = path ++ b ∷ (blanks ++ d ∷ (text ++ newline ∷ rest)) in
    let whole : room_for lead left ≡ binprm_buf_size - 2 = omega (
      arith,
      room_for_sum lead left,
      room_for_sum path (room_for blanks (suc room)),
      room_for_sum blanks (suc room),
    ) in
    let skipped : skip_blanks (binprm_buf_size - 2) (lead ++ c ∷ file) ≡ ok (c, left, file) =
      subst (λ n. skip_blanks n (lead ++ c ∷ file) ≡ ok (c, left, file)) whole
        (skip_blanks-append lead left c file hl hp.0.0) in
    let found =
      slurp_path-line room c b d newline path blanks argument trail rest hp hb hd ha ht plain end
        (omega arith) in
    let ran : script_text (lead ++ c ∷ file) ≡ ok (some (slurp_path left [] c file)) =
      rw (script_text, skipped) refl in
    ran ∙ ap (λ r. ok (some r)) found
