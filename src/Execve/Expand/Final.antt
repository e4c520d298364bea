-- ===== src/Execve/Expand/Final.antt =====
-- What expand_shebang ends with.
use proot_termux.Base.{
  ℕ, zero, suc, ◌≡◌, ◌⊎◌, ◌<◌, inl, inr, refl, sym, ap, subst, ◌∙◌, arith, Option, some, none, [],
  ◌∷◌, ◌++◌, length, Bytes, ok, ◌>>=◌, >>=-ok, Option-cases,
}
use proot_termux.Execve.Shebang.{Shebang, extract_shebang}
use proot_termux.Execve.Expand.{
  Argv, extra, with_strings, with_interpreter, Host, Expanded, fetched, expand_from, expand_shebang,
}

-- The program that is run is no script.
pub record IsProgram (host : Host) (r : Expanded) : Type 0 where
  pub file : Bytes
  pub translated : host.translate r.user_path ≡ ok r.host_path
  pub read : host.content r.host_path ≡ ok file
  pub plain : extract_shebang file ≡ ok none

-- The arguments of the script, from its second one on, with the null pointer at the end.
abbrev pub arguments_of : Argv → Argv
arguments_of [] = []
arguments_of (a ∷ []) = a ∷ []
arguments_of (a ∷ b ∷ argv) = b ∷ argv

abbrev given : Bytes → Bytes → Argv
given [] old_user_path = some old_user_path ∷ []
given (c ∷ s) old_user_path = some (c ∷ s) ∷ some old_user_path ∷ []

with_strings-given :
    (user_path argument old_user_path : Bytes) (argv : Argv)
    → 0 < length argv
    → with_strings user_path argument old_user_path argv
      ≡ some user_path ∷ (given argument old_user_path ++ arguments_of argv)
with_strings-given user_path argument old_user_path [] h = absurd (omega arith)
with_strings-given user_path [] old_user_path (a ∷ []) h = refl
with_strings-given user_path (c ∷ s) old_user_path (a ∷ []) h = refl
with_strings-given user_path [] old_user_path (a ∷ b ∷ argv) h =
    let more : extra (a ∷ b ∷ argv) ≡ 0 = ground arith in rw more refl
with_strings-given user_path (c ∷ s) old_user_path (a ∷ b ∷ argv) h =
    let more : extra (a ∷ b ∷ argv) ≡ 0 = ground arith in rw more refl

given-append :
    (argument old_user_path : Bytes) (argv : Argv)
    → (front : Argv) × (given argument old_user_path ++ argv ≡ front ++ some old_user_path ∷ argv)
given-append [] old_user_path argv = ([], refl)
given-append (c ∷ s) old_user_path argv = (some (c ∷ s) ∷ [], refl)

-- One turn of the loop, if the loop comes to a program.
expand_from_step :
    (left : ℕ) (host : Host) (user_path : Bytes) (argv : Option Argv) (r : Expanded)
    → expand_from (suc left) host user_path argv ≡ ok r
    → (IsProgram host r × (r.user_path ≡ user_path) × (r.argv ≡ argv))
      ⊎ ((shebang : Shebang) × (entries : Argv) × (fetched host argv ≡ ok entries)
          × (expand_from left host shebang.user_path
                (some (with_interpreter shebang user_path entries))
              ≡ ok r))
unfolding expand_from
expand_from_step left host user_path argv r e =
    let (host_path, e1, translated) = >>=-ok (host.translate user_path) e in
    let (file, e2, read) = >>=-ok (host.content host_path) e1 in
    let (found, e3, extracted) = >>=-ok (extract_shebang file) e2 in
    elim (Option-cases found) [
      | inl plain ↦
          let same : record { host_path = host_path; user_path = user_path; argv = argv } ≡ r =
            ground arith in
          let program : IsProgram host r = record {
            file = file;
            translated = subst (λ x. host.translate x.user_path ≡ ok x.host_path) same translated;
            read = subst (λ x. host.content x.host_path ≡ ok file) same read;
            plain = extracted ∙ ap ok plain;
          } in
          inl (program, ap (λ x. x.user_path) (sym same), ap (λ x. x.argv) (sym same))
      | inr (shebang, script) ↦
          let e4 : host.translate shebang.user_path >>= (λ interpreter.
            fetched host argv >>= λ entries.
            expand_from left host shebang.user_path
              (some (with_interpreter shebang user_path entries)))
              ≡ ok r =
            ground arith in
          let (interpreter, e5, checked) = >>=-ok (host.translate shebang.user_path) e4 in
          let (entries, e6, given_argv) = >>=-ok (fetched host argv) e5 in
          inr (shebang, entries, given_argv, e6)
    ]

-- An array that begins with the path of the program and ends with `tail`.
abbrev pub BeginsEnds : Bytes → Argv → Argv → Type 0
BeginsEnds user_path tail argv = (front : Argv) × (argv ≡ some user_path ∷ (front ++ tail))

arguments_of-append :
    (a t : Option Bytes) (front tail : Argv)
    → arguments_of (a ∷ (front ++ t ∷ tail)) ≡ front ++ t ∷ tail
arguments_of-append a t [] tail = refl
arguments_of-append a t (f ∷ front) tail = refl

append_assoc : (a b c : Argv) → a ++ (b ++ c) ≡ (a ++ b) ++ c
append_assoc [] b c = refl
append_assoc (x ∷ a) b c = ap (λ s. x ∷ s) (append_assoc a b c)

-- A turn keeps the end of the array.
with_interpreter-BeginsEnds :
    (shebang : Shebang) (old_user_path u : Bytes) (argv : Argv) (t : Option Bytes) (tail : Argv)
    → BeginsEnds u (t ∷ tail) argv
    → BeginsEnds shebang.user_path (t ∷ tail) (with_interpreter shebang old_user_path argv)
with_interpreter-BeginsEnds shebang old_user_path u argv t tail (front, e) =
    let some_entries : 0 < length argv = rw e (omega arith) in
    (
      given shebang.argument old_user_path ++ front,
      with_strings-given shebang.user_path shebang.argument old_user_path argv some_entries
          ∙ ap (λ a. some shebang.user_path ∷ (given shebang.argument old_user_path ++ a))
              (ap arguments_of e ∙ arguments_of-append (some u) t front tail)
          ∙ ap (λ a. some shebang.user_path ∷ a)
              (append_assoc (given shebang.argument old_user_path) front (t ∷ tail)),
    )

expand_from-BeginsEnds :
    (left : ℕ) (host : Host) (user_path : Bytes) (argv : Argv) (t : Option Bytes) (tail : Argv)
    (r : Expanded)
    → BeginsEnds user_path (t ∷ tail) argv
    → expand_from left host user_path (some argv) ≡ ok r
    → IsProgram host r
      × ((last : Argv) × (r.argv ≡ some last) × BeginsEnds r.user_path (t ∷ tail) last)
unfolding expand_from
expand_from-BeginsEnds zero host user_path argv t tail r h e = absurd (ground arith)
expand_from-BeginsEnds (suc left) host user_path argv t tail r h e =
    elim (expand_from_step left host user_path (some argv) r e) [
      | inl (program, same_path, same_argv) ↦
          (program, (argv, same_argv, subst (λ u. BeginsEnds u (t ∷ tail) argv) (sym same_path) h))
      | inr (shebang, entries, fetched_argv, later) ↦
          let same : argv ≡ entries = ground arith in
          let kept : BeginsEnds user_path (t ∷ tail) entries =
            subst (BeginsEnds user_path (t ∷ tail)) same h in
          expand_from-BeginsEnds left host shebang.user_path
            (with_interpreter shebang user_path entries) t tail r
            (with_interpreter-BeginsEnds shebang user_path user_path entries t tail kept) later
    ]

-- The first script hands its own path on, before its arguments.
with_interpreter-first :
    (shebang : Shebang) (user_path : Bytes) (argv : Argv)
    → 0 < length argv
    → BeginsEnds shebang.user_path
        (some user_path ∷ arguments_of argv)
        (with_interpreter shebang user_path argv)
with_interpreter-first shebang user_path argv h =
    let (front, e) = given-append shebang.argument user_path (arguments_of argv) in
    (
      front,
      with_strings-given shebang.user_path shebang.argument user_path argv h
          ∙ ap (λ a. some shebang.user_path ∷ a) e,
    )

-- Where expand_shebang succeeds, the path that it returns is translated to the file returned, which
-- is no script; and either the path is the one that was asked for and argv[] is left alone, or argv[]
-- begins with the path returned and ends with the path that was asked for and the arguments of the
-- script from the second one on. It is assumed that the argv[] read has an entry.
pub expand_shebang-IsProgram :
    (host : Host) (user_path : Bytes) (argv : Argv) (r : Expanded)
    → host.fetch ≡ ok argv
    → 0 < length argv
    → expand_shebang host user_path ≡ ok r
    → IsProgram host r
      × (((r.user_path ≡ user_path) × (r.argv ≡ none))
          ⊎ ((last : Argv) × (r.argv ≡ some last)
              × BeginsEnds r.user_path (some user_path ∷ arguments_of argv) last))
unfolding expand_shebang
expand_shebang-IsProgram host user_path argv r fetch h e =
    elim (expand_from_step 19 host user_path none r e) [
      | inl (program, same_path, same_argv) ↦ (program, inl (same_path, same_argv))
      | inr (shebang, entries, fetched_argv, later) ↦
          let same : argv ≡ entries = ground arith in
          let (program, (last, found, ends)) =
            expand_from-BeginsEnds 19 host shebang.user_path
              (with_interpreter shebang user_path entries) (some user_path) (arguments_of entries) r
              (with_interpreter-first shebang user_path entries (subst (λ a. 0 < length a) same h))
              later in
          let ends' =
            subst (λ a. BeginsEnds r.user_path (some user_path ∷ arguments_of a) last) (sym same)
              ends in
          (program, inr (last, found, ends'))
    ]
