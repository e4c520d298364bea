-- ===== src/Syscall/Seccomp/Filter/Text.antt =====
-- The statements that the loops of `set_seccomp_filters` add.
use mathlib.Core.List.{append-nil, append_assoc}
use proot_termux.Base.{
  ℕ, ◌-◌, ◌+◌, ◌*◌, ◌^◌, ◌≤◌, ◌<◌, ◌≡◌, ◌≢◌, refl, sym, ap, ◌∙◌, ◌==◌, if◌then◌else◌, ltb, not,
  true, false, Bool-cases, inl, inr, ok, err, erange, List, [], ◌∷◌, ◌++◌, length, length-append,
  All, arith,
}
use proot_termux.Syscall.Sysnum.{Sysnums, detranslate_sysnum, syscall_avoider, pr_void}
use proot_termux.Syscall.Seccomp.{FilteredSysnum}
use proot_termux.Syscall.Seccomp.Filter.{
  Statement, ret, Program, SeccompArch, seccomp_ret_allow, uint32_max, len_of, add_statements,
  trace_statements, add_trace_syscall, section_length, end_arch_section, start_arch_section,
  start_statements, count_abi, count_abis, trace_abi, trace_abis, add_arch, add_archs,
}

-- The statements of one ABI, of several, and of an architecture.
unfoldable pub abi_text : Sysnums → List FilteredSysnum → List Statement
abi_text abi [] = []
abi_text abi (x ∷ sysnums) =
    if x.value == pr_void
    then []
    else if detranslate_sysnum abi x.value == syscall_avoider
    then abi_text abi sysnums
    else trace_statements (detranslate_sysnum abi x.value) x.flags ++ abi_text abi sysnums

unfoldable pub abis_text : List Sysnums → List FilteredSysnum → List Statement
abis_text [] sysnums = []
abis_text (abi ∷ abis) sysnums = abi_text abi sysnums ++ abis_text abis sysnums

unfoldable pub arch_text : SeccompArch → List FilteredSysnum → List Statement
arch_text a sysnums =
    start_statements a.value (count_abis a.abis sysnums)
    ++ (abis_text a.abis sysnums ++ ret seccomp_ret_allow ∷ [])

-- The numbers of an ABI fit the 32 bits of a BPF constant, and so does the length of a section.
abbrev pub IsNarrow : List FilteredSysnum → Sysnums → Type 0
IsNarrow sysnums abi =
    All
      (λ x.
        (detranslate_sysnum abi x.value ≢ syscall_avoider)
        → detranslate_sysnum abi x.value ≤ uint32_max)
      sysnums

abbrev pub IsShort : List FilteredSysnum → SeccompArch → Type 0
IsShort sysnums a =
    All (IsNarrow sysnums) a.abis × (section_length (count_abis a.abis sysnums) ≤ uint32_max - 1)

-- The number of statements of the whole program: four at the start of a section, the section itself,
-- and the one at the end.
abbrev pub program_length : List FilteredSysnum → List SeccompArch → ℕ
program_length sysnums [] = 1
program_length sysnums (a ∷ archs) =
    4 + section_length (count_abis a.abis sysnums) + program_length sysnums archs

abbrev pub program_of : ℕ → List Statement → Program
program_of len filter = record { len = len; filter = filter }

add_nil : (p : Program) → add_statements p [] ≡ p
add_nil p = ap (λ l. record p { filter = l }) (append-nil p.filter)

add_add :
    (p : Program) (xs ys : List Statement)
    → add_statements (add_statements p xs) ys ≡ add_statements p (xs ++ ys)
add_add p xs ys = ap (λ l. record p { filter = l }) (append_assoc p.filter xs ys)

-- Under these bounds the loops add the text and do not fail.
trace_abi-text :
    (abi : Sysnums) (p : Program) (sysnums : List FilteredSysnum)
    → IsNarrow sysnums abi
    → trace_abi abi p sysnums ≡ ok (add_statements p (abi_text abi sysnums))
unfolding add_trace_syscall abi_text
trace_abi-text abi p [] h = ap ok (sym (add_nil p))
trace_abi-text abi p (x ∷ sysnums) h =
    let skip = trace_abi-text abi p sysnums h.1 in
    let text = trace_statements (detranslate_sysnum abi x.value) x.flags in
    let add =
      trace_abi-text abi (add_statements p text) sysnums h.1
      ∙ ap ok (add_add p text (abi_text abi sysnums)) in
    elim (Bool-cases (x.value == pr_void)) [
      | inl end ↦ rw end (ap ok (sym (add_nil p)))
      | inr entry ↦ elim (Bool-cases (detranslate_sysnum abi x.value == syscall_avoider)) [
        | inl missing ↦ rw (entry, missing) skip
        | inr there ↦
            let narrow : ltb uint32_max (detranslate_sysnum abi x.value) ≡ false =
              ground (arith, h.0) in
            rw (entry, there, narrow) add
      ]
    ]

trace_abis-text :
    (abis : List Sysnums) (p : Program) (sysnums : List FilteredSysnum)
    → All (IsNarrow sysnums) abis
    → trace_abis abis p sysnums ≡ ok (add_statements p (abis_text abis sysnums))
unfolding abis_text
trace_abis-text [] p sysnums h = ap ok (sym (add_nil p))
trace_abis-text (abi ∷ abis) p sysnums h = rw (trace_abi-text abi p sysnums h.0) (
    trace_abis-text abis (add_statements p (abi_text abi sysnums)) sysnums h.1
    ∙ ap ok (add_add p (abi_text abi sysnums) (abis_text abis sysnums)))

length-abi_text :
    (abi : Sysnums) (sysnums : List FilteredSysnum)
    → length (abi_text abi sysnums) ≡ count_abi abi sysnums * 2
unfolding abi_text
length-abi_text abi [] = refl
length-abi_text abi (x ∷ sysnums) = ground (arith, length-abi_text abi sysnums)

pub length-abis_text :
    (abis : List Sysnums) (sysnums : List FilteredSysnum)
    → length (abis_text abis sysnums) ≡ count_abis abis sysnums * 2
unfolding abis_text
length-abis_text [] sysnums = refl
length-abis_text (abi ∷ abis) sysnums = omega (
  arith,
  length-append (abi_text abi sysnums) (abis_text abis sysnums),
  length-abi_text abi sysnums,
  length-abis_text abis sysnums,
)

-- One section is added, and nothing fails. `len` is what the sanity check leaves.
add_arch-text :
    (p : Program) (a : SeccompArch) (sysnums : List FilteredSysnum)
    → IsShort sysnums a
    → length p.filter + length (arch_text a sysnums) < 2 ^ 16
    → (len : ℕ) × (add_arch p a sysnums
        ≡ ok (record (add_statements p (arch_text a sysnums)) { len = len }))
unfolding arch_text
add_arch-text p a sysnums h fits =
    let nb = count_abis a.abis sysnums in
    let text = abis_text a.abis sysnums in
    let start = start_statements a.value nb in
    let p' = add_statements p start in
    let p1 : Program = record p' { len = len_of p'.filter } in
    let p2 = add_statements p1 text in
    let p3 = add_statements p2 (ret seccomp_ret_allow ∷ []) in
    let short : ltb (uint32_max - 1) (section_length nb) ≡ false = ground (arith, h.1) in
    let started : start_arch_section p a.value nb ≡ ok p1 =
      unfold start_arch_section in ap (λ b. if b then err erange else ok p1) short in
    let started_length = length-append p.filter start in
    let whole_length = length-append start (text ++ ret seccomp_ret_allow ∷ []) in
    let kept : p1.len ≡ length p1.filter = omega (arith, started_length, whole_length) in
    let lengths : (length p3.filter - p1.len == section_length nb) ≡ true = ground (
      arith,
      kept,
      length-append p2.filter (ret seccomp_ret_allow ∷ []),
      length-append p1.filter text,
      length-abis_text a.abis sysnums,
    ) in
    let ended : end_arch_section p2 nb ≡ ok p3 =
      unfold end_arch_section in ap (λ b. if not b then err erange else ok p3) lengths in
    let whole =
      append_assoc (p.filter ++ start) text (ret seccomp_ret_allow ∷ [])
      ∙ append_assoc p.filter start (text ++ ret seccomp_ret_allow ∷ []) in
    (
      p1.len,
      rw (started, trace_abis-text a.abis p1 sysnums h.0, ended)
          (ap (λ l. ok (program_of p1.len l)) whole),
    )

unfoldable pub archs_text : List SeccompArch → List FilteredSysnum → List Statement
archs_text [] sysnums = []
archs_text (a ∷ archs) sysnums = arch_text a sysnums ++ archs_text archs sysnums

length-arch_text :
    (a : SeccompArch) (sysnums : List FilteredSysnum)
    → length (arch_text a sysnums) ≡ 4 + section_length (count_abis a.abis sysnums)
unfolding arch_text
length-arch_text a sysnums = omega (
  arith,
  length-append (abis_text a.abis sysnums) (ret seccomp_ret_allow ∷ []),
  length-abis_text a.abis sysnums,
)

pub length-archs_text :
    (archs : List SeccompArch) (sysnums : List FilteredSysnum)
    → length (archs_text archs sysnums) + 1 ≡ program_length sysnums archs
unfolding archs_text
length-archs_text [] sysnums = refl
length-archs_text (a ∷ archs) sysnums = omega (
  arith,
  length-append (arch_text a sysnums) (archs_text archs sysnums),
  length-arch_text a sysnums,
  length-archs_text archs sysnums,
)

program_length-pos :
    (sysnums : List FilteredSysnum) (archs : List SeccompArch) → 0 < program_length sysnums archs
program_length-pos sysnums [] = omega arith
program_length-pos sysnums (a ∷ archs) = omega arith

pub add_archs-text :
    (p : Program) (archs : List SeccompArch) (sysnums : List FilteredSysnum)
    → All (IsShort sysnums) archs
    → length p.filter + program_length sysnums archs ≤ 2 ^ 16
    → (len : ℕ) × (add_archs p archs sysnums
        ≡ ok (record (add_statements p (archs_text archs sysnums)) { len = len }))
unfolding archs_text
add_archs-text p [] sysnums h fits = (p.len, ap ok (sym (add_nil p)))
add_archs-text p (a ∷ archs) sysnums h fits =
    let size = length-arch_text a sysnums in
    let joined = length-append p.filter (arch_text a sysnums) in
    let rest = program_length-pos sysnums archs in
    let (len1, e1) = add_arch-text p a sysnums h.0 (omega (arith, size, rest)) in
    let p1 : Program = record (add_statements p (arch_text a sysnums)) { len = len1 } in
    let (len, e) = add_archs-text p1 archs sysnums h.1 (omega (arith, size, joined)) in
    (
      len,
      rw e1 (
          e
          ∙ ap (λ l. ok (program_of len l))
              (append_assoc p.filter (arch_text a sysnums) (archs_text archs sysnums))),
    )
