-- ===== src/Syscall/Seccomp/Filter/Run.antt =====
-- What the seccomp program answers when the kernel runs it.
use mathlib.Core.List.{append_assoc}
use proot_termux.Base.{
  ℕ, ◌+◌, ◌%◌, ◌^◌, ◌≡◌, refl, ap, ◌∙◌, ◌==◌, if◌then◌else◌, Bool-cases, inl, inr, ok, Option, some,
  none, List, [], ◌∷◌, ◌++◌, length, length-append, take, take_length, ◌<◌, drop, drop-append, All,
  arith,
}
use proot_termux.Syscall.Sysnum.{Sysnums, detranslate_sysnum, syscall_avoider, pr_void}
use proot_termux.Syscall.Seccomp.{FilteredSysnum}
use proot_termux.Syscall.Seccomp.Filter.{
  Statement, ld_abs, jeq, ja, ret, Program, SeccompArch, syscall_offset, arch_offset,
  seccomp_ret_kill, seccomp_ret_trace, seccomp_ret_allow, section_length, len_of,
  finalize_program_filter, count_abis, new_program_filter, entries, set_seccomp_filters,
}
use proot_termux.Syscall.Seccomp.Filter.Text.{
  abi_text, abis_text, arch_text, archs_text, IsShort, program_length, program_of, length-abis_text,
  length-archs_text, add_archs-text,
}

-- What is relied on of the kernel's BPF machine, for `run arch nr accumulator program`: loads,
-- jumps relative to the next statement, and returns.
pub record IsBpf (run : ℕ → ℕ → ℕ → List Statement → Option ℕ) : Type 0 where
  pub ld_nr :
      (arch nr a : ℕ) (p : List Statement)
      → run arch nr a (ld_abs syscall_offset ∷ p) ≡ run arch nr nr p
  pub ld_arch :
      (arch nr a : ℕ) (p : List Statement)
      → run arch nr a (ld_abs arch_offset ∷ p) ≡ run arch nr arch p
  pub jump_eq :
      (arch nr a k jt jf : ℕ) (p : List Statement)
      → run arch nr a (jeq k jt jf ∷ p) ≡ run arch nr a (drop (if a == k then jt else jf) p)
  pub jump :
      (arch nr a k : ℕ) (p : List Statement) → run arch nr a (ja k ∷ p) ≡ run arch nr a (drop k p)
  pub return : (arch nr a k : ℕ) (p : List Statement) → run arch nr a (ret k ∷ p) ≡ some k

-- The flags of the first entry that stands for the number `nr` on an ABI, or on one of several.
abbrev pub traced_on : Sysnums → ℕ → List FilteredSysnum → Option ℕ
traced_on abi nr [] = none
traced_on abi nr (x ∷ sysnums) =
    if x.value == pr_void
    then none
    else if detranslate_sysnum abi x.value == syscall_avoider
    then traced_on abi nr sysnums
    else if nr == detranslate_sysnum abi x.value
    then some x.flags
    else traced_on abi nr sysnums

abbrev pub or_else : Option ℕ → Option ℕ → Option ℕ
or_else none b = b
or_else (some a) b = some a

abbrev pub traced_on_any : List Sysnums → ℕ → List FilteredSysnum → Option ℕ
traced_on_any [] nr sysnums = none
traced_on_any (abi ∷ abis) nr sysnums =
    or_else (traced_on abi nr sysnums) (traced_on_any abis nr sysnums)

-- SECCOMP_RET_TRACE with the flags, or what else is answered.
abbrev pub trace_or : Option ℕ → Option ℕ → Option ℕ
trace_or none other = other
trace_or (some flags) other = some ((seccomp_ret_trace + flags) % 2 ^ 32)

-- The first architecture that is the caller's decides; a foreign one is killed.
abbrev pub verdict : List SeccompArch → List FilteredSysnum → ℕ → ℕ → Option ℕ
verdict [] sysnums arch nr = some seccomp_ret_kill
verdict (a ∷ archs) sysnums arch nr =
    if arch == a.value
    then trace_or (traced_on_any a.abis nr sysnums) (some seccomp_ret_allow)
    else verdict archs sysnums arch nr

trace_or-or_else : (a b o : Option ℕ) → trace_or a (trace_or b o) ≡ trace_or (or_else a b) o
trace_or-or_else none b o = refl
trace_or-or_else (some a) b o = refl

drop-behind : (k : ℕ) (xs rest : List Statement) → k ≡ length xs → drop k (xs ++ rest) ≡ rest
drop-behind k xs rest e = ap (λ n. drop n (xs ++ rest)) e ∙ drop-append xs rest

-- The runs of the texts.
module _ {run : ℕ → ℕ → ℕ → List Statement → Option ℕ} (bpf : IsBpf run) where
  run-abi_text :
      (abi : Sysnums) (sysnums : List FilteredSysnum) (arch nr : ℕ) (rest : List Statement)
      → run arch nr nr (abi_text abi sysnums ++ rest)
        ≡ trace_or (traced_on abi nr sysnums) (run arch nr nr rest)
  unfolding abi_text
  run-abi_text abi [] arch nr rest = refl
  run-abi_text abi (x ∷ sysnums) arch nr rest =
      let skip = run-abi_text abi sysnums arch nr rest in
      let k = detranslate_sysnum abi x.value in
      let text = ret ((seccomp_ret_trace + x.flags) % 2 ^ 32) ∷ (abi_text abi sysnums ++ rest) in
      let test = bpf.jump_eq arch nr nr k 0 1 text in
      elim (Bool-cases (x.value == pr_void)) [
        | inl end ↦ rw end
        | inr entry ↦ elim (Bool-cases (k == syscall_avoider)) [
          | inl missing ↦ rw (entry, missing) skip
          | inr there ↦ elim (Bool-cases (nr == k)) [
            | inl hit ↦ rw (entry, there, test, hit) (bpf.return arch nr nr _ _)
            | inr miss ↦ rw (entry, there, test, miss) skip
          ]
        ]
      ]

  run-abis_text :
      (abis : List Sysnums) (sysnums : List FilteredSysnum) (arch nr : ℕ) (rest : List Statement)
      → run arch nr nr (abis_text abis sysnums ++ rest)
        ≡ trace_or (traced_on_any abis nr sysnums) (run arch nr nr rest)
  unfolding abis_text
  run-abis_text [] sysnums arch nr rest = refl
  run-abis_text (abi ∷ abis) sysnums arch nr rest =
      ap (run arch nr nr) (append_assoc (abi_text abi sysnums) (abis_text abis sysnums) rest)
      ∙ run-abi_text abi sysnums arch nr (abis_text abis sysnums ++ rest)
      ∙ ap (trace_or (traced_on abi nr sysnums)) (run-abis_text abis sysnums arch nr rest)
      ∙ trace_or-or_else (traced_on abi nr sysnums) (traced_on_any abis nr sysnums)
          (run arch nr nr rest)

  run-arch_text :
      (a : SeccompArch) (sysnums : List FilteredSysnum) (arch nr acc : ℕ) (rest : List Statement)
      → run arch nr acc (arch_text a sysnums ++ rest) ≡ (
          if arch == a.value
          then trace_or (traced_on_any a.abis nr sysnums) (some seccomp_ret_allow)
          else run arch nr arch rest)
  unfolding arch_text
  run-arch_text a sysnums arch nr acc rest =
      let nb = count_abis a.abis sysnums in
      let text = abis_text a.abis sysnums in
      let allow = ret seccomp_ret_allow ∷ [] in
      let body = ld_abs syscall_offset ∷ ((text ++ allow) ++ rest) in
      let test =
        bpf.ld_arch arch nr acc _
        ∙ bpf.jump_eq arch nr arch a.value 1 0 (ja (section_length nb + 1) ∷ body) in
      elim (Bool-cases (arch == a.value)) [
        | inl own ↦
            test
            ∙ (rw own (
                bpf.ld_nr arch nr arch _
                ∙ ap (run arch nr nr) (append_assoc text allow rest)
                ∙ run-abis_text a.abis sysnums arch nr (allow ++ rest)
                ∙ ap (trace_or (traced_on_any a.abis nr sysnums)) (bpf.return arch nr nr _ rest)))
        | inr foreign ↦
            test
            ∙ (rw foreign (
                bpf.jump arch nr arch (section_length nb + 1) body
                ∙ ap (run arch nr arch) (
                    drop-behind (section_length nb + 1) (ld_abs syscall_offset ∷ (text ++ allow))
                      rest
                      (omega (arith, length-append text allow, length-abis_text a.abis sysnums)))))
      ]

  run-archs_text :
      (archs : List SeccompArch) (sysnums : List FilteredSysnum) (arch nr acc : ℕ)
      → run arch nr acc (archs_text archs sysnums ++ ret seccomp_ret_kill ∷ [])
        ≡ verdict archs sysnums arch nr
  unfolding archs_text
  run-archs_text [] sysnums arch nr acc = bpf.return arch nr acc _ []
  run-archs_text (a ∷ archs) sysnums arch nr acc =
      ap (run arch nr acc)
        (append_assoc (arch_text a sysnums) (archs_text archs sysnums) (ret seccomp_ret_kill ∷ []))
      ∙ run-arch_text a sysnums arch nr acc _
      ∙ ap
          (λ v.
            if arch == a.value
            then trace_or (traced_on_any a.abis nr sysnums) (some seccomp_ret_allow)
            else v)
          (run-archs_text archs sysnums arch nr arch)

take-len_of :
    (filter : List Statement) → length filter < 2 ^ 16 → take (len_of filter) filter ≡ filter
take-len_of filter h =
    let kept : len_of filter ≡ length filter = omega arith in
    ap (λ n. take n filter) kept ∙ take_length filter

-- Where the numbers and the sections fit the fields of a BPF statement, and the program has less than
-- 65536 statements, it is built, and the kernel's machine, run on its first `len` statements, answers
-- for a caller's architecture and system call number: kill
-- if the architecture is none of those given; and for the first that is, trace, with the flags of
-- the first entry that stands for the number on one of its ABIs, or allow if none does.
pub set_seccomp_filters-verdict :
    (run : ℕ → ℕ → ℕ → List Statement → Option ℕ) (sort : List FilteredSysnum → List FilteredSysnum)
    (archs : List SeccompArch) (sysnums : List FilteredSysnum)
    → IsBpf run
    → All (IsShort (sort (entries sysnums))) archs
    → program_length (sort (entries sysnums)) archs < 2 ^ 16
    → (program : Program) × (set_seccomp_filters sort archs sysnums ≡ ok program)
      × ((arch nr : ℕ)
          → run arch nr 0 (take program.len program.filter)
            ≡ verdict archs (sort (entries sysnums)) arch nr)
unfolding set_seccomp_filters finalize_program_filter
set_seccomp_filters-verdict run sort archs sysnums bpf h fits =
    let sorted = sort (entries sysnums) in
    let (len, e) = add_archs-text new_program_filter archs sorted h (omega arith) in
    let program = finalize_program_filter (program_of len (archs_text archs sorted)) in
    let whole : take program.len program.filter ≡ program.filter = take-len_of program.filter (
      omega (
        arith,
        length-archs_text archs sorted,
        length-append (archs_text archs sorted) (ret seccomp_ret_kill ∷ []),
      )) in
    (program, rw e, λ arch nr. ap (run arch nr 0) whole ∙ run-archs_text bpf archs sorted arch nr 0)
