-- ===== src/Tests/Filters.antt =====
-- Runs of the seccomp filter of proot/src/syscall/seccomp.c.
use proot_termux.Base.{
  ℕ, zero, suc, ◌≡◌, refl, List, [], ◌∷◌, Option, some, none, ◌==◌, if◌then◌else◌, drop, take, ok,
  All, arith,
}
use proot_termux.Syscall.Sysnum.{Sysnums, detranslate_sysnum}
use proot_termux.Syscall.Seccomp.{
  FilteredSysnum, filtered, enable_syscall_filtering, filtered_sysnum_flags,
}
use proot_termux.Syscall.Seccomp.Merge.{
  flags_in, IsFlagged, filtered_sysnum_flags-enable_syscall_filtering,
}
use proot_termux.Syscall.Seccomp.Table.{proot_sysnums}
use proot_termux.Syscall.Seccomp.Filter.{
  Statement, ld_abs, jeq, ja, ret, Program, SeccompArch, entries, set_seccomp_filters,
}
use proot_termux.Syscall.Seccomp.Filter.Text.{IsShort}
use proot_termux.Syscall.Seccomp.Filter.Run.{IsBpf, verdict, set_seccomp_filters-verdict}

-- An interpreter of the four statements; a program without a return has no answer. `skip`
-- statements are jumped over first.
abbrev run_from : ℕ → List Statement → ℕ → ℕ → ℕ → Option ℕ
run_from skip [] arch nr a = none
run_from (suc skip) (x ∷ p) arch nr a = run_from skip p arch nr a
run_from zero (ld_abs zero ∷ p) arch nr a = run_from 0 p arch nr nr
run_from zero (ld_abs (suc _) ∷ p) arch nr a = run_from 0 p arch nr arch
run_from zero (jeq k jt jf ∷ p) arch nr a = run_from (if a == k then jt else jf) p arch nr a
run_from zero (ja k ∷ p) arch nr a = run_from k p arch nr a
run_from zero (ret k ∷ p) arch nr a = some k

abbrev run : ℕ → ℕ → ℕ → List Statement → Option ℕ
run arch nr a p = run_from 0 p arch nr a

run_from-drop :
    (skip : ℕ) (p : List Statement) (arch nr a : ℕ)
    → run_from skip p arch nr a ≡ run arch nr a (drop skip p)
run_from-drop zero p arch nr a = refl
run_from-drop (suc skip) [] arch nr a = refl
run_from-drop (suc skip) (x ∷ p) arch nr a = run_from-drop skip p arch nr a

run-IsBpf : IsBpf run
run-IsBpf = record {
  ld_nr = λ arch nr a p. refl;
  ld_arch = λ arch nr a p. refl;
  jump_eq = λ arch nr a k jt jf p. run_from-drop (if a == k then jt else jf) p arch nr a;
  jump = λ arch nr a k p. run_from-drop k p arch nr a;
  return = λ arch nr a k p. refl;
}

abbrev sysnums : Sysnums
sysnums = record { table = 27 ∷ 41 ∷ []; offset = 10 }

abbrev arm64 : SeccompArch
arm64 = record { value = 0xc00000b7; abis = sysnums ∷ [] }

abbrev traced : List FilteredSysnum
traced = filtered 27 1 ∷ filtered 41 0 ∷ filtered 86 0 ∷ []

arm64-IsShort : All (IsShort (entries traced)) (arm64 ∷ [])
unfolding detranslate_sysnum
arm64-IsShort = ground arith

set_seccomp_filters-verdict_example :
    (program : Program) × (set_seccomp_filters (λ l. l) (arm64 ∷ []) traced ≡ ok program)
    × ((arch nr : ℕ)
        → run arch nr 0 (take program.len program.filter) ≡ verdict (arm64 ∷ []) traced arch nr)
set_seccomp_filters-verdict_example =
    set_seccomp_filters-verdict run (λ l. l) (arm64 ∷ []) traced run-IsBpf arm64-IsShort
      (ground arith)

verdict-traced : verdict (arm64 ∷ []) traced 0xc00000b7 10 ≡ some 0x7ff00001
unfolding detranslate_sysnum
verdict-traced = refl

verdict-killed : verdict (arm64 ∷ []) traced 7 10 ≡ some 0
verdict-killed = refl

proot_sysnums-IsFlagged : All IsFlagged proot_sysnums
proot_sysnums-IsFlagged = ground arith

filtered_sysnum_flags-enable_syscall_filtering_example :
    filtered_sysnum_flags proot_sysnums (none ∷ some (filtered 85 1 ∷ []) ∷ []) 85
    ≡ flags_in (enable_syscall_filtering proot_sysnums (none ∷ some (filtered 85 1 ∷ []) ∷ [])) 85
filtered_sysnum_flags-enable_syscall_filtering_example =
    filtered_sysnum_flags-enable_syscall_filtering proot_sysnums
      (none ∷ some (filtered 85 1 ∷ []) ∷ []) 85 proot_sysnums-IsFlagged (ground arith)
