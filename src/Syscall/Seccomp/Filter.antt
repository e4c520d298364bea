-- ===== src/Syscall/Seccomp/Filter.antt =====
-- The BPF program of the seccomp filter, of proot/src/syscall/seccomp.c. qsort(3) is an argument,
-- and allocation does not fail here.
pub mod Text
pub mod Run
use proot_termux.Base.{
  ℕ, ◌+◌, ◌-◌, ◌*◌, ◌%◌, ◌^◌, ◌==◌, if◌then◌else◌, ltb, not, Result, ok, err, ◌>>=◌, erange, List,
  [], ◌∷◌, ◌++◌, length,
}
use proot_termux.Syscall.Sysnum.{Sysnums, detranslate_sysnum, syscall_avoider, pr_void}
use proot_termux.Syscall.Seccomp.{FilteredSysnum}

-- The statements of a `struct sock_filter` that are used: a load of a word of `struct
-- seccomp_data`, a test of the accumulator, a jump and a return.
pub data Statement : Type 0 where
  ld_abs : ℕ → Statement
  jeq : ℕ → ℕ → ℕ → Statement
  ja : ℕ → Statement
  ret : ℕ → Statement

-- `struct sock_fprog`, whose `len` is an `unsigned short`.
pub record Program : Type 0 where
  pub len : ℕ
  pub filter : List Statement

-- `SeccompArch`, with the table of each of its ABIs.
pub record SeccompArch : Type 0 where
  pub value : ℕ
  pub abis : List Sysnums

abbrev pub syscall_offset : ℕ
syscall_offset = 0

abbrev pub arch_offset : ℕ
arch_offset = 4

abbrev pub seccomp_ret_kill : ℕ
seccomp_ret_kill = 0

abbrev pub seccomp_ret_trace : ℕ
seccomp_ret_trace = 0x7ff00000

abbrev pub seccomp_ret_allow : ℕ
seccomp_ret_allow = 0x7fff0000

abbrev pub uint32_max : ℕ
uint32_max = 2 ^ 32 - 1

-- The number of statements, as it is stored in `len`.
abbrev pub len_of : List Statement → ℕ
len_of filter = length filter % 2 ^ 16

abbrev pub new_program_filter : Program
new_program_filter = record { len = 0; filter = [] }

abbrev pub add_statements : Program → List Statement → Program
add_statements program statements = record program { filter = program.filter ++ statements }

abbrev pub trace_statements : ℕ → ℕ → List Statement
trace_statements syscall flag = jeq syscall 0 1 ∷ ret ((seccomp_ret_trace + flag) % 2 ^ 32) ∷ []

unfoldable pub add_trace_syscall : Program → ℕ → ℕ → Result Program
add_trace_syscall program syscall flag =
    if ltb uint32_max syscall
    then err erange
    else ok (add_statements program (trace_statements syscall flag))

abbrev pub section_length : ℕ → ℕ
section_length nb_traced_syscalls = 1 + nb_traced_syscalls * 2

unfoldable pub end_arch_section : Program → ℕ → Result Program
end_arch_section program nb_traced_syscalls =
    let program' = add_statements program (ret seccomp_ret_allow ∷ []) in
    if not (length program'.filter - program'.len == section_length nb_traced_syscalls)
    then err erange
    else ok program'

abbrev pub start_statements : ℕ → ℕ → List Statement
start_statements arch nb_traced_syscalls =
    ld_abs arch_offset
    ∷ jeq arch 1 0
    ∷ ja (section_length nb_traced_syscalls + 1)
    ∷ ld_abs syscall_offset
    ∷ []

unfoldable pub start_arch_section : Program → ℕ → ℕ → Result Program
start_arch_section program arch nb_traced_syscalls =
    if ltb (uint32_max - 1) (section_length nb_traced_syscalls)
    then err erange
    else (let program' = add_statements program (start_statements arch nb_traced_syscalls) in
        ok (record program' { len = len_of program'.filter }))

unfoldable pub finalize_program_filter : Program → Program
finalize_program_filter program =
    let program' = add_statements program (ret seccomp_ret_kill ∷ []) in
    record program' { len = len_of program'.filter }

-- The loop that counts the traced system calls of one ABI, and that over the ABIs.
abbrev pub count_abi : Sysnums → List FilteredSysnum → ℕ
count_abi abi [] = 0
count_abi abi (x ∷ sysnums) =
    if x.value == pr_void
    then 0
    else if detranslate_sysnum abi x.value == syscall_avoider
    then count_abi abi sysnums
    else count_abi abi sysnums + 1

abbrev pub count_abis : List Sysnums → List FilteredSysnum → ℕ
count_abis [] sysnums = 0
count_abis (abi ∷ abis) sysnums = count_abi abi sysnums + count_abis abis sysnums

-- The loop that adds the statements of one ABI, and that over the ABIs.
abbrev pub trace_abi : Sysnums → Program → List FilteredSysnum → Result Program
trace_abi abi program [] = ok program
trace_abi abi program (x ∷ sysnums) =
    if x.value == pr_void
    then ok program
    else if detranslate_sysnum abi x.value == syscall_avoider
    then trace_abi abi program sysnums
    else (add_trace_syscall program (detranslate_sysnum abi x.value) x.flags >>= λ program'.
        trace_abi abi program' sysnums)

abbrev pub trace_abis : List Sysnums → Program → List FilteredSysnum → Result Program
trace_abis [] program sysnums = ok program
trace_abis (abi ∷ abis) program sysnums =
    trace_abi abi program sysnums >>= λ program'. trace_abis abis program' sysnums

-- The section of one architecture.
abbrev pub add_arch : Program → SeccompArch → List FilteredSysnum → Result Program
add_arch program arch sysnums =
    let nb_traced_syscalls = count_abis arch.abis sysnums in
    start_arch_section program arch.value nb_traced_syscalls
    >>= (λ program'. trace_abis arch.abis program' sysnums)
    >>= (λ program'. end_arch_section program' nb_traced_syscalls)

abbrev pub add_archs : Program → List SeccompArch → List FilteredSysnum → Result Program
add_archs program [] sysnums = ok program
add_archs program (arch ∷ archs) sysnums =
    add_arch program arch sysnums >>= λ program'. add_archs program' archs sysnums

-- The entries before the terminator.
abbrev pub entries : List FilteredSysnum → List FilteredSysnum
entries [] = []
entries (x ∷ sysnums) = if x.value == pr_void then [] else x ∷ entries sysnums

-- The program that is handed to prctl(2).
unfoldable pub set_seccomp_filters :
    (List FilteredSysnum → List FilteredSysnum)
    → List SeccompArch
    → List FilteredSysnum
    → Result Program
set_seccomp_filters sort archs sysnums =
    add_archs new_program_filter archs (sort (entries sysnums)) >>= λ program.
    ok (finalize_program_filter program)
