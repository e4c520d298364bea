-- ===== src/Syscall/Seccomp.antt =====
-- The lists of the system calls that the seccomp filter traces, of proot/src/syscall/seccomp.c. A
-- list ends at an entry of PR_void, or at its end. Allocation does not fail here.
pub mod Merge
pub mod Table
pub mod Filter
use proot_termux.Base.{ℕ, ◌%◌, ◌^◌, bit_or, ◌==◌, if◌then◌else◌, Option, some, none, List, [], ◌∷◌}
use proot_termux.Syscall.Sysnum.{pr_void}

pub record FilteredSysnum : Type 0 where
  pub value : ℕ
  pub flags : ℕ

abbrev pub filtered : ℕ → ℕ → FilteredSysnum
filtered value flags = record { value = value; flags = flags }

abbrev pub filter_sysexit : ℕ
filter_sysexit = 1

-- One turn of the loop over the new entries: the search for the number, then the new entry in place
-- of the terminator or the flags merged.
abbrev pub merge_entry : List FilteredSysnum → FilteredSysnum → List FilteredSysnum
merge_entry [] new = new ∷ []
merge_entry (x ∷ sysnums) new =
    if x.value == pr_void
    then new ∷ []
    else if x.value == new.value
    then record x { flags = bit_or x.flags new.flags } ∷ sysnums
    else x ∷ merge_entry sysnums new

abbrev pub merge_filtered_sysnums : List FilteredSysnum → List FilteredSysnum → List FilteredSysnum
merge_filtered_sysnums sysnums [] = sysnums
merge_filtered_sysnums sysnums (new ∷ new_sysnums) =
    if new.value == pr_void
    then sysnums
    else merge_filtered_sysnums (merge_entry sysnums new) new_sysnums

-- The lists of the extensions, in the order of the tracee's list; NULL is none.
abbrev pub merge_extensions :
    List FilteredSysnum → List (Option (List FilteredSysnum)) → List FilteredSysnum
merge_extensions sysnums [] = sysnums
merge_extensions sysnums (none ∷ extensions) = merge_extensions sysnums extensions
merge_extensions sysnums (some new_sysnums ∷ extensions) =
    merge_extensions (merge_filtered_sysnums sysnums new_sysnums) extensions

-- What is handed to `set_seccomp_filters`, by PRoot's own list and those of the extensions.
unfoldable pub enable_syscall_filtering :
    List FilteredSysnum → List (Option (List FilteredSysnum)) → List FilteredSysnum
enable_syscall_filtering proot_sysnums extensions =
    merge_extensions (merge_filtered_sysnums [] proot_sysnums) extensions

-- The loop of `filtered_sysnum_flags` over one list; `flags` is an `int`, as its bit pattern.
abbrev pub or_flags : List FilteredSysnum → ℕ → ℕ → ℕ
or_flags [] sysnum flags = flags
or_flags (x ∷ sysnums) sysnum flags =
    if x.value == pr_void
    then flags
    else or_flags sysnums sysnum
        (if x.value == sysnum then bit_or flags x.flags % 2 ^ 32 else flags)

abbrev pub or_flags_extensions : List (Option (List FilteredSysnum)) → ℕ → ℕ → ℕ
or_flags_extensions [] sysnum flags = flags
or_flags_extensions (none ∷ extensions) sysnum flags = or_flags_extensions extensions sysnum flags
or_flags_extensions (some sysnums ∷ extensions) sysnum flags =
    or_flags_extensions extensions sysnum (or_flags sysnums sysnum flags)

unfoldable pub filtered_sysnum_flags :
    List FilteredSysnum → List (Option (List FilteredSysnum)) → ℕ → ℕ
filtered_sysnum_flags proot_sysnums extensions sysnum =
    or_flags_extensions extensions sysnum (or_flags proot_sysnums sysnum 0)
