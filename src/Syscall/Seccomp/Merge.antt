-- ===== src/Syscall/Seccomp/Merge.antt =====
-- The merged list of the seccomp filter, and the flags that are looked up later.
use Prim.Native.Nat.{bit_or-bitwise}
use proot_termux.Base.{
  ℕ, zero, suc, ◌≤◌, ◌≡◌, ◌≢◌, refl, sym, ap, ◌∙◌, bit_or, ◌==◌, if◌then◌else◌, Option, some, none,
  List, [], ◌∷◌, All, arith, Bool-cases, inl, inr,
}
use proot_termux.Syscall.Sysnum.{pr_void}
use proot_termux.Syscall.Seccomp.{
  FilteredSysnum, filter_sysexit, merge_entry, merge_filtered_sysnums, merge_extensions,
  enable_syscall_filtering, or_flags, or_flags_extensions, filtered_sysnum_flags,
}

-- The flags that the filter built from a list reports for a system call: those of its first entry.
abbrev pub flags_in : List FilteredSysnum → ℕ → ℕ
flags_in [] sysnum = 0
flags_in (x ∷ sysnums) sysnum = if x.value == sysnum then x.flags else flags_in sysnums sysnum

-- An entry has no flag but FILTER_SYSEXIT.
abbrev pub IsFlagged : FilteredSysnum → Type 0
IsFlagged x = x.flags ≤ filter_sysexit

abbrev pub AllFlagged : Option (List FilteredSysnum) → Type 0
AllFlagged none = Unit
AllFlagged (some sysnums) = All IsFlagged sysnums

-- The list stands without its terminator.
abbrev pub IsEntry : FilteredSysnum → Type 0
IsEntry x = x.value ≢ pr_void

bit_or_zero : (a : ℕ) → bit_or 0 a ≡ a
bit_or_zero a = λ i. bit_or-bitwise 0 a i

bit_or_flag : (a b : ℕ) → a ≤ filter_sysexit → b ≤ filter_sysexit → bit_or a b ≤ filter_sysexit
bit_or_flag zero zero ha hb = omega arith
bit_or_flag zero (suc zero) ha hb = omega arith
bit_or_flag (suc zero) zero ha hb = omega arith
bit_or_flag (suc zero) (suc zero) ha hb = omega arith
bit_or_flag zero (suc (suc b)) ha hb = absurd (omega arith)
bit_or_flag (suc zero) (suc (suc b)) ha hb = absurd (omega arith)
bit_or_flag (suc (suc a)) b ha hb = absurd (omega arith)

merge_entry-All :
    {P : FilteredSysnum → Type 0} (sysnums : List FilteredSysnum) (new : FilteredSysnum)
    → ((x : FilteredSysnum) → P x → P (record x { flags = bit_or x.flags new.flags }))
    → All P sysnums
    → P new
    → All P (merge_entry sysnums new)
merge_entry-All [] new merged h p = (p, tt)
merge_entry-All (x ∷ sysnums) new merged h p =
    let rest = merge_entry-All sysnums new merged h.1 p in
    elim (Bool-cases (x.value == pr_void)) [
      | inl end ↦ rw end (p, tt)
      | inr entry ↦ elim (Bool-cases (x.value == new.value)) [
        | inl same ↦ rw (entry, same) (merged x h.0, h.1)
        | inr other ↦ rw (entry, other) (h.0, rest)
      ]
    ]

flags_in-merge_entry :
    (sysnums : List FilteredSysnum) (new : FilteredSysnum) (sysnum : ℕ)
    → All IsEntry sysnums
    → flags_in (merge_entry sysnums new) sysnum ≡ (
        if new.value == sysnum
        then bit_or (flags_in sysnums sysnum) new.flags
        else flags_in sysnums sysnum)
flags_in-merge_entry [] new sysnum h =
    ap (λ f. if new.value == sysnum then f else 0) (sym (bit_or_zero new.flags))
flags_in-merge_entry (x ∷ sysnums) new sysnum h =
    let rest = flags_in-merge_entry sysnums new sysnum h.1 in ground arith

-- A list that the filter keeps: entries, with no other flag.
abbrev pub IsKept : List FilteredSysnum → Type 0
IsKept sysnums = All IsEntry sysnums × All IsFlagged sysnums

flags_in-flag :
    (sysnums : List FilteredSysnum) (sysnum : ℕ)
    → All IsFlagged sysnums
    → flags_in sysnums sysnum ≤ filter_sysexit
flags_in-flag [] sysnum h = omega arith
flags_in-flag (x ∷ sysnums) sysnum h = ground (arith, flags_in-flag sysnums sysnum h.1)

merge_entry-IsKept :
    (sysnums : List FilteredSysnum) (new : FilteredSysnum)
    → IsKept sysnums
    → IsEntry new
    → IsFlagged new
    → IsKept (merge_entry sysnums new)
merge_entry-IsKept sysnums new h e f = (
  merge_entry-All sysnums new (λ x p. p) h.0 e,
  merge_entry-All sysnums new (λ x p. bit_or_flag x.flags new.flags p f) h.1 f,
)

-- A merge of one list is one walk of `filtered_sysnum_flags` over it.
merge_filtered_sysnums_walk :
    (sysnums new_sysnums : List FilteredSysnum) (sysnum : ℕ)
    → IsKept sysnums
    → All IsFlagged new_sysnums
    → IsKept (merge_filtered_sysnums sysnums new_sysnums)
      × (flags_in (merge_filtered_sysnums sysnums new_sysnums) sysnum
          ≡ or_flags new_sysnums sysnum (flags_in sysnums sysnum))
merge_filtered_sysnums_walk sysnums [] sysnum h f = (h, refl)
merge_filtered_sysnums_walk sysnums (new ∷ new_sysnums) sysnum h f =
    elim (Bool-cases (new.value == pr_void)) [
      | inl end ↦ rw end (h, refl)
      | inr entry ↦
          let e : IsEntry new = ground arith in
          let (kept, same) =
            merge_filtered_sysnums_walk (merge_entry sysnums new) new_sysnums sysnum
              (merge_entry-IsKept sysnums new h e f.0) f.1 in
          let flag =
            bit_or_flag (flags_in sysnums sysnum) new.flags (flags_in-flag sysnums sysnum h.1)
              f.0 in
          rw entry (
            kept,
            same
                ∙ ap (or_flags new_sysnums sysnum) (
                    flags_in-merge_entry sysnums new sysnum h.0
                    ∙ ap (λ flags. if new.value == sysnum then flags else flags_in sysnums sysnum)
                        (omega arith)),
          )
    ]

merge_extensions_walk :
    (sysnums : List FilteredSysnum) (extensions : List (Option (List FilteredSysnum))) (sysnum : ℕ)
    → IsKept sysnums
    → All AllFlagged extensions
    → flags_in (merge_extensions sysnums extensions) sysnum
      ≡ or_flags_extensions extensions sysnum (flags_in sysnums sysnum)
merge_extensions_walk sysnums [] sysnum h f = refl
merge_extensions_walk sysnums (none ∷ extensions) sysnum h f =
    merge_extensions_walk sysnums extensions sysnum h f.1
merge_extensions_walk sysnums (some new_sysnums ∷ extensions) sysnum h f =
    let (kept, same) = merge_filtered_sysnums_walk sysnums new_sysnums sysnum h f.0 in
    merge_extensions_walk (merge_filtered_sysnums sysnums new_sysnums) extensions sysnum kept f.1
    ∙ ap (or_flags_extensions extensions sysnum) same

-- Where no list has another flag than FILTER_SYSEXIT, the flags that are looked up when a system
-- call stops are those that the filter was built with, for every system call.
pub filtered_sysnum_flags-enable_syscall_filtering :
    (proot_sysnums : List FilteredSysnum) (extensions : List (Option (List FilteredSysnum)))
    (sysnum : ℕ)
    → All IsFlagged proot_sysnums
    → All AllFlagged extensions
    → filtered_sysnum_flags proot_sysnums extensions sysnum
      ≡ flags_in (enable_syscall_filtering proot_sysnums extensions) sysnum
unfolding filtered_sysnum_flags enable_syscall_filtering
filtered_sysnum_flags-enable_syscall_filtering proot_sysnums extensions sysnum p e =
    let (kept, same) = merge_filtered_sysnums_walk [] proot_sysnums sysnum (tt, tt) p in
    sym (
      merge_extensions_walk (merge_filtered_sysnums [] proot_sysnums) extensions sysnum kept e
      ∙ ap (or_flags_extensions extensions sysnum) same)
