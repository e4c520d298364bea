-- ===== src/Syscall/Brk.antt =====
-- The emulated heap, of proot/src/syscall/heap.c.
pub mod Cycle
use proot_termux.Base.{
  ℕ, ◌+◌, ◌-◌, ◌%◌, ◌^◌, Bool, true, false, not, ◌&&◌, ◌||◌, Option, some, none, ◌==◌,
  if◌then◌else◌, ltb, leb, add_word, sub_word,
}
use proot_termux.Tracee.{
  Tracee, Heap, Reg, sysarg_1, sysarg_2, sysarg_3, sysarg_4, sysarg_5, sysarg_6, sysarg_result,
  RegVersion, current, original, modified,
}
use proot_termux.Tracee.Regs.{peek_reg, poke_reg}
use proot_termux.Syscall.Sysnum.{
  Sysnums, detranslate_sysnum, get_sysnum, set_sysnum, syscall_avoider, pr_void, pr_brk, pr_mmap,
  pr_mmap2, pr_mremap,
}

-- `heap_offset`, once it is set from sysconf(_SC_PAGE_SIZE), whose answer is an argument; the
-- test reads it as an `int`.
abbrev pub heap_offset_of : ℕ → ℕ
heap_offset_of page_size =
    if page_size % 2 ^ 32 == 0 || leb (2 ^ 31) (page_size % 2 ^ 32) then 0x1000 else page_size

-- The end of the mapping of the BSS.
pub record Mapping : Type 0 where
  pub addr : ℕ
  pub length : ℕ

abbrev pub with_heap : Tracee → ℕ → ℕ → Tracee
with_heap t base size = record t { heap = record (t.heap) { base = base; size = size } }

-- PROT_READ | PROT_WRITE, MAP_PRIVATE | MAP_ANONYMOUS, and -1 as a word.
abbrev pub prot_read_write : ℕ
prot_read_write = 3

abbrev pub map_private_anonymous : ℕ
map_private_anonymous = 0x22

abbrev pub minus_one : ℕ
minus_one = 2 ^ 64 - 1

-- The first brk(2): a mapping of one page is asked for behind the BSS.
unfoldable pub brk_allocate : Sysnums → ℕ → Mapping → Tracee → Tracee
brk_allocate s heap_offset bss t =
    let sysnum =
      if not (detranslate_sysnum s pr_mmap2 == syscall_avoider) then pr_mmap2 else pr_mmap in
    let t1 = poke_reg (set_sysnum s t sysnum) sysarg_1 (add_word bss.addr bss.length) in
    let t2 = poke_reg t1 sysarg_2 heap_offset in
    let t3 = poke_reg t2 sysarg_3 prot_read_write in
    let t4 = poke_reg t3 sysarg_4 map_private_anonymous in
    let t5 = poke_reg t4 sysarg_5 minus_one in poke_reg t5 sysarg_6 0

-- A later brk(2): the mapping is resized.
unfoldable pub brk_resize : Sysnums → ℕ → ℕ → Tracee → Tracee
brk_resize s heap_offset new_heap_size t =
    let t1 = poke_reg (set_sysnum s t pr_mremap) sysarg_1 (sub_word t.heap.base heap_offset) in
    let t2 = poke_reg t1 sysarg_2 (add_word t.heap.size heap_offset) in
    let t3 = poke_reg t2 sysarg_3 (add_word new_heap_size heap_offset) in
    let t4 = poke_reg t3 sysarg_4 0 in poke_reg t4 sysarg_5 0

unfoldable pub translate_brk_enter : Sysnums → ℕ → Mapping → Tracee → Tracee
translate_brk_enter s heap_offset bss t =
    if t.heap.disabled
    then t
    else if t.heap.base == 0
    then (if not (peek_reg t current sysarg_1 == 0) then t else brk_allocate s heap_offset bss t)
    else if ltb (peek_reg t current sysarg_1) t.heap.base
    then set_sysnum s t pr_void
    else brk_resize s heap_offset (sub_word (peek_reg t current sysarg_1) t.heap.base) t

-- `tracee_errno < 0 && tracee_errno > -4096`, with the result cut to an `int`.
abbrev pub is_errno : ℕ → Bool
is_errno result = ltb (2 ^ 32 - 4096) (result % 2 ^ 32)

-- `heap->base + heap->size` as the result.
abbrev pub brk_report : Tracee → Tracee
brk_report t = poke_reg t sysarg_result (add_word t.heap.base t.heap.size)

abbrev pub brk_mapped : ℕ → ℕ → Tracee → Tracee
brk_mapped heap_offset result t =
    if is_errno result
    then poke_reg t sysarg_result 0
    else brk_report (with_heap t (add_word result heap_offset) 0)

abbrev pub brk_remapped : ℕ → ℕ → Tracee → Tracee
brk_remapped heap_offset result t =
    if is_errno result || not (t.heap.base == add_word result heap_offset)
    then brk_report t
    else brk_report (with_heap t t.heap.base (sub_word (peek_reg t modified sysarg_3) heap_offset))

-- None is the failed assertion of the default case, or a number that cannot be read.
unfoldable pub translate_brk_exit : Sysnums → ℕ → Tracee → Option Tracee
translate_brk_exit s heap_offset t =
    let result = peek_reg t current sysarg_result in
    if t.heap.disabled then some t else (elim (get_sysnum s t modified) [
      | none ↦ none
      | some n ↦
          if n == pr_void
          then some (brk_report t)
          else if n == pr_mmap || n == pr_mmap2
          then some (brk_mapped heap_offset result t)
          else if n == pr_mremap
          then some (brk_remapped heap_offset result t)
          else if n == pr_brk
          then some (
              if result == peek_reg t original sysarg_1
              then record t { heap = record (t.heap) { disabled = true } }
              else t)
          else none
    ])
