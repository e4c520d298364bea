-- ===== src/Syscall/Brk/Cycle.antt =====
-- A whole brk(2): its entry, what the kernel returns, and its exit.
use proot_termux.Base.{
  ℕ, ◌-◌, ◌^◌, ◌≤◌, ◌<◌, ◌≡◌, ◌≢◌, refl, ◌∙◌, ap, ap₂, arith, false, not, ◌||◌, Option, some, ◌==◌,
  if◌then◌else◌, add_word, sub_word, word_mod, Bool-cases, inl, inr,
}
use proot_termux.Tracee.{
  Tracee, Reg, reg_offset, write_slot, sysarg_num, sysarg_1, sysarg_3, sysarg_result, current,
  modified,
}
use proot_termux.Tracee.Regs.{
  peek_reg, poke_reg, peek_reg-poke_reg, poke_reg-others, save_current_regs,
}
use proot_termux.Syscall.Sysnum.{
  Sysnums, IsSmall, translate_sysnum, translate_sysnum-detranslate_sysnum, translate_sysnum-avoider,
  detranslate_sysnum, get_sysnum, set_sysnum, syscall_avoider, pr_void, pr_mremap,
}
use proot_termux.Syscall.Brk.{
  Mapping, translate_brk_enter, translate_brk_exit, brk_resize, is_errno, brk_report, brk_remapped,
  with_heap,
}

-- The kernel's result stands in the result register when the exit begins.
abbrev pub returned : ℕ → Tracee → Tracee
returned result t = record t {
  regs_current = write_slot t.regs_current (reg_offset sysarg_result) result;
}

-- brk(2) from its entry, with the registers saved in between, to its exit.
abbrev pub brk_cycle : Sysnums → ℕ → Mapping → ℕ → Tracee → Option Tracee
brk_cycle s heap_offset bss result t =
    translate_brk_exit s heap_offset
      (returned result (save_current_regs (translate_brk_enter s heap_offset bss t) modified))

heap-poke_reg : (t : Tracee) (reg : Reg) (value : ℕ) → (poke_reg t reg value).heap ≡ t.heap
heap-poke_reg t reg value = (poke_reg-others t reg value).3

heap-brk_resize :
    (s : Sysnums) (heap_offset size : ℕ) (t : Tracee)
    → (brk_resize s heap_offset size t).heap ≡ t.heap
unfolding brk_resize set_sysnum
heap-brk_resize s heap_offset size t = simp heap-poke_reg

num-brk_resize :
    (s : Sysnums) (heap_offset size : ℕ) (t : Tracee)
    → (peek_reg (brk_resize s heap_offset size t) current sysarg_num
        ≡ detranslate_sysnum s pr_mremap)
      × (peek_reg (brk_resize s heap_offset size t) current sysarg_3 ≡ add_word size heap_offset)
unfolding brk_resize set_sysnum
num-brk_resize s heap_offset size t = (simp peek_reg-poke_reg, simp peek_reg-poke_reg)

-- The exit of a system call whose number, saved at the entry, is `n`.
module _ (s : Sysnums) (heap_offset result : ℕ) (e : Tracee) where
  abbrev pub after_entry : Tracee
  after_entry = returned result (save_current_regs e modified)

  pub after_entry_fields :
      (after_entry.heap ≡ e.heap)
      × (peek_reg after_entry modified sysarg_num ≡ peek_reg e current sysarg_num)
      × (peek_reg after_entry modified sysarg_3 ≡ peek_reg e current sysarg_3)
      × (peek_reg after_entry current sysarg_result ≡ result)
  unfolding save_current_regs
  after_entry_fields = (refl, refl, refl, refl)

  pub exit_mremap :
      e.heap.disabled ≡ false
      → translate_sysnum s (peek_reg e current sysarg_num) ≡ some pr_mremap
      → translate_brk_exit s heap_offset after_entry
        ≡ some (brk_remapped heap_offset result after_entry)
  unfolding translate_brk_exit get_sysnum save_current_regs
  exit_mremap d n = ground arith

  pub exit_void :
      e.heap.disabled ≡ false
      → translate_sysnum s (peek_reg e current sysarg_num) ≡ some pr_void
      → translate_brk_exit s heap_offset after_entry ≡ some (brk_report after_entry)
  unfolding translate_brk_exit get_sysnum save_current_regs
  exit_void d n = ground arith

-- The report of the break, on any tracee.
brk_report_fields :
    (t : Tracee)
    → ((brk_report t).heap ≡ t.heap)
      × (peek_reg (brk_report t) current sysarg_result ≡ add_word t.heap.base t.heap.size)
brk_report_fields t = (heap-poke_reg t sysarg_result _, simp peek_reg-poke_reg)

brk_remapped_fields :
    (heap_offset result : ℕ) (t : Tracee)
    → ((brk_remapped heap_offset result t).heap.base ≡ t.heap.base)
      × ((brk_remapped heap_offset result t).heap.size ≡ (
          if is_errno result || not (t.heap.base == add_word result heap_offset)
          then t.heap.size
          else sub_word (peek_reg t modified sysarg_3) heap_offset))
      × (peek_reg (brk_remapped heap_offset result t) current sysarg_result
          ≡ add_word
              (brk_remapped heap_offset result t).heap.base
              (brk_remapped heap_offset result t).heap.size)
brk_remapped_fields heap_offset result t =
    let new = with_heap t t.heap.base (sub_word (peek_reg t modified sysarg_3) heap_offset) in
    let (kept, report) = brk_report_fields t in
    let (kept', report') = brk_report_fields new in
    elim (Bool-cases (is_errno result || not (t.heap.base == add_word result heap_offset))) [
      | inl failed ↦ rw failed (rw kept, rw kept, report ∙ rw kept)
      | inr fine ↦ rw fine (rw kept', rw kept', report' ∙ rw kept')
    ]

enter_resize :
    (s : Sysnums) (heap_offset : ℕ) (bss : Mapping) (t : Tracee)
    → t.heap.disabled ≡ false
    → t.heap.base ≢ 0
    → t.heap.base ≤ peek_reg t current sysarg_1
    → translate_brk_enter s heap_offset bss t
      ≡ brk_resize s heap_offset (sub_word (peek_reg t current sysarg_1) t.heap.base) t
unfolding translate_brk_enter
enter_resize s heap_offset bss t d b h = ground arith

enter_below :
    (s : Sysnums) (heap_offset : ℕ) (bss : Mapping) (t : Tracee)
    → t.heap.disabled ≡ false
    → t.heap.base ≢ 0
    → peek_reg t current sysarg_1 < t.heap.base
    → translate_brk_enter s heap_offset bss t ≡ set_sysnum s t pr_void
unfolding translate_brk_enter
enter_below s heap_offset bss t d b h = ground arith

-- Asked for a break below a heap that is enabled and allocated, brk(2) changes nothing and reports
-- the old break, whatever the kernel returns for the system call that stands in. The numbers of the
-- architecture lie below SYSCALL_AVOIDER.
pub brk_cycle_below :
    (s : Sysnums) (heap_offset : ℕ) (bss : Mapping) (result : ℕ) (t : Tracee)
    → IsSmall s
    → t.heap.disabled ≡ false
    → t.heap.base ≢ 0
    → peek_reg t current sysarg_1 < t.heap.base
    → (t' : Tracee) × (brk_cycle s heap_offset bss result t ≡ some t')
      × (t'.heap ≡ t.heap)
      × (peek_reg t' current sysarg_result ≡ add_word t.heap.base t.heap.size)
brk_cycle_below s heap_offset bss result t small d b h =
    let e = set_sysnum s t pr_void in
    let u = after_entry s heap_offset result e in
    let same : e.heap ≡ t.heap = unfold set_sysnum in heap-poke_reg t sysarg_num _ in
    let num : peek_reg e current sysarg_num ≡ syscall_avoider =
      unfold set_sysnum detranslate_sysnum in simp peek_reg-poke_reg in
    let left =
      exit_void s heap_offset result e (ap (λ heap. heap.disabled) same ∙ d)
        (ap (translate_sysnum s) num ∙ translate_sysnum-avoider s small) in
    let kept : u.heap ≡ t.heap = (after_entry_fields s heap_offset result e).0 ∙ same in
    (
      brk_report u,
      ap (λ e. translate_brk_exit s heap_offset (after_entry s heap_offset result e))
            (enter_below s heap_offset bss t d b h)
          ∙ left,
      (brk_report_fields u).0 ∙ kept,
      (brk_report_fields u).1 ∙ rw kept,
    )

-- The offset that the mapping begins before the heap is taken off again.
resized :
    (request base heap_offset : ℕ)
    → base ≤ request
    → request < word_mod
    → heap_offset < word_mod
    → sub_word (add_word (sub_word request base) heap_offset) heap_offset ≡ request - base
resized request base heap_offset h w o = omega arith

-- Asked for a break at or above the base of a heap that is enabled and allocated, brk(2) resizes
-- the heap to end there, if the kernel returns the address of the mapping that it was given and no
-- error, and otherwise keeps the old size. The break that it reports is the one that holds then. The
-- architecture has mremap(2), its numbers lie below SYSCALL_AVOIDER, and the page and the asked
-- break are words.
pub brk_cycle_resize :
    (s : Sysnums) (heap_offset : ℕ) (bss : Mapping) (result : ℕ) (t : Tracee)
    → IsSmall s
    → detranslate_sysnum s pr_mremap ≢ syscall_avoider
    → heap_offset < 2 ^ 64
    → t.heap.disabled ≡ false
    → t.heap.base ≢ 0
    → t.heap.base ≤ peek_reg t current sysarg_1
    → peek_reg t current sysarg_1 < 2 ^ 64
    → (t' : Tracee) × (brk_cycle s heap_offset bss result t ≡ some t')
      × (t'.heap.base ≡ t.heap.base)
      × (t'.heap.size ≡ (
          if is_errno result || not (t.heap.base == add_word result heap_offset)
          then t.heap.size
          else peek_reg t current sysarg_1 - t.heap.base))
      × (peek_reg t' current sysarg_result ≡ add_word t'.heap.base t'.heap.size)
brk_cycle_resize s heap_offset bss result t small there o d b h w =
    let request = peek_reg t current sysarg_1 in
    let size = sub_word request t.heap.base in
    let e = brk_resize s heap_offset size t in
    let u = after_entry s heap_offset result e in
    let same : e.heap ≡ t.heap = heap-brk_resize s heap_offset size t in
    let (num, third) = num-brk_resize s heap_offset size t in
    let left =
      exit_mremap s heap_offset result e (ap (λ heap. heap.disabled) same ∙ d) (
        ap (translate_sysnum s) num
        ∙ translate_sysnum-detranslate_sysnum s pr_mremap small there) in
    let (kept, _, third', _) = after_entry_fields s heap_offset result e in
    let stays : u.heap ≡ t.heap = kept ∙ same in
    let (base, length, report) = brk_remapped_fields heap_offset result u in
    (
      brk_remapped heap_offset result u,
      ap (λ e. translate_brk_exit s heap_offset (after_entry s heap_offset result e))
            (enter_resize s heap_offset bss t d b h)
          ∙ left,
      base ∙ ap (λ heap. heap.base) stays,
      length
          ∙ ap₂
              (λ heap size.
                if is_errno result || not (heap.base == add_word result heap_offset)
                then heap.size
                else size)
              stays
              (ap (λ n. sub_word n heap_offset) (third' ∙ third)
                ∙ resized request t.heap.base heap_offset h w o),
      report,
    )
