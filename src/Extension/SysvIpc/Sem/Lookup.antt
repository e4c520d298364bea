-- ===== src/Extension/SysvIpc/Sem/Lookup.antt =====
-- LOOKUP_IPC_OBJECT, of proot/src/extension/sysvipc/sysvipc_internal.h.
use proot_termux.Base.{
  ℕ, zero, suc, ◌+◌, ◌-◌, ◌*◌, ◌/◌, ◌%◌, ◌^◌, ◌<◌, ◌≡◌, refl, ap, ◌∙◌, true, some, List, [], ◌∷◌,
  length, get_elem?, set, arith, Option-cases, inl, inr, ok,
}
use proot_termux.Extension.SysvIpc.{
  Semaphore, shifted_generation, ipc_object_id, is_generation, lookup_ipc_object,
}
use proot_termux.Extension.SysvIpc.Sem.{sysvipc_max_sems}

-- A generation that is not negative as an `int16_t`.
abbrev pub IsYoung : Semaphore → Type 0
IsYoung s = s.generation < 2 ^ 15

-- The id of a valid entry is looked up.
pub lookup-ipc_object_id :
    (semaphores : List Semaphore) (i : ℕ) (s : Semaphore)
    → i < sysvipc_max_sems
    → i < length semaphores
    → get_elem? semaphores i ≡ some s
    → s.valid ≡ true
    → IsYoung s
    → lookup_ipc_object (ipc_object_id i s.generation) semaphores ≡ ok (i, s)
unfolding lookup_ipc_object
lookup-ipc_object_id semaphores i s m l e v y =
    let id = ipc_object_id i s.generation in
    let shifted : shifted_generation s.generation ≡ s.generation * 2 ^ 12 = ground arith in
    let index : id % 2 ^ 32 % 2 ^ 12 ≡ i + 1 = omega (arith, shifted) in
    let generation : id % 2 ^ 32 / 2 ^ 12 % 2 ^ 16 ≡ s.generation = omega (arith, shifted) in
    let at : get_elem? semaphores (id % 2 ^ 32 % 2 ^ 12 - 1) ≡ some s =
      ap (get_elem? semaphores) (omega (arith, index)) ∙ e in
    ground (arith, at)

pub lookup-fields :
    (semaphores : List Semaphore) (sysarg_1 i : ℕ) (s : Semaphore)
    → lookup_ipc_object sysarg_1 semaphores ≡ ok (i, s)
    → (sysarg_1 % 2 ^ 32 % 2 ^ 12 ≡ i + 1)
      × (i < length semaphores)
      × (get_elem? semaphores i ≡ some s)
      × (is_generation s.generation (sysarg_1 % 2 ^ 32) ≡ true)
unfolding lookup_ipc_object
lookup-fields semaphores sysarg_1 i s e =
    elim (Option-cases (get_elem? semaphores (sysarg_1 % 2 ^ 32 % 2 ^ 12 - 1))) [
      | inl none_ ↦ absurd (ground arith)
      | inr (x, at) ↦ ground arith
    ]

pub get_elem?-set :
    (xs : List Semaphore) (i : ℕ) (v : Semaphore)
    → i < length xs
    → get_elem? (set xs i v) i ≡ some v
get_elem?-set [] i v h = absurd (omega arith)
get_elem?-set (x ∷ xs) zero v h = refl
get_elem?-set (x ∷ xs) (suc i) v h = get_elem?-set xs i v (omega arith)
