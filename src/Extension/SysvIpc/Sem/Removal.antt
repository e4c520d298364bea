-- ===== src/Extension/SysvIpc/Sem/Removal.antt =====
-- The ids of removed semaphores.
use proot_termux.Base.{
  ℕ, zero, suc, ◌+◌, ◌-◌, ◌%◌, ◌^◌, ◌<◌, ◌≡◌, refl, ap, ◌∙◌, true, false, some, List, [], ◌∷◌,
  length, get_or, get_elem?, set, length-set, arith, Option-cases, inl, inr, ok, err, einval,
}
use proot_termux.Extension.SysvIpc.{Semaphore, Namespace, is_generation, lookup_ipc_object}
use proot_termux.Extension.SysvIpc.Sem.{created, zeroed, create_in}
use proot_termux.Extension.SysvIpc.Sem.Calls.{removed, semctl_rmid, wake_all}
use proot_termux.Extension.SysvIpc.Sem.Lookup.{lookup-fields, get_elem?-set}

lookup-stale :
    (semaphores : List Semaphore) (sysarg_1 i : ℕ) (s s' : Semaphore)
    → sysarg_1 % 2 ^ 32 % 2 ^ 12 ≡ i + 1
    → get_elem? semaphores i ≡ some s'
    → is_generation s.generation (sysarg_1 % 2 ^ 32) ≡ true
    → s'.generation ≡ (s.generation + 1) % 2 ^ 16
    → lookup_ipc_object sysarg_1 semaphores ≡ err einval
unfolding lookup_ipc_object
lookup-stale semaphores sysarg_1 i s s' index at young older =
    let at' : get_elem? semaphores (sysarg_1 % 2 ^ 32 % 2 ^ 12 - 1) ≡ some s' =
      ap (get_elem? semaphores) (omega (arith, index)) ∙ at in
    let new : is_generation s'.generation (sysarg_1 % 2 ^ 32) ≡ false = ground (arith, older) in
    ground (arith, at', new)

rmid_semaphores :
    (i : ℕ) (s : Semaphore) (namespace namespace' : Namespace)
    → semctl_rmid i s namespace ≡ some namespace'
    → namespace'.semaphores ≡ set namespace.semaphores i (removed s)
rmid_semaphores i s namespace namespace' e = elim (Option-cases (wake_all i namespace.configs)) [
  | inl stuck ↦ absurd (ground arith)
  | inr (configs, woken) ↦ ground arith
]

get_or_of :
    (semaphores : List Semaphore) (i : ℕ) {s : Semaphore}
    → get_elem? semaphores i ≡ some s
    → get_or semaphores i zeroed ≡ s
get_or_of [] i e = absurd (ground arith)
get_or_of (x ∷ semaphores) zero e = ground arith
get_or_of (x ∷ semaphores) (suc i) e = get_or_of semaphores i e

-- Once IPC_RMID has removed the semaphore of an id, the id is not found any more: not while the
-- slot is unused, and not when the next semget(2) has created another semaphore in it.
pub semctl_rmid-lookup :
    (namespace namespace' : Namespace) (sysarg_1 i key nsems : ℕ) (s : Semaphore)
    → lookup_ipc_object sysarg_1 namespace.semaphores ≡ ok (i, s)
    → semctl_rmid i s namespace ≡ some namespace'
    → (lookup_ipc_object sysarg_1 namespace'.semaphores ≡ err einval)
      × (lookup_ipc_object sysarg_1 (create_in namespace'.semaphores i key nsems).1 ≡ err einval)
semctl_rmid-lookup namespace namespace' sysarg_1 i key nsems s e removal =
    let (index, l, at, young) = lookup-fields namespace.semaphores sysarg_1 i s e in
    let left = set namespace.semaphores i (removed s) in
    let same : namespace'.semaphores ≡ left = rmid_semaphores i s namespace namespace' removal in
    let gone : get_elem? left i ≡ some (removed s) =
      get_elem?-set namespace.semaphores i (removed s) l in
    let old : get_or left i zeroed ≡ removed s = get_or_of left i gone in
    let again = created (get_or left i zeroed) key nsems in
    let older : again.generation ≡ (s.generation + 1) % 2 ^ 16 = ap (λ x. x.generation) old in
    let l' : i < length left = omega (arith, length-set namespace.semaphores i (removed s)) in
    rw same (
      lookup-stale left sysarg_1 i s (removed s) index gone young refl,
      lookup-stale (set left i again) sysarg_1 i s again index (get_elem?-set left i again l') young
          older,
    )
