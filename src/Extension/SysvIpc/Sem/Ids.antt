-- ===== src/Extension/SysvIpc/Sem/Ids.antt =====
-- The ids that semget(2) returns.
use proot_termux.Base.{
  ℕ, zero, suc, ◌%◌, ◌^◌, ◌≤◌, ◌<◌, ◌≡◌, refl, ap, ◌∙◌, some, none, List, [], ◌∷◌, ◌++◌, length,
  length-append, get_or, get_elem?, set, All, All-append, length-set, arith, inl, inr, ok,
}
use proot_termux.Extension.SysvIpc.{Semaphore, ipc_object_id, lookup_ipc_object}
use proot_termux.Extension.SysvIpc.Sem.{
  sysvipc_max_sems, Search, found, missing, search_key, created, zeroed, create_in, semget_at,
  sysvipc_semget,
}
use proot_termux.Extension.SysvIpc.Sem.Lookup.{IsYoung, lookup-ipc_object_id, get_elem?-set}
use proot_termux.Extension.SysvIpc.Sem.Keys.{Ends, search_key-Ends}

-- The two ways to get an id, where a slot is there and its generation is young.
create_in-lookup :
    (semaphores : List Semaphore) (slot id nsems : ℕ)
    → slot < length semaphores
    → slot < sysvipc_max_sems
    → IsYoung (get_or semaphores slot zeroed)
    → lookup_ipc_object
        (create_in semaphores slot id nsems).0
        (create_in semaphores slot id nsems).1
      ≡ ok (slot, created (get_or semaphores slot zeroed) id nsems)
create_in-lookup semaphores slot id nsems l m y =
    let new = created (get_or semaphores slot zeroed) id nsems in
    lookup-ipc_object_id (set semaphores slot new) slot new m
      (omega (arith, length-set semaphores slot new)) (get_elem?-set semaphores slot new l) refl y

All-get_or :
    (semaphores : List Semaphore) (i : ℕ)
    → All IsYoung semaphores
    → IsYoung (get_or semaphores i zeroed)
All-get_or [] i h = omega arith
All-get_or (x ∷ semaphores) zero h = h.0
All-get_or (x ∷ semaphores) (suc i) h = All-get_or semaphores i h.1

All-get_elem? :
    (semaphores : List Semaphore) (i : ℕ) {s : Semaphore}
    → All IsYoung semaphores
    → get_elem? semaphores i ≡ some s
    → IsYoung s
All-get_elem? [] i h e = absurd (ground arith)
All-get_elem? (x ∷ semaphores) zero h e = ground (arith, h.0)
All-get_elem? (x ∷ semaphores) (suc i) h e = All-get_elem? semaphores i h.1 e

-- The id and the list that semget(2) leaves: the id is looked up, and the key is the caller's.
abbrev IsServed : ℕ → ℕ → List Semaphore → Type 0
IsServed id object_id semaphores =
    (i : ℕ) × (s : Semaphore) × (lookup_ipc_object object_id semaphores ≡ ok (i, s))
    × (s.key ≡ id % 2 ^ 32)
    × (length semaphores ≤ sysvipc_max_sems)

create-IsServed :
    (semaphores : List Semaphore) (slot id nsems : ℕ)
    → slot < length semaphores
    → length semaphores ≤ sysvipc_max_sems
    → All IsYoung semaphores
    → IsServed id (create_in semaphores slot id nsems).0 (create_in semaphores slot id nsems).1
create-IsServed semaphores slot id nsems l m y = (
  slot,
  created (get_or semaphores slot zeroed) id nsems,
  create_in-lookup semaphores slot id nsems l (omega arith) (All-get_or semaphores slot y),
  refl,
  omega (arith, length-set semaphores slot (created (get_or semaphores slot zeroed) id nsems)),
)

semget_at-IsServed :
    (semaphores : List Semaphore) (id nsems semflg object_id : ℕ) (semaphores' : List Semaphore)
    (r : Search)
    → Ends semaphores id 0 none r
    → length semaphores ≤ sysvipc_max_sems
    → All IsYoung semaphores
    → semget_at semaphores r id nsems semflg ≡ ok (object_id, semaphores')
    → IsServed id object_id semaphores'
semget_at-IsServed semaphores id nsems semflg object_id semaphores' (found i s)
      (k, e1, l, at, v, key) m y e =
    let same_id : object_id ≡ ipc_object_id i s.generation = ground arith in
    let same : semaphores' ≡ semaphores = ground arith in
    let here : i ≡ k = omega arith in
    let at' : get_elem? semaphores i ≡ some s = ap (get_elem? semaphores) here ∙ at in
    rw (same_id, same)
      (
        i,
        s,
        lookup-ipc_object_id semaphores i s (omega arith) (omega arith) at' v
            (All-get_elem? semaphores i y at'),
        key,
        m,
      )
semget_at-IsServed semaphores id nsems semflg object_id semaphores' (missing (some slot)) (inl u) m
      y e =
    absurd (ground arith)
semget_at-IsServed semaphores id nsems semflg object_id semaphores' (missing (some slot))
      (inr (k, e1, l)) m y e =
    let same_id : object_id ≡ (create_in semaphores slot id nsems).0 = ground arith in
    let same : semaphores' ≡ (create_in semaphores slot id nsems).1 = ground arith in
    rw (same_id, same) (create-IsServed semaphores slot id nsems (omega arith) m y)
semget_at-IsServed semaphores id nsems semflg object_id semaphores' (missing none) u m y e =
    let grown = semaphores ++ zeroed ∷ [] in
    let slot = length semaphores in
    let size = length-append semaphores (zeroed ∷ []) in
    let same_id : object_id ≡ (create_in grown slot id nsems).0 = ground arith in
    let same : semaphores' ≡ (create_in grown slot id nsems).1 = ground arith in
    let room : slot < sysvipc_max_sems = ground arith in
    rw (same_id, same)
      (create-IsServed grown slot id nsems (omega (arith, size)) (omega (arith, size))
        (All-append IsYoung semaphores (zeroed ∷ []) y (omega arith, tt)))

-- An id that semget(2) returns is the id of a semaphore with the key that was asked for, in a table
-- that has not grown over its maximum, as long as no generation of the table has reached 2 ^ 15.
pub sysvipc_semget-lookup :
    (semaphores : List Semaphore) (id sysarg_2 sysarg_3 object_id : ℕ)
    (semaphores' : List Semaphore)
    → length semaphores ≤ sysvipc_max_sems
    → All IsYoung semaphores
    → sysvipc_semget id sysarg_2 sysarg_3 semaphores ≡ ok (object_id, semaphores')
    → (i : ℕ) × (s : Semaphore) × (lookup_ipc_object object_id semaphores' ≡ ok (i, s))
      × (s.key ≡ id % 2 ^ 32)
      × (length semaphores' ≤ sysvipc_max_sems)
unfolding sysvipc_semget
sysvipc_semget-lookup semaphores id sysarg_2 sysarg_3 object_id semaphores' m y e =
    let r = search_key semaphores id 0 none in
    semget_at-IsServed semaphores id (sysarg_2 % 2 ^ 32) (sysarg_3 % 2 ^ 32) object_id semaphores' r
      (search_key-Ends semaphores id 0 none) m y (ground arith)
