-- ===== src/Extension/SysvIpc/Sem/Check.antt =====
-- What a semop(2) does to the values of a semaphore.
use proot_termux.Base.{
  ℕ, zero, suc, ◌+◌, ◌-◌, ◌≤◌, ◌<◌, ◌≡◌, ◌≢◌, refl, sym, ap, subst, ◌⊎◌, ◌∙◌, Bool, true, false,
  ◌==◌, if◌then◌else◌, ltb, List, [], ◌∷◌, length, get_or, set, All, length-set, get_or-set_self,
  get_or-set_ne, arith, Bool-cases, inl, inr, ==_iff,
}
use proot_termux.Extension.SysvIpc.{ℤ, pos, negsuc, Sembuf, Semaphore}
use proot_termux.Extension.SysvIpc.Sem.{
  sysvipc_max_semval, WaitType, until_more, until_zero, Outcome, done, waits, fails, block,
  run_sops, settle, sysvipc_sem_check,
}

-- The sums of what the operations on the semaphore at `k` add and take.
abbrev pub ups : List Sembuf → ℕ → ℕ
ups [] k = 0
ups (sop ∷ sops) k =
    (elim sop.sem_op [ pos up ↦ if sop.sem_num == k then up else 0 | negsuc down ↦ 0 ]) + ups sops k

abbrev pub downs : List Sembuf → ℕ → ℕ
downs [] k = 0
downs (sop ∷ sops) k =
    (elim sop.sem_op [ pos up ↦ 0 | negsuc down ↦ if sop.sem_num == k then suc down else 0 ])
    + downs sops k

abbrev pub IsInRange : ℕ → Sembuf → Type 0
IsInRange n sop = sop.sem_num < n

ℤ-cases :
    (z : ℤ) → (z ≡ pos zero) ⊎ (((up : ℕ) × (z ≡ pos (suc up))) ⊎ ((down : ℕ) × (z ≡ negsuc down)))
ℤ-cases (pos zero) = inl refl
ℤ-cases (pos (suc up)) = inr (inl (up, refl))
ℤ-cases (negsuc down) = inr (inr (down, refl))

block-done : (sop : Sembuf) (type : WaitType) {l : List ℕ} → block sop type ≢ done l
block-done sop type e = elim (Bool-cases sop.nowait) [ inl b ↦ ground arith | inr b ↦ ground arith ]

-- The values after a write.
get_or-set :
    (xs : List ℕ) (i j v : ℕ)
    → i < length xs
    → get_or (set xs i v) j 0 ≡ (if i == j then v else get_or xs j 0)
get_or-set xs i j v h = elim (Bool-cases (i == j)) [
  | inl here ↦
      rw here
        (ap (λ j. get_or (set xs i v) j 0) (sym ((==_iff i j).0 here)) ∙ get_or-set_self xs i v 0 h)
  | inr elsewhere ↦ let ne : i ≢ j = λ e. ground arith in rw elsewhere (get_or-set_ne xs v 0 ne)
]

run_sops-done :
    (sops : List Sembuf) (sems : List ℕ) (k : ℕ) {new_sems : List ℕ}
    → All (IsInRange (length sems)) sops
    → get_or sems k 0 ≤ sysvipc_max_semval
    → run_sops sops sems ≡ done new_sems
    → (get_or new_sems k 0 + downs sops k ≡ get_or sems k 0 + ups sops k)
      × (get_or new_sems k 0 ≤ sysvipc_max_semval)
      × (length new_sems ≡ length sems)
run_sops-done [] sems k r b e = ground arith
run_sops-done (sop ∷ sops) sems k {new_sems} r b e =
    let value = get_or sems sop.sem_num 0 in
    let bound = sysvipc_max_semval in
    let wrote : (v : ℕ)
        → v ≤ bound
        → run_sops sops (set sems sop.sem_num v) ≡ done new_sems
        → (get_or new_sems k 0 + downs sops k
            ≡ (if sop.sem_num == k then v else get_or sems k 0) + ups sops k)
          × (get_or new_sems k 0 ≤ bound)
          × (length new_sems ≡ length sems) =
      λ v small run.
        let sems' = set sems sop.sem_num v in
        let at = get_or-set sems sop.sem_num k v r.0 in
        let kept = length-set sems sop.sem_num v in
        let (sums, below, size) =
          run_sops-done sops sems' k (subst (λ n. All (IsInRange n) sops) (sym kept) r.1)
            (ground (arith, at)) run in
        (sums ∙ ap (λ n. n + ups sops k) at, below, size ∙ kept) in
    elim (ℤ-cases sop.sem_op) [
      | inl z ↦
          let run = rw z at e in
          elim (Bool-cases (value == 0)) [
            | inl free ↦
                let (sums, below, size) = run_sops-done sops sems k r.1 b (rw free at run) in
                rw z (ground arith, below, size)
            | inr busy ↦ absurd (block-done sop until_zero (rw busy at run))
          ]
      | inr (inl (up, z)) ↦
          let run = rw z at e in
          elim (Bool-cases (ltb bound (value + suc up))) [
            | inl over ↦ absurd (ground arith)
            | inr fits ↦
                let (sums, below, size) = wrote (value + suc up) (ground arith) (rw fits at run) in
                rw z (ground arith, below, size)
          ]
      | inr (inr (down, z)) ↦
          let run = rw z at e in
          elim (Bool-cases (ltb value (suc down))) [
            | inl short ↦ absurd (block-done sop until_more (rw short at run))
            | inr enough ↦ elim (Bool-cases (ltb bound (value - suc down))) [
              | inl over ↦ absurd (ground arith)
              | inr fits ↦
                  let (sums, below, size) =
                    wrote (value - suc down) (ground arith) (rw fits at (rw enough at run)) in
                  rw z (ground arith, below, size)
            ]
          ]
    ]

abbrev pub is_done : Outcome → Bool
is_done (done new_sems) = true
is_done _ = false

settle_balance :
    (sops : List Sembuf) (semaphore : Semaphore) (k : ℕ)
    → All (IsInRange (length semaphore.sems)) sops
    → get_or semaphore.sems k 0 ≤ sysvipc_max_semval
    → (o : Outcome) → run_sops sops semaphore.sems ≡ o
    → (get_or (settle o semaphore).1.sems k 0
          + (if is_done (settle o semaphore).0 then downs sops k else 0)
        ≡ get_or semaphore.sems k 0 + (if is_done (settle o semaphore).0 then ups sops k else 0))
      × (get_or (settle o semaphore).1.sems k 0 ≤ sysvipc_max_semval)
      × (length (settle o semaphore).1.sems ≡ length semaphore.sems)
settle_balance sops semaphore k r b (done new_sems) e = run_sops-done sops semaphore.sems k r b e
settle_balance sops semaphore k r b (waits type) e = (refl, b, refl)
settle_balance sops semaphore k r b (fails error) e = (refl, b, refl)

-- For operations on values that the semaphore has, one semop(2) does all or none: a value that is
-- not over the maximum changes by the sum of what they add to it and take from it where all of
-- them are possible, and otherwise it stays. It does not go over the maximum, and the number of
-- values is kept.
pub sysvipc_sem_check_balance :
    (sops : List Sembuf) (semaphore : Semaphore) (k : ℕ)
    → All (IsInRange (length semaphore.sems)) sops
    → get_or semaphore.sems k 0 ≤ sysvipc_max_semval
    → (get_or (sysvipc_sem_check sops semaphore).1.sems k 0
          + (if is_done (sysvipc_sem_check sops semaphore).0 then downs sops k else 0)
        ≡ get_or semaphore.sems k 0
          + (if is_done (sysvipc_sem_check sops semaphore).0 then ups sops k else 0))
      × (get_or (sysvipc_sem_check sops semaphore).1.sems k 0 ≤ sysvipc_max_semval)
      × (length (sysvipc_sem_check sops semaphore).1.sems ≡ length semaphore.sems)
sysvipc_sem_check_balance sops semaphore k r b =
    settle_balance sops semaphore k r b (run_sops sops semaphore.sems) refl
