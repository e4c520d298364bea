-- ===== src/Extension/SysvIpc/Sem/Keys.antt =====
-- How the search of `sysvipc_semget` for a key ends.
use proot_termux.Base.{
  ℕ, suc, ◌+◌, ◌%◌, ◌^◌, ◌<◌, ◌≡◌, refl, sym, subst, true, not, ◌&&◌, ◌==◌, Option, some, none,
  List, [], ◌∷◌, length, get_elem?, arith, Bool-cases, inl, inr, ◌⊎◌,
}
use proot_termux.Extension.SysvIpc.{Semaphore}
use proot_termux.Extension.SysvIpc.Sem.{Search, found, missing, search_key}

first_unused :
    (unused : Option ℕ) (start slot : ℕ)
    → (elim unused as (λ u. Option ℕ) [ none ↦ some start | some slot ↦ some slot ]) ≡ some slot
    → (unused ≡ some slot) ⊎ (slot ≡ start)
first_unused none start slot e = inr (ground arith)
first_unused (some old) start slot e = inl e

-- What the search ends with.
abbrev pub Ends : List Semaphore → ℕ → ℕ → Option ℕ → Search → Type 0
Ends semaphores id start unused (found i s) =
    (k : ℕ) × (i ≡ start + k)
    × (k < length semaphores)
    × (get_elem? semaphores k ≡ some s)
    × (s.valid ≡ true)
    × (s.key ≡ id % 2 ^ 32)
Ends semaphores id start unused (missing none) = Unit
Ends semaphores id start unused (missing (some slot)) =
    (unused ≡ some slot) ⊎ ((k : ℕ) × (slot ≡ start + k) × (k < length semaphores))

Ends-later :
    (x : Semaphore) (semaphores : List Semaphore) (id start : ℕ) (unused unused' : Option ℕ)
    (r : Search)
    → ((slot : ℕ) → unused' ≡ some slot → (unused ≡ some slot) ⊎ (slot ≡ start))
    → Ends semaphores id (start + 1) unused' r
    → Ends (x ∷ semaphores) id start unused r
Ends-later x semaphores id start unused unused' (found i s) h (k, e1, e2, e3, v, key) =
    (suc k, omega arith, omega arith, e3, v, key)
Ends-later x semaphores id start unused unused' (missing none) h e = tt
Ends-later x semaphores id start unused unused' (missing (some slot)) h (inl u) = elim (h slot u) [
  | inl before ↦ inl before
  | inr here ↦ inr (0, omega arith, omega arith)
]
Ends-later x semaphores id start unused unused' (missing (some slot)) h (inr (k, e1, e2)) =
    inr (suc k, omega arith, omega arith)

pub search_key-Ends :
    (semaphores : List Semaphore) (id start : ℕ) (unused : Option ℕ)
    → Ends semaphores id start unused (search_key semaphores id start unused)
search_key-Ends [] id start none = tt
search_key-Ends [] id start (some slot) = inl refl
search_key-Ends (x ∷ semaphores) id start unused = elim (Bool-cases x.valid) [
  | inr free ↦
      let unused' : Option ℕ = elim unused [ none ↦ some start | some slot ↦ some slot ] in
      let step : search_key (x ∷ semaphores) id start unused
          ≡ search_key semaphores id (start + 1) unused' =
        ground arith in
      subst (Ends (x ∷ semaphores) id start unused) (sym step) (
        Ends-later x semaphores id start unused unused' _ (first_unused unused start)
          (search_key-Ends semaphores id (start + 1) unused'))
  | inl used ↦
      let later =
        Ends-later x semaphores id start unused unused _ (λ slot u. inl u)
          (search_key-Ends semaphores id (start + 1) unused) in
      let whole = search_key (x ∷ semaphores) id start unused in
      elim (Bool-cases (not (id == 0) && x.key == id % 2 ^ 32)) [
        | inl hit ↦
            let step : whole ≡ found start x = ground arith in
            subst (Ends (x ∷ semaphores) id start unused) (sym step)
              (0, omega arith, omega arith, refl, used, ground arith)
        | inr miss ↦
            let step : whole ≡ search_key semaphores id (start + 1) unused = ground arith in
            subst (Ends (x ∷ semaphores) id start unused) (sym step) later
      ]
]
