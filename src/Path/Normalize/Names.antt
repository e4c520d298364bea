-- ===== src/Path/Normalize/Names.antt =====
-- The components of a path, by splitting it at its separators, and how the cursor of
-- `normalize_guest_path()` walks over them.
use proot_termux.Base.{
  ℕ, ◌+◌, ◌≤◌, ◌<◌, ◌≡◌, ◌≢◌, refl, inl, inr, List, [], ◌∷◌, ◌==◌, if◌then◌else◌, length, Bytes,
  Bool-cases, arith, All,
}
use proot_termux.Path.Normalize.{skip_slashes, component_of, after_component}

abbrev pub glue : ℕ → List Bytes → List Bytes
glue c [] = (c ∷ []) ∷ []
glue c (p ∷ ps) = (c ∷ p) ∷ ps

-- The pieces between the separators, empty ones included.
abbrev pub split_slash : Bytes → List Bytes
split_slash [] = [] ∷ []
split_slash (c ∷ s) = if c == b'/' then [] ∷ split_slash s else glue c (split_slash s)

abbrev pub drop_empty : List Bytes → List Bytes
drop_empty [] = []
drop_empty ([] ∷ ps) = drop_empty ps
drop_empty ((c ∷ p) ∷ ps) = (c ∷ p) ∷ drop_empty ps

-- The components of a path: the pieces that are not empty.
unfoldable pub components : Bytes → List Bytes
components s = drop_empty (split_slash s)

-- The pieces behind the first one.
abbrev later_pieces : Bytes → List Bytes
later_pieces [] = []
later_pieces (c ∷ s) = split_slash s

split_slash-component_of :
    (s : Bytes) → split_slash s ≡ component_of s ∷ later_pieces (after_component s)
split_slash-component_of [] = refl
split_slash-component_of (c ∷ s) = ground (arith, split_slash-component_of s)

components_later :
    (s : Bytes) → drop_empty (later_pieces (after_component s)) ≡ components (after_component s)
unfolding components
components_later [] = refl
components_later (c ∷ s) = ground (arith, components_later s)

components-skip_slashes : (s : Bytes) → components (skip_slashes s) ≡ components s
unfolding components
components-skip_slashes [] = refl
components-skip_slashes (c ∷ s) = ground (arith, components-skip_slashes s)

-- With no component at the cursor the path has none left.
pub components-nil : (s : Bytes) → component_of (skip_slashes s) ≡ [] → components s ≡ []
unfolding components
components-nil [] e = refl
components-nil (c ∷ s) e = ground (arith, components-nil s)

-- The component at the cursor is the first one, and the others follow behind it.
pub components-cons :
    (s : Bytes) (c : ℕ) (p : Bytes)
    → component_of (skip_slashes s) ≡ c ∷ p
    → components s ≡ (c ∷ p) ∷ components (after_component (skip_slashes s))
unfolding components
components-cons s c p e = ground (
  arith,
  components-skip_slashes s,
  split_slash-component_of (skip_slashes s),
  components_later (skip_slashes s),
)

-- A cursor at the end or at a separator.
abbrev pub AtSlash : Bytes → Type 0
AtSlash [] = Unit
AtSlash (c ∷ s) = c ≡ b'/'

pub after_component-AtSlash : (s : Bytes) → AtSlash (after_component s)
after_component-AtSlash [] = tt
after_component-AtSlash (c ∷ s) = elim (Bool-cases (c == b'/')) [
  | inl e ↦ rw e (ground arith)
  | inr e ↦ rw e (after_component-AtSlash s)
]

length-component_of : (s : Bytes) → length (component_of s) + length (after_component s) ≡ length s
length-component_of [] = refl
length-component_of (c ∷ s) = ground (arith, length-component_of s)

length-skip_slashes : (s : Bytes) → length (skip_slashes s) ≤ length s
length-skip_slashes [] = omega arith
length-skip_slashes (c ∷ s) = ground (arith, length-skip_slashes s)

-- Each round consumes the component and at least one separator before it.
pub length-after_component :
    (s : Bytes)
    → AtSlash s
    → component_of (skip_slashes s) ≢ []
    → length (component_of (skip_slashes s)) + length (after_component (skip_slashes s)) < length s
length-after_component [] a n = absurd (n refl)
length-after_component (c ∷ s) a n =
    ground (arith, length-component_of (skip_slashes s), length-skip_slashes s)

-- A component of a path: not empty, and without a separator.
abbrev pub IsName : Bytes → Type 0
IsName p = All (λ c. c ≢ b'/') p × (p ≢ [])

component_of-All : (s : Bytes) → All (λ c. c ≢ b'/') (component_of s)
component_of-All [] = tt
component_of-All (c ∷ s) = elim (Bool-cases (c == b'/')) [
  | inl e ↦ rw e tt
  | inr e ↦ rw e (ground arith, component_of-All s)
]

pub component_of-IsName :
    (s : Bytes) (c : ℕ) (p : Bytes) → component_of (skip_slashes s) ≡ c ∷ p → IsName (c ∷ p)
component_of-IsName s c p e = (rw e at (component_of-All (skip_slashes s)), ground arith)
