-- ===== src/Path/Normalize/Stack.antt =====
-- How the buffer of `normalize_guest_path()` holds a stack of names.
use mathlib.Core.List.{reverse, reverse_aux, tail}
use proot_termux.Base.{
  ℕ, ◌+◌, ◌≤◌, ◌≡◌, ◌≢◌, refl, ap, ◌⊎◌, inl, inr, not, ◌&&◌, List, [], ◌∷◌, ◌++◌, ◌==◌,
  if◌then◌else◌, ltb, length, char_at, Bytes, arith, All, map, length-append,
}
use proot_termux.Path.Normalize.{back_to_slash, pop_out, chop_out}
use proot_termux.Path.Normalize.Names.{IsName}

abbrev pub under : List Bytes → Bytes → Bytes
under [] out = out
under (q ∷ names) out = b'/' ∷ out

-- The bytes of a stack of names, the last byte first: each name is given reversed, the last name
-- first.
abbrev pub stack_out : List Bytes → Bytes
stack_out [] = b'/' ∷ []
stack_out (r ∷ names) = r ++ under names (stack_out names)

-- The buffer holds the names. After a `..` a separator may stand behind the last name.
abbrev pub Represents : List Bytes → Bytes → Type 0
Represents names out = (out ≡ stack_out names) ⊎ ((names ≢ []) × (out ≡ b'/' ∷ stack_out names))

abbrev pub AllNames : List Bytes → Type 0
AllNames names = All IsName names

stack_out-ne-nil : (names : List Bytes) → 1 ≤ length (stack_out names)
stack_out-ne-nil [] = omega arith
stack_out-ne-nil (r ∷ []) = omega (arith, length-append {0} r (b'/' ∷ []))
stack_out-ne-nil (r ∷ q ∷ names) = omega (arith, length-append {0} r (b'/' ∷ stack_out (q ∷ names)))

pub push-Represents :
    (names : List Bytes) (out : Bytes)
    → AllNames names
    → Represents names out
    → (if ltb 1 (length out) && not (char_at out 0 == b'/') then b'/' ∷ out else out)
      ≡ under names (stack_out names)
push-Represents [] out a (inl e) = rw e refl
push-Represents [] out a (inr (n, e)) = absurd (n refl)
push-Represents ([] ∷ names) out a h = absurd (a.0.1 refl)
push-Represents ((c ∷ r) ∷ []) out a h = ground (arith, length-append r (b'/' ∷ []))
push-Represents ((c ∷ r) ∷ q ∷ names) out a h =
    ground (arith, length-append r (b'/' ∷ stack_out (q ∷ names)), stack_out-ne-nil (q ∷ names))

back_to_slash-append :
    (r u : Bytes) → All (λ c. c ≢ b'/') r → back_to_slash (r ++ b'/' ∷ u) ≡ b'/' ∷ u
back_to_slash-append [] u h = refl
back_to_slash-append (c ∷ r) u h = ground (arith, back_to_slash-append r u)

pop_out-cons :
    (c : ℕ) (r u : Bytes) → All (λ d. d ≢ b'/') r → pop_out (c ∷ (r ++ b'/' ∷ u)) ≡ b'/' ∷ u
pop_out-cons c [] u h = refl
pop_out-cons c (d ∷ r) u h = back_to_slash-append (d ∷ r) u h

pub pop_out-Represents :
    (names : List Bytes) (out : Bytes)
    → AllNames names
    → Represents names out
    → Represents (tail names) (pop_out out)
pop_out-Represents [] out a (inl e) = inl (rw e refl)
pop_out-Represents [] out a (inr (n, e)) = absurd (n refl)
pop_out-Represents ([] ∷ names) out a h = absurd (a.0.1 refl)
pop_out-Represents ((c ∷ r) ∷ []) out a (inl e) = inl (rw e (pop_out-cons c r [] a.0.0.1))
pop_out-Represents ((c ∷ r) ∷ []) out a (inr (n, e)) =
    inl (rw e (pop_out-cons b'/' (c ∷ r) [] a.0.0))
pop_out-Represents ((c ∷ r) ∷ q ∷ names) out a (inl e) =
    inr (ground arith, rw e (pop_out-cons c r (stack_out (q ∷ names)) a.0.0.1))
pop_out-Represents ((c ∷ r) ∷ q ∷ names) out a (inr (n, e)) =
    inr (ground arith, rw e (pop_out-cons b'/' (c ∷ r) (stack_out (q ∷ names)) a.0.0))

pub chop_out-Represents :
    (names : List Bytes) (out : Bytes)
    → AllNames names
    → Represents names out
    → chop_out out ≡ stack_out names
chop_out-Represents [] out a (inl e) = rw e refl
chop_out-Represents [] out a (inr (n, e)) = absurd (n refl)
chop_out-Represents ([] ∷ names) out a h = absurd (a.0.1 refl)
chop_out-Represents ((c ∷ []) ∷ []) out a h = ground arith
chop_out-Represents ((c ∷ []) ∷ q ∷ names) out a h = ground arith
chop_out-Represents ((c ∷ d ∷ r) ∷ []) out a h = ground arith
chop_out-Represents ((c ∷ d ∷ r) ∷ q ∷ names) out a h = ground arith

length-back_to_slash : (out : Bytes) → length (back_to_slash out) ≤ length out
length-back_to_slash [] = omega arith
length-back_to_slash (c ∷ out) = ground (arith, length-back_to_slash out)

pub length-pop_out : (out : Bytes) → length (pop_out out) ≤ length out
length-pop_out [] = omega arith
length-pop_out (c ∷ []) = omega arith
length-pop_out (c ∷ d ∷ out) = omega (arith, length-back_to_slash (d ∷ out))

All-reverse_aux : (P : ℕ → Type 0) (p acc : Bytes) → All P p → All P acc → All P (reverse_aux p acc)
All-reverse_aux P [] acc h k = k
All-reverse_aux P (c ∷ p) acc h k = All-reverse_aux P p (c ∷ acc) h.1 (h.0, k)

length-reverse_aux : (p acc : Bytes) → length (reverse_aux p acc) ≡ length p + length acc
length-reverse_aux [] acc = omega arith
length-reverse_aux (c ∷ p) acc = omega (arith, length-reverse_aux p (c ∷ acc))

pub length-reverse : (p : Bytes) → length (reverse p) ≡ length p
length-reverse p = omega (arith, length-reverse_aux p [])

pub reverse-IsName : (p : Bytes) → IsName p → IsName (reverse p)
reverse-IsName [] h = absurd (h.1 refl)
reverse-IsName (c ∷ p) h = (
  All-reverse_aux _ (c ∷ p) [] h.0 tt,
  λ e. absurd (omega (arith, length-reverse (c ∷ p), ap (length {0}) e)),
)

pub map-reverse-AllNames : (names : List Bytes) → AllNames names → AllNames (map reverse names)
map-reverse-AllNames [] h = tt
map-reverse-AllNames (p ∷ names) h = (reverse-IsName p h.0, map-reverse-AllNames names h.1)
