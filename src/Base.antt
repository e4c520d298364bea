-- ===== src/Base.antt =====
-- The names that the other modules share: the libraries', passed on, those of the children, and
-- the error numbers that the C functions return as negative integers.
mod Tests
mod Lists
mod Words
pub use Tests.*
pub use Lists.*
pub use Words.*
pub use Prim.Native.Nat.{ℕ, zero, suc, ◌+◌, ◌-◌, ◌*◌, ◌/◌, ◌%◌, ◌^◌, ◌≤◌, ◌<◌, min, bit_and, bit_or}
pub use mathlib.Core.Path.{◌≡◌, refl, sym, ap, ap₂, ◌∙◌, subst}
pub use mathlib.Core.Logic.{◌≢◌, ◌↔◌, ◌⊎◌, inl, inr}
pub use mathlib.Core.Bool.{Bool, true, false, not, ◌&&◌, ◌||◌}
pub use mathlib.Core.Option.{Option, none, some}
pub use mathlib.Core.List.{List, [], ◌∷◌, ◌++◌, map}
pub use native.Mathlib.Omega.{arith}

-- The `E*` constants that the modelled functions return.
pub data Errno : Type 0 where
  eperm enoent eintr eagain enomem eacces eexist enotdir einval efbig erofs enospc erange : Errno
  enametoolong eloop e2big enomsg eidrm enosys efault enoexec : Errno

-- An `int` status that is -errno on error.
pub data Result {ℓ} (T : Type ℓ) : Type ℓ where
  err : Errno → Result T
  ok : T → Result T

-- A step that runs if the one before it succeeded.
module _ {ℓ ℓ'} {T : Type ℓ} {U : Type ℓ'} where
  infixl 5 ◌>>=◌
  abbrev pub ◌>>=◌ : Result T → (T → Result U) → Result U
  err code >>= next = err code
  ok value >>= next = next value

  -- Both steps succeeded if their chain did.
  pub >>=-ok :
      (first : Result T) {next : T → Result U} {out : U}
      → first >>= next ≡ ok out
      → (value : T) × (next value ≡ ok out) × (first ≡ ok value)
  >>=-ok (err code) both = cc
  >>=-ok (ok value) both = (value, both, refl)

pub Result-cases {ℓ} :
    {T : Type ℓ} (r : Result T) → ((code : Errno) × (r ≡ err code)) ⊎ ((value : T) × (r ≡ ok value))
Result-cases (err code) = inl (code, refl)
Result-cases (ok value) = inr (value, refl)

-- A C string: its bytes, without the NUL at the end.
abbrev pub Bytes : Type 0
Bytes = List ℕ

abbrev pub path_max : ℕ
path_max = 4096

abbrev pub name_max : ℕ
name_max = 255
