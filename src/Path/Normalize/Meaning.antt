-- ===== src/Path/Normalize/Meaning.antt =====
-- `normalize_guest_path()` resolves the components of a path one after the other.
use mathlib.Core.List.{reverse, tail, reverse-append, reverse-reverse, reverse-cons, append_assoc}
use proot_termux.Base.{
  ℕ, zero, suc, ◌+◌, ◌≤◌, ◌<◌, ◌≡◌, ◌≢◌, refl, ap, ◌⊎◌, inl, inr, false, not, ◌&&◌, List, [], ◌∷◌,
  ◌++◌, ◌==◌, if◌then◌else◌, ltb, length, char_at, str_eq, Bytes, Option, some, Bool-cases, arith,
  All, map, length-append, ok, err, Result, name_max, path_max, einval,
}
use proot_termux.Path.Normalize.{
  pop_out, normalize_component, normalize_from, normalize_guest_path, skip_slashes, component_of,
  after_component,
}
use proot_termux.Path.Normalize.Names.{
  IsName, components, components-nil, components-cons, AtSlash, after_component-AtSlash,
  length-after_component, component_of-IsName,
}
use proot_termux.Path.Normalize.Stack.{
  stack_out, Represents, AllNames, push-Represents, pop_out-Represents, chop_out-Represents,
  length-pop_out, length-reverse, map-reverse-AllNames,
}

-- One component, on the stack of the names so far, the last one first: "." stays, ".." goes up,
-- any other name goes down.
abbrev pub enter : Bytes → List Bytes → List Bytes
enter p names =
    if str_eq p (b'.' ∷ [])
    then names
    else if str_eq p (b'.' ∷ b'.' ∷ [])
    then tail names
    else p ∷ names

abbrev pub resolve : List Bytes → List Bytes → List Bytes
resolve names [] = names
resolve names (p ∷ ps) = resolve (enter p names) ps

-- The absolute path of a stack of names.
abbrev pub absolute : List Bytes → Bytes
absolute [] = b'/' ∷ []
absolute (p ∷ []) = b'/' ∷ p
absolute (p ∷ q ∷ names) = absolute (q ∷ names) ++ b'/' ∷ p

reverse-stack_out : (names : List Bytes) → reverse (stack_out (map reverse names)) ≡ absolute names
reverse-stack_out [] = refl
reverse-stack_out (p ∷ []) = rw (reverse-append (reverse p) (b'/' ∷ []), reverse-reverse)
reverse-stack_out (p ∷ q ∷ names) = rw (
  reverse-append (reverse p) (b'/' ∷ stack_out (map reverse (q ∷ names))),
  reverse-reverse,
  reverse-cons b'/' (stack_out (map reverse (q ∷ names))),
  reverse-stack_out (q ∷ names),
  append_assoc (absolute (q ∷ names)) (b'/' ∷ []) p,
)

-- The buffer, and the room that is left for the rest of a path of length `total`.
record Fits (total : ℕ) (out cursor : Bytes) : Type 0 where
  sum : length out + length cursor ≤ total + 1
  strict : (length out ≤ 1) ⊎ (length out + length cursor ≤ total)

tail-AllNames : (names : List Bytes) → AllNames names → AllNames (tail names)
tail-AllNames [] a = tt
tail-AllNames (p ∷ names) a = a.1

map-tail : (names : List Bytes) → map reverse (tail names) ≡ tail (map reverse names)
map-tail [] = refl
map-tail (p ∷ names) = refl

-- What one component leaves: the names that it leads to, and room for the rest.
record Entered (total : ℕ) (p : Bytes) (names : List Bytes) (out rest : Bytes) : Type 0 where
  out' : Bytes
  entered : normalize_component p out ≡ ok out'
  represents : Represents (map reverse (enter p names)) out'
  all_names : AllNames (enter p names)
  fits : Fits total out' rest

pushed-Entered :
    (total : ℕ) (p : Bytes) (names : List Bytes) (out cursor rest : Bytes)
    → total < path_max
    → IsName p
    → length p < name_max
    → AllNames names
    → Represents (map reverse names) out
    → Fits total out cursor
    → length p + length rest < length cursor
    → str_eq p (b'.' ∷ []) ≡ false
    → str_eq p (b'.' ∷ b'.' ∷ []) ≡ false
    → Entered total p names out rest
unfolding normalize_component
pushed-Entered total p names out cursor rest small n short a r f less nd ndd = record {
  out' =
      reverse p ++ (if ltb 1 (length out) && not (char_at out 0 == b'/') then b'/' ∷ out else out);
  entered = ground (arith, f.sum, f.strict);
  represents =
      rw (nd, ndd)
        (inl (
          ap (λ u. reverse p ++ u)
            (push-Represents (map reverse names) out (map-reverse-AllNames names a) r)));
  all_names = rw (nd, ndd) (n, a);
  fits = record {
    sum = ground (
      arith,
      f.sum,
      f.strict,
      length-append (reverse p) (b'/' ∷ out),
      length-append (reverse p) out,
      length-reverse p,
    );
    strict = inr (
        ground (
          arith,
          f.sum,
          f.strict,
          length-append (reverse p) (b'/' ∷ out),
          length-append (reverse p) out,
          length-reverse p,
        ));
  };
}

normalize_component-Entered :
    (total : ℕ) (p : Bytes) (names : List Bytes) (out cursor rest : Bytes)
    → total < path_max
    → IsName p
    → length p < name_max
    → AllNames names
    → Represents (map reverse names) out
    → Fits total out cursor
    → length p + length rest < length cursor
    → Entered total p names out rest
normalize_component-Entered total p names out cursor rest small n short a r f less =
    elim (Bool-cases (str_eq p (b'.' ∷ []))) [
      | inl dot ↦ record {
        out' = out;
        entered = unfold normalize_component in ground arith;
        represents = rw dot r;
        all_names = rw dot a;
        fits = record { sum = omega (arith, f.sum); strict = ground (arith, f.strict) };
      }
      | inr nd ↦ elim (Bool-cases (str_eq p (b'.' ∷ b'.' ∷ []))) [
        | inl dots ↦ record {
          out' = pop_out out;
          entered = unfold normalize_component in ground arith;
          represents =
              rw (nd, dots)
                (rw (map-tail names)
                  (pop_out-Represents (map reverse names) out (map-reverse-AllNames names a) r));
          all_names = rw (nd, dots) (tail-AllNames names a);
          fits = record {
            sum = omega (arith, f.sum, length-pop_out out);
            strict = ground (arith, f.strict, length-pop_out out);
          };
        }
        | inr ndd ↦ pushed-Entered total p names out cursor rest small n short a r f less nd ndd
      ]
    ]

-- Components that fit a `char[NAME_MAX]` with their NUL.
abbrev pub AllShort : List Bytes → Type 0
AllShort ps = All (λ p. length p < name_max) ps

-- What the loop leaves: the buffer of the resolved names.
record Resolved (names : List Bytes) (r : Option (Result Bytes)) : Type 0 where
  out' : Bytes
  returned : r ≡ some (ok out')
  represents : Represents (map reverse names) out'
  all_names : AllNames names

normalize_from-nil :
    (fuel : ℕ) (cursor out : Bytes)
    → component_of (skip_slashes cursor) ≡ []
    → normalize_from (suc fuel) cursor out ≡ some (ok out)
unfolding normalize_from
normalize_from-nil fuel cursor out e = ground arith

normalize_from-cons :
    (fuel c : ℕ) (cursor out p out' : Bytes)
    → component_of (skip_slashes cursor) ≡ c ∷ p
    → normalize_component (c ∷ p) out ≡ ok out'
    → normalize_from (suc fuel) cursor out
      ≡ normalize_from fuel (after_component (skip_slashes cursor)) out'
unfolding normalize_from
normalize_from-cons fuel c cursor out p out' e h = ground arith

Bytes-cases : (s : Bytes) → (s ≡ []) ⊎ ((c : ℕ) × (p : Bytes) × (s ≡ c ∷ p))
Bytes-cases [] = inl refl
Bytes-cases (c ∷ p) = inr (c, p, refl)

normalize_from-Resolved :
    (fuel total : ℕ) (cursor out : Bytes) (names : List Bytes)
    → length cursor < fuel
    → total < path_max
    → AtSlash cursor
    → AllNames names
    → AllShort (components cursor)
    → Represents (map reverse names) out
    → Fits total out cursor
    → Resolved (resolve names (components cursor)) (normalize_from fuel cursor out)
normalize_from-Resolved zero total cursor out names enough small at_slash a short r f =
    absurd (omega arith)
normalize_from-Resolved (suc fuel) total cursor out names enough small at_slash a short r f =
    elim (Bytes-cases (component_of (skip_slashes cursor))) [
      | inl e ↦ rw (components-nil cursor e) (record {
        out' = out;
        returned = normalize_from-nil fuel cursor out e;
        represents = r;
        all_names = a;
      })
      | inr (c, p, e) ↦
          let rest = after_component (skip_slashes cursor) in
          let comps : components cursor ≡ (c ∷ p) ∷ components rest =
            components-cons cursor c p e in
          let short' : AllShort ((c ∷ p) ∷ components rest) = rw comps at short in
          let less : length (c ∷ p) + length rest < length cursor =
            rw e at (length-after_component cursor at_slash (ground arith)) in
          let E : Entered total (c ∷ p) names out rest =
            normalize_component-Entered total (c ∷ p) names out cursor rest small
              (component_of-IsName cursor c p e) short'.0 a r f less in
          rw (comps, normalize_from-cons fuel c cursor out p E.out' e E.entered)
            (normalize_from-Resolved fuel total rest E.out' (enter (c ∷ p) names) (omega arith)
              small (after_component-AtSlash (skip_slashes cursor)) E.all_names short'.1
              E.represents E.fits)
    ]

AtSlash-char_at : (path : Bytes) → char_at path 0 ≡ b'/' → AtSlash path
AtSlash-char_at [] e = tt
AtSlash-char_at (c ∷ path) e = e

-- For an absolute path that fits a `char[PATH_MAX]` and whose components fit a `char[NAME_MAX]`,
-- `normalize_guest_path` succeeds, its loop has enough fuel, and the new path is that of the
-- path's components, resolved from the root one after the other.
pub normalize_guest_path-resolve :
    (path : Bytes)
    → char_at path 0 ≡ b'/'
    → length path < path_max
    → AllShort (components path)
    → normalize_guest_path path ≡ some (ok (absolute (resolve [] (components path))))
unfolding normalize_guest_path
normalize_guest_path-resolve path slash small short =
    let R : Resolved (resolve [] (components path))
        (normalize_from (length path + 1) path (b'/' ∷ [])) =
      normalize_from-Resolved (length path + 1) (length path) path (b'/' ∷ []) [] (omega arith)
        small (AtSlash-char_at path slash) tt short (inl refl)
        (record { sum = omega arith; strict = inl (omega arith) }) in
    ground (
      arith,
      R.returned,
      chop_out-Represents (map reverse (resolve [] (components path))) R.out'
          (map-reverse-AllNames (resolve [] (components path)) R.all_names) R.represents,
      reverse-stack_out (resolve [] (components path)),
    )

-- A path that does not begin with a separator is refused with EINVAL.
pub normalize_guest_path-relative :
    (path : Bytes) → char_at path 0 ≢ b'/' → normalize_guest_path path ≡ some (err einval)
unfolding normalize_guest_path
normalize_guest_path-relative path n = ground arith
