-- ===== src/Binding/Lookup.antt =====
-- What `get_binding` and `substitute_binding` find in a sorted queue.
use proot_termux.Base.{
  ◌+◌, ◌≤◌, ◌<◌, ◌≡◌, ◌≢◌, ◌⊎◌, inl, inr, subst, true, false, List, [], ◌∷◌, if◌then◌else◌, length,
  Bytes, Option, some, ok, All, arith, Bool-cases, path_max,
}
use proot_termux.Path.Compare.{
  path1_is_prefix, compare_paths, compare_bytes, compare_paths-bytes, NoNul, trim,
}
use proot_termux.Path.Join.{substitute_path_prefix-at, at, dir_name}
use proot_termux.Binding.{
  Side, guest, Binding, Bindings, head_of, side_path, is_inside, first_match, get_binding,
  substitute_binding,
}

-- No path of the list contains a later one: a container stands behind what it contains.
abbrev pub Outside : Side → Binding → List Binding → Type 0
Outside side b l =
    All (λ c. compare_paths (side_path side b) (side_path side c) ≢ path1_is_prefix) l

abbrev pub IsOrdered : Side → List Binding → Type 0
IsOrdered side [] = Unit
IsOrdered side (b ∷ l) = Outside side b l × IsOrdered side l

-- A usable path: not empty, no NUL.
abbrev pub IsPath : Bytes → Type 0
IsPath p = NoNul p × (p ≢ [])

abbrev pub HasPaths : Side → List Binding → Type 0
HasPaths side l = All (λ b. IsPath (side_path side b)) l

-- A binding that holds the path.
abbrev pub Holds : Side → Bytes → Binding → Type 0
Holds side path b = is_inside (compare_paths (side_path side b) path) ≡ true

-- Of two paths that hold a third one, the first is at least as long if it does not contain the
-- other.
length-compare_bytes :
    (a c q : Bytes)
    → is_inside (compare_bytes a q) ≡ true
    → is_inside (compare_bytes c q) ≡ true
    → compare_bytes a c ≢ path1_is_prefix
    → length c ≤ length a
length-compare_bytes a [] q ha hc n = omega arith
length-compare_bytes [] (y ∷ c) [] ha hc n = absurd (ground arith)
length-compare_bytes [] (y ∷ c) (z ∷ q) ha hc n = absurd (ground arith)
length-compare_bytes (x ∷ a) (y ∷ c) [] ha hc n = ground arith
length-compare_bytes (x ∷ a) (y ∷ c) (z ∷ q) ha hc n = ground (arith, length-compare_bytes a c q)

length-compare_paths :
    (a c q : Bytes)
    → IsPath a
    → IsPath c
    → IsPath q
    → is_inside (compare_paths a q) ≡ true
    → is_inside (compare_paths c q) ≡ true
    → compare_paths a c ≢ path1_is_prefix
    → length (trim c) ≤ length (trim a)
length-compare_paths a c q pa pc pq ha hc n =
    length-compare_bytes (trim a) (trim c) (trim q)
      (rw (compare_paths-bytes a q pa.0 pq.0 pa.1 pq.1) at ha)
      (rw (compare_paths-bytes c q pc.0 pq.0 pc.1 pq.1) at hc)
      (rw (compare_paths-bytes a c pa.0 pc.0 pa.1 pc.1) at n)

-- Every binding of the list that holds the path has a path that is no longer than `b`'s.
abbrev pub IsDeepest : Side → Bytes → Binding → List Binding → Type 0
IsDeepest side path b l =
    All
      (λ c. Holds side path c → length (trim (side_path side c)) ≤ length (trim (side_path side b)))
      l

Outside-IsDeepest :
    (side : Side) (path : Bytes) (b : Binding) (l : List Binding)
    → IsPath path
    → IsPath (side_path side b)
    → HasPaths side l
    → Holds side path b
    → Outside side b l
    → IsDeepest side path b l
Outside-IsDeepest side path b [] p pb pl h o = tt
Outside-IsDeepest side path b (c ∷ l) p pb pl h o = (
  λ hc. length-compare_paths (side_path side b) (side_path side c) path pb pl.0 p h hc o.0,
  Outside-IsDeepest side path b l p pb pl.1 h o.1,
)

first_match-IsDeepest :
    (side : Side) (path : Bytes) (l : List Binding) {b : Binding}
    → IsPath path
    → HasPaths side l
    → IsOrdered side l
    → first_match side path l ≡ some b
    → Holds side path b × IsDeepest side path b l
first_match-IsDeepest side path [] p pl o e = absurd (ground arith)
first_match-IsDeepest side path (c ∷ l) {b} p pl o e =
    elim (Bool-cases (is_inside (compare_paths (side_path side c) path))) [
      | inl hit ↦
          let found : some c ≡ some b = rw hit at e in
          let same : c ≡ b = cc found in
          subst (λ x. Holds side path x × IsDeepest side path x (c ∷ l)) same
            (hit, (λ _. omega arith, Outside-IsDeepest side path c l p pl.0 pl.1 hit o.0))
      | inr miss ↦
          let (h, d) = first_match-IsDeepest side path l p pl.1 o.1 (rw miss at e) in
          (h, (λ hc. cc, d))
    ]

get_binding-first_match :
    (s : Bindings) (side : Side) (path : Bytes) {b : Binding}
    → get_binding s side path ≡ some b
    → first_match side path (head_of side s) ≡ some b
unfolding get_binding
get_binding-first_match s side path e = ground arith

-- In a queue where no binding stands before one that it contains, the binding that `get_binding`
-- finds, if any, holds the path, and among those that do none has a longer path. The path and
-- those of the queue are not empty and have no NUL.
pub get_binding-IsDeepest :
    (s : Bindings) (side : Side) (path : Bytes) {b : Binding}
    → IsPath path
    → HasPaths side (head_of side s)
    → IsOrdered side (head_of side s)
    → get_binding s side path ≡ some b
    → Holds side path b × IsDeepest side path b (head_of side s)
get_binding-IsDeepest s side path p pl o e =
    first_match-IsDeepest side path (head_of side s) p pl o (get_binding-first_match s side path e)

-- A path at or below the guest directory of the binding that is found is moved, as it is, to the
-- host directory of that binding, if the binding needs a substitution; otherwise it is unchanged.
-- Both directories are written without a separator at the end, at most one of them is the root,
-- and the path on the host fits its buffer.
pub substitute_binding-at :
    (s : Bindings) (g h : Bytes) (r : Option Bytes) (b : Binding)
    → get_binding s guest (at g r) ≡ some b
    → b.guest_path ≡ dir_name g
    → b.host_path ≡ dir_name h
    → length g ≢ 1
    → length h ≢ 1
    → (g ≢ []) ⊎ (h ≢ [])
    → r ≢ some []
    → length (at h r) + 1 < path_max
    → substitute_binding s guest (at g r)
      ≡ ok (if b.need_substitution then (true, at h r) else (false, at g r))
unfolding substitute_binding
substitute_binding-at s g h r b found eg eh hg hh n nr fits =
    ground (arith, found, eg, eh, substitute_path_prefix-at g h r hg hh n nr fits)
