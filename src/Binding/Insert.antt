-- ===== src/Binding/Insert.antt =====
-- The queue into which `insort_binding` has put a binding.
use proot_termux.Base.{◌≡◌, ◌≢◌, inl, inr, true, List, [], ◌∷◌, arith}
use proot_termux.Path.Compare.{Comparison, paths_are_equal, path1_is_prefix, compare_paths}
use proot_termux.Binding.{Side, Binding, side_path, is_inside, nowhere, find_place, inserted}
use proot_termux.Binding.Lookup.{Outside, IsOrdered, IsPath, HasPaths}
use proot_termux.Binding.Search.{
  compare_paths_trans, compare_paths-congr, compare_paths-swap, Found, visit-nowhere, visit-Found,
  Visited, takes_over, follows, goes_on, leads, visit-Visited,
}

module _ (side : Side) (b : Binding) (pb : IsPath (side_path side b)) where
  abbrev versus : Binding → Comparison
  versus c = compare_paths (side_path side b) (side_path side c)

  -- Nothing found: the new binding contains none of the list.
  nowhere-Outside : (l : List Binding) → find_place side b l ≡ nowhere → Outside side b l
  nowhere-Outside [] e = tt
  nowhere-Outside (it ∷ l) e =
      let (n, later) = visit-nowhere side (versus it) it l (find_place side b l) e in
      (n, nowhere-Outside l later)

  -- The new binding contains or equals one of the list, and that is not in `it`: nor is the new one.
  inside-not-above :
      (it c : Binding)
      → IsPath (side_path side it)
      → IsPath (side_path side c)
      → compare_paths (side_path side it) (side_path side c) ≢ path1_is_prefix
      → is_inside (versus c) ≡ true
      → compare_paths (side_path side it) (side_path side b) ≢ path1_is_prefix
  inside-not-above it c pi pc n h e =
      n (compare_paths_trans (side_path side it) (side_path side b) (side_path side c) pi pb pc e h)

  Found-not-above :
      (it : Binding) (l : List Binding)
      → IsPath (side_path side it)
      → HasPaths side l
      → Outside side it l
      → Found (find_place side b l)
      → compare_paths (side_path side it) (side_path side b) ≢ path1_is_prefix
  Found-not-above it [] pi pl o f = absurd f
  Found-not-above it (c ∷ l) pi pl o f =
      elim (visit-Found side (versus c) c l (find_place side b l) f) [
        | inl h ↦ inside-not-above it c pi pl.0 o.0 h
        | inr later ↦ Found-not-above it l pi pl.1 o.1 later
      ]

  -- A binding that contains none of the list contains none after the insertion.
  Outside-inserted :
      (it : Binding) (l : List Binding)
      → Outside side it l
      → compare_paths (side_path side it) (side_path side b) ≢ path1_is_prefix
      → Outside side it (inserted (find_place side b l) b l)
  Outside-inserted it [] o n = (n, tt)
  Outside-inserted it (c ∷ l) o n =
      go (visit-Visited b side (versus c) c l (find_place side b l)) (Outside-inserted it l o.1 n)
    where
      go :
          {r : List Binding}
          → Visited b c l (versus c) (find_place side b l) r
          → Outside side it (inserted (find_place side b l) b l)
          → Outside side it r
      go (takes_over e) ih = (o.0, (n, o.1))
      go (follows e f) ih = (o.0, (n, o.1))
      go (goes_on f) ih = (o.0, ih)
      go (leads e f) ih = (n, o)

  self_not_above :
      (it : Binding)
      → IsPath (side_path side it)
      → is_inside (versus it) ≡ true
      → compare_paths (side_path side it) (side_path side b) ≢ path1_is_prefix
  self_not_above it pi h =
      ground (arith, compare_paths-swap (side_path side b) (side_path side it) pb pi)

  Outside-congr :
      (it : Binding) (l : List Binding)
      → IsPath (side_path side it)
      → HasPaths side l
      → versus it ≡ paths_are_equal
      → Outside side it l
      → Outside side b l
  Outside-congr it [] pi pl e o = tt
  Outside-congr it (c ∷ l) pi pl e o = (
    rw (compare_paths-congr (side_path side c) (side_path side b) (side_path side it) pl.0 pb pi e)
        o.0,
    Outside-congr it l pi pl.1 e o.1,
  )

  -- The insertion keeps the queue sorted.
  pub inserted-IsOrdered :
      (l : List Binding)
      → HasPaths side l
      → IsOrdered side l
      → IsOrdered side (inserted (find_place side b l) b l)
  inserted-IsOrdered [] pl o = (tt, tt)
  inserted-IsOrdered (it ∷ l) pl o =
      go (visit-Visited b side (versus it) it l (find_place side b l))
        (inserted-IsOrdered l pl.1 o.1)
    where
      go :
          {r : List Binding}
          → Visited b it l (versus it) (find_place side b l) r
          → IsOrdered side (inserted (find_place side b l) b l)
          → IsOrdered side r
      go (takes_over e) ih =
          ((self_not_above it pl.0 (rw e), o.0), (Outside-congr it l pl.0 pl.1 e o.0, o.1))
      go (follows e f) ih = ((self_not_above it pl.0 e, o.0), (nowhere-Outside l f, o.1))
      go (goes_on f) ih = (Outside-inserted it l o.0 (Found-not-above it l pl.0 pl.1 o.0 f), ih)
      go (leads n f) ih = ((n, nowhere-Outside l f), o)

  pub inserted-HasPaths :
      (l : List Binding) → HasPaths side l → HasPaths side (inserted (find_place side b l) b l)
  inserted-HasPaths [] pl = (pb, tt)
  inserted-HasPaths (it ∷ l) pl =
      go (visit-Visited b side (versus it) it l (find_place side b l)) (inserted-HasPaths l pl.1)
    where
      go :
          {r : List Binding}
          → Visited b it l (versus it) (find_place side b l) r
          → HasPaths side (inserted (find_place side b l) b l)
          → HasPaths side r
      go (takes_over e) ih = (pl.0, (pb, pl.1))
      go (follows e f) ih = (pl.0, (pb, pl.1))
      go (goes_on f) ih = (pl.0, ih)
      go (leads n f) ih = (pb, pl)
