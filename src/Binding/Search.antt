-- ===== src/Binding/Search.antt =====
-- What one round of the search of `insort_binding` does.
use proot_termux.Base.{◌≡◌, ◌≢◌, ◌⊎◌, inl, inr, refl, ap, true, List, [], ◌∷◌, Bytes, arith}
use proot_termux.Path.Compare.{
  Comparison, paths_are_equal, path1_is_prefix, path2_is_prefix, paths_are_not_comparable,
  compare_paths, compare_bytes, compare_paths-bytes, compare_bytes-equal, compare_bytes-swap, trim,
  swap_comparison,
}
use proot_termux.Binding.{
  Side, guest, host, pending, Binding, is_inside, Place, nowhere, behind, instead, visit, inserted,
}
use proot_termux.Binding.Lookup.{IsPath}

compare_bytes_trans :
    (x b y : Bytes)
    → compare_bytes x b ≡ path1_is_prefix
    → is_inside (compare_bytes b y) ≡ true
    → compare_bytes x y ≡ path1_is_prefix
compare_bytes_trans [] [] y h k = absurd (ground arith)
compare_bytes_trans [] (z ∷ b) [] h k = absurd (ground arith)
compare_bytes_trans [] (z ∷ b) (w ∷ y) h k = ground arith
compare_bytes_trans (v ∷ x) [] y h k = absurd (ground arith)
compare_bytes_trans (v ∷ x) (z ∷ b) [] h k = absurd (ground arith)
compare_bytes_trans (v ∷ x) (z ∷ b) (w ∷ y) h k = ground (arith, compare_bytes_trans x b y)

module _ (x b y : Bytes) (px : IsPath x) (pb : IsPath b) (py : IsPath y) where
  pub compare_paths_trans :
      compare_paths x b ≡ path1_is_prefix
      → is_inside (compare_paths b y) ≡ true
      → compare_paths x y ≡ path1_is_prefix
  compare_paths_trans h k = rw (compare_paths-bytes x y px.0 py.0 px.1 py.1) (
      compare_bytes_trans (trim x) (trim b) (trim y)
        (rw (compare_paths-bytes x b px.0 pb.0 px.1 pb.1) at h)
        (rw (compare_paths-bytes b y pb.0 py.0 pb.1 py.1) at k))

  pub compare_paths-congr :
      compare_paths b y ≡ paths_are_equal → compare_paths b x ≡ compare_paths y x
  compare_paths-congr h =
      rw (compare_paths-bytes b x pb.0 px.0 pb.1 px.1, compare_paths-bytes y x py.0 px.0 py.1 px.1)
        (ap (λ t. compare_bytes t (trim x))
          ((compare_bytes-equal (trim b) (trim y)).0
            (rw (compare_paths-bytes b y pb.0 py.0 pb.1 py.1) at h)))

pub compare_paths-swap :
    (p q : Bytes) → IsPath p → IsPath q → compare_paths q p ≡ swap_comparison (compare_paths p q)
compare_paths-swap p q hp hq =
    rw (compare_paths-bytes p q hp.0 hq.0 hp.1 hq.1, compare_paths-bytes q p hq.0 hp.0 hq.1 hp.1)
      (compare_bytes-swap (trim p) (trim q))

-- The search has found a binding that the new one contains or equals.
abbrev pub Found : Place → Type 0
Found nowhere = ⊥
Found _ = Unit

pub visit-nowhere :
    (side : Side) (c : Comparison) (it : Binding) (rest : List Binding) (later : Place)
    → visit side c it rest later ≡ nowhere
    → (c ≢ path1_is_prefix) × (later ≡ nowhere)
visit-nowhere guest c it rest later e = ground arith
visit-nowhere host c it rest later e = ground arith
visit-nowhere pending c it rest later e = ground arith

pub visit-Found :
    (side : Side) (c : Comparison) (it : Binding) (rest : List Binding) (later : Place)
    → Found (visit side c it rest later)
    → (is_inside c ≡ true) ⊎ Found later
visit-Found side paths_are_equal it rest later f = inl refl
visit-Found side path1_is_prefix it rest later f = inl refl
visit-Found guest path2_is_prefix it rest nowhere f = inr f
visit-Found guest path2_is_prefix it rest _ f = inr tt
visit-Found host path2_is_prefix it rest nowhere f = inr f
visit-Found host path2_is_prefix it rest _ f = inr tt
visit-Found pending path2_is_prefix it rest nowhere f = inr f
visit-Found pending path2_is_prefix it rest _ f = inr tt
visit-Found guest paths_are_not_comparable it rest nowhere f = inr f
visit-Found guest paths_are_not_comparable it rest _ f = inr tt
visit-Found host paths_are_not_comparable it rest nowhere f = inr f
visit-Found host paths_are_not_comparable it rest _ f = inr tt
visit-Found pending paths_are_not_comparable it rest nowhere f = inr f
visit-Found pending paths_are_not_comparable it rest _ f = inr tt

-- The queue that one round of the search leads to.
pub data Visited (b it : Binding) (rest : List Binding) (c : Comparison) (later : Place)
    : List Binding → Type 0 where
  takes_over : c ≡ paths_are_equal → Visited b it rest c later (it ∷ b ∷ rest)
  follows : is_inside c ≡ true → later ≡ nowhere → Visited b it rest c later (it ∷ b ∷ rest)
  goes_on : Found later → Visited b it rest c later (it ∷ inserted later b rest)
  leads : c ≢ path1_is_prefix → later ≡ nowhere → Visited b it rest c later (b ∷ it ∷ rest)

pub visit-Visited :
    (b : Binding) (side : Side) (c : Comparison) (it : Binding) (rest : List Binding)
    (later : Place)
    → Visited b it rest c later (inserted (visit side c it rest later) b (it ∷ rest))
visit-Visited b guest paths_are_equal it rest later = takes_over refl
visit-Visited b pending paths_are_equal it rest later = takes_over refl
visit-Visited b host paths_are_equal it rest nowhere = follows refl refl
visit-Visited b host paths_are_equal it rest (behind l r) = goes_on tt
visit-Visited b host paths_are_equal it rest (instead l old r) = goes_on tt
visit-Visited b guest path1_is_prefix it rest nowhere = follows refl refl
visit-Visited b guest path1_is_prefix it rest (behind l r) = goes_on tt
visit-Visited b guest path1_is_prefix it rest (instead l old r) = goes_on tt
visit-Visited b host path1_is_prefix it rest nowhere = follows refl refl
visit-Visited b host path1_is_prefix it rest (behind l r) = goes_on tt
visit-Visited b host path1_is_prefix it rest (instead l old r) = goes_on tt
visit-Visited b pending path1_is_prefix it rest nowhere = follows refl refl
visit-Visited b pending path1_is_prefix it rest (behind l r) = goes_on tt
visit-Visited b pending path1_is_prefix it rest (instead l old r) = goes_on tt
visit-Visited b guest path2_is_prefix it rest nowhere = leads (ground arith) refl
visit-Visited b guest path2_is_prefix it rest (behind l r) = goes_on tt
visit-Visited b guest path2_is_prefix it rest (instead l old r) = goes_on tt
visit-Visited b host path2_is_prefix it rest nowhere = leads (ground arith) refl
visit-Visited b host path2_is_prefix it rest (behind l r) = goes_on tt
visit-Visited b host path2_is_prefix it rest (instead l old r) = goes_on tt
visit-Visited b pending path2_is_prefix it rest nowhere = leads (ground arith) refl
visit-Visited b pending path2_is_prefix it rest (behind l r) = goes_on tt
visit-Visited b pending path2_is_prefix it rest (instead l old r) = goes_on tt
visit-Visited b guest paths_are_not_comparable it rest nowhere = leads (ground arith) refl
visit-Visited b guest paths_are_not_comparable it rest (behind l r) = goes_on tt
visit-Visited b guest paths_are_not_comparable it rest (instead l old r) = goes_on tt
visit-Visited b host paths_are_not_comparable it rest nowhere = leads (ground arith) refl
visit-Visited b host paths_are_not_comparable it rest (behind l r) = goes_on tt
visit-Visited b host paths_are_not_comparable it rest (instead l old r) = goes_on tt
visit-Visited b pending paths_are_not_comparable it rest nowhere = leads (ground arith) refl
visit-Visited b pending paths_are_not_comparable it rest (behind l r) = goes_on tt
visit-Visited b pending paths_are_not_comparable it rest (instead l old r) = goes_on tt
