-- ===== src/Binding/Order.antt =====
-- `insort_binding` keeps each queue sorted: no binding stands before one that it contains.
use proot_termux.Base.{ℕ, inl, inr, List, [], ◌∷◌, ◌==◌, Bytes, Option, some, none, All, Bool-cases}
use proot_termux.Binding.{
  Side, guest, host, pending, Binding, Bindings, head_of, with_head, side_path, find_place,
  inserted, replaced, remove_from, insort_binding, insort_binding2, insort_binding3_with_mode,
  BindingAccess, remove_binding_from_all_lists,
}
use proot_termux.Binding.Lookup.{IsOrdered, IsPath, HasPaths}
use proot_termux.Binding.Insert.{inserted-IsOrdered, inserted-HasPaths}

All-remove_from :
    (P : Binding → Type 0) (a : ℕ) (l : List Binding) → All P l → All P (remove_from a l)
All-remove_from P a [] h = tt
All-remove_from P a (b ∷ l) h = elim (Bool-cases (b.address == a)) [
  | inl e ↦ rw e h.1
  | inr e ↦ rw e (h.0, All-remove_from P a l h.1)
]

remove_from-IsOrdered :
    (side : Side) (a : ℕ) (l : List Binding) → IsOrdered side l → IsOrdered side (remove_from a l)
remove_from-IsOrdered side a [] o = tt
remove_from-IsOrdered side a (b ∷ l) o = elim (Bool-cases (b.address == a)) [
  | inl e ↦ rw e o.1
  | inr e ↦ rw e (All-remove_from _ a l o.0, remove_from-IsOrdered side a l o.1)
]

-- A queue whose paths are usable, and in which no binding stands before one that it contains.
pub record IsSorted (side : Side) (l : List Binding) : Type 0 where
  pub paths : HasPaths side l
  pub ordered : IsOrdered side l

remove_from-IsSorted :
    (side : Side) (a : ℕ) (l : List Binding) → IsSorted side l → IsSorted side (remove_from a l)
remove_from-IsSorted side a l h = record {
  paths = All-remove_from _ a l h.paths;
  ordered = remove_from-IsOrdered side a l h.ordered;
}

inserted-IsSorted :
    (side : Side) (b : Binding) (l : List Binding)
    → IsPath (side_path side b)
    → IsSorted side l
    → IsSorted side (inserted (find_place side b l) b l)
inserted-IsSorted side b l pb h = record {
  paths = inserted-HasPaths side b pb l h.paths;
  ordered = inserted-IsOrdered side b pb l h.paths h.ordered;
}

-- All three queues are sorted, each by its own paths.
pub record AllSorted (s : Bindings) : Type 0 where
  pub guest_sorted : IsSorted guest s.guest_list
  pub host_sorted : IsSorted host s.host_list
  pub pending_sorted : IsSorted pending s.pending_list

remove_binding_from_all_lists-AllSorted :
    (b : Binding) (s : Bindings) → AllSorted s → AllSorted (remove_binding_from_all_lists b s)
unfolding remove_binding_from_all_lists
remove_binding_from_all_lists-AllSorted b s h = record {
  guest_sorted = remove_from-IsSorted guest b.address s.guest_list h.guest_sorted;
  host_sorted = remove_from-IsSorted host b.address s.host_list h.host_sorted;
  pending_sorted = remove_from-IsSorted pending b.address s.pending_list h.pending_sorted;
}

with_head-AllSorted :
    (side : Side) (b : Binding) (s : Bindings)
    → IsPath (side_path side b)
    → AllSorted s
    → AllSorted
        (with_head side (inserted (find_place side b (head_of side s)) b (head_of side s)) s)
with_head-AllSorted guest b s pb h = record {
  guest_sorted = inserted-IsSorted guest b s.guest_list pb h.guest_sorted;
  host_sorted = h.host_sorted;
  pending_sorted = h.pending_sorted;
}
with_head-AllSorted host b s pb h = record {
  guest_sorted = h.guest_sorted;
  host_sorted = inserted-IsSorted host b s.host_list pb h.host_sorted;
  pending_sorted = h.pending_sorted;
}
with_head-AllSorted pending b s pb h = record {
  guest_sorted = h.guest_sorted;
  host_sorted = h.host_sorted;
  pending_sorted = inserted-IsSorted pending b s.pending_list pb h.pending_sorted;
}

-- `insort_binding` of a binding with a usable path keeps all three queues sorted, also when it
-- replaces a binding.
insort_binding-AllSorted :
    (side : Side) (b : Binding) (s : Bindings)
    → IsPath (side_path side b)
    → AllSorted s
    → AllSorted (insort_binding side b s)
unfolding insort_binding
insort_binding-AllSorted side b s pb h =
    go (replaced (find_place side b (head_of side s))) (with_head-AllSorted side b s pb h)
  where
    go :
        {t : Bindings} (r : Option Binding)
        → AllSorted t
        → AllSorted (elim r [ none ↦ t | some old ↦ remove_binding_from_all_lists old t ])
    go none k = k
    go {t} (some old) k = remove_binding_from_all_lists-AllSorted old t k

-- `insort_binding3_with_mode` keeps all three queues sorted, for any pair of usable paths.
pub insort_binding3-AllSorted :
    (address : ℕ) (host_path guest_path : Bytes) (mode : BindingAccess) (s : Bindings)
    → IsPath host_path
    → IsPath guest_path
    → AllSorted s
    → AllSorted (insort_binding3_with_mode address host_path guest_path mode s)
unfolding insort_binding3_with_mode insort_binding2
insort_binding3-AllSorted address host_path guest_path mode s ph pg h =
    insort_binding-AllSorted host _ _ ph (insort_binding-AllSorted guest _ s pg h)
