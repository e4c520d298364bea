-- ===== src/Tests/Bindings.antt =====
-- Runs of the functions of proot/src/path/binding.c.
use proot_termux.Base.{ℕ, ◌≡◌, ◌↔◌, refl, inl, [], ◌∷◌, true, false, Bytes, some, ok, arith}
use proot_termux.Path.Compare.{compare_paths2, compare_trimmed}
use proot_termux.Path.Join.{at}
use proot_termux.Binding.{
  guest, Binding, rw_access, ro_access, binding_has_readonly_descendant, regular, Bindings,
  get_binding, substitute_binding, insort_binding3_with_mode,
}
use proot_termux.Binding.Lookup.{
  Holds, IsDeepest, IsOrdered, get_binding-IsDeepest, substitute_binding-at,
}
use proot_termux.Binding.Readonly.{HasReadonlyBelow, binding_has_readonly_descendant_iff}
use proot_termux.Binding.Order.{AllSorted, insort_binding3-AllSorted}

-- "/a", "/a/b" and "/r"
abbrev dir_a : Bytes
dir_a = b'/' ∷ b'a' ∷ []

abbrev dir_ab : Bytes
dir_ab = b'/' ∷ b'a' ∷ b'/' ∷ b'b' ∷ []

abbrev dir_r : Bytes
dir_r = b'/' ∷ b'r' ∷ []

abbrev name_x : Bytes
name_x = b'x' ∷ []

abbrev bound : ℕ → Bytes → Bytes → Binding
bound address host_path guest_path = record {
  address = address;
  host_path = host_path;
  guest_path = guest_path;
  need_substitution = true;
  must_exist = false;
  access_mode = rw_access;
  type = regular;
}

abbrev outer : Binding
outer = bound 1 dir_r dir_a

abbrev inner : Binding
inner = bound 2 dir_a dir_ab

abbrev two : Bindings
two = record {
  initialized = true;
  pending_list = [];
  guest_list = inner ∷ outer ∷ [];
  host_list = inner ∷ outer ∷ [];
}

find_inner : get_binding two guest (at dir_ab (some name_x)) ≡ some inner
unfolding get_binding compare_paths2 compare_trimmed
find_inner = refl

two-IsOrdered : IsOrdered guest (inner ∷ outer ∷ [])
unfolding compare_paths2 compare_trimmed
two-IsOrdered = ground arith

two-AllSorted : AllSorted two
unfolding compare_paths2 compare_trimmed
two-AllSorted = record {
  guest_sorted = ground arith;
  host_sorted = ground arith;
  pending_sorted = ground arith;
}

get_binding-IsDeepest_example :
    Holds guest (at dir_ab (some name_x)) inner
    × IsDeepest guest (at dir_ab (some name_x)) inner (inner ∷ outer ∷ [])
get_binding-IsDeepest_example =
    get_binding-IsDeepest two guest (at dir_ab (some name_x)) (ground arith) (ground arith)
      two-IsOrdered find_inner

substitute_binding-at_example :
    substitute_binding two guest (at dir_ab (some name_x)) ≡ ok (true, at dir_a (some name_x))
substitute_binding-at_example =
    substitute_binding-at two dir_ab dir_a (some name_x) inner find_inner refl refl (ground arith)
      (ground arith) (inl (ground arith)) (ground arith) (omega arith)

insort_binding3-AllSorted_example :
    AllSorted (insort_binding3_with_mode 3 dir_r dir_r rw_access two)
insort_binding3-AllSorted_example =
    insort_binding3-AllSorted 3 dir_r dir_r rw_access two (ground arith) (ground arith)
      two-AllSorted

-- The binding at "/a/b" is read-only.
abbrev locked : Bindings
locked = record two { guest_list = record inner { access_mode = ro_access } ∷ outer ∷ [] }

binding_has_readonly_descendant_iff_example :
    (binding_has_readonly_descendant locked dir_a ≡ true) ↔ HasReadonlyBelow dir_a locked.guest_list
binding_has_readonly_descendant_iff_example =
    binding_has_readonly_descendant_iff locked dir_a refl (ground arith) (ground arith)
