-- ===== src/Binding/Readonly.antt =====
-- What `binding_has_readonly_descendant` of proot/src/path/binding.c answers.
use proot_termux.Base.{
  ◌≡◌, ◌↔◌, ◌⊎◌, inl, inr, ap, ◌∙◌, Bool, Bool-cases, true, false, ◌||◌, List, [], ◌∷◌, Bytes,
  arith,
}
use proot_termux.Path.Compare.{
  Comparison, path1_is_prefix, compare_paths, trim, IsAbove, compare_paths_meaning,
}
use proot_termux.Binding.{
  guest, Binding, BindingAccess, ro_access, Bindings, any_readonly_below,
  binding_has_readonly_descendant,
}
use proot_termux.Binding.Lookup.{IsPath, HasPaths}

-- A read-only binding of the queue whose guest path is strictly below a path.
abbrev pub HasReadonlyBelow : Bytes → List Binding → Type 0
HasReadonlyBelow path [] = ⊥
HasReadonlyBelow path (b ∷ l) =
    ((b.access_mode ≡ ro_access) × IsAbove (trim path) (trim b.guest_path))
    ⊎ HasReadonlyBelow path l

-- One binding, by its mode and the comparison.
abbrev is_readonly_below : BindingAccess → Comparison → Bool
is_readonly_below mode c = elim mode [
  | ro_access ↦ elim c [ path1_is_prefix ↦ true | _ ↦ false ]
  | _ ↦ false
]

is_readonly_below_iff :
    (mode : BindingAccess) (c : Comparison)
    → (is_readonly_below mode c ≡ true) ↔ ((mode ≡ ro_access) × (c ≡ path1_is_prefix))
is_readonly_below_iff ro_access path1_is_prefix = ground arith
is_readonly_below_iff _ _ = ground arith

any_readonly_below-or :
    (path : Bytes) (b : Binding) (l : List Binding)
    → any_readonly_below path (b ∷ l)
      ≡ is_readonly_below b.access_mode (compare_paths path b.guest_path)
        || any_readonly_below path l
unfolding any_readonly_below
any_readonly_below-or path b l = ground arith

any_readonly_below_iff :
    (path : Bytes) (l : List Binding)
    → IsPath path
    → HasPaths guest l
    → (any_readonly_below path l ≡ true) ↔ HasReadonlyBelow path l
unfolding any_readonly_below
any_readonly_below_iff path [] p h = ground arith
any_readonly_below_iff path (b ∷ l) p h =
    let rest = any_readonly_below_iff path l p h.1 in
    let above = (compare_paths_meaning path b.guest_path p.0 h.0.0 p.1 h.0.1).1 in
    let here = is_readonly_below_iff b.access_mode (compare_paths path b.guest_path) in
    let step : any_readonly_below path (b ∷ l)
        ≡ is_readonly_below b.access_mode (compare_paths path b.guest_path)
          || any_readonly_below path l =
      any_readonly_below-or path b l in
    (
      λ e. elim (Bool-cases (is_readonly_below b.access_mode (compare_paths path b.guest_path))) [
        | inl hit ↦ let (mode, below) = here.0 hit in inl (mode, above.0 below)
        | inr miss ↦ inr (rest.0 (ground arith))
      ],
      λ h. elim h [
        | inl (mode, below) ↦
            step ∙ ap (λ x. x || any_readonly_below path l) (here.1 (mode, above.1 below))
        | inr later ↦ ground (arith, rest.1 later)
      ],
    )

-- Where the path and those of the guest queue are not empty and have no NUL, and the queues are
-- allocated, the answer is yes exactly if a read-only binding lies strictly below the path.
pub binding_has_readonly_descendant_iff :
    (s : Bindings) (path : Bytes)
    → s.initialized ≡ true
    → IsPath path
    → HasPaths guest s.guest_list
    → (binding_has_readonly_descendant s path ≡ true) ↔ HasReadonlyBelow path s.guest_list
unfolding binding_has_readonly_descendant
binding_has_readonly_descendant_iff s path i p h =
    rw i (any_readonly_below_iff path s.guest_list p h)
