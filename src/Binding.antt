-- ===== src/Binding.antt =====
-- The bindings of a file-system name-space, of proot/src/path/binding.c and .h.
-- A `Path` caches the length of its string, which is computed here. The three circular queues
-- hold pointers to shared bindings: a binding carries its address, and a queue is the list of its
-- bindings from CIRCLEQ_FIRST on. Talloc references, destructors and messages are left out.
pub mod Lookup
pub mod Search
pub mod Insert
pub mod Order
pub mod Readonly
use proot_termux.Base.{
  ℕ, zero, suc, ◌+◌, ◌≡◌, Bool, true, false, not, ◌&&◌, ◌||◌, List, [], ◌∷◌, ◌++◌, ◌==◌,
  if◌then◌else◌, length, char_at, Bytes, Option, some, none, Result, ok, err, enoent, eacces, erofs,
  map,
}
use proot_termux.Path.Compare.{
  Comparison, paths_are_equal, path1_is_prefix, path2_is_prefix, paths_are_not_comparable,
  compare_paths2, compare_paths,
}
use proot_termux.Path.Join.{substitute_path_prefix}

-- `enum Side`
pub data Side : Type 0 where
  guest host pending : Side

pub data BindingAccess : Type 0 where
  rw_access ro_access wo_access mask_access : BindingAccess

pub data BindingType : Type 0 where
  regular mbind shadow : BindingType

pub record Binding : Type 0 where
  pub address : ℕ
  pub host_path : Bytes
  pub guest_path : Bytes
  pub need_substitution : Bool
  pub must_exist : Bool
  pub access_mode : BindingAccess
  pub type : BindingType

-- `tracee->fs->bindings`; `initialized` says that `guest` and `host` are allocated. A `pending`
-- that is NULL is an empty list here: no function tells the two apart.
pub record Bindings : Type 0 where
  pub initialized : Bool
  pub pending_list : List Binding
  pub guest_list : List Binding
  pub host_list : List Binding

-- HEAD(tracee, side)
abbrev pub head_of : Side → Bindings → List Binding
head_of guest s = s.guest_list
head_of host s = s.host_list
head_of pending s = s.pending_list

abbrev pub with_head : Side → List Binding → Bindings → Bindings
with_head guest l s = record s { guest_list = l }
with_head host l s = record s { host_list = l }
with_head pending l s = record s { pending_list = l }

-- The path of a binding that a side is sorted and searched by.
abbrev pub side_path : Side → Binding → Bytes
side_path host b = b.host_path
side_path _ b = b.guest_path

-- CIRCLEQ_LAST
abbrev pub last_binding : List Binding → Option Binding
last_binding [] = none
last_binding (b ∷ []) = some b
last_binding (b ∷ c ∷ l) = last_binding (c ∷ l)

abbrev is_equal : Comparison → Bool
is_equal paths_are_equal = true
is_equal _ = false

-- PATHS_ARE_EQUAL or PATH1_IS_PREFIX
abbrev pub is_inside : Comparison → Bool
is_inside paths_are_equal = true
is_inside path1_is_prefix = true
is_inside _ = false

-- The `pending` list is read before the others are allocated.
unfoldable pub get_root : Bindings → Option Bytes
get_root s =
    if s.initialized
    then elim (last_binding s.guest_list) [ none ↦ none | some b ↦ some b.host_path ]
    else elim (last_binding s.pending_list) [
      | none ↦ none
      | some b ↦
          if is_equal (compare_paths b.guest_path (b'/' ∷ [])) then some b.host_path else none
    ]

-- Where there is no root, the C function reads through NULL: that is a precondition.
unfoldable pub belongs_to_guestfs : Bindings → Bytes → Bool
belongs_to_guestfs s host_path = elim (get_root s) [
  | none ↦ false
  | some root ↦ is_inside (compare_paths root host_path)
]

-- The walk to the first binding whose path holds the given one.
abbrev pub first_match : Side → Bytes → List Binding → Option Binding
first_match side path [] = none
first_match side path (b ∷ l) =
    if is_inside (compare_paths2 (side_path side b) (length (side_path side b)) path (length path))
    then some b
    else first_match side path l

-- `guard_skip_all`, on the host side alone: the root is not "/" and holds the path.
abbrev pub skip_all : Side → Bindings → Bytes → Bool
skip_all host s path = elim (get_root s) [
  | none ↦ false
  | some root ↦ not (is_equal (compare_paths root (b'/' ∷ []))) && belongs_to_guestfs s path
]
skip_all _ s path = false

unfoldable pub get_binding : Bindings → Side → Bytes → Option Binding
unfolding get_root belongs_to_guestfs
get_binding s side path = elim (first_match side path (head_of side s)) [
  | none ↦ none
  | some b ↦ if skip_all side s path then none else some b
]

unfoldable pub get_path_binding : Bindings → Side → Bytes → Option Bytes
unfolding get_binding
get_path_binding s side path = elim (get_binding s side path) [
  | none ↦ none
  | some b ↦ some (side_path side b)
]

-- The other path of a binding, `reverse_ref`.
abbrev pub reverse_path : Side → Binding → Bytes
reverse_path host b = b.guest_path
reverse_path _ b = b.host_path

-- The result is the status (true for 1) and the new string in `path`. A substitution that does
-- not fit leaves the string, and its error is not passed on.
unfoldable pub substitute_binding : Bindings → Side → Bytes → Result (Bool × Bytes)
substitute_binding s side path = elim (get_binding s side path) [
  | none ↦ err enoent
  | some b ↦
      if not b.need_substitution
      then ok (false, path)
      else (elim (substitute_path_prefix path (length (side_path side b)) (reverse_path side b)
          (length (reverse_path side b))) [ ok moved ↦ ok (true, moved) | err e ↦ ok (true, path) ])
]

-- Returns 1 if a read-only binding lies strictly below the path.
unfoldable pub any_readonly_below : Bytes → List Binding → Bool
any_readonly_below path [] = false
any_readonly_below path (b ∷ l) =
    let below : Bool = elim (compare_paths2 path (length path) b.guest_path (length b.guest_path)) [
      | path1_is_prefix ↦ true
      | _ ↦ false
    ] in
    (elim b.access_mode [ ro_access ↦ below | _ ↦ false ]) || any_readonly_below path l

unfoldable pub binding_has_readonly_descendant : Bindings → Bytes → Bool
unfolding any_readonly_below
binding_has_readonly_descendant s path =
    if not s.initialized then false else any_readonly_below path s.guest_list

unfoldable pub check_binding_mode : Option Binding → Bool → Result (Unit {0})
check_binding_mode none is_write = ok tt
check_binding_mode (some b) is_write = elim b.access_mode [
  | mask_access ↦ err eacces
  | ro_access ↦ if is_write then err erofs else ok tt
  | wo_access ↦ if not is_write then err eacces else ok tt
  | rw_access ↦ ok tt
]

unfoldable pub check_binding_access : Bindings → Bytes → Bool → Result (Unit {0})
unfolding check_binding_mode
check_binding_access s guest_path is_write =
    if not (char_at guest_path 0 == b'/')
    then ok tt
    else check_binding_mode (get_binding s guest guest_path) is_write

-- CIRCLEQ_REMOVE of the binding at an address.
abbrev pub remove_from : ℕ → List Binding → List Binding
remove_from a [] = []
remove_from a (b ∷ l) = if b.address == a then l else b ∷ remove_from a l

unfoldable pub remove_binding_from_all_lists : Binding → Bindings → Bindings
remove_binding_from_all_lists b s = record s {
  pending_list = remove_from b.address s.pending_list;
  guest_list = remove_from b.address s.guest_list;
  host_list = remove_from b.address s.host_list;
}

-- What the search of `insort_binding` leaves: `previous == NULL`, the list cut behind `previous`,
-- or the list cut round the binding that is replaced.
pub data Place : Type 0 where
  nowhere : Place
  behind : List Binding → List Binding → Place
  instead : List Binding → Binding → List Binding → Place

abbrev pub passed : Binding → Place → Place
passed it nowhere = nowhere
passed it (behind l r) = behind (it ∷ l) r
passed it (instead l old r) = instead (it ∷ l) old r

-- `previous = iterator`, unless a later round finds another place.
abbrev pub passed_as_previous : Binding → List Binding → Place → Place
passed_as_previous it rest nowhere = behind (it ∷ []) rest
passed_as_previous it rest later = passed it later

abbrev pub visit : Side → Comparison → Binding → List Binding → Place → Place
visit host paths_are_equal it rest later = passed_as_previous it rest later
visit guest paths_are_equal it rest later = instead [] it rest
visit pending paths_are_equal it rest later = instead [] it rest
visit side path1_is_prefix it rest later = passed_as_previous it rest later
visit side _ it rest later = passed it later

-- The search, from CIRCLEQ_FIRST on. `next` starts as CIRCLEQ_FIRST and so never changes.
abbrev pub find_place : Side → Binding → List Binding → Place
find_place side b [] = nowhere
find_place side b (it ∷ rest) =
    visit side
      (compare_paths2 (side_path side b) (length (side_path side b)) (side_path side it)
        (length (side_path side it)))
      it rest (find_place side b rest)

-- The queue of the side with the binding in it, where the replaced one is still linked.
abbrev pub inserted : Place → Binding → List Binding → List Binding
inserted nowhere b l = b ∷ l
inserted (behind l r) b _ = l ++ (b ∷ r)
inserted (instead l old r) b _ = l ++ (old ∷ b ∷ r)

abbrev pub replaced : Place → Option Binding
replaced (instead l old r) = some old
replaced _ = none

unfoldable pub insort_binding : Side → Binding → Bindings → Bindings
insort_binding side b s =
    let place = find_place side b (head_of side s) in
    let s' = with_head side (inserted place b (head_of side s)) s in
    elim (replaced place) [ none ↦ s' | some old ↦ remove_binding_from_all_lists old s' ]

unfoldable pub insort_binding2 : Binding → Bindings → Bindings
insort_binding2 b s =
    let b' = record b {
      need_substitution = not (is_equal (compare_paths b.host_path b.guest_path));
    } in
    insort_binding host b' (insort_binding guest b' s)

-- The address is that of the new allocation, which does not fail here.
unfoldable pub insort_binding3_with_mode : ℕ → Bytes → Bytes → BindingAccess → Bindings → Bindings
insort_binding3_with_mode address host_path guest_path access_mode s =
    insort_binding2
      (record {
        address = address;
        host_path = host_path;
        guest_path = guest_path;
        need_substitution = false;
        must_exist = false;
        access_mode = access_mode;
        type = regular;
      })
      s

unfoldable pub insort_binding3 : ℕ → Bytes → Bytes → Bindings → Bindings
insort_binding3 address host_path guest_path s =
    insort_binding3_with_mode address host_path guest_path rw_access s

-- A write through the pointer to a binding shows in each queue that holds it.
abbrev pub update_at : ℕ → (Binding → Binding) → List Binding → List Binding
update_at a f [] = []
update_at a f (b ∷ l) = (if b.address == a then f b else b) ∷ update_at a f l

unfoldable pub copy_binding : ℕ → Binding → Bindings → Bindings
copy_binding address source s =
    let s' = insort_binding3 address source.host_path source.guest_path s in
    let f = λ (b : Binding). record b {
      must_exist = source.must_exist;
      access_mode = source.access_mode;
      type = source.type;
    } in
    record s' {
      pending_list = update_at address f s'.pending_list;
      guest_list = update_at address f s'.guest_list;
      host_list = update_at address f s'.host_list;
    }
