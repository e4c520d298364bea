-- ===== src/Extension/Registry/Cache.antt =====
-- The cache answers as a walk over the list.
use proot_termux.Base.{
  ℕ, ◌≡◌, ◌≢◌, refl, sym, ap, ◌∙◌, subst, ◌==◌, if◌then◌else◌, Bool, true, false, ◌&&◌, ◌||◌,
  Option, some, none, List, [], ◌∷◌, arith, Bool-cases, inl, inr, ==_iff, ==_refl,
}
use proot_termux.Extension.Registry.{
  Extension, Extensions, net_policy_callback, hpc_callback, vnp_callback, rlimit_callback,
  fake_id0_callback, cache_extension, cache_all, uncached, rebuild_extension_cache, unlink,
  remove_extension, head_or_new, new_extension, find, get_extension, initialize_extension,
}

abbrev pub is_cached : ℕ → Bool
is_cached callback =
    callback == net_policy_callback
    || callback == hpc_callback
    || callback == vnp_callback
    || callback == rlimit_callback
    || callback == fake_id0_callback

-- Every lookup is that of the list.
abbrev pub IsCoherent : Extensions → Type 0
IsCoherent extensions =
    (callback : ℕ) → get_extension (some extensions) callback ≡ find extensions.list callback

-- No two extensions of the list have one callback.
abbrev pub IsDistinct : List Extension → Type 0
IsDistinct [] = Unit
IsDistinct (e ∷ list) = (find list e.callback ≡ none) × IsDistinct list

get_extension-cache_extension :
    (extensions : Extensions) (e : Extension) (callback : ℕ)
    → get_extension (some (cache_extension extensions e)) callback ≡ (
        if is_cached callback && e.callback == callback
        then some e
        else get_extension (some extensions) callback)
unfolding get_extension cache_extension
get_extension-cache_extension extensions e callback = ground arith

list-cache_extension :
    (extensions : Extensions) (e : Extension)
    → (cache_extension extensions e).list ≡ extensions.list
unfolding cache_extension
list-cache_extension extensions e = ground arith

list-cache_all :
    (list : List Extension) (extensions : Extensions)
    → (cache_all list extensions).list ≡ extensions.list
list-cache_all [] extensions = refl
list-cache_all (e ∷ list) extensions =
    list-cache_all list (cache_extension extensions e) ∙ list-cache_extension extensions e

abbrev or_else : Option Extension → Option Extension → Option Extension
or_else none other = other
or_else (some e) other = some e

get_extension-cache_all :
    (list : List Extension) (extensions : Extensions) (callback : ℕ)
    → IsDistinct list
    → is_cached callback ≡ true
    → get_extension (some (cache_all list extensions)) callback
      ≡ or_else (find list callback) (get_extension (some extensions) callback)
get_extension-cache_all [] extensions callback d c = refl
get_extension-cache_all (e ∷ list) extensions callback d c =
    let rest = get_extension-cache_all list (cache_extension extensions e) callback d.1 c in
    let here = get_extension-cache_extension extensions e callback in
    elim (Bool-cases (e.callback == callback)) [
      | inl hit ↦
          let absent : find list callback ≡ none =
            ap (find list) (sym ((==_iff e.callback callback).0 hit)) ∙ d.0 in
          rest
          ∙ ap (λ o. or_else o (get_extension (some (cache_extension extensions e)) callback))
              absent
          ∙ here
          ∙ ground arith
      | inr miss ↦
          let passed : get_extension (some (cache_extension extensions e)) callback
              ≡ get_extension (some extensions) callback =
            here ∙ rw (c, miss) in
          rest ∙ ap (or_else (find list callback)) passed ∙ rw miss
    ]

or_else-none : (o : Option Extension) → or_else o none ≡ o
or_else-none none = refl
or_else-none (some e) = refl

get_extension-other :
    (extensions : Extensions) (callback : ℕ)
    → is_cached callback ≡ false
    → get_extension (some extensions) callback ≡ find extensions.list callback
unfolding get_extension
get_extension-other extensions callback c = ground arith

get_extension-uncached :
    (list : List Extension) (callback : ℕ)
    → is_cached callback ≡ true
    → get_extension (some (uncached list)) callback ≡ none
unfolding get_extension
get_extension-uncached list callback c = ground arith

rebuild_extension_cache-IsCoherent :
    (extensions : Extensions)
    → IsDistinct extensions.list
    → IsCoherent (rebuild_extension_cache extensions)
unfolding rebuild_extension_cache
rebuild_extension_cache-IsCoherent extensions d callback =
    let list = extensions.list in
    let same = list-cache_all list (uncached list) in
    elim (Bool-cases (is_cached callback)) [
      | inl c ↦
          get_extension-cache_all list (uncached list) callback d c
          ∙ ap (or_else (find list callback)) (get_extension-uncached list callback c)
          ∙ or_else-none (find list callback)
          ∙ ap (λ l. find l callback) (sym same)
      | inr c ↦ get_extension-other (cache_all list (uncached list)) callback c
    ]

find-unlink :
    (list : List Extension) (address callback : ℕ)
    → find list callback ≡ none
    → find (unlink list address) callback ≡ none
find-unlink [] address callback h = refl
find-unlink (e ∷ list) address callback h = ground (arith, find-unlink list address callback)

unlink-IsDistinct :
    (list : List Extension) (address : ℕ) → IsDistinct list → IsDistinct (unlink list address)
unlink-IsDistinct [] address d = tt
unlink-IsDistinct (e ∷ list) address d =
    let rest = unlink-IsDistinct list address d.1 in
    elim (Bool-cases (e.address == address)) [
      | inl gone ↦ rw gone d.1
      | inr kept ↦ rw kept (find-unlink list address e.callback d.0, rest)
    ]

-- Where no two extensions have one callback, an extension that is removed leaves a cache that
-- answers, for every callback, as a walk over the list that is left, and again no two with one
-- callback.
pub remove_extension-IsCoherent :
    (extensions : Extensions) (address : ℕ)
    → IsDistinct extensions.list
    → IsCoherent (remove_extension extensions address)
      × ((remove_extension extensions address).list ≡ unlink extensions.list address)
      × IsDistinct (unlink extensions.list address)
unfolding remove_extension
remove_extension-IsCoherent extensions address d =
    let left = unlink-IsDistinct extensions.list address d in
    (
      rebuild_extension_cache-IsCoherent _ left,
      unfold rebuild_extension_cache in list-cache_all (unlink extensions.list address) _,
      left,
    )

get_extension-list :
    (extensions : Extensions) (list : List Extension) (callback : ℕ)
    → is_cached callback ≡ true
    → get_extension (some (record extensions { list = list })) callback
      ≡ get_extension (some extensions) callback
unfolding get_extension
get_extension-list extensions list callback c = ground arith

new_extension-IsCoherent :
    (tracee_extensions : Option Extensions) (e : Extension)
    → IsCoherent (head_or_new tracee_extensions)
    → IsCoherent (new_extension tracee_extensions e)
      × ((new_extension tracee_extensions e).list ≡ e ∷ (head_or_new tracee_extensions).list)
unfolding new_extension
new_extension-IsCoherent tracee_extensions e h =
    let old = head_or_new tracee_extensions in
    let list = e ∷ old.list in
    let grown : Extensions = record old { list = list } in
    let same = list-cache_extension grown e in
    let coherent : IsCoherent (cache_extension grown e) = λ callback.
      elim (Bool-cases (is_cached callback)) [
        | inl c ↦
            get_extension-cache_extension grown e callback
            ∙ subst
                (λ o.
                  (if is_cached callback && e.callback == callback then some e else o)
                  ≡ find list callback)
                (sym (get_extension-list old list callback c ∙ h callback)) (rw c)
            ∙ ap (λ l. find l callback) (sym same)
        | inr c ↦ get_extension-other (cache_extension grown e) callback c
      ] in
    (coherent, same)

-- From a cache that answers as a walk over the list, with no two extensions with one callback and
-- none with the new one, which is not NULL, initializing an extension leaves such a cache again. A
-- lookup of the new callback then gives the new extension, which is at the head of the list; or
-- NULL, with the list as before, if the callback has answered that the initialization failed.
pub initialize_extension-get_extension :
    (extensions : Extensions) (e : Extension) (failed : Bool)
    → IsCoherent extensions
    → IsDistinct extensions.list
    → find extensions.list e.callback ≡ none
    → e.callback ≢ 0
    → (left : Extensions) × (initialize_extension (some extensions) e failed ≡ some left)
      × IsCoherent left
      × (left.list ≡ (if failed then extensions.list else e ∷ extensions.list))
      × (get_extension (some left) e.callback ≡ (if failed then none else some e))
unfolding initialize_extension
initialize_extension-get_extension extensions e false h d absent callback =
    let n = new_extension (some extensions) e in
    let (coherent, same) = new_extension-IsCoherent (some extensions) e h in
    let named : (e.callback == 0) ≡ false = ground arith in
    (
      n,
      rw named,
      coherent,
      same,
      coherent e.callback ∙ ap (λ l. find l e.callback) same ∙ rw (==_refl e.callback),
    )
initialize_extension-get_extension extensions e true h d absent callback =
    let n = new_extension (some extensions) e in
    let (coherent, same) = new_extension-IsCoherent (some extensions) e h in
    let named : (e.callback == 0) ≡ false = ground arith in
    let distinct : IsDistinct n.list = subst IsDistinct (sym same) (absent, d) in
    let (coherent', same', _) = remove_extension-IsCoherent n e.address distinct in
    let back : (remove_extension n e.address).list ≡ extensions.list =
      same' ∙ ap (λ l. unlink l e.address) same ∙ rw (==_refl e.address) in
    (
      remove_extension n e.address,
      rw named,
      coherent',
      back,
      coherent' e.callback ∙ ap (λ l. find l e.callback) back ∙ absent,
    )
