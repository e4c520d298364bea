-- ===== src/Extension/Registry.antt =====
-- The list of a tracee's extensions and its cache, of proot/src/extension/extension.c. Allocation does
-- not fail here.
pub mod Cache
use proot_termux.Base.{ℕ, ◌==◌, if◌then◌else◌, Bool, Option, some, none, List, [], ◌∷◌}

-- The callbacks that are cached, as function pointers. 0 is NULL.
abbrev pub net_policy_callback : ℕ
net_policy_callback = 1

abbrev pub hpc_callback : ℕ
hpc_callback = 2

abbrev pub vnp_callback : ℕ
vnp_callback = 3

abbrev pub rlimit_callback : ℕ
rlimit_callback = 4

abbrev pub fake_id0_callback : ℕ
fake_id0_callback = 5

-- An `Extension`: its address, and its callback.
pub record Extension : Type 0 where
  pub address : ℕ
  pub callback : ℕ

-- `Extensions`: the list, its head first, and the five pointers.
pub record Extensions : Type 0 where
  pub list : List Extension
  pub net_policy : Option Extension
  pub proc_isolation : Option Extension
  pub virtual_net : Option Extension
  pub resource_limit : Option Extension
  pub fake_id0 : Option Extension

unfoldable pub cache_extension : Extensions → Extension → Extensions
cache_extension extensions e =
    if e.callback == net_policy_callback
    then record extensions { net_policy = some e }
    else if e.callback == hpc_callback
    then record extensions { proc_isolation = some e }
    else if e.callback == vnp_callback
    then record extensions { virtual_net = some e }
    else if e.callback == rlimit_callback
    then record extensions { resource_limit = some e }
    else if e.callback == fake_id0_callback
    then record extensions { fake_id0 = some e }
    else extensions

abbrev pub cache_all : List Extension → Extensions → Extensions
cache_all [] extensions = extensions
cache_all (e ∷ list) extensions = cache_all list (cache_extension extensions e)

-- The pointers are NULL.
abbrev pub uncached : List Extension → Extensions
uncached list = record {
  list = list;
  net_policy = none;
  proc_isolation = none;
  virtual_net = none;
  resource_limit = none;
  fake_id0 = none;
}

unfoldable pub rebuild_extension_cache : Extensions → Extensions
rebuild_extension_cache extensions = cache_all extensions.list (uncached extensions.list)

-- A pointer that is the one that goes away is cleared.
abbrev pub clear : Option Extension → ℕ → Option Extension
clear none address = none
clear (some e) address = if e.address == address then none else some e

-- LIST_REMOVE
abbrev pub unlink : List Extension → ℕ → List Extension
unlink [] address = []
unlink (e ∷ list) address =
    let rest = unlink list address in if e.address == address then list else e ∷ rest

-- Up to the REMOVED event, which the callback gets with this state.
unfoldable pub remove_extension : Extensions → ℕ → Extensions
remove_extension extensions address = rebuild_extension_cache (record {
  list = unlink extensions.list address;
  net_policy = clear extensions.net_policy address;
  proc_isolation = clear extensions.proc_isolation address;
  virtual_net = clear extensions.virtual_net address;
  resource_limit = clear extensions.resource_limit address;
  fake_id0 = clear extensions.fake_id0 address;
})

-- NULL is none.
abbrev pub head_or_new : Option Extensions → Extensions
head_or_new none = uncached []
head_or_new (some extensions) = extensions

unfoldable pub new_extension : Option Extensions → Extension → Extensions
new_extension tracee_extensions e =
    let extensions = head_or_new tracee_extensions in
    cache_extension (record extensions { list = e ∷ extensions.list }) e

-- LIST_FOREACH up to the first one with the callback.
abbrev pub find : List Extension → ℕ → Option Extension
find [] callback = none
find (e ∷ list) callback =
    let rest = find list callback in if e.callback == callback then some e else rest

unfoldable pub get_extension : Option Extensions → ℕ → Option Extension
get_extension none callback = none
get_extension (some extensions) callback =
    if callback == net_policy_callback
    then extensions.net_policy
    else if callback == hpc_callback
    then extensions.proc_isolation
    else if callback == vnp_callback
    then extensions.virtual_net
    else if callback == rlimit_callback
    then extensions.resource_limit
    else if callback == fake_id0_callback
    then extensions.fake_id0
    else find extensions.list callback

-- `status` is what the callback answers to INITIALIZATION; the list is none where there is none.
-- An answer below 0 frees the extension again.
unfoldable pub initialize_extension : Option Extensions → Extension → Bool → Option Extensions
initialize_extension tracee_extensions e failed =
    if e.callback == 0
    then tracee_extensions
    else (let extensions = new_extension tracee_extensions e in
        some (if failed then remove_extension extensions e.address else extensions))
