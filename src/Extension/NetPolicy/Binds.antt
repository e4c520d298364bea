-- ===== src/Extension/NetPolicy/Binds.antt =====
-- The ports that the descriptors of the tracees were bound to, of
-- proot/src/extension/net_policy/net_policy.c.
use proot_termux.Base.{
  ℕ, ◌≡◌, Bool, true, false, ◌&&◌, ◌||◌, ◌==◌, if◌then◌else◌, ltb, List, [], ◌∷◌, ◌++◌, length,
  arith, Bool-cases, inl, inr,
}
use proot_termux.Extension.NetPolicy.Rules.{net_policy_max_binds}

-- `NetPolicyBind`
pub record Bind : Type 0 where
  pub pid : ℕ
  pub fd : ℕ
  pub port : ℕ

abbrev pub is_entry : ℕ → ℕ → Bind → Bool
is_entry pid fd entry = entry.pid == pid && entry.fd == fd

-- Whether a descriptor has an entry, as the loop of `remember_bind` finds it.
abbrev pub is_bound : List Bind → ℕ → ℕ → Bool
is_bound [] pid fd = false
is_bound (entry ∷ binds) pid fd = is_entry pid fd entry || is_bound binds pid fd

-- The entry of a descriptor with its new port.
abbrev pub rebind : List Bind → ℕ → ℕ → ℕ → List Bind
rebind [] pid fd port = []
rebind (entry ∷ binds) pid fd port =
    let rest = rebind binds pid fd port in
    if is_entry pid fd entry then record entry { port = port } ∷ binds else entry ∷ rest

unfoldable pub remember_bind : List Bind → ℕ → ℕ → ℕ → List Bind
remember_bind binds pid fd port =
    if is_bound binds pid fd
    then rebind binds pid fd port
    else if ltb (length binds) net_policy_max_binds
    then binds ++ record { pid = pid; fd = fd; port = port } ∷ []
    else binds

unfoldable pub remembered_bind : List Bind → ℕ → ℕ → ℕ
remembered_bind [] pid fd = 0
remembered_bind (entry ∷ binds) pid fd =
    let rest = remembered_bind binds pid fd in if is_entry pid fd entry then entry.port else rest

-- Whether there is an entry for a descriptor, or room for one.
abbrev pub has_room : List Bind → ℕ → ℕ → Bool
has_room binds pid fd = is_bound binds pid fd || ltb (length binds) net_policy_max_binds

remembered_bind-rebind :
    (binds : List Bind) (pid fd port pid' fd' : ℕ)
    → is_bound binds pid fd ≡ true
    → remembered_bind (rebind binds pid fd port) pid' fd'
      ≡ (if pid == pid' && fd == fd' then port else remembered_bind binds pid' fd')
unfolding remembered_bind
remembered_bind-rebind [] pid fd port pid' fd' bound = absurd (ground arith)
remembered_bind-rebind (entry ∷ binds) pid fd port pid' fd' bound =
    ground (arith, remembered_bind-rebind binds pid fd port pid' fd')

remembered_bind-append :
    (binds : List Bind) (pid fd port pid' fd' : ℕ)
    → is_bound binds pid fd ≡ false
    → remembered_bind (binds ++ record { pid = pid; fd = fd; port = port } ∷ []) pid' fd'
      ≡ (if pid == pid' && fd == fd' then port else remembered_bind binds pid' fd')
unfolding remembered_bind
remembered_bind-append [] pid fd port pid' fd' free = ground arith
remembered_bind-append (entry ∷ binds) pid fd port pid' fd' free =
    ground (arith, remembered_bind-append binds pid fd port pid' fd')

-- Where a descriptor has an entry or the table has room for one, the port remembered for it is the
-- one found for it again, and that of every other descriptor stays what it was.
pub remembered_bind-remember_bind :
    (binds : List Bind) (pid fd port pid' fd' : ℕ)
    → has_room binds pid fd ≡ true
    → remembered_bind (remember_bind binds pid fd port) pid' fd'
      ≡ (if pid == pid' && fd == fd' then port else remembered_bind binds pid' fd')
unfolding remember_bind
remembered_bind-remember_bind binds pid fd port pid' fd' room =
    elim (Bool-cases (is_bound binds pid fd)) [
      | inl bound ↦ rw bound (remembered_bind-rebind binds pid fd port pid' fd' bound)
      | inr free ↦
          let fits : ltb (length binds) net_policy_max_binds ≡ true = ground arith in
          rw (free, fits) (remembered_bind-append binds pid fd port pid' fd' free)
    ]
