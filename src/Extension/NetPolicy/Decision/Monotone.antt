-- ===== src/Extension/NetPolicy/Decision/Monotone.antt =====
-- Rules that allow more never refuse a call.
use proot_termux.Base.{
  ℕ, ◌≡◌, refl, Bool, true, ◌||◌, arith, Option, some, none, List, [], ◌∷◌, ◌++◌, Result, ok, err,
}
use proot_termux.Extension.NetPolicy.Rules.{SockAddr, NetworkClass, Rule, Inet}
use proot_termux.Extension.NetPolicy.Match.{any_rule_matches, bind_matches}
use proot_termux.Extension.NetPolicy.Decision.{
  NetPolicyConfig, Caller, Endpoint, unix, internet, other_endpoint, NetCall, socketcall_address,
  endpoint_of, check_port, check_unix, check_bind, check_destination, check_peer, Branch, unchecked,
  listening, binding, reaching, branch_of, check_branch, check_call, check_operation, allowed,
  address_args,
}

-- The rules of `looser` refuse no destination and no port that those of `strict` do not refuse, and
-- allow each one that they allow. All else is the same.
pub record IsLooser (net : Inet) (strict looser : NetPolicyConfig) : Type 0 where
  pub same_mode : looser.mode ≡ strict.mode
  pub same_asks : looser.asks ≡ strict.asks
  pub same_proxy : looser.has_proxy ≡ strict.has_proxy
  pub same_binds : looser.binds ≡ strict.binds
  pub denies_less :
      (addr : SockAddr) (port : ℕ) (net_class : NetworkClass)
      → any_rule_matches net looser.deny addr port net_class ≡ true
      → any_rule_matches net strict.deny addr port net_class ≡ true
  pub allows_more :
      (addr : SockAddr) (port : ℕ) (net_class : NetworkClass)
      → any_rule_matches net strict.allow addr port net_class ≡ true
      → any_rule_matches net looser.allow addr port net_class ≡ true
  pub denies_less_bind :
      (port : ℕ)
      → bind_matches looser.deny_bind port ≡ true
      → bind_matches strict.deny_bind port ≡ true
  pub allows_more_bind :
      (port : ℕ)
      → bind_matches strict.allow_bind port ≡ true
      → bind_matches looser.allow_bind port ≡ true

module _ (net : Inet) (strict looser : NetPolicyConfig) (h : IsLooser net strict looser) where
  check_port-looser :
      (port : ℕ) → check_port strict port ≡ allowed → check_port looser port ≡ allowed
  unfolding check_port
  check_port-looser port e =
      ground (arith, h.same_mode, h.denies_less_bind port, h.allows_more_bind port)

  check_unix-looser : (unnamed : Bool) → check_unix strict unnamed ≡ check_unix looser unnamed
  check_unix-looser unnamed = rw (h.same_mode, h.same_asks, h.same_proxy) refl

  check_destination-looser :
      (addr : SockAddr) (port : ℕ) (net_class : NetworkClass)
      → check_destination net strict addr port net_class ≡ allowed
      → check_destination net looser addr port net_class ≡ allowed
  unfolding check_destination
  check_destination-looser addr port net_class e =
      ground
        (arith, h.same_mode, h.denies_less addr port net_class, h.allows_more addr port net_class)

  check_bind-looser :
      (caller : Caller) (syscall : NetCall) (endpoint : Endpoint)
      → (check_bind caller strict syscall endpoint).0 ≡ allowed
      → (check_bind caller looser syscall endpoint).0 ≡ allowed
  unfolding check_bind
  check_bind-looser caller syscall (unix unnamed) e = rw (← check_unix-looser unnamed) e
  check_bind-looser caller syscall other_endpoint e = refl
  check_bind-looser caller syscall (internet addr port) e = ground (arith, check_port-looser port)

  check_peer-looser :
      (caller : Caller) (syscall effective : NetCall) (endpoint : Endpoint)
      → check_peer net caller strict syscall effective endpoint ≡ allowed
      → check_peer net caller looser syscall effective endpoint ≡ allowed
  unfolding check_peer
  check_peer-looser caller syscall effective (unix unnamed) e = rw (← check_unix-looser _) e
  check_peer-looser caller syscall effective other_endpoint e = refl
  check_peer-looser caller syscall effective (internet addr port) e =
      ground (arith, check_destination-looser addr port (caller.classify addr port))

  check_branch-looser :
      (caller : Caller) (syscall effective : NetCall) (endpoint : Option Endpoint) (branch : Branch)
      → (check_branch net caller strict syscall effective endpoint branch).0 ≡ allowed
      → (check_branch net caller looser syscall effective endpoint branch).0 ≡ allowed
  unfolding check_branch
  check_branch-looser caller syscall effective endpoint unchecked e = refl
  check_branch-looser caller syscall effective endpoint listening e =
      rw h.same_binds (check_port-looser _ e)
  check_branch-looser caller syscall effective none binding e = refl
  check_branch-looser caller syscall effective (some endpoint) binding e =
      check_bind-looser caller syscall endpoint e
  check_branch-looser caller syscall effective none reaching e = refl
  check_branch-looser caller syscall effective (some endpoint) reaching e =
      check_peer-looser caller syscall effective endpoint e

  check_call-looser :
      (caller : Caller) (syscall : NetCall) (decoded : Result (Option (NetCall × ℕ × ℕ)))
      → (check_call net caller strict syscall decoded).0 ≡ allowed
      → (check_call net caller looser syscall decoded).0 ≡ allowed
  unfolding check_call
  check_call-looser caller syscall (err code) e = e
  check_call-looser caller syscall (ok none) e = refl
  check_call-looser caller syscall (ok (some (effective, ptr, address_length))) e =
      let later =
        check_branch-looser caller syscall effective (endpoint_of caller ptr address_length)
          (branch_of syscall effective) in
      ground (arith, h.same_mode, h.same_asks, later)

-- A call that is allowed stays allowed where the configuration is replaced by one whose rules refuse
-- no destination and no port that the old ones do not, and allow each one that the old ones allow,
-- all else being the same: in every mode, and for each system call and address.
pub check_operation-looser :
    (net : Inet) (strict looser : NetPolicyConfig) (caller : Caller) (syscall : NetCall)
    → IsLooser net strict looser
    → (check_operation net caller strict syscall).0 ≡ allowed
    → (check_operation net caller looser syscall).0 ≡ allowed
unfolding check_operation
check_operation-looser net strict looser caller syscall h e =
    let (ptr, address_length) = address_args caller syscall in
    ground (
      arith,
      check_call-looser net strict looser h caller syscall (socketcall_address caller),
      check_call-looser net strict looser h caller syscall
          (ok (some (syscall, ptr, address_length))),
    )

any_rule_matches-append :
    (net : Inet) (rules more : List Rule) (addr : SockAddr) (port : ℕ) (net_class : NetworkClass)
    → any_rule_matches net (rules ++ more) addr port net_class ≡ (
        any_rule_matches net rules addr port net_class
        || any_rule_matches net more addr port net_class)
unfolding any_rule_matches
any_rule_matches-append net [] more addr port net_class = refl
any_rule_matches-append net (rule ∷ rules) more addr port net_class =
    ground (arith, any_rule_matches-append net rules more addr port net_class)

bind_matches-append :
    (rules more : List Rule) (port : ℕ)
    → bind_matches (rules ++ more) port ≡ (bind_matches rules port || bind_matches more port)
unfolding bind_matches
bind_matches-append [] more port = refl
bind_matches-append (rule ∷ rules) more port = ground (arith, bind_matches-append rules more port)

-- A configuration with more rules to allow.
pub append_allow-IsLooser :
    (net : Inet) (config : NetPolicyConfig) (more more_bind : List Rule)
    → IsLooser net config (record config {
      allow = config.allow ++ more;
      allow_bind = config.allow_bind ++ more_bind;
    })
append_allow-IsLooser net config more more_bind = record {
  same_mode = refl;
  same_asks = refl;
  same_proxy = refl;
  same_binds = refl;
  denies_less = λ addr port net_class e. e;
  allows_more = λ addr port net_class e.
      ground (arith, any_rule_matches-append net config.allow more addr port net_class);
  denies_less_bind = λ port e. e;
  allows_more_bind = λ port e. ground (arith, bind_matches-append config.allow_bind more_bind port);
}
