-- ===== src/Extension/NetPolicy/Decision/BindListen.antt =====
-- A descriptor may listen exactly where it was allowed to bind.
use proot_termux.Base.{
  ℕ, ◌%◌, ◌^◌, ==_refl, ◌≡◌, refl, sym, ap, ◌∙◌, true, false, not, ◌&&◌, ◌==◌, some, if◌then◌else◌,
}
use proot_termux.Extension.NetPolicy.Rules.{SockAddr, Inet}
use proot_termux.Extension.NetPolicy.Binds.{
  remember_bind, remembered_bind, has_room, remembered_bind-remember_bind,
}
use proot_termux.Extension.NetPolicy.Decision.{
  NetPolicyConfig, Caller, net_bind, net_listen, internet, endpoint_of, check_port, check_bind,
  check_branch, check_operation, fd_of, is_off, allowed,
}

-- What bind(2) of an Internet address does under a policy.
bind_decision :
    (net : Inet) (caller : Caller) (config : NetPolicyConfig) (addr : SockAddr) (port : ℕ)
    → is_off config.mode && not config.asks ≡ false
    → endpoint_of caller (caller.sysarg 2) (caller.sysarg 3) ≡ some (internet addr port)
    → check_operation net caller config net_bind ≡ (
      if port == 0 then allowed else check_port config port,
      record config { binds = remember_bind config.binds caller.pid (fd_of caller) port },
    )
unfolding check_operation check_branch check_bind
bind_decision net caller config addr port on e = rw (on, check_branch, e) refl

listen_decision :
    (net : Inet) (caller : Caller) (config : NetPolicyConfig)
    → is_off config.mode && not config.asks ≡ false
    → check_operation net caller config net_listen
      ≡ (check_port config (remembered_bind config.binds caller.pid (fd_of caller)), config)
unfolding check_operation
listen_decision net caller config on = rw on refl

-- Where the policy is on, or a controller is asked, and bind(2) was made with an Internet address
-- whose port is not 0, on a descriptor that has an entry in the table or finds room there, the
-- listen(2) that the same tracee makes next on the descriptor is decided as the bind(2) was, and
-- changes nothing. The two calls have the descriptor in their first argument.
pub check_operation-bind_listen :
    (net : Inet) (caller later : Caller) (config : NetPolicyConfig) (addr : SockAddr) (port : ℕ)
    → is_off config.mode && not config.asks ≡ false
    → endpoint_of caller (caller.sysarg 2) (caller.sysarg 3) ≡ some (internet addr port)
    → (port == 0) ≡ false
    → has_room config.binds caller.pid (fd_of caller) ≡ true
    → later.pid ≡ caller.pid
    → later.sysarg 1 ≡ caller.sysarg 1
    → check_operation net later (check_operation net caller config net_bind).1 net_listen
      ≡ check_operation net caller config net_bind
unfolding check_port
check_operation-bind_listen net caller later config addr port on e nonzero room same_pid same_arg =
    let bound : NetPolicyConfig = record config {
      binds = remember_bind config.binds caller.pid (fd_of caller) port;
    } in
    let bind_step : check_operation net caller config net_bind ≡ (check_port config port, bound) =
      bind_decision net caller config addr port on e ∙ rw nonzero refl in
    let same_fd : fd_of later ≡ fd_of caller = ap (λ n. n % 2 ^ 32) same_arg in
    let found : remembered_bind bound.binds later.pid (fd_of later) ≡ port =
      rw (same_pid, same_fd)
        (remembered_bind-remember_bind config.binds caller.pid (fd_of caller) port caller.pid
            (fd_of caller) room
          ∙ rw (==_refl caller.pid, ==_refl (fd_of caller)) refl) in
    ap (λ r. check_operation net later r.1 net_listen) bind_step
    ∙ listen_decision net later bound on
    ∙ ap (λ p. (check_port config p, bound)) found
    ∙ sym bind_step
