-- ===== src/Extension/NetPolicy/Decision.antt =====
-- The decision on a system call, `check_operation` of
-- proot/src/extension/net_policy/net_policy.c. What the tracee's memory holds and the class of a
-- destination are arguments.
pub mod BindListen
pub mod Monotone
use proot_termux.Base.{
  ℕ, zero, suc, ◌+◌, ◌*◌, ◌%◌, ◌^◌, Bool, true, false, ◌&&◌, ◌||◌, not, Option, some, none, ◌==◌,
  if◌then◌else◌, List, [], ◌∷◌, Result, ok, err, eacces,
}
use proot_termux.Extension.NetPolicy.Rules.{SockAddr, NetworkClass, Rule, Inet}
use proot_termux.Extension.NetPolicy.Match.{any_rule_matches, bind_matches}
use proot_termux.Extension.NetPolicy.Binds.{Bind, remember_bind, remembered_bind}

-- `NetPolicyMode`
pub data Mode : Type 0 where
  policy_off policy_deny policy_allow : Mode

-- What `check_operation` uses of `NetPolicyConfig`: whether `ask_fd >= 0 && control_ready`, and
-- whether there is a `proxy`.
pub record NetPolicyConfig : Type 0 where
  pub mode : Mode
  pub allow : List Rule
  pub deny : List Rule
  pub allow_bind : List Rule
  pub deny_bind : List Rule
  pub binds : List Bind
  pub asks : Bool
  pub has_proxy : Bool

-- The system calls that reach `check_operation`.
pub data NetCall : Type 0 where
  net_bind net_listen net_connect net_sendto net_recvfrom : NetCall
  net_recvmsg net_ppoll net_read net_socketcall : NetCall

-- What `read_sockaddr_limited` decodes: a name of AF_UNIX, whether it is NET_UNIX_UNNAMED; an
-- address of AF_INET or AF_INET6 with its port; or another family.
pub data Endpoint : Type 0 where
  unix : Bool → Endpoint
  internet : SockAddr → ℕ → Endpoint
  other_endpoint : Endpoint

-- The tracee: its pid, its arguments, the addresses in its memory, the words in its memory or the
-- error of reading one, the size of its words, and `vnp_classify_destination`.
pub record Caller : Type 0 where
  pub pid : ℕ
  pub sysarg : ℕ → ℕ
  pub read_sockaddr : ℕ → ℕ → Option Endpoint
  pub peek_word : ℕ → Result ℕ
  pub word_size : ℕ
  pub classify : SockAddr → ℕ → NetworkClass

abbrev pub peek_two : Caller → ℕ → ℕ → Result (ℕ × ℕ)
peek_two caller first second = elim (caller.peek_word first) [
  | err e ↦ err e
  | ok address ↦ elim (caller.peek_word second) [
    | err e ↦ err e
    | ok address_length ↦ ok (address, address_length)
  ]
]

abbrev pub mapped : NetCall → Result (ℕ × ℕ) → Result (Option (NetCall × ℕ × ℕ))
mapped call (err e) = err e
mapped call (ok (address, address_length)) = ok (some (call, address, address_length))

-- `socketcall_address`: the call that socketcall(2) makes, with its address; none for a call
-- that is not checked. The numbers are SYS_BIND, SYS_CONNECT, SYS_SENDTO and SYS_RECVFROM.
unfoldable pub socketcall_address : Caller → Result (Option (NetCall × ℕ × ℕ))
socketcall_address caller =
    let call = caller.sysarg 1 in
    let args_addr = caller.sysarg 2 in
    let size = caller.word_size in
    let near = peek_two caller (args_addr + size) (args_addr + 2 * size) in
    let far = peek_two caller (args_addr + 4 * size) (args_addr + 5 * size) in
    if call == 2
    then mapped net_bind near
    else if call == 3
    then mapped net_connect near
    else if call == 11
    then mapped net_sendto far
    else if call == 12
    then mapped net_recvfrom far
    else ok none

abbrev pub is_off : Mode → Bool
is_off policy_off = true
is_off _ = false

abbrev pub is_deny : Mode → Bool
is_deny policy_deny = true
is_deny _ = false

abbrev pub allowed : Result (Unit {0})
allowed = ok tt

-- The rules on a port to bind or to listen on.
abbrev pub check_port : NetPolicyConfig → ℕ → Result (Unit {0})
unfolding bind_matches
check_port config port =
    if bind_matches config.deny_bind port
      || (is_deny config.mode && not (bind_matches config.allow_bind port))
    then err eacces
    else allowed

-- A name of AF_UNIX passes if it is unnamed, or nothing separates the tracees.
abbrev pub check_unix : NetPolicyConfig → Bool → Result (Unit {0})
check_unix config unnamed =
    if unnamed || is_off config.mode || not config.has_proxy || config.asks
    then allowed
    else err eacces

-- The first argument, cut to an `int`.
abbrev pub fd_of : Caller → ℕ
fd_of caller = caller.sysarg 1 % 2 ^ 32

abbrev pub is_socketcall : NetCall → Bool
is_socketcall net_socketcall = true
is_socketcall _ = false

abbrev pub check_bind :
    Caller → NetPolicyConfig → NetCall → Endpoint → Result (Unit {0}) × NetPolicyConfig
unfolding remember_bind check_port
check_bind caller config syscall (unix unnamed) = (check_unix config unnamed, config)
check_bind caller config syscall other_endpoint = (allowed, config)
check_bind caller config syscall (internet addr port) =
    let remembered =
      if is_socketcall syscall
      then config
      else record config { binds = remember_bind config.binds caller.pid (fd_of caller) port } in
    (if port == 0 then allowed else check_port config port, remembered)

-- The rules on a destination. `handoff` is the conjunction that the source forms, which
-- holds only if `allowed` does.
abbrev pub check_destination :
    Inet → NetPolicyConfig → SockAddr → ℕ → NetworkClass → Result (Unit {0})
unfolding any_rule_matches
check_destination net config addr port net_class =
    if any_rule_matches net config.deny addr port net_class
    then err eacces
    else if is_deny config.mode && not (any_rule_matches net config.allow addr port net_class)
    then err eacces
    else allowed

abbrev pub is_recvfrom : NetCall → Bool
is_recvfrom net_recvfrom = true
is_recvfrom _ = false

abbrev pub is_connect : NetCall → Bool
is_connect net_connect = true
is_connect _ = false

-- A connect(2) to port 53 is the synthetic name service.
abbrev pub check_peer :
    Inet → Caller → NetPolicyConfig → NetCall → NetCall → Endpoint → Result (Unit {0})
unfolding check_destination
check_peer net caller config syscall effective (unix unnamed) =
    check_unix config (is_recvfrom effective || unnamed)
check_peer net caller config syscall effective other_endpoint = allowed
check_peer net caller config syscall effective (internet addr port) =
    if is_connect syscall && port == 53
    then allowed
    else check_destination net config addr port (caller.classify addr port)

-- The address that a call names, if it was read.
abbrev pub endpoint_of : Caller → ℕ → ℕ → Option Endpoint
endpoint_of caller ptr address_length =
    if ptr == 0 then none else caller.read_sockaddr ptr address_length

-- Which of the branches of `check_operation` a call takes, by `syscall` and `effective_syscall`.
pub data Branch : Type 0 where
  unchecked listening binding reaching : Branch

abbrev pub branch_of : NetCall → NetCall → Branch
branch_of net_recvmsg effective = unchecked
branch_of net_ppoll effective = unchecked
branch_of net_read effective = unchecked
branch_of net_listen effective = listening
branch_of syscall net_bind = binding
branch_of syscall effective = reaching

abbrev pub check_branch :
    Inet
    → Caller
    → NetPolicyConfig
    → NetCall
    → NetCall
    → Option Endpoint
    → Branch
    → Result (Unit {0}) × NetPolicyConfig
unfolding check_bind check_peer check_port remembered_bind
check_branch net caller config syscall effective endpoint unchecked = (allowed, config)
check_branch net caller config syscall effective endpoint listening =
    (check_port config (remembered_bind config.binds caller.pid (fd_of caller)), config)
check_branch net caller config syscall effective none binding = (allowed, config)
check_branch net caller config syscall effective (some endpoint) binding =
    check_bind caller config syscall endpoint
check_branch net caller config syscall effective none reaching = (allowed, config)
check_branch net caller config syscall effective (some endpoint) reaching =
    (check_peer net caller config syscall effective endpoint, config)

-- The arguments of a call that is no socketcall(2).
abbrev pub address_args : Caller → NetCall → ℕ × ℕ
address_args caller net_sendto = (caller.sysarg 5, caller.sysarg 6)
address_args caller net_recvfrom = (caller.sysarg 5, caller.sysarg 6)
address_args caller _ = (caller.sysarg 2, caller.sysarg 3)

abbrev pub check_call :
    Inet
    → Caller
    → NetPolicyConfig
    → NetCall
    → Result (Option (NetCall × ℕ × ℕ))
    → Result (Unit {0}) × NetPolicyConfig
unfolding check_branch
check_call net caller config syscall (err e) = (err e, config)
check_call net caller config syscall (ok none) = (allowed, config)
check_call net caller config syscall (ok (some (effective, ptr, address_length))) =
    if is_off config.mode && not config.asks
    then (allowed, config)
    else check_branch net caller config syscall effective (endpoint_of caller ptr address_length)
        (branch_of syscall effective)

unfoldable pub check_operation :
    Inet → Caller → NetPolicyConfig → NetCall → Result (Unit {0}) × NetPolicyConfig
unfolding socketcall_address check_call
check_operation net caller config syscall =
    if is_socketcall syscall
    then check_call net caller config syscall (socketcall_address caller)
    else let (ptr, address_length) = address_args caller syscall in
      check_call net caller config syscall (ok (some (syscall, ptr, address_length)))
