-- ===== src/Syscall/Chain/Fifo.antt =====
-- The chained system calls are issued in the order of their registration.
use mathlib.Core.List.{append_assoc, append-nil}
use proot_termux.Base.{
  ℕ, zero, suc, ◌≡◌, refl, ◌∙◌, subst, ap, ap₂, sym, false, Option, some, none, List, [], ◌∷◌, ◌++◌,
  map, if◌then◌else◌, length, arith, Bool-cases, inl, inr,
}
use proot_termux.Tracee.{
  Tracee, Chain, ChainedSyscall, Bank, Reg, sysarg_num, sysarg_1, sysarg_2, sysarg_3, sysarg_4,
  sysarg_5, sysarg_6, sysarg_result, current,
}
use proot_termux.Tracee.Regs.{peek_reg, poke_reg, peek_reg-poke_reg, poke_reg-others}
use proot_termux.Syscall.Sysnum.{Sysnums, detranslate_sysnum}
use proot_termux.Syscall.Chain.{
  next_of, register_chained_syscall, poke_call, chain_finish, chain_continue, chain_next_syscall,
}

-- What the kernel sees of a system call: its number and its six arguments.
pub record Issued : Type 0 where
  pub number : ℕ
  pub issued_1 : ℕ
  pub issued_2 : ℕ
  pub issued_3 : ℕ
  pub issued_4 : ℕ
  pub issued_5 : ℕ
  pub issued_6 : ℕ

abbrev pub seen : Tracee → Issued
seen t = record {
  number = peek_reg t current sysarg_num;
  issued_1 = peek_reg t current sysarg_1;
  issued_2 = peek_reg t current sysarg_2;
  issued_3 = peek_reg t current sysarg_3;
  issued_4 = peek_reg t current sysarg_4;
  issued_5 = peek_reg t current sysarg_5;
  issued_6 = peek_reg t current sysarg_6;
}

abbrev pub as_issued : Sysnums → ChainedSyscall → Issued
as_issued s c = record {
  number = detranslate_sysnum s c.sysnum;
  issued_1 = c.arg_1;
  issued_2 = c.arg_2;
  issued_3 = c.arg_3;
  issued_4 = c.arg_4;
  issued_5 = c.arg_5;
  issued_6 = c.arg_6;
}

seen-chain_continue :
    (s : Sysnums) (t : Tracee) (call : ChainedSyscall) (rest : List ChainedSyscall)
    → seen (chain_continue s t call rest) ≡ as_issued s call
unfolding chain_continue poke_call
seen-chain_continue s t call rest = simp peek_reg-poke_reg

chain-poke_reg : (t : Tracee) (reg : Reg) (value : ℕ) → (poke_reg t reg value).chain ≡ t.chain
chain-poke_reg t reg value = (poke_reg-others t reg value).2

chain-chain_continue :
    (s : Sysnums) (t : Tracee) (call : ChainedSyscall) (rest : List ChainedSyscall)
    → (chain_continue s t call rest).chain ≡ record (t.chain) { syscalls = some rest }
unfolding chain_continue poke_call
chain-chain_continue s t call rest = simp chain-poke_reg

-- Registering calls one after the other.
abbrev pub register_all : List ChainedSyscall → Tracee → Tracee
register_all [] t = t
register_all (c ∷ cs) t = register_all cs (register_chained_syscall t c)

-- What the kernel leaves in the registers between the end of one call and the next one.
abbrev pub ran : (Tracee → Bank) → Tracee → Tracee
ran kernel t = record t { regs_current = kernel t }

-- `chain_next_syscall` at the end of each call, `n` times: what is issued, and the tracee then.
abbrev pub issue : Sysnums → (Tracee → Bank) → ℕ → Tracee → List Issued × Tracee
issue s kernel zero t = ([], t)
issue s kernel (suc n) t =
    let t' = chain_next_syscall s (ran kernel t) in
    let (more, last) = issue s kernel n t' in (seen t' ∷ more, last)

register_all-queue :
    (cs : List ChainedSyscall) (t : Tracee) (queue : List ChainedSyscall)
    → t.chain.syscalls ≡ some queue
    → (register_all cs t).chain ≡ record (t.chain) { syscalls = some (queue ++ cs) }
unfolding register_chained_syscall
register_all-queue [] t queue e = rw append-nil (λ i. record (t.chain) { syscalls = e i })
register_all-queue (c ∷ cs) t queue e =
    register_all-queue cs (register_chained_syscall t c) (queue ++ c ∷ []) (ground arith)
    ∙ rw append_assoc

chain_next_syscall-next_of :
    (s : Sysnums) (t : Tracee) {queue : Option (List ChainedSyscall)}
    → t.chain.syscalls ≡ queue
    → chain_next_syscall s t ≡ next_of s t queue
unfolding chain_next_syscall
chain_next_syscall-next_of s t e = ap (next_of s t) e

issue-queue :
    (s : Sysnums) (kernel : Tracee → Bank) (cs : List ChainedSyscall) (t : Tracee)
    → t.chain.syscalls ≡ some cs
    → ((issue s kernel (length cs) t).0 ≡ map (as_issued s) cs)
      × ((issue s kernel (length cs) t).1.chain ≡ record (t.chain) { syscalls = some [] })
issue-queue s kernel [] t e = (refl, λ i. record (t.chain) { syscalls = e i })
issue-queue s kernel (c ∷ cs) t e =
    let u = ran kernel t in
    let step : chain_next_syscall s u ≡ chain_continue s u c cs =
      chain_next_syscall-next_of s u e in
    let now : (chain_continue s u c cs).chain ≡ record (t.chain) { syscalls = some cs } =
      chain-chain_continue s u c cs in
    let later =
      issue-queue s kernel cs (chain_continue s u c cs) (ap (λ (x : Chain). x.syscalls) now) in
    subst
      (λ v.
        (◌≡◌ {A = List Issued} (seen v ∷ (issue s kernel (length cs) v).0)
          (map (as_issued s) (c ∷ cs)))
        × ((issue s kernel (length cs) v).1.chain ≡ record (t.chain) { syscalls = some [] }))
      (sym step)
      (
        ap₂ ◌∷◌ (seen-chain_continue s u c cs) later.0,
        later.1 ∙ ap (λ (x : Chain). record x { syscalls = some [] }) now,
      )

registered :
    (t : Tracee) (c : ChainedSyscall)
    → t.chain.syscalls ≡ none
    → (register_chained_syscall t c).chain ≡ record (t.chain) { syscalls = some (c ∷ []) }
unfolding register_chained_syscall
registered t c e = ground arith

-- The calls, at least one, that are registered on a tracee without a chain are issued in the order of their registration,
-- each with its number and arguments, whatever the kernel leaves in the registers in between; then
-- the queue is empty, and the rest of the chain's state is as before.
pub issue-register_all :
    (s : Sysnums) (kernel : Tracee → Bank) (c : ChainedSyscall) (cs : List ChainedSyscall)
    (t : Tracee)
    → t.chain.syscalls ≡ none
    → ((issue s kernel (length (c ∷ cs)) (register_all (c ∷ cs) t)).0 ≡ map (as_issued s) (c ∷ cs))
      × ((issue s kernel (length (c ∷ cs)) (register_all (c ∷ cs) t)).1.chain
          ≡ record (t.chain) { syscalls = some [] })
issue-register_all s kernel c cs t e =
    let start = register_chained_syscall t c in
    let first : start.chain ≡ record (t.chain) { syscalls = some (c ∷ []) } = registered t c e in
    let queued : (register_all cs start).chain ≡ record (t.chain) { syscalls = some (c ∷ cs) } =
      register_all-queue cs start (c ∷ []) (ap (λ (x : Chain). x.syscalls) first)
      ∙ ap (λ (x : Chain). record x { syscalls = some (c ∷ cs) }) first in
    let done =
      issue-queue s kernel (c ∷ cs) (register_all cs start)
        (ap (λ (x : Chain). x.syscalls) queued) in
    (done.0, done.1 ∙ ap (λ (x : Chain). record x { syscalls = some [] }) queued)

-- At the end of the chain the queue is freed and the forced result, if any, is the result of the
-- system call; the request to force it is gone.
pub chain_next_syscall_end :
    (s : Sysnums) (t : Tracee)
    → t.chain.syscalls ≡ some []
    → (peek_reg (chain_next_syscall s t) current sysarg_result ≡ (
        if t.chain.force_final_result
        then t.chain.final_result
        else peek_reg t current sysarg_result))
      × ((chain_next_syscall s t).chain.syscalls ≡ none)
      × ((chain_next_syscall s t).chain.force_final_result ≡ false)
unfolding chain_finish
chain_next_syscall_end s t e =
    rw (chain_next_syscall-next_of s t e) (elim (Bool-cases t.chain.force_final_result) [
      | inl forced ↦ rw forced (simp peek_reg-poke_reg, refl, refl)
      | inr free ↦ rw free (refl, refl, refl)
    ])
