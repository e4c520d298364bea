-- ===== src/Extension/ResourceLimit/Count.antt =====
-- The process limit, against the number of all live tracees.
use proot_termux.Base.{
  ℕ, zero, suc, ◌+◌, ◌≡◌, refl, Bool, true, false, ◌&&◌, if◌then◌else◌, ltb, leb, Option, some,
  none, List, [], ◌∷◌, arith, Bool-cases, inl, inr,
}
use proot_termux.Tracee.{Tracee, sysarg_num, sysarg_result, current}
use proot_termux.Tracee.Regs.{peek_reg, poke_reg, peek_reg-poke_reg}
use proot_termux.Syscall.Sysnum.{Sysnums, set_sysnum, detranslate_sysnum, syscall_avoider, pr_void}
use proot_termux.Extension.ResourceLimit.{
  RlimitConfig, count_from, rlimit_count_live_tracees, rlimit_handle_fork_clone_enter,
  rlimit_proc_limit_reached, minus_eagain,
}

-- The number of tracees that are not terminated.
abbrev pub live : List Bool → ℕ
live [] = 0
live (terminated ∷ tracees) = if terminated then live tracees else suc (live tracees)

abbrev pub live_of : Option (List Bool) → ℕ
live_of none = 0
live_of (some tracees) = live tracees

count_from-live :
    (tracees : List Bool) (limit count : ℕ)
    → ltb count limit ≡ true
    → ltb (count_from tracees limit count) limit ≡ ltb (count + live tracees) limit
count_from-live [] limit count h = ground arith
count_from-live (true ∷ tracees) limit count h =
    ground (arith, count_from-live tracees limit count h)
count_from-live (false ∷ tracees) limit count h = elim (Bool-cases (leb limit (count + 1))) [
  | inl stop ↦ ground arith
  | inr go ↦ ground (arith, count_from-live tracees limit (count + 1) (ground arith))
]

-- The walk that stops early answers whether the limit is reached as the whole count does.
pub rlimit_count_live_tracees-live :
    (tracees : Option (List Bool)) (limit : ℕ)
    → ltb (rlimit_count_live_tracees tracees (suc limit)) (suc limit)
      ≡ ltb (live_of tracees) (suc limit)
unfolding rlimit_count_live_tracees
rlimit_count_live_tracees-live none limit = refl
rlimit_count_live_tracees-live (some tracees) limit =
    ground (arith, count_from-live tracees (suc limit) 0)

-- A process limit is set, and the number of all live tracees has reached it.
abbrev pub is_reached : Option (List Bool) → ℕ → Bool
is_reached tracees limit = ltb 0 limit && leb limit (live_of tracees)

rlimit_proc_limit_reached-live :
    (tracees : Option (List Bool)) (limit : ℕ)
    → rlimit_proc_limit_reached tracees limit ≡ is_reached tracees limit
unfolding rlimit_proc_limit_reached
rlimit_proc_limit_reached-live tracees zero = refl
rlimit_proc_limit_reached-live tracees (suc limit) =
    ground (arith, rlimit_count_live_tracees-live tracees limit)

-- The gate of the guest is that of the supervisor.
rlimit_handle_fork_clone_enter-gate :
    (s : Sysnums) (tracees : Option (List Bool)) (config : RlimitConfig) (t : Tracee)
    → rlimit_handle_fork_clone_enter s tracees config t ≡ (
        if rlimit_proc_limit_reached tracees config.proc_limit
        then (1, poke_reg (set_sysnum s t pr_void) sysarg_result minus_eagain)
        else (0, t))
unfolding rlimit_handle_fork_clone_enter rlimit_proc_limit_reached
rlimit_handle_fork_clone_enter-gate s tracees config t = ground arith

refused_fields :
    (s : Sysnums) (t : Tracee)
    → (peek_reg (poke_reg (set_sysnum s t pr_void) sysarg_result minus_eagain) current sysarg_num
        ≡ syscall_avoider)
      × (peek_reg
            (poke_reg (set_sysnum s t pr_void) sysarg_result minus_eagain)
            current
            sysarg_result
          ≡ minus_eagain)
unfolding set_sysnum detranslate_sysnum
refused_fields s t = (simp peek_reg-poke_reg, simp peek_reg-poke_reg)

-- A fork or clone is refused exactly where a process limit is set and the number of all live
-- tracees has reached it, which is where the supervisor's gate refuses, too. A refused one has the
-- number that stands for no system call, and -EAGAIN as its result; otherwise both registers are
-- as before.
pub rlimit_handle_fork_clone_enter_refuses :
    (s : Sysnums) (tracees : Option (List Bool)) (config : RlimitConfig) (t : Tracee)
    → (rlimit_proc_limit_reached tracees config.proc_limit ≡ is_reached tracees config.proc_limit)
      × ((rlimit_handle_fork_clone_enter s tracees config t).0
          ≡ (if is_reached tracees config.proc_limit then 1 else 0))
      × (peek_reg (rlimit_handle_fork_clone_enter s tracees config t).1 current sysarg_num ≡ (
          if is_reached tracees config.proc_limit
          then syscall_avoider
          else peek_reg t current sysarg_num))
      × (peek_reg (rlimit_handle_fork_clone_enter s tracees config t).1 current sysarg_result ≡ (
          if is_reached tracees config.proc_limit
          then minus_eagain
          else peek_reg t current sysarg_result))
rlimit_handle_fork_clone_enter_refuses s tracees config t =
    let gate = rlimit_proc_limit_reached-live tracees config.proc_limit in
    let step = rlimit_handle_fork_clone_enter-gate s tracees config t in
    let (num, result) = refused_fields s t in
    elim (Bool-cases (is_reached tracees config.proc_limit)) [
      | inl refused ↦ rw (step, gate, refused) (refl, refl, num, result)
      | inr passed ↦ rw (step, gate, passed) (refl, refl, refl, refl)
    ]
