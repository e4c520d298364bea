-- ===== src/Extension/ResourceLimit/Mask.antt =====
-- The CPU mask that the guest sees.
use proot_termux.Base.{
  ℕ, zero, suc, ◌+◌, ◌-◌, ◌≤◌, ◌<◌, ◌≡◌, ◌≢◌, refl, sym, subst, ◌==◌, ==_iff, ap, ◌∙◌, ◌%◌, ◌/◌,
  ◌^◌, ◌*◌, bit_or, min, ltb, if◌then◌else◌, Bytes, get_or, set, replicate, take, length,
  length-set, get_or-set_self, get_or-set_ne, arith, Bool-cases, inl, inr, [], ◌∷◌, some,
}
use proot_termux.Tracee.{Tracee, sysarg_2, sysarg_3, sysarg_result, current, original}
use proot_termux.Tracee.Regs.{peek_reg}
use proot_termux.Extension.ResourceLimit.{
  RlimitConfig, buf_size, mask_length, set_bits, rlimit_handle_sched_getaffinity,
}

-- The byte at `k` of a mask whose first `i` bits are set and no other.
abbrev pub byte_of : ℕ → ℕ → ℕ
byte_of i k = 2 ^ min 8 (i - k * 8) - 1

next_bit : (r : ℕ) → r < 8 → bit_or (2 ^ r - 1) (2 ^ r) ≡ 2 ^ (r + 1) - 1
next_bit zero h = refl
next_bit (suc (zero)) h = refl
next_bit (suc (suc (zero))) h = refl
next_bit (suc (suc (suc (zero)))) h = refl
next_bit (suc (suc (suc (suc (zero))))) h = refl
next_bit (suc (suc (suc (suc (suc (zero)))))) h = refl
next_bit (suc (suc (suc (suc (suc (suc (zero))))))) h = refl
next_bit (suc (suc (suc (suc (suc (suc (suc (zero)))))))) h = refl
next_bit (suc (suc (suc (suc (suc (suc (suc (suc r)))))))) h = absurd (omega arith)

byte_of_next : (i : ℕ) → bit_or (byte_of i (i / 8)) (2 ^ (i % 8)) ≡ byte_of (i + 1) (i / 8)
byte_of_next i =
    let here : min 8 (i - i / 8 * 8) ≡ i % 8 = ground arith in
    let there : min 8 (i + 1 - i / 8 * 8) ≡ i % 8 + 1 = ground arith in
    rw (here, there) (next_bit (i % 8) (omega arith))

byte_of_elsewhere : (i k : ℕ) → i / 8 ≢ k → byte_of (i + 1) k ≡ byte_of i k
byte_of_elsewhere i k ne = ap (λ m. 2 ^ m - 1) (ground arith)

-- The bytes below `n` are those of a mask with `i` bits.
abbrev HasBits : ℕ → ℕ → Bytes → Type 0
HasBits n i buf = (k : ℕ) → k < n → get_or buf k 0 ≡ byte_of i k

-- One turn of the loop.
set_bit-HasBits :
    (n i : ℕ) (buf : Bytes)
    → n ≤ length buf
    → HasBits n i buf
    → HasBits n (i + 1) (
        if ltb (i / 8) n
        then set buf (i / 8) (bit_or (get_or buf (i / 8) 0) (2 ^ (i % 8)))
        else buf)
set_bit-HasBits n i buf l h k lt =
    let other : i / 8 ≢ k → get_or buf k 0 ≡ byte_of (i + 1) k =
      λ ne. h k lt ∙ sym (byte_of_elsewhere i k ne) in
    elim (Bool-cases (ltb (i / 8) n)) [
      | inr out ↦ rw out (other (ground arith))
      | inl inside ↦ elim (Bool-cases (i / 8 == k)) [
        | inl here ↦
            let e : i / 8 ≡ k = (==_iff (i / 8) k).0 here in
            rw inside (
              subst
                (λ k.
                  get_or (set buf (i / 8) (bit_or (get_or buf (i / 8) 0) (2 ^ (i % 8)))) k 0
                  ≡ byte_of (i + 1) k)
                e
                (get_or-set_self buf (i / 8) _ 0 (ground arith)
                  ∙ ap (λ b. bit_or b (2 ^ (i % 8))) (h (i / 8) (ground arith))
                  ∙ byte_of_next i))
        | inr elsewhere ↦
            let ne : i / 8 ≢ k = λ e. ground arith in
            rw inside (get_or-set_ne buf _ 0 ne ∙ other ne)
      ]
    ]

length_set_bit :
    (n i : ℕ) (buf : Bytes)
    → length (
        if ltb (i / 8) n
        then set buf (i / 8) (bit_or (get_or buf (i / 8) 0) (2 ^ (i % 8)))
        else buf)
      ≡ length buf
length_set_bit n i buf = elim (Bool-cases (ltb (i / 8) n)) [
  | inl inside ↦ rw inside (length-set buf (i / 8) _)
  | inr out ↦ rw out
]

set_bits-HasBits :
    (n left i : ℕ) (buf : Bytes)
    → n ≤ length buf
    → HasBits n i buf
    → HasBits n (i + left) (set_bits n left i buf) × (length (set_bits n left i buf) ≡ length buf)
set_bits-HasBits n zero i buf l h = (λ k lt. h k lt ∙ ap (λ i. byte_of i k) (omega arith), refl)
set_bits-HasBits n (suc left) i buf l h =
    let same = length_set_bit n i buf in
    let (bits, kept) =
      set_bits-HasBits n left (i + 1) _ (omega (arith, same)) (set_bit-HasBits n i buf l h) in
    (λ k lt. bits k lt ∙ ap (λ i. byte_of i k) (omega arith), kept ∙ same)

get_or-replicate : (n k : ℕ) → get_or {A = ℕ} (replicate n 0) k 0 ≡ 0
get_or-replicate zero k = refl
get_or-replicate (suc n) zero = refl
get_or-replicate (suc n) (suc k) = get_or-replicate n k

get_or-take : (n k : ℕ) (buf : Bytes) → k < n → get_or (take n buf) k 0 ≡ get_or buf k 0
get_or-take zero k buf lt = absurd (omega arith)
get_or-take (suc n) k [] lt = refl
get_or-take (suc n) zero (x ∷ buf) lt = refl
get_or-take (suc n) (suc k) (x ∷ buf) lt = get_or-take n k buf (omega arith)

length-take : (n : ℕ) (buf : Bytes) → n ≤ length buf → length (take n buf) ≡ n
length-take zero buf l = refl
length-take (suc n) [] l = absurd (omega arith)
length-take (suc n) (x ∷ buf) l = ap suc (length-take n buf (omega arith))

-- After a sched_getaffinity that succeeded under a CPU limit and copied a byte, as many bytes are
-- written to the caller's mask as the kernel copied, but not more than the caller's buffer holds
-- or 128; and the byte at `k` of them has the bits of the CPUs below the limit, and no other.
pub rlimit_handle_sched_getaffinity_mask :
    (t : Tracee) (config : RlimitConfig) (k : ℕ)
    → peek_reg t current sysarg_result < 2 ^ 63
    → config.cpu_limit ≢ 0
    → k < min (min (peek_reg t current sysarg_result) (peek_reg t original sysarg_2)) 128
    → (mask : Bytes) × (rlimit_handle_sched_getaffinity t config
        ≡ some (peek_reg t original sysarg_3, mask))
      × (length mask
          ≡ min (min (peek_reg t current sysarg_result) (peek_reg t original sysarg_2)) 128)
      × (get_or mask k 0 ≡ 2 ^ min 8 (config.cpu_limit - k * 8) - 1)
unfolding rlimit_handle_sched_getaffinity
rlimit_handle_sched_getaffinity_mask t config k r c lt =
    let n = mask_length (peek_reg t current sysarg_result) (peek_reg t original sysarg_2) in
    let same : n ≡ min (min (peek_reg t current sysarg_result) (peek_reg t original sysarg_2)) 128 =
      ground arith in
    let empty : HasBits n 0 (replicate buf_size 0) = λ k lt.
      get_or-replicate buf_size k
      ∙ ap (λ m. 2 ^ m - 1) {x = 0} {y = min 8 (0 - k * 8)} (omega arith) in
    let (bits, kept) =
      set_bits-HasBits n config.cpu_limit 0 (replicate buf_size 0) (omega arith) empty in
    let buf = set_bits n config.cpu_limit 0 (replicate buf_size 0) in
    (
      take n buf,
      ground arith,
      length-take n buf (omega arith) ∙ same,
      get_or-take n k buf (omega arith)
          ∙ bits k (omega arith)
          ∙ ap (λ i. byte_of i k) (omega arith),
    )
