-- ===== src/Prng/Distinct.antt =====
-- The first words of the processes that are seeded from one master seed, in src/shim/prng.c.
use linbox.Prelude.{
  ℕ, zero, suc, ◌*◌, ◌/◌, ◌%◌, ◌^◌, ◌<◌, bit_or, bit_xor, ◌≡◌, ◌≢◌, refl, sym, ap, ◌∙◌, arith, inl,
  inr, ◌⊎◌,
}
use linbox.Prelude.Words.{u64}
use Prim.Native.Nat.{differ}
use linbox.Prelude.Bits.Xor.{bit_xor-div, bit_xor-mod-two}
use linbox.Prng.{Prng, splitmix64, seeded, derive_process_seed, next_u64}
use linbox.Prng.Seed.{
  splitmix64-injective, seeded-IsLive, doubled_pid, mixed-lt, derive_process_seed-distinct,
}
use linbox.Prng.State.{IsLive, next_u64-injective, next_u64-IsLive}
use linbox.Prng.Period.{mul_cancel}

-- The bit of weight 2^k.
abbrev bit : ℕ → ℕ → ℕ
bit k x = x / 2 ^ k % 2

bit-bit_xor : (k a b : ℕ) → bit k (bit_xor a b) ≡ differ (bit k a) (bit k b)
bit-bit_xor k a b =
    ap (λ (t : ℕ). t % 2) (bit_xor-div k a b) ∙ bit_xor-mod-two (a / 2 ^ k) (b / 2 ^ k)

-- A process id stands in both halves of what is mixed into the master seed.
abbrev mixed : ℕ → ℕ → ℕ
mixed seed pid = bit_xor seed (bit_or (u64 (pid * 2 ^ 32)) pid)

-- The bits 3 and 35 of the master seed change together.
together :
    (seed pid : ℕ)
    → pid < 2 ^ 32
    → (bit 3 (mixed seed pid) ≡ differ (bit 3 seed) (bit 3 pid))
      × (bit 35 (mixed seed pid) ≡ differ (bit 35 seed) (bit 3 pid))
together seed pid h =
    let twice = doubled_pid pid h in
    (
      bit-bit_xor 3 seed _
          ∙ ap (λ d. differ (bit 3 seed) (bit 3 d)) twice
          ∙ ap (differ (bit 3 seed)) (omega arith),
      bit-bit_xor 35 seed _
          ∙ ap (λ d. differ (bit 35 seed) (bit 35 d)) twice
          ∙ ap (differ (bit 35 seed)) (omega arith),
    )

-- The one word that splitmix64 takes to 0, the one it takes to what replaces 0, and where they come from.
abbrev to_zero : ℕ
to_zero = 0x61c8864680b583eb

abbrev to_substitute : ℕ
to_substitute = 0x20679008d31c893f

abbrev before_zero : ℕ
before_zero = 0xc5deefb0344c1df5

abbrev before_substitute : ℕ
before_substitute = 0x255bcc6bb8553cb6

preimages :
    ((splitmix64 to_zero).0 ≡ 0)
    × ((splitmix64 to_substitute).0 ≡ 0xA5A5A5A5A5A5A5A5)
    × ((splitmix64 before_zero).0 ≡ to_zero)
    × ((splitmix64 before_substitute).0 ≡ to_substitute)
unfolding splitmix64
preimages = (refl, refl, refl, refl)

differ-zero : (x y : ℕ) → x < 2 → y < 2 → differ x y ≡ 0 → x ≡ y
differ-zero zero zero hx hy e = refl
differ-zero zero (suc zero) hx hy e = absurd (omega (arith, e))
differ-zero (suc zero) zero hx hy e = absurd (omega (arith, e))
differ-zero (suc zero) (suc zero) hx hy e = refl
differ-zero (suc (suc x)) y hx hy e = absurd (omega arith)
differ-zero x (suc (suc y)) hx hy e = absurd (omega arith)

differ_self : (x : ℕ) → x < 2 → differ x x ≡ 0
differ_self zero h = refl
differ_self (suc zero) h = refl
differ_self (suc (suc x)) h = absurd (omega arith)

-- No two process ids lead from one master seed to both words.
never_both :
    (seed pid pid' : ℕ)
    → pid < 2 ^ 32
    → pid' < 2 ^ 32
    → mixed seed pid ≡ before_zero
    → mixed seed pid' ≢ before_substitute
never_both seed pid pid' h h' e e' =
    let (low, high) = together seed pid h in
    let (low', high') = together seed pid' h' in
    let a : bit 3 seed ≡ bit 3 pid =
      differ-zero _ _ (omega arith) (omega arith) (sym low ∙ ap (bit 3) e) in
    let b : bit 35 seed ≡ bit 3 pid =
      differ-zero _ _ (omega arith) (omega arith) (sym high ∙ ap (bit 35) e) in
    let c : bit 3 seed ≡ bit 3 pid' =
      differ-zero _ _ (omega arith) (omega arith) (sym low' ∙ ap (bit 3) e') in
    let same : differ (bit 35 seed) (bit 3 pid') ≡ 0 =
      ap (λ x. differ x (bit 3 pid')) (b ∙ sym a ∙ c) ∙ differ_self (bit 3 pid') (omega arith) in
    let one : ◌≡◌ {A = ℕ} 1 0 = sym (ap (bit 35) e') ∙ high' ∙ same in omega (arith, one)

-- A process seed that leads to the word 0 or to its substitute, and the other process's.
collide :
    (seed pid pid' : ℕ)
    → seed < 2 ^ 64
    → pid < 2 ^ 32
    → pid' < 2 ^ 32
    → (splitmix64 (derive_process_seed seed pid)).0 ≡ 0
    → (splitmix64 (derive_process_seed seed pid')).0 ≢ 0xA5A5A5A5A5A5A5A5
unfolding derive_process_seed
collide seed pid pid' hs h h' zeroed substituted =
    let (z, s, bz, bs) = preimages in
    let m = mixed-lt seed pid hs h in
    let m' = mixed-lt seed pid' hs h' in
    let d : (splitmix64 (mixed seed pid)).0 ≡ to_zero =
      (splitmix64-injective _ to_zero (splitmix64-injective _ 0 m (omega arith)).0 (omega arith)).1
        (zeroed ∙ sym z) in
    let d' : (splitmix64 (mixed seed pid')).0 ≡ to_substitute =
      (splitmix64-injective _ to_substitute (splitmix64-injective _ 0 m' (omega arith)).0
          (omega arith)).1
        (substituted ∙ sym s) in
    never_both seed pid pid' h h'
      ((splitmix64-injective _ before_zero m (omega arith)).1 (d ∙ sym bz))
      ((splitmix64-injective _ before_substitute m' (omega arith)).1 (d' ∙ sym bs))

seeded_same :
    (x y : ℕ)
    → (seeded x).state ≡ (seeded y).state
    → ((splitmix64 x).0 ≡ (splitmix64 y).0)
      ⊎ (((splitmix64 x).0 ≡ 0) × ((splitmix64 y).0 ≡ 0xA5A5A5A5A5A5A5A5))
      ⊎ (((splitmix64 y).0 ≡ 0) × ((splitmix64 x).0 ≡ 0xA5A5A5A5A5A5A5A5))
unfolding seeded
seeded_same x y e = ground arith

next_u64-cancel : (p q : Prng) → IsLive p → IsLive q → (next_u64 p).0 ≡ (next_u64 q).0 → p ≡ q
unfolding next_u64
next_u64-cancel p q hp hq e = next_u64-injective p q (
    mul_cancel (next_u64 p).1.state (next_u64 q).1.state (next_u64-IsLive p hp).1.1
      (next_u64-IsLive q hq).1.1 e)

-- Under one master seed of 64 bits, processes with distinct ids of 32 bits get generators whose first
-- words differ: also where a process seed leads to the word 0, which seeding replaces.
pub seeded-distinct :
    (seed pid pid' : ℕ)
    → seed < 2 ^ 64
    → pid < 2 ^ 32
    → pid' < 2 ^ 32
    → pid ≢ pid'
    → (next_u64 (seeded (derive_process_seed seed pid))).0
      ≢ (next_u64 (seeded (derive_process_seed seed pid'))).0
unfolding derive_process_seed
seeded-distinct seed pid pid' hs h h' ne e =
    let x = derive_process_seed seed pid in
    let y = derive_process_seed seed pid' in
    let same = next_u64-cancel _ _ (seeded-IsLive x) (seeded-IsLive y) e in
    elim (seeded_same x y (ap (λ (p : Prng). p.state) same)) [
      | inl words ↦ derive_process_seed-distinct seed pid pid' hs h h' ne (
          (splitmix64-injective x y
              (splitmix64-injective _ 0 (mixed-lt seed pid hs h) (omega arith)).0
              (splitmix64-injective _ 0 (mixed-lt seed pid' hs h') (omega arith)).0).1
            words)
      | inr (inl (zeroed, substituted)) ↦ collide seed pid pid' hs h h' zeroed substituted
      | inr (inr (zeroed, substituted)) ↦ collide seed pid' pid hs h' h zeroed substituted
    ]
