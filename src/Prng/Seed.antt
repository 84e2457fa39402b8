-- ===== src/Prng/Seed.antt =====
-- Seeding: splitmix64 is a bijection on 64-bit words, so processes get distinct seeds.
use linbox.Prelude.{ℕ, ◌+◌, ◌*◌, ◌/◌, ◌^◌, ◌<◌, bit_or, bit_xor, ◌≡◌, ◌≢◌, ap, ◌∙◌, arith}
use linbox.Prelude.Words.{u64}
use linbox.Prelude.Bits.Fields.{bit_or_join, bit_or_comm}
use linbox.Prelude.Bits.Xor.{bit_xor-lt, bit_xor_cancel, bit_xor-shr_cancel, bit_xor-shr-lt}
use linbox.Prng.{splitmix64, seeded, derive_process_seed}

-- A 64-bit word times an odd constant, with the inverse of the constant.
first_mul_cancel :
    (x y : ℕ)
    → x < 2 ^ 64
    → y < 2 ^ 64
    → u64 (x * 0xBF58476D1CE4E5B9) ≡ u64 (y * 0xBF58476D1CE4E5B9)
    → x ≡ y
first_mul_cancel x y hx hy e = omega arith

second_mul_cancel :
    (x y : ℕ)
    → x < 2 ^ 64
    → y < 2 ^ 64
    → u64 (x * 0x94D049BB133111EB) ≡ u64 (y * 0x94D049BB133111EB)
    → x ≡ y
second_mul_cancel x y hx hy e = omega arith

-- The three stages of splitmix64 behind its addition.
stages_cancel : (x y : ℕ) → x < 2 ^ 64 → y < 2 ^ 64 → (splitmix64 x).0 ≡ (splitmix64 y).0 → x ≡ y
unfolding splitmix64
stages_cancel x y hx hy e =
    let x1 = u64 (x + 0x9E3779B97F4A7C15) in
    let y1 = u64 (y + 0x9E3779B97F4A7C15) in
    let x2 = u64 (bit_xor x1 (x1 / 2 ^ 30) * 0xBF58476D1CE4E5B9) in
    let y2 = u64 (bit_xor y1 (y1 / 2 ^ 30) * 0xBF58476D1CE4E5B9) in
    let x3 = u64 (bit_xor x2 (x2 / 2 ^ 27) * 0x94D049BB133111EB) in
    let y3 = u64 (bit_xor y2 (y2 / 2 ^ 27) * 0x94D049BB133111EB) in
    let e3 : x3 ≡ y3 = bit_xor-shr_cancel 30 x3 y3 e in
    let e2 : x2 ≡ y2 = bit_xor-shr_cancel 26 x2 y2 (
      second_mul_cancel _ _ (bit_xor-shr-lt 64 27 x2 (omega arith))
        (bit_xor-shr-lt 64 27 y2 (omega arith)) e3) in
    let e1 : x1 ≡ y1 = bit_xor-shr_cancel 29 x1 y1 (
      first_mul_cancel _ _ (bit_xor-shr-lt 64 30 x1 (omega arith))
        (bit_xor-shr-lt 64 30 y1 (omega arith)) e2) in
    omega arith

splitmix64-lt : (x : ℕ) → (splitmix64 x).0 < 2 ^ 64
unfolding splitmix64
splitmix64-lt x = bit_xor-shr-lt 64 31 _ (omega arith)

-- splitmix64 maps distinct 64-bit words to distinct 64-bit words.
pub splitmix64-injective :
    (x y : ℕ)
    → x < 2 ^ 64
    → y < 2 ^ 64
    → ((splitmix64 x).0 < 2 ^ 64) × ((splitmix64 x).0 ≡ (splitmix64 y).0 → x ≡ y)
splitmix64-injective x y hx hy = (splitmix64-lt x, stages_cancel x y hx hy)

-- Seeding never leaves the generator in its fixed point 0, and the state is a 64-bit word.
pub seeded-IsLive : (seed : ℕ) → (0 < (seeded seed).state) × ((seeded seed).state < 2 ^ 64)
unfolding seeded
seeded-IsLive seed = ground (arith, splitmix64-lt seed)

pub doubled_pid : (pid : ℕ) → pid < 2 ^ 32 → bit_or (u64 (pid * 2 ^ 32)) pid ≡ pid + pid * 2 ^ 32
doubled_pid pid h =
    rw (bit_or_comm (u64 (pid * 2 ^ 32)) pid)
      (ap (bit_or pid) (omega arith) ∙ bit_or_join 32 pid pid h)

pub mixed-lt :
    (seed pid : ℕ)
    → seed < 2 ^ 64
    → pid < 2 ^ 32
    → bit_xor seed (bit_or (u64 (pid * 2 ^ 32)) pid) < 2 ^ 64
mixed-lt seed pid hs hp = bit_xor-lt 64 seed _ hs (omega (arith, doubled_pid pid hp))

derive_process_seed-injective :
    (seed pid pid' : ℕ)
    → seed < 2 ^ 64
    → pid < 2 ^ 32
    → pid' < 2 ^ 32
    → derive_process_seed seed pid ≡ derive_process_seed seed pid'
    → pid ≡ pid'
unfolding derive_process_seed
derive_process_seed-injective seed pid pid' hs hp hp' e = omega (
  arith,
  bit_xor_cancel seed _ _
      (stages_cancel _ _ (mixed-lt seed pid hs hp) (mixed-lt seed pid' hs hp') e),
  doubled_pid pid hp,
  doubled_pid pid' hp',
)

-- Under one master seed of 64 bits, distinct process ids of 32 bits derive distinct process seeds.
pub derive_process_seed-distinct :
    (seed pid pid' : ℕ)
    → seed < 2 ^ 64
    → pid < 2 ^ 32
    → pid' < 2 ^ 32
    → pid ≢ pid'
    → derive_process_seed seed pid ≢ derive_process_seed seed pid'
derive_process_seed-distinct seed pid pid' hs hp hp' ne e =
    ne (derive_process_seed-injective seed pid pid' hs hp hp' e)
