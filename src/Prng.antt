-- ===== src/Prng.antt =====
-- src/shim/prng.c: the generator behind every random source of the sandbox.
-- Shifts and products of a uint64_t are taken modulo 2 ^ 64 where C's wrap.
pub mod Seed
pub mod State
pub mod Fill
pub mod Uniform
pub mod Period
pub mod Distinct
mod Tests
use linbox.Prelude.{
  ℕ, zero, suc, ◌+◌, ◌-◌, ◌*◌, ◌/◌, ◌%◌, ◌^◌, bit_and, bit_or, bit_xor, Bool, true, false, Option,
  none, some, List, [], ◌∷◌, ◌++◌, ltb, leb, ◌==◌, if◌then◌else◌,
}
use linbox.Prelude.Words.{u8, u32, u64}

-- `linbox_prng_t`
pub record Prng : Type 0 where
  pub state : ℕ  -- uint64_t

-- The result and the new value of `*x`.
pub splitmix64 : ℕ → ℕ × ℕ
splitmix64 x =
    let x' = u64 (x + 0x9E3779B97F4A7C15) in
    let z = u64 (bit_xor x' (x' / 2 ^ 30) * 0xBF58476D1CE4E5B9) in
    let z' = u64 (bit_xor z (z / 2 ^ 27) * 0x94D049BB133111EB) in (bit_xor z' (z' / 2 ^ 31), x')

-- `linbox_prng_seed` behind its NULL check
pub seeded : ℕ → Prng
seeded seed =
    let s = (splitmix64 seed).0 in record { state = if s == 0 then 0xA5A5A5A5A5A5A5A5 else s }

-- `none` is a NULL `prng`.
pub prng_seed : Option Prng → ℕ → Option Prng
prng_seed none seed = none
prng_seed (some p) seed = some (seeded seed)

pub derive_process_seed : ℕ → ℕ → ℕ
derive_process_seed seed pid = (splitmix64 (bit_xor seed (bit_or (u64 (pid * 2 ^ 32)) pid))).0

-- The value returned and the generator after the call.
pub next_u64 : Prng → ℕ × Prng
next_u64 p =
    let a = bit_xor p.state (p.state / 2 ^ 12) in
    let b = bit_xor a (u64 (a * 2 ^ 25)) in
    let c = bit_xor b (b / 2 ^ 27) in (u64 (c * 0x2545F4914F6CDD1D), record { state = c })

pub next_u32 : Prng → ℕ × Prng
next_u32 p = let (word, p') = next_u64 p in (u32 (word / 2 ^ 32), p')

-- The inner loop of `linbox_prng_fill`: `rounds` is what is left of the eight, `left` is
-- `len - offset`.
pub emit : ℕ → ℕ → ℕ → List ℕ
emit zero left word = []
emit (suc rounds) zero word = []
emit (suc rounds) (suc left) word = u8 (bit_and word 0xFF) ∷ emit rounds left (word / 2 ^ 8)

-- The outer loop, on fuel. A round writes a byte at least, so `len` rounds are enough.
pub fill_loop : ℕ → ℕ → Prng → List ℕ × Prng
fill_loop zero left p = ([], p)
fill_loop (suc fuel) zero p = ([], p)
fill_loop (suc fuel) (suc left) p =
    let (word, p') = next_u64 p in
    let (rest, last) = fill_loop fuel (suc left - 8) p' in (emit 8 (suc left) word ++ rest, last)

-- The bytes written to `buf[0 .. len)`, and the generator after the call.
pub fill : Prng → ℕ → List ℕ × Prng
unfolding fill_loop
fill p len = fill_loop len len p

-- `(uint32_t)(-upper_bound) % upper_bound`
pub threshold : ℕ → ℕ
threshold upper_bound = u32 (2 ^ 32 - upper_bound) % upper_bound

-- The rejection loop on fuel; `none` means that the fuel ran out.
pub uniform_loop : ℕ → Prng → ℕ → Option (ℕ × Prng)
uniform_loop zero p upper_bound = none
uniform_loop (suc fuel) p upper_bound =
    let (r, p') = next_u32 p in
    let rest = uniform_loop fuel p' upper_bound in
    if leb (threshold upper_bound) r then some (r % upper_bound, p') else rest

pub uniform : ℕ → Prng → ℕ → Option (ℕ × Prng)
unfolding uniform_loop
uniform fuel p upper_bound =
    if upper_bound == 0 then some (0, p) else uniform_loop fuel p upper_bound
