-- ===== src/Prelude/Bits/Fields.antt =====
-- `|` of disjoint fields and `&` with a mask of low bits, as arithmetic.
use Prim.Native.Nat.{ℕ, zero, suc, ◌+◌, ◌-◌, ◌*◌, ◌/◌, ◌%◌, ◌^◌, ◌≤◌, ◌<◌, bit_and, bit_or}
use Prim.Native.Nat.{bit_or-bitwise}
use mathlib.Core.Path.{◌≡◌, refl, ap, ◌∙◌}
use native.Mathlib.Nat.{pow-suc, one-le-pow, div-add-mod, div-div-eq-div-mul}
use native.Mathlib.Omega.{arith}
use linbox.Prelude.Bits.{bit_or_digit, bit_and_digit}

-- A field one place further to the left is twice as large.
shifted_field : (place field : ℕ) → 2 * (field * 2 ^ place) ≡ field * 2 ^ suc place
shifted_field place field =
    let next = pow-suc 2 place in omega (arith, ap (λ (weight : ℕ). field * weight) next)

-- A low field joined with a high field that starts above it is their sum.
pub bit_or_join : (k r q : ℕ) → r < 2 ^ k → bit_or r (q * 2 ^ k) ≡ r + q * 2 ^ k
bit_or_join zero zero q h = simp bit_or-bitwise (omega arith)
bit_or_join zero (suc r) q h = absurd (omega arith)
bit_or_join (suc k) r q h = ground (
  arith,
  bit_or_digit r (q * 2 ^ suc k),
  shifted_field k q,
  pow-suc 2 k,
  bit_or_join k (r / 2) q (omega (arith, pow-suc 2 k)),
)

bit_or_comm_upto : (n a b : ℕ) → a ≤ n → b ≤ n → bit_or a b ≡ bit_or b a
bit_or_comm_upto zero zero zero ha hb = refl
bit_or_comm_upto zero (suc a) b ha hb = absurd (omega arith)
bit_or_comm_upto zero zero (suc b) ha hb = absurd (omega arith)
bit_or_comm_upto (suc n) a b ha hb = omega (
  arith,
  bit_or_digit a b,
  bit_or_digit b a,
  bit_or_comm_upto n (a / 2) (b / 2) (omega arith) (omega arith),
)

pub bit_or_comm : (a b : ℕ) → bit_or a b ≡ bit_or b a
bit_or_comm a b = bit_or_comm_upto (a + b) a b (omega arith) (omega arith)

bit_and-zero : (n a : ℕ) → a ≤ n → bit_and a 0 ≡ 0
bit_and-zero n zero h = refl
bit_and-zero zero (suc a) h = absurd (omega arith)
bit_and-zero (suc n) (suc a) h =
    omega (arith, bit_and_digit (suc a) 0, bit_and-zero n (suc a / 2) (omega arith))

pub half-div-two-pow : (k a : ℕ) → a / 2 / 2 ^ k ≡ a / 2 ^ suc k
half-div-two-pow k a =
    div-div-eq-div-mul a 2 (2 ^ k) ∙ ap (λ (t : ℕ). a / t) (omega (arith, pow-suc 2 k))

pub mod-two-pow-suc : (k a : ℕ) → a % 2 ^ suc k ≡ a / 2 % 2 ^ k * 2 + a % 2
mod-two-pow-suc k a = omega (
  arith,
  div-add-mod a (2 ^ suc k),
  div-add-mod (a / 2) (2 ^ k),
  ap (λ (t : ℕ). 2 ^ k * t) (half-div-two-pow k a),
  ap (λ (t : ℕ). t * (a / 2 ^ suc k)) (pow-suc 2 k),
)

-- A mask of `k` low bits is the remainder by `2 ^ k`.
pub bit_and_low : (k a : ℕ) → bit_and a (2 ^ k - 1) ≡ a % 2 ^ k
bit_and_low zero a = omega (arith, bit_and-zero a a (omega arith))
bit_and_low (suc k) a = ground (
  arith,
  bit_and_digit a (2 ^ suc k - 1),
  pow-suc 2 k,
  one-le-pow k 2,
  mod-two-pow-suc k a,
  bit_and_low k (a / 2),
)
