-- ===== src/Prng/State.antt =====
-- The xorshift step: it permutes the non-zero 64-bit states.
use linbox.Prelude.{ℕ, ◌*◌, ◌%◌, ◌^◌, ◌<◌, bit_xor, ◌≡◌, refl, sym, ap, ◌∙◌, arith, inl, inr}
use native.Mathlib.Nat.{eq-zero-or-pos}
use linbox.Prelude.Words.{u64}
use linbox.Prelude.Bits.Xor.{
  bit_xor-lt, bit_xor_cancel_right, bit_xor-mod, bit_xor-shr_cancel, bit_xor-shr-lt,
}
use linbox.Prng.{Prng, next_u64}

-- `x ^= x << 25` on 64-bit words merges no two of them: its low bits fix the next ones.
low_bits_agree :
    (x y : ℕ)
    → bit_xor x (u64 (x * 2 ^ 25)) ≡ bit_xor y (u64 (y * 2 ^ 25))
    → x % 2 ^ 25 ≡ y % 2 ^ 25
low_bits_agree x y e = bit_xor_cancel_right 0 _ _ (
    ap (bit_xor (x % 2 ^ 25)) (shifted x)
    ∙ sym (bit_xor-mod 25 x (u64 (x * 2 ^ 25)))
    ∙ ap (λ (t : ℕ). t % 2 ^ 25) e
    ∙ bit_xor-mod 25 y (u64 (y * 2 ^ 25))
    ∙ ap (bit_xor (y % 2 ^ 25)) (sym (shifted y)))
  where
    shifted : (z : ℕ) → 0 ≡ u64 (z * 2 ^ 25) % 2 ^ 25
    shifted z = omega arith

mid_bits_agree :
    (x y : ℕ)
    → bit_xor x (u64 (x * 2 ^ 25)) ≡ bit_xor y (u64 (y * 2 ^ 25))
    → x % 2 ^ 50 ≡ y % 2 ^ 50
mid_bits_agree x y e = bit_xor_cancel_right (u64 (x * 2 ^ 25) % 2 ^ 50) _ _ (
    sym (bit_xor-mod 50 x (u64 (x * 2 ^ 25)))
    ∙ ap (λ (t : ℕ). t % 2 ^ 50) e
    ∙ bit_xor-mod 50 y (u64 (y * 2 ^ 25))
    ∙ ap (bit_xor (y % 2 ^ 50)) same)
  where
    same : u64 (y * 2 ^ 25) % 2 ^ 50 ≡ u64 (x * 2 ^ 25) % 2 ^ 50
    same = omega (arith, low_bits_agree x y e)

pub xor_shl_cancel : (x y : ℕ) → bit_xor x (u64 (x * 2 ^ 25)) ≡ bit_xor y (u64 (y * 2 ^ 25)) → x ≡ y
xor_shl_cancel x y e = bit_xor_cancel_right (u64 (x * 2 ^ 25)) x y (e ∙ ap (bit_xor y) same)
  where
    same : u64 (y * 2 ^ 25) ≡ u64 (x * 2 ^ 25)
    same = omega (arith, mid_bits_agree x y e)

-- The generator's step merges no two states.
pub next_u64-injective : (p q : Prng) → (next_u64 p).1.state ≡ (next_u64 q).1.state → p ≡ q
unfolding next_u64
next_u64-injective p q e =
    ap (λ (s : ℕ). record { state = s })
      (bit_xor-shr_cancel 11 p.state q.state (xor_shl_cancel _ _ (bit_xor-shr_cancel 26 _ _ e)))

-- What every seeded generator is, before and after any number of calls.
abbrev pub IsLive : Prng → Type 0
IsLive p = (0 < p.state) × (p.state < 2 ^ 64)

next_u64-zero : (next_u64 (record { state = 0 })).1.state ≡ 0
unfolding next_u64
next_u64-zero = refl

next_u64-lt : (p : Prng) → p.state < 2 ^ 64 → (next_u64 p).1.state < 2 ^ 64
unfolding next_u64
next_u64-lt p h =
    bit_xor-shr-lt 64 27 _ (bit_xor-lt 64 _ _ (bit_xor-shr-lt 64 12 p.state h) (omega arith))

word-lt : (p : Prng) → (next_u64 p).0 < 2 ^ 64
unfolding next_u64
word-lt p = omega arith

-- A live generator stays live, and draws a 64-bit word.
pub next_u64-IsLive : (p : Prng) → IsLive p → ((next_u64 p).0 < 2 ^ 64) × IsLive (next_u64 p).1
next_u64-IsLive p h = (word-lt p, (positive, next_u64-lt p h.1))
  where
    positive : 0 < (next_u64 p).1.state
    positive = elim (eq-zero-or-pos (next_u64 p).1.state) [
      | inl e ↦
          let same = next_u64-injective p (record { state = 0 }) (e ∙ sym next_u64-zero) in
          absurd (omega (arith, ap (λ (q : Prng). q.state) same))
      | inr h' ↦ h'
    ]
