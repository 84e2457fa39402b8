-- ===== src/Prng/Uniform.antt =====
-- `linbox_prng_uniform`: rejection sampling, its result, its end and its fairness.
use native.Mathlib.Nat.{
  mod-lt, mod-le, zero-mul, zero-add, add-sub_of_le, mod-eq-sub-mod, mod-eq_of_lt, div-add-mod',
  mul-add-mod_self_right, add-zero, add-suc,
}
use linbox.Prelude.{
  ℕ, zero, suc, ◌+◌, ◌-◌, ◌*◌, ◌/◌, ◌%◌, ◌^◌, ◌≤◌, ◌<◌, ◌≡◌, refl, sym, ap, ◌∙◌, arith, Bool, ◌&&◌,
  some, ltb, leb, ◌==◌, if◌then◌else◌,
}
use linbox.Prng.{Prng, next_u32, threshold, uniform_loop, uniform}

-- The `k`-th 32-bit draw from here, and the generator behind it.
unfoldable pub draw : ℕ → Prng → ℕ
draw zero p = (next_u32 p).0
draw (suc k) p = draw k (next_u32 p).1

pub after_draw : ℕ → Prng → Prng
after_draw zero p = (next_u32 p).1
after_draw (suc k) p = after_draw k (next_u32 p).1

-- The threshold is the remainder that makes the number of accepted draws a multiple of the bound.
threshold_lem : (b : ℕ) → 0 < b → b < 2 ^ 32 → threshold b ≡ 2 ^ 32 % b
unfolding threshold
threshold_lem b pos h =
    ap (λ (t : ℕ). t % b) (mod-eq_of_lt {n = 2 ^ 32 - b} {m = 2 ^ 32} (omega arith))
    ∙ sym (mod-eq-sub-mod {n = 2 ^ 32} {m = b} (omega arith))

loop_accepts :
    (k fuel b : ℕ) (p : Prng)
    → k < fuel
    → ((j : ℕ) → j < k → draw j p < threshold b)
    → threshold b ≤ draw k p
    → uniform_loop fuel p b ≡ some (draw k p % b, after_draw k p)
unfolding uniform_loop draw after_draw
loop_accepts zero zero b p lt low high = absurd (omega arith)
loop_accepts zero (suc fuel) b p lt low high = ground arith
loop_accepts (suc k) zero b p lt low high = absurd (omega arith)
loop_accepts (suc k) (suc fuel) b p lt low high = ground (
  arith,
  low 0 (omega arith),
  loop_accepts k fuel b (next_u32 p).1 (omega arith) (λ j h. low (suc j) (omega arith)) high,
)

-- For a bound above 0, if a draw among the next `fuel` reaches the threshold, the loop ends at the first such draw: it
-- returns that draw modulo the bound, which is below the bound, and consumes no draw behind it.
pub uniform-first_accepted :
    (k fuel b : ℕ) (p : Prng)
    → 0 < b
    → k < fuel
    → ((j : ℕ) → j < k → draw j p < threshold b)
    → threshold b ≤ draw k p
    → (uniform fuel p b ≡ some (draw k p % b, after_draw k p)) × (draw k p % b < b)
unfolding uniform
uniform-first_accepted k fuel b p pos lt low high =
    (ground (arith, loop_accepts k fuel b p lt low high), mod-lt (draw k p) pos)

-- How many numbers below `n` pass the test.
pub count_below : ℕ → (ℕ → Bool) → ℕ
count_below zero f = 0
count_below (suc n) f = (if f n then 1 else 0) + count_below n f

module _ (b r : ℕ) (pos : 0 < b) (fits : r < b) where
  abbrev hits : ℕ → Bool
  hits v = v % b == r

  in_block : (q s : ℕ) → s < b → (q * b + s) % b ≡ s
  in_block q s h = mul-add-mod_self_right q b s ∙ mod-eq_of_lt h

  -- Below `q` whole blocks and `s` more numbers.
  hits_upto : (q s : ℕ) → s ≤ b → count_below (q * b + s) hits ≡ q + (if ltb r s then 1 else 0)
  unfolding count_below
  hits_upto zero zero h = let e : 0 * b + 0 ≡ 0 = omega arith in rw e (ground arith)
  hits_upto (suc q) zero h =
      let e : suc q * b + 0 ≡ q * b + b = omega arith in
      rw e (hits_upto q b (omega arith) ∙ ground arith)
  hits_upto q (suc s) h =
      rw (add-suc (q * b) s)
        (ground (arith, in_block q s (omega arith), hits_upto q s (omega arith)))

  accepts : ℕ → ℕ → Bool
  accepts t v = leb t v && (v % b == r)

  accepts_none : (t n : ℕ) → n ≤ t → count_below n (accepts t) ≡ 0
  unfolding count_below accepts
  accepts_none t zero h = refl
  accepts_none t (suc n) h = ground (arith, accepts_none t n (omega arith))

  accepts_upto :
      (t n : ℕ) → count_below (t + n) (accepts t) + count_below t hits ≡ count_below (t + n) hits
  unfolding count_below accepts
  accepts_upto t zero = rw (add-zero t) (omega (arith, accepts_none t t (omega arith)))
  accepts_upto t (suc n) = rw (add-suc t n) (ground (arith, accepts_upto t n))

  fair_at : (n t : ℕ) → t ≡ n % b → count_below n (accepts t) ≡ n / b
  fair_at n t e =
      let whole : count_below n hits ≡ n / b + (if ltb r (n % b) then 1 else 0) =
        rw (div-add-mod' n b) at (hits_upto (n / b) (n % b) (omega arith)) in
      let part : count_below t hits ≡ 0 + (if ltb r t then 1 else 0) =
        rw (zero-mul b, zero-add t) at (hits_upto 0 t (omega arith)) in
      let split : count_below n (accepts t) + count_below t hits ≡ count_below n hits =
        rw (add-sub_of_le {n = n} {m = t} (omega (arith, mod-le n b))) at
          (accepts_upto t (n - t)) in
      ground (arith, whole, part, split)

-- For a bound of 32 bits above 0, of the 2 ^ 32 values of a draw every residue below the bound has as many accepted ones.
pub uniform-fair :
    (b r : ℕ)
    → 0 < b
    → b < 2 ^ 32
    → r < b
    → count_below (2 ^ 32) (λ v. leb (threshold b) v && (v % b == r)) ≡ 2 ^ 32 / b
unfolding accepts
uniform-fair b r pos small fits =
    fair_at b r pos fits (2 ^ 32) (threshold b) (threshold_lem b pos small)
