-- ===== src/Prelude/Bits/Matrix.antt =====
-- Shifts that are linear, and matrices over two elements that act on words.
use linbox.Prelude.{◌==◌, if◌then◌else◌, and_split, Bool-cases}
use Prim.Native.Nat.{ℕ, zero, suc, ◌*◌, ◌/◌, ◌%◌, ◌^◌, ◌<◌, bit_xor, differ}
use mathlib.Core.Path.{◌≡◌, refl, sym, ap, ap₂, ◌∙◌}
use mathlib.Core.Bool.{Bool, true, ◌&&◌}
use mathlib.Core.Logic.{inl, inr}
use mathlib.Core.List.{List, [], ◌∷◌}
use native.Mathlib.Omega.{arith}
use native.Mathlib.Nat.{pow-suc, mul_assoc}
use linbox.Prelude.Words.{u64}
use linbox.Prelude.Bits.Xor.{
  bit_xor-div, bit_xor-mod, bit_xor_self, bit_xor_comm, bit_xor-half, bit_xor-mod-two,
}
use linbox.Prelude.Bits.Linear.{IsLinear, linear-zero, zero-bit_xor, bit_xor_swap, double-linear}

mul-one : (a : ℕ) → a * 2 ^ 0 ≡ a
mul-one a = omega arith

weight : (k : ℕ) → 2 ^ suc k ≡ 2 ^ k * 2
weight k = omega (arith, pow-suc 2 k)

moved : (a k : ℕ) → a * 2 ^ k * 2 ≡ a * 2 ^ suc k
moved a k = mul_assoc a (2 ^ k) 2 ∙ ap (λ w. a * w) (sym (weight k))

shl-linear : (k : ℕ) → IsLinear (λ x. x * 2 ^ k)
shl-linear zero a b = omega (arith, ap₂ bit_xor (mul-one a) (mul-one b))
shl-linear (suc k) a b =
    ap (λ w. bit_xor a b * w) (weight k)
    ∙ sym (mul_assoc (bit_xor a b) (2 ^ k) 2)
    ∙ ap (λ x. x * 2) (shl-linear k a b)
    ∙ double-linear (a * 2 ^ k) (b * 2 ^ k)
    ∙ ap₂ bit_xor (moved a k) (moved b k)

pub xor_of : (f g : ℕ → ℕ) → IsLinear f → IsLinear g → IsLinear (λ x. bit_xor (f x) (g x))
xor_of f g hf hg a b = ap₂ bit_xor (hf a b) (hg a b) ∙ bit_xor_swap (f a) (f b) (g a) (g b)

pub shr_stage : (k : ℕ) → IsLinear (λ x. bit_xor x (x / 2 ^ k))
shr_stage k = xor_of (λ x. x) (λ x. x / 2 ^ k) (λ a b. refl) (bit_xor-div k)

pub shl_stage : IsLinear (λ x. bit_xor x (u64 (x * 2 ^ 25)))
shl_stage =
    xor_of (λ x. x) (λ x. u64 (x * 2 ^ 25)) (λ a b. refl)
      (λ a b. ap u64 (shl-linear 25 a b) ∙ bit_xor-mod 64 (a * 2 ^ 25) (b * 2 ^ 25))

pub after : (f g : ℕ → ℕ) → IsLinear f → IsLinear g → IsLinear (λ x. f (g x))
after f g hf hg a b = ap f (hg a b) ∙ hf (g a) (g b)

-- The matrix over two elements whose columns are these words.
unfoldable pub times : List ℕ → ℕ → ℕ
times [] y = 0
times (c ∷ columns) y = bit_xor (if y % 2 == 1 then c else 0) (times columns (y / 2))

chosen_digit :
    (c x y : ℕ)
    → x < 2
    → y < 2
    → (if differ x y == 1 then c else 0)
      ≡ bit_xor (if x == 1 then c else 0) (if y == 1 then c else 0)
chosen_digit c zero zero hx hy = sym (bit_xor_self 0)
chosen_digit c zero (suc zero) hx hy = sym (zero-bit_xor c)
chosen_digit c (suc zero) zero hx hy = sym (bit_xor_comm c 0 ∙ zero-bit_xor c)
chosen_digit c (suc zero) (suc zero) hx hy = sym (bit_xor_self c)
chosen_digit c zero (suc (suc y)) hx hy = absurd (omega arith)
chosen_digit c (suc zero) (suc (suc y)) hx hy = absurd (omega arith)
chosen_digit c (suc (suc x)) y hx hy = absurd (omega arith)

chosen-linear : (c : ℕ) → IsLinear (λ y. if y % 2 == 1 then c else 0)
chosen-linear c a b =
    rw (bit_xor-mod-two a b) (chosen_digit c (a % 2) (b % 2) (omega arith) (omega arith))

pub times-linear : (columns : List ℕ) → IsLinear (times columns)
unfolding times
times-linear [] a b = sym (bit_xor_self 0)
times-linear (c ∷ columns) a b =
    ap₂ bit_xor (chosen-linear c a b)
      (ap (times columns) (bit_xor-half a b) ∙ times-linear columns (a / 2) (b / 2))
    ∙ bit_xor_swap (if a % 2 == 1 then c else 0) (if b % 2 == 1 then c else 0)
        (times columns (a / 2)) (times columns (b / 2))

unfoldable pub all_below : ℕ → (ℕ → Bool) → Bool
all_below zero p = true
all_below (suc n) p = p n && all_below n p

pub check : (n : ℕ) (p : ℕ → Bool) → all_below n p ≡ true → (k : ℕ) → k < n → p k ≡ true
unfolding all_below
check zero p e k h = absurd (omega arith)
check (suc n) p e k h =
    let (last, rest) = and_split (p n) (all_below n p) e in
    elim (Bool-cases (k == n)) [
      | inl same ↦ let here : k ≡ n = ground arith in rw here last
      | inr other ↦ check n p rest k (ground arith)
    ]

pub times-zero : (columns : List ℕ) → times columns 0 ≡ 0
times-zero columns = linear-zero (times columns) (times-linear columns)
