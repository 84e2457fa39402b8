-- ===== src/Prelude/Bits/Linear.antt =====
-- Functions of words that `^` passes through: two of them are the same if they agree on the single bits.
use Prim.Native.Nat.{ℕ, zero, suc, ◌+◌, ◌*◌, ◌/◌, ◌%◌, ◌^◌, ◌≤◌, ◌<◌, bit_xor, differ}
use mathlib.Core.Path.{◌≡◌, refl, sym, ap, ap₂, ◌∙◌}
use native.Mathlib.Nat.{pow-suc}
use native.Mathlib.Omega.{arith}
use linbox.Prelude.Bits.{bit_xor_digit}
use linbox.Prelude.Bits.Xor.{
  bit_xor_self, bit_xor_comm, bit_xor_cancel, bit_xor-half, bit_xor-mod-two,
}

-- `^` of two digits, and of the rests.
differ_assoc : (x y z : ℕ) → x < 2 → y < 2 → z < 2 → differ (differ x y) z ≡ differ x (differ y z)
differ_assoc zero y z hx hy hz = refl
differ_assoc (suc zero) zero z hx hy hz = refl
differ_assoc (suc zero) (suc zero) zero hx hy hz = refl
differ_assoc (suc zero) (suc zero) (suc zero) hx hy hz = refl
differ_assoc (suc zero) (suc zero) (suc (suc z)) hx hy hz = absurd (omega arith)
differ_assoc (suc zero) (suc (suc y)) z hx hy hz = absurd (omega arith)
differ_assoc (suc (suc x)) y z hx hy hz = absurd (omega arith)

bit_xor_assoc_upto :
    (n a b c : ℕ) → a ≤ n → b ≤ n → c ≤ n → bit_xor (bit_xor a b) c ≡ bit_xor a (bit_xor b c)
bit_xor_assoc_upto zero a b c ha hb hc =
    let za : a ≡ 0 = omega arith in
    let zb : b ≡ 0 = omega arith in let zc : c ≡ 0 = omega arith in rw (za, zb, zc) refl
bit_xor_assoc_upto (suc n) a b c ha hb hc =
    bit_xor_digit (bit_xor a b) c
    ∙ ap₂ (λ (x y : ℕ). x * 2 + y)
        (ap (λ x. bit_xor x (c / 2)) (bit_xor-half a b)
          ∙ bit_xor_assoc_upto n (a / 2) (b / 2) (c / 2) (omega arith) (omega arith) (omega arith)
          ∙ ap (bit_xor (a / 2)) (sym (bit_xor-half b c)))
        (ap (λ x. differ x (c % 2)) (bit_xor-mod-two a b)
          ∙ differ_assoc (a % 2) (b % 2) (c % 2) (omega arith) (omega arith) (omega arith)
          ∙ ap (differ (a % 2)) (sym (bit_xor-mod-two b c)))
    ∙ sym (bit_xor_digit a (bit_xor b c))

pub bit_xor_assoc : (a b c : ℕ) → bit_xor (bit_xor a b) c ≡ bit_xor a (bit_xor b c)
bit_xor_assoc a b c = bit_xor_assoc_upto (a + b + c) a b c (omega arith) (omega arith) (omega arith)

-- The middle two of four change places.
pub bit_xor_swap :
    (a b c d : ℕ) → bit_xor (bit_xor a b) (bit_xor c d) ≡ bit_xor (bit_xor a c) (bit_xor b d)
bit_xor_swap a b c d =
    bit_xor_assoc a b (bit_xor c d)
    ∙ ap (bit_xor a)
        (sym (bit_xor_assoc b c d) ∙ ap (λ x. bit_xor x d) (bit_xor_comm b c) ∙ bit_xor_assoc c b d)
    ∙ sym (bit_xor_assoc a c (bit_xor b d))

-- Words by their lowest digit.
join :
    (p q a b x y : ℕ)
    → p ≡ a * 2 + x
    → q ≡ b * 2 + y
    → x < 2
    → y < 2
    → bit_xor p q ≡ bit_xor a b * 2 + differ x y
join p q a b x y hp hq hx hy =
    let p_high : p / 2 ≡ a = omega arith in
    let q_high : q / 2 ≡ b = omega arith in
    let p_low : p % 2 ≡ x = omega arith in
    let q_low : q % 2 ≡ y = omega arith in
    bit_xor_digit p q
    ∙ ap₂ (λ (u v : ℕ). u * 2 + v) (ap₂ bit_xor p_high q_high) (ap₂ differ p_low q_low)

pub zero-bit_xor : (b : ℕ) → bit_xor 0 b ≡ b
zero-bit_xor b = bit_xor_cancel 0 (bit_xor 0 b) b (sym (bit_xor_assoc 0 0 b))

-- What `^` passes through.
abbrev pub IsLinear : (ℕ → ℕ) → Type 0
IsLinear f = (a b : ℕ) → f (bit_xor a b) ≡ bit_xor (f a) (f b)

pub linear-zero : (f : ℕ → ℕ) → IsLinear f → f 0 ≡ 0
linear-zero f h = h 0 0 ∙ bit_xor_self (f 0)

pub double-linear : IsLinear (λ x. x * 2)
double-linear a b =
    omega
      (arith, join (a * 2) (b * 2) a b 0 0 (omega arith) (omega arith) (omega arith) (omega arith))

differ_zero : (x : ℕ) → x < 2 → differ x 0 ≡ x
differ_zero zero h = refl
differ_zero (suc zero) h = refl
differ_zero (suc (suc x)) h = absurd (omega arith)

lowest_apart : (x : ℕ) → bit_xor (x % 2) (x / 2 * 2) ≡ x
lowest_apart x = omega (
  arith,
  join (x % 2) (x / 2 * 2) 0 (x / 2) (x % 2) 0 (omega arith) (omega arith) (omega arith)
      (omega arith),
  zero-bit_xor (x / 2),
  differ_zero (x % 2) (omega arith),
)

doubled : (f : ℕ → ℕ) → IsLinear f → IsLinear (λ x. f (x * 2))
doubled f h a b = ap f (double-linear a b) ∙ h (a * 2) (b * 2)

next_bit : (k : ℕ) → 2 ^ k * 2 ≡ 2 ^ suc k
next_bit k = omega (arith, pow-suc 2 k)

digit-same : (f g : ℕ → ℕ) → IsLinear f → IsLinear g → f 1 ≡ g 1 → (x : ℕ) → x < 2 → f x ≡ g x
digit-same f g hf hg e zero h = linear-zero f hf ∙ sym (linear-zero g hg)
digit-same f g hf hg e (suc zero) h = e
digit-same f g hf hg e (suc (suc x)) h = absurd (omega arith)

-- Two of them that agree on the single bits agree on all words.
pub linear-ext :
    (n : ℕ) (f g : ℕ → ℕ)
    → IsLinear f
    → IsLinear g
    → ((k : ℕ) → k < n → f (2 ^ k) ≡ g (2 ^ k))
    → (x : ℕ) → x < 2 ^ n
    → f x ≡ g x
linear-ext zero f g hf hg h x small =
    let z : x ≡ 0 = omega arith in rw z (linear-zero f hf ∙ sym (linear-zero g hg))
linear-ext (suc n) f g hf hg h x small =
    let rest : f (x / 2 * 2) ≡ g (x / 2 * 2) =
      linear-ext n (λ y. f (y * 2)) (λ y. g (y * 2)) (doubled f hf) (doubled g hg)
        (λ k l. ap f (next_bit k) ∙ h (suc k) (omega arith) ∙ ap g (sym (next_bit k))) (x / 2)
        (omega (arith, pow-suc 2 n)) in
    ap f (sym (lowest_apart x))
    ∙ hf (x % 2) (x / 2 * 2)
    ∙ ap₂ bit_xor (digit-same f g hf hg (h 0 (omega arith)) (x % 2) (omega arith)) rest
    ∙ sym (hg (x % 2) (x / 2 * 2))
    ∙ ap g (lowest_apart x)
