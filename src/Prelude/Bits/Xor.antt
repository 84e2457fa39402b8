-- ===== src/Prelude/Bits/Xor.antt =====
-- `^` at variables: bounds, cancellation, and how it passes under shifts.
use Prim.Native.Nat.{ℕ, zero, suc, ◌+◌, ◌/◌, ◌%◌, ◌^◌, ◌≤◌, ◌<◌, bit_xor, differ}
use mathlib.Core.Path.{◌≡◌, refl, sym, ap, ap₂, ◌∙◌}
use native.Mathlib.Nat.{pow-suc, div-one, mod-one, div-le_self}
use native.Mathlib.Omega.{arith}
use linbox.Prelude.Bits.{bit_xor_digit}
use linbox.Prelude.Bits.Fields.{half-div-two-pow, mod-two-pow-suc}

differ-lt : (x y : ℕ) → x < 2 → y < 2 → differ x y < 2
differ-lt zero y hx hy = hy
differ-lt (suc zero) zero hx hy = omega arith
differ-lt (suc zero) (suc zero) hx hy = omega arith
differ-lt (suc zero) (suc (suc y)) hx hy = absurd (omega arith)
differ-lt (suc (suc x)) y hx hy = absurd (omega arith)

differ_cancel : (x y z : ℕ) → x < 2 → y < 2 → z < 2 → differ x y ≡ differ x z → y ≡ z
differ_cancel zero y z hx hy hz e = e
differ_cancel (suc zero) zero zero hx hy hz e = refl
differ_cancel (suc zero) (suc zero) (suc zero) hx hy hz e = refl
differ_cancel (suc zero) zero (suc zero) hx hy hz e = absurd (omega arith)
differ_cancel (suc zero) (suc zero) zero hx hy hz e = absurd (omega arith)
differ_cancel (suc zero) y (suc (suc z)) hx hy hz e = absurd (omega arith)
differ_cancel (suc zero) (suc (suc y)) z hx hy hz e = absurd (omega arith)
differ_cancel (suc (suc x)) y z hx hy hz e = absurd (omega arith)

differ_self : (x : ℕ) → differ x x ≡ 0
differ_self zero = refl
differ_self (suc x) = differ_self x

pub digit-lt : (a b : ℕ) → differ (a % 2) (b % 2) < 2
digit-lt a b = differ-lt (a % 2) (b % 2) (omega arith) (omega arith)

pub bit_xor-half : (a b : ℕ) → bit_xor a b / 2 ≡ bit_xor (a / 2) (b / 2)
bit_xor-half a b = omega (arith, bit_xor_digit a b, digit-lt a b)

pub bit_xor-mod-two : (a b : ℕ) → bit_xor a b % 2 ≡ differ (a % 2) (b % 2)
bit_xor-mod-two a b = omega (arith, bit_xor_digit a b, digit-lt a b)

bit_xor_self_upto : (n a : ℕ) → a ≤ n → bit_xor a a ≡ 0
bit_xor_self_upto n zero h = refl
bit_xor_self_upto zero (suc a) h = absurd (omega arith)
bit_xor_self_upto (suc n) (suc a) h = omega (
  arith,
  bit_xor_digit (suc a) (suc a),
  differ_self (suc a % 2),
  bit_xor_self_upto n (suc a / 2) (omega arith),
)

pub bit_xor_self : (a : ℕ) → bit_xor a a ≡ 0
bit_xor_self a = bit_xor_self_upto a a (omega arith)

pub bit_xor-lt : (k a b : ℕ) → a < 2 ^ k → b < 2 ^ k → bit_xor a b < 2 ^ k
bit_xor-lt zero zero zero ha hb = omega arith
bit_xor-lt zero (suc a) b ha hb = absurd (omega arith)
bit_xor-lt zero zero (suc b) ha hb = absurd (omega arith)
bit_xor-lt (suc k) a b ha hb = omega (
  arith,
  bit_xor_digit a b,
  digit-lt a b,
  pow-suc 2 k,
  bit_xor-lt k (a / 2) (b / 2) (omega (arith, pow-suc 2 k)) (omega (arith, pow-suc 2 k)),
)

cancel_upto : (n a b c : ℕ) → b ≤ n → c ≤ n → bit_xor a b ≡ bit_xor a c → b ≡ c
cancel_upto zero a b c hb hc e = omega arith
cancel_upto (suc n) a b c hb hc e = omega (
  arith,
  cancel_upto n (a / 2) (b / 2) (c / 2) (omega arith) (omega arith)
      (sym (bit_xor-half a b) ∙ ap (λ (t : ℕ). t / 2) e ∙ bit_xor-half a c),
  differ_cancel (a % 2) (b % 2) (c % 2) (omega arith) (omega arith) (omega arith)
      (sym (bit_xor-mod-two a b) ∙ ap (λ (t : ℕ). t % 2) e ∙ bit_xor-mod-two a c),
)

-- `^` by a fixed number merges no two numbers.
pub bit_xor_cancel : (a b c : ℕ) → bit_xor a b ≡ bit_xor a c → b ≡ c
bit_xor_cancel a b c e = cancel_upto (b + c) a b c (omega arith) (omega arith) e

differ_comm : (x y : ℕ) → x < 2 → y < 2 → differ x y ≡ differ y x
differ_comm zero zero hx hy = refl
differ_comm zero (suc y) hx hy = refl
differ_comm (suc x) zero hx hy = refl
differ_comm (suc zero) (suc zero) hx hy = refl
differ_comm (suc zero) (suc (suc y)) hx hy = absurd (omega arith)
differ_comm (suc (suc x)) (suc y) hx hy = absurd (omega arith)

bit_xor_comm_upto : (n a b : ℕ) → a ≤ n → b ≤ n → bit_xor a b ≡ bit_xor b a
bit_xor_comm_upto zero zero zero ha hb = refl
bit_xor_comm_upto zero (suc a) b ha hb = absurd (omega arith)
bit_xor_comm_upto zero zero (suc b) ha hb = absurd (omega arith)
bit_xor_comm_upto (suc n) a b ha hb = omega (
  arith,
  bit_xor_digit a b,
  bit_xor_digit b a,
  differ_comm (a % 2) (b % 2) (omega arith) (omega arith),
  bit_xor_comm_upto n (a / 2) (b / 2) (omega arith) (omega arith),
)

pub bit_xor_comm : (a b : ℕ) → bit_xor a b ≡ bit_xor b a
bit_xor_comm a b = bit_xor_comm_upto (a + b) a b (omega arith) (omega arith)

pub bit_xor_cancel_right : (a b c : ℕ) → bit_xor b a ≡ bit_xor c a → b ≡ c
bit_xor_cancel_right a b c e = bit_xor_cancel a b c (bit_xor_comm a b ∙ e ∙ bit_xor_comm c a)

pub bit_xor-div : (k a b : ℕ) → bit_xor a b / 2 ^ k ≡ bit_xor (a / 2 ^ k) (b / 2 ^ k)
bit_xor-div zero a b = div-one (bit_xor a b) ∙ ap₂ bit_xor (sym (div-one a)) (sym (div-one b))
bit_xor-div (suc k) a b =
    sym (half-div-two-pow k (bit_xor a b))
    ∙ ap (λ (t : ℕ). t / 2 ^ k) (bit_xor-half a b)
    ∙ bit_xor-div k (a / 2) (b / 2)
    ∙ ap₂ bit_xor (half-div-two-pow k a) (half-div-two-pow k b)

halves_of_mod : (k a : ℕ) → (a % 2 ^ suc k / 2 ≡ a / 2 % 2 ^ k) × (a % 2 ^ suc k % 2 ≡ a % 2)
halves_of_mod k a = omega (arith, mod-two-pow-suc k a)

pub bit_xor-mod : (k a b : ℕ) → bit_xor a b % 2 ^ k ≡ bit_xor (a % 2 ^ k) (b % 2 ^ k)
bit_xor-mod zero a b = mod-one (bit_xor a b) ∙ ap₂ bit_xor (sym (mod-one a)) (sym (mod-one b))
bit_xor-mod (suc k) a b = omega (
  arith,
  mod-two-pow-suc k (bit_xor a b),
  bit_xor-mod-two a b,
  ap (λ (t : ℕ). t % 2 ^ k) (bit_xor-half a b) ∙ bit_xor-mod k (a / 2) (b / 2),
  bit_xor_digit (a % 2 ^ suc k) (b % 2 ^ suc k),
  ap₂ bit_xor (halves_of_mod k a).0 (halves_of_mod k b).0,
  ap₂ differ (halves_of_mod k a).1 (halves_of_mod k b).1,
)

shr_cancel_upto :
    (n j x y : ℕ) → x ≤ n → y ≤ n → bit_xor x (x / 2 ^ suc j) ≡ bit_xor y (y / 2 ^ suc j) → x ≡ y
shr_cancel_upto zero j x y hx hy e = omega arith
shr_cancel_upto (suc n) j x y hx hy e =
    let same_high =
      shr_cancel_upto n j (x / 2 ^ suc j) (y / 2 ^ suc j) (shorter x hx) (shorter y hy) (
        sym (bit_xor-div (suc j) x (x / 2 ^ suc j))
        ∙ ap (λ (t : ℕ). t / 2 ^ suc j) e
        ∙ bit_xor-div (suc j) y (y / 2 ^ suc j)) in
    bit_xor_cancel_right (x / 2 ^ suc j) x y (e ∙ ap (bit_xor y) (sym same_high))
  where
    shorter : (z : ℕ) → z ≤ suc n → z / 2 ^ suc j ≤ n
    shorter z h = omega (arith, half-div-two-pow j z, div-le_self (z / 2) (2 ^ j))

-- `x ^ (x >> k)` merges no two numbers, for a shift that is not 0.
pub bit_xor-shr_cancel : (j x y : ℕ) → bit_xor x (x / 2 ^ suc j) ≡ bit_xor y (y / 2 ^ suc j) → x ≡ y
bit_xor-shr_cancel j x y e = shr_cancel_upto (x + y) j x y (omega arith) (omega arith) e

pub bit_xor-shr-lt : (k j x : ℕ) → x < 2 ^ k → bit_xor x (x / 2 ^ j) < 2 ^ k
bit_xor-shr-lt k j x h = bit_xor-lt k x (x / 2 ^ j) h (omega (arith, div-le_self x (2 ^ j)))
