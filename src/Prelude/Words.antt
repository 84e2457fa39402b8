-- ===== src/Prelude/Words.antt =====
-- The unsigned casts of C, and the two readings of a 64-bit or a 32-bit pattern.
use Prim.Native.Nat.{ℕ, zero, suc, ◌-◌, ◌/◌, ◌%◌, ◌^◌, ◌<◌}
use mathlib.Core.Path.{◌≡◌, refl, ap}
use mathlib.Core.Logic.{inl, inr}
use mathlib.Core.List.{List, [], ◌∷◌}
use native.Mathlib.Omega.{arith}
use linbox.Prelude.Tests.{ltb, Bool-cases, if◌then◌else◌}
use linbox.Prelude.Lists.{length}
use linbox.Prelude.Int.{ℤ, pos, negsuc}

abbrev pub u8 : ℕ → ℕ
u8 n = n % 2 ^ 8

abbrev pub u16 : ℕ → ℕ
u16 n = n % 2 ^ 16

abbrev pub u32 : ℕ → ℕ
u32 n = n % 2 ^ 32

abbrev pub u64 : ℕ → ℕ
u64 n = n % 2 ^ 64

-- `(uint64_t)x` and `(uint32_t)x` of a signed `x`: the pattern in two's complement.
abbrev pub unsigned64 : ℤ → ℕ
unsigned64 (pos n) = u64 n
unsigned64 (negsuc n) = 2 ^ 64 - 1 - u64 n

abbrev pub unsigned32 : ℤ → ℕ
unsigned32 (pos n) = u32 n
unsigned32 (negsuc n) = 2 ^ 32 - 1 - u32 n

-- `(int64_t)w` and `(int32_t)w` of a pattern `w`.
abbrev pub signed64 : ℕ → ℤ
signed64 w = if ltb w (2 ^ 63) then pos w else negsuc (2 ^ 64 - 1 - w)

abbrev pub signed32 : ℕ → ℤ
signed32 w = if ltb w (2 ^ 31) then pos w else negsuc (2 ^ 32 - 1 - w)

abbrev pub IsI64 : ℤ → Type 0
IsI64 (pos n) = n < 2 ^ 63
IsI64 (negsuc n) = n < 2 ^ 63

abbrev pub IsI32 : ℤ → Type 0
IsI32 (pos n) = n < 2 ^ 31
IsI32 (negsuc n) = n < 2 ^ 31

pub signed64-unsigned64 : (x : ℤ) → IsI64 x → signed64 (unsigned64 x) ≡ x
signed64-unsigned64 (pos n) h = ground arith
signed64-unsigned64 (negsuc n) h = ground arith

pub signed32-unsigned32 : (x : ℤ) → IsI32 x → signed32 (unsigned32 x) ≡ x
signed32-unsigned32 (pos n) h = ground arith
signed32-unsigned32 (negsuc n) h = ground arith

pub unsigned64-signed64 : (w : ℕ) → w < 2 ^ 64 → unsigned64 (signed64 w) ≡ w
unsigned64-signed64 w h = ground arith

pub unsigned32-signed32 : (w : ℕ) → w < 2 ^ 32 → unsigned32 (signed32 w) ≡ w
unsigned32-signed32 w h = ground arith

pub signed64-IsI64 : (w : ℕ) → w < 2 ^ 64 → IsI64 (signed64 w)
signed64-IsI64 w h = elim (Bool-cases (ltb w (2 ^ 63))) [
  | inl e ↦ rw e (ground arith)
  | inr e ↦ rw e (ground arith)
]

pub signed32-IsI32 : (w : ℕ) → w < 2 ^ 32 → IsI32 (signed32 w)
signed32-IsI32 w h = elim (Bool-cases (ltb w (2 ^ 31))) [
  | inl e ↦ rw e (ground arith)
  | inr e ↦ rw e (ground arith)
]

pub unsigned64-lt : (x : ℤ) → unsigned64 x < 2 ^ 64
unsigned64-lt (pos n) = omega arith
unsigned64-lt (negsuc n) = omega arith

pub unsigned32-lt : (x : ℤ) → unsigned32 x < 2 ^ 32
unsigned32-lt (pos n) = omega arith
unsigned32-lt (negsuc n) = omega arith

-- The lowest `n` bytes of a number, lowest first.
abbrev pub le_bytes : ℕ → ℕ → List ℕ
le_bytes zero w = []
le_bytes (suc n) w = (w % 256) ∷ le_bytes n (w / 256)

pub length-le_bytes : (n w : ℕ) → length (le_bytes n w) ≡ n
length-le_bytes zero w = refl
length-le_bytes (suc n) w = ap suc (length-le_bytes n (w / 256))
