-- ===== src/Sbp/Wire.antt =====
-- The byte-wise reads and writes as little-endian arithmetic.
use linbox.Prelude.{
  ℕ, ◌+◌, ◌*◌, ◌/◌, ◌%◌, ◌^◌, ◌<◌, bit_or, ◌≡◌, refl, ap₂, ◌∙◌, arith, List, ◌∷◌, ◌++◌,
}
use native.Mathlib.Nat.{zero-add, mul-one}
use linbox.Prelude.Words.{le_bytes}
use linbox.Prelude.Bits.Fields.{bit_or_join, bit_and_low}
use linbox.Sbp.{read_le16, read_le32, read_le64, byte_of}

pub byte_of_lem : (v i : ℕ) → byte_of v i ≡ v / 2 ^ (8 * i) % 256
byte_of_lem v i = omega (arith, bit_and_low 8 (v / 2 ^ (8 * i)))

module _ {b0 b1 : ℕ} (h0 : b0 < 256) (h1 : b1 < 256) where
  join16 : bit_or b0 (b1 * 2 ^ 8) ≡ b0 + b1 * 2 ^ 8
  join16 = bit_or_join 8 b0 b1 h0

  module _ {b2 b3 : ℕ} (h2 : b2 < 256) (h3 : b3 < 256) where
    join32 :
        bit_or (bit_or (bit_or b0 (b1 * 2 ^ 8)) (b2 * 2 ^ 16)) (b3 * 2 ^ 24)
        ≡ b0 + b1 * 2 ^ 8 + b2 * 2 ^ 16 + b3 * 2 ^ 24
    join32 = rw (
      join16,
      bit_or_join 16 (b0 + b1 * 2 ^ 8) b2 (omega arith),
      bit_or_join 24 (b0 + b1 * 2 ^ 8 + b2 * 2 ^ 16) b3 (omega arith),
    )

pub read_le16-value :
    (b0 b1 : ℕ) (rest : List ℕ) → b0 < 256 → b1 < 256 → read_le16 (b0 ∷ b1 ∷ rest) ≡ b0 + b1 * 2 ^ 8
unfolding read_le16
read_le16-value b0 b1 rest h0 h1 = join16 h0 h1

pub read_le32-value :
    (b0 b1 b2 b3 : ℕ) (rest : List ℕ)
    → b0 < 256
    → b1 < 256
    → b2 < 256
    → b3 < 256
    → read_le32 (b0 ∷ b1 ∷ b2 ∷ b3 ∷ rest) ≡ b0 + b1 * 2 ^ 8 + b2 * 2 ^ 16 + b3 * 2 ^ 24
unfolding read_le32
read_le32-value b0 b1 b2 b3 rest h0 h1 h2 h3 = join32 h0 h1 h2 h3

pub read_le64-value :
    (b0 b1 b2 b3 b4 b5 b6 b7 : ℕ) (rest : List ℕ)
    → b0 < 256
    → b1 < 256
    → b2 < 256
    → b3 < 256
    → b4 < 256
    → b5 < 256
    → b6 < 256
    → b7 < 256
    → read_le64 (b0 ∷ b1 ∷ b2 ∷ b3 ∷ b4 ∷ b5 ∷ b6 ∷ b7 ∷ rest)
      ≡ b0
        + b1 * 2 ^ 8
        + b2 * 2 ^ 16
        + b3 * 2 ^ 24
        + b4 * 2 ^ 32
        + b5 * 2 ^ 40
        + b6 * 2 ^ 48
        + b7 * 2 ^ 56
unfolding read_le64
read_le64-value b0 b1 b2 b3 b4 b5 b6 b7 rest h0 h1 h2 h3 h4 h5 h6 h7 =
    let v0 = b0 in
    let v1 = v0 + b1 * 2 ^ 8 in
    let v2 = v1 + b2 * 2 ^ 16 in
    let v3 = v2 + b3 * 2 ^ 24 in
    let v4 = v3 + b4 * 2 ^ 32 in
    let v5 = v4 + b5 * 2 ^ 40 in
    let v6 = v5 + b6 * 2 ^ 48 in
    rw
      (
        bit_or_join 0 0 b0 (omega arith),
        zero-add (b0 * 1),
        mul-one b0,
        bit_or_join 8 v0 b1 (omega arith),
        bit_or_join 16 v1 b2 (omega arith),
        bit_or_join 24 v2 b3 (omega arith),
        bit_or_join 32 v3 b4 (omega arith),
        bit_or_join 40 v4 b5 (omega arith),
        bit_or_join 48 v5 b6 (omega arith),
        bit_or_join 56 v6 b7 (omega arith),
      )
      refl

pub read_le16-le_bytes : (v : ℕ) (rest : List ℕ) → v < 2 ^ 16 → read_le16 (le_bytes 2 v ++ rest) ≡ v
read_le16-le_bytes v rest h =
    read_le16-value (v % 256) (v / 256 % 256) rest (omega arith) (omega arith) ∙ omega arith

pub read_le32-le_bytes : (v : ℕ) (rest : List ℕ) → v < 2 ^ 32 → read_le32 (le_bytes 4 v ++ rest) ≡ v
read_le32-le_bytes v rest h =
    read_le32-value (v % 256) (v / 256 % 256) (v / 256 / 256 % 256) (v / 256 / 256 / 256 % 256) rest
      (omega arith) (omega arith) (omega arith) (omega arith)
    ∙ omega arith

pub read_le64-le_bytes : (v : ℕ) (rest : List ℕ) → v < 2 ^ 64 → read_le64 (le_bytes 8 v ++ rest) ≡ v
read_le64-le_bytes v rest h =
    read_le64-value _ _ _ _ _ _ _ _ rest (omega arith) (omega arith) (omega arith) (omega arith)
      (omega arith) (omega arith) (omega arith) (omega arith)
    ∙ omega arith

-- What the writes leave, as bytes of the number, lowest first.
pub byte_of-two : (v : ℕ) (rest : List ℕ) → byte_of v 0 ∷ byte_of v 1 ∷ rest ≡ le_bytes 2 v ++ rest
byte_of-two v rest =
    ap₂ (λ (a b : ℕ). a ∷ b ∷ rest) (omega (arith, byte_of_lem v 0))
      (omega (arith, byte_of_lem v 1))

pub byte_of-four :
    (v : ℕ) (rest : List ℕ)
    → byte_of v 0 ∷ byte_of v 1 ∷ byte_of v 2 ∷ byte_of v 3 ∷ rest ≡ le_bytes 4 v ++ rest
byte_of-four v rest =
    byte_of-two v (byte_of v 2 ∷ byte_of v 3 ∷ rest)
    ∙ ap₂ (λ (a b : ℕ). le_bytes 2 v ++ (a ∷ b ∷ rest)) (omega (arith, byte_of_lem v 2))
        (omega (arith, byte_of_lem v 3))

pub byte_of-eight :
    (v : ℕ) (rest : List ℕ)
    → byte_of v 0
        ∷ byte_of v 1
        ∷ byte_of v 2
        ∷ byte_of v 3
        ∷ byte_of v 4
        ∷ byte_of v 5
        ∷ byte_of v 6
        ∷ byte_of v 7
        ∷ rest
      ≡ le_bytes 8 v ++ rest
byte_of-eight v rest =
    byte_of-four v (byte_of v 4 ∷ byte_of v 5 ∷ byte_of v 6 ∷ byte_of v 7 ∷ rest)
    ∙ ap₂ (λ (a b : ℕ). le_bytes 4 v ++ (a ∷ b ∷ byte_of v 6 ∷ byte_of v 7 ∷ rest))
        (omega (arith, byte_of_lem v 4)) (omega (arith, byte_of_lem v 5))
    ∙ ap₂ (λ (a b : ℕ). le_bytes 6 v ++ (a ∷ b ∷ rest)) (omega (arith, byte_of_lem v 6))
        (omega (arith, byte_of_lem v 7))
