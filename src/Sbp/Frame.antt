-- ===== src/Sbp/Frame.antt =====
-- Frames: `sbp_encode_frame` and `sbp_decode_frame`.
use linbox.Prelude.{
  ℕ, ◌+◌, ◌^◌, ◌≤◌, ◌<◌, ◌≡◌, ap, ◌∙◌, arith, inl, inr, Bool-cases, true, false, none, some, List,
  ◌∷◌, ◌++◌, ltb, ◌==◌, length, set, take, drop, overwrite, overwrite_lem, length-take, length-drop,
  drop-drop,
}
use native.Mathlib.Nat.{min-eq_left}
use linbox.Prelude.Words.{le_bytes}
use linbox.Sbp.{ok, write_le16, write_le32, encode_frame, decode_frame, max_payload}
use linbox.Sbp.Wire.{byte_of-two, byte_of-four, read_le16-le_bytes, read_le32-le_bytes}

-- The eight header bytes of a frame.
abbrev pub header_bytes : ℕ → ℕ → ℕ → ℕ → List ℕ
header_bytes version kind flags len = version ∷ kind ∷ le_bytes 2 flags ++ le_bytes 4 len

written_header :
    (version kind flags len : ℕ) (out : List ℕ)
    → 8 ≤ length out
    → write_le32 (write_le16 (set (set out 0 version) 1 kind) 2 flags) 4 len
      ≡ header_bytes version kind flags len ++ drop 8 out
unfolding write_le16 write_le32
written_header v k f l (o0 ∷ o1 ∷ o2 ∷ o3 ∷ o4 ∷ o5 ∷ o6 ∷ o7 ∷ rest) h =
    ap (λ (t : List ℕ). v ∷ k ∷ t) (byte_of-two f _)
    ∙ ap (λ (t : List ℕ). v ∷ k ∷ le_bytes 2 f ++ t) (byte_of-four l rest)
written_header v k f l _ h = absurd (omega arith)

copied :
    (n : ℕ) (p out : List ℕ)
    → 8 + n ≤ length out
    → n ≤ length p
    → overwrite (take n p) (drop 8 out) ≡ take n p ++ drop (8 + n) out
copied n p out room has =
    let taken : length (take n p) ≡ n = length-take n p ∙ min-eq_left has in
    overwrite_lem (take n p) (drop 8 out) (omega (arith, taken, length-drop 8 out))
    ∙ ap (λ (t : List ℕ). take n p ++ t)
        (ap (λ (k : ℕ). drop k (drop 8 out)) taken ∙ drop-drop 8 n out)

-- A payload of at most 65535 bytes that is there, into a buffer with room for it: the frame is the
-- header with the fields low byte first, then the payload; the buffer behind the frame is kept,
-- and the length reported is that of the frame.
pub encode_frame-writes :
    (version kind flags n cap : ℕ) (p out : List ℕ)
    → n ≤ max_payload
    → n ≤ length p
    → 8 + n ≤ cap
    → cap ≤ length out
    → encode_frame version kind flags (some p) n (some out) cap true
      ≡ ok (header_bytes version kind flags n ++ take n p ++ drop (8 + n) out, 8 + n)
unfolding encode_frame
encode_frame-writes v k f n cap p out small has room fits =
    let e1 : ltb max_payload n ≡ false = ground arith in
    let e2 : ltb cap (8 + n) ≡ false = ground arith in
    let e3 = written_header v k f n out (omega arith) in
    elim (Bool-cases (ltb 0 n)) [
      | inl some_bytes ↦ rw (e1, e2, e3, some_bytes, copied n p out (omega arith) has)
      | inr no_bytes ↦ let zero_len : n ≡ 0 = ground arith in rw (e1, e2, e3, no_bytes, zero_len)
    ]

-- The same with a NULL payload of length 0.
pub encode_frame-empty :
    (version kind flags cap : ℕ) (out : List ℕ)
    → 8 ≤ cap
    → cap ≤ length out
    → encode_frame version kind flags none 0 (some out) cap true
      ≡ ok (header_bytes version kind flags 0 ++ drop 8 out, 8)
unfolding encode_frame
encode_frame-empty v k f cap out room fits =
    let e2 : ltb cap 8 ≡ false = ground arith in rw (e2, written_header v k f 0 out (omega arith))

-- A frame of header bytes in range is read back with its fields, and the payload pointer stands
-- behind the header.
pub decode_frame-reads :
    (version kind flags n : ℕ) (rest : List ℕ)
    → flags < 2 ^ 16
    → n ≤ max_payload
    → decode_frame (some (header_bytes version kind flags n ++ rest)) (8 + n) true
      ≡ ok (record { version = version; kind = kind; flags = flags; payload_len = n }, rest)
unfolding decode_frame
decode_frame-reads v k f n rest hf small =
    let e1 : ltb (8 + n) 8 ≡ false = ground arith in
    let e2 : ltb max_payload n ≡ false = ground arith in
    let e3 : (8 + n == 8 + n) ≡ true = ground arith in
    rw (e1, read_le16-le_bytes f (le_bytes 4 n ++ rest) hf, read_le32-le_bytes n rest (omega arith))
      (rw (e2, e3))
