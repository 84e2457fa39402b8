-- ===== src/Sbp/Stream.antt =====
-- Frames that a stream socket cuts or joins: what the deserializer makes of the bytes of one read.
use linbox.Prelude.{
  ℕ, ◌+◌, ◌≤◌, ◌<◌, ◌≡◌, ◌≢◌, refl, sym, ap, ◌∙◌, arith, true, false, some, List, [], ◌∷◌, ◌++◌,
  ltb, ◌==◌, length, take, drop, length-append,
}
use mathlib.Core.Path.{subst}
use linbox.Sbp.{err, invalid_length, max_payload, decode_frame, deserialize_message}
use linbox.Sbp.Frame.{header_bytes}
use linbox.Sbp.Wire.{read_le32-le_bytes}

abbrev pub Rejected : List ℕ → Type 0
Rejected r = deserialize_message (some r) (length r) true ≡ err invalid_length

-- Less than a header.
short-Rejected : (r : List ℕ) → length r < 8 → Rejected r
unfolding deserialize_message decode_frame
short-Rejected r h = let e : ltb (length r) 8 ≡ true = ground arith in rw e refl

misfit-err :
    (v k f n : ℕ) (rest : List ℕ)
    → n ≤ max_payload
    → length rest ≢ n
    → decode_frame (some (header_bytes v k f n ++ rest)) (8 + length rest) true ≡ err invalid_length
unfolding decode_frame
misfit-err v k f n rest small ne =
    let e1 : ltb (8 + length rest) 8 ≡ false = ground arith in
    let e2 : ltb max_payload n ≡ false = ground arith in
    let e3 : (8 + length rest == 8 + n) ≡ false = ground arith in
    rw (e1, read_le32-le_bytes n rest (omega arith)) (rw (e2, e3))

decode-err :
    (r : List ℕ) (n : ℕ)
    → decode_frame (some r) n true ≡ err invalid_length
    → deserialize_message (some r) n true ≡ err invalid_length
unfolding deserialize_message
decode-err r n e = rw e refl

-- A header with another number of bytes behind it than it says.
misfit-Rejected :
    (v k f n : ℕ) (rest : List ℕ)
    → n ≤ max_payload
    → length rest ≢ n
    → Rejected (header_bytes v k f n ++ rest)
misfit-Rejected v k f n rest small ne =
    let whole = header_bytes v k f n ++ rest in
    let size : 8 + length rest ≡ length whole = omega arith in
    subst (λ len. deserialize_message (some whole) len true ≡ err invalid_length) size
      (decode-err whole (8 + length rest) (misfit-err v k f n rest small ne))

longer : (xs ys : List ℕ) → ys ≢ [] → length (xs ++ ys) ≢ length xs
longer xs [] ne = absurd (ne refl)
longer xs (y ∷ ys) ne = λ e. omega (arith, length-append xs (y ∷ ys), e)

cut-Rejected :
    (v k f : ℕ) (payload front back : List ℕ)
    → length payload ≤ max_payload
    → front ++ back ≡ header_bytes v k f (length payload) ++ payload
    → back ≢ []
    → Rejected front
cut-Rejected v k f payload (a ∷ b ∷ c ∷ d ∷ w ∷ x ∷ y ∷ z ∷ rest) back small e ne =
    let header : a ∷ b ∷ c ∷ d ∷ w ∷ x ∷ y ∷ z ∷ [] ≡ header_bytes v k f (length payload) =
      ap (take 8) e in
    let whole : rest ++ back ≡ payload = ap (drop 8) e in
    subst Rejected (ap (λ h. h ++ rest) (sym header)) (
      misfit-Rejected v k f (length payload) rest small
        (λ same. longer rest back ne (ap length whole ∙ sym same)))
cut-Rejected v k f payload front back small e ne = short-Rejected front (omega arith)

-- The bytes of a frame that a read gives without the rest of the frame, or with anything behind it,
-- are refused with SBP_ERR_INVALID_LENGTH.
pub deserialize_message-stream :
    (v k f : ℕ) (payload : List ℕ)
    → length payload ≤ max_payload
    → let frame = header_bytes v k f (length payload) ++ payload in
      ((front back : List ℕ) → front ++ back ≡ frame → back ≢ [] → Rejected front)
      × ((more : List ℕ) → more ≢ [] → Rejected (frame ++ more))
deserialize_message-stream v k f payload small = (
  λ front back e ne. cut-Rejected v k f payload front back small e ne,
  λ more ne.
      misfit-Rejected v k f (length payload) (payload ++ more) small (longer payload more ne),
)
