-- ===== src/Prng/Fill.antt =====
-- `linbox_prng_fill`: its loops write the low bytes first of successive words.
use linbox.Prelude.{
  ℕ, zero, suc, ◌+◌, ◌-◌, ◌*◌, ◌/◌, ◌≤◌, ◌≡◌, refl, ap, ap₂, ◌∙◌, arith, List, [], ◌∷◌, ◌++◌,
  length, take, length-take, take-append_split,
}
use linbox.Prelude.Words.{le_bytes}
use linbox.Prelude.Bits.Fields.{bit_and_low}
use linbox.Prng.{Prng, next_u64, emit, fill_loop, fill}

-- The eight bytes of each of the next `n` words, and the generator after `n` words.
unfoldable pub stream : ℕ → Prng → List ℕ
stream zero p = []
stream (suc n) p = le_bytes 8 (next_u64 p).0 ++ stream n (next_u64 p).1

unfoldable pub advance : ℕ → Prng → Prng
advance zero p = p
advance (suc n) p = advance n (next_u64 p).1

abbrev words_for : ℕ → ℕ
words_for len = (len + 7) / 8

length-stream : (n : ℕ) (p : Prng) → length (stream n p) ≡ 8 * n
unfolding stream
length-stream zero p = omega arith
length-stream (suc n) p = omega (arith, length-stream n (next_u64 p).1)

emit-take : (rounds left w : ℕ) → emit rounds left w ≡ take left (le_bytes rounds w)
unfolding emit
emit-take zero zero w = refl
emit-take zero (suc left) w = refl
emit-take (suc rounds) zero w = refl
emit-take (suc rounds) (suc left) w =
    ap₂ ◌∷◌ (omega (arith, bit_and_low 8 w)) (emit-take rounds left (w / 256))

words_for-suc : (left : ℕ) → words_for (suc left) ≡ suc (words_for (suc left - 8))
words_for-suc left = omega arith

fill_loop-stream :
    (fuel left : ℕ) (p : Prng)
    → left ≤ fuel
    → fill_loop fuel left p ≡ (take left (stream (words_for left) p), advance (words_for left) p)
unfolding fill_loop stream advance
fill_loop-stream zero zero p h = refl
fill_loop-stream zero (suc left) p h = absurd (omega arith)
fill_loop-stream (suc fuel) zero p h = refl
fill_loop-stream (suc fuel) (suc left) p h =
    let (word, p') = next_u64 p in
    rw (
      words_for-suc left,
      fill_loop-stream fuel (suc left - 8) p' (omega arith),
      emit-take 8 (suc left) word,
      take-append_split (suc left) (le_bytes 8 word) (stream (words_for (suc left - 8)) p'),
    )

-- Filling `len` bytes writes the first `len` bytes of the generator's word stream, each word low
-- byte first, and moves the generator on by just the words that it needs, (len + 7) / 8.
pub fill-stream :
    (p : Prng) (len : ℕ)
    → (fill p len ≡ (take len (stream ((len + 7) / 8) p), advance ((len + 7) / 8) p))
      × (length (fill p len).0 ≡ len)
unfolding fill
fill-stream p len =
    let e = fill_loop-stream len len p (omega arith) in
    (
      e,
      rw e (
          omega
            (arith, length-take len (stream ((len + 7) / 8) p), length-stream ((len + 7) / 8) p)),
    )

-- Four bytes are the low half of the next word.
pub fill_word :
    (p : Prng)
    → ((fill p 4).0 ≡ take 4 (le_bytes 8 (next_u64 p).0)) × ((fill p 4).1 ≡ (next_u64 p).1)
unfolding stream advance
fill_word p = (
  ap (λ (r : List ℕ × Prng). r.0) (fill-stream p 4).0,
  ap (λ (r : List ℕ × Prng). r.1) (fill-stream p 4).0,
)

-- The first word, in eight bytes or more.
pub fill_first : (p : Prng) (len : ℕ) → 8 ≤ len → take 8 (fill p len).0 ≡ le_bytes 8 (next_u64 p).0
unfolding stream
fill_first p len h =
    let k = len - 8 in
    let whole : (fill p len).0 ≡ take len (stream ((len + 7) / 8) p) =
      ap (λ (r : List ℕ × Prng). r.0) (fill-stream p len).0 in
    let rounds : (len + 7) / 8 ≡ suc ((len - 1) / 8) = omega arith in
    let long : len ≡ suc (suc (suc (suc (suc (suc (suc (suc k))))))) = omega arith in
    ap (take 8) (
      whole
      ∙ ap (λ n. take len (stream n p)) rounds
      ∙ ap (λ n. take n (stream (suc ((len - 1) / 8)) p)) long)
