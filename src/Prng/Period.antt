-- ===== src/Prng/Period.antt =====
-- The generator of src/shim/prng.c does not come back to a state within two draws.
use linbox.Prelude.{
  ℕ, ◌+◌, ◌*◌, ◌/◌, ◌^◌, ◌<◌, bit_xor, ◌≡◌, ◌≢◌, refl, sym, ap, ◌∙◌, arith, take, true, List, [],
  ◌∷◌, ◌==◌,
}
use linbox.Prelude.Words.{u64, le_bytes}
use linbox.Prelude.Bits.Xor.{bit_xor_self}
use linbox.Prelude.Bits.Linear.{IsLinear, linear-ext}
use linbox.Prelude.Bits.Matrix.{
  shl_stage, shr_stage, xor_of, after, times, times-linear, all_below, check, times-zero,
}
use linbox.Prng.{Prng, next_u64, fill}
use linbox.Prng.Fill.{stream, advance, fill-stream}
use linbox.Prng.State.{IsLive, next_u64-IsLive}

-- The state after a draw.
step : ℕ → ℕ
step x = (next_u64 (record { state = x })).1.state

step-linear : IsLinear step
unfolding step next_u64
step-linear =
    after (λ x. bit_xor x (x / 2 ^ 27))
      (λ x. bit_xor (bit_xor x (x / 2 ^ 12)) (u64 (bit_xor x (x / 2 ^ 12) * 2 ^ 25))) (shr_stage 27)
      (after (λ x. bit_xor x (u64 (x * 2 ^ 25))) (λ x. bit_xor x (x / 2 ^ 12)) shl_stage
        (shr_stage 12))

-- The inverse of the map that takes a state to its difference from the one two draws later.
abbrev inverse : List ℕ
inverse =
    0x0000000001248001 ∷ 0x0000000002490002 ∷ 0x0000000004920004 ∷ 0x0000000008008009
    ∷ 0x0000000010010012 ∷ 0x00024924B36FB6FF ∷ 0x0004924966DF6DFE ∷ 0x00092492CDBEDBFD
    ∷ 0x0010000108100120 ∷ 0x0020000210200240 ∷ 0x0040000421648481 ∷ 0x0080000842C90902
    ∷ 0x0100001084B69204 ∷ 0x020000210849A409 ∷ 0x0400004210934812 ∷ 0x0100009085925200
    ∷ 0x020001210A002401 ∷ 0x04024B66876DFED9 ∷ 0x010496D9AB4BBF97 ∷ 0x02092DB357B3FF2E
    ∷ 0x041012423C0A4886 ∷ 0x01202490DD84D329 ∷ 0x02404921BB09A652 ∷ 0x0480924376134CA4
    ∷ 0x0001249249B6DB6D ∷ 0x00024924924936DA ∷ 0x0004924924926DB4 ∷ 0x0009249248005B68
    ∷ 0x001000000249800B ∷ 0x0020000004930016 ∷ 0x004249249A4BB6F7 ∷ 0x0084924934976DEE
    ∷ 0x010B6DB6FA436D06 ∷ 0x0214924966CFECD7 ∷ 0x04292492CD9FD9AF ∷ 0x085249259A1B335E
    ∷ 0x10A4924B343666BC ∷ 0x21492496686CCD78 ∷ 0x429000084290AC2B ∷ 0x852000108405D856
    ∷ 0x2309243340656DF4 ∷ 0x461001421283ED33 ∷ 0x85224BB412DEAE99 ∷ 0x230DB37A6CF7006B
    ∷ 0x461B66F4D8CA80D7 ∷ 0x853484D98768F551 ∷ 0x23202DA1479BB7FA ∷ 0x46405B428F376FF4
    ∷ 0x8580B691BBFE9DCD ∷ 0x224849313F93E6C2 ∷ 0x449092627E034D85 ∷ 0x802124D05996D92F
    ∷ 0x20092482CC9A1BF8 ∷ 0x401000210A59812A ∷ 0x8020004215978255 ∷ 0x20092482C7F51BD6
    ∷ 0x401000211C878176 ∷ 0x80224966AB463436 ∷ 0x200DB6CBBB72F711 ∷ 0x401B6D9776E5EE22
    ∷ 0x8034920A7EA66A9E ∷ 0x2020001210B24A40 ∷ 0x4040002421649481 ∷ 0x8080004842C92902 ∷ []

back : ℕ → ℕ
back x = times inverse (bit_xor (step (step x)) x)

back-bits : all_below 64 (λ k. back (2 ^ k) == 2 ^ k) ≡ true
unfolding all_below back times step next_u64
back-bits = refl

back-linear : IsLinear back
unfolding back
back-linear =
    after (times inverse) (λ x. bit_xor (step (step x)) x) (times-linear inverse)
      (xor_of (λ x. step (step x)) (λ x. x) (after step step step-linear step-linear) (λ a b. refl))

back-same : (x : ℕ) → x < 2 ^ 64 → back x ≡ x
back-same x h =
    linear-ext 64 back (λ x. x) back-linear (λ a b. refl)
      (λ k l. ground (arith, check 64 (λ k. back (2 ^ k) == 2 ^ k) back-bits k l)) x h

two_steps : (x : ℕ) → x < 2 ^ 64 → step (step x) ≡ x → x ≡ 0
unfolding back
two_steps x h e =
    sym (back-same x h)
    ∙ ap (λ y. times inverse (bit_xor y x)) e
    ∙ ap (times inverse) (bit_xor_self x)
    ∙ times-zero inverse

pub mul_cancel :
    (x y : ℕ)
    → x < 2 ^ 64
    → y < 2 ^ 64
    → u64 (x * 0x2545F4914F6CDD1D) ≡ u64 (y * 0x2545F4914F6CDD1D)
    → x ≡ y
mul_cancel x y hx hy e = omega arith

no_word_twice : (p : Prng) → IsLive p → (next_u64 p).0 ≢ (next_u64 (next_u64 p).1).0
unfolding next_u64 step
no_word_twice p h same =
    let q = (next_u64 p).1 in
    let r = (next_u64 q).1 in
    let live = (next_u64-IsLive p h).1 in
    let states : q.state ≡ r.state =
      mul_cancel q.state r.state live.1 (next_u64-IsLive q live).1.1 same in
    let again : step (step q.state) ≡ q.state = ap step (sym states) ∙ sym states in
    omega (arith, live.0, two_steps q.state live.1 again)

no_word_after_one :
    (p : Prng) → IsLive p → (next_u64 p).0 ≢ (next_u64 (next_u64 (next_u64 p).1).1).0
unfolding next_u64 step
no_word_after_one p h same =
    let q = (next_u64 p).1 in
    let r = (next_u64 (next_u64 q).1).1 in
    let live = (next_u64-IsLive p h).1 in
    let later = (next_u64-IsLive (next_u64 q).1 (next_u64-IsLive q live).1).1 in
    let states : q.state ≡ r.state = mul_cancel q.state r.state live.1 later.1 same in
    omega (arith, live.0, two_steps q.state live.1 (sym states))

-- A live generator gives a word again neither by the next draw nor by the one behind it: no two of
-- three words in a row are the same.
pub next_u64-apart :
    (p : Prng)
    → IsLive p
    → let (first, q) = next_u64 p in
      let (second, r) = next_u64 q in
      (first ≢ second) × (second ≢ (next_u64 r).0) × (first ≢ (next_u64 r).0)
next_u64-apart p h =
    let q = (next_u64 p).1 in
    let r = (next_u64 q).1 in
    let live_q = (next_u64-IsLive p h).1 in
    let live_r = (next_u64-IsLive q live_q).1 in
    (λ e. no_word_twice p h e, λ e. no_word_twice q live_q e, λ e. no_word_after_one p h e)

value : List ℕ → ℕ
value [] = 0
value (b ∷ bytes) = b + 256 * value bytes

pub le_bytes_cancel : (x y : ℕ) → x < 2 ^ 64 → y < 2 ^ 64 → le_bytes 8 x ≡ le_bytes 8 y → x ≡ y
unfolding value
le_bytes_cancel x y hx hy e = omega (arith, ap value e)

-- Two draws of 16 bytes in a row from a live generator differ.
pub fill-apart : (p : Prng) → IsLive p → (fill p 16).0 ≢ (fill (fill p 16).1 16).0
unfolding stream advance
fill-apart p h same =
    let next = (fill-stream p 16).0 in
    let q = advance 2 p in
    let after : (fill p 16).1 ≡ q = ap (λ (r : List ℕ × Prng). r.1) next in
    let first : (fill p 16).0 ≡ take 16 (stream 2 p) = ap (λ (r : List ℕ × Prng). r.0) next in
    let second : (fill (fill p 16).1 16).0 ≡ take 16 (stream 2 q) =
      ap (λ g. (fill g 16).0) after ∙ ap (λ (r : List ℕ × Prng). r.0) (fill-stream q 16).0 in
    let words : le_bytes 8 (next_u64 p).0 ≡ le_bytes 8 (next_u64 q).0 =
      ap (take 8) (sym first ∙ same ∙ second) in
    no_word_after_one p h (
      le_bytes_cancel (next_u64 p).0 (next_u64 q).0 (next_u64-IsLive p h).0
        (next_u64-IsLive q (next_u64-IsLive (next_u64 p).1 (next_u64-IsLive p h).1).1).0 words)
