-- ===== src/Shim/Random/Sequence.antt =====
-- What the calls of `rand` give, and the limits of `getentropy`.
use linbox.Prelude.{
  ℕ, zero, suc, ◌%◌, ◌^◌, ◌≡◌, refl, sym, ap, ap₂, ◌∙◌, arith, true, false, none, some, List, [],
  ◌∷◌, ltb, take, length, ◌⊎◌, ltb→lt, ◌<◌, ◌≤◌, Bool-cases, inl, inr,
}
use mathlib.Core.Path.{subst}
use linbox.Prelude.Int.{pos, negsuc}
use linbox.Prelude.Bits.Fields.{bit_and_low}
use linbox.Prelude.Words.{le_bytes}
use linbox.Prng.{Prng, next_u64, seeded, fill}
use linbox.Prng.Fill.{fill_word, fill-stream}
use linbox.Prng.State.{IsLive, next_u64-IsLive}
use linbox.Prng.Seed.{seeded-IsLive}
use linbox.Shim.{State, Boot, random_fill, ready_to_draw, random_reseed}
use linbox.Shim.Seeds.Running.{ready-initialized}
use linbox.Shim.Seeds.{init_state_once, drawn_from}
use linbox.Shim.Random.{
  RandState, from_bytes, random_u32, srand, rand, rands, getentropy, seed_rand_once, eio,
}

low_half : (w : ℕ) → from_bytes (take 4 (le_bytes 8 w)) ≡ w % 2 ^ 32
unfolding from_bytes
low_half w = omega arith

-- A state whose generator can be drawn from.
abbrev IsReady : RandState → Type 0
IsReady r = (r.rand_seeded ≡ true) × (r.shim.initialized ≡ true) × IsLive r.shim.prng

low_bits : (w : ℕ) → w % 2 ^ 32 % 2 ^ 31 ≡ w % 2 ^ 31
low_bits w = omega arith

pub random_u32-word :
    (boot : Boot) (st : State)
    → st.initialized ≡ true
    → IsLive st.prng
    → ((random_u32 boot st).0 ≡ (next_u64 st.prng).0 % 2 ^ 32)
      × ((random_u32 boot st).1.initialized ≡ true)
      × ((random_u32 boot st).1.prng ≡ (next_u64 st.prng).1)
unfolding random_u32 random_fill
random_u32-word boot st i live =
    let same = init_state_once boot st i in
    let drawn : (ready_to_draw boot st).prng ≡ st.prng =
      drawn_from boot st
        (λ e. omega (arith, live.0, ap (λ (s : State). s.prng.state) (sym same) ∙ e))
      ∙ ap (λ (s : State). s.prng) same in
    let (bytes, prng) = fill_word st.prng in
    (
      ap (λ p. from_bytes (fill p 4).0) drawn ∙ ap from_bytes bytes ∙ low_half (next_u64 st.prng).0,
      ready-initialized boot st i,
      ap (λ p. (fill p 4).1) drawn ∙ prng,
    )

rand-IsReady :
    (boot : Boot) (r : RandState)
    → IsReady r
    → ((rand boot r).0 ≡ (next_u64 r.shim.prng).0 % 2 ^ 31)
      × IsReady (rand boot r).1
      × ((rand boot r).1.shim.prng ≡ (next_u64 r.shim.prng).1)
unfolding rand seed_rand_once
rand-IsReady boot r (once, i, live) =
    let (value, ready, next) = random_u32-word boot r.shim i live in
    rw once (
      bit_and_low 31 (random_u32 boot r.shim).0
          ∙ ap (λ w. w % 2 ^ 31) value
          ∙ low_bits (next_u64 r.shim.prng).0,
      (refl, ready, subst IsLive (sym next) (next_u64-IsLive r.shim.prng live).1),
      next,
    )

-- The low 31 bits of the words that a generator gives.
unfoldable pub words : ℕ → Prng → List ℕ
words zero p = []
words (suc n) p = (next_u64 p).0 % 2 ^ 31 ∷ words n (next_u64 p).1

rands-words :
    (n : ℕ) (boot : Boot) (r : RandState) → IsReady r → rands n boot r ≡ words n r.shim.prng
unfolding rands words
rands-words zero boot r h = refl
rands-words (suc n) boot r h =
    let (value, good, next) = rand-IsReady boot r h in
    ap₂ ◌∷◌ value (rands-words n boot (rand boot r).1 good ∙ ap (words n) next)

-- In a process whose state is set up, after `srand` the values of `rand` are fixed by the seed alone, the low 31 bits of successive
-- words of the generator seeded with it: whatever was drawn before, whatever seed the controller
-- publishes, and whichever process asks.
pub rands-srand :
    (n seed : ℕ) (boot : Boot) (r : RandState)
    → r.shim.initialized ≡ true
    → rands n boot (srand seed r) ≡ words n (seeded seed)
unfolding srand random_reseed
rands-srand n seed boot r i = rands-words n boot (srand seed r) (refl, i, seeded-IsLive seed)

ltb-le : {a b : ℕ} → ltb a b ≡ false → b ≤ a
ltb-le e = ground arith

-- `getentropy` fills all of a buffer of up to 256 bytes, with what `random_fill` gives; a larger one
-- it refuses with EIO, and then it writes nothing and draws nothing.
pub getentropy-limit :
    (boot : Boot) (st : State) (buflen : ℕ)
    → let (rc, errno, bytes, st') = getentropy boot st buflen in
      ((buflen ≤ 256)
        × (rc ≡ pos 0)
        × (errno ≡ none)
        × (bytes ≡ (random_fill boot st buflen).0)
        × (length bytes ≡ buflen))
      ⊎ ((256 < buflen) × (rc ≡ negsuc 0) × (errno ≡ some eio) × (bytes ≡ []) × (st' ≡ st))
unfolding getentropy
getentropy-limit boot st buflen =
    let full : length (random_fill boot st buflen).0 ≡ buflen =
      unfold random_fill in (fill-stream (ready_to_draw boot st).prng buflen).1 in
    elim (Bool-cases (ltb 256 buflen)) [
      | inl over ↦ rw over (inr (ltb→lt 256 buflen over, refl, refl, refl, refl))
      | inr fits ↦ rw fits (inl (ltb-le fits, refl, refl, refl, full))
    ]
