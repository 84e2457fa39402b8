-- ===== src/Programs/RandomPreload/Repeatable.antt =====
-- What src/shim/random.preload.c prints: it is fixed by the generator of the process.
use linbox.Prelude.{
  ℕ, ◌+◌, ◌%◌, ◌^◌, ◌≡◌, refl, sym, ap, ◌∙◌, arith, true, false, Option, none, some, List, [], ◌∷◌,
  inl, inr,
}
use mathlib.Core.Path.{subst}
use mathlib.Core.Option
use linbox.Prelude.Int.{pos, ltb_ℤ}
use linbox.Prng.{Prng, fill, uniform, next_u64, seeded}
use linbox.Prng.State.{IsLive, next_u64-IsLive}
use linbox.Shim.{State, Boot, random_fill, ready_to_draw}
use linbox.Shim.Seeds.Running.{
  IsAwake, random_fill-IsAwake, random_uniform-drawn, continued, ready-initialized,
}
use linbox.Shim.Descriptors.{InPlace, virtual_fd_base}
use linbox.Shim.Descriptors.Files.{
  FileState, dev_urandom, all_used, is_random_path-dev_urandom, session,
}
use linbox.Shim.Random.{getentropy, random_u32, srand, rand, rands, rand_r}
use linbox.Shim.Random.Sequence.{words, rands-srand, random_u32-word}
use linbox.Programs.RandomPreload.{
  Run, printed, print_numbers, Rest, after_open, after_read, after_close, read_device, random_main,
}

abbrev numbers : List ℕ → List ℕ → List ℕ → ℕ → ℕ → Run
numbers a b c arc uni =
    let (rr, _, seed) = rand_r (some 77) in
    printed (record {
      a = a;
      b = b;
      c = c;
      arc = arc;
      uni = uni;
      r1 = (next_u64 (seeded 42)).0 % 2 ^ 31;
      r2 = (next_u64 (next_u64 (seeded 42)).1).0 % 2 ^ 31;
      rr = rr;
      seed = seed;
    })

-- What a process with that generator prints.
abbrev pub expected : ℕ → Prng → Option Run
expected fuel g =
    let (a, g1) = fill g 16 in
    let (b, g2) = fill g1 16 in
    let (c, g3) = fill g2 16 in
    let (word, g4) = next_u64 g3 in
    Option.map (λ (r : ℕ × Prng). numbers a b c (word % 2 ^ 32) r.0) (uniform fuel g4 100)

-- The two numbers after `srand(42)`.
seeded_numbers :
    (boot : Boot) (st : State)
    → st.initialized ≡ true
    → let s3 = srand 42 (record { shim = st; rand_seeded = false }) in
      ((rand boot s3).0 ≡ (next_u64 (seeded 42)).0 % 2 ^ 31)
      × ((rand boot (rand boot s3).1).0 ≡ (next_u64 (next_u64 (seeded 42)).1).0 % 2 ^ 31)
unfolding rands words
seeded_numbers boot st i =
    let two = rands-srand 2 42 boot (record { shim = st; rand_seeded = false }) i in
    (ap first two, ap second two)
  where
    first : List ℕ → ℕ
    first [] = 0
    first (x ∷ xs) = x

    second : List ℕ → ℕ
    second [] = 0
    second (x ∷ xs) = first xs

-- The last line as the program makes it from the state behind `arc4random_uniform`.
abbrev last_line : Boot → List ℕ → List ℕ → List ℕ → ℕ → ℕ × State → Run
last_line boot a b c arc (uni, st) =
    let s3 = srand 42 (record { shim = st; rand_seeded = false }) in
    let (rr, _, seed) = rand_r (some 77) in
    printed (record {
      a = a;
      b = b;
      c = c;
      arc = arc;
      uni = uni;
      r1 = (rand boot s3).0;
      r2 = (rand boot (rand boot s3).1).0;
      rr = rr;
      seed = seed;
    })

finished :
    (boot : Boot) (a b c : List ℕ) (arc : ℕ) (s : State) (o : Option (ℕ × Prng))
    → s.initialized ≡ true
    → Option.map (last_line boot a b c arc) (Option.map (continued s) o)
      ≡ Option.map (λ (r : ℕ × Prng). numbers a b c arc r.0) o
finished boot a b c arc s none i = refl
finished boot a b c arc s (some (r, g)) i =
    let (one, two) = seeded_numbers boot (record s { prng = g }) i in rw (one, two) refl

print_numbers-expected :
    (fuel : ℕ) (boot : Boot) (a b c : List ℕ) (st : State)
    → IsAwake st
    → print_numbers fuel boot a b c st
      ≡ Option.map
          (λ (r : ℕ × Prng). numbers a b c ((next_u64 st.prng).0 % 2 ^ 32) r.0)
          (uniform fuel (next_u64 st.prng).1 100)
unfolding print_numbers
print_numbers-expected fuel boot a b c st (i, live) =
    let (value, i1, next) = random_u32-word boot st i live in
    let st1 = (random_u32 boot st).1 in
    let live1 = subst IsLive (sym next) (next_u64-IsLive st.prng live).1 in
    ap (Option.map (last_line boot a b c (random_u32 boot st).0))
      (random_uniform-drawn fuel boot st1 100 (i1, live1))
    ∙ finished boot a b c (random_u32 boot st).0 (ready_to_draw boot st1)
        (uniform fuel st1.prng 100) (ready-initialized boot st1 i1)
    ∙ rw (value, next) refl

above : (k : ℕ) → ltb_ℤ (pos (virtual_fd_base + k)) (pos 0) ≡ false
above k = ground arith

-- With a place free, the device is opened, read and closed.
device-read :
    (boot : Boot) (rest : Rest) (f : FileState)
    → InPlace 0 f.table
    → all_used f.table ≡ false
    → read_device boot rest f ≡ rest (random_fill boot f.shim 16).0 (random_fill boot f.shim 16).1
unfolding read_device after_open after_read after_close
device-read boot rest f places free =
    let (a, opened, _, ended) =
      session boot (some dev_urandom) (pos 0) (pos 0) 16 f places is_random_path-dev_urandom in
    ap (after_open boot rest) opened ∙ elim ended [
      | inr (full, _, _, _) ↦ let no = sym full ∙ free in cc
      | inl
            (
              _,
              _,
              (k, _, number),
              _,
              _,
              (b, c, was_read, b_rc, bytes, was_closed, c_rc, after, _, _),
            ) ↦
          let good : ltb_ℤ a.rc (pos 0) ≡ false = ap (λ fd. ltb_ℤ fd (pos 0)) number ∙ above k in
          rw good (
            ap (after_read rest a.rc) was_read
            ∙ rw b_rc (ap (after_close rest b.bytes) was_closed ∙ rw (c_rc, bytes, after) refl))
    ]

-- With a place in its table free, a process whose state is set up and whose generator is live prints
-- what its generator alone determines, whatever else its state holds at the start, the seed in the
-- shared memory included, as long as that memory stays as it is during the run; and whatever the system
-- would answer. So two such runs from the same generator print the same.
pub random_main-repeatable :
    (fuel : ℕ) (boot : Boot) (f : FileState)
    → IsAwake f.shim
    → InPlace 0 f.table
    → all_used f.table ≡ false
    → random_main fuel boot f ≡ expected fuel f.shim.prng
unfolding random_main getentropy
random_main-repeatable fuel boot f awake places free =
    let (awake1, a, g1) = random_fill-IsAwake boot f.shim 16 awake in
    let st1 = (random_fill boot f.shim 16).1 in
    let (awake2, b, g2) = random_fill-IsAwake boot st1 16 awake1 in
    let st2 = (random_fill boot st1 16).1 in
    let (awake3, c, g3) = random_fill-IsAwake boot st2 16 awake2 in
    let st3 = (random_fill boot st2 16).1 in
    let bytes_b = b ∙ ap (λ g. (fill g 16).0) g1 in
    let gen2 = g2 ∙ ap (λ g. (fill g 16).1) g1 in
    let bytes_c = c ∙ ap (λ g. (fill g 16).0) gen2 in
    let gen3 = g3 ∙ ap (λ g. (fill g 16).1) gen2 in
    device-read boot _ (record f { shim = st2 }) places free
    ∙ print_numbers-expected fuel boot (random_fill boot f.shim 16).0 (random_fill boot st1 16).0
        (random_fill boot st2 16).0 st3 awake3
    ∙ rw (a, bytes_b, bytes_c, gen3) refl
