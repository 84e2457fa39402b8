-- ===== src/Prng/Tests.antt =====
-- Runs of src/shim/prng.c, and the theorems about it at concrete inputs.
use linbox.Prelude.{
  ◌+◌, ◌/◌, ◌%◌, ◌^◌, ◌≤◌, ◌<◌, ◌≡◌, ◌≢◌, arith, ◌&&◌, some, leb, ◌==◌, length, take,
}
use linbox.Prng.{Prng, next_u64, next_u32, fill, threshold, uniform}
use linbox.Prng.Period.{next_u64-apart}
use linbox.Prng.Fill.{stream, advance, fill-stream}
use linbox.Prng.Uniform.{draw, after_draw, count_below, uniform-first_accepted, uniform-fair}

abbrev generator : Prng
generator = record { state = 12345 }

next_u64-apart_example :
    let (first, q) = next_u64 generator in
    let (second, r) = next_u64 q in
    (first ≢ second) × (second ≢ (next_u64 r).0) × (first ≢ (next_u64 r).0)
next_u64-apart_example = next_u64-apart generator (omega arith, omega arith)

fill-stream_example :
    (fill generator 11
      ≡ (take 11 (stream ((11 + 7) / 8) generator), advance ((11 + 7) / 8) generator))
    × (length (fill generator 11).0 ≡ 11)
fill-stream_example = fill-stream generator 11

first_draw : threshold 10 ≤ draw 0 generator
unfolding threshold draw next_u32 next_u64
first_draw = omega arith

uniform-first_accepted_example :
    (uniform 1 generator 10 ≡ some (draw 0 generator % 10, after_draw 0 generator))
    × (draw 0 generator % 10 < 10)
uniform-first_accepted_example =
    uniform-first_accepted 0 1 10 generator (omega arith) (omega arith)
      (λ j h. absurd (omega arith)) first_draw

uniform-fair_example : count_below (2 ^ 32) (λ v. leb (threshold 6) v && (v % 6 == 2)) ≡ 2 ^ 32 / 6
uniform-fair_example = uniform-fair 6 2 (omega arith) (omega arith) (omega arith)
