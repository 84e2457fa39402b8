-- ===== src/Shm/Seqlock/Untorn.antt =====
-- What a read returns, whatever the writer does meanwhile.
use linbox.Prelude.{ℕ, ◌+◌, ◌*◌, ◌^◌, ◌≤◌, ◌<◌, ◌≡◌, refl, arith, List, [], ◌∷◌}
use linbox.Prelude.Words.{u32}
use linbox.Shm.{Timespec}
use linbox.Shm.Seqlock.{between, head, returned, System, Event, step, run}
use linbox.Shm.Seqlock.Invariant.{IsGood, Among, step-IsGood, step-writes}

-- A reader that starts, with the writer between two calls; the one value published so far is that
-- in the memory.
pub record Starts (s : System) : Type 0 where
  pub at_head : s.reader ≡ head
  pub at_rest : s.writer ≡ between
  pub even : s.seq ≡ u32 (2 * s.writes)
  pub current : s.published ≡ s.time ∷ []

run-writes : (es : List Event) (s : System) → s.writes ≤ (run es s).writes
unfolding run
run-writes [] s = omega arith
run-writes (e ∷ es) s = omega (arith, step-writes e s, run-writes es (step e s))

run-IsGood :
    (base : ℕ) (es : List Event) (s : System)
    → (run es s).writes < base + 2 ^ 31
    → IsGood base s
    → IsGood base (run es s)
unfolding run
run-IsGood base [] s b h = h
run-IsGood base (e ∷ es) s b h =
    run-IsGood base es (step e s) b
      (step-IsGood base e s (omega (arith, step-writes e s, run-writes es (step e s))) h)

-- However the accesses interleave, a read that returns gives a time as a whole that was current
-- at some moment of the read: the one in the memory when it started, or one that was written
-- since. It holds for up to 2 ^ 31 - 1 writes in the course of the read.
pub run-untorn :
    (es : List Event) (s : System) (ts : Timespec)
    → Starts s
    → (run es s).writes < s.writes + 2 ^ 31
    → (run es s).reader ≡ returned ts
    → Among ts (run es s).published
run-untorn es s ts h b e =
    let good : IsGood s.writes s = record {
      counted = omega arith;
      good_writer = rw (h.at_rest, h.current) (h.even, refl);
      good_reader = rw h.at_head tt;
    } in
    rw e at (run-IsGood s.writes es s b good).good_reader
