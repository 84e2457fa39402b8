-- ===== src/Shm/Seqlock/Progress.antt =====
-- When a read ends, and when it does not.
use linbox.Prelude.{
  ℕ, zero, suc, ◌+◌, ◌%◌, ◌≡◌, refl, sym, ap, ◌∙◌, arith, true, false, ◌&&◌, List, [], ◌∷◌, ◌++◌,
  ◌==◌, ◌≤◌, replicate, Bool-cases, inl, inr,
}
use mathlib.Core.Path.{subst}
use linbox.Prelude.Words.{u32}
use linbox.Shm.{Timespec, Layout, write_time}
use linbox.Shm.Seqlock.{
  between, Reader, head, sampled, half_copied, copied, returned, System, Event, step, read_step,
  write, read, run,
}

-- The five accesses of a call of the writer, with none of the reader in between, do what the
-- function does at once.
pub run-write :
    (s : System) (layout : Layout) (ts : Timespec) (now : ℕ)
    → s.writer ≡ between
    → s.seq ≡ layout.time_seq
    → let t = run (replicate 5 (write ts)) s in
      (t.seq ≡ (write_time layout ts now).time_seq)
      × (t.time ≡ (write_time layout ts now).virtual_time)
      × (t.writer ≡ between)
      × (t.published ≡ ts ∷ s.published)
unfolding run write_time
run-write s layout ts now w e = rw w (ap (λ n. u32 (n + 2)) e, refl, refl, refl)

-- Seven accesses, from anywhere in the loop.
reads_from :
    (s : System) (r : Reader)
    → s.seq % 2 ≡ 0
    → (ts : Timespec) × ((run (replicate 7 read) (record s { reader = r })).reader ≡ returned ts)
unfolding run
reads_from s head even =
    let e1 : (s.seq % 2 == 1) ≡ false = ground arith in
    let e2 : (s.seq == s.seq && s.seq % 2 == 0) ≡ true = ground arith in rw (e1, e2) (s.time, refl)
reads_from s (sampled seq1 since) even =
    let e1 : (s.seq % 2 == 1) ≡ false = ground arith in
    let e2 : (s.seq == s.seq && s.seq % 2 == 0) ≡ true = ground arith in
    elim (Bool-cases (seq1 == s.seq && s.seq % 2 == 0)) [
      | inl f ↦ rw f (s.time, refl)
      | inr f ↦ rw (f, e1, e2) (s.time, refl)
    ]
reads_from s (half_copied seq1 since sec) even =
    let e1 : (s.seq % 2 == 1) ≡ false = ground arith in
    let e2 : (s.seq == s.seq && s.seq % 2 == 0) ≡ true = ground arith in
    elim (Bool-cases (seq1 == s.seq && s.seq % 2 == 0)) [
      | inl f ↦ rw f (_, refl)
      | inr f ↦ rw (f, e1, e2) (s.time, refl)
    ]
reads_from s (copied seq1 since snapshot) even =
    let e1 : (s.seq % 2 == 1) ≡ false = ground arith in
    let e2 : (s.seq == s.seq && s.seq % 2 == 0) ≡ true = ground arith in
    elim (Bool-cases (seq1 == s.seq && s.seq % 2 == 0)) [
      | inl f ↦ rw f (_, refl)
      | inr f ↦ rw (f, e1, e2) (s.time, refl)
    ]
reads_from s (returned ts) even = (ts, refl)

-- As long as no write is under way, a reader that is anywhere in its loop returns within seven
-- accesses.
pub run-returns :
    (s : System)
    → s.seq % 2 ≡ 0
    → (ts : Timespec) × ((run (replicate 7 read) s).reader ≡ returned ts)
run-returns s even = reads_from s s.reader even

-- A reader whose call has not ended.
abbrev pub Waits : Reader → Type 0
Waits (returned ts) = ⊥
Waits _ = Unit

read-Waits :
    (s : System) (r : Reader)
    → s.seq % 2 ≡ 1
    → Waits r
    → let t = read_step (record s { reader = r }) in (t.seq ≡ s.seq) × Waits t.reader
read-Waits s head odd w = let e : (s.seq % 2 == 1) ≡ true = ground arith in rw e (refl, tt)
read-Waits s (sampled seq1 since) odd w = (refl, tt)
read-Waits s (half_copied seq1 since sec) odd w = (refl, tt)
read-Waits s (copied seq1 since snapshot) odd w =
    let e : (s.seq % 2 == 0) ≡ false = ground arith in
    elim (Bool-cases (seq1 == s.seq)) [
      | inl same ↦ rw (same, e) (refl, tt)
      | inr new ↦ rw new (refl, tt)
    ]
read-Waits s (returned ts) odd w = absurd w

reads-Waits :
    (n : ℕ) (s : System) → s.seq % 2 ≡ 1 → Waits s.reader → Waits (run (replicate n read) s).reader
unfolding run
reads-Waits zero s odd w = w
reads-Waits (suc n) s odd w =
    let (same, still) = read-Waits s s.reader odd w in
    reads-Waits n (read_step s) (ap (λ x. x % 2) same ∙ odd) still

run-append : (es fs : List Event) (s : System) → run (es ++ fs) s ≡ run fs (run es s)
unfolding run
run-append [] fs s = refl
run-append (e ∷ es) fs s = run-append es fs (step e s)

-- The second, third and fourth access of a write leave the counter odd.
stopped_odd :
    (k : ℕ) (ts : Timespec) (s : System)
    → s.writer ≡ between
    → s.seq % 2 ≡ 0
    → 2 ≤ k
    → k ≤ 4
    → let t = run (replicate k (write ts)) s in (t.seq % 2 ≡ 1) × (t.reader ≡ s.reader)
unfolding run
stopped_odd zero ts s w even low high = absurd (omega arith)
stopped_odd (suc zero) ts s w even low high = absurd (omega arith)
stopped_odd (suc (suc zero)) ts s w even low high = rw w (omega arith, refl)
stopped_odd (suc (suc (suc zero))) ts s w even low high = rw w (omega arith, refl)
stopped_odd (suc (suc (suc (suc zero)))) ts s w even low high = rw w (omega arith, refl)
stopped_odd (suc (suc (suc (suc (suc k))))) ts s w even low high = absurd (omega arith)

-- A writer that starts a call with the counter even and stops in the middle of it, behind its second,
-- third or fourth access of five, leaves a reader that has not returned by then, wherever it is in its
-- loop, without a return forever.
pub run-spins :
    (k n : ℕ) (ts : Timespec) (s : System)
    → s.writer ≡ between
    → s.seq % 2 ≡ 0
    → 2 ≤ k
    → k ≤ 4
    → Waits s.reader
    → Waits (run (replicate k (write ts) ++ replicate n read) s).reader
run-spins k n ts s w even low high waits =
    let (odd, same) = stopped_odd k ts s w even low high in
    rw (run-append (replicate k (write ts)) (replicate n read) s)
      (reads-Waits n (run (replicate k (write ts)) s) odd (subst Waits (sym same) waits))
