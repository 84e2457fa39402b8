-- ===== src/Shm/Seqlock/Invariant.antt =====
-- What every access of the writer and of the reader keeps.
use linbox.Prelude.{
  ℕ, ◌+◌, ◌*◌, ◌%◌, ◌^◌, ◌≤◌, ◌<◌, ◌≡◌, ◌≢◌, ◌⊎◌, inl, inr, refl, sym, ap, ◌∙◌, arith, Bool, true,
  false, ◌&&◌, List, [], ◌∷◌, ◌==◌, Bool-cases,
}
use mathlib.Core.Path.{subst}
use linbox.Prelude.Words.{u32}
use linbox.Shm.{Timespec}
use linbox.Shm.Seqlock.{
  Writer, between, loaded, marked, half_written, written, Reader, head, sampled, half_copied,
  copied, returned, System, write_step, read_step, Event, write, read, step,
}

-- The value of the last complete write.
abbrev pub IsLast : Timespec → List Timespec → Type 0
IsLast ts [] = ⊥
IsLast ts (t ∷ published) = t ≡ ts

abbrev pub Among : Timespec → List Timespec → Type 0
Among ts [] = ⊥
Among ts (t ∷ published) = (t ≡ ts) ⊎ Among ts published

-- The counter is twice the number of complete writes, and one more from the store that makes it
-- odd to the one that ends the write.
abbrev pub GoodWriter : Writer → ℕ → Timespec → ℕ → List Timespec → Type 0
GoodWriter between seq time writes published = (seq ≡ u32 (2 * writes)) × IsLast time published
GoodWriter (loaded old ts) seq time writes published =
    (old ≡ seq) × (seq ≡ u32 (2 * writes)) × IsLast time published
GoodWriter (marked old ts) seq time writes published =
    (old ≡ u32 (2 * writes)) × (seq ≡ u32 (old + 1)) × IsLast time published
GoodWriter (half_written old ts) seq time writes published =
    (old ≡ u32 (2 * writes)) × (seq ≡ u32 (old + 1)) × (time.tv_sec ≡ ts.tv_sec)
GoodWriter (written old ts) seq time writes published =
    (old ≡ u32 (2 * writes)) × (seq ≡ u32 (old + 1)) × (time ≡ ts)

-- The memory holds the last complete write as long as the writer has not touched it.
abbrev pub is_quiet : Writer → Bool
is_quiet between = true
is_quiet (loaded old ts) = true
is_quiet (marked old ts) = true
is_quiet _ = false

-- What the reader has copied is of the memory, unless a write has touched that since. `base` is the
-- number of complete writes from which on the reader is watched.
abbrev pub GoodReader : ℕ → Reader → Writer → Timespec → ℕ → List Timespec → Type 0
GoodReader base head writer time writes published = Unit
GoodReader base (sampled seq1 since) writer time writes published =
    (seq1 ≡ u32 (2 * since)) × (base ≤ since) × (since ≤ writes)
GoodReader base (half_copied seq1 since sec) writer time writes published =
    (seq1 ≡ u32 (2 * since))
    × (base ≤ since)
    × (since ≤ writes)
    × (is_quiet writer ≡ true → since ≡ writes → sec ≡ time.tv_sec)
GoodReader base (copied seq1 since snapshot) writer time writes published =
    (seq1 ≡ u32 (2 * since))
    × (base ≤ since)
    × (since ≤ writes)
    × (is_quiet writer ≡ true → since ≡ writes → snapshot ≡ time)
GoodReader base (returned ts) writer time writes published = Among ts published

pub record IsGood (base : ℕ) (s : System) : Type 0 where
  pub counted : base ≤ s.writes
  pub good_writer : GoodWriter s.writer s.seq s.time s.writes s.published
  pub good_reader : GoodReader base s.reader s.writer s.time s.writes s.published

-- The writer's accesses, as far as the writer is concerned.
write_step-GoodWriter :
    (ts : Timespec) (s : System) (w : Writer)
    → GoodWriter w s.seq s.time s.writes s.published
    → let t = write_step ts (record s { writer = w }) in
      GoodWriter t.writer t.seq t.time t.writes t.published
write_step-GoodWriter ts s between h = (refl, h.0, h.1)
write_step-GoodWriter ts s (loaded old new) (e, c, last) = (e ∙ c, refl, last)
write_step-GoodWriter ts s (marked old new) (c, e, last) = (c, e, refl)
write_step-GoodWriter ts s (half_written old new) (c, e, sec) =
    (c, e, ap (λ n. record { tv_sec = n; tv_nsec = new.tv_nsec }) sec)
write_step-GoodWriter ts s (written old new) (c, e, all) = (omega arith, sym all)

-- An access within a write that leaves the memory be, or after which it is not the last write.
within_write :
    (base : ℕ) (r : Reader) (w w' : Writer) (time time' : Timespec) (writes : ℕ)
    (published : List Timespec)
    → (is_quiet w' ≡ true → (is_quiet w ≡ true) × (time ≡ time'))
    → GoodReader base r w time writes published
    → GoodReader base r w' time' writes published
within_write base head w w' time time' writes published keep h = h
within_write base (sampled seq1 since) w w' time time' writes published keep h = h
within_write base (half_copied seq1 since sec) w w' time time' writes published keep
      (e, l, u, same) =
    (e, l, u, λ q now. same (keep q).0 now ∙ ap (λ (t : Timespec). t.tv_sec) (keep q).1)
within_write base (copied seq1 since snapshot) w w' time time' writes published keep
      (e, l, u, same) =
    (e, l, u, λ q now. same (keep q).0 now ∙ (keep q).1)
within_write base (returned ts) w w' time time' writes published keep h = h

-- The end of a write: what was copied before it is of an older one.
after_write :
    (base : ℕ) (r : Reader) (w : Writer) (time new : Timespec) (writes : ℕ)
    (published : List Timespec)
    → GoodReader base r w time writes published
    → GoodReader base r between time (writes + 1) (new ∷ published)
after_write base head w time new writes published h = h
after_write base (sampled seq1 since) w time new writes published (e, l, u) = (e, l, omega arith)
after_write base (half_copied seq1 since sec) w time new writes published (e, l, u, same) =
    (e, l, omega arith, λ q now. absurd (omega arith))
after_write base (copied seq1 since snapshot) w time new writes published (e, l, u, same) =
    (e, l, omega arith, λ q now. absurd (omega arith))
after_write base (returned ts) w time new writes published h = inr h

-- And as far as the reader is concerned.
write_step-GoodReader :
    (base : ℕ) (ts : Timespec) (s : System) (w : Writer)
    → GoodReader base s.reader w s.time s.writes s.published
    → let t = write_step ts (record s { writer = w }) in
      GoodReader base t.reader t.writer t.time t.writes t.published
write_step-GoodReader base ts s between h =
    within_write base s.reader between (loaded s.seq ts) s.time s.time s.writes s.published
      (λ q. (refl, refl)) h
write_step-GoodReader base ts s (loaded old new) h =
    within_write base s.reader (loaded old new) (marked old new) s.time s.time s.writes s.published
      (λ q. (refl, refl)) h
write_step-GoodReader base ts s (marked old new) h =
    within_write base s.reader (marked old new) (half_written old new) s.time _ s.writes s.published
      (λ q. absurd (cc)) h
write_step-GoodReader base ts s (half_written old new) h =
    within_write base s.reader (half_written old new) (written old new) s.time _ s.writes
      s.published (λ q. absurd (cc)) h
write_step-GoodReader base ts s (written old new) h =
    after_write base s.reader (written old new) s.time new s.writes s.published h

-- The check at the end of the reader's loop: the counter is the same, so no write came in between,
-- unless there were 2 ^ 31 of them or more.
check_passed :
    (base seq1 since seq writes : ℕ) (w : Writer) (snapshot time : Timespec)
    (published : List Timespec)
    → writes < base + 2 ^ 31
    → GoodWriter w seq time writes published
    → GoodReader base (copied seq1 since snapshot) w time writes published
    → seq1 ≡ seq
    → seq % 2 ≡ 0
    → Among snapshot published
check_passed base seq1 since seq writes between snapshot time (t ∷ published) b g h e even =
    inl (g.1 ∙ sym (h.3 refl (omega arith)))
check_passed base seq1 since seq writes (loaded old ts) snapshot time (t ∷ published) b g h e even =
    inl (g.2 ∙ sym (h.3 refl (omega arith)))
check_passed base seq1 since seq writes (marked old ts) snapshot time (t ∷ published) b g h e even =
    absurd (omega arith)
check_passed base seq1 since seq writes (half_written old ts) snapshot time published b g h e even =
    absurd (omega arith)
check_passed base seq1 since seq writes (written old ts) snapshot time published b g h e even =
    absurd (omega arith)
check_passed base seq1 since seq writes between snapshot time [] b g h e even = absurd g.1
check_passed base seq1 since seq writes (loaded old ts) snapshot time [] b g h e even = absurd g.2
check_passed base seq1 since seq writes (marked old ts) snapshot time [] b g h e even = absurd g.2

write_step-writes :
    (ts : Timespec) (s : System) (w : Writer)
    → s.writes ≤ (write_step ts (record s { writer = w })).writes
write_step-writes ts s between = omega arith
write_step-writes ts s (loaded old new) = omega arith
write_step-writes ts s (marked old new) = omega arith
write_step-writes ts s (half_written old new) = omega arith
write_step-writes ts s (written old new) = omega arith

even_counter :
    (w : Writer) (seq writes : ℕ) (time : Timespec) (published : List Timespec)
    → GoodWriter w seq time writes published
    → seq % 2 ≢ 1
    → seq ≡ u32 (2 * writes)
even_counter between seq writes time published g even = g.0
even_counter (loaded old ts) seq writes time published g even = g.1
even_counter (marked old ts) seq writes time published g even = absurd (omega arith)
even_counter (half_written old ts) seq writes time published g even = absurd (omega arith)
even_counter (written old ts) seq writes time published g even = absurd (omega arith)

-- The counter is odd only while a write is under way.
pub odd_counter :
    (w : Writer) (seq writes : ℕ) (time : Timespec) (published : List Timespec)
    → GoodWriter w seq time writes published
    → w ≡ between
    → seq % 2 ≡ 0
odd_counter between seq writes time published g e = omega arith
odd_counter (loaded old ts) seq writes time published g e = omega arith
odd_counter (marked old ts) seq writes time published g e = cc
odd_counter (half_written old ts) seq writes time published g e = cc
odd_counter (written old ts) seq writes time published g e = cc

read_step-GoodReader :
    (base : ℕ) (s : System) (r : Reader)
    → base ≤ s.writes
    → s.writes < base + 2 ^ 31
    → GoodWriter s.writer s.seq s.time s.writes s.published
    → GoodReader base r s.writer s.time s.writes s.published
    → GoodReader base
        (read_step (record s { reader = r })).reader
        s.writer
        s.time
        s.writes
        s.published
read_step-GoodReader base s head l b g h = elim (Bool-cases (s.seq % 2 == 1)) [
  | inl odd ↦ rw odd tt
  | inr even ↦ rw even (
    even_counter s.writer s.seq s.writes s.time s.published g (λ e. ground arith),
    l,
    omega arith,
  )
]
read_step-GoodReader base s (sampled seq1 since) l b g h = (h.0, h.1, h.2, λ q now. refl)
read_step-GoodReader base s (half_copied seq1 since sec) l b g h =
    (h.0, h.1, h.2, λ q now. ap (λ n. record { tv_sec = n; tv_nsec = s.time.tv_nsec }) (h.3 q now))
read_step-GoodReader base s (copied seq1 since snapshot) l b g h =
    elim (Bool-cases (seq1 == s.seq && s.seq % 2 == 0)) [
      | inr other ↦ rw other tt
      | inl same ↦ rw same (
          check_passed base seq1 since s.seq s.writes s.writer snapshot s.time s.published b g h
            (ground arith) (ground arith))
    ]
read_step-GoodReader base s (returned ts) l b g h = h

read_step-reader :
    (s : System) (r : Reader)
    → let t = read_step (record s { reader = r }) in t ≡ record s { reader = t.reader }
read_step-reader s head = elim (Bool-cases (s.seq % 2 == 1)) [
  | inl e ↦ rw e refl
  | inr e ↦ rw e refl
]
read_step-reader s (sampled seq1 since) = refl
read_step-reader s (half_copied seq1 since sec) = refl
read_step-reader s (copied seq1 since snapshot) = refl
read_step-reader s (returned ts) = refl

pub step-writes : (e : Event) (s : System) → s.writes ≤ (step e s).writes
step-writes (write ts) s = write_step-writes ts s s.writer
step-writes read s = rw (read_step-reader s s.reader) (omega arith)

pub step-IsGood :
    (base : ℕ) (e : Event) (s : System)
    → s.writes < base + 2 ^ 31
    → IsGood base s
    → IsGood base (step e s)
step-IsGood base (write ts) s b h = record {
  counted = omega (arith, h.counted, write_step-writes ts s s.writer);
  good_writer = write_step-GoodWriter ts s s.writer h.good_writer;
  good_reader = write_step-GoodReader base ts s s.writer h.good_reader;
}
step-IsGood base read s b h = subst (IsGood base) (sym (read_step-reader s s.reader)) (record {
  counted = h.counted;
  good_writer = h.good_writer;
  good_reader = read_step-GoodReader base s s.reader h.counted b h.good_writer h.good_reader;
})
