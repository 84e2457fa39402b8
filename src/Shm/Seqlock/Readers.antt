-- ===== src/Shm/Seqlock/Readers.antt =====
-- The writer of src/common/shm.c and any number of readers: the processes of the sandbox, each of
-- which reads the memory that they share.
use linbox.Prelude.{
  ℕ, ◌+◌, ◌%◌, ◌^◌, ◌<◌, ◌≡◌, ◌≢◌, refl, sym, ap, ◌∙◌, arith, List, [], ◌∷◌, ◌==◌, if◌then◌else◌,
  Bool-cases, inl, inr,
}
use mathlib.Core.Path.{subst}
use linbox.Prelude.Family.{update, update-same, update-other}
use linbox.Shm.{Timespec}
use linbox.Shm.Seqlock.{
  between, Reader, head, returned, System, Event, Writer, loaded, marked, half_written, written,
  sampled, half_copied, copied, write, read, write_step, read_step, run,
}
use linbox.Shm.Seqlock.Invariant.{Among}
use linbox.Shm.Seqlock.Untorn.{Starts, run-untorn}

-- The memory with its writer, and where each process is; the reader in `shared` is none of them.
pub record Crowd : Type 0 where
  pub shared : System
  pub readers : ℕ → Reader

-- What one of the processes sees.
abbrev pub seen_by : ℕ → Crowd → System
seen_by i c = record c.shared { reader = c.readers i }

-- Who makes the next access.
pub data Access : Type 0 where
  writes : Timespec → Access
  reads : ℕ → Access

unfoldable pub crowd_step : Access → Crowd → Crowd
crowd_step (writes ts) c = record c { shared = write_step ts c.shared }
crowd_step (reads i) c = record c { readers = update c.readers i (read_step (seen_by i c)).reader }

unfoldable pub crowd_run : List Access → Crowd → Crowd
crowd_run [] c = c
crowd_run (a ∷ accesses) c = crowd_run accesses (crowd_step a c)

-- The accesses of the writer and of one process.
pub events_of : ℕ → List Access → List Event
events_of i [] = []
events_of i (writes ts ∷ accesses) = write ts ∷ events_of i accesses
events_of i (reads j ∷ accesses) =
    let rest = events_of i accesses in if j == i then read ∷ rest else rest

-- The accesses that are left without those of the other processes.
pub only : ℕ → List Access → List Access
only i [] = []
only i (writes ts ∷ accesses) = writes ts ∷ only i accesses
only i (reads j ∷ accesses) = let rest = only i accesses in if j == i then reads j ∷ rest else rest

events_of-only :
    (i : ℕ) (accesses : List Access) → events_of i (only i accesses) ≡ events_of i accesses
unfolding events_of only
events_of-only i [] = refl
events_of-only i (writes ts ∷ accesses) = ap (λ es. write ts ∷ es) (events_of-only i accesses)
events_of-only i (reads j ∷ accesses) = elim (Bool-cases (j == i)) [
  | inl same ↦ rw same (rw same (ap (λ es. read ∷ es) (events_of-only i accesses)))
  | inr other ↦ rw other (events_of-only i accesses)
]

write-beside :
    (ts : Timespec) (w : Writer) (r : Reader) (s : System)
    → record (write_step ts (record s { writer = w })) { reader = r }
      ≡ write_step ts (record s { writer = w; reader = r })
write-beside ts between r s = refl
write-beside ts (loaded seq u) r s = refl
write-beside ts (marked seq u) r s = refl
write-beside ts (half_written seq u) r s = refl
write-beside ts (written seq u) r s = refl

read-alone :
    (r : Reader) (s : System)
    → let s' = record s { reader = r } in record s { reader = (read_step s').reader } ≡ read_step s'
read-alone head s = elim (Bool-cases (s.seq % 2 == 1)) [
  | inl odd ↦ rw odd refl
  | inr even ↦ rw even refl
]
read-alone (sampled seq1 since) s = refl
read-alone (half_copied seq1 since sec) s = refl
read-alone (copied seq1 since snapshot) s = refl
read-alone (returned ts) s = refl

-- What one process sees is a run of the writer and that process alone.
run-seen :
    (i : ℕ) (accesses : List Access) (c : Crowd)
    → seen_by i (crowd_run accesses c) ≡ run (events_of i accesses) (seen_by i c)
unfolding crowd_run crowd_step events_of run
run-seen i [] c = refl
run-seen i (writes ts ∷ accesses) c =
    run-seen i accesses (crowd_step (writes ts) c)
    ∙ ap (run (events_of i accesses)) (write-beside ts c.shared.writer (c.readers i) c.shared)
run-seen i (reads j ∷ accesses) c =
    run-seen i accesses (crowd_step (reads j) c) ∙ elim (Bool-cases (j == i)) [
      | inl same ↦
          let here : j ≡ i = ground arith in
          let mine : (crowd_step (reads j) c).readers i ≡ (read_step (seen_by i c)).reader =
            subst
              (λ k.
                update c.readers j (read_step (seen_by j c)).reader k
                ≡ (read_step (seen_by k c)).reader)
              here (update-same c.readers j (read_step (seen_by j c)).reader) in
          rw same (
            ap (run (events_of i accesses))
              (ap (λ r. record c.shared { reader = r }) mine ∙ read-alone (c.readers i) c.shared))
      | inr other ↦
          let there : j ≢ i = ground arith in
          rw other (
            ap (λ r. run (events_of i accesses) (record c.shared { reader = r }))
              (update-other c.readers j i _ there))
    ]

-- However the accesses of the writer and of any number of processes interleave, a read that one of
-- them has returned from, which it began with the writer between two calls, gave a time as a whole
-- that was current at some moment of it. It holds for up to 2 ^ 31 - 1 writes meanwhile.
pub crowd_run-untorn :
    (accesses : List Access) (i : ℕ) (c : Crowd) (ts : Timespec)
    → Starts (seen_by i c)
    → (crowd_run accesses c).shared.writes < c.shared.writes + 2 ^ 31
    → (crowd_run accesses c).readers i ≡ returned ts
    → Among ts (crowd_run accesses c).shared.published
crowd_run-untorn accesses i c ts h few e =
    let same = run-seen i accesses c in
    subst (λ (s : System). Among ts s.published) (sym same)
      (run-untorn (events_of i accesses) (seen_by i c) ts h
        (subst (λ (s : System). s.writes < c.shared.writes + 2 ^ 31) same few)
        (ap (λ (s : System). s.reader) (sym same) ∙ e))

-- Readers do not disturb each other: where a process stands, and the memory, are the same if the
-- accesses of all other processes are left out.
pub crowd_run-apart :
    (accesses : List Access) (i : ℕ) (c : Crowd)
    → seen_by i (crowd_run accesses c) ≡ seen_by i (crowd_run (only i accesses) c)
crowd_run-apart accesses i c =
    run-seen i accesses c
    ∙ ap (λ es. run es (seen_by i c)) (sym (events_of-only i accesses))
    ∙ sym (run-seen i (only i accesses) c)
