-- ===== src/Shm/Seqlock.antt =====
-- `linbox_shm_write_time` and `linbox_shm_read_time` of src/common/shm.c at once: one writer and
-- one reader, whose accesses to the shared memory interleave in any order. The accesses of each
-- come in program order, as x86-64 keeps it; the two fields of the time are read and written one
-- after the other, so a reader may meet a half-written time.
pub mod Invariant
pub mod Untorn
pub mod Progress
pub mod Readers
use linbox.Prelude.{ℕ, ◌+◌, ◌%◌, ◌≡◌, Bool, true, false, ◌&&◌, List, [], ◌∷◌, ◌==◌, if◌then◌else◌}
use linbox.Prelude.Int.{ℤ}
use linbox.Prelude.Words.{u32}
use linbox.Shm.{Timespec}

-- Where the writer is: between calls; with `seq` loaded; with the counter odd; with `tv_sec`
-- written; with both fields written.
pub data Writer : Type 0 where
  between : Writer
  loaded marked half_written written : (seq : ℕ) (ts : Timespec) → Writer

-- Where the reader is: at the head of its loop; with `seq1` loaded; with `tv_sec` copied; with both fields
-- copied; returned. `since` is no part of the program: it is the number of writes that were
-- complete when `seq1` was loaded.
pub data Reader : Type 0 where
  head : Reader
  sampled : (seq1 since : ℕ) → Reader
  half_copied : (seq1 since : ℕ) (tv_sec : ℤ) → Reader
  copied : (seq1 since : ℕ) (snapshot : Timespec) → Reader
  returned : Timespec → Reader

-- `seq` and `time` are the memory. `writes` and `published`, the number of complete writes and their values,
-- the last one first, are no part of the program.
pub record System : Type 0 where
  pub seq : ℕ  -- uint32_t
  pub time : Timespec
  pub writer : Writer
  pub reader : Reader
  pub writes : ℕ
  pub published : List Timespec

-- The next access of the writer; `ts` is the argument, if a call starts here.
abbrev pub write_step : Timespec → System → System
write_step ts s = elim s.writer [
  | between ↦ record s { writer = loaded s.seq ts }
  | loaded seq ts ↦ record s { seq = u32 (seq + 1); writer = marked seq ts }
  | marked seq ts ↦ record s {
    time = record { tv_sec = ts.tv_sec; tv_nsec = s.time.tv_nsec };
    writer = half_written seq ts;
  }
  | half_written seq ts ↦ record s {
    time = record { tv_sec = s.time.tv_sec; tv_nsec = ts.tv_nsec };
    writer = written seq ts;
  }
  | written seq ts ↦ record s {
    seq = u32 (seq + 2);
    writer = between;
    writes = s.writes + 1;
    published = ts ∷ s.published;
  }
]

-- The next access of the reader: with an odd counter it goes round its loop, and so it does
-- when the counter is not the one that it loaded.
abbrev pub read_step : System → System
read_step s = elim s.reader [
  | head ↦ if s.seq % 2 == 1 then s else record s { reader = sampled s.seq s.writes }
  | sampled seq1 since ↦ record s { reader = half_copied seq1 since s.time.tv_sec }
  | half_copied seq1 since sec ↦ record s {
    reader = copied seq1 since (record { tv_sec = sec; tv_nsec = s.time.tv_nsec });
  }
  | copied seq1 since snapshot ↦ record s {
    reader = if seq1 == s.seq && s.seq % 2 == 0 then returned snapshot else head;
  }
  | returned ts ↦ s
]

-- Which of the two makes its next access.
pub data Event : Type 0 where
  write : Timespec → Event
  read : Event

abbrev pub step : Event → System → System
step (write ts) s = write_step ts s
step read s = read_step s

unfoldable pub run : List Event → System → System
run [] s = s
run (e ∷ es) s = run es (step e s)
