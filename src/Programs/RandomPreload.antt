-- ===== src/Programs/RandomPreload.antt =====
-- src/shim/random.preload.c: a program that draws from each random source of the shim and prints what
-- it gets.
pub mod Repeatable
mod Tests
use linbox.Prelude.{
  ℕ, ◌≡◌, Bool, true, false, not, ◌||◌, Option, none, some, List, ◌==◌, if◌then◌else◌,
}
use linbox.Prelude.Int.{ℤ, pos, negsuc, ltb_ℤ}
use linbox.Prelude.Words.{signed64}
use linbox.Shm.Handle.{is_zero}
use linbox.Shim.{State, Boot, random_fill, random_uniform}
use linbox.Shim.Descriptors.{VirtualFd}
use linbox.Shim.Descriptors.Files.{
  FileState, FileReply, Routed, answered, passed_on, dev_urandom, open_file, read_fd, close_fd,
}
use linbox.Shim.Random.{RandState, getentropy, random_u32, srand, rand, rand_r}

-- What the program prints: the three buffers, byte for byte, and the numbers of the last line.
pub record Printed : Type 0 where
  pub a : List ℕ
  pub b : List ℕ
  pub c : List ℕ
  pub arc : ℕ
  pub uni : ℕ
  pub r1 : ℕ
  pub r2 : ℕ
  pub rr : ℤ
  pub seed : Option ℕ

-- A run ends with a status that is not 0, prints and ends with 0, or has called the C library for a
-- descriptor that the shim should have answered for.
pub data Run : Type 0 where
  failed : ℕ → Run
  printed : Printed → Run
  escaped : Run

abbrev is_16 : ℤ → Bool
is_16 (pos n) = n == 16
is_16 (negsuc n) = false

-- The part of `main` behind `close`, with the buffers. The fuel is that of `arc4random_uniform`.
pub print_numbers : ℕ → Boot → List ℕ → List ℕ → List ℕ → State → Option Run
print_numbers fuel boot a b c st0 =
    let (arc, st1) = random_u32 boot st0 in
    elim (random_uniform fuel boot st1 100) [
      | none ↦ none
      | some (uni, st2) ↦
          let s3 = srand 42 (record { shim = st2; rand_seeded = false }) in
          let (r1, s4) = rand boot s3 in
          let (r2, s5) = rand boot s4 in
          let (rr, _, seed) = rand_r (some 77) in
          some (
            printed (record {
              a = a;
              b = b;
              c = c;
              arc = arc;
              uni = uni;
              r1 = r1;
              r2 = r2;
              rr = rr;
              seed = seed;
            }))
    ]

-- The part of `main` from `open` to `close`; `rest` is what follows, on the bytes read.
abbrev pub Rest : Type 0
Rest = List ℕ → State → Option Run

unfoldable pub after_close : Rest → List ℕ → Routed → Option Run
after_close rest c (passed_on call) = some escaped
after_close rest c (answered z) =
    if not (is_zero z.rc) then some (failed 5) else rest c z.after.shim

unfoldable pub after_read : Rest → ℤ → Routed → Option Run
after_read rest fd (passed_on call) = some escaped
after_read rest fd (answered r) =
    if not (is_16 r.rc) then some (failed 4) else after_close rest r.bytes (close_fd fd r.after)

unfoldable pub after_open : Boot → Rest → Routed → Option Run
after_open boot rest (passed_on call) = some escaped
after_open boot rest (answered o) =
    if ltb_ℤ o.rc (pos 0)
    then some (failed 3)
    else after_read rest o.rc (read_fd boot o.rc 16 o.after)

pub read_device : Boot → Rest → FileState → Option Run
read_device boot rest f = after_open boot rest (open_file (some dev_urandom) (pos 0) f)

-- `main`, on a process with that state and that table of descriptors; `none` is fuel that ran out.
pub random_main : ℕ → Boot → FileState → Option Run
random_main fuel boot f =
    let (a, st1) = random_fill boot f.shim 16 in
    let (rc, _, b, st2) = getentropy boot st1 16 in
    if not (is_16 (signed64 16))
    then some (failed 1)
    else if not (is_zero rc)
    then some (failed 2)
    else read_device boot (λ c st. print_numbers fuel boot a b c st) (record f { shim = st2 })
