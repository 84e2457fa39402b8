-- ===== src/Programs/ProcessPreload/Pipe.antt =====
-- The report of src/shim/process.preload.c on its way through the pipe, which may cut it anywhere.
use linbox.Prelude.{
  ℕ, zero, suc, ◌-◌, ◌^◌, ◌<◌, ◌≡◌, ◌≢◌, refl, arith, Option, none, some, List, [], ◌∷◌, ◌++◌, map,
  leb, ◌==◌, if◌then◌else◌, length, take, All, length-append, length-take, take-append_split,
}
use mathlib.Core.Option
use linbox.Prelude.Words.{IsI64, le_bytes, unsigned64, unsigned64-lt, signed64-unsigned64}
use linbox.Shim.Random.{from_bytes}
use linbox.Programs.ProcessPreload.{read_all, Report, bytes_of, report_from}

-- What has been written, read by read.
abbrev pub joined : List (List ℕ) → List ℕ
joined [] = []
joined (piece ∷ pieces) = piece ++ joined pieces

abbrev pub IsFull : List ℕ → Type 0
IsFull piece = length piece ≢ 0

read_all-zero : (reads : List (Option (List ℕ))) → read_all reads 0 ≡ some []
unfolding read_all
read_all-zero [] = refl
read_all-zero (none ∷ reads) = refl
read_all-zero (some [] ∷ reads) = refl
read_all-zero (some (b ∷ bytes) ∷ reads) = refl

-- `read_all` on a pipe that gives the bytes in pieces of any length and is then at its end: it
-- gives the first `len` bytes in order just if so many were written, and is an error otherwise.
pub read_all-pieces :
    (pieces : List (List ℕ)) (more : List (Option (List ℕ))) (len : ℕ)
    → All IsFull pieces
    → read_all (map some pieces ++ (some [] ∷ more)) len
      ≡ (if leb len (length (joined pieces)) then some (take len (joined pieces)) else none)
unfolding read_all
read_all-pieces [] more zero full = refl
read_all-pieces [] more (suc len) full = ground arith
read_all-pieces ([] ∷ pieces) more len (full, others) = absurd (full refl)
read_all-pieces ((b ∷ bytes) ∷ pieces) more zero full = ground arith
read_all-pieces ((b ∷ bytes) ∷ pieces) more (suc len) (full, others) =
    let left : suc len - suc (length (take len bytes)) ≡ len - length bytes =
      omega (arith, length-take len bytes) in
    rw (left, read_all-pieces pieces more (len - length bytes) others)
      (both_parts len bytes (joined pieces))
  where
    both_parts :
        (n : ℕ) (front back : List ℕ)
        → (if suc n == 0
            then some []
            else Option.map
                (λ (rest : List ℕ). (b ∷ take n front) ++ rest)
                (if leb (n - length front) (length back)
                  then some (take (n - length front) back)
                  else none))
          ≡ (if leb (suc n) (suc (length (front ++ back)))
              then some (b ∷ take n (front ++ back))
              else none)
    both_parts n front back =
        rw (take-append_split n front back, length-append front back) (ground arith)

-- A report that its fields can hold.
abbrev pub IsReport : Report → Type 0
IsReport r = (r.random_word < 2 ^ 64) × IsI64 r.sec × (r.pid < 2 ^ 32)

eight-from_bytes : (x : ℕ) → x < 2 ^ 64 → from_bytes (le_bytes 8 x) ≡ x
unfolding from_bytes
eight-from_bytes x h = omega arith

four-from_bytes : (x : ℕ) → x < 2 ^ 32 → from_bytes (le_bytes 4 x) ≡ x
unfolding from_bytes
four-from_bytes x h = omega arith

pub report_from-bytes_of : (r : Report) → IsReport r → report_from (bytes_of r) ≡ r
unfolding report_from bytes_of
report_from-bytes_of r (word, sec, pid) =
    rw
      (
        eight-from_bytes r.random_word word,
        eight-from_bytes (unsigned64 r.sec) (unsigned64-lt r.sec),
        signed64-unsigned64 r.sec sec,
        four-from_bytes r.pid pid,
      )
      refl
