-- ===== src/Shim/Random.antt =====
-- src/shim/random.c: the random functions of the C library over the generator of the process.
-- Descriptors has the rest of the file.
pub mod Sequence
mod Tests
use linbox.Prelude.{
  ℕ, zero, suc, ◌+◌, ◌*◌, ◌^◌, ◌≡◌, Bool, true, false, Option, none, some, List, [], ◌∷◌, ltb,
  if◌then◌else◌, bit_and,
}
use linbox.Prelude.Int.{ℤ, pos, negsuc}
use linbox.Prelude.Words.{u32}
use linbox.Prng.{next_u32, seeded}
use linbox.Shm.Handle.{einval}
use linbox.Shim.{State, Boot, random_fill, random_reseed, prng_seed_value}

-- The state that these functions share: the shim's, and `g_rand_seeded`.
pub record RandState : Type 0 where
  pub shim : State
  pub rand_seeded : Bool

abbrev pub eio : ℕ
eio = 5

-- `getentropy`: the return value, errno if it is set, what is written to `buf`, and the state.
unfoldable pub getentropy : Boot → State → ℕ → ℤ × Option ℕ × List ℕ × State
getentropy boot st buflen =
    let (bytes, st') = random_fill boot st buflen in
    if ltb 256 buflen then (negsuc 0, some eio, [], st) else (pos 0, none, bytes, st')

-- The number that bytes in memory are, lowest first.
unfoldable pub from_bytes : List ℕ → ℕ
from_bytes [] = 0
from_bytes (b ∷ bytes) = b + 256 * from_bytes bytes

-- `linbox_random_u32`, which `arc4random` returns
pub random_u32 : Boot → State → ℕ × State
random_u32 boot st = let (bytes, st') = random_fill boot st 4 in (from_bytes bytes, st')

pub srand : ℕ → RandState → RandState
srand seed r = record { shim = random_reseed seed r.shim; rand_seeded = true }

-- `srandom`
pub srandom : ℕ → RandState → RandState
srandom seed r = record { shim = random_reseed seed r.shim; rand_seeded = true }

pub seed_rand_once : Boot → RandState → RandState
seed_rand_once boot r0 =
    let (seed, st) = prng_seed_value boot r0.shim in
    let r1 = srand (u32 seed) (record r0 { shim = st }) in
    let (seed', st') = prng_seed_value boot r1.shim in
    let r2 = srandom (u32 seed') (record r1 { shim = st' }) in
    if r0.rand_seeded then r0 else record r2 { rand_seeded = true }

-- The value of RAND_MAX.
abbrev pub rand_max : ℕ
rand_max = 0x7FFFFFFF

pub rand : Boot → RandState → ℕ × RandState
rand boot r0 =
    let r = seed_rand_once boot r0 in
    let (word, st) = random_u32 boot r.shim in (bit_and word rand_max, record r { shim = st })

-- `random`
pub random : Boot → RandState → ℕ × RandState
random boot r0 =
    let r = seed_rand_once boot r0 in
    let (word, st) = random_u32 boot r.shim in (bit_and word 0x7FFFFFFF, record r { shim = st })

-- `rand_r`: the return value, errno if it is set, and the value behind the pointer, `none` for NULL.
pub rand_r : Option ℕ → ℤ × Option ℕ × Option ℕ
rand_r none = (negsuc 0, some einval, none)
rand_r (some seed) =
    let (next, prng) = next_u32 (seeded seed) in (pos (bit_and next rand_max), none, some next)

-- So many calls of `rand` in a row.
unfoldable pub rands : ℕ → Boot → RandState → List ℕ
rands zero boot r = []
rands (suc n) boot r = (rand boot r).0 ∷ rands n boot (rand boot r).1
