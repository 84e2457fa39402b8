-- ===== src/Shim/Descriptors/Files.antt =====
-- src/shim/random.c: `open`, `openat`, `read` and `close`, which the shim answers itself for
-- /dev/urandom and /dev/random and passes on to the C library for all else.
use linbox.Prelude.{
  ℕ, ◌+◌, ◌≡◌, refl, sym, ap, ◌∙◌, Bool, true, false, not, ◌&&◌, ◌||◌, Option, none, some, List, [],
  ◌∷◌, if◌then◌else◌, inl, inr, Bool-cases, ◌⊎◌, ◌<◌, length, arith,
}
use mathlib.Core.Path.{subst}
use linbox.Prelude.Int.{ℤ, pos, negsuc}
use linbox.Prelude.Words.{signed64}
use linbox.Shim.{Boot, State, random_fill}
use linbox.Shim.Environment.{same_bytes}
use linbox.Shim.Descriptors.{
  VirtualFd, virtual_fd_base, place_of, length-allocate_from, InPlace, Added, allocate_from,
  allocate_virtual_fd, is_virtual_fd, release_virtual_fd, same_fd, same_fd_refl, same_fd-eq,
  allocate_virtual_fd-Added, release_virtual_fd-removes,
}

abbrev pub dev_urandom : List ℕ
dev_urandom = 47 ∷ 100 ∷ 101 ∷ 118 ∷ 47 ∷ 117 ∷ 114 ∷ 97 ∷ 110 ∷ 100 ∷ 111 ∷ 109 ∷ []

abbrev pub dev_random : List ℕ
dev_random = 47 ∷ 100 ∷ 101 ∷ 118 ∷ 47 ∷ 114 ∷ 97 ∷ 110 ∷ 100 ∷ 111 ∷ 109 ∷ []

-- `linbox_is_random_path`, on the bytes of a path before its 0; `none` for NULL
pub is_random_path : Option (List ℕ) → Bool
is_random_path none = false
is_random_path (some path) = same_bytes path dev_urandom || same_bytes path dev_random

pub is_random_path-dev_random : is_random_path (some dev_random) ≡ true
unfolding is_random_path same_bytes
is_random_path-dev_random = refl

pub is_random_path-dev_urandom : is_random_path (some dev_urandom) ≡ true
unfolding is_random_path same_bytes
is_random_path-dev_urandom = refl

abbrev pub emfile : ℕ
emfile = 24

-- The state of the process that these calls use: the shim's, and `g_virtual_fds`.
pub record FileState : Type 0 where
  pub shim : State
  pub table : List VirtualFd

-- The shim's own answer to a call: the value returned, errno if it is set, the bytes written to the
-- buffer, and the state after the call.
pub record FileReply : Type 0 where
  pub rc : ℤ
  pub errno : Option ℕ
  pub bytes : List ℕ
  pub after : FileState

-- A call of the C library's function of that name, with its arguments.
pub data Passed : Type 0 where
  real_open : Option (List ℕ) → ℤ → ℕ → Passed
  real_openat : ℤ → Option (List ℕ) → ℤ → ℕ → Passed
  real_read : ℤ → ℕ → Passed
  real_close : ℤ → Passed

pub data Routed : Type 0 where
  answered : FileReply → Routed
  passed_on : Passed → Routed

-- `return linbox_allocate_virtual_fd()`
abbrev allocation : State → Option ℤ × List VirtualFd → FileReply
allocation st (none, table) = record {
  rc = negsuc 0;
  errno = some emfile;
  bytes = [];
  after = record { shim = st; table = table };
}
allocation st (some fd, table) = record {
  rc = fd;
  errno = none;
  bytes = [];
  after = record { shim = st; table = table };
}

-- `open`: the mode that the caller gave is not handed on, 0 is.
pub open_file : Option (List ℕ) → ℤ → FileState → Routed
open_file path flags f =
    if is_random_path path
    then answered (allocation f.shim (allocate_virtual_fd f.table))
    else passed_on (real_open path flags 0)

pub openat_file : ℤ → Option (List ℕ) → ℤ → FileState → Routed
openat_file dirfd path flags f =
    if is_random_path path
    then answered (allocation f.shim (allocate_virtual_fd f.table))
    else passed_on (real_openat dirfd path flags 0)

-- `read` into a buffer that has room for `count` bytes
pub read_fd : Boot → ℤ → ℕ → FileState → Routed
read_fd boot fd count f =
    let (bytes, st) = random_fill boot f.shim count in
    if is_virtual_fd fd f.table
    then answered (record {
      rc = signed64 count;
      errno = none;
      bytes = bytes;
      after = record f { shim = st };
    })
    else passed_on (real_read fd count)

pub close_fd : ℤ → FileState → Routed
close_fd fd f =
    if is_virtual_fd fd f.table
    then answered (record {
      rc = pos 0;
      errno = none;
      bytes = [];
      after = record f { table = release_virtual_fd fd f.table };
    })
    else passed_on (real_close fd)

-- Every place of the table is taken.
unfoldable pub all_used : List VirtualFd → Bool
all_used [] = true
all_used (v ∷ table) = v.used && all_used table

taken :
    (i : ℕ) (table : List VirtualFd)
    → (allocate_from i table).0 ≡ none
    → (all_used table ≡ true) × ((allocate_from i table).1 ≡ table)
unfolding allocate_from all_used
taken i [] e = (refl, refl)
taken i (v ∷ table) e = elim (Bool-cases v.used) [
  | inr u ↦ let wrong = rw u at e in cc
  | inl u ↦
      let (full, same) = taken (i + 1) table (rw u at e) in simp u (full, ap (λ t. v ∷ t) same)
]

free :
    (i : ℕ) (table : List VirtualFd) (fd : ℤ)
    → (allocate_from i table).0 ≡ some fd
    → all_used table ≡ false
unfolding allocate_from all_used
free i [] fd e = cc
free i (v ∷ table) fd e = elim (Bool-cases v.used) [
  | inr u ↦ rw u refl
  | inl u ↦ rw u (free (i + 1) table fd (rw u at e))
]

-- The number of one of the first `n` places.
abbrev pub Numbered : ℕ → ℤ → Type 0
Numbered n fd = (k : ℕ) × (k < n) × (fd ≡ pos (virtual_fd_base + k))

-- What a descriptor that was made up is good for.
abbrev pub Serves : Boot → ℕ → FileState → FileReply → Type 0
Serves boot count f a =
    (b : FileReply) × (c : FileReply) × (read_fd boot a.rc count a.after ≡ answered b)
    × (b.rc ≡ signed64 count)
    × (b.bytes ≡ (random_fill boot f.shim count).0)
    × (close_fd a.rc b.after ≡ answered c)
    × (c.rc ≡ pos 0)
    × (c.after.shim ≡ (random_fill boot f.shim count).1)
    × InPlace 0 c.after.table
    × ((other : ℤ) → is_virtual_fd other c.after.table ≡ is_virtual_fd other f.table)

or_true : (x : Bool) → (x || true) ≡ true
or_true true = refl
or_true false = refl

gone : (t s : Bool) → (s ≡ true → t ≡ false) → ((t || s) && not s) ≡ t
gone true true h = sym (h refl)
gone false true h = refl
gone true false h = refl
gone false false h = refl

-- After it is closed, a descriptor that was added leaves no trace.
closed_again :
    (fd : ℤ) (table after : List VirtualFd)
    → Added 0 fd table after
    → (is_virtual_fd fd after ≡ true)
      × InPlace 0 (release_virtual_fd fd after)
      × ((other : ℤ)
          → is_virtual_fd other (release_virtual_fd fd after) ≡ is_virtual_fd other table)
closed_again fd table after (good, fresh, others) =
    let (kept, removed) = release_virtual_fd-removes 0 fd after good in
    (
      others fd ∙ rw (same_fd_refl fd) (or_true (is_virtual_fd fd table)),
      kept,
      λ other.
          removed other
          ∙ ap (λ x. x && not (same_fd fd other)) (others other)
          ∙ gone (is_virtual_fd other table) (same_fd fd other)
              (λ e. ap (λ x. is_virtual_fd x table) (sym (same_fd-eq fd other e)) ∙ fresh),
    )

serves :
    (boot : Boot) (count : ℕ) (f : FileState) (fd : ℤ) (after : List VirtualFd)
    → Added 0 fd f.table after
    → Serves boot count f (allocation f.shim (some fd, after))
unfolding read_fd close_fd
serves boot count f fd after added =
    let (used, kept, others) = closed_again fd f.table after added in
    let (bytes, st) = random_fill boot f.shim count in
    let drawn : FileReply = record {
      rc = signed64 count;
      errno = none;
      bytes = bytes;
      after = record { shim = st; table = after };
    } in
    let closed : FileReply = record {
      rc = pos 0;
      errno = none;
      bytes = [];
      after = record { shim = st; table = release_virtual_fd fd after };
    } in
    (drawn, closed, rw used refl, refl, refl, rw used refl, refl, refl, kept, others)

-- What `linbox_allocate_virtual_fd` can come to.
allocated :
    (boot : Boot) (count : ℕ) (f : FileState) (r : Option ℤ × List VirtualFd)
    → InPlace 0 f.table
    → allocate_virtual_fd f.table ≡ r
    → let a = allocation f.shim r in
      ((all_used f.table ≡ false)
        × (a.errno ≡ none)
        × Numbered (length f.table) a.rc
        × (is_virtual_fd a.rc f.table ≡ false)
        × (length a.after.table ≡ length f.table)
        × Serves boot count f a)
      ⊎ ((all_used f.table ≡ true) × (a.rc ≡ negsuc 0) × (a.errno ≡ some emfile) × (a.after ≡ f))
allocated boot count f (some fd, table) h e =
    let added =
      allocate_virtual_fd-Added f.table fd h (ap (λ (r : Option ℤ × List VirtualFd). r.0) e) in
    let same = ap (λ (r : Option ℤ × List VirtualFd). r.1) e in
    let here = subst (λ t. Added 0 fd f.table t) same added in
    let got = ap (λ (r : Option ℤ × List VirtualFd). r.0) e in
    let (k, _, number, low) = place_of 0 f.table fd got in
    inl (
      free 0 f.table fd got,
      refl,
      (k, omega arith, number),
      here.1,
      sym (ap length same) ∙ length-allocate_from 0 f.table,
      serves boot count f fd table here,
    )
allocated boot count f (none, table) h e =
    let (full, same) = taken 0 f.table (ap (λ (r : Option ℤ × List VirtualFd). r.0) e) in
    let there = sym (ap (λ (r : Option ℤ × List VirtualFd). r.1) e) ∙ same in
    inr (full, refl, refl, ap (λ t. record { shim = f.shim; table = t }) there)

-- A session with a random device, on a table of any length.
pub session :
    (boot : Boot) (path : Option (List ℕ)) (dirfd flags : ℤ) (count : ℕ) (f : FileState)
    → InPlace 0 f.table
    → is_random_path path ≡ true
    → (a : FileReply) × (open_file path flags f ≡ answered a)
      × (openat_file dirfd path flags f ≡ answered a)
      × (((all_used f.table ≡ false)
            × (a.errno ≡ none)
            × Numbered (length f.table) a.rc
            × (is_virtual_fd a.rc f.table ≡ false)
            × (length a.after.table ≡ length f.table)
            × Serves boot count f a)
          ⊎ ((all_used f.table ≡ true)
              × (a.rc ≡ negsuc 0)
              × (a.errno ≡ some emfile)
              × (a.after ≡ f)))
unfolding open_file openat_file
session boot path dirfd flags count f h random = rw random (
  allocation f.shim (allocate_virtual_fd f.table),
  refl,
  refl,
  allocated boot count f (allocate_virtual_fd f.table) h refl,
)

-- On a table of 16 places a random device can be opened, read and closed, by `open` as by `openat`,
-- whatever the flags and the state of the generator, just if one of the places is free: the descriptor
-- is one from 1000000 to 1000015 and was not in use, reading from it fills the whole buffer from the
-- generator of the process, and once it is closed the same descriptors are in use as before. With all 16
-- places taken the call fails with EMFILE and changes nothing. The table keeps its 16 places.
pub close_fd-open_file :
    (boot : Boot) (path : Option (List ℕ)) (dirfd flags : ℤ) (count : ℕ) (f : FileState)
    → length f.table ≡ 16
    → InPlace 0 f.table
    → is_random_path path ≡ true
    → (a : FileReply) × (open_file path flags f ≡ answered a)
      × (openat_file dirfd path flags f ≡ answered a)
      × (((all_used f.table ≡ false)
            × (a.errno ≡ none)
            × Numbered 16 a.rc
            × (is_virtual_fd a.rc f.table ≡ false)
            × (length a.after.table ≡ 16)
            × Serves boot count f a)
          ⊎ ((all_used f.table ≡ true)
              × (a.rc ≡ negsuc 0)
              × (a.errno ≡ some emfile)
              × (a.after ≡ f)))
close_fd-open_file boot path dirfd flags count f places h random =
    rw places at (session boot path dirfd flags count f h random)
