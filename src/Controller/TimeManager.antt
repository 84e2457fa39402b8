-- ===== src/Controller/TimeManager.antt =====
-- src/controller/time-manager.c. `none` is a NULL pointer in an argument; where it is the result
-- of `ns_add`, of `tick` and of what calls them, it is a signed overflow, undefined in C.
pub mod NsAdd
pub mod Publish
pub mod Held
use linbox.Prelude.{
  ℕ, zero, suc, ◌+◌, ◌*◌, ◌/◌, ◌%◌, ◌^◌, ◌<◌, ◌≡◌, refl, Bool, true, false, Option, none, some, not,
  List, [], ◌++◌, ◌==◌, ltb, if◌then◌else◌,
}
use linbox.Prelude.Int.{ℤ, pos, negsuc, ◌+ℤ◌, ◌-ℤ◌, ◌*ℤ◌, ltb_ℤ}
use linbox.Shm.{Timespec, Layout, write_time}
use linbox.Shm.Handle.{Handle, Kernel, Call, create, attach, destroy, is_zero, eexist}

infixl 5 ◌>>=◌
abbrev pub ◌>>=◌ {ℓ κ} : {A : Type ℓ} {B : Type κ} → Option A → (A → Option B) → Option B
none >>= f = none
some a >>= f = f a

-- A chain of two steps that are defined: so are both.
pub both_defined {ℓ κ} :
    {V : Type ℓ} {C : Type κ} {c : C} (first : Option V) (next : V → Option C)
    → (first >>= next) ≡ some c
    → (value : V) × (first ≡ some value) × (next value ≡ some c)
both_defined none next both = cc
both_defined (some value) next both = (value, refl, both)

-- The value of a sum or product in `int64_t`, if it has one.
abbrev pub int64 : ℤ → Option ℤ
int64 (pos n) = if ltb n (2 ^ 63) then some (pos n) else none
int64 (negsuc n) = if ltb n (2 ^ 63) then some (negsuc n) else none

abbrev pub neg : ℕ → ℤ
neg zero = pos 0
neg (suc n) = negsuc n

-- `/` and `%` of C by a positive constant: the quotient is cut off towards 0.
abbrev pub quot : ℤ → ℕ → ℤ
quot (pos n) d = pos (n / d)
quot (negsuc n) d = neg (suc n / d)

abbrev pub rem : ℤ → ℕ → ℤ
rem (pos n) d = pos (n % d)
rem (negsuc n) d = neg (suc n % d)

abbrev pub billion : ℕ
billion = 1000000000

-- The part of `ns_add` behind its sum.
abbrev pub split_ns : ℤ → Timespec
split_ns ns =
    let sec = quot ns billion in
    let nsec = rem ns billion in
    if ltb_ℤ nsec (pos 0)
    then record { tv_sec = sec -ℤ pos 1; tv_nsec = nsec +ℤ pos billion }
    else record { tv_sec = sec; tv_nsec = nsec }

unfoldable pub ns_add : Timespec → ℤ → Option Timespec
ns_add t delta_ns = do
  a ← int64 (t.tv_sec *ℤ pos billion)
  b ← int64 (a +ℤ t.tv_nsec)
  ns ← int64 (b +ℤ delta_ns)
  some (split_ns ns)

-- `linbox_time_manager_t`
pub record TimeManager : Type 0 where
  pub shm : Handle
  pub current : Timespec
  pub seed : ℕ  -- uint64_t

abbrev pub fake_epoch_sec : ℕ
fake_epoch_sec = 1735689600

-- What all the setters do: publish the time, if memory is mapped.
abbrev publish : TimeManager → Timespec → ℕ → TimeManager
publish tm ts now =
    let shm = tm.shm in
    elim shm.layout [
      | none ↦ tm
      | some mem ↦ record tm {
        current = ts;
        shm = record shm { layout = some (write_time mem ts now) };
      }
    ]

-- `linbox_time_manager_tick`; `now` is what `now_ns()` gives. `tm` is never NULL here and below.
unfoldable pub tick : TimeManager → ℤ → ℕ → Option TimeManager
tick tm delta_ns now = elim tm.shm.layout [
  | none ↦ some tm
  | some mem ↦ ns_add tm.current delta_ns >>= λ next. some (publish tm next now)
]

-- `linbox_time_manager_set_time`
unfoldable pub set_time : TimeManager → Option Timespec → ℕ → TimeManager
set_time tm none now = tm
set_time tm (some ts) now = publish tm ts now

-- `linbox_time_manager_set_seed`
unfoldable pub set_seed : TimeManager → ℕ → TimeManager
set_seed tm seed =
    let shm = tm.shm in
    elim shm.layout [
      | none ↦ tm
      | some mem ↦ record tm {
        seed = seed;
        shm = record shm { layout = some (record mem { prng_seed = seed }) };
      }
    ]

-- The object after `memset` and `tm->shm.fd = -1`.
abbrev blank : TimeManager
blank = record {
  shm = record { fd = negsuc 0; size = 0; layout = none };
  current = record { tv_sec = pos 0; tv_nsec = pos 0 };
  seed = 0;
}

-- The end of `linbox_time_manager_open`, with the memory mapped.
abbrev start_clock : Handle → ℕ → TimeManager
start_clock h now =
    let epoch : Timespec = record { tv_sec = pos fake_epoch_sec; tv_nsec = pos 0 } in
    set_seed (publish (record { shm = h; current = epoch; seed = 0 }) epoch now) 0

-- `linbox_time_manager_open`: the return value, the object and the system calls. `k` answers the
-- attempt to create, `k'` the one to attach, and `now` is for the write of the time.
unfoldable pub open_manager : Kernel → Kernel → Bool → ℕ → ℤ × TimeManager × List Call
unfolding set_seed
open_manager k k' has_path now =
    let made = create k has_path blank.shm in
    let joined = attach k' has_path made.handle in
    if not has_path
    then (negsuc 0, blank, [])
    else if is_zero made.rc
    then (pos 0, start_clock made.handle now, made.calls)
    else if not (made.errno == eexist)
    then (negsuc 0, record blank { shm = made.handle }, made.calls)
    else if is_zero joined.rc
    then (pos 0, start_clock joined.handle now, made.calls ++ joined.calls)
    else (negsuc 0, record blank { shm = joined.handle }, made.calls ++ joined.calls)

-- `linbox_time_manager_close`
unfoldable pub close_manager : TimeManager → Bool → ℤ → TimeManager × List Call
close_manager tm has_path unlink_rc =
    if ltb_ℤ tm.shm.fd (pos 0)
    then (tm, [])
    else let (rc, h, calls) = destroy has_path unlink_rc (some tm.shm) in
      (elim h [ none ↦ tm | some h' ↦ record tm { shm = h' } ], calls)
