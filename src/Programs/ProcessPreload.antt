-- ===== src/Programs/ProcessPreload.antt =====
-- src/shim/process.preload.c: a program that starts a controller and a child, and compares what it and
-- the child are told.
pub mod Pipe
pub mod Ends
pub mod Reaps
mod Tests
use linbox.Prelude.{
  ℕ, zero, suc, ◌+◌, ◌-◌, ◌*◌, ◌≡◌, Bool, true, false, not, ◌&&◌, ◌||◌, Option, none, some, List,
  [], ◌∷◌, ◌++◌, ◌==◌, if◌then◌else◌, length, take, drop,
}
use mathlib.Core.Option
use linbox.Prelude.Int.{ℤ, pos, negsuc, ltb_ℤ}
use linbox.Prelude.Words.{u32, le_bytes, unsigned32, unsigned64, signed64, signed32}
use linbox.Shm.{Timespec, ProcessSlot}
use linbox.Shm.Handle.{Kernel, attach, is_zero}
use linbox.Controller.TimeManager.{fake_epoch_sec}
use linbox.Shim.{State, Boot, no_handle, random_fill}
use linbox.Shim.Clock.{Answer, told, failed, spins, clock_gettime}
use linbox.Shim.Random.{from_bytes}

-- `read_all`, by what each `read` gives, `none` for an error and no bytes for the end of the file; a
-- `read` gives no more than it is asked for. `none` is -1.
pub read_all : List (Option (List ℕ)) → ℕ → Option (List ℕ)
read_all [] len = if len == 0 then some [] else none
read_all (none ∷ reads) len = if len == 0 then some [] else none
read_all (some [] ∷ reads) len = if len == 0 then some [] else none
read_all (some (b ∷ bytes) ∷ reads) len =
    let part = take len (b ∷ bytes) in
    let rest = read_all reads (len - length part) in
    if len == 0 then some [] else Option.map (λ more. part ++ more) rest

-- What `waitpid` gives.
pub record Waited : Type 0 where
  pub rc : ℤ
  pub exited : Bool
  pub code : ℕ

-- `wait_ok` gives 0
pub wait_ok : Waited → Bool
wait_ok w = not (ltb_ℤ w.rc (pos 0)) && not (not w.exited || not (w.code == 0))

pub slot_has_pid : List ProcessSlot → ℕ → Bool
slot_has_pid [] pid = false
slot_has_pid (slot ∷ slots) pid =
    let rest = slot_has_pid slots pid in if slot.pid == pid then true else rest

-- `child_report`
pub record Report : Type 0 where
  pub random_word : ℕ  -- uint64_t
  pub sec : ℤ  -- time_t
  pub pid : ℕ  -- pid_t, never negative

-- The 24 bytes of it in memory, with four that are padding, and back.
pub bytes_of : Report → List ℕ
bytes_of r =
    le_bytes 8 r.random_word
    ++ le_bytes 8 (unsigned64 r.sec)
    ++ le_bytes 4 r.pid
    ++ (0 ∷ 0 ∷ 0 ∷ 0 ∷ [])

abbrev pub report_size : ℕ
report_size = 24

pub report_from : List ℕ → Report
report_from bytes = record {
  random_word = from_bytes (take 8 bytes);
  sec = signed64 (from_bytes (take 8 (drop 8 bytes)));
  pid = from_bytes (take 4 (drop 16 bytes));
}

-- The calls of the parent that concern its children and what it holds.
pub data Action : Type 0 where
  close_pipe : Action
  reap_child : Action
  detach_memory : Action
  kill_controller : Action
  reap_controller : Action

-- `kill(ctrl, SIGTERM); waitpid(ctrl, NULL, 0); return status;`
abbrev pub give_up : ℕ → ℕ × List Action
give_up status = (status, kill_controller ∷ reap_controller ∷ [])

abbrev pub before : Action → ℕ × List Action → ℕ × List Action
before action (status, actions) = (status, action ∷ actions)

-- What the parent gets: from `fork`, for the attachment, from `pipe`, from the second `fork`; the
-- process itself with the time of the real clock; what the pipe gives; the slots when they are
-- looked at; and how the child ended.
pub record World : Type 0 where
  pub ctrl : ℤ
  pub kernel : Kernel
  pub pipe_rc : ℤ
  pub child : ℤ
  pub boot : Boot
  pub real : Option Timespec
  pub state : State
  pub pipe : List (Option (List ℕ))
  pub slots : List ProcessSlot
  pub waited : Waited

abbrev is_8 : ℤ → Bool
is_8 (pos n) = n == 8
is_8 (negsuc n) = false

abbrev too_early : ℤ → Bool
too_early sec = ltb_ℤ sec (pos fake_epoch_sec)

-- The checks at the end of `main`.
pub verify : World → Timespec → ℕ → Report → ℕ × List Action
verify w parent_ts parent_word r =
    if too_early parent_ts.tv_sec || too_early r.sec
    then give_up 18
    else if parent_word == r.random_word
    then give_up 19
    else if not (slot_has_pid w.slots (u32 r.pid))
    then give_up 20
    else before reap_child
        (if not (wait_ok w.waited) then give_up 17 else before detach_memory (give_up 0))

-- The part of `main` behind `clock_gettime`.
pub receive : World → Timespec → State → ℕ × List Action
receive w ts st0 =
    let (bytes, st) = random_fill w.boot st0 8 in
    if not (is_8 (signed64 8)) then give_up 15 else elim (read_all w.pipe report_size) [
      | none ↦ give_up 16
      | some report ↦ before close_pipe (verify w ts (from_bytes bytes) (report_from report))
    ]

unfoldable pub receive_at : World → Answer × State → Option (ℕ × List Action)
receive_at w (told ts, st) = some (receive w ts st)
receive_at w (failed, st) = some (give_up 14)
receive_at w (spins, st) = none

-- `main` in the parent: the status and the calls; `none` is a question for the time without end.
pub process_main : World → Option (ℕ × List Action)
process_main w =
    if ltb_ℤ w.ctrl (pos 0)
    then some (10, [])
    else if not (is_zero (attach w.kernel true no_handle).rc)
    then some (give_up 11)
    else if not (is_zero w.pipe_rc)
    then some (give_up 12)
    else if ltb_ℤ w.child (pos 0)
    then some (give_up 13)
    else Option.map (before close_pipe) (receive_at w (clock_gettime w.boot w.real 0 w.state))

unfoldable pub child_at : Boot → Bool → ℕ → Answer × State → Option (ℕ × Option (List ℕ))
child_at boot writes pid (told ts, st0) =
    let (bytes, st) = random_fill boot st0 8 in
    let report : Report = record { random_word = from_bytes bytes; sec = ts.tv_sec; pid = pid } in
    some (
      if not (is_8 (signed64 8))
      then (2, none)
      else if not writes
      then (3, none)
      else (0, some (bytes_of report)))
child_at boot writes pid (failed, st) = some (1, none)
child_at boot writes pid (spins, st) = none

-- `main` in the child, behind the `fork` of the shim: the status and what it writes to the pipe.
pub child_main : Boot → Option Timespec → Bool → ℕ → State → Option (ℕ × Option (List ℕ))
child_main boot real writes pid st = child_at boot writes pid (clock_gettime boot real 0 st)
