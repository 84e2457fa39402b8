-- ===== src/Programs/ProcessPreload/Ends.antt =====
-- How src/shim/process.preload.c ends.
use linbox.Prelude.{
  ℕ, zero, suc, ◌^◌, ◌<◌, ◌≡◌, ◌≢◌, refl, sym, ap, ◌∙◌, arith, true, false, Option, some, List, [],
  ◌∷◌, ◌++◌, map, ◌==◌, get_elem?, All, Bool-cases, inl, inr, ◌↔◌,
}
use mathlib.Core.Option
use mathlib.Core.Option.{some-injective}
use linbox.Prelude.Int.{pos, ltb_ℤ, ◌≤ℤ◌}
use linbox.Prelude.Words.{u32, IsI64, le_bytes}
use linbox.Prng.{Prng, next_u64, fill}
use linbox.Prng.Fill.{stream, fill-stream}
use linbox.Prng.State.{IsLive, next_u64-IsLive}
use linbox.Shm.{Timespec, ProcessSlot}
use linbox.Shm.Handle.{attach}
use linbox.Controller.TimeManager.{TimeManager, fake_epoch_sec}
use linbox.Controller.TimeManager.Publish.{IsPublished}
use linbox.Shim.{State, Boot, no_handle, random_fill}
use linbox.Shim.Seeds.Running.{IsAwake, IsRunning, random_fill-IsAwake}
use linbox.Shim.Clock.{told, clock_gettime, is_known_clock}
use linbox.Shim.Clock.Agreement.{clock_gettime-published}
use linbox.Shim.Random.{from_bytes}
use linbox.Programs.ProcessPreload.{
  wait_ok, slot_has_pid, Report, bytes_of, report_size, Action, close_pipe, before, World, verify,
  receive, receive_at, process_main, child_at, child_main,
}
use linbox.Programs.ProcessPreload.Pipe.{
  joined, IsFull, IsReport, report_from-bytes_of, read_all-pieces,
}

-- The word that `getrandom` gives.
eight_bytes :
    (g : Prng) → IsLive g → (from_bytes (fill g 8).0 ≡ (next_u64 g).0) × ((next_u64 g).0 < 2 ^ 64)
unfolding stream from_bytes
eight_bytes g live =
    let small = (next_u64-IsLive g live).0 in
    let bytes : (fill g 8).0 ≡ le_bytes 8 (next_u64 g).0 =
      ap (λ (r : List ℕ × Prng). r.0) (fill-stream g 8).0 in
    (ap from_bytes bytes ∙ omega (arith, small), small)

pub drawn_word :
    (boot : Boot) (st : State)
    → IsAwake st
    → from_bytes (random_fill boot st 8).0 ≡ (next_u64 st.prng).0
drawn_word boot st awake =
    let (_, bytes, _) = random_fill-IsAwake boot st 8 awake in
    ap from_bytes bytes ∙ (eight_bytes st.prng awake.1).0

abbrev HasSlot : List ProcessSlot → ℕ → Type 0
HasSlot slots pid =
    (i : ℕ) × (slot : ProcessSlot) × (get_elem? slots i ≡ some slot) × (slot.pid ≡ pid)

slot_has_pid→HasSlot :
    (slots : List ProcessSlot) (pid : ℕ) → slot_has_pid slots pid ≡ true → HasSlot slots pid
unfolding slot_has_pid
slot_has_pid→HasSlot [] pid e = absurd (cc)
slot_has_pid→HasSlot (slot ∷ slots) pid e = elim (Bool-cases (slot.pid == pid)) [
  | inl here ↦ (0, slot, refl, ground arith)
  | inr there ↦
      let (i, found, at_i, pid_of) = slot_has_pid→HasSlot slots pid (ground arith) in
      (suc i, found, at_i, pid_of)
]

HasSlot→slot_has_pid :
    (slots : List ProcessSlot) (pid i : ℕ) (slot : ProcessSlot)
    → get_elem? slots i ≡ some slot
    → slot.pid ≡ pid
    → slot_has_pid slots pid ≡ true
unfolding slot_has_pid
HasSlot→slot_has_pid [] pid i slot found e = absurd (cc)
HasSlot→slot_has_pid (first ∷ slots) pid zero slot found e =
    let same : first.pid ≡ pid = ap (λ (s : ProcessSlot). s.pid) (some-injective _ _ found) ∙ e in
    let here : (first.pid == pid) ≡ true = ground arith in rw here refl
HasSlot→slot_has_pid (first ∷ slots) pid (suc i) slot found e =
    rw (HasSlot→slot_has_pid slots pid i slot found e) (ground arith)

-- What the parent wants of a report.
abbrev Wants : World → Timespec → ℕ → Report → Type 0
Wants w ts word r =
    (pos fake_epoch_sec ≤ℤ ts.tv_sec)
    × (pos fake_epoch_sec ≤ℤ r.sec)
    × (word ≢ r.random_word)
    × (slot_has_pid w.slots (u32 r.pid) ≡ true)
    × (pos 0 ≤ℤ w.waited.rc)
    × (w.waited.exited ≡ true)
    × (w.waited.code ≡ 0)

verify-status :
    (w : World) (ts : Timespec) (word : ℕ) (r : Report)
    → ((verify w ts word r).0 ≡ 0) ↔ Wants w ts word r
unfolding verify wait_ok
verify-status w ts word r = (λ e. ground arith, λ e. ground arith)

-- The controller, the memory, the pipe and the child are there.
pub record IsStarted (w : World) : Type 0 where
  pub controller : pos 0 ≤ℤ w.ctrl
  pub attached : (attach w.kernel true no_handle).rc ≡ pos 0
  pub piped : w.pipe_rc ≡ pos 0
  pub forked : pos 0 ≤ℤ w.child

realtime : is_known_clock 0 ≡ true
unfolding is_known_clock
realtime = refl

asks :
    (boot : Boot) (real : Option Timespec) (st : State) (tm : TimeManager)
    → IsRunning tm st
    → IsPublished tm
    → clock_gettime boot real 0 st ≡ (told tm.current, st)
asks boot real st tm run published =
    (clock_gettime-published boot real 0 st tm run.initialized run.connected run.shared published
      realtime).0

abbrev pub report_of : TimeManager → State → ℕ → Report
report_of tm st pid = record {
  random_word = (next_u64 st.prng).0;
  sec = tm.current.tv_sec;
  pid = pid;
}

-- A child at work whose write succeeds sends the time of its controller, the next word of its
-- generator and its number, and ends with 0.
pub child_main-sends :
    (boot : Boot) (real : Option Timespec) (pid : ℕ) (st : State) (tm : TimeManager)
    → IsRunning tm st
    → IsPublished tm
    → child_main boot real true pid st ≡ some (0, some (bytes_of (report_of tm st pid)))
unfolding child_main child_at
child_main-sends boot real pid st tm run published = rw (asks boot real st tm run published) (
    ap
      (λ word.
        some
          (0, some (bytes_of (record { random_word = word; sec = tm.current.tv_sec; pid = pid }))))
      (drawn_word boot st (run.initialized, run.live)))

process_main-started :
    (w : World) (tm : TimeManager)
    → IsStarted w
    → IsRunning tm w.state
    → IsPublished tm
    → process_main w ≡ Option.map (before close_pipe) (some (receive w tm.current w.state))
unfolding process_main receive_at
process_main-started w tm started run published =
    let ctrl : ltb_ℤ w.ctrl (pos 0) ≡ false = ground (arith, started.controller) in
    let child : ltb_ℤ w.child (pos 0) ≡ false = ground (arith, started.forked) in
    rw (ctrl, started.attached, started.piped, child, asks w.boot w.real w.state tm run published)
      refl

receive-verify :
    (w : World) (ts : Timespec) (st : State) (r : Report) (pieces : List (List ℕ))
    (more : List (Option (List ℕ)))
    → IsAwake st
    → IsReport r
    → All IsFull pieces
    → joined pieces ≡ bytes_of r
    → w.pipe ≡ map some pieces ++ (some [] ∷ more)
    → receive w ts st ≡ before close_pipe (verify w ts (next_u64 st.prng).0 r)
unfolding receive bytes_of verify
receive-verify w ts st r pieces more awake held full sent pipe =
    rw
      (
        pipe,
        read_all-pieces pieces more report_size full,
        sent,
        drawn_word w.boot st awake,
        report_from-bytes_of r held,
      )
      refl

-- With the controller, the memory, the pipe and the child there, and the library at work in the
-- parent and in the child, each with the memory of a controller that has published a time, let the
-- pipe give what the child writes, cut into pieces in any way. Then the parent comes to an end, with
-- status 0 exactly when both times are at least the second 1735689600, the next words of the two
-- generators differ, some slot holds the number of the child, and the child has exited with 0.
pub process_main-passes :
    (w : World) (boot : Boot) (real : Option Timespec) (pid : ℕ) (st : State) (tm tm' : TimeManager)
    (pieces : List (List ℕ)) (more : List (Option (List ℕ)))
    → IsStarted w
    → IsRunning tm w.state
    → IsPublished tm
    → IsRunning tm' st
    → IsPublished tm'
    → IsI64 tm'.current.tv_sec
    → pid < 2 ^ 32
    → All IsFull pieces
    → child_main boot real true pid st ≡ some (0, some (joined pieces))
    → w.pipe ≡ map some pieces ++ (some [] ∷ more)
    → (status : ℕ) × (actions : List Action) × (process_main w ≡ some (status, actions))
      × ((status ≡ 0)
          ↔ (pos fake_epoch_sec ≤ℤ tm.current.tv_sec)
            × (pos fake_epoch_sec ≤ℤ tm'.current.tv_sec)
            × ((next_u64 w.state.prng).0 ≢ (next_u64 st.prng).0)
            × HasSlot w.slots pid
            × (pos 0 ≤ℤ w.waited.rc)
            × (w.waited.exited ≡ true)
            × (w.waited.code ≡ 0))
process_main-passes w boot real pid st tm tm' pieces more started run published run' published' sec
      small full wrote pipe =
    let r = report_of tm' st pid in
    let held : IsReport r = ((next_u64-IsLive st.prng run'.live).0, sec, small) in
    let sent : joined pieces ≡ bytes_of r = some-injective _ _ (
      ap (λ (p : ℕ × Option (List ℕ)). p.1)
        (some-injective _ _ (sym wrote ∙ child_main-sends boot real pid st tm' run' published'))) in
    let ended =
      receive-verify w tm.current w.state r pieces more (run.initialized, run.live) held full sent
        pipe in
    let (passes, holds) = verify-status w tm.current (next_u64 w.state.prng).0 r in
    let same_pid : u32 pid ≡ pid = omega arith in
    (
      (verify w tm.current (next_u64 w.state.prng).0 r).0,
      close_pipe ∷ close_pipe ∷ (verify w tm.current (next_u64 w.state.prng).0 r).1,
      process_main-started w tm started run published ∙ rw ended refl,
      (
        λ e.
            let (early, early', words, slot, rc, exited, code) = passes e in
            (
              early,
              early',
              words,
              slot_has_pid→HasSlot w.slots pid (sym (ap (slot_has_pid w.slots) same_pid) ∙ slot),
              rc,
              exited,
              code,
            ),
        λ (early, early', words, (i, slot, found, pid_of), rc, exited, code). holds (
          early,
          early',
          words,
          ap (slot_has_pid w.slots) same_pid ∙ HasSlot→slot_has_pid w.slots pid i slot found pid_of,
          rc,
          exited,
          code,
        ),
      ),
    )
