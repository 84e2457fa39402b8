-- ===== src/Controller/Contract.antt =====
-- What the controller promises, without the layout of the memory and the order of its slots: a time,
-- a seed, the set of registered processes, and room for some more.
pub mod Refinement
pub mod Trace
pub mod Ranges
use linbox.Prelude.{
  ℕ, ◌-◌, ◌≡◌, ◌≤◌, Bool, true, not, ◌&&◌, ◌||◌, List, ◌==◌, if◌then◌else◌, Option, none, some, [],
}
use linbox.Prelude.Int.{ℤ, pos, ltb_ℤ}
use linbox.Sbp.{Body, set_time, set_seed, register_process}
use linbox.Shm.{Timespec, Layout, ProcessSlot}
use linbox.Controller.Slots.{Signal, is_dead}
use linbox.Controller.Slots.Table.{count_pid}
use linbox.Controller.TimeManager.{ns_add}

pub record Sandbox : Type 0 where
  pub time : Timespec
  pub seed : ℕ
  pub members : ℕ → Bool
  pub room : ℕ

-- A process joins if it is new and there is room.
pub join : ℕ → Sandbox → Sandbox
join pid s =
    let members = s.members in
    if pid == 0 || members pid || s.room == 0
    then s
    else record s { members = λ r. r == pid || members r; room = s.room - 1 }

-- What a request asks for.
pub ask : Body → Sandbox → Sandbox
ask (set_time sec nsec) s = record s { time = record { tv_sec = sec; tv_nsec = nsec } }
ask (set_seed seed) s = record s { seed = seed }
ask (register_process pid slot) s = join pid s
ask _ s = s

abbrev is_member : List ProcessSlot → ℕ → Bool
is_member slots r = not (r == 0) && not (count_pid r slots == 0)

-- The memory, as far as the processes can tell.
unfoldable pub view : Layout → Sandbox
view mem = record {
  time = mem.virtual_time;
  seed = mem.prng_seed;
  members = is_member mem.process_slots;
  room = count_pid 0 mem.process_slots;
}

-- The memory of a manager, where it is mapped.
abbrev nobody : Sandbox
nobody = record {
  time = record { tv_sec = pos 0; tv_nsec = pos 0 };
  seed = 0;
  members = is_member [];
  room = 0;
}

abbrev pub view_of : Option Layout → Sandbox
view_of none = nobody
view_of (some mem) = view mem

-- What the end of a turn may do: the time moves on, those who are dead leave, and nobody else does.
abbrev pub Advanced : (ℕ → Signal) → Timespec → Sandbox → Sandbox → Type 0
Advanced probe now s t =
    (t.time ≡ now)
    × (t.seed ≡ s.seed)
    × ((r : ℕ) → t.members r ≡ (s.members r && not (is_dead (probe r))))
    × (s.room ≤ t.room)
