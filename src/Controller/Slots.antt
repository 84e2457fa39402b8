-- ===== src/Controller/Slots.antt =====
-- The process table of src/controller/main.c: `register_process` and `reap_dead_processes`.
-- The functions' guard against memory that is not mapped stands in their callers here.
pub mod Table
use linbox.Prelude.{
  ℕ, zero, suc, ◌+◌, ◌≡◌, Bool, true, false, not, ◌&&◌, ◌||◌, Option, none, some, List, [], ◌∷◌,
  map, ◌==◌, set, if◌then◌else◌,
}
use linbox.Shm.{ProcessSlot, Layout, empty_slot}

-- How the scan of the table ends.
pub data Found : Type 0 where
  known : ℕ → Found  -- the index of the slot that has the pid
  free : ℕ → Found  -- none has; the index of the first empty slot
  full : Found  -- none has, and none is empty

-- The loop over the slots from index `i` on; `empty` is the first empty slot seen so far.
pub scan : ℕ → ℕ → Option ℕ → List ProcessSlot → Found
scan pid i none [] = full
scan pid i (some j) [] = free j
scan pid i none (slot ∷ slots) =
    let rest = scan pid (i + 1) (if slot.pid == 0 then some i else none) slots in
    if slot.pid == pid then known i else rest
scan pid i (some j) (slot ∷ slots) =
    let rest = scan pid (i + 1) (some j) slots in if slot.pid == pid then known i else rest

-- A change to the slot at an index.
abbrev pub modify_slot : List ProcessSlot → ℕ → (ProcessSlot → ProcessSlot) → List ProcessSlot
modify_slot [] i f = []
modify_slot (s ∷ slots) zero f = f s ∷ slots
modify_slot (s ∷ slots) (suc i) f = s ∷ modify_slot slots i f

pub apply_found : Found → ℕ → ℕ → List ProcessSlot → List ProcessSlot
apply_found (known i) pid heartbeat slots =
    modify_slot slots i (λ s. record s { heartbeat_ns = heartbeat })
apply_found (free i) pid heartbeat slots =
    modify_slot slots i (λ s. record { pid = pid; flags = 0; heartbeat_ns = heartbeat })
apply_found full pid heartbeat slots = slots

-- The table after `register_process(tm, pid)`; `heartbeat` is that of the header.
pub register_slots : ℕ → ℕ → List ProcessSlot → List ProcessSlot
register_slots pid heartbeat slots =
    if pid == 0 then slots else apply_found (scan pid 0 none slots) pid heartbeat slots

unfoldable pub register_process : ℕ → Layout → Layout
register_process pid layout = record layout {
  process_slots = register_slots pid layout.header.heartbeat_ns layout.process_slots;
}

-- What `kill(pid, 0)` tells of a process.
pub data Signal : Type 0 where
  delivered : Signal  -- it returns 0
  not_permitted : Signal  -- it fails with EPERM
  no_process : Signal  -- it fails otherwise

abbrev pub is_dead : Signal → Bool
is_dead no_process = true
is_dead _ = false

-- The loop of `reap_dead_processes`, with the kernel's answer for each pid.
unfoldable pub reap_slots : (ℕ → Signal) → List ProcessSlot → List ProcessSlot
reap_slots probe [] = []
reap_slots probe (slot ∷ slots) =
    (if slot.pid == 0 then slot else if is_dead (probe slot.pid) then empty_slot else slot)
    ∷ reap_slots probe slots

unfoldable pub reap_dead_processes : (ℕ → Signal) → Layout → Layout
reap_dead_processes probe layout = record layout {
  process_slots = reap_slots probe layout.process_slots;
}
