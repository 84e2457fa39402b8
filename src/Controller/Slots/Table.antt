-- ===== src/Controller/Slots/Table.antt =====
-- The process table as a set of pids: no pid twice, new ones go to the first free slot, and the
-- reaper takes away just the dead.
use linbox.Prelude.{
  ℕ, zero, suc, ◌+◌, ◌-◌, ◌≤◌, ◌<◌, ◌≡◌, ◌≢◌, refl, ap, arith, false, Option, none, some, List, [],
  ◌∷◌, ◌==◌, if◌then◌else◌, length, replicate,
}
use native.Mathlib.Decide.{ℕ_discrete}
use native.Mathlib.Nat.{zero-add}
use linbox.Shm.{ProcessSlot, empty_slot}
use linbox.Controller.Slots.{
  Found, known, free, full, scan, modify_slot, apply_found, register_slots, Signal, is_dead,
  reap_slots,
}

-- How many slots have a pid; at 0, how many are free.
pub count_pid : ℕ → List ProcessSlot → ℕ
count_pid q [] = 0
count_pid q (s ∷ slots) = (if s.pid == q then 1 else 0) + count_pid q slots

-- The index of the first slot with a pid.
index_of : ℕ → List ProcessSlot → Option ℕ
index_of q [] = none
index_of q (s ∷ slots) =
    if s.pid == q then some 0 else elim (index_of q slots) [ none ↦ none | some k ↦ some (suc k) ]

abbrev outcome : ℕ → Found → Option ℕ → Found
outcome i other none = other
outcome i other (some k) = known (i + k)

abbrev first_free : ℕ → Option ℕ → Found
first_free i none = full
first_free i (some k) = free (i + k)

scan-seen :
    (pid i j : ℕ) (slots : List ProcessSlot)
    → scan pid i (some j) slots ≡ outcome i (free j) (index_of pid slots)
unfolding scan index_of
scan-seen pid i j [] = refl
scan-seen pid i j (s ∷ slots) = ground (arith, scan-seen pid (i + 1) j slots)

scan-index_of :
    (pid i : ℕ) (slots : List ProcessSlot)
    → pid ≢ 0
    → scan pid i none slots ≡ outcome i (first_free i (index_of 0 slots)) (index_of pid slots)
unfolding scan index_of
scan-index_of pid i [] h = refl
scan-index_of pid i (s ∷ slots) h =
    ground (arith, scan-seen pid (i + 1) i slots, scan-index_of pid (i + 1) slots h)

index_of-count :
    (q : ℕ) (slots : List ProcessSlot) → index_of q slots ≡ none → count_pid q slots ≡ 0
unfolding index_of count_pid
index_of-count q [] e = refl
index_of-count q (s ∷ slots) e = ground (arith, index_of-count q slots)

count-modify :
    (q r k : ℕ) (slots : List ProcessSlot) (f : ProcessSlot → ProcessSlot) (p : ℕ)
    → ((s : ProcessSlot) → s.pid ≡ q → (f s).pid ≡ p)
    → index_of q slots ≡ some k
    → count_pid r (modify_slot slots k f) + (if q == r then 1 else 0)
      ≡ count_pid r slots + (if p == r then 1 else 0)
unfolding index_of count_pid
count-modify q r k [] f p keep e = cc
count-modify q r zero (s ∷ slots) f p keep e = ground (arith, keep s)
count-modify q r (suc k) (s ∷ slots) f p keep e = ground (arith, count-modify q r k slots f p keep)

length-modify :
    (k : ℕ) (slots : List ProcessSlot) (f : ProcessSlot → ProcessSlot)
    → length (modify_slot slots k f) ≡ length slots
length-modify k [] f = refl
length-modify zero (s ∷ slots) f = refl
length-modify (suc k) (s ∷ slots) f = ap suc (length-modify k slots f)

index_of-pos :
    (q k : ℕ) (slots : List ProcessSlot) → index_of q slots ≡ some k → 0 < count_pid q slots
unfolding index_of count_pid
index_of-pos q k [] e = cc
index_of-pos q zero (s ∷ slots) e = ground (arith, index_of-pos q zero slots)
index_of-pos q (suc k) (s ∷ slots) e = ground (arith, index_of-pos q k slots)

register_slots-found :
    (pid now : ℕ) (slots : List ProcessSlot)
    → pid ≢ 0
    → register_slots pid now slots
      ≡ apply_found (outcome 0 (first_free 0 (index_of 0 slots)) (index_of pid slots)) pid now slots
unfolding register_slots
register_slots-found pid now slots h =
    let e : (pid == 0) ≡ false = ground arith in rw (e, scan-index_of pid 0 slots h)

pub register_slots-zero :
    (pid now : ℕ) (slots : List ProcessSlot) → pid ≡ 0 → register_slots pid now slots ≡ slots
unfolding register_slots
register_slots-zero pid now slots e = ground arith

-- What registering does to the counts.
abbrev pub Registered : ℕ → List ProcessSlot → List ProcessSlot → Type 0
Registered pid slots after =
    (length after ≡ length slots)
    × (count_pid pid after ≡ (
        if count_pid pid slots == 0
        then if count_pid 0 slots == 0 then 0 else 1
        else count_pid pid slots))
    × ((r : ℕ) → r ≢ pid → r ≢ 0 → count_pid r after ≡ count_pid r slots)

slots_after :
    (pid now : ℕ) (slots : List ProcessSlot) (o f : Option ℕ)
    → pid ≢ 0
    → index_of pid slots ≡ o
    → index_of 0 slots ≡ f
    → Registered pid slots (apply_found (outcome 0 (first_free 0 f) o) pid now slots)
unfolding apply_found
slots_after pid now slots (some k) f h eo ef =
    let refresh = λ (s : ProcessSlot). record s { heartbeat_ns = now } in
    rw (zero-add k) (
      length-modify k slots refresh,
      ground (
        arith,
        index_of-pos pid k slots eo,
        count-modify pid pid k slots refresh pid (λ s e. e) eo,
      ),
      λ r nr nz. ground (arith, count-modify pid r k slots refresh pid (λ s e. e) eo),
    )
slots_after pid now slots none (some k) h eo ef =
    let take_slot : ProcessSlot → ProcessSlot =
      λ s. record { pid = pid; flags = 0; heartbeat_ns = now } in
    rw (zero-add k) (
      length-modify k slots take_slot,
      ground (
        arith,
        index_of-count pid slots eo,
        index_of-pos 0 k slots ef,
        count-modify 0 pid k slots take_slot pid (λ s e. refl) ef,
      ),
      λ r nr nz. ground (arith, count-modify 0 r k slots take_slot pid (λ s e. refl) ef),
    )
slots_after pid now slots none none h eo ef =
    (refl, ground (arith, index_of-count pid slots eo, index_of-count 0 slots ef), λ r nr nz. refl)

-- Registering a pid that is not 0: if the table has it, every pid keeps its count; if it does not
-- and a slot is free, the pid gets one slot; if none is free, it gets none. The other pids keep
-- their counts, and the table its size.
pub register_slots-Registered :
    (pid now : ℕ) (slots : List ProcessSlot)
    → pid ≢ 0
    → Registered pid slots (register_slots pid now slots)
register_slots-Registered pid now slots h =
    rw (register_slots-found pid now slots h)
      (slots_after pid now slots (index_of pid slots) (index_of 0 slots) h refl refl)

pub register_slots-length :
    (pid now : ℕ) (slots : List ProcessSlot) → length (register_slots pid now slots) ≡ length slots
register_slots-length pid now slots = elim (ℕ_discrete pid 0) [
  | yes z ↦ ap length (register_slots-zero pid now slots z)
  | no nz ↦ (register_slots-Registered pid now slots nz).0
]

-- No pid has two slots.
abbrev pub IsTable : List ProcessSlot → Type 0
IsTable slots = (r : ℕ) → r ≢ 0 → count_pid r slots ≤ 1

pub no_pids : (n r : ℕ) → r ≢ 0 → count_pid r (replicate n empty_slot) ≡ 0
unfolding count_pid
no_pids zero r h = refl
no_pids (suc n) r h = ground (arith, no_pids n r h)

-- A new table is free of duplicates.
pub replicate-IsTable : (n : ℕ) → IsTable (replicate n empty_slot)
replicate-IsTable n r h = omega (arith, no_pids n r h)

-- Reaping keeps the size of the table, empties the slots of the pids that the kernel does not
-- know, and keeps all others.
pub reap_slots-count :
    (probe : ℕ → Signal) (slots : List ProcessSlot)
    → (length (reap_slots probe slots) ≡ length slots)
      × ((r : ℕ)
          → r ≢ 0
          → count_pid r (reap_slots probe slots)
            ≡ (if is_dead (probe r) then 0 else count_pid r slots))
unfolding reap_slots count_pid
reap_slots-count probe [] = (refl, λ r h. ground arith)
reap_slots-count probe (s ∷ slots) =
    let ih = reap_slots-count probe slots in (ap suc ih.0, λ r h. ground (arith, ih.1 r h))

-- Both operations keep the table free of duplicates.
pub IsTable-kept :
    (pid now : ℕ) (probe : ℕ → Signal) (slots : List ProcessSlot)
    → IsTable slots
    → IsTable (register_slots pid now slots) × IsTable (reap_slots probe slots)
IsTable-kept pid now probe slots h = (
  λ r nz. elim (ℕ_discrete pid 0) [
    | yes z ↦ rw (register_slots-zero pid now slots z) (h r nz)
    | no nz' ↦
        let reg = register_slots-Registered pid now slots nz' in
        elim (ℕ_discrete r pid) [
          | yes e ↦ rw e (ground (arith, reg.1, h pid nz'))
          | no ne ↦ rw (reg.2 r ne nz) (h r nz)
        ]
  ],
  λ r nz. ground (arith, (reap_slots-count probe slots).1 r nz, h r nz),
)

room_after :
    (pid now : ℕ) (slots : List ProcessSlot) (o f : Option ℕ)
    → pid ≢ 0
    → index_of pid slots ≡ o
    → index_of 0 slots ≡ f
    → count_pid 0 (apply_found (outcome 0 (first_free 0 f) o) pid now slots)
      ≡ (if count_pid pid slots == 0 then count_pid 0 slots - 1 else count_pid 0 slots)
unfolding apply_found
room_after pid now slots (some k) f h eo ef =
    let refresh = λ (s : ProcessSlot). record s { heartbeat_ns = now } in
    rw (zero-add k) (
      ground
        (arith, index_of-pos pid k slots eo, count-modify pid 0 k slots refresh pid (λ s e. e) eo))
room_after pid now slots none (some k) h eo ef =
    let take_slot : ProcessSlot → ProcessSlot =
      λ s. record { pid = pid; flags = 0; heartbeat_ns = now } in
    rw (zero-add k) (
      ground (
        arith,
        index_of-count pid slots eo,
        count-modify 0 0 k slots take_slot pid (λ s e. refl) ef,
      ))
room_after pid now slots none none h eo ef =
    ground (arith, index_of-count pid slots eo, index_of-count 0 slots ef)

-- A new pid takes one of the free slots, if there is one.
pub register_slots-room :
    (pid now : ℕ) (slots : List ProcessSlot)
    → pid ≢ 0
    → count_pid 0 (register_slots pid now slots)
      ≡ (if count_pid pid slots == 0 then count_pid 0 slots - 1 else count_pid 0 slots)
register_slots-room pid now slots h =
    rw (register_slots-found pid now slots h)
      (room_after pid now slots (index_of pid slots) (index_of 0 slots) h refl refl)

-- Reaping frees slots and takes none.
pub reap_slots-room :
    (probe : ℕ → Signal) (slots : List ProcessSlot)
    → count_pid 0 slots ≤ count_pid 0 (reap_slots probe slots)
unfolding reap_slots count_pid
reap_slots-room probe [] = omega arith
reap_slots-room probe (s ∷ slots) = ground (arith, reap_slots-room probe slots)
