-- ===== src/Shm.antt =====
-- src/common/shm-layout.h and src/common/shm.c: the memory that the controller shares with the
-- processes under it. Offsets and sizes are those of the x86-64 ABI, the one target of the shim.
-- The bytes that nothing reads (`reserved`, and the policy area past its offsets) are left out.
pub mod Handle
pub mod Seqlock
mod Tests
use linbox.Prelude.{
  ℕ, ◌+◌, ◌*◌, ◌/◌, ◌%◌, ◌^◌, ◌≡◌, Bool, true, false, Option, none, some, List, [], ◌∷◌, ◌==◌,
  if◌then◌else◌, replicate,
}
use linbox.Prelude.Int.{ℤ, pos}
use linbox.Prelude.Words.{u32, u64, unsigned64}

-- `struct timespec`
pub record Timespec : Type 0 where
  pub tv_sec : ℤ  -- time_t, 64 bits
  pub tv_nsec : ℤ  -- long, 64 bits

abbrev pub shm_magic : ℕ
shm_magic = 0x4C494E42

abbrev pub shm_version : ℕ
shm_version = 1

abbrev pub process_slot_count : ℕ
process_slot_count = 64

abbrev pub policy_area_size : ℕ
policy_area_size = 4096

-- `sizeof(linbox_shm_header_t)`, `offsetof(linbox_shm_layout_t, policy_area)` and
-- `sizeof(linbox_shm_layout_t)`
abbrev pub sizeof_header : ℕ
sizeof_header = 72

abbrev pub offsetof_policy_area : ℕ
offsetof_policy_area = 2160

abbrev pub sizeof_layout : ℕ
sizeof_layout = 7280

-- `linbox_process_slot_t`
pub record ProcessSlot : Type 0 where
  pub pid : ℕ  -- uint32_t
  pub flags : ℕ  -- uint32_t
  pub heartbeat_ns : ℕ  -- uint64_t

-- A slot after `memset(slot, 0, sizeof(*slot))`.
abbrev pub empty_slot : ProcessSlot
empty_slot = record { pid = 0; flags = 0; heartbeat_ns = 0 }

-- `linbox_shm_header_t`
pub record ShmHeader : Type 0 where
  pub magic : ℕ  -- uint32_t
  pub version : ℕ  -- uint16_t
  pub header_size : ℕ  -- uint16_t
  pub global_seq : ℕ  -- uint32_t
  pub heartbeat_ns : ℕ  -- uint64_t
  pub network_policy_offset : ℕ  -- uint32_t
  pub filesystem_policy_offset : ℕ  -- uint32_t
  pub dns_policy_offset : ℕ  -- uint32_t
  pub policy_size : ℕ  -- uint32_t, the field `policy_area_size`

-- `linbox_shm_layout_t`
pub record Layout : Type 0 where
  pub header : ShmHeader
  pub time_seq : ℕ  -- uint32_t
  pub virtual_time : Timespec
  pub prng_seed : ℕ  -- uint64_t
  pub flags : ℕ  -- uint32_t
  pub process_slots : List ProcessSlot

-- `now_ns`, from what `clock_gettime(CLOCK_MONOTONIC, ...)` gives; `none` is a failure of it.
pub now_ns : Option Timespec → ℕ
now_ns none = 0
now_ns (some ts) = u64 (u64 (unsigned64 ts.tv_sec * 1000000000) + unsigned64 ts.tv_nsec)

-- `linbox_shm_init_layout` on memory that is there, at the time `now_ns()` gives.
unfoldable pub init_layout : ℕ → Layout
init_layout now = record {
  header = record {
    magic = shm_magic;
    version = shm_version;
    header_size = sizeof_header;
    global_seq = 0;
    heartbeat_ns = now;
    network_policy_offset = offsetof_policy_area;
    filesystem_policy_offset = offsetof_policy_area + policy_area_size / 4;
    dns_policy_offset = offsetof_policy_area + policy_area_size / 2;
    policy_size = policy_area_size;
  };
  time_seq = 0;
  virtual_time = record { tv_sec = pos 0; tv_nsec = pos 0 };
  prng_seed = 0;
  flags = 0;
  process_slots = replicate process_slot_count empty_slot;
}

-- `linbox_shm_write_time` with no reader in between, at the time `now_ns()` gives.
unfoldable pub write_time : Layout → Timespec → ℕ → Layout
write_time layout ts now =
    let header = layout.header in
    record layout {
      time_seq = u32 (layout.time_seq + 2);
      virtual_time = ts;
      header = record header { heartbeat_ns = now };
    }

-- `linbox_shm_read_time` with no writer in between. With an even counter the first round returns;
-- `none` stands for the loop that an odd counter keeps spinning until a writer moves on.
unfoldable pub read_time : Layout → Option Timespec
read_time layout = if layout.time_seq % 2 == 0 then some layout.virtual_time else none
