-- ===== src/Shm/Handle.antt =====
-- Mapping the shared memory: `linbox_shm_create`, `_attach`, `_detach` and `_destroy`. The kernel's
-- answers are arguments, and each function gives the calls that it makes, in order.
use linbox.Prelude.{
  ℕ, zero, ◌+◌, ◌-◌, ◌≡◌, ◌⊎◌, refl, arith, Bool, true, false, not, ◌&&◌, Option, none, some, List,
  [], ◌∷◌, ◌++◌, ◌==◌, if◌then◌else◌,
}
use linbox.Prelude.Int.{ℤ, pos, negsuc, ltb_ℤ, ◌≤ℤ◌}
use linbox.Shm.{Layout, init_layout, shm_magic, sizeof_layout}

-- `linbox_shm_handle_t`. The layout is the memory behind the pointer; `none` is NULL. The pointer
-- is never MAP_FAILED, which `open_map` does not store.
pub record Handle : Type 0 where
  pub fd : ℤ
  pub size : ℕ
  pub layout : Option Layout

-- The system calls that matter for what is held, with their results.
pub data Call : Type 0 where
  opened : ℤ → Call  -- shm_open gave this descriptor
  mapped : Call  -- mmap gave memory
  unmapped : ℕ → Call  -- munmap of so many bytes
  closed : ℤ → Call
  unlinked : Call

-- The kernel's answers to one call of `linbox_shm_open_map`: the descriptor of shm_open or a
-- negative number, the result of ftruncate, what mmap gives (`none` is MAP_FAILED), errno of the
-- call that fails, and the result of `now_ns()`.
pub record Kernel : Type 0 where
  pub shm_open_fd : ℤ
  pub ftruncate_rc : ℤ
  pub mmap_mem : Option Layout
  pub errno : ℕ
  pub now : ℕ

-- The return value, errno, the handle and the calls made.
pub record Done : Type 0 where
  pub rc : ℤ
  pub errno : ℕ
  pub handle : Handle
  pub calls : List Call

abbrev pub eproto : ℕ
eproto = 71

abbrev pub einval : ℕ
einval = 22

abbrev pub eexist : ℕ
eexist = 17

abbrev is_neg : ℤ → Bool
is_neg x = ltb_ℤ x (pos 0)

abbrev pub is_zero : ℤ → Bool
is_zero (pos zero) = true
is_zero _ = false

-- `return -1` of `linbox_shm_open_map`, which leaves `*out` as it was.
abbrev failed : Kernel → Handle → List Call → Done
failed k out calls = record { rc = negsuc 0; errno = k.errno; handle = out; calls = calls }

-- `linbox_shm_open_map`; `has_path` says that `path` is not NULL, and `out` never is.
unfoldable pub open_map : Kernel → Bool → Bool → Handle → Done
open_map k has_path needs_init out =
    if not has_path
    then failed k out []
    else if is_neg k.shm_open_fd
    then failed k out []
    else if needs_init && not (is_zero k.ftruncate_rc)
    then failed k out (opened k.shm_open_fd ∷ closed k.shm_open_fd ∷ [])
    else elim k.mmap_mem [
      | none ↦ failed k out (opened k.shm_open_fd ∷ closed k.shm_open_fd ∷ [])
      | some mem ↦ record {
        rc = pos 0;
        errno = k.errno;
        handle = record {
          fd = k.shm_open_fd;
          size = sizeof_layout;
          layout = some (if needs_init then init_layout k.now else mem);
        };
        calls = opened k.shm_open_fd ∷ mapped ∷ [];
      }
    ]

-- `linbox_shm_detach` on a handle that is there: the calls and the handle after it.
unfoldable pub detach : Handle → List Call × Handle
detach h =
    let unmap : List Call = elim h.layout [ none ↦ [] | some mem ↦ unmapped h.size ∷ [] ] in
    let close : List Call = if is_neg h.fd then [] else closed h.fd ∷ [] in
    (unmap ++ close, record { fd = negsuc 0; size = 0; layout = none })

unfoldable pub create : Kernel → Bool → Handle → Done
unfolding open_map
create k has_path out = open_map k has_path true out

-- The check of the magic number in `linbox_shm_attach`.
unfoldable pub check_magic : Done → Done
unfolding detach
check_magic d = elim d.handle.layout [
  | none ↦ d
  | some mem ↦
      let (calls, handle) = detach d.handle in
      if mem.header.magic == shm_magic
      then d
      else record { rc = negsuc 0; errno = eproto; handle = handle; calls = d.calls ++ calls }
]

unfoldable pub attach : Kernel → Bool → Handle → Done
unfolding open_map check_magic
attach k has_path out =
    let d = open_map k has_path false out in if is_zero d.rc then check_magic d else d

-- `linbox_shm_destroy`; `handle` is `none` for NULL, and `unlink_rc` is what shm_unlink gives.
unfoldable pub destroy : Bool → ℤ → Option Handle → ℤ × Option Handle × List Call
unfolding detach
destroy has_path unlink_rc none =
    if has_path then (unlink_rc, none, unlinked ∷ []) else (negsuc 0, none, [])
destroy has_path unlink_rc (some h) =
    let (calls, h') = detach h in
    if has_path then (unlink_rc, some h', calls ++ (unlinked ∷ [])) else (negsuc 0, some h', calls)

-- Whether two descriptors are the same.
pub is_fd : ℤ → ℤ → Bool
is_fd (pos a) (pos b) = a == b
is_fd (negsuc a) (negsuc b) = a == b
is_fd _ _ = false

-- What is held after the calls, of one descriptor at a time: how often it is open, and the mappings. A
-- descriptor that is closed though it is not open, or a mapping undone though there is none, is a fault.
pub record Balance : Type 0 where
  pub fds : ℕ
  pub maps : ℕ
  pub faults : ℕ

unfoldable pub give_fd : Balance → Balance
give_fd b = if b.fds == 0 then record b { faults = b.faults + 1 } else record b { fds = b.fds - 1 }

unfoldable pub give_map : Balance → Balance
give_map b =
    if b.maps == 0 then record b { faults = b.faults + 1 } else record b { maps = b.maps - 1 }

unfoldable pub held : ℤ → List Call → Balance → Balance
unfolding give_fd give_map
held q [] b = b
held q (opened fd ∷ calls) b = held q calls (if is_fd q fd then record b { fds = b.fds + 1 } else b)
held q (mapped ∷ calls) b = held q calls (record b { maps = b.maps + 1 })
held q (unmapped n ∷ calls) b = held q calls (give_map b)
held q (closed fd ∷ calls) b = held q calls (if is_fd q fd then give_fd b else b)
held q (unlinked ∷ calls) b = held q calls b

pub held-append :
    (q : ℤ) (xs ys : List Call) (b : Balance) → held q (xs ++ ys) b ≡ held q ys (held q xs b)
unfolding held
held-append q [] ys b = refl
held-append q (opened fd ∷ xs) ys b = held-append q xs ys _
held-append q (mapped ∷ xs) ys b = held-append q xs ys _
held-append q (unmapped n ∷ xs) ys b = held-append q xs ys _
held-append q (closed fd ∷ xs) ys b = held-append q xs ys _
held-append q (unlinked ∷ xs) ys b = held-append q xs ys _

abbrev pub nothing_held : Balance
nothing_held = record { fds = 0; maps = 0; faults = 0 }

-- The descriptor `fd`, and a mapping.
abbrev pub one_held : ℤ → ℤ → Balance
one_held q fd = record { fds = if is_fd q fd then 1 else 0; maps = 1; faults = 0 }

-- Memory with the magic number.
abbrev pub HasMagic : Option Layout → Type 0
HasMagic none = ⊥
HasMagic (some mem) = mem.header.magic ≡ shm_magic

-- Attaching either succeeds and holds one descriptor, the handle's, and one mapping of memory with
-- the magic number, or fails and holds nothing, on every path through it.
pub attach-held :
    (q : ℤ) (k : Kernel) (has_path : Bool) (out : Handle)
    → let d = attach k has_path out in
      ((d.rc ≡ pos 0)
        × (held q d.calls nothing_held ≡ one_held q d.handle.fd)
        × (d.handle.fd ≡ k.shm_open_fd)
        × (pos 0 ≤ℤ d.handle.fd)
        × (d.handle.layout ≡ k.mmap_mem)
        × HasMagic k.mmap_mem)
      ⊎ ((d.rc ≡ negsuc 0) × (held q d.calls nothing_held ≡ nothing_held))
unfolding attach held give_fd give_map
attach-held q k has_path out = ground arith

-- Creating either succeeds and holds one descriptor, the handle's, and one mapping of memory in its initial
-- state, or fails and holds nothing.
pub create-held :
    (q : ℤ) (k : Kernel) (has_path : Bool) (out : Handle)
    → let d = create k has_path out in
      ((d.rc ≡ pos 0)
        × (held q d.calls nothing_held ≡ one_held q d.handle.fd)
        × (d.handle.fd ≡ k.shm_open_fd)
        × (pos 0 ≤ℤ d.handle.fd)
        × (d.handle.layout ≡ some (init_layout k.now)))
      ⊎ ((d.rc ≡ negsuc 0) × (held q d.calls nothing_held ≡ nothing_held))
unfolding create held give_fd give_map
create-held q k has_path out = ground arith

-- Destroying a mapped handle gives back its descriptor and its mapping and clears it, with or
-- without a path to unlink.
pub destroy-held :
    (q : ℤ) (h : Handle) (has_path : Bool) (unlink_rc : ℤ) (mem : Layout)
    → pos 0 ≤ℤ h.fd
    → h.layout ≡ some mem
    → let (rc, h', calls) = destroy has_path unlink_rc (some h) in
      (held q calls (one_held q h.fd) ≡ nothing_held)
      × (h' ≡ some (record { fd = negsuc 0; size = 0; layout = none }))
unfolding destroy held give_fd give_map
destroy-held q h has_path unlink_rc mem p e = ground arith
