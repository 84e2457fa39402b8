-- ===== src/Shim/Descriptors.antt =====
-- The descriptors that src/shim/random.c makes up for /dev/urandom and /dev/random. Files has the
-- calls that use them.
pub mod Files
use linbox.Prelude.{
  zero, suc, and_split, ℕ, ◌+◌, ◌≤◌, ◌<◌, ◌≡◌, ◌≢◌, refl, sym, ap, ◌∙◌, arith, Bool, true, false,
  not, ◌&&◌, ◌||◌, Option, none, some, List, [], ◌∷◌, ◌==◌, if◌then◌else◌, inl, inr, Bool-cases,
  replicate, length,
}
use mathlib.Core.Option.{some-injective}
use linbox.Prelude.Int.{ℤ, pos, negsuc}

-- `linbox_virtual_fd_t`
pub record VirtualFd : Type 0 where
  pub fd : ℤ
  pub used : Bool

abbrev pub virtual_fd_base : ℕ
virtual_fd_base = 1000000

-- `g_virtual_fds` at the start of the process
abbrev pub initial_table : List VirtualFd
initial_table = replicate 16 (record { fd = pos 0; used = false })

abbrev pub same_fd : ℤ → ℤ → Bool
same_fd (pos m) (pos n) = m == n
same_fd (negsuc m) (negsuc n) = m == n
same_fd _ _ = false

-- `linbox_allocate_virtual_fd` from index `i` on: the descriptor, or `none` for -1 with errno EMFILE;
-- and the table.
unfoldable pub allocate_from : ℕ → List VirtualFd → Option ℤ × List VirtualFd
allocate_from i [] = (none, [])
allocate_from i (v ∷ table) =
    let (found, rest) = allocate_from (i + 1) table in
    let fd = pos (virtual_fd_base + i) in
    if v.used then (found, v ∷ rest) else (some fd, record { fd = fd; used = true } ∷ table)

abbrev pub allocate_virtual_fd : List VirtualFd → Option ℤ × List VirtualFd
allocate_virtual_fd table = allocate_from 0 table

pub is_virtual_fd : ℤ → List VirtualFd → Bool
is_virtual_fd fd [] = false
is_virtual_fd fd (v ∷ table) =
    let rest = is_virtual_fd fd table in if v.used && same_fd v.fd fd then true else rest

pub release_virtual_fd : ℤ → List VirtualFd → List VirtualFd
release_virtual_fd fd [] = []
release_virtual_fd fd (v ∷ table) =
    let rest = release_virtual_fd fd table in
    if v.used && same_fd v.fd fd then record { fd = negsuc 0; used = false } ∷ table else v ∷ rest

-- Every descriptor in use is the one of its place, so no two are the same.
abbrev pub InPlace : ℕ → List VirtualFd → Type 0
InPlace i [] = Unit
InPlace i (v ∷ table) = (v.used ≡ true → v.fd ≡ pos (virtual_fd_base + i)) × InPlace (i + 1) table

pub unused-InPlace : (n i : ℕ) → InPlace i (replicate n (record { fd = pos 0; used = false }))
unused-InPlace zero i = tt
unused-InPlace (suc n) i = (λ e. cc, unused-InPlace n (i + 1))

-- So it is at the start of the process.
pub initial_table-InPlace : InPlace 0 initial_table
initial_table-InPlace = unused-InPlace 16 0

pub same_fd_refl : (x : ℤ) → same_fd x x ≡ true
same_fd_refl (pos n) = ground arith
same_fd_refl (negsuc n) = ground arith

pub same_fd-eq : (x y : ℤ) → same_fd x y ≡ true → x ≡ y
same_fd-eq (pos m) (pos n) e = ap pos (ground arith)
same_fd-eq (negsuc m) (negsuc n) e = ap negsuc (ground arith)
same_fd-eq (pos m) (negsuc n) e = cc
same_fd-eq (negsuc m) (pos n) e = cc

other_place :
    (i k : ℕ) → i ≢ k → same_fd (pos (virtual_fd_base + i)) (pos (virtual_fd_base + k)) ≡ false
other_place i k ne = ground arith

-- A descriptor below the place at which the table starts is not in it.
absent :
    (i k : ℕ) (table : List VirtualFd)
    → InPlace i table
    → k < i
    → is_virtual_fd (pos (virtual_fd_base + k)) table ≡ false
unfolding is_virtual_fd
absent i k [] h l = refl
absent i k (v ∷ table) h l =
    let rest = absent (i + 1) k table h.1 (omega arith) in
    elim (Bool-cases v.used) [
      | inr u ↦ rw u rest
      | inl u ↦ rw (u, h.0 u, other_place i k (λ e. omega (arith, e))) rest
    ]

-- Where a descriptor is allocated.
pub place_of :
    (i : ℕ) (table : List VirtualFd) (fd : ℤ)
    → (allocate_from i table).0 ≡ some fd
    → (k : ℕ) × (i ≤ k) × (fd ≡ pos (virtual_fd_base + k)) × (k < i + length table)
unfolding allocate_from
place_of i [] fd e = cc
place_of i (v ∷ table) fd e = elim (Bool-cases v.used) [
  | inr u ↦
      (i, omega arith, sym (some-injective (pos (virtual_fd_base + i)) fd (rw u at e)), omega arith)
  | inl u ↦
      let (k, l, same, high) = place_of (i + 1) table fd (rw u at e) in
      (k, omega arith, same, omega arith)
]

pub length-allocate_from :
    (i : ℕ) (table : List VirtualFd) → length (allocate_from i table).1 ≡ length table
unfolding allocate_from
length-allocate_from i [] = refl
length-allocate_from i (v ∷ table) = elim (Bool-cases v.used) [
  | inr u ↦ rw u refl
  | inl u ↦ rw u (ap suc (length-allocate_from (i + 1) table))
]

or_last : (x y z : Bool) → (if x then true else (y || z)) ≡ (if x then true else y) || z
or_last true y z = refl
or_last false y z = refl

and_true : (x : Bool) → x && true ≡ x
and_true true = refl
and_true false = refl

or_comm : (x y : Bool) → (if x then true else y) ≡ y || x
or_comm true true = refl
or_comm true false = refl
or_comm false true = refl
or_comm false false = refl

-- What it means for a descriptor to be added to the table.
abbrev pub Added : ℕ → ℤ → List VirtualFd → List VirtualFd → Type 0
Added i fd table after =
    InPlace i after
    × (is_virtual_fd fd table ≡ false)
    × ((other : ℤ) → is_virtual_fd other after ≡ (is_virtual_fd other table || same_fd fd other))

allocated_from :
    (i : ℕ) (table : List VirtualFd) (fd : ℤ)
    → InPlace i table
    → (allocate_from i table).0 ≡ some fd
    → Added i fd table (allocate_from i table).1
unfolding allocate_from is_virtual_fd
allocated_from i [] fd h e = cc
allocated_from i (v ∷ table) fd h e = elim (Bool-cases v.used) [
  | inr u ↦
      let here = some-injective (pos (virtual_fd_base + i)) fd (rw u at e) in
      rw (u, ← here)
        (
          (λ p. refl, h.1),
          ap (λ x. is_virtual_fd x table) (sym here) ∙ absent (i + 1) i table h.1 (omega arith),
          λ other. or_comm (same_fd (pos (virtual_fd_base + i)) other) (is_virtual_fd other table),
        )
  | inl u ↦
      let e' = rw u at e in
      let (k, l, same, _) = place_of (i + 1) table fd e' in
      let (good, fresh, others) = allocated_from (i + 1) table fd h.1 e' in
      let apart : same_fd v.fd fd ≡ false =
        rw (h.0 u, same) (other_place i k (λ e. omega (arith, e))) in
      rw (u, apart)
        (
          (λ p. h.0 u, good),
          fresh,
          λ other.
              rw (others other)
                (or_last (same_fd v.fd other) (is_virtual_fd other table) (same_fd fd other)),
        )
]

-- A descriptor that the shim makes up was not in use, is in use after the call, and no other
-- descriptor's use changes; the ones in use stay distinct.
pub allocate_virtual_fd-Added :
    (table : List VirtualFd) (fd : ℤ)
    → InPlace 0 table
    → (allocate_virtual_fd table).0 ≡ some fd
    → Added 0 fd table (allocate_virtual_fd table).1
allocate_virtual_fd-Added table fd h e = allocated_from 0 table fd h e

-- The place that is released: `same` says whether `other` is the descriptor of that place.
released_here :
    (i : ℕ) (other : ℤ) (table : List VirtualFd) (same : Bool)
    → InPlace (i + 1) table
    → same_fd (pos (virtual_fd_base + i)) other ≡ same
    → is_virtual_fd other table ≡ (if same then true else is_virtual_fd other table) && not same
released_here i other table true h e =
    let there = same_fd-eq (pos (virtual_fd_base + i)) other e in
    ap (λ x. is_virtual_fd x table) (sym there) ∙ absent (i + 1) i table h (omega arith)
released_here i other table false h e = sym (and_true (is_virtual_fd other table))

-- A place that is not released: `mine` says whether it is the one of `other`.
released_there :
    (mine rest same : Bool)
    → (mine ≡ true → same ≡ false)
    → (if mine then true else (rest && not same)) ≡ (if mine then true else rest) && not same
released_there true rest same h = rw (h refl) refl
released_there false rest same h = refl

-- Releasing a descriptor takes it out of use, and no other one.
pub release_virtual_fd-removes :
    (i : ℕ) (fd : ℤ) (table : List VirtualFd)
    → InPlace i table
    → InPlace i (release_virtual_fd fd table)
      × ((other : ℤ)
          → is_virtual_fd other (release_virtual_fd fd table)
            ≡ (is_virtual_fd other table && not (same_fd fd other)))
unfolding release_virtual_fd is_virtual_fd
release_virtual_fd-removes i fd [] h = (tt, λ other. refl)
release_virtual_fd-removes i fd (v ∷ table) h =
    let (good, others) = release_virtual_fd-removes (i + 1) fd table h.1 in
    elim (Bool-cases (v.used && same_fd v.fd fd)) [
      | inl hit ↦
          let (u, same) = and_split v.used (same_fd v.fd fd) hit in
          let mine = sym (same_fd-eq v.fd fd same) ∙ h.0 u in
          let first : (false ≡ true) → negsuc 0 ≡ pos (virtual_fd_base + i) = λ e. cc in
          rw hit (
            (first, h.1),
            λ other.
                rw (u, h.0 u, mine)
                  (released_here i other table (same_fd (pos (virtual_fd_base + i)) other) h.1
                    refl),
          )
      | inr miss ↦ rw miss (
        (h.0, good),
        λ other. rw (others other) (
            released_there (v.used && same_fd v.fd other) (is_virtual_fd other table)
              (same_fd fd other)
              (λ e. elim (Bool-cases (same_fd fd other)) [
                | inr apart ↦ apart
                | inl y ↦
                    let there = ap (λ x. v.used && same_fd v.fd x) (same_fd-eq fd other y) ∙ e in cc
              ])),
      )
    ]
