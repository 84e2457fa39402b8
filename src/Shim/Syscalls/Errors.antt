-- ===== src/Shim/Syscalls/Errors.antt =====
-- How failures travel: as a negative number in RAX, and as -1 with errno.
use linbox.Prelude.{
  ℕ, zero, suc, ◌≤◌, ◌≡◌, ◌↔◌, refl, arith, true, false, Option, none, some, if◌then◌else◌,
  Bool-cases, inl, inr, ap, ◌∙◌, ◌≢◌, sym,
}
use mathlib.Core.Option.{some-injective}
use linbox.Prelude.Int.{ℤ, pos, negsuc}
use linbox.Prelude.Words.{IsI32, signed32-unsigned32}
use linbox.Shim.Syscalls.{Outcome, is_error, neg_ℕ, abs_ℤ, syscall_result, rax_of}

error_range :
    (rc : ℤ) → is_error rc ≡ true → (1 ≤ abs_ℤ rc) × (abs_ℤ rc ≤ 4095) × (rc ≡ neg_ℕ (abs_ℤ rc))
error_range (pos n) e = ground arith
error_range (negsuc n) e = ground arith

neg-is_error : (e : ℕ) → 1 ≤ e → e ≤ 4095 → (is_error (neg_ℕ e) ≡ true) × (abs_ℤ (neg_ℕ e) ≡ e)
neg-is_error (suc e) lo hi = ground arith
neg-is_error zero lo hi = absurd (omega arith)

when_error : (rc : ℤ) → is_error rc ≡ true → syscall_result rc ≡ (negsuc 0, some (abs_ℤ rc))
unfolding syscall_result
when_error rc e = rw e refl

when_fine : (rc : ℤ) → is_error rc ≡ false → IsI32 rc → syscall_result rc ≡ (rc, none)
unfolding syscall_result
when_fine rc e fits = rw (e, signed32-unsigned32 rc fits) refl

no_errno : (rc : ℤ) (e : ℕ) → is_error rc ≡ false → (syscall_result rc).1 ≢ some e
unfolding syscall_result
no_errno rc e f = rw f (λ p. cc)

-- `linbox_syscall_result`, of a number that fits an `int`: it sets errno just for -4095 to -1, to the
-- number without its sign, and returns -1 then; and it returns the number itself just for all others.
pub syscall_result-errors :
    (rc : ℤ) (e : ℕ)
    → IsI32 rc
    → ((syscall_result rc ≡ (negsuc 0, some e)) ↔ ((1 ≤ e) × (e ≤ 4095) × (rc ≡ neg_ℕ e)))
      × ((syscall_result rc ≡ (rc, none)) ↔ (is_error rc ≡ false))
syscall_result-errors rc e fits = (
  (
    (λ p. elim (Bool-cases (is_error rc)) [
      | inr f ↦ absurd (no_errno rc e f (ap (λ (q : ℤ × Option ℕ). q.1) p))
      | inl t ↦
          let same =
            some-injective (abs_ℤ rc) e
              (ap (λ (q : ℤ × Option ℕ). q.1) (sym (when_error rc t) ∙ p)) in
          rw (← same) (error_range rc t)
    ]),
    (λ h.
        let (t, same) = neg-is_error e h.0 h.1 in
        rw (h.2) (when_error (neg_ℕ e) t ∙ ap (λ x. (negsuc 0, some x)) same)),
  ),
  (
    (λ p. elim (Bool-cases (is_error rc)) [
      | inr f ↦ f
      | inl t ↦ let q = ap (λ (q : ℤ × Option ℕ). q.1) (sym (when_error rc t) ∙ p) in cc
    ]),
    (λ f. when_fine rc f fits),
  ),
)

-- A call that ends by -1 and an errno in range, or by a number that is no error code, comes back
-- through RAX and `linbox_syscall_result` as it was.
pub syscall_result-rax_of :
    (o : Outcome)
    → 1 ≤ o.errno
    → o.errno ≤ 4095
    → IsI32 o.rc
    → syscall_result (rax_of o).rc
      ≡ (if is_error o.rc then (negsuc 0, some o.errno) else (o.rc, none))
syscall_result-rax_of o lo hi fits = elim (Bool-cases (is_error o.rc)) [
  | inr f ↦ rw f (when_fine o.rc f fits)
  | inl t ↦
      let (e, same) = neg-is_error o.errno lo hi in
      rw t (when_error (neg_ℕ o.errno) e ∙ ap (λ x. (negsuc 0, some x)) same)
]
