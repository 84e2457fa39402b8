-- ===== src/Controller/TimeManager/NsAdd.antt =====
-- `ns_add`: exact on its range, normalised, and where it overflows.
use linbox.Prelude.{
  ◌^◌, ◌≤◌, ℕ, zero, suc, ◌+◌, ◌*◌, ◌%◌, ◌<◌, ◌≡◌, ◌↔◌, refl, sym, ap, ◌∙◌, arith, some, ltb,
  Bool-cases, inl, inr, false,
}
use mathlib.Core.Path.{subst}
use mathlib.Core.Option.{some-injective}
use linbox.Prelude.Int.{ℤ, pos, negsuc, ◌+ℤ◌, ◌-ℤ◌, ◌*ℤ◌, ◌≤ℤ◌, ltb_ℤ, int_laws, pos_part, neg_part}
use linbox.Prelude.Words.{IsI64}
use linbox.Shm.{Timespec}
use linbox.Controller.TimeManager.{neg, int64, split_ns, ns_add, billion, both_defined}

-- The nanoseconds that a timespec stands for, normalised or not.
abbrev pub total_ns : Timespec → ℤ
total_ns t = t.tv_sec *ℤ pos billion +ℤ t.tv_nsec

abbrev pub IsNormal : Timespec → Type 0
IsNormal t = (pos 0 ≤ℤ t.tv_nsec) × (t.tv_nsec ≤ℤ pos 999999999)

pub int64-eq : (x y : ℤ) → int64 x ≡ some y → (x ≡ y) × IsI64 y
int64-eq (pos n) y e = ground arith
int64-eq (negsuc n) y e = ground arith

int64-IsI64 : (x : ℤ) → IsI64 x → int64 x ≡ some x
int64-IsI64 (pos n) h = ground arith
int64-IsI64 (negsuc n) h = ground arith

mul_billion_parts :
    (a : ℤ)
    → pos_part (a *ℤ pos billion) + neg_part a * billion
      ≡ neg_part (a *ℤ pos billion) + pos_part a * billion
unfolding ◌*ℤ◌
mul_billion_parts (pos n) = ground arith
mul_billion_parts (negsuc n) = ground arith

neg_parts : (k : ℕ) → (pos_part (neg k) ≡ 0) × (neg_part (neg k) ≡ k)
neg_parts zero = (refl, refl)
neg_parts (suc k) = (refl, refl)

ltb_ℤ-neg : (k : ℕ) → ltb_ℤ (neg k) (pos 0) ≡ ltb 0 k
ltb_ℤ-neg zero = refl
ltb_ℤ-neg (suc k) = ground arith

ruleset ns_laws = (int_laws, mul_billion_parts, neg_parts)

split_ns-exact : (ns : ℤ) → (total_ns (split_ns ns) ≡ ns) × IsNormal (split_ns ns)
split_ns-exact (pos n) = rw (ltb_ℤ_pos (n % billion)) (omega ns_laws)
  where
    ltb_ℤ_pos : (k : ℕ) → ltb_ℤ (pos k) (pos 0) ≡ false
    ltb_ℤ_pos k = ground arith
split_ns-exact (negsuc n) = elim (Bool-cases (ltb 0 (suc n % billion))) [
  | inl e ↦
      let r : 0 < suc n % billion = ground arith in
      rw (ltb_ℤ-neg (suc n % billion), e) (omega ns_laws)
  | inr e ↦
      let r : suc n % billion ≡ 0 = ground arith in
      rw (ltb_ℤ-neg (suc n % billion), e) (omega ns_laws)
]

-- The three steps of the sum stay in int64_t.
abbrev pub Fits : Timespec → ℤ → Type 0
Fits t delta = IsI64 (t.tv_sec *ℤ pos billion) × IsI64 (total_ns t) × IsI64 (total_ns t +ℤ delta)

steps_of :
    (t u : Timespec) (delta : ℤ)
    → ns_add t delta ≡ some u
    → Fits t delta × (split_ns (total_ns t +ℤ delta) ≡ u)
unfolding ns_add
steps_of t u delta e =
    let (a, ea, e1) = both_defined (int64 (t.tv_sec *ℤ pos billion)) _ e in
    let (b, eb, e2) = both_defined (int64 (a +ℤ t.tv_nsec)) _ e1 in
    let (ns, en, e3) = both_defined (int64 (b +ℤ delta)) _ e2 in
    let (a_eq, a_fits) = int64-eq (t.tv_sec *ℤ pos billion) a ea in
    let (b_eq, b_fits) = int64-eq (a +ℤ t.tv_nsec) b eb in
    let (n_eq, n_fits) = int64-eq (b +ℤ delta) ns en in
    let b_total : total_ns t ≡ b = ap (λ (x : ℤ). x +ℤ t.tv_nsec) a_eq ∙ b_eq in
    let n_total : total_ns t +ℤ delta ≡ ns = ap (λ (x : ℤ). x +ℤ delta) b_total ∙ n_eq in
    (
      (
        subst IsI64 (sym a_eq) a_fits,
        subst IsI64 (sym b_total) b_fits,
        subst IsI64 (sym n_total) n_fits,
      ),
      ap split_ns n_total ∙ cc e3,
    )

-- A sum that is defined is exact, and its nanoseconds lie below a second, whatever the sign.
pub ns_add-exact :
    (t u : Timespec) (delta : ℤ)
    → ns_add t delta ≡ some u
    → (total_ns u ≡ total_ns t +ℤ delta) × IsNormal u
ns_add-exact t u delta e = rw (← (steps_of t u delta e).1) (split_ns-exact (total_ns t +ℤ delta))

ns_add-Fits_iff :
    (t : Timespec) (delta : ℤ) → ((u : Timespec) × (ns_add t delta ≡ some u)) ↔ Fits t delta
unfolding ns_add
ns_add-Fits_iff t delta = (
  λ d. (steps_of t d.0 delta d.1).0,
  λ f. (
    split_ns (total_ns t +ℤ delta),
    rw (int64-IsI64 _ f.0, int64-IsI64 _ f.1, int64-IsI64 _ f.2),
  ),
)

Fits-after :
    (s n d : ℕ)
    → n < 1000000000
    → Fits (record { tv_sec = pos s; tv_nsec = pos n }) (pos d) ↔ (s * 1000000000 + n + d < 2 ^ 63)
unfolding ◌+ℤ◌ ◌*ℤ◌
Fits-after s n d h = (λ f. ground arith, λ f. ground arith)

Fits-before :
    (s n d : ℕ)
    → n < 1000000000
    → Fits (record { tv_sec = negsuc s; tv_nsec = pos n }) (pos d)
      ↔ ((suc s * 1000000000 ≤ 2 ^ 63) × (n + d < 2 ^ 63 + suc s * 1000000000))
unfolding ◌+ℤ◌ ◌*ℤ◌
Fits-before s n d h = (λ f. ground arith, λ f. ground arith)

-- With nanoseconds from 0 to 999999999 and a delta that is not negative, the sum is defined for a
-- time from 1970 on just if the whole is less than 2^63 nanoseconds; and for a time before 1970, -t
-- seconds and the nanoseconds, just if t is at most 2^63 nanoseconds and the sum is less than 2^63 of
-- them.
pub ns_add-defined_iff :
    (s n d : ℕ)
    → n < 1000000000
    → (((u : Timespec) × (ns_add (record { tv_sec = pos s; tv_nsec = pos n }) (pos d) ≡ some u))
        ↔ (s * 1000000000 + n + d < 2 ^ 63))
      × (((u : Timespec) × (ns_add (record { tv_sec = negsuc s; tv_nsec = pos n }) (pos d)
              ≡ some u))
          ↔ ((suc s * 1000000000 ≤ 2 ^ 63) × (n + d < 2 ^ 63 + suc s * 1000000000)))
ns_add-defined_iff s n d h =
    let (fits, back) = ns_add-Fits_iff (record { tv_sec = pos s; tv_nsec = pos n }) (pos d) in
    let (fits', back') = ns_add-Fits_iff (record { tv_sec = negsuc s; tv_nsec = pos n }) (pos d) in
    let (less, good) = Fits-after s n d h in
    let (less', good') = Fits-before s n d h in
    ((λ u. less (fits u), λ l. back (good l)), (λ u. less' (fits' u), λ l. back' (good' l)))

split_ns-IsI64 : (ns : ℤ) → IsI64 ns → IsI64 (split_ns ns).tv_sec × IsI64 (split_ns ns).tv_nsec
unfolding ◌+ℤ◌ ◌-ℤ◌
split_ns-IsI64 (pos n) h = ground arith
split_ns-IsI64 (negsuc n) h = ground arith

-- A sum that is defined has fields of 64 bits.
pub ns_add-IsI64 :
    (t u : Timespec) (delta : ℤ) → ns_add t delta ≡ some u → IsI64 u.tv_sec × IsI64 u.tv_nsec
unfolding ns_add
ns_add-IsI64 t u delta e =
    let (a, ea, more) = both_defined (int64 (t.tv_sec *ℤ pos billion)) _ e in
    let (b, eb, rest) = both_defined (int64 (a +ℤ t.tv_nsec)) _ more in
    let (ns, en, last) = both_defined (int64 (b +ℤ delta)) _ rest in
    let h = split_ns-IsI64 ns (int64-eq (b +ℤ delta) ns en).1 in
    subst (λ (v : Timespec). IsI64 v.tv_sec × IsI64 v.tv_nsec) (some-injective (split_ns ns) u last)
      h
