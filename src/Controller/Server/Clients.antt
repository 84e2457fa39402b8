-- ===== src/Controller/Server/Clients.antt =====
-- The loop over the clients: it ends, it loses and repeats no descriptor, and what a hangup does.
use linbox.Prelude.{
  ℕ, zero, suc, ◌+◌, ◌-◌, ◌<◌, ◌≡◌, refl, ap, ◌∙◌, arith, some, List, [], ◌∷◌, ◌++◌, ◌==◌,
  if◌then◌else◌, length, get_elem?, set, take, length-set,
}
use linbox.Controller.Server.{last_of, but_last, remove_client}

-- Whether a descriptor is the one that is counted.
abbrev pub hit : ℕ → ℕ → ℕ
hit q x = if x == q then 1 else 0

-- How often a descriptor is in a list.
unfoldable pub count : ℕ → List ℕ → ℕ
count q [] = 0
count q (x ∷ xs) = hit q x + count q xs

pub count-append : (q : ℕ) (xs ys : List ℕ) → count q (xs ++ ys) ≡ count q xs + count q ys
unfolding count
count-append q [] ys = omega arith
count-append q (x ∷ xs) ys = omega (arith, count-append q xs ys)

pub count-one : (q x : ℕ) → count q (x ∷ []) ≡ hit q x
unfolding count
count-one q x = omega arith

count-set :
    (q i v fd : ℕ) (xs : List ℕ)
    → get_elem? xs i ≡ some fd
    → count q (set xs i v) + hit q fd ≡ count q xs + hit q v
unfolding count
count-set q i v fd [] e = cc
count-set q zero v fd (x ∷ xs) e = ground arith
count-set q (suc i) v fd (x ∷ xs) e = omega (arith, count-set q i v fd xs e)

count-but_last :
    (q d : ℕ) (xs : List ℕ)
    → 0 < length xs
    → count q (but_last xs) + hit q (last_of d xs) ≡ count q xs
unfolding count last_of
count-but_last q d [] h = absurd (omega arith)
count-but_last q d (x ∷ []) h = omega arith
count-but_last q d (x ∷ y ∷ xs) h = omega (arith, count-but_last q x (y ∷ xs) (omega arith))

length-but_last : (xs : List ℕ) → length (but_last xs) ≡ length xs - 1
length-but_last [] = refl
length-but_last (x ∷ []) = refl
length-but_last (x ∷ y ∷ xs) = omega (arith, length-but_last (y ∷ xs))

take-but_last : (i : ℕ) (xs : List ℕ) → i < length xs → take i (but_last xs) ≡ take i xs
take-but_last zero xs h = refl
take-but_last (suc i) [] h = refl
take-but_last (suc i) (x ∷ []) h = absurd (omega arith)
take-but_last (suc i) (x ∷ y ∷ xs) h = ap (λ l. x ∷ l) (take-but_last i (y ∷ xs) (omega arith))

take-set : (i v : ℕ) (xs : List ℕ) → take i (set xs i v) ≡ take i xs
take-set zero v xs = refl
take-set (suc i) v [] = refl
take-set (suc i) v (x ∷ xs) = ap (λ l. x ∷ l) (take-set i v xs)

pub get_elem?-bound : (i fd : ℕ) (xs : List ℕ) → get_elem? xs i ≡ some fd → i < length xs
get_elem?-bound i fd [] e = cc
get_elem?-bound zero fd (x ∷ xs) e = omega arith
get_elem?-bound (suc i) fd (x ∷ xs) e = omega (arith, get_elem?-bound i fd xs e)

last_of_idem : (x : ℕ) (xs : List ℕ) → last_of (last_of x xs) xs ≡ last_of x xs
unfolding last_of
last_of_idem x [] = refl
last_of_idem x (y ∷ xs) = refl

last_of-set : (d i : ℕ) (xs : List ℕ) → last_of d (set xs i (last_of d xs)) ≡ last_of d xs
unfolding last_of
last_of-set d i [] = refl
last_of-set d zero (x ∷ xs) = last_of_idem x xs
last_of-set d (suc i) (x ∷ xs) = last_of-set x i xs

-- Taking the client at an index away takes its descriptor away once.
pub count-remove_client :
    (q i fd : ℕ) (xs : List ℕ)
    → get_elem? xs i ≡ some fd
    → count q (remove_client i xs) + hit q fd ≡ count q xs
count-remove_client q i fd xs e =
    let v = last_of 0 xs in
    let bound = get_elem?-bound i fd xs e in
    omega (
      arith,
      count-but_last q 0 (set xs i v) (omega (arith, length-set xs i v)),
      ap (hit q) (last_of-set 0 i xs),
      count-set q i v fd xs e,
    )

pub length-remove_client :
    (i fd : ℕ) (xs : List ℕ)
    → get_elem? xs i ≡ some fd
    → length (remove_client i xs) + 1 ≡ length xs
length-remove_client i fd xs e =
    let v = last_of 0 xs in
    let bound = get_elem?-bound i fd xs e in
    omega (arith, length-but_last (set xs i v), length-set xs i v)

pub take-remove_client :
    (i fd : ℕ) (xs : List ℕ) → get_elem? xs i ≡ some fd → take i (remove_client i xs) ≡ take i xs
take-remove_client i fd xs e =
    let v = last_of 0 xs in
    let bound = get_elem?-bound i fd xs e in
    take-but_last i (set xs i v) (omega (arith, length-set xs i v)) ∙ take-set i v xs
