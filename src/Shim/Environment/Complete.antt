-- ===== src/Shim/Environment/Complete.antt =====
-- A program is started with all that the shim needs in it, and with all that it was given.
use linbox.Prelude.{
  ℕ, zero, suc, ◌≡◌, refl, sym, ap, ◌∙◌, arith, Bool, true, false, not, ◌&&◌, ◌||◌, Option, none,
  some, List, [], ◌∷◌, ◌++◌, length, drop-append, All, Bool-cases, inl, inr,
}
use mathlib.Core.Path.{subst}
use mathlib.Core.List.{append-nil}
use mathlib.Core.Option.{some-injective}
use linbox.Shim.Environment.{
  Binding, same_bytes, binds, is_bound, wanted, entry_of, to_add, allocates, unchanged, merge,
  inject_runtime_env, handed_on, exec_env, freed,
}

entry_binds : (name : List ℕ) (value : Option (List ℕ)) → binds name (entry_of name value) ≡ true
unfolding binds same_bytes
entry_binds [] none = refl
entry_binds [] (some v) = refl
entry_binds (x ∷ name) none = ground (arith, entry_binds name none)
entry_binds (x ∷ name) (some v) = ground (arith, entry_binds name (some v))

or_assoc : (x y z : Bool) → (x || (y || z)) ≡ ((x || y) || z)
or_assoc true y z = refl
or_assoc false y z = refl

is_bound-append :
    (name : List ℕ) (xs ys : List (List ℕ))
    → is_bound name (xs ++ ys) ≡ (is_bound name xs || is_bound name ys)
unfolding is_bound
is_bound-append name [] ys = refl
is_bound-append name (x ∷ xs) ys =
    ap (λ b. binds name x || b) (is_bound-append name xs ys)
    ∙ or_assoc (binds name x) (is_bound name xs) (is_bound name ys)

-- Every variable that is to be handed on is bound.
abbrev pub Complete : List Binding → List (List ℕ) → Type 0
Complete needed entries =
    All (λ (b : Binding). wanted b.value ≡ true → is_bound b.name entries ≡ true) needed

or_right : (x y : Bool) → y ≡ true → (x || y) ≡ true
or_right true y e = refl
or_right false y e = e

bound_by :
    (b : Binding) (entries added : List (List ℕ))
    → is_bound b.name entries ≡ true
    → is_bound b.name (entries ++ added) ≡ true
bound_by b entries added e = is_bound-append b.name entries added ∙ rw e refl

weaken :
    (needed : List Binding) (entries : List (List ℕ)) (e : List ℕ) (added : List (List ℕ))
    → Complete needed (entries ++ added)
    → Complete needed (entries ++ (e ∷ added))
unfolding is_bound
weaken [] entries e added h = tt
weaken (b ∷ needed) entries e added h = (
  λ w.
      is_bound-append b.name entries (e ∷ added)
      ∙ ground (arith, h.0 w, is_bound-append b.name entries added),
  weaken needed entries e added h.1,
)

bound_before : (w b : Bool) → (w && not b) ≡ false → w ≡ true → b ≡ true
bound_before true true e h = refl
bound_before true false e h = cc
bound_before false b e h = cc

to_add-Complete :
    (entries : List (List ℕ)) (needed : List Binding)
    → Complete needed (entries ++ to_add entries needed)
unfolding to_add is_bound
to_add-Complete entries [] = tt
to_add-Complete entries (b ∷ needed) =
    let ih = to_add-Complete entries needed in
    let rest = to_add entries needed in
    let entry = entry_of b.name b.value in
    elim (Bool-cases (wanted b.value && not (is_bound b.name entries))) [
      | inl new ↦
          let more : to_add entries (b ∷ needed) ≡ entry ∷ rest = rw new refl in
          subst (λ l. Complete (b ∷ needed) (entries ++ l)) (sym more)
            (
              λ w.
                  is_bound-append b.name entries (entry ∷ rest)
                  ∙ or_right (is_bound b.name entries) (binds b.name entry || is_bound b.name rest)
                      (rw (entry_binds b.name b.value) refl),
              weaken needed entries entry rest ih,
            )
      | inr old ↦
          let same : to_add entries (b ∷ needed) ≡ rest = rw old refl in
          subst (λ l. Complete (b ∷ needed) (entries ++ l)) (sym same)
            (
              λ w.
                  bound_by b entries rest
                    (bound_before (wanted b.value) (is_bound b.name entries) old w),
              ih,
            )
    ]

pub nothing_to_add :
    (entries : List (List ℕ)) (needed : List Binding)
    → Complete needed entries
    → to_add entries needed ≡ []
unfolding to_add
nothing_to_add entries [] h = refl
nothing_to_add entries (b ∷ needed) h = elim (Bool-cases (wanted b.value)) [
  | inl w ↦ rw (w, h.0 w) (nothing_to_add entries needed h.1)
  | inr w ↦ rw w (nothing_to_add entries needed h.1)
]

allocates_all :
    (n : ℕ) (memory : ℕ → Bool) → ((k : ℕ) → memory k ≡ true) → allocates n memory ≡ true
unfolding allocates
allocates_all zero memory h = refl
allocates_all (suc n) memory h = rw (h n) (allocates_all n memory h)

-- What the callers get of the entries to add.
handed :
    (memory : ℕ → Bool) (entries added : List (List ℕ))
    → ((k : ℕ) → memory k ≡ true)
    → (handed_on (merge true memory entries added) (some entries) ≡ some (entries ++ added))
      × (freed (merge true memory entries added) (some entries) ≡ added)
unfolding freed
handed memory entries [] h = (ap some (sym (append-nil entries)), refl)
handed memory entries (e ∷ added) h =
    rw (allocates_all (length (e ∷ added)) memory h) (refl, drop-append entries (e ∷ added))

-- With memory to be had, a program gets all the entries that it was to get, in their order, and behind them one
-- for each variable of the shim that is set and that they do not bind: so every such variable is bound.
-- The strings that are freed afterwards are just those.
pub exec_env-Complete :
    (needed : List Binding) (memory : ℕ → Bool) (entries : List (List ℕ))
    → ((k : ℕ) → memory k ≡ true)
    → (added : List (List ℕ)) × (exec_env needed true memory (some entries)
        ≡ some (entries ++ added))
      × Complete needed (entries ++ added)
      × (freed (inject_runtime_env needed true memory (some entries)) (some entries) ≡ added)
unfolding exec_env inject_runtime_env
exec_env-Complete needed memory entries h =
    let added = to_add entries needed in
    let (handed_over, given_back) = handed memory entries added h in
    (added, handed_over, to_add-Complete entries needed, given_back)

-- An environment that a program was started with is handed on as it is when the program starts
-- another one with the same variables set.
pub inject_runtime_env-again :
    (needed : List Binding) (calloc_ok : Bool) (memory memory' : ℕ → Bool)
    (entries entries' : List (List ℕ))
    → exec_env needed true memory (some entries) ≡ some entries'
    → ((k : ℕ) → memory k ≡ true)
    → inject_runtime_env needed calloc_ok memory' (some entries') ≡ unchanged
unfolding exec_env inject_runtime_env
inject_runtime_env-again needed calloc_ok memory memory' entries entries' e h =
    let (handed_over, given_back) = handed memory entries (to_add entries needed) h in
    let whole = some-injective entries' _ (sym e ∙ handed_over) in
    let all : Complete needed entries' =
      subst (Complete needed) (sym whole) (to_add-Complete entries needed) in
    rw (nothing_to_add entries' needed all) refl
