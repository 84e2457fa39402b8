-- ===== src/Shim/Process/Clone/Invariant.antt =====
-- What `clone` and its child keep, whatever the order of their accesses.
use linbox.Prelude.{
  ℕ, ◌≡◌, ◌≢◌, ◌↔◌, ◌⊎◌, inl, inr, refl, sym, ap, ◌∙◌, arith, Bool, true, false, Option, none, some,
  if◌then◌else◌, Bool-cases,
}
use mathlib.Core.Option.{some-injective}
use linbox.Shim.Process.{is_process}
use linbox.Shim.Process.Clone.{
  waits, CloneStart, filled, calling, cloned, failed, done, Child, unborn, entered, registering,
  ready, running, ended, broken, Cloning, seen, Step, spawn, refuse, release, give_up, read_kind,
  register, read_fn, read_freed, finish, prepared, Reach, start_up, later,
}

-- Whether the child has asked to be registered.
abbrev pub asked : Option Bool → Bool
asked none = false
asked (some accepted) = true

-- Whether the child is still to read the record.
abbrev reads : Child → Bool
reads entered = true
reads registering = true
reads ready = true
reads _ = false

record Inv (fn arg flags : ℕ) (s : Cloning) : Type 0 where
  early : s.caller ≡ calling → (s.child ≡ unborn) × (s.start ≡ some (filled fn arg flags))
  lost : s.caller ≡ failed → s.child ≡ unborn
  whole : (s.start ≡ none) ⊎ (s.start ≡ some (filled fn arg flags))
  own : is_process flags ≡ true → reads s.child ≡ true → s.copy ≡ some (filled fn arg flags)
  waited :
      waits flags ≡ true
      → reads s.child ≡ true
      → (s.start ≡ some (filled fn arg flags)) × (s.caller ≡ cloned)
  -- What the child runs is what the caller gave, and a process of its own has asked to be registered.
  given :
      (f a : ℕ)
      → s.child ≡ running f a
      → (f ≡ fn) × (a ≡ arg) × (asked s.registered ≡ is_process flags)
  told : s.child ≡ ready → asked s.registered ≡ is_process flags
  kind : s.child ≡ registering → is_process flags ≡ true
  quiet : (s.child ≡ unborn) ⊎ (s.child ≡ entered) → asked s.registered ≡ false
  sound : s.child ≡ broken → (is_process flags ≡ false) × (waits flags ≡ false)

Inv-prepared : (fn arg flags : ℕ) → Inv fn arg flags (prepared fn arg flags)
Inv-prepared fn arg flags = record {
  early = λ e. (refl, refl);
  lost = λ e. cc;
  whole = inr refl;
  own = λ p r. cc;
  waited = λ w r. cc;
  given = λ f a e. cc;
  told = λ e. cc;
  kind = λ e. cc;
  quiet = λ e. refl;
  sound = λ e. cc;
}

module _ {fn arg flags : ℕ} {s : Cloning} (inv : Inv fn arg flags s) where
  open inv use {early, lost, whole, own, waited, given, told, kind, quiet, sound}

  -- The record that the child reads is the one that was filled.
  seen-filled :
      (r : CloneStart) → reads s.child ≡ true → seen flags s ≡ some r → r ≡ filled fn arg flags
  seen-filled r h e = elim (Bool-cases (is_process flags)) [
    | inl p ↦
        let mine = own p h in
        let there : s.copy ≡ some r = rw p at e in
        some-injective r (filled fn arg flags) (sym there ∙ mine)
    | inr p ↦
        let there : s.start ≡ some r = rw p at e in
        elim whole [
          | inl freed ↦ cc
          | inr good ↦ some-injective r (filled fn arg flags) (sym there ∙ good)
        ]
  ]

  spawn-Inv :
      s.caller ≡ calling
      → Inv fn arg flags (record s { caller = cloned; child = entered; copy = s.start })
  spawn-Inv c = record {
    early = λ e. cc;
    lost = λ e. cc;
    whole = whole;
    own = λ p r. (early c).1;
    waited = λ w r. ((early c).1, refl);
    given = λ f a e. cc;
    told = λ e. cc;
    kind = λ e. cc;
    quiet = λ e. quiet (inl (early c).0);
    sound = λ e. cc;
  }

  refuse-Inv : s.caller ≡ calling → Inv fn arg flags (record s { caller = failed })
  refuse-Inv c = record {
    early = λ e. cc;
    lost = λ e. (early c).0;
    whole = whole;
    own = own;
    waited = λ w r. ground (arith, early c);
    given = given;
    told = told;
    kind = kind;
    quiet = quiet;
    sound = sound;
  }

  release-Inv :
      s.caller ≡ cloned
      → (waits flags ≡ false) ⊎ (s.child ≡ ended)
      → Inv fn arg flags (record s { caller = done; start = none })
  release-Inv c w = record {
    early = λ e. cc;
    lost = λ e. cc;
    whole = inl refl;
    own = own;
    waited = λ v r. ground arith;
    given = given;
    told = told;
    kind = kind;
    quiet = quiet;
    sound = sound;
  }

  give_up-Inv : s.caller ≡ failed → Inv fn arg flags (record s { caller = done; start = none })
  give_up-Inv c = record {
    early = λ e. cc;
    lost = λ e. cc;
    whole = inl refl;
    own = own;
    waited = λ v r. ground (arith, lost c);
    given = given;
    told = told;
    kind = kind;
    quiet = quiet;
    sound = sound;
  }

  -- The child goes on from one place to another.
  moved :
      (c : Child) (b : Option Bool)
      → (reads c ≡ true → reads s.child ≡ true)
      → (s.child ≢ unborn)
      → ((f a : ℕ) → c ≡ running f a → (f ≡ fn) × (a ≡ arg) × (asked b ≡ is_process flags))
      → (c ≡ ready → asked b ≡ is_process flags)
      → (c ≡ registering → is_process flags ≡ true)
      → (c ≢ unborn)
      → (c ≢ entered)
      → (c ≡ broken → (is_process flags ≡ false) × (waits flags ≡ false))
      → Inv fn arg flags (record s { child = c; registered = b })
  moved c b h born g t k u e q = record {
    early = λ i. absurd (born (early i).0);
    lost = λ i. absurd (born (lost i));
    whole = whole;
    own = λ p r. own p (h r);
    waited = λ w r. waited w (h r);
    given = g;
    told = t;
    kind = k;
    quiet = λ i. elim i [ inl x ↦ absurd (u x) | inr x ↦ absurd (e x) ];
    sound = q;
  }

  read_kind-Inv :
      (r : CloneStart)
      → s.child ≡ entered
      → r ≡ filled fn arg flags
      → Inv fn arg flags (record s { child = if r.is_process then registering else ready })
  read_kind-Inv r c same = elim (Bool-cases (is_process flags)) [
    | inl p ↦
        rw (same, p)
          (moved registering s.registered (λ x. ground arith) (λ x. cc) (λ f a x. cc) (λ x. cc)
            (λ x. p) (λ x. cc) (λ x. cc) (λ x. cc))
    | inr p ↦
        rw (same, p)
          (moved ready s.registered (λ x. ground arith) (λ x. cc) (λ f a x. cc)
            (λ x. quiet (inr c) ∙ sym p) (λ x. cc) (λ x. cc) (λ x. cc) (λ x. cc))
  ]

  register-Inv :
      (accepted : Bool)
      → s.child ≡ registering
      → Inv fn arg flags (record s { child = ready; registered = some accepted })
  register-Inv accepted c =
      moved ready (some accepted) (λ x. ground arith) (λ x. cc) (λ f a x. cc) (λ x. sym (kind c))
        (λ x. cc) (λ x. cc) (λ x. cc) (λ x. cc)

  read_fn-Inv :
      (r : CloneStart)
      → s.child ≡ ready
      → r ≡ filled fn arg flags
      → Inv fn arg flags (record s { child = running r.fn r.arg })
  read_fn-Inv r c same =
      moved (running r.fn r.arg) s.registered (λ x. cc) (λ x. cc)
        (λ f a x.
          let same_fn = ap (λ (r : CloneStart). r.fn) same in
          let same_arg = ap (λ (r : CloneStart). r.arg) same in (cc, cc, told c))
        (λ x. cc) (λ x. cc) (λ x. cc) (λ x. cc) (λ x. cc)

  -- A record that the child still reads is gone only if it is the caller's, and the caller goes on.
  freed_early :
      reads s.child ≡ true
      → seen flags s ≡ none
      → (is_process flags ≡ false) × (waits flags ≡ false)
  freed_early h gone = elim (Bool-cases (is_process flags)) [
    | inl p ↦ let mine = own p h in let lost = rw p at gone in cc
    | inr p ↦
        let lost : s.start ≡ none = rw p at gone in
        elim (Bool-cases (waits flags)) [
          | inl w ↦ let there = (waited w h).0 in cc
          | inr w ↦ (p, w)
        ]
  ]

  read_freed-Inv :
      (s.child ≡ entered) ⊎ (s.child ≡ ready)
      → seen flags s ≡ none
      → Inv fn arg flags (record s { child = broken })
  read_freed-Inv c gone =
      let reading : reads s.child ≡ true = elim c [ inl e ↦ ap reads e | inr e ↦ ap reads e ] in
      moved broken s.registered (λ x. cc) (λ x. let no = ap reads x in cc) (λ f a x. cc) (λ x. cc)
        (λ x. cc) (λ x. cc) (λ x. cc) (λ x. freed_early reading gone)

  finish-Inv : (f a : ℕ) → s.child ≡ running f a → Inv fn arg flags (record s { child = ended })
  finish-Inv f a c =
      moved ended s.registered (λ x. cc) (λ x. cc) (λ f a x. cc) (λ x. cc) (λ x. cc) (λ x. cc)
        (λ x. cc) (λ x. cc)

Step-Inv :
    {fn arg flags : ℕ} {s t : Cloning} → Inv fn arg flags s → Step flags s t → Inv fn arg flags t
Step-Inv inv (spawn c) = spawn-Inv inv c
Step-Inv inv (refuse c) = refuse-Inv inv c
Step-Inv inv (release c w) = release-Inv inv c w
Step-Inv inv (give_up c) = give_up-Inv inv c
Step-Inv inv (read_kind {r} c e) = read_kind-Inv inv r c (seen-filled inv r (ap reads c) e)
Step-Inv inv (register accepted c) = register-Inv inv accepted c
Step-Inv inv (read_fn {r} c e) = read_fn-Inv inv r c (seen-filled inv r (ap reads c) e)
Step-Inv inv (read_freed c e) = read_freed-Inv inv c e
Step-Inv inv (finish {f} {a} c) = finish-Inv inv f a c

Reach-Inv : {fn arg flags : ℕ} {s : Cloning} → Reach fn arg flags s → Inv fn arg flags s
Reach-Inv {fn} {arg} {flags} start_up = Inv-prepared fn arg flags
Reach-Inv (later r step) = Step-Inv (Reach-Inv r) step

freed_first :
    (fn arg flags : ℕ)
    → is_process flags ≡ false
    → waits flags ≡ false
    → (s : Cloning) × Reach fn arg flags s × (s.child ≡ broken)
freed_first fn arg flags p w = (
  _,
  later (later (later start_up (spawn refl)) (release refl (inl w)))
      (read_freed (inl refl) (rw p refl)),
  refl,
)

-- The child of `clone` can read the start record after the caller has freed it just if it shares the
-- caller's memory, CLONE_VM, and the caller does not wait for it, CLONE_VFORK.
pub Reach-broken_iff :
    (fn arg flags : ℕ)
    → ((s : Cloning) × Reach fn arg flags s × (s.child ≡ broken))
      ↔ ((is_process flags ≡ false) × (waits flags ≡ false))
Reach-broken_iff fn arg flags =
    (λ (s, r, e). (Reach-Inv r).sound e, λ (p, w). freed_first fn arg flags p w)
