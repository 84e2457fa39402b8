-- ===== src/Controller/Server/Rounds.antt =====
-- The loop over the clients, a round at a time, and the descriptors it keeps and closes.
use linbox.Prelude.{
  ℕ, zero, suc, ◌+◌, ◌≤◌, ◌≡◌, refl, sym, ap, ◌∙◌, arith, true, false, none, some, List, [], ◌∷◌,
  ◌⊎◌, length, get_elem?, take, drop, take_all, take-append-drop, inl, inr, Bool-cases,
  Option-cases,
}
use mathlib.Core.Path.{subst}
use mathlib.Core.Option.{some-injective}
use linbox.Controller.Server.{
  World, Server, Reply, drop_client, serve, is_ok, handle_client_message,
}
use linbox.Controller.Server.Clients.{
  count, count-append, count-one, count-remove_client, length-remove_client, take-remove_client,
}

-- What the handler leaves for the client with descriptor `fd`.
abbrev pub reply_to : World → ℕ → Server → Reply
reply_to w fd s = handle_client_message (w.received fd) w.now (w.write_ok fd) s.manager

abbrev pub with_reply : World → ℕ → Server → Server
with_reply w fd s = record s { manager = (reply_to w fd s).manager }

-- The rounds of the loop at index `i` that visit the client `fd`: a hangup, a message that is refused, one
-- that is answered, and nothing to read; with the index and the server they leave.
pub data Round (w : World) (i : ℕ) (s : Server) : ℕ → Server → Type 0 where
  hung_up :
      (fd : ℕ)
      → get_elem? s.clients i ≡ some fd
      → (w.revents i).failed ≡ true
      → Round w i s i (drop_client i fd s)
  broken :
      (fd : ℕ)
      → get_elem? s.clients i ≡ some fd
      → (w.revents i).failed ≡ false
      → (w.revents i).readable ≡ true
      → is_ok (reply_to w fd s).rc ≡ false
      → Round w i s i (drop_client i fd (with_reply w fd s))
  served :
      (fd : ℕ)
      → get_elem? s.clients i ≡ some fd
      → (w.revents i).failed ≡ false
      → (w.revents i).readable ≡ true
      → is_ok (reply_to w fd s).rc ≡ true
      → Round w i s (i + 1) (with_reply w fd s)
  idle :
      (fd : ℕ)
      → get_elem? s.clients i ≡ some fd
      → (w.revents i).failed ≡ false
      → (w.revents i).readable ≡ false
      → Round w i s (i + 1) s

pub serve-Round :
    (w : World) (fuel i : ℕ) (s : Server) (j : ℕ) (t : Server)
    → Round w i s j t
    → serve w (suc fuel) i s ≡ serve w fuel j t
unfolding serve
serve-Round w fuel i s j t (hung_up fd e f) = cc
serve-Round w fuel i s j t (broken fd e f r k) = cc
serve-Round w fuel i s j t (served fd e f r k) = cc
serve-Round w fuel i s j t (idle fd e f r) = cc

pub Round-cases :
    (w : World) (i : ℕ) (s : Server)
    → (get_elem? s.clients i ≡ none) ⊎ ((j : ℕ) × (t : Server) × Round w i s j t)
Round-cases w i s = elim (Option-cases (get_elem? s.clients i)) [
  | inl e ↦ inl e
  | inr (fd, e) ↦ inr (elim (Bool-cases (w.revents i).failed) [
    | inl f ↦ (i, _, hung_up fd e f)
    | inr f ↦ elim (Bool-cases (w.revents i).readable) [
      | inr r ↦ (i + 1, _, idle fd e f r)
      | inl r ↦ elim (Bool-cases (is_ok (reply_to w fd s).rc)) [
        | inl k ↦ (i + 1, _, served fd e f r k)
        | inr k ↦ (i, _, broken fd e f r k)
      ]
    ]
  ])
]

pub serve-done :
    (w : World) (fuel i : ℕ) (s : Server) → get_elem? s.clients i ≡ none → serve w fuel i s ≡ some s
unfolding serve
serve-done w zero i s e = ground arith
serve-done w (suc fuel) i s e = ground arith

serve-unfinished :
    (w : World) (i : ℕ) (s : Server) (fd : ℕ)
    → get_elem? s.clients i ≡ some fd
    → serve w zero i s ≡ none
unfolding serve
serve-unfinished w i s fd e = cc

-- What every round keeps, the loop keeps.
pub serve-keeps {ℓ} :
    (w : World) (P : Server → Type ℓ)
    → ((i : ℕ) (s : Server) (j : ℕ) (t : Server) → Round w i s j t → P s → P t)
    → (fuel i : ℕ) (s t : Server) → serve w fuel i s ≡ some t
    → P s
    → P t
serve-keeps w P keep zero i s t e p = elim (Option-cases (get_elem? s.clients i)) [
  | inl past ↦ subst P (some-injective s t (sym (serve-done w zero i s past) ∙ e)) p
  | inr (fd, there) ↦ absurd (let no = sym (serve-unfinished w i s fd there) ∙ e in cc)
]
serve-keeps w P keep (suc fuel) i s t e p = elim (Round-cases w i s) [
  | inl past ↦ subst P (some-injective s t (sym (serve-done w (suc fuel) i s past) ∙ e)) p
  | inr (j, u, round) ↦
      serve-keeps w P keep fuel j u t (sym (serve-Round w fuel i s j u round) ∙ e)
        (keep i s j u round p)
]

-- How often a descriptor is among the clients and the closed ones.
unfoldable pub total : ℕ → Server → ℕ
total q s = count q s.clients + count q s.closed

total-drop :
    (q i fd : ℕ) (s : Server)
    → get_elem? s.clients i ≡ some fd
    → total q (drop_client i fd s) ≡ total q s
unfolding total
total-drop q i fd s e = omega (
  arith,
  count-remove_client q i fd s.clients e,
  count-append q s.closed (fd ∷ []),
  count-one q fd,
)

total-Round :
    (w : World) (q i : ℕ) (s : Server) (j : ℕ) (t : Server)
    → Round w i s j t
    → total q t ≡ total q s
unfolding total
total-Round w q i s _ _ (hung_up fd e f) = total-drop q i fd s e
total-Round w q i s _ _ (broken fd e f r k) = total-drop q i fd (with_reply w fd s) e
total-Round w q i s _ _ (served fd e f r k) = refl
total-Round w q i s _ _ (idle fd e f r) = refl

-- The loop over the clients neither loses a descriptor nor closes one twice: each is as often
-- among the clients and the closed ones together as before.
pub serve-total :
    (w : World) (q fuel i : ℕ) (s t : Server) → serve w fuel i s ≡ some t → total q t ≡ total q s
serve-total w q fuel i s t ran =
    serve-keeps w (λ t. total q t ≡ total q s)
      (λ i a j b round e. total-Round w q i a j b round ∙ e) fuel i s t ran refl

get_elem?-none : (i : ℕ) (xs : List ℕ) → get_elem? xs i ≡ none → length xs ≤ i
get_elem?-none i [] e = omega arith
get_elem?-none zero (x ∷ xs) e = cc
get_elem?-none (suc i) (x ∷ xs) e = omega (arith, get_elem?-none i xs e)

-- A round takes one client away, or moves the index up by one.
Round-measure :
    (w : World) (i : ℕ) (s : Server) (j : ℕ) (t : Server)
    → Round w i s j t
    → length t.clients + i + 1 ≡ length s.clients + j
Round-measure w i s _ _ (hung_up fd e f) = omega (arith, length-remove_client i fd s.clients e)
Round-measure w i s _ _ (broken fd e f r k) = omega (arith, length-remove_client i fd s.clients e)
Round-measure w i s _ _ (served fd e f r k) = omega arith
Round-measure w i s _ _ (idle fd e f r) = omega arith

get_elem?-past : (i : ℕ) (xs : List ℕ) → length xs ≤ i → get_elem? xs i ≡ none
get_elem?-past i [] h = refl
get_elem?-past zero (x ∷ xs) h = absurd (omega arith)
get_elem?-past (suc i) (x ∷ xs) h = get_elem?-past i xs (omega arith)

-- On any fuel of at least the number of clients from the index on the loop comes to its end, always with
-- the same server.
pub serve-fuel :
    (w : World) (fuel more i : ℕ) (s : Server)
    → length s.clients ≤ fuel + i
    → length s.clients ≤ more + i
    → (t : Server) × (serve w fuel i s ≡ some t) × (serve w more i s ≡ some t)
serve-fuel w zero more i s h k =
    let past = get_elem?-past i s.clients (omega arith) in
    (s, serve-done w zero i s past, serve-done w more i s past)
serve-fuel w (suc fuel) zero i s h k =
    let past = get_elem?-past i s.clients (omega arith) in
    (s, serve-done w (suc fuel) i s past, serve-done w zero i s past)
serve-fuel w (suc fuel) (suc more) i s h k = elim (Round-cases w i s) [
  | inl past ↦ (s, serve-done w (suc fuel) i s past, serve-done w (suc more) i s past)
  | inr (j, u, round) ↦
      let less = Round-measure w i s j u round in
      let (t, ends, ends') = serve-fuel w fuel more j u (omega arith) (omega arith) in
      (t, serve-Round w fuel i s j u round ∙ ends, serve-Round w more i s j u round ∙ ends')
]

-- What a hangup at an index leaves.
hung_up_from :
    (w : World) (fuel i : ℕ) (s : Server)
    → (w.revents i).failed ≡ true
    → length s.clients ≤ fuel + i
    → (t : Server) × (serve w fuel i s ≡ some t)
      × (t.clients ≡ take i s.clients)
      × (t.manager ≡ s.manager)
hung_up_from w zero i s f h =
    let past = get_elem?-past i s.clients (omega arith) in
    (s, serve-done w zero i s past, sym (take_all i s.clients (omega arith)), refl)
hung_up_from w (suc fuel) i s f h = elim (Option-cases (get_elem? s.clients i)) [
  | inl e ↦ (
    s,
    serve-done w (suc fuel) i s e,
    sym (take_all i s.clients (get_elem?-none i s.clients e)),
    refl,
  )
  | inr (fd, e) ↦
      let less = length-remove_client i fd s.clients e in
      let (t, ends, kept, manager) = hung_up_from w fuel i (drop_client i fd s) f (omega arith) in
      (
        t,
        serve-Round w fuel i s i (drop_client i fd s) (hung_up fd e f) ∙ ends,
        kept ∙ take-remove_client i fd s.clients e,
        manager,
      )
]

-- With fuel for all clients from index `i` on, a hangup at index `i` closes the client there and every
-- client behind it, each once, and leaves the clients before it and the manager as they are: the
-- clients that move to index `i` are judged by the `revents` of the one that hung up.
pub serve-hangup :
    (w : World) (fuel i : ℕ) (s : Server)
    → (w.revents i).failed ≡ true
    → length s.clients ≤ fuel + i
    → (t : Server) × (serve w fuel i s ≡ some t)
      × (t.clients ≡ take i s.clients)
      × (t.manager ≡ s.manager)
      × ((q : ℕ) → count q t.closed ≡ count q s.closed + count q (drop i s.clients))
unfolding total
serve-hangup w fuel i s f h =
    let (t, ends, kept, manager) = hung_up_from w fuel i s f h in
    (
      t,
      ends,
      kept,
      manager,
      λ q. omega (
        arith,
        serve-total w q fuel i s t ends,
        ap (count q) kept,
        ap (count q) (take-append-drop i s.clients),
        count-append q (take i s.clients) (drop i s.clients),
      ),
    )
