-- ===== src/Sbp/Accept.antt =====
-- What the deserializer accepts: just the frames that the serializer writes.
use linbox.Prelude.{
  ℕ, ◌+◌, ◌^◌, ◌≤◌, ◌<◌, ◌≡◌, refl, sym, ap, ap₂, ◌∙◌, arith, Bool, true, false, not, some, List,
  [], ◌∷◌, ◌++◌, ◌==◌, if◌then◌else◌, length, take, drop, length-drop, All-drop, take-add, All,
  Bool-cases, inl, inr,
}
use linbox.Prelude.Words.{
  signed64, signed32, le_bytes, unsigned64-signed64, unsigned32-signed32, signed64-IsI64,
  signed32-IsI32,
}
use linbox.Sbp.{
  byte, both_ok, fail_if, unsupported_version, invalid_length, ok, err, Header, Body, hello, ack,
  set_time, set_seed, register_process, Message, kind_of, read_le16, read_le32, read_le64,
  payload_len_for_type, decode_frame, deserialize_body, deserialize_message,
}
use linbox.Sbp.Wire.{read_le16-value, read_le32-value, read_le64-value}
use linbox.Sbp.Frame.{header_bytes}
use linbox.Sbp.RoundTrip.{wire_payload, IsBody, IsMessage}

abbrev pub IsByte : ℕ → Type 0
IsByte b = b < 256

-- The first bytes of a buffer are those of the number that the read gives, and it fits its type.
abbrev Holds : ℕ → ℕ → List ℕ → Type 0
Holds width value p = (le_bytes width value ≡ take width p) × (value < 256 ^ width)

holds16 : (p : List ℕ) → 2 ≤ length p → All IsByte p → Holds 2 (read_le16 p) p
holds16 (b0 ∷ b1 ∷ r) h (h0, (h1, t)) =
    rw (read_le16-value b0 b1 r h0 h1)
      (ap₂ (λ (x y : ℕ). x ∷ y ∷ []) (omega arith) (omega arith), omega arith)
holds16 _ h t = absurd (omega arith)

holds32 : (p : List ℕ) → 4 ≤ length p → All IsByte p → Holds 4 (read_le32 p) p
holds32 (b0 ∷ b1 ∷ b2 ∷ b3 ∷ r) h (h0, (h1, (h2, (h3, t)))) =
    rw (read_le32-value b0 b1 b2 b3 r h0 h1 h2 h3) (ground arith, omega arith)
holds32 _ h t = absurd (omega arith)

holds64 : (p : List ℕ) → 8 ≤ length p → All IsByte p → Holds 8 (read_le64 p) p
holds64 (b0 ∷ b1 ∷ b2 ∷ b3 ∷ b4 ∷ b5 ∷ b6 ∷ b7 ∷ r) h
      (h0, (h1, (h2, (h3, (h4, (h5, (h6, (h7, t)))))))) =
    rw (read_le64-value b0 b1 b2 b3 b4 b5 b6 b7 r h0 h1 h2 h3 h4 h5 h6 h7)
      (ground arith, omega arith)
holds64 _ h t = absurd (omega arith)

record Accepted (kind len : ℕ) (payload : List ℕ) (b : Body) : Type 0 where
  kind_eq : kind ≡ kind_of b
  len_eq : len ≡ length (wire_payload b)
  fits : IsBody b
  same : wire_payload b ≡ take len payload

module _ (p : List ℕ) (bytes : All IsByte p) where
  read_time_body :
      12 ≤ length p
      → Accepted 3 12 p (set_time (signed64 (read_le64 p)) (signed32 (read_le32 (drop 8 p))))
  read_time_body h =
      let (s, s_fits) = holds64 p (omega arith) bytes in
      let (n, n_fits) =
        holds32 (drop 8 p) (omega (arith, length-drop 8 p)) (All-drop IsByte 8 p bytes) in
      record {
        kind_eq = refl;
        len_eq = refl;
        fits = (signed64-IsI64 (read_le64 p) s_fits, signed32-IsI32 (read_le32 (drop 8 p)) n_fits);
        same =
            ap₂ (λ (x y : ℕ). le_bytes 8 x ++ le_bytes 4 y)
              (unsigned64-signed64 (read_le64 p) s_fits)
              (unsigned32-signed32 (read_le32 (drop 8 p)) n_fits)
            ∙ ap₂ ◌++◌ s n
            ∙ sym (take-add 8 4 p);
      }

  read_seed_body : 8 ≤ length p → Accepted 4 8 p (set_seed (read_le64 p))
  read_seed_body h =
      let (s, s_fits) = holds64 p h bytes in
      record { kind_eq = refl; len_eq = refl; fits = s_fits; same = s }

  read_process_body :
      8 ≤ length p → Accepted 5 8 p (register_process (read_le32 p) (read_le32 (drop 4 p)))
  read_process_body h =
      let (a, a_fits) = holds32 p (omega arith) bytes in
      let (b, b_fits) =
        holds32 (drop 4 p) (omega (arith, length-drop 4 p)) (All-drop IsByte 4 p bytes) in
      record {
        kind_eq = refl;
        len_eq = refl;
        fits = (a_fits, b_fits);
        same = ap₂ ◌++◌ a b ∙ sym (take-add 4 4 p);
      }

  guarded_eq :
      (b b' : Body) (test : Bool)
      → (if test then ok b else err invalid_length) ≡ ok b'
      → (test ≡ true) × (b ≡ b')
  guarded_eq b b' true h = (refl, cc)
  guarded_eq b b' false h = cc

  -- A case of the `switch` behind its test of the length.
  settle :
      (kind len k n : ℕ) (b b' : Body)
      → len ≤ length p
      → (n ≤ length p → Accepted k n p b)
      → (kind == k) ≡ true
      → (if len == n then ok b else err invalid_length) ≡ ok b'
      → Accepted kind len p b'
  settle kind len k n b b' h reads is_k e =
      let (is_n, same) = guarded_eq b b' (len == n) e in
      let e1 : kind ≡ k = ground arith in
      let e2 : len ≡ n = ground arith in rw (e1, e2, ← same) (reads (omega arith))

  body_read :
      (kind len : ℕ) (b : Body)
      → len ≤ length p
      → deserialize_body kind len p ≡ ok b
      → Accepted kind len p b
  unfolding deserialize_body payload_len_for_type
  body_read kind len b h e = elim (Bool-cases (kind == 1)) [
    | inl k ↦
        settle kind len 1 0 hello b h
          (λ _. record { kind_eq = refl; len_eq = refl; fits = tt; same = refl }) k (rw k at e)
    | inr n1 ↦ elim (Bool-cases (kind == 2)) [
      | inl k ↦
          settle kind len 2 0 ack b h
            (λ _. record { kind_eq = refl; len_eq = refl; fits = tt; same = refl }) k
            (rw (n1, k) at e)
      | inr n2 ↦ elim (Bool-cases (kind == 3)) [
        | inl k ↦ settle kind len 3 12 _ b h read_time_body k (rw (n1, n2, k) at e)
        | inr n3 ↦ elim (Bool-cases (kind == 4)) [
          | inl k ↦ settle kind len 4 8 _ b h read_seed_body k (rw (n1, n2, n3, k) at e)
          | inr n4 ↦ elim (Bool-cases (kind == 5)) [
            | inl k ↦ settle kind len 5 8 _ b h read_process_body k (rw (n1, n2, n3, n4, k) at e)
            | inr n5 ↦ let bad = rw (n1, n2, n3, n4, n5) at e in cc bad
          ]
        ]
      ]
    ]
  ]

-- What a successful `sbp_decode_frame` has tested and read.
record Decoded (frame : List ℕ) (n : ℕ) (h : Header) (payload : List ℕ) : Type 0 where
  whole : 8 ≤ n
  size : n ≡ 8 + h.payload_len
  small : h.payload_len ≤ 65535
  version_eq : h.version ≡ byte frame 0
  kind_eq : h.kind ≡ byte frame 1
  flags_eq : h.flags ≡ read_le16 (drop 2 frame)
  len_eq : h.payload_len ≡ read_le32 (drop 4 frame)
  behind : payload ≡ drop 8 frame

decode_frame-Decoded :
    (frame payload : List ℕ) (n : ℕ) (h : Header)
    → decode_frame (some frame) n true ≡ ok (h, payload)
    → Decoded frame n h payload
unfolding decode_frame
decode_frame-Decoded frame payload n h e = ground arith

first_eight :
    (frame : List ℕ)
    → 8 ≤ length frame
    → byte frame 0 ∷ byte frame 1 ∷ take 2 (drop 2 frame) ++ take 4 (drop 4 frame) ≡ take 8 frame
first_eight (f0 ∷ f1 ∷ rest) h = ap (λ (t : List ℕ). f0 ∷ f1 ∷ t) (sym (take-add 2 4 rest))
first_eight _ h = absurd (omega arith)

version_small : (frame : List ℕ) → All IsByte frame → 8 ≤ length frame → byte frame 0 < 256
version_small [] bytes h = absurd (omega arith)
version_small (f0 ∷ rest) bytes h = bytes.0

module _ (frame : List ℕ) (bytes : All IsByte frame) where
  header_accepted :
      (payload : List ℕ) (n : ℕ) (h : Header)
      → n ≤ length frame
      → Decoded frame n h payload
      → (header_bytes h.version h.kind h.flags h.payload_len ≡ take 8 frame)
        × (h.version < 256)
        × (h.flags < 2 ^ 16)
  header_accepted payload n h room d =
      let long : 8 ≤ length frame = omega (arith, d.whole) in
      let (f, f_fits) =
        holds16 (drop 2 frame) (omega (arith, length-drop 2 frame))
          (All-drop IsByte 2 frame bytes) in
      let (l, l_fits) =
        holds32 (drop 4 frame) (omega (arith, length-drop 4 frame))
          (All-drop IsByte 4 frame bytes) in
      (
        rw (d.version_eq, d.kind_eq, d.flags_eq, d.len_eq)
            (ap₂ (λ (x y : List ℕ). byte frame 0 ∷ byte frame 1 ∷ x ++ y) f l
              ∙ first_eight frame long),
        rw d.version_eq (version_small frame bytes long),
        rw d.flags_eq f_fits,
      )

  -- What acceptance means, field by field.
  abbrev IsCanonical : ℕ → Message → Type 0
  IsCanonical n m =
      let len = length (wire_payload m.body) in
      IsMessage m
      × (m.version ≡ 1)
      × (n ≡ 8 + len)
      × (take n frame ≡ header_bytes m.version (kind_of m.body) m.flags len ++ wire_payload m.body)

  assemble :
      (payload : List ℕ) (n : ℕ) (h : Header) (b : Body)
      → n ≤ length frame
      → h.version ≡ 1
      → Decoded frame n h payload
      → Accepted h.kind h.payload_len payload b
      → IsCanonical n (record { version = h.version; flags = h.flags; body = b })
  assemble payload n h b room v d a =
      let (same, version_fits, flags_fit) = header_accepted payload n h room d in
      (
        record { version_fits = version_fits; flags_fit = flags_fit; body_fits = a.fits },
        v,
        omega (arith, d.size, a.len_eq),
        rw (d.size, take-add 8 h.payload_len frame, ← same)
            (ap₂
                (λ (x y : ℕ).
                  header_bytes h.version x h.flags y ++ take h.payload_len (drop 8 frame))
                a.kind_eq a.len_eq
              ∙ ap
                  (λ (t : List ℕ).
                    header_bytes h.version (kind_of b) h.flags (length (wire_payload b)) ++ t)
                  (ap (take h.payload_len) (sym d.behind) ∙ sym a.same)),
      )

  accepted :
      (n : ℕ) (m : Message)
      → n ≤ length frame
      → deserialize_message (some frame) n true ≡ ok m
      → IsCanonical n m
  unfolding deserialize_message
  accepted n m room e =
      let (hp, decoded, e1) = both_ok (decode_frame (some frame) n true) _ e in
      let (u, tested, e2) = both_ok (fail_if (not (hp.0.version == 1)) unsupported_version) _ e1 in
      let (b, is_body, e3) = both_ok (deserialize_body hp.0.kind hp.0.payload_len hp.1) _ e2 in
      let d = decode_frame-Decoded frame hp.1 n hp.0 decoded in
      let fits : hp.0.payload_len ≤ length hp.1 =
        rw d.behind (omega (arith, d.size, length-drop 8 frame)) in
      let bytes' : All IsByte hp.1 = rw d.behind (All-drop IsByte 8 frame bytes) in
      let a = body_read hp.1 bytes' hp.0.kind hp.0.payload_len b fits is_body in
      let same : record { version = hp.0.version; flags = hp.0.flags; body = b } ≡ m = cc e3 in
      rw (← same) (assemble hp.1 n hp.0 b room (ground (arith, tested)) d a)

-- Of a buffer of bytes the deserializer accepts just what the serializer writes: a message in
-- range and of version 1, and the frame is its header and payload byte for byte.
pub deserialize_message-canonical :
    (frame : List ℕ) (n : ℕ) (m : Message)
    → All IsByte frame
    → n ≤ length frame
    → deserialize_message (some frame) n true ≡ ok m
    → IsMessage m
      × (m.version ≡ 1)
      × (n ≡ 8 + length (wire_payload m.body))
      × (take n frame
          ≡ header_bytes m.version (kind_of m.body) m.flags (length (wire_payload m.body))
            ++ wire_payload m.body)
deserialize_message-canonical frame n m bytes room e = accepted frame bytes n m room e
