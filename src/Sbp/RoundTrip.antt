-- ===== src/Sbp/RoundTrip.antt =====
-- Messages: what goes over the wire, and that it is read back.
use linbox.Prelude.{
  ℕ, ◌+◌, ◌^◌, ◌≤◌, ◌<◌, ◌≡◌, refl, ap, ap₂, ◌∙◌, arith, true, none, some, List, [], ◌++◌, ◌==◌,
  if◌then◌else◌, length, drop, replicate,
}
use linbox.Prelude.Words.{
  u8, unsigned64, unsigned32, signed64, signed32, IsI64, IsI32, le_bytes, unsigned64-lt,
  unsigned32-lt, signed64-unsigned64, signed32-unsigned32,
}
use linbox.Sbp.{
  ok, err, invalid_length, Body, hello, ack, set_time, set_seed, register_process, other, Message,
  kind_of, sbp_version, encode_frame, decode_frame, serialize_payload, serialize_message,
  deserialize_body, deserialize_message,
}
use linbox.Sbp.Wire.{byte_of-four, byte_of-eight, read_le32-le_bytes, read_le64-le_bytes}
use linbox.Sbp.Frame.{header_bytes, encode_frame-writes, encode_frame-empty, decode_frame-reads}

-- The payload of each kind of message.
abbrev pub wire_payload : Body → List ℕ
wire_payload (set_time s n) = le_bytes 8 (unsigned64 s) ++ le_bytes 4 (unsigned32 n)
wire_payload (set_seed seed) = le_bytes 8 seed
wire_payload (register_process pid slot) = le_bytes 4 pid ++ le_bytes 4 slot
wire_payload _ = []

-- The values that the C types of the fields hold, for a type that the enumeration names.
abbrev pub IsBody : Body → Type 0
IsBody hello = Unit
IsBody ack = Unit
IsBody (set_time s n) = IsI64 s × IsI32 n
IsBody (set_seed seed) = seed < 2 ^ 64
IsBody (register_process pid slot) = (pid < 2 ^ 32) × (slot < 2 ^ 32)
IsBody (other kind) = ⊥

pub record IsMessage (m : Message) : Type 0 where
  pub version_fits : m.version < 256
  pub flags_fit : m.flags < 2 ^ 16
  pub body_fits : IsBody m.body

abbrev padded : Body → List ℕ
padded (set_time s n) = replicate 4 0
padded (set_seed seed) = replicate 8 0
padded (register_process pid slot) = replicate 8 0
padded _ = replicate 16 0

serialized :
    (b : Body)
    → IsBody b
    → serialize_payload b ≡ ok (wire_payload b ++ padded b, length (wire_payload b))
unfolding serialize_payload
serialized hello h = refl
serialized ack h = refl
serialized (set_time s n) h =
    ap (λ (t : List ℕ). ok (t, 12))
      (byte_of-eight (unsigned64 s) _
        ∙ ap (λ (t : List ℕ). le_bytes 8 (unsigned64 s) ++ t)
            (byte_of-four (unsigned32 n) (replicate 4 0)))
serialized (set_seed seed) h = ap (λ (t : List ℕ). ok (t, 8)) (byte_of-eight seed (replicate 8 0))
serialized (register_process pid slot) h =
    ap (λ (t : List ℕ). ok (t, 8))
      (byte_of-four pid _
        ∙ ap (λ (t : List ℕ). le_bytes 4 pid ++ t) (byte_of-four slot (replicate 8 0)))
serialized (other kind) h = absurd h

framed :
    (v f cap : ℕ) (out : List ℕ) (b : Body)
    → IsBody b
    → 8 + length (wire_payload b) ≤ cap
    → cap ≤ length out
    → let n = length (wire_payload b) in
      encode_frame v
        (u8 (kind_of b))
        f
        (if n == 0 then none else some (wire_payload b ++ padded b))
        n
        (some out)
        cap
        true
      ≡ ok (header_bytes v (kind_of b) f n ++ wire_payload b ++ drop (8 + n) out, 8 + n)
framed v f cap out hello h room fits = encode_frame-empty v 1 f cap out room fits
framed v f cap out ack h room fits = encode_frame-empty v 2 f cap out room fits
framed v f cap out (set_time s n) h room fits =
    encode_frame-writes v 3 f 12 cap (wire_payload (set_time s n) ++ replicate 4 0) out
      (omega arith) (omega arith) room fits
framed v f cap out (set_seed seed) h room fits =
    encode_frame-writes v 4 f 8 cap (wire_payload (set_seed seed) ++ replicate 8 0) out
      (omega arith) (omega arith) room fits
framed v f cap out (register_process pid slot) h room fits =
    encode_frame-writes v 5 f 8 cap (wire_payload (register_process pid slot) ++ replicate 8 0) out
      (omega arith) (omega arith) room fits
framed v f cap out (other kind) h room fits = absurd h

-- A message goes out as the header, its kind and length with it, then its payload; what the
-- buffer held behind the frame stays.
pub serialize_message-wire :
    (m : Message) (out : List ℕ) (cap : ℕ)
    → IsMessage m
    → 8 + length (wire_payload m.body) ≤ cap
    → cap ≤ length out
    → let n = length (wire_payload m.body) in
      serialize_message (some m) (some out) cap true
      ≡ ok (
        header_bytes m.version (kind_of m.body) m.flags n
            ++ wire_payload m.body
            ++ drop (8 + n) out,
        8 + n,
      )
unfolding serialize_message
serialize_message-wire m out cap h room fits =
    rw (serialized m.body h.body_fits)
      (framed m.version m.flags cap out m.body h.body_fits room fits)

reads_body :
    (b : Body) (rest : List ℕ)
    → IsBody b
    → deserialize_body (kind_of b) (length (wire_payload b)) (wire_payload b ++ rest) ≡ ok b
unfolding deserialize_body
reads_body hello rest h = refl
reads_body ack rest h = refl
reads_body (set_time s n) rest h =
    ap₂ (λ (a b : _). ok (set_time a b))
      (ap signed64
          (read_le64-le_bytes (unsigned64 s) (le_bytes 4 (unsigned32 n) ++ rest) (unsigned64-lt s))
        ∙ signed64-unsigned64 s h.0)
      (ap signed32 (read_le32-le_bytes (unsigned32 n) rest (unsigned32-lt n))
        ∙ signed32-unsigned32 n h.1)
reads_body (set_seed seed) rest h = ap (λ (t : ℕ). ok (set_seed t)) (read_le64-le_bytes seed rest h)
reads_body (register_process pid slot) rest h =
    ap₂ (λ (a b : ℕ). ok (register_process a b))
      (read_le32-le_bytes pid (le_bytes 4 slot ++ rest) h.0) (read_le32-le_bytes slot rest h.1)
reads_body (other kind) rest h = absurd h

short_payload : (b : Body) → length (wire_payload b) ≤ 65535
short_payload (set_time s n) = omega arith
short_payload (set_seed seed) = omega arith
short_payload (register_process pid slot) = omega arith
short_payload _ = omega arith

-- The frame of a message, with anything behind it, is read back as the message.
pub deserialize-wire :
    (m : Message) (rest : List ℕ)
    → IsMessage m
    → m.version ≡ sbp_version
    → let n = length (wire_payload m.body) in
      deserialize_message
        (some (header_bytes m.version (kind_of m.body) m.flags n ++ wire_payload m.body ++ rest))
        (8 + n)
        true
      ≡ ok m
unfolding deserialize_message
deserialize-wire m rest h v =
    let n = length (wire_payload m.body) in
    rw
      (
        decode_frame-reads m.version (kind_of m.body) m.flags n (wire_payload m.body ++ rest)
            h.flags_fit (short_payload m.body),
        reads_body m.body rest h.body_fits,
      )
      (rw v refl)

-- Every message of the protocol's version whose fields are in range is written by the serializer
-- into a buffer with room for it, and the frame that it reports is read back as the same message.
pub deserialize-serialize :
    (m : Message) (out : List ℕ) (cap : ℕ)
    → IsMessage m
    → m.version ≡ sbp_version
    → 8 + length (wire_payload m.body) ≤ cap
    → cap ≤ length out
    → (buf : List ℕ) × (n : ℕ) × (serialize_message (some m) (some out) cap true ≡ ok (buf, n))
      × (deserialize_message (some buf) n true ≡ ok m)
deserialize-serialize m out cap h v room fits =
    let n = length (wire_payload m.body) in
    (
      header_bytes m.version (kind_of m.body) m.flags n ++ wire_payload m.body ++ drop (8 + n) out,
      8 + n,
      serialize_message-wire m out cap h room fits,
      deserialize-wire m (drop (8 + n) out) h v,
    )

-- An empty frame is no message.
pub deserialize_message-nil : deserialize_message (some []) 0 true ≡ err invalid_length
unfolding deserialize_message decode_frame
deserialize_message-nil = refl
