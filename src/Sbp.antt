-- ===== src/Sbp.antt =====
-- src/common/sbp.h and src/common/sbp.c: the frames of the socket protocol between the controller
-- and the shims. A buffer is the list of its bytes, and a pointer into it is what is left of the
-- list from there on; `none` is NULL.
pub mod Wire
pub mod Frame
pub mod RoundTrip
pub mod Accept
pub mod Stream
mod Tests
use Prim.Native.String.{String}
use linbox.Prelude.{
  ℕ, zero, suc, ◌+◌, ◌-◌, ◌*◌, ◌/◌, ◌%◌, ◌^◌, bit_and, bit_or, ◌≡◌, refl, Bool, true, false, not,
  ◌||◌, Option, none, some, List, [], ◌∷◌, ◌++◌, ltb, leb, ◌==◌, if◌then◌else◌, length, get_or, set,
  take, drop, replicate, overwrite,
}
use linbox.Prelude.Int.{ℤ, pos, negsuc}
use linbox.Prelude.Words.{u8, u16, u32, u64, unsigned64, unsigned32, signed64, signed32}

-- `p[i]`; the functions below check lengths before they read.
abbrev pub byte : List ℕ → ℕ → ℕ
byte p i = get_or p i 0

pub read_le16 : List ℕ → ℕ
read_le16 p = bit_or (byte p 0) (byte p 1 * 2 ^ 8)

pub read_le32 : List ℕ → ℕ
read_le32 p =
    bit_or (bit_or (bit_or (byte p 0) (byte p 1 * 2 ^ 8)) (byte p 2 * 2 ^ 16)) (byte p 3 * 2 ^ 24)

-- The loop over `i`, with the rounds left and the value so far.
pub read_le64_loop : ℕ → ℕ → ℕ → List ℕ → ℕ
read_le64_loop zero i v p = v
read_le64_loop (suc rounds) i v p =
    read_le64_loop rounds (i + 1) (bit_or v (byte p i * 2 ^ (8 * i))) p

pub read_le64 : List ℕ → ℕ
unfolding read_le64_loop
read_le64 p = read_le64_loop 8 0 0 p

-- `(uint8_t)((v >> 8 * i) & 0xFFu)`
abbrev pub byte_of : ℕ → ℕ → ℕ
byte_of v i = u8 (bit_and (v / 2 ^ (8 * i)) 0xFF)

-- The writes at `p + o`.
pub write_le16 : List ℕ → ℕ → ℕ → List ℕ
write_le16 p o v = set (set p o (byte_of v 0)) (o + 1) (byte_of v 1)

pub write_le32 : List ℕ → ℕ → ℕ → List ℕ
write_le32 p o v =
    set (set (set (set p o (byte_of v 0)) (o + 1) (byte_of v 1)) (o + 2) (byte_of v 2)) (o + 3)
      (byte_of v 3)

pub write_le64_loop : ℕ → ℕ → List ℕ → ℕ → ℕ → List ℕ
write_le64_loop zero i p o v = p
write_le64_loop (suc rounds) i p o v =
    write_le64_loop rounds (i + 1) (set p (o + i) (byte_of v i)) o v

pub write_le64 : List ℕ → ℕ → ℕ → List ℕ
unfolding write_le64_loop
write_le64 p o v = write_le64_loop 8 0 p o v

abbrev pub sbp_version : ℕ
sbp_version = 1

abbrev pub header_size : ℕ
header_size = 8

abbrev pub max_payload : ℕ
max_payload = 65535

abbrev pub max_frame_size : ℕ
max_frame_size = header_size + max_payload

-- `sbp_status_t` but for SBP_OK, which is `Result.ok`
pub data Status : Type 0 where
  invalid_arg buffer_too_small invalid_type invalid_length unsupported_version : Status

pub data Result {ℓ} (A : Type ℓ) : Type ℓ where
  ok : A → Result A
  err : Status → Result A

infixl 5 ◌>>=◌
abbrev pub ◌>>=◌ {ℓ κ} : {V : Type ℓ} {C : Type κ} → Result V → (V → Result C) → Result C
err status >>= next = err status
ok value >>= next = next value

infixl 5 ◌>>◌
abbrev pub ◌>>◌ {ℓ} : {C : Type ℓ} → Result (Unit {0}) → Result C → Result C
first >> second = first >>= λ done. second

-- A chain of two calls that succeeds: so do both.
pub both_ok {ℓ κ} :
    {V : Type ℓ} {C : Type κ} {c : C} (first : Result V) (next : V → Result C)
    → (first >>= next) ≡ ok c
    → (value : V) × (first ≡ ok value) × (next value ≡ ok c)
both_ok (err status) next both = cc
both_ok (ok value) next both = (value, refl, both)

-- `if (test) return e;`
abbrev pub fail_if : Bool → Status → Result (Unit {0})
fail_if true e = err e
fail_if false e = ok tt

abbrev pub status_code : Status → ℤ
status_code invalid_arg = negsuc 0
status_code buffer_too_small = negsuc 1
status_code invalid_type = negsuc 2
status_code invalid_length = negsuc 3
status_code unsupported_version = negsuc 4

pub status_str : ℤ → String
status_str (pos zero) = "ok"
status_str (negsuc zero) = "invalid-arg"
status_str (negsuc (suc zero)) = "buffer-too-small"
status_str (negsuc (suc (suc zero))) = "invalid-type"
status_str (negsuc (suc (suc (suc zero)))) = "invalid-length"
status_str (negsuc (suc (suc (suc (suc zero))))) = "unsupported-version"
status_str _ = "unknown"

-- `sbp_header_t`
pub record Header : Type 0 where
  pub version : ℕ  -- uint8_t
  pub kind : ℕ  -- uint8_t, the field `type`
  pub flags : ℕ  -- uint16_t
  pub payload_len : ℕ  -- uint32_t

-- `memcpy(out + 8, payload, payload_len)`
abbrev copy_payload : List ℕ → Option (List ℕ) → ℕ → List ℕ
copy_payload out none payload_len = out
copy_payload out (some payload) payload_len =
    if ltb 0 payload_len
    then take header_size out ++ overwrite (take payload_len payload) (drop header_size out)
    else out

-- The result is the buffer and `*out_len` after the call, which are written on success alone.
-- `has_out_len` says that `out_len` is not NULL.
pub encode_frame :
    ℕ → ℕ → ℕ → Option (List ℕ) → ℕ → Option (List ℕ) → ℕ → Bool → Result (List ℕ × ℕ)
unfolding write_le16 write_le32
encode_frame version kind flags payload payload_len none out_cap has_out_len = err invalid_arg
encode_frame version kind flags payload payload_len (some out) out_cap has_out_len = do
  fail_if (not has_out_len) invalid_arg
  fail_if (ltb max_payload payload_len) invalid_length
  let total = header_size + payload_len
  fail_if (ltb out_cap total) buffer_too_small
  let out1 = write_le32 (write_le16 (set (set out 0 version) 1 kind) 2 flags) 4 payload_len
  ok (copy_payload out1 payload payload_len, total)

-- The result is `*out_header` and `*out_payload`, which are written on success alone.
pub decode_frame : Option (List ℕ) → ℕ → Bool → Result (Header × List ℕ)
unfolding read_le16 read_le32
decode_frame none frame_len has_out_header = err invalid_arg
decode_frame (some frame) frame_len has_out_header = do
  fail_if (not has_out_header) invalid_arg
  fail_if (ltb frame_len header_size) invalid_length
  let h : Header = record {
    version = byte frame 0;
    kind = byte frame 1;
    flags = read_le16 (drop 2 frame);
    payload_len = read_le32 (drop 4 frame);
  }
  fail_if (ltb max_payload h.payload_len) invalid_length
  fail_if (not (frame_len == header_size + h.payload_len)) invalid_length
  ok (h, drop header_size frame)

-- The field `type` of `sbp_message_t` with the member of the union that goes with it. `other` is a
-- value that the enumeration does not name.
pub data Body : Type 0 where
  hello ack : Body
  set_time : (tv_sec tv_nsec : ℤ) → Body  -- int64_t, int32_t
  set_seed : (seed : ℕ) → Body  -- uint64_t
  register_process : (pid slot : ℕ) → Body  -- uint32_t, uint32_t
  other : (kind : ℕ) → Body

pub record Message : Type 0 where
  pub version : ℕ  -- uint8_t
  pub flags : ℕ  -- uint16_t
  pub body : Body

abbrev pub kind_of : Body → ℕ
kind_of hello = 1
kind_of ack = 2
kind_of (set_time s n) = 3
kind_of (set_seed seed) = 4
kind_of (register_process pid slot) = 5
kind_of (other kind) = kind

-- `sbp_payload_len_for_type`: the sizes of the members' fields, in bytes.
pub payload_len_for_type : ℕ → ℕ
payload_len_for_type kind =
    if kind == 1 || kind == 2
    then 0
    else if kind == 3
    then 8 + 4
    else if kind == 4
    then 8
    else if kind == 5
    then 4 + 4
    else 0

-- The `switch` of the serializer: what it leaves in `payload[16]`, and `payload_len`.
pub serialize_payload : Body → Result (List ℕ × ℕ)
unfolding payload_len_for_type write_le32 write_le64
serialize_payload hello = ok (replicate 16 0, 0)
serialize_payload ack = ok (replicate 16 0, 0)
serialize_payload (set_time s n) = ok (
  write_le32 (write_le64 (replicate 16 0) 0 (unsigned64 s)) 8 (unsigned32 n),
  payload_len_for_type 3,
)
serialize_payload (set_seed seed) = ok (write_le64 (replicate 16 0) 0 seed, payload_len_for_type 4)
serialize_payload (register_process pid slot) =
    ok (write_le32 (write_le32 (replicate 16 0) 0 pid) 4 slot, payload_len_for_type 5)
serialize_payload (other kind) = err invalid_type

pub serialize_message : Option Message → Option (List ℕ) → ℕ → Bool → Result (List ℕ × ℕ)
serialize_message none out out_cap has_out_len = err invalid_arg
serialize_message (some msg) out out_cap has_out_len = do
  (payload, payload_len) ← serialize_payload msg.body
  encode_frame msg.version (u8 (kind_of msg.body)) msg.flags
      (if payload_len == 0 then none else some payload) payload_len out out_cap has_out_len

-- The `switch` of the deserializer, on the type byte.
pub deserialize_body : ℕ → ℕ → List ℕ → Result Body
unfolding payload_len_for_type read_le32 read_le64
deserialize_body kind len payload =
    if kind == 1
    then if len == 0 then ok hello else err invalid_length
    else if kind == 2
    then if len == 0 then ok ack else err invalid_length
    else if kind == 3
    then if len == payload_len_for_type 3
      then ok (set_time (signed64 (read_le64 payload)) (signed32 (read_le32 (drop 8 payload))))
      else err invalid_length
    else if kind == 4
    then if len == payload_len_for_type 4
      then ok (set_seed (read_le64 payload))
      else err invalid_length
    else if kind == 5
    then if len == payload_len_for_type 5
      then ok (register_process (read_le32 payload) (read_le32 (drop 4 payload)))
      else err invalid_length
    else err invalid_type

-- The message of a call that succeeds. On an error the callers do not read `*out_msg`.
pub deserialize_message : Option (List ℕ) → ℕ → Bool → Result Message
deserialize_message frame frame_len has_out_msg = do
  fail_if (not has_out_msg) invalid_arg
  (h, payload) ← decode_frame frame frame_len true
  fail_if (not (h.version == sbp_version)) unsupported_version
  body ← deserialize_body h.kind h.payload_len payload
  ok (record { version = h.version; flags = h.flags; body = body })
