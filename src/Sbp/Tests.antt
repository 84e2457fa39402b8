-- ===== src/Sbp/Tests.antt =====
-- Frames of src/common/sbp.c, and the theorems about it at concrete inputs.
use linbox.Prelude.{
  ℕ, ◌+◌, ◌≡◌, refl, arith, true, some, List, [], ◌∷◌, ◌++◌, length, take, replicate, All,
}
use linbox.Prelude.Int.{pos, negsuc}
use linbox.Sbp.{
  Message, ok, set_time, register_process, sbp_version, decode_frame, serialize_message,
  deserialize_message, deserialize_body,
}
use linbox.Sbp.Frame.{header_bytes}
use linbox.Sbp.RoundTrip.{IsMessage, wire_payload, deserialize-serialize}
use linbox.Sbp.Accept.{IsByte, deserialize_message-canonical}

abbrev noon : Message
noon = record { version = sbp_version; flags = 513; body = set_time (negsuc 4) (pos 7) }

abbrev buffer : List ℕ
buffer = replicate 24 170

noon-IsMessage : IsMessage noon
noon-IsMessage = record {
  version_fits = omega arith;
  flags_fit = omega arith;
  body_fits = (omega arith, omega arith);
}

deserialize-serialize_example :
    (buf : List ℕ) × (n : ℕ) × (serialize_message (some noon) (some buffer) 24 true ≡ ok (buf, n))
    × (deserialize_message (some buf) n true ≡ ok noon)
deserialize-serialize_example =
    deserialize-serialize noon buffer 24 noon-IsMessage refl (omega arith) (omega arith)

-- A request to register process 258, and a byte behind it.
abbrev request_bytes : List ℕ
request_bytes = 1 ∷ 5 ∷ 0 ∷ 0 ∷ 8 ∷ 0 ∷ 0 ∷ 0 ∷ 2 ∷ 1 ∷ 0 ∷ 0 ∷ 3 ∷ 0 ∷ 0 ∷ 0 ∷ 255 ∷ []

abbrev request : Message
request = record { version = 1; flags = 0; body = register_process 258 3 }

request_read : deserialize_message (some request_bytes) 16 true ≡ ok request
unfolding deserialize_message decode_frame deserialize_body
request_read = refl

request_bytes-All : All IsByte request_bytes
request_bytes-All = ground arith

deserialize_message-canonical_example :
    IsMessage request
    × (request.version ≡ 1)
    × (◌≡◌ {A = ℕ} 16 (8 + length (wire_payload request.body)))
    × (take 16 request_bytes ≡ header_bytes 1 5 0 8 ++ wire_payload request.body)
deserialize_message-canonical_example =
    deserialize_message-canonical request_bytes 16 request request_bytes-All (omega arith)
      request_read
