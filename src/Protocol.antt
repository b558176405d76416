-- ===== src/Protocol.antt =====
-- The messages of yk/protocol.h, yk/protocol.cc and rock/rock_protocol.h, rock/rock_protocol.cc:
-- their serialization to a ByteArray, and the checks and the parsing of the decoder.
mod Runs
pub mod Header
pub mod Decoder
pub mod RoundTrip
use yk_server.Base.{
  ℕ, ◌+◌, ◌*◌, ◌^◌, ◌%◌, Bool, true, false, not, ◌&&◌, ◌||◌, List, [], ◌∷◌, if◌then◌else◌, ltb, leb,
  ◌==◌, Option, none, some, drop, take,
}
use yk_server.ByteArray.State.{
  Machine, ByteArray, Endian, Outcome, Action, ok, out_of_range, undefined, stuck, after, pure,
  ◌>>=◌, ◌>>◌,
}
use yk_server.ByteArray.Memory.{byte_array, set_position}
use yk_server.ByteArray.Typed.{
  write_fuint8, read_fuint8, write_uint32, read_uint32, write_string_vint, read_string_vint,
  byteswap, from_object, swap_unless, object_bytes,
}

-- `RockRequest`, `RockResponse` and `RockNotify`, each with the fields of `Request`, `Response` or
-- `Notify` and the body of `RockBody`.
pub data Message : Type 0 where
  request : ℕ → ℕ → List ℕ → Message
  response : ℕ → ℕ → ℕ → List ℕ → List ℕ → Message
  notify : ℕ → List ℕ → Message

-- `Message::MessageType` and `getType`
unfoldable pub get_type : Message → ℕ
get_type (request sn cmd body) = 1
get_type (response sn cmd result result_str body) = 2
get_type (notify code body) = 3

-- `Request::serializeToByteArray`, `Response::…`, `Notify::…`
unfoldable pub serialize_head : Message → Action (Unit {0})
unfolding get_type
serialize_head (request sn cmd body) = write_fuint8 1 >> (write_uint32 sn >> write_uint32 cmd)
serialize_head (response sn cmd result result_str body) =
    write_fuint8 2
    >> (write_uint32 sn
        >> (write_uint32 cmd >> (write_uint32 result >> write_string_vint result_str)))
serialize_head (notify code body) = write_fuint8 3 >> write_uint32 code

abbrev pub body_of : Message → List ℕ
body_of (request sn cmd body) = body
body_of (response sn cmd result result_str body) = body
body_of (notify code body) = body

-- `try { … } catch(...) { return false; }`
abbrev pub caught : {A : Type 0} → Outcome A × ByteArray → A → Outcome A × ByteArray
caught (ok a, s) b = (ok a, s)
caught (out_of_range, s) b = (ok b, s)
caught (undefined, s) b = (undefined, s)
caught (stuck, s) b = (stuck, s)

-- `serializeToByteArray` of the Rock messages: the fields, then `RockBody`.
unfoldable pub serialize_to_byte_array : Message → Action Bool
unfolding serialize_head
serialize_to_byte_array msg s =
    caught (((serialize_head msg >> write_string_vint (body_of msg)) >> pure true) s) false

-- `Message::toByteArray`, with the default node size of 4096 bytes.
unfoldable pub to_byte_array : Machine → Message → Outcome (Option ByteArray)
unfolding serialize_to_byte_array
to_byte_array m msg =
    let (r, s) = serialize_to_byte_array msg (byte_array m 4096) in
    elim r [
      | ok done ↦ ok (if done then some s else none)
      | out_of_range ↦ out_of_range
      | undefined ↦ undefined
      | stuck ↦ stuck
    ]

abbrev pub parsed : {A : Type 0} → Action A → Action (Option A)
parsed m s = caught (after (m s) (λ a. pure (some a))) none

-- `parseFromByteArray` of the Rock messages.
unfoldable pub parse_request : Action Message
parse_request = do
  sn ← read_uint32
  cmd ← read_uint32
  body ← read_string_vint
  pure (request sn cmd body)

unfoldable pub parse_response : Action Message
parse_response = do
  sn ← read_uint32
  cmd ← read_uint32
  result ← read_uint32
  result_str ← read_string_vint
  body ← read_string_vint
  pure (response sn cmd result result_str body)

unfoldable pub parse_notify : Action Message
parse_notify = do code ← read_uint32; body ← read_string_vint; pure (notify code body)

-- The switch of `RockMessageDecoder::parseFrom` on the type; a null message is `none`.
unfoldable pub parse_typed : ℕ → Action (Option Message)
unfolding parse_request parse_response parse_notify
parse_typed type =
    if type == 1
    then parsed parse_request
    else if type == 2
    then parsed parse_response
    else if type == 3
    then parsed parse_notify
    else pure none

-- `RockMessageDecoder::parseFrom` behind the read of the body; an exception is a null message.
unfoldable pub parse_body : Action (Option Message)
unfolding parse_typed
parse_body s = caught ((set_position 0 >> (read_fuint8 >>= parse_typed)) s) none

-- `RockMsgHeader` as it is laid out in memory: magic, version, flag, length.
unfoldable pub header_bytes : Endian → ℕ → List ℕ
header_bytes order length =
    0xab ∷ 0xcd ∷ 1 ∷ 0 ∷ object_bytes order 4 (swap_unless Endian.big order 4 length)

abbrev byte_at : ℕ → List ℕ → ℕ
byte_at i bs = elim (drop i bs) [ [] ↦ 0 | b ∷ _ ↦ b ]

-- The checks of `parseFrom` on the 8 bytes of a header, and the length that they leave. The length
-- is compared as a uint32.
unfoldable pub parse_header : Endian → ℕ → List ℕ → Option ℕ
parse_header order max_length bs =
    let length = swap_unless Endian.big order 4 (from_object order (drop 4 bs)) in
    if not (byte_at 0 bs == 0xab && byte_at 1 bs == 0xcd)
    then none
    else if not (byte_at 2 bs == 1)
    then none
    else if leb max_length length
    then none
    else some length
