-- ===== src/Protocol/Runs.antt =====
-- Runs of the messages of rock/rock_protocol.cc.
use yk_server.Base.{length, List, ℕ, ◌≡◌, refl, [], ◌∷◌, some, arith}
use yk_server.ByteArray.State.{Machine, Endian, ByteArray, ok}
use yk_server.ByteArray.Typed.{swap_unless, from_object, from_le}
use yk_server.Base.Ints.{pos}
use yk_server.Protocol.{Message, response, to_byte_array, parse_body, parse_header}
use yk_server.Protocol.RoundTrip.{
  head_bytes, text_bytes, message_bytes, FitsWire, Serialized, to_byte_array-Serialized,
  parse_body-to_byte_array,
}
use yk_server.Protocol.Decoder.{serialize_to, parse_from, parse_from-serialize_to}
use yk_server.ByteArray.Varint.{groups}

abbrev machine : Machine
machine = record { order = Endian.little; fresh = 0 }

abbrev answer : Message
answer = response 7 300 200 (111 ∷ 107 ∷ []) (123 ∷ 125 ∷ [])

answer-FitsWire : FitsWire answer
answer-FitsWire = omega arith

answer_made : Serialized answer (to_byte_array machine answer)
answer_made = to_byte_array-Serialized machine answer answer-FitsWire

parse_body-to_byte_array_example :
    (s : ByteArray) × (to_byte_array machine answer ≡ ok (some s))
    × ((parse_body s).0 ≡ ok (some answer))
parse_body-to_byte_array_example = parse_body-to_byte_array machine answer answer-FitsWire

abbrev magic0 : ℕ
magic0 = 0xab

abbrev magic1 : ℕ
magic1 = 0xcd

abbrev version : ℕ
version = 1

header_accepted : parse_header Endian.big 4096 (0xab ∷ 0xcd ∷ 1 ∷ 0 ∷ 0 ∷ 0 ∷ 0 ∷ 10 ∷ []) ≡ some 10
unfolding parse_header swap_unless from_object from_le
header_accepted = refl

answer_long : length (message_bytes answer) ≡ 12
unfolding message_bytes head_bytes text_bytes groups
answer_long = refl

parse_from-serialize_to_example :
    (sent : List ℕ) × (serialize_to machine answer ≡ ok (pos (length sent), sent))
    × (parse_from machine 4096 sent ≡ ok (some answer))
parse_from-serialize_to_example =
    parse_from-serialize_to machine answer 4096 answer-FitsWire (omega (arith, answer_long))
      (omega (arith, answer_long))
