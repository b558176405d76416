-- ===== src/ByteArray/Typed.antt =====
-- The typed reads and writes of yk/bytearray.cc: integers of a fixed size, varints, strings.
use yk_server.Base.{
  ℕ, zero, suc, ◌+◌, ◌-◌, ◌*◌, ◌/◌, ◌%◌, ◌^◌, List, [], ◌∷◌, if◌then◌else◌, ltb, leb, length,
  Option, none, some, bit_and, bit_or, bit_xor, reverse,
}
use mathlib.Core.Option
use yk_server.ByteArray.State.{Endian, Action, pure, undefined, ◌>>=◌, ◌>>◌}
use yk_server.ByteArray.Memory.{write, read}

-- The lowest `n` bytes of a number, lowest first, and back.
unfoldable pub le_bytes : ℕ → ℕ → List ℕ
le_bytes zero v = []
le_bytes (suc n) v = v % 256 ∷ le_bytes n (v / 256)

unfoldable pub from_le : List ℕ → ℕ
from_le [] = 0
from_le (b ∷ bs) = b + 256 * from_le bs

-- `byteswap` of yk/endian.h for a value of `n` bytes (bswap_16, bswap_32, bswap_64).
unfoldable pub byteswap : ℕ → ℕ → ℕ
unfolding le_bytes from_le
byteswap n v = from_le (reverse (le_bytes n v))

-- The bytes of an object in memory, and the object that `memcpy` makes of them.
unfoldable pub object_bytes : Endian → ℕ → ℕ → List ℕ
object_bytes Endian.little n v = le_bytes n v
object_bytes Endian.big n v = reverse (le_bytes n v)

unfoldable pub from_object : Endian → List ℕ → ℕ
from_object Endian.little bs = from_le bs
from_object Endian.big bs = from_le (reverse bs)

-- `m_endian != YK_BYTE_ORDER` guards the swap.
unfoldable pub swap_unless : Endian → Endian → ℕ → ℕ → ℕ
swap_unless Endian.little Endian.little n v = v
swap_unless Endian.big Endian.big n v = v
swap_unless Endian.little Endian.big n v = byteswap n v
swap_unless Endian.big Endian.little n v = byteswap n v

-- `writeFint16` to `writeFuint64`: a signed value is its bit pattern, so each pair of functions
-- is one function of the size.
unfoldable pub write_fixed : ℕ → ℕ → Action (Unit {0})
write_fixed n value s =
    write (object_bytes s.machine.order n (swap_unless s.endian s.machine.order n value)) s

-- The macro XX of the reads of a fixed size.
unfoldable pub read_fixed : ℕ → Action ℕ
read_fixed n = do
  bs ← read n
  λ s. pure (swap_unless s.endian s.machine.order n (from_object s.machine.order bs)) s

unfoldable pub write_fuint8 : ℕ → Action (Unit {0})
write_fuint8 value = write (value ∷ [])

abbrev first_byte : List ℕ → ℕ
first_byte [] = 0
first_byte (b ∷ bs) = b

unfoldable pub read_fuint8 : Action ℕ
read_fuint8 = do bs ← read 1; pure (first_byte bs)

unfoldable pub write_fuint16 : ℕ → Action (Unit {0})
unfolding write_fixed
write_fuint16 = write_fixed 2

unfoldable pub write_fuint32 : ℕ → Action (Unit {0})
unfolding write_fixed
write_fuint32 = write_fixed 4

unfoldable pub write_fuint64 : ℕ → Action (Unit {0})
unfolding write_fixed
write_fuint64 = write_fixed 8

unfoldable pub read_fuint16 : Action ℕ
unfolding read_fixed
read_fuint16 = read_fixed 2

unfoldable pub read_fuint32 : Action ℕ
unfolding read_fixed
read_fuint32 = read_fixed 4

unfoldable pub read_fuint64 : Action ℕ
unfolding read_fixed
read_fuint64 = read_fixed 8

-- `EncodeZigzag32` and `EncodeZigzag64`, on the bit pattern of an integer of `w` bits. A product
-- that is too large for the type wraps around.
unfoldable pub encode_zigzag : ℕ → ℕ → ℕ
encode_zigzag w v =
    if leb (2 ^ (w - 1)) v
    then ((2 ^ w - v) % 2 ^ w * 2 % 2 ^ w + 2 ^ w - 1) % 2 ^ w
    else v * 2 % 2 ^ w

-- `(v >> 1) ^ -(v & 1)`
unfoldable pub decode_zigzag : ℕ → ℕ → ℕ
decode_zigzag w v = bit_xor (v / 2) ((2 ^ w - bit_and v 1) % 2 ^ w)

-- The loop of `writeUint32` and `writeUint64` on the places left in `tmp`; none if it is too short.
unfoldable pub varint_bytes : ℕ → ℕ → Option (List ℕ)
varint_bytes zero value = none
varint_bytes (suc room) value =
    let rest = varint_bytes room (value / 2 ^ 7) in
    if leb 0x80 value
    then Option.map (λ tmp. bit_or (bit_and value 0x7f) 0x80 ∷ tmp) rest
    else some (value ∷ [])

abbrev write_tmp : Option (List ℕ) → Action (Unit {0})
write_tmp none s = (undefined, s)
write_tmp (some tmp) s = write tmp s

unfoldable pub write_uint32 : ℕ → Action (Unit {0})
unfolding varint_bytes
write_uint32 value = write_tmp (varint_bytes 5 value)

unfoldable pub write_uint64 : ℕ → Action (Unit {0})
unfolding varint_bytes
write_uint64 value = write_tmp (varint_bytes 10 value)

-- The loop of `readUint32` and `readUint64` for a result of `w` bits: `rounds` are left, and the
-- next byte goes to bit `i`.
unfoldable pub read_varint : ℕ → ℕ → ℕ → ℕ → Action ℕ
read_varint zero w i result = pure result
read_varint (suc rounds) w i result = do
  b ← read_fuint8
  if ltb b 0x80
      then pure (bit_or result (b * 2 ^ i % 2 ^ w))
      else read_varint rounds w (i + 7) (bit_or result (bit_and b 0x7f * 2 ^ i % 2 ^ w))

unfoldable pub read_uint32 : Action ℕ
unfolding read_varint
read_uint32 = read_varint 5 32 0 0

unfoldable pub read_uint64 : Action ℕ
unfolding read_varint
read_uint64 = read_varint 10 64 0 0

unfoldable pub write_int32 : ℕ → Action (Unit {0})
write_int32 value = write_uint32 (encode_zigzag 32 value)

unfoldable pub write_int64 : ℕ → Action (Unit {0})
write_int64 value = write_uint64 (encode_zigzag 64 value)

unfoldable pub read_int32 : Action ℕ
read_int32 = do v ← read_uint32; pure (decode_zigzag 32 v)

unfoldable pub read_int64 : Action ℕ
read_int64 = do v ← read_uint64; pure (decode_zigzag 64 v)

-- `writeFloat` and `writeDouble` write the bit pattern of the value.
unfoldable pub write_float : ℕ → Action (Unit {0})
write_float bits = write_fuint32 bits

unfoldable pub write_double : ℕ → Action (Unit {0})
write_double bits = write_fuint64 bits

unfoldable pub read_float : Action ℕ
read_float = read_fuint32

unfoldable pub read_double : Action ℕ
read_double = read_fuint64

-- The size is cut to the width of its field.
unfoldable pub write_string_f16 : List ℕ → Action (Unit {0})
write_string_f16 value = do write_fuint16 (length value % 2 ^ 16); write value

unfoldable pub write_string_f32 : List ℕ → Action (Unit {0})
write_string_f32 value = do write_fuint32 (length value % 2 ^ 32); write value

unfoldable pub write_string_f64 : List ℕ → Action (Unit {0})
write_string_f64 value = do write_fuint64 (length value % 2 ^ 64); write value

unfoldable pub write_string_vint : List ℕ → Action (Unit {0})
write_string_vint value = do write_uint64 (length value % 2 ^ 64); write value

unfoldable pub write_string_without_length : List ℕ → Action (Unit {0})
write_string_without_length value = write value

unfoldable pub read_string_f16 : Action (List ℕ)
read_string_f16 = do len ← read_fuint16; read len

unfoldable pub read_string_f32 : Action (List ℕ)
read_string_f32 = do len ← read_fuint32; read len

unfoldable pub read_string_f64 : Action (List ℕ)
read_string_f64 = do len ← read_fuint64; read len

unfoldable pub read_string_vint : Action (List ℕ)
read_string_vint = do len ← read_uint64; read len
