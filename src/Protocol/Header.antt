-- ===== src/Protocol/Header.antt =====
-- The header checks of `RockMessageDecoder::parseFrom` in rock/rock_protocol.cc.
use yk_server.Base.{
  ℕ, ◌^◌, ◌<◌, ◌≡◌, sym, ap, ◌∙◌, List, ◌∷◌, arith, if◌then◌else◌, ltb, some, none,
}
use yk_server.ByteArray.State.{Endian}
use yk_server.ByteArray.Typed.{object_bytes, from_object, swap_unless}
use yk_server.ByteArray.Fixed.{object_bytes-swap_unless, from_object-wire}
use yk_server.Protocol.{header_bytes, parse_header}

-- The length field of a header that `serializeTo` made is read back.
length_field :
    (order : Endian) (n : ℕ)
    → n < 2 ^ 32
    → swap_unless Endian.big order 4
        (from_object order (object_bytes order 4 (swap_unless Endian.big order 4 n)))
      ≡ n
length_field order n h =
    ap (λ b. swap_unless Endian.big order 4 (from_object order b))
      (object_bytes-swap_unless Endian.big order 4 n)
    ∙ from_object-wire Endian.big order 4 n (omega arith)

-- The header that `serializeTo` makes for a body of `n < 2 ^ 32` bytes passes the checks of a decoder
-- on a machine of the same byte order exactly if `n` is below the largest length, and the decoder
-- then expects `n` bytes.
pub parse_header-header_bytes :
    (order : Endian) (max_length n : ℕ)
    → n < 2 ^ 32
    → parse_header order max_length (header_bytes order n)
      ≡ (if ltb n max_length then some n else none)
unfolding parse_header header_bytes
parse_header-header_bytes order max_length n h = rw (length_field order n h) (ground arith)

-- Two machines of any byte orders agree on the header: its bytes do not depend on the order.
pub header_bytes_portable : (a b : Endian) (n : ℕ) → header_bytes a n ≡ header_bytes b n
unfolding header_bytes
header_bytes_portable a b n =
    ap (λ t. 0xab ∷ 0xcd ∷ 1 ∷ 0 ∷ t)
      (object_bytes-swap_unless Endian.big a 4 n ∙ sym (object_bytes-swap_unless Endian.big b 4 n))

-- What passes the checks begins with the magic bytes and version 1, and is shorter than the largest
-- length.
pub parse_header-accepts :
    (order : Endian) (max_length : ℕ) (magic0 magic1 version flag : ℕ) (rest : List ℕ) (n : ℕ)
    → parse_header order max_length (magic0 ∷ magic1 ∷ version ∷ flag ∷ rest) ≡ some n
    → (magic0 ≡ 0xab) × (magic1 ≡ 0xcd) × (version ≡ 1) × (n < max_length)
unfolding parse_header
parse_header-accepts order max_length magic0 magic1 version flag rest n e = ground arith
