-- ===== src/Protocol/Decoder.antt =====
-- `RockMessageDecoder::serializeTo` and `parseFrom` of rock/rock_protocol.cc end to end, over a
-- stream that carries all bytes: what one end sends, the other end receives.
use yk_server.Base.{
  ℕ, ◌%◌, ◌^◌, ◌<◌, ◌≡◌, refl, sym, ap, ◌∙◌, List, ◌++◌, Option, none, some, if◌then◌else◌, Bool,
  true, not, ◌+◌, length, take, drop, take-append, drop-append, take_all, arith, length-append,
  lt→ltb,
}
use yk_server.Base.Ints.{
  ℤ, pos, negsuc, to_int, size_of_int, is_positive, is_positive-to_int, to_int-small,
  size_of_int-small,
}
use yk_server.Stream.{fix_result}
use yk_server.Stream.Transfers.{fix_result-positive}
use yk_server.ByteArray.State.{Machine, Endian, Outcome, ok, out_of_range, undefined, stuck}
use yk_server.ByteArray.Memory.{byte_array, write}
use yk_server.ByteArray.Contents.{contents}
use yk_server.ByteArray.Sequence.{length-contents}
use yk_server.ByteArray.Append.{Appended, write-Appended}
use yk_server.ByteArray.Files.{byte_array-IsValid, byte_array-empty}
use yk_server.ByteArray.Fixed.{length-wire, object_bytes-swap_unless}
use yk_server.ByteArray.Typed.{object_bytes, swap_unless}
use native.Mathlib.Nat.{mod-eq_of_lt}
use yk_server.Protocol.{Message, to_byte_array, parse_body, header_bytes, parse_header}
use yk_server.Protocol.Header.{parse_header-header_bytes}
use yk_server.Protocol.RoundTrip.{
  first_byte_of, FitsWire, message_bytes, to_byte_array-Serialized, parse_body-message_bytes,
}

-- What `serializeTo` returns and sends where no write fails by itself. The result of the second
-- `writeFixSize` is the size as an `int`.
unfoldable pub serialize_to : Machine → Message → Outcome (ℤ × List ℕ)
unfolding to_byte_array header_bytes
serialize_to m msg = elim (to_byte_array m msg) [
  | ok made ↦ elim made [
    | some s ↦ ok (
      if is_positive (to_int s.size) then to_int (8 + s.size) else negsuc 3,
      header_bytes m.order (s.size % 2 ^ 32) ++ contents s,
    )
    | none ↦ undefined
  ]
  | out_of_range ↦ out_of_range
  | undefined ↦ undefined
  | stuck ↦ stuck
]

-- `parseFrom` where `incoming` comes and then the stream is closed. The length of the header is an `int`
-- that becomes a `size_t`, and `readFixSize` returns an `int` again. The stream appends the body to
-- a new array.
unfoldable pub parse_from : Machine → ℕ → List ℕ → Outcome (Option Message)
unfolding parse_header parse_body
parse_from m max_length incoming =
    if not (is_positive (fix_result 8 (length incoming)))
    then ok none
    else elim (parse_header m.order max_length (take 8 incoming)) [
      | none ↦ ok none
      | some n ↦
          let wanted = size_of_int n in
          if not (is_positive (fix_result wanted (length (drop 8 incoming))))
          then ok none
          else (parse_body (write (take wanted (drop 8 incoming)) (byte_array m 4096)).1).0
    ]

header_length : (order : Endian) (n : ℕ) → length (header_bytes order n) ≡ 8
unfolding header_bytes
header_length order n =
    let four : length (object_bytes order 4 (swap_unless Endian.big order 4 n)) ≡ 4 =
      ap length (object_bytes-swap_unless Endian.big order 4 n) ∙ length-wire Endian.big 4 n in
    omega (arith, four)

received :
    (m : Machine) (body : List ℕ)
    → Appended (byte_array m 4096) body (write body (byte_array m 4096))
received m body =
    write-Appended (byte_array m 4096) body (byte_array-IsValid m 4096 (omega arith))
      (byte_array-empty m 4096).0

parse_from-body :
    (m : Machine) (max_length n : ℕ) (head body : List ℕ)
    → length head ≡ 8
    → parse_header m.order max_length head ≡ some n
    → 0 < n
    → n < 2 ^ 31
    → length body ≡ n
    → parse_from m max_length (head ++ body) ≡ (parse_body (write body (byte_array m 4096)).1).0
unfolding parse_from
parse_from-body m max_length n head body eight accepted some_byte small long =
    let first : take 8 (head ++ body) ≡ head =
      ap (λ (k : ℕ). take k (head ++ body)) (sym eight) ∙ take-append head body in
    let rest : drop 8 (head ++ body) ≡ body =
      ap (λ (k : ℕ). drop k (head ++ body)) (sym eight) ∙ drop-append head body in
    let all : take n body ≡ body = take_all n body (omega arith) in
    let enough : is_positive (fix_result 8 (length (head ++ body))) ≡ true =
      fix_result-positive 8 (length (head ++ body)) (omega arith) (omega arith)
        (omega (arith, length-append head body)) in
    let same : size_of_int n ≡ n = size_of_int-small n small in
    let whole : is_positive (fix_result n (length body)) ≡ true =
      fix_result-positive n (length body) some_byte small (omega arith) in
    rw (enough, first, accepted, rest, same, whole, all) refl

-- A message whose fields fit 32 bits, whose body is not empty, and whose bytes are fewer than
-- 2 ^ 31 - 8 and than the decoder's largest length, is sent by `serializeTo`, which returns the number
-- of bytes that it sent, and `parseFrom` makes that message of what was sent.
pub parse_from-serialize_to :
    (m : Machine) (msg : Message) (max_length : ℕ)
    → FitsWire msg
    → length (message_bytes msg) + 8 < 2 ^ 31
    → length (message_bytes msg) < max_length
    → (sent : List ℕ) × (serialize_to m msg ≡ ok (pos (length sent), sent))
      × (parse_from m max_length sent ≡ ok (some msg))
unfolding serialize_to
parse_from-serialize_to m msg max_length h small below =
    let t = to_byte_array-Serialized m msg h in
    let n : ℕ = length (message_bytes msg) in
    let size : t.array.size ≡ n = sym (length-contents t.array t.valid) ∙ ap length t.bytes in
    let same : t.array.size % 2 ^ 32 ≡ n = mod-eq_of_lt (omega arith) ∙ size in
    let returned_ : is_positive (to_int t.array.size) ≡ true =
      rw size (is_positive-to_int n (some_bytes msg) (omega arith)) in
    let counted : to_int (8 + t.array.size)
        ≡ pos (length (header_bytes m.order n ++ message_bytes msg)) =
      to_int-small (8 + t.array.size) (omega arith)
      ∙ ap pos (
          omega (
            arith,
            header_length m.order n,
            length-append (header_bytes m.order n) (message_bytes msg),
          )) in
    let w = received m (message_bytes msg) in
    let accepted : parse_header m.order max_length (header_bytes m.order n) ≡ some n =
      parse_header-header_bytes m.order max_length n (omega arith)
      ∙ ap (λ (b : Bool). if b then some n else none) (lt→ltb n max_length below) in
    (
      header_bytes m.order n ++ message_bytes msg,
      rw (serialize_to, t.made, returned_)
          (λ i. ok (counted i, header_bytes m.order (same i) ++ t.bytes i)),
      parse_from-body m max_length n (header_bytes m.order n) (message_bytes msg)
            (header_length m.order n) accepted (some_bytes msg) (omega arith) refl
          ∙ parse_body-message_bytes msg (write (message_bytes msg) (byte_array m 4096)).1 h w.valid
              (w.bytes ∙ ap (λ b. b ++ message_bytes msg) (byte_array-empty m 4096).1),
    )
  where
    some_bytes : (x : Message) → 0 < length (message_bytes x)
    some_bytes x = omega (arith, ap length (first_byte_of x))
