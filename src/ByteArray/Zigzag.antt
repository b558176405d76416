-- ===== src/ByteArray/Zigzag.antt =====
-- Zigzag of yk/bytearray.cc on bit patterns: small magnitudes get small codes, and decoding undoes
-- encoding at every value, the least one included.
use yk_server.Base.{
  ℕ, ◌+◌, ◌-◌, ◌*◌, ◌/◌, ◌%◌, ◌^◌, ◌≤◌, ◌<◌, ◌≡◌, sym, ◌∙◌, [], arith, bit_and, inl, inr, lt_or_le,
  append-nil,
}
use yk_server.Base.Bits.{bit_and-ones, bit_xor-ones, bit_xor-zero}
use yk_server.ByteArray.State.{ByteArray, ok, ◌>>◌}
use yk_server.ByteArray.Memory.{set_position}
use yk_server.ByteArray.Layout.{IsValid}
use yk_server.ByteArray.Sequence.{bind-Yields, pure-Yields_eq}
use yk_server.ByteArray.Append.{write-read}
use yk_server.ByteArray.Typed.{
  encode_zigzag, decode_zigzag, write_int32, read_int32, write_int64, read_int64, read_uint32,
  read_uint64,
}
use yk_server.ByteArray.Varint.{
  groups, read_uint32-Yields, read_uint64-Yields, write_uint32-Appended, write_uint64-Appended,
}
use native.Mathlib.Nat.{mod-eq_of_lt, mod_self, sub-zero}

decode_even : (w n : ℕ) → decode_zigzag w (n * 2) ≡ n
unfolding decode_zigzag
decode_even w n =
    let sign : bit_and (n * 2) 1 ≡ 0 = bit_and-ones 1 (n * 2) ∙ omega arith in
    let half : n * 2 / 2 ≡ n = omega arith in
    let mask : (2 ^ w - 0) % 2 ^ w ≡ 0 = rw sub-zero (mod_self (2 ^ w)) in
    rw (sign, half, mask) (bit_xor-zero n)

decode_odd : (w n : ℕ) → n < 2 ^ w → 1 < 2 ^ w → decode_zigzag w (n * 2 + 1) ≡ 2 ^ w - 1 - n
unfolding decode_zigzag
decode_odd w n h pos =
    let sign : bit_and (n * 2 + 1) 1 ≡ 1 = bit_and-ones 1 (n * 2 + 1) ∙ omega arith in
    let half : (n * 2 + 1) / 2 ≡ n = omega arith in
    let mask : (2 ^ w - 1) % 2 ^ w ≡ 2 ^ w - 1 = mod-eq_of_lt (omega arith) in
    rw (sign, half, mask) (bit_xor-ones w n h)

-- A 32-bit pattern below 2 ^ 31 stands for a number n >= 0, and its code is 2 n; the pattern
-- 2 ^ 32 - n stands for - n, where 1 <= n <= 2 ^ 31, and its code is 2 n - 1.
pub encode_zigzag32_codes :
    (n : ℕ)
    → (n < 2 ^ 31 → encode_zigzag 32 n ≡ n * 2)
      × (1 ≤ n → n ≤ 2 ^ 31 → encode_zigzag 32 (2 ^ 32 - n) ≡ n * 2 - 1)
unfolding encode_zigzag
encode_zigzag32_codes n = (λ h. ground arith, λ p h. ground arith)

encode_zigzag64_codes :
    (n : ℕ)
    → (n < 2 ^ 63 → encode_zigzag 64 n ≡ n * 2)
      × (1 ≤ n → n ≤ 2 ^ 63 → encode_zigzag 64 (2 ^ 64 - n) ≡ n * 2 - 1)
unfolding encode_zigzag
encode_zigzag64_codes n = (λ h. ground arith, λ p h. ground arith)

-- Decoding undoes encoding at every 32-bit pattern.
pub decode_zigzag-encode_zigzag32 : (v : ℕ) → v < 2 ^ 32 → decode_zigzag 32 (encode_zigzag 32 v) ≡ v
decode_zigzag-encode_zigzag32 v h = elim (lt_or_le v (2 ^ 31)) [
  | inl nonneg ↦ rw ((encode_zigzag32_codes v).0 nonneg) (decode_even 32 v)
  | inr neg ↦
      let n : ℕ = 2 ^ 32 - v in
      let back : 2 ^ 32 - n ≡ v = omega arith in
      let code : encode_zigzag 32 v ≡ (n - 1) * 2 + 1 =
        (rw back at ((encode_zigzag32_codes n).1 (omega arith) (omega arith))) ∙ omega arith in
      rw code (decode_odd 32 (n - 1) (omega arith) (omega arith) ∙ omega arith)
]

-- Decoding undoes encoding at every 64-bit pattern.
pub decode_zigzag-encode_zigzag64 : (v : ℕ) → v < 2 ^ 64 → decode_zigzag 64 (encode_zigzag 64 v) ≡ v
decode_zigzag-encode_zigzag64 v h = elim (lt_or_le v (2 ^ 63)) [
  | inl nonneg ↦ rw ((encode_zigzag64_codes v).0 nonneg) (decode_even 64 v)
  | inr neg ↦
      let n : ℕ = 2 ^ 64 - v in
      let back : 2 ^ 64 - n ≡ v = omega arith in
      let code : encode_zigzag 64 v ≡ (n - 1) * 2 + 1 =
        (rw back at ((encode_zigzag64_codes n).1 (omega arith) (omega arith))) ∙ omega arith in
      rw code (decode_odd 64 (n - 1) (omega arith) (omega arith) ∙ omega arith)
]

encode_zigzag32-lt : (v : ℕ) → encode_zigzag 32 v < 2 ^ 32
unfolding encode_zigzag
encode_zigzag32-lt v = ground arith

encode_zigzag64-lt : (v : ℕ) → encode_zigzag 64 v < 2 ^ 64
unfolding encode_zigzag
encode_zigzag64-lt v = ground arith

-- At the end of the data of a valid array, every int32 that is written is read back, given as its
-- 32-bit pattern.
pub read_int32-write_int32 :
    (v : ℕ) (s : ByteArray)
    → v < 2 ^ 32
    → IsValid s
    → s.position ≡ s.size
    → ((write_int32 v >> (set_position s.size >> read_int32)) s).0 ≡ ok v
unfolding write_int32 read_int32
read_int32-write_int32 v s h valid end =
    let z : ℕ = encode_zigzag 32 v in
    write-read s (write_int32 v) read_int32 v (groups 4 z) valid
      (write_uint32-Appended z s (encode_zigzag32-lt v) valid end)
      (λ t vt left endian machine.
        bind-Yields t read_uint32 _ z v [] []
          (read_uint32-Yields z t [] (encode_zigzag32-lt v) vt
            (left ∙ sym (append-nil (groups 4 z))))
          (λ u vu left' _ _. pure-Yields_eq u _ v [] (decode_zigzag-encode_zigzag32 v h) vu left'))

-- At the end of the data of a valid array, every int64 that is written is read back, given as its
-- 64-bit pattern.
pub read_int64-write_int64 :
    (v : ℕ) (s : ByteArray)
    → v < 2 ^ 64
    → IsValid s
    → s.position ≡ s.size
    → ((write_int64 v >> (set_position s.size >> read_int64)) s).0 ≡ ok v
unfolding write_int64 read_int64
read_int64-write_int64 v s h valid end =
    let z : ℕ = encode_zigzag 64 v in
    write-read s (write_int64 v) read_int64 v (groups 9 z) valid
      (write_uint64-Appended z s (encode_zigzag64-lt v) valid end)
      (λ t vt left endian machine.
        bind-Yields t read_uint64 _ z v [] []
          (read_uint64-Yields z t [] (encode_zigzag64-lt v) vt
            (left ∙ sym (append-nil (groups 9 z))))
          (λ u vu left' _ _. pure-Yields_eq u _ v [] (decode_zigzag-encode_zigzag64 v h) vu left'))
