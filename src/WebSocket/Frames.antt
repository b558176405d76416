-- ===== src/WebSocket/Frames.antt =====
-- A frame of http/ws_session.cc, taken apart again: the head, the length, the mask and the data.
use yk_server.Base.{
  ℕ, zero, suc, ◌+◌, ◌*◌, ◌%◌, ◌^◌, ◌<◌, ◌≡◌, refl, sym, ap, ◌∙◌, Bool, true, false, List, [], ◌∷◌,
  ◌++◌, Option, none, some, length, take, drop, get_elem?, flat, All, arith, append-nil,
  length-append, take-append, drop-append, inl, inr, lt_or_le,
}
use yk_server.Base.Bits.{bit_xor-twice}
use yk_server.Base.Ints.{to_int, is_positive, is_positive-to_int}
use yk_server.Stream.{fix_result}
use yk_server.Stream.Transfers.{fix_result-positive}
use yk_server.ByteArray.State.{Endian}
use yk_server.ByteArray.Typed.{swap_unless, object_bytes, from_object}
use yk_server.ByteArray.Fixed.{length-wire, object_bytes-swap_unless, from_object-wire}
use yk_server.WebSocket.{
  bit, head_of, read_fix, mask_byte, apply_mask, read_length, length_field, payload_of,
}

pub read_fix-append :
    (n : ℕ) (bs rest : List ℕ)
    → length bs ≡ n
    → 0 < n
    → n < 2 ^ 31
    → read_fix n (bs ++ rest) ≡ some (bs, rest)
unfolding read_fix
read_fix-append n bs rest e pos small =
    let enough : is_positive (fix_result n (length (bs ++ rest))) ≡ true =
      fix_result-positive n (length (bs ++ rest)) pos small
        (omega (arith, length-append bs rest)) in
    let first : take n (bs ++ rest) ≡ bs =
      ap (λ (k : ℕ). take k (bs ++ rest)) (sym e) ∙ take-append bs rest in
    let behind : drop n (bs ++ rest) ≡ rest =
      ap (λ (k : ℕ). drop k (bs ++ rest)) (sym e) ∙ drop-append bs rest in
    rw (enough, first, behind) refl

abbrev pub AreBytes : List ℕ → Type 0
AreBytes = All (λ b. b < 256)

pub length-apply_mask :
    (mask : List ℕ) (i : ℕ) (bs : List ℕ) → length (apply_mask mask i bs) ≡ length bs
unfolding apply_mask
length-apply_mask mask i [] = refl
length-apply_mask mask i (b ∷ bs) = ap suc (length-apply_mask mask (i + 1) bs)

get_elem?-IsByte :
    (mask : List ℕ) (i : ℕ) {m : ℕ} → AreBytes mask → get_elem? mask i ≡ some m → m < 256
get_elem?-IsByte [] i v e = absurd (ground arith)
get_elem?-IsByte (x ∷ mask) zero v e = ground arith
get_elem?-IsByte (x ∷ mask) (suc i) v e = get_elem?-IsByte mask i v.1 e

masked_twice :
    (o : Option ℕ) (b : ℕ)
    → ((m : ℕ) → o ≡ some m → m < 256)
    → b < 256
    → mask_byte o (mask_byte o b) ≡ b
masked_twice none b h v = refl
masked_twice (some m) b h v = bit_xor-twice 8 b m v (h m refl)

-- The mask that is applied twice changes nothing.
pub apply_mask-apply_mask :
    (mask : List ℕ) (i : ℕ) (bs : List ℕ)
    → AreBytes mask
    → AreBytes bs
    → apply_mask mask i (apply_mask mask i bs) ≡ bs
unfolding apply_mask
apply_mask-apply_mask mask i [] m v = refl
apply_mask-apply_mask mask i (b ∷ bs) m v =
    let here =
      masked_twice (get_elem? mask (i % 4)) b (λ k e. get_elem?-IsByte mask (i % 4) m e) v.0 in
    let rest = apply_mask-apply_mask mask (i + 1) bs m v.1 in λ j. here j ∷ rest j

-- The bit fields of a head are read as they were written.
pub head_of-head_bytes :
    (opcode payload : ℕ) (fin mask : Bool)
    → opcode < 16
    → payload < 128
    → head_of (opcode % 16 + 128 * bit fin) (payload % 128 + 128 * bit mask)
      ≡ record { opcode = opcode; fin = fin; payload = payload; mask = mask }
unfolding head_of
head_of-head_bytes opcode payload true true p q = ground arith
head_of-head_bytes opcode payload true false p q = ground arith
head_of-head_bytes opcode payload false true p q = ground arith
head_of-head_bytes opcode payload false false p q = ground arith

length-object :
    (order : Endian) (n v : ℕ)
    → length (object_bytes order n (swap_unless Endian.big order n v)) ≡ n
length-object order n v =
    ap length (object_bytes-swap_unless Endian.big order n v) ∙ length-wire Endian.big n v

from-object :
    (order : Endian) (n v : ℕ)
    → v < 256 ^ n
    → swap_unless Endian.big order n
        (from_object order (object_bytes order n (swap_unless Endian.big order n v)))
      ≡ v
from-object order n v h =
    ap (λ b. swap_unless Endian.big order n (from_object order b))
      (object_bytes-swap_unless Endian.big order n v)
    ∙ from_object-wire Endian.big order n v h

-- A length field of `n` bytes.
unfoldable pub field_bytes : Endian → ℕ → ℕ → List ℕ
field_bytes order n size = object_bytes order n (swap_unless Endian.big order n size)

some_bytes : (order : Endian) (size n : ℕ) → 0 < n → 0 < length (field_bytes order n size)
unfolding field_bytes
some_bytes order size n h = omega (arith, length-object order n size)

read_length-short :
    (order : Endian) (size : ℕ) (rest : List ℕ)
    → size < 126
    → read_length order size rest ≡ some (size, rest)
unfolding read_length
read_length-short order size rest h = ground arith

read_length-medium :
    (order : Endian) (size : ℕ) (rest : List ℕ)
    → size < 2 ^ 16
    → read_length order 126 (field_bytes order 2 size ++ rest) ≡ some (size, rest)
unfolding read_length field_bytes
read_length-medium order size rest h =
    rw
      (
        read_fix-append 2 (field_bytes order 2 size) rest (length-object order 2 size) (omega arith)
            (omega arith),
        from-object order 2 size (omega arith),
      )
      refl

pub read_length-long :
    (order : Endian) (size : ℕ) (rest : List ℕ)
    → size < 2 ^ 64
    → read_length order 127 (field_bytes order 8 size ++ rest) ≡ some (size, rest)
unfolding read_length field_bytes
read_length-long order size rest h =
    rw
      (
        read_fix-append 8 (field_bytes order 8 size) rest (length-object order 8 size) (omega arith)
            (omega arith),
        from-object order 8 size (omega arith),
      )
      refl

-- The three sizes of the length field.
data Sized (order : Endian) (size : ℕ) : Type 0 where
  short : size < 126 → payload_of size ≡ size → length_field order size ≡ [] → Sized order size
  medium :
      size < 2 ^ 16
      → payload_of size ≡ 126
      → length_field order size ≡ field_bytes order 2 size ∷ []
      → Sized order size
  long :
      payload_of size ≡ 127
      → length_field order size ≡ field_bytes order 8 size ∷ []
      → Sized order size

sized : (order : Endian) (size : ℕ) → Sized order size
unfolding length_field field_bytes
sized order size = elim (lt_or_le size 126) [
  | inl small ↦ let p : payload_of size ≡ size = ground arith in short small p (ground arith)
  | inr more ↦ elim (lt_or_le size 65536) [
    | inl fits ↦
        let p : payload_of size ≡ 126 = ground arith in medium (omega arith) p (ground arith)
    | inr large ↦ let p : payload_of size ≡ 127 = ground arith in long p (ground arith)
  ]
]

-- The length field is read back, at each of its three sizes.
pub read_length-length_field :
    (order : Endian) (size : ℕ) (rest : List ℕ)
    → size < 2 ^ 64
    → read_length order (payload_of size) (flat (length_field order size) ++ rest)
      ≡ some (size, rest)
read_length-length_field order size rest h = by_size (sized order size)
  where
    by_size :
        Sized order size
        → read_length order (payload_of size) (flat (length_field order size) ++ rest)
          ≡ some (size, rest)
    by_size (short small p f) =
        (λ i. read_length order (p i) (flat (f i) ++ rest))
        ∙ read_length-short order size rest small
    by_size (medium fits p f) =
        (λ i. read_length order (p i) (flat (f i) ++ rest))
        ∙ ap (λ b. read_length order 126 (b ++ rest)) (append-nil (field_bytes order 2 size))
        ∙ read_length-medium order size rest fits
    by_size (long p f) =
        (λ i. read_length order (p i) (flat (f i) ++ rest))
        ∙ ap (λ b. read_length order 127 (b ++ rest)) (append-nil (field_bytes order 8 size))
        ∙ read_length-long order size rest h

pub payload_of-lt : (size : ℕ) → payload_of size < 128
payload_of-lt size = ground arith

-- A piece that is written by one `writeFixSize` with a positive result.
abbrev pub IsSent : List ℕ → Type 0
IsSent p = is_positive (to_int (length p)) ≡ true

field-IsSent :
    (order : Endian) (size n : ℕ) → 0 < n → n < 2 ^ 31 → IsSent (field_bytes order n size)
unfolding field_bytes
field-IsSent order size n h small = rw (length-object order n size) (is_positive-to_int n h small)

-- So is the piece for the length field, if any.
pub field_pieces : (order : Endian) (size : ℕ) → All IsSent (length_field order size)
field_pieces order size = by_size (sized order size)
  where
    by_size : Sized order size → All IsSent (length_field order size)
    by_size (short small p f) = rw f tt
    by_size (medium fits p f) = rw f (field-IsSent order size 2 (omega arith) (omega arith), tt)
    by_size (long p f) = rw f (field-IsSent order size 8 (omega arith) (omega arith), tt)
