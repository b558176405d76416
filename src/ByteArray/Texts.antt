-- ===== src/ByteArray/Texts.antt =====
-- The strings of yk/bytearray.cc, each behind its length.
use yk_server.Base.{
  ℕ, ◌+◌, ◌-◌, ◌^◌, ◌<◌, ◌≡◌, sym, ◌∙◌, [], List, ◌++◌, arith, length, append-nil, get_elem?, none,
}
use yk_server.Base.Blocks.{get_elem?-beyond}
use yk_server.ByteArray.State.{ByteArray, Action, ok, undefined, sub_size, ◌>>=◌, ◌>>◌}
use yk_server.ByteArray.Memory.{write, read, set_position}
use yk_server.ByteArray.Layout.{IsValid, mul-lt-mul_cancel}
use yk_server.ByteArray.Contents.{unread}
use yk_server.ByteArray.Sequence.{Yields, bind-Yields, read-Yields}
use yk_server.ByteArray.Append.{Appended, write-Appended, seq-Appended, write-read}
use yk_server.ByteArray.Fixed.{wire, write_fixed-Appended, read_fixed-Yields}
use yk_server.ByteArray.Varint.{groups, write_uint64-Appended, read_uint64-Yields}
use yk_server.ByteArray.Typed.{
  read_fixed, write_fuint16, write_fuint32, write_fuint64, write_uint64, read_fuint16, read_fuint32,
  read_fuint64, read_uint64, write_string_f16, write_string_f32, write_string_f64,
  write_string_vint, read_string_f16, read_string_f32, read_string_f64, read_string_vint,
}
use native.Mathlib.Nat.{mod-eq_of_lt}

-- A length field that is read back as it was written, and the string behind it.
text_round_trip :
    (s : ByteArray) (value : List ℕ) (put : Action (Unit {0})) (get : Action ℕ)
    (field : ByteArray → List ℕ)
    → IsValid s
    → s.position ≡ s.size
    → 0 < length value
    → Appended s (field s) (put s)
    → ((t : ByteArray) (rest : List ℕ)
        → IsValid t
        → t.endian ≡ s.endian
        → unread t ≡ field s ++ rest
        → Yields t (length value) rest (get t))
    → (((put >> write value) >> (set_position s.size >> (get >>= λ len. read len))) s).0 ≡ ok value
text_round_trip s value put get field valid end some_byte wrote reads =
    write-read s (put >> write value) (get >>= λ len. read len) value (field s ++ value) valid
      (seq-Appended s put (write value) (field s) value wrote
        (λ t vt at_end _ _. write-Appended t value vt at_end))
      (λ t vt left endian machine.
        bind-Yields t get (λ len. read len) (length value) value value []
          (reads t value vt endian left)
          (λ u vu left' _ _.
            read-Yields u value [] vu (omega arith) (left' ∙ sym (append-nil value))))

fixed_field :
    (n : ℕ) (s : ByteArray) (v : ℕ)
    → 0 < n
    → v < 256 ^ n
    → (t : ByteArray) (rest : List ℕ) → IsValid t
    → t.endian ≡ s.endian
    → unread t ≡ wire s.endian n v ++ rest
    → Yields t v rest (read_fixed n t)
fixed_field n s v pos fits t rest vt endian next =
    read_fixed-Yields n v t rest vt pos fits (rw endian next)

module _ (value : List ℕ) (s : ByteArray) (valid : IsValid s) (end : s.position ≡ s.size)
    (some_byte : 0 < length value) where
  -- At the end of the data of a valid array, a string that is not empty, and whose length fits the
  -- field of 2 bytes, is written and read back.
  pub read_string_f16-write_string_f16 :
      length value < 2 ^ 16
      → ((write_string_f16 value >> (set_position s.size >> read_string_f16)) s).0 ≡ ok value
  unfolding write_string_f16 read_string_f16 write_fuint16 read_fuint16
  read_string_f16-write_string_f16 fits = rw (mod-eq_of_lt fits) (
      text_round_trip s value (write_fuint16 (length value)) read_fuint16
        (λ t. wire t.endian 2 (length value)) valid end some_byte
        (write_fixed-Appended 2 (length value) s valid end)
        (fixed_field 2 s (length value) (omega arith) (omega arith)))

  -- At the end of the data of a valid array, a string that is not empty, and whose length fits the
  -- field of 4 bytes, is written and read back.
  pub read_string_f32-write_string_f32 :
      length value < 2 ^ 32
      → ((write_string_f32 value >> (set_position s.size >> read_string_f32)) s).0 ≡ ok value
  unfolding write_string_f32 read_string_f32 write_fuint32 read_fuint32
  read_string_f32-write_string_f32 fits = rw (mod-eq_of_lt fits) (
      text_round_trip s value (write_fuint32 (length value)) read_fuint32
        (λ t. wire t.endian 4 (length value)) valid end some_byte
        (write_fixed-Appended 4 (length value) s valid end)
        (fixed_field 4 s (length value) (omega arith) (omega arith)))

  -- A string that is not empty, and whose length fits the field of 8 bytes, is read back.
  pub read_string_f64-write_string_f64 :
      length value < 2 ^ 64
      → ((write_string_f64 value >> (set_position s.size >> read_string_f64)) s).0 ≡ ok value
  unfolding write_string_f64 read_string_f64 write_fuint64 read_fuint64
  read_string_f64-write_string_f64 fits = rw (mod-eq_of_lt fits) (
      text_round_trip s value (write_fuint64 (length value)) read_fuint64
        (λ t. wire t.endian 8 (length value)) valid end some_byte
        (write_fixed-Appended 8 (length value) s valid end)
        (fixed_field 8 s (length value) (omega arith) (omega arith)))

  -- At the end of the data of a valid array, a string that is not empty, and whose length is below
  -- 2 ^ 64, is read back from behind the varint of its length.
  pub read_string_vint-write_string_vint :
      length value < 2 ^ 64
      → ((write_string_vint value >> (set_position s.size >> read_string_vint)) s).0 ≡ ok value
  unfolding write_string_vint read_string_vint
  read_string_vint-write_string_vint fits = rw (mod-eq_of_lt fits) (
      text_round_trip s value (write_uint64 (length value)) read_uint64
        (λ t. groups 9 (length value)) valid end some_byte
        (write_uint64-Appended (length value) s fits valid end)
        (λ t rest vt endian next. read_uint64-Yields (length value) t rest fits vt next))

-- On a valid array whose position is at the end of a full chain, a read of no bytes follows a null
-- pointer.
pub read_nothing_at_end :
    (s : ByteArray) → IsValid s → s.position ≡ s.capacity → read 0 s ≡ (undefined, s)
unfolding read
read_nothing_at_end s v full =
    let past : length s.nodes < s.cur + 1 =
      mul-lt-mul_cancel (length s.nodes) (s.cur + 1) s.base_size (omega arith) in
    let null : get_elem? s.nodes s.cur ≡ none = get_elem?-beyond s.nodes s.cur (omega arith) in
    let left : sub_size s.size s.position ≡ s.size - s.position = ground arith in ground arith

-- A string behind the varint of its length, with more data behind it or not empty itself.
pub read_string_vint-Yields :
    (value : List ℕ) (s : ByteArray) (rest : List ℕ)
    → length value < 2 ^ 64
    → 0 < length value + length rest
    → IsValid s
    → unread s ≡ groups 9 (length value) ++ (value ++ rest)
    → Yields s value rest (read_string_vint s)
unfolding read_string_vint
read_string_vint-Yields value s rest fits some_byte v next =
    bind-Yields s read_uint64 (λ len. read len) (length value) value (value ++ rest) rest
      (read_uint64-Yields (length value) s (value ++ rest) fits v next)
      (λ t vt left _ _. read-Yields t value rest vt some_byte left)

pub write_string_vint-Appended :
    (value : List ℕ) (s : ByteArray)
    → length value < 2 ^ 64
    → IsValid s
    → s.position ≡ s.size
    → Appended s (groups 9 (length value) ++ value) (write_string_vint value s)
unfolding write_string_vint
write_string_vint-Appended value s fits v end = rw (mod-eq_of_lt fits) (
    seq-Appended s (write_uint64 (length value)) (write value) (groups 9 (length value)) value
      (write_uint64-Appended (length value) s fits v end)
      (λ t vt at_end _ _. write-Appended t value vt at_end))
