-- ===== src/ByteArray/Varint.antt =====
-- Varints and zigzag of yk/bytearray.cc: every value is read back, in at most 5 or 10 bytes.
use yk_server.Base.{
  ℕ, zero, suc, ◌+◌, ◌*◌, ◌/◌, ◌%◌, ◌^◌, ◌≤◌, ◌<◌, ◌≡◌, sym, ap, ◌∙◌, List, [], ◌∷◌, ◌++◌, length,
  arith, append-nil, All, some, bit_and, bit_or, ltb, if◌then◌else◌, inl, inr, lt_or_le, lt→ltb,
  le→ltb, le→leb, lt→leb,
}
use yk_server.Base.Bits.{bit_or-disjoint, bit_and-ones}
use yk_server.ByteArray.State.{ByteArray, ok, ◌>>◌}
use yk_server.ByteArray.Memory.{read, set_position}
use yk_server.ByteArray.Layout.{IsValid}
use yk_server.ByteArray.Contents.{unread}
use yk_server.ByteArray.Sequence.{Yields, read-Yields, bind-Yields, pure-Yields, pure-Yields_eq}
use yk_server.ByteArray.Append.{Appended, write-Appended, write-read}
use yk_server.ByteArray.Typed.{
  read_fuint8, varint_bytes, read_varint, write_uint32, write_uint64, read_uint32, read_uint64,
}
use native.Mathlib.Nat.{pow-suc, div-add-mod, mod-eq_of_lt}
use native.Mathlib.Numerals.{towards_suc}

-- The groups of seven bits of a value, lowest first, with the top bit set on all but the last.
unfoldable pub groups : ℕ → ℕ → List ℕ
groups zero v = v ∷ []
groups (suc k) v =
    let rest = groups k (v / 128) in if ltb v 128 then v ∷ [] else (v % 128 + 128) ∷ rest

-- `(value & 0x7F) | 0x80`
marked_byte : (v : ℕ) → bit_or (bit_and v 0x7f) 0x80 ≡ v % 128 + 128
marked_byte v =
    ap (λ (b : ℕ). bit_or b 0x80) (bit_and-ones 7 v) ∙ bit_or-disjoint 7 (v % 128) 1 (omega arith)

varint_bytes-last : (k v : ℕ) → v < 128 → varint_bytes (suc k) v ≡ some (v ∷ [])
unfolding varint_bytes
varint_bytes-last k v h = rw (lt→leb 128 v h)

varint_bytes-next :
    (room v : ℕ) {rest : List ℕ}
    → 128 ≤ v
    → varint_bytes room (v / 128) ≡ some rest
    → varint_bytes (suc room) v ≡ some ((v % 128 + 128) ∷ rest)
unfolding varint_bytes
varint_bytes-next room v large e = rw (le→leb 128 v large, e, marked_byte v)

-- The loop of `writeUint32` and `writeUint64` writes the groups of the value, and fills no more than `k + 1` places for a value of `k + 1` groups.
pub varint_bytes-groups : (k v : ℕ) → v < 128 ^ suc k → varint_bytes (suc k) v ≡ some (groups k v)
unfolding groups
varint_bytes-groups zero v h = varint_bytes-last zero v (omega arith)
varint_bytes-groups (suc k) v h = elim (lt_or_le v 128) [
  | inl small ↦ rw (lt→ltb v 128 small) (varint_bytes-last (suc k) v small)
  | inr large ↦ rw (le→ltb v 128 large) (
      varint_bytes-next (suc k) v large
        (varint_bytes-groups k (v / 128) (omega (arith, pow-suc 128 (suc k)))))
]

pub read_byte-Yields :
    (s : ByteArray) (b : ℕ) (rest : List ℕ)
    → IsValid s
    → unread s ≡ b ∷ rest
    → Yields s b rest (read_fuint8 s)
unfolding read_fuint8
read_byte-Yields s b rest v next =
    bind-Yields s (read 1) _ (b ∷ []) b rest rest (read-Yields s (b ∷ []) rest v (omega arith) next)
      (λ t vt left endian machine. pure-Yields t b rest vt left)

seven_bits : (i : ℕ) → 2 ^ (i + 7) ≡ 128 * 2 ^ i
seven_bits i = simp towards_suc (omega arith)

-- The lowest group of `v` and the rest of it, from bit `i` on.
split_group : (v i : ℕ) → v * 2 ^ i ≡ v % 128 * 2 ^ i + v / 128 * 2 ^ (i + 7)
split_group v i = omega (
  arith,
  ap (λ (t : ℕ). t * 2 ^ i) (div-add-mod v 128),
  ap (λ (t : ℕ). v / 128 * t) (seven_bits i),
)

add_bits :
    (w i acc g : ℕ)
    → acc < 2 ^ i
    → g * 2 ^ i < 2 ^ w
    → bit_or acc (g * 2 ^ i % 2 ^ w) ≡ acc + g * 2 ^ i
add_bits w i acc g low fits =
    ap (λ (t : ℕ). bit_or acc t) (mod-eq_of_lt fits) ∙ bit_or-disjoint i acc g low

next_low : (i acc g : ℕ) → acc < 2 ^ i → g < 128 → acc + g * 2 ^ i < 2 ^ (i + 7)
next_low i acc g low small =
    let top : g * 2 ^ i ≤ 127 * 2 ^ i = grind arith in omega (arith, seven_bits i)

module _ (k w i acc v : ℕ) (s : ByteArray) (rest : List ℕ) (valid : IsValid s) (low : acc < 2 ^ i)
    (fits : acc + v * 2 ^ i < 2 ^ w) where
  read_last :
      v < 128
      → unread s ≡ v ∷ rest
      → Yields s (acc + v * 2 ^ i) rest (read_varint (suc k) w i acc s)
  unfolding read_varint
  read_last small next =
      bind-Yields s read_fuint8 _ v (acc + v * 2 ^ i) rest rest
        (read_byte-Yields s v rest valid next)
        (λ t vt left endian machine. rw (lt→ltb v 128 small) (
          pure-Yields_eq t _ (acc + v * 2 ^ i) rest (add_bits w i acc v low (omega arith)) vt left))

  read_next :
      {more : List ℕ}
      → unread s ≡ (v % 128 + 128) ∷ more
      → ((t : ByteArray)
          → IsValid t
          → unread t ≡ more
          → Yields t
              (acc + v % 128 * 2 ^ i + v / 128 * 2 ^ (i + 7))
              rest
              (read_varint k w (i + 7) (acc + v % 128 * 2 ^ i) t))
      → Yields s (acc + v * 2 ^ i) rest (read_varint (suc k) w i acc s)
  unfolding read_varint
  read_next {more} next later =
      bind-Yields s read_fuint8 _ (v % 128 + 128) (acc + v * 2 ^ i) more rest
        (read_byte-Yields s (v % 128 + 128) more valid next)
        (λ t vt left endian machine.
          rw (le→ltb (v % 128 + 128) 128 (omega arith), group, sum) (later t vt left))
    where
      sum : acc + v * 2 ^ i ≡ acc + v % 128 * 2 ^ i + v / 128 * 2 ^ (i + 7)
      sum = omega (arith, split_group v i)

      group : bit_or acc (bit_and (v % 128 + 128) 0x7f * 2 ^ i % 2 ^ w) ≡ acc + v % 128 * 2 ^ i
      group =
          ap (λ (t : ℕ). bit_or acc (t * 2 ^ i % 2 ^ w)) (bit_and-ones 7 (v % 128 + 128) ∙ same)
          ∙ add_bits w i acc (v % 128) low (omega (arith, split_group v i))
        where
          same : (v % 128 + 128) % 128 ≡ v % 128
          same = omega arith

-- The groups of a value that fits the result are read back, and nothing behind them.
pub read_varint-groups :
    (k w i acc v : ℕ) (s : ByteArray) (rest : List ℕ)
    → v < 128 ^ suc k
    → acc < 2 ^ i
    → acc + v * 2 ^ i < 2 ^ w
    → IsValid s
    → unread s ≡ groups k v ++ rest
    → Yields s (acc + v * 2 ^ i) rest (read_varint (suc k) w i acc s)
unfolding groups
read_varint-groups zero w i acc v s rest few low fits valid next =
    read_last zero w i acc v s rest valid low fits (omega arith) next
read_varint-groups (suc k) w i acc v s rest few low fits valid next = elim (lt_or_le v 128) [
  | inl small ↦
      read_last (suc k) w i acc v s rest valid low fits small (rw (lt→ltb v 128 small) at next)
  | inr large ↦
      read_next (suc k) w i acc v s rest valid low fits {more = groups k (v / 128) ++ rest}
        (rw (le→ltb v 128 large) at next)
        (λ t vt left.
          read_varint-groups k w (i + 7) (acc + v % 128 * 2 ^ i) (v / 128) t rest
            (omega (arith, pow-suc 128 (suc k))) (next_low i acc (v % 128) low (omega arith))
            (omega (arith, split_group v i)) vt left)
]

pub read_uint32-Yields :
    (v : ℕ) (s : ByteArray) (rest : List ℕ)
    → v < 2 ^ 32
    → IsValid s
    → unread s ≡ groups 4 v ++ rest
    → Yields s v rest (read_uint32 s)
unfolding read_uint32
read_uint32-Yields v s rest h valid next =
    let value : 0 + v * 2 ^ 0 ≡ v = omega arith in
    rw value at
      (read_varint-groups 4 32 0 0 v s rest (omega arith) (omega arith) (omega arith) valid next)

pub read_uint64-Yields :
    (v : ℕ) (s : ByteArray) (rest : List ℕ)
    → v < 2 ^ 64
    → IsValid s
    → unread s ≡ groups 9 v ++ rest
    → Yields s v rest (read_uint64 s)
unfolding read_uint64
read_uint64-Yields v s rest h valid next =
    let value : 0 + v * 2 ^ 0 ≡ v = omega arith in
    rw value at
      (read_varint-groups 9 64 0 0 v s rest (omega arith) (omega arith) (omega arith) valid next)

pub write_uint32-Appended :
    (v : ℕ) (s : ByteArray)
    → v < 2 ^ 32
    → IsValid s
    → s.position ≡ s.size
    → Appended s (groups 4 v) (write_uint32 v s)
unfolding write_uint32
write_uint32-Appended v s h valid end =
    rw (varint_bytes-groups 4 v (omega arith)) (write-Appended s (groups 4 v) valid end)

pub write_uint64-Appended :
    (v : ℕ) (s : ByteArray)
    → v < 2 ^ 64
    → IsValid s
    → s.position ≡ s.size
    → Appended s (groups 9 v) (write_uint64 v s)
unfolding write_uint64
write_uint64-Appended v s h valid end =
    rw (varint_bytes-groups 9 v (omega arith)) (write-Appended s (groups 9 v) valid end)

-- At the end of the data of a valid array, every uint32 that is written as a varint is read back.
pub read_uint32-write_uint32 :
    (v : ℕ) (s : ByteArray)
    → v < 2 ^ 32
    → IsValid s
    → s.position ≡ s.size
    → ((write_uint32 v >> (set_position s.size >> read_uint32)) s).0 ≡ ok v
read_uint32-write_uint32 v s h valid end =
    write-read s (write_uint32 v) read_uint32 v (groups 4 v) valid
      (write_uint32-Appended v s h valid end)
      (λ t vt left endian machine.
        read_uint32-Yields v t [] h vt (left ∙ sym (append-nil (groups 4 v))))

-- At the end of the data of a valid array, every uint64 that is written as a varint is read back.
pub read_uint64-write_uint64 :
    (v : ℕ) (s : ByteArray)
    → v < 2 ^ 64
    → IsValid s
    → s.position ≡ s.size
    → ((write_uint64 v >> (set_position s.size >> read_uint64)) s).0 ≡ ok v
read_uint64-write_uint64 v s h valid end =
    write-read s (write_uint64 v) read_uint64 v (groups 9 v) valid
      (write_uint64-Appended v s h valid end)
      (λ t vt left endian machine.
        read_uint64-Yields v t [] h vt (left ∙ sym (append-nil (groups 9 v))))

-- A value takes at most `k + 1` bytes, and each of them is a byte.
pub groups_shape :
    (k v : ℕ)
    → v < 128 ^ suc k
    → (1 ≤ length (groups k v)) × (length (groups k v) ≤ k + 1) × All (λ b. b < 256) (groups k v)
unfolding groups
groups_shape zero v h = omega arith
groups_shape (suc k) v h =
    ground (arith, groups_shape k (v / 128) (omega (arith, pow-suc 128 (suc k))))
