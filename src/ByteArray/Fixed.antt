-- ===== src/ByteArray/Fixed.antt =====
-- Integers of a fixed size: the byte order of the array decides what is written, the machine's does
-- not, and a read undoes a write.
use yk_server.Base.{
  ℕ, zero, suc, ◌+◌, ◌*◌, ◌/◌, ◌%◌, ◌^◌, ◌<◌, ◌≡◌, refl, sym, ap, ◌∙◌, List, [], ◌∷◌, ◌++◌, length,
  arith, append-nil, reverse, All, length-append,
}
use yk_server.ByteArray.State.{ByteArray, Endian, ok, ◌>>◌}
use yk_server.ByteArray.Memory.{write, read, set_position}
use yk_server.ByteArray.Layout.{IsValid}
use yk_server.ByteArray.Contents.{unread}
use yk_server.ByteArray.Sequence.{Yields, read-Yields, bind-Yields, pure-Yields_eq}
use yk_server.ByteArray.Append.{Appended, write-Appended, write-read}
use yk_server.ByteArray.Typed.{
  le_bytes, from_le, byteswap, object_bytes, from_object, swap_unless, write_fixed, read_fixed,
}
use mathlib.Core.List.{reverse-append, reverse-reverse}
use native.Mathlib.Nat.{pow-suc}

abbrev pub IsByte : ℕ → Type 0
IsByte b = b < 256

length-reverse : (xs : List ℕ) → length (reverse xs) ≡ length xs
length-reverse [] = refl
length-reverse (x ∷ xs) =
    ap length (reverse-append (x ∷ []) xs)
    ∙ omega (arith, length-append (reverse xs) (x ∷ []), length-reverse xs)

All-append : (xs ys : List ℕ) → All IsByte xs → All IsByte ys → All IsByte (xs ++ ys)
All-append [] ys p q = q
All-append (x ∷ xs) ys p q = (p.0, All-append xs ys p.1 q)

reverse-IsByte : (xs : List ℕ) → All IsByte xs → All IsByte (reverse xs)
reverse-IsByte [] p = tt
reverse-IsByte (x ∷ xs) p =
    rw (reverse-append (x ∷ []) xs)
      (All-append (reverse xs) (x ∷ []) (reverse-IsByte xs p.1) (p.0, tt))

length-le_bytes : (n v : ℕ) → length (le_bytes n v) ≡ n
unfolding le_bytes
length-le_bytes zero v = refl
length-le_bytes (suc n) v = ap suc (length-le_bytes n (v / 256))

le_bytes-IsByte : (n v : ℕ) → All IsByte (le_bytes n v)
unfolding le_bytes
le_bytes-IsByte zero v = tt
le_bytes-IsByte (suc n) v = (omega arith, le_bytes-IsByte n (v / 256))

from_le-le_bytes : (n v : ℕ) → v < 256 ^ n → from_le (le_bytes n v) ≡ v
unfolding le_bytes from_le
from_le-le_bytes zero v h = omega arith
from_le-le_bytes (suc n) v h =
    omega (arith, from_le-le_bytes n (v / 256) (omega (arith, pow-suc 256 n)))

le_bytes-from_le :
    (n : ℕ) (bs : List ℕ) → length bs ≡ n → All IsByte bs → le_bytes n (from_le bs) ≡ bs
unfolding le_bytes from_le
le_bytes-from_le zero [] e p = refl
le_bytes-from_le zero (b ∷ bs) e p = absurd (omega arith)
le_bytes-from_le (suc n) [] e p = absurd (omega arith)
le_bytes-from_le (suc n) (b ∷ bs) e p =
    let low : (b + 256 * from_le bs) % 256 ≡ b = omega arith in
    let high : (b + 256 * from_le bs) / 256 ≡ from_le bs = omega arith in
    rw (low, high) (ap (λ t. b ∷ t) (le_bytes-from_le n bs (omega arith) p.1))

-- The bytes of a value of `n` bytes in the order `e`.
unfoldable pub wire : Endian → ℕ → ℕ → List ℕ
wire Endian.little n v = le_bytes n v
wire Endian.big n v = reverse (le_bytes n v)

pub length-wire : (e : Endian) (n v : ℕ) → length (wire e n v) ≡ n
unfolding wire
length-wire Endian.little n v = length-le_bytes n v
length-wire Endian.big n v = length-reverse (le_bytes n v) ∙ length-le_bytes n v

swapped_bytes : (n v : ℕ) → le_bytes n (byteswap n v) ≡ reverse (le_bytes n v)
unfolding byteswap
swapped_bytes n v =
    le_bytes-from_le n (reverse (le_bytes n v))
      (length-reverse (le_bytes n v) ∙ length-le_bytes n v)
      (reverse-IsByte (le_bytes n v) (le_bytes-IsByte n v))

-- What reaches the array is in its own byte order, on either kind of machine.
pub object_bytes-swap_unless :
    (e m : Endian) (n v : ℕ) → object_bytes m n (swap_unless e m n v) ≡ wire e n v
unfolding object_bytes swap_unless wire
object_bytes-swap_unless Endian.little Endian.little n v = refl
object_bytes-swap_unless Endian.big Endian.big n v = refl
object_bytes-swap_unless Endian.little Endian.big n v =
    ap reverse (swapped_bytes n v) ∙ reverse-reverse (le_bytes n v)
object_bytes-swap_unless Endian.big Endian.little n v = swapped_bytes n v

byteswap-byteswap : (n v : ℕ) → v < 256 ^ n → byteswap n (byteswap n v) ≡ v
byteswap-byteswap n v h =
    let outer : byteswap n (byteswap n v) ≡ from_le (reverse (le_bytes n (byteswap n v))) =
      unfold byteswap in refl in
    outer
    ∙ ap (λ b. from_le (reverse b)) (swapped_bytes n v)
    ∙ ap from_le (reverse-reverse (le_bytes n v))
    ∙ from_le-le_bytes n v h

pub from_object-wire :
    (e m : Endian) (n v : ℕ) → v < 256 ^ n → swap_unless e m n (from_object m (wire e n v)) ≡ v
unfolding from_object swap_unless wire byteswap
from_object-wire Endian.little Endian.little n v h = from_le-le_bytes n v h
from_object-wire Endian.big Endian.big n v h =
    ap from_le (reverse-reverse (le_bytes n v)) ∙ from_le-le_bytes n v h
from_object-wire Endian.little Endian.big n v h = byteswap-byteswap n v h
from_object-wire Endian.big Endian.little n v h = byteswap-byteswap n v h

-- The `n` bytes that are written are the value's in the array's byte order, whatever the machine.
pub write_fixed-wire : (n v : ℕ) (s : ByteArray) → write_fixed n v s ≡ write (wire s.endian n v) s
unfolding write_fixed
write_fixed-wire n v s = ap (λ b. write b s) (object_bytes-swap_unless s.endian s.machine.order n v)

pub write_fixed-Appended :
    (n v : ℕ) (s : ByteArray)
    → IsValid s
    → s.position ≡ s.size
    → Appended s (wire s.endian n v) (write_fixed n v s)
write_fixed-Appended n v s valid end =
    rw (write_fixed-wire n v s) (write-Appended s (wire s.endian n v) valid end)

pub read_fixed-Yields :
    (n v : ℕ) (s : ByteArray) (rest : List ℕ)
    → IsValid s
    → 0 < n
    → v < 256 ^ n
    → unread s ≡ wire s.endian n v ++ rest
    → Yields s v rest (read_fixed n s)
unfolding read_fixed
read_fixed-Yields n v s rest valid some_byte fits next =
    bind-Yields s (read n) _ (wire s.endian n v) v rest rest got (λ t vt left endian machine.
      pure-Yields_eq t _ v rest
        ((λ i.
            swap_unless (endian i) (machine i).order n
              (from_object (machine i).order (wire s.endian n v)))
          ∙ from_object-wire s.endian s.machine.order n v fits)
        vt left)
  where
    got : Yields s (wire s.endian n v) rest (read n s)
    got = rw (length-wire s.endian n v) at (
        read-Yields s (wire s.endian n v) rest valid (omega (arith, length-wire s.endian n v)) next)

-- On a valid array that stands at the end of its data, a value of `n` bytes that is written, and
-- read again from where it was written, is the same.
pub read_fixed-write_fixed :
    (n v : ℕ) (s : ByteArray)
    → IsValid s
    → s.position ≡ s.size
    → 0 < n
    → v < 256 ^ n
    → ((write_fixed n v >> (set_position s.size >> read_fixed n)) s).0 ≡ ok v
read_fixed-write_fixed n v s valid end some_byte fits =
    write-read s (write_fixed n v) (read_fixed n) v (wire s.endian n v) valid
      (write_fixed-Appended n v s valid end)
      (λ t vt left endian machine.
        read_fixed-Yields n v t [] vt some_byte fits
          (rw endian (left ∙ sym (append-nil (wire s.endian n v)))))
