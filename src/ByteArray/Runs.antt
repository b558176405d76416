-- ===== src/ByteArray/Runs.antt =====
-- Runs of the operations of yk/bytearray.cc on small arrays.
use yk_server.Base.{ℕ, ◌+◌, ◌*◌, ◌≤◌, ◌<◌, ◌≡◌, refl, List, [], ◌∷◌, true, some, arith}
use yk_server.ByteArray.State.{Machine, ByteArray, Endian, ok, ◌>>◌}
use yk_server.ByteArray.Memory.{byte_array, write, read, set_position}
use yk_server.ByteArray.Typed.{
  write_fixed, read_fixed, write_uint64, read_uint64, write_string_vint, read_string_vint,
}
use yk_server.ByteArray.Export.{Iovec, get_read_buffers, write_to_file, read_from_file}
use yk_server.ByteArray.Layout.{IsValid}
use yk_server.ByteArray.Contents.{contents}
use yk_server.ByteArray.Transfer.{Written, write-Written}
use yk_server.ByteArray.Reading.{Taken, read-Taken, Moved, set_position-Moved}
use yk_server.ByteArray.Fixed.{read_fixed-write_fixed}
use yk_server.ByteArray.Varint.{read_uint64-write_uint64}
use yk_server.ByteArray.Texts.{read_string_vint-write_string_vint}
use yk_server.ByteArray.Gather.{gather, get_read_buffers_lem}
use yk_server.ByteArray.Files.{read_from_file-write_to_file}

abbrev machine : Machine
machine = record { order = Endian.little; fresh = 0 }

-- Two nodes of four bytes, six bytes of data, and a position.
abbrev two_nodes : ℕ → ℕ → ByteArray
two_nodes position cur = record {
  machine = machine;
  base_size = 4;
  position = position;
  capacity = 8;
  size = 6;
  endian = Endian.big;
  nodes = (1 ∷ 2 ∷ 3 ∷ 4 ∷ []) ∷ (5 ∷ 6 ∷ 0 ∷ 0 ∷ []) ∷ [];
  cur = cur;
}

two_nodes-IsValid : (p c : ℕ) → p ≤ 6 → c * 4 ≤ p → p < c * 4 + 4 → IsValid (two_nodes p c)
two_nodes-IsValid p c within lo hi = record {
  pos_base = omega arith;
  uniform = (refl, (refl, tt));
  counted = omega arith;
  rooted = omega arith;
  fits = omega arith;
  within = within;
  from_cur = lo;
  to_cur = hi;
}

abbrev inside : ByteArray
inside = two_nodes 1 0

abbrev ended : ByteArray
ended = two_nodes 6 1

inside-IsValid : IsValid inside
inside-IsValid = two_nodes-IsValid 1 0 (omega arith) (omega arith) (omega arith)

ended-IsValid : IsValid ended
ended-IsValid = two_nodes-IsValid 6 1 (omega arith) (omega arith) (omega arith)

-- A full node, and the position before its last byte, or behind it.
abbrev full : ℕ → ℕ → ByteArray
full position cur = record {
  machine = machine;
  base_size = 4;
  position = position;
  capacity = 4;
  size = 4;
  endian = Endian.big;
  nodes = (1 ∷ 2 ∷ 3 ∷ 4 ∷ []) ∷ [];
  cur = cur;
}

full-IsValid : (p c : ℕ) → p ≤ 4 → c * 4 ≤ p → p < c * 4 + 4 → IsValid (full p c)
full-IsValid p c within lo hi = record {
  pos_base = omega arith;
  uniform = (refl, tt);
  counted = omega arith;
  rooted = omega arith;
  fits = omega arith;
  within = within;
  from_cur = lo;
  to_cur = hi;
}

abbrev text : List ℕ
text = 104 ∷ 101 ∷ 106 ∷ []

write-Written_example : Written inside text (write text inside)
write-Written_example = write-Written text inside inside-IsValid

read-Taken_example : Taken inside 4 (read 4 inside)
read-Taken_example = read-Taken 4 inside inside-IsValid (omega arith) (omega arith)

set_position-Moved_example : Moved inside 7 (set_position 7 inside)
set_position-Moved_example = set_position-Moved 7 inside inside-IsValid (omega arith)

read_fixed-write_fixed_example :
    ((write_fixed 4 258 >> (set_position 6 >> read_fixed 4)) ended).0 ≡ ok 258
read_fixed-write_fixed_example =
    read_fixed-write_fixed 4 258 ended ended-IsValid refl (omega arith) (omega arith)

read_uint64-write_uint64_example :
    ((write_uint64 300 >> (set_position 6 >> read_uint64)) ended).0 ≡ ok 300
read_uint64-write_uint64_example =
    read_uint64-write_uint64 300 ended (omega arith) ended-IsValid refl

read_string_vint-write_string_vint_example :
    ((write_string_vint text >> (set_position 6 >> read_string_vint)) ended).0 ≡ ok text
read_string_vint-write_string_vint_example =
    read_string_vint-write_string_vint text ended ended-IsValid refl (omega arith) (omega arith)

get_read_buffers_lem_example :
    (vs : List Iovec) × (get_read_buffers 4 inside ≡ (4, ok vs))
    × (gather inside.nodes vs ≡ 2 ∷ 3 ∷ 4 ∷ 5 ∷ [])
get_read_buffers_lem_example = get_read_buffers_lem 4 inside inside-IsValid

read_from_file-write_to_file_example :
    (file : List ℕ) × (write_to_file true (two_nodes 4 1) ≡ ok (some file))
    × ((read_from_file (some file) (byte_array machine 3)).0 ≡ ok true)
    × (contents (read_from_file (some file) (byte_array machine 3)).1 ≡ 5 ∷ 6 ∷ [])
read_from_file-write_to_file_example =
    read_from_file-write_to_file (two_nodes 4 1) machine 3
      (two_nodes-IsValid 4 1 (omega arith) (omega arith) (omega arith)) refl (omega arith)
