-- ===== src/ByteArray/Export.antt =====
-- What yk/bytearray.cc passes to the system: iovec arrays, files, strings.
use yk_server.Base.{
  ℕ, zero, suc, ◌+◌, ◌-◌, ◌/◌, ◌%◌, Bool, true, false, List, [], ◌∷◌, ◌++◌, if◌then◌else◌, ltb, leb,
  ◌==◌, length, take, drop, slice, Option, none, some, get_elem?, ◌&&◌,
}
use yk_server.ByteArray.State.{
  ByteArray, Outcome, Action, ok, out_of_range, undefined, stuck, sub_size, ◌>>◌, pure,
}
use yk_server.ByteArray.Memory.{get_read_size, add_capacity, write, read_at}

-- A run of bytes in the block of a node.
pub record Iovec : Type 0 where
  pub node : ℕ
  pub offset : ℕ
  pub len : ℕ

abbrev pub push_front : Iovec → Outcome (List Iovec) → Outcome (List Iovec)
push_front v (ok vs) = ok (v ∷ vs)
push_front v out_of_range = out_of_range
push_front v undefined = undefined
push_front v stuck = stuck

-- The loop that the three functions below share, on `len` bytes from offset `npos` of node `p`.
unfoldable pub collect : ℕ → List (List ℕ) → ℕ → ℕ → ℕ → ℕ → Outcome (List Iovec)
collect zero nodes p npos ncap len = if len == 0 then ok [] else stuck
collect (suc fuel) nodes p npos ncap len =
    let rest : Outcome (List Iovec) = elim (get_elem? nodes (p + 1)) [
      | none ↦ undefined
      | some next ↦
          push_front (record { node = p; offset = npos; len = ncap })
            (collect fuel nodes (p + 1) 0 (length next) (len - ncap))
    ] in
    if len == 0
    then ok []
    else if leb len ncap
    then ok (record { node = p; offset = npos; len = len } ∷ [])
    else rest

abbrev pub collect_from : List (List ℕ) → ℕ → ℕ → ℕ → Outcome (List Iovec)
collect_from nodes p npos len = elim (get_elem? nodes p) [
  | none ↦ undefined
  | some block ↦ collect len nodes p npos (sub_size (length block) npos) len
]

abbrev pub readable_part : ℕ → ByteArray → ℕ
readable_part len s = if ltb (get_read_size s) len then get_read_size s else len

-- `getReadBuffers(buffers, len)`: the count that it returns, and what it adds to `buffers`.
unfoldable pub get_read_buffers : ℕ → ByteArray → ℕ × Outcome (List Iovec)
unfolding collect
get_read_buffers len s =
    let size = readable_part len s in
    if size == 0
    then (0, ok [])
    else (size, collect_from s.nodes s.cur (s.position % s.base_size) size)

-- `getReadBuffers(buffers, len, position)`: it walks from the root to the node of the position.
unfoldable pub get_read_buffers_at : ℕ → ℕ → ByteArray → ℕ × Outcome (List Iovec)
unfolding collect
get_read_buffers_at len position s =
    let size = readable_part len s in
    if size == 0
    then (0, ok [])
    else (size, collect_from s.nodes (position / s.base_size) (position % s.base_size) size)

-- `getWriteBuffers(buffers, len)`; the array grows first.
unfoldable pub get_write_buffers : ℕ → ByteArray → (ℕ × Outcome (List Iovec)) × ByteArray
unfolding collect
get_write_buffers len s =
    let t = add_capacity len s in
    if len == 0
    then ((0, ok []), s)
    else ((len, collect_from t.nodes t.cur (t.position % t.base_size) len), t)

-- The loop of `writeToFile`; the value is what reaches the file. `int64_t len` is negative where
-- the offset in the node is larger than what the round takes.
unfoldable pub write_file_loop : ℕ → List (List ℕ) → ℕ → ℕ → ℕ → ℕ → List ℕ → Outcome (List ℕ)
write_file_loop zero nodes base_size read_size pos p out = if read_size == 0 then ok out else stuck
write_file_loop (suc fuel) nodes base_size read_size pos p out =
    let diff = pos % base_size in
    let most = if ltb base_size read_size then base_size else read_size in
    let len = most - diff in
    let rest : Outcome (List ℕ) = elim (get_elem? nodes p) [
      | none ↦ undefined
      | some block ↦
          write_file_loop fuel nodes base_size (read_size - len) (pos + len) (p + 1)
            (out ++ slice block diff len)
    ] in
    if read_size == 0 then ok out else if ltb most diff then undefined else rest

-- `writeToFile` with the file open; a file that does not open is `none`, and the call says false.
unfoldable pub write_to_file : Bool → ByteArray → Outcome (Option (List ℕ))
unfolding write_file_loop
write_to_file false s = ok none
write_to_file true s =
    elim (write_file_loop (suc (length s.nodes)) s.nodes s.base_size (get_read_size s) s.position
      s.cur []) [
        | ok bytes ↦ ok (some bytes)
        | out_of_range ↦ out_of_range
        | undefined ↦ undefined
        | stuck ↦ stuck
      ]

-- The loop of `readFromFile` on what is left of the file: `read` meets the end where less than a
-- whole buffer is left.
unfoldable pub read_file_loop : ℕ → List ℕ → Action (Unit {0})
read_file_loop zero file s = (stuck, s)
read_file_loop (suc fuel) file s =
    let more = (write (take s.base_size file) >> read_file_loop fuel (drop s.base_size file)) s in
    if ltb (length file) s.base_size then write file s else more

unfoldable pub read_from_file : Option (List ℕ) → Action Bool
read_from_file none s = (ok false, s)
read_from_file (some file) s = (read_file_loop (length file + 1) file >> pure true) s

-- `toString`
unfoldable pub to_string : ByteArray → Outcome (List ℕ)
unfolding read_at
to_string s = if get_read_size s == 0 then ok [] else read_at (get_read_size s) s.position s

abbrev hex_digit : ℕ → ℕ
hex_digit d = if ltb d 10 then d + b'0' else d - 10 + b'a'

-- The loop of `toHexString`, at index `i`: two digits and a space for each byte, in lines of 32.
unfoldable pub hex_from : ℕ → List ℕ → List ℕ
hex_from i [] = []
hex_from i (c ∷ str) =
    let rest = hex_digit (c / 16) ∷ hex_digit (c % 16) ∷ b' ' ∷ hex_from (i + 1) str in
    if ltb 0 i && i % 32 == 0 then b'\n' ∷ rest else rest

unfoldable pub to_hex_string : ByteArray → Outcome (List ℕ)
unfolding hex_from to_string
to_hex_string s = elim (to_string s) [
  | ok str ↦ ok (hex_from 0 str)
  | out_of_range ↦ out_of_range
  | undefined ↦ undefined
  | stuck ↦ stuck
]
