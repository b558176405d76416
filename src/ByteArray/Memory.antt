-- ===== src/ByteArray/Memory.antt =====
-- The operations of yk/bytearray.cc that move bytes: capacity, the position, `write` and `read`.
use yk_server.Base.{
  ℕ, zero, suc, ◌+◌, ◌-◌, ◌*◌, ◌/◌, ◌%◌, Bool, true, false, List, [], ◌∷◌, ◌++◌, if◌then◌else◌, ltb,
  leb, ◌==◌, length, take, drop, set, splice, slice, replicate, Option, none, some,
}
use yk_server.ByteArray.State.{
  Machine, ByteArray, Endian, Outcome, Action, ok, out_of_range, undefined, stuck, sub_size, deref,
}

-- `ByteArray::Node::Node(size_t)`
abbrev pub new_node : Machine → ℕ → List ℕ
new_node m s = replicate s m.fresh

-- `ByteArray::ByteArray`
unfoldable pub byte_array : Machine → ℕ → ByteArray
byte_array m base_size = record {
  machine = m;
  base_size = base_size;
  position = 0;
  capacity = base_size;
  size = 0;
  endian = Endian.big;
  nodes = new_node m base_size ∷ [];
  cur = 0;
}

unfoldable pub is_little_endian : ByteArray → Bool
is_little_endian s = elim s.endian [ Endian.little ↦ true | Endian.big ↦ false ]

unfoldable pub set_is_little_endian : Bool → ByteArray → ByteArray
set_is_little_endian val s = record s { endian = if val then Endian.little else Endian.big }

abbrev pub get_read_size : ByteArray → ℕ
get_read_size s = sub_size s.size s.position

abbrev pub get_capacity : ByteArray → ℕ
get_capacity s = sub_size s.capacity s.position

abbrev pub first_node : List (List ℕ) → List (List ℕ)
first_node [] = []
first_node (m ∷ ms) = m ∷ []

-- Every node behind the root is freed.
unfoldable pub clear : ByteArray → ByteArray
clear s = record s {
  position = 0;
  size = 0;
  capacity = s.base_size;
  cur = 0;
  nodes = first_node s.nodes;
}

-- `ceil(1.0 * size / m_baseSize)`, which the double computes exactly for sizes below 2 ^ 52.
abbrev pub node_count : ℕ → ℕ → ℕ
node_count size base_size = (size + base_size - 1) / base_size

-- New nodes are linked behind the last one. With no room left `m_cur` was null.
unfoldable pub add_capacity : ℕ → ByteArray → ByteArray
add_capacity size s =
    let old_cap = get_capacity s in
    let count = node_count (size - old_cap) s.base_size in
    if size == 0 then s else if leb size old_cap then s else record s {
      nodes = s.nodes ++ replicate count (new_node s.machine s.base_size);
      capacity = s.capacity + count * s.base_size;
      cur = if old_cap == 0 then length s.nodes else s.cur;
    }

-- The loop of `write`: `buf` is what is still to be copied.
unfoldable pub write_loop : ℕ → List ℕ → ℕ → ℕ → Action (Unit {0})
write_loop zero buf npos ncap s = if length buf == 0 then (ok tt, s) else (stuck, s)
write_loop (suc fuel) buf npos ncap s =
    if length buf == 0 then (ok tt, s) else elim (deref s s.cur) [
      | none ↦ (undefined, s)
      | some block ↦
          if leb (length buf) ncap
          then (
            ok tt,
            record s {
              nodes = set s.nodes s.cur (splice block npos buf);
              cur = if length block == npos + length buf then s.cur + 1 else s.cur;
              position = s.position + length buf;
            },
          )
          else let s' = record s {
            nodes = set s.nodes s.cur (splice block npos (take ncap buf));
            cur = s.cur + 1;
            position = s.position + ncap;
          } in
            elim (deref s' s'.cur) [
              | none ↦ (undefined, s')
              | some next ↦ write_loop fuel (drop ncap buf) 0 (length next) s'
            ]
    ]

abbrev pub grow_size : Outcome (Unit {0}) × ByteArray → Outcome (Unit {0}) × ByteArray
grow_size (ok u, s) =
    (ok u, record s { size = if ltb s.size s.position then s.position else s.size })
grow_size (out_of_range, s) = (out_of_range, s)
grow_size (undefined, s) = (undefined, s)
grow_size (stuck, s) = (stuck, s)

-- `write(const void*, size_t)`. Each round but the last copies a byte at least.
unfoldable pub write : List ℕ → Action (Unit {0})
unfolding add_capacity
write buf s =
    if length buf == 0
    then (ok tt, s)
    else let s' = add_capacity (length buf) s in
      let npos = s'.position % s'.base_size in
      elim (deref s' s'.cur) [
        | none ↦ (undefined, s')
        | some block ↦
            grow_size (write_loop (length buf) buf npos (sub_size (length block) npos) s')
      ]

-- The loop of `read`: `out` is what has been copied to the caller's buffer.
unfoldable pub read_loop : ℕ → ℕ → ℕ → ℕ → List ℕ → Action (List ℕ)
read_loop zero size npos ncap out s = if size == 0 then (ok out, s) else (stuck, s)
read_loop (suc fuel) size npos ncap out s =
    if size == 0 then (ok out, s) else elim (deref s s.cur) [
      | none ↦ (undefined, s)
      | some block ↦
          if leb size ncap
          then (
            ok (out ++ slice block npos size),
            record s {
              cur = if length block == npos + size then s.cur + 1 else s.cur;
              position = s.position + size;
            },
          )
          else let s' = record s { cur = s.cur + 1; position = s.position + ncap } in
            elim (deref s' s'.cur) [
              | none ↦ (undefined, s')
              | some next ↦
                  read_loop fuel (size - ncap) 0 (length next) (out ++ slice block npos ncap) s'
            ]
    ]

-- `read(void*, size_t)`. A read of nothing at the end looks at the size of a null node.
unfoldable pub read : ℕ → Action (List ℕ)
read size s =
    let npos = s.position % s.base_size in
    if ltb (get_read_size s) size then (out_of_range, s) else elim (deref s s.cur) [
      | none ↦ (undefined, s)
      | some block ↦ read_loop size size npos (sub_size (length block) npos) [] s
    ]

-- `read(void*, size_t, size_t) const`: it starts in the node of `m_cur`, whatever the position is,
-- and leaves the object alone.
unfoldable pub read_at : ℕ → ℕ → ByteArray → Outcome (List ℕ)
unfolding read_loop
read_at size position s =
    let npos = position % s.base_size in
    if ltb (sub_size s.size position) size then out_of_range else elim (deref s s.cur) [
      | none ↦ undefined
      | some block ↦ (read_loop size size npos (sub_size (length block) npos) [] s).0
    ]

-- The walk of `setPosition` from the root; `p` points to the node at hand.
unfoldable pub seek : List (List ℕ) → ℕ → ℕ → Option ℕ
seek [] v p = none
seek (block ∷ rest) v p =
    if ltb (length block) v
    then seek rest (v - length block) (p + 1)
    else some (if v == length block then p + 1 else p)

unfoldable pub set_position : ℕ → Action (Unit {0})
unfolding seek
set_position v s =
    if ltb s.capacity v
    then (out_of_range, s)
    else let s' = record s { position = v; size = if ltb s.size v then v else s.size } in
      elim (seek s.nodes v 0) [ none ↦ (undefined, s') | some p ↦ (ok tt, record s' { cur = p }) ]
