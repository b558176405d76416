-- ===== src/ByteArray/Transfer.antt =====
-- `write`, `read` and `setPosition` of yk/bytearray.cc on the contents of the array.
use yk_server.Base.{
  ℕ, ◌+◌, ◌-◌, ◌*◌, ◌%◌, ◌≤◌, ◌<◌, ◌≡◌, refl, ap, ◌∙◌, List, [], ◌∷◌, length, take, arith,
  get_elem?, some, ltb, if◌then◌else◌, take-append_left,
}
use yk_server.Base.Blocks.{get_elem?-below, get_elem?-length}
use yk_server.Base.Splices.{overwrite, overwrite_nothing, take-splice_grown}
use yk_server.ByteArray.State.{ByteArray, Outcome, ok, memory}
use yk_server.ByteArray.Memory.{write, write_loop, add_capacity, grow_size}
use yk_server.ByteArray.Layout.{IsValid, mul-lt-mul_cancel, offset_lem}
use yk_server.ByteArray.WriteLoop.{Wrote, write_loop-Wrote}
use yk_server.ByteArray.Contents.{contents, memory-length, Grown, add_capacity-Grown}

-- What a call of `write` did.
pub record Written (s : ByteArray) (buf : List ℕ) (r : Outcome (Unit {0}) × ByteArray)
    : Type 0 where
  pub done : r.0 ≡ ok tt
  pub valid : IsValid r.1
  pub bytes : contents r.1 ≡ overwrite (contents s) s.position buf
  pub position : r.1.position ≡ s.position + length buf
  pub endian : r.1.endian ≡ s.endian
  pub base_size : r.1.base_size ≡ s.base_size
  pub machine : r.1.machine ≡ s.machine

write-grown :
    (buf : List ℕ) (s s' : ByteArray) (npos : ℕ) {block : List ℕ}
    → 0 < length buf
    → add_capacity (length buf) s ≡ s'
    → get_elem? s'.nodes s'.cur ≡ some block
    → length block ≡ s'.base_size
    → s'.position % s'.base_size ≡ npos
    → npos < s'.base_size
    → write buf s ≡ grow_size (write_loop (length buf) buf npos (s'.base_size - npos) s')
unfolding write
write-grown buf s s' npos more grown here size offset inside = ground arith

-- What the loop did from a grown array `t`, with the size brought up to date.
module _ (buf : List ℕ) (s t u : ByteArray) (v : IsValid s) (g : Grown (length buf) s t)
    (w : Wrote t buf (ok tt, u)) where
  abbrev grown_size : ℕ
  grown_size = if ltb u.size u.position then u.position else u.size

  same_position : t.position ≡ s.position
  same_position = ap (λ (x : ByteArray). x.position) g.others

  same_size : u.size ≡ s.size
  same_size = ap (λ (x : ByteArray). x.size) w.others ∙ ap (λ (x : ByteArray). x.size) g.others

  end_position : u.position ≡ s.position + length buf
  end_position = omega (arith, w.position, same_position)

  same_base : u.base_size ≡ t.base_size
  same_base = ap (λ (x : ByteArray). x.base_size) w.others

  same_capacity : u.capacity ≡ t.capacity
  same_capacity = ap (λ (x : ByteArray). x.capacity) w.others

  grown_contents : take s.size (memory t) ≡ contents s
  grown_contents =
      ap (λ b. take s.size b) g.extended.1
      ∙ take-append_left s.size (memory s) g.extended.0 (omega (arith, memory-length s v, v.fits))

  write-bytes : take grown_size (memory u) ≡ overwrite (contents s) s.position buf
  write-bytes =
      ap (λ b. take grown_size b) w.copied
      ∙ rw same_position (
          take-splice_grown (memory t) s.size grown_size s.position buf v.within
            (omega (arith, memory-length t g.valid, g.room))
            (ground (arith, same_size, end_position)) (ground (arith, same_size, end_position))
            (ground (arith, same_size, end_position)))
      ∙ ap (λ b. overwrite b s.position buf) grown_contents

  finish-IsValid : IsValid (record u { size = grown_size })
  finish-IsValid = record {
    pos_base = rw same_base g.valid.pos_base;
    uniform = rw same_base w.uniform;
    counted = rw (same_base, same_capacity, w.chain) g.valid.counted;
    rooted = rw w.chain g.valid.rooted;
    fits =
        ground (
          arith, same_size, same_capacity, end_position, v.fits, g.room, g.valid.fits, same_t_size,
        );
    within = ground arith;
    from_cur = rw same_base w.from_cur;
    to_cur = rw same_base w.to_cur;
  }
    where
      same_t_size : t.size ≡ s.size
      same_t_size = ap (λ (x : ByteArray). x.size) g.others

  finish-Written : Written s buf (grow_size (ok tt, u))
  finish-Written = record {
    done = refl;
    valid = finish-IsValid;
    bytes = write-bytes;
    position = end_position;
    endian = ap (λ (x : ByteArray). x.endian) w.others ∙ ap (λ (x : ByteArray). x.endian) g.others;
    base_size = same_base ∙ ap (λ (x : ByteArray). x.base_size) g.others;
    machine =
        ap (λ (x : ByteArray). x.machine) w.others ∙ ap (λ (x : ByteArray). x.machine) g.others;
  }

-- The loop begins at the offset of the position in the node of `cur`.
write_loop-Grown :
    (buf : List ℕ) (s t : ByteArray)
    → 0 < length buf
    → IsValid s
    → add_capacity (length buf) s ≡ t
    → Grown (length buf) s t
    → Written s buf (write buf s)
write_loop-Grown buf s t more v grown g =
    let npos : ℕ = t.position % t.base_size in
    let located : t.position ≡ t.cur * t.base_size + npos =
      offset_lem t.position t.cur t.base_size g.valid.from_cur g.valid.to_cur in
    let inside : npos < t.base_size = omega (arith, g.valid.to_cur) in
    let room : t.position + length buf ≤ length t.nodes * t.base_size =
      omega (arith, g.valid.counted, g.room, same) in
    let below : t.cur < length t.nodes =
      mul-lt-mul_cancel t.cur (length t.nodes) t.base_size (omega arith) in
    let (block, here) = get_elem?-below t.nodes t.cur below in
    let size = get_elem?-length t.base_size t.nodes t.cur g.valid.uniform here in
    let w =
      write_loop-Wrote (length buf) npos buf t g.valid.uniform located inside room (omega arith) in
    rw (write-grown buf s t npos more grown here size refl inside)
      (from_loop (write_loop (length buf) buf npos (t.base_size - npos) t) w)
  where
    same : t.position ≡ s.position
    same = ap (λ (x : ByteArray). x.position) g.others

    from_loop : (r : Outcome (Unit {0}) × ByteArray) → Wrote t buf r → Written s buf (grow_size r)
    from_loop (o, u) w =
        let e : o ≡ ok tt = w.done in rw e (finish-Written buf s t u v g (rw e at w))

write-nil : (s : ByteArray) → write [] s ≡ (ok tt, s)
unfolding write
write-nil s = refl

-- On a valid array `write` succeeds: the array grows where it must, the bytes from the position on
-- are the buffer's, all others are as before, and the position stands behind the buffer.
pub write-Written : (buf : List ℕ) (s : ByteArray) → IsValid s → Written s buf (write buf s)
write-Written [] s v = rw (write-nil s) (record {
  done = refl;
  valid = v;
  bytes = overwrite_nothing (contents s) s.position;
  position = omega arith;
  endian = refl;
  base_size = refl;
  machine = refl;
})
write-Written (x ∷ buf) s v =
    write_loop-Grown (x ∷ buf) s (add_capacity (length (x ∷ buf)) s) (omega arith) v refl
      (add_capacity-Grown (length (x ∷ buf)) s v)
