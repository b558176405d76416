-- ===== src/ByteArray/ReadLoop.antt =====
-- The loop of `ByteArray::read` returns the bytes of the memory from the position on.
use yk_server.Base.{
  ℕ, zero, suc, ◌+◌, ◌-◌, ◌*◌, ◌≤◌, ◌<◌, ◌≡◌, refl, sym, ap, ◌∙◌, List, ◌++◌, length, slice, some,
  arith, inl, inr, lt_or_le, if◌then◌else◌, ◌==◌, get_elem?, append_assoc, append-nil,
}
use yk_server.Base.Blocks.{IsUniform, get_elem?-below, get_elem?-length, slice-block, slice_plus}
use yk_server.ByteArray.State.{ByteArray, Outcome, ok, deref, memory}
use yk_server.ByteArray.Memory.{read_loop}
use yk_server.ByteArray.Layout.{mul-lt-mul_cancel, cur_after}
use native.Mathlib.Nat.{sub-zero}

-- What a run of the loop has done that began at `s`, with `out` copied before.
pub record WasRead (s : ByteArray) (size : ℕ) (out : List ℕ) (r : Outcome (List ℕ) × ByteArray)
    : Type 0 where
  pub bytes : r.0 ≡ ok (out ++ slice (memory s) s.position size)
  pub position : r.1.position ≡ s.position + size
  pub from_cur : r.1.cur * s.base_size ≤ r.1.position
  pub to_cur : r.1.position < r.1.cur * s.base_size + s.base_size
  pub others : r.1 ≡ record s { cur = r.1.cur; position = r.1.position }

module _ (fuel npos ncap size : ℕ) (out : List ℕ) (s : ByteArray) {block : List ℕ}
    (here : deref s s.cur ≡ some block) (more : 0 < size) where
  read_loop_last :
      size ≤ ncap
      → read_loop (suc fuel) size npos ncap out s ≡ (
        ok (out ++ slice block npos size),
        record s {
          cur = if length block == npos + size then s.cur + 1 else s.cur;
          position = s.position + size;
        },
      )
  unfolding read_loop
  read_loop_last h = ground arith

  read_loop_next :
      {next : List ℕ}
      → ncap < size
      → get_elem? s.nodes (s.cur + 1) ≡ some next
      → read_loop (suc fuel) size npos ncap out s
        ≡ read_loop fuel
            (size - ncap)
            0
            (length next)
            (out ++ slice block npos ncap)
            (record s { cur = s.cur + 1; position = s.position + ncap })
  unfolding read_loop
  read_loop_next h next = ground arith

read_loop-zero :
    (fuel npos ncap : ℕ) (out : List ℕ) (s : ByteArray)
    → read_loop fuel 0 npos ncap out s ≡ (ok out, s)
unfolding read_loop
read_loop-zero zero npos ncap out s = refl
read_loop-zero (suc fuel) npos ncap out s = refl

module _ (fuel npos size : ℕ) (out : List ℕ) (s : ByteArray) {block : List ℕ}
    (here : deref s s.cur ≡ some block) (uniform : IsUniform s.base_size s.nodes)
    (located : s.position ≡ s.cur * s.base_size + npos) where
  block-length : length block ≡ s.base_size
  block-length = get_elem?-length s.base_size s.nodes s.cur uniform here

  block-memory :
      (n : ℕ) → npos + n ≤ s.base_size → slice block npos n ≡ slice (memory s) s.position n
  block-memory n h = rw located (slice-block s.base_size s.nodes s.cur npos n uniform here h)

  read_last-WasRead :
      0 < size
      → size ≤ s.base_size - npos
      → npos < s.base_size
      → WasRead s size out (read_loop (suc fuel) size npos (s.base_size - npos) out s)
  read_last-WasRead more fits inside =
      let end : ℕ = npos + size in
      let bounds =
        cur_after (length block) end s.cur s.base_size (s.position + size) block-length
          (omega arith) (omega arith) (omega arith) in
      rw (read_loop_last fuel npos (s.base_size - npos) size out s here more fits) (record {
        bytes = ap (λ t. ok (out ++ t)) (block-memory size (omega arith));
        position = refl;
        from_cur = bounds.0;
        to_cur = bounds.1;
        others = refl;
      })

  -- A round that uses the node up, and what the later rounds have done.
  join-WasRead :
      (r : Outcome (List ℕ) × ByteArray) (ncap : ℕ)
      → ncap ≡ s.base_size - npos
      → npos < s.base_size
      → ncap < size
      → WasRead
          (record s { cur = s.cur + 1; position = s.position + ncap })
          (size - ncap)
          (out ++ slice block npos ncap)
          r
      → WasRead s size out r
  join-WasRead r ncap room inside over w = record {
    bytes =
        w.bytes
        ∙ ap ok (
            append_assoc out (slice block npos ncap)
              (slice (memory s) (s.position + ncap) (size - ncap))
            ∙ ap (λ t. out ++ t) joined);
    position = omega (arith, w.position);
    from_cur = w.from_cur;
    to_cur = w.to_cur;
    others = w.others;
  }
    where
      whole : ncap + (size - ncap) ≡ size
      whole = omega arith

      joined :
          slice block npos ncap ++ slice (memory s) (s.position + ncap) (size - ncap)
          ≡ slice (memory s) s.position size
      joined =
          ap (λ t. t ++ slice (memory s) (s.position + ncap) (size - ncap))
            (block-memory ncap (omega arith))
          ∙ slice_plus (memory s) s.position ncap (size - ncap)
          ∙ ap (λ t. slice (memory s) s.position t) whole

-- The loop reads `size` bytes when the chain holds them.
pub read_loop-WasRead :
    (fuel npos size : ℕ) (out : List ℕ) (s : ByteArray)
    → IsUniform s.base_size s.nodes
    → s.position ≡ s.cur * s.base_size + npos
    → npos < s.base_size
    → s.position + size ≤ length s.nodes * s.base_size
    → size ≤ fuel
    → WasRead s size out (read_loop fuel size npos (s.base_size - npos) out s)
read_loop-WasRead fuel npos zero out s uniform located inside room enough =
    rw (read_loop-zero fuel npos (s.base_size - npos) out s) (record {
      bytes = ap ok (sym (append-nil out));
      position = omega arith;
      from_cur = omega arith;
      to_cur = omega arith;
      others = refl;
    })
read_loop-WasRead zero npos (suc size) out s uniform located inside room enough =
    absurd (omega arith)
read_loop-WasRead (suc fuel) npos (suc size) out s uniform located inside room enough =
    let below : s.cur < length s.nodes =
      mul-lt-mul_cancel s.cur (length s.nodes) s.base_size (omega arith) in
    let (block, here) = get_elem?-below s.nodes s.cur below in
    elim (lt_or_le (s.base_size - npos) (suc size)) [
      | inl over ↦
          let ncap : ℕ = s.base_size - npos in
          let below' : s.cur + 1 < length s.nodes =
            mul-lt-mul_cancel (s.cur + 1) (length s.nodes) s.base_size (omega arith) in
          let (next, there) = get_elem?-below s.nodes (s.cur + 1) below' in
          let ih =
            read_loop-WasRead fuel 0 (suc size - ncap) (out ++ slice block npos ncap)
              (record s { cur = s.cur + 1; position = s.position + ncap }) uniform (omega arith)
              (omega arith) (omega arith) (omega arith) in
          rw
            (
              read_loop_next fuel npos ncap (suc size) out s here (omega arith) over there,
              get_elem?-length s.base_size s.nodes (s.cur + 1) uniform there,
            )
            (join-WasRead fuel npos (suc size) out s here uniform located _ ncap refl inside over
              (rw sub-zero at ih))
      | inr fits ↦
          read_last-WasRead fuel npos (suc size) out s here uniform located (omega arith) fits
            inside
    ]
