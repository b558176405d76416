-- ===== src/ByteArray/WriteLoop.antt =====
-- The loop of `ByteArray::write` copies its buffer to the memory of the chain, from the position on.
use yk_server.Base.{
  ℕ, zero, suc, ◌+◌, ◌-◌, ◌*◌, ◌≤◌, ◌<◌, ◌≡◌, refl, sym, ap, ◌∙◌, List, [], ◌∷◌, length, take, drop,
  set, splice, some, arith, inl, inr, lt_or_le, if◌then◌else◌, ◌==◌, get_elem?, length-set,
  length-splice, length-take, length-drop, splice-nil, take-append-drop,
}
use yk_server.Base.Blocks.{
  IsUniform, get_elem?-below, get_elem?-length, set-IsUniform, flat-set, splice-splice,
}
use yk_server.ByteArray.State.{ByteArray, Outcome, ok, deref, memory}
use yk_server.ByteArray.Memory.{write_loop}
use yk_server.ByteArray.Layout.{mul-lt-mul_cancel, cur_after}
use native.Mathlib.Nat.{sub-zero}

module _ (fuel : ℕ) (npos ncap : ℕ) (buf : List ℕ) (s : ByteArray) {block : List ℕ}
    (here : deref s s.cur ≡ some block) (more : 0 < length buf) where
  pub write_loop_last :
      length buf ≤ ncap
      → write_loop (suc fuel) buf npos ncap s ≡ (
        ok tt,
        record s {
          nodes = set s.nodes s.cur (splice block npos buf);
          cur = if length block == npos + length buf then s.cur + 1 else s.cur;
          position = s.position + length buf;
        },
      )
  unfolding write_loop
  write_loop_last h = ground arith

  pub write_loop_next :
      {next : List ℕ}
      → ncap < length buf
      → get_elem? (set s.nodes s.cur (splice block npos (take ncap buf))) (s.cur + 1) ≡ some next
      → write_loop (suc fuel) buf npos ncap s
        ≡ write_loop fuel (drop ncap buf) 0 (length next) (record s {
          nodes = set s.nodes s.cur (splice block npos (take ncap buf));
          cur = s.cur + 1;
          position = s.position + ncap;
        })
  unfolding write_loop
  write_loop_next h next = ground arith

-- What a run of the loop has done when it began at `s`.
pub record Wrote (s : ByteArray) (buf : List ℕ) (r : Outcome (Unit {0}) × ByteArray) : Type 0 where
  pub done : r.0 ≡ ok tt
  pub position : r.1.position ≡ s.position + length buf
  pub copied : memory r.1 ≡ splice (memory s) s.position buf
  pub uniform : IsUniform s.base_size r.1.nodes
  pub chain : length r.1.nodes ≡ length s.nodes
  pub from_cur : r.1.cur * s.base_size ≤ r.1.position
  pub to_cur : r.1.position < r.1.cur * s.base_size + s.base_size
  pub others : r.1 ≡ record s { nodes = r.1.nodes; cur = r.1.cur; position = r.1.position }

module _ (fuel : ℕ) (npos : ℕ) (buf : List ℕ) (s : ByteArray) {block : List ℕ}
    (uniform : IsUniform s.base_size s.nodes) (here : deref s s.cur ≡ some block)
    (located : s.position ≡ s.cur * s.base_size + npos) (more : 0 < length buf) where
  write_last-Wrote :
      length buf ≤ s.base_size - npos
      → npos < s.base_size
      → Wrote s buf (write_loop (suc fuel) buf npos (s.base_size - npos) s)
  write_last-Wrote fits inside =
      rw (write_loop_last fuel npos (s.base_size - npos) buf s here more fits) (record {
        done = refl;
        position = refl;
        copied =
            rw located (flat-set s.base_size s.nodes s.cur npos buf uniform here (omega arith));
        uniform =
            set-IsUniform s.base_size s.nodes s.cur (splice block npos buf) uniform
              (length-splice block npos buf ∙ size);
        chain = length-set s.nodes s.cur (splice block npos buf);
        from_cur = bounds.0;
        to_cur = bounds.1;
        others = refl;
      })
    where
      size : length block ≡ s.base_size
      size = get_elem?-length s.base_size s.nodes s.cur uniform here

      bounds :
          let c : ℕ = if length block == npos + length buf then s.cur + 1 else s.cur in
          (c * s.base_size ≤ s.position + length buf)
          × (s.position + length buf < c * s.base_size + s.base_size)
      bounds =
          cur_after (length block) (npos + length buf) s.cur s.base_size (s.position + length buf)
            size (omega arith) (omega arith) (omega arith)

-- One round that fills the node at hand, and what the later rounds have done.
module _ (fuel : ℕ) (npos : ℕ) (buf : List ℕ) (s : ByteArray) {block : List ℕ}
    (here : deref s s.cur ≡ some block) (uniform : IsUniform s.base_size s.nodes)
    (located : s.position ≡ s.cur * s.base_size + npos) (inside : npos < s.base_size)
    (over : s.base_size - npos < length buf) where
  abbrev chunk : List ℕ
  chunk = take (s.base_size - npos) buf

  abbrev after_round : ByteArray
  after_round = record s {
    nodes = set s.nodes s.cur (splice block npos chunk);
    cur = s.cur + 1;
    position = s.position + (s.base_size - npos);
  }

  block-length : length block ≡ s.base_size
  block-length = get_elem?-length s.base_size s.nodes s.cur uniform here

  chunk-length : length chunk ≡ s.base_size - npos
  chunk-length = omega (arith, length-take (s.base_size - npos) buf)

  after_round-IsUniform : IsUniform s.base_size after_round.nodes
  after_round-IsUniform =
      set-IsUniform s.base_size s.nodes s.cur (splice block npos chunk) uniform
        (length-splice block npos chunk ∙ block-length)

  after_round-memory : memory after_round ≡ splice (memory s) s.position chunk
  after_round-memory =
      rw located
        (flat-set s.base_size s.nodes s.cur npos chunk uniform here (omega (arith, chunk-length)))

  join-Wrote :
      (r : Outcome (Unit {0}) × ByteArray)
      → Wrote after_round (drop (s.base_size - npos) buf) r
      → Wrote s buf r
  join-Wrote r w = record {
    done = w.done;
    position = omega (arith, w.position, length-drop (s.base_size - npos) buf);
    copied =
        w.copied
        ∙ ap (λ t. splice t (s.position + (s.base_size - npos)) (drop (s.base_size - npos) buf))
            after_round-memory
        ∙ splice-splice (memory s) s.position (s.position + (s.base_size - npos)) chunk
            (drop (s.base_size - npos) buf) (omega (arith, chunk-length))
        ∙ ap (λ t. splice (memory s) s.position t) (take-append-drop (s.base_size - npos) buf);
    uniform = w.uniform;
    chain = w.chain ∙ length-set s.nodes s.cur (splice block npos chunk);
    from_cur = w.from_cur;
    to_cur = w.to_cur;
    others = w.others;
  }

write_loop-nil : (fuel npos ncap : ℕ) (s : ByteArray) → write_loop fuel [] npos ncap s ≡ (ok tt, s)
unfolding write_loop
write_loop-nil zero npos ncap s = refl
write_loop-nil (suc fuel) npos ncap s = refl

nil-Wrote :
    (npos : ℕ) (s : ByteArray)
    → IsUniform s.base_size s.nodes
    → s.position ≡ s.cur * s.base_size + npos
    → npos < s.base_size
    → Wrote s [] (ok tt, s)
nil-Wrote npos s uniform located inside = record {
  done = refl;
  position = omega arith;
  copied = sym (splice-nil (memory s) s.position);
  uniform = uniform;
  chain = refl;
  from_cur = omega arith;
  to_cur = omega arith;
  others = refl;
}

-- The loop copies the whole buffer when the chain has room for it.
pub write_loop-Wrote :
    (fuel npos : ℕ) (buf : List ℕ) (s : ByteArray)
    → IsUniform s.base_size s.nodes
    → s.position ≡ s.cur * s.base_size + npos
    → npos < s.base_size
    → s.position + length buf ≤ length s.nodes * s.base_size
    → length buf ≤ fuel
    → Wrote s buf (write_loop fuel buf npos (s.base_size - npos) s)
write_loop-Wrote fuel npos [] s uniform located inside room enough =
    rw (write_loop-nil fuel npos (s.base_size - npos) s) (nil-Wrote npos s uniform located inside)
write_loop-Wrote zero npos (x ∷ buf) s uniform located inside room enough = absurd (omega arith)
write_loop-Wrote (suc fuel) npos (x ∷ buf) s uniform located inside room enough =
    let below : s.cur < length s.nodes =
      mul-lt-mul_cancel s.cur (length s.nodes) s.base_size (omega arith) in
    let (block, here) = get_elem?-below s.nodes s.cur below in
    elim (lt_or_le (s.base_size - npos) (length (x ∷ buf))) [
      | inl over ↦
          let ncap : ℕ = s.base_size - npos in
          let s' : ByteArray = after_round fuel npos (x ∷ buf) s here uniform located inside over in
          let uniform' : IsUniform s.base_size s'.nodes =
            after_round-IsUniform fuel npos (x ∷ buf) s here uniform located inside over in
          let size' : length s'.nodes ≡ length s.nodes =
            length-set s.nodes s.cur (splice block npos (take ncap (x ∷ buf))) in
          let below' : s.cur + 1 < length s'.nodes =
            mul-lt-mul_cancel (s.cur + 1) (length s'.nodes) s.base_size (rw size' (omega arith)) in
          let (next, there) = get_elem?-below s'.nodes (s.cur + 1) below' in
          let step = write_loop_next fuel npos ncap (x ∷ buf) s here (omega arith) over there in
          rw (step, get_elem?-length s.base_size s'.nodes (s.cur + 1) uniform' there)
            (join-Wrote fuel npos (x ∷ buf) s here uniform located inside over _ (
              rw sub-zero at (
                write_loop-Wrote fuel 0 (drop ncap (x ∷ buf)) s' uniform' (omega arith)
                  (omega arith) (rw size' (omega (arith, length-drop ncap (x ∷ buf))))
                  (omega (arith, length-drop ncap (x ∷ buf))))))
      | inr fits ↦
          write_last-Wrote fuel npos (x ∷ buf) s uniform here located (omega arith) fits inside
    ]
