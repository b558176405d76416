-- ===== src/ByteArray/Contents.antt =====
-- What a `ByteArray` holds, as its users see it: its bytes up to `m_size` and, of these, the ones
-- from the position on. Growing the chain changes neither.
use yk_server.Base.{
  ℕ, ◌+◌, ◌-◌, ◌*◌, ◌≤◌, ◌<◌, ◌≡◌, refl, sym, ◌∙◌, List, [], ◌++◌, append-nil, length, take, drop,
  arith, inl, inr, lt_or_le, replicate, length-replicate, length-append, flat,
}
use yk_server.Base.Blocks.{
  IsUniform, flat-append, append-IsUniform, replicate-IsUniform, length-flat,
}
use yk_server.ByteArray.State.{ByteArray, memory}
use yk_server.ByteArray.Memory.{add_capacity, new_node, node_count}
use yk_server.ByteArray.Layout.{IsValid, mul-lt-mul_cancel}

-- The bytes of the array.
abbrev pub contents : ByteArray → List ℕ
contents s = take s.size (memory s)

-- The bytes that `read` has not reached.
abbrev pub unread : ByteArray → List ℕ
unread s = drop s.position (contents s)

pub memory-length : (s : ByteArray) → IsValid s → length (memory s) ≡ s.capacity
memory-length s v = length-flat s.base_size s.nodes v.uniform ∙ sym v.counted

node_count-enough : (n b : ℕ) → 0 < b → n ≤ node_count n b * b
node_count-enough n b h = grind arith

-- `add_capacity` makes room for `n` bytes behind the position and keeps the bytes.
pub record Grown (n : ℕ) (s s' : ByteArray) : Type 0 where
  pub valid : IsValid s'
  pub room : s.position + n ≤ s'.capacity
  pub extended : (more : List ℕ) × (memory s' ≡ memory s ++ more)
  pub others : s' ≡ record s { nodes = s'.nodes; capacity = s'.capacity }

module _ (n : ℕ) (s : ByteArray) (v : IsValid s) where
  abbrev new_nodes : List (List ℕ)
  new_nodes =
      replicate (node_count (n - (s.capacity - s.position)) s.base_size)
        (new_node s.machine s.base_size)

  add_capacity_enough : n ≤ s.capacity - s.position → add_capacity n s ≡ s
  unfolding add_capacity
  add_capacity_enough h = ground (arith, v.within, v.fits)

  -- Where the chain is full, `cur` already was the index behind the last node.
  cur_at_end : s.capacity ≡ s.position → length s.nodes ≡ s.cur
  cur_at_end full =
      let at_most =
        mul-lt-mul_cancel (length s.nodes) (s.cur + 1) s.base_size
          (omega (arith, v.counted, v.to_cur)) in
      let at_least =
        mul-lt-mul_cancel s.cur (length s.nodes + 1) s.base_size
          (omega (arith, v.counted, v.from_cur, v.pos_base)) in
      omega arith

  add_capacity_more :
      s.capacity - s.position < n
      → add_capacity n s ≡ record s {
        nodes = s.nodes ++ new_nodes;
        capacity =
            s.capacity + node_count (n - (s.capacity - s.position)) s.base_size * s.base_size;
      }
  unfolding add_capacity
  add_capacity_more h = ground (arith, v.within, v.fits, cur_at_end)

  -- On a valid array, `addCapacity` makes room for `n` bytes behind the position, keeps all bytes and
  -- changes nothing but the chain and the capacity.
  pub add_capacity-Grown : Grown n s (add_capacity n s)
  add_capacity-Grown = elim (lt_or_le (s.capacity - s.position) n) [
    | inl short ↦ rw (add_capacity_more short) (record {
      valid = record {
        pos_base = v.pos_base;
        uniform = append-IsUniform s.base_size s.nodes new_nodes v.uniform new_nodes-IsUniform;
        counted = counted';
        rooted = omega (arith, v.rooted, length-append s.nodes new_nodes);
        fits = omega (arith, v.fits);
        within = v.within;
        from_cur = v.from_cur;
        to_cur = v.to_cur;
      };
      room = omega (
        arith,
        v.within,
        v.fits,
        node_count-enough (n - (s.capacity - s.position)) s.base_size v.pos_base,
      );
      extended = (flat new_nodes, flat-append s.nodes new_nodes);
      others = refl;
    })
    | inr enough ↦ rw (add_capacity_enough enough) (record {
      valid = v;
      room = omega (arith, v.within, v.fits);
      extended = ([], sym (append-nil (memory s)));
      others = refl;
    })
  ]
    where
      new_nodes-IsUniform : IsUniform s.base_size new_nodes
      new_nodes-IsUniform =
          replicate-IsUniform s.base_size (node_count (n - (s.capacity - s.position)) s.base_size)
            (new_node s.machine s.base_size) (length-replicate s.base_size s.machine.fresh)

      counted' :
          s.capacity + node_count (n - (s.capacity - s.position)) s.base_size * s.base_size
          ≡ length (s.nodes ++ new_nodes) * s.base_size
      counted' =
          rw
            (
              length-append s.nodes new_nodes,
              length-replicate (node_count (n - (s.capacity - s.position)) s.base_size)
                  (new_node s.machine s.base_size),
            )
            (omega (arith, v.counted))
