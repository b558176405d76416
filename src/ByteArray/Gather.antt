-- ===== src/ByteArray/Gather.antt =====
-- The iovec arrays of yk/bytearray.cc name just the bytes that they should.
use yk_server.Base.{
  ℕ, zero, suc, ◌+◌, ◌-◌, ◌*◌, ◌/◌, ◌%◌, ◌≤◌, ◌<◌, ◌≡◌, refl, sym, ap, ◌∙◌, List, [], ◌∷◌, ◌++◌,
  length, take, slice, none, some, get_elem?, flat, arith, inl, inr, lt_or_le, min, pos→ne-zero,
  append-nil,
}
use yk_server.Base.Blocks.{IsUniform, get_elem?-below, get_elem?-length, slice-block, slice_plus}
use yk_server.Base.Splices.{slice-take}
use yk_server.ByteArray.State.{ByteArray, Outcome, ok, memory}
use yk_server.ByteArray.Memory.{add_capacity}
use yk_server.ByteArray.Layout.{IsValid, mul-lt-mul_cancel, offset_lem}
use yk_server.ByteArray.Contents.{unread, add_capacity-Grown}
use yk_server.ByteArray.Export.{
  Iovec, collect, collect_from, get_read_buffers, get_write_buffers, get_read_buffers_at,
  readable_part,
}
use native.Mathlib.Nat.{sub-zero, div-add-mod', mod-lt}

abbrev pub block_of : List (List ℕ) → ℕ → List ℕ
block_of nodes p = elim (get_elem? nodes p) [ none ↦ [] | some block ↦ block ]

-- The bytes that an iovec array names, in its order.
abbrev pub gather : List (List ℕ) → List Iovec → List ℕ
gather nodes [] = []
gather nodes (v ∷ vs) = slice (block_of nodes v.node) v.offset v.len ++ gather nodes vs

collect-zero :
    (fuel : ℕ) (nodes : List (List ℕ)) (p npos ncap : ℕ) → collect fuel nodes p npos ncap 0 ≡ ok []
unfolding collect
collect-zero zero nodes p npos ncap = refl
collect-zero (suc fuel) nodes p npos ncap = refl

collect-last :
    (fuel : ℕ) (nodes : List (List ℕ)) (p npos ncap n : ℕ)
    → 0 < n
    → n ≤ ncap
    → collect (suc fuel) nodes p npos ncap n ≡ ok (record { node = p; offset = npos; len = n } ∷ [])
unfolding collect
collect-last fuel nodes p npos ncap n pos fits = ground arith

collect-next :
    (fuel : ℕ) (nodes : List (List ℕ)) (p npos ncap n : ℕ) {next : List ℕ} {vs : List Iovec}
    → ncap < n
    → get_elem? nodes (p + 1) ≡ some next
    → collect fuel nodes (p + 1) 0 (length next) (n - ncap) ≡ ok vs
    → collect (suc fuel) nodes p npos ncap n
      ≡ ok (record { node = p; offset = npos; len = ncap } ∷ vs)
unfolding collect
collect-next fuel nodes p npos ncap n over there rest = ground arith

module _ (b : ℕ) (nodes : List (List ℕ)) (uniform : IsUniform b nodes) where
  -- A run of a block of the chain.
  gather_one :
      (p npos n : ℕ) {block : List ℕ}
      → get_elem? nodes p ≡ some block
      → npos + n ≤ b
      → slice (block_of nodes p) npos n ≡ slice (flat nodes) (p * b + npos) n
  gather_one p npos n here h = rw (here, block_of) (slice-block b nodes p npos n uniform here h)

  pub collect-gather :
      (fuel p npos n : ℕ)
      → npos < b
      → p * b + npos + n ≤ length nodes * b
      → n ≤ fuel
      → (vs : List Iovec) × (collect fuel nodes p npos (b - npos) n ≡ ok vs)
        × (gather nodes vs ≡ slice (flat nodes) (p * b + npos) n)
  collect-gather fuel p npos zero inside room enough =
      ([], collect-zero fuel nodes p npos (b - npos), refl)
  collect-gather zero p npos (suc n) inside room enough = absurd (omega arith)
  collect-gather (suc fuel) p npos (suc n) inside room enough =
      let below : p < length nodes = mul-lt-mul_cancel p (length nodes) b (omega arith) in
      let (block, here) = get_elem?-below nodes p below in
      elim (lt_or_le (b - npos) (suc n)) [
        | inl over ↦
            let ncap : ℕ = b - npos in
            let below' : p + 1 < length nodes =
              mul-lt-mul_cancel (p + 1) (length nodes) b (omega arith) in
            let (next, there) = get_elem?-below nodes (p + 1) below' in
            let (vs, e, g) =
              collect-gather fuel (p + 1) 0 (suc n - ncap) (omega arith) (omega arith)
                (omega arith) in
            let whole : length next ≡ b - 0 =
              get_elem?-length b nodes (p + 1) uniform there ∙ sym (sub-zero b) in
            let start : (p + 1) * b + 0 ≡ p * b + npos + ncap = omega arith in
            let all : ncap + (suc n - ncap) ≡ suc n = omega arith in
            (
              record { node = p; offset = npos; len = ncap } ∷ vs,
              collect-next fuel nodes p npos ncap (suc n) over there (rw whole e),
              (λ i.
                    gather_one p npos ncap here (omega arith) i
                    ++ (g ∙ ap (λ (t : ℕ). slice (flat nodes) t (suc n - ncap)) start) i)
                  ∙ slice_plus (flat nodes) (p * b + npos) ncap (suc n - ncap)
                  ∙ ap (λ (t : ℕ). slice (flat nodes) (p * b + npos) t) all,
            )
        | inr fits ↦ (
          record { node = p; offset = npos; len = suc n } ∷ [],
          collect-last fuel nodes p npos (b - npos) (suc n) (omega arith) (omega arith),
          append-nil (slice (block_of nodes p) npos (suc n))
              ∙ gather_one p npos (suc n) here (omega arith),
        )
      ]

collect_from-eq :
    (nodes : List (List ℕ)) (p npos n b : ℕ) {block : List ℕ} {r : Outcome (List Iovec)}
    → get_elem? nodes p ≡ some block
    → length block ≡ b
    → npos < b
    → collect n nodes p npos (b - npos) n ≡ r
    → collect_from nodes p npos n ≡ r
collect_from-eq nodes p npos n b here size inside e = ground arith

-- The walk begins at any position with `n` bytes of the chain behind it.
collect_from-gather :
    (s : ByteArray) (p q n : ℕ)
    → IsValid s
    → 0 < n
    → p * s.base_size ≤ q
    → q < p * s.base_size + s.base_size
    → q + n ≤ s.capacity
    → (vs : List Iovec) × (collect_from s.nodes p (q % s.base_size) n ≡ ok vs)
      × (gather s.nodes vs ≡ slice (memory s) q n)
collect_from-gather s p q n v some_byte lo hi room =
    let b : ℕ = s.base_size in
    let npos : ℕ = q % b in
    let located : q ≡ p * b + npos = offset_lem q p b lo hi in
    let inside : npos < b = omega arith in
    let below : p < length s.nodes = mul-lt-mul_cancel p (length s.nodes) b (omega arith) in
    let (block, here) = get_elem?-below s.nodes p below in
    let size : length block ≡ b = get_elem?-length b s.nodes p v.uniform here in
    let (vs, e, g) =
      collect-gather b s.nodes v.uniform n p npos n inside (omega arith) (omega arith) in
    (
      vs,
      collect_from-eq s.nodes p npos n b here size inside e,
      g ∙ ap (λ (t : ℕ). slice (memory s) t n) (sym located),
    )

readable :
    (len : ℕ) (s : ByteArray)
    → s.position ≤ s.size
    → readable_part len s ≡ min len (s.size - s.position)
readable len s h = ground arith

get_read_buffers-some :
    (len : ℕ) (s : ByteArray) (n : ℕ) {r : Outcome (List Iovec)}
    → s.position ≤ s.size
    → min len (s.size - s.position) ≡ n
    → 0 < n
    → collect_from s.nodes s.cur (s.position % s.base_size) n ≡ r
    → get_read_buffers len s ≡ (n, r)
unfolding get_read_buffers
get_read_buffers-some len s n within part pos e =
    rw (readable len s within, part, pos→ne-zero n pos) (ap (λ x. (n, x)) e)

get_read_buffers-none :
    (len : ℕ) (s : ByteArray)
    → s.position ≤ s.size
    → min len (s.size - s.position) ≡ 0
    → get_read_buffers len s ≡ (0, ok [])
unfolding get_read_buffers
get_read_buffers-none len s within part = rw (readable len s within, part)

-- On a valid array, `getReadBuffers` returns the smaller of `len` and the number of unread bytes,
-- and its buffers hold that many unread bytes, in order.
pub get_read_buffers_lem :
    (len : ℕ) (s : ByteArray)
    → IsValid s
    → let n = min len (s.size - s.position) in
      (vs : List Iovec) × (get_read_buffers len s ≡ (n, ok vs))
      × (gather s.nodes vs ≡ take n (unread s))
get_read_buffers_lem len s v = elim (lt_or_le 0 (min len (s.size - s.position))) [
  | inl some_byte ↦
      let n : ℕ = min len (s.size - s.position) in
      let (vs, e, g) =
        collect_from-gather s s.cur s.position n v some_byte v.from_cur v.to_cur (omega arith) in
      (
        vs,
        get_read_buffers-some len s n v.within refl some_byte e,
        g ∙ sym (slice-take (memory s) s.position n s.size (omega arith)),
      )
  | inr nothing ↦
      let none_left : min len (s.size - s.position) ≡ 0 = omega arith in
      rw none_left ([], get_read_buffers-none len s v.within none_left, refl)
]

get_read_buffers_at-some :
    (len position : ℕ) (s : ByteArray) (n : ℕ) {r : Outcome (List Iovec)}
    → s.position ≤ s.size
    → min len (s.size - s.position) ≡ n
    → 0 < n
    → collect_from s.nodes (position / s.base_size) (position % s.base_size) n ≡ r
    → get_read_buffers_at len position s ≡ (n, r)
unfolding get_read_buffers_at
get_read_buffers_at-some len position s n within part pos e =
    rw (readable len s within, part, pos→ne-zero n pos) (ap (λ x. (n, x)) e)

-- On a valid array with unread bytes, `getReadBuffers` with a position takes as many bytes as the
-- overload without one, not as are left behind `position`; where the chain holds so many, its buffers
-- are the memory from `position` on.
pub get_read_buffers_at_lem :
    (len position : ℕ) (s : ByteArray)
    → IsValid s
    → 0 < min len (s.size - s.position)
    → position + min len (s.size - s.position) ≤ s.capacity
    → let n = min len (s.size - s.position) in
      (vs : List Iovec) × (get_read_buffers_at len position s ≡ (n, ok vs))
      × (gather s.nodes vs ≡ slice (memory s) position n)
get_read_buffers_at_lem len position s v some_byte room =
    let n : ℕ = min len (s.size - s.position) in
    let p : ℕ = position / s.base_size in
    let split : p * s.base_size + position % s.base_size ≡ position =
      div-add-mod' position s.base_size in
    let offset : position % s.base_size < s.base_size = mod-lt position v.pos_base in
    let (vs, e, g) =
      collect_from-gather s p position n v some_byte (omega arith) (omega arith) room in
    (vs, get_read_buffers_at-some len position s n v.within refl some_byte e, g)

get_write_buffers-some :
    (len : ℕ) (s : ByteArray) {r : Outcome (List Iovec)}
    → 0 < len
    → let t = add_capacity len s in
      collect_from t.nodes t.cur (t.position % t.base_size) len ≡ r
      → get_write_buffers len s ≡ ((len, r), t)
unfolding get_write_buffers
get_write_buffers-some len s pos e =
    rw (pos→ne-zero len pos) (ap (λ x. ((len, x), add_capacity len s)) e)

-- On a valid array, `getWriteBuffers` of at least one byte makes room and returns buffers of `len` bytes in all, which
-- are the memory from the position on; position and data stay as they are.
pub get_write_buffers_lem :
    (len : ℕ) (s : ByteArray)
    → IsValid s
    → 0 < len
    → let t = add_capacity len s in
      (vs : List Iovec) × (get_write_buffers len s ≡ ((len, ok vs), t))
      × (gather t.nodes vs ≡ slice (memory t) s.position len)
      × (s.position + len ≤ t.capacity)
      × IsValid t
get_write_buffers_lem len s v some_byte =
    let t : ByteArray = add_capacity len s in
    let g = add_capacity-Grown len s v in
    let same : t.position ≡ s.position = ap (λ (x : ByteArray). x.position) g.others in
    let (vs, e, bytes) =
      collect_from-gather t t.cur t.position len g.valid some_byte g.valid.from_cur g.valid.to_cur
        (rw same g.room) in
    (
      vs,
      get_write_buffers-some len s some_byte e,
      bytes ∙ ap (λ (q : ℕ). slice (memory t) q len) same,
      g.room,
      g.valid,
    )
