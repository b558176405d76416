-- ===== src/ByteArray/Reading.antt =====
-- `read` and `setPosition` of yk/bytearray.cc on the contents of the array.
use yk_server.Base.{
  ℕ, suc, ◌+◌, ◌-◌, ◌*◌, ◌%◌, ◌≤◌, ◌<◌, ◌≡◌, refl, sym, ap, subst, ◌∙◌, List, [], ◌∷◌, length, take,
  arith, inl, inr, lt_or_le, get_elem?, some, ltb, if◌then◌else◌,
}
use yk_server.Base.Blocks.{IsUniform, get_elem?-below, get_elem?-length}
use yk_server.Base.Splices.{slice-take}
use yk_server.ByteArray.State.{ByteArray, Outcome, ok, out_of_range, memory}
use yk_server.ByteArray.Memory.{read, read_loop, seek, set_position}
use yk_server.ByteArray.Layout.{IsValid, mul-lt-mul_cancel, offset_lem}
use yk_server.ByteArray.ReadLoop.{WasRead, read_loop-WasRead}
use yk_server.ByteArray.Contents.{contents, unread}

-- What a call of `read` did.
pub record Taken (s : ByteArray) (n : ℕ) (r : Outcome (List ℕ) × ByteArray) : Type 0 where
  pub bytes : r.0 ≡ ok (take n (unread s))
  pub valid : IsValid r.1
  pub contents_kept : contents r.1 ≡ contents s
  pub position : r.1.position ≡ s.position + n
  pub endian : r.1.endian ≡ s.endian
  pub machine : r.1.machine ≡ s.machine

read-loop :
    (n : ℕ) (s : ByteArray) (npos : ℕ) {block : List ℕ}
    → s.position ≤ s.size
    → n ≤ s.size - s.position
    → get_elem? s.nodes s.cur ≡ some block
    → length block ≡ s.base_size
    → s.position % s.base_size ≡ npos
    → npos < s.base_size
    → read n s ≡ read_loop n n npos (s.base_size - npos) [] s
unfolding read
read-loop n s npos within enough here size offset inside = ground arith

finish-Taken :
    (n : ℕ) (s : ByteArray) (r : Outcome (List ℕ) × ByteArray)
    → IsValid s
    → n ≤ s.size - s.position
    → WasRead s n [] r
    → Taken s n r
finish-Taken n s (o, u) v enough w =
    let kept = w.others in
    record {
      bytes = w.bytes ∙ ap ok (sym (slice-take (memory s) s.position n s.size (omega arith)));
      valid = subst IsValid (sym kept) (record {
        pos_base = v.pos_base;
        uniform = v.uniform;
        counted = v.counted;
        rooted = v.rooted;
        fits = v.fits;
        within = omega arith;
        from_cur = w.from_cur;
        to_cur = w.to_cur;
      });
      contents_kept = ap contents kept;
      position = w.position;
      endian = ap (λ (x : ByteArray). x.endian) kept;
      machine = ap (λ (x : ByteArray). x.machine) kept;
    }

-- On a valid array with a byte of room or of data behind the position, `read` returns the next `n`
-- bytes if there are so many.
pub read-Taken :
    (n : ℕ) (s : ByteArray)
    → IsValid s
    → s.position < s.capacity
    → n ≤ s.size - s.position
    → Taken s n (read n s)
read-Taken n s v room enough =
    let npos : ℕ = s.position % s.base_size in
    let located : s.position ≡ s.cur * s.base_size + npos =
      offset_lem s.position s.cur s.base_size v.from_cur v.to_cur in
    let inside : npos < s.base_size = omega arith in
    let below : s.cur < length s.nodes =
      mul-lt-mul_cancel s.cur (length s.nodes) s.base_size (omega arith) in
    let (block, here) = get_elem?-below s.nodes s.cur below in
    let size = get_elem?-length s.base_size s.nodes s.cur v.uniform here in
    let w = read_loop-WasRead n npos n [] s v.uniform located inside (omega arith) (omega arith) in
    rw (read-loop n s npos v.within enough here size refl inside) (finish-Taken n s _ v enough w)

-- On a valid array, a read of more than is left throws, and changes nothing.
pub read_too_much :
    (n : ℕ) (s : ByteArray) → IsValid s → s.size - s.position < n → read n s ≡ (out_of_range, s)
unfolding read
read_too_much n s v more = ground arith

-- What a call of `setPosition` did.
pub record Moved (s : ByteArray) (p : ℕ) (r : Outcome (Unit {0}) × ByteArray) : Type 0 where
  pub done : r.0 ≡ ok tt
  pub valid : IsValid r.1
  pub position : r.1.position ≡ p
  pub size : r.1.size ≡ (if ltb s.size p then p else s.size)
  pub memory_kept : memory r.1 ≡ memory s
  pub endian : r.1.endian ≡ s.endian
  pub machine : r.1.machine ≡ s.machine

seek_on :
    (m : List ℕ) (nodes : List (List ℕ)) (v p : ℕ)
    → length m < v
    → seek (m ∷ nodes) v p ≡ seek nodes (v - length m) (p + 1)
unfolding seek
seek_on m nodes v p h = ground arith

seek_here :
    (m : List ℕ) (nodes : List (List ℕ)) (v p : ℕ)
    → v < length m
    → seek (m ∷ nodes) v p ≡ some (p + 0)
unfolding seek
seek_here m nodes v p h = ground arith

seek_behind :
    (m : List ℕ) (nodes : List (List ℕ)) (v p : ℕ)
    → v ≡ length m
    → seek (m ∷ nodes) v p ≡ some (p + 1)
unfolding seek
seek_behind m nodes v p h = ground arith

-- The walk from the root ends at the node that holds the position, or behind the last one.
seek_lem :
    (nodes : List (List ℕ)) (b v p : ℕ)
    → 0 < b
    → IsUniform b nodes
    → 0 < length nodes
    → v ≤ length nodes * b
    → (k : ℕ) × (seek nodes v p ≡ some (p + k)) × (k * b ≤ v) × (v < k * b + b)
seek_lem [] b v p pos u some_node room = absurd (omega arith)
seek_lem (m ∷ nodes) b v p pos u some_node room = elim (lt_or_le (length m) v) [
  | inl far ↦
      let more : 0 < length nodes = no_last (omega (arith, u.0)) in
      let (k, e, lo, hi) =
        seek_lem nodes b (v - length m) (p + 1) pos u.1 more (omega (arith, u.0)) in
      (
        suc k,
        seek_on m nodes v p far ∙ e ∙ ap some (omega arith),
        omega (arith, u.0),
        omega (arith, u.0),
      )
  | inr near ↦ elim (lt_or_le v (length m)) [
    | inl inside ↦ (0, seek_here m nodes v p inside, omega (arith, u.0), omega (arith, u.0))
    | inr end ↦ (1, seek_behind m nodes v p (omega arith), omega (arith, u.0), omega (arith, u.0))
  ]
]
  where
    no_last : 0 * b < length nodes * b → 0 < length nodes
    no_last h = mul-lt-mul_cancel 0 (length nodes) b h

set_position-some :
    (p q : ℕ) (s : ByteArray)
    → p ≤ s.capacity
    → seek s.nodes p 0 ≡ some q
    → set_position p s
      ≡ (ok tt, record s { position = p; size = if ltb s.size p then p else s.size; cur = q })
unfolding set_position
set_position-some p q s room e = ground arith

-- On a valid array, every position up to the capacity can be set; one behind the data makes the data
-- longer.
pub set_position-Moved :
    (p : ℕ) (s : ByteArray) → IsValid s → p ≤ s.capacity → Moved s p (set_position p s)
set_position-Moved p s v room =
    let (k, e, lo, hi) =
      seek_lem s.nodes s.base_size p 0 v.pos_base v.uniform v.rooted (omega arith) in
    rw (set_position-some p (0 + k) s room e) (record {
      done = refl;
      valid = record {
        pos_base = v.pos_base;
        uniform = v.uniform;
        counted = v.counted;
        rooted = v.rooted;
        fits = ground arith;
        within = ground arith;
        from_cur = omega arith;
        to_cur = omega arith;
      };
      position = refl;
      size = refl;
      memory_kept = refl;
      endian = refl;
      machine = refl;
    })

-- A position behind the capacity throws, and changes nothing.
pub set_position_too_far :
    (p : ℕ) (s : ByteArray) → s.capacity < p → set_position p s ≡ (out_of_range, s)
unfolding set_position
set_position_too_far p s far = ground arith
