-- ===== src/ByteArray/Files.antt =====
-- Files and strings of yk/bytearray.cc: what `writeToFile`, `readFromFile` and `toString` move.
use yk_server.Base.{
  ℕ, zero, suc, ◌+◌, ◌-◌, ◌*◌, ◌%◌, ◌≤◌, ◌<◌, ◌≡◌, refl, sym, ap, ◌∙◌, subst, List, [], ◌∷◌, ◌++◌,
  if◌then◌else◌, ltb, length, take, drop, slice, some, get_elem?, flat, arith, inl, inr, lt_or_le,
  append-nil, append_assoc, true, lt→ltb, le→ltb, length-drop, take-append-drop, take_all, drop_all,
  length-replicate,
}
use yk_server.Base.Blocks.{IsUniform, get_elem?-below, get_elem?-length, slice-block, slice_plus}
use yk_server.Base.Splices.{slice-take}
use yk_server.ByteArray.State.{ByteArray, Machine, Outcome, ok, memory, ◌>>◌, pure, after}
use yk_server.ByteArray.Memory.{byte_array, clear, first_node, write, read_loop, get_read_size}
use yk_server.ByteArray.Layout.{IsValid, mul-lt-mul_cancel, offset_lem}
use yk_server.ByteArray.ReadLoop.{read_loop-WasRead}
use yk_server.ByteArray.Contents.{contents, unread}
use yk_server.ByteArray.Sequence.{length-unread, length-contents}
use yk_server.ByteArray.Append.{Appended, write-Appended, seq-Appended}
use yk_server.ByteArray.Export.{
  write_file_loop, write_to_file, read_file_loop, read_from_file, to_string,
}
use native.Mathlib.Nat.{mul-mod_left}

-- A new array is valid.
pub byte_array-IsValid : (m : Machine) (b : ℕ) → 0 < b → IsValid (byte_array m b)
unfolding byte_array
byte_array-IsValid m b pos = record {
  pos_base = pos;
  uniform = (length-replicate b m.fresh, tt);
  counted = omega arith;
  rooted = omega arith;
  fits = omega arith;
  within = omega arith;
  from_cur = omega arith;
  to_cur = omega arith;
}

pub byte_array-empty :
    (m : Machine) (b : ℕ)
    → ((byte_array m b).position ≡ (byte_array m b).size) × (contents (byte_array m b) ≡ [])
unfolding byte_array
byte_array-empty m b = (refl, refl)

slice-unread :
    (s : ByteArray) → IsValid s → slice (memory s) s.position (s.size - s.position) ≡ unread s
slice-unread s v =
    sym (slice-take (memory s) s.position (s.size - s.position) s.size (omega (arith, v.within)))
    ∙ take_all (s.size - s.position) (unread s) (omega (arith, length-unread s v))

first_node-shape :
    (b : ℕ) (nodes : List (List ℕ))
    → IsUniform b nodes
    → 0 < length nodes
    → IsUniform b (first_node nodes) × (length (first_node nodes) ≡ 1)
first_node-shape b [] u some_node = absurd (omega arith)
first_node-shape b (m ∷ nodes) u some_node = ((u.0, tt), refl)

-- A valid array that is cleared is valid and empty.
pub clear-IsValid : (s : ByteArray) → IsValid s → IsValid (clear s) × (contents (clear s) ≡ [])
unfolding clear
clear-IsValid s v =
    let (uniform, one) = first_node-shape s.base_size s.nodes v.uniform v.rooted in
    (
      record {
        pos_base = v.pos_base;
        uniform = uniform;
        counted = rw one (omega arith);
        rooted = rw one (omega arith);
        fits = omega arith;
        within = omega arith;
        from_cur = omega arith;
        to_cur = omega arith;
      },
      refl,
    )

write_file-zero :
    (fuel : ℕ) (nodes : List (List ℕ)) (b pos p : ℕ) (out : List ℕ)
    → write_file_loop fuel nodes b 0 pos p out ≡ ok out
unfolding write_file_loop
write_file-zero zero nodes b pos p out = refl
write_file-zero (suc fuel) nodes b pos p out = refl

module _ (fuel : ℕ) (nodes : List (List ℕ)) (b r p : ℕ) (out : List ℕ) {block : List ℕ}
    (here : get_elem? nodes p ≡ some block) (more : 0 < r) where
  write_file-round :
      (len : ℕ)
      → (if ltb b r then b else r) ≡ len
      → write_file_loop (suc fuel) nodes b r (p * b) p out
        ≡ write_file_loop fuel nodes b (r - len) (p * b + len) (p + 1) (out ++ slice block 0 len)
  unfolding write_file_loop
  write_file-round len e = ground (arith, mul-mod_left p b)

-- From the start of a node on, the loop writes the bytes that are left to read.
write_file_loop-aligned :
    (fuel : ℕ) (nodes : List (List ℕ)) (b r p : ℕ) (out : List ℕ)
    → IsUniform b nodes
    → p * b + r ≤ length nodes * b
    → length nodes < fuel + p
    → write_file_loop fuel nodes b r (p * b) p out ≡ ok (out ++ slice (flat nodes) (p * b) r)
write_file_loop-aligned fuel nodes b zero p out u room enough =
    write_file-zero fuel nodes b (p * b) p out ∙ ap ok (sym (append-nil out))
write_file_loop-aligned zero nodes b (suc r) p out u room enough =
    let below : p < length nodes = mul-lt-mul_cancel p (length nodes) b (omega arith) in
    absurd (omega arith)
write_file_loop-aligned (suc fuel) nodes b (suc r) p out u room enough =
    let below : p < length nodes = mul-lt-mul_cancel p (length nodes) b (omega arith) in
    let (block, here) = get_elem?-below nodes p below in
    let start : p * b + 0 ≡ p * b = omega arith in
    elim (lt_or_le b (suc r)) [
      | inl over ↦
          let next : p * b + b ≡ (p + 1) * b = omega arith in
          let all : b + (suc r - b) ≡ suc r = omega arith in
          let part : slice block 0 b ≡ slice (flat nodes) (p * b) b =
            rw start at (slice-block b nodes p 0 b u here (omega arith)) in
          write_file-round fuel nodes b (suc r) p out here (omega arith) b
            (rw (lt→ltb b (suc r) over))
          ∙ ap
              (λ (t : ℕ).
                write_file_loop fuel nodes b (suc r - b) t (p + 1) (out ++ slice block 0 b))
              next
          ∙ write_file_loop-aligned fuel nodes b (suc r - b) (p + 1) (out ++ slice block 0 b) u
              (omega arith) (omega arith)
          ∙ ap ok (
              append_assoc out (slice block 0 b) (slice (flat nodes) ((p + 1) * b) (suc r - b))
              ∙ ap (λ t. out ++ t)
                  ((λ i. part i ++ slice (flat nodes) (sym next i) (suc r - b))
                    ∙ slice_plus (flat nodes) (p * b) b (suc r - b)
                    ∙ ap (λ (t : ℕ). slice (flat nodes) (p * b) t) all))
      | inr last ↦
          let part : slice block 0 (suc r) ≡ slice (flat nodes) (p * b) (suc r) =
            rw start at (slice-block b nodes p 0 (suc r) u here (omega arith)) in
          let left : suc r - suc r ≡ 0 = omega arith in
          write_file-round fuel nodes b (suc r) p out here (omega arith) (suc r)
            (rw (le→ltb b (suc r) last))
          ∙ ap
              (λ (t : ℕ).
                write_file_loop fuel nodes b t (p * b + suc r) (p + 1)
                  (out ++ slice block 0 (suc r)))
              left
          ∙ write_file-zero fuel nodes b (p * b + suc r) (p + 1) (out ++ slice block 0 (suc r))
          ∙ ap (λ t. ok (out ++ t)) part
    ]

write_to_file-ok :
    (s : ByteArray) {bytes : List ℕ}
    → write_file_loop
        (suc (length s.nodes))
        s.nodes
        s.base_size
        (get_read_size s)
        s.position
        s.cur
        []
      ≡ ok bytes
    → write_to_file true s ≡ ok (some bytes)
unfolding write_to_file
write_to_file-ok s e = ground arith

-- On a valid array whose position is at the start of a node, the file gets the unread bytes.
pub write_to_file-aligned :
    (s : ByteArray)
    → IsValid s
    → s.position % s.base_size ≡ 0
    → write_to_file true s ≡ ok (some (unread s))
write_to_file-aligned s v start =
    let located : s.position ≡ s.cur * s.base_size + s.position % s.base_size =
      offset_lem s.position s.cur s.base_size v.from_cur v.to_cur in
    let at_node : s.cur * s.base_size ≡ s.position = omega arith in
    let left : get_read_size s ≡ s.size - s.position = ground arith in
    let cur_room : s.cur < length s.nodes + 1 =
      mul-lt-mul_cancel s.cur (length s.nodes + 1) s.base_size (omega arith) in
    let loop =
      write_file_loop-aligned (suc (length s.nodes)) s.nodes s.base_size (s.size - s.position) s.cur
        [] v.uniform (omega arith) (omega arith) in
    write_to_file-ok s (
      (λ i.
        write_file_loop (suc (length s.nodes)) s.nodes s.base_size (left i) (sym at_node i) s.cur
          [])
      ∙ loop
      ∙ ap (λ (t : ℕ). ok (slice (memory s) t (s.size - s.position))) at_node
      ∙ ap ok (slice-unread s v))

module _ (fuel : ℕ) (file : List ℕ) (s : ByteArray) where
  read_file-end : length file < s.base_size → read_file_loop (suc fuel) file s ≡ write file s
  unfolding read_file_loop
  read_file-end h = rw (lt→ltb (length file) s.base_size h)

  read_file-round :
      s.base_size ≤ length file
      → read_file_loop (suc fuel) file s
        ≡ (write (take s.base_size file) >> read_file_loop fuel (drop s.base_size file)) s
  unfolding read_file_loop
  read_file-round h = rw (le→ltb (length file) s.base_size h)

-- The file is appended, chunk by chunk.
read_file_loop-Appended :
    (fuel : ℕ) (file : List ℕ) (s : ByteArray)
    → IsValid s
    → s.position ≡ s.size
    → length file < fuel
    → Appended s file (read_file_loop fuel file s)
read_file_loop-Appended zero file s v end enough = absurd (omega arith)
read_file_loop-Appended (suc fuel) file s v end enough = elim (lt_or_le (length file) s.base_size) [
  | inl short ↦ rw (read_file-end fuel file s short) (write-Appended s file v end)
  | inr long ↦ rw (read_file-round fuel file s long) (
      subst
        (λ bs.
          Appended s bs
            ((write (take s.base_size file) >> read_file_loop fuel (drop s.base_size file)) s))
        (take-append-drop s.base_size file)
        (seq-Appended s (write (take s.base_size file))
          (read_file_loop fuel (drop s.base_size file)) (take s.base_size file)
          (drop s.base_size file) (write-Appended s (take s.base_size file) v end)
          (λ t vt at_end _ _.
            read_file_loop-Appended fuel (drop s.base_size file) t vt at_end
              (omega (arith, length-drop s.base_size file)))))
]

-- A file that opens is read to its end and appended, on a valid array that stands at the end of its
-- data.
pub read_from_file-appends :
    (file : List ℕ) (s : ByteArray)
    → IsValid s
    → s.position ≡ s.size
    → let (r, t) = read_from_file (some file) s in
      (r ≡ ok true) × (contents t ≡ contents s ++ file) × IsValid t
unfolding read_from_file
read_from_file-appends file s v end =
    finish (read_file_loop (length file + 1) file s)
      (read_file_loop-Appended (length file + 1) file s v end (omega arith))
  where
    finish :
        (o : Outcome (Unit {0}) × ByteArray)
        → Appended s file o
        → (let (r, t) = after o (λ _. pure true) in
            (r ≡ ok true) × (contents t ≡ contents s ++ file) × IsValid t)
    finish (o, t) w = rw w.done (refl, w.bytes, w.valid)

-- What a valid array whose position is at the start of a node writes to a file, a new array of any
-- node size reads back.
pub read_from_file-write_to_file :
    (s : ByteArray) (m : Machine) (b : ℕ)
    → IsValid s
    → s.position % s.base_size ≡ 0
    → 0 < b
    → (file : List ℕ) × (write_to_file true s ≡ ok (some file))
      × ((read_from_file (some file) (byte_array m b)).0 ≡ ok true)
      × (contents (read_from_file (some file) (byte_array m b)).1 ≡ unread s)
read_from_file-write_to_file s m b v start pos =
    let (r, bytes, valid) =
      read_from_file-appends (unread s) (byte_array m b) (byte_array-IsValid m b pos)
        (byte_array-empty m b).0 in
    (
      unread s,
      write_to_file-aligned s v start,
      r,
      bytes ∙ ap (λ bs. bs ++ unread s) (byte_array-empty m b).1,
    )

to_string-some :
    (s : ByteArray) (npos : ℕ) {block : List ℕ} {bytes : List ℕ}
    → s.position < s.size
    → get_elem? s.nodes s.cur ≡ some block
    → length block ≡ s.base_size
    → s.position % s.base_size ≡ npos
    → npos < s.base_size
    → (read_loop (s.size - s.position) (s.size - s.position) npos (s.base_size - npos) [] s).0
      ≡ ok bytes
    → to_string s ≡ ok bytes
unfolding to_string
to_string-some s npos more here size offset inside e = ground arith

to_string-none : (s : ByteArray) → s.position ≡ s.size → to_string s ≡ ok []
unfolding to_string
to_string-none s end = ground arith

-- On a valid array `toString` gives the unread bytes; it is const, so the position stays.
pub to_string_lem : (s : ByteArray) → IsValid s → to_string s ≡ ok (unread s)
to_string_lem s v = elim (lt_or_le s.position s.size) [
  | inl more ↦
      let npos : ℕ = s.position % s.base_size in
      let n : ℕ = s.size - s.position in
      let located : s.position ≡ s.cur * s.base_size + npos =
        offset_lem s.position s.cur s.base_size v.from_cur v.to_cur in
      let inside : npos < s.base_size = omega arith in
      let below : s.cur < length s.nodes =
        mul-lt-mul_cancel s.cur (length s.nodes) s.base_size (omega arith) in
      let (block, here) = get_elem?-below s.nodes s.cur below in
      let size = get_elem?-length s.base_size s.nodes s.cur v.uniform here in
      let w =
        read_loop-WasRead n npos n [] s v.uniform located inside (omega arith) (omega arith) in
      to_string-some s npos more here size refl inside (w.bytes ∙ ap ok (slice-unread s v))
  | inr end ↦
      to_string-none s (omega arith)
      ∙ ap ok (sym (drop_all s.position (contents s) (omega (arith, length-contents s v))))
]
