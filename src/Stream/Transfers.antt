-- ===== src/Stream/Transfers.antt =====
-- What the fixed-size transfers of yk/stream.cc do with the answers of `read` and `write`.
use yk_server.Base.{
  ℕ, ◌+◌, ◌-◌, ◌^◌, ◌<◌, ◌≡◌, refl, ap, ◌∙◌, List, [], ◌∷◌, ◌++◌, map, if◌then◌else◌, leb, All,
  arith, pos→ne-zero, lt→leb, le→ltb, ◌≤◌, true,
}
use yk_server.Base.Ints.{pos, to_int, is_positive, is_positive-to_int}
use yk_server.ByteArray.State.{sub_size}
use yk_server.Stream.{
  Answer, bytes, closed, failed, len_of, add_size, Ended, returned, read_fix_loop, read_fix_size,
  write_fix_loop, write_fix_size, fix_result,
}

abbrev pub sum : List ℕ → ℕ
sum [] = 0
sum (n ∷ ns) = n + sum ns

abbrev pub IsChunk : ℕ → Type 0
IsChunk n = 0 < n

abbrev pub call_then : ℕ → ℕ → List (ℕ × ℕ) × Ended → List (ℕ × ℕ) × Ended
call_then offset left r = ((offset, left) ∷ r.0, r.1)

-- The calls that get the chunks `ns` as answers, before those of `r`: each starts where the one
-- before it ended, and asks for all that is left.
abbrev pub calls_then : List ℕ → ℕ → ℕ → List (ℕ × ℕ) × Ended → List (ℕ × ℕ) × Ended
calls_then [] offset left r = r
calls_then (n ∷ ns) offset left r = call_then offset left (calls_then ns (offset + n) (left - n) r)

ended_then :
    (ns : List ℕ) (offset left : ℕ) (r : List (ℕ × ℕ) × Ended)
    → (calls_then ns offset left r).1 ≡ r.1
ended_then [] offset left r = refl
ended_then (n ∷ ns) offset left r = ended_then ns (offset + n) (left - n) r

read_step :
    (length : ℕ) (a : Answer) (answers : List Answer) (offset left offset' left' : ℕ)
    → 0 < left
    → 0 < len_of a
    → add_size offset (len_of a) ≡ offset'
    → sub_size left (len_of a) ≡ left'
    → read_fix_loop length (a ∷ answers) offset left
      ≡ call_then offset left (read_fix_loop length answers offset' left')
unfolding read_fix_loop
read_step length a answers offset left offset' left' more some_bytes o l =
    rw (pos→ne-zero left more, lt→leb (len_of a) 0 some_bytes, o, l) refl

write_step :
    (length : ℕ) (a : Answer) (answers : List Answer) (offset left offset' left' : ℕ)
    → 0 < left
    → 0 < len_of a
    → add_size offset (len_of a) ≡ offset'
    → (if leb left (len_of a) then 0 else sub_size left (len_of a)) ≡ left'
    → write_fix_loop length (a ∷ answers) offset left
      ≡ call_then offset left (write_fix_loop length answers offset' left')
unfolding write_fix_loop
write_step length a answers offset left offset' left' more some_bytes o l =
    rw (pos→ne-zero left more, lt→leb (len_of a) 0 some_bytes, o, l) refl

-- What ends the loop: nothing is left, or the answer is 0.
read_loop-done :
    (length offset : ℕ) (answers : List Answer)
    → read_fix_loop length answers offset 0 ≡ ([], returned (to_int length))
unfolding read_fix_loop
read_loop-done length offset [] = refl
read_loop-done length offset (a ∷ answers) = refl

write_loop-done :
    (length offset : ℕ) (answers : List Answer)
    → write_fix_loop length answers offset 0 ≡ ([], returned (to_int length))
unfolding write_fix_loop
write_loop-done length offset [] = refl
write_loop-done length offset (a ∷ answers) = refl

read_loop-closed :
    (length offset left : ℕ) (answers : List Answer)
    → 0 < left
    → read_fix_loop length (closed ∷ answers) offset left ≡ ((offset, left) ∷ [], returned (pos 0))
unfolding read_fix_loop to_int
read_loop-closed length offset left answers more = rw (pos→ne-zero left more) refl

read_loop-chunks :
    (length : ℕ) (ns : List ℕ) (answers : List Answer) (offset left more : ℕ)
    → All IsChunk ns
    → sum ns + more ≡ left
    → offset + left < 2 ^ 64
    → read_fix_loop length (map bytes ns ++ answers) offset left
      ≡ calls_then ns offset left (read_fix_loop length answers (offset + sum ns) more)
read_loop-chunks length [] answers offset left more v e h =
    let same : left ≡ more = omega arith in
    let here : offset ≡ offset + 0 = omega arith in
    λ i. read_fix_loop length answers (here i) (same i)
read_loop-chunks length (n ∷ ns) answers offset left more v e h =
    read_step length (bytes n) (map bytes ns ++ answers) offset left (offset + n) (left - n)
      (omega arith) v.0 (omega arith) (ground arith)
    ∙ ap (call_then offset left) (
        read_loop-chunks length ns answers (offset + n) (left - n) more v.1 (omega arith)
          (omega arith)
        ∙ ap
            (λ (o : ℕ). calls_then ns (offset + n) (left - n) (read_fix_loop length answers o more))
            (omega arith))

write_loop-chunks :
    (length : ℕ) (ns : List ℕ) (answers : List Answer) (offset left more : ℕ)
    → All IsChunk ns
    → sum ns + more ≡ left
    → offset + left < 2 ^ 64
    → write_fix_loop length (map bytes ns ++ answers) offset left
      ≡ calls_then ns offset left (write_fix_loop length answers (offset + sum ns) more)
write_loop-chunks length [] answers offset left more v e h =
    let same : left ≡ more = omega arith in
    let here : offset ≡ offset + 0 = omega arith in
    λ i. write_fix_loop length answers (here i) (same i)
write_loop-chunks length (n ∷ ns) answers offset left more v e h =
    write_step length (bytes n) (map bytes ns ++ answers) offset left (offset + n) (left - n)
      (omega arith) v.0 (omega arith) (ground arith)
    ∙ ap (call_then offset left) (
        write_loop-chunks length ns answers (offset + n) (left - n) more v.1 (omega arith)
          (omega arith)
        ∙ ap
            (λ (o : ℕ).
              calls_then ns (offset + n) (left - n) (write_fix_loop length answers o more))
            (omega arith))

-- Where the first answers are chunks that are not empty and together have the `length` asked for,
-- which is below 2 ^ 64, both transfers return after these, and each call starts where the one before it
-- ended and asks for all that is left. What they return is `length` as an `int` of 32 bits: `length`
-- itself below 2 ^ 31, but a negative number from there up to 2 ^ 32, and so on.
pub fix_size-chunks :
    (ns : List ℕ) (answers : List Answer)
    → All IsChunk ns
    → sum ns < 2 ^ 64
    → (read_fix_size (map bytes ns ++ answers) (sum ns)
        ≡ calls_then ns 0 (sum ns) ([], returned (to_int (sum ns))))
      × (write_fix_size (map bytes ns ++ answers) (sum ns)
          ≡ calls_then ns 0 (sum ns) ([], returned (to_int (sum ns))))
unfolding read_fix_size write_fix_size
fix_size-chunks ns answers v h = (
  read_loop-chunks (sum ns) ns answers 0 (sum ns) 0 v (omega arith) (omega arith)
      ∙ ap (calls_then ns 0 (sum ns)) (read_loop-done (sum ns) (0 + sum ns) answers),
  write_loop-chunks (sum ns) ns answers 0 (sum ns) 0 v (omega arith) (omega arith)
      ∙ ap (calls_then ns 0 (sum ns)) (write_loop-done (sum ns) (0 + sum ns) answers),
)

-- Where the stream is closed after chunks that are not empty and have fewer bytes than `length`,
-- which is below 2 ^ 64, `readFixSize` returns 0.
pub read_fix_size-closed :
    (ns : List ℕ) (answers : List Answer) (length : ℕ)
    → All IsChunk ns
    → sum ns < length
    → length < 2 ^ 64
    → (read_fix_size (map bytes ns ++ (closed ∷ answers)) length).1 ≡ returned (pos 0)
unfolding read_fix_size
read_fix_size-closed ns answers length v short h =
    ap (λ r. r.1)
      (read_loop-chunks length ns (closed ∷ answers) 0 length (length - sum ns) v (omega arith)
          (omega arith)
        ∙ ap (calls_then ns 0 length)
            (read_loop-closed length (0 + sum ns) (length - sum ns) answers (omega arith)))
    ∙ ended_then ns 0 length ((0 + sum ns, length - sum ns) ∷ [], returned (pos 0))

-- Where chunks that are not empty and have fewer bytes than `length`, which is below 2 ^ 64, are followed
-- by -1, and then by chunks with one byte more than is left, `readFixSize` does not report the failure:
-- it goes on one byte before the place where it was, takes them all, and returns what becomes of
-- `length` as an `int`, as if nothing had failed.
pub read_fix_size-failed :
    (n : ℕ) (ns ms : List ℕ) (answers : List Answer) (length : ℕ)
    → All IsChunk (n ∷ ns)
    → All IsChunk ms
    → sum (n ∷ ns) < length
    → length < 2 ^ 64
    → sum (n ∷ ns) + sum ms ≡ length + 1
    → read_fix_size (map bytes (n ∷ ns) ++ (failed ∷ (map bytes ms ++ answers))) length
      ≡ calls_then (n ∷ ns) 0 length (
          call_then (sum (n ∷ ns)) (length - sum (n ∷ ns)) (
            calls_then ms
              (sum (n ∷ ns) - 1)
              (length - sum (n ∷ ns) + 1)
              ([], returned (to_int length))))
unfolding read_fix_size
read_fix_size-failed n ns ms answers length v w short h e =
    let first = v.0 in
    let done : ℕ = sum (n ∷ ns) in
    let left : ℕ = length - done in
    read_loop-chunks length (n ∷ ns) (failed ∷ (map bytes ms ++ answers)) 0 length left v
      (omega arith) (omega arith)
    ∙ ap (calls_then (n ∷ ns) 0 length) (
        read_step length failed (map bytes ms ++ answers) (0 + done) left (done - 1) (left + 1)
          (omega arith) (omega arith) (omega arith) (ground arith)
        ∙ ap (call_then (0 + done) left) (
            read_loop-chunks length ms answers (done - 1) (left + 1) 0 w (omega arith) (omega arith)
            ∙ ap (calls_then ms (done - 1) (left + 1))
                (read_loop-done length ((done - 1) + sum ms) answers))
        ∙ ap
            (λ (o : ℕ).
              call_then o left (calls_then ms (done - 1) (left + 1) ([], returned (to_int length))))
            (omega arith))

-- After chunks that are not empty and have fewer bytes than `length`, which is below 2 ^ 64, and then
-- -1, `writeFixSize` returns what becomes of `length` as an `int`, as if all had been written.
pub write_fix_size-failed :
    (ns : List ℕ) (answers : List Answer) (length : ℕ)
    → All IsChunk ns
    → sum ns < length
    → length < 2 ^ 64
    → (write_fix_size (map bytes ns ++ (failed ∷ answers)) length).1 ≡ returned (to_int length)
unfolding write_fix_size
write_fix_size-failed ns answers length v short h =
    ap (λ r. r.1)
      (write_loop-chunks length ns (failed ∷ answers) 0 length (length - sum ns) v (omega arith)
          (omega arith)
        ∙ ap (calls_then ns 0 length) (
            write_step length failed answers (0 + sum ns) (length - sum ns) _ 0 (omega arith)
              (omega arith) refl (ground arith)
            ∙ ap (call_then (0 + sum ns) (length - sum ns))
                (write_loop-done length (add_size (0 + sum ns) (2 ^ 64 - 1)) answers)))
    ∙ ended_then ns 0 length
        (call_then (0 + sum ns) (length - sum ns) ([], returned (to_int length)))

pub fix_result-positive :
    (n available : ℕ)
    → 0 < n
    → n < 2 ^ 31
    → n ≤ available
    → is_positive (fix_result n available) ≡ true
unfolding fix_result
fix_result-positive n available some_bytes h enough =
    rw (le→ltb available n enough) (is_positive-to_int n some_bytes h)
