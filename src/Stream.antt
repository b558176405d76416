-- ===== src/Stream.antt =====
-- The fixed-size transfers of yk/stream.cc. The answers of the virtual `read` or `write` are a list;
-- the calls that the loop makes of it are its offsets and sizes.
pub mod Transfers
mod Runs
use yk_server.Base.{
  ℕ, ◌+◌, ◌-◌, ◌%◌, ◌^◌, Bool, true, false, List, [], ◌∷◌, if◌then◌else◌, leb, ltb, ◌==◌,
}
use yk_server.Base.Ints.{ℤ, pos, to_int}
use yk_server.ByteArray.State.{sub_size}

-- What `read` or `write` returns: a number of bytes, 0 for a closed stream, or -1.
pub data Answer : Type 0 where
  bytes : ℕ → Answer
  closed : Answer
  failed : Answer

-- `size_t len = read(…)`: -1 becomes the largest size_t.
abbrev pub len_of : Answer → ℕ
len_of (bytes n) = n
len_of closed = 0
len_of failed = 2 ^ 64 - 1

abbrev pub add_size : ℕ → ℕ → ℕ
add_size a b = (a + b) % 2 ^ 64

-- The loop returns an `int`, or waits for an answer that is not there yet.
pub data Ended : Type 0 where
  returned : ℤ → Ended
  waiting : Ended

-- The loop of `readFixSize`, of which `length` is returned at the end; `size_t` becomes `int`.
unfoldable pub read_fix_loop : ℕ → List Answer → ℕ → ℕ → List (ℕ × ℕ) × Ended
read_fix_loop length [] offset left =
    if left == 0 then ([], returned (to_int length)) else ((offset, left) ∷ [], waiting)
read_fix_loop length (a ∷ answers) offset left =
    let (calls, ended) =
      read_fix_loop length answers (add_size offset (len_of a)) (sub_size left (len_of a)) in
    if left == 0
    then ([], returned (to_int length))
    else if leb (len_of a) 0
    then ((offset, left) ∷ [], returned (to_int (len_of a)))
    else ((offset, left) ∷ calls, ended)

unfoldable pub read_fix_size : List Answer → ℕ → List (ℕ × ℕ) × Ended
unfolding read_fix_loop
read_fix_size answers length = read_fix_loop length answers 0 length

-- The loop of `writeFixSize`.
unfoldable pub write_fix_loop : ℕ → List Answer → ℕ → ℕ → List (ℕ × ℕ) × Ended
write_fix_loop length [] offset left =
    if left == 0 then ([], returned (to_int length)) else ((offset, left) ∷ [], waiting)
write_fix_loop length (a ∷ answers) offset left =
    let (calls, ended) =
      write_fix_loop length answers (add_size offset (len_of a))
        (if leb left (len_of a) then 0 else sub_size left (len_of a)) in
    if left == 0
    then ([], returned (to_int length))
    else if leb (len_of a) 0
    then ((offset, left) ∷ [], returned (to_int (len_of a)))
    else ((offset, left) ∷ calls, ended)

unfoldable pub write_fix_size : List Answer → ℕ → List (ℕ × ℕ) × Ended
unfolding write_fix_loop
write_fix_size answers length = write_fix_loop length answers 0 length

-- What `readFixSize` returns for `wanted` bytes where `available` bytes come, and then the stream is
-- closed.
unfoldable pub fix_result : ℕ → ℕ → ℤ
fix_result wanted available = if ltb available wanted then pos 0 else to_int wanted
