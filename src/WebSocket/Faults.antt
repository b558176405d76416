-- ===== src/WebSocket/Faults.antt =====
-- Frames that http/ws_session.cc does not take as they are meant: empty ones, control frames with data,
-- and lengths that wrap.
use yk_server.Base.{
  ℕ, suc, ◌+◌, ◌%◌, ◌^◌, ◌≤◌, ◌<◌, ◌≡◌, ◌≢◌, refl, ap, ◌∙◌, Bool, true, false, not, ◌&&◌, List, [],
  ◌++◌, leb, ◌==◌, none, some, length, arith, lt→leb, le→leb, Bool-cases, inl, inr, Option-cases,
}
use yk_server.Base.Ints.{negsuc, to_int}
use yk_server.Stream.{fix_result}
use yk_server.ByteArray.State.{Endian}
use yk_server.WebSocket.{
  WsFrameHead, head_bytes, read_fix, apply_mask, read_length, read_mask, length_field, broken,
  overrun, read_body, control_frame, closed, undefined, round, recv_loop, send_message,
  write_pieces,
}
use yk_server.WebSocket.Frames.{read_fix-append, head_of-head_bytes, field_bytes, read_length-long}

-- A head whose fields fit their bits.
pub record IsHead (h : WsFrameHead) : Type 0 where
  pub opcode : h.opcode < 16
  pub payload : h.payload < 128

recv_loop-head :
    (order : Endian) (client : Bool) (max_size : ℕ) (pong_ok : Bool) (fuel op : ℕ)
    (so_far rest : List ℕ) (h : WsFrameHead)
    → IsHead h
    → recv_loop order client max_size pong_ok (suc fuel) op so_far (head_bytes h ++ rest)
      ≡ round order client max_size pong_ok
          (recv_loop order client max_size pong_ok fuel)
          h
          op
          so_far
          rest
unfolding recv_loop head_bytes
recv_loop-head order client max_size pong_ok fuel op so_far rest h v =
    ap
      (λ x.
        round order client max_size pong_ok (recv_loop order client max_size pong_ok fuel) x op
          so_far rest)
      (head_of-head_bytes h.opcode h.payload h.fin h.mask v.opcode v.payload)

and_false : (b : Bool) → (b && false) ≡ false
and_false true = refl
and_false false = refl

read_length-zero : (order : Endian) (rest : List ℕ) → read_length order 0 rest ≡ some (0, rest)
unfolding read_length
read_length-zero order rest = refl

read_fix-zero : (incoming : List ℕ) → read_fix 0 incoming ≡ none
unfolding read_fix fix_result to_int
read_fix-zero incoming = ground arith

module _ (order : Endian) (client : Bool) (max_size : ℕ) (fuel op : ℕ) (so_far rest : List ℕ)
    (h : WsFrameHead) (v : IsHead h) where
  -- A ping is answered by a pong, if that can be written, and its mask and its data, if it has some,
  -- are not skipped: the loop goes on with them as the next frame.
  pub recv_loop-ping :
      h.opcode ≡ 9
      → recv_loop order client max_size true (suc fuel) op so_far (head_bytes h ++ rest) ≡ (
          let (r, sent) = recv_loop order client max_size true fuel op so_far rest in
          (r, control_frame 10 ++ sent))
  unfolding round
  recv_loop-ping e =
      let ping : (h.opcode == 9) ≡ true = ground arith in
      recv_loop-head order client max_size true fuel op so_far rest h v ∙ rw ping refl

  -- So with all other frames but those of data, the request to close included: they are read over,
  -- without their mask and data, and nothing is written.
  pub recv_loop-control :
      (pong_ok : Bool)
      → 2 < h.opcode
      → h.opcode ≢ 9
      → recv_loop order client max_size pong_ok (suc fuel) op so_far (head_bytes h ++ rest)
        ≡ recv_loop order client max_size pong_ok fuel op so_far rest
  unfolding round
  recv_loop-control pong_ok other not_ping =
      let e : (h.opcode == 9) ≡ false = ground arith in
      let d : leb h.opcode 2 ≡ false = lt→leb h.opcode 2 other in
      recv_loop-head order client max_size pong_ok fuel op so_far rest h v
      ∙ elim (Bool-cases (h.opcode == 10)) [ inl p ↦ rw (e, p) refl | inr p ↦ rw (e, p, d) refl ]

  read_body-empty :
      h.payload ≡ 0
      → length so_far < 2 ^ 64
      → read_body order client max_size h so_far rest ≡ broken
  unfolding read_body
  read_body-empty e short =
      let no_length : read_length order h.payload rest ≡ some (0, rest) =
        ap (λ (p : ℕ). read_length order p rest) e ∙ read_length-zero order rest in
      let no_wrap : leb (2 ^ 64) (length so_far + 0) ≡ false =
        lt→leb (2 ^ 64) (length so_far + 0) (omega arith) in
      elim (Bool-cases (not client && not h.mask)) [
        | inl unmasked ↦ rw unmasked refl
        | inr right_side ↦ elim (Bool-cases (leb max_size ((length so_far + 0) % 2 ^ 64))) [
          | inl large ↦ rw (right_side, no_length, large) refl
          | inr fits ↦ elim (Option-cases (read_mask h.mask rest)) [
            | inl cut ↦ rw (right_side, no_length, fits, cut) refl
            | inr ((key, behind), found) ↦
                rw (right_side, no_length, fits, found, no_wrap, read_fix-zero behind) refl
          ]
        ]
      ]

  -- A data frame without data, wherever it stands in a message, ends the message: the stream is closed.
  pub recv_loop-empty :
      (pong_ok : Bool)
      → h.opcode ≤ 2
      → h.payload ≡ 0
      → length so_far < 2 ^ 64
      → recv_loop order client max_size pong_ok (suc fuel) op so_far (head_bytes h ++ rest)
        ≡ (closed, [])
  unfolding round
  recv_loop-empty pong_ok known e short =
      let not_ping : (h.opcode == 9) ≡ false = ground arith in
      let not_pong : (h.opcode == 10) ≡ false = ground arith in
      recv_loop-head order client max_size pong_ok fuel op so_far rest h v
      ∙ rw (not_ping, not_pong, le→leb h.opcode 2 known, read_body-empty e short) refl

-- `WSSendMessage` of no data fails, whatever is written: it closes the stream and returns -1.
pub send_message-empty :
    (order : Endian) (fails : ℕ → Bool) (mask : List ℕ) (client fin : Bool) (opcode : ℕ)
    → (send_message order fails mask client fin opcode []).1 ≡ negsuc 0
unfolding send_message write_pieces length_field apply_mask to_int
send_message-empty order fails mask true fin opcode = ground arith
send_message-empty order fails mask false fin opcode = ground arith

module _ (order : Endian) (client : Bool) (max_size size : ℕ) (so_far key rest : List ℕ)
    (h : WsFrameHead) (long : h.payload ≡ 127) (masked : h.mask ≡ true) (four : length key ≡ 4)
    (fits : size < 2 ^ 64) (wraps : 2 ^ 64 ≤ length so_far + size) (room : length so_far < max_size)
    (small : max_size ≤ 2 ^ 31) where
  read_body-overrun :
      read_body order client max_size h so_far (field_bytes order 8 size ++ (key ++ rest)) ≡ overrun
  unfolding read_body read_mask
  read_body-overrun =
      let right_side : (not client && not h.mask) ≡ false =
        ap (λ m. not client && not m) masked ∙ and_false (not client) in
      let found : read_length order h.payload (field_bytes order 8 size ++ (key ++ rest))
          ≡ some (size, key ++ rest) =
        ap (λ (p : ℕ). read_length order p (field_bytes order 8 size ++ (key ++ rest))) long
        ∙ read_length-long order size (key ++ rest) fits in
      let passes : leb max_size ((length so_far + size) % 2 ^ 64) ≡ false =
        lt→leb max_size ((length so_far + size) % 2 ^ 64) (omega arith) in
      let mask : read_mask h.mask (key ++ rest) ≡ some (key, rest) =
        ap (λ m. read_mask m (key ++ rest)) masked
        ∙ read_fix-append 4 key rest four (omega arith) (omega arith) in
      rw (right_side, found, passes, mask, le→leb (2 ^ 64) (length so_far + size) wraps) refl

  -- In a message that has fewer bytes so far than the limit (at most 2 ^ 31), a masked frame of data
  -- whose length adds to them to 2 ^ 64 or more passes the check of the size, since the sum wraps:
  -- the read of the data goes behind the end of the string.
  pub recv_loop-overrun :
      (pong_ok : Bool) (fuel op : ℕ)
      → IsHead h
      → h.opcode ≤ 2
      → recv_loop order client max_size pong_ok
          (suc fuel)
          op
          so_far
          (head_bytes h ++ (field_bytes order 8 size ++ (key ++ rest)))
        ≡ (undefined, [])
  unfolding round
  recv_loop-overrun pong_ok fuel op v known =
      let not_ping : (h.opcode == 9) ≡ false = ground arith in
      let not_pong : (h.opcode == 10) ≡ false = ground arith in
      recv_loop-head order client max_size pong_ok fuel op so_far
        (field_bytes order 8 size ++ (key ++ rest)) h v
      ∙ rw (not_ping, not_pong, le→leb h.opcode 2 known, read_body-overrun) refl
