-- ===== src/WebSocket.antt =====
-- The frames of http/ws_session.h and http/ws_session.cc. A stream is the list of the bytes that
-- come on it before it is closed, and the list of those that were written to it.
pub mod Frames
pub mod Messages
pub mod Faults
mod Runs
use yk_server.Base.{
  ℕ, zero, suc, ◌+◌, ◌-◌, ◌*◌, ◌/◌, ◌%◌, ◌^◌, Bool, true, false, not, ◌&&◌, ◌||◌, List, [], ◌∷◌,
  ◌++◌, if◌then◌else◌, ltb, leb, ◌==◌, Option, none, some, length, take, drop, get_elem?, bit_xor,
}
use yk_server.Base.Ints.{ℤ, negsuc, to_int, is_positive}
use yk_server.Stream.{fix_result}
use yk_server.ByteArray.State.{Endian}
use yk_server.ByteArray.Typed.{swap_unless, object_bytes, from_object}

-- `WSFrameHead`, without the reserved bits, which are written as 0 and never read.
pub record WsFrameHead : Type 0 where
  pub opcode : ℕ
  pub fin : Bool
  pub payload : ℕ
  pub mask : Bool

abbrev pub bit : Bool → ℕ
bit true = 1
bit false = 0

-- The two bytes of a head in memory, with the bit fields from the lowest bit on.
unfoldable pub head_bytes : WsFrameHead → List ℕ
head_bytes h = (h.opcode % 16 + 128 * bit h.fin) ∷ (h.payload % 128 + 128 * bit h.mask) ∷ []

unfoldable pub head_of : ℕ → ℕ → WsFrameHead
head_of a b = record {
  opcode = a % 16;
  fin = a / 128 % 2 == 1;
  payload = b % 128;
  mask = b / 128 % 2 == 1;
}

-- `stream->readFixSize(buffer, n)`: the bytes and what follows them; `none` is a result of 0 or less,
-- which a read of no bytes has, too, and one of 2 ^ 31 bytes, whose number is a negative `int`.
unfoldable pub read_fix : ℕ → List ℕ → Option (List ℕ × List ℕ)
read_fix n incoming =
    if is_positive (fix_result n (length incoming))
    then some (take n incoming, drop n incoming)
    else none

abbrev pub mask_byte : Option ℕ → ℕ → ℕ
mask_byte none b = b
mask_byte (some m) b = bit_xor b m

-- `data[i] ^= mask[i % 4]`, from `i` on.
unfoldable pub apply_mask : List ℕ → ℕ → List ℕ → List ℕ
apply_mask mask i [] = []
apply_mask mask i (b ∷ bs) = mask_byte (get_elem? mask (i % 4)) b ∷ apply_mask mask (i + 1) bs

-- The length of a frame by the field `payload`, and what follows the length.
unfoldable pub read_length : Endian → ℕ → List ℕ → Option (ℕ × List ℕ)
read_length order payload incoming =
    if payload == 126
    then elim (read_fix 2 incoming) [
      | none ↦ none
      | some (bs, rest) ↦ some (swap_unless Endian.big order 2 (from_object order bs), rest)
    ]
    else if payload == 127
    then elim (read_fix 8 incoming) [
      | none ↦ none
      | some (bs, rest) ↦ some (swap_unless Endian.big order 8 (from_object order bs), rest)
    ]
    else some (payload, incoming)

-- The mask of a frame, if it has one.
unfoldable pub read_mask : Bool → List ℕ → Option (List ℕ × List ℕ)
read_mask masked incoming =
    if masked then read_fix 4 incoming else some (0 ∷ 0 ∷ 0 ∷ 0 ∷ [], incoming)

-- `WSPing` and `WSPong`: the bytes that are written.
unfoldable pub control_frame : ℕ → List ℕ
control_frame opcode =
    head_bytes (record { opcode = opcode; fin = true; payload = 0; mask = false })

-- What a frame's body makes of the data so far: the data, and what follows; a break of the loop; or
-- a write behind the end of the string.
pub data Body : Type 0 where
  got : List ℕ → List ℕ → Body
  broken : Body
  overrun : Body

-- The part of a round for a data frame behind its head, up to the data. `cur_len` is the length of
-- `data`; the sum with the length is taken in 64 bits.
unfoldable pub read_body : Endian → Bool → ℕ → WsFrameHead → List ℕ → List ℕ → Body
read_body order client max_size head data_so_far incoming =
    if not client && not head.mask then broken else elim (read_length order head.payload incoming) [
      | none ↦ broken
      | some (size, behind_length) ↦
          if leb max_size ((length data_so_far + size) % 2 ^ 64)
          then broken
          else elim (read_mask head.mask behind_length) [
            | none ↦ broken
            | some (mask, behind_mask) ↦
                if leb (2 ^ 64) (length data_so_far + size)
                then overrun
                else elim (read_fix size behind_mask) [
                  | none ↦ broken
                  | some (bs, rest) ↦
                      got
                        (data_so_far
                          ++ (if head.mask && ltb size (2 ^ 31) then apply_mask mask 0 bs else bs))
                        rest
                ]
          ]
    ]

-- How `WSRecvMessage` ends: with a message, with a null pointer and the stream closed, by the write
-- behind the end of the string, or, in the model, without fuel.
pub data Received : Type 0 where
  message : ℕ → List ℕ → List ℕ → Received
  closed : Received
  undefined : Received
  stuck : Received

-- A round of the loop of `WSRecvMessage` behind the read of the head; `loop` are the rounds that
-- follow, on the opcode and the data so far and on what comes. `pong_ok` says whether the answer to a
-- ping is written.
unfoldable pub round :
    Endian
    → Bool
    → ℕ
    → Bool
    → (ℕ → List ℕ → List ℕ → Received × List ℕ)
    → WsFrameHead
    → ℕ
    → List ℕ
    → List ℕ
    → Received × List ℕ
round order client max_size pong_ok loop head opcode so_far rest =
    if head.opcode == 9
    then (if pong_ok
        then (let (r, sent) = loop opcode so_far rest in (r, control_frame 10 ++ sent))
        else (closed, []))
    else if head.opcode == 10
    then loop opcode so_far rest
    else if leb head.opcode 2
    then elim (read_body order client max_size head so_far rest) [
      | broken ↦ (closed, [])
      | overrun ↦ (undefined, [])
      | got data_now behind ↦
          let opcode' = if opcode == 0 && not (head.opcode == 0) then head.opcode else opcode in
          if head.fin then (message opcode' data_now behind, []) else loop opcode' data_now behind
    ]
    else loop opcode so_far rest

-- The loop of `WSRecvMessage`, with what it writes.
unfoldable pub recv_loop : Endian → Bool → ℕ → Bool → ℕ → ℕ → List ℕ → List ℕ → Received × List ℕ
recv_loop order client max_size pong_ok zero opcode so_far incoming = (stuck, [])
recv_loop order client max_size pong_ok (suc fuel) opcode so_far [] = (closed, [])
recv_loop order client max_size pong_ok (suc fuel) opcode so_far (a ∷ []) = (closed, [])
recv_loop order client max_size pong_ok (suc fuel) opcode so_far (a ∷ b ∷ rest) =
    round order client max_size pong_ok (recv_loop order client max_size pong_ok fuel) (head_of a b)
      opcode so_far rest

-- `WSRecvMessage`: each round takes two bytes at least.
unfoldable pub recv_message : Endian → Bool → ℕ → Bool → List ℕ → Received × List ℕ
recv_message order client max_size pong_ok incoming =
    recv_loop order client max_size pong_ok (length incoming + 1) 0 [] incoming

-- `writeFixSize` of pieces one after the other, up to the first that fails: the i-th one fails if
-- `fails i`, or if its size is not a positive `int`. The bytes that were written, and whether no write
-- failed.
unfoldable pub write_pieces : (ℕ → Bool) → ℕ → List (List ℕ) → List ℕ × Bool
write_pieces fails i [] = ([], true)
write_pieces fails i (p ∷ ps) =
    let rest = write_pieces fails (i + 1) ps in
    if fails i
    then ([], false)
    else if is_positive (to_int (length p))
    then (p ++ rest.0, rest.1)
    else (p, false)

abbrev pub payload_of : ℕ → ℕ
payload_of size = if ltb size 126 then size else if ltb size 65536 then 126 else 127

-- The length field behind the head, or none.
unfoldable pub length_field : Endian → ℕ → List (List ℕ)
length_field order size =
    if payload_of size == 126
    then object_bytes order 2 (swap_unless Endian.big order 2 size) ∷ []
    else if payload_of size == 127
    then object_bytes order 8 (swap_unless Endian.big order 8 size) ∷ []
    else []

-- `WSSendMessage`: what is written, and the result, where -1 (after a close) is `none`. `mask` are the
-- bytes of the random number.
unfoldable pub send_message : Endian → (ℕ → Bool) → List ℕ → Bool → Bool → ℕ → List ℕ → List ℕ × ℤ
send_message order fails mask client fin opcode bs =
    let head : WsFrameHead = record {
      opcode = opcode;
      fin = fin;
      payload = payload_of (length bs);
      mask = client;
    } in
    let (written, done) = write_pieces fails 0 (
      (head_bytes head ∷ length_field order (length bs))
      ++ (if client then mask ∷ apply_mask mask 0 bs ∷ [] else bs ∷ [])) in
    (written, if done then to_int (length bs + 2) else negsuc 0)
