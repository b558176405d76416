-- ===== src/WebSocket/Messages.antt =====
-- A message that `WSSendMessage` of http/ws_session.cc sends, in one frame or in many, is the message
-- that `WSRecvMessage` returns at the other end.
use yk_server.Base.{
  ℕ, zero, suc, ◌+◌, ◌*◌, ◌%◌, ◌^◌, ◌≤◌, ◌<◌, ◌≡◌, refl, ap, ◌∙◌, Bool, true, false, not, ◌&&◌,
  List, [], ◌∷◌, ◌++◌, if◌then◌else◌, ltb, leb, ◌==◌, some, length, flat, All, arith, append_assoc,
  append-nil, length-append, lt→ltb, lt→leb, le→leb,
}
use yk_server.Base.Blocks.{flat-append}
use yk_server.Base.Ints.{negsuc, to_int, is_positive-to_int}
use yk_server.ByteArray.State.{Endian}
use yk_server.WebSocket.{
  WsFrameHead, bit, head_bytes, head_of, read_fix, apply_mask, read_mask, length_field, payload_of,
  got, read_body, Received, message, round, recv_loop, recv_message, send_message, write_pieces,
}
use yk_server.WebSocket.Frames.{
  AreBytes, read_fix-append, length-apply_mask, apply_mask-apply_mask, head_of-head_bytes,
  read_length-length_field, payload_of-lt, field_pieces, IsSent,
}

abbrev pub head_for : Bool → Bool → ℕ → ℕ → WsFrameHead
head_for client fin opcode size = record {
  opcode = opcode;
  fin = fin;
  payload = payload_of size;
  mask = client;
}

-- The mask, if any, and the data behind it.
abbrev masked : List ℕ → Bool → List ℕ → List ℕ
masked mask client bs = if client then mask ++ apply_mask mask 0 bs else bs

-- The bytes of a frame.
unfoldable pub frame : Endian → List ℕ → Bool → Bool → ℕ → List ℕ → List ℕ
frame order mask client fin opcode bs =
    head_bytes (head_for client fin opcode (length bs))
    ++ (flat (length_field order (length bs)) ++ masked mask client bs)

-- A mask of four bytes, and some bytes of data.
pub record IsChunk (mask bs : List ℕ) : Type 0 where
  pub four : length mask ≡ 4
  pub mask_bytes : AreBytes mask
  pub some_data : 0 < length bs
  pub data_bytes : AreBytes bs

abbrev pub no_failure : ℕ → Bool
no_failure i = false

write_pieces-flat :
    (i : ℕ) (ps : List (List ℕ)) → All IsSent ps → write_pieces no_failure i ps ≡ (flat ps, true)
unfolding write_pieces
write_pieces-flat i [] v = refl
write_pieces-flat i (p ∷ ps) v = rw (v.0, write_pieces-flat (i + 1) ps v.1) refl

All-append : (ps qs : List (List ℕ)) → All IsSent ps → All IsSent qs → All IsSent (ps ++ qs)
All-append [] qs v w = w
All-append (p ∷ ps) qs v w = (v.0, All-append ps qs v.1 w)

head_some : (h : WsFrameHead) → IsSent (head_bytes h)
unfolding head_bytes
head_some h = is_positive-to_int 2 (omega arith) (omega arith)

abbrev tail_pieces : List ℕ → Bool → List ℕ → List (List ℕ)
tail_pieces mask client bs = if client then mask ∷ apply_mask mask 0 bs ∷ [] else bs ∷ []

tail_some :
    (mask bs : List ℕ) (client : Bool)
    → IsChunk mask bs
    → length bs < 2 ^ 31
    → All IsSent (tail_pieces mask client bs)
tail_some mask bs true v small = (
  rw v.four (is_positive-to_int 4 (omega arith) (omega arith)),
  (rw (length-apply_mask mask 0 bs) (is_positive-to_int (length bs) v.some_data small), tt),
)
tail_some mask bs false v small = (is_positive-to_int (length bs) v.some_data small, tt)

tail_flat :
    (mask bs : List ℕ) (client : Bool) → flat (tail_pieces mask client bs) ≡ masked mask client bs
tail_flat mask bs true = ap (λ t. mask ++ t) (append-nil (apply_mask mask 0 bs))
tail_flat mask bs false = append-nil bs

both {ℓ} :
    {A : Type ℓ} (client : Bool) (x y : A)
    → (if client && true then x else y) ≡ (if client then x else y)
both true x y = refl
both false x y = refl

sides : (client : Bool) → (not (not client) && not client) ≡ false
sides true = refl
sides false = refl

-- Behind the length: the mask and the data.
body_rest :
    (mask bs rest : List ℕ) (client : Bool)
    → IsChunk mask bs
    → (key data_bytes : List ℕ) × (read_mask client (masked mask client bs ++ rest)
        ≡ some (key, data_bytes ++ rest))
      × (length data_bytes ≡ length bs)
      × ((if client then apply_mask key 0 data_bytes else data_bytes) ≡ bs)
unfolding read_mask
body_rest mask bs rest true v = (
  mask,
  apply_mask mask 0 bs,
  ap (read_fix 4) (append_assoc mask (apply_mask mask 0 bs) rest)
      ∙ read_fix-append 4 mask (apply_mask mask 0 bs ++ rest) v.four (omega arith) (omega arith),
  length-apply_mask mask 0 bs,
  apply_mask-apply_mask mask 0 bs v.mask_bytes v.data_bytes,
)
body_rest mask bs rest false v = (0 ∷ 0 ∷ 0 ∷ 0 ∷ [], bs, refl, refl, refl)

module _ (order : Endian) (mask : List ℕ) (client fin : Bool) (opcode : ℕ) (bs : List ℕ)
    (v : IsChunk mask bs) where
  -- Where no write fails, `WSSendMessage` of data that is not empty and shorter than 2 ^ 31 writes the
  -- frame, and returns the size of the data and the head, as an `int`.
  pub send_message-frame :
      length bs < 2 ^ 31
      → send_message order no_failure mask client fin opcode bs
        ≡ (frame order mask client fin opcode bs, to_int (length bs + 2))
  unfolding send_message frame
  send_message-frame small =
      let h : WsFrameHead = head_for client fin opcode (length bs) in
      let field : List (List ℕ) = length_field order (length bs) in
      let e = write_pieces-flat 0 (head_bytes h ∷ (field ++ tail_pieces mask client bs)) (
        head_some h,
        All-append field (tail_pieces mask client bs) (field_pieces order (length bs))
            (tail_some mask bs client v small),
      ) in
      let joined =
        flat-append field (tail_pieces mask client bs)
        ∙ ap (λ t. flat field ++ t) (tail_flat mask bs client) in
      (λ i. ((e i).0, if (e i).1 then to_int (length bs + 2) else negsuc 0))
      ∙ ap (λ t. (head_bytes h ++ t, to_int (length bs + 2))) joined

  read_body-frame :
      (max_size : ℕ) (so_far rest : List ℕ)
      → length so_far + length bs < max_size
      → max_size ≤ 2 ^ 31
      → read_body order
          (not client)
          max_size
          (head_for client fin opcode (length bs))
          so_far
          (flat (length_field order (length bs)) ++ (masked mask client bs ++ rest))
        ≡ got (so_far ++ bs) rest
  unfolding read_body
  read_body-frame max_size so_far rest room small =
      let (key, sent, found, long, plain) = body_rest mask bs rest client v in
      let right_side : (not (not client) && not client) ≡ false = sides client in
      let fits : leb max_size ((length so_far + length bs) % 2 ^ 64) ≡ false =
        lt→leb max_size ((length so_far + length bs) % 2 ^ 64) (omega arith) in
      let no_wrap : leb (2 ^ 64) (length so_far + length bs) ≡ false =
        lt→leb (2 ^ 64) (length so_far + length bs) (omega arith) in
      let short : ltb (length bs) (2 ^ 31) ≡ true = lt→ltb (length bs) (2 ^ 31) (omega arith) in
      rw
        (
          right_side,
          read_length-length_field order (length bs) (masked mask client bs ++ rest) (omega arith),
          fits,
          found,
          no_wrap,
          read_fix-append (length bs) sent rest long v.some_data (omega arith),
          short,
        )
        (ap (λ t. got (so_far ++ t) rest) (both client (apply_mask key 0 sent) sent ∙ plain))

  -- The opcode that a round leaves behind.
  abbrev pub opcode_after : ℕ → ℕ
  opcode_after op = if op == 0 && not (opcode == 0) then opcode else op

  round-frame :
      (max_size : ℕ) (pong_ok : Bool) (loop : ℕ → List ℕ → List ℕ → Received × List ℕ) (op : ℕ)
      (so_far rest : List ℕ)
      → opcode ≤ 2
      → length so_far + length bs < max_size
      → max_size ≤ 2 ^ 31
      → round order
          (not client)
          max_size
          pong_ok
          loop
          (head_for client fin opcode (length bs))
          op
          so_far
          (flat (length_field order (length bs)) ++ (masked mask client bs ++ rest))
        ≡ (if fin
            then (message (opcode_after op) (so_far ++ bs) rest, [])
            else loop (opcode_after op) (so_far ++ bs) rest)
  unfolding round
  round-frame max_size pong_ok loop op so_far rest known room small =
      let not_ping : (opcode == 9) ≡ false = ground arith in
      let not_pong : (opcode == 10) ≡ false = ground arith in
      let data_frame : leb opcode 2 ≡ true = le→leb opcode 2 known in
      rw (not_ping, not_pong, data_frame, read_body-frame max_size so_far rest room small) refl

  pub recv_loop-frame :
      (max_size : ℕ) (pong_ok : Bool) (fuel op : ℕ) (so_far rest : List ℕ)
      → opcode ≤ 2
      → length so_far + length bs < max_size
      → max_size ≤ 2 ^ 31
      → recv_loop order
          (not client)
          max_size
          pong_ok
          (suc fuel)
          op
          so_far
          (frame order mask client fin opcode bs ++ rest)
        ≡ (if fin
            then (message (opcode_after op) (so_far ++ bs) rest, [])
            else recv_loop order
                (not client)
                max_size
                pong_ok
                fuel
                (opcode_after op)
                (so_far ++ bs)
                rest)
  unfolding recv_loop frame head_bytes
  recv_loop-frame max_size pong_ok fuel op so_far rest known room small =
      let size : ℕ = length bs in
      let loop = recv_loop order (not client) max_size pong_ok fuel in
      let head : head_of (opcode % 16 + 128 * bit fin) (payload_of size % 128 + 128 * bit client)
          ≡ head_for client fin opcode size =
        head_of-head_bytes opcode (payload_of size) fin client (omega arith) (payload_of-lt size) in
      (λ i.
        round order (not client) max_size pong_ok loop (head i) op so_far
          (append_assoc (flat (length_field order size)) (masked mask client bs) rest i))
      ∙ round-frame max_size pong_ok loop op so_far rest known room small

-- What `WSSendMessage` writes where no write fails.
abbrev pub sent_frame : Endian → List ℕ → Bool → Bool → ℕ → List ℕ → List ℕ
sent_frame order mask client fin opcode bs =
    (send_message order no_failure mask client fin opcode bs).0

-- The frames of a message: pieces that are not the last, each with its mask, and the last one. The
-- first frame has the opcode, the others continue it.
abbrev pub sent_frames : Endian → Bool → ℕ → List (List ℕ × List ℕ) → List ℕ → List ℕ → List ℕ
sent_frames order client opcode [] mask last = sent_frame order mask client true opcode last
sent_frames order client opcode ((m, piece) ∷ pieces) mask last =
    sent_frame order m client false opcode piece ++ sent_frames order client 0 pieces mask last

abbrev pub joined : List (List ℕ × List ℕ) → List ℕ → List ℕ
joined [] last = last
joined ((m, piece) ∷ pieces) last = piece ++ joined pieces last

abbrev pub AreChunks : List (List ℕ × List ℕ) → Type 0
AreChunks = All (λ c. IsChunk c.0 c.1)

frame_some :
    (order : Endian) (mask : List ℕ) (client fin : Bool) (opcode : ℕ) (bs : List ℕ)
    → 0 < length (frame order mask client fin opcode bs)
unfolding frame head_bytes
frame_some order mask client fin opcode bs = omega arith

-- Each frame has a byte at least.
pieces-le-frames :
    (order : Endian) (client : Bool) (opcode : ℕ) (pieces : List (List ℕ × List ℕ))
    (mask last : List ℕ)
    → AreChunks pieces
    → length (joined pieces last) < 2 ^ 31
    → length pieces ≤ length (sent_frames order client opcode pieces mask last)
pieces-le-frames order client opcode [] mask last vs small = omega arith
pieces-le-frames order client opcode ((m, piece) ∷ pieces) mask last (w, vs) small =
    let both_parts = length-append piece (joined pieces last) in
    let same =
      ap (λ t. length t.0) (send_message-frame order m client false opcode piece w (omega arith)) in
    omega (
      arith,
      same,
      frame_some order m client false opcode piece,
      pieces-le-frames order client 0 pieces mask last vs (omega arith),
      length-append (sent_frame order m client false opcode piece)
          (sent_frames order client 0 pieces mask last),
    )

recv_loop-sent_frames :
    (order : Endian) (client : Bool) (max_size : ℕ) (pong_ok : Bool) (fuel op opcode : ℕ)
    (pieces : List (List ℕ × List ℕ)) (mask last so_far rest : List ℕ)
    → AreChunks pieces
    → IsChunk mask last
    → opcode ≤ 2
    → length so_far + length (joined pieces last) < max_size
    → max_size ≤ 2 ^ 31
    → length pieces < fuel
    → recv_loop order
        (not client)
        max_size
        pong_ok
        fuel
        op
        so_far
        (sent_frames order client opcode pieces mask last ++ rest)
      ≡ (
        message
            (if op == 0 && not (opcode == 0) then opcode else op)
            (so_far ++ joined pieces last)
            rest,
        [],
      )
recv_loop-sent_frames order client max_size pong_ok zero op opcode pieces mask last so_far rest vs v
      known room small enough =
    absurd (omega arith)
recv_loop-sent_frames order client max_size pong_ok (suc fuel) op opcode [] mask last so_far rest vs
      v known room small enough =
    (λ i.
      recv_loop order (not client) max_size pong_ok (suc fuel) op so_far
        ((send_message-frame order mask client true opcode last v (omega arith) i).0 ++ rest))
    ∙ recv_loop-frame order mask client true opcode last v max_size pong_ok fuel op so_far rest
        known room small
recv_loop-sent_frames order client max_size pong_ok (suc fuel) op opcode ((m, piece) ∷ pieces) mask
      last so_far rest (w, vs) v known room small enough =
    let op' : ℕ = if op == 0 && not (opcode == 0) then opcode else op in
    let behind : List ℕ = sent_frames order client 0 pieces mask last ++ rest in
    (λ i. recv_loop order (not client) max_size pong_ok (suc fuel) op so_far (
      ((send_message-frame order m client false opcode piece w
          (omega (arith, length-append piece (joined pieces last))) i).0
        ++ sent_frames order client 0 pieces mask last)
      ++ rest))
    ∙ ap (recv_loop order (not client) max_size pong_ok (suc fuel) op so_far) (
        append_assoc (frame order m client false opcode piece)
          (sent_frames order client 0 pieces mask last) rest)
    ∙ recv_loop-frame order m client false opcode piece w max_size pong_ok fuel op so_far behind
        known (omega (arith, length-append piece (joined pieces last))) small
    ∙ recv_loop-sent_frames order client max_size pong_ok fuel op' 0 pieces mask last
        (so_far ++ piece) rest vs v (omega arith)
        (omega (arith, length-append so_far piece, length-append piece (joined pieces last))) small
        (omega arith)
    ∙ (λ i. (message (keep op' i) (append_assoc so_far piece (joined pieces last) i) rest, []))
  where
    keep : (a : ℕ) → (if a == 0 && false then 0 else a) ≡ a
    keep a = ground arith

-- A text or binary message that is sent in frames, one or more, each with data of its own, masked if
-- it is the client that sends, is returned by `WSRecvMessage` at the other side, if it is shorter
-- than the limit there (at most 2 ^ 31); what comes behind it stays to be read, and nothing is
-- written.
pub recv_message-sent_frames :
    (order : Endian) (client : Bool) (max_size : ℕ) (pong_ok : Bool) (opcode : ℕ)
    (pieces : List (List ℕ × List ℕ)) (mask last rest : List ℕ)
    → AreChunks pieces
    → IsChunk mask last
    → 1 ≤ opcode
    → opcode ≤ 2
    → length (joined pieces last) < max_size
    → max_size ≤ 2 ^ 31
    → recv_message order
        (not client)
        max_size
        pong_ok
        (sent_frames order client opcode pieces mask last ++ rest)
      ≡ (message opcode (joined pieces last) rest, [])
unfolding recv_message
recv_message-sent_frames order client max_size pong_ok opcode pieces mask last rest vs v some_opcode
      known room small =
    recv_loop-sent_frames order client max_size pong_ok
      (length (sent_frames order client opcode pieces mask last ++ rest) + 1) 0 opcode pieces mask
      last [] rest vs v known (omega arith) small
      (omega (
        arith,
        pieces-le-frames order client opcode pieces mask last vs (omega arith),
        length-append (sent_frames order client opcode pieces mask last) rest,
      ))
    ∙ (λ i. (message (first i) (joined pieces last) rest, []))
  where
    first : (if 0 == 0 && not (opcode == 0) then opcode else 0) ≡ opcode
    first = ground arith
