-- ===== src/WebSocket/Runs.antt =====
-- Runs of the frames of http/ws_session.cc.
use yk_server.Base.{ℕ, ◌^◌, ◌≡◌, refl, true, false, List, [], ◌∷◌, ◌++◌, ◌-◌, arith}
use yk_server.ByteArray.State.{Endian}
use yk_server.WebSocket.{
  WsFrameHead, head_bytes, message, closed, undefined, recv_loop, recv_message,
}
use yk_server.WebSocket.Frames.{field_bytes}
use yk_server.WebSocket.Messages.{IsChunk, sent_frames, recv_message-sent_frames}
use yk_server.WebSocket.Faults.{recv_loop-empty, recv_loop-overrun}

abbrev key : List ℕ
key = 17 ∷ 34 ∷ 51 ∷ 68 ∷ []

abbrev hello : List ℕ
hello = 104 ∷ 101 ∷ 108 ∷ 108 ∷ 111 ∷ []

abbrev there : List ℕ
there = 33 ∷ 10 ∷ []

hello-IsChunk : IsChunk key hello
hello-IsChunk = record {
  four = refl;
  mask_bytes = omega arith;
  some_data = omega arith;
  data_bytes = omega arith;
}

there-IsChunk : IsChunk key there
there-IsChunk = record {
  four = refl;
  mask_bytes = omega arith;
  some_data = omega arith;
  data_bytes = omega arith;
}

recv_message-sent_frames_example :
    recv_message Endian.little false 100 true
      (sent_frames Endian.little true 1 ((key, hello) ∷ []) key there ++ (7 ∷ []))
    ≡ (message 1 (104 ∷ 101 ∷ 108 ∷ 108 ∷ 111 ∷ 33 ∷ 10 ∷ []) (7 ∷ []), [])
recv_message-sent_frames_example =
    recv_message-sent_frames Endian.little true 100 true 1 ((key, hello) ∷ []) key there (7 ∷ [])
      (hello-IsChunk, tt) there-IsChunk (omega arith) (omega arith) (omega arith) (omega arith)

abbrev ping : WsFrameHead
ping = record { opcode = 9; fin = true; payload = 0; mask = true }

abbrev empty_text : WsFrameHead
empty_text = record { opcode = 1; fin = true; payload = 0; mask = true }

recv_loop-empty_example :
    recv_loop Endian.little false 100 true 9 0 [] (head_bytes empty_text ++ key) ≡ (closed, [])
recv_loop-empty_example =
    recv_loop-empty Endian.little false 100 8 0 [] key empty_text
      (record { opcode = omega arith; payload = omega arith }) true (omega arith) refl (omega arith)

abbrev wide : WsFrameHead
wide = record { opcode = 0; fin = true; payload = 127; mask = true }

recv_loop-overrun_example :
    recv_loop Endian.little false 100 true 9 1 hello
      (head_bytes wide ++ (field_bytes Endian.little 8 (2 ^ 64 - 5) ++ (key ++ [])))
    ≡ (undefined, [])
recv_loop-overrun_example =
    recv_loop-overrun Endian.little false 100 (2 ^ 64 - 5) hello key [] wide refl refl refl
      (omega arith) (omega arith) (omega arith) (omega arith) true 8 1
      (record { opcode = omega arith; payload = omega arith }) (omega arith)
