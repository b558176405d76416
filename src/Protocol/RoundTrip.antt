-- ===== src/Protocol/RoundTrip.antt =====
-- What `serializeToByteArray` of rock/rock_protocol.cc writes, `RockMessageDecoder::parseFrom` takes
-- apart again.
use yk_server.Base.{
  ℕ, ◌+◌, ◌^◌, ◌<◌, ◌≡◌, refl, ap, ◌∙◌, List, [], ◌∷◌, ◌++◌, Bool, true, false, Option, none, some,
  length, arith, append_assoc, append-nil, drop, take, length-append, if◌then◌else◌,
}
use yk_server.ByteArray.State.{
  Machine, ByteArray, Outcome, Action, ok, out_of_range, undefined, stuck, memory, after, pure,
  ◌>>=◌, ◌>>◌,
}
use yk_server.ByteArray.Memory.{byte_array, set_position}
use yk_server.ByteArray.Typed.{
  write_fuint8, read_fuint8, write_uint32, read_uint32, write_string_vint, read_string_vint,
}
use yk_server.ByteArray.Layout.{IsValid}
use yk_server.ByteArray.Contents.{contents, unread}
use yk_server.ByteArray.Reading.{Moved, set_position-Moved}
use yk_server.ByteArray.Sequence.{Yields, bind-Yields, pure-Yields}
use yk_server.ByteArray.Append.{Appended, write-Appended, seq-Appended}
use yk_server.ByteArray.Varint.{groups, read_byte-Yields, read_uint32-Yields, write_uint32-Appended}
use yk_server.ByteArray.Texts.{read_string_vint-Yields, write_string_vint-Appended}
use yk_server.ByteArray.Files.{byte_array-IsValid, byte_array-empty}
use yk_server.Protocol.{
  Message, request, response, notify, body_of, serialize_head, serialize_to_byte_array,
  to_byte_array, parsed, parse_request, parse_response, parse_notify, parse_typed, parse_body,
  caught, get_type,
}

-- The fields that C++ holds in 32 bits do, strings are shorter than 2^64 bytes, and the body has a
-- byte at least.
abbrev pub FitsWire : Message → Type 0
FitsWire (request sn cmd body) =
    (sn < 2 ^ 32) × (cmd < 2 ^ 32) × (0 < length body) × (length body < 2 ^ 64)
FitsWire (response sn cmd result result_str body) =
    (sn < 2 ^ 32)
    × (cmd < 2 ^ 32)
    × (result < 2 ^ 32)
    × (length result_str < 2 ^ 64)
    × (0 < length body)
    × (length body < 2 ^ 64)
FitsWire (notify code body) = (code < 2 ^ 32) × (0 < length body) × (length body < 2 ^ 64)

unfoldable pub text_bytes : List ℕ → List ℕ
text_bytes bs = groups 9 (length bs) ++ bs

unfoldable pub head_bytes : Message → List ℕ
head_bytes (request sn cmd body) = (1 ∷ []) ++ (groups 4 sn ++ groups 4 cmd)
head_bytes (response sn cmd result result_str body) =
    (2 ∷ []) ++ (groups 4 sn ++ (groups 4 cmd ++ (groups 4 result ++ text_bytes result_str)))
head_bytes (notify code body) = (3 ∷ []) ++ groups 4 code

-- The bytes of a message on the wire.
unfoldable pub message_bytes : Message → List ℕ
message_bytes msg = head_bytes msg ++ text_bytes (body_of msg)

write_fuint8-Appended :
    (b : ℕ) (s : ByteArray)
    → b < 256
    → IsValid s
    → s.position ≡ s.size
    → Appended s (b ∷ []) (write_fuint8 b s)
unfolding write_fuint8
write_fuint8-Appended b s h v end = write-Appended s (b ∷ []) v end

text-Appended :
    (bs : List ℕ) (s : ByteArray)
    → length bs < 2 ^ 64
    → IsValid s
    → s.position ≡ s.size
    → Appended s (text_bytes bs) (write_string_vint bs s)
unfolding text_bytes
text-Appended bs s h v end = write_string_vint-Appended bs s h v end

text-Yields :
    (bs : List ℕ) (s : ByteArray) (rest : List ℕ)
    → length bs < 2 ^ 64
    → 0 < length bs + length rest
    → IsValid s
    → unread s ≡ text_bytes bs ++ rest
    → Yields s bs rest (read_string_vint s)
unfolding text_bytes
text-Yields bs s rest h some_byte v next =
    read_string_vint-Yields bs s rest h some_byte v
      (next ∙ append_assoc (groups 9 (length bs)) bs rest)

head-Appended :
    (msg : Message) (s : ByteArray)
    → FitsWire msg
    → IsValid s
    → s.position ≡ s.size
    → Appended s (head_bytes msg) (serialize_head msg s)
unfolding head_bytes serialize_head
head-Appended (request sn cmd body) s (hs, hc, _, _) v end =
    seq-Appended s (write_fuint8 1) _ (1 ∷ []) _ (write_fuint8-Appended 1 s (omega arith) v end)
      λ t vt et _ _.
        seq-Appended t (write_uint32 sn) (write_uint32 cmd) (groups 4 sn) (groups 4 cmd)
          (write_uint32-Appended sn t hs vt et) λ u vu eu _ _. write_uint32-Appended cmd u hc vu eu
head-Appended (response sn cmd result result_str body) s (hs, hc, hr, ht, _, _) v end =
    seq-Appended s (write_fuint8 2) _ (2 ∷ []) _ (write_fuint8-Appended 2 s (omega arith) v end)
      λ t vt et _ _.
        seq-Appended t (write_uint32 sn) _ (groups 4 sn) _ (write_uint32-Appended sn t hs vt et)
          λ u vu eu _ _.
            seq-Appended u (write_uint32 cmd) _ (groups 4 cmd) _
              (write_uint32-Appended cmd u hc vu eu)
              λ w vw ew _ _.
                seq-Appended w (write_uint32 result) _ (groups 4 result) _
                  (write_uint32-Appended result w hr vw ew)
                  λ x vx ex _ _. text-Appended result_str x ht vx ex
head-Appended (notify code body) s (hc, _, _) v end =
    seq-Appended s (write_fuint8 3) (write_uint32 code) (3 ∷ []) (groups 4 code)
      (write_fuint8-Appended 3 s (omega arith) v end)
      λ t vt et _ _. write_uint32-Appended code t hc vt et

body_fits :
    (msg : Message) → FitsWire msg → (0 < length (body_of msg)) × (length (body_of msg) < 2 ^ 64)
body_fits (request sn cmd body) (_, _, h, l) = (h, l)
body_fits (response sn cmd result result_str body) (_, _, _, _, h, l) = (h, l)
body_fits (notify code body) (_, h, l) = (h, l)

fields-Appended :
    (msg : Message) (s : ByteArray)
    → FitsWire msg
    → IsValid s
    → s.position ≡ s.size
    → Appended s (message_bytes msg) ((serialize_head msg >> write_string_vint (body_of msg)) s)
unfolding message_bytes
fields-Appended msg s h v end =
    seq-Appended s (serialize_head msg) (write_string_vint (body_of msg)) (head_bytes msg)
      (text_bytes (body_of msg)) (head-Appended msg s h v end)
      λ t vt et _ _. text-Appended (body_of msg) t (body_fits msg h).1 vt et

-- What `toByteArray` made: an array with the message's bytes.
pub record Serialized (msg : Message) (r : Outcome (Option ByteArray)) : Type 0 where
  pub array : ByteArray
  pub made : r ≡ ok (some array)
  pub valid : IsValid array
  pub bytes : contents array ≡ message_bytes msg

-- A message that fits the wire is serialized, and the array holds its bytes and no others.
pub to_byte_array-Serialized :
    (m : Machine) (msg : Message) → FitsWire msg → Serialized msg (to_byte_array m msg)
unfolding to_byte_array serialize_to_byte_array
to_byte_array-Serialized m msg h =
    make ((serialize_head msg >> write_string_vint (body_of msg)) (byte_array m 4096)) (
      fields-Appended msg (byte_array m 4096) h (byte_array-IsValid m 4096 (omega arith))
        (byte_array-empty m 4096).0)
  where
    finish : Outcome Bool × ByteArray → Outcome (Option ByteArray)
    finish (r, s) = elim r [
      | ok done ↦ ok (if done then some s else none)
      | out_of_range ↦ out_of_range
      | undefined ↦ undefined
      | stuck ↦ stuck
    ]

    make :
        (o : Outcome (Unit {0}) × ByteArray)
        → Appended (byte_array m 4096) (message_bytes msg) o
        → Serialized msg (finish (caught (after o (λ _. pure true)) false))
    make (o, t) w = rw w.done (record {
      array = t;
      made = refl;
      valid = w.valid;
      bytes = w.bytes ∙ ap (λ b. b ++ message_bytes msg) (byte_array-empty m 4096).1;
    })

-- What a parser of the fields behind the type does with them.
request-Yields :
    (sn cmd : ℕ) (body : List ℕ) (s : ByteArray)
    → FitsWire (request sn cmd body)
    → IsValid s
    → unread s ≡ groups 4 sn ++ (groups 4 cmd ++ (text_bytes body ++ []))
    → Yields s (request sn cmd body) [] (parse_request s)
unfolding parse_request
request-Yields sn cmd body s (hs, hc, hb, lb) v next =
    bind-Yields s read_uint32 _ sn _ _ [] (read_uint32-Yields sn s _ hs v next) λ t vt nt _ _.
      bind-Yields t read_uint32 _ cmd _ _ [] (read_uint32-Yields cmd t _ hc vt nt) λ u vu nu _ _.
        bind-Yields u read_string_vint _ body _ _ [] (text-Yields body u [] lb (omega arith) vu nu)
          λ w vw nw _ _. pure-Yields w (request sn cmd body) [] vw nw

some_text : (before bs : List ℕ) → 0 < length bs → 0 < length before + length (text_bytes bs ++ [])
unfolding text_bytes
some_text before bs h =
    omega (
      arith,
      length-append (groups 9 (length bs) ++ bs) [],
      length-append (groups 9 (length bs)) bs,
    )

response-Yields :
    (sn cmd result : ℕ) (result_str body : List ℕ) (s : ByteArray)
    → FitsWire (response sn cmd result result_str body)
    → IsValid s
    → unread s
      ≡ groups 4 sn
        ++ (groups 4 cmd ++ (groups 4 result ++ (text_bytes result_str ++ (text_bytes body ++ []))))
    → Yields s (response sn cmd result result_str body) [] (parse_response s)
unfolding parse_response
response-Yields sn cmd result result_str body s (hs, hc, hr, ht, hb, lb) v next =
    bind-Yields s read_uint32 _ sn _ _ [] (read_uint32-Yields sn s _ hs v next) λ t vt nt _ _.
      bind-Yields t read_uint32 _ cmd _ _ [] (read_uint32-Yields cmd t _ hc vt nt) λ u vu nu _ _.
        bind-Yields u read_uint32 _ result _ _ [] (read_uint32-Yields result u _ hr vu nu)
          λ w vw nw _ _.
            bind-Yields w read_string_vint _ result_str _ _ []
              (text-Yields result_str w (text_bytes body ++ []) ht (some_text result_str body hb) vw
                nw)
              λ x vx nx _ _.
                bind-Yields x read_string_vint _ body _ _ []
                  (text-Yields body x [] lb (omega arith) vx nx)
                  λ y vy ny _ _. pure-Yields y (response sn cmd result result_str body) [] vy ny

notify-Yields :
    (code : ℕ) (body : List ℕ) (s : ByteArray)
    → FitsWire (notify code body)
    → IsValid s
    → unread s ≡ groups 4 code ++ (text_bytes body ++ [])
    → Yields s (notify code body) [] (parse_notify s)
unfolding parse_notify
notify-Yields code body s (hc, hb, lb) v next =
    bind-Yields s read_uint32 _ code _ _ [] (read_uint32-Yields code s _ hc v next) λ t vt nt _ _.
      bind-Yields t read_string_vint _ body _ _ [] (text-Yields body t [] lb (omega arith) vt nt)
        λ u vu nu _ _. pure-Yields u (notify code body) [] vu nu

parsed-ok :
    {A : Type 0} (m : Action A) (s : ByteArray) (a : A)
    → Yields s a [] (m s)
    → (parsed m s).0 ≡ ok (some a)
parsed-ok {A} m s a y = join (m s) y.done
  where
    join :
        (r : Outcome A × ByteArray)
        → r.0 ≡ ok a
        → (caught (after r (λ b. pure (some b))) none).0 ≡ ok (some a)
    join (o, t) e = rw e refl

typed-ok :
    (msg : Message) (s : ByteArray)
    → FitsWire msg
    → IsValid s
    → unread s ≡ drop 1 (message_bytes msg)
    → (parse_typed (get_type msg) s).0 ≡ ok (some msg)
unfolding parse_typed get_type message_bytes head_bytes
typed-ok (request sn cmd body) s h v next =
    parsed-ok parse_request s _
      (request-Yields sn cmd body s h v (next ∙ simp (append_assoc, append-nil)))
typed-ok (response sn cmd result result_str body) s h v next =
    parsed-ok parse_response s _
      (response-Yields sn cmd result result_str body s h v (next ∙ simp (append_assoc, append-nil)))
typed-ok (notify code body) s h v next =
    parsed-ok parse_notify s _
      (notify-Yields code body s h v (next ∙ simp (append_assoc, append-nil)))

pub first_byte_of : (msg : Message) → message_bytes msg ≡ get_type msg ∷ drop 1 (message_bytes msg)
unfolding message_bytes head_bytes get_type
first_byte_of (request sn cmd body) = refl
first_byte_of (response sn cmd result result_str body) = refl
first_byte_of (notify code body) = refl

-- From a valid array that holds the bytes of a message that fits the wire, wherever its position
-- is, the message is parsed.
pub parse_body-message_bytes :
    (msg : Message) (s : ByteArray)
    → FitsWire msg
    → IsValid s
    → contents s ≡ message_bytes msg
    → (parse_body s).0 ≡ ok (some msg)
unfolding parse_body
parse_body-message_bytes msg s h v bytes =
    from_set (set_position 0 s) (set_position-Moved 0 s v (omega arith))
  where
    caught-ok :
        {A : Type 0} {a : A} (b : A) (o : Outcome A × ByteArray)
        → o.0 ≡ ok a
        → (caught o b).0 ≡ ok a
    caught-ok b (o, t) e = rw e refl

    from_read :
        (t : ByteArray) (o : Outcome ℕ × ByteArray)
        → Yields t (get_type msg) (drop 1 (message_bytes msg)) o
        → (after o parse_typed).0 ≡ ok (some msg)
    from_read t (o, u) y =
        let e : o ≡ ok (get_type msg) = y.done in rw e (typed-ok msg u h y.valid y.left)

    from_set :
        (o : Outcome (Unit {0}) × ByteArray)
        → Moved s 0 o
        → (caught (after o (λ _. read_fuint8 >>= parse_typed)) none).0 ≡ ok (some msg)
    from_set (o, t) m =
        let e : o ≡ ok tt = m.done in
        let size : t.size ≡ s.size = m.size ∙ ground arith in
        let left : unread t ≡ message_bytes msg =
          ap (λ n. drop n (contents t)) m.position
          ∙ ap (λ n. take n (memory t)) size
          ∙ ap (λ b. take s.size b) m.memory_kept
          ∙ bytes in
        rw e (
          caught-ok none (after (read_fuint8 t) parse_typed) (
            from_read t (read_fuint8 t) (
              read_byte-Yields t (get_type msg) (drop 1 (message_bytes msg)) m.valid
                (left ∙ first_byte_of msg))))

-- What `toByteArray` makes of a message whose fields fit 32 bits, whose strings are shorter than 2^64
-- bytes, and whose body is not empty, is parsed to that message.
pub parse_body-to_byte_array :
    (m : Machine) (msg : Message)
    → FitsWire msg
    → (s : ByteArray) × (to_byte_array m msg ≡ ok (some s)) × ((parse_body s).0 ≡ ok (some msg))
parse_body-to_byte_array m msg h =
    let t = to_byte_array-Serialized m msg h in
    (t.array, t.made, parse_body-message_bytes msg t.array h t.valid t.bytes)
