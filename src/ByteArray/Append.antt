-- ===== src/ByteArray/Append.antt =====
-- Writes at the end of the data append, and what they appended is read back from there.
use yk_server.Base.{
  ℕ, ◌+◌, ◌≡◌, sym, ap, ◌∙◌, List, [], ◌++◌, length, take, drop, arith, append_assoc, append-nil,
  take_all, drop_all, length-append, drop-append,
}
use yk_server.ByteArray.State.{ByteArray, Outcome, Action, ok, memory, after, ◌>>◌}
use yk_server.ByteArray.Memory.{write, set_position}
use yk_server.ByteArray.Layout.{IsValid}
use yk_server.ByteArray.Contents.{contents, unread}
use yk_server.ByteArray.Transfer.{write-Written}
use yk_server.ByteArray.Reading.{set_position-Moved}
use yk_server.ByteArray.Sequence.{Yields, length-contents}

-- A call on `s`, which stood at the end of its data, appended `bs`.
pub record Appended (s : ByteArray) (bs : List ℕ) (r : Outcome (Unit {0}) × ByteArray)
    : Type 0 where
  pub done : r.0 ≡ ok tt
  pub valid : IsValid r.1
  pub bytes : contents r.1 ≡ contents s ++ bs
  pub at_end : r.1.position ≡ r.1.size
  pub endian : r.1.endian ≡ s.endian
  pub machine : r.1.machine ≡ s.machine

pub write-Appended :
    (s : ByteArray) (bs : List ℕ) → IsValid s → s.position ≡ s.size → Appended s bs (write bs s)
write-Appended s bs v end =
    let w = write-Written bs s v in
    let size : length (contents s) ≡ s.size = length-contents s v in
    let grown : contents (write bs s).1 ≡ contents s ++ bs =
      w.bytes
      ∙ ap (λ b. b ++ (bs ++ drop (s.position + length bs) (contents s)))
          (take_all s.position (contents s) (omega arith))
      ∙ ap (λ b. contents s ++ (bs ++ b))
          (drop_all (s.position + length bs) (contents s) (omega arith))
      ∙ ap (λ b. contents s ++ b) (append-nil bs) in
    record {
      done = w.done;
      valid = w.valid;
      bytes = grown;
      at_end = omega (
        arith,
        w.position,
        length-contents (write bs s).1 w.valid,
        ap length grown,
        length-append (contents s) bs,
      );
      endian = w.endian;
      machine = w.machine;
    }

pub seq-Appended :
    (s : ByteArray) (m k : Action (Unit {0})) (xs ys : List ℕ)
    → Appended s xs (m s)
    → ((t : ByteArray)
        → IsValid t
        → t.position ≡ t.size
        → t.endian ≡ s.endian
        → t.machine ≡ s.machine
        → Appended t ys (k t))
    → Appended s (xs ++ ys) ((m >> k) s)
seq-Appended s m k xs ys first then_ = join (m s) first
  where
    join :
        (r : Outcome (Unit {0}) × ByteArray)
        → Appended s xs r
        → Appended s (xs ++ ys) (after r (λ _. k))
    join (o, t) w =
        let second = then_ t w.valid w.at_end w.endian w.machine in
        rw w.done (record {
          done = second.done;
          valid = second.valid;
          bytes = second.bytes ∙ ap (λ b. b ++ ys) w.bytes ∙ append_assoc (contents s) xs ys;
          at_end = second.at_end;
          endian = second.endian ∙ w.endian;
          machine = second.machine ∙ w.machine;
        })

-- Going back to where the appending began leaves just what was appended unread.
pub record Rewound (s : ByteArray) (bs : List ℕ) (r : Outcome (Unit {0}) × ByteArray) : Type 0 where
  pub done : r.0 ≡ ok tt
  pub valid : IsValid r.1
  pub left : unread r.1 ≡ bs
  pub endian : r.1.endian ≡ s.endian
  pub machine : r.1.machine ≡ s.machine

rewind-Rewound :
    (s t : ByteArray) (bs : List ℕ)
    → IsValid s
    → Appended s bs (ok tt, t)
    → Rewound s bs (set_position s.size t)
rewind-Rewound s t bs v w =
    let long : t.size ≡ s.size + length bs =
      sym (length-contents t w.valid)
      ∙ ap length w.bytes
      ∙ length-append (contents s) bs
      ∙ ap (λ (n : ℕ). n + length bs) (length-contents s v) in
    let vt = w.valid in
    let m = set_position-Moved s.size t vt (omega (arith, vt.fits)) in
    let size : (set_position s.size t).1.size ≡ t.size = m.size ∙ ground arith in
    record {
      done = m.done;
      valid = m.valid;
      left =
          ap (λ p. drop p (contents (set_position s.size t).1)) m.position
          ∙ ap (λ n. drop s.size (take n (memory (set_position s.size t).1))) size
          ∙ ap (λ b. drop s.size (take t.size b)) m.memory_kept
          ∙ ap (λ b. drop s.size b) w.bytes
          ∙ ap (λ n. drop n (contents s ++ bs)) (sym (length-contents s v))
          ∙ drop-append (contents s) bs;
      endian = m.endian ∙ w.endian;
      machine = m.machine ∙ w.machine;
    }

-- What a reader makes of the bytes that a writer appends, it returns when it is called on them.
pub write-read :
    {A : Type 0} (s : ByteArray) (w : Action (Unit {0})) (r : Action A) (a : A) (bs : List ℕ)
    → IsValid s
    → Appended s bs (w s)
    → ((t : ByteArray)
        → IsValid t
        → unread t ≡ bs
        → t.endian ≡ s.endian
        → t.machine ≡ s.machine
        → Yields t a [] (r t))
    → ((w >> (set_position s.size >> r)) s).0 ≡ ok a
write-read {A} s w r a bs v wrote reads = from_write (w s) wrote
  where
    from_set : (o : Outcome (Unit {0}) × ByteArray) → Rewound s bs o → (after o (λ _. r)).0 ≡ ok a
    from_set (o, t) m = rw m.done (reads t m.valid m.left m.endian m.machine).done

    from_write :
        (o : Outcome (Unit {0}) × ByteArray)
        → Appended s bs o
        → (after o (λ _. set_position s.size >> r)).0 ≡ ok a
    from_write (o, t) m =
        let e : o ≡ ok tt = m.done in
        rw e (from_set (set_position s.size t) (rewind-Rewound s t bs v (rw e at m)))
