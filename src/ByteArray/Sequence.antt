-- ===== src/ByteArray/Sequence.antt =====
-- How reads and writes of yk/bytearray.cc follow one another: a read takes its bytes off the unread
-- ones, and a write at the end appends.
use yk_server.Base.{
  ℕ, ◌+◌, ◌-◌, ◌<◌, ◌≡◌, refl, sym, ap, ◌∙◌, List, ◌++◌, length, take, drop, arith, length-append,
  length-take, length-drop, drop-drop, take-append, drop-append,
}
use yk_server.ByteArray.State.{ByteArray, Outcome, Action, memory, ok, pure, after, ◌>>=◌}
use yk_server.ByteArray.Memory.{read}
use yk_server.ByteArray.Layout.{IsValid}
use yk_server.ByteArray.Contents.{contents, unread, memory-length}
use yk_server.ByteArray.Reading.{read-Taken}

-- A call on `s` returned `a` and left `rest` unread.
pub record Yields {A : Type 0} (s : ByteArray) (a : A) (rest : List ℕ) (r : Outcome A × ByteArray)
    : Type 0 where
  pub done : r.0 ≡ ok a
  pub valid : IsValid r.1
  pub left : unread r.1 ≡ rest
  pub contents_kept : contents r.1 ≡ contents s
  pub endian : r.1.endian ≡ s.endian
  pub machine : r.1.machine ≡ s.machine

pub length-contents : (s : ByteArray) → IsValid s → length (contents s) ≡ s.size
length-contents s v = omega (arith, length-take s.size (memory s), memory-length s v, v.fits)

pub length-unread : (s : ByteArray) → IsValid s → length (unread s) ≡ s.size - s.position
length-unread s v = omega (arith, length-drop s.position (contents s), length-contents s v)

pub read-Yields :
    (s : ByteArray) (xs ys : List ℕ)
    → IsValid s
    → 0 < length xs + length ys
    → unread s ≡ xs ++ ys
    → Yields s xs ys (read (length xs) s)
read-Yields s xs ys v some_byte next =
    let long : length xs + length ys ≡ s.size - s.position =
      sym (length-append xs ys) ∙ sym (ap length next) ∙ length-unread s v in
    let t = read-Taken (length xs) s v (omega arith) (omega arith) in
    record {
      done = t.bytes ∙ ap (λ b. ok (take (length xs) b)) next ∙ ap ok (take-append xs ys);
      valid = t.valid;
      left =
          ap (λ p. drop p (contents (read (length xs) s).1)) t.position
          ∙ ap (λ b. drop (s.position + length xs) b) t.contents_kept
          ∙ sym (drop-drop (length xs) s.position (contents s))
          ∙ ap (λ b. drop (length xs) b) next
          ∙ drop-append xs ys;
      contents_kept = t.contents_kept;
      endian = t.endian;
      machine = t.machine;
    }

pub pure-Yields :
    {A : Type 0} (s : ByteArray) (a : A) (rest : List ℕ)
    → IsValid s
    → unread s ≡ rest
    → Yields s a rest (pure a s)
pure-Yields s a rest v next = record {
  done = refl;
  valid = v;
  left = next;
  contents_kept = refl;
  endian = refl;
  machine = refl;
}

pub pure-Yields_eq :
    {A : Type 0} (s : ByteArray) (a b : A) (rest : List ℕ)
    → a ≡ b
    → IsValid s
    → unread s ≡ rest
    → Yields s b rest (pure a s)
pure-Yields_eq s a b rest e v next = rw e (pure-Yields s b rest v next)

-- A call and what follows on its result.
pub bind-Yields :
    {A B : Type 0} (s : ByteArray) (m : Action A) (f : A → Action B) (a : A) (b : B)
    (mid rest : List ℕ)
    → Yields s a mid (m s)
    → ((t : ByteArray)
        → IsValid t
        → unread t ≡ mid
        → t.endian ≡ s.endian
        → t.machine ≡ s.machine
        → Yields t b rest (f a t))
    → Yields s b rest ((m >>= f) s)
bind-Yields {A} {B} s m f a b mid rest first then_ = join (m s) first
  where
    join : (r : Outcome A × ByteArray) → Yields s a mid r → Yields s b rest (after r f)
    join (o, t) y =
        let second = then_ t y.valid y.left y.endian y.machine in
        rw y.done (record {
          done = second.done;
          valid = second.valid;
          left = second.left;
          contents_kept = second.contents_kept ∙ y.contents_kept;
          endian = second.endian ∙ y.endian;
          machine = second.machine ∙ y.machine;
        })
