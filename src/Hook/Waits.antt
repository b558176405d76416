-- ===== src/Hook/Waits.antt =====
-- What the calls of yk/hook.cc return, and what they do until then.
use yk_server.Base.{
  ℕ, ◌≡◌, ◌≢◌, ◌⊎◌, refl, sym, ap, subst, ◌∙◌, true, false, ◌&&◌, List, [], ◌∷◌, ◌++◌,
  if◌then◌else◌, ◌==◌, some, All, inl, inr, arith, append_assoc, Bool-cases,
}
use yk_server.FdManager.{FdCtx, TimeoutType, get_timeout}
use yk_server.IoManager.{Event}
use yk_server.Hook.{
  Reply, result, errno, eintr, eagain, etimedout, Wake, refused, resumed, Effect, call, returns,
  Trace, after, has_timer, wait_effects, io_loop, do_io,
}

-- An answer after which the call is made again.
abbrev pub Retries : ℕ → Reply × Wake → Type 0
Retries to (result n, wake) = true ≡ false
Retries to (errno e, refused f) = e ≡ eintr
Retries to (errno e, resumed fired) =
    (e ≡ eintr) ⊎ ((e ≡ eagain) × ((fired && has_timer to) ≡ false))

-- What is done for it.
abbrev pub retry_effects : ℕ → ℕ → Event → Reply × Wake → List Effect
retry_effects to fd event (result n, wake) = call ∷ []
retry_effects to fd event (errno e, wake) =
    if e == eintr then call ∷ [] else call ∷ wait_effects to fd event wake

abbrev pub all_effects : ℕ → ℕ → Event → List (Reply × Wake) → List Effect
all_effects to fd event [] = []
all_effects to fd event (a ∷ answers) =
    retry_effects to fd event a ++ all_effects to fd event answers

io_loop-cons :
    (to fd : ℕ) (event : Event) (a : Reply × Wake) (answers : List (Reply × Wake))
    → Retries to a
    → io_loop to fd event (a ∷ answers)
      ≡ after (retry_effects to fd event a) (io_loop to fd event answers)
unfolding io_loop
io_loop-cons to fd event (result n, wake) answers h = absurd (grind arith)
io_loop-cons to fd event (errno e, refused f) answers h =
    let again : (e == eintr) ≡ true = ground arith in rw again refl
io_loop-cons to fd event (errno e, resumed fired) answers (inl h) =
    let again : (e == eintr) ≡ true = ground arith in rw again refl
io_loop-cons to fd event (errno e, resumed fired) answers (inr (h, k)) =
    let not_again : (e == eintr) ≡ false = ground arith in
    let blocks : (e == eagain) ≡ true = ground arith in rw (not_again, blocks, k) refl

after-after : (es fs : List Effect) (t : Trace) → after es (after fs t) ≡ after (es ++ fs) t
after-after es fs (gs, o) = ap (λ (l : List Effect). (l, o)) (sym (append_assoc es fs gs))

pub io_loop-append :
    (to fd : ℕ) (event : Event) (before answers : List (Reply × Wake))
    → All (Retries to) before
    → io_loop to fd event (before ++ answers)
      ≡ after (all_effects to fd event before) (io_loop to fd event answers)
io_loop-append to fd event [] answers h = refl
io_loop-append to fd event (a ∷ before) answers (h, hs) =
    io_loop-cons to fd event a (before ++ answers) h
    ∙ ap (after (retry_effects to fd event a)) (io_loop-append to fd event before answers hs)
    ∙ after-after (retry_effects to fd event a) (all_effects to fd event before)
        (io_loop to fd event answers)

-- The context of a socket that waits in the scheduler.
pub record Waits (c : FdCtx) : Type 0 where
  pub opened : c.is_close ≡ false
  pub socket : c.is_socket ≡ true
  pub blocking : c.user_nonblock ≡ false

do_io-io_loop :
    (c : FdCtx) (fd : ℕ) (event : Event) (timeout_so : TimeoutType) (answers : List (Reply × Wake))
    → Waits c
    → do_io true (some c) fd event timeout_so answers
      ≡ io_loop (get_timeout timeout_so c) fd event answers
unfolding do_io
do_io-io_loop c fd event timeout_so answers v = rw (do_io, v.opened, v.socket, v.blocking) refl

-- An answer that ends the loop.
abbrev pub IsFinal : Reply → Type 0
IsFinal (result n) = true ≡ true
IsFinal (errno e) = (e ≢ eintr) × (e ≢ eagain)

io_loop-final :
    (to fd : ℕ) (event : Event) (reply : Reply) (wake : Wake) (answers : List (Reply × Wake))
    → IsFinal reply
    → io_loop to fd event ((reply, wake) ∷ answers) ≡ (call ∷ [], returns reply)
unfolding io_loop
io_loop-final to fd event (result n) wake answers h = refl
io_loop-final to fd event (errno e) wake answers (h, k) =
    let not_again : (e == eintr) ≡ false = ground arith in
    let not_blocked : (e == eagain) ≡ false = ground arith in rw (not_again, not_blocked) refl

-- `do_io` on a socket that may wait makes the call again after each EINTR, and after each EAGAIN when the
-- event came before the timeout or without one; it returns the first other answer, a result or an error,
-- and up to then it has added the event, yielded, and set and cancelled the timer for each EAGAIN, and
-- nothing else.
pub do_io-result :
    (c : FdCtx) (fd : ℕ) (event : Event) (timeout_so : TimeoutType)
    (before after_ : List (Reply × Wake)) (reply : Reply) (wake : Wake)
    → Waits c
    → All (Retries (get_timeout timeout_so c)) before
    → IsFinal reply
    → do_io true (some c) fd event timeout_so (before ++ ((reply, wake) ∷ after_))
      ≡ (all_effects (get_timeout timeout_so c) fd event before ++ (call ∷ []), returns reply)
do_io-result c fd event timeout_so before after_ reply wake v h final =
    do_io-io_loop c fd event timeout_so (before ++ ((reply, wake) ∷ after_)) v
    ∙ io_loop-append (get_timeout timeout_so c) fd event before ((reply, wake) ∷ after_) h
    ∙ ap (after (all_effects (get_timeout timeout_so c) fd event before))
        (io_loop-final (get_timeout timeout_so c) fd event reply wake after_ final)

io_loop-fired :
    (to fd : ℕ) (event : Event) (answers : List (Reply × Wake))
    → has_timer to ≡ true
    → io_loop to fd event ((errno eagain, resumed true) ∷ answers)
      ≡ (call ∷ wait_effects to fd event (resumed true), returns (errno etimedout))
unfolding io_loop
io_loop-fired to fd event answers limited = rw limited refl

-- `do_io` on a socket that may wait fails with ETIMEDOUT, once the timer fires in a wait and the
-- descriptor has a timeout; the timers that were set are cancelled.
pub do_io-timeout :
    (c : FdCtx) (fd : ℕ) (event : Event) (timeout_so : TimeoutType)
    (before after_ : List (Reply × Wake))
    → Waits c
    → All (Retries (get_timeout timeout_so c)) before
    → has_timer (get_timeout timeout_so c) ≡ true
    → do_io true (some c) fd event timeout_so (before ++ ((errno eagain, resumed true) ∷ after_))
      ≡ (
        all_effects (get_timeout timeout_so c) fd event before
            ++ (call ∷ wait_effects (get_timeout timeout_so c) fd event (resumed true)),
        returns (errno etimedout),
      )
do_io-timeout c fd event timeout_so before after_ v h limited =
    do_io-io_loop c fd event timeout_so (before ++ ((errno eagain, resumed true) ∷ after_)) v
    ∙ io_loop-append (get_timeout timeout_so c) fd event before
        ((errno eagain, resumed true) ∷ after_) h
    ∙ ap (after (all_effects (get_timeout timeout_so c) fd event before))
        (io_loop-fired (get_timeout timeout_so c) fd event after_ limited)

-- Whether a wait is not refused.
abbrev pub Resumes : Reply × Wake → Type 0
Resumes (reply, refused e) = true ≡ false
Resumes (reply, resumed fired) = true ≡ true

abbrev pub NotBlocked : Trace → Type 0
NotBlocked (es, o) = (o ≢ returns (errno eagain)) × (o ≢ returns (errno eintr))

io_loop-NotBlocked :
    (to fd : ℕ) (event : Event) (answers : List (Reply × Wake))
    → All Resumes answers
    → NotBlocked (io_loop to fd event answers)
unfolding io_loop
io_loop-NotBlocked to fd event [] h = ((λ e. absurd (grind arith)), (λ e. absurd (grind arith)))
io_loop-NotBlocked to fd event ((result n, wake) ∷ answers) h =
    ((λ e. absurd (grind arith)), (λ e. absurd (grind arith)))
io_loop-NotBlocked to fd event ((errno e, refused f) ∷ answers) (h, hs) = absurd (grind arith)
io_loop-NotBlocked to fd event ((errno e, resumed fired) ∷ answers) (h, hs) =
    elim (Bool-cases (e == eintr)) [
      | inl i ↦ rw i (io_loop-NotBlocked to fd event answers hs)
      | inr i ↦ elim (Bool-cases (e == eagain)) [
        | inl b ↦ elim (Bool-cases (fired && has_timer to)) [
          | inl k ↦ rw (i, b, k) ((λ e. absurd (grind arith)), (λ e. absurd (grind arith)))
          | inr k ↦ rw (i, b, k) (io_loop-NotBlocked to fd event answers hs)
        ]
        | inr b ↦ rw (i, b) ((λ k. ground arith), (λ k. ground arith))
      ]
    ]

-- `do_io` on a socket that may wait never fails with EAGAIN or EINTR, whatever the kernel answers, where
-- no wait is refused.
pub do_io-NotBlocked :
    (c : FdCtx) (fd : ℕ) (event : Event) (timeout_so : TimeoutType) (answers : List (Reply × Wake))
    → Waits c
    → All Resumes answers
    → NotBlocked (do_io true (some c) fd event timeout_so answers)
do_io-NotBlocked c fd event timeout_so answers v h =
    subst NotBlocked (sym (do_io-io_loop c fd event timeout_so answers v))
      (io_loop-NotBlocked (get_timeout timeout_so c) fd event answers h)
