-- ===== src/Hook.antt =====
-- The system calls that yk/hook.cc replaces: input and output that waits in the scheduler, connecting, and
-- sleeping. What the kernel answers, and how a wait ends, is an argument.
pub mod Waits
pub mod Flags
mod Runs
use yk_server.Base.{
  ℕ, ◌+◌, ◌*◌, ◌/◌, ◌%◌, ◌^◌, Bool, true, false, not, ◌&&◌, ◌||◌, List, [], ◌∷◌, ◌++◌,
  if◌then◌else◌, ◌==◌, Option, none, some,
}
use yk_server.Base.Ints.{size_of_int}
use yk_server.FdManager.{FdCtx, TimeoutType, get_timeout, no_timeout}
use yk_server.IoManager.{Event, read, write}

-- What a call of the original function answers: a result that is not -1, or -1 with an `errno`.
pub data Reply : Type 0 where
  result : ℕ → Reply
  errno : ℕ → Reply

-- EINTR, EBADF, EAGAIN, ETIMEDOUT and EINPROGRESS on Linux.
abbrev pub eintr : ℕ
eintr = 4

abbrev pub ebadf : ℕ
ebadf = 9

abbrev pub eagain : ℕ
eagain = 11

abbrev pub etimedout : ℕ
etimedout = 110

abbrev pub einprogress : ℕ
einprogress = 115

-- How `addEvent` and the wait behind it end: it is refused with an `errno`, or the fiber is resumed, and
-- the timer has fired or not.
pub data Wake : Type 0 where
  refused : ℕ → Wake
  resumed : Bool → Wake

-- What a call does besides: the original function is called, a timer is set for some milliseconds and
-- cancelled, an event of a descriptor is added, and the fiber yields.
pub data Effect : Type 0 where
  call : Effect
  set_timer : ℕ → Effect
  cancel_timer : Effect
  add_event : ℕ → Event → Effect
  yields : Effect

-- How a call ends; `waiting` is where no further answers are given.
pub data Outcome : Type 0 where
  returns : Reply → Outcome
  waiting : Outcome

abbrev pub Trace : Type 0
Trace = List Effect × Outcome

abbrev pub after : List Effect → Trace → Trace
after es (fs, o) = (es ++ fs, o)

abbrev pub has_timer : ℕ → Bool
has_timer to = not (to == no_timeout)

abbrev pub timer_set : ℕ → List Effect
timer_set to = if has_timer to then set_timer to ∷ [] else []

abbrev pub timer_cancelled : ℕ → List Effect
timer_cancelled to = if has_timer to then cancel_timer ∷ [] else []

-- What is done for one EAGAIN, up to its end.
abbrev pub wait_effects : ℕ → ℕ → Event → Wake → List Effect
wait_effects to fd event (refused e) = timer_set to ++ (add_event fd event ∷ timer_cancelled to)
wait_effects to fd event (resumed fired) =
    timer_set to ++ (add_event fd event ∷ (yields ∷ timer_cancelled to))

-- How the wait ends, with what follows where the call is made again.
abbrev pub woken : ℕ → Wake → Trace → Trace
woken to (refused e) again = ([], returns (errno e))
woken to (resumed fired) again =
    if fired && has_timer to then ([], returns (errno etimedout)) else again

-- The loop of `do_io` from `retry`, over the answers of the original function and of the waits.
unfoldable pub io_loop : ℕ → ℕ → Event → List (Reply × Wake) → Trace
io_loop to fd event [] = ([], waiting)
io_loop to fd event ((result n, wake) ∷ answers) = (call ∷ [], returns (result n))
io_loop to fd event ((errno e, wake) ∷ answers) =
    let again = io_loop to fd event answers in
    if e == eintr
    then after (call ∷ []) again
    else if e == eagain
    then after (call ∷ wait_effects to fd event wake) (woken to wake again)
    else (call ∷ [], returns (errno e))

abbrev pub call_once : List (Reply × Wake) → Trace
call_once [] = ([], waiting)
call_once ((reply, wake) ∷ answers) = (call ∷ [], returns reply)

-- `do_io`, where `ctx` is what FdMgr has for the descriptor.
unfoldable pub do_io : Bool → Option FdCtx → ℕ → Event → TimeoutType → List (Reply × Wake) → Trace
do_io enabled ctx fd event timeout_so answers =
    if not enabled then call_once answers else elim ctx [
      | none ↦ call_once answers
      | some c ↦
          if c.is_close
          then ([], returns (errno ebadf))
          else if not c.is_socket || c.user_nonblock
          then call_once answers
          else io_loop (get_timeout timeout_so c) fd event answers
    ]

-- The end of `connect_with_timeout`, by what `getsockopt` gives for SO_ERROR.
abbrev pub connect_error : Option ℕ → Reply → Reply
connect_error none failure = failure
connect_error (some e) failure = if e == 0 then result 0 else errno e

abbrev pub connected : ℕ → Wake → Option ℕ → Reply → Trace
connected to (refused e) so_error failure = ([], returns (connect_error so_error failure))
connected to (resumed fired) so_error failure =
    if fired && has_timer to
    then ([], returns (errno etimedout))
    else ([], returns (connect_error so_error failure))

-- `connect_with_timeout`, with the answer of `connect`, how the wait ends, SO_ERROR (`none` where
-- `getsockopt` fails), and that failure.
unfoldable pub connect_with_timeout :
    Bool → Option FdCtx → ℕ → ℕ → Reply → Wake → Option ℕ → Reply → Trace
connect_with_timeout enabled ctx fd timeout_ms reply wake so_error failure =
    if not enabled then (call ∷ [], returns reply) else elim ctx [
      | none ↦ ([], returns (errno ebadf))
      | some c ↦
          if c.is_close
          then ([], returns (errno ebadf))
          else if not c.is_socket || c.user_nonblock
          then (call ∷ [], returns reply)
          else elim reply [
            | result n ↦ (call ∷ [], returns (result n))
            | errno e ↦
                if not (e == einprogress)
                then (call ∷ [], returns (errno e))
                else after (call ∷ wait_effects timeout_ms fd write wake)
                    (connected timeout_ms wake so_error failure)
          ]
    ]

-- The timer that `sleep`, `usleep` and `nanosleep` set, in milliseconds, and whether the fiber yields. The
-- products of unsigned numbers wrap; the sum of
-- `nanosleep` is cut to an `int`, which becomes a `uint64_t`.
unfoldable pub sleep : ℕ → List Effect
sleep seconds = set_timer (seconds * 1000 % 2 ^ 32) ∷ yields ∷ []

unfoldable pub usleep : ℕ → List Effect
usleep usec = set_timer (usec * 1000 % 2 ^ 32) ∷ yields ∷ []

unfoldable pub nanosleep : ℕ → ℕ → List Effect
nanosleep tv_sec tv_nsec = set_timer (size_of_int ((tv_sec * 1000 + tv_nsec) % 2 ^ 32)) ∷ []
