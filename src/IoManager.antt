-- ===== src/IoManager.antt =====
-- The events that coroutines wait for: yk/iomanager.h, yk/iomanager.cc. Each call is one step, since it
-- holds the lock of the descriptor's context. What `epoll_ctl` and `epoll_wait` answer are arguments.
pub mod Contexts
pub mod Calls
pub mod Waiting
pub mod Reports
mod Runs
use yk_server.Base.{
  ℕ, zero, suc, ◌+◌, ◌-◌, ◌*◌, ◌/◌, ◌^◌, Bool, true, false, not, ◌&&◌, ◌||◌, List, [], ◌∷◌, ◌++◌,
  if◌then◌else◌, leb, ◌==◌, Option, none, some, length, get_elem?, set, take, replicate,
}
use yk_server.ByteArray.State.{sub_size}

-- `READ` and `WRITE`.
pub data Event : Type 0 where
  read : Event
  write : Event

-- What waits for an event: a callback, or a fiber.
pub data Waiter : Type 0 where
  callback : ℕ → Waiter
  fiber_of : ℕ → Waiter

-- `FdContext::EventContext`; pointers and functions may be null.
pub record EventContext : Type 0 where
  pub scheduler : Option ℕ
  pub fiber : Option ℕ
  pub cb : Option ℕ

abbrev pub no_waiter : EventContext
no_waiter = record { scheduler = none; fiber = none; cb = none }

-- `FdContext`, with the bits of `events` one by one.
pub record FdContext : Type 0 where
  pub read_context : EventContext
  pub write_context : EventContext
  pub has_read : Bool
  pub has_write : Bool

abbrev pub new_context : FdContext
new_context = record {
  read_context = no_waiter;
  write_context = no_waiter;
  has_read = false;
  has_write = false;
}

-- `events & event`
abbrev pub has : FdContext → Event → Bool
has c read = c.has_read
has c write = c.has_write

abbrev pub with_bit : FdContext → Event → Bool → FdContext
with_bit c read b = record c { has_read = b }
with_bit c write b = record c { has_write = b }

-- `getContext`
abbrev pub get_context : FdContext → Event → EventContext
get_context c read = c.read_context
get_context c write = c.write_context

abbrev pub with_context : FdContext → Event → EventContext → FdContext
with_context c read e = record c { read_context = e }
with_context c write e = record c { write_context = e }

-- What `schedule(&ctx.cb)` or `schedule(&ctx.fiber)` puts into the queue of scheduler `s`.
abbrev pub scheduled : ℕ → EventContext → List (ℕ × Waiter)
scheduled s e = elim e.cb [
  | some f ↦ (s, callback f) ∷ []
  | none ↦ elim e.fiber [ some f ↦ (s, fiber_of f) ∷ [] | none ↦ [] ]
]

-- What the swap with the queue's entry leaves of an event's context, without its scheduler.
abbrev pub taken : EventContext → EventContext
taken e = elim e.cb [ some f ↦ record e { scheduler = none; cb = none } | none ↦ no_waiter ]

-- `triggerEvent`; `none` is a failing assertion, or a null scheduler.
unfoldable pub trigger_event : FdContext → Event → Option (FdContext × List (ℕ × Waiter))
trigger_event c event = if not (has c event) then none else elim (get_context c event).scheduler [
  | none ↦ none
  | some s ↦ some (
    with_context (with_bit c event false) event (taken (get_context c event)),
    scheduled s (get_context c event),
  )
]

-- What epoll watches a descriptor for.
pub record Interest : Type 0 where
  pub readable : Bool
  pub writable : Bool

-- `m_fdContexts`, `m_pendingEventCount`, what was scheduled, and the interests in the kernel.
pub record IoManager : Type 0 where
  pub contexts : List FdContext
  pub pending : ℕ
  pub queue : List (ℕ × Waiter)
  pub epoll : ℕ → Option Interest

-- How a call ends: with its result, or by a failing assertion.
pub data Call (A : Type 0) : Type 0 where
  done : A → IoManager → Call A
  aborted : Call A

-- `contextResize`, for a size that is not smaller.
abbrev pub context_resize : ℕ → List FdContext → List FdContext
context_resize size cs = take size cs ++ replicate (size - length cs) new_context

-- The part of the constructor that concerns the contexts.
unfoldable pub io_manager : IoManager
io_manager = record { contexts = context_resize 32 []; pending = 0; queue = []; epoll = λ fd. none }

abbrev pub interest_of : FdContext → Interest
interest_of c = record { readable = c.has_read; writable = c.has_write }

abbrev pub watch : ℕ → Option Interest → (ℕ → Option Interest) → ℕ → Option Interest
watch fd i epoll n = if n == fd then i else epoll n

-- `!event_ctx.scheduler && !event_ctx.fiber && !event_ctx.cb`
abbrev pub is_empty : EventContext → Bool
is_empty e = elim e.scheduler [
  | some s ↦ false
  | none ↦ elim e.fiber [ some f ↦ false | none ↦ elim e.cb [ some f ↦ false | none ↦ true ] ]
]

abbrev pub waits : Option ℕ → Waiter → EventContext
waits me (callback f) = record { scheduler = me; fiber = none; cb = some f }
waits me (fiber_of f) = record { scheduler = me; fiber = some f; cb = none }

-- `addEvent` for a descriptor that is not negative; `me` is the scheduler of the thread, `ok` says
-- whether `epoll_ctl` succeeds. The result is whether 0 is returned, and not -1.
unfoldable pub add_event : Option ℕ → Bool → ℕ → Event → Waiter → IoManager → Call Bool
add_event me ok fd event waiter m =
    let contexts =
      if leb (length m.contexts) fd then context_resize (fd * 3 / 2) m.contexts else m.contexts in
    elim (get_elem? contexts fd) [
      | none ↦ aborted
      | some c ↦
          let c' = with_bit c event true in
          if not ok
          then done false (record m { contexts = contexts })
          else if not (is_empty (get_context c event))
          then aborted
          else done true (record m {
            contexts = set contexts fd (with_context c' event (waits me waiter));
            pending = m.pending + 1;
            epoll = watch fd (some (interest_of c')) m.epoll;
          })
    ]

-- Whether an event is left, and what `epoll_ctl` is told then: the code does not set
-- `epevent.events`, so that it is told whatever stands there.
abbrev pub any_left : FdContext → Bool
any_left c = c.has_read || c.has_write

abbrev pub told : Interest → FdContext → Option Interest
told garbage c = if any_left c then some garbage else none

-- `delEvent`
unfoldable pub del_event : Bool → Interest → ℕ → Event → IoManager → Call Bool
del_event ok garbage fd event m = elim (get_elem? m.contexts fd) [
  | none ↦ done false m
  | some c ↦
      let c' = with_bit c event false in
      if not (has c event) || not ok
      then done false m
      else done true (record m {
        contexts = set m.contexts fd (with_context c' event no_waiter);
        pending = sub_size m.pending 1;
        epoll = watch fd (told garbage c') m.epoll;
      })
]

-- `cancelEvent`
unfoldable pub cancel_event : Bool → Interest → ℕ → Event → IoManager → Call Bool
cancel_event ok garbage fd event m = elim (get_elem? m.contexts fd) [
  | none ↦ done false m
  | some c ↦ if not (has c event) || not ok then done false m else elim (trigger_event c event) [
    | none ↦ aborted
    | some (c', calls) ↦ done true (record m {
      contexts = set m.contexts fd c';
      pending = sub_size m.pending 1;
      queue = m.queue ++ calls;
      epoll = watch fd (told garbage c') m.epoll;
    })
  ]
]

-- `if(wanted) { triggerEvent(event); --m_pendingEventCount; }` on the context, what was scheduled,
-- and the counter.
abbrev pub Triggered : Type 0
Triggered = FdContext × List (ℕ × Waiter) × ℕ

unfoldable pub trigger_if : Bool → Event → Triggered → Option Triggered
trigger_if wanted event (c, calls, pending) =
    if not wanted then some (c, calls, pending) else elim (trigger_event c event) [
      | none ↦ none
      | some (c', more) ↦ some (c', calls ++ more, sub_size pending 1)
    ]

abbrev pub both : Bool → Bool → FdContext → ℕ → Option Triggered
both wants_read wants_write c pending = elim (trigger_if wants_read read (c, [], pending)) [
  | none ↦ none
  | some t ↦ trigger_if wants_write write t
]

-- `cancelAll`. The second test is made on the context that the first trigger left, which kept the bit.
unfoldable pub cancel_all : Bool → ℕ → IoManager → Call Bool
cancel_all ok fd m = elim (get_elem? m.contexts fd) [
  | none ↦ done false m
  | some c ↦
      if not (any_left c) || not ok
      then done false m
      else elim (both c.has_read c.has_write c m.pending) [
        | none ↦ aborted
        | some (c', calls, pending) ↦
            if any_left c'
            then aborted
            else done true (record m {
              contexts = set m.contexts fd c';
              pending = pending;
              queue = m.queue ++ calls;
              epoll = watch fd none m.epoll;
            })
      ]
]

-- What `epoll_wait` reports of a descriptor.
pub record Report : Type 0 where
  pub readable : Bool
  pub writable : Bool
  pub failed : Bool

-- One round of the loop of `idle` over the reports, but for that of the pipe.
unfoldable pub handle_report : Bool → ℕ → Report → IoManager → Call (Unit {0})
handle_report ok fd r m = elim (get_elem? m.contexts fd) [
  | none ↦ aborted
  | some c ↦
      let wants_read = r.readable || (r.failed && c.has_read) in
      let wants_write = r.writable || (r.failed && c.has_write) in
      let left : Interest = record {
        readable = c.has_read && not wants_read;
        writable = c.has_write && not wants_write;
      } in
      if not ((c.has_read && wants_read) || (c.has_write && wants_write)) || not ok
      then done tt m
      else elim (both wants_read wants_write c m.pending) [
        | none ↦ aborted
        | some (c', calls, pending) ↦ done tt (record m {
          contexts = set m.contexts fd c';
          pending = pending;
          queue = m.queue ++ calls;
          epoll = watch fd (if left.readable || left.writable then some left else none) m.epoll;
        })
      ]
]

-- `stopping(timeout)`, where the scheduler's own part and the timer's answer are given.
unfoldable pub stopping : Bool → ℕ → IoManager → Bool
stopping scheduler_stopping next_timer m =
    next_timer == 2 ^ 64 - 1 && (m.pending == 0 && scheduler_stopping)
