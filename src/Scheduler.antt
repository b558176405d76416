-- ===== src/Scheduler.antt =====
-- Coroutines and their scheduler: yk/fiber.h, yk/fiber.cc, yk/scheduler.h, yk/scheduler.cc. Fibers are numbers.
-- What runs between a switch to a fiber and the switch back, in this thread and in others, is an
-- argument: a change of the scheduler.
pub mod Picking
pub mod Turns
pub mod Soundness
pub mod Rounds
pub mod Endings
mod Runs
use yk_server.Base.{
  ℕ, ◌+◌, ◌-◌, Bool, true, false, not, ◌&&◌, ◌||◌, List, [], ◌∷◌, ◌++◌, if◌then◌else◌, ◌==◌, Option,
  none, some,
}
use yk_server.ByteArray.State.{sub_size}

-- `Fiber::State`
pub data FiberState : Type 0 where
  init : FiberState
  hold : FiberState
  exec : FiberState
  term : FiberState
  ready : FiberState
  except : FiberState

abbrev pub is_exec : FiberState → Bool
is_exec exec = true
is_exec s = false

abbrev pub is_ready : FiberState → Bool
is_ready ready = true
is_ready s = false

-- `TERM` or `EXCEPT`
abbrev pub is_over : FiberState → Bool
is_over term = true
is_over except = true
is_over s = false

abbrev pub is_term : FiberState → Bool
is_term term = true
is_term s = false

-- The assertion in `Fiber::reset` and in `~Fiber` of a fiber that has a stack.
abbrev pub is_idle : FiberState → Bool
is_idle init = true
is_idle s = is_over s

-- `Fiber`, with its state and its callback.
pub record Fiber : Type 0 where
  pub state : FiberState
  pub cb : Option ℕ

-- `FiberAndThread`; a thread of -1 is `none`.
pub record FiberAndThread : Type 0 where
  pub fiber : Option ℕ
  pub cb : Option ℕ
  pub thread : Option ℕ

-- The parts of `Scheduler` that tasks change, all fibers, the next number of a fiber, and how often
-- `tickle` was called.
pub record Scheduler : Type 0 where
  pub fibers : List FiberAndThread
  pub fiber : ℕ → Fiber
  pub next_id : ℕ
  pub active : ℕ
  pub idle : ℕ
  pub is_stopping : Bool
  pub auto_stop : Bool
  pub tickles : ℕ

abbrev pub set_fiber : ℕ → Fiber → Scheduler → Scheduler
set_fiber f x s = record s { fiber = λ g. if g == f then x else s.fiber g }

abbrev pub set_state : ℕ → FiberState → Scheduler → Scheduler
set_state f x s = set_fiber f (record { state = x; cb = (s.fiber f).cb }) s

abbrev pub tickle_if : Bool → Scheduler → Scheduler
tickle_if wanted s = if wanted then record s { tickles = s.tickles + 1 } else s

abbrev pub is_some : Option ℕ → Bool
is_some (some f) = true
is_some none = false

-- `ft.fiber || ft.cb`
abbrev pub has_task : FiberAndThread → Bool
has_task ft = is_some ft.fiber || is_some ft.cb

abbrev pub is_nil : List FiberAndThread → Bool
is_nil [] = true
is_nil (ft ∷ fts) = false

-- `scheduleNoLock`: what is appended, and whether it wants a tickle.
unfoldable pub schedule_no_lock : FiberAndThread → List FiberAndThread → Bool × List FiberAndThread
schedule_no_lock ft fts = (is_nil fts, if has_task ft then fts ++ (ft ∷ []) else fts)

unfoldable pub schedule : FiberAndThread → Scheduler → Scheduler
schedule ft s =
    let (need_tickle, fts) = schedule_no_lock ft s.fibers in
    tickle_if need_tickle (record s { fibers = fts })

-- The loop of `schedule` over a range, with the entries that it makes for thread -1.
unfoldable pub schedule_loop :
    List FiberAndThread → Bool → List FiberAndThread → Bool × List FiberAndThread
schedule_loop [] need_tickle fts = (need_tickle, fts)
schedule_loop (ft ∷ more) need_tickle fts =
    let (empty, fts') = schedule_no_lock ft fts in schedule_loop more (empty || need_tickle) fts'

unfoldable pub schedule_all : List FiberAndThread → Scheduler → Scheduler
schedule_all more s =
    let (need_tickle, fts) = schedule_loop more false s.fibers in
    tickle_if need_tickle (record s { fibers = fts })

-- Where the loop of `run` over the queue stops: with a task, what is left and `tickle_me`; at the end;
-- or with an assertion that fails.
pub data Pick : Type 0 where
  picked : FiberAndThread → List FiberAndThread → Bool → Pick
  nothing : Bool → Pick
  bad_entry : Pick

abbrev pub skipping : FiberAndThread → Bool → Pick → Pick
skipping ft other (picked found rest tickle_me) = picked found (ft ∷ rest) (other || tickle_me)
skipping ft other (nothing tickle_me) = nothing (other || tickle_me)
skipping ft other bad_entry = bad_entry

-- `it->thread != -1 && it->thread != yk::GetThreadId()`
abbrev pub is_elsewhere : ℕ → FiberAndThread → Bool
is_elsewhere me ft = elim ft.thread [ none ↦ false | some t ↦ not (t == me) ]

-- `it->fiber && it->fiber->getState() == Fiber::EXEC`
abbrev pub is_running : (ℕ → Fiber) → FiberAndThread → Bool
is_running fiber ft = elim ft.fiber [ none ↦ false | some f ↦ is_exec (fiber f).state ]

unfoldable pub pick : ℕ → (ℕ → Fiber) → List FiberAndThread → Pick
pick me fiber [] = nothing false
pick me fiber (ft ∷ fts) =
    if is_elsewhere me ft
    then skipping ft true (pick me fiber fts)
    else if not (has_task ft)
    then bad_entry
    else if is_running fiber ft
    then skipping ft false (pick me fiber fts)
    else picked ft fts (not (is_nil fts))

-- `swapIn`, the run of the fiber, and its `swapOut`; `none` is a failing assertion: the one in `swapIn`, or
-- the last one of `MainFunc`, to which a fiber comes that is over and is resumed.
unfoldable pub swap_in : (ℕ → Scheduler → Scheduler) → ℕ → Scheduler → Option Scheduler
swap_in body f s =
    if is_exec (s.fiber f).state || is_over (s.fiber f).state
    then none
    else some (body f (set_state f exec s))

-- `Fiber::reset` of a fiber that has a stack.
unfoldable pub reset : ℕ → Option ℕ → Scheduler → Option Scheduler
reset f cb s =
    if is_idle (s.fiber f).state
    then some (set_fiber f (record { state = init; cb = cb }) s)
    else none

-- `Fiber::Fiber(cb)`
abbrev pub new_fiber : Option ℕ → Scheduler → ℕ × Scheduler
new_fiber cb s = (
  s.next_id,
  record (set_fiber s.next_id (record { state = init; cb = cb }) s) { next_id = s.next_id + 1 },
)

-- How `MainFunc` leaves the fiber when its callback returns, or throws.
unfoldable pub main_func : Bool → Fiber → Fiber
main_func returns x =
    if returns then record { state = term; cb = none } else record x { state = except }

-- `YieldToReady` and `YieldToHold`, up to the switch.
unfoldable pub yield : Bool → Fiber → Fiber
yield to_ready x = if to_ready then record x { state = ready } else x

-- How a round of `run` ends: with the worker's `cb_fiber`, at the break, or by a failing assertion.
pub data Round : Type 0 where
  goes_on : Option ℕ → Scheduler → Round
  ended : Scheduler → Round
  failed : Round

abbrev pub less_active : Scheduler → Scheduler
less_active s = record s { active = sub_size s.active 1 }

abbrev pub of_fiber : ℕ → FiberAndThread
of_fiber f = record { fiber = some f; cb = none; thread = none }

-- What `run` does after a task's fiber swapped out.
unfoldable pub settle_fiber : ℕ → Option ℕ → Scheduler → Round
settle_fiber f cb_fiber s =
    let s' = less_active s in
    let state = (s.fiber f).state in
    if is_ready state
    then goes_on cb_fiber (schedule (of_fiber f) s')
    else if is_over state
    then goes_on cb_fiber s'
    else goes_on cb_fiber (set_state f hold s')

-- What `run` does after the fiber of a callback swapped out.
unfoldable pub settle_callback : ℕ → Scheduler → Round
settle_callback f s =
    let s' = less_active s in
    let state = (s.fiber f).state in
    if is_ready state
    then goes_on none (schedule (of_fiber f) s')
    else if is_over state
    then elim (reset f none s') [ none ↦ failed | some s'' ↦ goes_on (some f) s'' ]
    else goes_on none (set_state f hold s')

-- The worker's fiber with the callback `cb`.
unfoldable pub callback_fiber : ℕ → Option ℕ → Scheduler → Option (ℕ × Scheduler)
callback_fiber cb (some f) s = elim (reset f (some cb) s) [ none ↦ none | some s' ↦ some (f, s') ]
callback_fiber cb none s = some (new_fiber (some cb) s)

-- `ft.fiber && (ft.fiber->getState() != Fiber::TERM && ft.fiber->getState() != Fiber::EXCEPT)`
abbrev pub task_fiber : FiberAndThread → Scheduler → Option ℕ
task_fiber ft s = elim ft.fiber [
  | none ↦ none
  | some f ↦ if is_over (s.fiber f).state then none else some f
]

-- A task that was picked.
unfoldable pub run_task :
    (ℕ → Scheduler → Scheduler) → Option ℕ → FiberAndThread → Scheduler → Round
run_task body cb_fiber ft s = elim (task_fiber ft s) [
  | some f ↦ elim (swap_in body f s) [ none ↦ failed | some s' ↦ settle_fiber f cb_fiber s' ]
  | none ↦ elim ft.cb [
    | none ↦ goes_on cb_fiber (less_active s)
    | some cb ↦ elim (callback_fiber cb cb_fiber s) [
      | none ↦ failed
      | some (f, s') ↦ elim (swap_in body f s') [ none ↦ failed | some s'' ↦ settle_callback f s'' ]
    ]
  ]
]

-- What `run` does when it found no task.
unfoldable pub run_idle : (ℕ → Scheduler → Scheduler) → ℕ → Option ℕ → Scheduler → Round
run_idle body idle_fiber cb_fiber s =
    if is_term (s.fiber idle_fiber).state
    then ended s
    else elim (swap_in body idle_fiber (record s { idle = s.idle + 1 })) [
      | none ↦ failed
      | some s' ↦
          let s'' = record s' { idle = sub_size s'.idle 1 } in
          goes_on cb_fiber
            (if is_over (s'.fiber idle_fiber).state then s'' else set_state idle_fiber hold s'')
    ]

-- A round of the loop of `run` in thread `me`.
unfoldable pub run_round : (ℕ → Scheduler → Scheduler) → ℕ → ℕ → Option ℕ → Scheduler → Round
run_round body me idle_fiber cb_fiber s = elim (pick me s.fiber s.fibers) [
  | bad_entry ↦ failed
  | nothing tickle_me ↦ run_idle body idle_fiber cb_fiber (tickle_if tickle_me s)
  | picked ft rest tickle_me ↦
      run_task body cb_fiber ft
        (tickle_if tickle_me (record s { fibers = rest; active = s.active + 1 }))
]

-- `stopping`
unfoldable pub stopping : Scheduler → Bool
stopping s = s.auto_stop && (s.is_stopping && (is_nil s.fibers && s.active == 0))
