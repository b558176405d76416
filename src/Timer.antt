-- ===== src/Timer.antt =====
-- The methods of `Timer` and `TimerManager` of yk/timer.cc. The clock is an argument of those that
-- read it, and the address of a new object of those that allocate one.
mod Runs
pub mod State
pub mod Sets
pub mod Invariant
pub mod Expiry
pub mod Firing
pub mod Waiting
use yk_server.Base.{
  ℕ, ◌+◌, ◌*◌, Bool, true, false, not, ◌&&◌, List, [], ◌∷◌, ◌++◌, if◌then◌else◌, ltb, leb, ◌==◌,
  Option, none, some,
}
use State.{
  Timer, TimerManager, u64, sub64, update, set_insert, set_find, set_erase, lower_bound, skip_now,
}

abbrev pub has_cb : Timer → Bool
has_cb t = elim t.cb [ none ↦ false | some _ ↦ true ]

-- `TimerManager::TimerManager` at the time `now`; no address holds a timer with a callback.
unfoldable pub timer_manager : ℕ → TimerManager
timer_manager now = record {
  heap = λ _. record { recurring = false; ms = 0; next = 0; cb = none };
  timers = [];
  previous_time = now;
  tickled = false;
}

-- `addTimer(Timer::ptr, WriteLock&)`. The Boolean says whether `onTimerInsertedAtFront` is called.
abbrev is_head : ℕ → List ℕ → Bool
is_head p [] = false
is_head p (q ∷ qs) = p == q

unfoldable pub add_timer_locked : ℕ → TimerManager → Bool × TimerManager
unfolding set_insert
add_timer_locked p m =
    let timers' = set_insert m.heap p m.timers in
    let at_front = is_head p timers' && not m.tickled in
    (at_front, record m { timers = timers'; tickled = if at_front then true else m.tickled })

-- `addTimer(uint64_t, std::function<void()>, bool)` for the new object at address `p`.
unfoldable pub add_timer : ℕ → ℕ → ℕ → ℕ → Bool → TimerManager → Bool × TimerManager
unfolding add_timer_locked
add_timer p now ms cb recurring m =
    let timer : Timer = record {
      recurring = recurring;
      ms = ms;
      next = u64 (now + ms);
      cb = some cb;
    } in
    add_timer_locked p (record m { heap = update m.heap p timer })

-- `OnTimer`: the callback of a condition timer is called if its condition still lives.
unfoldable pub on_timer : Bool → ℕ → List ℕ
on_timer alive cb = if alive then cb ∷ [] else []

-- `Timer::cancel`; erasing `end()` is undefined, `none`.
unfoldable pub cancel : ℕ → TimerManager → Option (Bool × TimerManager)
unfolding set_find set_erase
cancel p m =
    let timer = m.heap p in
    let heap' = update m.heap p (record timer { cb = none }) in
    if has_cb timer
    then if set_find heap' p m.timers
      then some (true, record m { heap = heap'; timers = set_erase heap' p m.timers })
      else none
    else some (false, m)

-- `Timer::refresh`
unfoldable pub refresh : ℕ → ℕ → TimerManager → Bool × TimerManager
unfolding set_find set_erase set_insert
refresh p now m =
    let timer = m.heap p in
    let heap' = update m.heap p (record timer { next = u64 (now + timer.ms) }) in
    if not (has_cb timer)
    then (false, m)
    else if not (set_find m.heap p m.timers)
    then (false, m)
    else (
      true,
      record m { heap = heap'; timers = set_insert heap' p (set_erase m.heap p m.timers) },
    )

-- `Timer::reset`: what it returns, and whether `onTimerInsertedAtFront` is called.
unfoldable pub reset : ℕ → ℕ → ℕ → Bool → TimerManager → (Bool × Bool) × TimerManager
unfolding set_find set_erase add_timer_locked
reset p now ms from_now m =
    let timer = m.heap p in
    let start = if from_now then now else sub64 timer.next timer.ms in
    let heap' = update m.heap p (record timer { ms = ms; next = u64 (start + ms) }) in
    let (front, m') =
      add_timer_locked p (record m { heap = heap'; timers = set_erase m.heap p m.timers }) in
    if ms == timer.ms && not from_now
    then ((true, false), m)
    else if not (has_cb timer)
    then ((false, false), m)
    else if not (set_find m.heap p m.timers)
    then ((false, false), m)
    else ((true, front), m')

-- `getNextTimer`
unfoldable pub get_next_timer : ℕ → TimerManager → ℕ × TimerManager
get_next_timer now m =
    let m' = record m { tickled = false } in
    elim m.timers [
      | [] ↦ (sub64 0 1, m')
      | p ∷ _ ↦ if leb (m.heap p).next now then (0, m') else (sub64 (m.heap p).next now, m')
    ]

unfoldable pub has_time : TimerManager → Bool
has_time m = elim m.timers [ [] ↦ false | _ ↦ true ]

-- `detectClockRollover`
unfoldable pub detect_clock_rollover : ℕ → TimerManager → Bool × TimerManager
detect_clock_rollover now m = (
  ltb now m.previous_time && ltb now (sub64 m.previous_time (60 * 60 * 1000)),
  record m { previous_time = now },
)

-- One round of the loop over `expired`.
unfoldable pub rearm : ℕ → ℕ → TimerManager → TimerManager
unfolding set_insert
rearm now p m =
    let timer = m.heap p in
    let heap' = update m.heap p (record timer { next = u64 (now + timer.ms) }) in
    if timer.recurring
    then record m { heap = heap'; timers = set_insert heap' p m.timers }
    else record m { heap = update m.heap p (record timer { cb = none }) }

unfoldable pub fire : ℕ → List ℕ → TimerManager → List (Option ℕ) × TimerManager
unfolding rearm
fire now [] m = ([], m)
fire now (p ∷ ps) m = let (cbs, m') = fire now ps (rearm now p m) in ((m.heap p).cb ∷ cbs, m')

-- The expired timers and the others; `probe` is the address of `now_timer`.
unfoldable pub split_expired : ℕ → ℕ → Bool → (ℕ → Timer) → List ℕ → List ℕ × List ℕ
unfolding lower_bound skip_now
split_expired probe now rollover heap timers =
    let heap' = update heap probe (record { recurring = false; ms = 0; next = now; cb = none }) in
    let (front, back) = lower_bound heap' probe timers in
    let (due, later) = skip_now heap' now back in
    if rollover then (timers, []) else (front ++ due, later)

abbrev pub first_after : ℕ → (ℕ → Timer) → List ℕ → Bool
first_after now heap [] = false
first_after now heap (p ∷ _) = ltb now (heap p).next

-- `listExpiredCb`: the callbacks that it adds to `cbs`.
unfoldable pub list_expired_cb : ℕ → ℕ → TimerManager → List (Option ℕ) × TimerManager
unfolding has_time detect_clock_rollover
list_expired_cb probe now m =
    let (rollover, m') = detect_clock_rollover now m in
    let (expired, later) = split_expired probe now rollover m'.heap m'.timers in
    if not (has_time m)
    then ([], m)
    else if not rollover && first_after now m'.heap m'.timers
    then ([], m')
    else fire now expired (record m' { timers = later })
