-- ===== src/Timer/Runs.antt =====
-- Runs of the operations of yk/timer.cc on a manager with one timer.
use yk_server.Base.{ℕ, ◌≡◌, refl, true, false, not, ◌&&◌, [], ◌∷◌, ◌==◌, some, none, arith}
use yk_server.Timer.State.{Timer, TimerManager, update}
use yk_server.Timer.{add_timer, cancel, list_expired_cb}
use yk_server.Timer.Sets.{mem}
use yk_server.Timer.Invariant.{IsValid, add_timer-IsValid, cancel_lem}
use yk_server.Timer.Firing.{Expired, rolled_over, list_expired_cb_lem}

abbrev no_timer : Timer
no_timer = record { recurring = false; ms = 0; next = 0; cb = none }

-- Timer 7 rings each 50 ms, at 150 next.
abbrev one_timer : TimerManager
one_timer = record {
  heap = update (λ _. no_timer) 7 (record { recurring = true; ms = 50; next = 150; cb = some 1 });
  timers = 7 ∷ [];
  previous_time = 100;
  tickled = false;
}

one_timer-IsValid : IsValid one_timer
one_timer-IsValid = record { sorted = (tt, tt); live = λ q. ground arith }

add_timer-IsValid_example : IsValid (add_timer 9 100 20 2 false one_timer).1
add_timer-IsValid_example = add_timer-IsValid one_timer one_timer-IsValid 9 100 20 2 false refl

cancel_lem_example :
    (m' : TimerManager) × (cancel 7 one_timer ≡ some (true, m'))
    × IsValid m'
    × ((q : ℕ) → mem q m'.timers ≡ (mem q (7 ∷ []) && not (q == 7)))
cancel_lem_example = cancel_lem one_timer one_timer-IsValid 7

list_expired_cb_lem_example :
    Expired (rolled_over 200 one_timer) 200 one_timer (list_expired_cb 8 200 one_timer)
list_expired_cb_lem_example = list_expired_cb_lem 8 200 one_timer one_timer-IsValid refl
