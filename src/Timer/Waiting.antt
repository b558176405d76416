-- ===== src/Timer/Waiting.antt =====
-- `getNextTimer` of yk/timer.cc: how long the scheduler may sleep.
use yk_server.Base.{ℕ, ◌-◌, ◌^◌, ◌≤◌, ◌≡◌, refl, ap, ◌∙◌, true, List, [], ◌∷◌, arith}
use yk_server.Timer.{get_next_timer}
use yk_server.Timer.State.{Timer, TimerManager, less, before}
use yk_server.Timer.Sets.{mem, AllAfter, IsSorted}
use yk_server.Timer.Invariant.{IsValid}

before-le : (heap : ℕ → Timer) (p q : ℕ) → before heap p q ≡ true → (heap p).next ≤ (heap q).next
unfolding less
before-le heap p q h = ground arith

head-le :
    (heap : ℕ → Timer) (p q : ℕ) (l : List ℕ)
    → AllAfter heap p l
    → mem q l ≡ true
    → (heap p).next ≤ (heap q).next
head-le heap p q [] a h = cc
head-le heap p q (r ∷ l) a h = ground (arith, before-le heap p r a.0, head-le heap p q l a.1)

get_next_timer-cons :
    (now : ℕ) (m : TimerManager) (p : ℕ) (ps : List ℕ)
    → m.timers ≡ p ∷ ps
    → (get_next_timer now m).0 ≡ (m.heap p).next - now
unfolding get_next_timer
get_next_timer-cons now m p ps e = ground arith

get_next_timer-nil :
    (now : ℕ) (m : TimerManager) → m.timers ≡ [] → (get_next_timer now m).0 ≡ 2 ^ 64 - 1
unfolding get_next_timer
get_next_timer-nil now m e = ground arith

-- In a valid manager without timers the answer is the largest uint64. Otherwise no timer is due sooner than the answer
-- says, and some timer is due just then, or is due already where the answer is 0.
pub get_next_timer_lem :
    (now : ℕ) (m : TimerManager)
    → IsValid m
    → (m.timers ≡ [] → (get_next_timer now m).0 ≡ 2 ^ 64 - 1)
      × ((q : ℕ) → mem q m.timers ≡ true → (get_next_timer now m).0 ≤ (m.heap q).next - now)
      × ((q : ℕ)
          → mem q m.timers ≡ true
          → (p : ℕ) × (mem p m.timers ≡ true) × ((get_next_timer now m).0 ≡ (m.heap p).next - now))
get_next_timer_lem now m v =
    (get_next_timer-nil now m, soonest m.timers refl, reached m.timers refl)
  where
    soonest :
        (l : List ℕ)
        → m.timers ≡ l
        → (q : ℕ) → mem q m.timers ≡ true
        → (get_next_timer now m).0 ≤ (m.heap q).next - now
    soonest [] e q h = ground (arith, ap (mem q) e)
    soonest (p ∷ ps) e q h =
        let s : IsSorted m.heap (p ∷ ps) = rw e at v.sorted in
        ground (arith, ap (mem q) e, get_next_timer-cons now m p ps e, head-le m.heap p q ps s.0)

    reached :
        (l : List ℕ)
        → m.timers ≡ l
        → (q : ℕ) → mem q m.timers ≡ true
        → (p : ℕ) × (mem p m.timers ≡ true) × ((get_next_timer now m).0 ≡ (m.heap p).next - now)
    reached [] e q h = absurd (ground (arith, ap (mem q) e))
    reached (p ∷ ps) e q h = (p, ap (mem p) e ∙ ground arith, get_next_timer-cons now m p ps e)
