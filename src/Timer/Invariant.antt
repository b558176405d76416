-- ===== src/Timer/Invariant.antt =====
-- The invariant of yk/timer.cc's manager, and that every operation keeps it: the set is sorted, and
-- a timer has a callback exactly while it is in the set.
use yk_server.Base.{
  ℕ, ◌≡◌, refl, sym, ap, ◌∙◌, Bool, true, false, not, ◌&&◌, ◌||◌, List, ◌==◌, some, none, arith,
  Bool-cases, inl, inr,
}
use yk_server.Timer.{has_cb, timer_manager, add_timer_locked, add_timer, cancel, refresh, reset}
use yk_server.Timer.State.{Timer, TimerManager, update, set_insert, set_find, set_erase}
use yk_server.Timer.Sets.{
  mem, IsSorted, set_insert-IsSorted, mem-set_insert, set_find-mem, set_erase-IsSorted,
  mem-set_erase, IsSorted-cong,
}

pub record IsValid (m : TimerManager) : Type 0 where
  pub sorted : IsSorted m.heap m.timers
  pub live : (q : ℕ) → has_cb (m.heap q) ≡ mem q m.timers

pub timer_manager-IsValid : (now : ℕ) → IsValid (timer_manager now)
unfolding timer_manager
timer_manager-IsValid now = record { sorted = tt; live = λ q. refl }

-- A write to a timer outside the set leaves the order alone.
pub update-IsSorted :
    (heap : ℕ → Timer) (p : ℕ) (t : Timer) (l : List ℕ)
    → mem p l ≡ false
    → IsSorted heap l
    → IsSorted (update heap p t) l
update-IsSorted heap p t l out s = IsSorted-cong heap (update heap p t) l same s
  where
    same : (q : ℕ) → mem q l ≡ true → (update heap p t q).next ≡ (heap q).next
    same q m = ground arith

-- So does a write that keeps the due time.
pub update-IsSorted_same :
    (heap : ℕ → Timer) (p : ℕ) (t : Timer) (l : List ℕ)
    → t.next ≡ (heap p).next
    → IsSorted heap l
    → IsSorted (update heap p t) l
update-IsSorted_same heap p t l keep s = IsSorted-cong heap (update heap p t) l same s
  where
    same : (q : ℕ) → mem q l ≡ true → (update heap p t q).next ≡ (heap q).next
    same q m = ground arith

add_timer_locked-parts :
    (p : ℕ) (m : TimerManager)
    → let m' = (add_timer_locked p m).1 in
      (m'.heap ≡ m.heap)
      × (m'.timers ≡ set_insert m.heap p m.timers)
      × (m'.previous_time ≡ m.previous_time)
unfolding add_timer_locked
add_timer_locked-parts p m = (refl, refl, refl)

-- A timer with a callback that is put into the set.
pub insert-IsValid :
    (p : ℕ) (heap : ℕ → Timer) (timers : List ℕ) (previous : ℕ) (tickled : Bool) (t : Timer)
    → IsSorted heap timers
    → ((q : ℕ) → has_cb (heap q) ≡ mem q timers || q == p && has_cb (heap p))
    → mem p timers ≡ false
    → has_cb t ≡ true
    → IsValid (record {
      heap = update heap p t;
      timers = set_insert (update heap p t) p timers;
      previous_time = previous;
      tickled = tickled;
    })
insert-IsValid p heap timers previous tickled t s live out full = record {
  sorted = set_insert-IsSorted (update heap p t) p timers (update-IsSorted heap p t timers out s);
  live = λ q. ground (arith, live q, mem-set_insert (update heap p t) q p timers);
}

module _ (m : TimerManager) (v : IsValid m) where
  -- In a valid manager, adding a timer at an address that holds no timer with a callback keeps the
  -- manager valid: its set is sorted and has just the timers with a callback.
  pub add_timer-IsValid :
      (p now ms cb : ℕ) (recurring : Bool)
      → has_cb (m.heap p) ≡ false
      → IsValid (add_timer p now ms cb recurring m).1
  unfolding add_timer add_timer_locked
  add_timer-IsValid p now ms cb recurring fresh =
      insert-IsValid p m.heap m.timers m.previous_time _ _ v.sorted (λ q. ground (arith, v.live q))
        (sym (v.live p) ∙ fresh) refl

  abbrev cleared : ℕ → ℕ → Timer
  cleared p = update m.heap p (record (m.heap p) { cb = none })

  cleared-IsSorted : (p : ℕ) → IsSorted (cleared p) m.timers
  cleared-IsSorted p =
      update-IsSorted_same m.heap p (record (m.heap p) { cb = none }) m.timers refl v.sorted

  abbrev without : ℕ → TimerManager
  without p = record m { heap = cleared p; timers = set_erase (cleared p) p m.timers }

  cancel-without : (p : ℕ) → has_cb (m.heap p) ≡ true → cancel p m ≡ some (true, without p)
  unfolding cancel
  cancel-without p alive =
      let found : set_find (cleared p) p m.timers ≡ true =
        set_find-mem (cleared p) p m.timers (cleared-IsSorted p) ∙ sym (v.live p) ∙ alive in
      ground arith

  without-IsValid : (p : ℕ) → has_cb (m.heap p) ≡ true → IsValid (without p)
  without-IsValid p alive =
      let here : mem p m.timers ≡ true = sym (v.live p) ∙ alive in
      record {
        sorted = set_erase-IsSorted (cleared p) p m.timers (cleared-IsSorted p);
        live = λ q.
            ground
              (arith, v.live q, mem-set_erase (cleared p) q p m.timers (cleared-IsSorted p) here);
      }

  cancel-dead : (p : ℕ) → has_cb (m.heap p) ≡ false → cancel p m ≡ some (false, m)
  unfolding cancel
  cancel-dead p dead = ground arith

  -- In a valid manager, `cancel` never erases `end()`. It says true just for a timer that is in the
  -- set; afterwards that timer is not in the set and the others are as before.
  pub cancel_lem :
      (p : ℕ)
      → (m' : TimerManager) × (cancel p m ≡ some (mem p m.timers, m'))
        × IsValid m'
        × ((q : ℕ) → mem q m'.timers ≡ (mem q m.timers && not (q == p)))
  cancel_lem p = elim (Bool-cases (has_cb (m.heap p))) [
    | inl alive ↦
        let here : mem p m.timers ≡ true = sym (v.live p) ∙ alive in
        (
          without p,
          cancel-without p alive ∙ ap (λ (b : Bool). some (b, without p)) (sym here),
          without-IsValid p alive,
          λ q. mem-set_erase (cleared p) q p m.timers (cleared-IsSorted p) here,
        )
    | inr dead ↦
        let gone : mem p m.timers ≡ false = sym (v.live p) ∙ dead in
        (m, cancel-dead p dead ∙ ap (λ (b : Bool). some (b, m)) (sym gone), v, λ q. ground arith)
  ]

  erased : (p : ℕ) → mem p m.timers ≡ true → mem p (set_erase m.heap p m.timers) ≡ false
  erased p here = ground (arith, mem-set_erase m.heap p p m.timers v.sorted here)

  -- Taking a live timer out and putting it back with another due time keeps the manager valid.
  requeue-IsValid :
      (p : ℕ) (t : Timer) (previous : ℕ) (tickled : Bool)
      → has_cb (m.heap p) ≡ true
      → has_cb t ≡ true
      → IsValid (record {
        heap = update m.heap p t;
        timers = set_insert (update m.heap p t) p (set_erase m.heap p m.timers);
        previous_time = previous;
        tickled = tickled;
      })
  requeue-IsValid p t previous tickled alive full =
      let here : mem p m.timers ≡ true = sym (v.live p) ∙ alive in
      insert-IsValid p m.heap (set_erase m.heap p m.timers) previous tickled t
        (set_erase-IsSorted m.heap p m.timers v.sorted)
        (λ q. ground (arith, v.live q, mem-set_erase m.heap q p m.timers v.sorted here))
        (erased p here) full

  -- In a valid manager, `refresh` of any timer, in the set or not, keeps the manager valid.
  pub refresh-IsValid : (p now : ℕ) → IsValid (refresh p now m).1
  unfolding refresh
  refresh-IsValid p now = elim (Bool-cases (has_cb (m.heap p))) [
    | inr dead ↦ rw dead v
    | inl alive ↦
        let found : set_find m.heap p m.timers ≡ true =
          set_find-mem m.heap p m.timers v.sorted ∙ sym (v.live p) ∙ alive in
        rw (alive, found) (requeue-IsValid p _ m.previous_time m.tickled alive alive)
  ]

  -- In a valid manager, `reset` of any timer, in the set or not, with any arguments keeps the manager
  -- valid.
  pub reset-IsValid : (p now ms : ℕ) (from_now : Bool) → IsValid (reset p now ms from_now m).1
  unfolding reset add_timer_locked
  reset-IsValid p now ms from_now = elim (Bool-cases (ms == (m.heap p).ms && not from_now)) [
    | inl same ↦ rw same v
    | inr other ↦ elim (Bool-cases (has_cb (m.heap p))) [
      | inr dead ↦ rw (other, dead) v
      | inl alive ↦
          let found : set_find m.heap p m.timers ≡ true =
            set_find-mem m.heap p m.timers v.sorted ∙ sym (v.live p) ∙ alive in
          rw (other, alive, found) (requeue-IsValid p _ m.previous_time _ alive alive)
    ]
  ]
