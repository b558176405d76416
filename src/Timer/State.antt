-- ===== src/Timer/State.antt =====
-- yk/timer.h, yk/timer.cc: timers on a heap, and the set of pointers that the manager keeps sorted.
use yk_server.Base.{
  ℕ, ◌+◌, ◌-◌, ◌%◌, ◌^◌, Bool, true, false, not, List, [], ◌∷◌, if◌then◌else◌, ltb, leb, ◌==◌,
  Option, none, some,
}

-- A callback is a number; `none` is the empty function.
pub record Timer : Type 0 where
  pub recurring : Bool
  pub ms : ℕ
  pub next : ℕ
  pub cb : Option ℕ

-- A `Timer::ptr` is an address of the heap; `timers` is the std::set of pointers, in its order.
pub record TimerManager : Type 0 where
  pub heap : ℕ → Timer
  pub timers : List ℕ
  pub previous_time : ℕ
  pub tickled : Bool

abbrev pub u64 : ℕ → ℕ
u64 n = n % 2 ^ 64

abbrev pub sub64 : ℕ → ℕ → ℕ
sub64 a b = if leb b a then a - b else a + 2 ^ 64 - b

abbrev pub update : (ℕ → Timer) → ℕ → Timer → ℕ → Timer
update heap p t q = if q == p then t else heap q

-- `Timer::Comparator`
unfoldable pub less : (ℕ → Timer) → Option ℕ → Option ℕ → Bool
less heap none none = false
less heap none (some q) = true
less heap (some p) none = false
less heap (some p) (some q) =
    if ltb (heap p).next (heap q).next
    then true
    else if ltb (heap q).next (heap p).next
    then false
    else ltb p q

-- The operations of `std::set<Timer::ptr, Timer::Comparator>` that the manager uses.
module _ (heap : ℕ → Timer) where
  abbrev pub before : ℕ → ℕ → Bool
  before p q = less heap (some p) (some q)

  -- An equivalent element stays, and nothing is inserted.
  unfoldable pub set_insert : ℕ → List ℕ → List ℕ
  unfolding less
  set_insert p [] = p ∷ []
  set_insert p (q ∷ qs) =
      let rest = set_insert p qs in
      if before q p then q ∷ rest else if before p q then p ∷ q ∷ qs else q ∷ qs

  -- `find(p) != end()`
  unfoldable pub set_find : ℕ → List ℕ → Bool
  unfolding less
  set_find p [] = false
  set_find p (q ∷ qs) = let rest = set_find p qs in if before q p then rest else not (before p q)

  -- `erase(find(p))`
  unfoldable pub set_erase : ℕ → List ℕ → List ℕ
  unfolding less
  set_erase p [] = []
  set_erase p (q ∷ qs) = let rest = set_erase p qs in if before q p then q ∷ rest else qs

  -- The elements in front of `lower_bound(p)`, and those from it on.
  unfoldable pub lower_bound : ℕ → List ℕ → List ℕ × List ℕ
  unfolding less
  lower_bound p [] = ([], [])
  lower_bound p (q ∷ qs) =
      let (front, back) = lower_bound p qs in if before q p then (q ∷ front, back) else ([], q ∷ qs)

  -- `while(it != end && (*it)->m_next == now_ms) ++it`
  unfoldable pub skip_now : ℕ → List ℕ → List ℕ × List ℕ
  skip_now now [] = ([], [])
  skip_now now (q ∷ qs) =
      let (front, back) = skip_now now qs in
      if (heap q).next == now then (q ∷ front, back) else ([], q ∷ qs)
