-- ===== src/Scheduler/Turns.antt =====
-- No task starves in the queue of yk/scheduler.cc: the turns of a thread at the queue, while other tasks
-- are queued, and fibers start and stop.
use yk_server.Base.{
  ℕ, ◌+◌, ◌<◌, ◌≡◌, ◌⊎◌, refl, sym, ap, subst, ◌∙◌, Bool, true, false, not, List, [], ◌∷◌, ◌++◌,
  length, All, inl, inr, arith, append_assoc, Bool-cases,
}
use yk_server.Scheduler.{
  Fiber, FiberAndThread, is_nil, Pick, picked, nothing, bad_entry, skipping, is_elsewhere, pick,
}
use yk_server.Scheduler.Picking.{HasTask, can_take, pick-passed, pick-found}

-- Before a turn: the fibers as they are then, and what was queued since the last turn.
abbrev pub Turn : Type 0
Turn = (ℕ → Fiber) × List FiberAndThread

abbrev pub and_on :
    (List FiberAndThread → List FiberAndThread) → List FiberAndThread → Pick → List FiberAndThread
and_on later fts (picked ft rest t) = ft ∷ later rest
and_on later fts (nothing t) = later fts
and_on later fts bad_entry = []

-- The tasks that the thread picks in its turns.
abbrev pub picked_in : ℕ → List Turn → List FiberAndThread → List FiberAndThread
picked_in me [] fts = []
picked_in me ((fiber, more) ∷ turns) fts =
    and_on (picked_in me turns) (fts ++ more) (pick me fiber (fts ++ more))

abbrev pub Occurs : FiberAndThread → List FiberAndThread → Type 0
Occurs ft [] = true ≡ false
Occurs ft (x ∷ xs) = (x ≡ ft) ⊎ Occurs ft xs

abbrev pub TurnFits : ℕ → FiberAndThread → Turn → Type 0
TurnFits me ft (fiber, more) = can_take me fiber ft ≡ true

-- A turn with a task that may be taken behind `front`: it is picked, or one in front of it.
data OneTurn (me : ℕ) (fiber : ℕ → Fiber) (front : List FiberAndThread) (ft : FiberAndThread)
    (behind : List FiberAndThread) : Type 0 where
  itself :
      (rest : List FiberAndThread) (t : Bool)
      → pick me fiber (front ++ (ft ∷ behind)) ≡ picked ft rest t
      → OneTurn me fiber front ft behind
  in_front :
      (x : FiberAndThread) (front' : List FiberAndThread) (t : Bool)
      → pick me fiber (front ++ (ft ∷ behind)) ≡ picked x (front' ++ (ft ∷ behind)) t
      → length front' + 1 ≡ length front
      → All HasTask front'
      → OneTurn me fiber front ft behind

one_turn :
    (me : ℕ) (fiber : ℕ → Fiber) (front : List FiberAndThread) (ft : FiberAndThread)
    (behind : List FiberAndThread)
    → All HasTask front
    → HasTask ft
    → can_take me fiber ft ≡ true
    → OneTurn me fiber front ft behind
one_turn me fiber [] ft behind h k free =
    itself behind (not (is_nil behind)) (pick-found me fiber ft behind k free)
one_turn me fiber (x ∷ front) ft behind (h, hs) k free = elim (Bool-cases (can_take me fiber x)) [
  | inl takes ↦
      in_front x front (not (is_nil (front ++ (ft ∷ behind))))
        (pick-found me fiber x (front ++ (ft ∷ behind)) h takes) (omega arith) hs
  | inr blocked ↦
      let passed = pick-passed me fiber x (front ++ (ft ∷ behind)) h blocked in
      elim (one_turn me fiber front ft behind hs k free) [
        | itself rest t e ↦ itself (x ∷ rest) _ (passed ∙ ap (skipping x (is_elsewhere me x)) e)
        | in_front y front' t e l fits ↦
            in_front y (x ∷ front') _ (passed ∙ ap (skipping x (is_elsewhere me x)) e) (omega arith)
              (h, fits)
      ]
]

-- A task in the queue is picked by a thread within as many turns of its loop over the queue as there are
-- entries in front of it, and one, where these entries have tasks, the thread may take it in each of
-- these turns, and no other thread takes tasks: whatever entries are queued behind it between the
-- turns, and whatever other fibers start and stop.
pub picked_in-Occurs :
    (me : ℕ) (turns : List Turn) (front : List FiberAndThread) (ft : FiberAndThread)
    (behind : List FiberAndThread)
    → All HasTask front
    → HasTask ft
    → All (TurnFits me ft) turns
    → length front < length turns
    → Occurs ft (picked_in me turns (front ++ (ft ∷ behind)))
picked_in-Occurs me [] front ft behind h k v enough = absurd (omega arith)
picked_in-Occurs me ((fiber, more) ∷ turns) front ft behind h k (free, v) enough =
    let joined : (front ++ (ft ∷ behind)) ++ more ≡ front ++ (ft ∷ (behind ++ more)) =
      append_assoc front (ft ∷ behind) more in
    subst (λ q. Occurs ft (and_on (picked_in me turns) q (pick me fiber q))) (sym joined)
      (elim (one_turn me fiber front ft (behind ++ more) h k free) [
        | itself rest t e ↦
            subst
              (λ p. Occurs ft (and_on (picked_in me turns) (front ++ (ft ∷ (behind ++ more))) p))
              (sym e) (inl refl)
        | in_front x front' t e l fits ↦
            subst
              (λ p. Occurs ft (and_on (picked_in me turns) (front ++ (ft ∷ (behind ++ more))) p))
              (sym e)
              (inr (picked_in-Occurs me turns front' ft (behind ++ more) fits k v (omega arith)))
      ])
