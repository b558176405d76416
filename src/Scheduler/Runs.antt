-- ===== src/Scheduler/Runs.antt =====
-- Runs of the queue and the rounds of yk/scheduler.cc.
use yk_server.Base.{ℕ, ◌≡◌, ◌⊎◌, refl, false, List, [], ◌∷◌, Option, none, some, All, arith}
use yk_server.Scheduler.{
  hold, term, Fiber, FiberAndThread, Scheduler, run_task, run_round, goes_on, ended, of_fiber,
}
use yk_server.Scheduler.Picking.{HasTask, can_take, Chosen, NoneChosen, pick_lem}
use yk_server.Scheduler.Turns.{Occurs, picked_in, picked_in-Occurs}
use yk_server.Scheduler.Soundness.{IsSound, Progress}
use yk_server.Scheduler.Rounds.{run_round-Progress}
use yk_server.Scheduler.Endings.{
  returns, yields_to_ready, alone, alone-IsFair, returns_calm, Ran, run_task-Ran,
}

abbrev callback_on : Option ℕ → ℕ → FiberAndThread
callback_on thread cb = record { fiber = none; cb = some cb; thread = thread }

-- A callback for thread 2, a fiber and a callback.
abbrev queue : List FiberAndThread
queue = callback_on (some 2) 8 ∷ of_fiber 5 ∷ callback_on none 9 ∷ []

-- All fibers are on hold.
abbrev holding : ℕ → Fiber
holding f = record { state = hold; cb = some f }

queue-HasTask : All HasTask queue
queue-HasTask = (refl, (refl, (refl, tt)))

-- The scheduler with this queue; fiber 1 is the idle one of thread 7.
abbrev scheduler : Scheduler
scheduler = record {
  fibers = queue;
  fiber = holding;
  next_id = 10;
  active = 0;
  idle = 0;
  is_stopping = false;
  auto_stop = false;
  tickles = 0;
}

scheduler-IsSound : IsSound 1 none scheduler
scheduler-IsSound = record {
  queue = (
    record { task = refl; made = λ f e. absurd (grind arith) },
    (
      record { task = refl; made = λ f e. grind arith },
      (record { task = refl; made = λ f e. absurd (grind arith) }, tt),
    ),
  );
  idle_made = omega arith;
  idle_apart = (
    (λ e. absurd (grind arith)),
    ((λ e. absurd (grind arith)), ((λ e. absurd (grind arith)), tt)),
  );
  idle_rests = refl;
  worker = tt;
}

pick_lem_example : Chosen 7 holding queue ⊎ NoneChosen 7 holding queue
pick_lem_example = pick_lem 7 holding queue queue-HasTask

-- Fiber 5 stands behind one callback, and another callback is queued before the second turn.
picked_in-Occurs_example : Occurs (of_fiber 5) (
    picked_in 7
      ((holding, []) ∷ (holding, callback_on none 4 ∷ []) ∷ [])
      (callback_on none 9 ∷ of_fiber 5 ∷ []))
picked_in-Occurs_example =
    picked_in-Occurs 7 ((holding, []) ∷ (holding, callback_on none 4 ∷ []) ∷ [])
      (callback_on none 9 ∷ []) (of_fiber 5) [] (refl, tt) refl (refl, (refl, tt)) (omega arith)

run_round-Progress_example :
    Progress 1 (run_round (alone returns) 7 1 none scheduler)
    ⊎ ((s' : Scheduler) × (run_round (alone returns) 7 1 none scheduler ≡ ended s')
        × (hold ≡ term)
        × All (λ ft. can_take 7 holding ft ≡ false) queue)
run_round-Progress_example =
    run_round-Progress 1 (alone returns) 7 none scheduler (alone-IsFair returns 1 none returns_calm)
      scheduler-IsSound

run_task-Ran_example :
    (s' : Scheduler) × (run_task (alone yields_to_ready) none (of_fiber 5) scheduler
      ≡ goes_on none s')
    × Ran yields_to_ready 5 scheduler s'
run_task-Ran_example = run_task-Ran yields_to_ready none 5 scheduler refl refl
