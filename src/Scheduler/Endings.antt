-- ===== src/Scheduler/Endings.antt =====
-- What becomes of a fiber that is picked by `run` of yk/scheduler.cc, by how it gives the thread back.
use yk_server.Base.{
  ℕ, ◌≡◌, ◌≢◌, refl, sym, ap, ◌∙◌, Bool, true, false, List, [], ◌∷◌, ◌++◌, if◌then◌else◌, Option,
  none, arith, append-nil,
}
use yk_server.ByteArray.State.{sub_size}
use yk_server.Scheduler.{
  FiberState, hold, exec, term, ready, except, is_exec, is_over, is_ready, Fiber, FiberAndThread,
  Scheduler, set_fiber, set_state, tickle_if, is_nil, schedule, schedule_no_lock, swap_in,
  main_func, yield, Round, goes_on, less_active, of_fiber, settle_fiber, run_task,
}
use yk_server.Scheduler.Soundness.{IsApart, IsFair, set_fiber-same, set_fiber-other}

-- The callback returns, throws, or yields.
pub data Ending : Type 0 where
  returns : Ending
  throws : Ending
  yields_to_ready : Ending
  yields_to_hold : Ending

abbrev pub leave : Ending → Fiber → Fiber
leave returns x = main_func true x
leave throws x = main_func false x
leave yields_to_ready x = yield true x
leave yields_to_hold x = yield false x

-- A run in which nothing else happens.
abbrev pub alone : Ending → ℕ → Scheduler → Scheduler
alone e f s = set_fiber f (leave e (s.fiber f)) s

pub alone-IsFair :
    (e : Ending) (idle_fiber : ℕ) (cb_fiber : Option ℕ)
    → ((x : Fiber) → (leave e x).state ≢ except)
    → IsFair (alone e) idle_fiber cb_fiber
alone-IsFair e idle_fiber cb_fiber calm = record {
  queue = λ f s v. v;
  grows = λ f s. omega arith;
  keeps_idle = keeps idle_fiber;
  keeps_worker = λ g h. keeps g;
  own = λ f s apart over. apart;
  idle_own = λ s apart. apart;
  idle_calm = λ s thrown. calm (s.fiber idle_fiber) (
      ap (λ (y : Fiber). y.state) (sym (set_fiber-same s idle_fiber (leave e (s.fiber idle_fiber))))
      ∙ thrown);
}
  where
    keeps :
        (g f : ℕ) (s : Scheduler)
        → f ≢ g
        → IsApart g s
        → IsApart g (alone e f s) × (((alone e f s).fiber g).state ≡ (s.fiber g).state)
    keeps g f s differs apart = (
      apart,
      ap (λ (y : Fiber). y.state)
          (set_fiber-other s f g (leave e (s.fiber f)) (λ h. differs (sym h))),
    )

pub returns_calm : (x : Fiber) → (leave returns x).state ≢ except
unfolding main_func
returns_calm x e = absurd (grind arith)

-- The fiber in the end.
abbrev pub left_as : Ending → Fiber → Fiber
left_as returns x = record { state = term; cb = none }
left_as throws x = record { state = except; cb = x.cb }
left_as yields_to_ready x = record { state = ready; cb = x.cb }
left_as yields_to_hold x = record { state = hold; cb = x.cb }

abbrev pub queued_again : Ending → ℕ → List FiberAndThread
queued_again yields_to_ready f = of_fiber f ∷ []
queued_again returns f = []
queued_again throws f = []
queued_again yields_to_hold f = []

-- What the round leads to.
pub record Ran (e : Ending) (f : ℕ) (s s' : Scheduler) : Type 0 where
  pub itself : s'.fiber f ≡ left_as e (s.fiber f)
  pub others : (g : ℕ) → g ≢ f → s'.fiber g ≡ s.fiber g
  pub queue : s'.fibers ≡ s.fibers ++ queued_again e f
  pub active : s'.active ≡ sub_size s.active 1

-- The scheduler when the fiber is back.
abbrev back : Ending → ℕ → Scheduler → Scheduler
back e f s = alone e f (set_state f exec s)

abbrev running : Fiber → Fiber
running x = record { state = exec; cb = x.cb }

back-itself :
    (e : Ending) (f : ℕ) (s : Scheduler) → (back e f s).fiber f ≡ leave e (running (s.fiber f))
back-itself e f s =
    set_fiber-same (set_state f exec s) f (leave e ((set_state f exec s).fiber f))
    ∙ ap (leave e) (set_fiber-same s f (running (s.fiber f)))

back-others :
    (e : Ending) (f : ℕ) (s : Scheduler) (g : ℕ) → g ≢ f → (back e f s).fiber g ≡ s.fiber g
back-others e f s g differs =
    set_fiber-other (set_state f exec s) f g (leave e ((set_state f exec s).fiber f)) differs
    ∙ set_fiber-other s f g (running (s.fiber f)) differs

-- What `run` does with a fiber that is back in a state.
abbrev settle_by : FiberState → ℕ → Option ℕ → Scheduler → Round
settle_by x f cb_fiber s =
    if is_ready x
    then goes_on cb_fiber (schedule (of_fiber f) (less_active s))
    else if is_over x
    then goes_on cb_fiber (less_active s)
    else goes_on cb_fiber (set_state f hold (less_active s))

run_task-back :
    (e : Ending) (cb_fiber : Option ℕ) (f : ℕ) (s : Scheduler)
    → is_exec (s.fiber f).state ≡ false
    → is_over (s.fiber f).state ≡ false
    → run_task (alone e) cb_fiber (of_fiber f) s
      ≡ settle_by (leave e (running (s.fiber f))).state f cb_fiber (back e f s)
unfolding run_task swap_in settle_fiber
run_task-back e cb_fiber f s stopped going =
    rw (run_task, going, swap_in, stopped, going)
      (ap (λ (x : Fiber). settle_by x.state f cb_fiber (back e f s)) (back-itself e f s))

last-fibers :
    (b : Bool) (s : Scheduler)
    → ((tickle_if b s).fibers ≡ s.fibers)
      × ((tickle_if b s).fiber ≡ s.fiber)
      × ((tickle_if b s).active ≡ s.active)
last-fibers true s = (refl, refl, refl)
last-fibers false s = (refl, refl, refl)

-- A task with a fiber that neither runs nor is over runs it; if nothing else happens meanwhile, the fiber
-- is in `TERM` when its callback returned, in `EXCEPT` when it threw, in `READY` and last in the
-- queue when it yielded to be ready, and in `HOLD` and not in the queue when it yielded to wait. Other
-- fibers and the worker's own are left, and one thread less is active.
pub run_task-Ran :
    (e : Ending) (cb_fiber : Option ℕ) (f : ℕ) (s : Scheduler)
    → is_exec (s.fiber f).state ≡ false
    → is_over (s.fiber f).state ≡ false
    → (s' : Scheduler) × (run_task (alone e) cb_fiber (of_fiber f) s ≡ goes_on cb_fiber s')
      × Ran e f s s'
unfolding main_func yield schedule schedule_no_lock
run_task-Ran returns cb_fiber f s stopped going = (
  less_active (back returns f s),
  run_task-back returns cb_fiber f s stopped going,
  record {
    itself = back-itself returns f s;
    others = back-others returns f s;
    queue = sym (append-nil s.fibers);
    active = refl;
  },
)
run_task-Ran throws cb_fiber f s stopped going = (
  less_active (back throws f s),
  run_task-back throws cb_fiber f s stopped going,
  record {
    itself = back-itself throws f s;
    others = back-others throws f s;
    queue = sym (append-nil s.fibers);
    active = refl;
  },
)
run_task-Ran yields_to_ready cb_fiber f s stopped going =
    let s' : Scheduler = record (less_active (back yields_to_ready f s)) {
      fibers = s.fibers ++ (of_fiber f ∷ []);
    } in
    let (fibers, fiber, active) = last-fibers (is_nil s.fibers) s' in
    (
      schedule (of_fiber f) (less_active (back yields_to_ready f s)),
      run_task-back yields_to_ready cb_fiber f s stopped going,
      record {
        itself = ap (λ (h : ℕ → Fiber). h f) fiber ∙ back-itself yields_to_ready f s;
        others = λ g differs.
            ap (λ (h : ℕ → Fiber). h g) fiber ∙ back-others yields_to_ready f s g differs;
        queue = fibers;
        active = active;
      },
    )
run_task-Ran yields_to_hold cb_fiber f s stopped going =
    let s' : Scheduler = less_active (back yields_to_hold f s) in
    let held : Fiber = record { state = hold; cb = (s'.fiber f).cb } in
    (
      set_state f hold s',
      run_task-back yields_to_hold cb_fiber f s stopped going,
      record {
        itself =
            set_fiber-same s' f held
            ∙ ap (λ (x : Fiber). record { state = hold; cb = x.cb })
                (back-itself yields_to_hold f s);
        others = λ g differs.
            set_fiber-other s' f g held differs ∙ back-others yields_to_hold f s g differs;
        queue = sym (append-nil s.fibers);
        active = refl;
      },
    )
