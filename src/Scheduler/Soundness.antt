-- ===== src/Scheduler/Soundness.antt =====
-- The scheduler of yk/scheduler.cc between two rounds of `run`, and what settling a fiber does to it.
use yk_server.Base.{
  ℕ, ◌≤◌, ◌<◌, ◌≡◌, ◌≢◌, refl, sym, ap, ◌∙◌, Bool, true, false, List, [], ◌∷◌, ◌++◌, if◌then◌else◌,
  ◌==◌, Option, none, some, All, inl, inr, arith, Bool-cases,
}
use yk_server.Scheduler.{
  FiberState, init, hold, exec, term, ready, except, is_ready, is_over, is_idle, Fiber,
  FiberAndThread, Scheduler, set_fiber, set_state, tickle_if, is_nil, schedule_no_lock, schedule,
  reset, Round, goes_on, less_active, of_fiber, settle_fiber, settle_callback,
}
use yk_server.Scheduler.Picking.{HasTask}

-- An entry has a task, and its fiber has been made.
pub record Entry (next : ℕ) (ft : FiberAndThread) : Type 0 where
  pub task : HasTask ft
  pub made : (f : ℕ) → ft.fiber ≡ some f → f < next

-- No entry of the queue names the fiber.
abbrev pub IsApart : ℕ → Scheduler → Type 0
IsApart g s = All (λ (ft : FiberAndThread). ft.fiber ≢ some g) s.fibers

-- The worker's fiber for callbacks is its own, and can start.
abbrev pub WorkerFits : ℕ → Option ℕ → Scheduler → Type 0
WorkerFits idle_fiber none s = Unit
WorkerFits idle_fiber (some g) s =
    IsApart g s × ((s.fiber g).state ≡ init) × (g ≢ idle_fiber) × (g < s.next_id)

-- Not `EXEC` and not `EXCEPT`: the state of an idle fiber between two rounds.
abbrev pub rests : FiberState → Bool
rests exec = false
rests except = false
rests x = true

-- The scheduler between two rounds of a worker.
pub record IsSound (idle_fiber : ℕ) (cb_fiber : Option ℕ) (s : Scheduler) : Type 0 where
  pub queue : All (Entry s.next_id) s.fibers
  pub idle_made : idle_fiber < s.next_id
  pub idle_apart : IsApart idle_fiber s
  pub idle_rests : rests (s.fiber idle_fiber).state ≡ true
  pub worker : WorkerFits idle_fiber cb_fiber s

-- What runs in other fibers leaves a fiber that nobody else knows.
abbrev pub Keeps : (ℕ → Scheduler → Scheduler) → ℕ → Type 0
Keeps body g =
    (f : ℕ) (s : Scheduler)
    → f ≢ g
    → IsApart g s
    → IsApart g (body f s) × (((body f s).fiber g).state ≡ (s.fiber g).state)

-- What the worker relies on of all that runs while a fiber is in: entries have tasks, the worker's own
-- fibers are left to it, a fiber that ends is not queued by what it did, nor is the idle one, and `idle` does not throw.
pub record IsFair (body : ℕ → Scheduler → Scheduler) (idle_fiber : ℕ) (cb_fiber : Option ℕ)
    : Type 0 where
  pub queue :
      (f : ℕ) (s : Scheduler)
      → All (Entry s.next_id) s.fibers
      → All (Entry (body f s).next_id) (body f s).fibers
  pub grows : (f : ℕ) (s : Scheduler) → s.next_id ≤ (body f s).next_id
  pub keeps_idle : Keeps body idle_fiber
  pub keeps_worker : (g : ℕ) → cb_fiber ≡ some g → Keeps body g
  pub own :
      (f : ℕ) (s : Scheduler)
      → IsApart f s
      → is_over ((body f s).fiber f).state ≡ true
      → IsApart f (body f s)
  pub idle_own : (s : Scheduler) → IsApart idle_fiber s → IsApart idle_fiber (body idle_fiber s)
  pub idle_calm : (s : Scheduler) → ((body idle_fiber s).fiber idle_fiber).state ≢ except

module _ (P : FiberAndThread → Type 0) where
  pub all_map :
      {Q : FiberAndThread → Type 0} (xs : List FiberAndThread)
      → ((x : FiberAndThread) → P x → Q x)
      → All P xs
      → All Q xs
  all_map {Q = Q} [] g h = tt
  all_map {Q = Q} (x ∷ xs) g (h, hs) = (g x h, all_map {Q = Q} xs g hs)

  pub all_split :
      (xs : List FiberAndThread) (x : FiberAndThread) (ys : List FiberAndThread)
      → All P (xs ++ (x ∷ ys))
      → P x × All P (xs ++ ys)
  all_split [] x ys (h, hs) = (h, hs)
  all_split (y ∷ xs) x ys (h, hs) = let (p, ps) = all_split xs x ys hs in (p, (h, ps))

  all_last :
      (xs : List FiberAndThread) (x : FiberAndThread) → All P xs → P x → All P (xs ++ (x ∷ []))
  all_last [] x h p = (p, tt)
  all_last (y ∷ xs) x (h, hs) p = (h, all_last xs x hs p)

pub set_fiber-same : (s : Scheduler) (f : ℕ) (x : Fiber) → (set_fiber f x s).fiber f ≡ x
set_fiber-same s f x =
    let same : (f == f) ≡ true = ground arith in ap (λ b. if b then x else s.fiber f) same

pub set_fiber-other :
    (s : Scheduler) (f g : ℕ) (x : Fiber) → g ≢ f → (set_fiber f x s).fiber g ≡ s.fiber g
set_fiber-other s f g x apart =
    let differs : (g == f) ≡ false = ground arith in ap (λ b. if b then x else s.fiber g) differs

-- A fiber that is not the worker's.
abbrev pub Foreign : ℕ → ℕ → Option ℕ → Type 0
Foreign f idle_fiber cb_fiber = (idle_fiber ≢ f) × ((g : ℕ) → cb_fiber ≡ some g → g ≢ f)

-- A round that goes on soundly.
abbrev pub Progress : ℕ → Round → Type 0
Progress idle_fiber r =
    (cb' : Option ℕ) × (s' : Scheduler) × (r ≡ goes_on cb' s') × IsSound idle_fiber cb' s'

pub no_worker : (f g : ℕ) → ◌≡◌ {A = Option ℕ} none (some g) → g ≢ f
no_worker f g e = absurd (grind arith)

over-is_idle : (x : FiberState) → is_over x ≡ true → is_idle x ≡ true
over-is_idle init e = refl
over-is_idle hold e = e
over-is_idle exec e = e
over-is_idle term e = refl
over-is_idle ready e = e
over-is_idle except e = refl

-- The steps of a round keep the scheduler sound.
module _ (idle_fiber : ℕ) where
  pub worker-set_fiber :
      (cb_fiber : Option ℕ) (s : Scheduler) (f : ℕ) (x : Fiber)
      → ((g : ℕ) → cb_fiber ≡ some g → g ≢ f)
      → WorkerFits idle_fiber cb_fiber s
      → WorkerFits idle_fiber cb_fiber (set_fiber f x s)
  worker-set_fiber none s f x foreign v = tt
  worker-set_fiber (some g) s f x foreign (apart, starts, other, made) = (
    apart,
    ap (λ (y : Fiber). y.state) (set_fiber-other s f g x (foreign g refl)) ∙ starts,
    other,
    made,
  )

  pub set_fiber-IsSound :
      (cb_fiber : Option ℕ) (s : Scheduler) (f : ℕ) (x : Fiber)
      → Foreign f idle_fiber cb_fiber
      → IsSound idle_fiber cb_fiber s
      → IsSound idle_fiber cb_fiber (set_fiber f x s)
  set_fiber-IsSound cb_fiber s f x (not_idle, foreign) v = record {
    queue = v.queue;
    idle_made = v.idle_made;
    idle_apart = v.idle_apart;
    idle_rests =
        ap (λ (y : Fiber). rests y.state) (set_fiber-other s f idle_fiber x not_idle)
        ∙ v.idle_rests;
    worker = worker-set_fiber cb_fiber s f x foreign v.worker;
  }

  pub tickle_if-IsSound :
      (cb_fiber : Option ℕ) (s : Scheduler) (b : Bool)
      → IsSound idle_fiber cb_fiber s
      → IsSound idle_fiber cb_fiber (tickle_if b s)
  tickle_if-IsSound cb_fiber s false v = v
  tickle_if-IsSound none s true v = record {
    queue = v.queue;
    idle_made = v.idle_made;
    idle_apart = v.idle_apart;
    idle_rests = v.idle_rests;
    worker = tt;
  }
  tickle_if-IsSound (some g) s true v = record {
    queue = v.queue;
    idle_made = v.idle_made;
    idle_apart = v.idle_apart;
    idle_rests = v.idle_rests;
    worker = v.worker;
  }

  pub less_active-IsSound :
      (cb_fiber : Option ℕ) (s : Scheduler)
      → IsSound idle_fiber cb_fiber s
      → IsSound idle_fiber cb_fiber (less_active s)
  less_active-IsSound none s v = record {
    queue = v.queue;
    idle_made = v.idle_made;
    idle_apart = v.idle_apart;
    idle_rests = v.idle_rests;
    worker = tt;
  }
  less_active-IsSound (some g) s v = record {
    queue = v.queue;
    idle_made = v.idle_made;
    idle_apart = v.idle_apart;
    idle_rests = v.idle_rests;
    worker = v.worker;
  }

  worker-last :
      (cb_fiber : Option ℕ) (s : Scheduler) (f : ℕ)
      → ((g : ℕ) → cb_fiber ≡ some g → g ≢ f)
      → WorkerFits idle_fiber cb_fiber s
      → WorkerFits idle_fiber cb_fiber (record s { fibers = s.fibers ++ (of_fiber f ∷ []) })
  worker-last none s f foreign v = tt
  worker-last (some g) s f foreign (apart, starts, other, made) = (
    all_last (λ ft. ft.fiber ≢ some g) s.fibers (of_fiber f) apart
        (λ e. foreign g refl (grind arith)),
    starts,
    other,
    made,
  )

  schedule-IsSound :
      (cb_fiber : Option ℕ) (s : Scheduler) (f : ℕ)
      → f < s.next_id
      → Foreign f idle_fiber cb_fiber
      → IsSound idle_fiber cb_fiber s
      → IsSound idle_fiber cb_fiber (schedule (of_fiber f) s)
  unfolding schedule schedule_no_lock
  schedule-IsSound cb_fiber s f made (not_idle, foreign) v =
      tickle_if-IsSound cb_fiber (record s { fibers = s.fibers ++ (of_fiber f ∷ []) })
        (is_nil s.fibers)
        (record {
          queue =
              all_last (Entry s.next_id) s.fibers (of_fiber f) v.queue
                (record { task = refl; made = λ g e. grind arith });
          idle_made = v.idle_made;
          idle_apart =
              all_last (λ ft. ft.fiber ≢ some idle_fiber) s.fibers (of_fiber f) v.idle_apart
                (λ e. not_idle (grind arith));
          idle_rests = v.idle_rests;
          worker = worker-last cb_fiber s f foreign v.worker;
        })

  module _ (body : ℕ → Scheduler → Scheduler) where
    pub worker-body :
        (cb_fiber : Option ℕ) (s : Scheduler) (f : ℕ)
        → IsFair body idle_fiber cb_fiber
        → ((g : ℕ) → cb_fiber ≡ some g → g ≢ f)
        → WorkerFits idle_fiber cb_fiber s
        → WorkerFits idle_fiber cb_fiber (body f s)
    worker-body none s f fair foreign v = tt
    worker-body (some g) s f fair foreign (apart, starts, other, made) =
        let (apart', same) = fair.keeps_worker g refl f s (λ e. foreign g refl (sym e)) apart in
        let grows = fair.grows f s in (apart', same ∙ starts, other, omega arith)

    pub body-IsSound :
        (cb_fiber : Option ℕ) (s : Scheduler) (f : ℕ)
        → IsFair body idle_fiber cb_fiber
        → Foreign f idle_fiber cb_fiber
        → IsSound idle_fiber cb_fiber s
        → IsSound idle_fiber cb_fiber (body f s)
    body-IsSound cb_fiber s f fair (not_idle, foreign) v =
        let (apart, same) = fair.keeps_idle f s (λ e. not_idle (sym e)) v.idle_apart in
        let grows = fair.grows f s in
        let made = v.idle_made in
        record {
          queue = fair.queue f s v.queue;
          idle_made = omega arith;
          idle_apart = apart;
          idle_rests = ap rests same ∙ v.idle_rests;
          worker = worker-body cb_fiber s f fair foreign v.worker;
        }

    pub settle_fiber-Progress :
        (cb_fiber : Option ℕ) (s : Scheduler) (f : ℕ)
        → f < s.next_id
        → Foreign f idle_fiber cb_fiber
        → IsSound idle_fiber cb_fiber s
        → Progress idle_fiber (settle_fiber f cb_fiber s)
    unfolding settle_fiber
    settle_fiber-Progress cb_fiber s f made foreign v =
        let v' = less_active-IsSound cb_fiber s v in
        elim (Bool-cases (is_ready (s.fiber f).state)) [
          | inl e ↦ (
            cb_fiber,
            schedule (of_fiber f) (less_active s),
            rw e refl,
            schedule-IsSound cb_fiber (less_active s) f made foreign v',
          )
          | inr e ↦ elim (Bool-cases (is_over (s.fiber f).state)) [
            | inl o ↦ (cb_fiber, less_active s, rw (e, o) refl, v')
            | inr o ↦ (
              cb_fiber,
              set_state f hold (less_active s),
              rw (e, o) refl,
              set_fiber-IsSound cb_fiber (less_active s) f
                  (record { state = hold; cb = (s.fiber f).cb }) foreign v',
            )
          ]
        ]

    pub settle_callback-Progress :
        (s : Scheduler) (f : ℕ)
        → f < s.next_id
        → idle_fiber ≢ f
        → IsSound idle_fiber none s
        → (is_over (s.fiber f).state ≡ true → IsApart f s)
        → Progress idle_fiber (settle_callback f s)
    unfolding settle_callback reset
    settle_callback-Progress s f made not_idle v own =
        let v' = less_active-IsSound none s v in
        let foreign : Foreign f idle_fiber none = (not_idle, no_worker f) in
        elim (Bool-cases (is_ready (s.fiber f).state)) [
          | inl e ↦ (
            none,
            schedule (of_fiber f) (less_active s),
            rw e refl,
            schedule-IsSound none (less_active s) f made foreign v',
          )
          | inr e ↦ elim (Bool-cases (is_over (s.fiber f).state)) [
            | inr o ↦ (
              none,
              set_state f hold (less_active s),
              rw (e, o) refl,
              set_fiber-IsSound none (less_active s) f
                  (record { state = hold; cb = (s.fiber f).cb }) foreign v',
            )
            | inl o ↦
                let restarted : Fiber = record { state = init; cb = none } in
                let w = set_fiber-IsSound none (less_active s) f restarted foreign v' in
                (
                  some f,
                  set_fiber f restarted (less_active s),
                  rw (e, o, over-is_idle (s.fiber f).state o) refl,
                  record {
                    queue = w.queue;
                    idle_made = w.idle_made;
                    idle_apart = w.idle_apart;
                    idle_rests = w.idle_rests;
                    worker = (
                      own o,
                      ap (λ (y : Fiber). y.state) (set_fiber-same (less_active s) f restarted),
                      (λ e. not_idle (sym e)),
                      made,
                    );
                  },
                )
          ]
        ]
