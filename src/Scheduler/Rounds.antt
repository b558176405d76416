-- ===== src/Scheduler/Rounds.antt =====
-- The rounds of `run` of yk/scheduler.cc: no assertion on the fibers of the worker fails.
use yk_server.Base.{
  ℕ, ◌+◌, ◌<◌, ◌≡◌, ◌≢◌, ◌⊎◌, refl, sym, ap, subst, ◌∙◌, Bool, true, false, not, ◌&&◌, ◌||◌, List,
  ◌∷◌, ◌++◌, Option, none, some, All, inl, inr, arith, Bool-cases,
}
use yk_server.ByteArray.State.{sub_size}
use yk_server.Scheduler.{
  FiberState, init, hold, exec, term, ready, except, is_exec, is_over, is_term, Fiber,
  FiberAndThread, Scheduler, set_fiber, set_state, tickle_if, is_nil, Pick, picked, nothing,
  bad_entry, is_running, is_elsewhere, swap_in, reset, Round, ended, failed, less_active,
  settle_callback, callback_fiber, task_fiber, run_task, run_idle, run_round,
}
use yk_server.Scheduler.Picking.{can_take, some_elsewhere, pick_lem}
use yk_server.Scheduler.Soundness.{
  rests, Entry, IsApart, WorkerFits, IsSound, IsFair, all_map, all_split, set_fiber-same, Foreign,
  Progress, no_worker, worker-set_fiber, set_fiber-IsSound, tickle_if-IsSound, less_active-IsSound,
  worker-body, body-IsSound, settle_fiber-Progress, settle_callback-Progress,
}

-- A worker with its idle fiber, and what runs while a fiber is in.
module _ (idle_fiber : ℕ) (body : ℕ → Scheduler → Scheduler) where
  IsFair-none :
      (cb_fiber : Option ℕ) → IsFair body idle_fiber cb_fiber → IsFair body idle_fiber none
  IsFair-none cb_fiber fair = record {
    queue = fair.queue;
    grows = fair.grows;
    keeps_idle = fair.keeps_idle;
    keeps_worker = λ g e. absurd (grind arith);
    own = fair.own;
    idle_own = fair.idle_own;
    idle_calm = fair.idle_calm;
  }

  -- Starting a fiber that can start, and what the worker does when it is back.
  start_callback :
      (s : Scheduler) (f : ℕ)
      → IsFair body idle_fiber none
      → f < s.next_id
      → idle_fiber ≢ f
      → (s.fiber f).state ≡ init
      → IsApart f s
      → IsSound idle_fiber none s
      → (s' : Scheduler) × (swap_in body f s ≡ some s') × Progress idle_fiber (settle_callback f s')
  unfolding swap_in
  start_callback s f fair made not_idle starts apart v =
      let foreign : Foreign f idle_fiber none = (not_idle, no_worker f) in
      let running : Scheduler = set_state f exec s in
      let grows = fair.grows f running in
      (
        body f running,
        rw starts refl,
        settle_callback-Progress idle_fiber body (body f running) f (omega arith) not_idle
            (body-IsSound idle_fiber body none running f fair foreign (
              set_fiber-IsSound idle_fiber none s f (record { state = exec; cb = (s.fiber f).cb })
                foreign v))
            (fair.own f running apart),
      )

  -- The worker's fiber for a callback.
  callback_fiber-starts :
      (cb_fiber : Option ℕ) (cb : ℕ) (s : Scheduler)
      → IsSound idle_fiber cb_fiber s
      → (f : ℕ) × (s' : Scheduler) × (callback_fiber cb cb_fiber s ≡ some (f, s'))
        × (f < s'.next_id)
        × (idle_fiber ≢ f)
        × ((s'.fiber f).state ≡ init)
        × IsApart f s'
        × IsSound idle_fiber none s'
  unfolding callback_fiber reset
  callback_fiber-starts (some g) cb s v =
      let (apart, starts, other, made) = v.worker in
      let restarted : Fiber = record { state = init; cb = some cb } in
      let alone : IsSound idle_fiber none s = record {
        queue = v.queue;
        idle_made = v.idle_made;
        idle_apart = v.idle_apart;
        idle_rests = v.idle_rests;
        worker = tt;
      } in
      (
        g,
        set_fiber g restarted s,
        rw (callback_fiber, reset, starts) refl,
        made,
        (λ e. other (sym e)),
        ap (λ (y : Fiber). y.state) (set_fiber-same s g restarted),
        apart,
        set_fiber-IsSound idle_fiber none s g restarted ((λ e. other (sym e)), no_worker g) alone,
      )
  callback_fiber-starts none cb s v =
      let fresh : Fiber = record { state = init; cb = some cb } in
      let made = v.idle_made in
      let not_idle : idle_fiber ≢ s.next_id = λ e. absurd (omega arith) in
      let w =
        set_fiber-IsSound idle_fiber none s s.next_id fresh (not_idle, no_worker s.next_id) v in
      (
        s.next_id,
        record (set_fiber s.next_id fresh s) { next_id = s.next_id + 1 },
        refl,
        omega arith,
        not_idle,
        ap (λ (y : Fiber). y.state) (set_fiber-same s s.next_id fresh),
        all_map (Entry s.next_id) s.fibers
            (λ ft e h. let before = e.made s.next_id h in absurd (omega arith)) v.queue,
        record {
          queue =
              all_map (Entry s.next_id) s.fibers
                (λ ft e. record {
                  task = e.task;
                  made = λ f h. let before = e.made f h in omega arith;
                })
                v.queue;
          idle_made = omega arith;
          idle_apart = v.idle_apart;
          idle_rests = w.idle_rests;
          worker = tt;
        },
      )

  enters :
      (s : Scheduler) (f : ℕ)
      → is_exec (s.fiber f).state ≡ false
      → is_over (s.fiber f).state ≡ false
      → swap_in body f s ≡ some (body f (set_state f exec s))
  unfolding swap_in
  enters s f h k = rw (h, k) refl

  -- A task that was picked runs.
  run_task-Progress :
      (cb_fiber : Option ℕ) (ft : FiberAndThread) (s : Scheduler)
      → IsFair body idle_fiber cb_fiber
      → Entry s.next_id ft
      → ((f : ℕ) → ft.fiber ≡ some f → Foreign f idle_fiber cb_fiber)
      → is_running s.fiber ft ≡ false
      → IsSound idle_fiber cb_fiber s
      → Progress idle_fiber (run_task body cb_fiber ft s)
  unfolding run_task
  run_task-Progress cb_fiber ft s fair e foreign rests v = elim (fiber_cases ft.fiber) [
    | inl (f, h) ↦ elim (Bool-cases (is_over (s.fiber f).state)) [
      | inr going ↦
          let running : Scheduler = set_state f exec s in
          let grows = fair.grows f running in
          let made = e.made f h in
          let stopped : is_exec (s.fiber f).state ≡ false =
            sym (
              ap (λ (o : Option ℕ). elim o [ none ↦ false | some f ↦ is_exec (s.fiber f).state ]) h)
            ∙ rests in
          let swapped : swap_in body f s ≡ some (body f running) = enters s f stopped going in
          let inside = body-IsSound idle_fiber body cb_fiber running f fair (foreign f h) (
            set_fiber-IsSound idle_fiber cb_fiber s f (record { state = exec; cb = (s.fiber f).cb })
              (foreign f h) v) in
          let (cb', s', result, sound) =
            settle_fiber-Progress idle_fiber body cb_fiber (body f running) f (omega arith)
              (foreign f h) inside in
          (cb', s', rw (run_task, h, going, swapped) result, sound)
      | inl over ↦ call ft.cb refl (rw (h, over) refl)
    ]
    | inr h ↦ call ft.cb refl (rw h refl)
  ]
    where
      fiber_cases : (o : Option ℕ) → ((f : ℕ) × (o ≡ some f)) ⊎ (o ≡ none)
      fiber_cases none = inr refl
      fiber_cases (some f) = inl (f, refl)

      call :
          (o : Option ℕ)
          → ft.cb ≡ o
          → task_fiber ft s ≡ none
          → Progress idle_fiber (run_task body cb_fiber ft s)
      call none k h = (
        cb_fiber,
        less_active s,
        rw (run_task, h, k) refl,
        less_active-IsSound idle_fiber cb_fiber s v,
      )
      call (some cb) k h =
          let (f, s', given_, made, not_idle, starts, apart, sound) =
            callback_fiber-starts cb_fiber cb s v in
          let (s'', swapped, (cb', s3, result, sound')) =
            start_callback s' f (IsFair-none cb_fiber fair) made not_idle starts apart sound in
          (cb', s3, rw (run_task, h, k, given_, swapped) result, sound')

  over-rests : (x : FiberState) → is_over x ≡ true → x ≢ except → rests x ≡ true
  over-rests exec e calm = e
  over-rests init e calm = refl
  over-rests hold e calm = refl
  over-rests term e calm = refl
  over-rests ready e calm = refl
  over-rests except e calm = absurd (calm refl)

  resting-able :
      (x : FiberState)
      → rests x ≡ true
      → is_term x ≡ false
      → (is_exec x ≡ false) × (is_over x ≡ false)
  resting-able exec e k = absurd (grind arith)
  resting-able init e k = (refl, refl)
  resting-able hold e k = (refl, refl)
  resting-able term e k = absurd (grind arith)
  resting-able ready e k = (refl, refl)
  resting-able except e k = absurd (grind arith)

  worker_foreign :
      (cb_fiber : Option ℕ) (s : Scheduler)
      → WorkerFits idle_fiber cb_fiber s
      → (g : ℕ) → cb_fiber ≡ some g
      → g ≢ idle_fiber
  worker_foreign none s v g e = absurd (grind arith)
  worker_foreign (some f) s (apart, starts, other, made) g e = λ same. other (grind arith)

  idle-WorkerFits :
      (cb_fiber : Option ℕ) (s : Scheduler) (n : ℕ)
      → WorkerFits idle_fiber cb_fiber s
      → WorkerFits idle_fiber cb_fiber (record s { idle = n })
  idle-WorkerFits none s n v = tt
  idle-WorkerFits (some g) s n v = v

  -- The idle fiber runs, or has ended.
  run_idle-Progress :
      (cb_fiber : Option ℕ) (s : Scheduler)
      → IsFair body idle_fiber cb_fiber
      → IsSound idle_fiber cb_fiber s
      → Progress idle_fiber (run_idle body idle_fiber cb_fiber s)
        ⊎ ((run_idle body idle_fiber cb_fiber s ≡ ended s) × ((s.fiber idle_fiber).state ≡ term))
  unfolding run_idle
  run_idle-Progress cb_fiber s fair v = elim (Bool-cases (is_term (s.fiber idle_fiber).state)) [
    | inl over ↦ inr (rw over refl, terminated (s.fiber idle_fiber).state over)
    | inr going ↦
        let waiting : Scheduler = record s { idle = s.idle + 1 } in
        let running : Scheduler = set_state idle_fiber exec waiting in
        let back : Scheduler = body idle_fiber running in
        let swapped : swap_in body idle_fiber waiting ≡ some back =
          let (stopped, able) = resting-able (s.fiber idle_fiber).state v.idle_rests going in
          enters waiting idle_fiber stopped able in
        let less : Scheduler = record back { idle = sub_size back.idle 1 } in
        let foreign = worker_foreign cb_fiber s v.worker in
        let exec_ : Fiber = record { state = exec; cb = (s.fiber idle_fiber).cb } in
        let grows = fair.grows idle_fiber running in
        let made = v.idle_made in
        let worker = idle-WorkerFits cb_fiber back (sub_size back.idle 1) (
          worker-body idle_fiber body cb_fiber running idle_fiber fair foreign (
            worker-set_fiber idle_fiber cb_fiber waiting idle_fiber exec_ foreign
              (idle-WorkerFits cb_fiber s (s.idle + 1) v.worker))) in
        let apart = fair.idle_own running v.idle_apart in
        let queue = fair.queue idle_fiber running v.queue in
        inl (elim (Bool-cases (is_over (back.fiber idle_fiber).state)) [
          | inl o ↦ (
            cb_fiber,
            less,
            rw (run_idle, going, swapped, o) refl,
            record {
              queue = queue;
              idle_made = omega arith;
              idle_apart = apart;
              idle_rests = over-rests (back.fiber idle_fiber).state o (fair.idle_calm running);
              worker = worker;
            },
          )
          | inr o ↦
              let rest : Fiber = record { state = hold; cb = (back.fiber idle_fiber).cb } in
              (
                cb_fiber,
                set_state idle_fiber hold less,
                rw (run_idle, going, swapped, o) refl,
                record {
                  queue = queue;
                  idle_made = omega arith;
                  idle_apart = apart;
                  idle_rests =
                      ap (λ (y : Fiber). rests y.state) (set_fiber-same less idle_fiber rest);
                  worker = worker-set_fiber idle_fiber cb_fiber less idle_fiber rest foreign worker;
                },
              )
        ])
  ]
    where
      terminated : (x : FiberState) → is_term x ≡ true → x ≡ term
      terminated term h = refl
      terminated init h = absurd (grind arith)
      terminated hold h = absurd (grind arith)
      terminated exec h = absurd (grind arith)
      terminated ready h = absurd (grind arith)
      terminated except h = absurd (grind arith)

  worker-rest :
      (cb_fiber : Option ℕ) (s : Scheduler) (before : List FiberAndThread) (found : FiberAndThread)
      (behind : List FiberAndThread) (n : ℕ)
      → s.fibers ≡ before ++ (found ∷ behind)
      → WorkerFits idle_fiber cb_fiber s
      → WorkerFits idle_fiber cb_fiber (record s { fibers = before ++ behind; active = n })
        × ((g : ℕ) → cb_fiber ≡ some g → found.fiber ≢ some g)
  worker-rest none s before found behind n e v = (tt, λ g h. absurd (grind arith))
  worker-rest (some g) s before found behind n e (apart, starts, other, made) =
      let (differs, rest) =
        all_split (λ ft. ft.fiber ≢ some g) before found behind
          (subst (All (λ ft. ft.fiber ≢ some g)) e apart) in
      ((rest, starts, other, made), λ g' h k. differs (grind arith))

  task_tickled :
      (b : Bool) (cb_fiber : Option ℕ) (ft : FiberAndThread) (s : Scheduler)
      → IsFair body idle_fiber cb_fiber
      → Entry s.next_id ft
      → ((f : ℕ) → ft.fiber ≡ some f → Foreign f idle_fiber cb_fiber)
      → is_running s.fiber ft ≡ false
      → IsSound idle_fiber cb_fiber s
      → Progress idle_fiber (run_task body cb_fiber ft (tickle_if b s))
  task_tickled false cb_fiber ft s fair e foreign rests v =
      run_task-Progress cb_fiber ft s fair e foreign rests v
  task_tickled true cb_fiber ft s fair e foreign rests v =
      run_task-Progress cb_fiber ft (tickle_if true s) fair e foreign rests
        (tickle_if-IsSound idle_fiber cb_fiber s true v)

  idle_tickled :
      (b : Bool) (cb_fiber : Option ℕ) (s : Scheduler)
      → IsFair body idle_fiber cb_fiber
      → IsSound idle_fiber cb_fiber s
      → Progress idle_fiber (run_idle body idle_fiber cb_fiber (tickle_if b s))
        ⊎ ((run_idle body idle_fiber cb_fiber (tickle_if b s) ≡ ended (tickle_if b s))
            × ((s.fiber idle_fiber).state ≡ term))
  idle_tickled false cb_fiber s fair v = run_idle-Progress cb_fiber s fair v
  idle_tickled true cb_fiber s fair v =
      run_idle-Progress cb_fiber (tickle_if true s) fair
        (tickle_if-IsSound idle_fiber cb_fiber s true v)

  taken-not_running : (e r : Bool) → (not e && not r) ≡ true → r ≡ false
  taken-not_running e false h = refl
  taken-not_running true true h = absurd (grind arith)
  taken-not_running false true h = absurd (grind arith)

  -- What follows the loop over the queue.
  abbrev after_pick : Option ℕ → Scheduler → Pick → Round
  after_pick cb_fiber s p = elim p [
    | bad_entry ↦ failed
    | nothing tickle_me ↦ run_idle body idle_fiber cb_fiber (tickle_if tickle_me s)
    | picked ft rest tickle_me ↦
        run_task body cb_fiber ft
          (tickle_if tickle_me (record s { fibers = rest; active = s.active + 1 }))
  ]

  -- A round of `run` fails no assertion, where the scheduler is sound (entries have a task, the idle fiber
  -- and the worker's fiber for callbacks are in no entry, the first is not in `EXEC` or `EXCEPT`, the
  -- second in `INIT`) and what runs in the fibers is fair (it keeps that of the entries, leaves those
  -- two fibers to the worker, does not queue a fiber that ends, and `idle` does not throw): it goes on
  -- to a sound scheduler, or it leaves the loop, where the idle fiber has ended and the thread can take
  -- no task.
  pub run_round-Progress :
      (me : ℕ) (cb_fiber : Option ℕ) (s : Scheduler)
      → IsFair body idle_fiber cb_fiber
      → IsSound idle_fiber cb_fiber s
      → Progress idle_fiber (run_round body me idle_fiber cb_fiber s)
        ⊎ ((s' : Scheduler) × (run_round body me idle_fiber cb_fiber s ≡ ended s')
            × ((s.fiber idle_fiber).state ≡ term)
            × All (λ ft. can_take me s.fiber ft ≡ false) s.fibers)
  unfolding run_round
  run_round-Progress me cb_fiber s fair v =
      elim (pick_lem me s.fiber s.fibers
        (all_map (Entry s.next_id) s.fibers (λ ft e. e.task) v.queue)) [
          | inr r ↦
              let joined = ap (after_pick cb_fiber s) r.result in
              elim (idle_tickled (some_elsewhere me s.fibers) cb_fiber s fair v) [
                | inl (cb', s', result, sound) ↦ inl (cb', s', joined ∙ result, sound)
                | inr (result, over) ↦
                    inr (tickle_if (some_elsewhere me s.fibers) s, joined ∙ result, over, r.passed)
              ]
          | inl r ↦
              let (e, left) =
                all_split (Entry s.next_id) r.before r.found r.behind
                  (subst (All (Entry s.next_id)) r.split v.queue) in
              let (not_idle, idle_apart) =
                all_split (λ ft. ft.fiber ≢ some idle_fiber) r.before r.found r.behind
                  (subst (All (λ ft. ft.fiber ≢ some idle_fiber)) r.split v.idle_apart) in
              let (worker, not_worker) =
                worker-rest cb_fiber s r.before r.found r.behind (s.active + 1) r.split v.worker in
              let joined = ap (after_pick cb_fiber s) r.result in
              let picked_from : Scheduler = record s {
                fibers = r.before ++ r.behind;
                active = s.active + 1;
              } in
              let sound : IsSound idle_fiber cb_fiber picked_from = record {
                queue = left;
                idle_made = v.idle_made;
                idle_apart = idle_apart;
                idle_rests = v.idle_rests;
                worker = worker;
              } in
              let (cb', s', result, sound') =
                task_tickled (some_elsewhere me r.before || not (is_nil r.behind)) cb_fiber r.found
                  picked_from fair e
                  (λ f h. (
                    (λ same. not_idle (h ∙ ap some (sym same))),
                    (λ g k same. not_worker g k (h ∙ ap some (sym same))),
                  ))
                  (taken-not_running (is_elsewhere me r.found) (is_running s.fiber r.found) r.taken)
                  sound in
              inl (cb', s', joined ∙ result, sound')
        ]
