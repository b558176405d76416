-- ===== src/Scheduler/Picking.antt =====
-- Which task the loop over the queue in `run` of yk/scheduler.cc picks.
use yk_server.Base.{
  ℕ, zero, suc, ◌≤◌, ◌≡◌, ◌⊎◌, refl, sym, ap, subst, ◌∙◌, Bool, true, false, not, ◌&&◌, ◌||◌, List,
  [], ◌∷◌, ◌++◌, if◌then◌else◌, length, All, inl, inr, arith, append_assoc, append-nil,
  length-append, Bool-cases,
}
use yk_server.Scheduler.{
  Fiber, FiberAndThread, has_task, is_nil, schedule_no_lock, schedule_loop, Pick, picked, nothing,
  bad_entry, skipping, is_elsewhere, is_running, pick,
}

-- Whether the thread may take an entry: it is bound to no other thread, and its fiber is not running.
abbrev pub can_take : ℕ → (ℕ → Fiber) → FiberAndThread → Bool
can_take me fiber ft = not (is_elsewhere me ft) && not (is_running fiber ft)

-- Whether one of the entries is bound to another thread.
abbrev pub some_elsewhere : ℕ → List FiberAndThread → Bool
some_elsewhere me [] = false
some_elsewhere me (ft ∷ fts) = is_elsewhere me ft || some_elsewhere me fts

-- Each entry of a queue has a fiber or a callback.
abbrev pub HasTask : FiberAndThread → Type 0
HasTask ft = has_task ft ≡ true

or_assoc : (a b c : Bool) → ((a || b) || c) ≡ (a || (b || c))
or_assoc true b c = refl
or_assoc false b c = refl

-- An entry that is passed over.
pub pick-passed :
    (me : ℕ) (fiber : ℕ → Fiber) (ft : FiberAndThread) (fts : List FiberAndThread)
    → HasTask ft
    → can_take me fiber ft ≡ false
    → pick me fiber (ft ∷ fts) ≡ skipping ft (is_elsewhere me ft) (pick me fiber fts)
unfolding pick
pick-passed me fiber ft fts h = by_case (is_elsewhere me ft) (is_running fiber ft) refl refl
  where
    by_case :
        (e r : Bool)
        → is_elsewhere me ft ≡ e
        → is_running fiber ft ≡ r
        → can_take me fiber ft ≡ false
        → pick me fiber (ft ∷ fts) ≡ skipping ft (is_elsewhere me ft) (pick me fiber fts)
    by_case true r e k blocked = rw e refl
    by_case false true e k blocked = rw (e, h, k) refl
    by_case false false e k blocked = absurd (grind arith)

pub pick-found :
    (me : ℕ) (fiber : ℕ → Fiber) (ft : FiberAndThread) (fts : List FiberAndThread)
    → HasTask ft
    → can_take me fiber ft ≡ true
    → pick me fiber (ft ∷ fts) ≡ picked ft fts (not (is_nil fts))
unfolding pick
pick-found me fiber ft fts h = by_case (is_elsewhere me ft) (is_running fiber ft) refl refl
  where
    by_case :
        (e r : Bool)
        → is_elsewhere me ft ≡ e
        → is_running fiber ft ≡ r
        → can_take me fiber ft ≡ true
        → pick me fiber (ft ∷ fts) ≡ picked ft fts (not (is_nil fts))
    by_case true r e k free = absurd (grind arith)
    by_case false true e k free = absurd (grind arith)
    by_case false false e k free = rw (e, h, k) refl

-- A task of the queue is picked: the first one that the thread may take.
pub record Chosen (me : ℕ) (fiber : ℕ → Fiber) (fts : List FiberAndThread) : Type 0 where
  pub before : List FiberAndThread
  pub found : FiberAndThread
  pub behind : List FiberAndThread
  pub split : fts ≡ before ++ (found ∷ behind)
  pub passed : All (λ ft. can_take me fiber ft ≡ false) before
  pub taken : can_take me fiber found ≡ true
  pub result :
      pick me fiber fts
      ≡ picked found (before ++ behind) (some_elsewhere me before || not (is_nil behind))

-- No task is picked, since the thread may take none.
pub record NoneChosen (me : ℕ) (fiber : ℕ → Fiber) (fts : List FiberAndThread) : Type 0 where
  pub passed : All (λ ft. can_take me fiber ft ≡ false) fts
  pub result : pick me fiber fts ≡ nothing (some_elsewhere me fts)

-- Over a queue in which each entry has a task, no assertion of the loop fails, and it picks the first
-- entry that is bound to no other thread and whose fiber is not running, if there is one. The
-- others stay in their order; the scheduler is tickled if an entry before it is bound to another
-- thread, or if there are entries behind it.
pub pick_lem :
    (me : ℕ) (fiber : ℕ → Fiber) (fts : List FiberAndThread)
    → All HasTask fts
    → Chosen me fiber fts ⊎ NoneChosen me fiber fts
unfolding pick
pick_lem me fiber [] h = inr (record { passed = tt; result = refl })
pick_lem me fiber (ft ∷ fts) (h, hs) = elim (Bool-cases (can_take me fiber ft)) [
  | inl free ↦ inl (record {
    before = [];
    found = ft;
    behind = fts;
    split = refl;
    passed = tt;
    taken = free;
    result = pick-found me fiber ft fts h free;
  })
  | inr blocked ↦ elim (pick_lem me fiber fts hs) [
    | inr r ↦ inr (record {
      passed = (blocked, r.passed);
      result =
          pick-passed me fiber ft fts h blocked ∙ ap (skipping ft (is_elsewhere me ft)) r.result;
    })
    | inl r ↦ inl (record {
      before = ft ∷ r.before;
      found = r.found;
      behind = r.behind;
      split = ap (λ (l : List FiberAndThread). ft ∷ l) r.split;
      passed = (blocked, r.passed);
      taken = r.taken;
      result =
          pick-passed me fiber ft fts h blocked
          ∙ ap (skipping ft (is_elsewhere me ft)) r.result
          ∙ ap (picked r.found (ft ∷ (r.before ++ r.behind))) (
              sym (
                or_assoc (is_elsewhere me ft) (some_elsewhere me r.before)
                  (not (is_nil r.behind))));
    })
  ]
]

-- The entries that pass a test, in their order.
abbrev pub select : (FiberAndThread → Bool) → List FiberAndThread → List FiberAndThread
select test [] = []
select test (ft ∷ fts) = if test ft then ft ∷ select test fts else select test fts

select-first :
    (test : FiberAndThread → Bool) (xs : List FiberAndThread) (x : FiberAndThread)
    (ys : List FiberAndThread)
    → All (λ ft. test ft ≡ false) xs
    → test x ≡ true
    → select test (xs ++ (x ∷ ys)) ≡ x ∷ select test (xs ++ ys)
select-first test [] x ys h e = rw e refl
select-first test (y ∷ xs) x ys (h, hs) e = rw h (select-first test xs x ys hs e)

select-without :
    (test : FiberAndThread → Bool) (xs : List FiberAndThread) (x : FiberAndThread)
    (ys : List FiberAndThread)
    → All (λ ft. test ft ≡ false) xs
    → test x ≡ true
    → select (λ ft. not (test ft)) (xs ++ (x ∷ ys)) ≡ select (λ ft. not (test ft)) (xs ++ ys)
select-without test [] x ys h e = rw e refl
select-without test (y ∷ xs) x ys (h, hs) e =
    rw h (ap (λ (l : List FiberAndThread). y ∷ l) (select-without test xs x ys hs e))

select-none :
    (test : FiberAndThread → Bool) (xs : List FiberAndThread)
    → All (λ ft. test ft ≡ false) xs
    → select test xs ≡ []
select-none test [] h = refl
select-none test (x ∷ xs) (h, hs) = rw h (select-none test xs hs)

select-rest :
    (test : FiberAndThread → Bool) (xs : List FiberAndThread)
    → All (λ ft. test ft ≡ false) xs
    → select (λ ft. not (test ft)) xs ≡ xs
select-rest test [] h = refl
select-rest test (x ∷ xs) (h, hs) =
    rw h (ap (λ (l : List FiberAndThread). x ∷ l) (select-rest test xs hs))

abbrev pub and_more :
    (List FiberAndThread → List FiberAndThread × List FiberAndThread)
    → List FiberAndThread
    → Pick
    → List FiberAndThread × List FiberAndThread
and_more more fts bad_entry = ([], fts)
and_more more fts (nothing t) = ([], fts)
and_more more fts (picked ft rest t) = let (found, left) = more rest in (ft ∷ found, left)

-- The tasks of up to `n` rounds of one thread, and the queue that they leave, while no fiber starts
-- or stops.
abbrev pub picks :
    ℕ → ℕ → (ℕ → Fiber) → List FiberAndThread → List FiberAndThread × List FiberAndThread
picks zero me fiber fts = ([], fts)
picks (suc n) me fiber fts = and_more (picks n me fiber) fts (pick me fiber fts)

split-HasTask :
    (xs : List FiberAndThread) (x : FiberAndThread) (ys : List FiberAndThread)
    → All HasTask (xs ++ (x ∷ ys))
    → All HasTask (xs ++ ys)
split-HasTask [] x ys (h, hs) = hs
split-HasTask (y ∷ xs) x ys (h, hs) = (h, split-HasTask xs x ys hs)

-- If nothing but `pick` happens, no fiber starting or stopping and nothing being queued: every entry that
-- the thread may take is picked within as many picks as the queue is long, in the order of the queue,
-- and the others are left, where each entry has a task.
pub picks_lem :
    (n me : ℕ) (fiber : ℕ → Fiber) (fts : List FiberAndThread)
    → All HasTask fts
    → length fts ≤ n
    → picks n me fiber fts
      ≡ (select (can_take me fiber) fts, select (λ ft. not (can_take me fiber ft)) fts)
picks_lem zero me fiber [] h bound = refl
picks_lem zero me fiber (ft ∷ fts) h bound = absurd (omega arith)
picks_lem (suc n) me fiber fts h bound = elim (pick_lem me fiber fts h) [
  | inr r ↦ ap (and_more (picks n me fiber) fts) r.result ∙ λ i. (
    sym (select-none (can_take me fiber) fts r.passed) i,
    sym (select-rest (can_take me fiber) fts r.passed) i,
  )
  | inl r ↦
      let remaining = subst (All HasTask) r.split h in
      let fewer = ap length r.split ∙ length-append r.before (r.found ∷ r.behind) in
      let joined = length-append r.before r.behind in
      let rest =
        picks_lem n me fiber (r.before ++ r.behind)
          (split-HasTask r.before r.found r.behind remaining) (omega arith) in
      let first = select-first (can_take me fiber) r.before r.found r.behind r.passed r.taken in
      let others = select-without (can_take me fiber) r.before r.found r.behind r.passed r.taken in
      ap (and_more (picks n me fiber) fts) r.result
      ∙ ap (λ (p : List FiberAndThread × List FiberAndThread). (r.found ∷ p.0, p.1)) rest
      ∙ (λ i. (sym first i, sym others i))
      ∙ ap (λ l. (select (can_take me fiber) l, select (λ ft. not (can_take me fiber ft)) l))
          (sym r.split)
]

-- `schedule` of a range appends the entries that have a task, in their order, and tickles the scheduler
-- exactly where the queue was empty and the range is not.
pub schedule_loop_lem :
    (more : List FiberAndThread) (need_tickle : Bool) (fts : List FiberAndThread)
    → schedule_loop more need_tickle fts
      ≡ ((is_nil fts && not (is_nil more)) || need_tickle, fts ++ select has_task more)
unfolding schedule_loop schedule_no_lock
schedule_loop_lem [] need_tickle fts =
    λ i. (sym (and_false (is_nil fts) need_tickle) i, sym (append-nil fts) i)
  where
    and_false : (b c : Bool) → ((b && false) || c) ≡ c
    and_false true c = refl
    and_false false c = refl
schedule_loop_lem (ft ∷ more) need_tickle fts = elim (Bool-cases (has_task ft)) [
  | inl task ↦ rw task (
      schedule_loop_lem more (is_nil fts || need_tickle) (fts ++ (ft ∷ [])) ∙ λ i.
      (appended fts i, append_assoc fts (ft ∷ []) (select has_task more) i))
  | inr none_ ↦ rw none_ (
      schedule_loop_lem more (is_nil fts || need_tickle) fts ∙ λ i.
      (ignored (is_nil fts) (not (is_nil more)) need_tickle i, fts ++ select has_task more))
]
  where
    or_true : (b : Bool) → (b || true) ≡ true
    or_true true = refl
    or_true false = refl

    appended :
        (l : List FiberAndThread)
        → ((is_nil (l ++ (ft ∷ [])) && not (is_nil more)) || (is_nil l || need_tickle))
          ≡ ((is_nil l && true) || need_tickle)
    appended [] = or_true (is_nil (ft ∷ []) && not (is_nil more))
    appended (x ∷ l) = refl

    ignored : (b c d : Bool) → ((b && c) || (b || d)) ≡ ((b && true) || d)
    ignored true c d = or_true c
    ignored false c d = refl
