-- ===== src/Timer/Firing.antt =====
-- `listExpiredCb` of yk/timer.cc as a whole: the callbacks that it hands out, and the set behind it.
use yk_server.Base.{
  ℕ, ◌+◌, ◌*◌, ◌≤◌, ◌<◌, ◌≡◌, refl, sym, ap, ◌∙◌, Bool, true, false, not, ◌&&◌, ◌||◌, List, [], ◌∷◌,
  if◌then◌else◌, ltb, ◌==◌, Option, none, arith, Bool-cases, inl, inr, ◌⊎◌, lt_or_le,
}
use yk_server.Timer.{has_cb, rearm, fire, split_expired, list_expired_cb}
use yk_server.Timer.State.{Timer, TimerManager, u64, sub64, update, set_insert}
use yk_server.Timer.Sets.{mem, IsSorted, set_insert-IsSorted, mem-set_insert}
use yk_server.Timer.Invariant.{IsValid, update-IsSorted, update-IsSorted_same}
use yk_server.Timer.Expiry.{
  is_due, due, later, mem-due, mem-later, later-IsSorted, IsDistinct, due-IsDistinct,
  split_expired-due, none_due,
}

-- Between the rounds: the timers `ps` are out of the set, and still have their callbacks.
record Firing (m : TimerManager) (ps : List ℕ) : Type 0 where
  sorted : IsSorted m.heap m.timers
  live : (q : ℕ) → has_cb (m.heap q) ≡ (mem q m.timers || mem q ps)
  apart : (q : ℕ) → (mem q m.timers && mem q ps) ≡ false
  distinct : IsDistinct ps

module _ (now p : ℕ) (m : TimerManager) where
  abbrev requeued : ℕ → Timer
  requeued = update m.heap p (record (m.heap p) { next = u64 (now + (m.heap p).ms) })

  abbrev finished : ℕ → Timer
  finished = update m.heap p (record (m.heap p) { cb = none })

  rearm-again :
      (m.heap p).recurring ≡ true
      → rearm now p m ≡ record m { heap = requeued; timers = set_insert requeued p m.timers }
  unfolding rearm
  rearm-again again = λ i.
      if again i
      then record m { heap = requeued; timers = set_insert requeued p m.timers }
      else record m { heap = finished }

  rearm-once : (m.heap p).recurring ≡ false → rearm now p m ≡ record m { heap = finished }
  unfolding rearm
  rearm-once once = λ i.
      if once i
      then record m { heap = requeued; timers = set_insert requeued p m.timers }
      else record m { heap = finished }

rearm-Firing :
    (now p : ℕ) (ps : List ℕ) (m : TimerManager) → Firing m (p ∷ ps) → Firing (rearm now p m) ps
rearm-Firing now p ps m f = elim (Bool-cases (m.heap p).recurring) [
  | inl again ↦ rw (rearm-again now p m again) (record {
    sorted = set_insert-IsSorted (requeued now p m) p m.timers (
        update-IsSorted m.heap p (record (m.heap p) { next = u64 (now + (m.heap p).ms) }) m.timers
          out f.sorted);
    live = λ q. ground (arith, f.live q, f.live p, mem-set_insert (requeued now p m) q p m.timers);
    apart = λ q.
        ground (arith, f.apart q, f.distinct.0, mem-set_insert (requeued now p m) q p m.timers);
    distinct = f.distinct.1;
  })
  | inr once ↦ rw (rearm-once now p m once) (record {
    sorted = update-IsSorted_same m.heap p (record (m.heap p) { cb = none }) m.timers refl f.sorted;
    live = λ q. ground (arith, f.live q, f.distinct.0, out);
    apart = λ q. ground (arith, f.apart q);
    distinct = f.distinct.1;
  })
]
  where
    out : mem p m.timers ≡ false
    out = ground (arith, f.apart p)

fire-IsValid : (now : ℕ) (ps : List ℕ) (m : TimerManager) → Firing m ps → IsValid (fire now ps m).1
unfolding fire
fire-IsValid now [] m f = record { sorted = f.sorted; live = λ q. ground (arith, f.live q) }
fire-IsValid now (p ∷ ps) m f = fire-IsValid now ps (rearm now p m) (rearm-Firing now p ps m f)

-- Another timer is not touched by the round for `p`.
rearm_other :
    (now p q : ℕ) (m : TimerManager) → (q == p) ≡ false → (rearm now p m).heap q ≡ m.heap q
rearm_other now p q m ne = elim (Bool-cases (m.heap p).recurring) [
  | inl again ↦ rw (rearm-again now p m again) (rw ne)
  | inr once ↦ rw (rearm-once now p m once) (rw ne)
]

rearm-members :
    (now p q : ℕ) (m : TimerManager)
    → mem q (rearm now p m).timers ≡ (mem q m.timers || q == p && (m.heap p).recurring)
rearm-members now p q m = elim (Bool-cases (m.heap p).recurring) [
  | inl again ↦
      rw (rearm-again now p m again)
        (ground (arith, mem-set_insert (requeued now p m) q p m.timers))
  | inr once ↦ rw (rearm-once now p m once) (ground arith)
]

rearm_kept :
    (now p q : ℕ) (m : TimerManager)
    → (q == p) ≡ false
    → ((rearm now p m).heap q).recurring ≡ (m.heap q).recurring
rearm_kept now p q m ne = λ i. (rearm_other now p q m ne i).recurring

fire-members :
    (now : ℕ) (ps : List ℕ) (m : TimerManager) (q : ℕ)
    → IsDistinct ps
    → mem q (fire now ps m).1.timers ≡ (mem q m.timers || mem q ps && (m.heap q).recurring)
unfolding fire
fire-members now [] m q d = ground arith
fire-members now (p ∷ ps) m q d = ground (
  arith,
  fire-members now ps (rearm now p m) q d.1,
  rearm-members now p q m,
  rearm_kept now p q m,
)

abbrev pub callbacks : (ℕ → Timer) → List ℕ → List (Option ℕ)
callbacks heap [] = []
callbacks heap (p ∷ ps) = (heap p).cb ∷ callbacks heap ps

callbacks_cong :
    (heap heap' : ℕ → Timer) (ps : List ℕ)
    → ((q : ℕ) → mem q ps ≡ true → heap' q ≡ heap q)
    → callbacks heap' ps ≡ callbacks heap ps
callbacks_cong heap heap' [] same = refl
callbacks_cong heap heap' (p ∷ ps) same = λ i.
    (same p (ground arith) i).cb ∷ callbacks_cong heap heap' ps (λ q m. same q (ground arith)) i

fire-callbacks :
    (now : ℕ) (ps : List ℕ) (m : TimerManager)
    → IsDistinct ps
    → (fire now ps m).0 ≡ callbacks m.heap ps
unfolding fire
fire-callbacks now [] m d = refl
fire-callbacks now (p ∷ ps) m d =
    ap (λ t. (m.heap p).cb ∷ t)
      (fire-callbacks now ps (rearm now p m) d.1
        ∙ callbacks_cong m.heap (rearm now p m).heap ps
            (λ q h. rearm_other now p q m (ground arith)))

-- The loop over the expired timers, from a valid manager.
module _ (rollover : Bool) (now : ℕ) (m : TimerManager) (v : IsValid m) where
  abbrev drained : TimerManager
  drained = record m { timers = later rollover now m.heap m.timers; previous_time = now }

  drained-Firing : Firing drained (due rollover now m.heap m.timers)
  drained-Firing = record {
    sorted = later-IsSorted rollover now m.heap m.timers v.sorted;
    live = λ q. ground (
      arith,
      v.live q,
      mem-due rollover now m.heap q m.timers,
      mem-later rollover now m.heap q m.timers,
    );
    apart = λ q.
        ground
          (arith, mem-due rollover now m.heap q m.timers, mem-later rollover now m.heap q m.timers);
    distinct = due-IsDistinct rollover now m.heap m.timers v.sorted;
  }

-- What a call of `listExpiredCb` at the time `now` did.
pub record Expired (rollover : Bool) (now : ℕ) (m : TimerManager)
    (r : List (Option ℕ) × TimerManager) : Type 0 where
  pub handed_out : r.0 ≡ callbacks m.heap (due rollover now m.heap m.timers)
  pub valid : IsValid r.1
  pub members :
      (q : ℕ)
      → mem q r.1.timers
        ≡ (mem q m.timers && (not (is_due rollover now (m.heap q)) || (m.heap q).recurring))

fire-Expired :
    (rollover : Bool) (now : ℕ) (m : TimerManager) (v : IsValid m)
    → Expired rollover now m
        (fire now (due rollover now m.heap m.timers) (drained rollover now m v))
fire-Expired rollover now m v =
    let ps : List ℕ = due rollover now m.heap m.timers in
    let f = drained-Firing rollover now m v in
    record {
      handed_out = fire-callbacks now ps (drained rollover now m v) f.distinct;
      valid = fire-IsValid now ps (drained rollover now m v) f;
      members = λ q. ground (
        arith,
        fire-members now ps (drained rollover now m v) q f.distinct,
        mem-due rollover now m.heap q m.timers,
        mem-later rollover now m.heap q m.timers,
      );
    }

-- `detectClockRollover` in one expression: more than an hour back, in unsigned arithmetic.
abbrev pub rolled_over : ℕ → TimerManager → Bool
rolled_over now m = ltb now m.previous_time && ltb now (sub64 m.previous_time (60 * 60 * 1000))

list_expired-empty :
    (probe now : ℕ) (m : TimerManager) → m.timers ≡ [] → list_expired_cb probe now m ≡ ([], m)
unfolding list_expired_cb
list_expired-empty probe now m e = ground arith

list_expired-early :
    (probe now : ℕ) (m : TimerManager) (p : ℕ) (ps : List ℕ)
    → m.timers ≡ p ∷ ps
    → rolled_over now m ≡ false
    → now < (m.heap p).next
    → list_expired_cb probe now m ≡ ([], record m { previous_time = now })
unfolding list_expired_cb
list_expired-early probe now m p ps e still ahead = ground arith

list_expired-fires :
    (probe now : ℕ) (m : TimerManager) (p : ℕ) (ps : List ℕ)
    → m.timers ≡ p ∷ ps
    → (rolled_over now m ≡ true) ⊎ ((m.heap p).next ≤ now)
    → list_expired_cb probe now m ≡ (
        let (expired, rest) = split_expired probe now (rolled_over now m) m.heap m.timers in
        fire now expired (record m { timers = rest; previous_time = now }))
unfolding list_expired_cb
list_expired-fires probe now m p ps e some_due = ground arith

early-Expired :
    (now : ℕ) (m : TimerManager) (p : ℕ) (ps : List ℕ)
    → IsValid m
    → m.timers ≡ p ∷ ps
    → now < (m.heap p).next
    → Expired false now m ([], record m { previous_time = now })
early-Expired now m p ps v e ahead = record {
  handed_out = ap (callbacks m.heap) (sym nothing);
  valid = record { sorted = v.sorted; live = v.live };
  members = λ q. ground (arith, mem-due false now m.heap q m.timers, ap (mem q) nothing);
}
  where
    sorted' : IsSorted m.heap (p ∷ ps)
    sorted' = rw e at v.sorted

    nothing : due false now m.heap m.timers ≡ []
    nothing = ap (due false now m.heap) e ∙ ground (arith, none_due now m.heap p ps ahead sorted'.0)

-- On a valid manager, with `now_timer` at an address outside the set, `listExpiredCb` hands out the
-- callbacks of the timers that are due, in the order of the set, or of all timers if the clock was
-- set back by more than an hour; due timers stay in the set if they recur, the others stay, and
-- the manager is valid again.
pub list_expired_cb_lem :
    (probe now : ℕ) (m : TimerManager)
    → IsValid m
    → mem probe m.timers ≡ false
    → Expired (rolled_over now m) now m (list_expired_cb probe now m)
list_expired_cb_lem probe now m v out = from_list m.timers refl
  where
    fires :
        (p : ℕ) (ps : List ℕ)
        → m.timers ≡ p ∷ ps
        → (rolled_over now m ≡ true) ⊎ ((m.heap p).next ≤ now)
        → Expired (rolled_over now m) now m (list_expired_cb probe now m)
    fires p ps e some_due =
        rw
          (
            list_expired-fires probe now m p ps e some_due,
            split_expired-due probe now (rolled_over now m) m.heap m.timers out v.sorted,
          )
          (fire-Expired (rolled_over now m) now m v)

    from_list :
        (l : List ℕ)
        → m.timers ≡ l
        → Expired (rolled_over now m) now m (list_expired_cb probe now m)
    from_list [] e = rw (list_expired-empty probe now m e) (record {
      handed_out = ap (λ l. callbacks m.heap (due (rolled_over now m) now m.heap l)) (sym e);
      valid = v;
      members = λ q. ground (arith, ap (mem q) e);
    })
    from_list (p ∷ ps) e = elim (Bool-cases (rolled_over now m)) [
      | inl back ↦ fires p ps e (inl back)
      | inr still ↦ elim (lt_or_le now (m.heap p).next) [
        | inl ahead ↦
            rw (list_expired-early probe now m p ps e still ahead, still)
              (early-Expired now m p ps v e ahead)
        | inr reached ↦ fires p ps e (inr reached)
      ]
    ]
