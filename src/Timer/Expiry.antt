-- ===== src/Timer/Expiry.antt =====
-- What `listExpiredCb` of yk/timer.cc takes from the set: the timers that are due, in their order,
-- or all of them after the clock was set back.
use yk_server.Base.{
  ℕ, ◌≤◌, ◌<◌, ◌≡◌, refl, sym, ap, ◌∙◌, Bool, true, false, not, ◌&&◌, ◌||◌, List, [], ◌∷◌, ◌++◌,
  if◌then◌else◌, leb, none, arith, Bool-cases, inl, inr, le→leb,
}
use yk_server.Timer.{split_expired}
use yk_server.Timer.State.{Timer, update, less, before, lower_bound, skip_now}
use yk_server.Timer.Sets.{mem, AllAfter, IsSorted, AllAfter-not_mem}
use yk_server.Timer.Invariant.{update-IsSorted}

-- The timers of a list that are due at `now`, and the others.
abbrev pub is_due : Bool → ℕ → Timer → Bool
is_due rollover now t = rollover || leb t.next now

module _ (rollover : Bool) (now : ℕ) (heap : ℕ → Timer) where
  abbrev pub due : List ℕ → List ℕ
  due [] = []
  due (q ∷ qs) = if is_due rollover now (heap q) then q ∷ due qs else due qs

  abbrev pub later : List ℕ → List ℕ
  later [] = []
  later (q ∷ qs) = if is_due rollover now (heap q) then later qs else q ∷ later qs

  pub mem-due : (q : ℕ) (l : List ℕ) → mem q (due l) ≡ (mem q l && is_due rollover now (heap q))
  mem-due q [] = refl
  mem-due q (p ∷ l) = ground (arith, mem-due q l)

  pub mem-later :
      (q : ℕ) (l : List ℕ) → mem q (later l) ≡ (mem q l && not (is_due rollover now (heap q)))
  mem-later q [] = refl
  mem-later q (p ∷ l) = ground (arith, mem-later q l)

  AllAfter-later : (p : ℕ) (l : List ℕ) → AllAfter heap p l → AllAfter heap p (later l)
  AllAfter-later p [] a = tt
  AllAfter-later p (q ∷ l) a = elim (Bool-cases (is_due rollover now (heap q))) [
    | inl d ↦ rw d (AllAfter-later p l a.1)
    | inr d ↦ rw d (a.0, AllAfter-later p l a.1)
  ]

  pub later-IsSorted : (l : List ℕ) → IsSorted heap l → IsSorted heap (later l)
  later-IsSorted [] s = tt
  later-IsSorted (q ∷ l) s = elim (Bool-cases (is_due rollover now (heap q))) [
    | inl d ↦ rw d (later-IsSorted l s.1)
    | inr d ↦ rw d (AllAfter-later q l s.0, later-IsSorted l s.1)
  ]

abbrev pub IsDistinct : List ℕ → Type 0
IsDistinct [] = Unit
IsDistinct (p ∷ ps) = (mem p ps ≡ false) × IsDistinct ps

pub due-IsDistinct :
    (rollover : Bool) (now : ℕ) (heap : ℕ → Timer) (l : List ℕ)
    → IsSorted heap l
    → IsDistinct (due rollover now heap l)
due-IsDistinct rollover now heap [] s = tt
due-IsDistinct rollover now heap (q ∷ l) s = elim (Bool-cases (is_due rollover now (heap q))) [
  | inl d ↦ rw d (out, due-IsDistinct rollover now heap l s.1)
  | inr d ↦ rw d (due-IsDistinct rollover now heap l s.1)
]
  where
    out : mem q (due rollover now heap l) ≡ false
    out = ground (arith, mem-due rollover now heap q l, AllAfter-not_mem heap q l s.0)

-- In a sorted list the due timers stand in front.
module _ (now : ℕ) (heap : ℕ → Timer) where
  before-le : (p q : ℕ) → before heap p q ≡ true → (heap p).next ≤ (heap q).next
  unfolding less
  before-le p q h = ground arith

  pub none_due :
      (p : ℕ) (l : List ℕ)
      → now < (heap p).next
      → AllAfter heap p l
      → (due false now heap l ≡ []) × (later false now heap l ≡ l)
  none_due p [] h a = (refl, refl)
  none_due p (q ∷ l) h a = ground (arith, none_due p l h a.1, before-le p q a.0)

  skip_now-due :
      (p : ℕ) (l : List ℕ)
      → now ≤ (heap p).next
      → AllAfter heap p l
      → IsSorted heap l
      → skip_now heap now l ≡ (due false now heap l, later false now heap l)
  unfolding skip_now
  skip_now-due p [] h a s = refl
  skip_now-due p (q ∷ l) h a s =
      ground (arith, before-le p q a.0, skip_now-due p l h a.1 s.1, none_due q l)

  skip_now-head :
      (p : ℕ) (l : List ℕ)
      → now ≤ (heap p).next
      → IsSorted heap (p ∷ l)
      → skip_now heap now (p ∷ l) ≡ (due false now heap (p ∷ l), later false now heap (p ∷ l))
  unfolding skip_now
  skip_now-head p l h s = ground (arith, skip_now-due p l h s.0 s.1, none_due p l)

  before_probe :
      (q probe : ℕ) → (heap probe).next ≡ now → before heap q probe ≡ true → (heap q).next ≤ now
  unfolding less
  before_probe q probe e h = ground arith

  not_before_probe :
      (q probe : ℕ) → (heap probe).next ≡ now → before heap q probe ≡ false → now ≤ (heap q).next
  unfolding less
  not_before_probe q probe e h = ground arith

  -- The walk to `lower_bound` and on past `now` splits the list into due and later timers.
  pub lower_bound-due :
      (probe : ℕ) (l : List ℕ)
      → (heap probe).next ≡ now
      → IsSorted heap l
      → let (front, back) = lower_bound heap probe l in
        let (same, rest) = skip_now heap now back in
        ◌≡◌ {A = List ℕ × List ℕ}
          (front ++ same, rest)
          (due false now heap l, later false now heap l)
  unfolding lower_bound
  lower_bound-due probe [] e s = unfold skip_now in refl
  lower_bound-due probe (q ∷ l) e s = elim (Bool-cases (before heap q probe)) [
    | inl earlier ↦
        let d : leb (heap q).next now ≡ true =
          le→leb (heap q).next now (before_probe q probe e earlier) in
        rw (earlier, d)
          (ap (λ (t : List ℕ × List ℕ). (q ∷ t.0, t.1)) (lower_bound-due probe l e s.1))
    | inr here ↦ rw here (skip_now-head q l (not_before_probe q probe e here) s)
  ]

due_all :
    (now : ℕ) (heap : ℕ → Timer) (l : List ℕ)
    → (due true now heap l ≡ l) × (later true now heap l ≡ [])
due_all now heap [] = (refl, refl)
due_all now heap (q ∷ l) = (ap (λ t. q ∷ t) (due_all now heap l).0, (due_all now heap l).1)

due_cong :
    (now : ℕ) (heap heap' : ℕ → Timer) (l : List ℕ)
    → ((q : ℕ) → mem q l ≡ true → (heap' q).next ≡ (heap q).next)
    → (due false now heap' l ≡ due false now heap l)
      × (later false now heap' l ≡ later false now heap l)
due_cong now heap heap' [] same = (refl, refl)
due_cong now heap heap' (q ∷ l) same =
    ground (arith, same q, due_cong now heap heap' l (λ r m. same r (ground arith)))

-- On a sorted set, the timers that `listExpiredCb` splits off with `lower_bound` and the walk on are
-- just the due ones in their order, or all after a rollover, where `now_timer` stands at an address outside the set.
pub split_expired-due :
    (probe now : ℕ) (rollover : Bool) (heap : ℕ → Timer) (l : List ℕ)
    → mem probe l ≡ false
    → IsSorted heap l
    → split_expired probe now rollover heap l ≡ (due rollover now heap l, later rollover now heap l)
unfolding split_expired
split_expired-due probe now true heap l out s =
    λ i. (sym (due_all now heap l).0 i, sym (due_all now heap l).1 i)
split_expired-due probe now false heap l out s =
    let t : Timer = record { recurring = false; ms = 0; next = now; cb = none } in
    let heap' : ℕ → Timer = update heap probe t in
    let same : (q : ℕ) → mem q l ≡ true → (heap' q).next ≡ (heap q).next = λ q m. ground arith in
    let e = due_cong now heap heap' l same in
    lower_bound-due now heap' probe l (ground arith) (update-IsSorted heap probe t l out s)
    ∙ (λ i. (e.0 i, e.1 i))
