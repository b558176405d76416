-- ===== src/Timer/Sets.antt =====
-- The sorted set of timers of yk/timer.cc: the comparator is a strict total order on pointers, and
-- insertion, search and erasure keep the order and change the members as they should.
use yk_server.Base.{
  ℕ, ◌≡◌, refl, ◌∙◌, Bool, true, false, not, ◌&&◌, ◌||◌, List, [], ◌∷◌, ◌==◌, arith, Bool-cases,
  inl, inr,
}
use yk_server.Timer.State.{Timer, less, before, set_insert, set_find, set_erase}

abbrev pub mem : ℕ → List ℕ → Bool
mem q [] = false
mem q (p ∷ ps) = q == p || mem q ps

module _ (heap : ℕ → Timer) where
  pub before_irrefl : (p : ℕ) → before heap p p ≡ false
  unfolding less
  before_irrefl p = ground arith

  pub before_trans :
      (p q r : ℕ) → before heap p q ≡ true → before heap q r ≡ true → before heap p r ≡ true
  unfolding less
  before_trans p q r a b = ground arith

  pub before_asym : (p q : ℕ) → before heap p q ≡ true → before heap q p ≡ false
  unfolding less
  before_asym p q a = ground arith

  -- Two pointers that are not ordered are one.
  pub before_total : (p q : ℕ) → before heap p q ≡ false → before heap q p ≡ false → p ≡ q
  unfolding less
  before_total p q a b = ground arith

  abbrev pub AllAfter : ℕ → List ℕ → Type 0
  AllAfter p [] = Unit
  AllAfter p (q ∷ qs) = (before heap p q ≡ true) × AllAfter p qs

  abbrev pub IsSorted : List ℕ → Type 0
  IsSorted [] = Unit
  IsSorted (p ∷ ps) = AllAfter p ps × IsSorted ps

  AllAfter-trans : (p q : ℕ) (l : List ℕ) → before heap p q ≡ true → AllAfter q l → AllAfter p l
  AllAfter-trans p q [] h a = tt
  AllAfter-trans p q (r ∷ l) h a = (before_trans p q r h a.0, AllAfter-trans p q l h a.1)

  AllAfter-insert :
      (r p : ℕ) (l : List ℕ)
      → before heap r p ≡ true
      → AllAfter r l
      → AllAfter r (set_insert heap p l)
  unfolding set_insert
  AllAfter-insert r p [] h a = (h, tt)
  AllAfter-insert r p (q ∷ l) h a = elim (Bool-cases (before heap q p)) [
    | inl later ↦ rw later (a.0, AllAfter-insert r p l h a.1)
    | inr here ↦ elim (Bool-cases (before heap p q)) [
      | inl e ↦ rw (here, e) (h, a)
      | inr e ↦ rw (here, e) a
    ]
  ]

  pub set_insert-IsSorted : (p : ℕ) (l : List ℕ) → IsSorted l → IsSorted (set_insert heap p l)
  unfolding set_insert
  set_insert-IsSorted p [] s = (tt, tt)
  set_insert-IsSorted p (q ∷ l) s = elim (Bool-cases (before heap q p)) [
    | inl later ↦ rw later (AllAfter-insert q p l later s.0, set_insert-IsSorted p l s.1)
    | inr here ↦ elim (Bool-cases (before heap p q)) [
      | inl e ↦ rw (here, e) ((e, AllAfter-trans p q l e s.0), s)
      | inr e ↦ rw (here, e) s
    ]
  ]

  pub mem-set_insert : (r p : ℕ) (l : List ℕ) → mem r (set_insert heap p l) ≡ (r == p || mem r l)
  unfolding set_insert
  mem-set_insert r p [] = refl
  mem-set_insert r p (q ∷ l) = ground (arith, mem-set_insert r p l, before_total p q)

  pub AllAfter-not_mem : (p : ℕ) (l : List ℕ) → AllAfter p l → mem p l ≡ false
  AllAfter-not_mem p [] a = refl
  AllAfter-not_mem p (q ∷ l) a = ground (arith, before_irrefl p, AllAfter-not_mem p l a.1)

  -- In a sorted set, search by the comparator finds just the members.
  pub set_find-mem : (p : ℕ) (l : List ℕ) → IsSorted l → set_find heap p l ≡ mem p l
  unfolding set_find
  set_find-mem p [] s = refl
  set_find-mem p (q ∷ l) s =
      ground (arith, set_find-mem p l s.1, before_total p q, before_irrefl p, first p q l s.0)
    where
      first : (p q : ℕ) (l : List ℕ) → AllAfter q l → before heap p q ≡ true → mem p l ≡ false
      first p q l a h = AllAfter-not_mem p l (AllAfter-trans p q l h a)

  AllAfter-erase : (r p : ℕ) (l : List ℕ) → AllAfter r l → AllAfter r (set_erase heap p l)
  unfolding set_erase
  AllAfter-erase r p [] a = tt
  AllAfter-erase r p (q ∷ l) a = elim (Bool-cases (before heap q p)) [
    | inl later ↦ rw later (a.0, AllAfter-erase r p l a.1)
    | inr here ↦ rw here a.1
  ]

  pub set_erase-IsSorted : (p : ℕ) (l : List ℕ) → IsSorted l → IsSorted (set_erase heap p l)
  unfolding set_erase
  set_erase-IsSorted p [] s = tt
  set_erase-IsSorted p (q ∷ l) s = elim (Bool-cases (before heap q p)) [
    | inl later ↦ rw later (AllAfter-erase q p l s.0, set_erase-IsSorted p l s.1)
    | inr here ↦ rw here s.1
  ]

  -- Erasing a member takes it away and no other.
  pub mem-set_erase :
      (r p : ℕ) (l : List ℕ)
      → IsSorted l
      → mem p l ≡ true
      → mem r (set_erase heap p l) ≡ (mem r l && not (r == p))
  unfolding set_erase
  mem-set_erase r p [] s m = cc
  mem-set_erase r p (q ∷ l) s m = ground (
    arith,
    mem-set_erase r p l s.1,
    before_irrefl q,
    before_total p q,
    AllAfter-not_mem q l s.0,
    first p q l s.0,
  )
    where
      first : (p q : ℕ) (l : List ℕ) → AllAfter q l → before heap p q ≡ true → mem p l ≡ false
      first p q l a h = AllAfter-not_mem p l (AllAfter-trans p q l h a)

-- The order of a set looks only at the due times of its members.
module _ (heap heap' : ℕ → Timer) where
  before_cong :
      (p q : ℕ)
      → (heap' p).next ≡ (heap p).next
      → (heap' q).next ≡ (heap q).next
      → before heap' p q ≡ before heap p q
  unfolding less
  before_cong p q a b = ground arith

  AllAfter-cong :
      (p : ℕ) (l : List ℕ)
      → (heap' p).next ≡ (heap p).next
      → ((q : ℕ) → mem q l ≡ true → (heap' q).next ≡ (heap q).next)
      → AllAfter heap p l
      → AllAfter heap' p l
  AllAfter-cong p [] e same a = tt
  AllAfter-cong p (q ∷ l) e same a = (
    before_cong p q e (same q (ground arith)) ∙ a.0,
    AllAfter-cong p l e (λ r m. same r (ground arith)) a.1,
  )

  pub IsSorted-cong :
      (l : List ℕ)
      → ((q : ℕ) → mem q l ≡ true → (heap' q).next ≡ (heap q).next)
      → IsSorted heap l
      → IsSorted heap' l
  IsSorted-cong [] same s = tt
  IsSorted-cong (p ∷ l) same s = (
    AllAfter-cong p l (same p (ground arith)) (λ q m. same q (ground arith)) s.0,
    IsSorted-cong l (λ q m. same q (ground arith)) s.1,
  )
