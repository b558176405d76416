-- ===== src/FdManager/Contexts.antt =====
-- What the manager of yk/fdmanager.cc promises: one context for each descriptor, until it is
-- deleted.
use yk_server.Base.{
  ℕ, ◌*◌, ◌/◌, ◌≤◌, ◌<◌, ◌≡◌, ◌≢◌, refl, sym, ap, subst, ◌∙◌, List, [], ◌∷◌, ◌++◌, Option, none,
  some, length, get_elem?, set, arith, Bool, true, false, ◌||◌, leb, if◌then◌else◌, length-set,
  length-replicate, le→leb, lt→leb, lt_or_le, inl, inr,
}
use yk_server.FdManager.{
  descriptor, FdCtx, Kernel, FdManager, TimeoutType, so_rcvtimeo, other_type, set_timeout,
  get_timeout, set_timeout_at, fd_ctx, init, fd_manager, find_context, create_context, get, del,
  slot, resize, is_some,
}
use yk_server.Base.Lookup.{
  same_or_other, get_elem?-last, get_elem?-append, get_elem?-set_same, get_elem?-set_other,
  get_elem?-length_bound,
}
use yk_server.FdManager.Slots.{
  slot-set_same, slot-set_other, slot-resize, length-resize, slot_empty, slot-bound, slot-beyond,
}

-- There is room for 64 descriptors at least, and what stands at a descriptor is a context that was
-- made for it.
pub record IsValid (m : FdManager) : Type 0 where
  pub room : 64 ≤ length m.datas
  pub own :
      (fd p : ℕ)
      → slot m.datas fd ≡ some p
      → (c : FdCtx) × (get_elem? m.made p ≡ some c) × (c.fd ≡ fd)

-- A new manager is valid, and knows no descriptor.
pub fd_manager-IsValid :
    (k : Kernel) → IsValid (fd_manager k) × ((fd : ℕ) → slot (fd_manager k).datas fd ≡ none)
unfolding fd_manager
fd_manager-IsValid k = (
  record {
    room = omega (arith, length-replicate {A = Option ℕ} 64 none);
    own = λ fd p e. absurd (empty fd p e);
  },
  slot_empty 64,
)
  where
    empty : (fd p : ℕ) → slot (fd_manager k).datas fd ≡ some p → ⊥
    empty fd p e = let none_some : none ≡ some p = sym (slot_empty 64 fd) ∙ e in grind arith

fd_ctx-fd : (k : Kernel) (fd : ℕ) → (fd_ctx k fd).0.fd ≡ fd
unfolding fd_ctx init
fd_ctx-fd k fd = refl

-- The table with room for `fd`.
abbrev roomy : FdManager → ℕ → List (Option ℕ)
roomy m fd = if leb (length m.datas) fd then resize (fd * 3 / 2) m.datas else m.datas

roomy_lem :
    (m : FdManager) (fd : ℕ)
    → 64 ≤ length m.datas
    → (fd < length (roomy m fd))
      × (64 ≤ length (roomy m fd))
      × ((i : ℕ) → slot (roomy m fd) i ≡ slot m.datas i)
roomy_lem m fd h = elim (lt_or_le fd (length m.datas)) [
  | inl small ↦ rw (lt→leb (length m.datas) fd small) (small, h, λ i. refl)
  | inr large ↦
      let long = length-resize (fd * 3 / 2) m.datas in
      rw (le→leb (length m.datas) fd large) (
        omega (arith, long),
        omega (arith, long),
        λ i. slot-resize (fd * 3 / 2) m.datas i (omega arith),
      )
]

abbrev answer : ℕ → FdManager → Option (Option ℕ) → Option ℕ × FdManager
answer fd m found = elim found [ some p ↦ (p, m) | none ↦ create_context fd m ]

-- A descriptor got a new context, and the others kept theirs.
pub record Created (m : FdManager) (fd : ℕ) (r : Option ℕ × FdManager) : Type 0 where
  pub pointer : r.0 ≡ some (length m.made)
  pub context : get_elem? r.1.made (length m.made) ≡ some (fd_ctx m.kernel fd).0
  pub known : slot r.1.datas fd ≡ some (length m.made)
  pub in_range : fd < length r.1.datas
  pub others : (i : ℕ) → fd ≢ i → slot r.1.datas i ≡ slot m.datas i
  pub kept : (p : ℕ) {c : FdCtx} → get_elem? m.made p ≡ some c → get_elem? r.1.made p ≡ some c
  pub valid : IsValid r.1

module _ (m : FdManager) where
  find_context-known :
      (fd p : ℕ) (auto_create : Bool)
      → slot m.datas fd ≡ some p
      → find_context fd auto_create m ≡ some (some p)
  unfolding find_context
  find_context-known fd p auto_create e =
      rw (lt→leb (length m.datas) fd (slot-bound m.datas fd e), e) refl

  -- A descriptor that has a context keeps it, whether or not one would be made.
  pub get-known :
      (fd p : ℕ) (auto_create : Bool)
      → slot m.datas fd ≡ some p
      → get (descriptor fd) auto_create m ≡ (some p, m)
  unfolding get
  get-known fd p auto_create e = ap (answer fd m) (find_context-known fd p auto_create e)

module _ (m : FdManager) (v : IsValid m) where
  new_own :
      (fd i p : ℕ)
      → slot (set (roomy m fd) fd (some (length m.made))) i ≡ some p
      → (c : FdCtx) × (get_elem? (m.made ++ ((fd_ctx m.kernel fd).0 ∷ [])) p ≡ some c) × (c.fd ≡ i)
  new_own fd i p e = elim (same_or_other fd i) [
    | inl same ↦
        let at_fd =
          slot-set_same (roomy m fd) fd (some (length m.made)) (roomy_lem m fd v.room).0 in
        let pointer : length m.made ≡ p = grind arith in
        (
          (fd_ctx m.kernel fd).0,
          rw (← pointer) (get_elem?-last m.made (fd_ctx m.kernel fd).0),
          fd_ctx-fd m.kernel fd ∙ same,
        )
    | inr other ↦
        let (c, at_p, of_i) = v.own i p (
          sym ((roomy_lem m fd v.room).2 i)
          ∙ sym (slot-set_other (roomy m fd) fd i (some (length m.made)) other)
          ∙ e) in
        (c, get_elem?-append m.made ((fd_ctx m.kernel fd).0 ∷ []) p at_p, of_i)
  ]

  pub create_context-Created : (fd : ℕ) → Created m fd (create_context fd m)
  unfolding create_context
  create_context-Created fd =
      let (bound, room, same) = roomy_lem m fd v.room in
      record {
        pointer = refl;
        context = get_elem?-last m.made (fd_ctx m.kernel fd).0;
        known = slot-set_same (roomy m fd) fd (some (length m.made)) bound;
        in_range = omega (arith, length-set (roomy m fd) fd (some (length m.made)));
        others = λ i h. slot-set_other (roomy m fd) fd i (some (length m.made)) h ∙ same i;
        kept = λ p e. get_elem?-append m.made ((fd_ctx m.kernel fd).0 ∷ []) p e;
        valid = record {
          room = omega (arith, length-set (roomy m fd) fd (some (length m.made)));
          own = new_own fd;
        };
      }

  find_context_only : (fd : ℕ) → find_context fd false m ≡ some (slot m.datas fd)
  unfolding find_context
  find_context_only fd = elim (lt_or_le fd (length m.datas)) [
    | inl small ↦ rw (lt→leb (length m.datas) fd small) (if_either (is_some (slot m.datas fd)))
    | inr large ↦ rw (le→leb (length m.datas) fd large, slot-beyond m.datas fd large) refl
  ]
    where
      if_either :
          (b : Bool) → (if b || true then some (slot m.datas fd) else none) ≡ some (slot m.datas fd)
      if_either true = refl
      if_either false = refl

  find_context-none : (fd : ℕ) → slot m.datas fd ≡ none → find_context fd true m ≡ none
  unfolding find_context
  find_context-none fd e = elim (lt_or_le fd (length m.datas)) [
    | inl small ↦ rw (lt→leb (length m.datas) fd small, e) refl
    | inr large ↦ rw (le→leb (length m.datas) fd large) refl
  ]

  -- Without creation, `get` answers with the context that the descriptor has, or with none, and changes
  -- nothing.
  pub get_lem : (fd : ℕ) → get (descriptor fd) false m ≡ (slot m.datas fd, m)
  unfolding get
  get_lem fd = ap (answer fd m) (find_context_only fd)

  -- In a valid manager, `get` with creation gives a descriptor without a context a new one, which the
  -- manager then knows; the others keep theirs, no context is lost, and the manager is valid.
  pub get-Created : (fd : ℕ) → slot m.datas fd ≡ none → Created m fd (get (descriptor fd) true m)
  unfolding get
  get-Created fd e =
      subst (λ o. Created m fd (answer fd m o)) (sym (find_context-none fd e))
        (create_context-Created fd)

  -- In a valid manager, after `del` of a descriptor that is not negative, that descriptor has no context, and the others keep theirs.
  pub del_lem :
      (fd : ℕ)
      → (slot (del fd m).datas fd ≡ none)
        × ((i : ℕ) → fd ≢ i → slot (del fd m).datas i ≡ slot m.datas i)
        × ((del fd m).made ≡ m.made)
  unfolding del
  del_lem fd = elim (lt_or_le fd (length m.datas)) [
    | inl small ↦
        rw (lt→leb (length m.datas) fd small)
          (slot-set_same m.datas fd none small, (λ i h. slot-set_other m.datas fd i none h), refl)
    | inr large ↦
        rw (le→leb (length m.datas) fd large) (slot-beyond m.datas fd large, (λ i h. refl), refl)
  ]

  pub del-IsValid : (fd : ℕ) → IsValid (del fd m)
  unfolding del
  del-IsValid fd = elim (lt_or_le fd (length m.datas)) [
    | inl small ↦ rw (lt→leb (length m.datas) fd small) (record {
      room = omega (arith, v.room, length-set m.datas fd none);
      own = λ i p e. elim (same_or_other fd i) [
        | inl same ↦ absurd (deleted i p same small e)
        | inr other ↦ v.own i p (sym (slot-set_other m.datas fd i none other) ∙ e)
      ];
    })
    | inr large ↦ rw (le→leb (length m.datas) fd large) v
  ]
    where
      deleted : (i p : ℕ) → fd ≡ i → fd < length m.datas → slot (set m.datas fd none) i ≡ some p → ⊥
      deleted i p same small e =
          let none_some : none ≡ some p =
            sym (slot-set_same m.datas fd none small)
            ∙ ap (λ j. slot (set m.datas fd none) j) same
            ∙ e in
          grind arith

set_timeout_at_eq :
    (m : FdManager) (p t : ℕ) (type : TimeoutType) (c : FdCtx)
    → get_elem? m.made p ≡ some c
    → set_timeout_at p type t m ≡ record m { made = set m.made p (set_timeout type t c) }
unfolding set_timeout_at
set_timeout_at_eq m p t type c e = rw (set_timeout_at, e) refl

abbrev pub same_type : TimeoutType → TimeoutType → Bool
same_type so_rcvtimeo so_rcvtimeo = true
same_type so_rcvtimeo other_type = false
same_type other_type so_rcvtimeo = false
same_type other_type other_type = true

get_timeout-set_timeout :
    (a b : TimeoutType) (t : ℕ) (c : FdCtx)
    → get_timeout b (set_timeout a t c) ≡ (if same_type a b then t else get_timeout b c)
unfolding set_timeout get_timeout
get_timeout-set_timeout so_rcvtimeo so_rcvtimeo t c = refl
get_timeout-set_timeout so_rcvtimeo other_type t c = refl
get_timeout-set_timeout other_type so_rcvtimeo t c = refl
get_timeout-set_timeout other_type other_type t c = refl

-- In a valid manager, a timeout that is set through the context of one descriptor is found in the
-- context that `get` returns for that descriptor, as the timeout of its own type only; the contexts
-- of the other descriptors are as before.
pub set_timeout_at_lem :
    (m : FdManager) (v : IsValid m) (fd p t : ℕ) (type : TimeoutType)
    → slot m.datas fd ≡ some p
    → (before after : FdCtx) × (get_elem? m.made p ≡ some before)
      × (get (descriptor fd) true (set_timeout_at p type t m) ≡ (some p, set_timeout_at p type t m))
      × (get_elem? (set_timeout_at p type t m).made p ≡ some after)
      × ((other : TimeoutType)
          → get_timeout other after
            ≡ (if same_type type other then t else get_timeout other before))
      × ((q : ℕ) → p ≢ q → get_elem? (set_timeout_at p type t m).made q ≡ get_elem? m.made q)
set_timeout_at_lem m v fd p t type e =
    let (c, found, own) = v.own fd p e in
    rw (set_timeout_at_eq m p t type c found) (
      c,
      set_timeout type t c,
      found,
      get-known (record m { made = set m.made p (set_timeout type t c) }) fd p true e,
      get_elem?-set_same m.made p (set_timeout type t c) (get_elem?-length_bound m.made p found),
      (λ other. get_timeout-set_timeout type other t c),
      (λ q h. get_elem?-set_other m.made p q (set_timeout type t c) h),
    )

-- In a valid manager, where two calls of `get` for a descriptor have both let the read lock go and
-- then create a context one after the other, the two contexts differ, and the manager knows the
-- second only.
pub create_context_twice :
    (m : FdManager) (v : IsValid m) (fd : ℕ)
    → (create_context fd m).0 ≢ (create_context fd (create_context fd m).1).0
      × (slot (create_context fd (create_context fd m).1).1.datas fd
          ≡ (create_context fd (create_context fd m).1).0)
create_context_twice m v fd =
    let first = create_context-Created m v fd in
    let second = create_context-Created (create_context fd m).1 first.valid fd in
    let longer =
      get_elem?-length_bound (create_context fd m).1.made (length m.made) first.context in
    (
      (λ e.
          differ (length m.made) (length (create_context fd m).1.made) longer
            (sym first.pointer ∙ e ∙ second.pointer)),
      second.known ∙ sym second.pointer,
    )
  where
    differ : (a b : ℕ) → a < b → some a ≡ some b → ⊥
    differ a b h e = grind arith
