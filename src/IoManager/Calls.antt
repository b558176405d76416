-- ===== src/IoManager/Calls.antt =====
-- `addEvent`, `delEvent` and `cancelEvent` of yk/iomanager.cc.
use yk_server.Base.{
  ℕ, ◌+◌, ◌*◌, ◌/◌, ◌≤◌, ◌≡◌, refl, sym, ap, subst, ◌∙◌, Bool, true, false, List, [], ◌∷◌, ◌++◌,
  if◌then◌else◌, leb, Option, none, some, length, get_elem?, set, arith, inl, inr, append-nil,
  lt_or_le, le→leb, lt→leb,
}
use yk_server.Base.Lookup.{
  get_elem?-set_same, get_elem?-length_bound, get_elem?-below, get_elem?-outside,
}
use yk_server.ByteArray.State.{sub_size}
use yk_server.IoManager.{
  Event, read, write, Waiter, no_waiter, FdContext, new_context, has, with_bit, with_context, waits,
  IoManager, Interest, interest_of, done, aborted, context_resize, io_manager, watch, add_event,
  told, del_event, cancel_event,
}
use yk_server.IoManager.Contexts.{
  IsConsistent, cleared, cleared-IsConsistent, event_count-cleared, trigger_event-cleared,
  event_count-total, Resized, context_resize-Resized, new_context-IsConsistent, filled-IsConsistent,
  event_count-filled, not_registered-empty, registered-not_empty,
}
use yk_server.IoManager.Waiting.{
  waiter_in, waiter_if, waiter_at, waiting, IsValid, waiter_of-waits, waiter_at-some,
  waiter_in-registered, none-not_registered, some-registered, IsOther, agree_off, waiter_at-set,
  update-IsValid, sub_size-one,
}

-- A new manager has 32 contexts in which nothing waits.
pub io_manager-IsValid : IsValid io_manager
unfolding io_manager
io_manager-IsValid = record {
  room = omega arith;
  consistent =
      (context_resize-Resized 32 [] (omega arith)).consistent (λ i x e. absurd (grind arith));
  counted = refl;
}

-- The contexts that `addEvent` works on.
abbrev pub grown : ℕ → List FdContext → List FdContext
grown fd cs = if leb (length cs) fd then context_resize (fd * 3 / 2) cs else cs

-- They are the old ones, with a place for the descriptor.
pub record Roomy (fd : ℕ) (m : IoManager) : Type 0 where
  pub place : (c : FdContext) × (get_elem? (grown fd m.contexts) fd ≡ some c) × IsConsistent c
  pub valid : IsValid (record m { contexts = grown fd m.contexts })
  pub same :
      (fd' : ℕ) (event' : Event)
      → waiter_at (grown fd m.contexts) fd' event' ≡ waiter_at m.contexts fd' event'

pub grown-Roomy : (fd : ℕ) (m : IoManager) → IsValid m → Roomy fd m
grown-Roomy fd m v = elim (lt_or_le fd (length m.contexts)) [
  | inl below ↦
      let kept : grown fd m.contexts ≡ m.contexts =
        ap (λ b. if b then context_resize (fd * 3 / 2) m.contexts else m.contexts)
          (lt→leb (length m.contexts) fd below) in
      let (c, e) = get_elem?-below m.contexts fd below in
      record {
        place = (c, ap (λ cs. get_elem? cs fd) kept ∙ e, v.consistent fd c e);
        valid =
            subst (λ cs. IsValid (record m { contexts = cs })) (sym kept)
              (record { room = v.room; consistent = v.consistent; counted = v.counted });
        same = λ fd' event'. ap (λ cs. waiter_at cs fd' event') kept;
      }
  | inr beyond ↦
      let room = v.room in
      let r = context_resize-Resized (fd * 3 / 2) m.contexts (omega arith) in
      let larger : grown fd m.contexts ≡ context_resize (fd * 3 / 2) m.contexts =
        ap (λ b. if b then context_resize (fd * 3 / 2) m.contexts else m.contexts)
          (le→leb (length m.contexts) fd beyond) in
      record {
        place = (
          new_context,
          ap (λ cs. get_elem? cs fd) larger ∙ r.fresh fd beyond (omega arith),
          new_context-IsConsistent,
        );
        valid =
            subst (λ cs. IsValid (record m { contexts = cs })) (sym larger)
              (record {
                room = omega (arith, r.long);
                consistent = r.consistent v.consistent;
                counted = v.counted ∙ sym r.same_total;
              });
        same = λ fd' event'. ap (λ cs. waiter_at cs fd' event') larger ∙ unchanged r fd' event';
      }
]
  where
    blank :
        Resized (fd * 3 / 2) m.contexts
        → (fd' : ℕ) (event' : Event) → length m.contexts ≤ fd'
        → waiter_at (context_resize (fd * 3 / 2) m.contexts) fd' event' ≡ none
    blank r fd' event' beyond = elim (lt_or_le fd' (fd * 3 / 2)) [
      | inl inside ↦ ap (λ o. waiter_if o event') (r.fresh fd' beyond inside) ∙ nothing event'
      | inr past ↦
          let long = r.long in
          ap (λ o. waiter_if o event')
            (get_elem?-outside (context_resize (fd * 3 / 2) m.contexts) fd' (omega arith))
    ]
      where
        nothing : (event' : Event) → waiter_in new_context event' ≡ none
        nothing read = refl
        nothing write = refl

    unchanged :
        Resized (fd * 3 / 2) m.contexts
        → (fd' : ℕ) (event' : Event)
        → waiter_at (context_resize (fd * 3 / 2) m.contexts) fd' event'
          ≡ waiter_at m.contexts fd' event'
    unchanged r fd' event' = elim (lt_or_le fd' (length m.contexts)) [
      | inl below ↦
          let (c, e) = get_elem?-below m.contexts fd' below in
          waiter_at-some (context_resize (fd * 3 / 2) m.contexts) fd' event' (r.kept fd' c e)
          ∙ sym (waiter_at-some m.contexts fd' event' e)
      | inr beyond ↦
          blank r fd' event' beyond
          ∙ sym (ap (λ o. waiter_if o event') (get_elem?-outside m.contexts fd' beyond))
    ]

-- What adding an event leads to.
pub record Added (s fd : ℕ) (event : Event) (w : Waiter) (m m' : IoManager) : Type 0 where
  pub valid : IsValid m'
  pub registered : waiting m' fd event ≡ some (s, w)
  pub others :
      (fd' : ℕ) (event' : Event)
      → IsOther fd event fd' event'
      → waiting m' fd' event' ≡ waiting m fd' event'
  pub counted : m'.pending ≡ m.pending + 1
  pub queue : m'.queue ≡ m.queue

-- `addEvent`, where the manager is valid, nothing waits for the event and epoll does not fail, makes the
-- waiter wait for it, with the scheduler of the thread, and leaves what waits for other events and the
-- queue; the manager stays valid, and counts one event more, also where its table has to grow.
pub add_event-Added :
    (m : IoManager) (s fd : ℕ) (event : Event) (w : Waiter)
    → IsValid m
    → waiting m fd event ≡ none
    → (m' : IoManager) × (add_event (some s) true fd event w m ≡ done true m')
      × Added s fd event w m m'
unfolding add_event waiting
add_event-Added m s fd event w v free =
    let r = grown-Roomy fd m v in
    let (c, e, fits) = r.place in
    let unused : has c event ≡ false =
      none-not_registered c event fits
        (sym (waiter_at-some (grown fd m.contexts) fd event e) ∙ r.same fd event ∙ free) in
    let filled : FdContext = with_context (with_bit c event true) event (waits (some s) w) in
    let m' : IoManager = record m {
      contexts = set (grown fd m.contexts) fd filled;
      pending = m.pending + 1;
      epoll = watch fd (some (interest_of (with_bit c event true))) m.epoll;
    } in
    let stands =
      get_elem?-set_same (grown fd m.contexts) fd filled
        (get_elem?-length_bound (grown fd m.contexts) fd e) in
    (
      m',
      rw (add_event, e, not_registered-empty c event fits unused) refl,
      record {
        valid =
            update-IsValid (record m { contexts = grown fd m.contexts }) m' fd c filled r.valid e
              refl (filled-IsConsistent c event s w fits)
              (omega (arith, event_count-filled c event (waits (some s) w) unused));
        registered =
            waiter_at-some (set (grown fd m.contexts) fd filled) fd event stands
            ∙ waiter_in-filled c event s w;
        others = λ fd' event' other.
            waiter_at-set (grown fd m.contexts) fd c filled event e
              (agree_off c event true (waits (some s) w)) fd' event' other
            ∙ r.same fd' event';
        counted = refl;
        queue = refl;
      },
    )
  where
    waiter_in-filled :
        (c : FdContext) (event : Event) (s : ℕ) (w : Waiter)
        → waiter_in (with_context (with_bit c event true) event (waits (some s) w)) event
          ≡ some (s, w)
    waiter_in-filled c read s w = waiter_of-waits s w
    waiter_in-filled c write s w = waiter_of-waits s w

-- `addEvent` on a valid manager fails its assertion where something waits for the event already, and
-- epoll does not fail.
pub add_event-registered :
    (m : IoManager) (s fd : ℕ) (event : Event) (w : Waiter) (s' : ℕ) (w' : Waiter)
    → IsValid m
    → waiting m fd event ≡ some (s', w')
    → add_event (some s) true fd event w m ≡ aborted
unfolding add_event waiting
add_event-registered m s fd event w s' w' v found =
    let r = grown-Roomy fd m v in
    let (c, e, fits) = r.place in
    let used : has c event ≡ true =
      some-registered c event s' w'
        (sym (waiter_at-some (grown fd m.contexts) fd event e) ∙ r.same fd event ∙ found) in
    rw (add_event, e, registered-not_empty c event fits used) refl

-- What taking an event away leads to; `calls` is what is scheduled for it.
pub record Removed (fd : ℕ) (event : Event) (calls : List (ℕ × Waiter)) (m m' : IoManager)
    : Type 0 where
  pub valid : IsValid m'
  pub gone : waiting m' fd event ≡ none
  pub others :
      (fd' : ℕ) (event' : Event)
      → IsOther fd event fd' event'
      → waiting m' fd' event' ≡ waiting m fd' event'
  pub counted : m'.pending + 1 ≡ m.pending
  pub queue : m'.queue ≡ m.queue ++ calls

-- The state after an event is cleared and its waiter handed over.
abbrev pub taken_out :
    ℕ → Event → FdContext → List (ℕ × Waiter) → Option Interest → IoManager → IoManager
taken_out fd event c calls interest m = record m {
  contexts = set m.contexts fd (cleared c event);
  pending = sub_size m.pending 1;
  queue = m.queue ++ calls;
  epoll = watch fd interest m.epoll;
}

-- The context of a descriptor on whose event something waits.
pub found_at :
    (m : IoManager) (fd : ℕ) (event : Event) (s : ℕ) (w : Waiter)
    → waiting m fd event ≡ some (s, w)
    → (c : FdContext) × (get_elem? m.contexts fd ≡ some c) × (waiter_in c event ≡ some (s, w))
unfolding waiting
found_at m fd event s w found = elim (lt_or_le fd (length m.contexts)) [
  | inl below ↦
      let (c, e) = get_elem?-below m.contexts fd below in
      (c, e, sym (waiter_at-some m.contexts fd event e) ∙ found)
  | inr beyond ↦
      let nothing : waiter_at m.contexts fd event ≡ none =
        ap (λ o. waiter_if o event) (get_elem?-outside m.contexts fd beyond) in
      absurd (grind arith)
]

taken_out-Removed :
    (m : IoManager) (fd : ℕ) (event : Event) (c : FdContext) (calls : List (ℕ × Waiter))
    (interest : Option Interest)
    → IsValid m
    → get_elem? m.contexts fd ≡ some c
    → has c event ≡ true
    → Removed fd event calls m (taken_out fd event c calls interest m)
unfolding waiting
taken_out-Removed m fd event c calls interest v e used =
    let fits = v.consistent fd c e in
    let fewer = event_count-cleared c event used in
    let bound = event_count-total m.contexts fd e in
    let counted = v.counted in
    let down = sub_size-one m.pending (omega arith) in
    let stands =
      get_elem?-set_same m.contexts fd (cleared c event) (get_elem?-length_bound m.contexts fd e) in
    record {
      valid =
          update-IsValid m (taken_out fd event c calls interest m) fd c (cleared c event) v e refl
            (cleared-IsConsistent c event fits) (omega arith);
      gone = waiter_at-some (set m.contexts fd (cleared c event)) fd event stands ∙ empty c event;
      others =
          waiter_at-set m.contexts fd c (cleared c event) event e
            (agree_off c event false no_waiter);
      counted = down;
      queue = refl;
    }
  where
    empty : (c : FdContext) (event : Event) → waiter_in (cleared c event) event ≡ none
    empty c read = refl
    empty c write = refl

-- `cancelEvent`, where the manager is valid, something waits for the event and epoll does not fail,
-- schedules exactly what waits, on its own scheduler; then nothing waits for the event, what waits for
-- others is left, the manager stays valid and counts one event less.
pub cancel_event-Removed :
    (m : IoManager) (garbage : Interest) (fd : ℕ) (event : Event) (s : ℕ) (w : Waiter)
    → IsValid m
    → waiting m fd event ≡ some (s, w)
    → (m' : IoManager) × (cancel_event true garbage fd event m ≡ done true m')
      × Removed fd event ((s, w) ∷ []) m m'
unfolding cancel_event
cancel_event-Removed m garbage fd event s w v found =
    let (c, e, inside) = found_at m fd event s w found in
    let used = some-registered c event s w inside in
    let (s', w', stands, same) = waiter_in-registered c event (v.consistent fd c e) used in
    let calls : ◌≡◌ {A = List (ℕ × Waiter)} ((s', w') ∷ []) ((s, w) ∷ []) =
      handed s' w' (sym same ∙ inside) in
    let interest : Option Interest = told garbage (cleared c event) in
    (
      taken_out fd event c ((s, w) ∷ []) interest m,
      rw (cancel_event, e, used, trigger_event-cleared c event s' w' used stands, calls) refl,
      taken_out-Removed m fd event c ((s, w) ∷ []) interest v e used,
    )
  where
    handed :
        (s' : ℕ) (w' : Waiter)
        → ◌≡◌ {A = Option (ℕ × Waiter)} (some (s', w')) (some (s, w))
        → ◌≡◌ {A = List (ℕ × Waiter)} ((s', w') ∷ []) ((s, w) ∷ [])
    handed s' w' h = grind arith

-- `delEvent`, where the manager is valid, something waits for the event and epoll does not fail,
-- removes it and schedules nothing; what waits for other events is left, the manager stays valid and
-- counts one event less.
pub del_event-Removed :
    (m : IoManager) (garbage : Interest) (fd : ℕ) (event : Event) (s : ℕ) (w : Waiter)
    → IsValid m
    → waiting m fd event ≡ some (s, w)
    → (m' : IoManager) × (del_event true garbage fd event m ≡ done true m')
      × Removed fd event [] m m'
unfolding del_event
del_event-Removed m garbage fd event s w v found =
    let (c, e, inside) = found_at m fd event s w found in
    let used = some-registered c event s w inside in
    let interest : Option Interest = told garbage (with_bit c event false) in
    (
      taken_out fd event c [] interest m,
      rw (del_event, e, used, append-nil m.queue) refl,
      taken_out-Removed m fd event c [] interest v e used,
    )

-- On a valid manager where nothing waits for the event, `delEvent` and `cancelEvent` return false and
-- change nothing, whatever epoll answers.
pub nothing_waits :
    (m : IoManager) (ok : Bool) (garbage : Interest) (fd : ℕ) (event : Event)
    → IsValid m
    → waiting m fd event ≡ none
    → (del_event ok garbage fd event m ≡ done false m)
      × (cancel_event ok garbage fd event m ≡ done false m)
unfolding del_event cancel_event waiting
nothing_waits m ok garbage fd event v free = elim (lt_or_le fd (length m.contexts)) [
  | inr beyond ↦
      let e = get_elem?-outside m.contexts fd beyond in
      (rw (del_event, e) refl, rw (cancel_event, e) refl)
  | inl below ↦
      let (c, e) = get_elem?-below m.contexts fd below in
      let unused =
        none-not_registered c event (v.consistent fd c e)
          (sym (waiter_at-some m.contexts fd event e) ∙ free) in
      (rw (del_event, e, unused) refl, rw (cancel_event, e, unused) refl)
]
