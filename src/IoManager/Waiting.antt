-- ===== src/IoManager/Waiting.antt =====
-- What waits for which event in yk/iomanager.cc: the view of the contexts that the calls are about.
use yk_server.Base.{
  ℕ, ◌+◌, ◌-◌, ◌≤◌, ◌≡◌, ◌≢◌, ◌⊎◌, refl, sym, ap, subst, ◌∙◌, Bool, true, false, List, [], ◌∷◌,
  ◌++◌, if◌then◌else◌, Option, none, some, length, get_elem?, set, arith, inl, inr, length-set,
  append-nil,
}
use yk_server.Base.Lookup.{
  Every, set-Every, get_elem?-set_same, get_elem?-set_other, get_elem?-length_bound, same_or_other,
}
use yk_server.ByteArray.State.{sub_size}
use yk_server.IoManager.{
  Event, read, write, Waiter, callback, fiber_of, EventContext, FdContext, has, with_bit,
  get_context, with_context, waits, trigger_if, IoManager,
}
use yk_server.IoManager.Contexts.{
  IsConsistent, one, event_count, total, total-set, cleared, cleared-IsConsistent,
  event_count-cleared, registered-waits, trigger_event-cleared,
}

-- The scheduler and the waiter that a context names.
abbrev pub waiter_of : EventContext → Option (ℕ × Waiter)
waiter_of e = elim e.scheduler [
  | none ↦ none
  | some s ↦ elim e.cb [
    | some f ↦ some (s, callback f)
    | none ↦ elim e.fiber [ some f ↦ some (s, fiber_of f) | none ↦ none ]
  ]
]

abbrev pub waiter_in : FdContext → Event → Option (ℕ × Waiter)
waiter_in c event = if has c event then waiter_of (get_context c event) else none

abbrev pub waiter_if : Option FdContext → Event → Option (ℕ × Waiter)
waiter_if o event = elim o [ none ↦ none | some c ↦ waiter_in c event ]

abbrev pub waiter_at : List FdContext → ℕ → Event → Option (ℕ × Waiter)
waiter_at cs fd event = waiter_if (get_elem? cs fd) event

-- Who waits for an event of a descriptor.
unfoldable pub waiting : IoManager → ℕ → Event → Option (ℕ × Waiter)
waiting m fd event = waiter_at m.contexts fd event

abbrev pub calls_of : Option (ℕ × Waiter) → List (ℕ × Waiter)
calls_of none = []
calls_of (some x) = x ∷ []

-- The contexts fit their events, and the counter counts what is registered.
pub record IsValid (m : IoManager) : Type 0 where
  pub room : 32 ≤ length m.contexts
  pub consistent : Every IsConsistent m.contexts
  pub counted : m.pending ≡ total m.contexts

pub waiter_of-waits : (s : ℕ) (w : Waiter) → waiter_of (waits (some s) w) ≡ some (s, w)
waiter_of-waits s (callback f) = refl
waiter_of-waits s (fiber_of f) = refl

pub waiter_at-some :
    (cs : List FdContext) (fd : ℕ) (event : Event) {c : FdContext}
    → get_elem? cs fd ≡ some c
    → waiter_at cs fd event ≡ waiter_in c event
waiter_at-some cs fd event e = ap (λ o. waiter_if o event) e

-- A registered event has a waiter, another has none.
pub waiter_in-registered :
    (c : FdContext) (event : Event)
    → IsConsistent c
    → has c event ≡ true
    → (s : ℕ) × (w : Waiter) × (get_context c event ≡ waits (some s) w)
      × (waiter_in c event ≡ some (s, w))
waiter_in-registered c event v e =
    let (s, w, h) = registered-waits c event v e in
    (
      s,
      w,
      h,
      ap (λ b. if b then waiter_of (get_context c event) else none) e
          ∙ ap waiter_of h
          ∙ waiter_of-waits s w,
    )

pub waiter_in-free :
    (c : FdContext) (event : Event) → has c event ≡ false → waiter_in c event ≡ none
waiter_in-free c event e = ap (λ b. if b then waiter_of (get_context c event) else none) e

pub none-not_registered :
    (c : FdContext) (event : Event)
    → IsConsistent c
    → waiter_in c event ≡ none
    → has c event ≡ false
none-not_registered c event v free = by_bit (has c event) refl
  where
    by_bit : (b : Bool) → has c event ≡ b → has c event ≡ false
    by_bit false e = e
    by_bit true e = let (s, w, h, found) = waiter_in-registered c event v e in absurd (grind arith)

pub some-registered :
    (c : FdContext) (event : Event) (s : ℕ) (w : Waiter)
    → waiter_in c event ≡ some (s, w)
    → has c event ≡ true
some-registered c event s w found = by_bit (has c event) refl
  where
    by_bit : (b : Bool) → has c event ≡ b → has c event ≡ true
    by_bit true e = e
    by_bit false e = let free = waiter_in-free c event e in absurd (grind arith)

-- Another descriptor, or another event.
abbrev pub IsOther : ℕ → Event → ℕ → Event → Type 0
IsOther fd event fd' event' = (fd' ≢ fd) ⊎ (event' ≢ event)

abbrev pub AgreeOff : Event → FdContext → FdContext → Type 0
AgreeOff event c c' = (event' : Event) → event' ≢ event → waiter_in c' event' ≡ waiter_in c event'

pub agree_off :
    (c : FdContext) (event : Event) (b : Bool) (e : EventContext)
    → AgreeOff event c (with_context (with_bit c event b) event e)
agree_off c read b e read differs = absurd (differs refl)
agree_off c read b e write differs = refl
agree_off c write b e read differs = refl
agree_off c write b e write differs = absurd (differs refl)

-- Changing one context changes what waits there only.
pub waiter_at-set :
    (cs : List FdContext) (fd : ℕ) (c c' : FdContext) (event : Event)
    → get_elem? cs fd ≡ some c
    → AgreeOff event c c'
    → (fd' : ℕ) (event' : Event) → IsOther fd event fd' event'
    → waiter_at (set cs fd c') fd' event' ≡ waiter_at cs fd' event'
waiter_at-set cs fd c c' event e agree fd' event' other = elim other [
  | inl differs ↦
      ap (λ o. waiter_if o event') (get_elem?-set_other cs fd fd' c' (λ same. differs (sym same)))
  | inr differs ↦ elim (same_or_other fd fd') [
    | inr apart ↦ ap (λ o. waiter_if o event') (get_elem?-set_other cs fd fd' c' apart)
    | inl same ↦
        subst (λ i. waiter_at (set cs fd c') i event' ≡ waiter_at cs i event') same
          (waiter_at-some (set cs fd c') fd event'
              (get_elem?-set_same cs fd c' (get_elem?-length_bound cs fd e))
            ∙ agree event' differs
            ∙ sym (waiter_at-some cs fd event' e))
  ]
]

-- A state whose contexts differ in one place from those of a valid one.
pub update-IsValid :
    (m m' : IoManager) (fd : ℕ) (c c' : FdContext)
    → IsValid m
    → get_elem? m.contexts fd ≡ some c
    → m'.contexts ≡ set m.contexts fd c'
    → IsConsistent c'
    → m'.pending + event_count c ≡ m.pending + event_count c'
    → IsValid m'
update-IsValid m m' fd c c' v e changed fits count = record {
  room = rw changed (omega (arith, v.room, length-set m.contexts fd c'));
  consistent =
      subst (Every IsConsistent) (sym changed)
        (set-Every IsConsistent m.contexts fd c' v.consistent fits);
  counted =
      let sum = total-set m.contexts fd c' e in
      let shown = ap total changed in let before = v.counted in omega arith;
}

-- The context where an event is cleared if it is wanted.
abbrev pub dropped : Bool → FdContext → Event → FdContext
dropped true c event = cleared c event
dropped false c event = c

abbrev pub wanted_calls : Bool → FdContext → Event → List (ℕ × Waiter)
wanted_calls wanted c event = if wanted then calls_of (waiter_in c event) else []

pub dropped-IsConsistent :
    (wanted : Bool) (c : FdContext) (event : Event)
    → IsConsistent c
    → IsConsistent (dropped wanted c event)
dropped-IsConsistent true c event v = cleared-IsConsistent c event v
dropped-IsConsistent false c event v = v

pub event_count-dropped :
    (wanted : Bool) (c : FdContext) (event : Event)
    → (wanted ≡ true → has c event ≡ true)
    → event_count (dropped wanted c event) + one wanted ≡ event_count c
event_count-dropped true c event h = event_count-cleared c event (h refl)
event_count-dropped false c event h = omega arith

pub sub_size-one : (n : ℕ) → 1 ≤ n → sub_size n 1 + 1 ≡ n
sub_size-one n h = ground arith

-- A wanted event that is registered is handed over.
pub trigger_if-dropped :
    (wanted : Bool) (c : FdContext) (event : Event) (calls : List (ℕ × Waiter)) (pending : ℕ)
    → IsConsistent c
    → (wanted ≡ true → has c event ≡ true)
    → one wanted ≤ pending
    → trigger_if wanted event (c, calls, pending)
      ≡ some (dropped wanted c event, calls ++ wanted_calls wanted c event, pending - one wanted)
unfolding trigger_if
trigger_if-dropped true c event calls pending v h bound =
    let (s, w, stands, found) = waiter_in-registered c event v (h refl) in
    let left : sub_size pending 1 ≡ pending - 1 = ground arith in
    rw (trigger_event-cleared c event s w (h refl) stands, found, left) refl
trigger_if-dropped false c event calls pending v h bound =
    rw (append-nil calls) (ap (λ n. some (c, calls, n)) (omega arith))
