-- ===== src/IoManager/Contexts.antt =====
-- The contexts of yk/iomanager.cc: what belongs to a registered event, and how many events are
-- registered.
use yk_server.Base.{
  ℕ, zero, suc, ◌+◌, ◌-◌, ◌≤◌, ◌<◌, ◌≡◌, refl, sym, ap, subst, ◌∙◌, Bool, true, false, List, [],
  ◌∷◌, ◌++◌, none, some, length, get_elem?, set, take, replicate, arith, length-append,
  length-replicate, take_all,
}
use yk_server.Base.Lookup.{
  Every, append-Every, get_elem?-append_left, get_elem?-append_right, get_elem?-replicate,
  get_elem?-replicate_value, get_elem?-length_bound,
}
use yk_server.IoManager.{
  Event, read, write, Waiter, callback, fiber_of, EventContext, no_waiter, FdContext, new_context,
  has, with_bit, get_context, with_context, scheduled, taken, trigger_event, context_resize, waits,
  is_empty,
}

-- A registered event has a scheduler and a waiter, another has none.
abbrev pub Fits : Bool → EventContext → Type 0
Fits true e = (s : ℕ) × (w : Waiter) × (e ≡ waits (some s) w)
Fits false e = e ≡ no_waiter

pub record IsConsistent (c : FdContext) : Type 0 where
  pub reads : Fits c.has_read c.read_context
  pub writes : Fits c.has_write c.write_context

abbrev pub one : Bool → ℕ
one true = 1
one false = 0

-- How many events of a context, and of all, are registered.
abbrev pub event_count : FdContext → ℕ
event_count c = one c.has_read + one c.has_write

abbrev pub total : List FdContext → ℕ
total [] = 0
total (c ∷ cs) = event_count c + total cs

pub total-set :
    (cs : List FdContext) (i : ℕ) (c' : FdContext) {c : FdContext}
    → get_elem? cs i ≡ some c
    → total (set cs i c') + event_count c ≡ total cs + event_count c'
total-set [] i c' e = absurd (grind arith)
total-set (d ∷ cs) zero c' {c} e = let same : d ≡ c = grind arith in rw same (omega arith)
total-set (d ∷ cs) (suc i) c' e = omega (arith, total-set cs i c' e)

total-append : (cs ds : List FdContext) → total (cs ++ ds) ≡ total cs + total ds
total-append [] ds = omega arith
total-append (c ∷ cs) ds = omega (arith, total-append cs ds)

total-replicate : (n : ℕ) → total (replicate n new_context) ≡ 0
total-replicate zero = refl
total-replicate (suc n) = omega (arith, total-replicate n)

pub event_count-total :
    (cs : List FdContext) (i : ℕ) {c : FdContext}
    → get_elem? cs i ≡ some c
    → event_count c ≤ total cs
event_count-total cs i e = omega (arith, total-set cs i new_context e)

pub new_context-IsConsistent : IsConsistent new_context
new_context-IsConsistent = record { reads = refl; writes = refl }

-- The table that is grown to `n` places, if it was not longer.
pub record Resized (n : ℕ) (cs : List FdContext) : Type 0 where
  pub long : length (context_resize n cs) ≡ n
  pub same_total : total (context_resize n cs) ≡ total cs
  pub consistent : Every IsConsistent cs → Every IsConsistent (context_resize n cs)
  pub kept :
      (i : ℕ) (c : FdContext) → get_elem? cs i ≡ some c → get_elem? (context_resize n cs) i ≡ some c
  pub fresh : (i : ℕ) → length cs ≤ i → i < n → get_elem? (context_resize n cs) i ≡ some new_context

pub context_resize-Resized : (n : ℕ) (cs : List FdContext) → length cs ≤ n → Resized n cs
context_resize-Resized n cs h =
    let more : List FdContext = replicate (n - length cs) new_context in
    let whole : take n cs ≡ cs = take_all n cs h in
    let count = length-replicate {A = FdContext} (n - length cs) new_context in
    let joined : context_resize n cs ≡ cs ++ more = ap (λ t. t ++ more) whole in
    record {
      long = ap length joined ∙ omega (arith, length-append cs more, count);
      same_total =
          ap total joined ∙ omega (arith, total-append cs more, total-replicate (n - length cs));
      consistent = λ v. subst (Every IsConsistent) (sym joined) (
          append-Every IsConsistent cs more v (λ i x e.
            subst IsConsistent (sym (get_elem?-replicate_value (n - length cs) i new_context e))
              new_context-IsConsistent));
      kept = λ i c e.
          ap (λ t. get_elem? t i) joined ∙ get_elem?-append_left cs more i (index_bound cs i e) ∙ e;
      fresh = λ i beyond below.
          ap (λ t. get_elem? t i) joined
          ∙ get_elem?-append_right cs more i beyond
          ∙ get_elem?-replicate (n - length cs) (i - length cs) new_context (omega arith);
    }
  where
    index_bound :
        (ds : List FdContext) (i : ℕ) {c : FdContext} → get_elem? ds i ≡ some c → i < length ds
    index_bound ds i e = get_elem?-length_bound ds i e

-- The context without an event.
abbrev pub cleared : FdContext → Event → FdContext
cleared c event = with_context (with_bit c event false) event no_waiter

pub cleared-IsConsistent :
    (c : FdContext) (event : Event) → IsConsistent c → IsConsistent (cleared c event)
cleared-IsConsistent c read v = record { reads = refl; writes = v.writes }
cleared-IsConsistent c write v = record { reads = v.reads; writes = refl }

pub event_count-cleared :
    (c : FdContext) (event : Event)
    → has c event ≡ true
    → event_count (cleared c event) + 1 ≡ event_count c
event_count-cleared c read e = rw e (omega arith)
event_count-cleared c write e = rw e (omega arith)

pub filled-IsConsistent :
    (c : FdContext) (event : Event) (s : ℕ) (w : Waiter)
    → IsConsistent c
    → IsConsistent (with_context (with_bit c event true) event (waits (some s) w))
filled-IsConsistent c read s w v = record { reads = (s, w, refl); writes = v.writes }
filled-IsConsistent c write s w v = record { reads = v.reads; writes = (s, w, refl) }

pub event_count-filled :
    (c : FdContext) (event : Event) (e : EventContext)
    → has c event ≡ false
    → event_count (with_context (with_bit c event true) event e) ≡ event_count c + 1
event_count-filled c read e h = rw h (omega arith)
event_count-filled c write e h = rw h (omega arith)

fits : (c : FdContext) (event : Event) → IsConsistent c → Fits (has c event) (get_context c event)
fits c read v = v.reads
fits c write v = v.writes

pub not_registered-empty :
    (c : FdContext) (event : Event)
    → IsConsistent c
    → has c event ≡ false
    → is_empty (get_context c event) ≡ true
not_registered-empty c event v e =
    let no_one : get_context c event ≡ no_waiter =
      subst (λ b. Fits b (get_context c event)) e (fits c event v) in
    ap is_empty no_one

pub registered-waits :
    (c : FdContext) (event : Event)
    → IsConsistent c
    → has c event ≡ true
    → (s : ℕ) × (w : Waiter) × (get_context c event ≡ waits (some s) w)
registered-waits c event v e = subst (λ b. Fits b (get_context c event)) e (fits c event v)

pub registered-not_empty :
    (c : FdContext) (event : Event)
    → IsConsistent c
    → has c event ≡ true
    → is_empty (get_context c event) ≡ false
registered-not_empty c event v e =
    let (s, w, h) = registered-waits c event v e in ap is_empty h ∙ full s w
  where
    full : (s : ℕ) (w : Waiter) → is_empty (waits (some s) w) ≡ false
    full s (callback f) = refl
    full s (fiber_of f) = refl

trigger_event-taken :
    (c : FdContext) (event : Event) (s : ℕ)
    → has c event ≡ true
    → (get_context c event).scheduler ≡ some s
    → trigger_event c event
      ≡ some (
        with_context (with_bit c event false) event (taken (get_context c event)),
        scheduled s (get_context c event),
      )
unfolding trigger_event
trigger_event-taken c read s e h = rw (e, h) refl
trigger_event-taken c write s e h = rw (e, h) refl

-- Triggering a registered event hands its waiter to its scheduler, and clears it.
pub trigger_event-cleared :
    (c : FdContext) (event : Event) (s : ℕ) (w : Waiter)
    → has c event ≡ true
    → get_context c event ≡ waits (some s) w
    → trigger_event c event ≡ some (cleared c event, (s, w) ∷ [])
trigger_event-cleared c event s (callback f) e h =
    trigger_event-taken c event s e (ap (λ x. x.scheduler) h)
    ∙ ap (λ x. some (with_context (with_bit c event false) event (taken x), scheduled s x)) h
trigger_event-cleared c event s (fiber_of f) e h =
    trigger_event-taken c event s e (ap (λ x. x.scheduler) h)
    ∙ ap (λ x. some (with_context (with_bit c event false) event (taken x), scheduled s x)) h

-- The assertion of a trigger fails where the event is not registered.
pub trigger_event-none :
    (c : FdContext) (event : Event) → has c event ≡ false → trigger_event c event ≡ none
unfolding trigger_event
trigger_event-none c read e = rw e refl
trigger_event-none c write e = rw e refl
