-- ===== src/IoManager/Reports.antt =====
-- `cancelAll` and a round of the loop of `idle` over what epoll reports, of yk/iomanager.cc.
use yk_server.Base.{
  ℕ, ◌+◌, ◌-◌, ◌≤◌, ◌≡◌, ◌≢◌, refl, sym, ap, ◌∙◌, Bool, true, false, not, ◌&&◌, ◌||◌, List, [],
  ◌++◌, if◌then◌else◌, Option, none, some, get_elem?, set, arith, inl, inr, append-nil, Bool-cases,
}
use yk_server.Base.Lookup.{get_elem?-set_same, get_elem?-set_other, get_elem?-length_bound}
use yk_server.IoManager.{
  Event, read, write, Waiter, FdContext, IoManager, Interest, done, watch, any_left, Triggered,
  trigger_if, both, cancel_all, Report, handle_report,
}
use yk_server.IoManager.Contexts.{
  IsConsistent, one, event_count, cleared, cleared-IsConsistent, event_count-cleared,
  event_count-total,
}
use yk_server.IoManager.Waiting.{
  waiter_in, waiter_if, waiting, IsValid, calls_of, waiter_at-some, update-IsValid, dropped,
  wanted_calls, dropped-IsConsistent, event_count-dropped, trigger_if-dropped,
}

abbrev both_dropped : Bool → Bool → FdContext → FdContext
both_dropped wants_read wants_write c = dropped wants_write (dropped wants_read c read) write

abbrev both_calls : Bool → Bool → FdContext → List (ℕ × Waiter)
both_calls wants_read wants_write c =
    wanted_calls wants_read c read ++ wanted_calls wants_write c write

abbrev and_write : Bool → Option Triggered → Option Triggered
and_write wants_write o = elim o [ none ↦ none | some t ↦ trigger_if wants_write write t ]

-- Both events are handed over where they are wanted, if what is wanted is registered.
both-dropped :
    (wants_read wants_write : Bool) (c : FdContext) (pending : ℕ)
    → IsConsistent c
    → (wants_read ≡ true → c.has_read ≡ true)
    → (wants_write ≡ true → c.has_write ≡ true)
    → one wants_read + one wants_write ≤ pending
    → both wants_read wants_write c pending
      ≡ some (
        both_dropped wants_read wants_write c,
        both_calls wants_read wants_write c,
        pending - one wants_read - one wants_write,
      )
both-dropped true wants_write c pending v h k bound =
    ap (and_write wants_write) (trigger_if-dropped true c read [] pending v h (omega arith))
    ∙ (trigger_if-dropped wants_write (cleared c read) write (wanted_calls true c read)
        (pending - 1) (cleared-IsConsistent c read v) k (omega arith))
both-dropped false wants_write c pending v h k bound =
    ap (and_write wants_write) (trigger_if-dropped false c read [] pending v h (omega arith))
    ∙ (trigger_if-dropped wants_write c write [] (pending - 0) v k (omega arith))

event_count-both_dropped :
    (wants_read wants_write : Bool) (c : FdContext)
    → (wants_read ≡ true → c.has_read ≡ true)
    → (wants_write ≡ true → c.has_write ≡ true)
    → event_count (both_dropped wants_read wants_write c) + (one wants_read + one wants_write)
      ≡ event_count c
event_count-both_dropped true wants_write c h k = omega (
  arith,
  event_count-dropped wants_write (cleared c read) write k,
  event_count-cleared c read (h refl),
)
event_count-both_dropped false wants_write c h k =
    omega (arith, event_count-dropped wants_write c write k)

event_count-wanted :
    (wants_read wants_write : Bool) (c : FdContext)
    → (wants_read ≡ true → c.has_read ≡ true)
    → (wants_write ≡ true → c.has_write ≡ true)
    → one wants_read + one wants_write ≤ event_count c
event_count-wanted wants_read wants_write c h k =
    omega (arith, event_count-both_dropped wants_read wants_write c h k)

left_to_read :
    (wants_read wants_write : Bool) (c : FdContext)
    → waiter_in (both_dropped wants_read wants_write c) read
      ≡ (if wants_read then none else waiter_in c read)
left_to_read true true c = refl
left_to_read true false c = refl
left_to_read false true c = refl
left_to_read false false c = refl

left_to_write :
    (wants_read wants_write : Bool) (c : FdContext)
    → waiter_in (both_dropped wants_read wants_write c) write
      ≡ (if wants_write then none else waiter_in c write)
left_to_write true true c = refl
left_to_write true false c = refl
left_to_write false true c = refl
left_to_write false false c = refl

-- What handing over the wanted events of a descriptor leads to.
pub record Delivered (fd : ℕ) (wants_read wants_write : Bool) (m m' : IoManager) : Type 0 where
  pub valid : IsValid m'
  pub left_read : waiting m' fd read ≡ (if wants_read then none else waiting m fd read)
  pub left_write : waiting m' fd write ≡ (if wants_write then none else waiting m fd write)
  pub others : (fd' : ℕ) (event : Event) → fd' ≢ fd → waiting m' fd' event ≡ waiting m fd' event
  pub counted : m'.pending + (one wants_read + one wants_write) ≡ m.pending
  pub queue :
      m'.queue
      ≡ m.queue
        ++ ((if wants_read then calls_of (waiting m fd read) else [])
            ++ (if wants_write then calls_of (waiting m fd write) else []))

-- The state after a delivery.
abbrev delivered : ℕ → Bool → Bool → FdContext → Option Interest → IoManager → IoManager
delivered fd wants_read wants_write c interest m = record m {
  contexts = set m.contexts fd (both_dropped wants_read wants_write c);
  pending = m.pending - one wants_read - one wants_write;
  queue = m.queue ++ both_calls wants_read wants_write c;
  epoll = watch fd interest m.epoll;
}

delivered-Delivered :
    (m : IoManager) (fd : ℕ) (wants_read wants_write : Bool) (c : FdContext)
    (interest : Option Interest)
    → IsValid m
    → get_elem? m.contexts fd ≡ some c
    → (wants_read ≡ true → c.has_read ≡ true)
    → (wants_write ≡ true → c.has_write ≡ true)
    → Delivered fd wants_read wants_write m (delivered fd wants_read wants_write c interest m)
unfolding waiting
delivered-Delivered m fd wants_read wants_write c interest v e h k =
    let fits = v.consistent fd c e in
    let after : FdContext = both_dropped wants_read wants_write c in
    let fewer = event_count-both_dropped wants_read wants_write c h k in
    let bound = event_count-total m.contexts fd e in
    let counted = v.counted in
    let stands = get_elem?-set_same m.contexts fd after (get_elem?-length_bound m.contexts fd e) in
    record {
      valid =
          update-IsValid m (delivered fd wants_read wants_write c interest m) fd c after v e refl
            (dropped-IsConsistent wants_write (dropped wants_read c read) write
              (dropped-IsConsistent wants_read c read fits))
            (omega arith);
      left_read =
          waiter_at-some (set m.contexts fd after) fd read stands
          ∙ left_to_read wants_read wants_write c
          ∙ sym (ap (λ o. if wants_read then none else o) (waiter_at-some m.contexts fd read e));
      left_write =
          waiter_at-some (set m.contexts fd after) fd write stands
          ∙ left_to_write wants_read wants_write c
          ∙ sym (ap (λ o. if wants_write then none else o) (waiter_at-some m.contexts fd write e));
      others = λ fd' event differs.
          ap (λ o. waiter_if o event)
            (get_elem?-set_other m.contexts fd fd' after (λ same. differs (sym same)));
      counted = omega arith;
      queue = rw (waiter_at-some m.contexts fd read e, waiter_at-some m.contexts fd write e) refl;
    }

-- `cancelAll`, where the manager is valid, an event of the descriptor is registered and epoll does not
-- fail, passes its assertion and schedules what waits for the registered events, the reader first;
-- then nothing waits for them, other descriptors are left, the manager stays valid and counts as many
-- events less.
pub cancel_all-Delivered :
    (m : IoManager) (fd : ℕ) (c : FdContext)
    → IsValid m
    → get_elem? m.contexts fd ≡ some c
    → any_left c ≡ true
    → (m' : IoManager) × (cancel_all true fd m ≡ done true m')
      × Delivered fd c.has_read c.has_write m m'
unfolding cancel_all
cancel_all-Delivered m fd c v e used =
    let counted = v.counted in
    let bound = event_count-total m.contexts fd e in
    (
      delivered fd c.has_read c.has_write c none m,
      rw
          (
            cancel_all,
            e,
            used,
            both-dropped c.has_read c.has_write c m.pending (v.consistent fd c e) (λ x. x) (λ x. x)
                (omega arith),
            nothing_left c,
          )
          refl,
      delivered-Delivered m fd c.has_read c.has_write c none v e (λ x. x) (λ x. x),
    )
  where
    nothing_left : (c : FdContext) → any_left (both_dropped c.has_read c.has_write c) ≡ false
    nothing_left c = by_bits c.has_read c.has_write refl refl
      where
        by_bits :
            (r w : Bool)
            → c.has_read ≡ r
            → c.has_write ≡ w
            → any_left (both_dropped c.has_read c.has_write c) ≡ false
        by_bits true true e f = rw (e, f) refl
        by_bits true false e f = rw (e, f) refl
        by_bits false true e f = rw (e, f) refl
        by_bits false false e f = rw (e, f) refl

-- What a report wants of the two events.
abbrev pub reads : Report → FdContext → Bool
reads r c = r.readable || (r.failed && c.has_read)

abbrev pub writes : Report → FdContext → Bool
writes r c = r.writable || (r.failed && c.has_write)

reported_registered :
    (reported failed used : Bool)
    → (reported ≡ true → used ≡ true)
    → (reported || (failed && used)) ≡ true
    → used ≡ true
reported_registered true failed used h e = h refl
reported_registered false true used h e = e
reported_registered false false used h e = absurd (grind arith)

Delivered-nothing : (m : IoManager) (fd : ℕ) → IsValid m → Delivered fd false false m m
Delivered-nothing m fd v = record {
  valid = v;
  left_read = refl;
  left_write = refl;
  others = λ fd' event differs. refl;
  counted = omega arith;
  queue = sym (append-nil m.queue);
}

none_matches :
    (used wanted used' wanted' : Bool)
    → (wanted ≡ true → used ≡ true)
    → (wanted' ≡ true → used' ≡ true)
    → ((used && wanted) || (used' && wanted')) ≡ false
    → (wanted ≡ false) × (wanted' ≡ false)
none_matches used false used' false h k e = (refl, refl)
none_matches used true used' wanted' h k e = let now = h refl in absurd (grind arith)
none_matches true false used' true h k e = let now = k refl in absurd (grind arith)
none_matches false false used' true h k e = let now = k refl in absurd (grind arith)

-- For a report of `epoll_wait` of which each event is registered (an error or a hang-up asks for what is),
-- with a valid manager and if epoll does not fail, `idle` schedules what waits for the reported events,
-- the reader first; then nothing waits for them, the other event of the descriptor and other
-- descriptors are left, the manager stays valid and counts as many events less.
pub handle_report-Delivered :
    (m : IoManager) (fd : ℕ) (r : Report) (c : FdContext)
    → IsValid m
    → get_elem? m.contexts fd ≡ some c
    → (r.readable ≡ true → c.has_read ≡ true)
    → (r.writable ≡ true → c.has_write ≡ true)
    → (m' : IoManager) × (handle_report true fd r m ≡ done tt m')
      × Delivered fd (reads r c) (writes r c) m m'
unfolding handle_report
handle_report-Delivered m fd r c v e h k =
    elim (Bool-cases ((c.has_read && reads r c) || (c.has_write && writes r c))) [
      | inr unmatched ↦
          let (no_read, no_write) =
            none_matches c.has_read (reads r c) c.has_write (writes r c) wants_read wants_write
              unmatched in
          (
            m,
            rw (handle_report, e, unmatched) refl,
            rw (no_read, no_write) (Delivered-nothing m fd v),
          )
      | inl matched ↦
          let counted = v.counted in
          let bound = event_count-total m.contexts fd e in
          let left : Interest = record {
            readable = c.has_read && not (reads r c);
            writable = c.has_write && not (writes r c);
          } in
          let interest : Option Interest =
            if left.readable || left.writable then some left else none in
          let enough = event_count-wanted (reads r c) (writes r c) c wants_read wants_write in
          (
            delivered fd (reads r c) (writes r c) c interest m,
            rw
                (
                  handle_report,
                  e,
                  matched,
                  both-dropped (reads r c) (writes r c) c m.pending (v.consistent fd c e) wants_read
                      wants_write (omega arith),
                )
                refl,
            delivered-Delivered m fd (reads r c) (writes r c) c interest v e wants_read wants_write,
          )
    ]
  where
    wants_read : reads r c ≡ true → c.has_read ≡ true
    wants_read = reported_registered r.readable r.failed c.has_read h

    wants_write : writes r c ≡ true → c.has_write ≡ true
    wants_write = reported_registered r.writable r.failed c.has_write k
