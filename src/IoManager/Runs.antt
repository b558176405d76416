-- ===== src/IoManager/Runs.antt =====
-- Runs of the calls of yk/iomanager.cc.
use yk_server.Base.{◌≡◌, refl, sym, subst, Bool, true, false, [], ◌∷◌, some}
use yk_server.IoManager.{
  read, write, callback, fiber_of, FdContext, new_context, IoManager, Interest, Call, done, aborted,
  io_manager, add_event, del_event, cancel_event, cancel_all, Report, handle_report, waits,
}
use yk_server.IoManager.Waiting.{waiting, IsValid}
use yk_server.IoManager.Calls.{
  io_manager-IsValid, Added, Removed, add_event-Added, del_event-Removed, cancel_event-Removed,
}
use yk_server.IoManager.Reports.{Delivered, cancel_all-Delivered, handle_report-Delivered}

-- The state after a call that returns.
abbrev after : Call Bool → IoManager
after (done b m) = m
after aborted = io_manager

-- A manager where a callback waits to read from descriptor 40, behind the first 32.
abbrev added :
    (m' : IoManager) × (add_event (some 1) true 40 read (callback 7) io_manager ≡ done true m')
    × Added 1 40 read (callback 7) io_manager m'
unfolding waiting io_manager
added = add_event-Added io_manager 1 40 read (callback 7) io_manager-IsValid refl

abbrev manager : IoManager
manager = after (add_event (some 1) true 40 read (callback 7) io_manager)

manager-IsValid : IsValid manager
manager-IsValid = subst (λ r. IsValid (after r)) (sym added.1) added.2.valid

-- The context of descriptor 40 then.
abbrev reading : FdContext
reading = record new_context { read_context = waits (some 1) (callback 7); has_read = true }

abbrev nothing : Interest
nothing = record { readable = false; writable = false }

add_event-Added_example :
    (m' : IoManager) × (add_event (some 2) true 40 write (fiber_of 9) manager ≡ done true m')
    × Added 2 40 write (fiber_of 9) manager m'
unfolding waiting add_event io_manager
add_event-Added_example = add_event-Added manager 2 40 write (fiber_of 9) manager-IsValid refl

cancel_event-Removed_example :
    (m' : IoManager) × (cancel_event true nothing 40 read manager ≡ done true m')
    × Removed 40 read ((1, callback 7) ∷ []) manager m'
unfolding waiting add_event io_manager
cancel_event-Removed_example =
    cancel_event-Removed manager nothing 40 read 1 (callback 7) manager-IsValid refl

del_event-Removed_example :
    (m' : IoManager) × (del_event true nothing 40 read manager ≡ done true m')
    × Removed 40 read [] manager m'
unfolding waiting add_event io_manager
del_event-Removed_example =
    del_event-Removed manager nothing 40 read 1 (callback 7) manager-IsValid refl

cancel_all-Delivered_example :
    (m' : IoManager) × (cancel_all true 40 manager ≡ done true m')
    × Delivered 40 true false manager m'
unfolding add_event io_manager
cancel_all-Delivered_example = cancel_all-Delivered manager 40 reading manager-IsValid refl refl

abbrev hung_up : Report
hung_up = record { readable = false; writable = false; failed = true }

handle_report-Delivered_example :
    (m' : IoManager) × (handle_report true 40 hung_up manager ≡ done tt m')
    × Delivered 40 true false manager m'
unfolding add_event io_manager
handle_report-Delivered_example =
    handle_report-Delivered manager 40 hung_up reading manager-IsValid refl (λ e. refl) (λ e. e)
