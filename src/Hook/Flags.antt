-- ===== src/Hook/Flags.antt =====
-- The flag O_NONBLOCK in `fcntl` and `ioctl` of yk/hook.cc: that of the user in the context, and that of the
-- kernel. The original functions store what they are told.
use yk_server.Base.{
  ℕ, ◌≡◌, refl, List, Bool, true, false, not, ◌||◌, if◌then◌else◌, Option, none, some, Bool-cases,
  inl, inr,
}
use yk_server.FdManager.{FdCtx, TimeoutType, so_rcvtimeo, other_type, get_timeout}
use yk_server.IoManager.{Event}
use yk_server.Hook.{Reply, Wake, io_loop, call_once, do_io}

-- The flags of a descriptor: O_NONBLOCK, and the others.
pub record Flags : Type 0 where
  pub nonblock : Bool
  pub others : ℕ

-- `!ctx || ctx->isClose() || !ctx->isSocket()`
abbrev pub passes_through : Option FdCtx → Bool
passes_through none = true
passes_through (some c) = c.is_close || not c.is_socket

abbrev pub set_user_nonblock : Bool → Option FdCtx → Option FdCtx
set_user_nonblock b none = none
set_user_nonblock b (some c) = some (record c { user_nonblock = b })

abbrev pub user_nonblock : Option FdCtx → Bool
user_nonblock none = false
user_nonblock (some c) = c.user_nonblock

-- `fcntl` with F_SETFL: the context and the kernel's flags behind it.
unfoldable pub fcntl_setfl : Option FdCtx → Flags → Option FdCtx × Flags
fcntl_setfl ctx arg =
    if passes_through ctx
    then (ctx, arg)
    else let ctx' = set_user_nonblock arg.nonblock ctx in
      (
        ctx',
        if user_nonblock ctx'
            then record arg { nonblock = true }
            else record arg { nonblock = false },
      )

-- `fcntl` with F_GETFL, for the kernel's flags.
unfoldable pub fcntl_getfl : Option FdCtx → Flags → Flags
fcntl_getfl ctx arg =
    if passes_through ctx
    then arg
    else if user_nonblock ctx
    then record arg { nonblock = true }
    else record arg { nonblock = false }

-- `ioctl` with FIONBIO.
unfoldable pub ioctl_fionbio : Option FdCtx → Bool → Flags → Option FdCtx × Flags
ioctl_fionbio ctx on flags =
    (if passes_through ctx then ctx else set_user_nonblock on ctx, record flags { nonblock = on })

-- After F_SETFL on an open socket, `do_io` makes the call once where O_NONBLOCK was asked for, and waits in
-- the scheduler where it was not, whatever was asked before; the flags that go to the kernel are those that
-- were asked for, so that a descriptor for which `do_io` waits has no O_NONBLOCK.
pub do_io-fcntl_setfl :
    (c : FdCtx) (arg : Flags) (fd : ℕ) (event : Event) (timeout_so : TimeoutType)
    (answers : List (Reply × Wake))
    → c.is_close ≡ false
    → c.is_socket ≡ true
    → ((fcntl_setfl (some c) arg).1 ≡ arg)
      × (do_io true (fcntl_setfl (some c) arg).0 fd event timeout_so answers ≡ (
          if arg.nonblock
          then call_once answers
          else io_loop (get_timeout timeout_so c) fd event answers))
unfolding fcntl_setfl do_io get_timeout
do_io-fcntl_setfl c arg fd event so_rcvtimeo answers opened socket =
    elim (Bool-cases arg.nonblock) [
      | inl e ↦ rw (opened, socket, e) (refl, refl)
      | inr e ↦ rw (opened, socket, e) (refl, refl)
    ]
do_io-fcntl_setfl c arg fd event other_type answers opened socket = elim (Bool-cases arg.nonblock) [
  | inl e ↦ rw (opened, socket, e) (refl, refl)
  | inr e ↦ rw (opened, socket, e) (refl, refl)
]
