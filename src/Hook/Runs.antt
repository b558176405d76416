-- ===== src/Hook/Runs.antt =====
-- Runs of the calls of yk/hook.cc.
use yk_server.Base.{ℕ, arith, ◌≡◌, refl, true, false, List, [], ◌∷◌, ◌++◌, some, inl, inr}
use yk_server.FdManager.{FdCtx, so_rcvtimeo, get_timeout}
use yk_server.IoManager.{read}
use yk_server.Hook.{
  Reply, errno, eagain, eintr, etimedout, Wake, resumed, call, set_timer, cancel_timer, add_event,
  yields, returns, io_loop, do_io,
}
use yk_server.Hook.Flags.{Flags, fcntl_setfl, do_io-fcntl_setfl}
use yk_server.Hook.Waits.{Waits, NotBlocked, do_io-result, do_io-timeout, do_io-NotBlocked}

-- A socket with a timeout of 500 ms for reading.
abbrev ctx : FdCtx
ctx = record {
  is_init = true;
  is_socket = true;
  sys_nonblock = true;
  user_nonblock = false;
  is_close = false;
  fd = 6;
  recv_timeout = 500;
  send_timeout = 500;
}

ctx-Waits : Waits ctx
ctx-Waits = record { opened = refl; socket = refl; blocking = refl }

-- Interrupted, then without data.
abbrev retries : List (Reply × Wake)
retries = (errno eintr, resumed false) ∷ (errno eagain, resumed false) ∷ []

-- ECONNRESET on Linux.
abbrev reset : ℕ
reset = 104

do_io-result_example :
    do_io true (some ctx) 6 read so_rcvtimeo (retries ++ ((errno reset, resumed false) ∷ [])) ≡ (
      call ∷ call ∷ set_timer 500 ∷ add_event 6 read ∷ yields ∷ cancel_timer ∷ call ∷ [],
      returns (errno reset),
    )
unfolding get_timeout
do_io-result_example =
    do_io-result ctx 6 read so_rcvtimeo retries [] (errno reset) (resumed false) ctx-Waits
      (inl refl, (inr (refl, refl), tt)) ((λ e. absurd (omega arith)), (λ e. absurd (omega arith)))

do_io-timeout_example :
    do_io true (some ctx) 6 read so_rcvtimeo ((errno eagain, resumed true) ∷ []) ≡ (
      call ∷ set_timer 500 ∷ add_event 6 read ∷ yields ∷ cancel_timer ∷ [],
      returns (errno etimedout),
    )
unfolding get_timeout
do_io-timeout_example = do_io-timeout ctx 6 read so_rcvtimeo [] [] ctx-Waits tt refl

do_io-NotBlocked_example : NotBlocked (do_io true (some ctx) 6 read so_rcvtimeo retries)
do_io-NotBlocked_example =
    do_io-NotBlocked ctx 6 read so_rcvtimeo retries ctx-Waits (refl, (refl, tt))

-- The flags of a file opened for reading and writing, without O_NONBLOCK.
abbrev flags : Flags
flags = record { nonblock = false; others = 2 }

do_io-fcntl_setfl_example :
    ((fcntl_setfl (some ctx) flags).1 ≡ flags)
    × (do_io true (fcntl_setfl (some ctx) flags).0 6 read so_rcvtimeo retries
        ≡ io_loop 500 6 read retries)
unfolding get_timeout
do_io-fcntl_setfl_example = do_io-fcntl_setfl ctx flags 6 read so_rcvtimeo retries refl refl
