-- ===== src/FdManager.antt =====
-- The contexts of file descriptors: yk/fdmanager.h and yk/fdmanager.cc. Contexts are shared by
-- pointers, so the store of those that were made is part of the state; a pointer is an index into
-- it. `fstat` and `fcntl` are calls to the kernel, whose answers are in `Kernel`.
mod Runs
pub mod Slots
pub mod Contexts
use yk_server.Base.{
  ℕ, suc, ◌+◌, ◌-◌, ◌*◌, ◌/◌, ◌^◌, Bool, true, false, not, ◌&&◌, ◌||◌, List, [], ◌∷◌, ◌++◌, Option,
  none, some, if◌then◌else◌, leb, ltb, ◌==◌, length, get_elem?, set, take, replicate,
}

pub record FdCtx : Type 0 where
  pub is_init : Bool
  pub is_socket : Bool
  pub sys_nonblock : Bool
  pub user_nonblock : Bool
  pub is_close : Bool
  pub fd : ℕ
  pub recv_timeout : ℕ
  pub send_timeout : ℕ

-- What `fstat` says of a descriptor (whether it is a socket, or that it fails), and the flag
-- O_NONBLOCK that `fcntl` reads and sets.
pub record Kernel : Type 0 where
  pub stat : ℕ → Option Bool
  pub nonblocking : ℕ → Bool

-- The `int` for -1, or a descriptor.
pub data Fd : Type 0 where
  minus_one : Fd
  descriptor : ℕ → Fd

-- The `type` of a timeout.
pub data TimeoutType : Type 0 where
  so_rcvtimeo : TimeoutType
  other_type : TimeoutType

-- `(uint64_t)-1`
abbrev pub no_timeout : ℕ
no_timeout = 2 ^ 64 - 1

abbrev pub is_some {ℓ} : {A : Type ℓ} → Option A → Bool
is_some none = false
is_some (some a) = true

abbrev pub or_false : Option Bool → Bool
or_false none = false
or_false (some b) = b

-- `if(!(flags & O_NONBLOCK)) fcntl_f(m_fd, F_SETFL, flags | O_NONBLOCK);`
abbrev pub set_nonblocking : ℕ → Kernel → Kernel
set_nonblocking fd k =
    if not (k.nonblocking fd)
    then record k { nonblocking = λ n. if n == fd then true else k.nonblocking n }
    else k

unfoldable pub init : Kernel → FdCtx → Bool × FdCtx × Kernel
init k c =
    if c.is_init
    then (true, c, k)
    else let stat = k.stat c.fd in
      let is_socket = or_false stat in
      (
        is_some stat,
        record c {
          is_init = is_some stat;
          is_socket = is_socket;
          sys_nonblock = is_socket;
          user_nonblock = false;
          is_close = false;
          recv_timeout = no_timeout;
          send_timeout = no_timeout;
        },
        if is_socket then set_nonblocking c.fd k else k,
      )

-- The constructor.
unfoldable pub fd_ctx : Kernel → ℕ → FdCtx × Kernel
unfolding init
fd_ctx k fd =
    let (done, c, k') = init k (record {
      is_init = false;
      is_socket = false;
      sys_nonblock = false;
      user_nonblock = false;
      is_close = false;
      fd = fd;
      recv_timeout = no_timeout;
      send_timeout = no_timeout;
    }) in
    (c, k')

unfoldable pub set_timeout : TimeoutType → ℕ → FdCtx → FdCtx
set_timeout so_rcvtimeo v c = record c { recv_timeout = v }
set_timeout other_type v c = record c { send_timeout = v }

unfoldable pub get_timeout : TimeoutType → FdCtx → ℕ
get_timeout so_rcvtimeo c = c.recv_timeout
get_timeout other_type c = c.send_timeout

-- `made` are the contexts that were created, oldest first; `datas` is `m_datas`.
pub record FdManager : Type 0 where
  pub kernel : Kernel
  pub made : List FdCtx
  pub datas : List (Option ℕ)

unfoldable pub fd_manager : Kernel → FdManager
fd_manager k = record { kernel = k; made = []; datas = replicate 64 none }

-- `std::vector::resize`
abbrev pub resize : ℕ → List (Option ℕ) → List (Option ℕ)
resize n xs = take n xs ++ replicate (n - length xs) none

-- `m_datas[fd]` within the bounds.
abbrev pub slot : List (Option ℕ) → ℕ → Option ℕ
slot xs n = elim (get_elem? xs n) [ none ↦ none | some p ↦ p ]

-- The part of `get` under the read lock: the answer, if it is known there.
unfoldable pub find_context : ℕ → Bool → FdManager → Option (Option ℕ)
find_context fd auto_create m =
    if leb (length m.datas) fd
    then if not auto_create then some none else none
    else if is_some (slot m.datas fd) || not auto_create
    then some (slot m.datas fd)
    else none

-- The part of `get` under the write lock.
unfoldable pub create_context : ℕ → FdManager → Option ℕ × FdManager
create_context fd m =
    let (ctx, k) = fd_ctx m.kernel fd in
    let datas = if leb (length m.datas) fd then resize (fd * 3 / 2) m.datas else m.datas in
    (
      some (length m.made),
      record {
        kernel = k;
        made = m.made ++ (ctx ∷ []);
        datas = set datas fd (some (length m.made));
      },
    )

unfoldable pub get : Fd → Bool → FdManager → Option ℕ × FdManager
unfolding find_context create_context
get minus_one auto_create m = (none, m)
get (descriptor fd) auto_create m = elim (find_context fd auto_create m) [
  | some found ↦ (found, m)
  | none ↦ create_context fd m
]

-- A descriptor that is not negative.
unfoldable pub del : ℕ → FdManager → FdManager
del fd m = if leb (length m.datas) fd then m else record m { datas = set m.datas fd none }

-- `setTimeout` through a pointer that `get` returned.
unfoldable pub set_timeout_at : ℕ → TimeoutType → ℕ → FdManager → FdManager
unfolding set_timeout
set_timeout_at p type v m = elim (get_elem? m.made p) [
  | none ↦ m
  | some c ↦ record m { made = set m.made p (set_timeout type v c) }
]
