-- ===== src/Hook.antt =====
-- fiber/hook.cpp: the system calls that are hooked, and what they make of the descriptors' contexts.
-- A call that fails has the result none, or false where it only succeeds or fails.
pub mod Waits
pub mod Sleeps
pub mod Views
pub mod Sockets
pub mod Tests
use kv_my.Common.{
  ℕ, ◌+◌, ◌*◌, ◌/◌, Option, none, some, Bool, true, false, not, ◌&&◌, ◌||◌, Outcome, ok, ◌>>=◌, set,
  if◌then◌else◌,
}
use kv_my.Common.Int.{ℤ, pos, negsuc, minus_one}
use kv_my.FdManager.Flags.{has_nonblock, with_nonblock, without_nonblock}
use kv_my.FdManager.{System, TimeoutType, FdCtx, set_timeout, FdManager, del, get}
use kv_my.IoManager.{IoManager, cancel_all}

-- t_hook_enable of the thread, the table of descriptors, the system, and the thread's IOManager.
pub record Hooks (W : Type 0) : Type 0 where
  pub hook_enable : Bool
  pub fds : FdManager
  pub world : W
  pub io : Option IoManager

abbrev pub put_context : ℕ → FdCtx → FdManager → FdManager
put_context fd c m = record m { datas = set m.datas fd (some c) }

-- A context that is open and a socket's, which fcntl and ioctl look for.
unfoldable pub open_socket : Option FdCtx → Option FdCtx
open_socket none = none
open_socket (some c) = if c.is_closed || not c.is_socket then none else some c

-- -1 & ~O_NONBLOCK is -2049.
unfoldable pub shown_flags : Option FdCtx → Option ℕ → ℤ
shown_flags none none = minus_one
shown_flags none (some flags) = pos flags
shown_flags (some c) none = if c.user_nonblock then minus_one else negsuc 2048
shown_flags (some c) (some flags) =
    pos (if c.user_nonblock then with_nonblock flags else without_nonblock flags)

unfoldable pub cancel_events : ℕ → ℕ → Option IoManager → Outcome (Option IoManager)
cancel_events fd ret none = ok none
cancel_events fd ret (some io) = do (cancelled, io') ← cancel_all fd ret io; ok (some io')

module _ {W : Type 0} ⦃system : System W⦄ where
  -- `FdMgr::GetInstance()->get(fd)`.
  unfoldable pub look : ℕ → Hooks W → Option FdCtx
  look fd h = (get fd false h.fds h.world).0

  abbrev pub done : Option W → Hooks W → Bool × Hooks W
  done none h = (false, h)
  done (some w) h = (true, record h { world = w })

  abbrev pub made : ℕ → Hooks W → Hooks W
  made fd h = let (c, m, w) = get fd true h.fds h.world in record h { fds = m; world = w }

  -- `opened` is the result of socket_f.
  unfoldable pub socket : Option ℕ → Hooks W → Option ℕ × Hooks W
  socket none h = (none, h)
  socket (some fd) h = (some fd, if h.hook_enable then made fd h else h)

  unfoldable pub fcntl_setfl_of : Option FdCtx → ℕ → ℕ → Hooks W → Bool × Hooks W
  fcntl_setfl_of none fd arg h = done (system.set_flags fd arg h.world) h
  fcntl_setfl_of (some c) fd arg h =
      let h' = record h {
        fds = put_context fd (record c { user_nonblock = has_nonblock arg }) h.fds;
      } in
      let flags = if c.sys_nonblock then with_nonblock arg else without_nonblock arg in
      done (system.set_flags fd flags h'.world) h'

  -- fcntl with F_SETFL.
  unfoldable pub fcntl_setfl : ℕ → ℕ → Hooks W → Bool × Hooks W
  fcntl_setfl fd arg h = fcntl_setfl_of (open_socket (look fd h)) fd arg h

  -- fcntl with F_GETFL.
  unfoldable pub fcntl_getfl : ℕ → Hooks W → ℤ
  fcntl_getfl fd h = shown_flags (open_socket (look fd h)) (system.get_flags fd h.world)

  unfoldable pub ioctl_fionbio_of : Option FdCtx → ℕ → Bool → Hooks W → Hooks W
  ioctl_fionbio_of none fd on h = h
  ioctl_fionbio_of (some c) fd on h = record h {
    fds = put_context fd (record c { user_nonblock = on }) h.fds;
  }

  -- ioctl with FIONBIO: the system is given what the user gave.
  unfoldable pub ioctl_fionbio : ℕ → Bool → Hooks W → Bool × Hooks W
  ioctl_fionbio fd on h =
      let h' = ioctl_fionbio_of (open_socket (look fd h)) fd on h in
      done (system.set_nonblock fd on h'.world) h'

  unfoldable pub set_timeout_of : Option FdCtx → ℕ → TimeoutType → ℕ → Hooks W → Hooks W
  set_timeout_of none fd type v h = h
  set_timeout_of (some c) fd type v h = record h {
    fds = put_context fd (set_timeout type v c) h.fds;
  }

  -- setsockopt of a time-out in seconds and microseconds, up to the call of setsockopt_f.
  unfoldable pub setsockopt_timeout : ℕ → TimeoutType → ℕ → ℕ → Hooks W → Hooks W
  setsockopt_timeout fd type tv_sec tv_usec h =
      if h.hook_enable
      then set_timeout_of (look fd h) fd type (tv_sec * 1000 + tv_usec / 1000) h
      else h

  unfoldable pub close_of : Option FdCtx → ℕ → ℕ → Hooks W → Outcome (Hooks W)
  close_of none fd ret h = ok h
  close_of (some c) fd ret h = do
    io ← cancel_events fd ret h.io
    ok (record h { fds = del fd h.fds; io = io })

  -- close up to the call of close_f; `ret` is the result of epoll_ctl.
  unfoldable pub close : ℕ → ℕ → Hooks W → Outcome (Hooks W)
  close fd ret h = if h.hook_enable then close_of (look fd h) fd ret h else ok h
