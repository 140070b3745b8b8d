-- ===== src/FdManager.antt =====
-- fiber/fd_manager.cpp and fiber/include/fd_manager.hpp: what is kept of each descriptor. A
-- descriptor is a natural number; for -1, which is none, `get` returns a null pointer.
pub mod Flags
pub mod Table
use kv_my.Common.{
  ℕ, ◌-◌, ◌*◌, ◌/◌, ◌^◌, List, ◌++◌, Option, none, some, Bool, true, false, not, ◌||◌, length,
  get_elem?, set, take, replicate, leb, if◌then◌else◌,
}
use kv_my.FdManager.Flags.{has_nonblock, with_nonblock}

-- What the hooks ask of the operating system, of which `W` is a state.
pub record System (W : Type 0) : Type 0 where
  -- fstat: whether the descriptor is a socket; none where it fails.
  pub is_socket : ℕ → W → Option Bool
  -- fcntl_f with F_GETFL, and with F_SETFL; none where it fails.
  pub get_flags : ℕ → W → Option ℕ
  pub set_flags : ℕ → ℕ → W → Option W
  -- ioctl_f with FIONBIO.
  pub set_nonblock : ℕ → Bool → W → Option W

-- SO_RCVTIMEO and SO_SNDTIMEO.
pub data TimeoutType : Type 0 where
  so_rcvtimeo so_sndtimeo : TimeoutType

pub record FdCtx : Type 0 where
  pub is_init : Bool
  pub is_socket : Bool
  pub sys_nonblock : Bool
  pub user_nonblock : Bool
  pub is_closed : Bool
  pub fd : ℕ
  pub recv_timeout : ℕ
  pub send_timeout : ℕ

-- `(uint64_t)-1`.
abbrev pub no_timeout : ℕ
no_timeout = 2 ^ 64 - 1

unfoldable pub set_timeout : TimeoutType → ℕ → FdCtx → FdCtx
set_timeout so_rcvtimeo v c = record c { recv_timeout = v }
set_timeout so_sndtimeo v c = record c { send_timeout = v }

unfoldable pub get_timeout : TimeoutType → FdCtx → ℕ
get_timeout so_rcvtimeo c = c.recv_timeout
get_timeout so_sndtimeo c = c.send_timeout

pub record FdManager : Type 0 where
  pub datas : List (Option FdCtx)

unfoldable pub fd_manager : FdManager
fd_manager = record { datas = replicate 64 none }

abbrev pub is_there : Option FdCtx → Bool
is_there none = false
is_there (some c) = true

abbrev pub entry : Option (Option FdCtx) → Option FdCtx
entry none = none
entry (some c) = c

-- `m_datas[fd]`, in range.
abbrev pub context_at : List (Option FdCtx) → ℕ → Option FdCtx
context_at cs fd = entry (get_elem? cs fd)

abbrev pub keep_or : {A : Type 0} → A → Option A → A
keep_or a none = a
keep_or a (some b) = b

unfoldable pub resize : ℕ → List (Option FdCtx) → List (Option FdCtx)
resize n cs = take n cs ++ replicate (n - length cs) none

-- The table with a place for the descriptor.
unfoldable pub grown_table : ℕ → List (Option FdCtx) → List (Option FdCtx)
grown_table fd cs = if leb (length cs) fd then resize (fd * 3 / 2) cs else cs

-- What `get` answers under the read lock; none where it goes on to make a context.
unfoldable pub get_seen : ℕ → Bool → FdManager → Option (Option FdCtx)
get_seen fd auto_create m =
    if leb (length m.datas) fd
    then (if auto_create then none else some none)
    else if is_there (context_at m.datas fd) || not auto_create
    then some (context_at m.datas fd)
    else none

unfoldable pub del : ℕ → FdManager → FdManager
del fd m = if leb (length m.datas) fd then m else record m { datas = set m.datas fd none }

abbrev pub is_known : Option Bool → Bool
is_known none = false
is_known (some b) = true

module _ {W : Type 0} ⦃system : System W⦄ where
  -- The flags of a failed call, -1, have the bit.
  unfoldable pub add_nonblock : Option ℕ → ℕ → W → W
  add_nonblock none fd w = w
  add_nonblock (some flags) fd w =
      if has_nonblock flags then w else keep_or w (system.set_flags fd (with_nonblock flags) w)

  -- The constructor with `init`.
  unfoldable pub init : ℕ → W → FdCtx × W
  init fd w =
      let socket = keep_or false (system.is_socket fd w) in
      (
        record {
          is_init = is_known (system.is_socket fd w);
          is_socket = socket;
          sys_nonblock = socket;
          user_nonblock = false;
          is_closed = false;
          fd = fd;
          recv_timeout = no_timeout;
          send_timeout = no_timeout;
        },
        if socket then add_nonblock (system.get_flags fd w) fd w else w,
      )

  -- What `get` does under the write lock.
  unfoldable pub get_made : ℕ → FdManager → W → FdCtx × FdManager × W
  get_made fd m w =
      let (ctx, w') = init fd w in
      (ctx, record m { datas = set (grown_table fd m.datas) fd (some ctx) }, w')

  unfoldable pub get_from : Option (Option FdCtx) → ℕ → FdManager → W → Option FdCtx × FdManager × W
  get_from (some seen) fd m w = (seen, m, w)
  get_from none fd m w = let (ctx, m', w') = get_made fd m w in (some ctx, m', w')

  unfoldable pub get : ℕ → Bool → FdManager → W → Option FdCtx × FdManager × W
  get fd auto_create m w = get_from (get_seen fd auto_create m) fd m w
