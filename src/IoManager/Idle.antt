-- ===== src/IoManager/Idle.antt =====
-- fiber/iomanager.cpp, lines 235 to 359: `stopping` and the rounds of `idle`. When the clock is read,
-- how often epoll_wait is interrupted and what it hands out are inputs.
pub mod Waits
pub mod Reports
pub mod Rounds
pub mod Tests
use kv_my.Common.{
  ℕ, zero, suc, ◌+◌, ◌-◌, ◌%◌, ◌^◌, List, [], ◌∷◌, Bool, true, false, ◌&&◌, Outcome, ok, ◌>>=◌, ltb,
  ◌==◌, min, if◌then◌else◌,
}
use kv_my.Common.Int.{ℤ, pos, negsuc, minus_one}
use kv_my.Scheduler.{cb, SchedulerTask, Scheduler, schedule}
use kv_my.Scheduler as Scheduling
use kv_my.Timers.{TimerManager, get_next_timer, list_expired_cb}
use kv_my.IoManager.{IoManager, Ready, handle_ready}

abbrev pub max_timeout : ℕ
max_timeout = 5000

-- `~0ull`.
abbrev pub no_timer : ℕ
no_timer = 2 ^ 64 - 1

-- The casts of a uint64_t to int, which keeps 32 bits, and back.
abbrev pub to_int : ℕ → ℤ
to_int n = let m = n % 2 ^ 32 in if ltb m (2 ^ 31) then pos m else negsuc (2 ^ 32 - 1 - m)

abbrev pub to_uint64 : ℤ → ℕ
to_uint64 (pos m) = m
to_uint64 (negsuc k) = 2 ^ 64 - 1 - k

-- `std::min(i, MAX_TIMEOUT)`.
abbrev pub min_timeout : ℤ → ℤ
min_timeout (pos m) = pos (min m max_timeout)
min_timeout (negsuc k) = negsuc k

-- What `next_timeout` becomes before a call of epoll_wait.
unfoldable pub capped : ℕ → ℕ
capped next = if next == no_timer then max_timeout else to_uint64 (min_timeout (to_int next))

-- The timeouts of epoll_wait, which is called once more after each of some interruptions.
unfoldable pub epoll_waits : ℕ → ℕ → List ℤ
epoll_waits zero next = to_int (capped next) ∷ []
epoll_waits (suc interrupts) next = to_int (capped next) ∷ epoll_waits interrupts (capped next)

-- What epoll_wait hands out: the pipe that `tickle` writes to, or a descriptor with its events and the
-- result of the epoll_ctl for it.
pub data Woken : Type 0 where
  pipe : Woken
  event : (fd : ℕ) → Ready → (ret : ℕ) → Woken

unfoldable pub handle_woken : List Woken → IoManager → Outcome IoManager
handle_woken [] io = ok io
handle_woken (pipe ∷ ws) io = handle_woken ws io
handle_woken (event fd r ret ∷ ws) io = do io' ← handle_ready fd r ret io; handle_woken ws io'

-- `scheduler(cb)` for each callback.
unfoldable pub schedule_all : List ℕ → Scheduler → Scheduler
schedule_all [] s = s
schedule_all (c ∷ cs) s = schedule_all cs (schedule (record { job = cb c; thread = minus_one }) s)

-- `stopping(timeout)`: the wait until the next timer, and whether there is nothing left to do.
unfoldable pub stopping : ℕ → TimerManager → IoManager → TimerManager × ℕ × Bool
stopping now m io =
    let (m', timeout) = get_next_timer m now in
    (
      m',
      timeout,
      timeout == no_timer && io.pending_event_cnt == 0 && Scheduling.stopping io.scheduler,
    )

-- The environment's part in a round; `woken` is empty if the wait timed out or failed.
pub record Environment : Type 0 where
  pub asked_at : ℕ
  pub interrupts : ℕ
  pub handed_at : ℕ
  pub woken : List Woken

-- A round leaves the loop, or ends with the fiber's yield after some timeouts of epoll_wait.
pub data Idled : Type 0 where
  leaves : TimerManager → Idled
  yields : List ℤ → TimerManager → IoManager → Idled

unfoldable pub idle_round : Environment → TimerManager → IoManager → Outcome Idled
idle_round env m io =
    let (m1, next, stops) = stopping env.asked_at m io in
    let (m2, cbs) = list_expired_cb m1 env.handed_at in
    let go : Outcome Idled = (do
      io' ← handle_woken env.woken (record io { scheduler = schedule_all cbs io.scheduler })
      ok (yields (epoll_waits env.interrupts next) m2 io')) in
    if stops then ok (leaves m1) else go
