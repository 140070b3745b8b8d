-- ===== src/IoManager.antt =====
-- fiber/iomanager.cpp and fiber/include/iomanager.hpp: the events of file descriptors. The results
-- of epoll_ctl and the events of epoll_wait are inputs; `CondPanic` is a failed assertion.
pub mod Counts
pub mod Handlers
pub mod Branches
pub mod Steps
pub mod Wakes
pub mod Idle
pub mod Tests
use kv_my.Common.{
  ℕ, zero, suc, ◌+◌, ◌-◌, ◌*◌, ◌/◌, List, [], ◌∷◌, ◌++◌, Option, none, some, Bool, true, false, not,
  ◌&&◌, ◌||◌, Outcome, ok, ◌>>=◌, ◌>>◌, my_assert, read_at, length, take, set, leb, ltb, ◌==◌,
  if◌then◌else◌,
}
use kv_my.Common.Int.{ℤ, minus_one}
use kv_my.Scheduler.{Job, empty, SchedulerTask, Scheduler, schedule}

-- READ and WRITE, of which a set is a bit each; NONE is the empty set.
pub data Event : Type 0 where
  read_event write_event : Event

-- `EventContext`: what to schedule, where there is something.
pub record FdContext : Type 0 where
  pub fd : ℕ
  pub on_read : Bool
  pub on_write : Bool
  pub read : Option Job
  pub write : Option Job

pub record IoManager : Type 0 where
  pub pending_event_cnt : ℕ
  pub fd_contexts : List FdContext
  pub scheduler : Scheduler

abbrev pub has : Event → FdContext → Bool
has read_event c = c.on_read
has write_event c = c.on_write

abbrev pub slot : Event → FdContext → Option Job
slot read_event c = c.read
slot write_event c = c.write

abbrev pub is_none : Option Job → Bool
is_none none = true
is_none (some j) = false

abbrev pub job_or_empty : Option Job → Job
job_or_empty none = empty
job_or_empty (some j) = j

-- The event's bit is cleared and its context reset.
unfoldable pub reset_event : Event → FdContext → FdContext
reset_event read_event c = record c { on_read = false; read = none }
reset_event write_event c = record c { on_write = false; write = none }

unfoldable pub set_event : Event → Job → FdContext → FdContext
set_event read_event j c = record c { on_read = true; read = some j }
set_event write_event j c = record c { on_write = true; write = some j }

unfoldable pub trigger_event : Event → FdContext → Scheduler → Outcome (FdContext × Scheduler)
trigger_event e c s = do
  done ← my_assert (has e c)
  ok (reset_event e c, schedule (record { job = job_or_empty (slot e c); thread = minus_one }) s)

-- `resize`, and a new context where there is none.
unfoldable pub fresh_contexts : ℕ → ℕ → List FdContext
fresh_contexts zero i = []
fresh_contexts (suc n) i =
    record { fd = i; on_read = false; on_write = false; read = none; write = none }
    ∷ fresh_contexts n (suc i)

unfoldable pub context_resize : ℕ → List FdContext → List FdContext
context_resize size contexts =
    take size contexts ++ fresh_contexts (size - length contexts) (length contexts)

-- The contexts that `addEvent` looks its descriptor up in.
unfoldable pub grown : ℕ → List FdContext → List FdContext
grown fd contexts =
    if ltb fd (length contexts) then contexts else context_resize (fd * 3 / 2) contexts

-- What `addEvent` does to a context once epoll has taken the event.
unfoldable pub register : Event → Job → FdContext → Outcome FdContext
register e j c = my_assert (is_none (slot e c)) >> ok (set_event e j c)

-- `ret` is the result of epoll_ctl, and `j` the callback or the running fiber.
unfoldable pub add_event : ℕ → Event → Job → ℕ → IoManager → Outcome (Bool × IoManager)
add_event fd e j ret io = do
  let contexts = grown fd io.fd_contexts
  c ← read_at contexts fd
  free ← my_assert (not (has e c))
  let failed : Outcome (Bool × IoManager) = ok (false, record io { fd_contexts = contexts })
  let added : Outcome (Bool × IoManager) = (do
    c' ← register e j c
    ok (
      true,
      record io { pending_event_cnt = io.pending_event_cnt + 1; fd_contexts = set contexts fd c' },
    ))
  if ret == 0 then added else failed

-- A descriptor without a context, or without the event, leaves `false`.
unfoldable pub del_event : ℕ → Event → ℕ → IoManager → Outcome (Bool × IoManager)
del_event fd e ret io =
    let found : Outcome (Bool × IoManager) = (do
      c ← read_at io.fd_contexts fd
      ok (
          if has e c && ret == 0
          then (
            true,
            record io {
              pending_event_cnt = io.pending_event_cnt - 1;
              fd_contexts = set io.fd_contexts fd (reset_event e c);
            },
          )
          else (false, io))) in
    if leb (length io.fd_contexts) fd then ok (false, io) else found

-- One event of a context is triggered and no longer pending.
unfoldable pub fire : ℕ → Event → IoManager → Outcome IoManager
fire fd e io = do
  c ← read_at io.fd_contexts fd
  (c', s) ← trigger_event e c io.scheduler
  ok (record io {
    pending_event_cnt = io.pending_event_cnt - 1;
    fd_contexts = set io.fd_contexts fd c';
    scheduler = s;
  })

unfoldable pub fire_if : Bool → ℕ → Event → IoManager → Outcome IoManager
fire_if true fd e io = fire fd e io
fire_if false fd e io = ok io

unfoldable pub cancel_event : ℕ → Event → ℕ → IoManager → Outcome (Bool × IoManager)
cancel_event fd e ret io =
    let found : Outcome (Bool × IoManager) = (do
      c ← read_at io.fd_contexts fd
      let go : Outcome (Bool × IoManager) = (do io' ← fire fd e io; ok (true, io'))
      if has e c && ret == 0 then go else ok (false, io)) in
    if leb (length io.fd_contexts) fd then ok (false, io) else found

-- Both events, the one after the other, and the check that none is left.
unfoldable pub fire_all : ℕ → IoManager → Outcome IoManager
fire_all fd io = do
  c ← read_at io.fd_contexts fd
  io1 ← fire_if c.on_read fd read_event io
  c1 ← read_at io1.fd_contexts fd
  io2 ← fire_if c1.on_write fd write_event io1
  c2 ← read_at io2.fd_contexts fd
  clear ← my_assert (not (c2.on_read || c2.on_write))
  ok io2

unfoldable pub cancel_all : ℕ → ℕ → IoManager → Outcome (Bool × IoManager)
cancel_all fd ret io =
    let found : Outcome (Bool × IoManager) = (do
      c ← read_at io.fd_contexts fd
      let go : Outcome (Bool × IoManager) = (do io' ← fire_all fd io; ok (true, io'))
      if (c.on_read || c.on_write) && ret == 0 then go else ok (false, io)) in
    if leb (length io.fd_contexts) fd then ok (false, io) else found

-- What epoll_wait says of a descriptor: an error or a hang-up, and that it can be read or written.
pub record Ready : Type 0 where
  pub broken : Bool
  pub readable : Bool
  pub writable : Bool

abbrev pub real_read : Ready → FdContext → Bool
real_read r c = r.readable || r.broken && c.on_read

abbrev pub real_write : Ready → FdContext → Bool
real_write r c = r.writable || r.broken && c.on_write

-- One event of `idle`: the events that happened are triggered, also those not registered.
unfoldable pub handle_ready : ℕ → Ready → ℕ → IoManager → Outcome IoManager
handle_ready fd r ret io = do
  c ← read_at io.fd_contexts fd
  let go : Outcome IoManager = (do
    io1 ← fire_if (real_read r c) fd read_event io
    fire_if (real_write r c) fd write_event io1)
  if (c.on_read && real_read r c || c.on_write && real_write r c) && ret == 0 then go else ok io
