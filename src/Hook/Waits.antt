-- ===== src/Hook/Waits.antt =====
-- fiber/hook.cpp: do_io and connect_with_timeout, which park the fiber until the descriptor is
-- ready or the time is up. What the original functions return is an input.
pub mod Retries
pub mod Timeouts
use kv_my.Common.{
  ℕ, List, [], ◌∷◌, Option, none, some, Bool, true, false, not, ◌&&◌, ◌||◌, Outcome, ok, ◌>>=◌,
  ◌==◌, if◌then◌else◌,
}
use kv_my.FdManager.{System, TimeoutType, FdCtx, get_timeout, no_timeout}
use kv_my.Scheduler.{Job}
use kv_my.IoManager.{Event, write_event, IoManager, add_event, cancel_event}
use kv_my.Hook.{Hooks, look, made}

-- The result of a call: a number that is not negative, or -1 with errno.
pub data Result : Type 0 where
  returned : ℕ → Result
  failed : ℕ → Result

abbrev pub eintr : ℕ
eintr = 4

abbrev pub eagain : ℕ
eagain = 11

abbrev pub ebadf : ℕ
ebadf = 9

abbrev pub etimedout : ℕ
etimedout = 110

abbrev pub einprogress : ℕ
einprogress = 115

-- How a call begins: with the original function alone, with an error, or with a time-out to wait for.
pub data Begin : Type 0 where
  direct : Begin
  refused : ℕ → Begin
  waits : ℕ → Begin

unfoldable pub io_begin_of : Option FdCtx → TimeoutType → Begin
io_begin_of none type = direct
io_begin_of (some c) type =
    if c.is_closed
    then refused ebadf
    else if not c.is_socket || c.user_nonblock
    then direct
    else waits (get_timeout type c)

unfoldable pub connect_begin_of : Option FdCtx → ℕ → Begin
connect_begin_of none timeout_ms = refused ebadf
connect_begin_of (some c) timeout_ms =
    if c.is_closed
    then refused ebadf
    else if not c.is_socket || c.user_nonblock
    then direct
    else waits timeout_ms

module _ {W : Type 0} ⦃system : System W⦄ where
  -- do_io up to `retry`.
  unfoldable pub do_io_begin : ℕ → TimeoutType → Hooks W → Begin
  do_io_begin fd type h = if h.hook_enable then io_begin_of (look fd h) type else direct

  -- connect_with_timeout up to the call of connect_f.
  unfoldable pub connect_begin : ℕ → ℕ → Hooks W → Begin
  connect_begin fd timeout_ms h =
      if h.hook_enable then connect_begin_of (look fd h) timeout_ms else direct

  -- accept: a context is made with the hooks off too.
  unfoldable pub accept : Result → Hooks W → Hooks W
  accept (failed errno) h = h
  accept (returned fd) h = made fd h

-- What follows a call of the original function: another one, the answer, or waiting, with a timer
-- where there is a time-out.
pub data Tried : Type 0 where
  again : Tried
  answered : Result → Tried
  parked : Option ℕ → Tried

unfoldable pub timer_for : ℕ → Option ℕ
timer_for to = if to == no_timeout then none else some to

unfoldable pub park : Bool → Option ℕ → ℕ → Tried
park true timer err = parked timer
park false timer err = answered (failed err)

-- `ret` is the result of epoll_ctl and `err` the errno that it leaves, `j` the running fiber.
unfoldable pub do_io_try :
    ℕ → Event → Job → ℕ → ℕ → ℕ → Result → IoManager → Outcome (Tried × IoManager)
do_io_try fd e j to ret err (returned n) io = ok (answered (returned n), io)
do_io_try fd e j to ret err (failed errno) io =
    let wait : Outcome (Tried × IoManager) = (do
      (added, io') ← add_event fd e j ret io
      ok (park added (timer_for to) err, io')) in
    if errno == eintr
    then ok (again, io)
    else if errno == eagain
    then wait
    else ok (answered (failed errno), io)

-- The timer's callback, with the errno that it leaves in `cnacelled`.
unfoldable pub on_timeout : ℕ → ℕ → Event → ℕ → IoManager → Outcome (ℕ × IoManager)
on_timeout cnacelled fd e ret io =
    let cancel : Outcome (ℕ × IoManager) = (do
      (cancelled, io') ← cancel_event fd e ret io
      ok (etimedout, io')) in
    if cnacelled == 0 then cancel else ok (cnacelled, io)

-- One turn of `retry`: the call's result, the IOManager and epoll_ctl's results at that time, and
-- `cnacelled` when the fiber goes on, where it has been parked.
pub record Turn : Type 0 where
  pub result : Result
  pub io : IoManager
  pub ret : ℕ
  pub err : ℕ
  pub cnacelled : ℕ

-- The fiber goes on where its time is not up.
unfoldable pub after : Tried → ℕ → Outcome (Option Result) → Outcome (Option Result)
after again cnacelled rest = rest
after (answered r) cnacelled rest = ok (some r)
after (parked timer) cnacelled rest = if cnacelled == 0 then rest else ok (some (failed cnacelled))

-- do_io from `retry` on; none while the fiber is parked.
unfoldable pub do_io_loop : ℕ → Event → Job → ℕ → List Turn → Outcome (Option Result)
do_io_loop fd e j to [] = ok none
do_io_loop fd e j to (t ∷ ts) = do
  (tried, io') ← do_io_try fd e j to t.ret t.err t.result t.io
  after tried t.cnacelled (do_io_loop fd e j to ts)

-- `outcome` is what the original function returns where it is called alone.
unfoldable pub do_io : Begin → Result → ℕ → Event → Job → List Turn → Outcome (Option Result)
do_io direct outcome fd e j turns = ok (some outcome)
do_io (refused errno) outcome fd e j turns = ok (some (failed errno))
do_io (waits to) outcome fd e j turns = do_io_loop fd e j to turns

-- The socket's own error, which getsockopt tells, is the result of connecting.
unfoldable pub connect_end : Result → Result
connect_end (returned error) = if error == 0 then returned 0 else failed error
connect_end (failed errno) = failed errno

-- connect_with_timeout from connect_f's result on; where addEvent fails it goes on to the error too.
unfoldable pub connect_wait :
    ℕ → Job → ℕ → Result → ℕ → Result → IoManager → Outcome (Result × IoManager)
connect_wait fd j ret (returned n) cnacelled error io = ok (returned n, io)
connect_wait fd j ret (failed errno) cnacelled error io =
    let wait : Outcome (Result × IoManager) = (do
      (added, io') ← add_event fd write_event j ret io
      ok (if added && not (cnacelled == 0) then failed cnacelled else connect_end error, io')) in
    if errno == einprogress then wait else ok (failed errno, io)
