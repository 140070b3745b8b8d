-- ===== src/Hook/Tests.antt =====
-- A system of which every descriptor is a socket, all with the same flags.
use kv_my.Common.{
  ℕ, ◌≤◌, ◌≡◌, refl, ap, sym, ◌∙◌, List, [], ◌∷◌, Option, none, some, Bool, true, false, Outcome,
  ok, length, arith, if◌then◌else◌,
}
use kv_my.Common.Int.{pos, minus_one}
use kv_my.FdManager.Flags.{has_nonblock, with_nonblock, without_nonblock, has-with, has-without}
use kv_my.FdManager.{
  System, so_rcvtimeo, fd_manager, context_at, set_timeout, get, get_seen, get_from, get_made, init,
  add_nonblock, grown_table, resize,
}
use kv_my.Scheduler.{fiber, schedule}
use kv_my.IoManager.Counts.{Counts}
use kv_my.IoManager.Branches.{with_event}
use kv_my.Hook.Waits.{
  Result, returned, failed, parked, eintr, eagain, etimedout, Turn, do_io_begin, do_io, do_io_try,
  park, timer_for, after, on_timeout,
}
use kv_my.Hook.Waits.Retries.{interrupted, woken, counted, do_io-settles}
use kv_my.Hook.Waits.Timeouts.{on_timeout-wakes}
use kv_my.IoManager.{
  read_event, IoManager, add_event, register, grown, context_resize, fresh_contexts,
}
use kv_my.Hook.{
  Hooks, fcntl_setfl_of, setsockopt_timeout, set_timeout_of, open_socket, socket, fcntl_getfl,
  fcntl_setfl, look,
}
use kv_my.Hook.Views.{IsSystem, Held}
use kv_my.Hook.Sockets.{
  HasFlags, Call, setfl_call, timeout_call, user_call, user_calls, user_calls-shown, socket-Held,
}

instance abbrev one_word : System ℕ
one_word = record {
  is_socket = λ fd w. some true;
  get_flags = λ fd w. some w;
  set_flags = λ fd flags w. some flags;
  set_nonblock = λ fd on w. some (if on then with_nonblock w else without_nonblock w);
}

with_or_without :
    (on : Bool) (w : ℕ) → has_nonblock (if on then with_nonblock w else without_nonblock w) ≡ on
with_or_without true w = has-with w
with_or_without false w = has-without w

one_word-IsSystem : IsSystem one_word
one_word-IsSystem = record {
  get-set =
      λ fd flags w w' set. let same : flags ≡ w' = cc in (w', refl, ap has_nonblock (sym same));
  get-set_nonblock = λ fd on w w' set.
      let same : (if on then with_nonblock w else without_nonblock w) ≡ w' = cc in
      (w', refl, ap has_nonblock (sym same) ∙ with_or_without on w);
}

one_word-HasFlags : HasFlags one_word 5
one_word-HasFlags = record { gets = λ w. (w, refl); sets = λ flags w. (flags, refl) }

abbrev start : Hooks ℕ
start = record { hook_enable = true; fds = fd_manager; world = 2; io = none }

abbrev some_calls : List Call
some_calls = setfl_call 2050 ∷ timeout_call so_rcvtimeo 3 0 ∷ setfl_call 2 ∷ []

-- The system's flags of the descriptor after the calls.
calls_run : (user_calls 5 some_calls (socket (some 5) start).1).world ≡ 2050
unfolding user_calls user_call socket fd_manager fcntl_setfl fcntl_setfl_of setsockopt_timeout
    set_timeout_of set_timeout look open_socket get get_seen get_from get_made init add_nonblock
    grown_table resize has_nonblock with_nonblock without_nonblock
calls_run = refl

start_size : 64 ≤ length start.fds.datas
unfolding fd_manager
start_size = omega arith

start_new : context_at start.fds.datas 5 ≡ none
unfolding fd_manager
start_new = refl

user_calls-shown_example :
    let h = user_calls 5 some_calls (socket (some 5) start).1 in
    ((flags : ℕ) × (some h.world ≡ some flags) × (has_nonblock flags ≡ true))
    × ((shown : ℕ) × (fcntl_getfl 5 h ≡ pos shown) × (has_nonblock shown ≡ has_nonblock 2))
user_calls-shown_example =
    user_calls-shown one_word-IsSystem 5 some_calls start one_word-HasFlags refl refl start_size
      start_new

opened-Held : Held 5 false (socket (some 5) start).1
opened-Held = socket-Held one_word-IsSystem 5 start one_word-HasFlags refl refl start_size start_new

abbrev no_events : IoManager
no_events = record {
  pending_event_cnt = 0;
  fd_contexts = [];
  scheduler = record {
    tasks = [];
    active_thread_cnt = 0;
    idle_thread_cnt = 0;
    is_stopped = false;
    tickles = 0;
  };
}

no_events-Counts : Counts no_events
no_events-Counts = record { pending = refl; paired = tt }

-- The state in which fiber 1 waits for descriptor 5.
abbrev waiting : IoManager
waiting =
    with_event 5 read_event (fiber 1 false)
      (record { fd = 5; on_read = false; on_write = false; read = none; write = none }) no_events

waiting_added : add_event 5 read_event (fiber 1 false) 0 no_events ≡ ok (true, waiting)
unfolding add_event register grown context_resize fresh_contexts
waiting_added = refl

waiting_parked :
    do_io_try 5 read_event (fiber 1 false) 3000 0 0 (failed eagain) no_events
    ≡ ok (parked (some 3000), waiting)
unfolding do_io_try park timer_for
waiting_parked = rw waiting_added

on_timeout-wakes_example :
    (io : IoManager) × (on_timeout 0 5 read_event 0 waiting ≡ ok (etimedout, io))
    × (io.scheduler
        ≡ schedule (record { job = fiber 1 false; thread = minus_one }) no_events.scheduler)
    × (io.pending_event_cnt ≡ 0)
    × ((rest : Outcome (Option Result))
        → after (parked (some 3000)) etimedout rest ≡ ok (some (failed etimedout)))
on_timeout-wakes_example =
    on_timeout-wakes 5 read_event (fiber 1 false) 3000 0 0 (failed eagain) (some 3000) no_events
      waiting no_events-Counts waiting_parked

-- A signal, a wait, and 7 bytes.
abbrev signal_turn : Turn
signal_turn = record { result = failed eintr; io = no_events; ret = 0; err = 0; cnacelled = 0 }

abbrev wait_turn : Turn
wait_turn = record { result = failed eagain; io = no_events; ret = 0; err = 0; cnacelled = 0 }

abbrev last_turn : Turn
last_turn = record { result = returned 7; io = no_events; ret = 0; err = 0; cnacelled = 0 }

start_on : (socket (some 5) start).1.hook_enable ≡ true
unfolding socket
start_on = refl

do_io-settles_example :
    do_io
      (do_io_begin 5 so_rcvtimeo (socket (some 5) start).1)
      (returned 0)
      5
      read_event
      (fiber 1 false)
      (signal_turn ∷ wait_turn ∷ last_turn ∷ [])
    ≡ ok (some (returned 7))
do_io-settles_example =
    do_io-settles read_event (fiber 1 false) so_rcvtimeo (returned 0) (signal_turn ∷ wait_turn ∷ [])
      last_turn [] (returned 7) opened-Held start_on
      (
        interrupted refl,
        (woken (record { blocked = refl; registered = (waiting, waiting_added) }) refl, tt),
      )
      (counted 7 refl)
