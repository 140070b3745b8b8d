-- ===== src/IoManager/Idle/Tests.antt =====
-- A round of `idle` with one timer that is due, one that is not, and an event of a descriptor.
use kv_my.Common.{
  ℕ, ◌+◌, ◌≤◌, ◌<◌, ◌⊎◌, ◌≡◌, ◌≢◌, refl, arith, [], ◌∷◌, none, some, true, false, All, ok,
}
use kv_my.Common.Int.{pos, negsuc, minus_one}
use kv_my.Scheduler.{cb, SchedulerTask, Scheduler, scheduler_no_lock, schedule}
use kv_my.Scheduler as Scheduling
use kv_my.Timers.{
  TimerManager, get_next_timer, detect_clock_rolllover, list_expired_cb, expire, split_due, rearm,
  insert_timer,
}
use kv_my.Timers.Tests.{soon, late, manager, manager-Ordered}
use kv_my.Timers.Expiry.{keep, is_due}
use kv_my.IoManager.{IoManager, FdContext, handle_ready, fire_if, fire, trigger_event, reset_event}
use kv_my.IoManager.Counts.{Counts}
use kv_my.IoManager.Idle.{
  pipe, event, handle_woken, schedule_all, stopping, Environment, yields, capped, epoll_waits,
  idle_round, max_timeout,
}
use kv_my.IoManager.Idle.Waits.{epoll_waits-get_next_timer}
use kv_my.IoManager.Idle.Reports.{Reports}

abbrev after : TimerManager
after = record {
  timers = record soon { next = 35 } ∷ late ∷ [];
  tickled = false;
  previouse_time = 25;
}

abbrev reading : FdContext
reading = record { fd = 0; on_read = true; on_write = false; read = some (cb 9); write = none }

abbrev pub waiting : IoManager
waiting = record {
  pending_event_cnt = 1;
  fd_contexts = reading ∷ [];
  scheduler = record {
    tasks = [];
    active_thread_cnt = 0;
    idle_thread_cnt = 1;
    is_stopped = false;
    tickles = 0;
  };
}

abbrev woken_up : IoManager
woken_up = record {
  pending_event_cnt = 0;
  fd_contexts = record reading { on_read = false; read = none } ∷ [];
  scheduler = record waiting.scheduler {
    tasks =
        record { job = cb 7; thread = minus_one } ∷ record { job = cb 9; thread = minus_one } ∷ [];
    tickles = 1;
  };
}

abbrev env : Environment
env = record {
  asked_at = 15;
  interrupts = 1;
  handed_at = 25;
  woken = pipe ∷ event 0 (record { broken = false; readable = true; writable = false }) 0 ∷ [];
}

round_run : idle_round env manager waiting ≡ ok (yields (pos 5 ∷ pos 5 ∷ []) after woken_up)
unfolding idle_round stopping Scheduling.stopping get_next_timer list_expired_cb
    detect_clock_rolllover expire split_due rearm insert_timer handle_woken handle_ready fire_if
    fire trigger_event reset_event schedule_all schedule scheduler_no_lock epoll_waits capped
round_run = refl

pub waiting-Counts : Counts waiting
waiting-Counts = record { pending = refl; paired = (record { reads = refl; writes = refl }, tt) }

epoll_waits-get_next_timer_example :
    (wait : ℕ) × All (λ w. w ≡ pos wait) (epoll_waits 1 (get_next_timer manager 15).1)
    × (wait ≤ max_timeout)
    × All (λ t. t.next ≤ 15 ⊎ 15 + wait ≤ t.next) manager.timers
    × (wait < max_timeout → keep (is_due (15 + wait)) manager.timers ≢ [])
epoll_waits-get_next_timer_example =
    epoll_waits-get_next_timer manager 15 1 manager-Ordered (omega arith, (omega arith, tt))

-- A timer that is 2^31 milliseconds ahead: the timeouts are negative.
far_run : epoll_waits 1 2147483648 ≡ negsuc 2147483647 ∷ negsuc 2147483647 ∷ []
unfolding epoll_waits capped
far_run = refl
