-- ===== src/Hook/Sleeps/Tests.antt =====
-- A fiber sleeps a second from 15 on, and a round of `idle` ends at 1015.
use kv_my.Common.{◌≡◌, refl, [], ◌∷◌, some, true, false, ok}
use kv_my.Common.Int.{pos, minus_one}
use kv_my.Scheduler.{cb, SchedulerTask, Scheduler, scheduler_no_lock, schedule}
use kv_my.Scheduler as Scheduling
use kv_my.Timers.{
  TimerManager, add_timer, add_timer_locked, get_next_timer, detect_clock_rolllover,
  list_expired_cb, expire, split_due, rearm, insert_timer,
}
use kv_my.IoManager.{IoManager}
use kv_my.IoManager.Idle.{
  handle_woken, schedule_all, stopping, Environment, yields, capped, epoll_waits, idle_round,
}
use kv_my.IoManager.Idle.Tests.{waiting}
use kv_my.Hook.Sleeps.{parked, usleep, nanosleep}

abbrev timers : TimerManager
timers = record { timers = []; tickled = false; previouse_time = 12 }

abbrev asleep : TimerManager
asleep = record {
  timers = record { address = 3; recurring = false; ms = 1000; next = 1015; cb = 4 } ∷ [];
  tickled = true;
  previouse_time = 12;
}

abbrev awake : TimerManager
awake = record { timers = []; tickled = false; previouse_time = 1015 }

abbrev env : Environment
env = record { asked_at = 15; interrupts = 0; handed_at = 1015; woken = [] }

abbrev woken_up : IoManager
woken_up = record waiting {
  scheduler = record waiting.scheduler {
    tasks = record { job = cb 4; thread = minus_one } ∷ [];
    tickles = 1;
  };
}

usleep_run : usleep true (some timers) 1000500 3 4 15 ≡ parked asleep true
unfolding usleep add_timer add_timer_locked insert_timer
usleep_run = refl

nanosleep_run : nanosleep true (some timers) 0 1000000700 3 4 15 ≡ parked asleep true
unfolding nanosleep add_timer add_timer_locked insert_timer
nanosleep_run = refl

round_run : idle_round env asleep waiting ≡ ok (yields (pos 1000 ∷ []) awake woken_up)
unfolding idle_round stopping Scheduling.stopping get_next_timer list_expired_cb
    detect_clock_rolllover expire split_due rearm handle_woken schedule_all schedule
    scheduler_no_lock epoll_waits capped
round_run = refl
