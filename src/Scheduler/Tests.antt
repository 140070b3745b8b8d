-- ===== src/Scheduler/Tests.antt =====
-- Three tasks, of which the second is the first that thread 1 may take.
use kv_my.Common.{◌+◌, ◌≡◌, refl, [], ◌∷◌, some, true, ok}
use kv_my.Common.Int.{pos, minus_one}
use kv_my.Scheduler.{
  fiber, cb, Scheduler, scheduler_no_lock, schedule, pick, run_round, finish_task, stopping,
}
use kv_my.Scheduler.Life.{this, Pool, on_caller, new_threads, start, stop}

abbrev three : Scheduler
three = record {
  tasks =
      record { job = cb 5; thread = pos 2 }
      ∷ record { job = fiber 6 true; thread = minus_one }
      ∷ record { job = cb 7; thread = pos 1 }
      ∷ [];
  active_thread_cnt = 0;
  idle_thread_cnt = 1;
  is_stopped = true;
  tickles = 0;
}

round_run :
    run_round (pos 1) three
    ≡ ok (
      some (record { job = fiber 6 true; thread = minus_one }),
      record three {
        tasks = record { job = cb 5; thread = pos 2 } ∷ record { job = cb 7; thread = pos 1 } ∷ [];
        active_thread_cnt = 1;
        tickles = 1;
      },
    )
unfolding run_round pick
round_run = refl

stopping_run : stopping (finish_task (record three { tasks = []; active_thread_cnt = 1 })) ≡ true
unfolding stopping finish_task
stopping_run = refl

schedule_run :
    (schedule (record { job = cb 1; thread = minus_one }) (record three { tasks = [] })).tickles ≡ 1
unfolding schedule scheduler_no_lock
schedule_run = refl

-- Of three threads one is the caller's: stop joins the two that start makes.
abbrev started : Pool
started = record (on_caller 3 9) { thread_pool = 10 ∷ 11 ∷ []; thread_ids = 9 ∷ 10 ∷ 11 ∷ [] }

start_run : start (λ i. 10 + i) (on_caller 3 9) ≡ ok started
unfolding start new_threads
start_run = refl

stop_run :
    stop (λ s. s) this started
    ≡ ok (
      record started {
        scheduler = record started.scheduler { is_stopped = true; tickles = 3 };
        thread_pool = [];
      },
      10 ∷ 11 ∷ [],
      true,
    )
unfolding stop stopping
stop_run = refl
