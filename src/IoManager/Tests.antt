-- ===== src/IoManager/Tests.antt =====
-- A manager of two descriptors.
use kv_my.Common.{◌≡◌, refl, [], ◌∷◌, none, some, true, false, ok}
use kv_my.Common.Int.{minus_one}
use kv_my.Scheduler.{cb, Scheduler, scheduler_no_lock, schedule}
use kv_my.IoManager.{
  write_event, FdContext, IoManager, add_event, grown, register, set_event, reset_event,
  trigger_event, fire, fire_if, fire_all, cancel_all,
}
use kv_my.IoManager.Counts.{Counts}
use kv_my.IoManager.Steps.{add, step-Counts}

abbrev idle_context : FdContext
idle_context = record { fd = 0; on_read = false; on_write = false; read = none; write = none }

abbrev reading : FdContext
reading = record { fd = 1; on_read = true; on_write = false; read = some (cb 9); write = none }

abbrev queue : Scheduler
queue = record {
  tasks = [];
  active_thread_cnt = 0;
  idle_thread_cnt = 0;
  is_stopped = false;
  tickles = 0;
}

abbrev two : IoManager
two = record { pending_event_cnt = 1; fd_contexts = idle_context ∷ reading ∷ []; scheduler = queue }

abbrev more : IoManager
more = record two {
  pending_event_cnt = 2;
  fd_contexts =
      record { fd = 0; on_read = false; on_write = true; read = none; write = some (cb 4) }
      ∷ reading
      ∷ [];
}

two-Counts : Counts two
two-Counts = record {
  pending = refl;
  paired = (record { reads = refl; writes = refl }, (record { reads = refl; writes = refl }, tt));
}

add_run : add_event 0 write_event (cb 4) 0 two ≡ ok (true, more)
unfolding add_event grown register set_event
add_run = refl

-- The registered event is scheduled and nothing is pending.
cancel_run :
    cancel_all 1 0 two
    ≡ ok (
      true,
      record {
        pending_event_cnt = 0;
        fd_contexts =
            idle_context
            ∷ record { fd = 1; on_read = false; on_write = false; read = none; write = none }
            ∷ [];
        scheduler = record queue {
          tasks = record { job = cb 9; thread = minus_one } ∷ [];
          tickles = 1;
        };
      },
    )
unfolding cancel_all fire_all fire_if fire trigger_event reset_event schedule scheduler_no_lock
cancel_run = refl

step-Counts_example : Counts more
step-Counts_example = step-Counts (add 0 write_event (cb 4) 0 true add_run) two-Counts
