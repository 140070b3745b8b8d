-- ===== src/Scheduler.antt =====
-- fiber/scheduler.cpp and fiber/include/scheduler.hpp: the queue of tasks. The fibers' contexts, the
-- threads and the log are left out; `CondPanic` is a failed assertion, and `tickles` counts the
-- calls of `tickle`.
pub mod Picks
pub mod Life
pub mod Tests
use kv_my.Common.{
  ℕ, ◌+◌, ◌-◌, List, [], ◌∷◌, ◌++◌, Option, none, some, Bool, true, false, not, ◌&&◌, ◌||◌, Outcome,
  ok, ◌>>=◌, ◌>>◌, my_assert, ◌==◌, if◌then◌else◌,
}
use kv_my.Common.Int.{ℤ, minus_one, ◌==ℤ◌}

-- A fiber with its number and whether it is READY, a callback, or neither.
pub data Job : Type 0 where
  fiber : ℕ → Bool → Job
  cb : ℕ → Job
  empty : Job

pub record SchedulerTask : Type 0 where
  pub job : Job
  pub thread : ℤ

pub record Scheduler : Type 0 where
  pub tasks : List SchedulerTask
  pub active_thread_cnt : ℕ
  pub idle_thread_cnt : ℕ
  pub is_stopped : Bool
  pub tickles : ℕ

abbrev pub is_task : Job → Bool
is_task (fiber f ready) = true
is_task (cb c) = true
is_task empty = false

abbrev pub is_ready : Job → Bool
is_ready (fiber f ready) = ready
is_ready (cb c) = true
is_ready empty = true

abbrev pub is_nil : List SchedulerTask → Bool
is_nil [] = true
is_nil (t ∷ ts) = false

-- A task is queued if it holds something; a tickle is due if the queue was empty.
unfoldable pub scheduler_no_lock : SchedulerTask → Scheduler → Bool × Scheduler
scheduler_no_lock t s =
    (is_nil s.tasks, if is_task t.job then record s { tasks = s.tasks ++ t ∷ [] } else s)

unfoldable pub schedule : SchedulerTask → Scheduler → Scheduler
schedule t s =
    let (due, s') = scheduler_no_lock t s in
    if due then record s' { tickles = s'.tickles + 1 } else s'

-- A task is for another thread than `id`.
abbrev pub is_bound : ℤ → SchedulerTask → Bool
is_bound id t = not (t.thread ==ℤ minus_one) && not (t.thread ==ℤ id)

-- The task that thread `id` takes, what stays in the queue, and whether another thread is to be told.
unfoldable pub pick :
    ℤ → List SchedulerTask → Outcome (Option SchedulerTask × List SchedulerTask × Bool)
pick id [] = ok (none, [], false)
pick id (t ∷ ts) =
    let skipped : Outcome (Option SchedulerTask × List SchedulerTask × Bool) = (do
      (found, rest, tell) ← pick id ts
      ok (found, t ∷ rest, true)) in
    if is_bound id t
    then skipped
    else my_assert (is_task t.job) >> my_assert (is_ready t.job) >> ok (some t, ts, not (is_nil ts))

abbrev pub taken : Option SchedulerTask → ℕ
taken none = 0
taken (some t) = 1

-- One round of `run`, up to the task that it resumes.
unfoldable pub run_round : ℤ → Scheduler → Outcome (Option SchedulerTask × Scheduler)
run_round id s = do
  (found, rest, tell) ← pick id s.tasks
  ok (
    found,
    record s {
      tasks = rest;
      active_thread_cnt = s.active_thread_cnt + taken found;
      tickles = s.tickles + (if tell then 1 else 0);
    },
  )

-- The end of the task.
unfoldable pub finish_task : Scheduler → Scheduler
finish_task s = record s { active_thread_cnt = s.active_thread_cnt - 1 }

unfoldable pub stopping : Scheduler → Bool
stopping s = s.is_stopped && is_nil s.tasks && s.active_thread_cnt == 0
