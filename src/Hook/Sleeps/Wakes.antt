-- ===== src/Hook/Sleeps/Wakes.antt =====
-- fiber/hook.cpp on fiber/iomanager.cpp: a fiber that sleeps is scheduled again.
use kv_my.Common.{◌≡◌, List, ◌∷◌, ◌++◌, map}
use kv_my.Scheduler.{SchedulerTask}
use kv_my.Timers.{Timer}
use kv_my.IoManager.{IoManager}
use kv_my.IoManager.Counts.{Counts}
use kv_my.IoManager.Idle.Reports.{Reports}
use kv_my.IoManager.Idle.Rounds.{callback}

-- A task is somewhere in a queue.
abbrev pub Queued : SchedulerTask → List SchedulerTask → Type 0
Queued t ts =
    (front : List SchedulerTask) × (behind : List SchedulerTask) × (ts ≡ front ++ t ∷ behind)

-- The callbacks of some timers, as tasks.
abbrev pub callbacks : List Timer → List SchedulerTask
callbacks ts = map callback (map (λ t. t.cb) ts)
