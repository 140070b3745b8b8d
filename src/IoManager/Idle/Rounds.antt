-- ===== src/IoManager/Idle/Rounds.antt =====
-- fiber/iomanager.cpp: what a round of `idle` does to the timers, the events and the queue.
use mathlib.Core.List.{append-nil, append_assoc}
use kv_my.Common.{
  ℕ, ◌≡◌, refl, ap, sym, ◌∙◌, List, [], ◌∷◌, ◌++◌, map, false, ok, ok_unique, >>=-eq-ok, inl, inr,
  Bool-cases,
}
use kv_my.Common.Int.{minus_one}
use kv_my.Scheduler.{cb, SchedulerTask, Scheduler, is_nil, scheduler_no_lock, schedule}
use kv_my.Timers.{TimerManager, get_next_timer, detect_clock_rolllover, list_expired_cb}
use kv_my.Timers.Order.{Ordered, timers-Ordered}
use kv_my.Timers.Expiry.{keep, is_due, fired, list_expired_cb-due}
use kv_my.IoManager.{IoManager, handle_ready}
use kv_my.IoManager.Counts.{Counts}
use kv_my.IoManager.Handlers.{handle_ready-Counts}
use kv_my.IoManager.Idle.Reports.{Reports, Has, triggered, handle_woken-triggered}
use kv_my.IoManager.Idle.{
  epoll_waits, Woken, pipe, event, handle_woken, schedule_all, stopping, Environment, yields,
  idle_round,
}

-- The task that a timer's callback becomes.
abbrev pub callback : ℕ → SchedulerTask
callback c = record { job = cb c; thread = minus_one }

schedule-callback :
    (c : ℕ) (s : Scheduler) → (schedule (callback c) s).tasks ≡ s.tasks ++ callback c ∷ []
unfolding schedule scheduler_no_lock
schedule-callback c s = elim (Bool-cases (is_nil s.tasks)) [
  | inl first ↦ rw first refl
  | inr behind ↦ rw behind refl
]

schedule_all-tasks :
    (cs : List ℕ) (s : Scheduler) → (schedule_all cs s).tasks ≡ s.tasks ++ map callback cs
unfolding schedule_all
schedule_all-tasks [] s = sym (append-nil s.tasks)
schedule_all-tasks (c ∷ cs) s =
    schedule_all-tasks cs (schedule (callback c) s)
    ∙ ap (λ ts. ts ++ map callback cs) (schedule-callback c s)
    ∙ append_assoc s.tasks (callback c ∷ []) (map callback cs)

handle_woken-Counts :
    (ws : List Woken) (io io' : IoManager) → Counts io → handle_woken ws io ≡ ok io' → Counts io'
unfolding handle_woken
handle_woken-Counts [] io io' is done = let same : io ≡ io' = ok_unique refl done in rw (← same) is
handle_woken-Counts (pipe ∷ ws) io io' is done = handle_woken-Counts ws io io' is done
handle_woken-Counts (event fd r ret ∷ ws) io io' is done =
    let (io1, one, rest) = >>=-eq-ok (handle_ready fd r ret io) _ done in
    handle_woken-Counts ws io1 io' (handle_ready-Counts fd r ret io io1 is one) rest

-- A round that is not to stop, as `idle_round-queued` below has it, whatever the timers' addresses.
pub idle_round-fired :
    (env : Environment) (m : TimerManager) (io : IoManager)
    → Counts io
    → Ordered m.timers
    → (detect_clock_rolllover m env.handed_at).1 ≡ false
    → (stopping env.asked_at m io).2 ≡ false
    → Reports env.woken (Has io)
    → (m' : TimerManager) × (io' : IoManager) × (idle_round env m io
        ≡ ok (yields (epoll_waits env.interrupts (get_next_timer m env.asked_at).1) m' io'))
      × Counts io'
      × Ordered m'.timers
      × (m'.timers ≡ fired env.handed_at m.timers)
      × (io'.scheduler.tasks
          ≡ io.scheduler.tasks
            ++ map callback (map (λ e. e.cb) (keep (is_due env.handed_at) m.timers))
            ++ triggered env.woken io.fd_contexts)
unfolding idle_round stopping get_next_timer detect_clock_rolllover
idle_round-fired env m io is o no_rollover stays reports =
    let m1 = (get_next_timer m env.asked_at).0 in
    let (m2, cbs) = list_expired_cb m1 env.handed_at in
    let queued : IoManager = record io { scheduler = schedule_all cbs io.scheduler } in
    let due = list_expired_cb-due m1 env.handed_at o no_rollover in
    let (io', woken, longer) = handle_woken-triggered env.woken queued reports in
    let kept : Counts queued = record { pending = is.pending; paired = is.paired } in
    (
      m2,
      io',
      rw (stays, woken) refl,
      handle_woken-Counts env.woken queued io' kept woken,
      (timers-Ordered m1 o).4 env.handed_at,
      due.1,
      longer
          ∙ ap (λ ts. ts ++ triggered env.woken io.fd_contexts)
              (schedule_all-tasks cbs io.scheduler
                ∙ ap (λ cs. io.scheduler.tasks ++ map callback cs) due.0),
    )
