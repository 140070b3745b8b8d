-- ===== src/Hook/Waits/Timeouts.antt =====
-- fiber/hook.cpp: the timer of do_io against the event that it waits for.
use kv_my.Common.{
  ℕ, ◌≡◌, refl, ap, Option, some, Outcome, assert_failed, out_of_range, Bool, true, false, ok,
  ◌>>=◌, ok_unique, inl, inr, Bool-cases, ◌==◌,
}
use kv_my.Common.Int.{minus_one}
use kv_my.Scheduler.{Job, schedule}
use kv_my.IoManager.{Event, IoManager, add_event}
use kv_my.IoManager.Counts.{Counts}
use kv_my.IoManager.Wakes.{cancel_event-wakes}
use kv_my.Hook.Waits.{
  Result, returned, failed, Tried, parked, eintr, eagain, etimedout, timer_for, park, do_io_try,
  after, on_timeout,
}

park-added :
    (timer timer' : Option ℕ) (err : ℕ) (m : Outcome (Bool × IoManager)) (io' : IoManager)
    → (let wait : Outcome (Tried × IoManager) = (do
      (added, io1) ← m
      ok (park added timer err, io1)) in
        wait ≡ ok (parked timer', io'))
    → m ≡ ok (true, io')
unfolding park
park-added timer timer' err (ok (true, io1)) io' h = ap (λ x. ok (true, x.1)) (ok_unique refl h)
park-added timer timer' err (ok (false, io1)) io' h = cc
park-added timer timer' err assert_failed io' h = cc
park-added timer timer' err out_of_range io' h = cc

do_io_try-parks :
    (fd : ℕ) (e : Event) (j : Job) (to ret err : ℕ) (r : Result) (timer : Option ℕ)
    (io io' : IoManager)
    → do_io_try fd e j to ret err r io ≡ ok (parked timer, io')
    → add_event fd e j ret io ≡ ok (true, io')
unfolding do_io_try park
do_io_try-parks fd e j to ret err (returned n) timer io io' tried =
    absurd (let no = ok_unique tried refl in cc)
do_io_try-parks fd e j to ret err (failed errno) timer io io' tried =
    elim (Bool-cases (errno == eintr)) [
      | inl signal ↦ absurd (let no = rw signal at tried in cc)
      | inr none_came ↦ elim (Bool-cases (errno == eagain)) [
        | inl blocked ↦
            park-added (timer_for to) timer err (add_event fd e j ret io) io'
              (rw (none_came, blocked) at tried)
        | inr broken ↦ absurd (let no = rw (none_came, broken) at tried in cc)
      ]
    ]

-- Where do_io has parked a fiber, with the count of the pending events right before, and the timer's
-- callback is the next to run and epoll takes its change: the callback marks the wait as timed out,
-- and it schedules the fiber again, with no event pending more than before do_io; the fiber then
-- ends with -1 and ETIMEDOUT.
pub on_timeout-wakes :
    (fd : ℕ) (e : Event) (j : Job) (to ret err : ℕ) (r : Result) (timer : Option ℕ)
    (io io' : IoManager)
    → Counts io
    → do_io_try fd e j to ret err r io ≡ ok (parked timer, io')
    → (io'' : IoManager) × (on_timeout 0 fd e 0 io' ≡ ok (etimedout, io''))
      × (io''.scheduler ≡ schedule (record { job = j; thread = minus_one }) io.scheduler)
      × (io''.pending_event_cnt ≡ io.pending_event_cnt)
      × ((rest : Outcome (Option Result))
          → after (parked timer) etimedout rest ≡ ok (some (failed etimedout)))
unfolding on_timeout after
on_timeout-wakes fd e j to ret err r timer io io' is tried =
    let added = do_io_try-parks fd e j to ret err r timer io io' tried in
    let (io'', cancelled, woken, left) = cancel_event-wakes fd e io io' j ret is added in
    (io'', rw cancelled, woken, left, λ rest. refl)
