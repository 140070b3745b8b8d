-- ===== src/Scheduler/Life/Joins.antt =====
-- fiber/scheduler.cpp: a scheduler joins the threads that it starts.
use kv_my.Common.{
  ℕ, zero, suc, ◌+◌, ◌-◌, ◌<◌, ◌≡◌, refl, ap, [], Bool, true, false, ok, arith, length,
  if◌then◌else◌, lt→ltb,
}
use kv_my.Scheduler.{Scheduler, stopping}
use kv_my.Scheduler.Life.{
  Current, nobody, this, Pool, on_caller, apart, init, new_threads, start, stop, destroy,
}

length-new_threads : (n i : ℕ) (new_id : ℕ → ℕ) → length (new_threads n i new_id) ≡ n
unfolding new_threads
length-new_threads zero i new_id = refl
length-new_threads (suc n) i new_id = ap suc (length-new_threads n (suc i) new_id)

-- On a thread without a scheduler, the constructor, start and stop meet no panic, if the scheduling
-- fiber of the caller's thread leaves the scheduler stopped. As many threads are scheduled as were
-- asked for, the caller's among them where it is to be used; stop joins exactly those that start made
-- and lets the caller's take its part. The scheduler cannot be started again, and can be destroyed.
pub init-start-stop :
    (threads id : ℕ) (use_caller : Bool) (new_id : ℕ → ℕ) (run_root : Scheduler → Scheduler)
    → 0 < threads
    → ((s : Scheduler) → (run_root s).is_stopped ≡ s.is_stopped)
    → (p : Pool) × (c : Current) × (init threads use_caller id nobody ≡ ok (p, c))
      × (p1 : Pool) × (start new_id p ≡ ok p1)
      × (p2 : Pool) × (stop run_root c p1 ≡ ok (p2, p1.thread_pool, use_caller))
      × (length p1.thread_ids ≡ threads)
      × (length p1.thread_pool + (if use_caller then 1 else 0) ≡ threads)
      × (p2.thread_pool ≡ [])
      × (start new_id p2 ≡ ok p2)
      × (destroy c p2 ≡ ok nobody)
unfolding init start stop stopping destroy
init-start-stop threads id true new_id run_root positive stays =
    let made = length-new_threads (threads - 1) 0 new_id in
    (
      on_caller threads id,
      this,
      rw (lt→ltb 0 threads positive) refl,
      _,
      refl,
      _,
      refl,
      omega (arith, made),
      omega (arith, made),
      refl,
      rw (stays _) refl,
      rw (stays _) refl,
    )
init-start-stop threads id false new_id run_root positive stays =
    let made = length-new_threads threads 0 new_id in
    (
      apart threads,
      nobody,
      rw (lt→ltb 0 threads positive) refl,
      _,
      refl,
      _,
      refl,
      made,
      omega (arith, made),
      refl,
      refl,
      refl,
    )
