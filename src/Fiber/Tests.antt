-- ===== src/Fiber/Tests.antt =====
-- A thread with its own fiber and a new one.
use kv_my.Common.{
  ℕ, ◌≡◌, ◌≢◌, refl, none, some, true, false, ok, arith, ◌==◌, ==_iff, if◌then◌else◌,
}
use kv_my.Fiber.{Fiber, Thread, ready, running, new_fiber, get_this, resume, yield}
use kv_my.Fiber.Switches.{differs}
use kv_my.Fiber.Pool.{Flat}
use kv_my.Fiber.Pool.Steps.{create, step-Flat, resume-yield}

abbrev own : Fiber
own = record { state = running; has_stack = false; cb = none; is_run_in_scheduler = false; ctx = 0 }

abbrev alone : Thread
alone = record {
  fibers = λ f. if f == 0 then some own else none;
  cur_fiber = some 0;
  cur_thread_fiber = some 0;
  cur_scheduler_fiber = some 0;
  stack = 0;
  cur_fiber_id = 1;
  fiber_count = 1;
}

alone-Flat : Flat 0 alone
alone-Flat = record {
  thread = refl;
  scheduler = refl;
  this = refl;
  main = own;
  main_at = refl;
  main_runs = refl;
  main_bare = refl;
  back = λ h. refl;
  alive = λ h. absurd (h refl);
  others = λ f x ne got. absurd (let no : none ≡ some x = rw (differs ne) at got in cc);
  numbered = λ f x got. ground (arith, ==_iff f 0);
}

abbrev task : Fiber
task = record { state = ready; has_stack = true; cb = some 7; is_run_in_scheduler = true; ctx = 1 }

abbrev two : Thread
two = (new_fiber 7 true alone).1

step-Flat_example : Flat 0 two
step-Flat_example = step-Flat alone-Flat (create 7 true)

two_stack : two.stack ≡ 0
unfolding new_fiber
two_stack = refl

task_at : two.fibers 1 ≡ some task
unfolding new_fiber
task_at = refl

resume-yield_example :
    (t1 : Thread) × (resume 1 two ≡ ok t1)
    × (t1.stack ≡ 1)
    × (get_this true t1 ≡ (1, t1))
    × (t2 : Thread) × (yield 1 t1 ≡ ok t2)
    × (t2.stack ≡ 0)
    × (get_this true t2 ≡ (0, t2))
    × ((g : ℕ) → g ≢ 0 → t2.fibers g ≡ two.fibers g)
resume-yield_example =
    resume-yield true 1 task (step-Flat alone-Flat (create 7 true)) two_stack (λ e. omega arith)
      task_at refl
