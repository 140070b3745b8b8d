-- ===== src/Fiber.antt =====
-- fiber/fiber.cpp and fiber/include/fiber.hpp: the fibers of a thread. A fiber's stack is known by the
-- fiber's number: `running` is whose stack the thread runs on, and a context holds whose stack it
-- goes on with. Stacks' memory is left out.
pub mod Switches
pub mod Pool
pub mod Tests
use kv_my.Common.{
  ℕ, ◌+◌, ◌-◌, Option, none, some, Bool, true, false, not, ◌&&◌, ◌||◌, Outcome, ok, ◌>>=◌,
  my_assert, of_option, ◌==◌, if◌then◌else◌,
}

pub data State : Type 0 where
  ready running term : State

pub record Fiber : Type 0 where
  pub state : State
  pub has_stack : Bool
  pub cb : Option ℕ
  pub is_run_in_scheduler : Bool
  pub ctx : ℕ

-- cur_fiber, cur_thread_fiber and the scheduler's cur_scheduler_fiber are of the thread, the fibers
-- with cur_fiber_id and fiber_count of the program.
pub record Thread : Type 0 where
  pub fibers : ℕ → Option Fiber
  pub cur_fiber : Option ℕ
  pub cur_thread_fiber : Option ℕ
  pub cur_scheduler_fiber : Option ℕ
  pub stack : ℕ
  pub cur_fiber_id : ℕ
  pub fiber_count : ℕ

abbrev pub is_term : State → Bool
is_term ready = false
is_term running = false
is_term term = true

abbrev pub is_running : State → Bool
is_running ready = false
is_running running = true
is_running term = false

abbrev pub is_none : Option ℕ → Bool
is_none none = true
is_none (some c) = false

abbrev pub is_this : Option ℕ → ℕ → Bool
is_this none f = false
is_this (some g) f = g == f

abbrev pub put_fiber : ℕ → Fiber → Thread → Thread
put_fiber f x t = record t { fibers = λ g. if g == f then some x else t.fibers g }

abbrev pub fiber_at : Thread → ℕ → Outcome Fiber
fiber_at t f = of_option (t.fibers f)

-- The context of `from` is where the thread is, and the thread goes on with the context of `to`.
unfoldable pub swapcontext : ℕ → ℕ → Thread → Outcome Thread
swapcontext from to t = do
  x ← fiber_at t from
  let t' = put_fiber from (record x { ctx = t.stack }) t
  y ← fiber_at t' to
  ok (record t' { stack = y.ctx })

-- The main fiber of a thread, with what isRunInScheduler_, which is not set, happens to be.
unfoldable pub main_fiber : Bool → Thread → ℕ × Thread
main_fiber junk t =
    let f = t.cur_fiber_id in
    (
      f,
      record t {
        fibers = λ g.
            if g == f
            then some (record {
              state = running;
              has_stack = false;
              cb = none;
              is_run_in_scheduler = junk;
              ctx = f;
            })
            else t.fibers g;
        cur_fiber = some f;
        cur_thread_fiber = some f;
        stack = f;
        cur_fiber_id = f + 1;
        fiber_count = t.fiber_count + 1;
      },
    )

unfoldable pub get_this_of : Option ℕ → Bool → Thread → ℕ × Thread
get_this_of (some f) junk t = (f, t)
get_this_of none junk t = main_fiber junk t

unfoldable pub get_this : Bool → Thread → ℕ × Thread
get_this junk t = get_this_of t.cur_fiber junk t

-- The constructor with a callback.
unfoldable pub new_fiber : ℕ → Bool → Thread → ℕ × Thread
new_fiber cb run_in_scheduler t =
    let f = t.cur_fiber_id in
    (
      f,
      record t {
        fibers = λ g.
            if g == f
            then some (record {
              state = ready;
              has_stack = true;
              cb = some cb;
              is_run_in_scheduler = run_in_scheduler;
              ctx = f;
            })
            else t.fibers g;
        cur_fiber_id = f + 1;
        fiber_count = t.fiber_count + 1;
      },
    )

-- Whose context a fiber is left for.
abbrev pub owner : Fiber → Thread → Option ℕ
owner x t = if x.is_run_in_scheduler then t.cur_scheduler_fiber else t.cur_thread_fiber

unfoldable pub resume : ℕ → Thread → Outcome Thread
resume f t = do
  x ← fiber_at t f
  fit ← my_assert (not (is_term x.state) && not (is_running x.state))
  let t' = record (put_fiber f (record x { state = running }) t) { cur_fiber = some f }
  o ← of_option (owner x t')
  swapcontext o f t'

abbrev pub left_state : State → State
left_state ready = ready
left_state running = ready
left_state term = term

unfoldable pub yield : ℕ → Thread → Outcome Thread
yield f t = do
  x ← fiber_at t f
  fit ← my_assert (is_term x.state || is_running x.state)
  let t' = record (put_fiber f (record x { state = left_state x.state }) t) {
    cur_fiber = t.cur_thread_fiber;
  }
  o ← of_option (owner x t')
  swapcontext f o t'

-- MainFunc behind the callback.
unfoldable pub main_func_end : ℕ → Thread → Outcome Thread
main_func_end f t = do
  x ← fiber_at t f
  yield f (put_fiber f (record x { cb = none; state = term }) t)

unfoldable pub reset : ℕ → ℕ → Thread → Outcome Thread
reset f cb t = do
  x ← fiber_at t f
  stacked ← my_assert x.has_stack
  ended ← my_assert (is_term x.state)
  ok (put_fiber f (record x { cb = some cb; ctx = f; state = ready }) t)

-- The destructor.
unfoldable pub destroy : ℕ → Thread → Outcome Thread
destroy f t = do
  x ← fiber_at t f
  let gone : Thread = record t {
    fibers = λ g. if g == f then none else t.fibers g;
    fiber_count = t.fiber_count - 1;
  }
  let child : Outcome Thread = (do ended ← my_assert (is_term x.state); ok gone)
  let main : Outcome Thread = (do
    free ← my_assert (is_none x.cb)
    runs ← my_assert (is_running x.state)
    ok (if is_this t.cur_fiber f then record gone { cur_fiber = none } else gone))
  if x.has_stack then child else main
