-- ===== src/Scheduler/Life.antt =====
-- fiber/scheduler.cpp, lines 13 to 68 and 165 to 201: a scheduler from its constructor to its
-- destructor. The numbers of the threads that are made are an input, and so is what the scheduling
-- fiber of the caller's thread does with the queue while it runs in `stop`.
pub mod Joins
use kv_my.Common.{
  ℕ, zero, suc, ◌+◌, ◌-◌, ◌≤◌, ◌≡◌, refl, ap, ◌∙◌, List, [], ◌∷◌, ◌++◌, Bool, true, false, not,
  Outcome, ok, ◌>>=◌, ◌>>◌, my_assert, arith, length, ltb, if◌then◌else◌,
}
use kv_my.Common.Int.{ℤ, pos, minus_one}
use kv_my.Scheduler.{Scheduler, stopping}

-- `cur_scheduler` of the thread that calls: none, this scheduler, or another.
pub data Current : Type 0 where
  nobody this another : Current

abbrev is_this : Current → Bool
is_this this = true
is_this _ = false

abbrev is_nobody : Current → Bool
is_nobody nobody = true
is_nobody _ = false

abbrev is_empty : List ℕ → Bool
is_empty [] = true
is_empty (i ∷ is) = false

-- The scheduler with its threads; `root_fiber` says whether there is one.
pub record Pool : Type 0 where
  pub scheduler : Scheduler
  pub is_use_caller : Bool
  pub thread_cnt : ℕ
  pub thread_pool : List ℕ
  pub thread_ids : List ℕ
  pub root_fiber : Bool
  pub root_thread : ℤ

abbrev fresh : Scheduler
fresh = record {
  tasks = [];
  active_thread_cnt = 0;
  idle_thread_cnt = 0;
  is_stopped = false;
  tickles = 0;
}

-- A scheduler that takes the thread `id` of its caller as one of its threads, and one that does not.
abbrev pub on_caller : ℕ → ℕ → Pool
on_caller threads id = record {
  scheduler = fresh;
  is_use_caller = true;
  thread_cnt = threads - 1;
  thread_pool = [];
  thread_ids = id ∷ [];
  root_fiber = true;
  root_thread = pos id;
}

abbrev pub apart : ℕ → Pool
apart threads = record {
  scheduler = fresh;
  is_use_caller = false;
  thread_cnt = threads;
  thread_pool = [];
  thread_ids = [];
  root_fiber = false;
  root_thread = minus_one;
}

-- The constructor, called on thread `id`.
unfoldable pub init : ℕ → Bool → ℕ → Current → Outcome (Pool × Current)
init threads use_caller id current =
    let joined : Outcome (Pool × Current) =
      (my_assert (is_nobody current) >> ok (on_caller threads id, this)) in
    my_assert (ltb 0 threads) >> (if use_caller then joined else ok (apart threads, current))

-- The threads that `start` makes, with the number of each.
unfoldable pub new_threads : ℕ → ℕ → (ℕ → ℕ) → List ℕ
new_threads zero i new_id = []
new_threads (suc n) i new_id = new_id i ∷ new_threads n (suc i) new_id

unfoldable pub start : (ℕ → ℕ) → Pool → Outcome Pool
start new_id p =
    let made = new_threads p.thread_cnt 0 new_id in
    let go : Outcome Pool =
      (my_assert (is_empty p.thread_pool)
        >> ok (record p { thread_pool = made; thread_ids = p.thread_ids ++ made })) in
    if p.scheduler.is_stopped then ok p else go

-- The scheduler, the threads that are joined, and whether the root fiber has been resumed.
unfoldable pub stop : (Scheduler → Scheduler) → Current → Pool → Outcome (Pool × List ℕ × Bool)
stop run_root current p =
    let told : Scheduler = record p.scheduler {
      is_stopped = true;
      tickles = p.scheduler.tickles + p.thread_cnt + (if p.root_fiber then 1 else 0);
    } in
    let ended : Pool = record p {
      scheduler = if p.root_fiber then run_root told else told;
      thread_pool = [];
    } in
    let go : Outcome (Pool × List ℕ × Bool) =
      (my_assert (if p.is_use_caller then is_this current else not (is_this current))
        >> ok (ended, p.thread_pool, p.root_fiber)) in
    if stopping p.scheduler then ok (p, [], false) else go

-- The destructor.
unfoldable pub destroy : Current → Pool → Outcome Current
destroy current p =
    my_assert p.scheduler.is_stopped >> ok (if is_this current then nobody else current)
