-- ===== src/Fiber/Pool.antt =====
-- fiber/fiber.cpp on a thread of the scheduler's pool, whose own fiber is the one that schedules: which
-- fiber runs, and where it goes on.
pub mod Kept
pub mod Steps
use kv_my.Common.{
  ℕ, ◌+◌, ◌<◌, ◌≤◌, ◌≡◌, ◌≢◌, refl, ap, sym, ◌∙◌, Option, none, some, Bool, true, false, ok,
  ok_unique, inl, inr, arith, Bool-cases, ◌==◌, ==_iff, if◌then◌else◌,
}
use kv_my.Fiber.{
  Fiber, Thread, State, left_state, put_fiber, ready, running, term, get_this, get_this_of, resume,
  yield, owner,
}
use kv_my.Fiber.Switches.{entered, resume-enters, left_for, yield-leaves, differs}

-- The thread's own fiber is `m`. Another one is RUNNING only while the thread is on its stack, and then
-- it is what GetThis gives, and `m` goes on where it was left; one that is READY goes on where it was
-- left itself.
pub record Flat (m : ℕ) (t : Thread) : Type 0 where
  pub thread : t.cur_thread_fiber ≡ some m
  pub scheduler : t.cur_scheduler_fiber ≡ some m
  pub this : t.cur_fiber ≡ some t.stack
  pub main : Fiber
  pub main_at : t.fibers m ≡ some main
  pub main_runs : main.state ≡ running
  pub main_bare : main.has_stack ≡ false
  pub back : t.stack ≢ m → main.ctx ≡ m
  pub alive : t.stack ≢ m → (x : Fiber) × (t.fibers t.stack ≡ some x) × (x.state ≡ running)
  pub others :
      (f : ℕ) (x : Fiber)
      → f ≢ m
      → t.fibers f ≡ some x
      → (x.has_stack ≡ true) × (x.state ≡ running → t.stack ≡ f) × (x.state ≡ ready → x.ctx ≡ f)
  pub numbered : (f : ℕ) (x : Fiber) → t.fibers f ≡ some x → f < t.cur_fiber_id

pub owner-Flat : {m : ℕ} {t : Thread} (flat : Flat m t) (x : Fiber) → owner x t ≡ some m
owner-Flat flat x = elim (Bool-cases x.is_run_in_scheduler) [
  | inl on ↦ rw on flat.scheduler
  | inr off ↦ rw off flat.thread
]

pub get_this-Flat : {m : ℕ} {t : Thread} (junk : Bool) → Flat m t → get_this junk t ≡ (t.stack, t)
unfolding get_this get_this_of
get_this-Flat {m} {t} junk flat = ap (λ c. get_this_of c junk t) flat.this

-- The thread on the stack of a fiber.
pub entered-Flat :
    {m : ℕ} {t : Thread} (flat : Flat m t) (f : ℕ) (x : Fiber)
    → t.stack ≡ m
    → f ≢ m
    → t.fibers f ≡ some x
    → Flat m (entered f x m flat.main t)
entered-Flat {m} {t} flat f x on_main ne at = record {
  thread = flat.thread;
  scheduler = flat.scheduler;
  this = refl;
  main = record flat.main { ctx = t.stack };
  main_at = rw ((==_iff m m).1 refl);
  main_runs = flat.main_runs;
  main_bare = flat.main_bare;
  back = λ h. on_main;
  alive = λ h. (record x { state = running }, rw (differs ne, (==_iff f f).1 refl), refl);
  others = λ g y away got. elim (Bool-cases (g == f)) [
    | inl same ↦
        let e : g ≡ f = (==_iff g f).0 same in
        let was : some (record x { state = running }) ≡ some y = rw (differs away, same) at got in
        let stacked = (flat.others f x ne at).0 in ground arith
    | inr other ↦
        let was : t.fibers g ≡ some y = rw (differs away, other) at got in
        let (stacked, runs, waits) = flat.others g y away was in
        (stacked, λ r. absurd (away (sym (runs r) ∙ on_main)), waits)
  ];
  numbered = λ g y got. ground (
    arith,
    ==_iff g m,
    ==_iff g f,
    flat.numbered g y,
    flat.numbered m flat.main flat.main_at,
    flat.numbered f x at,
  );
}

pub left_state-ne-running : (s : State) → left_state s ≢ running
left_state-ne-running ready h = cc
left_state-ne-running running h = cc
left_state-ne-running term h = cc

-- The thread back on its own stack, with what it has made of the fiber.
abbrev pub behind : ℕ → Fiber → Fiber → Thread → Thread
behind f x main t = record (put_fiber f x t) { cur_fiber = t.cur_thread_fiber; stack = main.ctx }

pub behind-Flat :
    {m : ℕ} {t : Thread} (flat : Flat m t) (x : Fiber)
    → t.stack ≢ m
    → t.stack < t.cur_fiber_id
    → x.has_stack ≡ true
    → x.state ≢ running
    → x.ctx ≡ t.stack
    → Flat m (behind t.stack x flat.main t)
behind-Flat {m} {t} flat x away known stacked stopped own =
    let away' : m ≢ t.stack = λ e. away (sym e) in
    record {
      thread = flat.thread;
      scheduler = flat.scheduler;
      this = flat.thread ∙ ap (λ c. some c) (sym (flat.back away));
      main = flat.main;
      main_at = rw (differs away') flat.main_at;
      main_runs = flat.main_runs;
      main_bare = flat.main_bare;
      back = λ h. flat.back away;
      alive = λ h. absurd (h (flat.back away));
      others = λ g y ne got. elim (Bool-cases (g == t.stack)) [
        | inl same ↦
            let e : g ≡ t.stack = (==_iff g t.stack).0 same in
            let was : some x ≡ some y = rw same at got in ground arith
        | inr other ↦
            let was : t.fibers g ≡ some y = rw other at got in
            let (stacked, runs, waits) = flat.others g y ne was in
            let elsewhere : g ≢ t.stack = λ e. let same = (==_iff g t.stack).1 e in cc in
            (stacked, λ r. absurd (elsewhere (sym (runs r))), waits)
      ];
      numbered = λ g y got. ground (arith, ==_iff g t.stack, flat.numbered g y);
    }

-- Another fiber than the one that runs made, changed or removed.
pub update-Flat :
    {m : ℕ} {t : Thread} (flat : Flat m t) (f : ℕ) (o : Option Fiber) (n c : ℕ)
    → f ≢ m
    → f ≢ t.stack
    → t.cur_fiber_id ≤ n
    → ((x : Fiber)
        → o ≡ some x
        → (x.has_stack ≡ true) × (x.state ≢ running) × (x.state ≡ ready → x.ctx ≡ f) × (f < n))
    → Flat m (record t {
      fibers = λ g. if g == f then o else t.fibers g;
      cur_fiber_id = n;
      fiber_count = c;
    })
update-Flat {m} {t} flat f o n c not_main elsewhere more fits = record {
  thread = flat.thread;
  scheduler = flat.scheduler;
  this = flat.this;
  main = flat.main;
  main_at = rw (differs (λ (e : m ≡ f). not_main (sym e))) flat.main_at;
  main_runs = flat.main_runs;
  main_bare = flat.main_bare;
  back = flat.back;
  alive = λ away.
      let (x, at, runs) = flat.alive away in
      (x, rw (differs (λ (e : t.stack ≡ f). elsewhere (sym e))) at, runs);
  others = λ g y ne got. elim (Bool-cases (g == f)) [
    | inl same ↦
        let e : g ≡ f = (==_iff g f).0 same in
        let (stacked, stopped, waits, known) = fits y (rw same at got) in
        (stacked, λ r. absurd (stopped r), λ r. waits r ∙ sym e)
    | inr other ↦ flat.others g y ne (rw other at got)
  ];
  numbered = λ g y got. elim (Bool-cases (g == f)) [
    | inl same ↦
        let e : g ≡ f = (==_iff g f).0 same in
        let (stacked, stopped, waits, known) = fits y (rw same at got) in omega arith
    | inr other ↦ omega (arith, flat.numbered g y (rw other at got))
  ];
}
