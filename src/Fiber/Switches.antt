-- ===== src/Fiber/Switches.antt =====
-- fiber/fiber.cpp, lines 73 to 102: where a fiber is entered and where it is left to.
use kv_my.Common.{
  ℕ, ◌≡◌, ◌≢◌, ap, ◌∙◌, Option, some, true, false, ◌||◌, ok, ◌==◌, ==_iff, if◌then◌else◌, arith,
  inl, inr, Bool-cases,
}
use mathlib.Core.Path.{fun_ext}
use kv_my.Fiber.{
  Fiber, Thread, ready, running, is_term, is_running, put_fiber, swapcontext, owner, resume,
  left_state, yield,
}

pub differs : {a b : ℕ} → a ≢ b → (a == b) ≡ false
differs {a} {b} ne = ground (arith, ==_iff a b)

-- The thread on the stack of `f`, with the context of `o` where it was.
abbrev pub entered : ℕ → Fiber → ℕ → Fiber → Thread → Thread
entered f x o y t = record t {
  fibers = λ g.
      if g == o
      then some (record y { ctx = t.stack })
      else if g == f
      then some (record x { state = running })
      else t.fibers g;
  cur_fiber = some f;
  stack = f;
}

pub resume-enters :
    (f : ℕ) (x : Fiber) (o : ℕ) (y : Fiber) (t : Thread)
    → t.fibers f ≡ some x
    → x.state ≡ ready
    → x.ctx ≡ f
    → owner x t ≡ some o
    → t.fibers o ≡ some y
    → o ≢ f
    → resume f t ≡ ok (entered f x o y t)
unfolding resume swapcontext
resume-enters f x o y t at is_ready own owned there ne = ground (arith, ==_iff o f, ==_iff f o)

pub put-put : (f : ℕ) (a b : Fiber) (t : Thread) → put_fiber f a (put_fiber f b t) ≡ put_fiber f a t
put-put f a b t =
    ap (λ (m : ℕ → Option Fiber). record t { fibers = m })
      (fun_ext λ g. elim (Bool-cases (g == f)) [ inl same ↦ rw same | inr other ↦ rw other ])

-- The thread behind a fiber that was left for `o`.
abbrev pub left_for : ℕ → Fiber → Fiber → Thread → Thread
left_for f x y t = record (put_fiber f (record x { state = left_state x.state; ctx = t.stack }) t) {
  cur_fiber = t.cur_thread_fiber;
  stack = y.ctx;
}

yield-twice :
    (f : ℕ) (x : Fiber) (o : ℕ) (y : Fiber) (t : Thread)
    → t.fibers f ≡ some x
    → (is_term x.state || is_running x.state) ≡ true
    → owner x t ≡ some o
    → t.fibers o ≡ some y
    → o ≢ f
    → yield f t
      ≡ ok
          (record (put_fiber f
            (record x { state = left_state x.state; ctx = t.stack })
            (put_fiber f (record x { state = left_state x.state }) t)) {
              cur_fiber = t.cur_thread_fiber;
              stack = y.ctx;
            })
unfolding yield swapcontext
yield-twice f x o y t at fit owned there ne = ground (arith, ==_iff o f, ==_iff f o)

pub yield-leaves :
    (f : ℕ) (x : Fiber) (o : ℕ) (y : Fiber) (t : Thread)
    → t.fibers f ≡ some x
    → (is_term x.state || is_running x.state) ≡ true
    → owner x t ≡ some o
    → t.fibers o ≡ some y
    → o ≢ f
    → yield f t ≡ ok (left_for f x y t)
yield-leaves f x o y t at fit owned there ne =
    let x' : Fiber = record x { state = left_state x.state; ctx = t.stack } in
    let same = put-put f x' (record x { state = left_state x.state }) t in
    yield-twice f x o y t at fit owned there ne
    ∙ ap (λ (u : Thread). ok (record u { cur_fiber = t.cur_thread_fiber; stack = y.ctx })) same
