-- ===== src/Fiber/Pool/Kept.antt =====
-- fiber/fiber.cpp: what each operation on the fibers of a thread of the pool keeps.
use kv_my.Common.{
  ℕ, ◌+◌, ◌-◌, ◌<◌, ◌≡◌, ◌≢◌, refl, ap, sym, subst, ◌∙◌, Option, none, some, Bool, true, false,
  Outcome, ok, ok_unique, ◌>>=◌, >>=-eq-ok, my_assert, of_option, inl, inr, arith, Bool-cases, ◌==◌,
  ==_iff, not, ◌&&◌,
}
use kv_my.Fiber.{
  Fiber, Thread, State, left_state, put_fiber, fiber_at, is_term, is_running, ready, running, term,
  new_fiber, resume, yield, main_func_end, reset, destroy,
}
use kv_my.Fiber.Switches.{resume-enters, yield-leaves, differs, put-put}
use kv_my.Fiber.Pool.{
  Flat, owner-Flat, entered-Flat, behind, behind-Flat, update-Flat, left_state-ne-running,
}

found : (o : Option Fiber) (x : Fiber) → of_option o ≡ ok x → o ≡ some x
found none x h = cc
found (some y) x h = cc

asserted :
    {A : Type 0} (b : Bool) (rest : Outcome A) {end : A}
    → (my_assert b >>= λ held. rest) ≡ ok end
    → (b ≡ true) × (rest ≡ ok end)
asserted true rest h = (refl, h)
asserted false rest h = cc

ready_of : (s : State) → (not (is_term s) && not (is_running s)) ≡ true → s ≡ ready
ready_of ready h = refl
ready_of running h = cc
ready_of term h = cc

-- What a fiber that resume takes is.
resumed :
    (f : ℕ) (t t' : Thread)
    → resume f t ≡ ok t'
    → (x : Fiber) × (t.fibers f ≡ some x) × (x.state ≡ ready)
unfolding resume
resumed f t t' done =
    let (x, at, rest) = >>=-eq-ok (fiber_at t f) _ done in
    (
      x,
      found (t.fibers f) x at,
      ready_of x.state (asserted (not (is_term x.state) && not (is_running x.state)) _ rest).0,
    )

module _ {m : ℕ} {t : Thread} (flat : Flat m t) where
  pub on_main : t.cur_scheduler_fiber ≡ some t.stack → t.stack ≡ m
  on_main here = let e : some t.stack ≡ some m = sym here ∙ flat.scheduler in cc

  pub off_main : t.cur_scheduler_fiber ≢ some t.stack → t.stack ≢ m
  off_main away e = away (flat.scheduler ∙ ap (λ c. some c) (sym e))

module _ {m : ℕ} {t t' : Thread} (flat : Flat m t) where
  pub enter-Flat : (f : ℕ) → t.stack ≡ m → f ≢ m → resume f t ≡ ok t' → Flat m t'
  enter-Flat f main ne done =
      let (x, at, is_ready) = resumed f t t' done in
      let (stacked, runs, waits) = flat.others f x ne at in
      let enters =
        resume-enters f x m flat.main t at is_ready (waits is_ready) (owner-Flat flat x)
          flat.main_at (λ e. ne (sym e)) in
      subst (Flat m) (ok_unique enters done) (entered-Flat flat f x main ne at)

  pub leave-Flat : t.stack ≢ m → yield t.stack t ≡ ok t' → Flat m t'
  leave-Flat away done =
      let (x, at, runs) = flat.alive away in
      let leaves =
        yield-leaves t.stack x m flat.main t at (rw runs) (owner-Flat flat x) flat.main_at
          (λ e. away (sym e)) in
      subst (Flat m) (ok_unique leaves done) (
        behind-Flat flat (record x { state = left_state x.state; ctx = t.stack }) away
          (flat.numbered t.stack x at) (flat.others t.stack x away at).0
          (left_state-ne-running x.state) refl)

  pub finish-Flat : t.stack ≢ m → main_func_end t.stack t ≡ ok t' → Flat m t'
  unfolding main_func_end
  finish-Flat away done =
      let (x, at, runs) = flat.alive away in
      let x1 : Fiber = record x { cb = none; state = term } in
      let x2 : Fiber = record x1 { ctx = t.stack } in
      let t1 : Thread = put_fiber t.stack x1 t in
      let ended : yield t.stack t1 ≡ ok t' = rw at at done in
      let leaves =
        yield-leaves t.stack x1 m flat.main t1 (rw ((==_iff t.stack t.stack).1 refl)) refl
          (owner-Flat flat x1) (rw (differs (λ (e : m ≡ t.stack). away (sym e))) flat.main_at)
          (λ e. away (sym e)) in
      let same : ok (behind t.stack x2 flat.main t) ≡ ok t' =
        ap (λ (u : Thread). ok (record u { cur_fiber = t.cur_thread_fiber; stack = flat.main.ctx }))
          (sym (put-put t.stack x2 x1 t))
        ∙ sym leaves
        ∙ ended in
      subst (Flat m) (ok_unique refl same) (
        behind-Flat flat x2 away (flat.numbered t.stack x at) (flat.others t.stack x away at).0
          (λ r. cc) refl)

  pub again-Flat : (f cb : ℕ) → t.stack ≡ m → reset f cb t ≡ ok t' → Flat m t'
  unfolding reset
  again-Flat f cb main done =
      let (x, at, rest) = >>=-eq-ok (fiber_at t f) _ done in
      let there = found (t.fibers f) x at in
      let (stacked, rest1) = asserted x.has_stack _ rest in
      let (ended, made) = asserted (is_term x.state) _ rest1 in
      let ne : f ≢ m = λ e.
        let same : some x ≡ some flat.main = sym there ∙ ap t.fibers e ∙ flat.main_at in
        let bare = flat.main_bare in ground arith in
      subst (Flat m) (ok_unique refl made) (
        update-Flat flat f (some (record x { cb = some cb; ctx = f; state = ready })) t.cur_fiber_id
          t.fiber_count ne (λ e. ne (e ∙ main)) (omega arith)
          λ y same.
            let e : record x { cb = some cb; ctx = f; state = ready } ≡ y = cc in
            rw (← e) (stacked, λ r. cc, λ r. refl, flat.numbered f x there))

  pub drop-Flat : (f : ℕ) → t.stack ≡ m → f ≢ m → destroy f t ≡ ok t' → Flat m t'
  unfolding destroy
  drop-Flat f main ne done =
      let (x, at, rest) = >>=-eq-ok (fiber_at t f) _ done in
      let there = found (t.fibers f) x at in
      let (stacked, runs, waits) = flat.others f x ne there in
      let (ended, made) = asserted (is_term x.state) _ (rw stacked at rest) in
      subst (Flat m) (ok_unique refl made) (
        update-Flat flat f none t.cur_fiber_id (t.fiber_count - 1) ne (λ e. ne (e ∙ main))
          (omega arith) λ y h. cc)

stack-numbered : {m : ℕ} {t : Thread} → Flat m t → t.stack < t.cur_fiber_id
stack-numbered {m} {t} flat = elim (Bool-cases (t.stack == m)) [
  | inl same ↦
      let e = (==_iff t.stack m).0 same in
      let known = flat.numbered m flat.main flat.main_at in omega arith
  | inr other ↦
      let (x, at, runs) = flat.alive (λ e. let same = (==_iff t.stack m).1 e in cc) in
      flat.numbered t.stack x at
]

pub create-Flat :
    {m : ℕ} {t : Thread} (flat : Flat m t) (cb : ℕ) (s : Bool) → Flat m (new_fiber cb s t).1
unfolding new_fiber
create-Flat {m} {t} flat cb s =
    let f = t.cur_fiber_id in
    update-Flat flat f
      (some (record {
        state = ready;
        has_stack = true;
        cb = some cb;
        is_run_in_scheduler = s;
        ctx = f;
      }))
      (f + 1) (t.fiber_count + 1)
      (λ e. let known = flat.numbered m flat.main flat.main_at in omega arith)
      (λ e. let known = stack-numbered flat in omega arith) (omega arith)
      λ y same.
        let e : record {
          state = ready;
          has_stack = true;
          cb = some cb;
          is_run_in_scheduler = s;
          ctx = f;
        }
            ≡ y =
          cc in
        rw (← e) (refl, λ r. cc, λ r. refl, omega arith)
