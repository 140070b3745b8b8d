-- ===== src/Fiber/Pool/Steps.antt =====
-- fiber/fiber.cpp: any operations on the fibers of a thread of the pool, one after the other.
use kv_my.Common.{
  ℕ, ◌≡◌, ◌≢◌, refl, ap, sym, subst, ◌∙◌, some, Bool, ok, inl, inr, arith, Bool-cases, ◌==◌, ==_iff,
}
use kv_my.Fiber.{
  Fiber, Thread, ready, running, new_fiber, get_this, get_this_of, resume, yield, main_func_end,
  reset, destroy,
}
use kv_my.Fiber.Switches.{entered, resume-enters, left_for, yield-leaves, differs}
use kv_my.Fiber.Pool.{Flat, owner-Flat, get_this-Flat, entered-Flat}
use kv_my.Fiber.Pool.Kept.{
  on_main, off_main, enter-Flat, leave-Flat, finish-Flat, again-Flat, drop-Flat, create-Flat,
}

-- What a thread of the pool does with its fibers: its own fiber makes, resumes, resets and destroys
-- others; the one that runs yields, or comes to its end.
pub data Step (t : Thread) : Thread → Type 0 where
  create : (cb : ℕ) (in_scheduler : Bool) → Step t (new_fiber cb in_scheduler t).1
  enter :
      (f : ℕ) {t' : Thread}
      → t.cur_scheduler_fiber ≡ some t.stack
      → f ≢ t.stack
      → resume f t ≡ ok t'
      → Step t t'
  leave :
      (junk : Bool) {t' : Thread}
      → t.cur_scheduler_fiber ≢ some t.stack
      → yield (get_this junk t).0 t ≡ ok t'
      → Step t t'
  finish :
      {t' : Thread}
      → t.cur_scheduler_fiber ≢ some t.stack
      → main_func_end t.stack t ≡ ok t'
      → Step t t'
  again :
      (f cb : ℕ) {t' : Thread}
      → t.cur_scheduler_fiber ≡ some t.stack
      → reset f cb t ≡ ok t'
      → Step t t'
  drop :
      (f : ℕ) {t' : Thread}
      → t.cur_scheduler_fiber ≡ some t.stack
      → f ≢ t.stack
      → destroy f t ≡ ok t'
      → Step t t'

-- Whatever a thread of the pool does with its fibers, its own fiber stays as it is, another one is
-- RUNNING only while the thread is on its stack, GetThis gives the fiber on whose stack the thread
-- is, and a READY fiber and, while another one runs, the thread's own go on where they were left.
pub step-Flat : {m : ℕ} {t t' : Thread} → Flat m t → Step t t' → Flat m t'
step-Flat flat (create cb s) = create-Flat flat cb s
step-Flat flat (enter f here ne done) =
    let main = on_main flat here in enter-Flat flat f main (λ e. ne (e ∙ sym main)) done
step-Flat {m} {t} {t'} flat (leave junk away done) =
    leave-Flat flat (off_main flat away)
      (subst (λ r. yield r.0 t ≡ ok t') (get_this-Flat junk flat) done)
step-Flat flat (finish away done) = finish-Flat flat (off_main flat away) done
step-Flat flat (again f cb here done) = again-Flat flat f cb (on_main flat here) done
step-Flat flat (drop f here ne done) =
    let main = on_main flat here in drop-Flat flat f main (λ e. ne (e ∙ sym main)) done

-- On a thread of the pool that is on its own stack, resume of a fiber that is READY returns: the
-- thread is then on the fiber's stack, and GetThis gives the fiber. Its yield returns too, leaves the
-- thread on its own stack, with its own fiber as GetThis, and every fiber but that as it was.
pub resume-yield :
    {m : ℕ} {t : Thread} (junk : Bool) (f : ℕ) (x : Fiber)
    → Flat m t
    → t.stack ≡ m
    → f ≢ m
    → t.fibers f ≡ some x
    → x.state ≡ ready
    → (t1 : Thread) × (resume f t ≡ ok t1)
      × (t1.stack ≡ f)
      × (get_this junk t1 ≡ (f, t1))
      × (t2 : Thread) × (yield f t1 ≡ ok t2)
      × (t2.stack ≡ m)
      × (get_this junk t2 ≡ (m, t2))
      × ((g : ℕ) → g ≢ m → t2.fibers g ≡ t.fibers g)
unfolding get_this get_this_of
resume-yield {m} {t} junk f x flat main ne at is_ready =
    let (stacked, runs, waits) = flat.others f x ne at in
    let own = waits is_ready in
    let away : m ≢ f = λ e. ne (sym e) in
    let t1 : Thread = entered f x m flat.main t in
    let flat1 : Flat m t1 = entered-Flat flat f x main ne at in
    let x1 : Fiber = record x { state = running } in
    let there : t1.fibers f ≡ some x1 = rw (differs ne, (==_iff f f).1 refl) in
    let t2 : Thread = left_for f x1 (record flat.main { ctx = t.stack }) t1 in
    (
      t1,
      resume-enters f x m flat.main t at is_ready own (owner-Flat flat x) flat.main_at away,
      refl,
      refl,
      t2,
      yield-leaves f x1 m (record flat.main { ctx = t.stack }) t1 there refl (owner-Flat flat1 x1)
          (rw ((==_iff m m).1 refl)) away,
      main,
      ap (λ c. get_this_of c junk t2) flat.thread,
      λ g other. elim (Bool-cases (g == f)) [
        | inl same ↦
            let e : g ≡ f = (==_iff g f).0 same in
            let kept : record x { state = ready; ctx = f } ≡ x = ground arith in
            rw same (ap (λ y. some y) kept ∙ sym at ∙ ap t.fibers (sym e))
        | inr different ↦ rw (different, differs other)
      ],
    )
