-- ===== src/IoManager/Handlers.antt =====
-- fiber/iomanager.cpp: each operation keeps the count of the pending events.
use kv_my.Common.{
  ℕ, ◌-◌, ◌≡◌, refl, none, some, Bool, true, false, not, ◌&&◌, ◌||◌, ok, assert_failed, my_assert,
  >>=-eq-ok, ok_unique, read_at, set, get_elem?, arith, inl, inr, Bool-cases, Option-cases, ◌==◌,
}
use kv_my.Common.Int.{minus_one}
use kv_my.Scheduler.{Scheduler, schedule}
use kv_my.IoManager.{
  Event, read_event, write_event, FdContext, IoManager, has, slot, job_or_empty, reset_event,
  trigger_event, fire, fire_if, fire_all, Ready, real_read, real_write, handle_ready,
}
use kv_my.IoManager.Counts.{
  Counts, registered-set, set-IsPaired, get_elem?-IsPaired, reset_event-IsPaired, waits-reset_event,
}

-- An event less is registered and pending.
abbrev pub without : ℕ → Event → FdContext → Scheduler → IoManager → IoManager
without fd e c s io = record io {
  pending_event_cnt = io.pending_event_cnt - 1;
  fd_contexts = set io.fd_contexts fd (reset_event e c);
  scheduler = s;
}

pub without-Counts :
    (fd : ℕ) (e : Event) (c : FdContext) (s : Scheduler) (io : IoManager)
    → Counts io
    → get_elem? io.fd_contexts fd ≡ some c
    → has e c ≡ true
    → Counts (without fd e c s io)
without-Counts fd e c s io is at on = record {
  pending = omega (
    arith,
    is.pending,
    registered-set io.fd_contexts fd c (reset_event e c) at,
    waits-reset_event e c on,
  );
  paired =
      set-IsPaired io.fd_contexts fd (reset_event e c) is.paired
        (reset_event-IsPaired e c (get_elem?-IsPaired io.fd_contexts fd c is.paired at));
}

abbrev pub scheduled : Event → FdContext → Scheduler → Scheduler
scheduled e c s = schedule (record { job = job_or_empty (slot e c); thread = minus_one }) s

-- An event that is registered is fired without a panic.
pub fire-on :
    (fd : ℕ) (e : Event) (c : FdContext) (io : IoManager)
    → get_elem? io.fd_contexts fd ≡ some c
    → has e c ≡ true
    → fire fd e io ≡ ok (without fd e c (scheduled e c io.scheduler) io)
unfolding fire trigger_event
fire-on fd e c io at on = rw (at, on)

-- One that is not is a panic.
pub fire-off :
    (fd : ℕ) (e : Event) (c : FdContext) (io : IoManager)
    → get_elem? io.fd_contexts fd ≡ some c
    → has e c ≡ false
    → fire fd e io ≡ assert_failed
unfolding fire trigger_event
fire-off fd e c io at off = rw (at, off)

fire-none :
    (fd : ℕ) (e : Event) (io : IoManager) {io' : IoManager}
    → get_elem? io.fd_contexts fd ≡ none
    → fire fd e io ≡ ok io'
    → ⊥
unfolding fire
fire-none fd e io at done = let n = rw at at done in cc

pub fire-Counts :
    (fd : ℕ) (e : Event) (io io' : IoManager) → Counts io → fire fd e io ≡ ok io' → Counts io'
fire-Counts fd e io io' is done = elim (Option-cases (get_elem? io.fd_contexts fd)) [
  | inl at ↦ absurd (fire-none fd e io at done)
  | inr (c, at) ↦ elim (Bool-cases (has e c)) [
    | inl on ↦
        let next = without fd e c (scheduled e c io.scheduler) io in
        let same : next ≡ io' = ok_unique (fire-on fd e c io at on) done in
        rw (← same) (without-Counts fd e c (scheduled e c io.scheduler) io is at on)
    | inr off ↦ absurd (let panic = fire-off fd e c io at off in cc)
  ]
]

fire_if-Counts :
    (b : Bool) (fd : ℕ) (e : Event) (io io' : IoManager)
    → Counts io
    → fire_if b fd e io ≡ ok io'
    → Counts io'
fire_if-Counts true fd e io io' is done =
    fire-Counts fd e io io' is (let d = done in unfold fire_if in d)
fire_if-Counts false fd e io io' is done = rw (← kept done) is
  where
    kept : fire_if false fd e io ≡ ok io' → io ≡ io'
    kept d = unfold fire_if in cc

pub fire_all-Counts :
    (fd : ℕ) (io io' : IoManager) → Counts io → fire_all fd io ≡ ok io' → Counts io'
unfolding fire_all
fire_all-Counts fd io io' is done =
    let (c, at, d0) = >>=-eq-ok (read_at io.fd_contexts fd) _ done in
    let (io1, e1, d1) = >>=-eq-ok (fire_if c.on_read fd read_event io) _ d0 in
    let (c1, at1, d2) = >>=-eq-ok (read_at io1.fd_contexts fd) _ d1 in
    let (io2, e2, d3) = >>=-eq-ok (fire_if c1.on_write fd write_event io1) _ d2 in
    let (c2, at2, d4) = >>=-eq-ok (read_at io2.fd_contexts fd) _ d3 in
    let (u, clear, d5) = >>=-eq-ok (my_assert (not (c2.on_read || c2.on_write))) _ d4 in
    let same : io2 ≡ io' = ok_unique refl d5 in
    let is1 = fire_if-Counts c.on_read fd read_event io io1 is e1 in
    rw (← same) (fire_if-Counts c1.on_write fd write_event io1 io2 is1 e2)

pub handle_ready-Counts :
    (fd : ℕ) (r : Ready) (ret : ℕ) (io io' : IoManager)
    → Counts io
    → handle_ready fd r ret io ≡ ok io'
    → Counts io'
unfolding handle_ready
handle_ready-Counts fd r ret io io' is done =
    let (c, at, d) = >>=-eq-ok (read_at io.fd_contexts fd) _ done in
    elim (Bool-cases ((c.on_read && real_read r c || c.on_write && real_write r c) && ret == 0)) [
      | inl fired ↦
          let (io1, e1, e2) =
            >>=-eq-ok (fire_if (real_read r c) fd read_event io) _ (rw fired at d) in
          let is1 = fire_if-Counts (real_read r c) fd read_event io io1 is e1 in
          fire_if-Counts (real_write r c) fd write_event io1 io' is1 e2
      | inr skipped ↦ let same : io ≡ io' = ok_unique refl (rw skipped at d) in rw (← same) is
    ]
