-- ===== src/IoManager/Branches.antt =====
-- fiber/iomanager.cpp, lines 71 to 184: addEvent, delEvent and cancelEvent on each branch.
use kv_my.Common.{
  ℕ, ◌+◌, ◌≡◌, ap, ◌∙◌, sym, none, some, Bool, true, false, ◌&&◌, Outcome, ok, assert_failed,
  out_of_range, ok_unique, length, set, get_elem?, get_elem?-lt, arith, inl, inr, Bool-cases,
  Option-cases, leb, ◌==◌,
}
use kv_my.Scheduler.{Job}
use kv_my.IoManager.{
  Event, FdContext, IoManager, has, slot, is_none, set_event, grown, register, add_event, del_event,
  cancel_event,
}
use kv_my.IoManager.Counts.{
  Counts, registered-set, set-IsPaired, get_elem?-IsPaired, set_event-IsPaired, waits-set_event,
  slot_free, grown-Counts,
}
use kv_my.IoManager.Handlers.{without, without-Counts, scheduled, fire-on}

-- The state once an event is registered.
abbrev pub with_event : ℕ → Event → Job → FdContext → IoManager → IoManager
with_event fd e j c io = record io {
  pending_event_cnt = io.pending_event_cnt + 1;
  fd_contexts = set (grown fd io.fd_contexts) fd (set_event e j c);
}

-- A call has one state that it ends in.
pub ended :
    {m : Outcome (Bool × IoManager)} {a b : Bool} {x y : IoManager}
    → m ≡ ok (a, x)
    → m ≡ ok (b, y)
    → x ≡ y
ended p q = ap (λ r. r.1) (ok_unique p q)

module _ (fd : ℕ) (e : Event) (io : IoManager) where
  module _ (j : Job) (ret : ℕ) where
    pub add_event-none :
        get_elem? (grown fd io.fd_contexts) fd ≡ none → add_event fd e j ret io ≡ out_of_range
    unfolding add_event
    add_event-none at = rw at

    module _ (c : FdContext) (at : get_elem? (grown fd io.fd_contexts) fd ≡ some c) where
      -- An event that is registered already is a panic.
      pub add_event-twice : has e c ≡ true → add_event fd e j ret io ≡ assert_failed
      unfolding add_event
      add_event-twice on = rw (at, on)

      pub add_event-refused :
          has e c ≡ false
          → (ret == 0) ≡ false
          → add_event fd e j ret io
            ≡ ok (false, record io { fd_contexts = grown fd io.fd_contexts })
      unfolding add_event
      add_event-refused off failed = rw (at, off, failed)

      pub add_event-ok :
          has e c ≡ false
          → (ret == 0) ≡ true
          → is_none (slot e c) ≡ true
          → add_event fd e j ret io ≡ ok (true, with_event fd e j c io)
      unfolding add_event register
      add_event-ok off done free = rw (at, off, done, free)

    with_event-Counts :
        (c : FdContext)
        → Counts io
        → get_elem? (grown fd io.fd_contexts) fd ≡ some c
        → has e c ≡ false
        → Counts (with_event fd e j c io)
    with_event-Counts c is at off =
        let more = grown-Counts fd io.fd_contexts is.paired in
        record {
          pending = omega (
            arith,
            is.pending,
            more.0,
            registered-set (grown fd io.fd_contexts) fd c (set_event e j c) at,
            waits-set_event e j c off,
          );
          paired = set-IsPaired (grown fd io.fd_contexts) fd (set_event e j c) more.1 (
              set_event-IsPaired e j c
                (get_elem?-IsPaired (grown fd io.fd_contexts) fd c more.1 at));
        }

    pub add_event-Counts :
        (b : Bool) (io' : IoManager)
        → Counts io
        → add_event fd e j ret io ≡ ok (b, io')
        → Counts io'
    add_event-Counts b io' is done =
        let more = grown-Counts fd io.fd_contexts is.paired in
        elim (Option-cases (get_elem? (grown fd io.fd_contexts) fd)) [
          | inl at ↦ absurd (let none_there = add_event-none at in cc)
          | inr (c, at) ↦ elim (Bool-cases (has e c)) [
            | inl on ↦ absurd (let panic = add_event-twice c at on in cc)
            | inr off ↦ elim (Bool-cases (ret == 0)) [
              | inl taken ↦
                  let free =
                    slot_free e c (get_elem?-IsPaired (grown fd io.fd_contexts) fd c more.1 at)
                      off in
                  let same = ended (add_event-ok c at off taken free) done in
                  rw (← same) (with_event-Counts c is at off)
              | inr failed ↦
                  let same = ended (add_event-refused c at off failed) done in
                  rw (← same) (record { pending = is.pending ∙ sym more.0; paired = more.1 })
            ]
          ]
        ]

  module _ (ret : ℕ) where
    -- A deletion and a cancellation of what is not there.
    module _ (outside : leb (length io.fd_contexts) fd ≡ true) where
      del_event-outside : del_event fd e ret io ≡ ok (false, io)
      unfolding del_event
      del_event-outside = rw outside

      cancel_event-outside : cancel_event fd e ret io ≡ ok (false, io)
      unfolding cancel_event
      cancel_event-outside = rw outside

    module _ (inside : leb (length io.fd_contexts) fd ≡ false) (c : FdContext)
        (at : get_elem? io.fd_contexts fd ≡ some c) where
      del_event-kept : (has e c && ret == 0) ≡ false → del_event fd e ret io ≡ ok (false, io)
      unfolding del_event
      del_event-kept off = rw (inside, at, off)

      del_event-done :
          (has e c && ret == 0) ≡ true
          → del_event fd e ret io ≡ ok (true, without fd e c io.scheduler io)
      unfolding del_event
      del_event-done on = rw (inside, at, on)

      cancel_event-kept : (has e c && ret == 0) ≡ false → cancel_event fd e ret io ≡ ok (false, io)
      unfolding cancel_event
      cancel_event-kept off = rw (inside, at, off)

      pub cancel_event-done :
          (has e c && ret == 0) ≡ true
          → cancel_event fd e ret io ≡ ok (true, without fd e c (scheduled e c io.scheduler) io)
      unfolding cancel_event
      cancel_event-done on = rw (inside, at, on, fire-on fd e c io at (ground arith))

    inside_at :
        leb (length io.fd_contexts) fd ≡ false
        → (c : FdContext) × (get_elem? io.fd_contexts fd ≡ some c)
    inside_at inside = get_elem?-lt io.fd_contexts fd (ground arith)

    pub del_event-Counts :
        (b : Bool) (io' : IoManager) → Counts io → del_event fd e ret io ≡ ok (b, io') → Counts io'
    del_event-Counts b io' is done = elim (Bool-cases (leb (length io.fd_contexts) fd)) [
      | inl outside ↦ rw (← ended (del_event-outside outside) done) is
      | inr inside ↦
          let (c, at) = inside_at inside in
          elim (Bool-cases (has e c && ret == 0)) [
            | inl on ↦
                rw (← ended (del_event-done inside c at on) done)
                  (without-Counts fd e c io.scheduler io is at (ground arith))
            | inr off ↦ rw (← ended (del_event-kept inside c at off) done) is
          ]
    ]

    pub cancel_event-Counts :
        (b : Bool) (io' : IoManager)
        → Counts io
        → cancel_event fd e ret io ≡ ok (b, io')
        → Counts io'
    cancel_event-Counts b io' is done = elim (Bool-cases (leb (length io.fd_contexts) fd)) [
      | inl outside ↦ rw (← ended (cancel_event-outside outside) done) is
      | inr inside ↦
          let (c, at) = inside_at inside in
          elim (Bool-cases (has e c && ret == 0)) [
            | inl on ↦
                rw (← ended (cancel_event-done inside c at on) done)
                  (without-Counts fd e c (scheduled e c io.scheduler) io is at (ground arith))
            | inr off ↦ rw (← ended (cancel_event-kept inside c at off) done) is
          ]
    ]
