-- ===== src/IoManager/Wakes.antt =====
-- fiber/iomanager.cpp: an event that addEvent registers wakes its job when it is cancelled.
use kv_my.Common.{
  ℕ, ◌≡◌, refl, some, true, false, ok, ok_unique, length, get_elem?, arith, inl, inr, Bool-cases,
  Option-cases, leb, ◌==◌, get_elem?-set_self, length-set, lt→leb-false, get_elem?-some,
}
use kv_my.Common.Int.{minus_one}
use kv_my.Scheduler.{Job, schedule}
use kv_my.IoManager.{
  Event, read_event, write_event, FdContext, IoManager, has, slot, set_event, grown, add_event,
  cancel_event,
}
use kv_my.IoManager.Counts.{Counts, get_elem?-IsPaired, slot_free, grown-Counts}
use kv_my.IoManager.Branches.{
  with_event, ended, add_event-none, add_event-twice, add_event-refused, add_event-ok,
  cancel_event-done,
}
use kv_my.IoManager.Handlers.{without, scheduled}

has-set_event : (e : Event) (j : Job) (c : FdContext) → has e (set_event e j c) ≡ true
unfolding set_event
has-set_event read_event j c = refl
has-set_event write_event j c = refl

slot-set_event : (e : Event) (j : Job) (c : FdContext) → slot e (set_event e j c) ≡ some j
unfolding set_event
slot-set_event read_event j c = refl
slot-set_event write_event j c = refl

-- What addEvent has done where it returns 0.
pub add_event-added :
    (fd : ℕ) (e : Event) (io io' : IoManager) (j : Job) (ret : ℕ)
    → Counts io
    → add_event fd e j ret io ≡ ok (true, io')
    → (c : FdContext) × (get_elem? (grown fd io.fd_contexts) fd ≡ some c)
      × (with_event fd e j c io ≡ io')
add_event-added fd e io io' j ret is done =
    let more = grown-Counts fd io.fd_contexts is.paired in
    elim (Option-cases (get_elem? (grown fd io.fd_contexts) fd)) [
      | inl at ↦ absurd (let none_there = add_event-none fd e io j ret at in cc)
      | inr (c, at) ↦ elim (Bool-cases (has e c)) [
        | inl on ↦ absurd (let panic = add_event-twice fd e io j ret c at on in cc)
        | inr off ↦ elim (Bool-cases (ret == 0)) [
          | inl taken ↦
              let free =
                slot_free e c (get_elem?-IsPaired (grown fd io.fd_contexts) fd c more.1 at) off in
              (c, at, ended (add_event-ok fd e io j ret c at off taken free) done)
          | inr failed ↦
              let kept = add_event-refused fd e io j ret c at off failed in
              absurd (let no = ok_unique kept done in cc)
        ]
      ]
    ]

pub cancel_event-wakes :
    (fd : ℕ) (e : Event) (io io' : IoManager) (j : Job) (ret : ℕ)
    → Counts io
    → add_event fd e j ret io ≡ ok (true, io')
    → (io'' : IoManager) × (cancel_event fd e 0 io' ≡ ok (true, io''))
      × (io''.scheduler ≡ schedule (record { job = j; thread = minus_one }) io.scheduler)
      × (io''.pending_event_cnt ≡ io.pending_event_cnt)
cancel_event-wakes fd e io io' j ret is done =
    let (c, at, same) = add_event-added fd e io io' j ret is done in
    let inside = get_elem?-some (grown fd io.fd_contexts) fd c at in
    let next = with_event fd e j c io in
    let c' = set_event e j c in
    let there : get_elem? next.fd_contexts fd ≡ some c' =
      get_elem?-set_self (grown fd io.fd_contexts) fd c' inside in
    let within : leb (length next.fd_contexts) fd ≡ false =
      lt→leb-false (length next.fd_contexts) fd
        (omega (arith, length-set (grown fd io.fd_contexts) fd c')) in
    rw (← same) (
      without fd e c' (scheduled e c' next.scheduler) next,
      cancel_event-done fd e next 0 within c' there (rw (has-set_event e j c)),
      rw (slot-set_event e j c),
      omega arith,
    )
