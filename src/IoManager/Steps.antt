-- ===== src/IoManager/Steps.antt =====
-- fiber/iomanager.cpp: the operations on events as steps, and when handling them panics.
use kv_my.Common.{
  ℕ, zero, suc, ◌<◌, ◌≡◌, refl, ap, ◌∙◌, sym, List, [], ◌∷◌, some, Bool, true, false, not, ◌&&◌,
  ◌||◌, ok, assert_failed, ◌>>=◌, >>=-eq-ok, length, get_elem?, get_elem?-lt, get_elem?-set_self,
  arith, inl, inr, Bool-cases, leb, ◌==◌,
}
use kv_my.Scheduler.{Job, Scheduler}
use kv_my.IoManager.{
  Event, read_event, write_event, FdContext, IoManager, reset_event, add_event, del_event, fire,
  fire_if, cancel_event, fire_all, cancel_all, Ready, handle_ready,
}
use kv_my.IoManager.Counts.{Counts}
use kv_my.IoManager.Handlers.{
  without, scheduled, fire-on, fire-off, fire_all-Counts, handle_ready-Counts,
}
use kv_my.IoManager.Branches.{ended, add_event-Counts, del_event-Counts, cancel_event-Counts}

module _ (fd ret : ℕ) (io : IoManager) where
  cancel_all-outside : leb (length io.fd_contexts) fd ≡ true → cancel_all fd ret io ≡ ok (false, io)
  unfolding cancel_all
  cancel_all-outside outside = rw outside

  module _ (inside : leb (length io.fd_contexts) fd ≡ false) (c : FdContext)
      (at : get_elem? io.fd_contexts fd ≡ some c) where
    cancel_all-kept :
        ((c.on_read || c.on_write) && ret == 0) ≡ false → cancel_all fd ret io ≡ ok (false, io)
    unfolding cancel_all
    cancel_all-kept off = rw (inside, at, off)

    cancel_all-fires :
        ((c.on_read || c.on_write) && ret == 0) ≡ true
        → cancel_all fd ret io
          ≡ ◌>>=◌ {B = Bool × IoManager} (fire_all fd io) (λ io'. ok (true, io'))
    unfolding cancel_all
    cancel_all-fires on = rw (inside, at, on)

  cancel_all-Counts :
      (b : Bool) (io' : IoManager) → Counts io → cancel_all fd ret io ≡ ok (b, io') → Counts io'
  cancel_all-Counts b io' is done = elim (Bool-cases (leb (length io.fd_contexts) fd)) [
    | inl outside ↦ rw (← ended (cancel_all-outside outside) done) is
    | inr inside ↦
        let (c, at) = get_elem?-lt io.fd_contexts fd (ground arith) in
        elim (Bool-cases ((c.on_read || c.on_write) && ret == 0)) [
          | inl on ↦
              let (io1, fired, e) =
                >>=-eq-ok {B = Bool × IoManager} (fire_all fd io) (λ x. ok (true, x))
                  (sym (cancel_all-fires inside c at on) ∙ done) in
              rw (← ended refl e) (fire_all-Counts fd io io1 is fired)
          | inr off ↦ rw (← ended (cancel_all-kept inside c at off) done) is
        ]
  ]

-- A call of the manager that returns.
pub data Step (io io' : IoManager) : Type 0 where
  add :
      (fd : ℕ) (e : Event) (j : Job) (ret : ℕ) (b : Bool)
      → add_event fd e j ret io ≡ ok (b, io')
      → Step io io'
  del :
      (fd : ℕ) (e : Event) (ret : ℕ) (b : Bool) → del_event fd e ret io ≡ ok (b, io') → Step io io'
  cancel :
      (fd : ℕ) (e : Event) (ret : ℕ) (b : Bool)
      → cancel_event fd e ret io ≡ ok (b, io')
      → Step io io'
  cancel_both : (fd ret : ℕ) (b : Bool) → cancel_all fd ret io ≡ ok (b, io') → Step io io'
  handle : (fd : ℕ) (r : Ready) (ret : ℕ) → handle_ready fd r ret io ≡ ok io' → Step io io'

-- Every call of addEvent, delEvent, cancelEvent and cancelAll and every event that idle handles, if
-- it returns, keeps pendingEventCnt_ the number of the registered events of all descriptors, and
-- something to schedule for exactly those events, whatever epoll_ctl results in.
pub step-Counts : {io io' : IoManager} → Step io io' → Counts io → Counts io'
step-Counts {io} {io'} (add fd e j ret b done) is = add_event-Counts fd e io j ret b io' is done
step-Counts {io} {io'} (del fd e ret b done) is = del_event-Counts fd e io ret b io' is done
step-Counts {io} {io'} (cancel fd e ret b done) is = cancel_event-Counts fd e io ret b io' is done
step-Counts {io} {io'} (cancel_both fd ret b done) is = cancel_all-Counts fd ret io b io' is done
step-Counts {io} {io'} (handle fd r ret done) is = handle_ready-Counts fd r ret io io' is done

lt_of_get_elem? :
    (cs : List FdContext) (i : ℕ) (c : FdContext) → get_elem? cs i ≡ some c → i < length cs
lt_of_get_elem? [] i c e = absurd (cc)
lt_of_get_elem? (x ∷ cs) zero c e = omega arith
lt_of_get_elem? (x ∷ cs) (suc i) c e = omega (arith, lt_of_get_elem? cs i c e)

-- Both events happened: the one is fired and then the other.
both_fired :
    (fd : ℕ) (r : Ready) (io : IoManager) (c : FdContext)
    → get_elem? io.fd_contexts fd ≡ some c
    → c.on_write ≡ not c.on_read
    → r.readable ≡ true
    → r.writable ≡ true
    → handle_ready fd r 0 io ≡ (fire fd read_event io >>= λ io1. fire fd write_event io1)
unfolding handle_ready fire_if
both_fired fd r io c at one can_read can_write = elim (Bool-cases c.on_read) [
  | inl on ↦ rw (at, one, can_read, can_write, on)
  | inr off ↦ rw (at, one, can_read, can_write, off)
]

-- The read event is gone from the context once it is fired.
after_read :
    (fd : ℕ) (io : IoManager) (c : FdContext) (s : Scheduler)
    → get_elem? io.fd_contexts fd ≡ some c
    → c.on_write ≡ false
    → fire fd write_event (without fd read_event c s io) ≡ assert_failed
after_read fd io c s at off =
    fire-off fd write_event (reset_event read_event c) (without fd read_event c s io)
      (get_elem?-set_self io.fd_contexts fd (reset_event read_event c)
        (lt_of_get_elem? io.fd_contexts fd c at))
      (unfold reset_event in off)

-- Where one of the two events of a descriptor is registered and epoll reports both, handling them
-- panics once epoll_ctl has succeeded: the events that happened are not limited to those registered.
pub handle_ready-panics :
    (fd : ℕ) (r : Ready) (io : IoManager) (c : FdContext)
    → get_elem? io.fd_contexts fd ≡ some c
    → c.on_write ≡ not c.on_read
    → r.readable ≡ true
    → r.writable ≡ true
    → handle_ready fd r 0 io ≡ assert_failed
handle_ready-panics fd r io c at one can_read can_write =
    both_fired fd r io c at one can_read can_write ∙ elim (Bool-cases c.on_read) [
      | inl on ↦
          rw (fire-on fd read_event c io at on)
            (after_read fd io c (scheduled read_event c io.scheduler) at (one ∙ ap not on))
      | inr off ↦ rw (fire-off fd read_event c io at off)
    ]
