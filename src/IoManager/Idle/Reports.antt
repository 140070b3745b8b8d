-- ===== src/IoManager/Idle/Reports.antt =====
-- fiber/iomanager.cpp, lines 287 to 338: events that are registered are handled without a panic, and
-- what they trigger.
use mathlib.Core.List.{append-nil, append_assoc}
use kv_my.Common.Int.{minus_one}
use kv_my.Scheduler.{Job, SchedulerTask, Scheduler, is_task, is_nil, scheduler_no_lock, schedule}
use kv_my.Common.{
  Option, none, sym, ap, ◌++◌, if◌then◌else◌, ℕ, ◌≡◌, ◌≢◌, refl, ◌∙◌, List, [], ◌∷◌, some, Bool,
  true, false, ◌&&◌, ◌||◌, ok, get_elem?, get_elem?-some, get_elem?-set_self, get_elem?-set_ne, inl,
  inr, arith, Bool-cases, ◌==◌,
}
use kv_my.IoManager.{
  Event, read_event, write_event, FdContext, IoManager, has, slot, job_or_empty, reset_event,
  fire_if, Ready, real_read, real_write, handle_ready,
}
use kv_my.IoManager.Handlers.{without, scheduled, fire-on}
use kv_my.IoManager.Idle.{Woken, pipe, event, handle_woken}

abbrev other : Event → Event
other read_event = write_event
other write_event = read_event

has-reset_event : (e : Event) (c : FdContext) → has (other e) (reset_event e c) ≡ has (other e) c
unfolding reset_event
has-reset_event read_event c = refl
has-reset_event write_event c = refl

slot-reset_event : (e : Event) (c : FdContext) → slot (other e) (reset_event e c) ≡ slot (other e) c
unfolding reset_event
slot-reset_event read_event c = refl
slot-reset_event write_event c = refl

-- The contexts of other descriptors are as they were.
abbrev Others : ℕ → IoManager → IoManager → Type 0
Others fd io io' = (i : ℕ) → fd ≢ i → get_elem? io'.fd_contexts i ≡ get_elem? io.fd_contexts i

schedule-tasks :
    (t : SchedulerTask) (s : Scheduler)
    → (schedule t s).tasks ≡ s.tasks ++ (if is_task t.job then t ∷ [] else [])
unfolding schedule scheduler_no_lock
schedule-tasks t s = elim (Bool-cases (is_task t.job)) [
  | inl task ↦ elim (Bool-cases (is_nil s.tasks)) [
    | inl first ↦ rw (task, first) refl
    | inr behind ↦ rw (task, behind) refl
  ]
  | inr no_task ↦ elim (Bool-cases (is_nil s.tasks)) [
    | inl first ↦ rw (no_task, first) (sym (append-nil s.tasks))
    | inr behind ↦ rw (no_task, behind) (sym (append-nil s.tasks))
  ]
]

-- The task for what waits for an event: a fiber or a callback, for any thread.
abbrev pub task_of : Option Job → List SchedulerTask
task_of none = []
task_of (some j) = if is_task j then record { job = j; thread = minus_one } ∷ [] else []

scheduled-task_of :
    (e : Event) (c : FdContext) (s : Scheduler)
    → (scheduled e c s).tasks ≡ s.tasks ++ task_of (slot e c)
scheduled-task_of e c s =
    schedule-tasks (record { job = job_or_empty (slot e c); thread = minus_one }) s
    ∙ elim (slot e c)
        as (λ w.
          s.tasks
            ++ (if is_task (job_or_empty w)
                then record { job = job_or_empty w; thread = minus_one } ∷ []
                else [])
          ≡ s.tasks ++ task_of w) [ none ↦ refl | some j ↦ refl ]

fire_if-total :
    (b : Bool) (fd : ℕ) (e : Event) (c : FdContext) (io : IoManager)
    → get_elem? io.fd_contexts fd ≡ some c
    → (b ≡ true → has e c ≡ true)
    → (io' : IoManager) × (c' : FdContext) × (fire_if b fd e io ≡ ok io')
      × (get_elem? io'.fd_contexts fd ≡ some c')
      × (has (other e) c' ≡ has (other e) c)
      × (slot (other e) c' ≡ slot (other e) c)
      × Others fd io io'
      × (io'.scheduler.tasks ≡ io.scheduler.tasks ++ (if b then task_of (slot e c) else []))
unfolding fire_if
fire_if-total false fd e c io at on =
    (io, c, refl, at, refl, refl, λ i ne. refl, sym (append-nil io.scheduler.tasks))
fire_if-total true fd e c io at on = (
  without fd e c (scheduled e c io.scheduler) io,
  reset_event e c,
  fire-on fd e c io at (on refl),
  get_elem?-set_self io.fd_contexts fd (reset_event e c) (get_elem?-some io.fd_contexts fd c at),
  has-reset_event e c,
  slot-reset_event e c,
  λ i ne. get_elem?-set_ne io.fd_contexts (reset_event e c) ne,
  scheduled-task_of e c io.scheduler,
)

-- What epoll says of a descriptor is registered in its context.
pub record IsRegistered (r : Ready) (c : FdContext) : Type 0 where
  pub reads : r.readable ≡ true → c.on_read ≡ true
  pub writes : r.writable ≡ true → c.on_write ≡ true

registered_read :
    (r : Ready) (c : FdContext) → IsRegistered r c → real_read r c ≡ true → has read_event c ≡ true
registered_read r c is real = let reads = is.reads in ground arith

registered_write :
    (r : Ready) (c : FdContext)
    → IsRegistered r c
    → real_write r c ≡ true
    → has write_event c ≡ true
registered_write r c is real = let writes = is.writes in ground arith

-- What the events that have happened at a descriptor trigger where they are registered in its
-- context: the reader, then the writer. An error or a hang-up wakes both.
abbrev pub woken_tasks : Ready → FdContext → List SchedulerTask
woken_tasks r c =
    (if c.on_read && (r.readable || r.broken) then task_of c.read else [])
    ++ (if c.on_write && (r.writable || r.broken) then task_of c.write else [])

real_read_lem :
    (r : Ready) (c : FdContext)
    → IsRegistered r c
    → real_read r c ≡ c.on_read && (r.readable || r.broken)
real_read_lem r c is = let reads = is.reads in ground arith

real_write_lem :
    (r : Ready) (c : FdContext)
    → IsRegistered r c
    → real_write r c ≡ c.on_write && (r.writable || r.broken)
real_write_lem r c is = let writes = is.writes in ground arith

handle_ready-total :
    (fd : ℕ) (r : Ready) (ret : ℕ) (c : FdContext) (io : IoManager)
    → get_elem? io.fd_contexts fd ≡ some c
    → IsRegistered r c
    → (io' : IoManager) × (handle_ready fd r ret io ≡ ok io')
      × Others fd io io'
      × (io'.scheduler.tasks ≡ io.scheduler.tasks ++ (if ret == 0 then woken_tasks r c else []))
unfolding handle_ready
handle_ready-total fd r ret c io at is =
    let reads = c.on_read && (r.readable || r.broken) in
    let writes = c.on_write && (r.writable || r.broken) in
    elim (Bool-cases ((c.on_read && real_read r c || c.on_write && real_write r c) && ret == 0)) [
      | inl on ↦
          let (io1, c1, first, at1, kept, same, others1, read_task) =
            fire_if-total (real_read r c) fd read_event c io at (registered_read r c is) in
          let (io2, c2, second, at2, kept2, same2, others2, write_task) =
            fire_if-total (real_write r c) fd write_event c1 io1 at1
              (λ real. kept ∙ registered_write r c is real) in
          let no_error : (ret == 0) ≡ true = ground arith in
          (
            io2,
            rw (at, on, first) second,
            λ i ne. others2 i ne ∙ others1 i ne,
            write_task
                ∙ ap (λ ts. ts ++ (if real_write r c then task_of c1.write else [])) read_task
                ∙ append_assoc io.scheduler.tasks (if real_read r c then task_of c.read else [])
                    (if real_write r c then task_of c1.write else [])
                ∙ rw (no_error, same, real_read_lem r c is, real_write_lem r c is) refl,
          )
      | inr off ↦ (
        io,
        rw (at, off) refl,
        λ i ne. refl,
        elim (Bool-cases (ret == 0)) [
          | inl no_error ↦
              let no_read : reads ≡ false = let real = real_read_lem r c is in ground arith in
              let no_write : writes ≡ false = let real = real_write_lem r c is in ground arith in
              rw (no_error, no_read, no_write) (sym (append-nil io.scheduler.tasks))
          | inr failed ↦ rw failed (sym (append-nil io.scheduler.tasks))
        ],
      )
    ]

-- The events of epoll_wait, of each descriptor once, are registered.
abbrev pub Reports : List Woken → (ℕ → FdContext → Type 0) → Type 0
Reports [] at = Unit
Reports (pipe ∷ ws) at = Reports ws at
Reports (event fd r ret ∷ ws) at =
    ((c : FdContext) × at fd c × IsRegistered r c) × Reports ws (λ i c. (fd ≢ i) × at i c)

Reports-map :
    (ws : List Woken) (at at' : ℕ → FdContext → Type 0)
    → ((i : ℕ) (c : FdContext) → at i c → at' i c)
    → Reports ws at
    → Reports ws at'
Reports-map [] at at' h r = tt
Reports-map (pipe ∷ ws) at at' h r = Reports-map ws at at' h r
Reports-map (event fd re ret ∷ ws) at at' h r =
    let ((c, there, is), rest) = r in
    (
      (c, h fd c there, is),
      Reports-map ws (λ i c. (fd ≢ i) × at i c) (λ i c. (fd ≢ i) × at' i c)
          (λ i c both. (both.0, h i c both.1)) rest,
    )

-- A descriptor has a context.
abbrev pub Has : IoManager → ℕ → FdContext → Type 0
Has io fd c = get_elem? io.fd_contexts fd ≡ some c

-- What the events that epoll_wait hands out trigger, one after the other, where the epoll_ctl for
-- them succeeds.
unfoldable pub triggered : List Woken → List FdContext → List SchedulerTask
triggered [] contexts = []
triggered (pipe ∷ ws) contexts = triggered ws contexts
triggered (event fd r ret ∷ ws) contexts =
    (if ret == 0 then elim (get_elem? contexts fd) [ none ↦ [] | some c ↦ woken_tasks r c ] else [])
    ++ triggered ws contexts

woken_from :
    (ws : List Woken) (contexts : List FdContext) (io : IoManager)
    → Reports ws (λ i c. Has io i c × (get_elem? contexts i ≡ some c))
    → (io' : IoManager) × (handle_woken ws io ≡ ok io')
      × (io'.scheduler.tasks ≡ io.scheduler.tasks ++ triggered ws contexts)
unfolding handle_woken triggered
woken_from [] contexts io r = (io, refl, sym (append-nil io.scheduler.tasks))
woken_from (pipe ∷ ws) contexts io r = woken_from ws contexts io r
woken_from (event fd re ret ∷ ws) contexts io r =
    let ((c, (at, first), is), rest) = r in
    let (io1, one, others, task) = handle_ready-total fd re ret c io at is in
    let (io2, more, tasks) = woken_from ws contexts io1 (
      Reports-map ws (λ i c. (fd ≢ i) × (Has io i c × (get_elem? contexts i ≡ some c)))
        (λ i c. Has io1 i c × (get_elem? contexts i ≡ some c))
        (λ i c both. (others i both.0 ∙ both.1.0, both.1.1)) rest) in
    (
      io2,
      rw one more,
      tasks
          ∙ ap (λ ts. ts ++ triggered ws contexts) task
          ∙ append_assoc io.scheduler.tasks (if ret == 0 then woken_tasks re c else [])
              (triggered ws contexts)
          ∙ rw first refl,
    )

pub handle_woken-triggered :
    (ws : List Woken) (io : IoManager)
    → Reports ws (Has io)
    → (io' : IoManager) × (handle_woken ws io ≡ ok io')
      × (io'.scheduler.tasks ≡ io.scheduler.tasks ++ triggered ws io.fd_contexts)
handle_woken-triggered ws io r = woken_from ws io.fd_contexts io (
    Reports-map ws (Has io) (λ i c. Has io i c × (get_elem? io.fd_contexts i ≡ some c))
      (λ i c has. (has, has)) r)
