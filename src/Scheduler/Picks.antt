-- ===== src/Scheduler/Picks.antt =====
-- fiber/scheduler.cpp, lines 87 to 117: which task a thread takes.
use kv_my.Common.{
  ◌≡◌, refl, ap, List, [], ◌∷◌, ◌++◌, Option, none, some, Bool, true, false, not, ◌||◌, ok, All,
  inl, inr, Bool-cases,
}
use kv_my.Common.Int.{ℤ}
use kv_my.Scheduler.{SchedulerTask, Scheduler, is_task, is_ready, is_nil, is_bound, pick}

-- The tasks of a queue hold something, and their fibers are ready.
abbrev pub AreReady : List SchedulerTask → Type 0
AreReady = All λ t. (is_task t.job ≡ true) × (is_ready t.job ≡ true)

-- A thread takes a task with those for other threads in front of it, or none.
pub data Picked (id : ℤ) (ts : List SchedulerTask)
    : Option SchedulerTask → List SchedulerTask → Bool → Type 0 where
  one :
      (front behind : List SchedulerTask) (t : SchedulerTask)
      → ts ≡ front ++ t ∷ behind
      → All (λ u. is_bound id u ≡ true) front
      → is_bound id t ≡ false
      → Picked id ts (some t) (front ++ behind) (not (is_nil front) || not (is_nil behind))
  nothing : All (λ u. is_bound id u ≡ true) ts → Picked id ts none ts (not (is_nil ts))

skip :
    (id : ℤ) (t : SchedulerTask) (ts : List SchedulerTask) {o : Option SchedulerTask}
    {rest : List SchedulerTask} {tell : Bool}
    → is_bound id t ≡ true
    → Picked id ts o rest tell
    → Picked id (t ∷ ts) o (t ∷ rest) true
skip id t ts bound (one front behind u e a free) =
    one (t ∷ front) behind u (ap (◌∷◌ t) e) (bound, a) free
skip id t ts bound (nothing a) = nothing (bound, a)

pub pick-Picked :
    (id : ℤ) (ts : List SchedulerTask)
    → AreReady ts
    → (o : Option SchedulerTask) × (rest : List SchedulerTask) × (tell : Bool) × (pick id ts
        ≡ ok (o, rest, tell))
      × Picked id ts o rest tell
unfolding pick
pick-Picked id [] ready = (none, [], false, refl, nothing tt)
pick-Picked id (t ∷ ts) ready = elim (Bool-cases (is_bound id t)) [
  | inl bound ↦
      let (o, rest, tell, e, p) = pick-Picked id ts ready.1 in
      (o, t ∷ rest, true, rw (bound, e), skip id t ts bound p)
  | inr free ↦
      (some t, ts, not (is_nil ts), rw (free, ready.0.0, ready.0.1), one [] ts t refl tt free)
]
