-- ===== src/Hook/Sleeps.antt =====
-- fiber/hook.cpp, lines 149 to 191: sleep, usleep and nanosleep, which set a timer that schedules the
-- fiber again, and yield. The timer's address and the number of its callback are inputs.
pub mod Wakes
pub mod Tests
use kv_my.Common.{
  ℕ, ◌+◌, ◌*◌, ◌/◌, ◌%◌, ◌^◌, ◌≤◌, ◌<◌, ◌≡◌, refl, Bool, true, false, ◌&&◌, ◌||◌, Option, none,
  some, List, [], ◌∷◌, inl, inr, arith, Bool-cases, ==_iff, ltb, leb, ◌==◌, if◌then◌else◌,
}
use kv_my.Timers.{
  Timer, TimerManager, add64, before, insert_timer, add_timer_locked, add_timer, find,
}
use kv_my.Timers.Expiry.{keep, is_due}
use kv_my.IoManager.Idle.{to_int, to_uint64}

-- The milliseconds that are asked for, in the arithmetic of the source: an unsigned product of 32
-- bits, a quotient, and a sum that is cast to int.
abbrev pub sleep_ms : ℕ → ℕ
sleep_ms seconds = seconds * 1000 % 2 ^ 32

abbrev pub usleep_ms : ℕ → ℕ
usleep_ms usec = usec / 1000

abbrev pub nanosleep_ms : ℕ → ℕ → ℕ
nanosleep_ms sec nsec = to_uint64 (to_int (sec * 1000 + nsec / 1000 / 1000))

-- The original function is called; or there is no IOManager, whose null pointer is then followed; or
-- the fiber yields behind its timer, with the answer of addTimer.
pub data Slept : Type 0 where
  original no_manager : Slept
  parked : TimerManager → Bool → Slept

abbrev pub sleep_on : Option TimerManager → ℕ → ℕ → ℕ → ℕ → Slept
sleep_on none address ms cb now = no_manager
sleep_on (some m) address ms cb now =
    let (m', front) = add_timer m address ms cb false now in parked m' front

unfoldable pub sleep : Bool → Option TimerManager → ℕ → ℕ → ℕ → ℕ → Slept
sleep hook_enable m seconds address cb now =
    if hook_enable then sleep_on m address (sleep_ms seconds) cb now else original

unfoldable pub usleep : Bool → Option TimerManager → ℕ → ℕ → ℕ → ℕ → Slept
usleep hook_enable m usec address cb now =
    if hook_enable then sleep_on m address (usleep_ms usec) cb now else original

unfoldable pub nanosleep : Bool → Option TimerManager → ℕ → ℕ → ℕ → ℕ → ℕ → Slept
nanosleep hook_enable m sec nsec address cb now =
    if hook_enable then sleep_on m address (nanosleep_ms sec nsec) cb now else original

-- A timer that is not due does not change which are.
keep-insert_timer :
    (p : Timer → Bool) (t : Timer) (ts : List Timer)
    → p t ≡ false
    → keep p (insert_timer t ts) ≡ keep p ts
unfolding keep insert_timer
keep-insert_timer p t [] late = rw late refl
keep-insert_timer p t (u ∷ us) late = elim (Bool-cases (before t u)) [
  | inl front ↦ rw (front, late) refl
  | inr behind ↦ elim (Bool-cases (before u t)) [
    | inl later ↦ rw (behind, later, keep-insert_timer p t us late) refl
    | inr equal ↦ rw (behind, equal) refl
  ]
]

-- A timer with a new address that is due is among those that are.
find-keep :
    (p : Timer → Bool) (t : Timer) (ts : List Timer)
    → find t.address ts ≡ none
    → p t ≡ true
    → find t.address (keep p (insert_timer t ts)) ≡ some t
unfolding find keep insert_timer
find-keep p t [] new due = rw (due, (==_iff t.address t.address).1 refl) refl
find-keep p t (u ∷ us) new due = elim (Bool-cases (before t u)) [
  | inl front ↦ rw (front, due, (==_iff t.address t.address).1 refl) refl
  | inr behind ↦ elim (Bool-cases (u.address == t.address)) [
    | inl same ↦ absurd (let found = rw same at new in cc)
    | inr differ ↦ elim (Bool-cases (before u t)) [
      | inl later ↦ elim (Bool-cases (p u)) [
        | inl also ↦ rw (behind, later, also, differ) (find-keep p t us (rw differ at new) due)
        | inr not_yet ↦ rw (behind, later, not_yet) (find-keep p t us (rw differ at new) due)
      ]
      | inr equal ↦ absurd (let e : (u.address == t.address) ≡ true = ground arith in cc)
    ]
  ]
]

-- With the hooks on, and a timer at a new address, a sleep of some seconds, whose milliseconds fit 32
-- bits, adds nothing to the timers that are due before the seconds are over, and its own timer to
-- those that are due from then on.
pub sleep-is_due :
    (m : TimerManager) (seconds address cb now : ℕ)
    → find address m.timers ≡ none
    → seconds * 1000 < 2 ^ 32
    → now + seconds * 1000 < 2 ^ 64
    → (m' : TimerManager) × (front : Bool) × (sleep true (some m) seconds address cb now
        ≡ parked m' front)
      × ((later : ℕ)
          → later < now + seconds * 1000
          → keep (is_due later) m'.timers ≡ keep (is_due later) m.timers)
      × ((later : ℕ)
          → now + seconds * 1000 ≤ later
          → find address (keep (is_due later) m'.timers)
            ≡ some (record {
              address = address;
              recurring = false;
              ms = seconds * 1000;
              next = now + seconds * 1000;
              cb = cb;
            }))
unfolding sleep add_timer add_timer_locked
sleep-is_due m seconds address cb now new small fits =
    let t : Timer = record {
      address = address;
      recurring = false;
      ms = seconds * 1000;
      next = now + seconds * 1000;
      cb = cb;
    } in
    let ms : seconds * 1000 % 2 ^ 32 ≡ seconds * 1000 = omega arith in
    let next : (now + seconds * 1000) % 2 ^ 64 ≡ now + seconds * 1000 = omega arith in
    rw (ms, next)
      (
        _,
        _,
        refl,
        λ later early. keep-insert_timer (is_due later) t m.timers (ground arith),
        λ later over. find-keep (is_due later) t m.timers new (ground arith),
      )
