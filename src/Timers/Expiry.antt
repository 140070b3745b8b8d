-- ===== src/Timers/Expiry.antt =====
-- Which timers fire.
use native.Mathlib.Decide.{dec_lt}
use kv_my.Common.{
  ℕ, ◌+◌, ◌-◌, ◌≤◌, ◌<◌, ◌⊎◌, ◌≡◌, refl, ap, ◌∙◌, Bool, true, false, not, inl, inr, List, [], ◌∷◌,
  map, arith, Bool-cases, All, if◌then◌else◌, leb, lt→ltb,
}
use kv_my.Timers.{
  Timer, TimerManager, before, detect_clock_rolllover, split_due, first_later, rearm, expire,
  list_expired_cb, get_next_timer, wait_for, hour, sub64,
}
use kv_my.Timers.Order.{Ordered, List-cases}

-- The timers that pass a test, in their order.
unfoldable pub keep : (Timer → Bool) → List Timer → List Timer
keep p [] = []
keep p (t ∷ ts) = let rest = keep p ts in if p t then t ∷ rest else rest

abbrev pub is_due : ℕ → Timer → Bool
is_due now t = leb t.next now

abbrev pub is_later : ℕ → Timer → Bool
is_later now t = not (leb t.next now)

none-due :
    (now : ℕ) (a : Timer) (ts : List Timer)
    → leb a.next now ≡ false
    → All (λ u. before a u ≡ true) ts
    → (keep (is_due now) ts ≡ []) × (keep (is_later now) ts ≡ ts)
unfolding keep
none-due now a [] late all = (refl, refl)
none-due now a (t ∷ ts) late all =
    let rest = none-due now a ts late all.1 in
    let t_late : leb t.next now ≡ false = ground (arith, all.0) in
    rw (t_late, rest.0, rest.1) (refl, refl)

split_due-keep :
    (now : ℕ) (ts : List Timer)
    → Ordered ts
    → split_due now ts ≡ (keep (is_due now) ts, keep (is_later now) ts)
unfolding split_due keep
split_due-keep now [] o = refl
split_due-keep now (t ∷ ts) o = elim (Bool-cases (leb t.next now)) [
  | inl due ↦ rw (due, split_due-keep now ts o.1)
  | inr late ↦ let rest = none-due now t ts late o.0 in rw (late, rest.0, rest.1)
]

-- The set after the timers that are due have fired.
abbrev pub fired : ℕ → List Timer → List Timer
fired now ts = rearm now (keep (is_due now) ts) (keep (is_later now) ts)

first_later-none :
    (now : ℕ) (ts : List Timer)
    → Ordered ts
    → first_later now ts ≡ true
    → (keep (is_due now) ts ≡ []) × (keep (is_later now) ts ≡ ts)
unfolding keep
first_later-none now [] o later = (refl, refl)
first_later-none now (t ∷ ts) o later =
    let late : leb t.next now ≡ false = ground arith in
    let rest = none-due now t ts late o.0 in rw (late, rest.0, rest.1) (refl, refl)

expire-due :
    (m : TimerManager) (now : ℕ)
    → Ordered m.timers
    → expire m now false
      ≡ (record m { timers = fired now m.timers }, map (λ e. e.cb) (keep (is_due now) m.timers))
unfolding expire rearm
expire-due m now o = elim (Bool-cases (first_later now m.timers)) [
  | inl later ↦
      let none_fire = first_later-none now m.timers o later in rw (later, none_fire.0, none_fire.1)
  | inr due ↦ rw (due, split_due-keep now m.timers o)
]

-- Where the set is in order and the clock has not been turned back by more than an hour, the
-- callbacks that are handed out are those of the timers whose time has come, in the order of their
-- times, and of no other; the others stay, and of those that have fired the recurring ones are set
-- again.
pub list_expired_cb-due :
    (m : TimerManager) (now : ℕ)
    → Ordered m.timers
    → (detect_clock_rolllover m now).1 ≡ false
    → let done = list_expired_cb m now in
      (done.1 ≡ map (λ e. e.cb) (keep (is_due now) m.timers)) × (done.0.timers ≡ fired now m.timers)
unfolding list_expired_cb keep rearm
list_expired_cb-due m now o no_rollover =
    let found = detect_clock_rolllover m now in
    let handed : expire found.0 now found.1 ≡ (
      record found.0 { timers = fired now m.timers },
      map (λ e. e.cb) (keep (is_due now) m.timers),
    ) =
      ap (expire found.0 now) no_rollover
      ∙ unfold detect_clock_rolllover in (expire-due found.0 now o) in
    elim (List-cases m.timers) [
      | inl empty ↦ rw (handed, empty) (refl, refl)
      | inr (u, us, some_timer) ↦ rw (handed, some_timer) (refl, refl)
    ]

later-wait :
    (now r : ℕ) (u : Timer) (ts : List Timer)
    → r ≤ u.next - now
    → All (λ t. before u t ≡ true) ts
    → All (λ t. t.next ≤ now ⊎ now + r ≤ t.next) ts
later-wait now r u [] le all = tt
later-wait now r u (t ∷ ts) le all = (
  elim (dec_lt now t.next) [
    | yes later ↦ let first : u.next ≤ t.next = ground (arith, all.0) in inr (omega arith)
    | no due ↦ inl (omega arith)
  ],
  later-wait now r u ts le all.1,
)

waits :
    (ts : List Timer) (now : ℕ)
    → Ordered ts
    → All (λ t. t.next ≤ now ⊎ now + wait_for ts now ≤ t.next) ts
waits [] now o = tt
waits (u ∷ us) now o =
    let r = wait_for (u ∷ us) now in
    let le : r ≤ u.next - now = ground arith in
    (
      elim (dec_lt now u.next) [ yes later ↦ inr (omega arith) | no due ↦ inl (omega arith) ],
      later-wait now r u us le o.0,
    )

-- In a set that is in order no timer's time comes before the wait that is handed out is over, unless
-- it has come already.
pub get_next_timer-earliest :
    (m : TimerManager) (now : ℕ)
    → Ordered m.timers
    → All (λ t. t.next ≤ now ⊎ now + (get_next_timer m now).1 ≤ t.next) m.timers
unfolding get_next_timer
get_next_timer-earliest m now o = waits m.timers now o

-- Within the first hour of the clock any step back counts as one of more than an hour, since the
-- subtraction wraps around.
pub detect_clock_rolllover-early :
    (m : TimerManager) (now : ℕ)
    → m.previouse_time < hour
    → now < m.previouse_time
    → (detect_clock_rolllover m now).1 ≡ true
unfolding detect_clock_rolllover
detect_clock_rolllover-early m now early back =
    rw (lt→ltb now m.previouse_time back, lt→ltb now (sub64 m.previouse_time hour) (omega arith))
