-- ===== src/Timers/Order.antt =====
-- The order of the timers.
use kv_my.Common.{
  ℕ, ◌==◌, ◌⊎◌, ◌≡◌, true, false, inl, inr, List, [], ◌∷◌, arith, Bool, Bool-cases, All, not, ◌&&◌,
  if◌then◌else◌, Option, none, some, refl,
}
use kv_my.Timers.{
  Timer, TimerManager, add64, before, insert_timer, add_timer_locked, add_timer, find, erase_timer,
  cancel, cancel_found, refresh_found, reset_found, reset_to, reset, expire, if_any, refresh,
  detect_clock_rolllover, split_due, first_later, rearm, list_expired_cb,
}

-- Each timer is before all that follow it.
abbrev pub Ordered : List Timer → Type 0
Ordered [] = Unit
Ordered (t ∷ ts) = All (λ u. before t u ≡ true) ts × Ordered ts

before_trans : (a b c : Timer) → before a b ≡ true → before b c ≡ true → before a c ≡ true
before_trans a b c h k = ground arith

before-All :
    (a b : Timer) (ts : List Timer)
    → before a b ≡ true
    → All (λ u. before b u ≡ true) ts
    → All (λ u. before a u ≡ true) ts
before-All a b [] h all = tt
before-All a b (t ∷ ts) h all = (before_trans a b t h all.0, before-All a b ts h all.1)

insert_timer-All :
    (a val : Timer) (ts : List Timer)
    → before a val ≡ true
    → All (λ u. before a u ≡ true) ts
    → All (λ u. before a u ≡ true) (insert_timer val ts)
unfolding insert_timer
insert_timer-All a val [] h all = (h, tt)
insert_timer-All a val (t ∷ ts) h all = elim (Bool-cases (before val t)) [
  | inl front ↦ rw front (h, all)
  | inr behind ↦ elim (Bool-cases (before t val)) [
    | inl later ↦ rw (behind, later) (all.0, insert_timer-All a val ts h all.1)
    | inr equal ↦ rw (behind, equal) all
  ]
]

pub insert_timer-Ordered :
    (val : Timer) (ts : List Timer) → Ordered ts → Ordered (insert_timer val ts)
unfolding insert_timer
insert_timer-Ordered val [] o = (tt, tt)
insert_timer-Ordered val (t ∷ ts) o = elim (Bool-cases (before val t)) [
  | inl front ↦ rw front ((front, before-All val t ts front o.0), o)
  | inr behind ↦ elim (Bool-cases (before t val)) [
    | inl later ↦
        rw (behind, later) (insert_timer-All t val ts later o.0, insert_timer-Ordered val ts o.1)
    | inr equal ↦ rw (behind, equal) o
  ]
]

erase_timer-All :
    (a : Timer) (address : ℕ) (ts : List Timer)
    → All (λ u. before a u ≡ true) ts
    → All (λ u. before a u ≡ true) (erase_timer address ts)
unfolding erase_timer
erase_timer-All a address [] all = tt
erase_timer-All a address (t ∷ ts) all = ground (arith, erase_timer-All a address ts all.1)

erase_timer-Ordered :
    (address : ℕ) (ts : List Timer) → Ordered ts → Ordered (erase_timer address ts)
unfolding erase_timer
erase_timer-Ordered address [] o = tt
erase_timer-Ordered address (t ∷ ts) o =
    ground (arith, erase_timer-Ordered address ts o.1, erase_timer-All t address ts o.0)

rearm-Ordered : (now : ℕ) (es ts : List Timer) → Ordered ts → Ordered (rearm now es ts)
unfolding rearm
rearm-Ordered now [] ts o = o
rearm-Ordered now (e ∷ es) ts o =
    let e' : Timer = record e { next = add64 now e.ms } in
    rearm-Ordered now es (if e.recurring then insert_timer e' ts else ts)
      (elim e.recurring as (λ x. Ordered (if x then insert_timer e' ts else ts)) [
        | true ↦ insert_timer-Ordered e' ts o
        | false ↦ o
      ])

split_due-Ordered : (now : ℕ) (ts : List Timer) → Ordered ts → Ordered (split_due now ts).1
unfolding split_due
split_due-Ordered now [] o = tt
split_due-Ordered now (t ∷ ts) o = ground (arith, split_due-Ordered now ts o.1)

pub List-cases : (ts : List Timer) → (ts ≡ []) ⊎ ((u : Timer) × (us : List Timer) × (ts ≡ u ∷ us))
List-cases [] = inl refl
List-cases (t ∷ ts) = inr (t, ts, refl)

expire-Ordered :
    (m : TimerManager) (now : ℕ) (rollover : Bool)
    → Ordered m.timers
    → Ordered (expire m now rollover).0.timers
unfolding expire
expire-Ordered m now true o = rearm-Ordered now m.timers [] tt
expire-Ordered m now false o = elim (Bool-cases (first_later now m.timers)) [
  | inl later ↦ rw (Ordered, later) o
  | inr due ↦
      rw (Ordered, due)
        (rearm-Ordered now (split_due now m.timers).0 (split_due now m.timers).1
          (split_due-Ordered now m.timers o))
]

list_expired_cb-Ordered :
    (m : TimerManager) (now : ℕ) → Ordered m.timers → Ordered (list_expired_cb m now).0.timers
unfolding list_expired_cb detect_clock_rolllover
list_expired_cb-Ordered m now o =
    let found = detect_clock_rolllover m now in
    let fired = expire-Ordered found.0 now found.1 o in
    let keeps : (us : List Timer)
        → Ordered (if_any us (m, []) (expire found.0 now found.1)).0.timers =
      λ us. elim us as (λ ws. Ordered (if_any ws (m, []) (expire found.0 now found.1)).0.timers) [
        | [] ↦ o
        | u ∷ vs ↦ fired
      ] in
    keeps m.timers

cancel_found-Ordered :
    (m : TimerManager) (address : ℕ) (found : Option Timer)
    → Ordered m.timers
    → Ordered (cancel_found m address found).0.timers
cancel_found-Ordered m address none o = o
cancel_found-Ordered m address (some t) o = erase_timer-Ordered address m.timers o

refresh_found-Ordered :
    (m : TimerManager) (address now : ℕ) (found : Option Timer)
    → Ordered m.timers
    → Ordered (refresh_found m address now found).0.timers
refresh_found-Ordered m address now none o = o
refresh_found-Ordered m address now (some t) o =
    insert_timer-Ordered (record t { next = add64 now t.ms }) (erase_timer address m.timers)
      (erase_timer-Ordered address m.timers o)

reset_found-Ordered :
    (m : TimerManager) (address ms : ℕ) (from_now : Bool) (now : ℕ) (found : Option Timer)
    → Ordered m.timers
    → Ordered (reset_found m address ms from_now now found).0.timers
unfolding add_timer_locked
reset_found-Ordered m address ms from_now now none o = o
reset_found-Ordered m address ms from_now now (some t) o =
    let moved = reset_to m address ms from_now now t in
    elim (ms == t.ms && not from_now)
      as (λ x.
        let r : TimerManager × Bool × Bool = if x then (m, true, false) else moved in
        Ordered r.0.timers) [
          | true ↦ o
          | false ↦
              insert_timer-Ordered _ (erase_timer address m.timers)
                (erase_timer-Ordered address m.timers o)
        ]

-- The set stays in the comparator's order under every operation of the timers.
pub timers-Ordered :
    (m : TimerManager)
    → Ordered m.timers
    → ((address ms cb : ℕ) (recurring : Bool) (now : ℕ)
        → Ordered (add_timer m address ms cb recurring now).0.timers)
      × ((address : ℕ) → Ordered (cancel m address).0.timers)
      × ((address now : ℕ) → Ordered (refresh m address now).0.timers)
      × ((address ms : ℕ) (from_now : Bool) (now : ℕ)
          → Ordered (reset m address ms from_now now).0.timers)
      × ((now : ℕ) → Ordered (list_expired_cb m now).0.timers)
unfolding add_timer add_timer_locked cancel refresh reset
timers-Ordered m o = (
  λ address ms cb recurring now. insert_timer-Ordered _ m.timers o,
  λ address. cancel_found-Ordered m address (find address m.timers) o,
  λ address now. refresh_found-Ordered m address now (find address m.timers) o,
  λ address ms from_now now.
      reset_found-Ordered m address ms from_now now (find address m.timers) o,
  λ now. list_expired_cb-Ordered m now o,
)
