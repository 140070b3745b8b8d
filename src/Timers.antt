-- ===== src/Timers.antt =====
-- fiber/timer.cpp: the timers of the fibers' scheduler. A timer is named by its address, its callback
-- by a number, and the clock hands in the time in milliseconds. A timer that is not in the set has
-- lost its callback, since both are taken from it at once.
pub mod Order
pub mod Expiry
pub mod Again
pub mod Tests
use kv_my.Common.{
  ℕ, ◌+◌, ◌-◌, ◌*◌, ◌%◌, ◌^◌, Bool, true, false, not, ◌&&◌, ◌||◌, ltb, leb, ◌==◌, if◌then◌else◌,
  Option, none, some, List, [], ◌∷◌, map,
}

pub record Timer : Type 0 where
  pub address : ℕ
  pub recurring : Bool
  pub ms : ℕ
  pub next : ℕ
  pub cb : ℕ

-- `timers` is the set, in the comparator's order.
pub record TimerManager : Type 0 where
  pub timers : List Timer
  pub tickled : Bool
  pub previouse_time : ℕ

-- Arithmetic on uint64_t.
abbrev pub add64 : ℕ → ℕ → ℕ
add64 a b = (a + b) % 2 ^ 64

abbrev pub sub64 : ℕ → ℕ → ℕ
sub64 a b = (a % 2 ^ 64 + (2 ^ 64 - b % 2 ^ 64)) % 2 ^ 64

-- Timer::Comparator; the set holds no null pointers.
abbrev pub before : Timer → Timer → Bool
before lhs rhs = ltb lhs.next rhs.next || (lhs.next == rhs.next && ltb lhs.address rhs.address)

-- `timers_.insert`: an equal timer stays.
unfoldable pub insert_timer : Timer → List Timer → List Timer
insert_timer val [] = val ∷ []
insert_timer val (t ∷ ts) =
    let rest = insert_timer val ts in
    if before val t then val ∷ t ∷ ts else if before t val then t ∷ rest else t ∷ ts

abbrev is_first : Timer → List Timer → Bool
is_first val [] = false
is_first val (t ∷ ts) = t.address == val.address

-- `addTimer` under the lock; the Boolean is whether OnTimerInsertedAtFront is called.
unfoldable pub add_timer_locked : TimerManager → Timer → TimerManager × Bool
add_timer_locked m val =
    let timers = insert_timer val m.timers in
    let at_front = is_first val timers && not m.tickled in
    (record m { timers = timers; tickled = m.tickled || at_front }, at_front)

unfoldable pub add_timer : TimerManager → ℕ → ℕ → ℕ → Bool → ℕ → TimerManager × Bool
add_timer m address ms cb recurring now =
    add_timer_locked m
      (record { address = address; recurring = recurring; ms = ms; next = add64 now ms; cb = cb })

unfoldable pub find : ℕ → List Timer → Option Timer
find address [] = none
find address (t ∷ ts) = let rest = find address ts in if t.address == address then some t else rest

unfoldable pub erase_timer : ℕ → List Timer → List Timer
erase_timer address [] = []
erase_timer address (t ∷ ts) =
    let rest = erase_timer address ts in if t.address == address then ts else t ∷ rest

abbrev pub cancel_found : TimerManager → ℕ → Option Timer → TimerManager × Bool
cancel_found m address none = (m, false)
cancel_found m address (some t) = (record m { timers = erase_timer address m.timers }, true)

unfoldable pub cancel : TimerManager → ℕ → TimerManager × Bool
cancel m address = cancel_found m address (find address m.timers)

abbrev pub refresh_found : TimerManager → ℕ → ℕ → Option Timer → TimerManager × Bool
refresh_found m address now none = (m, false)
refresh_found m address now (some t) = (
  record m {
    timers = insert_timer (record t { next = add64 now t.ms }) (erase_timer address m.timers);
  },
  true,
)

unfoldable pub refresh : TimerManager → ℕ → ℕ → TimerManager × Bool
refresh m address now = refresh_found m address now (find address m.timers)

-- The manager, the answer, and whether OnTimerInsertedAtFront is called.
abbrev pub reset_to : TimerManager → ℕ → ℕ → Bool → ℕ → Timer → TimerManager × Bool × Bool
reset_to m address ms from_now now t =
    let start = if from_now then now else sub64 t.next t.ms in
    let erased : TimerManager = record m { timers = erase_timer address m.timers } in
    let (m', front) = add_timer_locked erased (record t { ms = ms; next = add64 start ms }) in
    (m', true, front)

abbrev pub reset_found : TimerManager → ℕ → ℕ → Bool → ℕ → Option Timer → TimerManager × Bool × Bool
reset_found m address ms from_now now none = (m, true, false)
reset_found m address ms from_now now (some t) =
    if ms == t.ms && not from_now then (m, true, false) else reset_to m address ms from_now now t

-- A timer that is not in the set has no callback, for which the answer is yes.
unfoldable pub reset : TimerManager → ℕ → ℕ → Bool → ℕ → TimerManager × Bool × Bool
reset m address ms from_now now = reset_found m address ms from_now now (find address m.timers)

-- `~0ull` for an empty set.
abbrev pub wait_for : List Timer → ℕ → ℕ
wait_for [] now = 2 ^ 64 - 1
wait_for (t ∷ ts) now = if leb t.next now then 0 else t.next - now

unfoldable pub get_next_timer : TimerManager → ℕ → TimerManager × ℕ
get_next_timer m now = (record m { tickled = false }, wait_for m.timers now)

-- An hour, as the source writes it.
abbrev pub hour : ℕ
hour = 60 * 60 * 1000

unfoldable pub detect_clock_rolllover : TimerManager → ℕ → TimerManager × Bool
detect_clock_rolllover m now = (
  record m { previouse_time = now },
  ltb now m.previouse_time && ltb now (sub64 m.previouse_time hour),
)

-- The timers up to the first that is later than `now`, and those from it on.
unfoldable pub split_due : ℕ → List Timer → List Timer × List Timer
split_due now [] = ([], [])
split_due now (t ∷ ts) =
    let (due, rest) = split_due now ts in if leb t.next now then (t ∷ due, rest) else ([], t ∷ ts)

-- A recurring timer is inserted again.
unfoldable pub rearm : ℕ → List Timer → List Timer → List Timer
rearm now [] timers = timers
rearm now (t ∷ ts) timers =
    rearm now ts
      (if t.recurring then insert_timer (record t { next = add64 now t.ms }) timers else timers)

abbrev pub first_later : ℕ → List Timer → Bool
first_later now [] = false
first_later now (t ∷ ts) = ltb now t.next

-- listExpiredCb behind its tests that the set is not empty.
unfoldable pub expire : TimerManager → ℕ → Bool → TimerManager × List ℕ
expire m now rollover =
    if not rollover && first_later now m.timers
    then (m, [])
    else let (expired, rest) = if rollover then (m.timers, []) else split_due now m.timers in
      (record m { timers = rearm now expired rest }, map (λ e. e.cb) expired)

abbrev pub if_any : {A : Type 0} → List Timer → A → A → A
if_any [] x y = x
if_any (t ∷ ts) x y = y

unfoldable pub list_expired_cb : TimerManager → ℕ → TimerManager × List ℕ
list_expired_cb m now =
    let (m', rollover) = detect_clock_rolllover m now in
    if_any m.timers (m, []) (expire m' now rollover)

unfoldable pub has_timer : TimerManager → Bool
has_timer m = elim m.timers [ [] ↦ false | t ∷ ts ↦ true ]
