-- ===== src/Timers/Tests.antt =====
-- Two timers.
use kv_my.Common.{◌≡◌, refl, true, false, [], ◌∷◌}
use kv_my.Timers.{
  Timer, TimerManager, detect_clock_rolllover, list_expired_cb, expire, split_due, rearm,
  insert_timer,
}
use kv_my.Timers.Order.{Ordered}

abbrev pub soon : Timer
soon = record { address = 1; recurring = true; ms = 10; next = 20; cb = 7 }

abbrev pub late : Timer
late = record { address = 2; recurring = false; ms = 50; next = 60; cb = 8 }

abbrev pub manager : TimerManager
manager = record { timers = soon ∷ late ∷ []; tickled = true; previouse_time = 12 }

pub manager-Ordered : Ordered manager.timers
manager-Ordered = ((refl, tt), (tt, tt))

-- The recurring timer fires and goes behind the other one.
expired_run : list_expired_cb manager 55 ≡ (
  record manager { timers = late ∷ record soon { next = 65 } ∷ []; previouse_time = 55 },
  7 ∷ [],
)
unfolding list_expired_cb detect_clock_rolllover expire split_due rearm insert_timer
expired_run = refl
