-- ===== src/IoManager/Idle/Waits.antt =====
-- fiber/iomanager.cpp, lines 249 to 263: how long `idle` waits.
use kv_my.Common.{
  ℕ, zero, suc, ◌+◌, ◌-◌, ◌%◌, ◌^◌, ◌≤◌, ◌<◌, ◌⊎◌, ◌≡◌, ◌≢◌, refl, ap, sym, ◌∙◌, subst, List, [],
  ◌∷◌, true, false, All, inl, inr, arith, min, ltb, leb, ◌==◌,
}
use kv_my.Common.Int.{pos, negsuc}
use kv_my.Timers.{Timer, TimerManager, wait_for, get_next_timer}
use kv_my.Timers.Order.{Ordered}
use kv_my.Timers.Expiry.{keep, is_due, get_next_timer-earliest}
use kv_my.IoManager.Idle.{max_timeout, no_timer, to_int, capped, epoll_waits}

-- A wait that fits an int, or none at all.
abbrev pub Fits : ℕ → Type 0
Fits next = next < 2 ^ 31 ⊎ next ≡ no_timer

min-le : (n : ℕ) → min n max_timeout ≤ max_timeout
min-le n = ground arith

to_int-small : (n : ℕ) → n < 2 ^ 31 → to_int n ≡ pos n
to_int-small n small = ground arith

capped-Fits : (next : ℕ) → Fits next → capped next ≡ min next max_timeout
unfolding capped
capped-Fits next (inl small) =
    let other : (next == no_timer) ≡ false = ground arith in
    rw (other, to_int-small next small) refl
capped-Fits next (inr e) = rw e refl

pub epoll_waits-Fits :
    (interrupts next : ℕ)
    → Fits next
    → All (λ w. w ≡ pos (min next max_timeout)) (epoll_waits interrupts next)
unfolding epoll_waits
epoll_waits-Fits zero next fits =
    (ap to_int (capped-Fits next fits) ∙ to_int-small (min next max_timeout) (ground arith), tt)
epoll_waits-Fits (suc interrupts) next fits =
    let c = min next max_timeout in
    let same : min c max_timeout ≡ c = ground arith in
    (
      ap to_int (capped-Fits next fits) ∙ to_int-small c (ground arith),
      subst (λ n. All (λ w. w ≡ pos c) (epoll_waits interrupts n)) (sym (capped-Fits next fits))
          (subst (λ d. All (λ w. w ≡ pos d) (epoll_waits interrupts c)) same
            (epoll_waits-Fits interrupts c (inl (ground arith)))),
    )

wait_for-Fits :
    (ts : List Timer) (now : ℕ) → All (λ t. t.next < now + 2 ^ 31) ts → Fits (wait_for ts now)
wait_for-Fits [] now near = inr refl
wait_for-Fits (t ∷ ts) now near = let first = near.0 in inl (ground arith)

-- A wait that is not cut at its limit ends when a timer is due.
wait_for-due :
    (ts : List Timer) (now : ℕ)
    → min (wait_for ts now) max_timeout < max_timeout
    → keep (is_due (now + min (wait_for ts now) max_timeout)) ts ≢ []
unfolding keep
wait_for-due [] now short none_due = omega arith
wait_for-due (t ∷ ts) now short none_due =
    let due : leb t.next (now + min (wait_for (t ∷ ts) now) max_timeout) ≡ true = ground arith in
    let some_due = rw due at none_due in cc

sooner :
    (now wait limit : ℕ) (ts : List Timer)
    → limit ≤ wait
    → All (λ t. t.next ≤ now ⊎ now + wait ≤ t.next) ts
    → All (λ t. t.next ≤ now ⊎ now + limit ≤ t.next) ts
sooner now wait limit [] le all = tt
sooner now wait limit (t ∷ ts) le all = (ground (arith, all.0), sooner now wait limit ts le all.1)

-- While the timers are in order and none is set for 2^31 milliseconds or more ahead, every call of
-- epoll_wait in a round of `idle`, however often it is interrupted, gets the same timeout: at most
-- 5000, no longer than until the first timer that is not due yet, and, if it is less than 5000, long
-- enough that some timer is due after it.
pub epoll_waits-get_next_timer :
    (m : TimerManager) (now interrupts : ℕ)
    → Ordered m.timers
    → All (λ t. t.next < now + 2 ^ 31) m.timers
    → (wait : ℕ) × All (λ w. w ≡ pos wait) (epoll_waits interrupts (get_next_timer m now).1)
      × (wait ≤ max_timeout)
      × All (λ t. t.next ≤ now ⊎ now + wait ≤ t.next) m.timers
      × (wait < max_timeout → keep (is_due (now + wait)) m.timers ≢ [])
unfolding get_next_timer
epoll_waits-get_next_timer m now interrupts o near =
    let next = wait_for m.timers now in
    let wait = min next max_timeout in
    (
      wait,
      epoll_waits-Fits interrupts next (wait_for-Fits m.timers now near),
      min-le next,
      sooner now next wait m.timers (ground arith) (get_next_timer-earliest m now o),
      wait_for-due m.timers now,
    )

to_int-wrapped : (n r : ℕ) → n % 2 ^ 32 ≡ r → 2 ^ 31 ≤ r → to_int n ≡ negsuc (2 ^ 32 - 1 - r)
to_int-wrapped n r e far =
    let big : ltb (n % 2 ^ 32) (2 ^ 31) ≡ false = ground arith in rw (big, e) refl

capped-wrapped :
    (n r : ℕ)
    → n % 2 ^ 32 ≡ r
    → 2 ^ 31 ≤ r
    → r < 2 ^ 32 - 1
    → capped n ≡ 2 ^ 64 - 1 - (2 ^ 32 - 1 - r)
unfolding capped
capped-wrapped n r e far most =
    let other : (n == no_timer) ≡ false = ground arith in rw (other, to_int-wrapped n r e far) refl

module _ (r : ℕ) (far : 2 ^ 31 ≤ r) (most : r < 2 ^ 32 - 1) where
  capped-again :
      (next : ℕ)
      → next % 2 ^ 32 ≡ r
      → (capped next % 2 ^ 32 ≡ r) × (to_int (capped next) ≡ negsuc (2 ^ 32 - 1 - r))
  capped-again next e =
      let same : capped next % 2 ^ 32 ≡ r =
        ap (λ c. c % 2 ^ 32) (capped-wrapped next r e far most) ∙ omega arith in
      (same, to_int-wrapped (capped next) r same far)

  -- A wait that is 2^31 milliseconds or more, up to a multiple of 2^32, becomes a negative timeout,
  -- with which epoll_wait has no limit.
  pub epoll_waits-negative :
      (interrupts next : ℕ)
      → next % 2 ^ 32 ≡ r
      → All (λ w. w ≡ negsuc (2 ^ 32 - 1 - r)) (epoll_waits interrupts next)
  unfolding epoll_waits
  epoll_waits-negative zero next e = ((capped-again next e).1, tt)
  epoll_waits-negative (suc n) next e =
      let again = capped-again next e in (again.1, epoll_waits-negative n (capped next) again.0)
