-- ===== src/Locks.antt =====
-- fiber/include/mutex.hpp: ScopedLockImpl, ReadScopedLockImpl and WriteScopedLockImpl, by the calls that
-- they make of their mutex, oldest first. The three differ in the call that takes the mutex.
pub mod Tests
use kv_my.Common.{
  ℕ, zero, suc, ◌+◌, ◌≡◌, refl, ap, sym, ◌∙◌, List, [], ◌∷◌, ◌++◌, Bool, true, false, if◌then◌else◌,
  arith,
}
use mathlib.Core.List.{append-nil, append_assoc}

pub data MutexCall : Type 0 where
  lock_call rdlock_call wrlock_call unlock_call : MutexCall

pub record ScopedLock : Type 0 where
  pub takes : MutexCall
  pub is_locked : Bool
  pub made : List MutexCall

-- The constructor, where `takes` is lock, rdlock or wrlock.
unfoldable pub scoped_lock : MutexCall → ScopedLock
scoped_lock takes = record { takes = takes; is_locked = true; made = takes ∷ [] }

unfoldable pub lock : ScopedLock → ScopedLock
lock l = if l.is_locked then l else record l { is_locked = true; made = l.made ++ l.takes ∷ [] }

unfoldable pub unlock : ScopedLock → ScopedLock
unlock l =
    if l.is_locked then record l { is_locked = false; made = l.made ++ unlock_call ∷ [] } else l

-- The destructor.
unfoldable pub destruct : ScopedLock → ScopedLock
destruct l = unlock l

-- What is done with the lock in its scope.
pub data LockUse : Type 0 where
  to_lock to_unlock : LockUse

abbrev use_lock : LockUse → ScopedLock → ScopedLock
use_lock to_lock l = lock l
use_lock to_unlock l = unlock l

unfoldable pub use_all : List LockUse → ScopedLock → ScopedLock
use_all [] l = l
use_all (u ∷ us) l = use_all us (use_lock u l)

-- The mutex taken and given back some times.
abbrev pub turns : ℕ → MutexCall → List MutexCall
turns zero takes = []
turns (suc n) takes = takes ∷ unlock_call ∷ turns n takes

-- How often a lock is taken that is held, or is not, before the uses.
abbrev pub takings : Bool → List LockUse → ℕ
takings true [] = 0
takings true (to_lock ∷ us) = takings true us
takings true (to_unlock ∷ us) = takings false us
takings false [] = 0
takings false (to_lock ∷ us) = suc (takings true us)
takings false (to_unlock ∷ us) = takings false us

-- The calls that are made of the mutex, for a lock that is held and for one that is not.
mutual
  unfolding use_all lock unlock destruct

  held_uses :
      (us : List LockUse) (takes : MutexCall) (made : List MutexCall)
      → let l : ScopedLock = record { takes = takes; is_locked = true; made = made } in
        (destruct (use_all us l)).made ≡ made ++ unlock_call ∷ turns (takings true us) takes
  held_uses [] takes made = refl
  held_uses (to_lock ∷ us) takes made = held_uses us takes made
  held_uses (to_unlock ∷ us) takes made =
      free_uses us takes (made ++ unlock_call ∷ [])
      ∙ append_assoc made (unlock_call ∷ []) (turns (takings false us) takes)

  free_uses :
      (us : List LockUse) (takes : MutexCall) (made : List MutexCall)
      → let l : ScopedLock = record { takes = takes; is_locked = false; made = made } in
        (destruct (use_all us l)).made ≡ made ++ turns (takings false us) takes
  free_uses [] takes made = sym (append-nil made)
  free_uses (to_lock ∷ us) takes made =
      held_uses us takes (made ++ takes ∷ [])
      ∙ append_assoc made (takes ∷ []) (unlock_call ∷ turns (takings true us) takes)
  free_uses (to_unlock ∷ us) takes made = free_uses us takes made

-- Whatever is done with a scoped lock between its constructor and its destructor, its mutex is taken
-- and given back in turn: once, and once more for each call of lock() that follows an unlock()
-- without a lock() between them; in the end it is given back.
pub destruct-turns :
    (takes : MutexCall) (us : List LockUse)
    → (destruct (use_all us (scoped_lock takes))).made ≡ turns (suc (takings true us)) takes
unfolding scoped_lock
destruct-turns takes us = held_uses us takes (takes ∷ [])
