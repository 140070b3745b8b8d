-- ===== src/Locks/Tests.antt =====
-- A read lock that is given back, taken again and left to the destructor.
use kv_my.Common.{◌≡◌, [], ◌∷◌}
use kv_my.Locks.{
  rdlock_call, unlock_call, scoped_lock, to_lock, to_unlock, destruct, use_all, destruct-turns,
}

destruct-turns_example :
    (destruct (use_all (to_unlock ∷ to_unlock ∷ to_lock ∷ []) (scoped_lock rdlock_call))).made
    ≡ rdlock_call ∷ unlock_call ∷ rdlock_call ∷ unlock_call ∷ []
destruct-turns_example = destruct-turns rdlock_call (to_unlock ∷ to_unlock ∷ to_lock ∷ [])
