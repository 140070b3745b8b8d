-- ===== src/FdManager/Flags.antt =====
-- The bit O_NONBLOCK of the flags that fiber/fd_manager.cpp and fiber/hook.cpp read and write.
use kv_my.Common.{ℕ, ◌+◌, ◌-◌, ◌/◌, ◌%◌, ◌≡◌, Bool, true, false, arith, ◌==◌, if◌then◌else◌}

-- Of a flag word that is not negative: `flags & O_NONBLOCK`, where O_NONBLOCK is 2048.
unfoldable pub has_nonblock : ℕ → Bool
has_nonblock flags = flags / 2048 % 2 == 1

-- `flags | O_NONBLOCK`.
unfoldable pub with_nonblock : ℕ → ℕ
with_nonblock flags = if has_nonblock flags then flags else flags + 2048

-- `flags & ~O_NONBLOCK`.
unfoldable pub without_nonblock : ℕ → ℕ
without_nonblock flags = if has_nonblock flags then flags - 2048 else flags

pub has-with : (flags : ℕ) → has_nonblock (with_nonblock flags) ≡ true
unfolding has_nonblock with_nonblock
has-with flags = ground arith

pub has-without : (flags : ℕ) → has_nonblock (without_nonblock flags) ≡ false
unfolding has_nonblock without_nonblock
has-without flags = ground arith
