-- ===== src/Hook/Sockets.antt =====
-- fiber/hook.cpp: a descriptor from socket on, and what its user does with it.
use kv_my.Common.{
  ℕ, ◌≤◌, ◌≡◌, refl, ap, sym, ◌∙◌, List, [], ◌∷◌, none, some, Bool, true, false, subst,
  if◌then◌else◌, length, inl, inr, Bool-cases,
}
use kv_my.Common.Int.{pos}
use kv_my.FdManager.Flags.{has_nonblock, with_nonblock, has-with}
use kv_my.FdManager.{System, TimeoutType, FdCtx, context_at, init, add_nonblock, no_timeout}
use kv_my.FdManager.Table.{get-makes}
use kv_my.Hook.{Hooks, made, socket, fcntl_setfl, fcntl_getfl, setsockopt_timeout}
use kv_my.Hook.Views.{IsSystem, Held, fcntl_getfl-Held, fcntl_setfl-Held, setsockopt_timeout-Held}

-- A descriptor whose flags can be read and set.
pub record HasFlags {W : Type 0} (system : System W) (fd : ℕ) : Type 0 where
  pub gets : (w : W) → (flags : ℕ) × (system.get_flags fd w ≡ some flags)
  pub sets : (flags : ℕ) (w : W) → (w' : W) × (system.set_flags fd flags w ≡ some w')

-- Calls of a descriptor's user: fcntl with F_SETFL, setsockopt of a time-out.
pub data Call : Type 0 where
  setfl_call : ℕ → Call
  timeout_call : TimeoutType → ℕ → ℕ → Call

-- The mode that the user set last.
abbrev pub mode_after : List Call → Bool → Bool
mode_after [] seen = seen
mode_after (setfl_call arg ∷ cs) seen = mode_after cs (has_nonblock arg)
mode_after (timeout_call type sec usec ∷ cs) seen = mode_after cs seen

abbrev fresh_socket : ℕ → FdCtx
fresh_socket fd = record {
  is_init = true;
  is_socket = true;
  sys_nonblock = true;
  user_nonblock = false;
  is_closed = false;
  fd = fd;
  recv_timeout = no_timeout;
  send_timeout = no_timeout;
}

module _ {W : Type 0} ⦃system : System W⦄ where
  init-makes :
      (fd flags : ℕ) (w : W)
      → system.is_socket fd w ≡ some true
      → system.get_flags fd w ≡ some flags
      → init fd w ≡ (fresh_socket fd, add_nonblock (some flags) fd w)
  unfolding init
  init-makes fd flags w socket read = rw (socket, read)

  -- The flags that a new context leaves.
  add_nonblock-nonblocking :
      IsSystem system
      → (fd flags : ℕ) (w : W) → HasFlags system fd
      → system.get_flags fd w ≡ some flags
      → (now : ℕ) × (system.get_flags fd (add_nonblock (some flags) fd w) ≡ some now)
        × (has_nonblock now ≡ true)
  unfolding add_nonblock
  add_nonblock-nonblocking is fd flags w can read = elim (Bool-cases (has_nonblock flags)) [
    | inl on ↦ rw on (flags, read, on)
    | inr off ↦
        let (w', set) = can.sets (with_nonblock flags) w in
        let (now, read', bit) = is.get-set fd (with_nonblock flags) w w' set in
        rw (off, set) (now, read', bit ∙ has-with flags)
  ]

  pub socket-Held :
      IsSystem system
      → (fd : ℕ) (h : Hooks W) → HasFlags system fd
      → system.is_socket fd h.world ≡ some true
      → h.hook_enable ≡ true
      → 64 ≤ length h.fds.datas
      → context_at h.fds.datas fd ≡ none
      → Held fd false (socket (some fd) h).1
  unfolding socket
  socket-Held is fd h can is_socket on big new =
      let (flags, read) = can.gets h.world in
      let (now, read', bit) = add_nonblock-nonblocking is fd flags h.world can read in
      let (made_as, world, at) = get-makes fd h.fds h.world big new in
      let fresh = init-makes fd flags h.world is_socket read in
      let held : Held fd false (made fd h) = record {
        ctx = fresh_socket fd;
        at = at ∙ ap (λ r. some r.0) fresh;
        opened = refl;
        is_socket = refl;
        sys = refl;
        user = refl;
        flags = now;
        read = ap (system.get_flags fd) (world ∙ ap (λ r. r.1) fresh) ∙ read';
        nonblocking = bit;
      } in
      subst (λ b. Held fd false (if b then made fd h else h)) (sym on) held

  -- What the user does with a descriptor.
  unfoldable pub user_call : ℕ → Call → Hooks W → Hooks W
  user_call fd (setfl_call arg) h = (fcntl_setfl fd arg h).1
  user_call fd (timeout_call type sec usec) h = setsockopt_timeout fd type sec usec h

  unfoldable pub user_calls : ℕ → List Call → Hooks W → Hooks W
  user_calls fd [] h = h
  user_calls fd (c ∷ cs) h = user_calls fd cs (user_call fd c h)

  user_calls-Held :
      IsSystem system
      → (fd : ℕ) (calls : List Call) {seen : Bool} {h : Hooks W} → HasFlags system fd
      → Held fd seen h
      → Held fd (mode_after calls seen) (user_calls fd calls h)
  unfolding user_calls user_call
  user_calls-Held is fd [] can held = held
  user_calls-Held is fd (setfl_call arg ∷ calls) {seen} {h} can held =
      let (w, set) = can.sets (with_nonblock arg) h.world in
      user_calls-Held is fd calls can (fcntl_setfl-Held is arg w held set).1
  user_calls-Held is fd (timeout_call type sec usec ∷ calls) can held =
      user_calls-Held is fd calls can (setsockopt_timeout-Held type sec usec held)

  -- With the hooks on, and where fstat calls a descriptor a socket, whose flags can be read and set,
  -- and the table has its 64 places or more and no context at it: after `socket` and any calls of
  -- fcntl with F_SETFL and of setsockopt for a time-out, the descriptor's own mode is non-blocking
  -- in the system, while fcntl with F_GETFL shows its user the mode that was set last, which is a
  -- blocking one at first.
  pub user_calls-shown :
      IsSystem system
      → (fd : ℕ) (calls : List Call) (h : Hooks W) → HasFlags system fd
      → system.is_socket fd h.world ≡ some true
      → h.hook_enable ≡ true
      → 64 ≤ length h.fds.datas
      → context_at h.fds.datas fd ≡ none
      → let h' = user_calls fd calls (socket (some fd) h).1 in
        ((flags : ℕ) × (system.get_flags fd h'.world ≡ some flags) × (has_nonblock flags ≡ true))
        × ((shown : ℕ) × (fcntl_getfl fd h' ≡ pos shown)
            × (has_nonblock shown ≡ mode_after calls false))
  user_calls-shown is fd calls h can is_socket on big new =
      let held = user_calls-Held is fd calls can (socket-Held is fd h can is_socket on big new) in
      ((held.flags, held.read, held.nonblocking), fcntl_getfl-Held held)
