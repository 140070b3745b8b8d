-- ===== src/Hook/Views.antt =====
-- fiber/hook.cpp: a descriptor's non-blocking mode as the system has it and as its user sees it.
use kv_my.Common.{
  ℕ, ◌*◌, ◌+◌, ◌/◌, ◌≡◌, refl, ap, sym, ◌∙◌, Option, some, Bool, true, false, subst, if◌then◌else◌,
}
use kv_my.Common.Int.{pos}
use kv_my.FdManager.Flags.{has_nonblock, with_nonblock, without_nonblock, has-with, has-without}
use kv_my.FdManager.{System, TimeoutType, so_rcvtimeo, so_sndtimeo, FdCtx, set_timeout, context_at}
use kv_my.FdManager.Table.{context_at-lt, context_at-set, get-looks}
use kv_my.Hook.{
  Hooks, put_context, open_socket, look, done, fcntl_setfl, fcntl_setfl_of, shown_flags,
  fcntl_getfl, ioctl_fionbio, ioctl_fionbio_of, set_timeout_of, setsockopt_timeout,
}

-- What fcntl(2) and ioctl(2) say: the mode that is set is the mode that is read.
pub record IsSystem {W : Type 0} (system : System W) : Type 0 where
  pub get-set :
      (fd flags : ℕ) (w w' : W)
      → system.set_flags fd flags w ≡ some w'
      → (now : ℕ) × (system.get_flags fd w' ≡ some now) × (has_nonblock now ≡ has_nonblock flags)
  pub get-set_nonblock :
      (fd : ℕ) (on : Bool) (w w' : W)
      → system.set_nonblock fd on w ≡ some w'
      → (now : ℕ) × (system.get_flags fd w' ≡ some now) × (has_nonblock now ≡ on)

module _ {W : Type 0} ⦃system : System W⦄ where
  -- An open socket with a context, which the system does not block on; its user sees the mode `seen`.
  pub record Held (fd : ℕ) (seen : Bool) (h : Hooks W) : Type 0 where
    pub ctx : FdCtx
    pub at : context_at h.fds.datas fd ≡ some ctx
    pub opened : ctx.is_closed ≡ false
    pub is_socket : ctx.is_socket ≡ true
    pub sys : ctx.sys_nonblock ≡ true
    pub user : ctx.user_nonblock ≡ seen
    pub flags : ℕ
    pub read : system.get_flags fd h.world ≡ some flags
    pub nonblocking : has_nonblock flags ≡ true

  pub look-at : (fd : ℕ) (h : Hooks W) → look fd h ≡ context_at h.fds.datas fd
  unfolding look
  look-at fd h = ap (λ r. r.0) (get-looks fd h.fds h.world)

  look-Held :
      {fd : ℕ} {seen : Bool} {h : Hooks W} (held : Held fd seen h)
      → open_socket (look fd h) ≡ some held.ctx
  unfolding open_socket
  look-Held {fd} {seen} {h} held = rw (look-at fd h, held.at, held.opened, held.is_socket)

  -- The user of an open socket sees its own mode.
  pub fcntl_getfl-Held :
      {fd : ℕ} {seen : Bool} {h : Hooks W}
      → Held fd seen h
      → (shown : ℕ) × (fcntl_getfl fd h ≡ pos shown) × (has_nonblock shown ≡ seen)
  unfolding fcntl_getfl shown_flags
  fcntl_getfl-Held {fd} {seen = true} {h} held =
      (with_nonblock held.flags, rw (look-Held held, held.read, held.user), has-with held.flags)
  fcntl_getfl-Held {fd} {seen = false} {h} held = (
    without_nonblock held.flags,
    rw (look-Held held, held.read, held.user),
    has-without held.flags,
  )

  fcntl_setfl-sets :
      {fd : ℕ} {seen : Bool} {h : Hooks W} (arg : ℕ) (w : W) (held : Held fd seen h)
      → system.set_flags fd (with_nonblock arg) h.world ≡ some w
      → fcntl_setfl fd arg h ≡ (
        true,
        record h {
          fds = put_context fd (record held.ctx { user_nonblock = has_nonblock arg }) h.fds;
          world = w;
        },
      )
  unfolding fcntl_setfl fcntl_setfl_of
  fcntl_setfl-sets {fd} {seen} {h} arg w held set =
      let h' : Hooks W = record h {
        fds = put_context fd (record held.ctx { user_nonblock = has_nonblock arg }) h.fds;
      } in
      let flags : Bool → ℕ = λ b. if b then with_nonblock arg else without_nonblock arg in
      ap (λ c. fcntl_setfl_of c fd arg h) (look-Held held)
      ∙ ap (λ b. done (system.set_flags fd (flags b) h.world) h') held.sys
      ∙ ap (λ o. done o h') set

  pub fcntl_setfl-Held :
      IsSystem system
      → {fd : ℕ} {seen : Bool} {h : Hooks W} (arg : ℕ) (w : W) → Held fd seen h
      → system.set_flags fd (with_nonblock arg) h.world ≡ some w
      → ((fcntl_setfl fd arg h).0 ≡ true) × Held fd (has_nonblock arg) (fcntl_setfl fd arg h).1
  fcntl_setfl-Held is {fd} {seen} {h} arg w held set =
      let (now, read, bit) = is.get-set fd (with_nonblock arg) h.world w set in
      let ctx : FdCtx = record held.ctx { user_nonblock = has_nonblock arg } in
      let h' : Hooks W = record h { fds = put_context fd ctx h.fds; world = w } in
      subst (λ r. (r.0 ≡ true) × Held fd (has_nonblock arg) r.1)
        (sym (fcntl_setfl-sets arg w held set))
        (
          refl,
          record {
            ctx = ctx;
            at = context_at-set h.fds.datas fd ctx (context_at-lt h.fds.datas fd held.ctx held.at);
            opened = held.opened;
            is_socket = held.is_socket;
            sys = held.sys;
            user = refl;
            flags = now;
            read = read;
            nonblocking = bit ∙ has-with arg;
          },
        )

  set_timeout-Held :
      {fd : ℕ} {seen : Bool} {h : Hooks W} (type : TimeoutType) (v : ℕ) (held : Held fd seen h)
      → Held fd seen (set_timeout_of (some held.ctx) fd type v h)
  unfolding set_timeout_of set_timeout
  set_timeout-Held {fd} {seen} {h} so_rcvtimeo v held = record {
    ctx = record held.ctx { recv_timeout = v };
    at = context_at-set h.fds.datas fd _ (context_at-lt h.fds.datas fd held.ctx held.at);
    opened = held.opened;
    is_socket = held.is_socket;
    sys = held.sys;
    user = held.user;
    flags = held.flags;
    read = held.read;
    nonblocking = held.nonblocking;
  }
  set_timeout-Held {fd} {seen} {h} so_sndtimeo v held = record {
    ctx = record held.ctx { send_timeout = v };
    at = context_at-set h.fds.datas fd _ (context_at-lt h.fds.datas fd held.ctx held.at);
    opened = held.opened;
    is_socket = held.is_socket;
    sys = held.sys;
    user = held.user;
    flags = held.flags;
    read = held.read;
    nonblocking = held.nonblocking;
  }

  if-Held :
      {fd : ℕ} {seen : Bool} {h h' : Hooks W} (b : Bool)
      → Held fd seen h
      → Held fd seen h'
      → Held fd seen (if b then h else h')
  if-Held true held held' = held
  if-Held false held held' = held'

  pub setsockopt_timeout-Held :
      {fd : ℕ} {seen : Bool} {h : Hooks W} (type : TimeoutType) (sec usec : ℕ)
      → Held fd seen h
      → Held fd seen (setsockopt_timeout fd type sec usec h)
  unfolding setsockopt_timeout
  setsockopt_timeout-Held {fd} {seen} {h} type sec usec held =
      let v = sec * 1000 + usec / 1000 in
      let after : Option FdCtx → Hooks W =
        λ c. if h.hook_enable then set_timeout_of c fd type v h else h in
      subst (λ c. Held fd seen (after c)) (sym (look-at fd h ∙ held.at))
        (if-Held h.hook_enable (set_timeout-Held type v held) held)

  ioctl-sets :
      {fd : ℕ} {seen : Bool} {h : Hooks W} (on : Bool) (w : W) (held : Held fd seen h)
      → system.set_nonblock fd on h.world ≡ some w
      → ioctl_fionbio fd on h ≡ (
        true,
        record h { fds = put_context fd (record held.ctx { user_nonblock = on }) h.fds; world = w },
      )
  unfolding ioctl_fionbio ioctl_fionbio_of
  ioctl-sets {fd} {seen} {h} on w held set =
      let h' : Hooks W = record h {
        fds = put_context fd (record held.ctx { user_nonblock = on }) h.fds;
      } in
      ap (λ c. let h1 = ioctl_fionbio_of c fd on h in done (system.set_nonblock fd on h1.world) h1)
        (look-Held held)
      ∙ ap (λ o. done o h') set

  -- Where ioctl with FIONBIO switches the mode of an open socket off, which the system has in
  -- non-blocking mode, the system's mode is off too, though the context still says that the system
  -- does not block.
  pub ioctl_fionbio-blocks :
      IsSystem system
      → {fd : ℕ} {seen : Bool} {h : Hooks W} (w : W) → Held fd seen h
      → system.set_nonblock fd false h.world ≡ some w
      → let h' = (ioctl_fionbio fd false h).1 in
        ((flags : ℕ) × (system.get_flags fd h'.world ≡ some flags) × (has_nonblock flags ≡ false))
        × ((c : FdCtx) × (look fd h' ≡ some c) × (c.sys_nonblock ≡ true))
  ioctl_fionbio-blocks is {fd} {seen} {h} w held set =
      let ctx : FdCtx = record held.ctx { user_nonblock = false } in
      let h1 : Hooks W = record h { fds = put_context fd ctx h.fds; world = w } in
      let at = context_at-set h.fds.datas fd ctx (context_at-lt h.fds.datas fd held.ctx held.at) in
      subst
        (λ r.
          ((flags : ℕ) × (system.get_flags fd r.1.world ≡ some flags)
            × (has_nonblock flags ≡ false))
          × ((c : FdCtx) × (look fd r.1 ≡ some c) × (c.sys_nonblock ≡ true)))
        (sym (ioctl-sets false w held set))
        (is.get-set_nonblock fd false h.world w set, (ctx, look-at fd h1 ∙ at, held.sys))
