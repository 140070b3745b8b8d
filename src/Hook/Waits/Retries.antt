-- ===== src/Hook/Waits/Retries.antt =====
-- fiber/hook.cpp: do_io over its turns, and a parked fiber whose time is up.
use kv_my.Common.{
  ℕ, ◌≡◌, ap, ◌∙◌, List, [], ◌∷◌, ◌++◌, some, true, false, ok, All, ◌==◌, if◌then◌else◌, not, ◌||◌,
}
use kv_my.Scheduler.{Job}
use kv_my.IoManager.{Event, IoManager, add_event}
use kv_my.FdManager.{System, TimeoutType, FdCtx, get_timeout}
use kv_my.Hook.{Hooks, look}
use kv_my.Hook.Views.{Held, look-at}
use kv_my.Hook.Waits.{
  direct, refused, waits, ebadf, io_begin_of, do_io_begin, do_io, Result, returned, failed, Turn,
  eintr, eagain, park, do_io_try, after, do_io_loop,
}

module _ (fd : ℕ) (e : Event) (j : Job) where
  -- A turn that waits: the data is not there and the event is registered.
  pub record Waits (t : Turn) : Type 0 where
    pub blocked : t.result ≡ failed eagain
    pub registered : (io' : IoManager) × (add_event fd e j t.ret t.io ≡ ok (true, io'))

  -- A turn after which do_io calls again: a signal, or a wait that ends in time.
  pub data Retries (t : Turn) : Type 0 where
    interrupted : t.result ≡ failed eintr → Retries t
    woken : Waits t → (t.cnacelled == 0) ≡ true → Retries t

  -- A turn that ends do_io, with its result.
  pub data Ends (t : Turn) : Result → Type 0 where
    counted : (n : ℕ) → t.result ≡ returned n → Ends t (returned n)
    broken :
        (errno : ℕ)
        → t.result ≡ failed errno
        → (errno == eintr) ≡ false
        → (errno == eagain) ≡ false
        → Ends t (failed errno)
    late : Waits t → (t.cnacelled == 0) ≡ false → Ends t (failed t.cnacelled)

  loop-Retries :
      (to : ℕ) (t : Turn) (ts : List Turn)
      → Retries t
      → do_io_loop fd e j to (t ∷ ts) ≡ do_io_loop fd e j to ts
  unfolding do_io_loop do_io_try park after
  loop-Retries to t ts (interrupted h) = rw h
  loop-Retries to t ts (woken w in_time) =
      let (io', added) = w.registered in rw (w.blocked, added, in_time)

  loop-Ends :
      (to : ℕ) (t : Turn) (ts : List Turn) (r : Result)
      → Ends t r
      → do_io_loop fd e j to (t ∷ ts) ≡ ok (some r)
  unfolding do_io_loop do_io_try park after
  loop-Ends to t ts r (counted n h) = rw h
  loop-Ends to t ts r (broken errno h other other') = rw (h, other, other')
  loop-Ends to t ts r (late w up) = let (io', added) = w.registered in rw (w.blocked, added, up)

  loop-settles :
      (to : ℕ) (earlier : List Turn) (t : Turn) (later : List Turn) (r : Result)
      → All Retries earlier
      → Ends t r
      → do_io_loop fd e j to (earlier ++ t ∷ later) ≡ ok (some r)
  loop-settles to [] t later r all ends = loop-Ends to t later r ends
  loop-settles to (u ∷ earlier) t later r all ends =
      loop-Retries to u (earlier ++ t ∷ later) all.0 ∙ loop-settles to earlier t later r all.1 ends

io_begin_of-open :
    (c : FdCtx) (type : TimeoutType)
    → c.is_closed ≡ false
    → c.is_socket ≡ true
    → c.user_nonblock ≡ false
    → io_begin_of (some c) type ≡ waits (get_timeout type c)
unfolding io_begin_of
io_begin_of-open c type opened socket blocking =
    ap
      (λ b.
        if b
        then refused ebadf
        else if not c.is_socket || c.user_nonblock
        then direct
        else waits (get_timeout type c))
      opened
    ∙ ap (λ b. if not b || c.user_nonblock then direct else waits (get_timeout type c)) socket
    ∙ ap (λ b. if b then direct else waits (get_timeout type c)) blocking

begin-Held :
    {W : Type 0} ⦃system : System W⦄
    → {fd : ℕ} {h : Hooks W} (type : TimeoutType) (held : Held fd false h) → h.hook_enable ≡ true
    → do_io_begin fd type h ≡ waits (get_timeout type held.ctx)
unfolding do_io_begin
begin-Held {fd = fd} {h} type held on =
    ap (λ b. if b then io_begin_of (look fd h) type else direct) on
    ∙ ap (λ c. io_begin_of c type) (look-at fd h ∙ held.at)
    ∙ io_begin_of-open held.ctx type held.opened held.is_socket held.user

-- Where the hooks are on and the user of an open socket has not made it non-blocking: however often
-- the call is interrupted by a signal, or finds nothing and is woken up in time, do_io goes on, and
-- it ends with the first turn that succeeds, fails with another error, or waits until its time is
-- up; its result is that turn's.
pub do_io-settles :
    {W : Type 0} ⦃system : System W⦄
    → {fd : ℕ} {h : Hooks W} (e : Event) (j : Job) (type : TimeoutType) (alone : Result)
      (earlier : List Turn) (t : Turn) (later : List Turn) (r : Result)
    → Held fd false h
    → h.hook_enable ≡ true
    → All (Retries fd e j) earlier
    → Ends fd e j t r
    → do_io (do_io_begin fd type h) alone fd e j (earlier ++ t ∷ later) ≡ ok (some r)
unfolding do_io
do_io-settles {fd = fd} {h} e j type alone earlier t later r held on all ends =
    ap (λ b. do_io b alone fd e j (earlier ++ t ∷ later)) (begin-Held type held on)
    ∙ loop-settles fd e j (get_timeout type held.ctx) earlier t later r all ends
