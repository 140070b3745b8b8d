-- ===== src/IoManager/Counts.antt =====
-- fiber/iomanager.cpp: the pending events are those that the contexts have registered.
use kv_my.Common.{
  ℕ, zero, suc, ◌+◌, ◌-◌, ◌*◌, ◌/◌, ◌≤◌, ◌≡◌, refl, ap, List, [], ◌∷◌, ◌++◌, some, Bool, true,
  false, not, All, length, take, set, get_elem?, arith, inl, inr, Bool-cases, ltb,
}
use kv_my.Scheduler.{Job}
use kv_my.IoManager.{
  Event, read_event, write_event, FdContext, IoManager, has, slot, is_none, reset_event, set_event,
  fresh_contexts, context_resize, grown,
}

abbrev pub bit : Bool → ℕ
bit true = 1
bit false = 0

-- The events that a context waits for.
abbrev pub waits : FdContext → ℕ
waits c = bit c.on_read + bit c.on_write

abbrev pub registered : List FdContext → ℕ
registered [] = 0
registered (c ∷ cs) = waits c + registered cs

-- An event is registered exactly when there is something to schedule for it.
pub record IsPaired (c : FdContext) : Type 0 where
  pub reads : c.on_read ≡ not (is_none c.read)
  pub writes : c.on_write ≡ not (is_none c.write)

pub record Counts (io : IoManager) : Type 0 where
  pub pending : io.pending_event_cnt ≡ registered io.fd_contexts
  pub paired : All IsPaired io.fd_contexts

pub registered-set :
    (cs : List FdContext) (i : ℕ) (c d : FdContext)
    → get_elem? cs i ≡ some c
    → registered (set cs i d) + waits c ≡ registered cs + waits d
registered-set [] i c d e = cc
registered-set (x ∷ cs) zero c d e = let same : waits x ≡ waits c = ground (arith, e) in omega arith
registered-set (x ∷ cs) (suc i) c d e = omega (arith, registered-set cs i c d e)

pub set-IsPaired :
    (cs : List FdContext) (i : ℕ) (d : FdContext)
    → All IsPaired cs
    → IsPaired d
    → All IsPaired (set cs i d)
set-IsPaired [] i d a p = tt
set-IsPaired (x ∷ cs) zero d a p = (p, a.1)
set-IsPaired (x ∷ cs) (suc i) d a p = (a.0, set-IsPaired cs i d a.1 p)

pub get_elem?-IsPaired :
    (cs : List FdContext) (i : ℕ) (c : FdContext)
    → All IsPaired cs
    → get_elem? cs i ≡ some c
    → IsPaired c
get_elem?-IsPaired [] i c a e = absurd (cc)
get_elem?-IsPaired (x ∷ cs) zero c a e = let same : x ≡ c = cc in rw (← same) a.0
get_elem?-IsPaired (x ∷ cs) (suc i) c a e = get_elem?-IsPaired cs i c a.1 e

pub reset_event-IsPaired : (e : Event) (c : FdContext) → IsPaired c → IsPaired (reset_event e c)
unfolding reset_event
reset_event-IsPaired read_event c p = record { reads = refl; writes = p.writes }
reset_event-IsPaired write_event c p = record { reads = p.reads; writes = refl }

pub set_event-IsPaired :
    (e : Event) (j : Job) (c : FdContext) → IsPaired c → IsPaired (set_event e j c)
unfolding set_event
set_event-IsPaired read_event j c p = record { reads = refl; writes = p.writes }
set_event-IsPaired write_event j c p = record { reads = p.reads; writes = refl }

pub waits-reset_event :
    (e : Event) (c : FdContext) → has e c ≡ true → waits (reset_event e c) + 1 ≡ waits c
unfolding reset_event
waits-reset_event read_event c h = ground (arith, h)
waits-reset_event write_event c h = ground (arith, h)

pub waits-set_event :
    (e : Event) (j : Job) (c : FdContext) → has e c ≡ false → waits (set_event e j c) ≡ waits c + 1
unfolding set_event
waits-set_event read_event j c h = ground (arith, h)
waits-set_event write_event j c h = ground (arith, h)

-- The check of `addEvent` that the context is empty holds where the event is not registered.
pub slot_free :
    (e : Event) (c : FdContext) → IsPaired c → has e c ≡ false → is_none (slot e c) ≡ true
slot_free read_event c p h = ground (arith, p.reads)
slot_free write_event c p h = ground (arith, p.writes)

fresh_contexts-Counts :
    (n i : ℕ) → (registered (fresh_contexts n i) ≡ 0) × All IsPaired (fresh_contexts n i)
unfolding fresh_contexts
fresh_contexts-Counts zero i = (refl, tt)
fresh_contexts-Counts (suc n) i =
    let rest = fresh_contexts-Counts n (suc i) in
    (omega (arith, rest.0), (record { reads = refl; writes = refl }, rest.1))

length-fresh_contexts : (n i : ℕ) → length (fresh_contexts n i) ≡ n
unfolding fresh_contexts
length-fresh_contexts zero i = refl
length-fresh_contexts (suc n) i = ap suc (length-fresh_contexts n (suc i))

append-IsPaired :
    (cs ds : List FdContext)
    → All IsPaired cs
    → All IsPaired ds
    → (registered (cs ++ ds) ≡ registered cs + registered ds) × All IsPaired (cs ++ ds)
append-IsPaired [] ds a b = (omega arith, b)
append-IsPaired (c ∷ cs) ds a b =
    let rest = append-IsPaired cs ds a.1 b in (omega (arith, rest.0), (a.0, rest.1))

take_all : (n : ℕ) (cs : List FdContext) → length cs ≤ n → take n cs ≡ cs
take_all zero [] h = refl
take_all zero (c ∷ cs) h = absurd (omega arith)
take_all (suc n) [] h = refl
take_all (suc n) (c ∷ cs) h = ap (◌∷◌ c) (take_all n cs (omega arith))

-- A list that grows keeps its contexts, and the new ones wait for nothing.
pub grown-Counts :
    (fd : ℕ) (cs : List FdContext)
    → All IsPaired cs
    → (registered (grown fd cs) ≡ registered cs) × All IsPaired (grown fd cs)
unfolding grown context_resize
grown-Counts fd cs a = elim (Bool-cases (ltb fd (length cs))) [
  | inl inside ↦ rw inside (refl, a)
  | inr beyond ↦
      let n = fd * 3 / 2 - length cs in
      let new = fresh_contexts-Counts n (length cs) in
      let both = append-IsPaired cs (fresh_contexts n (length cs)) a new.1 in
      rw (beyond, take_all (fd * 3 / 2) cs (ground arith)) (omega (arith, both.0, new.0), both.1)
]
