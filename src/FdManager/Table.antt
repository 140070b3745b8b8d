-- ===== src/FdManager/Table.antt =====
-- fiber/fd_manager.cpp: the table of descriptors after `get` and `del`.
use kv_my.Common.{
  ℕ, zero, suc, ◌*◌, ◌/◌, ◌-◌, ◌≤◌, ◌<◌, ◌≡◌, refl, ap, sym, ◌∙◌, ◌||◌, List, [], ◌∷◌, Option, none,
  some, Bool, true, false, arith, length, set, take, replicate, leb, inl, inr, Bool-cases, leb→le,
  leb-false→lt, get_elem?-set_self, length-append, length-replicate,
}
use kv_my.FdManager.{
  System, FdCtx, FdManager, context_at, get, get_from, get_seen, get_made, init, resize,
  grown_table, entry, is_there,
}

context_at-beyond : (cs : List (Option FdCtx)) (fd : ℕ) → length cs ≤ fd → context_at cs fd ≡ none
context_at-beyond [] fd h = refl
context_at-beyond (c ∷ cs) zero h = absurd (omega arith)
context_at-beyond (c ∷ cs) (suc fd) h = context_at-beyond cs fd (omega arith)

pub context_at-lt :
    (cs : List (Option FdCtx)) (fd : ℕ) (c : FdCtx) → context_at cs fd ≡ some c → fd < length cs
context_at-lt cs fd c at = elim (Bool-cases (leb (length cs) fd)) [
  | inl le ↦
      let out = context_at-beyond cs fd (leb→le (length cs) fd le) in
      let n : none ≡ some c = sym out ∙ at in absurd cc
  | inr lt ↦ leb-false→lt (length cs) fd lt
]

pub context_at-set :
    (cs : List (Option FdCtx)) (fd : ℕ) (c : FdCtx)
    → fd < length cs
    → context_at (set cs fd (some c)) fd ≡ some c
context_at-set cs fd c h = ap entry (get_elem?-set_self cs fd (some c) h)

take-all : (n : ℕ) (cs : List (Option FdCtx)) → length cs ≤ n → take n cs ≡ cs
take-all zero [] h = refl
take-all zero (c ∷ cs) h = absurd (omega arith)
take-all (suc n) [] h = refl
take-all (suc n) (c ∷ cs) h = ap (λ xs. c ∷ xs) (take-all n cs (omega arith))

length-resize : (n : ℕ) (cs : List (Option FdCtx)) → length cs ≤ n → length (resize n cs) ≡ n
unfolding resize
length-resize n cs h = rw (take-all n cs h) (
    omega (
      arith,
      length-append cs (replicate (n - length cs) none),
      length-replicate {A = Option FdCtx} (n - length cs) none,
    ))

or_true : (b : Bool) → (b || true) ≡ true
or_true true = refl
or_true false = refl

pub get-looks :
    {W : Type 0} ⦃system : System W⦄
    → (fd : ℕ) (m : FdManager) (w : W) → get fd false m w ≡ (context_at m.datas fd, m, w)
unfolding get get_seen get_from
get-looks fd m w = elim (Bool-cases (leb (length m.datas) fd)) [
  | inl le ↦ rw (le, context_at-beyond m.datas fd (leb→le (length m.datas) fd le))
  | inr lt ↦ rw (lt, or_true (is_there (context_at m.datas fd)))
]

get_seen-misses :
    (fd : ℕ) (m : FdManager) → context_at m.datas fd ≡ none → get_seen fd true m ≡ none
unfolding get_seen
get_seen-misses fd m new = elim (Bool-cases (leb (length m.datas) fd)) [
  | inl le ↦ rw le
  | inr lt ↦ rw (lt, new)
]

grown_table-fits :
    (fd : ℕ) (cs : List (Option FdCtx)) → 64 ≤ length cs → fd < length (grown_table fd cs)
unfolding grown_table
grown_table-fits fd cs h = elim (Bool-cases (leb (length cs) fd)) [
  | inl le ↦
      let beyond = leb→le (length cs) fd le in
      rw le (omega (arith, length-resize (fd * 3 / 2) cs (omega arith)))
  | inr lt ↦ rw lt (leb-false→lt (length cs) fd lt)
]

pub get-makes :
    {W : Type 0} ⦃system : System W⦄
    → (fd : ℕ) (m : FdManager) (w : W) → 64 ≤ length m.datas
    → context_at m.datas fd ≡ none
    → let (made, m', w') = get fd true m w in
      (made ≡ some (init fd w).0)
      × (w' ≡ (init fd w).1)
      × (context_at m'.datas fd ≡ some (init fd w).0)
unfolding get get_from get_made
get-makes fd m w big new = rw (get_seen-misses fd m new) (
  refl,
  refl,
  context_at-set (grown_table fd m.datas) fd (init fd w).0 (grown_table-fits fd m.datas big),
)
