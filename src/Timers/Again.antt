-- ===== src/Timers/Again.antt =====
-- fiber/timer.cpp: what listExpiredCb leaves in the set, timer for timer.
use kv_my.Common.{
  ℕ, ◌==◌, ◌≡◌, refl, ap, sym, ◌∙◌, true, false, inl, inr, List, [], ◌∷◌, Bool, Bool-cases, All,
  leb, if◌then◌else◌, Option, none, some, arith,
}
use kv_my.Timers.{Timer, add64, before, insert_timer, find, rearm}
use kv_my.Timers.Expiry.{keep, is_due, is_later, fired}

-- No two timers of the set have the same address.
abbrev pub Distinct : List Timer → Type 0
Distinct [] = Unit
Distinct (t ∷ ts) = (find t.address ts ≡ none) × Distinct ts

-- What becomes of a timer at a time: it stays until it is due; then it is gone, or if it recurs it is
-- there again for its milliseconds later.
abbrev pub after_firing : ℕ → Option Timer → Option Timer
after_firing now none = none
after_firing now (some t) =
    if leb t.next now
    then if t.recurring then some (record t { next = add64 now t.ms }) else none
    else some t

find-cons :
    (a : ℕ) (t : Timer) (ts : List Timer)
    → find a (t ∷ ts) ≡ (if t.address == a then some t else find a ts)
unfolding find
find-cons a t ts = refl

find-insert_timer :
    (a : ℕ) (t : Timer) (ts : List Timer)
    → find t.address ts ≡ none
    → find a (insert_timer t ts) ≡ (if t.address == a then some t else find a ts)
unfolding find insert_timer
find-insert_timer a t [] new = refl
find-insert_timer a t (u ∷ us) new = elim (Bool-cases (u.address == t.address)) [
  | inl same ↦ absurd (let found = rw same at new in cc)
  | inr differ ↦ elim (Bool-cases (before t u)) [
    | inl front ↦ rw front refl
    | inr behind ↦ elim (Bool-cases (before u t)) [
      | inl later ↦ elim (Bool-cases (u.address == a)) [
        | inl here ↦
            let not_there : (t.address == a) ≡ false = ground arith in
            rw (behind, later, here, not_there) refl
        | inr not_here ↦ rw (behind, later, not_here) (find-insert_timer a t us (rw differ at new))
      ]
      | inr equal ↦ absurd (let e : (u.address == t.address) ≡ true = ground arith in cc)
    ]
  ]
]

insert_timer-Distinct :
    (t : Timer) (ts : List Timer)
    → find t.address ts ≡ none
    → Distinct ts
    → Distinct (insert_timer t ts)
unfolding insert_timer find
insert_timer-Distinct t [] new d = (refl, tt)
insert_timer-Distinct t (u ∷ us) new d = elim (Bool-cases (u.address == t.address)) [
  | inl same ↦ absurd (let found = rw same at new in cc)
  | inr differ ↦ elim (Bool-cases (before t u)) [
    | inl front ↦ rw front (new, d)
    | inr behind ↦ elim (Bool-cases (before u t)) [
      | inl later ↦
          let rest : find t.address us ≡ none = rw differ at new in
          let apart : (t.address == u.address) ≡ false = ground arith in
          rw (behind, later)
            (
              find-insert_timer u.address t us rest ∙ rw apart d.0,
              insert_timer-Distinct t us rest d.1,
            )
      | inr equal ↦ rw (behind, equal) d
    ]
  ]
]

keep-none :
    (p : Timer → Bool) (a : ℕ) (ts : List Timer) → find a ts ≡ none → find a (keep p ts) ≡ none
unfolding find keep
keep-none p a [] missing = refl
keep-none p a (t ∷ ts) missing = elim (Bool-cases (t.address == a)) [
  | inl same ↦ absurd (let found = rw same at missing in cc)
  | inr differ ↦
      let rest = keep-none p a ts (rw differ at missing) in
      elim (Bool-cases (p t)) [ inl passes ↦ rw (passes, differ) rest | inr fails ↦ rw fails rest ]
]

keep-Distinct : (p : Timer → Bool) (ts : List Timer) → Distinct ts → Distinct (keep p ts)
unfolding keep
keep-Distinct p [] d = tt
keep-Distinct p (t ∷ ts) d = elim (Bool-cases (p t)) [
  | inl passes ↦ rw passes (keep-none p t.address ts d.0, keep-Distinct p ts d.1)
  | inr fails ↦ rw fails (keep-Distinct p ts d.1)
]

abbrev passing : (Timer → Bool) → Option Timer → Option Timer
passing p none = none
passing p (some t) = if p t then some t else none

find-keep :
    (p : Timer → Bool) (a : ℕ) (ts : List Timer)
    → Distinct ts
    → find a (keep p ts) ≡ passing p (find a ts)
unfolding find keep
find-keep p a [] d = refl
find-keep p a (t ∷ ts) d = elim (Bool-cases (t.address == a)) [
  | inl same ↦
      let missing : find a ts ≡ none =
        let e : t.address ≡ a = ground arith in ap (λ b. find b ts) (sym e) ∙ d.0 in
      elim (Bool-cases (p t)) [
        | inl passes ↦ rw (passes, same, passes) refl
        | inr fails ↦ rw (fails, same, fails) (keep-none p a ts missing)
      ]
  | inr differ ↦
      let rest = find-keep p a ts d.1 in
      elim (Bool-cases (p t)) [
        | inl passes ↦ rw (passes, differ) rest
        | inr fails ↦ rw (fails, differ) rest
      ]
]

-- Timers of which none is in another set.
abbrev Apart : List Timer → List Timer → Type 0
Apart es ts = All (λ e. find e.address ts ≡ none) es

-- The timers of the first set that are also in the second have another address than `t`.
cons-Apart :
    (t : Timer) (es ts : List Timer) → find t.address es ≡ none → Apart es ts → Apart es (t ∷ ts)
unfolding find
cons-Apart t [] ts missing all = tt
cons-Apart t (e ∷ es) ts missing all = elim (Bool-cases (e.address == t.address)) [
  | inl same ↦ absurd (let found = rw same at missing in cc)
  | inr differ ↦
      let apart : (t.address == e.address) ≡ false = ground arith in
      (rw apart all.0, cons-Apart t es ts (rw differ at missing) all.1)
]

insert_timer-Apart :
    (t : Timer) (es ts : List Timer)
    → find t.address ts ≡ none
    → find t.address es ≡ none
    → Apart es ts
    → Apart es (insert_timer t ts)
unfolding find
insert_timer-Apart t [] ts new missing all = tt
insert_timer-Apart t (e ∷ es) ts new missing all = elim (Bool-cases (e.address == t.address)) [
  | inl same ↦ absurd (let found = rw same at missing in cc)
  | inr differ ↦
      let apart : (t.address == e.address) ≡ false = ground arith in
      (
        find-insert_timer e.address t ts new ∙ rw apart all.0,
        insert_timer-Apart t es ts new (rw differ at missing) all.1,
      )
]

keep-Apart :
    (now : ℕ) (ts : List Timer)
    → Distinct ts
    → Apart (keep (is_due now) ts) (keep (is_later now) ts)
unfolding keep
keep-Apart now [] d = tt
keep-Apart now (t ∷ ts) d =
    let rest = keep-Apart now ts d.1 in
    elim (Bool-cases (leb t.next now)) [
      | inl due ↦ rw due (keep-none (is_later now) t.address ts d.0, rest)
      | inr late ↦ rw late (
          cons-Apart t (keep (is_due now) ts) (keep (is_later now) ts)
            (keep-none (is_due now) t.address ts d.0) rest)
    ]

-- What is found after the timers of a list are set again on a set they are not in.
abbrev again : ℕ → Option Timer → Option Timer → Option Timer
again now none other = other
again now (some e) other = if e.recurring then some (record e { next = add64 now e.ms }) else none

-- One timer of them.
rearm_one :
    (now : ℕ) (e : Timer) (es ts : List Timer)
    → Distinct (e ∷ es)
    → Distinct ts
    → Apart (e ∷ es) ts
    → let e' : Timer = record e { next = add64 now e.ms } in
      let ts' = if e.recurring then insert_timer e' ts else ts in
      Distinct ts'
      × Apart es ts'
      × ((a : ℕ)
          → find a ts'
            ≡ (if e.address == a then if e.recurring then some e' else none else find a ts))
rearm_one now e es ts d o apart =
    let e' : Timer = record e { next = add64 now e.ms } in
    elim e.recurring
      as (λ x.
        let ts' = if x then insert_timer e' ts else ts in
        Distinct ts'
        × Apart es ts'
        × ((a : ℕ)
            → find a ts' ≡ (if e.address == a then if x then some e' else none else find a ts))) [
              | true ↦ (
                insert_timer-Distinct e' ts apart.0 o,
                insert_timer-Apart e' es ts apart.0 d.0 apart.1,
                λ a. find-insert_timer a e' ts apart.0,
              )
              | false ↦ (
                o,
                apart.1,
                λ a. elim (Bool-cases (e.address == a)) [
                  | inl same ↦
                      let at : e.address ≡ a = ground arith in
                      rw same (ap (λ b. find b ts) (sym at) ∙ apart.0)
                  | inr differ ↦ rw differ refl
                ],
              )
            ]

rearm-found :
    (now a : ℕ) (es ts : List Timer)
    → Distinct es
    → Distinct ts
    → Apart es ts
    → Distinct (rearm now es ts) × (find a (rearm now es ts) ≡ again now (find a es) (find a ts))
unfolding rearm
rearm-found now a [] ts d o apart = (o, unfold find in refl)
rearm-found now a (e ∷ es) ts d o apart =
    let (o', apart', found) = rearm_one now e es ts d o apart in
    let e' : Timer = record e { next = add64 now e.ms } in
    let (ds, rest) =
      rearm-found now a es (if e.recurring then insert_timer e' ts else ts) d.1 o' apart' in
    (
      ds,
      rest ∙ ap (again now (find a es)) (found a) ∙ elim (Bool-cases (e.address == a)) [
        | inl same ↦
            let at : e.address ≡ a = ground arith in
            let missing : find a es ≡ none = ap (λ b. find b es) (sym at) ∙ d.0 in
            rw (find-cons a e es, same, missing) refl
        | inr differ ↦ rw (find-cons a e es, differ) refl
      ],
    )

again-after_firing :
    (now : ℕ) (t : Option Timer)
    → again now (passing (is_due now) t) (passing (is_later now) t) ≡ after_firing now t
again-after_firing now none = refl
again-after_firing now (some t) = elim (Bool-cases (leb t.next now)) [
  | inl due ↦ rw due refl
  | inr late ↦ rw late refl
]

-- In a set without two timers of one address, each timer is after the others have fired what it
-- becomes, and the addresses still differ.
pub fired-after_firing :
    (now : ℕ) (ts : List Timer)
    → Distinct ts
    → Distinct (fired now ts) × ((a : ℕ) → find a (fired now ts) ≡ after_firing now (find a ts))
fired-after_firing now ts d =
    let found : (a : ℕ)
        → Distinct (fired now ts)
          × (find a (fired now ts)
              ≡ again now (find a (keep (is_due now) ts)) (find a (keep (is_later now) ts))) =
      λ a.
        rearm-found now a (keep (is_due now) ts) (keep (is_later now) ts)
          (keep-Distinct (is_due now) ts d) (keep-Distinct (is_later now) ts d)
          (keep-Apart now ts d) in
    (
      (found 0).0,
      λ a.
          (found a).1
          ∙ rw (find-keep (is_due now) a ts d, find-keep (is_later now) a ts d)
              (again-after_firing now (find a ts)),
    )
