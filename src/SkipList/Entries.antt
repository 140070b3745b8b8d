-- ===== src/SkipList/Entries.antt =====
-- What a skip list promises: a list of keys and values that is sorted by the keys.
use kv_my.Common.{
  ◌≡◌, ◌≢◌, refl, ap, ◌∙◌, sym, List, [], ◌∷◌, ◌++◌, Option, none, some, Bool, true, false, inl,
  inr, map, arith, All, if◌then◌else◌, Bool-cases,
}
use kv_my.SkipList.State.{KeyOrder}
use kv_my.SkipList.Shape.{Cell, All-map}
use kv_my.SkipList.Descents.{Below, NotBelow}
use kv_my.SkipList.Invariant.{IsSorted, is_hit}

abbrev pub is_some {ℓ} : {A : Type ℓ} → Option A → Bool
is_some none = false
is_some (some v) = true

module _ {K : Type 0} ⦃order : KeyOrder K⦄ where
  pub eq-false : (a b : K) → a ≢ b → order.eq a b ≡ false
  eq-false a b ne = elim (Bool-cases (order.eq a b)) [
    | inl same ↦ absurd (ne ((order.eq_iff a b).0 same))
    | inr differ ↦ differ
  ]

  pub eq_self : (a : K) → order.eq a a ≡ true
  eq_self a = (order.eq_iff a a).1 refl

  -- A smaller key is another one.
  pub lt→eq-false : (a b : K) → order.lt a b ≡ true → order.eq a b ≡ false
  lt→eq-false a b lt =
      eq-false a b
        λ e. let self : order.lt b b ≡ true = rw e at lt in let no = order.lt_irrefl b in cc

  pub gt_of : (a k : K) → order.lt a k ≡ false → order.eq a k ≡ false → order.lt k a ≡ true
  gt_of a k ge ne = elim (Bool-cases (order.lt k a)) [
    | inl gt ↦ gt
    | inr le ↦ let e = (order.eq_iff a k).1 (order.lt_total a k ge le) in absurd (ground arith)
  ]

  module _ {V : Type 0} where
    -- The value of a key.
    abbrev pub find_entry : K → List (K × V) → Option V
    find_entry k [] = none
    find_entry k (p ∷ ps) = if order.eq p.0 k then some p.1 else find_entry k ps

    -- A key that is there keeps its value.
    abbrev pub add_entry : K → V → List (K × V) → List (K × V)
    add_entry k v [] = (k, v) ∷ []
    add_entry k v (p ∷ ps) =
        if order.lt p.0 k
        then p ∷ add_entry k v ps
        else if order.eq p.0 k
        then p ∷ ps
        else (k, v) ∷ p ∷ ps

    abbrev pub remove_entry : K → List (K × V) → List (K × V)
    remove_entry k [] = []
    remove_entry k (p ∷ ps) =
        if order.lt p.0 k then p ∷ remove_entry k ps else if order.eq p.0 k then ps else p ∷ ps

    -- A key that is there has a new value.
    abbrev pub set_entry : K → V → List (K × V) → List (K × V)
    set_entry k v ps = add_entry k v (remove_entry k ps)

    abbrev pub entry : Cell K V → K × V
    entry c = (c.key, c.value)

    abbrev pub entries : List (Cell K V) → List (K × V)
    entries = map entry

    -- What the cells before a key have to do with each operation.
    pub find_entry-Below :
        (k : K) (b ds : List (Cell K V))
        → All (Below k) b
        → find_entry k (entries (b ++ ds)) ≡ find_entry k (entries ds)
    find_entry-Below k [] ds a = refl
    find_entry-Below k (c ∷ b) ds a = rw (lt→eq-false c.key k a.0) (find_entry-Below k b ds a.1)

    pub add_entry-Below :
        (k : K) (v : V) (b ds : List (Cell K V))
        → All (Below k) b
        → add_entry k v (entries (b ++ ds)) ≡ entries b ++ add_entry k v (entries ds)
    add_entry-Below k v [] ds a = refl
    add_entry-Below k v (c ∷ b) ds a = rw a.0 (ap (◌∷◌ (entry c)) (add_entry-Below k v b ds a.1))

    pub remove_entry-Below :
        (k : K) (b ds : List (Cell K V))
        → All (Below k) b
        → remove_entry k (entries (b ++ ds)) ≡ entries b ++ remove_entry k (entries ds)
    remove_entry-Below k [] ds a = refl
    remove_entry-Below k (c ∷ b) ds a = rw a.0 (ap (◌∷◌ (entry c)) (remove_entry-Below k b ds a.1))

    -- Behind a key none is found again.
    pub find_entry-above :
        (k : K) (ds : List (Cell K V))
        → All (λ d. order.lt k d.key ≡ true) ds
        → find_entry k (entries ds) ≡ none
    find_entry-above k [] a = refl
    find_entry-above k (d ∷ ds) a =
        let differ : order.eq d.key k ≡ false =
          eq-false d.key k
            λ e. let self : order.lt k k ≡ true = rw e at a.0 in let no = order.lt_irrefl k in cc in
        rw differ (find_entry-above k ds a.1)

    -- The cells from a key on that do not begin with it are above it.
    pub All-above :
        (k : K) (ds : List (Cell K V))
        → IsSorted ds
        → All (NotBelow k) ds
        → is_hit k ds ≡ false
        → All (λ d. order.lt k d.key ≡ true) ds
    All-above k [] s a miss = tt
    All-above k (d ∷ ds) s a miss =
        let gt = gt_of d.key k a.0 miss in
        (gt, All-map _ _ ds (λ e lt. order.lt_trans k d.key e.key gt lt) s.0)

    -- Two neighbours sort a list.
    pub IsSorted-append :
        (k : K) (b ds : List (Cell K V))
        → IsSorted (b ++ ds)
        → All (Below k) b
        → IsSorted b × IsSorted ds
    IsSorted-append k [] ds s a = (tt, s)
    IsSorted-append k (c ∷ b) ds s a =
        let rest = IsSorted-append k b ds s.1 a.1 in ((front b ds s.0, rest.0), rest.1)
      where
        front :
            (b ds : List (Cell K V))
            → All (λ d. order.lt c.key d.key ≡ true) (b ++ ds)
            → All (λ d. order.lt c.key d.key ≡ true) b
        front [] ds a = tt
        front (e ∷ b) ds a = (a.0, front b ds a.1)

    -- The cells before a key and cells that are not below it are sorted together.
    pub append-IsSorted :
        (k : K) (b ds : List (Cell K V))
        → IsSorted b
        → All (Below k) b
        → IsSorted ds
        → ((c : Cell K V) → order.lt c.key k ≡ true → All (λ d. order.lt c.key d.key ≡ true) ds)
        → IsSorted (b ++ ds)
    append-IsSorted k [] ds s a t cross = t
    append-IsSorted k (c ∷ b) ds s a t cross = (both b s.0, append-IsSorted k b ds s.1 a.1 t cross)
      where
        both :
            (b : List (Cell K V))
            → All (λ d. order.lt c.key d.key ≡ true) b
            → All (λ d. order.lt c.key d.key ≡ true) (b ++ ds)
        both [] h = cross c a.0
        both (e ∷ b) h = (h.0, both b h.1)

    -- The laws of a map, for the sorted lists.
    pub find-add :
        (k : K) (v : V) (ps : List (K × V))
        → find_entry k ps ≡ none
        → find_entry k (add_entry k v ps) ≡ some v
    find-add k v [] h = rw (eq_self k)
    find-add k v (p ∷ ps) h = elim (Bool-cases (order.eq p.0 k)) [
      | inl hit ↦ absurd (ground arith)
      | inr miss ↦ elim (Bool-cases (order.lt p.0 k)) [
        | inl lt ↦ rw (lt, miss) (find-add k v ps (rw miss at h))
        | inr ge ↦ rw (ge, miss, eq_self k)
      ]
    ]

    pub find-add_other :
        (k j : K) (v : V) (ps : List (K × V))
        → k ≢ j
        → find_entry j (add_entry k v ps) ≡ find_entry j ps
    find-add_other k j v [] ne = rw (eq-false k j ne)
    find-add_other k j v (p ∷ ps) ne = elim (Bool-cases (order.lt p.0 k)) [
      | inl lt ↦ rw (lt, find-add_other k j v ps ne)
      | inr ge ↦ elim (Bool-cases (order.eq p.0 k)) [
        | inl hit ↦ rw (ge, hit)
        | inr miss ↦ rw (ge, miss, eq-false k j ne)
      ]
    ]

    pub find-remove_other :
        (k j : K) (ps : List (K × V)) → k ≢ j → find_entry j (remove_entry k ps) ≡ find_entry j ps
    find-remove_other k j [] ne = refl
    find-remove_other k j (p ∷ ps) ne = elim (Bool-cases (order.lt p.0 k)) [
      | inl lt ↦ rw (lt, find-remove_other k j ps ne)
      | inr ge ↦ elim (Bool-cases (order.eq p.0 k)) [
        | inl hit ↦
            let e = (order.eq_iff p.0 k).0 hit in rw (ge, hit, eq-false p.0 j (λ q. ne (sym e ∙ q)))
        | inr miss ↦ rw (ge, miss)
      ]
    ]

    -- Where the keys are sorted, a removed one is gone.
    pub find-remove :
        (k : K) (cs : List (Cell K V))
        → IsSorted cs
        → find_entry k (remove_entry k (entries cs)) ≡ none
    find-remove k [] s = refl
    find-remove k (c ∷ cs) s = elim (Bool-cases (order.lt c.key k)) [
      | inl lt ↦ rw (lt, lt→eq-false c.key k lt, find-remove k cs s.1)
      | inr ge ↦ elim (Bool-cases (order.eq c.key k)) [
        | inl hit ↦
            let e = (order.eq_iff c.key k).0 hit in
            rw (ge, hit) (find_entry-above k cs (let up = s.0 in rw e at up))
        | inr miss ↦
            rw (ge, miss, miss)
              (find_entry-above k cs (
                All-map _ _ cs (λ d lt. order.lt_trans k c.key d.key (gt_of c.key k ge miss) lt)
                  s.0))
      ]
    ]
