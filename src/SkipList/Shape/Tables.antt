-- ===== src/SkipList/Shape/Tables.antt =====
-- Arrays of pointers as the tables of functions.
use kv_my.Common.{
  ℕ, zero, suc, ◌<◌, ◌≡◌, refl, ap, ◌∙◌, List, [], ◌∷◌, some, arith, length, set, get_elem?,
  replicate, ◌==◌, if◌then◌else◌, lt→ltb,
}
use kv_my.SkipList.State.{Ptr, null, ok, assign}

-- `f` with another value at `j`.
abbrev pub put : (ℕ → Ptr) → ℕ → Ptr → ℕ → Ptr
put f j q i = if i == j then q else f i

abbrev pub tabulate : ℕ → (ℕ → Ptr) → List Ptr
tabulate zero f = []
tabulate (suc n) f = f zero ∷ tabulate n (λ i. f (suc i))

pub tabulate-ext :
    (n : ℕ) (f g : ℕ → Ptr) → ((i : ℕ) → i < n → f i ≡ g i) → tabulate n f ≡ tabulate n g
tabulate-ext zero f g h = refl
tabulate-ext (suc n) f g h =
    rw (h zero (omega arith), tabulate-ext n _ _ (λ i lt. h (suc i) (omega arith)))

pub length-tabulate : (n : ℕ) (f : ℕ → Ptr) → length (tabulate n f) ≡ n
length-tabulate zero f = refl
length-tabulate (suc n) f = ap suc (length-tabulate n _)

pub get_elem?-tabulate :
    (n : ℕ) (f : ℕ → Ptr) (i : ℕ) → i < n → get_elem? (tabulate n f) i ≡ some (f i)
get_elem?-tabulate zero f i h = absurd (omega arith)
get_elem?-tabulate (suc n) f zero h = refl
get_elem?-tabulate (suc n) f (suc i) h = get_elem?-tabulate n _ i (omega arith)

set-tabulate :
    (n : ℕ) (f : ℕ → Ptr) (j : ℕ) (q : Ptr) → set (tabulate n f) j q ≡ tabulate n (put f j q)
set-tabulate zero f j q = refl
set-tabulate (suc n) f zero q = ap (◌∷◌ q) (tabulate-ext n _ _ (λ i lt. ground arith))
set-tabulate (suc n) f (suc j) q =
    let head : f zero ≡ put f (suc j) q zero = ground arith in
    let tail : tabulate n (put (λ i. f (suc i)) j q) ≡ tabulate n (λ i. put f (suc j) q (suc i)) =
      tabulate-ext n _ _ (λ i lt. ground arith) in
    rw (set-tabulate n (λ i. f (suc i)) j q)
      (ap (◌∷◌ (f zero)) tail ∙ ap (λ x. x ∷ tabulate n (λ i. put f (suc j) q (suc i))) head)

pub assign-tabulate :
    (n : ℕ) (f : ℕ → Ptr) (j : ℕ) (q : Ptr)
    → j < n
    → assign (tabulate n f) j q ≡ ok (tabulate n (put f j q))
unfolding assign
assign-tabulate n f j q h = rw (length-tabulate n f, lt→ltb j n h, set-tabulate n f j q)

pub replicate-tabulate : (n : ℕ) → replicate n null ≡ tabulate n (λ i. null)
replicate-tabulate zero = refl
replicate-tabulate (suc n) = ap (◌∷◌ null) (replicate-tabulate n)
