-- ===== src/Common/Maps.antt =====
-- `std::unordered_map` as a list of pairs with one pair for a key that is inserted.
use mathlib.Core.Path.{◌≡◌, refl, sym, ◌∙◌}
use mathlib.Core.Logic.{◌≢◌, ◌↔◌, inl, inr}
use mathlib.Core.Bool.{Bool, true, false}
use mathlib.Core.List.{List, [], ◌∷◌}
use mathlib.Core.Option.{Option, none, some}
use kv_my.Common.Tests.{if◌then◌else◌, Bool-cases}
use kv_my.Common.Int.{ℤ, ◌==ℤ◌, ==ℤ_iff}
use kv_my.Common.Bytes.{Bytes, bytes_eq, bytes_eq_iff}

-- `operator==` of the keys.
pub record KeyEq (K : Type 0) : Type 0 where
  pub eq : K → K → Bool
  pub eq_iff : (a b : K) → (eq a b ≡ true) ↔ (a ≡ b)

instance abbrev pub bytes_key : KeyEq Bytes
bytes_key = record { eq = bytes_eq; eq_iff = bytes_eq_iff }

instance abbrev pub int_key : KeyEq ℤ
int_key = record { eq = λ a b. a ==ℤ b; eq_iff = ==ℤ_iff }

module _ {K : Type 0} ⦃key : KeyEq K⦄ where
  pub eq_refl : (a : K) → key.eq a a ≡ true
  eq_refl a = (key.eq_iff a a).1 refl

  pub ne→eq-false : (a b : K) → a ≢ b → key.eq a b ≡ false
  ne→eq-false a b ne = elim (Bool-cases (key.eq a b)) [
    | inl same ↦ absurd (ne ((key.eq_iff a b).0 same))
    | inr differ ↦ differ
  ]

  module _ {V : Type 0} where
    abbrev pub lookup : List (K × V) → K → Option V
    lookup [] k = none
    lookup (p ∷ ps) k = if key.eq p.0 k then some p.1 else lookup ps k

    -- `m[k] = v`.
    abbrev pub insert : List (K × V) → K → V → List (K × V)
    insert [] k v = (k, v) ∷ []
    insert (p ∷ ps) k v = if key.eq p.0 k then (k, v) ∷ ps else p ∷ insert ps k v

    abbrev pub erase : List (K × V) → K → List (K × V)
    erase [] k = []
    erase (p ∷ ps) k = if key.eq p.0 k then erase ps k else p ∷ erase ps k

    pub lookup-insert : (m : List (K × V)) (k : K) (v : V) → lookup (insert m k v) k ≡ some v
    lookup-insert [] k v = rw (eq_refl k)
    lookup-insert (p ∷ ps) k v = elim (Bool-cases (key.eq p.0 k)) [
      | inl same ↦ rw (same, eq_refl k)
      | inr differ ↦ rw (differ, differ, lookup-insert ps k v)
    ]

    pub lookup-insert_other :
        (m : List (K × V)) (k j : K) (v : V) → k ≢ j → lookup (insert m k v) j ≡ lookup m j
    lookup-insert_other [] k j v ne = rw (ne→eq-false k j ne)
    lookup-insert_other (p ∷ ps) k j v ne = elim (Bool-cases (key.eq p.0 k)) [
      | inl same ↦
          let at : p.0 ≡ k = (key.eq_iff p.0 k).0 same in
          rw (same, ne→eq-false k j ne, ne→eq-false p.0 j (λ e. ne (sym at ∙ e)))
      | inr differ ↦ rw (differ, lookup-insert_other ps k j v ne)
    ]

    pub lookup-erase : (m : List (K × V)) (k : K) → lookup (erase m k) k ≡ none
    lookup-erase [] k = refl
    lookup-erase (p ∷ ps) k = elim (Bool-cases (key.eq p.0 k)) [
      | inl same ↦ rw (same, lookup-erase ps k)
      | inr differ ↦ rw (differ, differ, lookup-erase ps k)
    ]
