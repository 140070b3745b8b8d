-- ===== src/Common/Results.antt =====
-- What a call ends in: a value, a failed `myAssert` (common/util.cpp, which exits the process), or
-- an access to a vector out of range, which C++ leaves undefined.
use Prim.Native.Nat.{ℕ}
use mathlib.Core.Path.{◌≡◌, refl}
use mathlib.Core.Bool.{Bool, true, false}
use mathlib.Core.Option.{Option, none, some}
use mathlib.Core.List.{List}
use kv_my.Common.Lists.{get_elem?}

pub data Outcome {ℓ} (A : Type ℓ) : Type ℓ where
  ok : A → Outcome A
  assert_failed : Outcome A
  out_of_range : Outcome A

infixl 5 ◌>>=◌ ◌>>◌
abbrev pub ◌>>=◌ {ℓ κ} : {A : Type ℓ} {B : Type κ} → Outcome A → (A → Outcome B) → Outcome B
out_of_range >>= next = out_of_range
assert_failed >>= next = assert_failed
ok value >>= next = next value

abbrev pub ◌>>◌ {ℓ} : {B : Type ℓ} → Outcome (Unit {0}) → Outcome B → Outcome B
first >> second = first >>= λ done. second

-- `myAssert(condition, message)`.
abbrev pub my_assert : Bool → Outcome (Unit {0})
my_assert true = ok tt
my_assert false = assert_failed

abbrev pub of_option {ℓ} : {A : Type ℓ} → Option A → Outcome A
of_option none = out_of_range
of_option (some a) = ok a

-- `v[i]` on a std::vector.
abbrev pub read_at {ℓ} : {A : Type ℓ} → List A → ℕ → Outcome A
read_at xs i = of_option (get_elem? xs i)

-- A chain that ends in a value has a value in its first part.
pub >>=-eq-ok {ℓ κ} :
    {A : Type ℓ} {B : Type κ} (first : Outcome A) (next : A → Outcome B) {end : B}
    → (first >>= next) ≡ ok end
    → (mid : A) × (first ≡ ok mid) × (next mid ≡ ok end)
>>=-eq-ok out_of_range next eq = cc
>>=-eq-ok assert_failed next eq = cc
>>=-eq-ok (ok mid) next eq = (mid, refl, eq)

-- A call has one result.
pub ok_unique {ℓ} : {A : Type ℓ} {m : Outcome A} {a b : A} → m ≡ ok a → m ≡ ok b → a ≡ b
ok_unique p q = cc
