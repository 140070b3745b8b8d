-- ===== src/Common/Texts.antt =====
-- Many strings in one, each ended by 0: a code for the concrete codecs of the tests.
use Prim.Native.Nat.{ℕ, zero, suc}
use mathlib.Core.Path.{◌≡◌, refl, ap, ◌∙◌}
use mathlib.Core.Logic.{◌≢◌}
use mathlib.Core.List.{List, [], ◌∷◌, ◌++◌, map}
use kv_my.Common.Bytes.{Bytes}

unfoldable pub join : List Bytes → Bytes
join [] = []
join (b ∷ bs) = map (λ c. suc c) b ++ 0 ∷ join bs

abbrev into_first : ℕ → List Bytes → List Bytes
into_first c [] = (c ∷ []) ∷ []
into_first c (b ∷ bs) = (c ∷ b) ∷ bs

unfoldable pub split : Bytes → List Bytes
split [] = []
split (zero ∷ cs) = [] ∷ split cs
split (suc c ∷ cs) = into_first c (split cs)

split-prefix : (b rest : Bytes) → split (map (λ c. suc c) b ++ 0 ∷ rest) ≡ b ∷ split rest
unfolding split
split-prefix [] rest = refl
split-prefix (c ∷ b) rest = ap (into_first c) (split-prefix b rest)

pub split-join : (bs : List Bytes) → split (join bs) ≡ bs
unfolding join split
split-join [] = refl
split-join (b ∷ bs) = split-prefix b (join bs) ∙ ap (λ l. b ∷ l) (split-join bs)

pub join_ne_nil : (b : Bytes) (bs : List Bytes) → join (b ∷ bs) ≢ []
unfolding join
join_ne_nil [] bs h = cc
join_ne_nil (c ∷ b) bs h = cc
