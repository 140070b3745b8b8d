-- ===== src/Rpc/Methods.antt =====
-- rpc/rpcprovider.cpp, lines 14 to 34: the methods of a service by their names.
use kv_my.Common.{
  ◌≡◌, refl, ap, ◌∙◌, sym, List, [], ◌∷◌, Option, none, some, Bool, true, false, inl, inr,
  Bool-cases, Option-cases, if◌then◌else◌,
}
use kv_my.Common.Bytes.{Bytes, bytes_eq, bytes_eq_iff}
use kv_my.Common.Maps.{lookup, bytes_key}
use kv_my.Rpc.Provider.{insert_missing, add_methods}

-- A value, and where there is none the other one.
abbrev pub or_else {ℓ} : {A : Type ℓ} → Option A → Option A → Option A
or_else none o = o
or_else (some a) o = some a

or_else-none {ℓ} : {A : Type ℓ} (o : Option A) → or_else o none ≡ o
or_else-none none = refl
or_else-none (some a) = refl

module _ {V : Type 0} where
  lookup-insert_missing :
      (m : List (Bytes × V)) (k j : Bytes) (v : V)
      → lookup (insert_missing k v (lookup m k) m) j
        ≡ or_else (lookup m j) (if bytes_eq k j then some v else none)
  lookup-insert_missing m k j v = elim (Option-cases (lookup m k)) [
    | inl absent ↦ rw absent (new absent)
    | inr (old, there) ↦ rw there (kept old there)
  ]
    where
      new :
          lookup m k ≡ none
          → lookup (insert_missing k v none m) j
            ≡ or_else (lookup m j) (if bytes_eq k j then some v else none)
      new absent = elim (Bool-cases (bytes_eq k j)) [
        | inl same ↦
            let none_there : lookup m j ≡ none =
              ap (lookup m) (sym ((bytes_eq_iff k j).0 same)) ∙ absent in
            unfold insert_missing in rw (same, none_there)
        | inr differ ↦ unfold insert_missing in rw (differ, or_else-none (lookup m j))
      ]

      kept :
          (old : V)
          → lookup m k ≡ some old
          → lookup (insert_missing k v (some old) m) j
            ≡ or_else (lookup m j) (if bytes_eq k j then some v else none)
      kept old there = elim (Bool-cases (bytes_eq k j)) [
        | inl same ↦
            let old_there : lookup m j ≡ some old =
              ap (lookup m) (sym ((bytes_eq_iff k j).0 same)) ∙ there in
            unfold insert_missing in rw (same, old_there)
        | inr differ ↦ unfold insert_missing in rw (differ, or_else-none (lookup m j))
      ]

  -- The first method of a name is the one that is found.
  pub lookup-add_methods :
      (m ps : List (Bytes × V)) (j : Bytes)
      → lookup (add_methods m ps) j ≡ or_else (lookup m j) (lookup ps j)
  unfolding add_methods
  lookup-add_methods m [] j = sym (or_else-none (lookup m j))
  lookup-add_methods m (p ∷ ps) j =
      let m' = insert_missing p.0 p.1 (lookup m p.0) m in
      lookup-add_methods m' ps j
      ∙ ap (λ o. or_else o (lookup ps j)) (lookup-insert_missing m p.0 j p.1)
      ∙ regroup (lookup m j) (bytes_eq p.0 j) p.1 (lookup ps j)
    where
      regroup :
          (o : Option V) (b : Bool) (v : V) (rest : Option V)
          → or_else (or_else o (if b then some v else none)) rest
            ≡ or_else o (if b then some v else rest)
      regroup (some w) b v rest = refl
      regroup none true v rest = refl
      regroup none false v rest = refl
