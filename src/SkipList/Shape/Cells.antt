-- ===== src/SkipList/Shape/Cells.antt =====
-- Cells, and when a heap holds their nodes.
use mathlib.Core.Path.{fun_ext}
use kv_my.Common.{
  ℕ, suc, ◌≤◌, ◌≡◌, ◌≢◌, refl, ap, ◌∙◌, sym, List, [], ◌∷◌, ◌++◌, Bool, true, false, ◌||◌, some,
  inl, inr, arith, All, leb, if◌then◌else◌, Bool-cases,
}
use kv_my.SkipList.State.{Ptr, null, Node, Heap}
use kv_my.SkipList.Shape.Tables.{put, tabulate, tabulate-ext}

pub record Cell (K V : Type 0) : Type 0 where
  pub at : Ptr
  pub key : K
  pub value : V
  pub level : ℕ

module _ {K V : Type 0} where
  -- The first cell at level `i`, and behind them what `t` has there.
  abbrev pub first : List (Cell K V) → (ℕ → Ptr) → ℕ → Ptr
  first [] t i = t i
  first (c ∷ cs) t i = if leb i c.level then c.at else first cs t i

  -- A cell of the list is at level `i`.
  abbrev pub any_on : ℕ → List (Cell K V) → Bool
  any_on i [] = false
  any_on i (c ∷ cs) = leb i c.level || any_on i cs

  -- The last cell at level `i`, and before them `p`.
  abbrev pub last_at : ℕ → Ptr → List (Cell K V) → Ptr
  last_at i p [] = p
  last_at i p (c ∷ cs) = last_at i (if leb i c.level then c.at else p) cs

  abbrev pub node_of : Cell K V → (ℕ → Ptr) → Node K V
  node_of c f = record {
    key = c.key;
    value = c.value;
    node_level = c.level;
    forward = tabulate (suc c.level) f;
  }

  abbrev pub Apart : Ptr → List (Cell K V) → Type 0
  Apart p = All λ c. p ≢ c.at

  -- The nodes of distinct cells that lead to one another and then to `t`.
  abbrev pub Links : Heap K V → List (Cell K V) → (ℕ → Ptr) → Type 0
  Links h [] t = Unit {0}
  Links h (c ∷ cs) t =
      (null ≢ c.at) × (h c.at ≡ some (node_of c (first cs t))) × Apart c.at cs × Links h cs t

  pub node_of-ext :
      (c : Cell K V) (f g : ℕ → Ptr)
      → ((i : ℕ) → i ≤ c.level → f i ≡ g i)
      → node_of c f ≡ node_of c g
  node_of-ext c f g h = rw (tabulate-ext (suc c.level) f g (λ i lt. h i (omega arith)))

  pub first-append :
      (cs ds : List (Cell K V)) (t : ℕ → Ptr) → first (cs ++ ds) t ≡ first cs (first ds t)
  first-append [] ds t = refl
  first-append (c ∷ cs) ds t = fun_ext λ i. rw (first-append cs ds t)

  pub first-any :
      (cs : List (Cell K V)) (t u : ℕ → Ptr) (i : ℕ)
      → any_on i cs ≡ true
      → first cs t i ≡ first cs u i
  first-any [] t u i h = cc
  first-any (c ∷ cs) t u i h = ground (arith, first-any cs t u i)

  pub first-ext :
      (cs : List (Cell K V)) (t u : ℕ → Ptr) (i : ℕ) → t i ≡ u i → first cs t i ≡ first cs u i
  first-ext [] t u i h = h
  first-ext (c ∷ cs) t u i h = ground (arith, first-ext cs t u i h)

  -- A pointer behind the cells at a level where none of them is leads there at once.
  pub first-put :
      (cs : List (Cell K V)) (t : ℕ → Ptr) (j : ℕ) (q : Ptr) (i : ℕ)
      → any_on j cs ≡ false
      → first cs (put t j q) i ≡ put (first cs t) j q i
  first-put [] t j q i h = refl
  first-put (c ∷ cs) t j q i h = ground (arith, first-put cs t j q i)

  pub last_at-any :
      (i : ℕ) (p q : Ptr) (cs : List (Cell K V))
      → any_on i cs ≡ true
      → last_at i p cs ≡ last_at i q cs
  last_at-any i p q [] h = cc
  last_at-any i p q (c ∷ cs) h = elim (Bool-cases (leb i c.level)) [
    | inl on ↦ rw on
    | inr off ↦ rw off (last_at-any i p q cs (ground arith))
  ]

  -- A cell behind is the last one whatever stands in front.
  pub last_at_tail :
      (j : ℕ) (p : Ptr) (e : Cell K V) (b : List (Cell K V))
      → any_on j (e ∷ b) ≡ true
      → last_at j p (e ∷ b) ≡ last_at j e.at b
  last_at_tail j p e b on = elim (Bool-cases (leb j e.level)) [
    | inl here ↦ rw here
    | inr below ↦ rw below (last_at-any j p e.at b (ground arith))
  ]

  pub last_at-none :
      (i : ℕ) (p : Ptr) (cs : List (Cell K V)) → any_on i cs ≡ false → last_at i p cs ≡ p
  last_at-none i p [] h = refl
  last_at-none i p (c ∷ cs) h = elim (Bool-cases (leb i c.level)) [
    | inl on ↦ absurd (ground arith)
    | inr off ↦ rw off (last_at-none i p cs (ground arith))
  ]

  pub any_on-le : (i j : ℕ) (cs : List (Cell K V)) → i ≤ j → any_on j cs ≡ true → any_on i cs ≡ true
  any_on-le i j [] h on = cc
  any_on-le i j (c ∷ cs) h on = ground (arith, any_on-le i j cs h)

  pub All-append {κ} :
      (P : Cell K V → Type κ) (cs ds : List (Cell K V)) → All P cs → All P ds → All P (cs ++ ds)
  All-append P [] ds a b = b
  All-append P (c ∷ cs) ds a b = (a.0, All-append P cs ds a.1 b)

  pub All-split {κ} :
      (P : Cell K V → Type κ) (cs ds : List (Cell K V)) → All P (cs ++ ds) → All P cs × All P ds
  All-split P [] ds a = (tt, a)
  All-split P (c ∷ cs) ds a = let rest = All-split P cs ds a.1 in ((a.0, rest.0), rest.1)

  pub All-map {κ λ'} :
      (P : Cell K V → Type κ) (Q : Cell K V → Type λ') (cs : List (Cell K V))
      → ((c : Cell K V) → P c → Q c)
      → All P cs
      → All Q cs
  All-map P Q [] f a = tt
  All-map P Q (c ∷ cs) f a = (f c a.0, All-map P Q cs f a.1)

  -- The cells before and behind a place lead on by themselves.
  pub Links-split :
      (h : Heap K V) (cs ds : List (Cell K V)) (t : ℕ → Ptr)
      → Links h (cs ++ ds) t
      → Links h cs (first ds t) × Links h ds t × All (λ c. Apart c.at ds) cs
  Links-split h [] ds t l = (tt, l, tt)
  Links-split h (c ∷ cs) ds t l =
      let rest = Links-split h cs ds t l.3 in
      let apart = All-split _ cs ds l.2 in
      (
        (l.0, l.1 ∙ ap (λ f. some (node_of c f)) (first-append cs ds t), apart.0, rest.0),
        rest.1,
        (apart.1, rest.2),
      )

  pub Links-append :
      (h : Heap K V) (cs ds : List (Cell K V)) (t : ℕ → Ptr)
      → Links h cs (first ds t)
      → Links h ds t
      → All (λ c. Apart c.at ds) cs
      → Links h (cs ++ ds) t
  Links-append h [] ds t l m a = m
  Links-append h (c ∷ cs) ds t l m a = (
    l.0,
    l.1 ∙ ap (λ f. some (node_of c f)) (sym (first-append cs ds t)),
    All-append _ cs ds l.2 a.0,
    Links-append h cs ds t l.3 m a.1,
  )

  -- What is behind them matters at the levels of the cells only.
  pub Links-ext :
      (h : Heap K V) (cs : List (Cell K V)) (t u : ℕ → Ptr)
      → ((i : ℕ) → any_on i cs ≡ true → t i ≡ u i)
      → Links h cs t
      → Links h cs u
  Links-ext h [] t u e l = tt
  Links-ext h (c ∷ cs) t u e l = (
    l.0,
    l.1 ∙ ap some (node_of-ext c _ _ (λ i le. first-ext cs t u i (e i (ground arith)))),
    l.2,
    Links-ext h cs t u (λ i on. e i (ground arith)) l.3,
  )

  pub Links-frame :
      (h g : Heap K V) (cs : List (Cell K V)) (t : ℕ → Ptr)
      → All (λ c. g c.at ≡ h c.at) cs
      → Links h cs t
      → Links g cs t
  Links-frame h g [] t e l = tt
  Links-frame h g (c ∷ cs) t e l = (l.0, e.0 ∙ l.1, l.2, Links-frame h g cs t e.1 l.3)
