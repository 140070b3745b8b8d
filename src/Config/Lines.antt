-- ===== src/Config/Lines.antt =====
-- rpc/mprpcconfig.cpp: the entry that a line gives.
use kv_my.Common.{
  ℕ, ◌+◌, ◌≤◌, ◌==◌, ==_iff, ◌≡◌, ◌≢◌, refl, false, some, List, [], ◌∷◌, ◌++◌, arith, All, length,
}
use kv_my.Common.Bytes.{Bytes}
use kv_my.Common.Maps.{bytes_key}
use kv_my.Config.{skip_blanks, cut_blanks, trim, split_at, until, is_comment, parse_line}

-- No blank, no end of a line and no byte 0.
abbrev pub IsPlain : Bytes → Type 0
IsPlain = All (λ c. (c ≢ 32) × (c ≢ 10) × (c ≢ 0))

-- A key further has no `=` and starts no comment.
abbrev pub IsKey : Bytes → Type 0
IsKey [] = ⊥
IsKey (c ∷ cs) = (c ≢ 35) × IsPlain (c ∷ cs) × All (λ x. x ≢ 61) (c ∷ cs)

pub record IsEntry (p : Bytes × Bytes) : Type 0 where
  pub key : IsKey p.0
  pub value : IsPlain p.1
  pub fits : length p.0 + length p.1 ≤ 509

-- A line of the file.
abbrev pub print_entry : Bytes × Bytes → Bytes
print_entry p = (p.0 ++ 61 ∷ p.1) ++ 10 ∷ []

-- The entries, each a line.
unfoldable pub print_file : List (Bytes × Bytes) → Bytes
print_file [] = []
print_file (p ∷ ps) = print_entry p ++ print_file ps

pub differs : (a b : ℕ) → a ≢ b → (a == b) ≡ false
differs a b ne = ground arith

skip_blanks-plain : (b : Bytes) → IsPlain b → skip_blanks b ≡ b
unfolding skip_blanks
skip_blanks-plain [] h = refl
skip_blanks-plain (c ∷ cs) h = rw (differs c 32 h.0.0)

cut_blanks-end : (b : Bytes) → cut_blanks (b ++ 10 ∷ []) ≡ b ++ 10 ∷ []
unfolding cut_blanks
cut_blanks-end [] = refl
cut_blanks-end (c ∷ []) = refl
cut_blanks-end (c ∷ d ∷ b) = rw (cut_blanks-end (d ∷ b))

cut_blanks-plain : (b : Bytes) → IsPlain b → cut_blanks b ≡ b
unfolding cut_blanks
cut_blanks-plain [] h = refl
cut_blanks-plain (c ∷ []) h = rw (differs c 32 h.0.0)
cut_blanks-plain (c ∷ d ∷ cs) h = rw (cut_blanks-plain (d ∷ cs) h.1)

trim-plain : (b : Bytes) → IsPlain b → trim b ≡ b
unfolding trim
trim-plain [] h = refl
trim-plain (c ∷ cs) h = rw (skip_blanks-plain (c ∷ cs) h, cut_blanks-plain (c ∷ cs) h)

trim-line : (c : ℕ) (cs : Bytes) → c ≢ 32 → trim (c ∷ cs ++ 10 ∷ []) ≡ c ∷ cs ++ 10 ∷ []
unfolding trim skip_blanks
trim-line c cs ne = rw (differs c 32 ne, cut_blanks-end (c ∷ cs))

-- The entry's text before the end of the line.
abbrev pub body : Bytes × Bytes → Bytes
body p = p.0 ++ 61 ∷ p.1

All-plus : (P : ℕ → Type 0) (a b : Bytes) → All P a → All P b → All P (a ++ b)
All-plus P [] b ha hb = hb
All-plus P (c ∷ a) b ha hb = (ha.0, All-plus P a b ha.1 hb)

IsPlain-IsNot : (b : Bytes) → IsPlain b → All (λ c. c ≢ 10) b × All (λ c. c ≢ 0) b
IsPlain-IsNot [] h = (tt, tt)
IsPlain-IsNot (c ∷ cs) h = let rest = IsPlain-IsNot cs h.1 in ((h.0.1, rest.0), (h.0.2, rest.1))

until-absent : (c : ℕ) (b : Bytes) → All (λ x. x ≢ c) b → until c b ≡ b
unfolding until
until-absent c [] h = refl
until-absent c (x ∷ b) h = rw (differs x c h.0, until-absent c b h.1)

until-found : (c : ℕ) (b rest : Bytes) → All (λ x. x ≢ c) b → until c (b ++ c ∷ rest) ≡ b
unfolding until
until-found c [] rest h = rw ((==_iff c c).1 refl)
until-found c (x ∷ b) rest h = rw (differs x c h.0, until-found c b rest h.1)

split_at-found :
    (c : ℕ) (k v e : Bytes) → All (λ x. x ≢ c) k → split_at c ((k ++ c ∷ v) ++ e) ≡ some (k, v ++ e)
unfolding split_at
split_at-found c [] v e h = rw ((==_iff c c).1 refl)
split_at-found c (x ∷ k) v e h = rw (differs x c h.0, split_at-found c k v e h.1)

-- A key's text, and what follows it on the line.
IsKey-line :
    (k e : Bytes)
    → IsKey k
    → IsPlain k
      × All (λ x. x ≢ 61) k
      × (trim ((k ++ e) ++ 10 ∷ []) ≡ (k ++ e) ++ 10 ∷ [])
      × (is_comment ((k ++ e) ++ 10 ∷ []) ≡ false)
IsKey-line [] e h = absurd h
IsKey-line (c ∷ cs) e h = (h.1, h.2, trim-line c (cs ++ e) h.1.0.0, differs c 35 h.0)

pub body-IsNot :
    (p : Bytes × Bytes) → IsEntry p → All (λ c. c ≢ 10) (body p) × All (λ c. c ≢ 0) (body p)
body-IsNot p entry =
    let (plain, _, _, _) = IsKey-line p.0 [] entry.key in
    let (k10, k0) = IsPlain-IsNot p.0 plain in
    let (v10, v0) = IsPlain-IsNot p.1 entry.value in
    (
      All-plus (λ c. c ≢ 10) p.0 (61 ∷ p.1) k10 (λ e. absurd (omega arith), v10),
      All-plus (λ c. c ≢ 0) p.0 (61 ∷ p.1) k0 (λ e. absurd (omega arith), v0),
    )

-- A line gives its entry.
pub parse_line-entry : (p : Bytes × Bytes) → IsEntry p → parse_line (print_entry p) ≡ some p
unfolding parse_line
parse_line-entry p entry =
    let (plain, no_sign, kept, no_comment) = IsKey-line p.0 (61 ∷ p.1) entry.key in
    let (v10, _) = IsPlain-IsNot p.1 entry.value in
    let whole : until 0 (print_entry p) ≡ print_entry p = until-absent 0 (print_entry p) (
      All-plus (λ c. c ≢ 0) (body p) (10 ∷ []) (body-IsNot p entry).1
        (λ e. absurd (omega arith), tt)) in
    rw (
      whole,
      kept,
      no_comment,
      split_at-found 61 p.0 p.1 (10 ∷ []) no_sign,
      until-found 10 p.1 [] v10,
      trim-plain p.0 plain,
      trim-plain p.1 entry.value,
    )
