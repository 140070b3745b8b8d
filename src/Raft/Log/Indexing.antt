-- ===== src/Raft/Log/Indexing.antt =====
-- Which entry an index names, while the log is contiguous behind its snapshot.
use kv_my.Common.{
  ℕ, zero, suc, ◌+◌, ◌-◌, ◌≤◌, ◌<◌, ◌≡◌, false, some, List, [], ◌∷◌, ◌++◌, arith, ok, assert_failed,
  ◌==◌, lt→ltb, le→leb, le→ltb-false, lt→leb-false, length, get_elem?, get_last?, set, drop,
  get_elem?-lt, ==_iff,
}
use native.Mathlib.Decide.{dec_lt}
use kv_my.Raft.State.{Raft, LogEntry}
use kv_my.Raft.Log.{
  index_and_term_of, get_last_log_index, get_slices_index_from_log_index, entry_at,
  get_log_term_from_log_index, match_log,
}

-- The entries carry the indexes behind `b`, one by one.
abbrev pub Contiguous : ℕ → List LogEntry → Type 0
Contiguous b [] = Unit
Contiguous b (e ∷ es) = (e.log_index ≡ b + 1) × Contiguous (b + 1) es

-- The log of a node follows its snapshot.
abbrev pub IsContiguous : Raft → Type 0
IsContiguous r = Contiguous r.last_snapshot_include_index r.logs

last-Contiguous :
    (b : ℕ) (s : ℕ × ℕ) (e : LogEntry) (es : List LogEntry)
    → Contiguous b (e ∷ es)
    → (index_and_term_of s (get_last? (e ∷ es))).0 ≡ b + length (e ∷ es)
last-Contiguous b s e [] c = omega arith
last-Contiguous b s e (f ∷ es) c = omega (arith, last-Contiguous (b + 1) s f es c.1)

last_of-Contiguous :
    (b t : ℕ) (es : List LogEntry)
    → Contiguous b es
    → (index_and_term_of (b, t) (get_last? es)).0 ≡ b + length es
last_of-Contiguous b t [] c = omega arith
last_of-Contiguous b t (e ∷ es) c = last-Contiguous b (b, t) e es c

-- The last index is read off the length.
pub get_last_log_index-length :
    (r : Raft)
    → IsContiguous r
    → get_last_log_index r ≡ r.last_snapshot_include_index + length r.logs
unfolding get_last_log_index
get_last_log_index-length r c =
    last_of-Contiguous r.last_snapshot_include_index r.last_snapshot_include_term r.logs c

pub get_elem?-Contiguous :
    (b : ℕ) (es : List LogEntry) (i : ℕ) (e : LogEntry)
    → Contiguous b es
    → get_elem? es i ≡ some e
    → e.log_index ≡ b + i + 1
get_elem?-Contiguous b [] i e c h = cc
get_elem?-Contiguous b (x ∷ es) zero e c h = ground arith
get_elem?-Contiguous b (x ∷ es) (suc i) e c h =
    omega (arith, get_elem?-Contiguous (b + 1) es i e c.1 h)

pub Contiguous-append_one :
    (b : ℕ) (es : List LogEntry) (e : LogEntry)
    → Contiguous b es
    → e.log_index ≡ b + length es + 1
    → Contiguous b (es ++ e ∷ [])
Contiguous-append_one b [] e c h = (omega arith, tt)
Contiguous-append_one b (x ∷ es) e c h = (c.0, Contiguous-append_one (b + 1) es e c.1 (omega arith))

pub Contiguous-set :
    (b : ℕ) (es : List LogEntry) (i : ℕ) (e : LogEntry)
    → Contiguous b es
    → e.log_index ≡ b + i + 1
    → Contiguous b (set es i e)
Contiguous-set b [] i e c h = tt
Contiguous-set b (x ∷ es) zero e c h = (omega arith, c.1)
Contiguous-set b (x ∷ es) (suc i) e c h = (c.0, Contiguous-set (b + 1) es i e c.1 (omega arith))

pub Contiguous-drop :
    (b : ℕ) (es : List LogEntry) (n b' : ℕ)
    → Contiguous b es
    → n ≤ length es
    → b' ≡ b + n
    → Contiguous b' (drop n es)
Contiguous-drop b es zero b' c h e = let e' : b' ≡ b = omega arith in rw e' c
Contiguous-drop b [] (suc n) b' c h e = tt
Contiguous-drop b (x ∷ es) (suc n) b' c h e =
    Contiguous-drop (b + 1) es n b' c.1 (omega arith) (omega arith)

-- The logs at an index of the log.
module _ (r : Raft) (c : IsContiguous r) (i : ℕ) where
  pub slices_index-ok :
      r.last_snapshot_include_index < i
      → i ≤ r.last_snapshot_include_index + length r.logs
      → get_slices_index_from_log_index r i ≡ ok (i - r.last_snapshot_include_index - 1)
  unfolding get_slices_index_from_log_index
  slices_index-ok lo hi =
      rw (lt→ltb r.last_snapshot_include_index i lo, get_last_log_index-length r c, le→leb _ _ hi)

  -- Every index behind the snapshot names the entry that carries it.
  pub entry_at-ok :
      r.last_snapshot_include_index < i
      → i ≤ r.last_snapshot_include_index + length r.logs
      → (e : LogEntry) × (entry_at r i ≡ ok e)
        × (get_elem? r.logs (i - r.last_snapshot_include_index - 1) ≡ some e)
        × (e.log_index ≡ i)
  unfolding entry_at
  entry_at-ok lo hi =
      let (e, at) = get_elem?-lt r.logs (i - r.last_snapshot_include_index - 1) (omega arith) in
      (
        e,
        rw (slices_index-ok lo hi, at),
        at,
        omega (arith, get_elem?-Contiguous r.last_snapshot_include_index r.logs _ e c at),
      )

  pub slices_index-below :
      i ≤ r.last_snapshot_include_index → get_slices_index_from_log_index r i ≡ assert_failed
  unfolding get_slices_index_from_log_index
  slices_index-below lo = rw (le→ltb-false r.last_snapshot_include_index i lo)

  pub slices_index-above :
      r.last_snapshot_include_index + length r.logs < i
      → get_slices_index_from_log_index r i ≡ assert_failed
  unfolding get_slices_index_from_log_index
  slices_index-above hi = rw (
    lt→ltb r.last_snapshot_include_index i (omega arith),
    get_last_log_index-length r c,
    lt→leb-false _ _ hi,
  )

  pub get_log_term-snapshot :
      i ≡ r.last_snapshot_include_index
      → get_log_term_from_log_index r i ≡ ok r.last_snapshot_include_term
  unfolding get_log_term_from_log_index
  get_log_term-snapshot e = rw (
    le→leb r.last_snapshot_include_index i (omega arith),
    get_last_log_index-length r c,
    le→leb i (r.last_snapshot_include_index + length r.logs) (omega arith),
    (==_iff i _).1 e,
  )

  pub get_log_term-entry :
      r.last_snapshot_include_index < i
      → i ≤ r.last_snapshot_include_index + length r.logs
      → (e : LogEntry) × (get_log_term_from_log_index r i ≡ ok e.log_term)
        × (get_elem? r.logs (i - r.last_snapshot_include_index - 1) ≡ some e)
  unfolding get_log_term_from_log_index
  get_log_term-entry lo hi =
      let (e, read, at, _) = entry_at-ok lo hi in
      let differs : (i == r.last_snapshot_include_index) ≡ false = ground arith in
      (
        e,
        rw (
          le→leb r.last_snapshot_include_index i (omega arith),
          get_last_log_index-length r c,
          le→leb _ _ hi,
          differs,
          read,
        ),
        at,
      )

  -- A term is on record for the snapshot's index and every index of the log.
  pub get_log_term-ok :
      r.last_snapshot_include_index ≤ i
      → i ≤ r.last_snapshot_include_index + length r.logs
      → (t : ℕ) × (get_log_term_from_log_index r i ≡ ok t)
  get_log_term-ok lo hi = elim (dec_lt r.last_snapshot_include_index i) [
    | yes behind ↦ let (e, h, _) = get_log_term-entry behind hi in (e.log_term, h)
    | no here ↦ (r.last_snapshot_include_term, get_log_term-snapshot (omega arith))
  ]

  pub match_log-ok :
      (t : ℕ)
      → r.last_snapshot_include_index ≤ i
      → i ≤ r.last_snapshot_include_index + length r.logs
      → (u : ℕ) × (get_log_term_from_log_index r i ≡ ok u) × (match_log r i t ≡ ok (t == u))
  unfolding match_log
  match_log-ok t lo hi =
      let (u, h) = get_log_term-ok lo hi in
      (u, h, rw (le→leb _ _ lo, get_last_log_index-length r c, le→leb _ _ hi, h))

  -- The check of `matchLog` fails on an index that the snapshot has swallowed.
  pub match_log-below :
      (t : ℕ) → i < r.last_snapshot_include_index → match_log r i t ≡ assert_failed
  unfolding match_log
  match_log-below t lo = rw (lt→leb-false r.last_snapshot_include_index i lo)
