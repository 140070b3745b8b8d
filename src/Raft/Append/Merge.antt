-- ===== src/Raft/Append/Merge.antt =====
-- The loop of AppendEntries1 over the entries of a message: it leaves the splice of the log.
use native.Mathlib.Decide.{dec_lt}
use kv_my.Common.{
  ℕ, suc, ◌+◌, ◌-◌, ◌≤◌, ◌<◌, ◌≡◌, ap, ◌∙◌, sym, inl, inr, some, List, [], ◌∷◌, arith, ok, ◌==◌,
  lt→ltb, le→ltb-false, ==_iff, Bool-cases, length, get_elem?, get_elem?-lt,
}
use kv_my.Common.Bytes.{bytes_eq_iff}
use kv_my.Raft.State.{Raft, LogEntry}
use kv_my.Raft.Log.Indexing.{
  Contiguous, IsContiguous, get_last_log_index-length, slices_index-ok, get_elem?-Contiguous,
}
use kv_my.Raft.Append.{append_entry, append_all}
use kv_my.Raft.Append.Splice.{
  splice, splice-nil, splice-set, splice-append, splice-same, splice-cons, length-splice,
  Contiguous-splice, get_elem?-splice_after,
}

-- No entry of the log has the index and term of a new one and another command: Raft's log matching
-- property, which the handler asserts.
abbrev pub Agrees : List LogEntry → ℕ → List LogEntry → Type 0
Agrees logs k [] = Unit
Agrees logs k (e ∷ es) =
    ((old : LogEntry)
      → get_elem? logs k ≡ some old
      → old.log_term ≡ e.log_term
      → old.command ≡ e.command)
    × Agrees logs (suc k) es

Agrees-later :
    (logs logs' : List LogEntry) (k : ℕ) (es : List LogEntry)
    → ((j : ℕ) → k ≤ j → get_elem? logs' j ≡ get_elem? logs j)
    → Agrees logs k es
    → Agrees logs' k es
Agrees-later logs logs' k [] same a = tt
Agrees-later logs logs' k (e ∷ es) same a = (
  λ old h. a.0 old (sym (same k (omega arith)) ∙ h),
  Agrees-later logs logs' (suc k) es (λ j le. same j (omega arith)) a.1,
)

entry_eq :
    (old e : LogEntry)
    → old.command ≡ e.command
    → old.log_term ≡ e.log_term
    → old.log_index ≡ e.log_index
    → old ≡ e
entry_eq old e p q s = λ i. record { command = p i; log_term = q i; log_index = s i }

module _ (r : Raft) (c : IsContiguous r) (k : ℕ) (e : LogEntry)
    (here : e.log_index ≡ r.last_snapshot_include_index + k + 1) where
  append_entry-new :
      k ≡ length r.logs → append_entry r e ≡ ok (record r { logs = splice k (e ∷ []) r.logs })
  unfolding append_entry
  append_entry-new end = rw (
    get_last_log_index-length r c,
    lt→ltb (r.last_snapshot_include_index + length r.logs) e.log_index (omega arith),
    splice-append k e r.logs end,
  )

  append_entry-old :
      (old : LogEntry)
      → k < length r.logs
      → get_elem? r.logs k ≡ some old
      → (old.log_term ≡ e.log_term → old.command ≡ e.command)
      → append_entry r e ≡ ok (record r { logs = splice k (e ∷ []) r.logs })
  unfolding append_entry
  append_entry-old old inside at agrees =
      let slice : e.log_index - r.last_snapshot_include_index - 1 ≡ k = omega arith in
      rw
        (
          get_last_log_index-length r c,
          le→ltb-false (r.last_snapshot_include_index + length r.logs) e.log_index (omega arith),
          slices_index-ok r c e.log_index (omega arith) (omega arith),
          slice,
          at,
        )
        (elim (Bool-cases (old.log_term == e.log_term)) [
          | inl same ↦
              let term : old.log_term ≡ e.log_term = (==_iff _ _).0 same in
              let command = agrees term in
              let eq : old ≡ e = entry_eq old e command term (
                omega
                  (arith, get_elem?-Contiguous r.last_snapshot_include_index r.logs k old c at)) in
              rw (
                same,
                (bytes_eq_iff old.command e.command).1 command,
                splice-same k e r.logs (at ∙ ap some eq),
              )
          | inr differs ↦ rw (differs, splice-set k e r.logs inside)
        ])

  append_entry-splice :
      k ≤ length r.logs
      → ((old : LogEntry)
          → get_elem? r.logs k ≡ some old
          → old.log_term ≡ e.log_term
          → old.command ≡ e.command)
      → append_entry r e ≡ ok (record r { logs = splice k (e ∷ []) r.logs })
  append_entry-splice within agrees = elim (dec_lt k (length r.logs)) [
    | yes inside ↦
        let (old, at) = get_elem?-lt r.logs k inside in
        append_entry-old old inside at (agrees old at)
    | no end ↦ append_entry-new (omega arith)
  ]

-- The loop ends without a failed check, and leaves the splice.
pub append_all-splice :
    (r : Raft) (k b : ℕ) (es : List LogEntry)
    → IsContiguous r
    → b ≡ r.last_snapshot_include_index + k
    → k ≤ length r.logs
    → Contiguous b es
    → Agrees r.logs k es
    → append_all r es ≡ ok (record r { logs = splice k es r.logs })
unfolding append_all
append_all-splice r k b [] c e within new agrees = rw (splice-nil k r.logs)
append_all-splice r k b (x ∷ es) c e within new agrees =
    let first : List LogEntry = splice k (x ∷ []) r.logs in
    rw (append_entry-splice r c k x (omega arith) within agrees.0) (
      append_all-splice (record r { logs = first }) (suc k) (b + 1) es
        (Contiguous-splice r.last_snapshot_include_index k (x ∷ []) r.logs b c within e (new.0, tt))
        (omega arith) (omega (arith, length-splice k (x ∷ []) r.logs within)) new.1
        (Agrees-later r.logs first (suc k) es
          (λ j le. get_elem?-splice_after k (x ∷ []) r.logs j within (omega arith)) agrees.1)
      ∙ ap (λ l. ok (record r { logs = l })) (splice-cons k x es r.logs within))
