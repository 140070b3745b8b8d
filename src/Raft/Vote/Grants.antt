-- ===== src/Raft/Vote/Grants.antt =====
-- When the handler RequestVote grants a vote, and what it then leaves.
use native.Mathlib.Decide.{dec_lt}
use kv_my.Common.{
  ap, ◌++◌, ◌∷◌, ◌≤◌, [], List, some, get_last?, ℕ, ◌<◌, ◌≡◌, ◌⊎◌, ◌↔◌, refl, true, false, inl, inr,
  arith, ok, ltb, lt→ltb, le→ltb-false, ==_iff, Bool-cases,
}
use kv_my.Common.Int.{pos, minus_one, ==ℤ_iff}
use kv_my.Raft.State.{Raft, LogEntry, RequestVoteArgs, RequestVoteReply, expire}
use kv_my.Raft.Log.{index_and_term_of, get_last_log_index_and_term, up_to_date}
use kv_my.Raft.Persist.{RaftCodec, persist}
use kv_my.Raft.Vote.{step_down, cast_vote, request_vote_body, request_vote}

-- The index and the term of a node's last entry, or of its snapshot where it has no entry.
abbrev pub IsLast : Raft → ℕ → ℕ → Type 0
IsLast r index term =
    ((r.logs ≡ [])
      × (index ≡ r.last_snapshot_include_index)
      × (term ≡ r.last_snapshot_include_term))
    ⊎ ((front : List LogEntry) × (e : LogEntry) × (r.logs ≡ front ++ e ∷ [])
        × (index ≡ e.log_index)
        × (term ≡ e.log_term))

-- The log of a candidate is up to date for one that ends with an entry of this index and term: its
-- last term is higher, or is the same and its last index is not lower.
abbrev pub IsUpToDate : ℕ → ℕ → RequestVoteArgs → Type 0
IsUpToDate index term args =
    (term < args.last_log_term) ⊎ ((args.last_log_term ≡ term) × (index ≤ args.last_log_index))

-- Its term is new to the node, or is the node's and the vote of that term is free or the candidate's
-- already.
abbrev pub IsFree : Raft → RequestVoteArgs → Type 0
IsFree r args =
    (r.current_term < args.term)
    ⊎ ((args.term ≡ r.current_term)
        × ((r.voted_for ≡ minus_one) ⊎ (r.voted_for ≡ pos args.candidate_id)))

-- The condition as the code computes it.
abbrev Votable : Raft → RequestVoteArgs → Type 0
Votable r args = (up_to_date r args.last_log_index args.last_log_term ≡ true) × IsFree r args

-- What a granted vote leaves: the term and the vote of the request, also in the reply.
abbrev pub Granted : RequestVoteArgs → Raft → RequestVoteReply → Type 0
Granted args r reply =
    (r.current_term ≡ args.term) × (r.voted_for ≡ pos args.candidate_id) × (reply.term ≡ args.term)

module _ (r : Raft) (args : RequestVoteArgs) (reply : RequestVoteReply) (now : ℕ) where
  cast_vote-grants :
      let done = cast_vote r args reply now in
      ((done.1.vote_granted ≡ true) ↔ (
        (up_to_date r args.last_log_index args.last_log_term ≡ true)
        × ((r.voted_for ≡ minus_one) ⊎ (r.voted_for ≡ pos args.candidate_id))))
      × (done.1.vote_granted ≡ true → (done.0.voted_for ≡ pos args.candidate_id))
      × (done.0.current_term ≡ r.current_term)
      × (done.1.term ≡ r.current_term)
  unfolding cast_vote
  cast_vote-grants =
      ground (arith, ==ℤ_iff r.voted_for minus_one, ==ℤ_iff r.voted_for (pos args.candidate_id))

up_to_date-step_down :
    (r : Raft) (t index term : ℕ) → up_to_date (step_down r t) index term ≡ up_to_date r index term
unfolding up_to_date get_last_log_index_and_term step_down
up_to_date-step_down r t index term = refl

module _ (r : Raft) (args : RequestVoteArgs) (reply : RequestVoteReply) (now : ℕ) where
  abbrev Handled : Raft × RequestVoteReply → Type 0
  Handled done =
      ((done.1.vote_granted ≡ true) ↔ Votable r args)
      × (done.1.vote_granted ≡ true → Granted args done.0 done.1)

  stale-Handled :
      args.term < r.current_term
      → Handled
          (r, record reply { term = r.current_term; vote_state = expire; vote_granted = false })
  stale-Handled stale = ground arith

  higher-Handled :
      r.current_term < args.term → Handled (cast_vote (step_down r args.term) args reply now)
  unfolding step_down
  higher-Handled higher = ground (
    arith,
    cast_vote-grants (step_down r args.term) args reply now,
    up_to_date-step_down r args.term args.last_log_index args.last_log_term,
  )

  same-Handled : args.term ≡ r.current_term → Handled (cast_vote r args reply now)
  same-Handled e = ground (arith, cast_vote-grants r args reply now)

  body-Handled :
      (done : Raft × RequestVoteReply) × (request_vote_body r args reply now ≡ ok done)
      × Handled done
  unfolding request_vote_body step_down
  body-Handled = elim (dec_lt args.term r.current_term) [
    | yes stale ↦ (
      (r, record reply { term = r.current_term; vote_state = expire; vote_granted = false }),
      rw (lt→ltb args.term r.current_term stale),
      stale-Handled stale,
    )
    | no current ↦ elim (Bool-cases (ltb r.current_term args.term)) [
      | inl higher ↦ (
        cast_vote (step_down r args.term) args reply now,
        rw (
          le→ltb-false args.term r.current_term (omega arith),
          higher,
          (==_iff args.term args.term).1 refl,
        ),
        higher-Handled (ground arith),
      )
      | inr same ↦
          let e : args.term ≡ r.current_term = ground arith in
          (
            cast_vote r args reply now,
            rw (
              le→ltb-false args.term r.current_term (omega arith),
              same,
              (==_iff args.term r.current_term).1 e,
            ),
            same-Handled e,
          )
    ]
  ]

last-split :
    (es : List LogEntry) (e : LogEntry)
    → (front : List LogEntry) × (l : LogEntry) × (get_last? (e ∷ es) ≡ some l)
      × (e ∷ es ≡ front ++ l ∷ [])
last-split [] e = ([], e, refl, refl)
last-split (f ∷ es) e =
    let (front, l, last, split) = last-split es f in (e ∷ front, l, last, ap (λ x. e ∷ x) split)

last_of-split :
    (es : List LogEntry) (s : ℕ × ℕ)
    → ((es ≡ []) × (index_and_term_of s (get_last? es) ≡ s))
      ⊎ ((front : List LogEntry) × (e : LogEntry) × (es ≡ front ++ e ∷ [])
          × (index_and_term_of s (get_last? es) ≡ (e.log_index, e.log_term)))
last_of-split [] s = inl (refl, refl)
last_of-split (e ∷ es) s =
    let (front, l, last, split) = last-split es e in inr (front, l, split, rw last refl)

get_last_log_index_and_term-IsLast :
    (r : Raft) → IsLast r (get_last_log_index_and_term r).0 (get_last_log_index_and_term r).1
unfolding get_last_log_index_and_term
get_last_log_index_and_term-IsLast r =
    let s : ℕ × ℕ = (r.last_snapshot_include_index, r.last_snapshot_include_term) in
    elim (last_of-split r.logs s) [
      | inl (empty, same) ↦ inl (empty, ap (λ p. p.0) same, ap (λ p. p.1) same)
      | inr (front, e, split, same) ↦ inr (front, e, split, ap (λ p. p.0) same, ap (λ p. p.1) same)
    ]

up_to_date-IsUpToDate :
    (r : Raft) (args : RequestVoteArgs)
    → let last = get_last_log_index_and_term r in
      (up_to_date r args.last_log_index args.last_log_term ≡ true) ↔ IsUpToDate last.0 last.1 args
unfolding up_to_date
up_to_date-IsUpToDate r args = ground arith

-- The handler ends without a failed check. It grants the vote exactly under Raft's condition: the
-- candidate's last term is higher than that of the node's last entry, or of its snapshot where it has
-- no entry, or is the same and its last index is not lower; and the request's term is new, or is the
-- node's and the vote of that term is free or the candidate's already. A granted vote is in the
-- node's state and in the reply, under the term of the request.
pub request_vote-grants :
    ⦃codec : RaftCodec⦄
    → (r : Raft) (args : RequestVoteArgs) (reply : RequestVoteReply) (now : ℕ)
    → (index : ℕ) × (term : ℕ) × IsLast r index term
      × (r' : Raft) × (reply' : RequestVoteReply) × (request_vote r args reply now
          ≡ ok (r', reply'))
      × ((reply'.vote_granted ≡ true) ↔ (IsUpToDate index term args × IsFree r args))
      × (reply'.vote_granted ≡ true → Granted args r' reply')
unfolding request_vote persist
request_vote-grants r args reply now =
    let (done, body, handled) = body-Handled r args reply now in
    let current = up_to_date-IsUpToDate r args in
    (
      _,
      _,
      get_last_log_index_and_term-IsLast r,
      persist done.0,
      done.1,
      rw body,
      (
        λ granted. let (log, free) = handled.0.0 granted in (current.0 log, free),
        λ (log, free). handled.0.1 (current.1 log, free),
      ),
      handled.1,
    )
