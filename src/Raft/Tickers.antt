-- ===== src/Raft/Tickers.antt =====
-- raftCore/raft.cpp, lines 278 to 310 and 422 to 459: the rounds of the two tickers. Times are in
-- nanoseconds, sleeps in microseconds; between the begin and the end of a round the lock is free, so
-- the end takes the node as it then is.
use kv_my.Common.{
  ℕ, ◌+◌, ◌-◌, ◌*◌, ◌/◌, ◌≤◌, ◌<◌, ◌≡◌, List, [], Option, none, some, false, Outcome, ok, arith,
  inl, inr, Bool-cases, ltb, ltb→lt, ltb-false→le, le→ltb-false, lt→ltb, if◌then◌else◌,
}
use kv_my.Raft.State.{Raft, candidate, is_leader, RequestVoteArgs}
use kv_my.Raft.Persist.{RaftCodec, persist}
use kv_my.Raft.Vote.{do_election}
use kv_my.Raft.Leader.{Send, do_heart_beat}

-- A millisecond.
abbrev pub ms : ℕ
ms = 1000000

-- HeartBeatTimeout in milliseconds, where debugMul is 1.
abbrev pub heart_beat_timeout : ℕ
heart_beat_timeout = 25

-- The microseconds to sleep for a timer that ends `timeout` milliseconds after `last`.
unfoldable pub sleep_for : ℕ → ℕ → ℕ → ℕ
sleep_for timeout last now =
    let wait = timeout * ms + last - now in if ltb ms wait then wait / 1000 else 0

-- A leader only looks again later.
unfoldable pub election_begin : Raft → ℕ → ℕ → Option ℕ
election_begin r timeout now =
    if is_leader r.status then none else some (sleep_for timeout r.last_reset_election_time now)

unfoldable pub heart_beat_begin : Raft → ℕ → Option ℕ
heart_beat_begin r now =
    if is_leader r.status
    then some (sleep_for heart_beat_timeout r.last_reset_hear_beat_time now)
    else none

-- The heartbeat is sent unless one was sent since `wake`.
unfoldable pub heart_beat_end : ℕ → ℕ → Raft → Outcome (Raft × List Send)
heart_beat_end wake now r =
    if ltb wake r.last_reset_hear_beat_time then ok (r, []) else do_heart_beat r now

begun_sleep :
    (r : Raft) (timeout wake sleep : ℕ)
    → election_begin r timeout wake ≡ some sleep
    → sleep_for timeout r.last_reset_election_time wake ≡ sleep
unfolding election_begin
begun_sleep r timeout wake sleep begun = elim (Bool-cases (is_leader r.status)) [
  | inl on ↦ absurd (let n = rw on at begun in cc)
  | inr off ↦ let s = rw off at begun in cc
]

-- A sleep misses the end of the timer by a millisecond at most.
due_after :
    (timeout last wake now sleep : ℕ)
    → sleep_for timeout last wake ≡ sleep
    → wake + sleep * 1000 ≤ now
    → last + timeout * ms ≤ now + ms
unfolding sleep_for
due_after timeout last wake now sleep chosen slept =
    elim (Bool-cases (ltb ms (timeout * ms + last - wake))) [
      | inl long ↦
          let s : (timeout * ms + last - wake) / 1000 ≡ sleep = rw long at chosen in
          omega (arith, ltb→lt ms (timeout * ms + last - wake) long)
      | inr short ↦ omega (arith, ltb-false→le ms (timeout * ms + last - wake) short)
    ]

module _ ⦃codec : RaftCodec⦄ where
  -- The election is held unless the timer was reset since `wake`.
  unfoldable pub election_end : ℕ → ℕ → Raft → Raft × List (ℕ × RequestVoteArgs)
  election_end wake now r =
      if ltb wake r.last_reset_election_time then (r, []) else do_election r now

  -- A node that was heard from, or that voted, since the round began does not stand for election.
  election_end-heard :
      (wake now : ℕ) (r : Raft)
      → wake < r.last_reset_election_time
      → election_end wake now r ≡ (r, [])
  unfolding election_end
  election_end-heard wake now r h = rw (lt→ltb wake r.last_reset_election_time h)

  -- Where a round of the election ticker begins on one state and ends, after at least the sleep that
  -- it chose, on a state with the same timer, which was last reset before the round, and no leader:
  -- the node becomes a candidate of the next term, and no more than a millisecond before its time-out
  -- has passed since the reset.
  pub election_end-due :
      (r r' : Raft) (timeout wake now sleep : ℕ)
      → election_begin r timeout wake ≡ some sleep
      → wake + sleep * 1000 ≤ now
      → r'.last_reset_election_time ≡ r.last_reset_election_time
      → r.last_reset_election_time ≤ wake
      → is_leader r'.status ≡ false
      → ((election_end wake now r').0.current_term ≡ r'.current_term + 1)
        × ((election_end wake now r').0.status ≡ candidate)
        × (r.last_reset_election_time + timeout * ms ≤ now + ms)
  unfolding election_begin election_end do_election persist
  election_end-due r r' timeout wake now sleep begun slept same before off =
      let late : ltb wake r'.last_reset_election_time ≡ false =
        le→ltb-false wake r'.last_reset_election_time (omega arith) in
      let chosen = begun_sleep r timeout wake sleep begun in
      (
        rw (late, off),
        rw (late, off),
        due_after timeout r.last_reset_election_time wake now sleep chosen slept,
      )
