-- ===== src/Raft/Vote.antt =====
-- internal/raft/election.go: votes and the start of an election.
pub mod Effect
pub mod Once
pub mod Twice
use ds_collaborative_editor.Base.{
  ℕ, ◌≤◌, ◌<◌, [], Bool, true, false, not, ◌&&◌, ltb, leb, ◌==◌, if◌then◌else◌, ◌≡◌, refl, ◌⊎◌, inl,
  inr, arith,
}
use ds_collaborative_editor.Base.Int.{add64}
use ds_collaborative_editor.Base.Text.{Text, text_eq}
use ds_collaborative_editor.Raft.Types.{
  RequestVoteRequest, RequestVoteResponse, LogStore, StableStore,
}
use ds_collaborative_editor.Raft.Node.{RaftNode, keep, persist_state, step_down, last_log_info}

-- Candidate's last term and index, then the voter's.
unfoldable pub is_log_up_to_date : ℕ → ℕ → ℕ → ℕ → Bool
is_log_up_to_date term index voter_term voter_index =
    if ltb voter_term term
    then true
    else (if term == voter_term && leb voter_index index then true else false)

module _ {L T : Type 0} (logs : LogStore L) (stable : StableStore T) where
  abbrev pub Voted : Type 0
  Voted = RaftNode L T × RequestVoteResponse × Bool

  -- From `resp.Term = r.currentTerm` on, when the terms are the same.
  unfoldable pub cast_vote : RaftNode L T → RequestVoteRequest → Voted
  cast_vote r req =
      let (index, term) = last_log_info logs stable r in
      let refusal : Voted = (r, record { term = r.current_term; vote_granted = false }, false) in
      if not (text_eq r.voted_for []) && not (text_eq r.voted_for req.candidate_id)
      then refusal
      else if not (is_log_up_to_date req.last_log_term req.last_log_index term index)
      then refusal
      else (
        persist_state logs stable (record r { voted_for = req.candidate_id }),
        record { term = r.current_term; vote_granted = true },
        true,
      )

  -- The new state, the response, and whether the election timer is reset.
  unfoldable pub handle_request_vote : RaftNode L T → RequestVoteRequest → Voted
  handle_request_vote r req =
      if ltb req.term r.current_term
      then (r, record { term = r.current_term; vote_granted = false }, false)
      else cast_vote (if ltb r.current_term req.term then step_down logs stable req.term r else r)
          req

  -- The part of `startElection` under the lock, and the request that it sends to the peers.
  unfoldable pub start_election : RaftNode L T → RaftNode L T × RequestVoteRequest
  start_election r =
      let after =
        persist_state logs stable
          (record r { current_term = add64 r.current_term 1; voted_for = r.server_id }) in
      let (index, term) = last_log_info logs stable after in
      (
        after,
        record {
          term = after.current_term;
          candidate_id = r.server_id;
          last_log_index = index;
          last_log_term = term;
        },
      )
