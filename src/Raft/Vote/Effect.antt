-- ===== src/Raft/Vote/Effect.antt =====
-- What a vote request does to a node.
use ds_collaborative_editor.Base.{
  ◌<◌, [], true, false, not, ◌&&◌, ltb, ltb→lt, Bool-cases, ◌≡◌, refl, ◌⊎◌, inl, inr, arith,
}
use ds_collaborative_editor.Base.Text.{Text, text_eq, text_eq-eq}
use ds_collaborative_editor.Raft.Types.{
  RequestVoteRequest, RequestVoteResponse, LogStore, StableStore,
}
use ds_collaborative_editor.Raft.Node.{RaftNode, persist_state, step_down, last_log_info}
use ds_collaborative_editor.Raft.Vote.{is_log_up_to_date, cast_vote, handle_request_vote}

module _ {L T : Type 0} (logs : LogStore L) (stable : StableStore T) where
  -- The node may give its vote of its term to a candidate.
  abbrev pub IsFree : RaftNode L T → Text → Type 0
  IsFree r candidate = (r.voted_for ≡ []) ⊎ (r.voted_for ≡ candidate)

  -- A request is granted in its own term, to a candidate whose log is up to date, by a node whose
  -- vote is free; or it is refused, and at most moves the node to a later term without a vote.
  pub data VoteEffect (r : RaftNode L T) (req : RequestVoteRequest) (after : RaftNode L T)
      (resp : RequestVoteResponse) : Type 0 where
    granted :
        resp.vote_granted ≡ true
        → resp.term ≡ req.term
        → after.current_term ≡ req.term
        → after.voted_for ≡ req.candidate_id
        → (r.current_term < req.term) ⊎ ((r.current_term ≡ req.term) × IsFree r req.candidate_id)
        → is_log_up_to_date req.last_log_term req.last_log_index
            ((last_log_info logs stable r).1)
            ((last_log_info logs stable r).0)
          ≡ true
        → VoteEffect r req after resp
    refused :
        resp.vote_granted ≡ false
        → (r.current_term < after.current_term) × (after.voted_for ≡ [])
          ⊎ (after.current_term ≡ r.current_term) × (after.voted_for ≡ r.voted_for)
        → VoteEffect r req after resp

  free_lem :
      (r : RaftNode L T) (candidate : Text)
      → (not (text_eq r.voted_for []) && not (text_eq r.voted_for candidate)) ≡ false
      → IsFree r candidate
  free_lem r candidate h = elim (Bool-cases (text_eq r.voted_for [])) [
    | inl e ↦ inl (text_eq-eq r.voted_for [] e)
    | inr n ↦ inr (text_eq-eq r.voted_for candidate (ground arith))
  ]

  cast-Effect :
      (r : RaftNode L T) (req : RequestVoteRequest)
      → r.current_term ≡ req.term
      → VoteEffect r req ((cast_vote logs stable r req).0) ((cast_vote logs stable r req).1)
  unfolding cast_vote persist_state is_log_up_to_date last_log_info
  cast-Effect r req e =
      elim (Bool-cases
        (not (text_eq r.voted_for []) && not (text_eq r.voted_for req.candidate_id))) [
          | inl y ↦ rw y (refused refl (inr (refl, refl)))
          | inr n ↦
              elim (Bool-cases (
                is_log_up_to_date req.last_log_term req.last_log_index
                  ((last_log_info logs stable r).1) ((last_log_info logs stable r).0))) [
                    | inl u ↦
                        rw n
                          (rw u (granted refl e e refl (inr (e, free_lem r req.candidate_id n)) u))
                    | inr u ↦ rw n (rw u (refused refl (inr (refl, refl))))
                  ]
        ]

  newer-Effect :
      (r after : RaftNode L T) (req : RequestVoteRequest) (resp : RequestVoteResponse)
      → r.current_term < req.term
      → VoteEffect (step_down logs stable req.term r) req after resp
      → VoteEffect r req after resp
  unfolding step_down persist_state last_log_info
  newer-Effect r after req resp h (granted a o b c d e) = granted a o b c (inl h) e
  newer-Effect r after req resp h (refused a (inl (b, c))) = refused a (inl (omega arith, c))
  newer-Effect r after req resp h (refused a (inr (b, c))) = refused a (inl (omega arith, c))

  -- Whatever a vote request holds, the handler grants it only as `VoteEffect` says: in the
  -- request's own term, which is no earlier than the node's, to the candidate that asks, when the
  -- node has no vote for another in that term, and when the candidate's log is up to date; a
  -- refusal leaves term and vote, or moves the node to a later term without a vote.
  pub handle_request_vote-Effect :
      (r : RaftNode L T) (req : RequestVoteRequest)
      → VoteEffect r req
          ((handle_request_vote logs stable r req).0)
          ((handle_request_vote logs stable r req).1)
  unfolding handle_request_vote
  handle_request_vote-Effect r req = elim (Bool-cases (ltb req.term r.current_term)) [
    | inl y ↦ rw y (refused refl (inr (refl, refl)))
    | inr n ↦ elim (Bool-cases (ltb r.current_term req.term)) [
      | inl y ↦ rw n (
          rw y (
            newer-Effect r _ req _ (ltb→lt r.current_term req.term y)
              (cast-Effect (step_down logs stable req.term r) req (unfold step_down in refl))))
      | inr m ↦ rw n (rw m (cast-Effect r req (ground arith)))
    ]
  ]
