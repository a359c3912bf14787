-- ===== src/Raft/Election/Race.antt =====
-- A candidate that is stepped down while it waits for a vote.
use ds_collaborative_editor.Base.{
  ℕ, suc, [], ◌≤◌, ◌<◌, ltb, leb, true, false, Option, ◌≡◌, refl, sym, subst, ◌∙◌, if_true,
  if_false, arith,
}
use ds_collaborative_editor.Raft.Types.{leader, RequestVoteResponse, LogStore, StableStore}
use ds_collaborative_editor.Raft.Node.{RaftNode, persist_state, step_down}
use ds_collaborative_editor.Raft.Election.{quorum, become_leader, receive_vote}

leb-true : (a b : ℕ) → a ≤ b → leb a b ≡ true
leb-true a b h = ground arith

module _ {L T : Type 0} (logs : LogStore L) (stable : StableStore T) where
  -- A candidate waits for the last vote that it wants, and a replicator of an earlier leadership
  -- steps it down to a later term. A vote of its own election that then arrives makes it the leader
  -- of the later term, in which it has not voted.
  pub receive_vote-stepped_down :
      (r : RaftNode L T) (votes t : ℕ) (vote : RequestVoteResponse)
      → vote.term ≡ r.current_term
      → vote.vote_granted ≡ true
      → quorum logs stable r ≤ suc votes
      → r.current_term < t
      → ((receive_vote logs stable (step_down logs stable t r) votes vote).0.state ≡ leader)
        × ((receive_vote logs stable (step_down logs stable t r) votes vote).0.current_term ≡ t)
        × ((receive_vote logs stable (step_down logs stable t r) votes vote).0.voted_for ≡ [])
  unfolding receive_vote step_down persist_state quorum become_leader
  receive_vote-stepped_down r votes t vote e v q h =
      let n : ltb t vote.term ≡ false = ground arith in
      let y : leb (quorum logs stable (step_down logs stable t r)) (suc votes) ≡ true =
        leb-true _ _ q in
      subst
        (λ (x : RaftNode L T × Option ℕ).
          (x.0.state ≡ leader) × (x.0.current_term ≡ t) × (x.0.voted_for ≡ []))
        (sym (if_false _ _ n ∙ (if_true _ _ v ∙ if_true _ _ y))) (refl, refl, refl)
