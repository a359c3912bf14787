-- ===== src/Raft/Vote/Twice.antt =====
-- A candidate that hears of the leader of its term forgets its vote.
use ds_collaborative_editor.Base.{[], true, false, Bool, ltb, if_both, ◌≡◌, refl, sym, ◌∙◌, arith}
use ds_collaborative_editor.Base.Text.{text_eq}
use ds_collaborative_editor.Raft.Types.{
  candidate, AppendEntriesRequest, RequestVoteRequest, LogStore, StableStore,
}
use ds_collaborative_editor.Raft.Node.{RaftNode, persist_state, step_down, last_log_info}
use ds_collaborative_editor.Raft.Vote.{is_log_up_to_date, cast_vote, handle_request_vote}
use ds_collaborative_editor.Raft.Append.Match.{follow_leader_term}
use ds_collaborative_editor.Raft.Append.{
  Check, consistent, conflict, is_follower, follow_leader, check_previous, checked, stored,
  append_loop, handle_append_entries, update_commit,
}

module _ {L T : Type 0} (logs : LogStore L) (stable : StableStore T) where
  -- After any AppendEntries of its own term, a candidate has no vote in that term.
  forgets :
      (r : RaftNode L T) (req : AppendEntriesRequest)
      → r.state ≡ candidate
      → req.term ≡ r.current_term
      → (follow_leader logs stable r req).voted_for ≡ []
  unfolding follow_leader is_follower step_down persist_state
  forgets r req s e = rw s (ground (arith, e))

  stored_vote :
      (f : RaftNode L T) (req : AppendEntriesRequest) (s : L × Bool)
      → ((stored logs stable f req s).0.voted_for ≡ f.voted_for)
        × ((stored logs stable f req s).0.current_term ≡ f.current_term)
  unfolding stored update_commit
  stored_vote f req (l, true) =
      if_both {A = RaftNode L T}
        (λ a. (a.voted_for ≡ f.voted_for) × (a.current_term ≡ f.current_term))
        (ltb f.commit_index req.leader_commit) _ (record f { log_store = l }) (refl, refl)
        (refl, refl)
  stored_vote f req (l, false) = (refl, refl)

  checked_vote :
      (f : RaftNode L T) (req : AppendEntriesRequest) (c : Check)
      → ((checked logs stable f req c).0.voted_for ≡ f.voted_for)
        × ((checked logs stable f req c).0.current_term ≡ f.current_term)
  unfolding checked
  checked_vote f req consistent = stored_vote f req (append_loop logs f.log_store req.entries)
  checked_vote f req (conflict t i) = (refl, refl)

  handle_vote :
      (r : RaftNode L T) (req : AppendEntriesRequest)
      → r.state ≡ candidate
      → req.term ≡ r.current_term
      → ((handle_append_entries logs stable r req).0.voted_for ≡ [])
        × ((handle_append_entries logs stable r req).0.current_term ≡ r.current_term)
  unfolding handle_append_entries
  handle_vote r req s e =
      let n : ltb req.term r.current_term ≡ false = ground (arith, e) in
      let f = follow_leader logs stable r req in
      let (v, t) = checked_vote f req (check_previous logs f.log_store req) in
      rw n (v ∙ forgets r req s e, t ∙ (follow_leader_term logs stable r req n ∙ e))

  free_grants :
      (r : RaftNode L T) (req : RequestVoteRequest)
      → r.voted_for ≡ []
      → req.term ≡ r.current_term
      → is_log_up_to_date req.last_log_term req.last_log_index
          ((last_log_info logs stable r).1)
          ((last_log_info logs stable r).0)
        ≡ true
      → (handle_request_vote logs stable r req).1.vote_granted ≡ true
  unfolding handle_request_vote cast_vote is_log_up_to_date last_log_info text_eq
  free_grants r req v e u =
      let n : ltb req.term r.current_term ≡ false = ground (arith, e) in
      let m : ltb r.current_term req.term ≡ false = ground (arith, e) in rw (n, m, v) (rw u refl)

  -- A candidate, which has voted for itself in its term, that gets an AppendEntries request of
  -- that term has no vote any more, and its term is the same: it grants a vote in that term
  -- to every candidate whose log is up to date.
  pub handle_append_entries-votes_again :
      (r : RaftNode L T) (req : AppendEntriesRequest) (vote : RequestVoteRequest)
      → r.state ≡ candidate
      → req.term ≡ r.current_term
      → vote.term ≡ r.current_term
      → is_log_up_to_date vote.last_log_term vote.last_log_index
          ((last_log_info logs stable ((handle_append_entries logs stable r req).0)).1)
          ((last_log_info logs stable ((handle_append_entries logs stable r req).0)).0)
        ≡ true
      → (handle_request_vote logs stable
          ((handle_append_entries logs stable r req).0)
          vote).1.vote_granted
        ≡ true
  handle_append_entries-votes_again r req vote s e t u =
      let (v, k) = handle_vote r req s e in free_grants _ vote v (t ∙ sym k) u
