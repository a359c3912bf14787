-- ===== src/Raft/Cluster/Moves.antt =====
-- What each handler does to a node's term, vote and state is a move of the rules.
use ds_collaborative_editor.Base.{
  ℕ, suc, ◌<◌, List, [], ◌∷◌, true, false, not, ◌&&◌, Bool, Bool-cases, ltb, ltb→lt, if_true,
  if_both, ◌≡◌, ◌≢◌, refl, sym, ◌∙◌, ap, subst, ◌⊎◌, inl, inr, arith,
}
use ds_collaborative_editor.Base.Int.{word_mod, add64, add64_lem}
use ds_collaborative_editor.Base.Text.{Text, text_eq}
use ds_collaborative_editor.Raft.Types.{
  follower, candidate, ServerState, AppendEntriesRequest, RequestVoteRequest, RequestVoteResponse,
  LogStore, StableStore,
}
use ds_collaborative_editor.Raft.Node.{RaftNode, persist_state, step_down, last_log_info}
use ds_collaborative_editor.Raft.Vote.{
  is_log_up_to_date, cast_vote, handle_request_vote, start_election,
}
use ds_collaborative_editor.Raft.Vote.Effect.{
  VoteEffect, IsFree, granted, refused, handle_request_vote-Effect,
}
use ds_collaborative_editor.Raft.Vote.Once.{
  IsSaved, IsStable, persist-IsSaved, handle_request_vote-IsSaved,
}
use ds_collaborative_editor.Raft.Append.{
  Check, consistent, conflict, append_loop, update_commit, stored, checked,
}
use ds_collaborative_editor.Raft.Election.{time_out}
use ds_collaborative_editor.Raft.Election.Rule.{
  Grant, Win, Change, later, later_vote, starts, stays, votes,
}
use ds_collaborative_editor.Raft.Cluster.{view, IsSame, with_grant}

module _ {L T : Type 0} (logs : LogStore L) (stable : StableStore T) where
  -- A node has moved by a rule, under its id and with its peers, and its stores hold its term and
  -- vote if they did.
  pub record IsMoved (ids : List Text) (i : Text) (gs : List Grant) (ws : List Win)
      (r after : RaftNode L T) (gs' : List Grant) (ws' : List Win) : Type 0 where
    pub change : Change ids i gs ws (view logs stable r) (view logs stable after) gs' ws'
    pub server : after.server_id ≡ r.server_id
    pub peers : after.config_peers ≡ r.config_peers
    pub saved : IsSaved logs stable after

  pub start-IsMoved :
      (ids : List Text) (gs : List Grant) (ws : List Win) (r : RaftNode L T)
      → IsStable stable
      → r.server_id ≢ []
      → suc r.current_term < word_mod
      → IsMoved ids r.server_id gs ws r
          ((start_election logs stable (time_out logs stable r)).0)
          ((r.server_id, (start_election logs stable (time_out logs stable r)).1.term, r.server_id)
            ∷ gs)
          ws
  unfolding start_election time_out last_log_info persist_state
  start-IsMoved ids gs ws r h ne s =
      let t = add64_lem r.current_term 1 (omega arith) in
      record {
        change = starts (omega arith) refl (λ e. cc) ne;
        server = refl;
        peers = refl;
        saved =
            unfold persist_state in
            persist-IsSaved logs stable
              (record r {
                state = candidate;
                current_term = add64 r.current_term 1;
                voted_for = r.server_id;
              })
              h (omega arith);
      }

  pub start_late-IsMoved :
      (ids : List Text) (gs : List Grant) (ws : List Win) (r : RaftNode L T)
      → IsStable stable
      → r.state ≡ follower
      → r.server_id ≢ []
      → suc r.current_term < word_mod
      → IsMoved ids r.server_id gs ws r
          ((start_election logs stable r).0)
          ((r.server_id, (start_election logs stable r).1.term, r.server_id) ∷ gs)
          ws
  unfolding start_election last_log_info persist_state
  start_late-IsMoved ids gs ws r h f ne s =
      let t = add64_lem r.current_term 1 (omega arith) in
      record {
        change = starts (omega arith) refl (λ e. cc) ne;
        server = refl;
        peers = refl;
        saved =
            unfold persist_state in
            persist-IsSaved logs stable
              (record r { current_term = add64 r.current_term 1; voted_for = r.server_id }) h
              (omega arith);
      }

  -- The node under another term or state, with the same configuration.
  record IsPlaced (r after : RaftNode L T) (t : ℕ) (s : ServerState) : Type 0 where
    pub server : after.server_id ≡ r.server_id
    pub peers : after.config_peers ≡ r.config_peers
    pub term : after.current_term ≡ t
    pub state : after.state ≡ s

  cast-IsPlaced :
      (r : RaftNode L T) (req : RequestVoteRequest)
      → IsPlaced r ((cast_vote logs stable r req).0) r.current_term r.state
  unfolding cast_vote is_log_up_to_date last_log_info persist_state
  cast-IsPlaced r req =
      elim (Bool-cases
        (not (text_eq r.voted_for []) && not (text_eq r.voted_for req.candidate_id))) [
          | inl y ↦ rw y (record { server = refl; peers = refl; term = refl; state = refl })
          | inr n ↦
              elim (Bool-cases (
                is_log_up_to_date req.last_log_term req.last_log_index
                  ((last_log_info logs stable r).1) ((last_log_info logs stable r).0))) [
                    | inl u ↦
                        rw n
                          (rw u (record { server = refl; peers = refl; term = refl; state = refl }))
                    | inr u ↦
                        rw n
                          (rw u (record { server = refl; peers = refl; term = refl; state = refl }))
                  ]
        ]

  down-IsPlaced :
      (r after : RaftNode L T) (t : ℕ)
      → IsPlaced
          (step_down logs stable t r)
          after
          ((step_down logs stable t r).current_term)
          ((step_down logs stable t r).state)
      → IsPlaced r after t follower
  unfolding step_down persist_state
  down-IsPlaced r after t p = record {
    server = p.server;
    peers = p.peers;
    term = p.term;
    state = p.state;
  }

  -- A vote request leaves term and state, or makes a follower of a later term.
  vote-IsPlaced :
      (r : RaftNode L T) (req : RequestVoteRequest)
      → IsPlaced r ((handle_request_vote logs stable r req).0) r.current_term r.state
        ⊎ (r.current_term < req.term)
          × IsPlaced r ((handle_request_vote logs stable r req).0) req.term follower
  unfolding handle_request_vote
  vote-IsPlaced r req = elim (Bool-cases (ltb req.term r.current_term)) [
    | inl y ↦ rw y (inl (record { server = refl; peers = refl; term = refl; state = refl }))
    | inr n ↦ elim (Bool-cases (ltb r.current_term req.term)) [
      | inl y ↦ rw n (
          rw y (
            inr (
              ltb→lt _ _ y,
              down-IsPlaced r _ req.term (cast-IsPlaced (step_down logs stable req.term r) req),
            )))
      | inr m ↦ rw n (rw m (inl (cast-IsPlaced r req)))
    ]
  ]

  noted :
      (i : Text) (req : RequestVoteRequest) (after : RaftNode L T) (resp : RequestVoteResponse)
      → resp.term ≡ after.current_term
      → req.candidate_id ≡ after.voted_for
      → ◌≡◌ {A = Grant} (i, resp.term, req.candidate_id) (i, after.current_term, after.voted_for)
  noted i req after resp e v = rw (e, v) refl

  vote_change :
      (ids : List Text) (i : Text) (gs : List Grant) (ws : List Win) (r after : RaftNode L T)
      (req : RequestVoteRequest) (resp : RequestVoteResponse)
      → req.candidate_id ≢ []
      → req.candidate_id ≢ i
      → VoteEffect logs stable r req after resp
      → IsPlaced r after r.current_term r.state
        ⊎ (r.current_term < req.term) × IsPlaced r after req.term follower
      → Change ids i gs ws
          (view logs stable r)
          (view logs stable after)
          (with_grant logs stable i req resp gs)
          ws
  vote_change ids i gs ws r after req resp ne ns (granted y o t c f _) p =
      subst (λ g. Change ids i gs ws (view logs stable r) (view logs stable after) g ws)
        (sym
          (if_true _ _ y ∙ ap (λ (g : Grant). g ∷ gs) (noted i req after resp (o ∙ sym t) (sym c))))
        (given p f)
    where
      ne' : after.voted_for ≢ []
      ne' e = ne (sym c ∙ e)

      ns' : after.voted_for ≢ i
      ns' e = ns (sym c ∙ e)

      given :
          IsPlaced r after r.current_term r.state
            ⊎ (r.current_term < req.term) × IsPlaced r after req.term follower
          → (r.current_term < req.term)
            ⊎ ((r.current_term ≡ req.term) × IsFree logs stable r req.candidate_id)
          → Change ids i gs ws
              (view logs stable r)
              (view logs stable after)
              ((i, after.current_term, after.voted_for) ∷ gs)
              ws
      given (inr (h, q)) g = later_vote (let k = q.term in omega arith) q.state ne' ns'
      given (inl q) (inl h) = absurd (let k = q.term in omega arith)
      given (inl q) (inr (e, inl v)) = votes q.term (inl v) ne' ns' q.state
      given (inl q) (inr (e, inr v)) = votes q.term (inr (v ∙ sym c)) ne' ns' q.state
  vote_change ids i gs ws r after req resp ne ns (refused n (inl (h, v))) (inl p) =
      absurd (let k = p.term in omega arith)
  vote_change ids i gs ws r after req resp ne ns (refused n (inl (h, v))) (inr (_, p)) =
      rw n (later h p.state)
  vote_change ids i gs ws r after req resp ne ns (refused n (inr (t, v))) (inl p) =
      rw n (stays t v (inl p.state))
  vote_change ids i gs ws r after req resp ne ns (refused n (inr (t, v))) (inr (h, p)) =
      absurd (let k = p.term in omega arith)

  pub vote-IsMoved :
      (ids : List Text) (i : Text) (gs : List Grant) (ws : List Win) (r : RaftNode L T)
      (req : RequestVoteRequest)
      → IsStable stable
      → IsSaved logs stable r
      → req.candidate_id ≢ []
      → req.candidate_id ≢ i
      → req.term < word_mod
      → IsMoved ids i gs ws r
          ((handle_request_vote logs stable r req).0)
          (with_grant logs stable i req ((handle_request_vote logs stable r req).1) gs)
          ws
  vote-IsMoved ids i gs ws r req h s ne ns k =
      let p = vote-IsPlaced r req in
      record {
        change =
            vote_change ids i gs ws r _ req _ ne ns (handle_request_vote-Effect logs stable r req)
              p;
        server = elim p [ inl q ↦ q.server | inr (_, q) ↦ q.server ];
        peers = elim p [ inl q ↦ q.peers | inr (_, q) ↦ q.peers ];
        saved = handle_request_vote-IsSaved logs stable r req h k s;
      }

  stored-IsSame :
      (r : RaftNode L T) (req : AppendEntriesRequest) (s : L × Bool)
      → IsSame logs stable r ((stored logs stable r req s).0)
  unfolding stored update_commit
  stored-IsSame r req (l, false) = record {
    server = refl;
    peers = refl;
    term = refl;
    vote = refl;
    state = refl;
    store = refl;
  }
  stored-IsSame r req (l, true) =
      if_both {A = RaftNode L T} (IsSame logs stable r) (ltb r.commit_index req.leader_commit) _
        (record r { log_store = l })
        (record {
          server = refl;
          peers = refl;
          term = refl;
          vote = refl;
          state = refl;
          store = refl;
        })
        (record {
          server = refl;
          peers = refl;
          term = refl;
          vote = refl;
          state = refl;
          store = refl;
        })

  -- A part of a handler that keeps what the rules are about.
  pub checked-IsSame :
      (r : RaftNode L T) (req : AppendEntriesRequest) (c : Check)
      → IsSame logs stable r ((checked logs stable r req c).0)
  unfolding checked
  checked-IsSame r req (conflict t i) = record {
    server = refl;
    peers = refl;
    term = refl;
    vote = refl;
    state = refl;
    store = refl;
  }
  checked-IsSame r req consistent = stored-IsSame r req (append_loop logs r.log_store req.entries)

  -- A node that is a candidate after a vote request is in the term that it was in.
  pub handle_request_vote_kept :
      (r : RaftNode L T) (req : RequestVoteRequest)
      → ((handle_request_vote logs stable r req).0).state ≡ candidate
      → ((handle_request_vote logs stable r req).0).current_term ≡ r.current_term
  handle_request_vote_kept r req c = elim (vote-IsPlaced r req) [
    | inl p ↦ p.term
    | inr (h, p) ↦ let f = p.state in cc
  ]
