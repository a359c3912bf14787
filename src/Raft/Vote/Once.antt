-- ===== src/Raft/Vote/Once.antt =====
-- A node votes for one candidate a term, also across restarts.
use ds_collaborative_editor.Base.{
  ℕ, ◌<◌, List, [], ◌∷◌, ◌++◌, Option, none, some, true, false, if◌then◌else◌, if_both, ltb, not,
  ◌&&◌, Bool-cases, ◌≡◌, ◌≢◌, refl, sym, subst, ◌∙◌, ◌⊎◌, inl, inr, arith, All, All-append, All-map,
}
use ds_collaborative_editor.Base.Int.{word_mod}
use ds_collaborative_editor.Base.Text.{Text, text_eq}
use ds_collaborative_editor.Raft.Types.{
  RequestVoteRequest, RequestVoteResponse, LogStore, StableStore, follower, key_current_term,
  key_voted_for,
}
use ds_collaborative_editor.Raft.Node.{
  RaftNode, keep, persist_state, restore_state, step_down, last_log_info,
}
use ds_collaborative_editor.Raft.Vote.{is_log_up_to_date, cast_vote, handle_request_vote}
use ds_collaborative_editor.Raft.Vote.Effect.{
  VoteEffect, granted, refused, IsFree, handle_request_vote-Effect,
}

-- A stable store whose writes succeed, and where a read gives what was written last.
pub record IsStable {T : Type 0} (stable : StableStore T) : Type 0 where
  pub wrote :
      (s : T) (t : ℕ) (v : Text)
      → t < word_mod
      → (a : T) × (b : T) × (stable.set_uint64 s key_current_term t ≡ some a)
        × (stable.set a key_voted_for v ≡ some b)
        × (stable.get_uint64 b key_current_term ≡ some t)
        × (stable.get b key_voted_for ≡ some v)

-- What happens to a node: it is asked for a vote, or it stops and starts again from its stores.
pub data Event : Type 0 where
  ask : RequestVoteRequest → Event
  restart : Event

-- The terms of requests are uint64.
abbrev pub IsSmall : Event → Type 0
IsSmall (ask req) = req.term < word_mod
IsSmall restart = Unit

module _ {L T : Type 0} (logs : LogStore L) (stable : StableStore T) where
  -- The store holds the node's term and vote.
  pub record IsSaved (r : RaftNode L T) : Type 0 where
    pub small : r.current_term < word_mod
    pub term : stable.get_uint64 r.stable_store key_current_term ≡ some r.current_term
    pub vote : stable.get r.stable_store key_voted_for ≡ some r.voted_for

  pub persist-IsSaved :
      (r : RaftNode L T)
      → IsStable stable
      → r.current_term < word_mod
      → IsSaved (persist_state logs stable r)
  unfolding persist_state keep
  persist-IsSaved r h k =
      let (a, b, sa, sb, gt, gv) = h.wrote r.stable_store r.current_term r.voted_for k in
      record { small = k; term = rw (sa, sb) gt; vote = rw (sa, sb) gv }

  cast-IsSaved :
      (r : RaftNode L T) (req : RequestVoteRequest)
      → IsStable stable
      → IsSaved r
      → IsSaved ((cast_vote logs stable r req).0)
  unfolding cast_vote is_log_up_to_date last_log_info
  cast-IsSaved r req h s =
      elim (Bool-cases
        (not (text_eq r.voted_for []) && not (text_eq r.voted_for req.candidate_id))) [
          | inl y ↦ rw y s
          | inr n ↦
              elim (Bool-cases (
                is_log_up_to_date req.last_log_term req.last_log_index
                  ((last_log_info logs stable r).1) ((last_log_info logs stable r).0))) [
                    | inl u ↦ rw n (
                        rw u
                          (persist-IsSaved (record r { voted_for = req.candidate_id }) h s.small))
                    | inr u ↦ rw n (rw u s)
                  ]
        ]

  -- Every vote request leaves the term and the vote in the stable store, if they were there.
  pub handle_request_vote-IsSaved :
      (r : RaftNode L T) (req : RequestVoteRequest)
      → IsStable stable
      → req.term < word_mod
      → IsSaved r
      → IsSaved ((handle_request_vote logs stable r req).0)
  unfolding handle_request_vote
  handle_request_vote-IsSaved r req h k s = elim (Bool-cases (ltb req.term r.current_term)) [
    | inl y ↦ rw y s
    | inr n ↦ rw n (
        cast-IsSaved _ req h (
          if_both IsSaved (ltb r.current_term req.term) (step_down logs stable req.term r) r
            (unfold step_down in persist-IsSaved _ h k) s))
  ]

  -- A node that starts again with the stores and configuration of `r`: a follower that knows no
  -- leader and has applied nothing.
  unfoldable pub rebooted : RaftNode L T → RaftNode L T
  rebooted r = record r {
    current_term = 0;
    voted_for = [];
    state = follower;
    commit_index = 0;
    last_applied = 0;
    leader_id = [];
    leader_addr = [];
    commit_notify = false;
  }

  -- The node after an event; a restart that fails leaves no node.
  unfoldable pub after_event : RaftNode L T → Event → Option (RaftNode L T)
  after_event r (ask req) = some ((handle_request_vote logs stable r req).0)
  after_event r restart = restore_state logs stable (rebooted r)

  -- The vote that an event gives.
  unfoldable pub vote_of : RaftNode L T → Event → List (ℕ × Text)
  vote_of r (ask req) =
      let (after, resp, reset) = handle_request_vote logs stable r req in
      if resp.vote_granted then (resp.term, req.candidate_id) ∷ [] else []
  vote_of r restart = []

  -- The votes that a node gives, with their terms.
  unfoldable pub votes : RaftNode L T → List Event → List (ℕ × Text)
  votes r [] = []
  votes r (e ∷ es) = elim (after_event r e) [
    | none ↦ vote_of r e
    | some after ↦ vote_of r e ++ votes after es
  ]

  pub restored :
      (r : RaftNode L T)
      → IsSaved r
      → after_event r restart
        ≡ some (record (rebooted r) { current_term = r.current_term; voted_for = r.voted_for })
  unfolding after_event restore_state rebooted
  restored r s = rw (s.term, s.vote, restore_state) refl

  -- A vote that a node may still give: in a later term, or for the candidate that it has voted for.
  abbrev pub IsOpen : RaftNode L T → ℕ × Text → Type 0
  IsOpen r v = (r.current_term < v.0) ⊎ ((v.0 ≡ r.current_term) × IsFree logs stable r (v.1))

  -- What is open to a node after a vote request was open to it before.
  vote-IsOpen :
      (r after : RaftNode L T) (req : RequestVoteRequest) (resp : RequestVoteResponse)
      (v : ℕ × Text)
      → VoteEffect logs stable r req after resp
      → IsOpen after v
      → IsOpen r v
  vote-IsOpen r after req resp v (granted _ _ t c (inl h) _) (inl k) = inl (omega arith)
  vote-IsOpen r after req resp v (granted _ _ t c (inl h) _) (inr (k, f)) = inl (omega arith)
  vote-IsOpen r after req resp v (granted _ _ t c (inr (h, g)) _) (inl k) = inl (omega arith)
  vote-IsOpen r after req resp v (granted _ _ t c (inr (h, inl g)) _) (inr (k, f)) =
      inr (omega arith, inl g)
  vote-IsOpen r after req resp v (granted _ _ t c (inr (h, inr g)) _) (inr (k, inl f)) =
      inr (omega arith, inl (g ∙ (sym c ∙ f)))
  vote-IsOpen r after req resp v (granted _ _ t c (inr (h, inr g)) _) (inr (k, inr f)) =
      inr (omega arith, inr (g ∙ (sym c ∙ f)))
  vote-IsOpen r after req resp v (refused _ (inl (h, g))) (inl k) = inl (omega arith)
  vote-IsOpen r after req resp v (refused _ (inl (h, g))) (inr (k, f)) = inl (omega arith)
  vote-IsOpen r after req resp v (refused _ (inr (h, g))) (inl k) = inl (omega arith)
  vote-IsOpen r after req resp v (refused _ (inr (h, g))) (inr (k, inl f)) =
      inr (omega arith, inl (sym g ∙ f))
  vote-IsOpen r after req resp v (refused _ (inr (h, g))) (inr (k, inr f)) =
      inr (omega arith, inr (sym g ∙ f))

  -- A vote that a request gives was open.
  vote_of-IsOpen :
      (r after : RaftNode L T) (req : RequestVoteRequest) (resp : RequestVoteResponse)
      → VoteEffect logs stable r req after resp
      → All (IsOpen r) (if resp.vote_granted then (resp.term, req.candidate_id) ∷ [] else [])
  vote_of-IsOpen r after req resp (granted y o t c (inl h) _) = rw y (inl (omega arith), tt)
  vote_of-IsOpen r after req resp (granted y o t c (inr (h, g)) _) = rw y (inr (omega arith, g), tt)
  vote_of-IsOpen r after req resp (refused n _) = rw n tt

  abbrev pub restarted : RaftNode L T → RaftNode L T
  restarted r = record (rebooted r) { current_term = r.current_term; voted_for = r.voted_for }

  votes_restart :
      (r : RaftNode L T) (es : List Event)
      → IsSaved r
      → votes r (restart ∷ es) ≡ votes (restarted r) es
  unfolding votes vote_of
  votes_restart r es s = rw (restored r s, votes) refl

  votes-IsOpen :
      (r : RaftNode L T) (es : List Event)
      → IsStable stable
      → All IsSmall es
      → IsSaved r
      → All (IsOpen r) (votes r es)
  unfolding votes after_event vote_of
  votes-IsOpen r [] h k s = tt
  votes-IsOpen r (restart ∷ es) h k s = subst (All (IsOpen r)) (sym (votes_restart r es s)) (
      All-map (IsOpen (restarted r)) (IsOpen r) (votes (restarted r) es)
        (λ v o. unfold rebooted in o)
        (votes-IsOpen (restarted r) es h k.1
          (unfold rebooted in record { small = s.small; term = s.term; vote = s.vote })))
  votes-IsOpen r (ask req ∷ es) h k s =
      All-append (IsOpen r) _ _
        (vote_of-IsOpen r _ req _ (handle_request_vote-Effect logs stable r req))
        (All-map _ _ _ (λ v. vote-IsOpen r _ req _ v (handle_request_vote-Effect logs stable r req))
          (votes-IsOpen _ es h k.1 (handle_request_vote-IsSaved r req h k.0 s)))

  -- A node whose stable store works and holds its term and vote, and that grants a vote to a
  -- candidate with an id: every vote that it gives later, through any restarts and any vote
  -- requests with terms below 2 ^ 64, is in a later term or is the same vote.
  pub handle_request_vote-votes :
      (r : RaftNode L T) (req : RequestVoteRequest) (es : List Event)
      → IsStable stable
      → IsSaved r
      → req.term < word_mod
      → All IsSmall es
      → (handle_request_vote logs stable r req).1.vote_granted ≡ true
      → req.candidate_id ≢ []
      → All
          (λ v. (req.term < v.0) ⊎ ((v.0 ≡ req.term) × (v.1 ≡ req.candidate_id)))
          (votes ((handle_request_vote logs stable r req).0) es)
  handle_request_vote-votes r req es h s k ks y ne =
      All-map _ _ _ (only (handle_request_vote-Effect logs stable r req))
        (votes-IsOpen _ es h ks (handle_request_vote-IsSaved r req h k s))
    where
      only :
          VoteEffect logs stable r req
            ((handle_request_vote logs stable r req).0)
            ((handle_request_vote logs stable r req).1)
          → (v : ℕ × Text) → IsOpen ((handle_request_vote logs stable r req).0) v
          → (req.term < v.0) ⊎ ((v.0 ≡ req.term) × (v.1 ≡ req.candidate_id))
      only (granted _ _ t c _ _) v (inl l) = inl (omega arith)
      only (granted _ _ t c _ _) v (inr (e, inl f)) = absurd (ne (sym c ∙ f))
      only (granted _ _ t c _ _) v (inr (e, inr f)) = inr (e ∙ t, sym f ∙ c)
      only (refused n _) v o = cc
