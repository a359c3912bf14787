-- ===== src/Raft/Election/Count.antt =====
-- What comes of counting the votes that arrive.
use ds_collaborative_editor.Base.{
  ℕ, suc, ◌+◌, ◌/◌, ◌≤◌, ◌<◌, List, [], ◌∷◌, length, map, true, false, ltb, leb, ltb→lt, leb→le,
  if◌then◌else◌, if_true, if_false, Bool-cases, ◌≡◌, refl, sym, subst, ap, ◌∙◌, inl, inr, arith,
  All, Option, none, some,
}
use ds_collaborative_editor.Base.Int.{add64_lem, word_mod}
use ds_collaborative_editor.Base.Text.{Text}
use ds_collaborative_editor.Raft.Types.{leader, RequestVoteResponse, LogStore, StableStore}
use ds_collaborative_editor.Raft.Node.{RaftNode, persist_state, last_log_info, step_down}
use ds_collaborative_editor.Raft.Vote.{start_election}
use ds_collaborative_editor.Raft.Election.{
  is_candidate, quorum, become_leader, receive_vote, vote_loop, count_votes, run_candidate,
}

-- An answer of a peer, with its id.
abbrev pub Answer : Type 0
Answer = Text × RequestVoteResponse

abbrev pub responses : List Answer → List RequestVoteResponse
responses answers = map (λ (a : Answer). a.1) answers

-- The peers that grant.
abbrev pub grants_of : List Answer → List Text
grants_of [] = []
grants_of (a ∷ answers) = if a.1.vote_granted then a.0 ∷ grants_of answers else grants_of answers

module _ {L T : Type 0} (logs : LogStore L) (stable : StableStore T) where
  -- A vote is counted, and the loop goes on; or it is the last one wanted; or it brings a later
  -- term.
  pub data Received (r : RaftNode L T) (n : ℕ) (vote : RequestVoteResponse)
      (result : RaftNode L T × Option ℕ) : Type 0 where
    counted :
        vote.vote_granted ≡ true
        → result ≡ (r, some (suc n))
        → suc n < quorum logs stable r
        → Received r n vote result
    refused : vote.vote_granted ≡ false → result ≡ (r, some n) → Received r n vote result
    won :
        vote.vote_granted ≡ true
        → result ≡ (become_leader logs stable r, none)
        → quorum logs stable r ≤ suc n
        → Received r n vote result
    outdated :
        r.current_term < vote.term
        → result ≡ (step_down logs stable vote.term r, none)
        → Received r n vote result

  pub receive_vote-Received :
      (r : RaftNode L T) (n : ℕ) (vote : RequestVoteResponse)
      → Received r n vote (receive_vote logs stable r n vote)
  unfolding receive_vote
  receive_vote-Received r n vote = elim (Bool-cases (ltb r.current_term vote.term)) [
    | inl y ↦ outdated (ltb→lt _ _ y) (if_true _ _ y)
    | inr d ↦ elim (Bool-cases vote.vote_granted) [
      | inr v ↦ refused v (if_false _ _ d ∙ if_false _ _ v)
      | inl v ↦ elim (Bool-cases (leb (quorum logs stable r) (suc n))) [
        | inl q ↦ won v (if_false _ _ d ∙ (if_true _ _ v ∙ if_true _ _ q)) (leb→le _ _ q)
        | inr m ↦ counted v (if_false _ _ d ∙ (if_true _ _ v ∙ if_false _ _ m)) (ground arith)
      ]
    ]
  ]

  loop_of : {p q : RaftNode L T × Option ℕ} → p ≡ q → p.1 ≡ q.1
  loop_of e = ap (λ (x : RaftNode L T × Option ℕ). x.1) e

  node_of : {p q : RaftNode L T × Option ℕ} → p ≡ q → p.0 ≡ q.0
  node_of e = ap (λ (x : RaftNode L T × Option ℕ). x.0) e

  -- A round of the loop, where the rounds after it make a leader.
  receive_wins :
      (r : RaftNode L T) (n : ℕ) (a : Answer) (answers : List Answer)
      → Received r n (a.1) (receive_vote logs stable r n (a.1))
      → is_candidate r.state ≡ true
      → a.1.term ≤ r.current_term
      → n < quorum logs stable r
      → quorum logs stable r ≤ n + length (grants_of (a ∷ answers))
      → ((m : ℕ)
          → m < quorum logs stable r
          → quorum logs stable r ≤ m + length (grants_of answers)
          → vote_loop logs stable r m (responses answers) ≡ become_leader logs stable r)
      → vote_loop logs stable r n (responses (a ∷ answers)) ≡ become_leader logs stable r
  unfolding vote_loop
  receive_wins r n a answers (counted v e l) c s h k ih =
      if_true _ _ c ∙ rw (loop_of e, node_of e) (ih (suc n) l (let z = rw v at k in omega arith))
  receive_wins r n a answers (refused v e) c s h k ih =
      if_true _ _ c ∙ rw (loop_of e, node_of e) (ih n h (rw v at k))
  receive_wins r n a answers (won v e q) c s h k ih = if_true _ _ c ∙ rw (loop_of e, node_of e) refl
  receive_wins r n a answers (outdated t e) c s h k ih = absurd (omega arith)

  vote_loop_wins :
      (r : RaftNode L T) (n : ℕ) (answers : List Answer)
      → is_candidate r.state ≡ true
      → All (λ (a : Answer). a.1.term ≤ r.current_term) answers
      → n < quorum logs stable r
      → quorum logs stable r ≤ n + length (grants_of answers)
      → vote_loop logs stable r n (responses answers) ≡ become_leader logs stable r
  vote_loop_wins r n [] c s h k = absurd (omega arith)
  vote_loop_wins r n (a ∷ answers) c s h k =
      receive_wins r n a answers (receive_vote-Received r n (a.1)) c s.0 h k
        (λ m. vote_loop_wins r m answers c s.1)

  count_votes_wins :
      (r : RaftNode L T) (answers : List Answer)
      → is_candidate r.state ≡ true
      → All (λ (a : Answer). a.1.term ≤ r.current_term) answers
      → quorum logs stable r ≤ 1 + length (grants_of answers)
      → count_votes logs stable r (responses answers) ≡ become_leader logs stable r
  unfolding count_votes
  count_votes_wins r answers c s k = elim (Bool-cases (leb (quorum logs stable r) 1)) [
    | inl q ↦ if_true _ _ q
    | inr m ↦ if_false _ _ m ∙ vote_loop_wins r 1 answers c s (ground arith) k
  ]

  -- A node that stands for election.
  record IsStanding (r after : RaftNode L T) : Type 0 where
    pub term : after.current_term ≡ suc r.current_term
    pub state : after.state ≡ r.state
    pub vote : after.voted_for ≡ r.server_id
    pub peers : after.config_peers ≡ r.config_peers

  start_election-IsStanding :
      (r : RaftNode L T)
      → suc r.current_term < word_mod
      → IsStanding r ((start_election logs stable r).0)
  unfolding start_election persist_state last_log_info
  start_election-IsStanding r s = record {
    term = omega (arith, add64_lem r.current_term 1 (omega arith));
    state = refl;
    vote = refl;
    peers = refl;
  }

  quorum_same :
      (r after : RaftNode L T)
      → after.config_peers ≡ r.config_peers
      → quorum logs stable after ≡ quorum logs stable r
  unfolding quorum
  quorum_same r after e = ap (λ ps. length ps / 2 + 1) e

  -- A node that runs as a candidate and is answered in no later term than that of its
  -- election, with grants that make a quorum together with its own vote, becomes the leader of that
  -- term, which is the one after its last.
  pub run_candidate-leads :
      (r : RaftNode L T) (answers : List Answer)
      → is_candidate r.state ≡ true
      → suc r.current_term < word_mod
      → All (λ (a : Answer). a.1.term ≤ suc r.current_term) answers
      → quorum logs stable r ≤ 1 + length (grants_of answers)
      → ((run_candidate logs stable r (responses answers)).state ≡ leader)
        × ((run_candidate logs stable r (responses answers)).current_term ≡ suc r.current_term)
        × ((run_candidate logs stable r (responses answers)).voted_for ≡ r.server_id)
  unfolding run_candidate become_leader
  run_candidate-leads r answers c s h k =
      let m = start_election-IsStanding r s in
      let e =
        count_votes_wins ((start_election logs stable r).0) answers
          (subst (λ x. is_candidate x ≡ true) (sym m.state) c)
          (subst (λ t. All (λ (a : Answer). a.1.term ≤ t) answers) (sym m.term) h)
          (subst (λ q. q ≤ 1 + length (grants_of answers))
            (sym (quorum_same r ((start_election logs stable r).0) m.peers)) k) in
      subst
        (λ (x : RaftNode L T).
          (x.state ≡ leader) × (x.current_term ≡ suc r.current_term) × (x.voted_for ≡ r.server_id))
        (sym e) (refl, m.term, m.vote)
