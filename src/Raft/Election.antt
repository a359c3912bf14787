-- ===== src/Raft/Election.antt =====
-- internal/raft/raft.go: a candidate that counts its votes, `runCandidate`.
pub mod Quorum
pub mod Rule
pub mod Kept
pub mod Lawful
pub mod Count
pub mod Race
use ds_collaborative_editor.Base.{
  ℕ, suc, ◌+◌, ◌/◌, List, [], ◌∷◌, length, Option, none, some, Bool, true, false, ltb, leb,
  if◌then◌else◌,
}
use ds_collaborative_editor.Raft.Types.{
  ServerState, follower, candidate, leader, RequestVoteRequest, RequestVoteResponse, LogStore,
  StableStore,
}
use ds_collaborative_editor.Raft.Node.{RaftNode, find_addr, step_down}
use ds_collaborative_editor.Raft.Vote.{start_election}

unfoldable pub is_candidate : ServerState → Bool
is_candidate candidate = true
is_candidate follower = false
is_candidate leader = false

module _ {L T : Type 0} (logs : LogStore L) (stable : StableStore T) where
  unfoldable pub quorum : RaftNode L T → ℕ
  quorum r = length r.config_peers / 2 + 1

  -- The election timer of a follower has run out.
  unfoldable pub time_out : RaftNode L T → RaftNode L T
  time_out r = record r { state = candidate }

  unfoldable pub become_leader : RaftNode L T → RaftNode L T
  become_leader r = record r {
    state = leader;
    leader_id = r.server_id;
    leader_addr = find_addr r.config_peers r.server_id r.leader_addr;
  }

  -- What the loop does with a vote after it has waited for it, with the number of votes so far: the
  -- node, and the number of votes or, where the loop returns, `none`. The state of the node is not
  -- tested again.
  unfoldable pub receive_vote : RaftNode L T → ℕ → RequestVoteResponse → RaftNode L T × Option ℕ
  unfolding quorum become_leader
  receive_vote r votes vote =
      if ltb r.current_term vote.term
      then (step_down logs stable vote.term r, none)
      else if vote.vote_granted
      then (if leb (quorum r) (suc votes) then (become_leader r, none) else (r, some (suc votes)))
      else (r, some votes)

  -- The loop as long as it receives nothing but votes, and no replicator changes the node.
  unfoldable pub vote_loop : RaftNode L T → ℕ → List RequestVoteResponse → RaftNode L T
  unfolding is_candidate receive_vote
  vote_loop r votes [] = r
  vote_loop r votes (vote ∷ rest) =
      let next = receive_vote r votes vote in
      let after : RaftNode L T = elim (next.1) [
        | none ↦ next.0
        | some more ↦ vote_loop (next.0) more rest
      ] in
      if is_candidate r.state then after else r

  -- From the start of the election on, for the votes that arrive before the timer runs out.
  unfoldable pub count_votes : RaftNode L T → List RequestVoteResponse → RaftNode L T
  unfolding quorum become_leader vote_loop
  count_votes r answers = if leb (quorum r) 1 then become_leader r else vote_loop r 1 answers

  unfoldable pub run_candidate : RaftNode L T → List RequestVoteResponse → RaftNode L T
  unfolding count_votes
  run_candidate r answers = count_votes ((start_election logs stable r).0) answers
