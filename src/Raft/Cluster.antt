-- ===== src/Raft/Cluster.antt =====
-- internal/raft: nodes that vote, stand for election and hear of leaders, in any order.
pub mod Moves
pub mod Leaders
pub mod Elected
pub mod Polls
pub mod Place
pub mod Invariant
pub mod Safety
use ds_collaborative_editor.Base.{
  ℕ, suc, ◌+◌, ◌<◌, List, [], ◌∷◌, map, Option, none, some, ◌≤◌, true, false, if◌then◌else◌, ◌≡◌,
  ◌≢◌, All,
}
use ds_collaborative_editor.Base.Int.{word_mod}
use ds_collaborative_editor.Base.Text.{Text, text_eq}
use ds_collaborative_editor.Raft.Types.{
  follower, leader, PeerConfig, AppendEntriesRequest, RequestVoteRequest, RequestVoteResponse,
  LogStore, StableStore,
}
use ds_collaborative_editor.Raft.Node.{RaftNode, restore_state, step_down}
use ds_collaborative_editor.Raft.Vote.{handle_request_vote, start_election}
use ds_collaborative_editor.Raft.Vote.Once.{IsSaved, rebooted}
use ds_collaborative_editor.Raft.Append.{handle_append_entries}
use ds_collaborative_editor.Raft.Replicate.{is_leader}
use ds_collaborative_editor.Raft.Election.{
  is_candidate, quorum, time_out, become_leader, receive_vote,
}
use ds_collaborative_editor.Raft.Election.Quorum.{IsIn, AreDistinct}
use ds_collaborative_editor.Raft.Election.Rule.{View, Grant, Win}
use ds_collaborative_editor.Raft.Election.Count.{Answer}

-- A candidate that waits for votes: the term of its election, the number of votes so far, and the
-- answers that it has received.
pub record Poll : Type 0 where
  pub term : ℕ
  pub votes : ℕ
  pub heard : List Answer

-- The nodes by their ids, those that wait for votes, and the votes that have been given and the
-- elections that have been won so far.
pub record Cluster (L T : Type 0) : Type 0 where
  pub nodes : Text → RaftNode L T
  pub polls : Text → Option Poll
  pub grants : List Grant
  pub wins : List Win

unfoldable pub place {ℓ} : {A : Type ℓ} → Text → A → (Text → A) → Text → A
place i x f j = if text_eq j i then x else f j

-- The ids of the peers in a configuration.
abbrev pub ids_of : List PeerConfig → List Text
ids_of ps = map (λ (p : PeerConfig). p.id) ps

abbrev pub senders : List Answer → List Text
senders answers = map (λ (a : Answer). a.0) answers

module _ {L T : Type 0} (logs : LogStore L) (stable : StableStore T) where
  abbrev pub view : RaftNode L T → View
  view r = record { term = r.current_term; voted_for = r.voted_for; state = r.state }

  -- Two states of a node that differ only outside term, vote, state and configuration.
  pub record IsSame (r after : RaftNode L T) : Type 0 where
    pub server : after.server_id ≡ r.server_id
    pub peers : after.config_peers ≡ r.config_peers
    pub term : after.current_term ≡ r.current_term
    pub vote : after.voted_for ≡ r.voted_for
    pub state : after.state ≡ r.state
    pub store : after.stable_store ≡ r.stable_store

  -- An answer to the vote request of a candidate, from another member that has not answered yet; one
  -- that grants is a vote that its sender has given the candidate in the term of the election.
  pub record IsAnswer (c : Cluster L T) (i : Text) (p : Poll) (a : Answer) : Type 0 where
    pub distinct : ¬ IsIn (a.0) (i ∷ senders p.heard)
    pub member : IsIn (a.0) (ids_of (c.nodes i).config_peers)
    pub small : a.1.term < word_mod
    pub given : a.1.vote_granted ≡ true → IsIn (a.0, p.term, i) c.grants

  -- The test at the head of the loop.
  abbrev pub still : RaftNode L T → Option Poll → Option Poll
  still r p = if is_candidate r.state then p else none

  abbrev pub next_poll : Poll → Answer → RaftNode L T × Option ℕ → Option Poll
  next_poll p a (r, none) = none
  next_poll p a (r, some votes) = still r (some (record p { votes = votes; heard = a ∷ p.heard }))

  abbrev pub with_grant : Text → RequestVoteRequest → RequestVoteResponse → List Grant → List Grant
  with_grant i req resp gs = if resp.vote_granted then (i, resp.term, req.candidate_id) ∷ gs else gs

  abbrev pub with_win : Text → RaftNode L T → List Win → List Win
  with_win i r ws = if is_leader r.state then (i, r.current_term) ∷ ws else ws

  -- The timer of a node runs out and it starts an election (`start`); or a replicator of an
  -- earlier leadership has stepped it down between the two, and it starts one as a follower
  -- (`start_late`). It wins alone, or takes the next answer while it waits, in whatever state a
  -- replicator has left it by then; it stops waiting. It answers a vote request of another node, or an
  -- AppendEntries request of another node that has won its term, and then tests its state if it
  -- waits for votes. A response to one of its replicators brings a later term (`depose`). It starts
  -- again from its stores, or works on its log.
  pub data Step (c : Cluster L T) : Cluster L T → Type 0 where
    start :
        (i : Text)
        → i ≢ []
        → IsIn i (ids_of (c.nodes i).config_peers)
        → (c.nodes i).state ≢ leader
        → suc ((c.nodes i).current_term) < word_mod
        → Step c (record c {
          nodes =
              place i ((start_election logs stable (time_out logs stable (c.nodes i))).0) c.nodes;
          polls =
              place i
                (some (record {
                  term = (start_election logs stable (time_out logs stable (c.nodes i))).1.term;
                  votes = 1;
                  heard = [];
                }))
                c.polls;
          grants =
              (i, (start_election logs stable (time_out logs stable (c.nodes i))).1.term, i)
              ∷ c.grants;
        })
    start_late :
        (i : Text)
        → i ≢ []
        → (c.nodes i).state ≡ follower
        → 1 < quorum logs stable (c.nodes i)
        → suc ((c.nodes i).current_term) < word_mod
        → Step c (record c {
          nodes = place i ((start_election logs stable (c.nodes i)).0) c.nodes;
          polls = place i none c.polls;
          grants = (i, (start_election logs stable (c.nodes i)).1.term, i) ∷ c.grants;
        })
    alone :
        (i : Text) (p : Poll)
        → c.polls i ≡ some p
        → quorum logs stable (c.nodes i) ≤ 1
        → Step c (record c {
          nodes = place i (become_leader logs stable (c.nodes i)) c.nodes;
          polls = place i none c.polls;
          wins = (i, (c.nodes i).current_term) ∷ c.wins;
        })
    receive :
        (i : Text) (p : Poll) (a : Answer)
        → c.polls i ≡ some p
        → IsAnswer c i p a
        → Step c (record c {
          nodes = place i ((receive_vote logs stable (c.nodes i) p.votes (a.1)).0) c.nodes;
          polls =
              place i (next_poll p a (receive_vote logs stable (c.nodes i) p.votes (a.1))) c.polls;
          wins = with_win i ((receive_vote logs stable (c.nodes i) p.votes (a.1)).0) c.wins;
        })
    expire : (i : Text) → Step c (record c { polls = place i none c.polls })
    vote :
        (i : Text) (req : RequestVoteRequest)
        → req.candidate_id ≢ []
        → req.candidate_id ≢ i
        → req.term < word_mod
        → Step c (record c {
          nodes = place i ((handle_request_vote logs stable (c.nodes i) req).0) c.nodes;
          polls =
              place i
                (still ((handle_request_vote logs stable (c.nodes i) req).0) (c.polls i))
                c.polls;
          grants = with_grant i req ((handle_request_vote logs stable (c.nodes i) req).1) c.grants;
        })
    append :
        (i : Text) (req : AppendEntriesRequest)
        → req.leader_id ≢ i
        → req.term < word_mod
        → IsIn (req.leader_id, req.term) c.wins
        → Step c (record c {
          nodes = place i ((handle_append_entries logs stable (c.nodes i) req).0) c.nodes;
          polls =
              place i
                (still ((handle_append_entries logs stable (c.nodes i) req).0) (c.polls i))
                c.polls;
        })
    depose :
        (i : Text) (t : ℕ)
        → (c.nodes i).current_term < t
        → t < word_mod
        → Step c (record c { nodes = place i (step_down logs stable t (c.nodes i)) c.nodes })
    restart :
        (i : Text) (after : RaftNode L T)
        → restore_state logs stable (rebooted logs stable (c.nodes i)) ≡ some after
        → Step c (record c { nodes = place i after c.nodes; polls = place i none c.polls })
    work :
        (i : Text) (after : RaftNode L T)
        → IsSame (c.nodes i) after
        → Step c (record c { nodes = place i after c.nodes })

  pub data Reach (c : Cluster L T) : Cluster L T → Type 0 where
    here : Reach c c
    next : {d e : Cluster L T} → Reach c d → Step d e → Reach c e

  -- No replicator steps a node down while that node waits for votes.
  abbrev pub IsCalm : {c d : Cluster L T} → Step c d → Type 0
  IsCalm {c} (depose i t h k) = c.polls i ≡ none
  IsCalm (start i _ _ _ _) = Unit
  IsCalm (start_late i _ _ _ _) = Unit
  IsCalm (alone i p _ _) = Unit
  IsCalm (receive i p a _ _) = Unit
  IsCalm (expire i) = Unit
  IsCalm (vote i req _ _ _) = Unit
  IsCalm (append i req _ _ _) = Unit
  IsCalm (restart i after _) = Unit
  IsCalm (work i after _) = Unit

  abbrev pub AreCalm : {c d : Cluster L T} → Reach c d → Type 0
  AreCalm here = Unit
  AreCalm (next r st) = AreCalm r × IsCalm st

  -- A cluster that starts: followers with their terms and votes in their stores, each under its
  -- id, all with the same peers.
  pub record IsStart (peers : List PeerConfig) (c : Cluster L T) : Type 0 where
    pub idle : (i : Text) → (c.nodes i).state ≡ follower
    pub saved : (i : Text) → IsSaved logs stable (c.nodes i)
    pub peers_of : (i : Text) → (c.nodes i).config_peers ≡ peers
    pub server_of : (i : Text) → (c.nodes i).server_id ≡ i
    pub no_polls : (i : Text) → c.polls i ≡ none
    pub no_grants : c.grants ≡ []
    pub no_wins : c.wins ≡ []
