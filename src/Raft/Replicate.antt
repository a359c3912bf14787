-- ===== src/Raft/Replicate.antt =====
-- internal/raft/replication.go: a round of the leader with one peer, `replicateOnce`.
pub mod Request
pub mod Match
pub mod BackUp
pub mod CatchUp
pub mod Late
use ds_collaborative_editor.Base.{
  ℕ, zero, suc, ◌-◌, List, [], ◌∷◌, Bool, true, false, Option, none, some, ltb, leb, ◌==◌,
  if◌then◌else◌,
}
use ds_collaborative_editor.Base.Int.{add64, sub64}
use ds_collaborative_editor.Base.Text.{Text, text_eq}
use ds_collaborative_editor.Raft.Types.{
  ServerState, follower, candidate, leader, LogEntry, AppendEntriesRequest, AppendEntriesResponse,
  LogStore, StableStore,
}
use ds_collaborative_editor.Raft.Node.{RaftNode, index_or_zero, step_down}
use ds_collaborative_editor.Raft.Append.{handle_append_entries}
use ds_collaborative_editor.Raft.Commit.{PeerState, advance_commit_index}

unfoldable pub is_leader : ServerState → Bool
is_leader leader = true
is_leader follower = false
is_leader candidate = false

unfoldable pub term_or_zero : Option LogEntry → ℕ
term_or_zero none = 0
term_or_zero (some e) = e.term

-- `peer` is a pointer into the map `r.peers`, a list here with an id once, for as long as the map
-- is the one of the leadership in which the request was made.
unfoldable pub put_peer : List PeerState → PeerState → List PeerState
put_peer [] p = []
put_peer (q ∷ ps) p = let rest = put_peer ps p in if text_eq q.id p.id then p ∷ ps else q ∷ rest

-- `entries[len(entries)-1].Index`.
unfoldable pub last_of : LogEntry → List LogEntry → ℕ
last_of e [] = e.index
last_of e (e' ∷ es) = last_of e' es

-- The two fields after a success.
unfoldable pub matched : PeerState → List LogEntry → PeerState
unfolding last_of
matched p [] = p
matched p (e ∷ es) =
    let last = last_of e es in record p { match_index = last; next_index = add64 last 1 }

unfoldable pub at_least_one : ℕ → ℕ
at_least_one n = if ltb n 1 then 1 else n

module _ {L : Type 0} (logs : LogStore L) where
  -- `for i := peer.nextIndex; i <= lastIdx; i++`, in rounds.
  unfoldable pub gather : L → ℕ → ℕ → List LogEntry
  gather l zero i = []
  gather l (suc rounds) i = elim (logs.get_log l i) [
    | none ↦ []
    | some e ↦ e ∷ gather l rounds (suc i)
  ]

  unfoldable pub entries_from : L → ℕ → List LogEntry
  entries_from l next =
      let last = index_or_zero (logs.last_index l) in
      if leb next last then gather l (suc last - next) next else []

  -- `for i := lastIdx; i >= 1; i--`: the last entry of a term, or 0.
  unfoldable pub last_of_term : L → ℕ → ℕ → ℕ
  last_of_term l zero term = 0
  last_of_term l (suc i) term =
      let rest = last_of_term l i term in
      elim (logs.get_log l (suc i)) [ none ↦ 0 | some e ↦ if e.term == term then suc i else rest ]

  -- The back-up of `nextIndex` after a refusal.
  unfoldable pub back_up : L → PeerState → AppendEntriesResponse → PeerState
  unfolding at_least_one
  back_up l p resp =
      let found = last_of_term l (index_or_zero (logs.last_index l)) resp.conflict_term in
      let next =
        if ltb 0 resp.conflict_term
        then (if ltb 0 found then add64 found 1 else resp.conflict_index)
        else resp.conflict_index in
      record p { next_index = at_least_one next }

module _ {L T : Type 0} (logs : LogStore L) (stable : StableStore T) where
  unfoldable pub request_for : RaftNode L T → PeerState → AppendEntriesRequest
  request_for r p =
      let prev = sub64 p.next_index 1 in
      record {
        term = r.current_term;
        leader_id = r.server_id;
        prev_log_index = prev;
        prev_log_term = if ltb 0 prev then term_or_zero (logs.get_log r.log_store prev) else 0;
        entries = entries_from logs r.log_store p.next_index;
        leader_commit = r.commit_index;
      }

  -- The part of `replicateOnce` before the call; `none` is its early return.
  unfoldable pub replicate_request : RaftNode L T → PeerState → Option AppendEntriesRequest
  replicate_request r p = if is_leader r.state then some (request_for r p) else none

  unfoldable pub with_peers :
      List PeerState → Option (RaftNode L T) → Option (RaftNode L T × List PeerState)
  with_peers peers none = none
  with_peers peers (some r) = some (r, peers)

  -- The part after the call, for the entries that were sent; `none` is a panic.
  unfoldable pub handle_append_response :
      RaftNode L T
      → List PeerState
      → PeerState
      → List LogEntry
      → AppendEntriesResponse
      → Option (RaftNode L T × List PeerState)
  unfolding with_peers
  handle_append_response r peers p entries resp =
      let accepted = put_peer peers (matched p entries) in
      if ltb r.current_term resp.term
      then some (step_down logs stable resp.term r, peers)
      else if resp.success
      then with_peers accepted (advance_commit_index logs r accepted)
      else some (r, put_peer peers (back_up logs r.log_store p resp))

  -- The rounds of `runReplicator` with a peer that is reached each time, up to the first that it
  -- accepts: the peer's node, and the leader's fields before and after that round.
  unfoldable pub catch_up :
      ℕ → RaftNode L T → PeerState → RaftNode L T → Option (RaftNode L T × PeerState × PeerState)
  catch_up zero r p f = none
  catch_up (suc rounds) r p f =
      let req = request_for r p in
      let (after, resp, reset) = handle_append_entries logs stable f req in
      let next = catch_up rounds r (back_up logs r.log_store p resp) after in
      if resp.success then some (after, p, matched p req.entries) else next
