-- ===== src/Tests/Consensus.antt =====
-- internal/raft on nodes with stores in memory.
use ds_collaborative_editor.Base.{
  ℕ, ◌<◌, [], ◌∷◌, ◌≡◌, ◌⊎◌, refl, false, true, some, none, All, arith,
}
use ds_collaborative_editor.Base.Text.{codes, text_eq}
use ds_collaborative_editor.Raft.Types.{
  leader, AppendEntriesRequest, RequestVoteRequest, candidate, key_current_term, key_voted_for,
}
use ds_collaborative_editor.Raft.Node.{
  RaftNode, persist_state, step_down, last_log_info, entry_info, index_or_zero,
}
use ds_collaborative_editor.Raft.Vote.{is_log_up_to_date, cast_vote, handle_request_vote}
use ds_collaborative_editor.Raft.Vote.Effect.{VoteEffect, handle_request_vote-Effect}
use ds_collaborative_editor.Raft.Vote.Once.{IsSaved, ask, restart, votes, handle_request_vote-votes}
use ds_collaborative_editor.Raft.Vote.Twice.{handle_append_entries-votes_again}
use ds_collaborative_editor.Raft.Append.{
  handle_append_entries, follow_leader, check_previous, checked, append_loop, stored, update_commit,
  is_follower,
}
use ds_collaborative_editor.Raft.Append.Effect.{AppendEffect, handle_append_entries-Effect}
use ds_collaborative_editor.Raft.Leader.{handle_apply_request, waits}
use ds_collaborative_editor.Raft.Leader.Submit.{handle_apply_request-stores}
use ds_collaborative_editor.Raft.Append.Match.{Agrees}
use ds_collaborative_editor.Raft.Commit.{PeerState, advance_commit_index}
use ds_collaborative_editor.Raft.Commit.Majority.{IsAdvance, advance_commit_index-IsAdvance}
use ds_collaborative_editor.Raft.Memory.{
  get_entry, InmemLogStore, InmemStableStore, inmem_log_store, inmem_stable_store, set, get,
  put_uint, uint, get_uint64,
}
use ds_collaborative_editor.Raft.Memory.Laws.{inmem_log_store-IsLog, inmem_stable_store-IsStable}

-- A candidate of term 1 with an empty log that has stored its term and its vote.
abbrev node : RaftNode InmemLogStore InmemStableStore
node = record {
  server_id = codes "a";
  config_peers = [];
  current_term = 1;
  voted_for = codes "a";
  log_store = record { entries = []; low_idx = 0; high_idx = 0 };
  stable_store = set (set (λ key. none) key_current_term (put_uint 8 1)) key_voted_for (codes "a");
  state = candidate;
  commit_index = 0;
  last_applied = 0;
  leader_id = [];
  leader_addr = [];
  commit_notify = false;
}

abbrev vote_request : ℕ → RequestVoteRequest
vote_request term = record {
  term = term;
  candidate_id = codes "b";
  last_log_index = 0;
  last_log_term = 0;
}

abbrev append_request : AppendEntriesRequest
append_request = record {
  term = 1;
  leader_id = codes "c";
  prev_log_index = 0;
  prev_log_term = 0;
  entries = record { index = 1; term = 1; data_bytes = codes "x" } ∷ [];
  leader_commit = 1;
}

abbrev peer : PeerState
peer = record { id = codes "b"; addr = []; next_index = 1; match_index = 0 }

node-IsSaved : IsSaved inmem_log_store inmem_stable_store node
unfolding set get text_eq put_uint uint get_uint64
node-IsSaved = record { small = omega arith; term = refl; vote = refl }

grants :
    (handle_request_vote inmem_log_store inmem_stable_store node (vote_request 2)).1.vote_granted
    ≡ true
unfolding handle_request_vote cast_vote is_log_up_to_date last_log_info step_down persist_state
    index_or_zero entry_info text_eq
grants = refl

handle_request_vote-Effect_example :
    VoteEffect inmem_log_store inmem_stable_store node
      (vote_request 2)
      ((handle_request_vote inmem_log_store inmem_stable_store node (vote_request 2)).0)
      ((handle_request_vote inmem_log_store inmem_stable_store node (vote_request 2)).1)
handle_request_vote-Effect_example =
    handle_request_vote-Effect inmem_log_store inmem_stable_store node (vote_request 2)

handle_request_vote-votes_example :
    All
      (λ v. (2 < v.0) ⊎ ((v.0 ≡ 2) × (v.1 ≡ codes "b")))
      (votes inmem_log_store inmem_stable_store
        ((handle_request_vote inmem_log_store inmem_stable_store node (vote_request 2)).0)
        (restart ∷ ask (vote_request 2) ∷ []))
handle_request_vote-votes_example =
    handle_request_vote-votes inmem_log_store inmem_stable_store node (vote_request 2)
      (restart ∷ ask (vote_request 2) ∷ []) inmem_stable_store-IsStable node-IsSaved (omega arith)
      (tt, (omega arith, tt)) grants (λ e. cc)

advance_commit_index-IsAdvance_example :
    (after : RaftNode InmemLogStore InmemStableStore) × (advance_commit_index inmem_log_store node
        (peer ∷ [])
      ≡ some after)
    × ((after ≡ node) ⊎ IsAdvance inmem_log_store node after (peer ∷ []))
advance_commit_index-IsAdvance_example =
    advance_commit_index-IsAdvance inmem_log_store node (peer ∷ [])

handle_append_entries-Effect_example :
    AppendEffect inmem_log_store inmem_stable_store node append_request
      ((handle_append_entries inmem_log_store inmem_stable_store node append_request).0)
      ((handle_append_entries inmem_log_store inmem_stable_store node append_request).1)
handle_append_entries-Effect_example =
    handle_append_entries-Effect inmem_log_store inmem_stable_store node append_request
      inmem_log_store-IsLog (refl, tt)

abbrev heartbeat : AppendEntriesRequest
heartbeat = record append_request { entries = [] }

handle_append_entries-votes_again_example :
    (handle_request_vote inmem_log_store inmem_stable_store
      ((handle_append_entries inmem_log_store inmem_stable_store node heartbeat).0)
      (vote_request 1)).1.vote_granted
    ≡ true
unfolding is_log_up_to_date last_log_info handle_append_entries follow_leader check_previous checked
    append_loop stored update_commit is_follower step_down persist_state index_or_zero entry_info
handle_append_entries-votes_again_example =
    handle_append_entries-votes_again inmem_log_store inmem_stable_store node heartbeat
      (vote_request 1) refl refl refl refl

abbrev elected : RaftNode InmemLogStore InmemStableStore
elected = record node { state = leader }

handle_apply_request-stores_example :
    (after : InmemLogStore) × (handle_apply_request inmem_log_store elected (codes "x")
      ≡ (record elected { log_store = after }, waits 1))
    × (get_entry after.entries 1 ≡ some (record { index = 1; term = 1; data_bytes = codes "x" }))
    × Agrees inmem_log_store 1 after (elected.log_store)
handle_apply_request-stores_example =
    handle_apply_request-stores inmem_log_store elected (codes "x") 0 inmem_log_store-IsLog refl
      refl (omega arith)
