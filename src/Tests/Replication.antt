-- ===== src/Tests/Replication.antt =====
-- internal/raft/replication.go on a leader and a peer with logs in memory.
use ds_collaborative_editor.Base.{
  ℕ, zero, suc, ◌≤◌, ◌<◌, [], ◌∷◌, ◌≡◌, refl, false, true, some, none, Bool-cases, inl, inr, ◌==◌,
  arith, ap, sym, List, ◌⊎◌,
}
use ds_collaborative_editor.Base.Text.{Text, codes, text_eq}
use ds_collaborative_editor.Base.Int.{sub64}
use ds_collaborative_editor.Raft.Types.{leader, follower, LogEntry, AppendEntriesResponse}
use ds_collaborative_editor.Raft.Node.{RaftNode, persist_state, step_down, index_or_zero}
use ds_collaborative_editor.Raft.Append.{
  handle_append_entries, follow_leader, check_previous, checked, append_loop, overwrite, store_rest,
  stored, update_commit, is_follower,
}
use ds_collaborative_editor.Raft.Commit.{PeerState, advance_commit_index}
use ds_collaborative_editor.Raft.Commit.Majority.{IsAdvance}
use ds_collaborative_editor.Raft.Memory.{
  get_entry, InmemLogStore, InmemStableStore, inmem_log_store, inmem_stable_store,
}
use ds_collaborative_editor.Raft.Memory.Laws.{inmem_log_store-IsLog}
use ds_collaborative_editor.Raft.Replicate.{
  request_for, catch_up, entries_from, gather, handle_append_response,
}
use ds_collaborative_editor.Raft.Replicate.Request.{IsWhole}
use ds_collaborative_editor.Raft.Replicate.Match.{IsMatched, replicate-IsMatched}
use ds_collaborative_editor.Raft.Replicate.BackUp.{AreOrdered}
use ds_collaborative_editor.Raft.Replicate.CatchUp.{IsCaughtUp, catch_up-IsCaughtUp}
use ds_collaborative_editor.Raft.Replicate.Late.{find_peer, up_to, handle_append_response-late}

abbrev entry : ℕ → LogEntry
entry term = record { index = 1; term = term; data_bytes = codes "x" }

-- A node of term 2 with one entry of a term.
abbrev node_with : ℕ → RaftNode InmemLogStore InmemStableStore
node_with term = record {
  server_id = codes "a";
  config_peers = [];
  current_term = 2;
  voted_for = [];
  log_store = record { entries = entry term ∷ []; low_idx = 1; high_idx = 1 };
  stable_store = λ key. none;
  state = leader;
  commit_index = 0;
  last_applied = 0;
  leader_id = [];
  leader_addr = [];
  commit_notify = false;
}

abbrev peer_at : ℕ → PeerState
peer_at next = record { id = codes "b"; addr = []; next_index = next; match_index = 0 }

abbrev response : AppendEntriesResponse
response = record { term = 2; success = true; conflict_term = 0; conflict_index = 0 }

node_with-IsWhole : (term : ℕ) → IsWhole inmem_log_store ((node_with term).log_store) 1
unfolding get_entry
node_with-IsWhole term = record { ends = refl; small = omega arith; stands = stands }
  where
    stands :
        (i : ℕ)
        → 0 < i
        → i ≤ 1
        → (e : LogEntry) × (get_entry (entry term ∷ []) i ≡ some e) × (e.index ≡ i)
    stands zero h k = absurd (omega arith)
    stands (suc zero) h k = (entry term, refl, refl)
    stands (suc (suc i)) h k = absurd (omega arith)

-- An entry that such a node has is of its term.
entry_term : (term i : ℕ) (e : LogEntry) → get_entry (entry term ∷ []) i ≡ some e → e.term ≡ term
unfolding get_entry
entry_term term i e h = elim (Bool-cases (1 == i)) [
  | inl y ↦
      let x = rw y at h in let z : entry term ≡ e = cc in ap (λ (a : LogEntry). a.term) (sym z)
  | inr n ↦ let x = rw n at h in cc
]

node_with-AreOrdered :
    AreOrdered inmem_log_store ((node_with 2).log_store) ((node_with 1).log_store)
node_with-AreOrdered i d e x g h n j k t =
    absurd (omega (arith, t, entry_term 1 i e h, entry_term 2 j x k))

catch_up-IsCaughtUp_example :
    IsCaughtUp inmem_log_store inmem_stable_store
      (node_with 2)
      (peer_at 2)
      1
      (catch_up inmem_log_store inmem_stable_store 2 (node_with 2) (peer_at 2) (node_with 1))
catch_up-IsCaughtUp_example =
    catch_up-IsCaughtUp inmem_log_store inmem_stable_store 2 (node_with 2) (node_with 1) (peer_at 2)
      1 inmem_log_store-IsLog (node_with-IsWhole 2) node_with-AreOrdered (omega arith) (omega arith)
      (omega arith) (omega arith)

accepted :
    (handle_append_entries inmem_log_store inmem_stable_store
      (node_with 1)
      (request_for inmem_log_store inmem_stable_store (node_with 2) (peer_at 1))).1.success
    ≡ true
unfolding handle_append_entries follow_leader check_previous checked append_loop overwrite
    store_rest stored update_commit is_follower step_down persist_state index_or_zero request_for
    entries_from gather sub64 get_entry
accepted = refl

replicate-IsMatched_example :
    IsMatched inmem_log_store inmem_stable_store
      (node_with 2)
      ((handle_append_entries inmem_log_store inmem_stable_store
        (node_with 1)
        (request_for inmem_log_store inmem_stable_store (node_with 2) (peer_at 1))).0)
      (peer_at 1)
      1
replicate-IsMatched_example =
    replicate-IsMatched inmem_log_store inmem_stable_store (node_with 2) (node_with 1) (peer_at 1) 1
      inmem_log_store-IsLog (node_with-IsWhole 2) (omega arith) (omega arith) accepted

-- A node that follows, and two peers.
abbrev two_peers : List PeerState
two_peers = peer_at 1 ∷ record { id = codes "c"; addr = []; next_index = 1; match_index = 0 } ∷ []

abbrev former : RaftNode InmemLogStore InmemStableStore
former = record (node_with 2) { state = follower }

handle_append_response-late_example :
    (after : RaftNode InmemLogStore InmemStableStore) × (list : List PeerState)
    × (handle_append_response inmem_log_store inmem_stable_store former two_peers
          (peer_at 1)
          (entry 2 ∷ [])
          response
        ≡ some (after, list))
    × (find_peer list (codes "b") ≡ some (up_to (peer_at 1) 1))
    × ((id : Text) → text_eq (codes "b") id ≡ false → find_peer list id ≡ find_peer two_peers id)
    × (advance_commit_index inmem_log_store former list ≡ some after)
    × ((after ≡ former) ⊎ IsAdvance inmem_log_store former after list)
unfolding text_eq
handle_append_response-late_example =
    handle_append_response-late inmem_log_store inmem_stable_store former two_peers (peer_at 1) []
      (entry 2) response refl refl refl (omega arith)
