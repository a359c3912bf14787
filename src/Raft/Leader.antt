-- ===== src/Raft/Leader.antt =====
-- internal/raft/raft.go: how a leader adds to its log.
pub mod Submit
use ds_collaborative_editor.Base.{ℕ, List, [], ◌∷◌, Bool, true, false, Option, none, some}
use ds_collaborative_editor.Base.Int.{add64}
use ds_collaborative_editor.Base.Text.{Text}
use ds_collaborative_editor.Raft.Types.{
  ServerState, follower, candidate, leader, LogEntry, LogStore,
}
use ds_collaborative_editor.Raft.Node.{RaftNode, index_or_zero}

-- What becomes of the future of a request: it waits at an index, or it has failed.
pub data Outlook : Type 0 where
  waits : ℕ → Outlook
  not_leader store_failed : Outlook

module _ {L T : Type 0} (logs : LogStore L) where
  -- The entry with a command behind the end of the log.
  unfoldable pub next_entry : RaftNode L T → Text → LogEntry
  next_entry r data_bytes = record {
    index = add64 (index_or_zero (logs.last_index r.log_store)) 1;
    term = r.current_term;
    data_bytes = data_bytes;
  }

  unfoldable pub placed : RaftNode L T → ℕ → Option L → RaftNode L T × Outlook
  placed r index none = (r, store_failed)
  placed r index (some after) = (record r { log_store = after }, waits index)

  unfoldable pub handle_in : ServerState → RaftNode L T → Text → RaftNode L T × Outlook
  handle_in leader r data_bytes =
      let e = next_entry r data_bytes in placed r e.index (logs.store_logs r.log_store (e ∷ []))
  handle_in follower r data_bytes = (r, not_leader)
  handle_in candidate r data_bytes = (r, not_leader)

  -- `handleApplyRequest`, but for the wake-up of the replication goroutines.
  unfoldable pub handle_apply_request : RaftNode L T → Text → RaftNode L T × Outlook
  handle_apply_request r data_bytes = handle_in r.state r data_bytes

  -- `appendNoOp`, with the same exception: nobody waits for the entry.
  unfoldable pub append_no_op : RaftNode L T → RaftNode L T
  append_no_op r =
      let e = next_entry r [] in (placed r e.index (logs.store_logs r.log_store (e ∷ []))).0
