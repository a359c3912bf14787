-- ===== src/Raft/Append.antt =====
-- internal/raft/replication.go: what a follower does with AppendEntries.
pub mod Match
pub mod Effect
use ds_collaborative_editor.Base.{
  ℕ, zero, suc, ◌-◌, List, [], ◌∷◌, Bool, true, false, Option, none, some, ltb, ◌==◌, if◌then◌else◌,
}
use ds_collaborative_editor.Base.Int.{add64}
use ds_collaborative_editor.Raft.Types.{
  ServerState, follower, candidate, leader, LogEntry, AppendEntriesRequest, AppendEntriesResponse,
  LogStore, StableStore,
}
use ds_collaborative_editor.Raft.Node.{RaftNode, index_or_zero, find_addr, step_down}

unfoldable pub is_follower : ServerState → Bool
is_follower follower = true
is_follower candidate = false
is_follower leader = false

-- The outcome of the consistency check: a conflict has the two fields of the response.
pub data Check : Type 0 where
  consistent : Check
  conflict : ℕ → ℕ → Check

module _ {L : Type 0} (logs : LogStore L) where
  -- `for i := req.PrevLogIndex - 1; i >= 1; i--`, with the index found so far.
  unfoldable pub first_of_term : L → ℕ → ℕ → ℕ → ℕ
  first_of_term l zero term found = found
  first_of_term l (suc i) term found =
      let rest = first_of_term l i term (suc i) in
      elim (logs.get_log l (suc i)) [
        | none ↦ found
        | some e ↦ if e.term == term then rest else found
      ]

  -- Step 2 of the handler.
  unfoldable pub check_previous : L → AppendEntriesRequest → Check
  check_previous l req =
      let last = index_or_zero (logs.last_index l) in
      if req.prev_log_index == 0
      then consistent
      else if ltb last req.prev_log_index
      then conflict 0 (add64 last 1)
      else elim (logs.get_log l req.prev_log_index) [
        | none ↦ conflict 0 req.prev_log_index
        | some e ↦
            if e.term == req.prev_log_term
            then consistent
            else conflict e.term
                (first_of_term l (req.prev_log_index - 1) e.term req.prev_log_index)
      ]

  -- The log and whether all calls of the store succeeded.
  unfoldable pub store_rest : L → List LogEntry → L × Bool
  store_rest l es = elim (logs.store_logs l es) [ none ↦ (l, false) | some after ↦ (after, true) ]

  unfoldable pub overwrite : L → ℕ → List LogEntry → L × Bool
  overwrite l index es = elim (logs.delete_range l index (index_or_zero (logs.last_index l))) [
    | none ↦ (l, false)
    | some after ↦ store_rest after es
  ]

  -- Step 3: the loop over the entries.
  unfoldable pub append_loop : L → List LogEntry → L × Bool
  append_loop l [] = (l, true)
  append_loop l (e ∷ es) =
      let rest = append_loop l es in
      elim (logs.get_log l e.index) [
        | none ↦ store_rest l (e ∷ es)
        | some existing ↦ if existing.term == e.term then rest else overwrite l e.index (e ∷ es)
      ]

module _ {L T : Type 0} (logs : LogStore L) (stable : StableStore T) where
  -- Step 4.
  unfoldable pub update_commit : RaftNode L T → ℕ → RaftNode L T
  update_commit r leader_commit =
      let last = index_or_zero (logs.last_index r.log_store) in
      if ltb r.commit_index leader_commit
      then record r {
        commit_index = if ltb last leader_commit then last else leader_commit;
        commit_notify = true;
      }
      else r

  abbrev pub Appended : Type 0
  Appended = RaftNode L T × AppendEntriesResponse × Bool

  unfoldable pub stored : RaftNode L T → AppendEntriesRequest → L × Bool → Appended
  stored r req (l, true) = (
    update_commit (record r { log_store = l }) req.leader_commit,
    record { term = r.current_term; success = true; conflict_term = 0; conflict_index = 0 },
    true,
  )
  stored r req (l, false) = (
    record r { log_store = l },
    record { term = r.current_term; success = false; conflict_term = 0; conflict_index = 0 },
    true,
  )

  unfoldable pub checked : RaftNode L T → AppendEntriesRequest → Check → Appended
  checked r req consistent = stored r req (append_loop logs r.log_store req.entries)
  checked r req (conflict term index) = (
    r,
    record { term = r.current_term; success = false; conflict_term = term; conflict_index = index },
    true,
  )

  -- The node with the sender as its leader.
  unfoldable pub follow_leader : RaftNode L T → AppendEntriesRequest → RaftNode L T
  follow_leader r req =
      let after =
        if ltb r.current_term req.term
        then step_down logs stable req.term r
        else if is_follower r.state
        then r
        else step_down logs stable req.term r in
      record after {
        state = follower;
        leader_id = req.leader_id;
        leader_addr = find_addr after.config_peers req.leader_id after.leader_addr;
      }

  -- The new state, the response, and whether the election timer is reset.
  unfoldable pub handle_append_entries : RaftNode L T → AppendEntriesRequest → Appended
  handle_append_entries r req =
      if ltb req.term r.current_term
      then (
        r,
        record { term = r.current_term; success = false; conflict_term = 0; conflict_index = 0 },
        false,
      )
      else checked (follow_leader r req) req
          (check_previous logs (follow_leader r req).log_store req)
