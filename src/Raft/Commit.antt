-- ===== src/Raft/Commit.antt =====
-- internal/raft/replication.go: the leader's commit index.
pub mod Majority
use ds_collaborative_editor.Base.{
  ℕ, suc, ◌+◌, ◌-◌, ◌/◌, List, [], ◌∷◌, Option, none, some, map, length, get_elem?, leb, ltb, ◌==◌,
  true, if◌then◌else◌,
}
use ds_collaborative_editor.Base.Text.{Text}
use ds_collaborative_editor.Raft.Types.{LogEntry, LogStore}
use ds_collaborative_editor.Raft.Node.{RaftNode, index_or_zero}

-- The trigger channel is left out.
pub record PeerState : Type 0 where
  pub id : Text
  pub addr : Text
  pub next_index : ℕ
  pub match_index : ℕ

-- `sort.Slice` with `>` on numbers.
unfoldable pub insert_desc : ℕ → List ℕ → List ℕ
insert_desc x [] = x ∷ []
insert_desc x (y ∷ ys) = let rest = insert_desc x ys in if leb y x then x ∷ y ∷ ys else y ∷ rest

unfoldable pub sort_desc : List ℕ → List ℕ
sort_desc [] = []
sort_desc (x ∷ xs) = insert_desc x (sort_desc xs)

module _ {L T : Type 0} (logs : LogStore L) where
  -- `matches`: the leader's last index and what the peers hold.
  unfoldable pub matches : RaftNode L T → List PeerState → List ℕ
  matches r peers =
      index_or_zero (logs.last_index r.log_store) ∷ map (λ (p : PeerState). p.match_index) peers

  unfoldable pub commit_at : RaftNode L T → ℕ → Option LogEntry → RaftNode L T
  commit_at r new_commit none = r
  commit_at r new_commit (some e) =
      if e.term == r.current_term
      then record r { commit_index = new_commit; commit_notify = true }
      else r

  -- `none` is the panic of an index out of range.
  unfoldable pub commit_majority : RaftNode L T → Option ℕ → Option (RaftNode L T)
  commit_majority r none = none
  commit_majority r (some new_commit) = some (
      if leb new_commit r.commit_index
      then r
      else commit_at r new_commit (logs.get_log r.log_store new_commit))

  unfoldable pub advance_commit_index : RaftNode L T → List PeerState → Option (RaftNode L T)
  advance_commit_index r peers =
      let sorted = sort_desc (matches r peers) in
      let majority = length sorted / 2 + 1 in commit_majority r (get_elem? sorted (majority - 1))
