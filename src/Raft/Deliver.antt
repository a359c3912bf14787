-- ===== src/Raft/Deliver.antt =====
-- internal/raft/raft.go: `applyCommitted`, which feeds committed entries to the state machine.
pub mod Order
use ds_collaborative_editor.Base.{
  ℕ, zero, suc, ◌-◌, List, [], ◌∷◌, ◌++◌, Bool, true, false, Option, none, some, length, ◌==◌,
  if◌then◌else◌,
}
use ds_collaborative_editor.Base.Text.{Text}
use ds_collaborative_editor.Raft.Types.{LogEntry, LogStore}

-- The part of the node that the apply loop changes: the state machine, `lastApplied`, the indexes
-- with a pending future, and the answers that futures got, the oldest first; `none` is nil.
pub record Delivery (F R : Type 0) : Type 0 where
  pub machine : F
  pub last_applied : ℕ
  pub pending : List ℕ
  pub answers : List (ℕ × Option R)

unfoldable pub is_pending : List ℕ → ℕ → Bool
is_pending [] index = false
is_pending (i ∷ is) index = let rest = is_pending is index in if i == index then true else rest

-- `delete(r.pendingFutures, idx)`.
unfoldable pub drop_pending : List ℕ → ℕ → List ℕ
drop_pending [] index = []
drop_pending (i ∷ is) index =
    let rest = drop_pending is index in if i == index then rest else i ∷ rest

module _ {L F R : Type 0} (logs : LogStore L) (fsm_apply : F → Text → F × R) where
  -- `r.fsm.Apply(entry.Data)`, but for an empty entry.
  unfoldable pub feed : F → Text → F × Option R
  feed f [] = (f, none)
  feed f (b ∷ bs) = let (next, response) = fsm_apply f (b ∷ bs) in (next, some response)

  -- The part of a round under the lock.
  unfoldable pub resolve : Delivery F R → ℕ → F × Option R → Delivery F R
  unfolding is_pending drop_pending
  resolve d index (next, response) = record {
    machine = next;
    last_applied = index;
    pending = drop_pending d.pending index;
    answers =
        if is_pending d.pending index then d.answers ++ ((index, response) ∷ []) else d.answers;
  }

  unfoldable pub deliver : Delivery F R → ℕ → Option LogEntry → Delivery F R
  deliver d index none = d
  deliver d index (some e) = resolve d index (feed d.machine e.data_bytes)

  -- The rounds of `for idx := lastApplied + 1; idx <= commitIndex; idx++`.
  unfoldable pub deliver_loop : L → ℕ → ℕ → Delivery F R → Delivery F R
  deliver_loop l zero index d = d
  deliver_loop l (suc rounds) index d =
      deliver_loop l rounds (suc index) (deliver d index (logs.get_log l index))

  -- For a commit index below the greatest uint64.
  unfoldable pub apply_committed : L → ℕ → Delivery F R → Delivery F R
  apply_committed l commit_index d =
      deliver_loop l (commit_index - d.last_applied) (suc d.last_applied) d
