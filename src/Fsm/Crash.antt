-- ===== src/Fsm/Crash.antt =====
-- Submissions that stop the server: `BaseRev` is not checked before it is used as an index.
use ds_collaborative_editor.Base.{ℕ, suc, ◌≤◌, ◌<◌, false, true, length, ◌≡◌, refl, ◌∙◌, arith}
use ds_collaborative_editor.Base.Int.{int_max, word_mod, lt_int}
use ds_collaborative_editor.Ot.Cursor.{panicked}
use ds_collaborative_editor.Fsm.{
  RaftLogEntry, DocumentStateMachine, already_done, revision_at, rebase_loop, transformed,
  apply_entry,
}
use ds_collaborative_editor.Fsm.Replay.{apply_entry_new}

-- The bit pattern of a negative int.
abbrev pub IsNegative : ℕ → Type 0
IsNegative n = (int_max < n) × (n < word_mod)

pub negative_lt : (n head : ℕ) → IsNegative n → head ≤ int_max → lt_int n head ≡ true
unfolding lt_int
negative_lt n head h k = ground arith

loop_panics :
    (fsm : DocumentStateMachine) (entry : RaftLogEntry)
    → IsNegative entry.base_rev
    → fsm.head_rev ≤ int_max
    → rebase_loop
        (suc (length fsm.revision_log))
        fsm.revision_log
        fsm.head_rev
        entry.base_rev
        entry.changeset
      ≡ panicked
unfolding rebase_loop revision_at
loop_panics fsm entry h k = rw (
  negative_lt entry.base_rev fsm.head_rev h k,
  negative_lt entry.base_rev 0 h (omega arith),
  rebase_loop,
)

-- Every entry that is new and has a negative BaseRev makes Apply panic, in every state with a head
-- revision from 0 on, whatever its changeset is.
pub negative_base_rev_panics :
    (fsm : DocumentStateMachine) (entry : RaftLogEntry)
    → already_done (fsm.client_last_submission entry.client_id) entry.submission_id ≡ false
    → IsNegative entry.base_rev
    → fsm.head_rev ≤ int_max
    → apply_entry fsm entry ≡ panicked
negative_base_rev_panics fsm entry fresh h k =
    apply_entry_new fsm entry fresh ∙ (rw (loop_panics fsm entry h k) (unfold transformed in refl))
