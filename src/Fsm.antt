-- ===== src/Fsm.antt =====
-- internal/fsm: the document as a replicated state machine (fsm.go, types.go).
pub mod Replay
pub mod Dedup
pub mod Submit
pub mod Crash
use ds_collaborative_editor.Base.{
  ℕ, zero, suc, ◌+◌, List, [], ◌∷◌, ◌++◌, Bool, Option, none, some, false, true, length, get_elem?,
  drop, leb, if◌then◌else◌,
}
use ds_collaborative_editor.Base.Int.{add64, lt_int, le_int}
use ds_collaborative_editor.Base.Outcome.{Outcome, ok, err, panic}
use ds_collaborative_editor.Base.Text.{Text, text_eq}
use ds_collaborative_editor.Ot.Changeset.{Changeset}
use ds_collaborative_editor.Ot.Cursor.{Run, done, panicked, running}
use ds_collaborative_editor.Ot.Follow.{follow}
use ds_collaborative_editor.Ot.Apply.{ApplyError, apply_changeset}

-- `SubmissionID` is an int64 and `BaseRev` an int, both as bit patterns.
pub record RaftLogEntry : Type 0 where
  pub client_id : Text
  pub submission_id : ℕ
  pub base_rev : ℕ
  pub changeset : Changeset

pub record RevisionRecord : Type 0 where
  pub rev_number : ℕ
  pub changeset : Changeset
  pub source : Text

pub record ApplyResult : Type 0 where
  pub c_prime : Changeset
  pub new_rev : ℕ
  pub client_id : Text
  pub is_duplicate : Bool

-- The fields behind the lock; the Go map is a function.
pub record DocumentStateMachine : Type 0 where
  pub head_text : Text
  pub head_rev : ℕ
  pub revision_log : List RevisionRecord
  pub client_last_submission : Text → Option ℕ

unfoldable pub new_document_state_machine : Text → DocumentStateMachine
new_document_state_machine initial_text = record {
  head_text = initial_text;
  head_rev = 0;
  revision_log = [];
  client_last_submission = λ client. none;
}

-- `m[key] = value`.
unfoldable pub put : (Text → Option ℕ) → Text → ℕ → Text → Option ℕ
put m key value other = if text_eq key other then some value else m other

-- `seen && entry.SubmissionID <= lastSub`.
unfoldable pub already_done : Option ℕ → ℕ → Bool
already_done none submission = false
already_done (some last) submission = le_int submission last

-- `fsm.revisionLog[r]`; `none` is the panic of an index out of range.
unfoldable pub revision_at : List RevisionRecord → ℕ → Option RevisionRecord
revision_at log r = if lt_int r 0 then none else get_elem? log r

-- `for r := entry.BaseRev; r < fsm.headRev; r++ { … Follow … }`. Each round reads another record of
-- the log, so one round more than its length is enough.
unfoldable pub rebase_loop : ℕ → List RevisionRecord → ℕ → ℕ → Changeset → Run Changeset
rebase_loop zero log head r c = running
rebase_loop (suc fuel) log head r c = elim (lt_int r head) [
  | false ↦ done c
  | true ↦ elim (revision_at log r) [
    | none ↦ panicked
    | some historical ↦ elim (follow historical.changeset c) [
      | done c' ↦ rebase_loop fuel log head (add64 r 1) c'
      | panicked ↦ panicked
      | running ↦ running
    ]
  ]
]

-- The new state with the value that `Apply` returns; `none` is nil. The callback `onCommit` is
-- started with the same value, if there is one.
abbrev pub Applied : Type 0
Applied = DocumentStateMachine × Option ApplyResult

-- The state with one more revision.
unfoldable pub recorded :
    DocumentStateMachine → RaftLogEntry → Changeset → Text → DocumentStateMachine
recorded fsm entry c new_text = record {
  head_text = new_text;
  head_rev = add64 fsm.head_rev 1;
  revision_log =
      fsm.revision_log
      ++ (record { rev_number = fsm.head_rev; changeset = c; source = entry.client_id } ∷ []);
  client_last_submission = put fsm.client_last_submission entry.client_id entry.submission_id;
}

-- The results of an entry that is applied, and of one that was applied before.
unfoldable pub accepted : DocumentStateMachine → RaftLogEntry → Changeset → ApplyResult
accepted fsm entry c = record {
  c_prime = c;
  new_rev = add64 fsm.head_rev 1;
  client_id = entry.client_id;
  is_duplicate = false;
}

unfoldable pub duplicate : DocumentStateMachine → RaftLogEntry → ApplyResult
duplicate fsm entry = record {
  c_prime = record { old_len = 0; new_len = 0; ops = [] };
  new_rev = fsm.head_rev;
  client_id = entry.client_id;
  is_duplicate = true;
}

-- The part behind the OT loop: apply the changeset and record the revision.
unfoldable pub commit :
    DocumentStateMachine → RaftLogEntry → Changeset → Outcome ApplyError Text → Run Applied
commit fsm entry c (ok new_text) = done (recorded fsm entry c new_text, some (accepted fsm entry c))
commit fsm entry c (err e) = done (fsm, none)
commit fsm entry c panic = panicked

unfoldable pub transformed : DocumentStateMachine → RaftLogEntry → Run Changeset → Run Applied
transformed fsm entry (done c) = commit fsm entry c (apply_changeset fsm.head_text c)
transformed fsm entry panicked = panicked
transformed fsm entry running = running

-- `Apply` of a decoded entry.
unfoldable pub apply_entry : DocumentStateMachine → RaftLogEntry → Run Applied
apply_entry fsm entry =
    if already_done (fsm.client_last_submission entry.client_id) entry.submission_id
    then done (fsm, some (duplicate fsm entry))
    else transformed fsm entry (
        rebase_loop (suc (length fsm.revision_log)) fsm.revision_log fsm.head_rev entry.base_rev
          entry.changeset)

unfoldable pub apply_decoded : DocumentStateMachine → Option RaftLogEntry → Run Applied
apply_decoded fsm none = done (fsm, none)
apply_decoded fsm (some entry) = apply_entry fsm entry

-- `Apply`, over the decoder `UnmarshalEntry` of encoding/json; `none` is a decoding error.
unfoldable pub apply : (Text → Option RaftLogEntry) → DocumentStateMachine → Text → Run Applied
apply unmarshal fsm bytes = apply_decoded fsm (unmarshal bytes)

-- `RevisionsSince`; `fsm.revisionLog[fromRev:]` panics for a negative index.
unfoldable pub revisions_since : DocumentStateMachine → ℕ → Run (List RevisionRecord)
revisions_since fsm from_rev =
    if le_int (length fsm.revision_log) from_rev
    then done []
    else if lt_int from_rev 0
    then panicked
    else done (drop from_rev fsm.revision_log)
