-- ===== src/Tests/Machine.antt =====
-- internal/fsm on a small document.
use ds_collaborative_editor.Base.{
  ◌+◌, ◌-◌, ◌^◌, List, [], ◌∷◌, ◌++◌, take, ◌≡◌, refl, length, none, some, arith,
}
use ds_collaborative_editor.Base.Int.{add64, sub64, lt_int, le_int}
use ds_collaborative_editor.Base.Outcome.{ok}
use ds_collaborative_editor.Base.Text.{Text, codes, text_eq}
use ds_collaborative_editor.Ot.Changeset.{Changeset, retain, insert}
use ds_collaborative_editor.Ot.Cursor.{done, panicked}
use ds_collaborative_editor.Ot.Apply.{apply_changeset}
use ds_collaborative_editor.Ot.Ops.{src_len, dst_len}
use ds_collaborative_editor.Ot.Valid.{IsValid}
use ds_collaborative_editor.Fsm.{
  RaftLogEntry, RevisionRecord, DocumentStateMachine, new_document_state_machine, apply,
  apply_decoded, apply_entry, already_done, rebase_loop, transformed, commit, recorded, accepted,
  revisions_since, put,
}
use ds_collaborative_editor.Fsm.Replay.{
  IsConsistent, IsNumbered, new-IsConsistent, apply-IsConsistent, replay,
  revisions_since-catches_up,
}
use ds_collaborative_editor.Fsm.Submit.{submission-applies}
use ds_collaborative_editor.Fsm.Crash.{negative_base_rev_panics}

abbrev pub hello : Changeset
hello = record { old_len = 0; new_len = 2; ops = insert (codes "hi") ∷ [] }

hello-IsValid : IsValid hello
unfolding src_len dst_len
hello-IsValid = record { positive = omega arith; reads = refl; writes = refl; short = omega arith }

abbrev first_entry : RaftLogEntry
first_entry = record { client_id = codes "ann"; submission_id = 1; base_rev = 0; changeset = hello }

abbrev pub empty_machine : DocumentStateMachine
empty_machine = record {
  head_text = [];
  head_rev = 0;
  revision_log = [];
  client_last_submission = λ client. none;
}

abbrev one_revision : DocumentStateMachine
one_revision = recorded empty_machine first_entry hello (codes "hi")

first_applies :
    apply_entry empty_machine first_entry
    ≡ done (one_revision, some (accepted empty_machine first_entry hello))
unfolding apply_entry already_done rebase_loop transformed commit apply_changeset add64 sub64 lt_int
    le_int
first_applies = refl

empty-IsConsistent : IsConsistent [] empty_machine
unfolding new_document_state_machine
empty-IsConsistent = new-IsConsistent []

apply-IsConsistent_example : IsConsistent [] one_revision
unfolding apply apply_decoded
apply-IsConsistent_example =
    apply-IsConsistent (λ bytes. some first_entry) [] empty_machine one_revision [] _
      empty-IsConsistent (omega arith) first_applies

one-IsConsistent : IsConsistent [] one_revision
unfolding apply apply_decoded
one-IsConsistent =
    apply-IsConsistent (λ bytes. some first_entry) [] empty_machine one_revision [] _
      empty-IsConsistent (omega arith) first_applies

-- A second client adds a character at the end.
abbrev shout : Changeset
shout = record { old_len = 2; new_len = 3; ops = retain 2 ∷ insert (codes "!") ∷ [] }

abbrev second_entry : RaftLogEntry
second_entry = record {
  client_id = codes "bob";
  submission_id = 1;
  base_rev = 1;
  changeset = shout;
}

abbrev two_revisions : DocumentStateMachine
two_revisions = recorded one_revision second_entry shout (codes "hi!")

second_applies :
    apply_entry one_revision second_entry
    ≡ done (two_revisions, some (accepted one_revision second_entry shout))
unfolding apply_entry already_done rebase_loop transformed commit apply_changeset add64 sub64 lt_int
    le_int recorded put text_eq
second_applies = refl

two-IsConsistent : IsConsistent [] two_revisions
unfolding apply apply_decoded recorded
two-IsConsistent =
    apply-IsConsistent (λ bytes. some second_entry) [] one_revision two_revisions [] _
      one-IsConsistent (omega arith) second_applies

revisions_since-catches_up_example :
    (log : List RevisionRecord) × (revisions_since two_revisions 1 ≡ done log)
    × (take 1 two_revisions.revision_log ++ log ≡ two_revisions.revision_log)
    × (1 + length log ≡ two_revisions.head_rev)
    × IsNumbered 1 log
    × (replay (codes "hi") log ≡ ok (codes "hi!"))
unfolding recorded replay apply_changeset add64 sub64 lt_int le_int
revisions_since-catches_up_example =
    revisions_since-catches_up [] (codes "hi") two_revisions 1 two-IsConsistent (omega arith)
      (omega arith) refl

-- The second client's text at revision 0, which is one behind.
abbrev late : Changeset
late = record { old_len = 0; new_len = 1; ops = insert (codes "a") ∷ [] }

late-IsValid : IsValid late
unfolding src_len dst_len
late-IsValid = record { positive = omega arith; reads = refl; writes = refl; short = omega arith }

abbrev late_entry : RaftLogEntry
late_entry = record { client_id = codes "bob"; submission_id = 1; base_rev = 0; changeset = late }

submission-applies_example :
    (c : Changeset) × (text : Text) × (apply_entry one_revision late_entry
      ≡ done (recorded one_revision late_entry c text, some (accepted one_revision late_entry c)))
    × IsValid c
    × (apply_changeset (codes "hi") c ≡ ok text)
    × (c.old_len ≡ 2)
    × (c.new_len ≡ length text)
unfolding recorded put text_eq already_done add64 src_len dst_len
submission-applies_example =
    submission-applies one_revision late_entry refl (omega arith) refl late-IsValid (omega arith)
      (hello-IsValid, refl, refl) (omega arith)

negative_base_rev_panics_example :
    apply_entry empty_machine (record first_entry { base_rev = 2 ^ 64 - 1 }) ≡ panicked
negative_base_rev_panics_example =
    negative_base_rev_panics empty_machine (record first_entry { base_rev = 2 ^ 64 - 1 })
      (unfold already_done in refl) (omega arith) (omega arith)
