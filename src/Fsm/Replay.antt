-- ===== src/Fsm/Replay.antt =====
-- The revision log rebuilds the document.
use ds_collaborative_editor.Base.{
  ℕ, zero, suc, ◌+◌, ◌≤◌, ◌<◌, List, [], ◌∷◌, ◌++◌, Option, none, some, false, true, length, take,
  drop, drop_all, take-append-drop, ◌≡◌, refl, sym, ap, ◌∙◌, arith, Bool-cases, inl, inr,
  length-append, length-drop, subst,
}
use native.Mathlib.Nat.{zero-add}
use ds_collaborative_editor.Base.Int.{int_max, add64_lem, lt_int_lem, le_int_lem}
use ds_collaborative_editor.Base.Outcome.{Outcome, ok, err, panic, ◌>>=◌, bind_assoc, bind_cong}
use ds_collaborative_editor.Base.Text.{Text}
use ds_collaborative_editor.Ot.Changeset.{Changeset}
use ds_collaborative_editor.Ot.Cursor.{Run, done, panicked, running}
use ds_collaborative_editor.Ot.Apply.{ApplyError, apply_changeset}
use ds_collaborative_editor.Fsm.{
  RaftLogEntry, RevisionRecord, ApplyResult, DocumentStateMachine, new_document_state_machine,
  already_done, rebase_loop, Applied, commit, transformed, apply_entry, apply, revisions_since,
  recorded, accepted, duplicate, apply_decoded,
}

-- The text that the revisions make of a text, one after the other.
unfoldable pub replay : Text → List RevisionRecord → Outcome ApplyError Text
replay text [] = ok text
replay text (r ∷ log) = apply_changeset text r.changeset >>= λ next. replay next log

pub replay-append :
    (text : Text) (a b : List RevisionRecord)
    → replay text (a ++ b) ≡ (replay text a >>= λ next. replay next b)
unfolding replay
replay-append text [] b = refl
replay-append text (r ∷ a) b =
    bind_cong (apply_changeset text r.changeset) _ _ (λ next. replay-append next a b)
    ∙ sym (
        bind_assoc (apply_changeset text r.changeset) (λ next. replay next a)
          (λ next. replay next b))

-- Revisions carry their positions as numbers.
abbrev pub IsNumbered : ℕ → List RevisionRecord → Type 0
IsNumbered n [] = Unit
IsNumbered n (r ∷ log) = (r.rev_number ≡ n) × IsNumbered (suc n) log

-- The head text is the replay of the log on the initial text, and the head revision counts the log.
pub record IsConsistent (initial : Text) (fsm : DocumentStateMachine) : Type 0 where
  pub counted : fsm.head_rev ≡ length fsm.revision_log
  pub numbered : IsNumbered 0 fsm.revision_log
  pub replayed : replay initial fsm.revision_log ≡ ok fsm.head_text

IsNumbered-append :
    (n : ℕ) (log : List RevisionRecord) (r : RevisionRecord)
    → IsNumbered n log
    → r.rev_number ≡ n + length log
    → IsNumbered n (log ++ (r ∷ []))
IsNumbered-append n [] r h e = (omega arith, tt)
IsNumbered-append n (q ∷ log) r h e = (h.0, IsNumbered-append (suc n) log r h.1 (omega arith))

recorded-IsConsistent :
    (initial : Text) (fsm : DocumentStateMachine) (entry : RaftLogEntry) (c : Changeset)
    (text : Text)
    → IsConsistent initial fsm
    → length fsm.revision_log < int_max
    → apply_changeset fsm.head_text c ≡ ok text
    → IsConsistent initial (recorded fsm entry c text)
unfolding recorded
recorded-IsConsistent initial fsm entry c text h l e = record {
  counted =
      add64_lem fsm.head_rev 1 (omega (arith, h.counted))
      ∙ omega (arith, h.counted, length-append fsm.revision_log (last ∷ []));
  numbered = IsNumbered-append 0 fsm.revision_log last h.numbered (omega (arith, h.counted));
  replayed =
      replay-append initial fsm.revision_log (last ∷ []) ∙ (rw h.replayed (unfold replay in rw e));
}
  where
    last : RevisionRecord
    last = record { rev_number = fsm.head_rev; changeset = c; source = entry.client_id }

-- What a run of `Apply` that returns has done to the state.
pub data Effect (fsm : DocumentStateMachine) (entry : RaftLogEntry) (after : DocumentStateMachine)
    (response : Option ApplyResult) : Type 0 where
  refused : after ≡ fsm → response ≡ none → Effect fsm entry after response
  repeated :
      already_done (fsm.client_last_submission entry.client_id) entry.submission_id ≡ true
      → after ≡ fsm
      → response ≡ some (duplicate fsm entry)
      → Effect fsm entry after response
  committed :
      (c : Changeset) (text : Text)
      → already_done (fsm.client_last_submission entry.client_id) entry.submission_id ≡ false
      → apply_changeset fsm.head_text c ≡ ok text
      → after ≡ recorded fsm entry c text
      → response ≡ some (accepted fsm entry c)
      → Effect fsm entry after response

commit-Effect :
    (fsm after : DocumentStateMachine) (entry : RaftLogEntry) (response : Option ApplyResult)
    (c : Changeset) (o : Outcome ApplyError Text)
    → already_done (fsm.client_last_submission entry.client_id) entry.submission_id ≡ false
    → apply_changeset fsm.head_text c ≡ o
    → commit fsm entry c o ≡ done (after, response)
    → Effect fsm entry after response
unfolding commit
commit-Effect fsm after entry response c (ok text) n e h =
    committed c text n e (ground arith) (ground arith)
commit-Effect fsm after entry response c (err x) n e h = refused (ground arith) (ground arith)
commit-Effect fsm after entry response c panic n e h = cc

transformed-Effect :
    (fsm after : DocumentStateMachine) (entry : RaftLogEntry) (response : Option ApplyResult)
    (r : Run Changeset)
    → already_done (fsm.client_last_submission entry.client_id) entry.submission_id ≡ false
    → transformed fsm entry r ≡ done (after, response)
    → Effect fsm entry after response
unfolding transformed
transformed-Effect fsm after entry response (done c) n h =
    commit-Effect fsm after entry response c _ n refl h
transformed-Effect fsm after entry response panicked n h = cc
transformed-Effect fsm after entry response running n h = cc

module _ (fsm : DocumentStateMachine) (entry : RaftLogEntry) where
  pub apply_entry_seen :
      already_done (fsm.client_last_submission entry.client_id) entry.submission_id ≡ true
      → apply_entry fsm entry ≡ done (fsm, some (duplicate fsm entry))
  unfolding apply_entry
  apply_entry_seen y = rw y

  pub apply_entry_new :
      already_done (fsm.client_last_submission entry.client_id) entry.submission_id ≡ false
      → apply_entry fsm entry
        ≡ transformed fsm entry (
            rebase_loop
              (suc (length fsm.revision_log))
              fsm.revision_log
              fsm.head_rev
              entry.base_rev
              entry.changeset)
  unfolding apply_entry
  apply_entry_new n = rw n

repeated_lem :
    (fsm after : DocumentStateMachine) (entry : RaftLogEntry) (response : Option ApplyResult)
    → already_done (fsm.client_last_submission entry.client_id) entry.submission_id ≡ true
    → ◌≡◌ {A = Run Applied} (done (fsm, some (duplicate fsm entry))) (done (after, response))
    → Effect fsm entry after response
repeated_lem fsm after entry response y h = repeated y (ground arith) (ground arith)

-- `Apply` of a decoded entry that returns has refused the entry and changed nothing, or has found it
-- done before and changed nothing, or has recorded one revision that applies to the head text.
pub apply_entry-Effect :
    (fsm after : DocumentStateMachine) (entry : RaftLogEntry) (response : Option ApplyResult)
    → apply_entry fsm entry ≡ done (after, response)
    → Effect fsm entry after response
apply_entry-Effect fsm after entry response h =
    elim (Bool-cases
      (already_done (fsm.client_last_submission entry.client_id) entry.submission_id)) [
        | inl y ↦ repeated_lem fsm after entry response y (sym (apply_entry_seen fsm entry y) ∙ h)
        | inr n ↦
            transformed-Effect fsm after entry response _ n (sym (apply_entry_new fsm entry n) ∙ h)
      ]

Effect-IsConsistent :
    (initial : Text) (fsm after : DocumentStateMachine) (entry : RaftLogEntry)
    (response : Option ApplyResult)
    → IsConsistent initial fsm
    → length fsm.revision_log < int_max
    → Effect fsm entry after response
    → IsConsistent initial after
Effect-IsConsistent initial fsm after entry response h l (refused e _) = rw e h
Effect-IsConsistent initial fsm after entry response h l (repeated _ e _) = rw e h
Effect-IsConsistent initial fsm after entry response h l (committed c text _ a e _) =
    rw e (recorded-IsConsistent initial fsm entry c text h l a)

decoded-IsConsistent :
    (initial : Text) (fsm after : DocumentStateMachine) (o : Option RaftLogEntry)
    (response : Option ApplyResult)
    → IsConsistent initial fsm
    → length fsm.revision_log < int_max
    → apply_decoded fsm o ≡ done (after, response)
    → IsConsistent initial after
decoded-IsConsistent initial fsm after none response h l e =
    let same : after ≡ fsm = unfold apply_decoded in ground arith in rw same h
decoded-IsConsistent initial fsm after (some entry) response h l e =
    Effect-IsConsistent initial fsm after entry response h l
      (apply_entry-Effect fsm after entry response (unfold apply_decoded in e))

-- A new state machine is consistent with its text.
pub new-IsConsistent : (initial : Text) → IsConsistent initial (new_document_state_machine initial)
unfolding new_document_state_machine replay
new-IsConsistent initial = record { counted = refl; numbered = tt; replayed = refl }

-- Whatever bytes the Raft log holds and however they decode, an `Apply` that returns keeps the
-- document the replay of the revision log on the initial text, the head revision the number of
-- revisions, and each revision's number its place, as long as there are fewer revisions than the
-- greatest int.
pub apply-IsConsistent :
    (unmarshal : Text → Option RaftLogEntry) (initial : Text) (fsm after : DocumentStateMachine)
    (bytes : Text) (response : Option ApplyResult)
    → IsConsistent initial fsm
    → length fsm.revision_log < int_max
    → apply unmarshal fsm bytes ≡ done (after, response)
    → IsConsistent initial after
apply-IsConsistent unmarshal initial fsm after bytes response h l e =
    decoded-IsConsistent initial fsm after (unmarshal bytes) response h l (unfold apply in e)

since :
    (fsm : DocumentStateMachine) (n : ℕ)
    → n ≤ length fsm.revision_log
    → length fsm.revision_log < int_max
    → revisions_since fsm n ≡ done (drop n fsm.revision_log)
unfolding revisions_since
since fsm n h l =
    ground
      (arith, le_int_lem (length fsm.revision_log) n, lt_int_lem n 0, drop_all n fsm.revision_log)

drop-IsNumbered :
    (m n : ℕ) (log : List RevisionRecord)
    → n ≤ length log
    → IsNumbered m log
    → IsNumbered (m + n) (drop n log)
drop-IsNumbered m zero log h r =
    let e : m ≡ m + 0 = omega arith in subst (λ k. IsNumbered k log) e r
drop-IsNumbered m (suc n) [] h r = absurd (omega arith)
drop-IsNumbered m (suc n) (x ∷ log) h r =
    let e : suc m + n ≡ m + suc n = omega arith in
    subst (λ k. IsNumbered k (drop n log)) e (drop-IsNumbered (suc m) n log (omega arith) r.1)

-- A client at an earlier revision gets by `RevisionsSince` exactly the records of the log behind
-- its revision: what it has and what it gets are together the log, none missing and none twice;
-- they carry the numbers from its revision on, one after the other; and replayed on its text they
-- make the head text.
pub revisions_since-catches_up :
    (initial text : Text) (fsm : DocumentStateMachine) (from_rev : ℕ)
    → IsConsistent initial fsm
    → length fsm.revision_log < int_max
    → from_rev ≤ fsm.head_rev
    → replay initial (take from_rev fsm.revision_log) ≡ ok text
    → (log : List RevisionRecord) × (revisions_since fsm from_rev ≡ done log)
      × (take from_rev fsm.revision_log ++ log ≡ fsm.revision_log)
      × (from_rev + length log ≡ fsm.head_rev)
      × IsNumbered from_rev log
      × (replay text log ≡ ok fsm.head_text)
revisions_since-catches_up initial text fsm n h l f e = (
  drop n fsm.revision_log,
  since fsm n (omega (arith, h.counted)) l,
  take-append-drop n fsm.revision_log,
  length-behind,
  subst (λ k. IsNumbered k (drop n fsm.revision_log)) (zero-add n)
      (drop-IsNumbered 0 n fsm.revision_log (omega (arith, h.counted)) h.numbered),
  sym (ap (λ m. m >>= λ next. replay next (drop n fsm.revision_log)) e)
      ∙ (sym (replay-append initial (take n fsm.revision_log) (drop n fsm.revision_log))
          ∙ (ap (replay initial) (take-append-drop n fsm.revision_log) ∙ h.replayed)),
)
  where
    length-behind : n + length (drop n fsm.revision_log) ≡ fsm.head_rev
    length-behind = omega (arith, length-drop n fsm.revision_log, h.counted)
