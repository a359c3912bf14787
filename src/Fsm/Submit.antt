-- ===== src/Fsm/Submit.antt =====
-- A well-formed submission is applied, whatever was committed since the revision it was made at.
use ds_collaborative_editor.Base.{
  ℕ, zero, suc, ◌+◌, ◌≤◌, ◌<◌, List, [], ◌∷◌, some, false, true, length, get_elem?, drop,
  length-drop, ◌≡◌, refl, sym, ap, ◌∙◌, arith,
}
use ds_collaborative_editor.Base.Int.{IsInt, int_max, add64, add64_lem, lt_int, lt_int_lem}
use ds_collaborative_editor.Base.Outcome.{ok}
use ds_collaborative_editor.Base.Text.{Text}
use ds_collaborative_editor.Ot.Changeset.{Changeset}
use ds_collaborative_editor.Ot.Cursor.{Run, done}
use ds_collaborative_editor.Ot.Follow.{follow}
use ds_collaborative_editor.Ot.Follow.Correct.{follow-IsValid}
use ds_collaborative_editor.Ot.Ops.{edit, length-edit}
use ds_collaborative_editor.Ot.Valid.{IsValid}
use ds_collaborative_editor.Ot.Apply.{apply_changeset}
use ds_collaborative_editor.Ot.Apply.Correct.{apply-edit}
use ds_collaborative_editor.Fsm.{
  RaftLogEntry, RevisionRecord, DocumentStateMachine, already_done, revision_at, rebase_loop,
  commit, transformed, recorded, accepted, apply_entry,
}
use ds_collaborative_editor.Fsm.Replay.{apply_entry_new}

-- Well-formed changesets that lead from texts of one length to texts of another.
abbrev pub IsChain : ℕ → List RevisionRecord → ℕ → Type 0
IsChain n [] m = n ≡ m
IsChain n (r ∷ log) m =
    IsValid r.changeset × (r.changeset.old_len ≡ n) × IsChain r.changeset.new_len log m

-- The sum of the lengths of the texts that revisions make.
abbrev pub weight : List RevisionRecord → ℕ
weight [] = 0
weight (r ∷ log) = r.changeset.new_len + weight log

drop_cons :
    (log rest : List RevisionRecord) (n : ℕ) (r : RevisionRecord)
    → drop n log ≡ r ∷ rest
    → (get_elem? log n ≡ some r) × (drop (suc n) log ≡ rest) × (n < length log)
drop_cons [] rest zero r e = cc
drop_cons [] rest (suc n) r e = cc
drop_cons (x ∷ log) rest zero r e = (ground arith, ground arith, omega arith)
drop_cons (x ∷ log) rest (suc n) r e =
    let (a, b, c) = drop_cons log rest n r e in (a, b, omega arith)

drop_nil : (log : List RevisionRecord) (n : ℕ) → drop n log ≡ [] → length log ≤ n
drop_nil [] n e = omega arith
drop_nil (x ∷ log) zero e = cc
drop_nil (x ∷ log) (suc n) e = omega (arith, drop_nil log n e)

module _ (log : List RevisionRecord) (few : length log < int_max) where
  round_last :
      (fuel n : ℕ) (c : Changeset)
      → length log ≤ n
      → IsInt n
      → rebase_loop (suc fuel) log (length log) n c ≡ done c
  unfolding rebase_loop
  round_last fuel n c h k =
      let e : lt_int n (length log) ≡ false =
        lt_int_lem n (length log) k (omega arith) ∙ (ground arith) in
      rw (e, rebase_loop)

  round_more :
      (fuel n : ℕ) (r : RevisionRecord) (c c' : Changeset)
      → n < length log
      → get_elem? log n ≡ some r
      → follow r.changeset c ≡ done c'
      → rebase_loop (suc fuel) log (length log) n c ≡ rebase_loop fuel log (length log) (suc n) c'
  unfolding rebase_loop revision_at
  round_more fuel n r c c' h g f =
      let e : lt_int n (length log) ≡ true =
        lt_int_lem n (length log) (omega arith) (omega arith) ∙ (ground arith) in
      let e' : lt_int n 0 ≡ false = lt_int_lem n 0 (omega arith) (omega arith) ∙ (ground arith) in
      let next : add64 n 1 ≡ suc n = add64_lem n 1 (omega arith) ∙ (omega arith) in
      rw (e, e', g, f, next, rebase_loop)

  -- The loop ends with a changeset of the text at the end of the log.
  rebase_total :
      (suffix : List RevisionRecord) (fuel n old new : ℕ) (c : Changeset)
      → drop n log ≡ suffix
      → n ≤ length log
      → length suffix < fuel
      → IsChain old suffix new
      → IsValid c
      → c.old_len ≡ old
      → IsInt (weight suffix + c.new_len)
      → (c' : Changeset) × (rebase_loop fuel log (length log) n c ≡ done c')
        × IsValid c'
        × (c'.old_len ≡ new)
  rebase_total suffix zero n old new c d l h ch v e w = absurd (omega arith)
  rebase_total [] (suc fuel) n old new c d l h ch v e w =
      (c, round_last fuel n c (drop_nil log n d) (omega arith), v, e ∙ ch)
  rebase_total (r ∷ suffix) (suc fuel) n old new c d l h (vr, er, ch) v e w =
      let (g, d', below) = drop_cons log suffix n r d in
      let (c', f, v', e', _, le) = follow-IsValid r.changeset c vr v (er ∙ sym e) (omega arith) in
      let (c'', f'', v'', e'') =
        rebase_total suffix fuel (suc n) r.changeset.new_len new c' d' (omega arith) (omega arith)
          ch v' e' (omega arith) in
      (c'', round_more fuel n r c c' below g f ∙ f'', v'', e'')

finish :
    (fsm : DocumentStateMachine) (entry : RaftLogEntry) (c : Changeset) (text : Text)
    (r : Run Changeset)
    → r ≡ done c
    → apply_changeset fsm.head_text c ≡ ok text
    → transformed fsm entry r ≡ done (recorded fsm entry c text, some (accepted fsm entry c))
unfolding transformed commit
finish fsm entry c text r e a = rw e (rw a)

-- A submission that is new, well-formed, made at a revision of the log, and small enough for all
-- lengths on the way to be ints, is applied: `Apply` returns, and records a well-formed changeset
-- of the head text that leads to the new head text. The changeset is made at the text of revision
-- BaseRev, and the later revisions lead from there to the head text.
pub submission-applies :
    (fsm : DocumentStateMachine) (entry : RaftLogEntry)
    → fsm.head_rev ≡ length fsm.revision_log
    → length fsm.revision_log < int_max
    → already_done (fsm.client_last_submission entry.client_id) entry.submission_id ≡ false
    → IsValid entry.changeset
    → entry.base_rev ≤ fsm.head_rev
    → IsChain entry.changeset.old_len (drop entry.base_rev fsm.revision_log) (length fsm.head_text)
    → IsInt (weight (drop entry.base_rev fsm.revision_log) + entry.changeset.new_len)
    → (c : Changeset) × (text : Text) × (apply_entry fsm entry
        ≡ done (recorded fsm entry c text, some (accepted fsm entry c)))
      × IsValid c
      × (apply_changeset fsm.head_text c ≡ ok text)
      × (c.old_len ≡ length fsm.head_text)
      × (c.new_len ≡ length text)
submission-applies fsm entry counted few fresh v based chain short =
    let log = fsm.revision_log in
    let suffix = drop entry.base_rev log in
    let (c, f, v', e) =
      rebase_total log few suffix (suc (length log)) entry.base_rev entry.changeset.old_len
        (length fsm.head_text) entry.changeset refl (omega (arith, counted))
        (omega (arith, length-drop entry.base_rev log)) chain v refl short in
    let text = edit c.ops fsm.head_text in
    let a = apply-edit fsm.head_text c v' e in
    (
      c,
      text,
      apply_entry_new fsm entry fresh
          ∙ finish fsm entry c text _
              (ap (λ h. rebase_loop (suc (length log)) log h entry.base_rev entry.changeset) counted
                ∙ f)
              a,
      v',
      a,
      e,
      omega (arith, length-edit c.ops fsm.head_text (v'.reads ∙ e), v'.writes),
    )
