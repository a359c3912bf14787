-- ===== src/Ot/Compose/Law.antt =====
-- `Compose` on well-formed changesets.
use ds_collaborative_editor.Base.{suc, ◌+◌, List, [], ◌≡◌, refl, sym, ap, ◌∙◌, length, arith}
use ds_collaborative_editor.Base.Outcome.{ok}
use ds_collaborative_editor.Base.Text.{Text}
use ds_collaborative_editor.Ot.Changeset.{Op, Changeset}
use ds_collaborative_editor.Ot.Cursor.{add_op, start, done, loop}
use ds_collaborative_editor.Ot.Ops.{IsSeparate, src_len, dst_len, edit, length-edit}
use ds_collaborative_editor.Ot.Loop.{push_all, loop-emitted, start-IsFresh, view_start}
use ds_collaborative_editor.Ot.Merge.{Pushed, pushed, pushed-IsSeparate, pushed-All}
use ds_collaborative_editor.Ot.Valid.{IsValid}
use ds_collaborative_editor.Ot.Apply.{apply_changeset}
use ds_collaborative_editor.Ot.Apply.Correct.{apply-edit}
use ds_collaborative_editor.Ot.Compose.{compose_step, with_ops, compose}
use ds_collaborative_editor.Ot.Compose.Rounds.{compose_step-Progresses}
use ds_collaborative_editor.Ot.Compose.Correct.{IsComposed, merged, composed}

module _ (a b : Changeset) (va : IsValid a) (vb : IsValid b) (meet : a.new_len ≡ b.old_len) where
  emission : List Op
  emission = merged (suc (length a.ops + length b.ops)) a.ops b.ops

  abbrev result : Changeset
  result = record { old_len = a.old_len; new_len = b.new_len; ops = push_all add_op [] emission }

  emission-IsComposed : IsComposed a.ops b.ops emission
  unfolding emission
  emission-IsComposed =
      composed _ a.ops b.ops va.positive vb.positive (va.writes ∙ (meet ∙ sym vb.reads))
        (omega arith)

  ops-result :
      loop add_op compose_step (suc (length a.ops + length b.ops)) (start a.ops) (start b.ops) []
      ≡ done result.ops
  unfolding emission
  ops-result =
      loop-emitted add_op compose_step compose_step-Progresses (suc (length a.ops + length b.ops))
        (start a.ops) (start b.ops) _ (start-IsFresh a.ops va.positive)
        (start-IsFresh b.ops vb.positive) (omega arith)
      ∙ (rw (view_start a.ops, view_start b.ops))

  compose-result : compose a b ≡ done result
  compose-result = compose_lem ∙ ap (with_ops a b) ops-result ∙ (unfold with_ops in refl)
    where
      compose_lem :
          compose a b
          ≡ with_ops a b (
              loop add_op compose_step
                (suc (length a.ops + length b.ops))
                (start a.ops)
                (start b.ops)
                [])
      compose_lem = unfold compose in refl

  nil_lens : (src_len [] ≡ 0) × (dst_len [] ≡ 0)
  nil_lens = unfold src_len dst_len in (refl, refl)

  emission_lens : (src_len emission ≡ a.old_len) × (dst_len emission ≡ b.new_len)
  emission_lens = (emission-IsComposed.reads ∙ va.reads, emission-IsComposed.writes ∙ vb.writes)

  emission-Pushed : Pushed [] emission
  emission-Pushed = pushed [] emission (omega (arith, emission_lens, nil_lens, va.short))

  result-IsValid : IsValid result
  result-IsValid = record {
    positive =
        pushed-All [] emission tt emission-IsComposed.positive
          (omega (arith, emission_lens, nil_lens, va.short))
          (omega (arith, emission_lens, nil_lens, vb.short));
    reads = omega (arith, emission-Pushed.src, emission_lens, nil_lens);
    writes = omega (arith, emission-Pushed.dst, emission_lens, nil_lens);
    short = (va.short.0, vb.short.1);
  }

  edit-result :
      (doc : Text) → a.old_len ≡ length doc → edit result.ops doc ≡ edit b.ops (edit a.ops doc)
  edit-result doc e = emission-Pushed.same doc ∙ emission-IsComposed.same doc (va.reads ∙ e)

-- `Compose` of a well-formed changeset A of a document and a well-formed changeset B of the text
-- that A makes ends, and its result is well-formed, from A's old length to B's new length, with no
-- two inserts side by side. A on the document, then B on the text that it makes, and the
-- composition on the document all apply, and the composition gives the text that B gives.
pub compose-apply :
    (doc : Text) (a b : Changeset)
    → IsValid a
    → IsValid b
    → a.new_len ≡ b.old_len
    → a.old_len ≡ length doc
    → (c : Changeset) × (mid : Text) × (out : Text) × (compose a b ≡ done c)
      × IsValid c
      × (c.old_len ≡ a.old_len)
      × (c.new_len ≡ b.new_len)
      × IsSeparate c.ops
      × (apply_changeset doc a ≡ ok mid)
      × (apply_changeset mid b ≡ ok out)
      × (apply_changeset doc c ≡ ok out)
compose-apply doc a b va vb meet e = (
  result a b va vb meet,
  edit a.ops doc,
  edit b.ops (edit a.ops doc),
  compose-result a b va vb meet,
  result-IsValid a b va vb meet,
  refl,
  refl,
  pushed-IsSeparate [] _ tt,
  apply-edit doc a va e,
  apply-edit _ b vb (omega (arith, length-edit a.ops doc (va.reads ∙ e), va.writes)),
  apply-edit doc (result a b va vb meet) (result-IsValid a b va vb meet) e
      ∙ ap ok (edit-result a b va vb meet doc e),
)
