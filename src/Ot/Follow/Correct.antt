-- ===== src/Ot/Follow/Correct.antt =====
-- `Follow` on well-formed changesets: it ends, it is well-formed, and it converges.
use ds_collaborative_editor.Base.{
  ℕ, suc, ◌+◌, ◌≤◌, ◌<◌, List, [], ◌∷◌, ◌≡◌, refl, sym, ap, ◌∙◌, length, arith,
}
use ds_collaborative_editor.Base.Int.{IsInt, word_mod, add64_lem}
use ds_collaborative_editor.Base.Text.{Text}
use ds_collaborative_editor.Ot.Changeset.{Op, retain, insert, delete, unknown, Changeset}
use ds_collaborative_editor.Ot.Cursor.{add_op, start, done}
use ds_collaborative_editor.Ot.Follow.{follow_step, new_chars, follow_add_op, follow}
use ds_collaborative_editor.Ot.Ops.{IsSeparate, src_len, dst_len, edit}
use ds_collaborative_editor.Ot.Loop.{push_all, loop-emitted, start-IsFresh, view_start}
use ds_collaborative_editor.Ot.Merge.{Pushed, pushed, pushed-IsSeparate, pushed-All}
use ds_collaborative_editor.Ot.Valid.{IsValid}
use ds_collaborative_editor.Ot.Follow.Rounds.{follow_step-Progresses}
use ds_collaborative_editor.Ot.Follow.Converge.{rebase}
use ds_collaborative_editor.Ot.Follow.Shape.{IsRebased, rebased}

dst_len_new : (op : Op) (ops : List Op) → dst_len (op ∷ ops) ≡ new_chars op + dst_len ops
unfolding dst_len new_chars
dst_len_new (retain n) ops = refl
dst_len_new (insert s) ops = refl
dst_len_new (delete n) ops = omega arith
dst_len_new (unknown t n) ops = omega arith

nil_lens : (src_len [] ≡ 0) × (dst_len [] ≡ 0)
unfolding src_len dst_len
nil_lens = (refl, refl)

-- A changeset with more operations handed to `addOp`.
abbrev extended : Changeset → List Op → Changeset
extended c ops = record {
  old_len = c.old_len;
  new_len = c.new_len + dst_len ops;
  ops = push_all add_op c.ops ops;
}

total :
    (c : Changeset) (op : Op) (ops : List Op)
    → (follow_add_op c op).new_len ≡ c.new_len + new_chars op
    → dst_len (op ∷ ops) ≡ new_chars op + dst_len ops
    → extended (follow_add_op c op) ops ≡ extended c (op ∷ ops)
unfolding follow_add_op push_all
total c op ops grown e =
    let all = push_all add_op (add_op c.ops op) ops in
    let with_len : ℕ → Changeset = λ n. record { old_len = c.old_len; new_len = n; ops = all } in
    ap with_len (omega (arith, grown, e))

-- The changeset that `follow_add_op` collects.
collected :
    (c : Changeset) (ops : List Op)
    → c.new_len + dst_len ops < word_mod
    → push_all follow_add_op c ops ≡ extended c ops
unfolding push_all
collected c [] h = ap (λ n. record c { new_len = n }) (unfold dst_len in omega arith)
collected c (op ∷ ops) h =
    let e = dst_len_new op ops in
    let grown : (follow_add_op c op).new_len ≡ c.new_len + new_chars op =
      unfold follow_add_op in add64_lem c.new_len (new_chars op) (omega (arith, e)) in
    collected (follow_add_op c op) ops (omega (arith, e, grown)) ∙ total c op ops grown e

module _ (a b : Changeset) (va : IsValid a) (vb : IsValid b) (same : a.old_len ≡ b.old_len)
    (short : IsInt (a.new_len + b.new_len)) where
  pub emission : List Op
  emission = rebase (suc (length a.ops + length b.ops)) a.ops b.ops

  abbrev pub result : Changeset
  result = extended (record { old_len = a.new_len; new_len = 0; ops = [] }) emission

  emission-IsRebased : IsRebased a.ops b.ops emission
  unfolding emission
  emission-IsRebased =
      rebased _ a.ops b.ops va.positive vb.positive (va.reads ∙ (same ∙ sym vb.reads)) (omega arith)

  pub emission_lem : emission ≡ rebase (suc (length a.ops + length b.ops)) a.ops b.ops
  unfolding emission
  emission_lem = refl

  emission_lens : (src_len emission ≡ a.new_len) × IsInt (dst_len emission)
  emission_lens =
      let r = emission-IsRebased in
      (r.reads ∙ va.writes, omega (arith, r.writes, va.writes, vb.writes, short))

  pub follow-result : follow a b ≡ done result
  unfolding emission follow
  follow-result =
      loop-emitted follow_add_op follow_step follow_step-Progresses
        (suc (length a.ops + length b.ops)) (start a.ops) (start b.ops) _
        (start-IsFresh a.ops va.positive) (start-IsFresh b.ops vb.positive) (omega arith)
      ∙ (rw (view_start a.ops, view_start b.ops)
          (ap done (collected _ _ (omega (arith, emission_lens)))))

  pub result-IsValid : IsValid result
  result-IsValid =
      let (es, ed) = emission_lens in
      let (ns, nd) = nil_lens in
      let p : Pushed [] emission = pushed [] emission (omega (arith, es, ns, va.short)) in
      record {
        positive =
            pushed-All [] emission tt emission-IsRebased.positive (omega (arith, es, ns, va.short))
              (omega (arith, ed, nd));
        reads = omega (arith, p.src, es, ns);
        writes = omega (arith, p.dst, nd);
        short = omega (arith, va.short, ed);
      }

  result-le : result.new_len ≤ a.new_len + b.new_len
  result-le = let r = emission-IsRebased in omega (arith, r.writes, va.writes, vb.writes)

  pub result-IsSeparate : IsSeparate result.ops
  result-IsSeparate = pushed-IsSeparate [] emission tt

  -- Editing by the result is editing by what the loop emitted.
  pub edit-result : (t : Text) → edit result.ops t ≡ edit emission t
  edit-result t =
      let (es, ed) = emission_lens in
      let (ns, nd) = nil_lens in
      let p : Pushed [] emission = pushed [] emission (omega (arith, es, ns, va.short)) in p.same t

-- `Follow` of two well-formed changesets of the same text, with new lengths whose sum an int
-- holds, ends, and its result is a well-formed
-- changeset of the text that A makes, with no two inserts side by side, which writes no more than
-- A and B together.
pub follow-IsValid :
    (a b : Changeset)
    → IsValid a
    → IsValid b
    → a.old_len ≡ b.old_len
    → IsInt (a.new_len + b.new_len)
    → (c : Changeset) × (follow a b ≡ done c)
      × IsValid c
      × (c.old_len ≡ a.new_len)
      × IsSeparate c.ops
      × (c.new_len ≤ a.new_len + b.new_len)
follow-IsValid a b va vb same short = (
  result a b va vb same short,
  follow-result a b va vb same short,
  result-IsValid a b va vb same short,
  refl,
  result-IsSeparate a b va vb same short,
  result-le a b va vb same short,
)
