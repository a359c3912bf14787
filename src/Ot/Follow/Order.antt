-- ===== src/Ot/Follow/Order.antt =====
-- The order of two concurrent changesets does not matter, and where it does.
use ds_collaborative_editor.Base.{
  ℕ, suc, ◌+◌, ◌<◌, [], ◌∷◌, ◌≡◌, refl, sym, ap, ◌∙◌, length, arith, true,
}
use ds_collaborative_editor.Base.Int.{IsInt, add64, sub64, lt_int, le_int}
use ds_collaborative_editor.Base.Outcome.{ok}
use ds_collaborative_editor.Base.Text.{Text, le_text, le_text_refl}
use ds_collaborative_editor.Ot.Changeset.{retain, insert, Changeset}
use ds_collaborative_editor.Ot.Cursor.{done, loop, peek, consume, add_op}
use ds_collaborative_editor.Ot.Follow.{follow, follow_step}
use ds_collaborative_editor.Ot.Ops.{IsSeparate, edit, length-edit, src_len, dst_len}
use ds_collaborative_editor.Ot.Valid.{IsValid}
use ds_collaborative_editor.Ot.Apply.{apply_changeset}
use ds_collaborative_editor.Ot.Apply.Correct.{apply-edit}
use ds_collaborative_editor.Ot.Follow.Converge.{meets}
use ds_collaborative_editor.Ot.Follow.Correct.{
  result, follow-result, result-IsValid, edit-result, emission_lem,
}

-- Two ways from one document to another: A and then `ab`, or B and then `ba`.
pub record Square (doc : Text) (a b ab ba : Changeset) : Type 0 where
  pub doc_a : Text
  pub doc_b : Text
  pub final : Text
  pub along_a : apply_changeset doc a ≡ ok doc_a
  pub along_b : apply_changeset doc b ≡ ok doc_b
  pub then_ab : apply_changeset doc_a ab ≡ ok final
  pub then_ba : apply_changeset doc_b ba ≡ ok final

module _ (doc : Text) (a b : Changeset) (va : IsValid a) (vb : IsValid b) (sa : IsSeparate a.ops)
    (sb : IsSeparate b.ops) (la : a.old_len ≡ length doc) (lb : b.old_len ≡ length doc)
    (short : IsInt (a.new_len + b.new_len)) where
  ab : Changeset
  ab = result a b va vb (la ∙ sym lb) short

  ba : Changeset
  ba = result b a vb va (lb ∙ sym la) (omega arith)

  sides_meet : edit ab.ops (edit a.ops doc) ≡ edit ba.ops (edit b.ops doc)
  unfolding ab ba
  sides_meet =
      edit-result a b va vb (la ∙ sym lb) short (edit a.ops doc)
      ∙ (rw (emission_lem a b, emission_lem b a)
            (meets (suc (length a.ops + length b.ops)) _ _ a.ops b.ops doc
              (va.positive, sa, va.reads ∙ la) (vb.positive, sb, vb.reads ∙ lb) (omega arith)
              (omega arith) (omega arith))
          ∙ sym (edit-result b a vb va (lb ∙ sym la) (omega arith) (edit b.ops doc)))

  length_after :
      (c : Changeset) → IsValid c → c.old_len ≡ length doc → c.new_len ≡ length (edit c.ops doc)
  length_after c v l = omega (arith, length-edit c.ops doc (v.reads ∙ l), v.writes)

  square : Square doc a b ab ba
  unfolding ab ba
  square = record {
    doc_a = edit a.ops doc;
    doc_b = edit b.ops doc;
    final = edit ab.ops (edit a.ops doc);
    along_a = apply-edit doc a va la;
    along_b = apply-edit doc b vb lb;
    then_ab = apply-edit _ ab (result-IsValid a b va vb (la ∙ sym lb) short) (length_after a va la);
    then_ba =
        apply-edit _ ba (result-IsValid b a vb va (lb ∙ sym la) (omega arith))
          (length_after b vb lb)
        ∙ ap ok (sym sides_meet);
  }

-- The order of two concurrent changesets does not matter: for well-formed changesets A and B of a
-- document, neither with two inserts side by side, and with new lengths whose sum an int holds,
-- both calls of `Follow` end, and applying A and
-- then `Follow(A, B)` succeeds with the text that applying B and then `Follow(B, A)` gives.
pub follow-converges :
    (doc : Text) (a b : Changeset)
    → IsValid a
    → IsValid b
    → IsSeparate a.ops
    → IsSeparate b.ops
    → a.old_len ≡ length doc
    → b.old_len ≡ length doc
    → IsInt (a.new_len + b.new_len)
    → (ab : Changeset) × (ba : Changeset) × (follow a b ≡ done ab)
      × (follow b a ≡ done ba)
      × Square doc a b ab ba
unfolding ab ba
follow-converges doc a b va vb sa sb la lb short = (
  ab doc a b va vb sa sb la lb short,
  ba doc a b va vb sa sb la lb short,
  follow-result a b va vb (la ∙ sym lb) short,
  follow-result b a vb va (lb ∙ sym la) (omega arith),
  square doc a b va vb sa sb la lb short,
)

abbrev pub two_inserts : ℕ → ℕ → Changeset
two_inserts x w = record { old_len = 0; new_len = 2; ops = insert (x ∷ []) ∷ insert (w ∷ []) ∷ [] }

abbrev pub one_insert : ℕ → Changeset
one_insert x = record { old_len = 0; new_len = 1; ops = insert (x ∷ []) ∷ [] }

lesser : (x w : ℕ) → w < x → le_text (w ∷ []) (x ∷ []) ≡ true
unfolding le_text
lesser x w h = ground arith

two_then_one :
    (x w : ℕ)
    → w < x
    → follow (two_inserts x w) (one_insert x)
      ≡ done (record { old_len = 2; new_len = 3; ops = retain 2 ∷ insert (x ∷ []) ∷ [] })
unfolding follow loop peek consume follow_step add_op add64 sub64 lt_int le_int
two_then_one x w h = rw (le_text_refl (x ∷ []), loop, lesser x w h, loop)

one_then_two :
    (x w : ℕ)
    → w < x
    → follow (one_insert x) (two_inserts x w)
      ≡ done (record { old_len = 1; new_len = 3; ops = retain 1 ∷ insert (x ∷ w ∷ []) ∷ [] })
unfolding follow loop peek consume follow_step add_op add64 sub64 lt_int le_int
one_then_two x w h = rw (le_text_refl (x ∷ []), loop)

-- Two inserts side by side, which `Validate` lets through, can make two replicas differ: for every
-- two bytes w < x, the changesets that insert "x", "w" and that insert "x" into an empty document
-- are well-formed, `Follow` ends both ways, and the two ways end in the different texts
-- "xwx" and "xxw".
pub adjacent_inserts_diverge :
    (x w : ℕ)
    → w < x
    → IsValid (two_inserts x w)
      × IsValid (one_insert x)
      × (ab : Changeset) × (ba : Changeset) × (follow (two_inserts x w) (one_insert x) ≡ done ab)
      × (follow (one_insert x) (two_inserts x w) ≡ done ba)
      × (apply_changeset (x ∷ w ∷ []) ab ≡ ok (x ∷ w ∷ x ∷ []))
      × (apply_changeset (x ∷ []) ba ≡ ok (x ∷ x ∷ w ∷ []))
adjacent_inserts_diverge x w h = (
  unfold src_len dst_len in
      record { positive = omega arith; reads = refl; writes = refl; short = omega arith },
  unfold src_len dst_len in
      record { positive = omega arith; reads = refl; writes = refl; short = omega arith },
  record { old_len = 2; new_len = 3; ops = retain 2 ∷ insert (x ∷ []) ∷ [] },
  record { old_len = 1; new_len = 3; ops = retain 1 ∷ insert (x ∷ w ∷ []) ∷ [] },
  two_then_one x w h,
  one_then_two x w h,
  unfold apply_changeset lt_int add64 sub64 in refl,
  unfold apply_changeset lt_int add64 sub64 in refl,
)
