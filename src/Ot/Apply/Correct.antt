-- ===== src/Ot/Apply/Correct.antt =====
-- `ApplyChangeset` on well-formed changesets.
use ds_collaborative_editor.Base.{
  ℕ, ◌+◌, ◌≤◌, List, [], ◌∷◌, ◌++◌, ◌≡◌, refl, ◌∙◌, length, take, drop, All, arith, append_assoc,
  append-nil, drop-add, false,
}
use ds_collaborative_editor.Base.Int.{IsInt, add64, add64_lem, sub64, sub64_lem, lt_int, lt_int_lem}
use ds_collaborative_editor.Base.Outcome.{ok}
use ds_collaborative_editor.Base.Text.{Text}
use ds_collaborative_editor.Ot.Changeset.{Op, retain, insert, delete, unknown, Changeset}
use ds_collaborative_editor.Ot.Ops.{IsPositive, src_len, edit}
use ds_collaborative_editor.Ot.Valid.{IsValid}
use ds_collaborative_editor.Ot.Apply.{slice_panics, apply_loop, apply_changeset}

not_beyond :
    (text : Text) (hi : ℕ)
    → IsInt (length text)
    → hi ≤ length text
    → lt_int (length text) hi ≡ false
not_beyond text hi h l = lt_int_lem (length text) hi h (omega arith) ∙ (ground arith)

slice_ok :
    (text : Text) (lo hi : ℕ)
    → IsInt (length text)
    → hi ≤ length text
    → lo ≤ hi
    → slice_panics text lo hi ≡ false
unfolding slice_panics
slice_ok text lo hi h l m =
    ground (arith, lt_int_lem lo 0, lt_int_lem hi lo, lt_int_lem (length text) hi)

retain_round :
    (text : Text) (n : ℕ) (ops : List Op) (pos : ℕ) (out : Text)
    → IsInt (length text)
    → pos + n ≤ length text
    → apply_loop text (retain n ∷ ops) pos out
      ≡ apply_loop text ops (pos + n) (out ++ take n (drop pos text))
unfolding apply_loop
retain_round text n ops pos out h l =
    let hi : add64 pos n ≡ pos + n = add64_lem pos n (omega arith) in
    let len : sub64 (pos + n) pos ≡ n =
      sub64_lem (pos + n) pos (omega arith) (omega arith) ∙ (omega arith) in
    rw (hi, len, not_beyond text (pos + n) h l, slice_ok text pos (pos + n) h l (omega arith))

delete_round :
    (text : Text) (n : ℕ) (ops : List Op) (pos : ℕ) (out : Text)
    → IsInt (length text)
    → pos + n ≤ length text
    → apply_loop text (delete n ∷ ops) pos out ≡ apply_loop text ops (pos + n) out
unfolding apply_loop
delete_round text n ops pos out h l =
    let hi : add64 pos n ≡ pos + n = add64_lem pos n (omega arith) in
    rw (hi, not_beyond text (pos + n) h l)

insert_round :
    (text s : Text) (ops : List Op) (pos : ℕ) (out : Text)
    → apply_loop text (insert s ∷ ops) pos out ≡ apply_loop text ops pos (out ++ s)
unfolding apply_loop
insert_round text s ops pos out = refl

last_round :
    (text : Text) (pos : ℕ) (out : Text)
    → pos ≡ length text
    → apply_loop text [] pos out ≡ ok (out ++ edit [] (drop pos text))
unfolding apply_loop edit
last_round text pos out e = rw append-nil (ground arith)

loop-edit :
    (text : Text) (ops : List Op) (pos : ℕ) (out : Text)
    → IsInt (length text)
    → All IsPositive ops
    → pos + src_len ops ≡ length text
    → apply_loop text ops pos out ≡ ok (out ++ edit ops (drop pos text))
loop-edit text [] pos out h p e = last_round text pos out (unfold src_len in omega arith)
loop-edit text (retain n ∷ ops) pos out h p e =
    retain_round text n ops pos out h (unfold src_len in omega arith)
    ∙ (loop-edit text ops (pos + n) _ h p.1 (unfold src_len in omega arith)
        ∙ (unfold edit in rw (drop-add, append_assoc)))
loop-edit text (insert s ∷ ops) pos out h p e =
    insert_round text s ops pos out
    ∙ (loop-edit text ops pos _ h p.1 (unfold src_len in e) ∙ (unfold edit in rw append_assoc))
loop-edit text (delete n ∷ ops) pos out h p e =
    delete_round text n ops pos out h (unfold src_len in omega arith)
    ∙ (loop-edit text ops (pos + n) _ h p.1 (unfold src_len in omega arith)
        ∙ (unfold edit in rw drop-add))
loop-edit text (unknown t n ∷ ops) pos out h p e = absurd p.0

apply_checked :
    (text : Text) (c : Changeset)
    → c.old_len ≡ length text
    → IsInt c.new_len
    → apply_changeset text c ≡ apply_loop text c.ops 0 []
unfolding apply_changeset
apply_checked text c e h = ground (arith, lt_int_lem c.new_len 0)

-- A well-formed changeset applies to every text of its old length, and gives the edited text.
pub apply-edit :
    (text : Text) (c : Changeset)
    → IsValid c
    → c.old_len ≡ length text
    → apply_changeset text c ≡ ok (edit c.ops text)
apply-edit text c v e =
    apply_checked text c e v.short.1
    ∙ loop-edit text c.ops 0 [] (omega (arith, v.short)) v.positive (omega (arith, v.reads))
