-- ===== src/Ot/Diff/Correct.antt =====
-- The changeset between two texts makes the one into the other.
use ds_collaborative_editor.Base.{
  suc, ◌+◌, List, [], ◌∷◌, ◌++◌, map, length, length-append, take, take_all, take-append,
  drop-append, append-nil, Option, some, ◌≡◌, refl, sym, ap, ◌∙◌, arith, All,
}
use ds_collaborative_editor.Base.Int.{IsInt}
use ds_collaborative_editor.Base.Outcome.{ok}
use ds_collaborative_editor.Base.Text.{Text}
use ds_collaborative_editor.Base.Runes.{runes, string_of, string_of_all, IsUtf8, length-string_of}
use ds_collaborative_editor.Ot.Changeset.{Changeset}
use ds_collaborative_editor.Ot.Cursor.{add_op}
use ds_collaborative_editor.Ot.Ops.{IsPositive, src_len, dst_len, edit}
use ds_collaborative_editor.Ot.Loop.{push_all}
use ds_collaborative_editor.Ot.Merge.{Pushed, pushed, pushed-All}
use ds_collaborative_editor.Ot.Valid.{IsValid}
use ds_collaborative_editor.Ot.Apply.{apply_changeset}
use ds_collaborative_editor.Ot.Apply.Correct.{apply-edit}
use ds_collaborative_editor.Ot.Diff.{
  Seg, keep, add, drop_rune, op_of, table, combined, diff_to_changeset,
}
use ds_collaborative_editor.Ot.Diff.Walk.{olds, news, table-IsTable, walk-IsWalked}

-- The operations of the segments, before they are joined.
src_len-segs : (segs : List Seg) → src_len (map op_of segs) ≡ length (string_of_all (olds segs))
unfolding src_len op_of string_of_all
src_len-segs [] = refl
src_len-segs (keep r ∷ segs) =
    omega (arith, src_len-segs segs, length-append (string_of r) (string_of_all (olds segs)))
src_len-segs (add r ∷ segs) = src_len-segs segs
src_len-segs (drop_rune r ∷ segs) =
    omega (arith, src_len-segs segs, length-append (string_of r) (string_of_all (olds segs)))

dst_len-segs : (segs : List Seg) → dst_len (map op_of segs) ≡ length (string_of_all (news segs))
unfolding dst_len op_of string_of_all
dst_len-segs [] = refl
dst_len-segs (keep r ∷ segs) =
    omega (arith, dst_len-segs segs, length-append (string_of r) (string_of_all (news segs)))
dst_len-segs (add r ∷ segs) =
    omega (arith, dst_len-segs segs, length-append (string_of r) (string_of_all (news segs)))
dst_len-segs (drop_rune r ∷ segs) = dst_len-segs segs

edit-segs :
    (segs : List Seg)
    → edit (map op_of segs) (string_of_all (olds segs)) ≡ string_of_all (news segs)
unfolding edit op_of string_of_all
edit-segs [] = refl
edit-segs (keep r ∷ segs) =
    rw
      (
        take-append (string_of r) (string_of_all (olds segs)),
        drop-append (string_of r) (string_of_all (olds segs)),
      )
      (ap (λ t. string_of r ++ t) (edit-segs segs))
edit-segs (add r ∷ segs) = ap (λ t. string_of r ++ t) (edit-segs segs)
edit-segs (drop_rune r ∷ segs) =
    rw (drop-append (string_of r) (string_of_all (olds segs))) (edit-segs segs)

segs-All : (segs : List Seg) → All IsPositive (map op_of segs)
unfolding op_of
segs-All [] = tt
segs-All (keep r ∷ segs) = let (a, b) = length-string_of r in ((a, omega arith), segs-All segs)
segs-All (add r ∷ segs) = let (a, b) = length-string_of r in ((a, omega arith), segs-All segs)
segs-All (drop_rune r ∷ segs) = let (a, b) = length-string_of r in ((a, omega arith), segs-All segs)

-- A changeset that is well formed, and that makes the one text into the other.
pub record IsDiff (old_text new_text : Text) (result : Option Changeset) : Type 0 where
  pub changeset : Changeset
  pub ends : result ≡ some changeset
  pub valid : IsValid changeset
  pub applies : apply_changeset old_text changeset ≡ ok new_text

combined-IsDiff :
    (old_text new_text : Text) (segs : List Seg)
    → IsInt (length old_text)
    → IsInt (length new_text)
    → string_of_all (olds segs) ≡ old_text
    → string_of_all (news segs) ≡ new_text
    → IsDiff old_text new_text (combined old_text new_text (some segs))
unfolding combined
combined-IsDiff old_text new_text segs h k e f =
    let s : src_len (map op_of segs) ≡ length old_text = src_len-segs segs ∙ ap length e in
    let d : dst_len (map op_of segs) ≡ length new_text = dst_len-segs segs ∙ ap length f in
    let z : src_len [] ≡ 0 = unfold src_len in refl in
    let y : dst_len [] ≡ 0 = unfold dst_len in refl in
    let p : Pushed [] (map op_of segs) = pushed [] (map op_of segs) (omega (arith, z, s)) in
    let v : IsValid (record {
      old_len = length old_text;
      new_len = length new_text;
      ops = push_all add_op [] (map op_of segs);
    }) =
      record {
        positive =
            pushed-All [] (map op_of segs) tt (segs-All segs) (omega (arith, z, s))
              (omega (arith, y, d));
        reads = omega (arith, p.src, z, s);
        writes = omega (arith, p.dst, y, d);
        short = (h, k);
      } in
    record {
      changeset = _;
      ends = refl;
      valid = v;
      applies =
          apply-edit old_text _ v refl
          ∙ ap ok (p.same old_text ∙ (ap (edit (map op_of segs)) (sym e) ∙ (edit-segs segs ∙ f)));
    }

-- Between two texts of valid UTF-8 whose lengths an `int` holds, the function returns a
-- changeset without a panic; it is well formed, and ApplyChangeset with it makes the first text into
-- the second.
pub diff_to_changeset-IsDiff :
    (old_text new_text : Text)
    → IsUtf8 old_text
    → IsUtf8 new_text
    → IsInt (length old_text)
    → IsInt (length new_text)
    → IsDiff old_text new_text (diff_to_changeset old_text new_text)
unfolding diff_to_changeset
diff_to_changeset-IsDiff old_text new_text u v h k =
    let old = runes old_text in
    let nw = runes new_text in
    let w =
      walk-IsWalked (table old nw) old nw (suc (length old + length nw)) (length old) (length nw) []
        (table-IsTable old nw) (omega arith) (omega arith) (omega arith) in
    rw (w.ends) (
      combined-IsDiff old_text new_text w.all h k
        (ap string_of_all (
            w.reads
            ∙ (append-nil (take (length old) old) ∙ take_all (length old) old (omega arith)))
          ∙ u)
        (ap string_of_all
            (w.writes ∙ (append-nil (take (length nw) nw) ∙ take_all (length nw) nw (omega arith)))
          ∙ v))
