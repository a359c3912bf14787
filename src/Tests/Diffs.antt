-- ===== src/Tests/Diffs.antt =====
-- internal/ot/diff.go on small texts.
use ds_collaborative_editor.Base.{[], ◌∷◌, some, ◌≡◌, refl, arith}
use ds_collaborative_editor.Base.Int.{add64}
use ds_collaborative_editor.Base.Text.{Text, codes}
use ds_collaborative_editor.Base.Runes.{runes, string_of, string_of_all, IsUtf8, decode_rune}
use ds_collaborative_editor.Ot.Changeset.{retain, insert, delete}
use ds_collaborative_editor.Ot.Cursor.{add_op, join_ops}
use ds_collaborative_editor.Ot.Loop.{push_all}
use ds_collaborative_editor.Ot.Diff.{
  cell, row_from, next_row, rows_from, table, at, prefers_insert, step_insert, step_delete,
  step_table, step_both, step_back, walk, op_of, combined, diff_to_changeset,
}
use ds_collaborative_editor.Ot.Diff.Correct.{IsDiff, diff_to_changeset-IsDiff}

-- "aéb", where the second rune has two bytes, and "axb".
abbrev accented : Text
accented = 97 ∷ 0xC3 ∷ 0xA9 ∷ 98 ∷ []

abbrev plain : Text
plain = codes "axb"

accented-IsUtf8 : IsUtf8 accented
unfolding runes decode_rune string_of string_of_all
accented-IsUtf8 = refl

plain-IsUtf8 : IsUtf8 plain
unfolding runes decode_rune string_of string_of_all
plain-IsUtf8 = refl

accented_to_plain :
    diff_to_changeset accented plain
    ≡ some (record {
      old_len = 4;
      new_len = 3;
      ops = retain 1 ∷ delete 2 ∷ insert (codes "x") ∷ retain 1 ∷ [];
    })
unfolding runes decode_rune string_of cell row_from next_row rows_from table at prefers_insert
    step_insert step_delete step_table step_both step_back walk op_of combined diff_to_changeset
    add_op join_ops push_all add64
accented_to_plain = refl

-- A byte that is no UTF-8 is taken for a rune of three bytes: the operations read three bytes of a text of one.
broken :
    diff_to_changeset (0xFF ∷ []) []
    ≡ some (record { old_len = 1; new_len = 0; ops = delete 3 ∷ [] })
unfolding runes decode_rune string_of cell row_from next_row rows_from table at prefers_insert
    step_insert step_delete step_table step_both step_back walk op_of combined diff_to_changeset
    add_op join_ops push_all add64
broken = refl

diff_to_changeset-IsDiff_example : IsDiff accented plain (diff_to_changeset accented plain)
diff_to_changeset-IsDiff_example =
    diff_to_changeset-IsDiff accented plain accented-IsUtf8 plain-IsUtf8 (omega arith) (omega arith)
