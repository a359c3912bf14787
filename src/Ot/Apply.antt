-- ===== src/Ot/Apply.antt =====
-- internal/ot/apply.go: update a text by a changeset.
pub mod Correct
pub mod Overflow
use ds_collaborative_editor.Base.{
  ℕ, List, [], ◌∷◌, ◌++◌, Bool, ◌||◌, length, take, drop, ◌==◌, if◌then◌else◌,
}
use ds_collaborative_editor.Base.Int.{add64, sub64, lt_int}
use ds_collaborative_editor.Base.Outcome.{Outcome, ok, err, panic}
use ds_collaborative_editor.Base.Text.{Text}
use ds_collaborative_editor.Ot.Changeset.{Op, retain, insert, delete, unknown, Changeset}

-- The errors, with the values that they print.
pub data ApplyError : Type 0 where
  old_len_mismatch : ℕ → ℕ → ApplyError
  retain_exceeds : ℕ → ℕ → ℕ → ApplyError
  delete_exceeds : ℕ → ℕ → ℕ → ApplyError
  unknown_op : Text → ApplyError
  not_consumed : ℕ → ℕ → ApplyError

-- `text[lo:hi]`, which panics unless 0 <= lo <= hi <= len(text).
unfoldable pub slice_panics : Text → ℕ → ℕ → Bool
slice_panics text lo hi = lt_int lo 0 || (lt_int hi lo || lt_int (length text) hi)

-- The loop over the operations, with `srcPos` and the text written so far.
unfoldable pub apply_loop : Text → List Op → ℕ → Text → Outcome ApplyError Text
apply_loop text [] src_pos out =
    if src_pos == length text then ok out else err (not_consumed src_pos (length text))
apply_loop text (retain n ∷ ops) src_pos out =
    let hi = add64 src_pos n in
    let rest = apply_loop text ops hi (out ++ take (sub64 hi src_pos) (drop src_pos text)) in
    if lt_int (length text) hi
    then err (retain_exceeds n src_pos (length text))
    else if slice_panics text src_pos hi
    then panic
    else rest
apply_loop text (insert s ∷ ops) src_pos out = apply_loop text ops src_pos (out ++ s)
apply_loop text (delete n ∷ ops) src_pos out =
    let hi = add64 src_pos n in
    let rest = apply_loop text ops hi out in
    if lt_int (length text) hi then err (delete_exceeds n src_pos (length text)) else rest
apply_loop text (unknown t n ∷ ops) src_pos out = err (unknown_op t)

-- `ApplyChangeset`; `result.Grow(n)` panics for a negative n.
unfoldable pub apply_changeset : Text → Changeset → Outcome ApplyError Text
unfolding apply_loop slice_panics
apply_changeset text c =
    if c.old_len == length text
    then (if lt_int c.new_len 0 then panic else apply_loop text c.ops 0 [])
    else err (old_len_mismatch c.old_len (length text))
