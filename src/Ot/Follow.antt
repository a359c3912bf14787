-- ===== src/Ot/Follow.antt =====
-- internal/ot/follow.go: rebase B on top of A.
pub mod Rounds
pub mod Converge
pub mod Shape
pub mod Correct
pub mod Order
use ds_collaborative_editor.Base.{ℕ, ◌+◌, suc, [], Option, none, some, length, if◌then◌else◌}
use ds_collaborative_editor.Base.Int.{add64, lt_int}
use ds_collaborative_editor.Base.Text.{le_text}
use ds_collaborative_editor.Ot.Changeset.{Op, retain, insert, delete, Changeset, len_field}
use ds_collaborative_editor.Ot.Cursor.{start, add_op, Move, stop, go, Run, loop}

-- The operation that the `switch` adds for two operations that are no inserts.
unfoldable pub follow_emit : Op → Op → ℕ → Option Op
follow_emit (retain i) (retain j) n = some (retain n)
follow_emit (retain i) (delete j) n = some (delete n)
follow_emit a b n = none

-- `n := aOp.Len; if bOp.Len < n { n = bOp.Len }`.
unfoldable pub shorter : ℕ → ℕ → ℕ
shorter a b = if lt_int b a then b else a

-- The normal case, for two operations that are no inserts.
unfoldable pub follow_both : Op → Op → Move
unfolding follow_emit shorter len_field
follow_both a b = let n = shorter (len_field a) (len_field b) in go (follow_emit a b n) n n

-- One round: the tests of the loop in their order.
unfoldable pub follow_step : Option Op → Option Op → Move
unfolding follow_both
follow_step none none = stop
follow_step (some (insert s)) (some (insert t)) =
    if le_text s t
    then go (some (retain (length s))) (length s) 0
    else go (some (insert t)) 0 (length t)
follow_step (some (insert s)) _ = go (some (retain (length s))) (length s) 0
follow_step _ (some (insert t)) = go (some (insert t)) 0 (length t)
follow_step none _ = stop
follow_step _ none = stop
follow_step (some a) (some b) = follow_both a b

-- By how much `addOp` raises `result.NewLen`.
unfoldable pub new_chars : Op → ℕ
new_chars (retain n) = n
new_chars (insert s) = length s
new_chars _ = 0

unfoldable pub follow_add_op : Changeset → Op → Changeset
unfolding new_chars
follow_add_op c op = record c { new_len = add64 c.new_len (new_chars op); ops = add_op c.ops op }

-- `Follow(A, B)`; the error that it returns is always nil. Each round that makes progress ends an
-- operation of A or of B, so the fuel is one more than their number.
unfoldable pub follow : Changeset → Changeset → Run Changeset
unfolding follow_add_op
follow a b =
    loop follow_add_op follow_step (suc (length a.ops + length b.ops)) (start a.ops) (start b.ops)
      (record { old_len = a.new_len; new_len = 0; ops = [] })
