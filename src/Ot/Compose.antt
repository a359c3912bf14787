-- ===== src/Ot/Compose.antt =====
-- internal/ot/compose.go: merge two changesets into one.
pub mod Rounds
pub mod Correct
pub mod Law
use ds_collaborative_editor.Base.{
  ℕ, ◌+◌, suc, List, [], Option, none, some, length, take, if◌then◌else◌,
}
use ds_collaborative_editor.Base.Int.{lt_int}
use ds_collaborative_editor.Ot.Changeset.{Op, retain, insert, delete, Changeset, len_field}
use ds_collaborative_editor.Ot.Cursor.{
  op_size, start, add_op, Move, stop, crash, go, Run, done, panicked, running, loop,
}
use ds_collaborative_editor.Ot.Follow.{shorter}

-- `addOp(...)` in the `switch`, for B's operation no insert and A's no delete. The slice
-- `aOp.Chars[:n]` panics for a negative n; n is at most `len(aOp.Chars)`.
unfoldable pub compose_switch : Op → Op → ℕ → Move
compose_switch (retain i) (retain j) n = go (some (retain n)) n n
compose_switch (retain i) (delete j) n = go (some (delete n)) n n
compose_switch (insert s) (retain j) n =
    if lt_int n 0 then crash else go (some (insert (take n s))) n n
compose_switch a b n = go none n n

-- One round: the tests of the loop in their order.
unfoldable pub compose_step : Option Op → Option Op → Move
compose_step none none = stop
compose_step a (some (insert t)) = go (some (insert t)) 0 (length t)
compose_step (some (delete n)) b = go (some (delete n)) n 0
compose_step none _ = stop
compose_step _ none = stop
compose_step (some a) (some b) = compose_switch a b (shorter (op_size a) (len_field b))

unfoldable pub with_ops : Changeset → Changeset → Run (List Op) → Run Changeset
with_ops a b (done ops) = done (record { old_len = a.old_len; new_len = b.new_len; ops = ops })
with_ops a b panicked = panicked
with_ops a b running = running

-- `Compose(A, B)`; the error that it returns is always nil.
unfoldable pub compose : Changeset → Changeset → Run Changeset
unfolding with_ops compose_step compose_switch op_size len_field shorter
compose a b =
    with_ops a b
      (loop add_op compose_step (suc (length a.ops + length b.ops)) (start a.ops) (start b.ops) [])
