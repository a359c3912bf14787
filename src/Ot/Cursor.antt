-- ===== src/Ot/Cursor.antt =====
-- What `Compose` (internal/ot/compose.go) and `Follow` (internal/ot/follow.go) share: the cursor
-- `opSlice` with `peek` and `consume`, `addOp`, and the `for` loop round them.
use ds_collaborative_editor.Base.{
  ℕ, zero, suc, List, [], ◌∷◌, ◌++◌, Option, none, some, length, drop, if◌then◌else◌,
}
use ds_collaborative_editor.Base.Int.{add64, sub64, lt_int, le_int}
use ds_collaborative_editor.Ot.Changeset.{Op, retain, insert, delete, unknown}

-- `rest` is `ops[pos:]`: the operations from the current one on.
pub record OpSlice : Type 0 where
  pub rest : List Op
  pub off : ℕ

abbrev pub start : List Op → OpSlice
start ops = record { rest = ops; off = 0 }

-- `len(op.Chars)` for an insert, else `op.Len`.
unfoldable pub op_size : Op → ℕ
op_size (retain n) = n
op_size (insert s) = length s
op_size (delete n) = n
op_size (unknown t n) = n

-- The current operation without its first `off` characters.
unfoldable pub peek_op : ℕ → Op → Op
peek_op off (retain n) = retain (sub64 n off)
peek_op off (insert s) = insert (drop off s)
peek_op off (delete n) = delete (sub64 n off)
peek_op off (unknown t n) = unknown t (sub64 n off)

unfoldable pub peek_rest : List Op → ℕ → Option Op
peek_rest [] off = none
peek_rest (op ∷ rest) off = some (peek_op off op)

unfoldable pub peek : OpSlice → Option Op
unfolding peek_rest peek_op
peek s = peek_rest s.rest s.off

-- The loop of `consume`: a round ends the current operation, or ends the loop inside it.
unfoldable pub consume_rest : ℕ → ℕ → List Op → OpSlice
unfolding op_size
consume_rest n off [] = record { rest = []; off = off }
consume_rest n off (op ∷ rest) =
    let rem = sub64 (op_size op) off in
    if lt_int 0 n
    then (if le_int rem n
        then consume_rest (sub64 n rem) 0 rest
        else record { rest = op ∷ rest; off = add64 off n })
    else record { rest = op ∷ rest; off = off }

unfoldable pub consume : OpSlice → ℕ → OpSlice
unfolding consume_rest
consume s n = consume_rest n s.off s.rest

-- `addOp`: join with the last operation, if both are retains, deletes or inserts, else append.
unfoldable pub join_ops : Op → Op → List Op
join_ops (retain n) (retain m) = retain (add64 n m) ∷ []
join_ops (delete n) (delete m) = delete (add64 n m) ∷ []
join_ops (insert s) (insert t) = insert (s ++ t) ∷ []
join_ops last op = last ∷ op ∷ []

unfoldable pub add_op : List Op → Op → List Op
unfolding join_ops
add_op [] op = op ∷ []
add_op (last ∷ []) op = join_ops last op
add_op (o ∷ o' ∷ ops) op = o ∷ add_op (o' ∷ ops) op

-- What one round of a loop does after the two peeks: break, panic, or hand an operation to `addOp`
-- and consume from the two cursors.
pub data Move : Type 0 where
  stop crash : Move
  go : Option Op → ℕ → ℕ → Move

-- How a loop ends; `running` means that the fuel is used up.
pub data Run {ℓ} (A : Type ℓ) : Type ℓ where
  done : A → Run A
  panicked running : Run A

module _ {ℓ} {R : Type ℓ} (push : R → Op → R) where
  unfoldable pub emit : R → Option Op → R
  emit r none = r
  emit r (some op) = push r op

  unfoldable pub loop : (Option Op → Option Op → Move) → ℕ → OpSlice → OpSlice → R → Run R
  unfolding emit
  loop step zero a b r = running
  loop step (suc fuel) a b r = elim (step (peek a) (peek b)) [
    | stop ↦ done r
    | crash ↦ panicked
    | go op n m ↦ loop step fuel (consume a n) (consume b m) (emit r op)
  ]
