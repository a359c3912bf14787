-- ===== src/Ot/Changeset.antt =====
-- internal/ot/changeset.go: operations, changesets, their constructors and `Validate`.
use ds_collaborative_editor.Base.{
  ℕ, List, [], ◌∷◌, ◌++◌, Bool, true, false, ◌&&◌, Option, none, some, length, ◌==◌, if◌then◌else◌,
}
use ds_collaborative_editor.Base.Int.{add64, sub64, lt_int, le_int}
use ds_collaborative_editor.Base.Text.{Text}

-- `Op` with its tag `OpType`: `Len` counts for retain and delete, `Chars` for insert. JSON may
-- bring any other tag, with a `Len`.
pub data Op : Type 0 where
  retain : ℕ → Op
  insert : Text → Op
  delete : ℕ → Op
  unknown : Text → ℕ → Op

pub record Changeset : Type 0 where
  pub old_len : ℕ
  pub new_len : ℕ
  pub ops : List Op

-- The field `Len`, absent (so 0) in an insert.
unfoldable pub len_field : Op → ℕ
len_field (retain n) = n
len_field (insert s) = 0
len_field (delete n) = n
len_field (unknown t n) = n

unfoldable pub identity : ℕ → Changeset
identity n =
    if n == 0
    then record { old_len = 0; new_len = 0; ops = [] }
    else record { old_len = n; new_len = n; ops = retain n ∷ [] }

is_single_retain : List Op → ℕ → Bool
is_single_retain (retain k ∷ []) n = k == n
is_single_retain _ n = false

is_empty : List Op → Bool
is_empty [] = true
is_empty (op ∷ ops) = false

unfoldable pub is_identity : Changeset → Bool
unfolding is_single_retain is_empty
is_identity c =
    if c.old_len == c.new_len
    then (if c.old_len == 0 && is_empty c.ops then true else is_single_retain c.ops c.old_len)
    else false

unfoldable pub text_to_changeset : Text → Changeset
text_to_changeset text =
    if length text == 0
    then record { old_len = 0; new_len = 0; ops = [] }
    else record { old_len = 0; new_len = length text; ops = insert text ∷ [] }

-- `if n > 0 { ops = append(ops, Op{Type: OpRetain, Len: n}) }`.
unfoldable pub retain_if : ℕ → List Op
retain_if n = if lt_int 0 n then retain n ∷ [] else []

unfoldable pub make_insert : ℕ → ℕ → Text → Changeset
make_insert old_len pos text = record {
  old_len = old_len;
  new_len = add64 old_len (length text);
  ops = retain_if pos ++ (insert text ∷ retain_if (sub64 old_len pos));
}

unfoldable pub make_delete : ℕ → ℕ → ℕ → Changeset
make_delete old_len pos count = record {
  old_len = old_len;
  new_len = sub64 old_len count;
  ops = retain_if pos ++ (delete count ∷ retain_if (sub64 (sub64 old_len pos) count));
}

-- The errors of `Validate`, with the values that they print.
pub data Invalid : Type 0 where
  retain_not_positive : ℕ → Invalid
  insert_empty : Invalid
  delete_not_positive : ℕ → Invalid
  unknown_op : Text → Invalid
  consumes : ℕ → ℕ → Invalid
  produces : ℕ → ℕ → Invalid

-- The two checks behind the loop, on `sourceConsumed` and `newLen`.
unfoldable pub check_totals : Changeset → ℕ → ℕ → Option Invalid
check_totals c consumed new_len =
    if consumed == c.old_len
    then (if new_len == c.new_len then none else some (produces new_len c.new_len))
    else some (consumes consumed c.old_len)

unfoldable pub validate_loop : Changeset → List Op → ℕ → ℕ → Option Invalid
validate_loop c [] consumed new_len = check_totals c consumed new_len
validate_loop c (retain n ∷ ops) consumed new_len =
    if le_int n 0
    then some (retain_not_positive n)
    else validate_loop c ops (add64 consumed n) (add64 new_len n)
validate_loop c (insert s ∷ ops) consumed new_len =
    if length s == 0
    then some insert_empty
    else validate_loop c ops consumed (add64 new_len (length s))
validate_loop c (delete n ∷ ops) consumed new_len =
    if le_int n 0
    then some (delete_not_positive n)
    else validate_loop c ops (add64 consumed n) new_len
validate_loop c (unknown t n ∷ ops) consumed new_len = some (unknown_op t)

-- `Validate`; `none` is a nil error.
unfoldable pub validate : Changeset → Option Invalid
unfolding check_totals validate_loop
validate c = validate_loop c c.ops 0 0
