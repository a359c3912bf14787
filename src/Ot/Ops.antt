-- ===== src/Ot/Ops.antt =====
-- Lists of operations as edits of a text, with no cursor: what the code's loops are measured by.
use ds_collaborative_editor.Base.{
  ℕ, ◌+◌, ◌-◌, ◌≤◌, ◌<◌, List, [], ◌∷◌, ◌++◌, ◌≡◌, refl, sym, ap, ◌∙◌, length, take, drop, All,
  ◌==◌, if◌then◌else◌, arith, append_assoc, take_all, take-append-drop, le-cases, inl, inr,
  take_split, drop_split, length-append, length-take, length-drop, Option, none, some,
}
use ds_collaborative_editor.Base.Int.{IsInt}
use ds_collaborative_editor.Base.Text.{Text}
use ds_collaborative_editor.Ot.Changeset.{Op, retain, insert, delete, unknown}
use ds_collaborative_editor.Ot.Cursor.{op_size}

-- An operation that `Validate` lets through: a positive length, and a known tag.
abbrev pub IsPositive : Op → Type 0
IsPositive (retain n) = (0 < n) × IsInt n
IsPositive (insert s) = (0 < length s) × IsInt (length s)
IsPositive (delete n) = (0 < n) × IsInt n
IsPositive (unknown t n) = ⊥

-- How many characters the operations read, and how many they write, with no bound.
unfoldable pub src_len : List Op → ℕ
src_len [] = 0
src_len (retain n ∷ ops) = n + src_len ops
src_len (insert s ∷ ops) = src_len ops
src_len (delete n ∷ ops) = n + src_len ops
src_len (unknown t n ∷ ops) = src_len ops

unfoldable pub dst_len : List Op → ℕ
dst_len [] = 0
dst_len (retain n ∷ ops) = n + dst_len ops
dst_len (insert s ∷ ops) = length s + dst_len ops
dst_len (delete n ∷ ops) = dst_len ops
dst_len (unknown t n ∷ ops) = dst_len ops

-- The text that the operations make of a text that they read to its end.
unfoldable pub edit : List Op → Text → Text
edit [] t = []
edit (retain n ∷ ops) t = take n t ++ edit ops (drop n t)
edit (insert s ∷ ops) t = s ++ edit ops t
edit (delete n ∷ ops) t = edit ops (drop n t)
edit (unknown u n ∷ ops) t = edit ops t

-- The operation without its first `n` characters, and a list whose head is shortened so.
abbrev pub skip : ℕ → Op → Op
skip n (retain k) = retain (k - n)
skip n (insert s) = insert (drop n s)
skip n (delete k) = delete (k - n)
skip n (unknown t k) = unknown t (k - n)

unfoldable pub advance : ℕ → List Op → List Op
unfolding op_size
advance n [] = []
advance n (op ∷ ops) = if op_size op == n then ops else if n == 0 then op ∷ ops else skip n op ∷ ops

pub length-edit :
    (ops : List Op) (t : Text) → src_len ops ≡ length t → length (edit ops t) ≡ dst_len ops
unfolding edit src_len dst_len
length-edit [] t h = refl
length-edit (retain n ∷ ops) t h = omega (
  arith,
  length-append (take n t) (edit ops (drop n t)),
  length-take n t,
  length-drop n t,
  length-edit ops (drop n t) (omega (arith, length-drop n t)),
)
length-edit (insert s ∷ ops) t h = omega (arith, length-append s (edit ops t), length-edit ops t h)
length-edit (delete n ∷ ops) t h = length-edit ops (drop n t) (omega (arith, length-drop n t))
length-edit (unknown u n ∷ ops) t h = length-edit ops t h

pub advance_zero : (op : Op) (ops : List Op) → IsPositive op → advance 0 (op ∷ ops) ≡ op ∷ ops
unfolding advance
advance_zero (retain n) ops h = ground arith
advance_zero (insert s) ops h = ground arith
advance_zero (delete n) ops h = ground arith
advance_zero (unknown t n) ops h = absurd h

pub advance_whole : (op : Op) (ops : List Op) → advance (op_size op) (op ∷ ops) ≡ ops
unfolding advance
advance_whole op ops = ground arith

pub advance_part :
    (n : ℕ) (op : Op) (ops : List Op)
    → 0 < n
    → n < op_size op
    → advance n (op ∷ ops) ≡ skip n op ∷ ops
unfolding advance
advance_part n op ops p h = ground arith

-- The first `k` characters that an operation covers, edited before the others.
pub edit-retain :
    (n k : ℕ) (ops : List Op) (t : Text)
    → 0 < k
    → k ≤ n
    → edit (retain n ∷ ops) t ≡ take k t ++ edit (advance k (retain n ∷ ops)) (drop k t)
edit-retain n k ops t p h = elim (le-cases k n h) [
  | inl e ↦ rw e (unfold edit op_size in rw (advance_whole (retain n) ops))
  | inr l ↦
      rw (advance_part k (retain n) ops p (unfold op_size in l))
        (unfold edit in rw (take_split k n t h, drop_split k n t h, append_assoc))
]

pub edit-delete :
    (n k : ℕ) (ops : List Op) (t : Text)
    → 0 < k
    → k ≤ n
    → edit (delete n ∷ ops) t ≡ edit (advance k (delete n ∷ ops)) (drop k t)
edit-delete n k ops t p h = elim (le-cases k n h) [
  | inl e ↦ rw e (unfold edit op_size in rw (advance_whole (delete n) ops))
  | inr l ↦
      rw (advance_part k (delete n) ops p (unfold op_size in l))
        (unfold edit in rw (drop_split k n t h))
]

pub edit-insert :
    (s : Text) (k : ℕ) (ops : List Op) (t : Text)
    → 0 < k
    → k ≤ length s
    → edit (insert s ∷ ops) t ≡ take k s ++ edit (advance k (insert s ∷ ops)) t
edit-insert s k ops t p h = elim (le-cases k (length s) h) [
  | inl e ↦ rw e (
      unfold edit op_size in rw (advance_whole (insert s) ops, take_all (length s) s (omega arith)))
  | inr l ↦ rw (advance_part k (insert s) ops p (unfold op_size in l)) (
      unfold edit in
      (ap (λ r. r ++ edit ops t) (sym (take-append-drop k s))
        ∙ append_assoc (take k s) (drop k s) (edit ops t)))
]

abbrev pub first : List Op → Option Op
first [] = none
first (op ∷ ops) = some op

abbrev pub IsInsert : Op → Type 0
IsInsert (insert s) = Unit
IsInsert _ = ⊥

abbrev pub NoInsert : Option Op → Type 0
NoInsert none = Unit
NoInsert (some a) = ¬ IsInsert a

-- No two inserts stand side by side.
abbrev pub IsSeparate : List Op → Type 0
IsSeparate [] = Unit
IsSeparate (insert s ∷ ops) = NoInsert (first ops) × IsSeparate ops
IsSeparate (retain n ∷ ops) = IsSeparate ops
IsSeparate (delete n ∷ ops) = IsSeparate ops
IsSeparate (unknown t n ∷ ops) = IsSeparate ops

-- How many of the first `k` characters of an operation are read, and how many are written.
abbrev pub read_of : Op → ℕ → ℕ
read_of (retain n) k = k
read_of (insert s) k = 0
read_of (delete n) k = k
read_of (unknown t n) k = 0

abbrev pub written_of : Op → ℕ → ℕ
written_of (retain n) k = k
written_of (insert s) k = k
written_of (delete n) k = 0
written_of (unknown t n) k = 0

whole_lens :
    (op : Op) (ops : List Op)
    → (src_len ops + read_of op (op_size op) ≡ src_len (op ∷ ops))
      × (dst_len ops + written_of op (op_size op) ≡ dst_len (op ∷ ops))
unfolding src_len dst_len op_size
whole_lens (retain n) ops = omega arith
whole_lens (insert s) ops = omega arith
whole_lens (delete n) ops = omega arith
whole_lens (unknown t n) ops = omega arith

part_lens :
    (k : ℕ) (op : Op) (ops : List Op)
    → k < op_size op
    → (src_len (skip k op ∷ ops) + read_of op k ≡ src_len (op ∷ ops))
      × (dst_len (skip k op ∷ ops) + written_of op k ≡ dst_len (op ∷ ops))
unfolding src_len dst_len op_size
part_lens k (retain n) ops l = omega arith
part_lens k (insert s) ops l = omega (arith, length-drop k s)
part_lens k (delete n) ops l = omega arith
part_lens k (unknown t n) ops l = omega arith

-- What `advance` leaves to read and to write.
pub lens-advance :
    (k : ℕ) (op : Op) (ops : List Op)
    → 0 < k
    → k ≤ op_size op
    → (src_len (advance k (op ∷ ops)) + read_of op k ≡ src_len (op ∷ ops))
      × (dst_len (advance k (op ∷ ops)) + written_of op k ≡ dst_len (op ∷ ops))
lens-advance k op ops p l = elim (le-cases k (op_size op) l) [
  | inl e ↦ rw (e, advance_whole op ops) (whole_lens op ops)
  | inr m ↦ rw (advance_part k op ops p m) (part_lens k op ops m)
]

pub advance_insert : (s : Text) (ops : List Op) → advance (length s) (insert s ∷ ops) ≡ ops
unfolding op_size
advance_insert s ops = advance_whole (insert s) ops

pub advance_zero-All : (ops : List Op) → All IsPositive ops → advance 0 ops ≡ ops
advance_zero-All [] h = unfold advance in refl
advance_zero-All (op ∷ ops) h = advance_zero op ops h.0
