-- ===== src/Ot/Diff.antt =====
-- internal/ot/diff.go: the changeset between two texts.
pub mod Walk
pub mod Correct
use ds_collaborative_editor.Base.{
  ℕ, zero, suc, ◌+◌, ◌-◌, List, [], ◌∷◌, Bool, ◌&&◌, Option, none, some, map, length, get_elem?,
  ltb, leb, ◌==◌, if◌then◌else◌,
}
use ds_collaborative_editor.Base.Int.{add64}
use ds_collaborative_editor.Base.Text.{Text}
use ds_collaborative_editor.Base.Runes.{runes, string_of}
use ds_collaborative_editor.Ot.Changeset.{Op, retain, insert, delete, Changeset}
use ds_collaborative_editor.Ot.Cursor.{add_op}
use ds_collaborative_editor.Ot.Loop.{push_all}

-- An entry of the table, from those before it in both texts, in the old one, and in the new one.
unfoldable pub cell : ℕ → ℕ → ℕ → ℕ → ℕ → ℕ
cell o c diag up left = if o == c then add64 diag 1 else if ltb left up then up else left

-- The inner loop, over the row before from some column on.
unfoldable pub row_from : ℕ → List ℕ → ℕ → List ℕ → ℕ → List ℕ
unfolding cell
row_from o [] diag ups left = []
row_from o (c ∷ cs) diag [] left = []
row_from o (c ∷ cs) diag (up ∷ ups) left =
    let x = cell o c diag up left in x ∷ row_from o cs up ups x

unfoldable pub next_row : ℕ → List ℕ → List ℕ → List ℕ
unfolding row_from
next_row o nw [] = 0 ∷ []
next_row o nw (diag ∷ ups) = 0 ∷ row_from o nw diag ups 0

unfoldable pub rows_from : List ℕ → List ℕ → List ℕ → List (List ℕ)
unfolding next_row
rows_from [] nw row = row ∷ []
rows_from (o ∷ old) nw row = row ∷ rows_from old nw (next_row o nw row)

-- The table `dp`, whose first row and first column are 0.
unfoldable pub table : List ℕ → List ℕ → List (List ℕ)
unfolding rows_from
table old nw = rows_from old nw (0 ∷ map (λ c. 0) nw)

-- `seg`: a rune that is kept, inserted or deleted.
pub data Seg : Type 0 where
  keep add drop_rune : ℕ → Seg

-- `dp[i][j]`; `none` is the panic of an index out of range.
unfoldable pub at : List (List ℕ) → ℕ → ℕ → Option ℕ
at dp i j = elim (get_elem? dp i) [ none ↦ none | some row ↦ get_elem? row j ]

-- The comparison `dp[i][j-1] >= dp[i-1][j]`, for the two indexes less one.
unfoldable pub prefers_insert : List (List ℕ) → ℕ → ℕ → Option Bool
unfolding at
prefers_insert dp i j = elim (at dp (suc i) j) [
  | none ↦ none
  | some x ↦ elim (at dp i (suc j)) [ none ↦ none | some y ↦ some (leb y x) ]
]

-- A round of the walk back: the segment, and the two indexes after it.
abbrev pub Back : Type 0
Back = Seg × ℕ × ℕ

-- The case of an insert, for `i` and `j - 1`.
unfoldable pub step_insert : List ℕ → ℕ → ℕ → Option Back
step_insert nw i j = elim (get_elem? nw j) [ none ↦ none | some c ↦ some (add c, i, j) ]

-- The case of a delete, for `i - 1` and `j`.
unfoldable pub step_delete : List ℕ → ℕ → ℕ → Option Back
step_delete old i j = elim (get_elem? old i) [ none ↦ none | some o ↦ some (drop_rune o, i, j) ]

-- The last two cases of the switch, where both texts are left and their runes differ.
unfoldable pub step_table : List (List ℕ) → List ℕ → List ℕ → ℕ → ℕ → Option Back
unfolding prefers_insert step_insert step_delete
step_table dp old nw i j = elim (prefers_insert dp i j) [
  | none ↦ none
  | some b ↦ if b then step_insert nw (suc i) j else step_delete old i (suc j)
]

unfoldable pub step_both : List (List ℕ) → List ℕ → List ℕ → ℕ → ℕ → Option Back
unfolding step_table
step_both dp old nw i j = elim (get_elem? old i) [
  | none ↦ none
  | some o ↦ elim (get_elem? nw j) [
    | none ↦ none
    | some c ↦ if o == c then some (keep o, i, j) else step_table dp old nw i j
  ]
]

-- The switch, for two indexes that are not both 0.
unfoldable pub step_back : List (List ℕ) → List ℕ → List ℕ → ℕ → ℕ → Option Back
unfolding step_both step_insert step_delete
step_back dp old nw zero zero = none
step_back dp old nw zero (suc j) = step_insert nw zero j
step_back dp old nw (suc i) zero = step_delete old i zero
step_back dp old nw (suc i) (suc j) = step_both dp old nw i j

-- The walk back, with the segments so far. They are put in front, so that no reversal is
-- needed at the end. `none` is a panic, or the end of the fuel.
unfoldable pub walk : List (List ℕ) → List ℕ → List ℕ → ℕ → ℕ → ℕ → List Seg → Option (List Seg)
unfolding step_back
walk dp old nw zero i j segs = none
walk dp old nw (suc fuel) i j segs =
    if i == 0 && j == 0 then some segs else elim (step_back dp old nw i j) [
      | none ↦ none
      | some (s, i', j') ↦ walk dp old nw fuel i' j' (s ∷ segs)
    ]

unfoldable pub op_of : Seg → Op
op_of (keep r) = retain (length (string_of r))
op_of (add r) = insert (string_of r)
op_of (drop_rune r) = delete (length (string_of r))

unfoldable pub combined : Text → Text → Option (List Seg) → Option Changeset
unfolding op_of
combined old_text new_text none = none
combined old_text new_text (some segs) = some (record {
  old_len = length old_text;
  new_len = length new_text;
  ops = push_all add_op [] (map op_of segs);
})

-- `none` is a panic.
unfoldable pub diff_to_changeset : Text → Text → Option Changeset
unfolding table walk combined
diff_to_changeset old_text new_text =
    let old = runes old_text in
    let nw = runes new_text in
    combined old_text new_text
      (walk (table old nw) old nw (suc (length old + length nw)) (length old) (length nw) [])
