-- ===== src/Ot/Apply/Overflow.antt =====
-- Lengths whose sums wrap around pass `Validate` and make `ApplyChangeset` panic.
use ds_collaborative_editor.Base.{ℕ, ◌+◌, ◌<◌, [], ◌∷◌, ◌≡◌, length, arith, none}
use ds_collaborative_editor.Base.Int.{int_max, add64, sub64, lt_int, le_int}
use ds_collaborative_editor.Base.Outcome.{panic}
use ds_collaborative_editor.Base.Text.{Text}
use ds_collaborative_editor.Ot.Changeset.{retain, Changeset, validate}
use ds_collaborative_editor.Ot.Apply.{apply_changeset}

-- Retains whose lengths add up to 2 ^ 64 + n.
abbrev pub wrapping : ℕ → Changeset
wrapping n = record {
  old_len = n;
  new_len = n;
  ops = retain 1 ∷ retain int_max ∷ retain int_max ∷ retain (n + 1) ∷ [];
}

wrapping-validate : (n : ℕ) → n < int_max → validate (wrapping n) ≡ none
unfolding validate le_int add64
wrapping-validate n h = ground arith

wrapping-apply :
    (doc : Text)
    → 0 < length doc
    → length doc < int_max
    → apply_changeset doc (wrapping (length doc)) ≡ panic
unfolding apply_changeset lt_int add64 sub64
wrapping-apply doc p h = ground arith

-- For every document of a positive length below the greatest int there is a changeset that
-- Validate accepts and on which ApplyChangeset panics: the sum of its retains wraps around to the
-- document's length, and one of the slice bounds to a negative int.
pub wrapping_panics :
    (doc : Text)
    → 0 < length doc
    → length doc < int_max
    → (validate (wrapping (length doc)) ≡ none)
      × (apply_changeset doc (wrapping (length doc)) ≡ panic)
wrapping_panics doc p h = (wrapping-validate (length doc) h, wrapping-apply doc p h)
