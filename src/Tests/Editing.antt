-- ===== src/Tests/Editing.antt =====
-- internal/ot on small documents.
use ds_collaborative_editor.Base.{◌+◌, ◌-◌, ◌^◌, ◌≤◌, [], ◌∷◌, ◌≡◌, refl, none, arith, ◌↔◌}
use ds_collaborative_editor.Base.Int.{add64, sub64, lt_int, le_int}
use ds_collaborative_editor.Base.Outcome.{ok, panic}
use ds_collaborative_editor.Base.Text.{Text, codes, le_text}
use ds_collaborative_editor.Ot.Changeset.{Changeset, retain, insert, delete, validate}
use ds_collaborative_editor.Ot.Cursor.{done, loop, peek, consume, add_op}
use ds_collaborative_editor.Ot.Follow.{follow, follow_step}
use ds_collaborative_editor.Ot.Follow.Correct.{follow-IsValid}
use ds_collaborative_editor.Ot.Follow.Order.{
  Square, follow-converges, adjacent_inserts_diverge, two_inserts, one_insert,
}
use ds_collaborative_editor.Ot.Compose.{compose}
use ds_collaborative_editor.Ot.Compose.Law.{compose-apply}
use ds_collaborative_editor.Ot.Apply.{apply_changeset}
use ds_collaborative_editor.Ot.Apply.Correct.{apply-edit}
use ds_collaborative_editor.Ot.Apply.Overflow.{wrapping, wrapping_panics}
use ds_collaborative_editor.Ot.Ops.{IsSeparate, src_len, dst_len, edit}
use ds_collaborative_editor.Ot.Valid.{IsValid}
use ds_collaborative_editor.Ot.Accepts.{IsAccepted, validate-IsAccepted}

-- "ac" to "abc", "ac" to "c", and "abc" to "abd".
abbrev add_b : Changeset
add_b = record { old_len = 2; new_len = 3; ops = retain 1 ∷ insert (codes "b") ∷ retain 1 ∷ [] }

abbrev cut_a : Changeset
cut_a = record { old_len = 2; new_len = 1; ops = delete 1 ∷ retain 1 ∷ [] }

abbrev c_to_d : Changeset
c_to_d = record { old_len = 3; new_len = 3; ops = retain 2 ∷ delete 1 ∷ insert (codes "d") ∷ [] }

add_b-IsValid : IsValid add_b
unfolding src_len dst_len
add_b-IsValid = record { positive = omega arith; reads = refl; writes = refl; short = omega arith }

cut_a-IsValid : IsValid cut_a
unfolding src_len dst_len
cut_a-IsValid = record { positive = omega arith; reads = refl; writes = refl; short = omega arith }

c_to_d-IsValid : IsValid c_to_d
unfolding src_len dst_len
c_to_d-IsValid = record { positive = omega arith; reads = refl; writes = refl; short = omega arith }

rebased_run :
    follow cut_a add_b
    ≡ done (record { old_len = 1; new_len = 2; ops = insert (codes "b") ∷ retain 1 ∷ [] })
unfolding follow loop peek consume follow_step add_op add64 sub64 lt_int le_int le_text
rebased_run = refl

composed_run :
    compose add_b c_to_d
    ≡ done (record {
      old_len = 2;
      new_len = 3;
      ops = retain 1 ∷ insert (codes "b") ∷ delete 1 ∷ insert (codes "d") ∷ [];
    })
unfolding compose loop peek consume add_op add64 sub64 lt_int le_int
composed_run = refl

follow-converges_example :
    (ab : Changeset) × (ba : Changeset) × (follow add_b cut_a ≡ done ab)
    × (follow cut_a add_b ≡ done ba)
    × Square (codes "ac") add_b cut_a ab ba
follow-converges_example =
    follow-converges (codes "ac") add_b cut_a add_b-IsValid cut_a-IsValid (λ z. z, tt) tt refl refl
      (omega arith)

follow-IsValid_example :
    (c : Changeset) × (follow add_b cut_a ≡ done c)
    × IsValid c
    × (c.old_len ≡ 3)
    × IsSeparate c.ops
    × (c.new_len ≤ 3 + 1)
follow-IsValid_example = follow-IsValid add_b cut_a add_b-IsValid cut_a-IsValid refl (omega arith)

adjacent_inserts_diverge_example :
    IsValid (two_inserts 98 97)
    × IsValid (one_insert 98)
    × (ab : Changeset) × (ba : Changeset) × (follow (two_inserts 98 97) (one_insert 98) ≡ done ab)
    × (follow (one_insert 98) (two_inserts 98 97) ≡ done ba)
    × (apply_changeset (98 ∷ 97 ∷ []) ab ≡ ok (98 ∷ 97 ∷ 98 ∷ []))
    × (apply_changeset (98 ∷ []) ba ≡ ok (98 ∷ 98 ∷ 97 ∷ []))
adjacent_inserts_diverge_example = adjacent_inserts_diverge 98 97 (omega arith)

compose-apply_example :
    (c : Changeset) × (mid : Text) × (out : Text) × (compose add_b c_to_d ≡ done c)
    × IsValid c
    × (c.old_len ≡ 2)
    × (c.new_len ≡ 3)
    × IsSeparate c.ops
    × (apply_changeset (codes "ac") add_b ≡ ok mid)
    × (apply_changeset mid c_to_d ≡ ok out)
    × (apply_changeset (codes "ac") c ≡ ok out)
compose-apply_example =
    compose-apply (codes "ac") add_b c_to_d add_b-IsValid c_to_d-IsValid refl refl

apply-edit_example : apply_changeset (codes "ac") add_b ≡ ok (edit add_b.ops (codes "ac"))
apply-edit_example = apply-edit (codes "ac") add_b add_b-IsValid refl

-- A delete of -1 and an insert that fit the declared lengths modulo 2 ^ 64.
abbrev minus_one : Changeset
minus_one = record {
  old_len = 2 ^ 64 - 1;
  new_len = 1;
  ops = delete (2 ^ 64 - 1) ∷ insert (codes "a") ∷ [];
}

validate-IsAccepted_example : (validate minus_one ≡ none) ↔ IsAccepted minus_one
validate-IsAccepted_example = validate-IsAccepted minus_one (omega arith, (tt, tt))

wrapping_panics_example :
    (validate (wrapping 2) ≡ none) × (apply_changeset (codes "ac") (wrapping 2) ≡ panic)
wrapping_panics_example = wrapping_panics (codes "ac") (omega arith) (omega arith)
