-- ===== src/Ot/Follow/Rounds.antt =====
-- The rounds of `Follow` on operations that `Validate` lets through.
use ds_collaborative_editor.Base.{
  ℕ, min, true, false, ◌≡◌, refl, ap, length, arith, Option, none, some, inl, inr, Bool-cases, ◌∙◌,
}
use ds_collaborative_editor.Base.Int.{IsInt, lt_int_lem}
use ds_collaborative_editor.Base.Text.{Text, le_text}
use ds_collaborative_editor.Ot.Changeset.{Op, retain, insert, delete, unknown, len_field}
use ds_collaborative_editor.Ot.Cursor.{op_size, go}
use ds_collaborative_editor.Ot.Follow.{follow_emit, shorter, follow_both, follow_step}
use ds_collaborative_editor.Ot.Ops.{IsPositive, IsInsert, NoInsert}
use ds_collaborative_editor.Ot.Loop.{Fits, Progresses, op_size-IsInt}

pub shorter_lem : (a b : ℕ) → IsInt a → IsInt b → shorter a b ≡ min a b
unfolding shorter
shorter_lem a b h k = ground (arith, lt_int_lem b a)

len_field-op_size : (a : Op) → ¬ IsInsert a → len_field a ≡ op_size a
unfolding len_field op_size
len_field-op_size (insert s) h = absurd (h tt)
len_field-op_size (retain n) h = refl
len_field-op_size (delete n) h = refl
len_field-op_size (unknown t n) h = refl

abbrev pub least : Op → Op → ℕ
least a b = min (op_size a) (op_size b)

follow_step_both :
    (a b : Op) → ¬ IsInsert a → ¬ IsInsert b → follow_step (some a) (some b) ≡ follow_both a b
unfolding follow_step
follow_step_both (insert s) b h k = absurd (h tt)
follow_step_both (retain n) (insert s) h k = absurd (k tt)
follow_step_both (delete n) (insert s) h k = absurd (k tt)
follow_step_both (unknown u n) (insert s) h k = absurd (k tt)
follow_step_both (retain n) (retain m) h k = refl
follow_step_both (retain n) (delete m) h k = refl
follow_step_both (retain n) (unknown t m) h k = refl
follow_step_both (delete n) (retain m) h k = refl
follow_step_both (delete n) (delete m) h k = refl
follow_step_both (delete n) (unknown t m) h k = refl
follow_step_both (unknown u n) (retain m) h k = refl
follow_step_both (unknown u n) (delete m) h k = refl
follow_step_both (unknown u n) (unknown t m) h k = refl

-- Two operations that are no inserts are consumed as far as the shorter goes.
pub step_both :
    (a b : Op)
    → ¬ IsInsert a
    → ¬ IsInsert b
    → IsPositive a
    → IsPositive b
    → follow_step (some a) (some b) ≡ go (follow_emit a b (least a b)) (least a b) (least a b)
step_both a b h k p q =
    let e : shorter (len_field a) (len_field b) ≡ least a b =
      ap (λ x. shorter x (len_field b)) (len_field-op_size a h)
      ∙ (ap (shorter (op_size a)) (len_field-op_size b k)
          ∙ shorter_lem (op_size a) (op_size b) (op_size-IsInt a p).1 (op_size-IsInt b q).1) in
    follow_step_both a b h k ∙ (unfold follow_both in rw e)

-- An insert of A alone is skipped, and an insert of B alone is copied.
pub step_a :
    (s : Text) (b : Option Op)
    → NoInsert b
    → follow_step (some (insert s)) b ≡ go (some (retain (length s))) (length s) 0
unfolding follow_step
step_a s none h = refl
step_a s (some (insert t)) h = absurd (h tt)
step_a s (some (retain n)) h = refl
step_a s (some (delete n)) h = refl
step_a s (some (unknown t n)) h = refl

pub step_b :
    (a : Option Op) (t : Text)
    → NoInsert a
    → follow_step a (some (insert t)) ≡ go (some (insert t)) 0 (length t)
unfolding follow_step
step_b none t h = refl
step_b (some (insert s)) t h = absurd (h tt)
step_b (some (retain n)) t h = refl
step_b (some (delete n)) t h = refl
step_b (some (unknown u n)) t h = refl

-- Of two inserts the lesser text comes first.
pub step_le :
    (s t : Text)
    → le_text s t ≡ true
    → follow_step (some (insert s)) (some (insert t)) ≡ go (some (retain (length s))) (length s) 0
unfolding follow_step
step_le s t h = rw h

pub step_gt :
    (s t : Text)
    → le_text s t ≡ false
    → follow_step (some (insert s)) (some (insert t)) ≡ go (some (insert t)) 0 (length t)
unfolding follow_step
step_gt s t h = rw h

Fits-both :
    (a b : Op)
    → ¬ IsInsert a
    → ¬ IsInsert b
    → IsPositive a
    → IsPositive b
    → Fits (some a) (some b) (follow_step (some a) (some b))
Fits-both a b h k p q = rw (step_both a b h k p q) (
    let sa = op_size-IsInt a p in
    let sb = op_size-IsInt b q in (omega arith, omega arith, omega arith))

Fits-insert :
    (s t : Text)
    → IsPositive (insert s)
    → IsPositive (insert t)
    → Fits (some (insert s)) (some (insert t)) (follow_step (some (insert s)) (some (insert t)))
Fits-insert s t p q = elim (Bool-cases (le_text s t)) [
  | inl e ↦ rw (step_le s t e) (unfold op_size in (omega arith, omega arith, inl (refl, p.0)))
  | inr e ↦ rw (step_gt s t e) (unfold op_size in (omega arith, omega arith, inr (refl, q.0)))
]

-- Every round makes progress.
pub follow_step-Progresses : Progresses follow_step
follow_step-Progresses none none p q = unfold follow_step in tt
follow_step-Progresses (some (insert s)) (some (insert t)) p q = Fits-insert s t p q
follow_step-Progresses (some (insert s)) none p q =
    rw (step_a s none tt) (unfold op_size in (omega arith, omega arith, inl (refl, p.0)))
follow_step-Progresses (some (insert s)) (some (retain n)) p q =
    rw (step_a s (some (retain n)) (λ z. z))
      (unfold op_size in (omega arith, omega arith, inl (refl, p.0)))
follow_step-Progresses (some (insert s)) (some (delete n)) p q =
    rw (step_a s (some (delete n)) (λ z. z))
      (unfold op_size in (omega arith, omega arith, inl (refl, p.0)))
follow_step-Progresses none (some (insert t)) p q =
    rw (step_b none t tt) (unfold op_size in (omega arith, omega arith, inr (refl, q.0)))
follow_step-Progresses (some (retain n)) (some (insert t)) p q =
    rw (step_b (some (retain n)) t (λ z. z))
      (unfold op_size in (omega arith, omega arith, inr (refl, q.0)))
follow_step-Progresses (some (delete n)) (some (insert t)) p q =
    rw (step_b (some (delete n)) t (λ z. z))
      (unfold op_size in (omega arith, omega arith, inr (refl, q.0)))
follow_step-Progresses none (some (retain n)) p q = unfold follow_step in tt
follow_step-Progresses none (some (delete n)) p q = unfold follow_step in tt
follow_step-Progresses (some (retain n)) none p q = unfold follow_step in tt
follow_step-Progresses (some (delete n)) none p q = unfold follow_step in tt
follow_step-Progresses (some (retain n)) (some (retain m)) p q =
    Fits-both (retain n) (retain m) (λ z. z) (λ z. z) p q
follow_step-Progresses (some (retain n)) (some (delete m)) p q =
    Fits-both (retain n) (delete m) (λ z. z) (λ z. z) p q
follow_step-Progresses (some (delete n)) (some (retain m)) p q =
    Fits-both (delete n) (retain m) (λ z. z) (λ z. z) p q
follow_step-Progresses (some (delete n)) (some (delete m)) p q =
    Fits-both (delete n) (delete m) (λ z. z) (λ z. z) p q
follow_step-Progresses (some (unknown u n)) b p q = absurd p
follow_step-Progresses a (some (unknown u n)) p q = absurd q
