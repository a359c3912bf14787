-- ===== src/Ot/Compose/Rounds.antt =====
-- The rounds of `Compose` on operations that `Validate` lets through.
use ds_collaborative_editor.Base.{
  ℕ, ◌≡◌, refl, ap, length, take, arith, Option, none, some, inl, inr, ◌∙◌,
}
use ds_collaborative_editor.Base.Int.{IsInt, lt_int_lem}
use ds_collaborative_editor.Base.Text.{Text}
use ds_collaborative_editor.Ot.Changeset.{Op, retain, insert, delete, unknown, len_field}
use ds_collaborative_editor.Ot.Cursor.{op_size, go}
use ds_collaborative_editor.Ot.Follow.{shorter}
use ds_collaborative_editor.Ot.Follow.Rounds.{shorter_lem, least}
use ds_collaborative_editor.Ot.Compose.{compose_switch, compose_step}
use ds_collaborative_editor.Ot.Ops.{IsPositive, IsInsert, NoInsert}
use ds_collaborative_editor.Ot.Loop.{Fits, Progresses, op_size-IsInt}

abbrev pub IsDelete : Op → Type 0
IsDelete (delete n) = Unit
IsDelete _ = ⊥

-- What a round emits where A's operation is no delete and B's no insert.
unfoldable pub compose_emit : Op → Op → ℕ → Option Op
compose_emit (retain i) (retain j) n = some (retain n)
compose_emit (retain i) (delete j) n = some (delete n)
compose_emit (insert s) (retain j) n = some (insert (take n s))
compose_emit a b n = none

switch_lem : (a b : Op) (n : ℕ) → IsInt n → compose_switch a b n ≡ go (compose_emit a b n) n n
unfolding compose_switch compose_emit
switch_lem (insert s) (retain j) n h = ground (arith, lt_int_lem n 0)
switch_lem (insert s) (delete j) n h = refl
switch_lem (insert s) (insert t) n h = refl
switch_lem (insert s) (unknown t j) n h = refl
switch_lem (retain i) (retain j) n h = refl
switch_lem (retain i) (delete j) n h = refl
switch_lem (retain i) (insert t) n h = refl
switch_lem (retain i) (unknown t j) n h = refl
switch_lem (delete i) b n h = refl
switch_lem (unknown u i) b n h = refl

step_switch :
    (a b : Op)
    → ¬ IsDelete a
    → ¬ IsInsert b
    → IsPositive a
    → IsPositive b
    → compose_step (some a) (some b) ≡ compose_switch a b (shorter (op_size a) (op_size b))
unfolding compose_step len_field op_size
step_switch (delete i) b h k p q = absurd (h tt)
step_switch (unknown u i) b h k p q = absurd p
step_switch a (insert t) h k p q = absurd (k tt)
step_switch a (unknown u i) h k p q = absurd q
step_switch (retain i) (retain j) h k p q = refl
step_switch (retain i) (delete j) h k p q = refl
step_switch (insert s) (retain j) h k p q = refl
step_switch (insert s) (delete j) h k p q = refl

pub compose_both :
    (a b : Op)
    → ¬ IsDelete a
    → ¬ IsInsert b
    → IsPositive a
    → IsPositive b
    → compose_step (some a) (some b) ≡ go (compose_emit a b (least a b)) (least a b) (least a b)
compose_both a b h k p q =
    let sa = op_size-IsInt a p in
    let sb = op_size-IsInt b q in
    step_switch a b h k p q
    ∙ (ap (compose_switch a b) (shorter_lem (op_size a) (op_size b) sa.1 sb.1)
        ∙ switch_lem a b (least a b) (omega arith))

pub compose_insert :
    (a : Option Op) (t : Text)
    → compose_step a (some (insert t)) ≡ go (some (insert t)) 0 (length t)
unfolding compose_step
compose_insert none t = refl
compose_insert (some a) t = refl

pub compose_delete :
    (n : ℕ) (b : Option Op)
    → NoInsert b
    → compose_step (some (delete n)) b ≡ go (some (delete n)) n 0
unfolding compose_step
compose_delete n none h = refl
compose_delete n (some (retain i)) h = refl
compose_delete n (some (insert i)) h = absurd (h tt)
compose_delete n (some (delete i)) h = refl
compose_delete n (some (unknown t i)) h = refl

Fits-both :
    (a b : Op)
    → ¬ IsDelete a
    → ¬ IsInsert b
    → IsPositive a
    → IsPositive b
    → Fits (some a) (some b) (compose_step (some a) (some b))
Fits-both a b h k p q =
    let sa = op_size-IsInt a p in
    let sb = op_size-IsInt b q in
    rw (compose_both a b h k p q) (omega arith, omega arith, omega arith)

-- Every round makes progress.
pub compose_step-Progresses : Progresses compose_step
compose_step-Progresses none none p q = unfold compose_step in tt
compose_step-Progresses none (some (insert t)) p q =
    rw (compose_insert none t) (unfold op_size in (omega arith, omega arith, inr (refl, q.0)))
compose_step-Progresses (some a) (some (insert t)) p q =
    rw (compose_insert (some a) t) (unfold op_size in (omega arith, omega arith, inr (refl, q.0)))
compose_step-Progresses (some (delete n)) none p q =
    rw (compose_delete n none tt) (unfold op_size in (omega arith, omega arith, inl (refl, p.0)))
compose_step-Progresses (some (delete n)) (some (retain i)) p q =
    rw (compose_delete n (some (retain i)) (λ z. z))
      (unfold op_size in (omega arith, omega arith, inl (refl, p.0)))
compose_step-Progresses (some (delete n)) (some (delete i)) p q =
    rw (compose_delete n (some (delete i)) (λ z. z))
      (unfold op_size in (omega arith, omega arith, inl (refl, p.0)))
compose_step-Progresses none (some (retain n)) p q = unfold compose_step in tt
compose_step-Progresses none (some (delete n)) p q = unfold compose_step in tt
compose_step-Progresses (some (retain n)) none p q = unfold compose_step in tt
compose_step-Progresses (some (insert n)) none p q = unfold compose_step in tt
compose_step-Progresses (some (retain n)) (some (retain m)) p q =
    Fits-both (retain n) (retain m) (λ z. z) (λ z. z) p q
compose_step-Progresses (some (retain n)) (some (delete m)) p q =
    Fits-both (retain n) (delete m) (λ z. z) (λ z. z) p q
compose_step-Progresses (some (insert n)) (some (retain m)) p q =
    Fits-both (insert n) (retain m) (λ z. z) (λ z. z) p q
compose_step-Progresses (some (insert n)) (some (delete m)) p q =
    Fits-both (insert n) (delete m) (λ z. z) (λ z. z) p q
compose_step-Progresses (some (unknown u n)) b p q = absurd p
compose_step-Progresses a (some (unknown u n)) p q = absurd q
