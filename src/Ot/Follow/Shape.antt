-- ===== src/Ot/Follow/Shape.antt =====
-- The lengths of a rebased list of operations: it reads what A writes.
use ds_collaborative_editor.Base.{
  ℕ, zero, suc, ◌+◌, ◌≤◌, ◌<◌, List, [], ◌∷◌, ◌≡◌, refl, length, All, arith, none, some, inl, inr,
  Bool-cases,
}
use ds_collaborative_editor.Base.Text.{Text, le_text}
use ds_collaborative_editor.Ot.Changeset.{Op, retain, insert, delete, unknown}
use ds_collaborative_editor.Ot.Cursor.{op_size, stop, go}
use ds_collaborative_editor.Ot.Follow.{follow_emit, follow_step}
use ds_collaborative_editor.Ot.Ops.{
  lens-advance, advance_insert, advance_zero-All, IsPositive, IsInsert, first, src_len, dst_len,
  advance,
}
use ds_collaborative_editor.Ot.Loop.{
  cons?, emitted_go, emitted_stop, advance-All, Fits-shrinks, op_size-IsInt,
}
use ds_collaborative_editor.Ot.Follow.Rounds.{least, step_both, step_a, step_b, step_le, step_gt}
use ds_collaborative_editor.Ot.Follow.Converge.{rebase, read_all}

pub record IsRebased (a b out : List Op) : Type 0 where
  pub positive : All IsPositive out
  pub reads : src_len out ≡ dst_len a
  pub writes : dst_len out ≤ dst_len a + dst_len b

skip_insert :
    (f : ℕ) (x : Text) (a b : List Op)
    → All IsPositive (insert x ∷ a)
    → All IsPositive b
    → follow_step (some (insert x)) (first b) ≡ go (some (retain (length x))) (length x) 0
    → IsRebased a b (rebase f a b)
    → IsRebased (insert x ∷ a) b (rebase (suc f) (insert x ∷ a) b)
skip_insert f x a b p q e r =
    rw (emitted_go follow_step f (insert x ∷ a) b _ _ _ e, advance_insert x a, advance_zero-All b q)
      (unfold src_len dst_len in
        record {
          positive = (p.0, r.positive);
          reads = omega (arith, r.reads);
          writes = omega (arith, r.writes);
        })

copy_insert :
    (f : ℕ) (y : Text) (a b : List Op)
    → All IsPositive a
    → All IsPositive (insert y ∷ b)
    → follow_step (first a) (some (insert y)) ≡ go (some (insert y)) 0 (length y)
    → IsRebased a b (rebase f a b)
    → IsRebased a (insert y ∷ b) (rebase (suc f) a (insert y ∷ b))
copy_insert f y a b p q e r =
    rw (emitted_go follow_step f a (insert y ∷ b) _ _ _ e, advance_insert y b, advance_zero-All a p)
      (unfold src_len dst_len in
        record {
          positive = (q.0, r.positive);
          reads = omega (arith, r.reads);
          writes = omega (arith, r.writes);
        })

both-IsRebased :
    (k : ℕ) (o p : Op) (a b c : List Op)
    → ¬ IsInsert o
    → ¬ IsInsert p
    → IsPositive o
    → IsPositive p
    → 0 < k
    → k ≤ op_size o
    → k ≤ op_size p
    → IsRebased (advance k (o ∷ a)) (advance k (p ∷ b)) c
    → IsRebased (o ∷ a) (p ∷ b) (cons? (follow_emit o p k) c)
unfolding follow_emit src_len dst_len op_size
both-IsRebased k (insert s) p a b c h h' po pp q l l' r = absurd (h tt)
both-IsRebased k (unknown u n) p a b c h h' po pp q l l' r = absurd po
both-IsRebased k o (insert s) a b c h h' po pp q l l' r = absurd (h' tt)
both-IsRebased k o (unknown u n) a b c h h' po pp q l l' r = absurd pp
both-IsRebased k (retain i) (retain j) a b c h h' po pp q l l' r =
    let la = (lens-advance k (retain i) a q l).1 in
    let lb = (lens-advance k (retain j) b q l').1 in
    record {
      positive = ((q, omega arith), r.positive);
      reads = omega (arith, la, r.reads);
      writes = omega (arith, la, lb, r.writes);
    }
both-IsRebased k (retain i) (delete j) a b c h h' po pp q l l' r =
    let la = (lens-advance k (retain i) a q l).1 in
    let lb = (lens-advance k (delete j) b q l').1 in
    record {
      positive = ((q, omega arith), r.positive);
      reads = omega (arith, la, r.reads);
      writes = omega (arith, la, lb, r.writes);
    }
both-IsRebased k (delete i) (retain j) a b c h h' po pp q l l' r =
    let la = (lens-advance k (delete i) a q l).1 in
    let lb = (lens-advance k (retain j) b q l').1 in
    record {
      positive = r.positive;
      reads = omega (arith, la, r.reads);
      writes = omega (arith, la, lb, r.writes);
    }
both-IsRebased k (delete i) (delete j) a b c h h' po pp q l l' r =
    let la = (lens-advance k (delete i) a q l).1 in
    let lb = (lens-advance k (delete j) b q l').1 in
    record {
      positive = r.positive;
      reads = omega (arith, la, r.reads);
      writes = omega (arith, la, lb, r.writes);
    }

abbrev pub RebasedBelow : ℕ → Type 0
RebasedBelow f =
    (a b : List Op)
    → All IsPositive a
    → All IsPositive b
    → src_len a ≡ src_len b
    → length a + length b < f
    → IsRebased a b (rebase f a b)

IsRebased-both :
    (f : ℕ)
    → RebasedBelow f
    → (o p : Op) (a b : List Op) → ¬ IsInsert o
    → ¬ IsInsert p
    → All IsPositive (o ∷ a)
    → All IsPositive (p ∷ b)
    → src_len (o ∷ a) ≡ src_len (p ∷ b)
    → suc (length a) + suc (length b) < suc f
    → IsRebased (o ∷ a) (p ∷ b) (rebase (suc f) (o ∷ a) (p ∷ b))
IsRebased-both f below o p a b h h' po pp e l =
    let k = least o p in
    let so = op_size-IsInt o po.0 in
    let sp = op_size-IsInt p pp.0 in
    let fewer = Fits-shrinks k k none (o ∷ a) (p ∷ b) (omega arith, omega arith, omega arith) in
    let la = (lens-advance k o a (omega arith) (omega arith)).0 in
    let lb = (lens-advance k p b (omega arith) (omega arith)).0 in
    rw (emitted_go follow_step f (o ∷ a) (p ∷ b) _ _ _ (step_both o p h h' po.0 pp.0)) (
      both-IsRebased k o p a b _ h h' po.0 pp.0 (omega arith) (omega arith) (omega arith) (
        below (advance k (o ∷ a)) (advance k (p ∷ b)) (advance-All k (o ∷ a) (omega arith) po)
          (advance-All k (p ∷ b) (omega arith) pp)
          (omega (arith, la, lb, e, read_all o k po.0 h, read_all p k pp.0 h'))
          (omega (arith, fewer))))

IsRebased-inserts :
    (f : ℕ) (x y : Text) (a b : List Op)
    → All IsPositive (insert x ∷ a)
    → All IsPositive (insert y ∷ b)
    → IsRebased a (insert y ∷ b) (rebase f a (insert y ∷ b))
    → IsRebased (insert x ∷ a) b (rebase f (insert x ∷ a) b)
    → IsRebased (insert x ∷ a) (insert y ∷ b) (rebase (suc f) (insert x ∷ a) (insert y ∷ b))
IsRebased-inserts f x y a b p q ra rb = elim (Bool-cases (le_text x y)) [
  | inl h ↦ skip_insert f x a (insert y ∷ b) p q (step_le x y h) ra
  | inr h ↦ copy_insert f y (insert x ∷ a) b p q (step_gt x y h) rb
]

-- A rebased list reads what A writes, and writes no more than A and B together.
pub rebased : (f : ℕ) → RebasedBelow f
rebased zero a b p q e l = absurd (omega arith)
rebased (suc f) [] [] p q e l =
    rw (emitted_stop follow_step f [] [] ended)
      (unfold src_len dst_len in record { positive = tt; reads = refl; writes = omega arith })
  where
    ended : follow_step none none ≡ stop
    ended = unfold follow_step in refl
rebased (suc f) (insert x ∷ a) [] p q e l =
    skip_insert f x a [] p q (step_a x none tt)
      (rebased f a [] p.1 q (unfold src_len in e) (omega arith))
rebased (suc f) (insert x ∷ a) (retain i ∷ b) p q e l =
    skip_insert f x a (retain i ∷ b) p q (step_a x (some (retain i)) (λ z. z))
      (rebased f a (retain i ∷ b) p.1 q (unfold src_len in e) (omega arith))
rebased (suc f) (insert x ∷ a) (delete i ∷ b) p q e l =
    skip_insert f x a (delete i ∷ b) p q (step_a x (some (delete i)) (λ z. z))
      (rebased f a (delete i ∷ b) p.1 q (unfold src_len in e) (omega arith))
rebased (suc f) [] (insert y ∷ b) p q e l =
    copy_insert f y [] b p q (step_b none y tt)
      (rebased f [] b p q.1 (unfold src_len in e) (omega arith))
rebased (suc f) (retain i ∷ a) (insert y ∷ b) p q e l =
    copy_insert f y (retain i ∷ a) b p q (step_b (some (retain i)) y (λ z. z))
      (rebased f (retain i ∷ a) b p q.1 (unfold src_len in e) (omega arith))
rebased (suc f) (delete i ∷ a) (insert y ∷ b) p q e l =
    copy_insert f y (delete i ∷ a) b p q (step_b (some (delete i)) y (λ z. z))
      (rebased f (delete i ∷ a) b p q.1 (unfold src_len in e) (omega arith))
rebased (suc f) (insert x ∷ a) (insert y ∷ b) p q e l =
    IsRebased-inserts f x y a b p q
      (rebased f a (insert y ∷ b) p.1 q (unfold src_len in e) (omega arith))
      (rebased f (insert x ∷ a) b p q.1 (unfold src_len in e) (omega arith))
rebased (suc f) (retain i ∷ a) (retain j ∷ b) p q e l =
    IsRebased-both f (rebased f) (retain i) (retain j) a b (λ z. z) (λ z. z) p q e l
rebased (suc f) (retain i ∷ a) (delete j ∷ b) p q e l =
    IsRebased-both f (rebased f) (retain i) (delete j) a b (λ z. z) (λ z. z) p q e l
rebased (suc f) (delete i ∷ a) (retain j ∷ b) p q e l =
    IsRebased-both f (rebased f) (delete i) (retain j) a b (λ z. z) (λ z. z) p q e l
rebased (suc f) (delete i ∷ a) (delete j ∷ b) p q e l =
    IsRebased-both f (rebased f) (delete i) (delete j) a b (λ z. z) (λ z. z) p q e l
rebased (suc f) [] (retain j ∷ b) p q e l = absurd (unfold src_len in omega (arith, q.0.0))
rebased (suc f) (retain j ∷ a) [] p q e l = absurd (unfold src_len in omega (arith, p.0.0))
rebased (suc f) [] (delete j ∷ b) p q e l = absurd (unfold src_len in omega (arith, q.0.0))
rebased (suc f) (delete j ∷ a) [] p q e l = absurd (unfold src_len in omega (arith, p.0.0))
rebased (suc f) (unknown u j ∷ a) b p q e l = absurd p.0
rebased (suc f) a (unknown u j ∷ b) p q e l = absurd q.0
