-- ===== src/Ot/Compose/Correct.antt =====
-- Composition on lists of operations: one list that edits as two do in turn.
use ds_collaborative_editor.Base.{
  ℕ, zero, suc, ◌+◌, ◌≤◌, ◌<◌, List, [], ◌∷◌, ◌++◌, ◌≡◌, refl, ap, length, take, drop, All, arith,
  none, take-append, drop-append, length-take, length-drop,
}
use ds_collaborative_editor.Base.Text.{Text}
use ds_collaborative_editor.Ot.Changeset.{Op, retain, insert, delete, unknown}
use ds_collaborative_editor.Ot.Cursor.{op_size, stop}
use ds_collaborative_editor.Ot.Follow.Rounds.{least}
use ds_collaborative_editor.Ot.Follow.Converge.{read_all}
use ds_collaborative_editor.Ot.Ops.{
  IsPositive, IsInsert, NoInsert, first, src_len, dst_len, edit, advance, lens-advance,
  advance_insert, advance_zero-All, edit-retain, edit-delete, edit-insert, advance_whole,
  written_of,
}
use ds_collaborative_editor.Ot.Loop.{
  emitted, emitted_go, emitted_stop, cons?, advance-All, Fits-shrinks, op_size-IsInt,
}
use ds_collaborative_editor.Ot.Compose.{compose_step}
use ds_collaborative_editor.Ot.Compose.Rounds.{
  IsDelete, compose_emit, compose_both, compose_insert, compose_delete,
}

pub record IsComposed (a b out : List Op) : Type 0 where
  pub positive : All IsPositive out
  pub reads : src_len out ≡ src_len a
  pub writes : dst_len out ≡ dst_len b
  pub same : (t : Text) → src_len a ≡ length t → edit out t ≡ edit b (edit a t)

take_exact : (k : ℕ) (u r : Text) → length u ≡ k → (take k (u ++ r) ≡ u) × (drop k (u ++ r) ≡ r)
take_exact k u r e = (rw e at (take-append u r), rw e at (drop-append u r))

-- B's operation edits the text that A's wrote.
retain_after :
    (k j : ℕ) (b : List Op) (u r : Text)
    → 0 < k
    → k ≤ j
    → length u ≡ k
    → edit (retain j ∷ b) (u ++ r) ≡ u ++ edit (advance k (retain j ∷ b)) r
retain_after k j b u r p l e =
    rw (edit-retain j k b (u ++ r) p l, (take_exact k u r e).0, (take_exact k u r e).1)

delete_after :
    (k j : ℕ) (b : List Op) (u r : Text)
    → 0 < k
    → k ≤ j
    → length u ≡ k
    → edit (delete j ∷ b) (u ++ r) ≡ edit (advance k (delete j ∷ b)) r
delete_after k j b u r p l e = rw (edit-delete j k b (u ++ r) p l, (take_exact k u r e).1)

edit_retain :
    (k : ℕ) (c : List Op) (t : Text) → edit (retain k ∷ c) t ≡ take k t ++ edit c (drop k t)
unfolding edit
edit_retain k c t = refl

edit_delete : (k : ℕ) (c : List Op) (t : Text) → edit (delete k ∷ c) t ≡ edit c (drop k t)
unfolding edit
edit_delete k c t = refl

edit_insert : (s : Text) (c : List Op) (t : Text) → edit (insert s ∷ c) t ≡ s ++ edit c t
unfolding edit
edit_insert s c t = refl

both-IsComposed :
    (k : ℕ) (o p : Op) (a b c : List Op)
    → ¬ IsDelete o
    → ¬ IsInsert p
    → IsPositive o
    → IsPositive p
    → 0 < k
    → k ≤ op_size o
    → k ≤ op_size p
    → IsComposed (advance k (o ∷ a)) (advance k (p ∷ b)) c
    → IsComposed (o ∷ a) (p ∷ b) (cons? (compose_emit o p k) c)
unfolding compose_emit src_len dst_len op_size
both-IsComposed k (delete i) p a b c h h' po pp q l l' r = absurd (h tt)
both-IsComposed k (unknown u n) p a b c h h' po pp q l l' r = absurd po
both-IsComposed k o (insert s) a b c h h' po pp q l l' r = absurd (h' tt)
both-IsComposed k o (unknown u n) a b c h h' po pp q l l' r = absurd pp
both-IsComposed k (retain i) (retain j) a b c h h' po pp q l l' r =
    let la = lens-advance k (retain i) a q l in
    let lb = lens-advance k (retain j) b q l' in
    record {
      positive = ((q, omega arith), r.positive);
      reads = omega (arith, la.0, r.reads);
      writes = omega (arith, lb.1, r.writes);
      same = λ t e.
          rw
            (
              edit_retain k c t,
              edit-retain i k a t q l,
              retain_after k j b (take k t) _ q l' (omega (arith, length-take k t)),
            )
            (ap (λ x. take k t ++ x) (r.same (drop k t) (omega (arith, la.0, length-drop k t))));
    }
both-IsComposed k (retain i) (delete j) a b c h h' po pp q l l' r =
    let la = lens-advance k (retain i) a q l in
    let lb = lens-advance k (delete j) b q l' in
    record {
      positive = ((q, omega arith), r.positive);
      reads = omega (arith, la.0, r.reads);
      writes = omega (arith, lb.1, r.writes);
      same = λ t e.
          rw
            (
              edit_delete k c t,
              edit-retain i k a t q l,
              delete_after k j b (take k t) _ q l' (omega (arith, length-take k t)),
            )
            (r.same (drop k t) (omega (arith, la.0, length-drop k t)));
    }
both-IsComposed k (insert s) (retain j) a b c h h' po pp q l l' r =
    let la = lens-advance k (insert s) a q l in
    let lb = lens-advance k (retain j) b q l' in
    record {
      positive = (omega (arith, length-take k s), r.positive);
      reads = omega (arith, la.0, r.reads);
      writes = omega (arith, lb.1, r.writes, length-take k s);
      same = λ t e.
          rw
            (
              edit_insert (take k s) c t,
              edit-insert s k a t q l,
              retain_after k j b (take k s) _ q l' (omega (arith, length-take k s)),
            )
            (ap (λ x. take k s ++ x) (r.same t (omega (arith, la.0))));
    }
both-IsComposed k (insert s) (delete j) a b c h h' po pp q l l' r =
    let la = lens-advance k (insert s) a q l in
    let lb = lens-advance k (delete j) b q l' in
    record {
      positive = r.positive;
      reads = omega (arith, la.0, r.reads);
      writes = omega (arith, lb.1, r.writes);
      same = λ t e.
          rw
            (
              edit-insert s k a t q l,
              delete_after k j b (take k s) _ q l' (omega (arith, length-take k s)),
            )
            (r.same t (omega (arith, la.0)));
    }

advance_delete : (n : ℕ) (a : List Op) → advance n (delete n ∷ a) ≡ a
unfolding op_size
advance_delete n a = advance_whole (delete n) a

written_all : (op : Op) (k : ℕ) → IsPositive op → ¬ IsDelete op → written_of op k ≡ k
written_all (retain n) k p h = refl
written_all (insert s) k p h = refl
written_all (delete n) k p h = absurd (h tt)
written_all (unknown t n) k p h = absurd p

-- What a loop of `Compose` emits with a given fuel.
abbrev pub merged : ℕ → List Op → List Op → List Op
merged = emitted compose_step

abbrev pub ComposedBelow : ℕ → Type 0
ComposedBelow f =
    (a b : List Op)
    → All IsPositive a
    → All IsPositive b
    → dst_len a ≡ src_len b
    → length a + length b < f
    → IsComposed a b (merged f a b)

IsComposed-insert :
    (f : ℕ) (y : Text) (a b : List Op)
    → All IsPositive a
    → All IsPositive (insert y ∷ b)
    → IsComposed a b (merged f a b)
    → IsComposed a (insert y ∷ b) (merged (suc f) a (insert y ∷ b))
IsComposed-insert f y a b p q r =
    rw
      (
        emitted_go compose_step f a (insert y ∷ b) _ _ _ (compose_insert (first a) y),
        advance_zero-All a p,
        advance_insert y b,
      )
      (unfold src_len dst_len edit in
        record {
          positive = (q.0, r.positive);
          reads = r.reads;
          writes = omega (arith, r.writes);
          same = λ t e. ap (λ x. y ++ x) (r.same t e);
        })

IsComposed-delete :
    (f n : ℕ) (a b : List Op)
    → All IsPositive (delete n ∷ a)
    → All IsPositive b
    → NoInsert (first b)
    → IsComposed a b (merged f a b)
    → IsComposed (delete n ∷ a) b (merged (suc f) (delete n ∷ a) b)
IsComposed-delete f n a b p q h r =
    rw
      (
        emitted_go compose_step f (delete n ∷ a) b _ _ _ (compose_delete n (first b) h),
        advance_zero-All b q,
        advance_delete n a,
      )
      (unfold src_len dst_len edit in
        record {
          positive = (p.0, r.positive);
          reads = omega (arith, r.reads);
          writes = r.writes;
          same = λ t e. r.same (drop n t) (omega (arith, length-drop n t));
        })

IsComposed-both :
    (f : ℕ)
    → ComposedBelow f
    → (o p : Op) (a b : List Op) → ¬ IsDelete o
    → ¬ IsInsert p
    → All IsPositive (o ∷ a)
    → All IsPositive (p ∷ b)
    → dst_len (o ∷ a) ≡ src_len (p ∷ b)
    → suc (length a) + suc (length b) < suc f
    → IsComposed (o ∷ a) (p ∷ b) (merged (suc f) (o ∷ a) (p ∷ b))
IsComposed-both f below o p a b h h' po pp e l =
    let k = least o p in
    let so = op_size-IsInt o po.0 in
    let sp = op_size-IsInt p pp.0 in
    let fewer = Fits-shrinks k k none (o ∷ a) (p ∷ b) (omega arith, omega arith, omega arith) in
    let la = (lens-advance k o a (omega arith) (omega arith)).1 in
    let lb = (lens-advance k p b (omega arith) (omega arith)).0 in
    rw (emitted_go compose_step f (o ∷ a) (p ∷ b) _ _ _ (compose_both o p h h' po.0 pp.0)) (
      both-IsComposed k o p a b _ h h' po.0 pp.0 (omega arith) (omega arith) (omega arith) (
        below (advance k (o ∷ a)) (advance k (p ∷ b)) (advance-All k (o ∷ a) (omega arith) po)
          (advance-All k (p ∷ b) (omega arith) pp)
          (omega (arith, la, lb, e, written_all o k po.0 h, read_all p k pp.0 h'))
          (omega (arith, fewer))))

pub composed : (f : ℕ) → ComposedBelow f
composed zero a b p q e l = absurd (omega arith)
composed (suc f) [] [] p q e l = rw (emitted_stop compose_step f [] [] ended) (
    unfold src_len dst_len edit in
    record { positive = tt; reads = refl; writes = refl; same = λ t h. refl })
  where
    ended : compose_step none none ≡ stop
    ended = unfold compose_step in refl
composed (suc f) [] (insert y ∷ b) p q e l =
    IsComposed-insert f y [] b p q (composed f [] b p q.1 (unfold src_len in e) (omega arith))
composed (suc f) (retain i ∷ a) (insert y ∷ b) p q e l =
    IsComposed-insert f y (retain i ∷ a) b p q
      (composed f (retain i ∷ a) b p q.1 (unfold src_len in e) (omega arith))
composed (suc f) (insert i ∷ a) (insert y ∷ b) p q e l =
    IsComposed-insert f y (insert i ∷ a) b p q
      (composed f (insert i ∷ a) b p q.1 (unfold src_len in e) (omega arith))
composed (suc f) (delete i ∷ a) (insert y ∷ b) p q e l =
    IsComposed-insert f y (delete i ∷ a) b p q
      (composed f (delete i ∷ a) b p q.1 (unfold src_len in e) (omega arith))
composed (suc f) (delete n ∷ a) [] p q e l =
    IsComposed-delete f n a [] p q tt (composed f a [] p.1 q (unfold dst_len in e) (omega arith))
composed (suc f) (delete n ∷ a) (retain i ∷ b) p q e l =
    IsComposed-delete f n a (retain i ∷ b) p q (λ z. z)
      (composed f a (retain i ∷ b) p.1 q (unfold dst_len in e) (omega arith))
composed (suc f) (delete n ∷ a) (delete i ∷ b) p q e l =
    IsComposed-delete f n a (delete i ∷ b) p q (λ z. z)
      (composed f a (delete i ∷ b) p.1 q (unfold dst_len in e) (omega arith))
composed (suc f) (retain i ∷ a) (retain j ∷ b) p q e l =
    IsComposed-both f (composed f) (retain i) (retain j) a b (λ z. z) (λ z. z) p q e l
composed (suc f) (retain i ∷ a) (delete j ∷ b) p q e l =
    IsComposed-both f (composed f) (retain i) (delete j) a b (λ z. z) (λ z. z) p q e l
composed (suc f) (insert i ∷ a) (retain j ∷ b) p q e l =
    IsComposed-both f (composed f) (insert i) (retain j) a b (λ z. z) (λ z. z) p q e l
composed (suc f) (insert i ∷ a) (delete j ∷ b) p q e l =
    IsComposed-both f (composed f) (insert i) (delete j) a b (λ z. z) (λ z. z) p q e l
composed (suc f) [] (retain j ∷ b) p q e l = absurd (unfold src_len dst_len in omega (arith, q.0.0))
composed (suc f) [] (delete j ∷ b) p q e l = absurd (unfold src_len dst_len in omega (arith, q.0.0))
composed (suc f) (retain j ∷ a) [] p q e l = absurd (unfold src_len dst_len in omega (arith, p.0.0))
composed (suc f) (insert j ∷ a) [] p q e l = absurd (unfold src_len dst_len in omega (arith, p.0.0))
composed (suc f) (unknown u j ∷ a) b p q e l = absurd p.0
composed (suc f) a (unknown u j ∷ b) p q e l = absurd q.0
