-- ===== src/Ot/Merge.antt =====
-- What `addOp` keeps: joining neighbours changes no edit, and leaves no two inserts side by side.
use ds_collaborative_editor.Base.{
  ◌+◌, ◌<◌, List, [], ◌∷◌, ◌++◌, ◌≡◌, refl, sym, ap, ◌∙◌, take, drop, All, arith, append_assoc,
  append-nil, take-add, drop-add, length-append,
}
use ds_collaborative_editor.Base.Int.{IsInt, word_mod, add64, add64_lem}
use ds_collaborative_editor.Base.Text.{Text}
use ds_collaborative_editor.Ot.Changeset.{Op, retain, insert, delete, unknown}
use ds_collaborative_editor.Ot.Cursor.{join_ops, add_op}
use ds_collaborative_editor.Ot.Ops.{IsPositive, src_len, dst_len, edit, IsSeparate, NoInsert, first}
use ds_collaborative_editor.Ot.Loop.{push_all}

-- A list of operations that an `int` can measure.
abbrev pub IsShort : List Op → Type 0
IsShort ops = IsInt (src_len ops) × IsInt (dst_len ops)

pub src_len-append : (a b : List Op) → src_len (a ++ b) ≡ src_len a + src_len b
unfolding src_len
src_len-append [] b = omega arith
src_len-append (retain n ∷ a) b = omega (arith, src_len-append a b)
src_len-append (insert s ∷ a) b = src_len-append a b
src_len-append (delete n ∷ a) b = omega (arith, src_len-append a b)
src_len-append (unknown t n ∷ a) b = src_len-append a b

pub dst_len-append : (a b : List Op) → dst_len (a ++ b) ≡ dst_len a + dst_len b
unfolding dst_len
dst_len-append [] b = omega arith
dst_len-append (retain n ∷ a) b = omega (arith, dst_len-append a b)
dst_len-append (insert s ∷ a) b = omega (arith, dst_len-append a b)
dst_len-append (delete n ∷ a) b = dst_len-append a b
dst_len-append (unknown t n ∷ a) b = dst_len-append a b

-- Joined operations against the two that they stand for.
record Joined (last op : Op) (rest : List Op) : Type 0 where
  src : src_len (join_ops last op ++ rest) ≡ src_len (last ∷ op ∷ rest)
  dst : dst_len (join_ops last op ++ rest) ≡ dst_len (last ∷ op ∷ rest)
  same : (t : Text) → edit (join_ops last op ++ rest) t ≡ edit (last ∷ op ∷ rest) t

join : (last op : Op) (rest : List Op) → src_len (last ∷ op ∷ []) < word_mod → Joined last op rest
unfolding src_len dst_len edit join_ops
join (retain n) (retain m) rest h =
    let e : add64 n m ≡ n + m = add64_lem n m (omega arith) in
    record {
      src = omega (arith, e);
      dst = omega (arith, e);
      same = λ t. rw (e, take-add, drop-add, append_assoc);
    }
join (delete n) (delete m) rest h =
    let e : add64 n m ≡ n + m = add64_lem n m (omega arith) in
    record { src = omega (arith, e); dst = refl; same = λ t. rw (e, drop-add) }
join (insert s) (insert u) rest h = record {
  src = refl;
  dst = omega (arith, length-append s u);
  same = λ t. rw append_assoc;
}
join (retain n) (insert s) rest h = record { src = refl; dst = refl; same = λ t. refl }
join (retain n) (delete m) rest h = record { src = refl; dst = refl; same = λ t. refl }
join (retain n) (unknown u m) rest h = record { src = refl; dst = refl; same = λ t. refl }
join (insert n) (retain s) rest h = record { src = refl; dst = refl; same = λ t. refl }
join (insert n) (delete m) rest h = record { src = refl; dst = refl; same = λ t. refl }
join (insert n) (unknown u m) rest h = record { src = refl; dst = refl; same = λ t. refl }
join (delete n) (retain s) rest h = record { src = refl; dst = refl; same = λ t. refl }
join (delete n) (insert m) rest h = record { src = refl; dst = refl; same = λ t. refl }
join (delete n) (unknown u m) rest h = record { src = refl; dst = refl; same = λ t. refl }
join (unknown v n) op rest h = record { src = refl; dst = refl; same = λ t. refl }

-- `addOp` against appending.
record Added (out : List Op) (op : Op) (rest : List Op) : Type 0 where
  src : src_len (add_op out op ++ rest) ≡ src_len (out ++ (op ∷ rest))
  dst : dst_len (add_op out op ++ rest) ≡ dst_len (out ++ (op ∷ rest))
  same : (t : Text) → edit (add_op out op ++ rest) t ≡ edit (out ++ (op ∷ rest)) t

same_cons :
    (o : Op) (a b : List Op)
    → ((t : Text) → edit a t ≡ edit b t)
    → (t : Text) → edit (o ∷ a) t ≡ edit (o ∷ b) t
unfolding edit
same_cons (retain n) a b h t = ap (λ r. take n t ++ r) (h (drop n t))
same_cons (insert s) a b h t = ap (λ r. s ++ r) (h t)
same_cons (delete n) a b h t = h (drop n t)
same_cons (unknown u n) a b h t = h t

longer :
    (o o' : Op) (ops : List Op) (op : Op) (rest : List Op)
    → src_len (add_op (o' ∷ ops) op ++ rest) ≡ src_len ((o' ∷ ops) ++ (op ∷ rest))
    → src_len (add_op (o ∷ o' ∷ ops) op ++ rest) ≡ src_len ((o ∷ o' ∷ ops) ++ (op ∷ rest))
unfolding add_op
longer o o' ops op rest h =
    src_len-append (o ∷ []) _ ∙ (ap (λ n. src_len (o ∷ []) + n) h ∙ sym (src_len-append (o ∷ []) _))

longer_dst :
    (o o' : Op) (ops : List Op) (op : Op) (rest : List Op)
    → dst_len (add_op (o' ∷ ops) op ++ rest) ≡ dst_len ((o' ∷ ops) ++ (op ∷ rest))
    → dst_len (add_op (o ∷ o' ∷ ops) op ++ rest) ≡ dst_len ((o ∷ o' ∷ ops) ++ (op ∷ rest))
unfolding add_op
longer_dst o o' ops op rest h =
    dst_len-append (o ∷ []) _ ∙ (ap (λ n. dst_len (o ∷ []) + n) h ∙ sym (dst_len-append (o ∷ []) _))

longer_same :
    (o o' : Op) (ops : List Op) (op : Op) (rest : List Op)
    → ((t : Text) → edit (add_op (o' ∷ ops) op ++ rest) t ≡ edit ((o' ∷ ops) ++ (op ∷ rest)) t)
    → (t : Text)
    → edit (add_op (o ∷ o' ∷ ops) op ++ rest) t ≡ edit ((o ∷ o' ∷ ops) ++ (op ∷ rest)) t
unfolding add_op
longer_same o o' ops op rest h t = same_cons o _ _ h t

add :
    (out : List Op) (op : Op) (rest : List Op)
    → src_len out + src_len (op ∷ []) < word_mod
    → Added out op rest
add [] op rest h = record {
  src = unfold add_op in refl;
  dst = unfold add_op in refl;
  same = unfold add_op in λ t. refl;
}
add (last ∷ []) op rest h =
    let j : Joined last op rest =
      join last op rest (omega (arith, src_len-append (last ∷ []) (op ∷ []))) in
    record {
      src = unfold add_op in j.src;
      dst = unfold add_op in j.dst;
      same = unfold add_op in j.same;
    }
add (o ∷ o' ∷ ops) op rest h =
    let split = src_len-append (o ∷ []) (o' ∷ ops) in
    let tail : Added (o' ∷ ops) op rest = add (o' ∷ ops) op rest (omega (arith, split)) in
    record {
      src = longer o o' ops op rest tail.src;
      dst = longer_dst o o' ops op rest tail.dst;
      same = λ t. longer_same o o' ops op rest tail.same t;
    }

-- `addOp` for each of a list of operations, against appending the list.
pub record Pushed (out ops : List Op) : Type 0 where
  pub src : src_len (push_all add_op out ops) ≡ src_len out + src_len ops
  pub dst : dst_len (push_all add_op out ops) ≡ dst_len out + dst_len ops
  pub same : (t : Text) → edit (push_all add_op out ops) t ≡ edit (out ++ ops) t

push_all_cons :
    (out : List Op) (op : Op) (ops : List Op)
    → push_all add_op out (op ∷ ops) ≡ push_all add_op (add_op out op) ops
unfolding push_all
push_all_cons out op ops = refl

pub pushed : (out ops : List Op) → src_len out + src_len ops < word_mod → Pushed out ops
pushed out [] h =
    unfold push_all src_len dst_len in
    record { src = omega arith; dst = omega arith; same = λ t. rw append-nil }
pushed out (op ∷ ops) h =
    let one = src_len-append (op ∷ []) ops in
    let a : Added out op ops = add out op ops (omega (arith, one)) in
    let split = src_len-append (add_op out op) ops in
    let split' = dst_len-append (add_op out op) ops in
    let ih : Pushed (add_op out op) ops =
      pushed (add_op out op) ops (omega (arith, a.src, split, src_len-append out (op ∷ ops))) in
    record {
      src = rw push_all_cons (ih.src ∙ (sym split ∙ (a.src ∙ src_len-append out (op ∷ ops))));
      dst = rw push_all_cons (ih.dst ∙ (sym split' ∙ (a.dst ∙ dst_len-append out (op ∷ ops))));
      same = λ t. rw push_all_cons (ih.same t ∙ a.same t);
    }

-- `addOp` leaves no two inserts side by side.
first-add_op :
    (o : Op) (ops : List Op) (op : Op)
    → NoInsert (first (o ∷ ops))
    → NoInsert (first (add_op (o ∷ ops) op))
unfolding add_op
first-add_op o (o' ∷ ops) op h = h
first-add_op (retain n) [] (retain m) h = λ z. z
first-add_op (retain n) [] (insert m) h = λ z. z
first-add_op (retain n) [] (delete m) h = λ z. z
first-add_op (retain n) [] (unknown t m) h = λ z. z
first-add_op (delete n) [] (retain m) h = λ z. z
first-add_op (delete n) [] (insert m) h = λ z. z
first-add_op (delete n) [] (delete m) h = λ z. z
first-add_op (delete n) [] (unknown t m) h = λ z. z
first-add_op (insert n) [] op h = absurd (h tt)
first-add_op (unknown t n) [] op h = λ z. z

join-IsSeparate : (last op : Op) → IsSeparate (join_ops last op)
unfolding join_ops
join-IsSeparate (retain n) (retain m) = tt
join-IsSeparate (retain n) (insert m) = (tt, tt)
join-IsSeparate (retain n) (delete m) = tt
join-IsSeparate (retain n) (unknown t m) = tt
join-IsSeparate (delete n) (retain m) = tt
join-IsSeparate (delete n) (insert m) = (tt, tt)
join-IsSeparate (delete n) (delete m) = tt
join-IsSeparate (delete n) (unknown t m) = tt
join-IsSeparate (insert n) (retain m) = (λ z. z, tt)
join-IsSeparate (insert n) (insert m) = (tt, tt)
join-IsSeparate (insert n) (delete m) = (λ z. z, tt)
join-IsSeparate (insert n) (unknown t m) = (λ z. z, tt)
join-IsSeparate (unknown t n) (retain m) = tt
join-IsSeparate (unknown t n) (insert m) = (tt, tt)
join-IsSeparate (unknown t n) (delete m) = tt
join-IsSeparate (unknown t n) (unknown u m) = tt

single-IsSeparate : (op : Op) → IsSeparate (op ∷ [])
single-IsSeparate (retain n) = tt
single-IsSeparate (insert s) = (tt, tt)
single-IsSeparate (delete n) = tt
single-IsSeparate (unknown t n) = tt

add_op_step :
    (o o' : Op) (ops : List Op) (op : Op) → add_op (o ∷ o' ∷ ops) op ≡ o ∷ add_op (o' ∷ ops) op
unfolding add_op
add_op_step o o' ops op = refl

add_op-IsSeparate : (out : List Op) (op : Op) → IsSeparate out → IsSeparate (add_op out op)
add_op-IsSeparate [] op h = unfold add_op in single-IsSeparate op
add_op-IsSeparate (last ∷ []) op h = unfold add_op in join-IsSeparate last op
add_op-IsSeparate (retain n ∷ o' ∷ ops) op h = rw add_op_step (add_op-IsSeparate (o' ∷ ops) op h)
add_op-IsSeparate (delete n ∷ o' ∷ ops) op h = rw add_op_step (add_op-IsSeparate (o' ∷ ops) op h)
add_op-IsSeparate (unknown t n ∷ o' ∷ ops) op h = rw add_op_step (add_op-IsSeparate (o' ∷ ops) op h)
add_op-IsSeparate (insert s ∷ o' ∷ ops) op h =
    rw add_op_step (first-add_op o' ops op h.0, add_op-IsSeparate (o' ∷ ops) op h.1)

pub pushed-IsSeparate : (out ops : List Op) → IsSeparate out → IsSeparate (push_all add_op out ops)
pushed-IsSeparate out [] h = unfold push_all in h
pushed-IsSeparate out (op ∷ ops) h =
    rw push_all_cons (pushed-IsSeparate (add_op out op) ops (add_op-IsSeparate out op h))

-- `addOp` keeps lengths positive, where an `int` holds the total.
join-All :
    (last op : Op)
    → IsPositive last
    → IsPositive op
    → IsShort (last ∷ op ∷ [])
    → All IsPositive (join_ops last op)
unfolding join_ops src_len dst_len
join-All (retain n) (retain m) p q h = (omega (arith, add64_lem n m), tt)
join-All (delete n) (delete m) p q h = (omega (arith, add64_lem n m), tt)
join-All (insert s) (insert t) p q h = (omega (arith, length-append s t), tt)
join-All (retain n) (insert m) p q h = (p, (q, tt))
join-All (retain n) (delete m) p q h = (p, (q, tt))
join-All (delete n) (retain m) p q h = (p, (q, tt))
join-All (delete n) (insert m) p q h = (p, (q, tt))
join-All (insert n) (retain m) p q h = (p, (q, tt))
join-All (insert n) (delete m) p q h = (p, (q, tt))
join-All (unknown t n) op p q h = absurd p
join-All last (unknown t n) p q h = absurd q

add_op-All :
    (out : List Op) (op : Op)
    → All IsPositive out
    → IsPositive op
    → IsInt (src_len out + src_len (op ∷ []))
    → IsInt (dst_len out + dst_len (op ∷ []))
    → All IsPositive (add_op out op)
add_op-All [] op p q h k = unfold add_op in (q, tt)
add_op-All (last ∷ []) op p q h k =
    let s = src_len-append (last ∷ []) (op ∷ []) in
    let d = dst_len-append (last ∷ []) (op ∷ []) in
    unfold add_op in join-All last op p.0 q (omega (arith, s), omega (arith, d))
add_op-All (o ∷ o' ∷ ops) op p q h k = rw add_op_step (
  p.0,
  add_op-All (o' ∷ ops) op p.1 q (omega (arith, src_len-append (o ∷ []) (o' ∷ ops)))
      (omega (arith, dst_len-append (o ∷ []) (o' ∷ ops))),
)

pub pushed-All :
    (out ops : List Op)
    → All IsPositive out
    → All IsPositive ops
    → IsInt (src_len out + src_len ops)
    → IsInt (dst_len out + dst_len ops)
    → All IsPositive (push_all add_op out ops)
pushed-All out [] p q h k = unfold push_all in p
pushed-All out (op ∷ ops) p q h k =
    let s = src_len-append (op ∷ []) ops in
    let d = dst_len-append (op ∷ []) ops in
    let one : Pushed out (op ∷ []) = pushed out (op ∷ []) (omega (arith, s)) in
    let es : src_len (add_op out op) ≡ src_len out + src_len (op ∷ []) =
      unfold push_all in one.src in
    let ed : dst_len (add_op out op) ≡ dst_len out + dst_len (op ∷ []) =
      unfold push_all in one.dst in
    rw push_all_cons (
      pushed-All (add_op out op) ops (add_op-All out op p q.0 (omega (arith, s)) (omega (arith, d)))
        q.1 (omega (arith, s, es)) (omega (arith, d, ed)))
