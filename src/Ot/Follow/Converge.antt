-- ===== src/Ot/Follow/Converge.antt =====
-- Convergence on lists of operations: A and then B rebased on it edit a text as B and then A
-- rebased on it do.
use ds_collaborative_editor.Base.{
  ℕ, zero, suc, ◌+◌, ◌≤◌, ◌<◌, List, [], ◌∷◌, ◌++◌, true, false, ◌≡◌, refl, sym, ap, subst, length,
  take, drop, All, arith, none, some, inl, inr, Bool-cases, ◌⊎◌, take-append, drop-append,
  length-drop, length-take, le-cases,
}
use ds_collaborative_editor.Base.Text.{Text, le_text, le_text_total, le_text_antisymm, le_text_refl}
use ds_collaborative_editor.Ot.Changeset.{Op, retain, insert, delete, unknown}
use ds_collaborative_editor.Ot.Cursor.{op_size, stop, go}
use ds_collaborative_editor.Ot.Follow.{follow_emit, follow_step}
use ds_collaborative_editor.Ot.Ops.{
  read_of, lens-advance, advance_insert, advance_zero-All, IsPositive, IsInsert, IsSeparate, first,
  src_len, edit, advance, advance_whole, advance_part, skip, edit-retain, edit-delete,
}
use ds_collaborative_editor.Ot.Loop.{
  cons?, emitted, emitted_go, emitted_stop, advance-All, Fits-shrinks, op_size-IsInt,
}
use ds_collaborative_editor.Ot.Follow.Rounds.{least, step_both, step_a, step_b, step_le, step_gt}

-- What `Follow` emits with a given fuel.
abbrev pub rebase : ℕ → List Op → List Op → List Op
rebase = emitted follow_step

-- The claim of this module, with a fuel for each of the two calls.
abbrev pub Meets : ℕ → ℕ → List Op → List Op → Text → Type 0
Meets f g a b t = edit (rebase f a b) (edit a t) ≡ edit (rebase g b a) (edit b t)

tail_of : (op : Op) (ops : List Op) → ¬ IsInsert op → IsSeparate (op ∷ ops) → IsSeparate ops
tail_of (retain n) ops h s = s
tail_of (insert t) ops h s = absurd (h tt)
tail_of (delete n) ops h s = s
tail_of (unknown t n) ops h s = s

skipped :
    (k : ℕ) (op : Op) (ops : List Op)
    → ¬ IsInsert op
    → IsSeparate (op ∷ ops)
    → IsSeparate (skip k op ∷ ops)
skipped k (retain n) ops h s = s
skipped k (insert t) ops h s = absurd (h tt)
skipped k (delete n) ops h s = s
skipped k (unknown t n) ops h s = s

advance-IsSeparate :
    (k : ℕ) (op : Op) (ops : List Op)
    → ¬ IsInsert op
    → 0 < k
    → k ≤ op_size op
    → IsSeparate (op ∷ ops)
    → IsSeparate (advance k (op ∷ ops))
advance-IsSeparate k op ops h q l s = elim (le-cases k (op_size op) l) [
  | inl e ↦ rw (e, advance_whole op ops) (tail_of op ops h s)
  | inr m ↦ rw (advance_part k op ops q m) (skipped k op ops h s)
]

edit_keep : (x r : Text) (ops : List Op) → edit (retain (length x) ∷ ops) (x ++ r) ≡ x ++ edit ops r
unfolding edit
edit_keep x r ops = rw (take-append, drop-append)

inserted :
    (y u : Text) (b : List Op) (t : Text) (c d : List Op)
    → edit c u ≡ edit d (edit b t)
    → edit (insert y ∷ c) u ≡ edit (retain (length y) ∷ d) (edit (insert y ∷ b) t)
unfolding edit
inserted y u b t c d h = rw (take-append, drop-append) (ap (λ r. y ++ r) h)

-- An insert of B that comes next on both sides.
insert_round :
    (f g : ℕ) (a b : List Op) (y t : Text)
    → follow_step (first a) (some (insert y)) ≡ go (some (insert y)) 0 (length y)
    → follow_step (some (insert y)) (first a) ≡ go (some (retain (length y))) (length y) 0
    → advance 0 a ≡ a
    → Meets f g a b t
    → Meets (suc f) (suc g) a (insert y ∷ b) t
insert_round f g a b y t e e' z h =
    rw
      (
        emitted_go follow_step f a (insert y ∷ b) _ _ _ e,
        emitted_go follow_step g (insert y ∷ b) a _ _ _ e',
        z,
        advance_insert y b,
      )
      (inserted y (edit a t) b t _ _ h)

edit_prefix :
    (k : ℕ) (t r : Text) (ops : List Op)
    → k ≤ length t
    → (edit (retain k ∷ ops) (take k t ++ r) ≡ take k t ++ edit ops r)
      × (edit (delete k ∷ ops) (take k t ++ r) ≡ edit ops r)
edit_prefix k t r ops h =
    let e : length (take k t) ≡ k = omega (arith, length-take k t) in
    (
      rw e at (edit_keep (take k t) r ops),
      (unfold edit in rw e at (ap (edit ops) (drop-append (take k t) r))),
    )

-- Both sides go on to the end of the shorter of two operations that are no inserts.
both_edit :
    (k : ℕ) (o p : Op) (a b c d : List Op) (t : Text)
    → ¬ IsInsert o
    → ¬ IsInsert p
    → IsPositive o
    → IsPositive p
    → 0 < k
    → k ≤ op_size o
    → k ≤ op_size p
    → k ≤ length t
    → edit c (edit (advance k (o ∷ a)) (drop k t)) ≡ edit d (edit (advance k (p ∷ b)) (drop k t))
    → edit (cons? (follow_emit o p k) c) (edit (o ∷ a) t)
      ≡ edit (cons? (follow_emit p o k) d) (edit (p ∷ b) t)
unfolding follow_emit op_size
both_edit k (insert s) p a b c d t h h' po pp q l l' lt m = absurd (h tt)
both_edit k (unknown u n) p a b c d t h h' po pp q l l' lt m = absurd po
both_edit k o (insert s) a b c d t h h' po pp q l l' lt m = absurd (h' tt)
both_edit k o (unknown u n) a b c d t h h' po pp q l l' lt m = absurd pp
both_edit k (retain i) (retain j) a b c d t h h' po pp q l l' lt m =
    rw
      (
        edit-retain i k a t q l,
        edit-retain j k b t q l',
        (edit_prefix k t _ c lt).0,
        (edit_prefix k t _ d lt).0,
      )
      (ap (λ r. take k t ++ r) m)
both_edit k (retain i) (delete j) a b c d t h h' po pp q l l' lt m =
    rw (edit-retain i k a t q l, edit-delete j k b t q l', (edit_prefix k t _ c lt).1) m
both_edit k (delete i) (retain j) a b c d t h h' po pp q l l' lt m =
    rw (edit-delete i k a t q l, edit-retain j k b t q l', (edit_prefix k t _ d lt).1) m
both_edit k (delete i) (delete j) a b c d t h h' po pp q l l' lt m =
    rw (edit-delete i k a t q l, edit-delete j k b t q l') m

both_round :
    (f g : ℕ) (o p : Op) (a b : List Op) (t : Text)
    → ¬ IsInsert o
    → ¬ IsInsert p
    → IsPositive o
    → IsPositive p
    → least o p ≤ length t
    → Meets f g (advance (least o p) (o ∷ a)) (advance (least o p) (p ∷ b)) (drop (least o p) t)
    → Meets (suc f) (suc g) (o ∷ a) (p ∷ b) t
both_round f g o p a b t h k po pp l m =
    let n = least o p in
    let so = op_size-IsInt o po in
    let sp = op_size-IsInt p pp in
    let swapped : least p o ≡ n = omega arith in
    let there : follow_step (some p) (some o) ≡ go (follow_emit p o n) n n =
      rw swapped at (step_both p o k h pp po) in
    rw
      (
        emitted_go follow_step f (o ∷ a) (p ∷ b) _ _ _ (step_both o p h k po pp),
        emitted_go follow_step g (p ∷ b) (o ∷ a) _ _ _ there,
      )
      (both_edit n o p a b _ _ t h k po pp (omega arith) (omega arith) (omega arith) l m)

-- Operations that `Validate` lets through, that read a text to its end, with no two inserts side
-- by side.
abbrev pub IsReady : List Op → Text → Type 0
IsReady a t = All IsPositive a × IsSeparate a × (src_len a ≡ length t)

pub read_all : (op : Op) (k : ℕ) → IsPositive op → ¬ IsInsert op → read_of op k ≡ k
read_all (retain n) k p h = refl
read_all (insert s) k p h = absurd (h tt)
read_all (delete n) k p h = refl
read_all (unknown t n) k p h = absurd p

advance-IsReady :
    (k : ℕ) (op : Op) (ops : List Op) (t : Text)
    → ¬ IsInsert op
    → 0 < k
    → k ≤ op_size op
    → IsReady (op ∷ ops) t
    → IsReady (advance k (op ∷ ops)) (drop k t)
advance-IsReady k op ops t h q l (p, s, e) =
    let r : read_of op k ≡ k = read_all op k p.0 h in
    (
      advance-All k (op ∷ ops) l p,
      advance-IsSeparate k op ops h q l s,
      omega (arith, r, (lens-advance k op ops q l).0, length-drop k t),
    )

insert-IsReady : (s : Text) (a : List Op) (t : Text) → IsReady (insert s ∷ a) t → IsReady a t
insert-IsReady s a t (p, sep, e) = (p.1, sep.1, unfold src_len in e)

twice :
    (x : Text) (a b c d : List Op) (t : Text)
    → edit c (edit a t) ≡ edit d (edit b t)
    → edit (retain (length x) ∷ insert x ∷ c) (edit (insert x ∷ a) t)
      ≡ edit (retain (length x) ∷ insert x ∷ d) (edit (insert x ∷ b) t)
unfolding edit
twice x a b c d t h = simp (take-append, drop-append) (ap (λ r. x ++ (x ++ r)) h)

-- Two equal inserts: either order writes the text twice.
tie_round :
    (f g : ℕ) (x : Text) (a b : List Op) (t : Text)
    → le_text x x ≡ true
    → IsReady (insert x ∷ a) t
    → IsReady (insert x ∷ b) t
    → Meets f g a b t
    → Meets (suc (suc f)) (suc (suc g)) (insert x ∷ a) (insert x ∷ b) t
tie_round f g x a b t le (pa, sa, _) (pb, sb, _) m =
    rw
      (
        emitted_go follow_step (suc f) (insert x ∷ a) (insert x ∷ b) _ _ _ (step_le x x le),
        emitted_go follow_step (suc g) (insert x ∷ b) (insert x ∷ a) _ _ _ (step_le x x le),
        advance_zero-All (insert x ∷ a) pa,
        advance_zero-All (insert x ∷ b) pb,
        advance_insert x a,
        advance_insert x b,
        emitted_go follow_step f a (insert x ∷ b) _ _ _ (step_b (first a) x sa.0),
        emitted_go follow_step g b (insert x ∷ a) _ _ _ (step_b (first b) x sb.0),
        advance_insert x a,
        advance_insert x b,
        advance_zero-All a pa.1,
        advance_zero-All b pb.1,
      )
      (twice x a b _ _ t m)

abbrev pub MeetsBelow : ℕ → Type 0
MeetsBelow n =
    (f g : ℕ) (a b : List Op) (t : Text)
    → IsReady a t
    → IsReady b t
    → length a + length b < n
    → length a + length b < f
    → length a + length b < g
    → Meets f g a b t

module _ (n : ℕ) (below : MeetsBelow n) where
  -- An insert of B beside an operation or end of A that lets it go first.
  Meets-insert :
      (f g : ℕ) (a b : List Op) (y t : Text)
      → IsReady a t
      → IsReady (insert y ∷ b) t
      → follow_step (first a) (some (insert y)) ≡ go (some (insert y)) 0 (length y)
      → follow_step (some (insert y)) (first a) ≡ go (some (retain (length y))) (length y) 0
      → length a + suc (length b) < suc n
      → length a + suc (length b) < suc f
      → length a + suc (length b) < suc g
      → Meets (suc f) (suc g) a (insert y ∷ b) t
  Meets-insert f g a b y t ra rb e e' hn hf hg =
      insert_round f g a b y t e e' (advance_zero-All a ra.0)
        (below f g a b t ra (insert-IsReady y b t rb) (omega arith) (omega arith) (omega arith))

  Meets-both :
      (f g : ℕ) (o p : Op) (a b : List Op) (t : Text)
      → ¬ IsInsert o
      → ¬ IsInsert p
      → IsReady (o ∷ a) t
      → IsReady (p ∷ b) t
      → suc (length a) + suc (length b) < suc n
      → suc (length a) + suc (length b) < suc f
      → suc (length a) + suc (length b) < suc g
      → Meets (suc f) (suc g) (o ∷ a) (p ∷ b) t
  Meets-both f g o p a b t h k ra rb hn hf hg =
      let so = op_size-IsInt o ra.0.0 in
      let sp = op_size-IsInt p rb.0.0 in
      let fewer =
        Fits-shrinks (least o p) (least o p) none (o ∷ a) (p ∷ b)
          (omega arith, omega arith, omega arith) in
      both_round f g o p a b t h k ra.0.0 rb.0.0
        (omega (
          arith,
          (lens-advance (op_size o) o a so.0 (omega arith)).0,
          read_all o (op_size o) ra.0.0 h,
          ra.2,
        ))
        (below f g _ _ _ (advance-IsReady (least o p) o a t h (omega arith) (omega arith) ra)
          (advance-IsReady (least o p) p b t k (omega arith) (omega arith) rb)
          (omega (arith, fewer)) (omega (arith, fewer)) (omega (arith, fewer)))

  Meets-inserts :
      (f g : ℕ) (x y : Text) (a b : List Op) (t : Text)
      → IsReady (insert x ∷ a) t
      → IsReady (insert y ∷ b) t
      → suc (length a) + suc (length b) < suc n
      → suc (length a) + suc (length b) < suc (suc f)
      → suc (length a) + suc (length b) < suc (suc g)
      → (le_text x y ≡ true) ⊎ (le_text x y ≡ false)
      → (le_text y x ≡ true) ⊎ (le_text y x ≡ false)
      → Meets (suc (suc f)) (suc (suc g)) (insert x ∷ a) (insert y ∷ b) t
  Meets-inserts f g x y a b t ra rb hn hf hg (inr e) (inr e') = cc (le_text_total x y e)
  Meets-inserts f g x y a b t ra rb hn hf hg (inr e) (inl e') =
      Meets-insert (suc f) (suc g) (insert x ∷ a) b y t ra rb (step_gt x y e) (step_le y x e') hn hf
        hg
  Meets-inserts f g x y a b t ra rb hn hf hg (inl e) (inr e') = sym (
      Meets-insert (suc g) (suc f) (insert y ∷ b) a x t rb ra (step_gt y x e') (step_le x y e)
        (omega arith) (omega arith) (omega arith))
  Meets-inserts f g x y a b t ra rb hn hf hg (inl e) (inl e') =
      subst
        (λ z.
          IsReady (insert z ∷ b) t
          → Meets (suc (suc f)) (suc (suc g)) (insert x ∷ a) (insert z ∷ b) t)
        (le_text_antisymm x y e e')
        (λ rb'. tie_round f g x a b t (le_text_refl x) ra rb' (
          below f g a b t (insert-IsReady x a t ra) (insert-IsReady x b t rb') (omega arith)
            (omega arith) (omega arith)))
        rb

-- The claim, for enough fuel on both sides.
pub meets : (n : ℕ) → MeetsBelow n
meets zero f g a b t ra rb hn hf hg = absurd (omega arith)
meets (suc n) zero g a b t ra rb hn hf hg = absurd (omega arith)
meets (suc n) (suc f) zero a b t ra rb hn hf hg = absurd (omega arith)
meets (suc n) (suc f) (suc g) [] [] t ra rb hn hf hg =
    rw (emitted_stop follow_step f [] [] ended, emitted_stop follow_step g [] [] ended)
  where
    ended : follow_step none none ≡ stop
    ended = unfold follow_step in refl
meets (suc n) (suc f) (suc g) [] (insert y ∷ b) t ra rb hn hf hg =
    Meets-insert n (meets n) f g [] b y t ra rb (step_b none y tt) (step_a y none tt) hn hf hg
meets (suc n) (suc f) (suc g) (retain i ∷ a) (insert y ∷ b) t ra rb hn hf hg =
    Meets-insert n (meets n) f g (retain i ∷ a) b y t ra rb (step_b (some (retain i)) y (λ z. z))
      (step_a y (some (retain i)) (λ z. z)) hn hf hg
meets (suc n) (suc f) (suc g) (delete i ∷ a) (insert y ∷ b) t ra rb hn hf hg =
    Meets-insert n (meets n) f g (delete i ∷ a) b y t ra rb (step_b (some (delete i)) y (λ z. z))
      (step_a y (some (delete i)) (λ z. z)) hn hf hg
meets (suc n) (suc f) (suc g) (insert x ∷ a) [] t ra rb hn hf hg = sym (
    Meets-insert n (meets n) g f [] a x t rb ra (step_b none x tt) (step_a x none tt) (omega arith)
      (omega arith) (omega arith))
meets (suc n) (suc f) (suc g) (insert x ∷ a) (retain i ∷ b) t ra rb hn hf hg = sym (
    Meets-insert n (meets n) g f (retain i ∷ b) a x t rb ra (step_b (some (retain i)) x (λ z. z))
      (step_a x (some (retain i)) (λ z. z)) (omega arith) (omega arith) (omega arith))
meets (suc n) (suc f) (suc g) (insert x ∷ a) (delete i ∷ b) t ra rb hn hf hg = sym (
    Meets-insert n (meets n) g f (delete i ∷ b) a x t rb ra (step_b (some (delete i)) x (λ z. z))
      (step_a x (some (delete i)) (λ z. z)) (omega arith) (omega arith) (omega arith))
meets (suc n) (suc (suc f)) (suc (suc g)) (insert x ∷ a) (insert y ∷ b) t ra rb hn hf hg =
    Meets-inserts n (meets n) f g x y a b t ra rb hn hf hg (Bool-cases (le_text x y))
      (Bool-cases (le_text y x))
meets (suc n) (suc zero) (suc g) (insert x ∷ a) (insert y ∷ b) t ra rb hn hf hg =
    absurd (omega arith)
meets (suc n) (suc (suc f)) (suc zero) (insert x ∷ a) (insert y ∷ b) t ra rb hn hf hg =
    absurd (omega arith)
meets (suc n) (suc f) (suc g) (retain i ∷ a) (retain j ∷ b) t ra rb hn hf hg =
    Meets-both n (meets n) f g (retain i) (retain j) a b t (λ z. z) (λ z. z) ra rb hn hf hg
meets (suc n) (suc f) (suc g) (retain i ∷ a) (delete j ∷ b) t ra rb hn hf hg =
    Meets-both n (meets n) f g (retain i) (delete j) a b t (λ z. z) (λ z. z) ra rb hn hf hg
meets (suc n) (suc f) (suc g) (delete i ∷ a) (retain j ∷ b) t ra rb hn hf hg =
    Meets-both n (meets n) f g (delete i) (retain j) a b t (λ z. z) (λ z. z) ra rb hn hf hg
meets (suc n) (suc f) (suc g) (delete i ∷ a) (delete j ∷ b) t ra rb hn hf hg =
    Meets-both n (meets n) f g (delete i) (delete j) a b t (λ z. z) (λ z. z) ra rb hn hf hg
meets (suc n) (suc f) (suc g) [] (retain j ∷ b) t (_, _, e) ((p, _), _, e') hn hf hg =
    absurd (unfold src_len in omega arith)
meets (suc n) (suc f) (suc g) [] (delete j ∷ b) t (_, _, e) ((p, _), _, e') hn hf hg =
    absurd (unfold src_len in omega arith)
meets (suc n) (suc f) (suc g) (retain j ∷ b) [] t ((p, _), _, e') (_, _, e) hn hf hg =
    absurd (unfold src_len in omega arith)
meets (suc n) (suc f) (suc g) (delete j ∷ b) [] t ((p, _), _, e') (_, _, e) hn hf hg =
    absurd (unfold src_len in omega arith)
meets (suc n) (suc f) (suc g) (unknown u j ∷ a) b t ra rb hn hf hg = absurd ra.0.0
meets (suc n) (suc f) (suc g) a (unknown u j ∷ b) t ra rb hn hf hg = absurd rb.0.0
