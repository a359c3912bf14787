-- ===== src/Ot/Loop.antt =====
-- The loops over two cursors, seen as a recursion on two lists of operations with no offsets.
use ds_collaborative_editor.Base.{
  ℕ, ◌+◌, ◌-◌, ◌≤◌, ◌<◌, List, [], ◌∷◌, true, ◌≡◌, refl, sym, ap, ◌∙◌, length, All, arith, zero,
  suc, Option, none, some, ◌⊎◌, inl, inr, le-cases, drop-add, length-drop, lt→ltb,
}
use ds_collaborative_editor.Base.Int.{
  IsInt, sub64, lt_int, le_int, add64_lem, sub64_lem, lt_int_lem, le_int_lem,
}
use ds_collaborative_editor.Ot.Changeset.{Op, retain, insert, delete, unknown}
use ds_collaborative_editor.Ot.Cursor.{
  op_size, OpSlice, peek_op, peek_rest, peek, consume_rest, consume, emit, loop, Move, stop, crash,
  go, done,
}
use ds_collaborative_editor.Ot.Ops.{
  IsPositive, skip, advance, advance_zero, advance_whole, advance_part, first,
}

-- A cursor inside its current operation, over operations that `Validate` lets through.
abbrev pub IsFresh : List Op → ℕ → Type 0
IsFresh [] off = Unit
IsFresh (op ∷ rest) off = (off < op_size op) × IsPositive op × All IsPositive rest

-- The operations that are left behind a cursor.
abbrev pub view : List Op → ℕ → List Op
view [] off = []
view (op ∷ rest) off = skip off op ∷ rest

pub op_size-IsInt : (op : Op) → IsPositive op → (0 < op_size op) × IsInt (op_size op)
unfolding op_size
op_size-IsInt (retain n) h = h
op_size-IsInt (insert s) h = h
op_size-IsInt (delete n) h = h
op_size-IsInt (unknown t n) h = absurd h

peek_op-skip : (off : ℕ) (op : Op) → IsPositive op → off < op_size op → peek_op off op ≡ skip off op
unfolding op_size peek_op
peek_op-skip off (retain n) h l = ap retain (sub64_lem n off (omega arith) (omega arith))
peek_op-skip off (insert s) h l = refl
peek_op-skip off (delete n) h l = ap delete (sub64_lem n off (omega arith) (omega arith))
peek_op-skip off (unknown t n) h l = absurd h

peek_view :
    (rest : List Op) (off : ℕ) → IsFresh rest off → peek_rest rest off ≡ first (view rest off)
unfolding peek_rest
peek_view [] off h = refl
peek_view (op ∷ rest) off h = ap some (peek_op-skip off op h.1 h.0)

pub op_size-skip : (off : ℕ) (op : Op) → op_size (skip off op) ≡ op_size op - off
unfolding op_size
op_size-skip off (retain n) = refl
op_size-skip off (insert s) = length-drop off s
op_size-skip off (delete n) = refl
op_size-skip off (unknown t n) = refl

pub skip-IsPositive :
    (off : ℕ) (op : Op) → IsPositive op → off < op_size op → IsPositive (skip off op)
unfolding op_size
skip-IsPositive off (retain n) h l = omega arith
skip-IsPositive off (insert s) h l = omega (arith, length-drop off s)
skip-IsPositive off (delete n) h l = omega arith
skip-IsPositive off (unknown t n) h l = absurd h

skip_zero : (op : Op) → skip 0 op ≡ op
skip_zero (retain n) = ap retain (omega arith)
skip_zero (insert s) = refl
skip_zero (delete n) = ap delete (omega arith)
skip_zero (unknown t n) = ap (unknown t) (omega arith)

skip-skip : (n off : ℕ) (op : Op) → skip n (skip off op) ≡ skip (off + n) op
skip-skip n off (retain k) = ap retain (omega arith)
skip-skip n off (insert s) = ap insert (sym (drop-add off n s))
skip-skip n off (delete k) = ap delete (omega arith)
skip-skip n off (unknown t k) = ap (unknown t) (omega arith)

pub view_start : (ops : List Op) → view ops 0 ≡ ops
view_start [] = refl
view_start (op ∷ ops) = ap (λ o. o ∷ ops) (skip_zero op)

pub start-IsFresh : (ops : List Op) → All IsPositive ops → IsFresh ops 0
start-IsFresh [] h = tt
start-IsFresh (op ∷ ops) h = ((op_size-IsInt op h.0).0, h.0, h.1)

consume_none :
    (off : ℕ) (rest : List Op) → consume_rest 0 off rest ≡ record { rest = rest; off = off }
unfolding consume_rest
consume_none off [] = refl
consume_none off (op ∷ rest) = rw (lt_int_lem 0 0 (omega arith) (omega arith))

consume_step :
    (n off : ℕ) (op : Op) (rest : List Op)
    → lt_int 0 n ≡ true
    → le_int (sub64 (op_size op) off) n ≡ true
    → consume_rest n off (op ∷ rest) ≡ consume_rest (sub64 n (sub64 (op_size op) off)) 0 rest
unfolding consume_rest
consume_step n off op rest p q = rw (p, q)

consume_whole :
    (off : ℕ) (op : Op) (rest : List Op)
    → IsFresh (op ∷ rest) off
    → consume_rest (op_size op - off) off (op ∷ rest) ≡ record { rest = rest; off = 0 }
consume_whole off op rest h =
    let (p, q) = op_size-IsInt op h.1 in
    let n = op_size op - off in
    let rem : sub64 (op_size op) off ≡ n = sub64_lem _ off (omega arith) (omega arith) in
    let left : sub64 n (sub64 (op_size op) off) ≡ 0 =
      ap (sub64 n) rem ∙ (sub64_lem n n (omega arith) (omega arith) ∙ (omega arith)) in
    let more : lt_int 0 n ≡ true =
      lt_int_lem 0 n (omega arith) (omega arith) ∙ lt→ltb 0 n (omega arith) in
    let ends : le_int (sub64 (op_size op) off) n ≡ true =
      rw rem (le_int_lem n n (omega arith) (omega arith) ∙ (ground arith)) in
    consume_step n off op rest more ends ∙ (rw left (consume_none 0 rest))

consume_part :
    (n off : ℕ) (op : Op) (rest : List Op)
    → IsFresh (op ∷ rest) off
    → 0 < n
    → n < op_size op - off
    → consume_rest n off (op ∷ rest) ≡ record { rest = op ∷ rest; off = off + n }
unfolding consume_rest
consume_part n off op rest h p l =
    let (_, q) = op_size-IsInt op h.1 in
    ground (
      arith,
      sub64_lem (op_size op) off,
      lt_int_lem 0 n,
      le_int_lem (op_size op - off) n,
      add64_lem off n,
    )

abbrev pub size? : Option Op → ℕ
size? none = 0
size? (some op) = op_size op

-- The cursor stands where `advance` by `n` leads.
abbrev Lands : ℕ → List Op → OpSlice → Type 0
Lands n ops s = (view s.rest s.off ≡ advance n ops) × IsFresh s.rest s.off

Lands-consume :
    (n off : ℕ) (op : Op) (rest : List Op)
    → IsFresh (op ∷ rest) off
    → n ≤ op_size op - off
    → (n ≡ 0) ⊎ (0 < n)
    → (n ≡ op_size op - off) ⊎ (n < op_size op - off)
    → Lands n (skip off op ∷ rest) (consume_rest n off (op ∷ rest))
Lands-consume n off op rest h l (inl z) _ =
    rw (z, consume_none off (op ∷ rest))
      (sym (advance_zero (skip off op) rest (skip-IsPositive off op h.1 h.0)), h)
Lands-consume n off op rest h l (inr p) (inl e) =
    rw (e, consume_whole off op rest h)
      (
        rw (view_start rest, ← op_size-skip off op) (sym (advance_whole (skip off op) rest)),
        start-IsFresh rest h.2,
      )
Lands-consume n off op rest h l (inr p) (inr q) = rw (consume_part n off op rest h p q) (
  sym (
      advance_part n (skip off op) rest p (rw (op_size-skip off op) q)
      ∙ ap (λ o. o ∷ rest) (skip-skip n off op)),
  (omega arith, h.1, h.2),
)

pub zero-or-pos : (n : ℕ) → (n ≡ 0) ⊎ (0 < n)
zero-or-pos zero = inl refl
zero-or-pos (suc n) = inr (omega arith)

-- `consume` of at most the current operation is `advance` of what is left.
pub view-consume :
    (n off : ℕ) (rest : List Op)
    → IsFresh rest off
    → n ≤ size? (first (view rest off))
    → Lands n (view rest off) (consume_rest n off rest)
view-consume n off [] h l = unfold consume_rest advance in (refl, tt)
view-consume n off (op ∷ rest) h l =
    let l' : n ≤ op_size op - off = rw (← op_size-skip off op) l in
    Lands-consume n off op rest h l' (zero-or-pos n) (le-cases n (op_size op - off) l')

-- The recursion on lists of operations that a loop amounts to: what it hands to `addOp`, in order.
abbrev pub cons? : Option Op → List Op → List Op
cons? none ops = ops
cons? (some op) ops = op ∷ ops

unfoldable pub emitted : (Option Op → Option Op → Move) → ℕ → List Op → List Op → List Op
emitted step zero a b = []
emitted step (suc fuel) a b = elim (step (first a) (first b)) [
  | stop ↦ []
  | crash ↦ []
  | go op n m ↦ cons? op (emitted step fuel (advance n a) (advance m b))
]

module _ (step : Option Op → Option Op → Move) (fuel : ℕ) (a b : List Op) where
  pub emitted_go :
      (op : Option Op) (n m : ℕ)
      → step (first a) (first b) ≡ go op n m
      → emitted step (suc fuel) a b ≡ cons? op (emitted step fuel (advance n a) (advance m b))
  emitted_go op n m e = unfold emitted in rw (e, emitted)

  pub emitted_stop : step (first a) (first b) ≡ stop → emitted step (suc fuel) a b ≡ []
  emitted_stop e = unfold emitted in rw (e, emitted)

-- A round consumes no more than the current operations, and the whole of one of them.
abbrev pub Fits : Option Op → Option Op → Move → Type 0
Fits a b stop = Unit
Fits a b crash = ⊥
Fits a b (go op n m) =
    (n ≤ size? a) × (m ≤ size? b) × (((n ≡ size? a) × (0 < n)) ⊎ ((m ≡ size? b) × (0 < m)))

abbrev pub IsPositive? : Option Op → Type 0
IsPositive? none = Unit
IsPositive? (some op) = IsPositive op

abbrev pub Progresses : (Option Op → Option Op → Move) → Type 0
Progresses step = (a b : Option Op) → IsPositive? a → IsPositive? b → Fits a b (step a b)

advance-All_cons :
    (n : ℕ) (op : Op) (ops : List Op)
    → IsPositive op
    → All IsPositive ops
    → (n ≡ 0) ⊎ (0 < n)
    → (n ≡ op_size op) ⊎ (n < op_size op)
    → All IsPositive (advance n (op ∷ ops))
advance-All_cons n op ops h hs (inl z) _ = rw (z, advance_zero op ops h) (h, hs)
advance-All_cons n op ops h hs (inr p) (inl e) = rw (e, advance_whole op ops) hs
advance-All_cons n op ops h hs (inr p) (inr l) =
    rw (advance_part n op ops p l) (skip-IsPositive n op h l, hs)

pub advance-All :
    (n : ℕ) (ops : List Op)
    → n ≤ size? (first ops)
    → All IsPositive ops
    → All IsPositive (advance n ops)
advance-All n [] l h = unfold advance in tt
advance-All n (op ∷ ops) l h =
    advance-All_cons n op ops h.0 h.1 (zero-or-pos n) (le-cases n (op_size op) l)

pub length-advance : (n : ℕ) (ops : List Op) → length (advance n ops) ≤ length ops
unfolding advance
length-advance n [] = omega arith
length-advance n (op ∷ ops) = ground arith

pub length-advance_whole :
    (n : ℕ) (ops : List Op) → n ≡ size? (first ops) → 0 < n → length (advance n ops) < length ops
unfolding advance
length-advance_whole n [] e p = absurd (omega arith)
length-advance_whole n (op ∷ ops) e p = ground arith

view-All : (rest : List Op) (off : ℕ) → IsFresh rest off → All IsPositive (view rest off)
view-All [] off h = tt
view-All (op ∷ rest) off h = (skip-IsPositive off op h.1 h.0, h.2)

first-IsPositive : (ops : List Op) → All IsPositive ops → IsPositive? (first ops)
first-IsPositive [] h = tt
first-IsPositive (op ∷ ops) h = h.0

length-view : (rest : List Op) (off : ℕ) → length (view rest off) ≡ length rest
length-view [] off = refl
length-view (op ∷ rest) off = refl

-- A round leaves fewer operations.
pub Fits-shrinks :
    (n m : ℕ) (op : Option Op) (a b : List Op)
    → Fits (first a) (first b) (go op n m)
    → length (advance n a) + length (advance m b) < length a + length b
Fits-shrinks n m op a b (_, _, inl (e, p)) =
    omega (arith, length-advance_whole n a e p, length-advance m b)
Fits-shrinks n m op a b (_, _, inr (e, p)) =
    omega (arith, length-advance_whole m b e p, length-advance n a)

consume_lem : (s : OpSlice) (n : ℕ) → consume s n ≡ consume_rest n s.off s.rest
unfolding consume
consume_lem s n = refl

module _ {ℓ} {R : Type ℓ} (push : R → Op → R) where
  -- `addOp` for each operation in turn.
  unfoldable pub push_all : R → List Op → R
  push_all r [] = r
  push_all r (op ∷ ops) = push_all (push r op) ops

  push_all-cons? :
      (r : R) (op : Option Op) (ops : List Op)
      → push_all r (cons? op ops) ≡ push_all (emit push r op) ops
  unfolding push_all emit
  push_all-cons? r none ops = refl
  push_all-cons? r (some op) ops = refl

module _ {ℓ} {R : Type ℓ} (push : R → Op → R) (step : Option Op → Option Op → Move)
    (progress : Progresses step) where
  loop_go :
      (fuel : ℕ) (a b : OpSlice) (r : R) (op : Option Op) (n m : ℕ)
      → step (peek a) (peek b) ≡ go op n m
      → loop push step (suc fuel) a b r
        ≡ loop push step fuel (consume a n) (consume b m) (emit push r op)
  loop_go fuel a b r op n m e = unfold loop in rw (e, loop)

  loop_stop :
      (fuel : ℕ) (a b : OpSlice) (r : R)
      → step (peek a) (peek b) ≡ stop
      → loop push step (suc fuel) a b r ≡ done r
  loop_stop fuel a b r e = unfold loop in rw (e, loop)

  after :
      (fuel : ℕ) (a b : OpSlice) (r : R) (move : Move)
      → Fits (first (view a.rest a.off)) (first (view b.rest b.off)) move
      → ((op : Option Op) (n m : ℕ)
          → Fits (first (view a.rest a.off)) (first (view b.rest b.off)) (go op n m)
          → loop push step fuel (consume a n) (consume b m) (emit push r op)
            ≡ done (
                push_all push (emit push r op) (
                  emitted step fuel
                    (advance n (view a.rest a.off))
                    (advance m (view b.rest b.off)))))
      → step (peek a) (peek b) ≡ move
      → step (first (view a.rest a.off)) (first (view b.rest b.off)) ≡ move
      → loop push step (suc fuel) a b r
        ≡ done (push_all push r (emitted step (suc fuel) (view a.rest a.off) (view b.rest b.off)))
  after fuel a b r stop h next e e' =
      rw (loop_stop fuel a b r e, emitted_stop step fuel _ _ e') (unfold push_all in refl)
  after fuel a b r crash h next e e' = absurd h
  after fuel a b r (go op n m) h next e e' =
      rw (loop_go fuel a b r op n m e, emitted_go step fuel _ _ op n m e')
        (next op n m h ∙ ap done (sym (push_all-cons? push r op _)))

  -- A loop whose rounds progress ends within its fuel, and hands `addOp` what `emitted` lists.
  pub loop-emitted :
      (fuel : ℕ) (a b : OpSlice) (r : R)
      → IsFresh a.rest a.off
      → IsFresh b.rest b.off
      → length a.rest + length b.rest < fuel
      → loop push step fuel a b r
        ≡ done (push_all push r (emitted step fuel (view a.rest a.off) (view b.rest b.off)))
  loop-emitted zero a b r fa fb l = absurd (omega arith)
  loop-emitted (suc fuel) a b r fa fb l =
      let va = view a.rest a.off in
      let vb = view b.rest b.off in
      let same : step (peek a) (peek b) ≡ step (first va) (first vb) =
        unfold peek in rw (peek_view a.rest a.off fa, peek_view b.rest b.off fb) in
      let ok : Fits (first va) (first vb) (step (first va) (first vb)) =
        progress (first va) (first vb) (first-IsPositive va (view-All a.rest a.off fa))
          (first-IsPositive vb (view-All b.rest b.off fb)) in
      after fuel a b r (step (first va) (first vb)) ok
        (λ op n m fit.
          let (ea, fa') = view-consume n a.off a.rest fa fit.0 in
          let (eb, fb') = view-consume m b.off b.rest fb fit.1 in
          let fewer = Fits-shrinks n m op va vb fit in
          let ih =
            loop-emitted fuel (consume_rest n a.off a.rest) (consume_rest m b.off b.rest)
              (emit push r op) fa' fb'
              (omega (
                arith,
                fewer,
                length-view a.rest a.off,
                length-view b.rest b.off,
                ap (length {A = Op}) ea,
                ap (length {A = Op}) eb,
                length-view (consume_rest n a.off a.rest).rest (consume_rest n a.off a.rest).off,
                length-view (consume_rest m b.off b.rest).rest (consume_rest m b.off b.rest).off,
              )) in
          rw (consume_lem a n, consume_lem b m, ← ea, ← eb) ih)
        same refl
