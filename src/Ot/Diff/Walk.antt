-- ===== src/Ot/Diff/Walk.antt =====
-- The walk back through the table visits both texts from their ends to their starts.
use ds_collaborative_editor.Base.{
  ℕ, zero, suc, ◌+◌, ◌≤◌, ◌<◌, List, [], ◌∷◌, ◌++◌, map, length, take, get_elem?, Bool-cases,
  Option, some, leb, ◌==◌, ◌&&◌, if_true, if_false, if_both, ◌≡◌, refl, sym, ap, subst, ◌∙◌, inl,
  inr, arith,
}
use ds_collaborative_editor.Ot.Diff.{
  row_from, next_row, rows_from, table, Seg, keep, add, drop_rune, at, prefers_insert, Back,
  step_insert, step_delete, step_table, step_both, step_back, walk,
}

-- The runes that the segments read and write.
abbrev pub olds : List Seg → List ℕ
olds [] = []
olds (keep r ∷ segs) = r ∷ olds segs
olds (add r ∷ segs) = olds segs
olds (drop_rune r ∷ segs) = r ∷ olds segs

abbrev pub news : List Seg → List ℕ
news [] = []
news (keep r ∷ segs) = r ∷ news segs
news (add r ∷ segs) = r ∷ news segs
news (drop_rune r ∷ segs) = news segs

found {ℓ} : {A : Type ℓ} (xs : List A) (i : ℕ) → i < length xs → (x : A) × (get_elem? xs i ≡ some x)
found [] i h = absurd (omega arith)
found (x ∷ xs) zero h = (x, refl)
found (x ∷ xs) (suc i) h = found xs i (omega arith)

take-suc {ℓ} :
    {A : Type ℓ} (xs : List A) (i : ℕ) (x : A)
    → get_elem? xs i ≡ some x
    → (ys : List A) → take (suc i) xs ++ ys ≡ take i xs ++ (x ∷ ys)
take-suc [] i x h ys = cc
take-suc (z ∷ xs) zero x h ys = cc
take-suc (z ∷ xs) (suc i) x h ys = ap (λ r. z ∷ r) (take-suc xs i x h ys)

length-row_from :
    (o : ℕ) (nw : List ℕ) (diag : ℕ) (ups : List ℕ) (left : ℕ)
    → length ups ≡ length nw
    → length (row_from o nw diag ups left) ≡ length nw
unfolding row_from
length-row_from o [] diag ups left h = refl
length-row_from o (c ∷ cs) diag [] left h = omega arith
length-row_from o (c ∷ cs) diag (up ∷ ups) left h =
    ap suc (length-row_from o cs up ups _ (omega arith))

length-next_row :
    (o : ℕ) (nw row : List ℕ)
    → length row ≡ suc (length nw)
    → length (next_row o nw row) ≡ suc (length nw)
unfolding next_row
length-next_row o nw [] h = omega arith
length-next_row o nw (diag ∷ ups) h = ap suc (length-row_from o nw diag ups 0 (omega arith))

row_at :
    (old nw row : List ℕ) (i : ℕ)
    → length row ≡ suc (length nw)
    → i ≤ length old
    → (r : List ℕ) × (get_elem? (rows_from old nw row) i ≡ some r) × (length r ≡ suc (length nw))
unfolding rows_from
row_at [] nw row zero h k = (row, refl, h)
row_at [] nw row (suc i) h k = absurd (omega arith)
row_at (o ∷ old) nw row zero h k = (row, refl, h)
row_at (o ∷ old) nw row (suc i) h k =
    row_at old nw (next_row o nw row) i (length-next_row o nw row h) (omega arith)

length_zeros : (nw : List ℕ) → length {A = ℕ} (map (λ c. 0) nw) ≡ length nw
length_zeros [] = refl
length_zeros (c ∷ nw) = ap suc (length_zeros nw)

-- The table has an entry for every two prefixes.
abbrev pub IsTable : List (List ℕ) → ℕ → ℕ → Type 0
IsTable dp n m = (i j : ℕ) → i ≤ n → j ≤ m → (x : ℕ) × (at dp i j ≡ some x)

pub table-IsTable : (old nw : List ℕ) → IsTable (table old nw) (length old) (length nw)
unfolding table at
table-IsTable old nw i j h k =
    let (r, g, l) = row_at old nw (0 ∷ map (λ c. 0) nw) i (ap suc (length_zeros nw)) h in
    rw (g, at) (found r j (omega arith))

-- A round takes a rune off the end of one text or both, and its segment stands for it.
record IsBack (old nw : List ℕ) (i j : ℕ) (result : Option Back) : Type 0 where
  pub seg : Seg
  pub to_old : ℕ
  pub to_new : ℕ
  pub ends : result ≡ some (seg, to_old, to_new)
  pub less : to_old + to_new < i + j
  pub old_le : to_old ≤ i
  pub new_le : to_new ≤ j
  pub old_kept : (segs : List Seg) → take to_old old ++ olds (seg ∷ segs) ≡ take i old ++ olds segs
  pub new_kept : (segs : List Seg) → take to_new nw ++ news (seg ∷ segs) ≡ take j nw ++ news segs

step_insert-IsBack :
    (old nw : List ℕ) (i j : ℕ) → j < length nw → IsBack old nw i (suc j) (step_insert nw i j)
unfolding step_insert
step_insert-IsBack old nw i j h =
    let (c, g) = found nw j h in
    rw (g, step_insert)
      (record {
        seg = add c;
        to_old = i;
        to_new = j;
        ends = refl;
        less = omega arith;
        old_le = omega arith;
        new_le = omega arith;
        old_kept = λ segs. refl;
        new_kept = λ segs. sym (take-suc nw j c g (news segs));
      })

step_delete-IsBack :
    (old nw : List ℕ) (i j : ℕ) → i < length old → IsBack old nw (suc i) j (step_delete old i j)
unfolding step_delete
step_delete-IsBack old nw i j h =
    let (o, g) = found old i h in
    rw (g, step_delete)
      (record {
        seg = drop_rune o;
        to_old = i;
        to_new = j;
        ends = refl;
        less = omega arith;
        old_le = omega arith;
        new_le = omega arith;
        old_kept = λ segs. sym (take-suc old i o g (olds segs));
        new_kept = λ segs. refl;
      })

step_table-IsBack :
    (dp : List (List ℕ)) (old nw : List ℕ) (i j : ℕ)
    → IsTable dp (length old) (length nw)
    → i < length old
    → j < length nw
    → IsBack old nw (suc i) (suc j) (step_table dp old nw i j)
unfolding step_table prefers_insert
step_table-IsBack dp old nw i j t h k =
    let (x, g) = t (suc i) j (omega arith) (omega arith) in
    let (y, f) = t i (suc j) (omega arith) (omega arith) in
    rw (g, f, step_table, prefers_insert, at)
      (if_both (IsBack old nw (suc i) (suc j)) (leb y x) _ _ (step_insert-IsBack old nw (suc i) j k)
        (step_delete-IsBack old nw i (suc j) h))

step_both-IsBack :
    (dp : List (List ℕ)) (old nw : List ℕ) (i j : ℕ)
    → IsTable dp (length old) (length nw)
    → i < length old
    → j < length nw
    → IsBack old nw (suc i) (suc j) (step_both dp old nw i j)
unfolding step_both
step_both-IsBack dp old nw i j t h k =
    let (o, g) = found old i h in
    let (c, f) = found nw j k in
    rw (g, f, step_both)
      (elim (Bool-cases (o == c)) [
        | inl y ↦ subst (IsBack old nw (suc i) (suc j)) (sym (if_true _ _ y)) (record {
          seg = keep o;
          to_old = i;
          to_new = j;
          ends = refl;
          less = omega arith;
          old_le = omega arith;
          new_le = omega arith;
          old_kept = λ segs. sym (take-suc old i o g (olds segs));
          new_kept = λ segs.
              let e : o ≡ c = ground arith in
              subst (λ z. take j nw ++ (z ∷ news segs) ≡ take (suc j) nw ++ news segs) (sym e)
                (sym (take-suc nw j c f (news segs)));
        })
        | inr n ↦
            subst (IsBack old nw (suc i) (suc j)) (sym (if_false _ _ n))
              (step_table-IsBack dp old nw i j t h k)
      ])

step_back-IsBack :
    (dp : List (List ℕ)) (old nw : List ℕ) (i j : ℕ)
    → IsTable dp (length old) (length nw)
    → i ≤ length old
    → j ≤ length nw
    → 0 < i + j
    → IsBack old nw i j (step_back dp old nw i j)
unfolding step_back
step_back-IsBack dp old nw zero zero t h k n = absurd (omega arith)
step_back-IsBack dp old nw zero (suc j) t h k n = step_insert-IsBack old nw zero j (omega arith)
step_back-IsBack dp old nw (suc i) zero t h k n = step_delete-IsBack old nw i zero (omega arith)
step_back-IsBack dp old nw (suc i) (suc j) t h k n =
    step_both-IsBack dp old nw i j t (omega arith) (omega arith)

-- The walk ends with segments that read and write what is left of the two texts.
pub record IsWalked (old nw : List ℕ) (i j : ℕ) (segs : List Seg) (result : Option (List Seg))
    : Type 0 where
  pub all : List Seg
  pub ends : result ≡ some all
  pub reads : olds all ≡ take i old ++ olds segs
  pub writes : news all ≡ take j nw ++ news segs

pub walk-IsWalked :
    (dp : List (List ℕ)) (old nw : List ℕ) (fuel i j : ℕ) (segs : List Seg)
    → IsTable dp (length old) (length nw)
    → i ≤ length old
    → j ≤ length nw
    → i + j < fuel
    → IsWalked old nw i j segs (walk dp old nw fuel i j segs)
unfolding walk
walk-IsWalked dp old nw zero i j segs t h k f = absurd (omega arith)
walk-IsWalked dp old nw (suc fuel) i j segs t h k f = elim (Bool-cases (i == 0 && j == 0)) [
  | inl y ↦
      let x : i ≡ 0 = ground arith in
      let z : j ≡ 0 = ground arith in
      subst (IsWalked old nw i j segs) (sym (if_true _ _ y))
        (record { all = segs; ends = refl; reads = rw x refl; writes = rw z refl })
  | inr n ↦
      let b = step_back-IsBack dp old nw i j t h k (ground arith) in
      let r =
        walk-IsWalked dp old nw fuel b.to_old b.to_new (b.seg ∷ segs) t
          (let l = b.old_le in omega arith) (let l = b.new_le in omega arith)
          (let l = b.less in omega arith) in
      subst (IsWalked old nw i j segs) (sym (if_false _ _ n)) (
        rw (b.ends) (record {
          all = r.all;
          ends = r.ends;
          reads = r.reads ∙ b.old_kept segs;
          writes = r.writes ∙ b.new_kept segs;
        }))
]
