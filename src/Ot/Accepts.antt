-- ===== src/Ot/Accepts.antt =====
-- What `Validate` (internal/ot/changeset.go) accepts of any 64-bit numbers, negative ones and sums
-- that wrap around included.
use ds_collaborative_editor.Base.{
  ℕ, ◌+◌, ◌%◌, ◌<◌, ◌==◌, false, List, [], ◌∷◌, ◌≡◌, ◌↔◌, refl, sym, ◌∙◌, ap, length, All, arith,
  none, Bool-cases, inl, inr, if_false,
}
use native.Mathlib.Nat.{zero-add}
use ds_collaborative_editor.Base.Int.{IsInt, word_mod, add64, le_int}
use ds_collaborative_editor.Ot.Changeset.{
  Op, retain, insert, delete, unknown, Changeset, validate, validate_loop, check_totals,
}
use ds_collaborative_editor.Ot.Ops.{src_len, dst_len}
use ds_collaborative_editor.Ot.Valid.{validate_lem, totals_none, totals_right}

-- The numbers of an operation are 64-bit words.
abbrev pub IsWord : Op → Type 0
IsWord (retain n) = n < word_mod
IsWord (insert s) = Unit
IsWord (delete n) = n < word_mod
IsWord (unknown t n) = Unit

-- A known tag with a length that is an int above 0, or with characters.
abbrev pub IsAbove : Op → Type 0
IsAbove (retain n) = (0 < n) × IsInt n
IsAbove (insert s) = 0 < length s
IsAbove (delete n) = (0 < n) × IsInt n
IsAbove (unknown t n) = ⊥

-- Both declared lengths are the totals modulo 2 ^ 64.
pub record IsAccepted (c : Changeset) : Type 0 where
  pub above : All IsAbove c.ops
  pub reads : src_len c.ops % word_mod ≡ c.old_len
  pub writes : dst_len c.ops % word_mod ≡ c.new_len

below_lem : (n : ℕ) → (0 < n) × IsInt n → le_int n 0 ≡ false
unfolding le_int
below_lem n p = ground arith

above_lem : (n : ℕ) → n < word_mod → le_int n 0 ≡ false → (0 < n) × IsInt n
unfolding le_int
above_lem n w h = ground arith

add64-add : (n m k : ℕ) → (add64 n m + k) % word_mod ≡ (n + (m + k)) % word_mod
unfolding add64
add64-add n m k = omega arith

totals_mod :
    (c : Changeset) (n m : ℕ)
    → n < word_mod
    → m < word_mod
    → check_totals c n m ≡ check_totals c ((n + 0) % word_mod) ((m + 0) % word_mod)
totals_mod c n m h k =
    let p : n ≡ (n + 0) % word_mod = omega arith in
    let q : m ≡ (m + 0) % word_mod = omega arith in
    ap (λ i. check_totals c i m) p ∙ ap (check_totals c ((n + 0) % word_mod)) q

add64_small : (a b : ℕ) → add64 a b < word_mod
unfolding add64
add64_small a b = omega arith

-- What the loop ends with on operations that are above 0, whatever wraps around.
loop_mod :
    (c : Changeset) (ops : List Op) (n m : ℕ)
    → n < word_mod
    → m < word_mod
    → All IsAbove ops
    → validate_loop c ops n m
      ≡ check_totals c ((n + src_len ops) % word_mod) ((m + dst_len ops) % word_mod)
unfolding validate_loop src_len dst_len
loop_mod c [] n m h k p = totals_mod c n m h k
loop_mod c (retain i ∷ ops) n m h k p =
    if_false _ _ (below_lem i p.0)
    ∙ (loop_mod c ops (add64 n i) (add64 m i) (add64_small n i) (add64_small m i) p.1
        ∙ rw (add64-add n i (src_len ops), add64-add m i (dst_len ops)) refl)
loop_mod c (insert s ∷ ops) n m h k p =
    let ne : (length s == 0) ≡ false = ground (arith, p) in
    if_false _ _ ne
    ∙ (loop_mod c ops n (add64 m (length s)) h (add64_small m (length s)) p.1
        ∙ rw (add64-add m (length s) (dst_len ops)) refl)
loop_mod c (delete i ∷ ops) n m h k p =
    if_false _ _ (below_lem i p.0)
    ∙ (loop_mod c ops (add64 n i) m (add64_small n i) k p.1 ∙ rw (add64-add n i (src_len ops)) refl)
loop_mod c (unknown t i ∷ ops) n m h k p = absurd p.0

-- A loop that ends without an error has met no operation that is not above 0.
loop-IsAbove :
    (c : Changeset) (ops : List Op) (n m : ℕ)
    → All IsWord ops
    → validate_loop c ops n m ≡ none
    → All IsAbove ops
unfolding validate_loop
loop-IsAbove c [] n m w e = tt
loop-IsAbove c (retain i ∷ ops) n m w e = elim (Bool-cases (le_int i 0)) [
  | inl y ↦ let f = rw y at e in cc
  | inr d ↦ (above_lem i w.0 d, loop-IsAbove c ops (add64 n i) (add64 m i) w.1 (rw d at e))
]
loop-IsAbove c (insert s ∷ ops) n m w e = elim (Bool-cases (length s == 0)) [
  | inl y ↦ let f = rw y at e in cc
  | inr d ↦ (ground arith, loop-IsAbove c ops n (add64 m (length s)) w.1 (rw d at e))
]
loop-IsAbove c (delete i ∷ ops) n m w e = elim (Bool-cases (le_int i 0)) [
  | inl y ↦ let f = rw y at e in cc
  | inr d ↦ (above_lem i w.0 d, loop-IsAbove c ops (add64 n i) m w.1 (rw d at e))
]
loop-IsAbove c (unknown t i ∷ ops) n m w e = cc

-- Validate returns nil exactly for the changesets of which every operation has a known tag and is
-- above 0 (a retain or a delete of a positive int, an insert of at least one character) and of
-- which both declared lengths are the totals of the operations modulo 2 ^ 64: a negative length is
-- refused everywhere, and only the sums may wrap around.
pub validate-IsAccepted : (c : Changeset) → All IsWord c.ops → (validate c ≡ none) ↔ IsAccepted c
validate-IsAccepted c w = (sound, complete)
  where
    ends :
        All IsAbove c.ops
        → validate c ≡ check_totals c (src_len c.ops % word_mod) (dst_len c.ops % word_mod)
    ends p =
        validate_lem c
        ∙ (loop_mod c c.ops 0 0 (omega arith) (omega arith) p
            ∙ (rw (zero-add (src_len c.ops), zero-add (dst_len c.ops)) refl))

    sound : validate c ≡ none → IsAccepted c
    sound e =
        let p = loop-IsAbove c c.ops 0 0 w (sym (validate_lem c) ∙ e) in
        let t = totals_none c _ _ (sym (ends p) ∙ e) in
        record { above = p; reads = t.0; writes = t.1 }

    complete : IsAccepted c → validate c ≡ none
    complete v = ends v.above ∙ totals_right c _ _ v.reads v.writes
