-- ===== src/Ot/Valid.antt =====
-- Well-formed changesets: what `Validate` (internal/ot/changeset.go) is to accept.
use ds_collaborative_editor.Base.{
  ℕ, ◌+◌, List, [], ◌∷◌, ◌≡◌, ◌↔◌, refl, sym, ◌∙◌, length, All, arith, none,
}
use native.Mathlib.Nat.{zero-add}
use ds_collaborative_editor.Base.Int.{IsInt, add64_lem, le_int_lem}
use ds_collaborative_editor.Ot.Changeset.{
  Op, retain, insert, delete, unknown, Changeset, validate, validate_loop, check_totals,
}
use ds_collaborative_editor.Ot.Ops.{IsPositive, src_len, dst_len}
use ds_collaborative_editor.Ot.Merge.{IsShort}

-- Positive lengths and known tags, and two lengths that are the true totals.
pub record IsValid (c : Changeset) : Type 0 where
  pub positive : All IsPositive c.ops
  pub reads : src_len c.ops ≡ c.old_len
  pub writes : dst_len c.ops ≡ c.new_len
  pub short : IsInt c.old_len × IsInt c.new_len

-- The totals that the loop ends with, where nothing wraps around.
loop_complete :
    (c : Changeset) (ops : List Op) (n m : ℕ)
    → All IsPositive ops
    → IsInt (n + src_len ops)
    → IsInt (m + dst_len ops)
    → validate_loop c ops n m ≡ check_totals c (n + src_len ops) (m + dst_len ops)
unfolding validate_loop src_len dst_len
loop_complete c [] n m p h k = ground arith
loop_complete c (retain i ∷ ops) n m p h k = ground (
  arith,
  le_int_lem i 0,
  add64_lem n i,
  add64_lem m i,
  loop_complete c ops (n + i) (m + i) p.1 (omega arith) (omega arith),
)
loop_complete c (insert s ∷ ops) n m p h k = ground (
  arith,
  add64_lem m (length s),
  loop_complete c ops n (m + length s) p.1 (omega arith) (omega arith),
)
loop_complete c (delete i ∷ ops) n m p h k = ground (
  arith,
  le_int_lem i 0,
  add64_lem n i,
  loop_complete c ops (n + i) m p.1 (omega arith) (omega arith),
)
loop_complete c (unknown t i ∷ ops) n m p h k = absurd p.0

loop_sound :
    (c : Changeset) (ops : List Op) (n m : ℕ)
    → IsInt (n + src_len ops)
    → IsInt (m + dst_len ops)
    → validate_loop c ops n m ≡ none
    → All IsPositive ops
unfolding validate_loop src_len dst_len
loop_sound c [] n m h k e = tt
loop_sound c (retain i ∷ ops) n m h k e =
    ground (arith, le_int_lem i 0, add64_lem n i, add64_lem m i, loop_sound c ops (n + i) (m + i))
loop_sound c (insert s ∷ ops) n m h k e =
    ground (arith, add64_lem m (length s), loop_sound c ops n (m + length s))
loop_sound c (delete i ∷ ops) n m h k e =
    ground (arith, le_int_lem i 0, add64_lem n i, loop_sound c ops (n + i) m)
loop_sound c (unknown t i ∷ ops) n m h k e = cc

pub validate_lem : (c : Changeset) → validate c ≡ validate_loop c c.ops 0 0
unfolding validate
validate_lem c = refl

pub totals_none :
    (c : Changeset) (n m : ℕ) → check_totals c n m ≡ none → (n ≡ c.old_len) × (m ≡ c.new_len)
unfolding check_totals
totals_none c n m h = ground arith

pub totals_right :
    (c : Changeset) (n m : ℕ) → n ≡ c.old_len → m ≡ c.new_len → check_totals c n m ≡ none
unfolding check_totals
totals_right c n m h k = ground arith

-- Where an int holds what the operations read and what they write, Validate returns nil exactly
-- for the well-formed changesets: positive lengths, known tags, and both declared lengths right.
pub validate-IsValid : (c : Changeset) → IsShort c.ops → (validate c ≡ none) ↔ IsValid c
validate-IsValid c h = (sound, complete)
  where
    loop : All IsPositive c.ops → validate c ≡ check_totals c (src_len c.ops) (dst_len c.ops)
    loop p =
        validate_lem c
        ∙ (loop_complete c c.ops 0 0 p (omega arith) (omega arith)
            ∙ (rw (zero-add (src_len c.ops), zero-add (dst_len c.ops))))

    sound : validate c ≡ none → IsValid c
    sound e =
        let p = loop_sound c c.ops 0 0 (omega arith) (omega arith) (sym (validate_lem c) ∙ e) in
        let t = totals_none c (src_len c.ops) (dst_len c.ops) (sym (loop p) ∙ e) in
        record { positive = p; reads = t.0; writes = t.1; short = omega (arith, t) }

    complete : IsValid c → validate c ≡ none
    complete v = loop v.positive ∙ totals_right c _ _ v.reads v.writes
