-- ===== src/Raft/Replicate/BackUp.antt =====
-- What a conflict says of a follower's log, and how far back it moves the next index.
use ds_collaborative_editor.Base.{
  ℕ, zero, suc, ◌-◌, ◌≤◌, ◌<◌, some, Option-cases, ltb, ◌==◌, if◌then◌else◌, if_true, if_false,
  if_both, Bool-cases, ◌≡◌, refl, sym, ◌∙◌, ◌⊎◌, inl, inr, ◌≢◌, arith,
}
use ds_collaborative_editor.Base.Int.{add64, add64_lem, word_mod}
use ds_collaborative_editor.Raft.Types.{
  LogEntry, AppendEntriesRequest, AppendEntriesResponse, LogStore,
}
use ds_collaborative_editor.Raft.Node.{index_or_zero}
use ds_collaborative_editor.Raft.Append.{conflict, check_previous, first_of_term}
use ds_collaborative_editor.Raft.Commit.{PeerState}
use ds_collaborative_editor.Raft.Replicate.{at_least_one, last_of_term, back_up}

module _ {L : Type 0} (logs : LogStore L) where
  -- The first index of a run of a term is no later than the one found so far.
  first_of_term_le :
      (l : L) (i term found : ℕ) → i < found → first_of_term logs l i term found ≤ found
  unfolding first_of_term
  first_of_term_le l zero term found h = omega arith
  first_of_term_le l (suc i) term found h = elim (Option-cases (logs.get_log l (suc i))) [
    | inl g ↦ rw (g, first_of_term) (omega arith)
    | inr (e, g) ↦
        rw (g, first_of_term)
          (if_both (λ n. n ≤ found) (e.term == term) _ _
            (omega (arith, first_of_term_le l i term (suc i) (omega arith))) (omega arith))
  ]

  -- An index that the search for a term gives has an entry of that term.
  last_of_term_lem :
      (l : L) (i term : ℕ)
      → (last_of_term logs l i term ≡ 0)
        ⊎ ((e : LogEntry) × (logs.get_log l (last_of_term logs l i term) ≡ some e)
            × (e.term ≡ term))
  unfolding last_of_term
  last_of_term_lem l zero term = inl refl
  last_of_term_lem l (suc i) term = elim (Option-cases (logs.get_log l (suc i))) [
    | inl g ↦ inl (rw (g, last_of_term) refl)
    | inr (e, g) ↦ elim (Bool-cases (e.term == term)) [
      | inl y ↦ inr (e, rw (g, last_of_term) (rw y g), ground arith)
      | inr n ↦ rw (g, last_of_term) (rw n (last_of_term_lem l i term))
    ]
  ]

  -- Where two logs differ in the term of an entry, the first has entries of the other's term
  -- only further ahead.
  abbrev pub AreOrdered : L → L → Type 0
  AreOrdered a b =
      (i : ℕ) (d e x : LogEntry)
      → (logs.get_log a i ≡ some d)
      → (logs.get_log b i ≡ some e)
      → d.term ≢ e.term
      → (j : ℕ) → (logs.get_log a j ≡ some x)
      → (x.term ≡ e.term)
      → j < i

  -- What a conflict says of the log that has it.
  pub record IsConflict (b : L) (req : AppendEntriesRequest) (t i : ℕ) : Type 0 where
    pub positive : 0 < req.prev_log_index
    pub ahead : i ≤ req.prev_log_index
    pub term :
        (t ≡ 0)
        ⊎ ((e : LogEntry) × (logs.get_log b req.prev_log_index ≡ some e)
            × (e.term ≡ t)
            × (t ≢ req.prev_log_term))

  pub conflict-IsConflict :
      (b : L) (req : AppendEntriesRequest) (t i : ℕ)
      → req.prev_log_index < word_mod
      → check_previous logs b req ≡ conflict t i
      → IsConflict b req t i
  unfolding check_previous
  conflict-IsConflict b req t i s h = elim (Bool-cases (req.prev_log_index == 0)) [
    | inl y ↦ let e = sym (if_true _ _ y) ∙ h in cc
    | inr n ↦ elim (Bool-cases (ltb (index_or_zero (logs.last_index b)) req.prev_log_index)) [
      | inl y ↦
          let e = sym (if_false _ _ n ∙ if_true _ _ y) ∙ h in
          let x : t ≡ 0 = cc in
          let z : i ≡ add64 (index_or_zero (logs.last_index b)) 1 = cc in
          let last = index_or_zero (logs.last_index b) in
          record {
            positive = ground arith;
            ahead = ground (arith, z, add64_lem last 1 (ground arith));
            term = inl x;
          }
      | inr m ↦ elim (Option-cases (logs.get_log b req.prev_log_index)) [
        | inl g ↦
            let e = sym (if_false _ _ n ∙ if_false _ _ m) ∙ h in
            let x = rw g at e in
            let z : t ≡ 0 = cc in
            let k : i ≡ req.prev_log_index = cc in
            record { positive = ground arith; ahead = omega (arith, k); term = inl z }
        | inr (e, g) ↦
            let x0 = sym (if_false _ _ n ∙ if_false _ _ m) ∙ h in
            let x = rw g at x0 in
            elim (Bool-cases (e.term == req.prev_log_term)) [
              | inl y ↦ let q = rw y at x in cc
              | inr q ↦
                  let c = rw q at x in
                  let z : e.term ≡ t = cc in
                  let k : i
                      ≡ first_of_term logs b (req.prev_log_index - 1) e.term req.prev_log_index =
                    cc in
                  record {
                    positive = ground arith;
                    ahead = omega (
                      arith,
                      k,
                      first_of_term_le b (req.prev_log_index - 1) e.term req.prev_log_index
                          (ground arith),
                    );
                    term = inr (e, g, z, λ w. ground arith);
                  }
            ]
      ]
    ]
  ]

  at_least_one_le : (n m : ℕ) → n ≤ m → 0 < m → (0 < at_least_one n) × (at_least_one n ≤ m)
  unfolding at_least_one
  at_least_one_le n m h k = (ground arith, ground arith)

  next_le :
      (found term index m : ℕ)
      → (found ≡ 0) ⊎ (term ≡ 0) ⊎ (found < m)
      → index ≤ m
      → m < word_mod
      → (if ltb 0 term then (if ltb 0 found then add64 found 1 else index) else index) ≤ m
  next_le found term index m (inl z) h k = ground arith
  next_le found term index m (inr (inl z)) h k = ground arith
  next_le found term index m (inr (inr l)) h k =
      let e = add64_lem found 1 (omega arith) in ground arith

  found_before :
      (a b : L) (req : AppendEntriesRequest) (d : LogEntry) (found t i : ℕ)
      → AreOrdered a b
      → logs.get_log a req.prev_log_index ≡ some d
      → d.term ≡ req.prev_log_term
      → (found ≡ 0) ⊎ ((e : LogEntry) × (logs.get_log a found ≡ some e) × (e.term ≡ t))
      → (t ≡ 0)
        ⊎ ((e : LogEntry) × (logs.get_log b req.prev_log_index ≡ some e)
            × (e.term ≡ t)
            × (t ≢ req.prev_log_term))
      → (found ≡ 0) ⊎ (t ≡ 0) ⊎ (found < req.prev_log_index)
  found_before a b req d found t i o g k (inl z) c = inl z
  found_before a b req d found t i o g k (inr x) (inl z) = inr (inl z)
  found_before a b req d found t i o g k (inr (x, h, u)) (inr (e, l, m, n)) =
      inr (inr (o req.prev_log_index d e x g l (λ w. n (sym m ∙ (sym w ∙ k))) found h (u ∙ sym m)))

  -- After a conflict the next index is from 1 on and no further than the previous index was.
  pub backs_up :
      (a b : L) (p : PeerState) (req : AppendEntriesRequest) (d : LogEntry)
      (resp : AppendEntriesResponse)
      → AreOrdered a b
      → req.prev_log_index < word_mod
      → logs.get_log a req.prev_log_index ≡ some d
      → d.term ≡ req.prev_log_term
      → IsConflict b req resp.conflict_term resp.conflict_index
      → (0 < (back_up logs a p resp).next_index)
        × ((back_up logs a p resp).next_index ≤ req.prev_log_index)
  unfolding back_up at_least_one
  backs_up a b p req d resp o s g t c =
      let found = last_of_term logs a (index_or_zero (logs.last_index a)) resp.conflict_term in
      let before =
        found_before a b req d _ resp.conflict_term resp.conflict_index o g t
          (last_of_term_lem a (index_or_zero (logs.last_index a)) resp.conflict_term) c.term in
      at_least_one_le _ _ (next_le found resp.conflict_term _ _ before c.ahead s) c.positive
