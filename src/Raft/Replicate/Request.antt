-- ===== src/Raft/Replicate/Request.antt =====
-- The request that a leader builds from its log.
use ds_collaborative_editor.Base.{
  length, ℕ, zero, suc, ◌+◌, ◌-◌, ◌≤◌, ◌<◌, List, some, leb, if_true, if_false, Bool-cases, ◌≡◌,
  refl, sym, subst, ◌∙◌, ap, inl, inr, arith, All,
}
use ds_collaborative_editor.Base.Int.{word_mod}
use ds_collaborative_editor.Raft.Types.{LogEntry, LogStore}
use ds_collaborative_editor.Raft.Node.{index_or_zero}
use ds_collaborative_editor.Raft.Append.Match.{IsRun}
use ds_collaborative_editor.Raft.Replicate.{gather, entries_from}

module _ {L : Type 0} (logs : LogStore L) where
  -- The log has exactly the indexes from 1 to `last`, each entry under its own index.
  pub record IsWhole (l : L) (last : ℕ) : Type 0 where
    pub ends : logs.last_index l ≡ some last
    pub small : suc last < word_mod
    pub stands :
        (i : ℕ) → 0 < i → i ≤ last → (e : LogEntry) × (logs.get_log l i ≡ some e) × (e.index ≡ i)

  -- Entries that the log has under their indexes.
  abbrev pub IsFrom : L → List LogEntry → Type 0
  IsFrom l es = All (λ e. logs.get_log l e.index ≡ some e) es

  -- A run of `n` entries from `i` on, all of the log.
  pub record IsPiece (l : L) (i n : ℕ) (es : List LogEntry) : Type 0 where
    pub run : IsRun i es
    pub own : IsFrom l es
    pub many : length es ≡ n

  gather-IsPiece :
      (l : L) (last : ℕ)
      → IsWhole l last
      → (n i : ℕ) → 0 < i
      → i + n ≤ suc last
      → IsPiece l i n (gather logs l n i)
  unfolding gather
  gather-IsPiece l last w zero i h k = record { run = tt; own = tt; many = refl }
  gather-IsPiece l last w (suc n) i h k =
      let (e, g, x) = w.stands i h (omega arith) in
      let rest = gather-IsPiece l last w n (suc i) (omega arith) (omega arith) in
      rw (g, gather)
        (record {
          run = (x, rest.run);
          own = (ap (logs.get_log l) x ∙ g, rest.own);
          many = omega (arith, rest.many);
        })

  -- From an index that is at most one behind the end of the log, the request takes all entries.
  pub entries_from-IsPiece :
      (l : L) (last next : ℕ)
      → IsWhole l last
      → 0 < next
      → next ≤ suc last
      → IsPiece l next (suc last - next) (entries_from logs l next)
  unfolding entries_from index_or_zero
  entries_from-IsPiece l last next w h k = rw (w.ends) (elim (Bool-cases (leb next last)) [
    | inl y ↦
        subst (IsPiece l next (suc last - next)) (sym (if_true _ _ y))
          (gather-IsPiece l last w (suc last - next) next h (omega arith))
    | inr d ↦
        subst (IsPiece l next (suc last - next)) (sym (if_false _ _ d))
          (record { run = tt; own = tt; many = ground arith })
  ])
