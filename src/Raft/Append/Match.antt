-- ===== src/Raft/Append/Match.antt =====
-- What AppendEntries does to the log of a follower.
use ds_collaborative_editor.Base.{
  ℕ, suc, ◌<◌, List, [], ◌∷◌, some, Option-cases, ltb, ◌==◌, if◌then◌else◌, true, false, Bool,
  Bool-cases, if_both, ◌≡◌, refl, sym, ◌∙◌, ap, subst, inl, inr, arith, All, All-map,
}
use ds_collaborative_editor.Raft.Types.{LogEntry, AppendEntriesRequest, LogStore, StableStore}
use ds_collaborative_editor.Raft.Node.{RaftNode, index_or_zero, persist_state, step_down}
use ds_collaborative_editor.Raft.Append.{
  store_rest, overwrite, append_loop, update_commit, is_follower, follow_leader,
}

-- Entries at consecutive indexes.
abbrev pub IsRun : ℕ → List LogEntry → Type 0
IsRun i [] = Unit
IsRun i (e ∷ es) = (e.index ≡ i) × IsRun (suc i) es

module _ {L : Type 0} (logs : LogStore L) where
  -- Two states of the log agree below an index.
  abbrev pub Agrees : ℕ → L → L → Type 0
  Agrees i a b = (j : ℕ) → j < i → logs.get_log a j ≡ logs.get_log b j

  -- What the handlers rely on in a log store.
  pub record IsLog : Type 0 where
    pub stores :
        (l : L) (i : ℕ) (es : List LogEntry)
        → IsRun i es
        → (after : L) × (logs.store_logs l es ≡ some after)
          × All (λ e. logs.get_log after e.index ≡ some e) es
          × Agrees i after l
    pub deletes :
        (l : L) (lo hi : ℕ)
        → (after : L) × (logs.delete_range l lo hi ≡ some after) × Agrees lo after l

  -- The log has an entry of the same term at the same index.
  abbrev pub Holds : L → LogEntry → Type 0
  Holds l e = (x : LogEntry) × (logs.get_log l e.index ≡ some x) × (x.term ≡ e.term)

  -- The entries of a run are in the log, and what was below it still is.
  pub record IsAppended (i : ℕ) (es : List LogEntry) (before : L) (after : L × Bool) : Type 0 where
    pub success : after.1 ≡ true
    pub holds : All (Holds (after.0)) es
    pub below : Agrees i (after.0) before

  store-IsAppended :
      (l : L) (i : ℕ) (es : List LogEntry)
      → IsLog
      → IsRun i es
      → IsAppended i es l (store_rest logs l es)
  unfolding store_rest
  store-IsAppended l i es law run =
      let (after, s, g, b) = law.stores l i es run in
      rw (s, store_rest)
        (record { success = refl; holds = All-map _ _ es (λ e h. (e, h, refl)) g; below = b })

  overwrite-IsAppended :
      (l : L) (i : ℕ) (es : List LogEntry)
      → IsLog
      → IsRun i es
      → IsAppended i es l (overwrite logs l i es)
  unfolding overwrite
  overwrite-IsAppended l i es law run =
      let (after, d, b) = law.deletes l i (index_or_zero (logs.last_index l)) in
      let s = store-IsAppended after i es law run in
      rw (d, overwrite)
        (record { success = s.success; holds = s.holds; below = λ j h. s.below j h ∙ b j h })

  matched_one :
      (l : L) (i : ℕ) (e x : LogEntry) (es : List LogEntry)
      → e.index ≡ i
      → logs.get_log l i ≡ some x
      → x.term ≡ e.term
      → IsAppended (suc i) es l (append_loop logs l es)
      → IsAppended i (e ∷ es) l (append_loop logs l es)
  matched_one l i e x es n g t a = record {
    success = a.success;
    holds = ((x, ap (logs.get_log _) n ∙ (a.below i (omega arith) ∙ g), t), a.holds);
    below = λ j h. a.below j (omega arith);
  }

  pub append_loop-IsAppended :
      (l : L) (i : ℕ) (es : List LogEntry)
      → IsLog
      → IsRun i es
      → IsAppended i es l (append_loop logs l es)
  unfolding append_loop
  append_loop-IsAppended l i [] law run = record { success = refl; holds = tt; below = λ j h. refl }
  append_loop-IsAppended l i (e ∷ es) law run = elim (Option-cases (logs.get_log l e.index)) [
    | inl g ↦ rw (g, append_loop) (store-IsAppended l i (e ∷ es) law run)
    | inr (x, g) ↦ elim (Bool-cases (x.term == e.term)) [
      | inl y ↦
          rw (g, append_loop)
            (rw y (
              matched_one l i e x es run.0 (ap (logs.get_log l) (sym run.0) ∙ g) (ground arith)
                (append_loop-IsAppended l (suc i) es law run.1)))
      | inr y ↦
          rw (g, append_loop)
            (rw y (
              subst (λ n. IsAppended i (e ∷ es) l (overwrite logs l n (e ∷ es))) (sym run.0)
                (overwrite-IsAppended l i (e ∷ es) law run)))
    ]
  ]

module _ {L T : Type 0} (logs : LogStore L) (stable : StableStore T) where
  pub follow_leader_log :
      (r : RaftNode L T) (req : AppendEntriesRequest)
      → ((follow_leader logs stable r req).log_store ≡ r.log_store)
        × ((follow_leader logs stable r req).commit_index ≡ r.commit_index)
  unfolding follow_leader step_down persist_state
  follow_leader_log r req =
      if_both (λ a. (a.log_store ≡ r.log_store) × (a.commit_index ≡ r.commit_index))
        (ltb r.current_term req.term) (step_down logs stable req.term r)
        (if is_follower r.state then r else step_down logs stable req.term r) (refl, refl)
        (if_both (λ a. (a.log_store ≡ r.log_store) × (a.commit_index ≡ r.commit_index))
          (is_follower r.state) r (step_down logs stable req.term r) (refl, refl) (refl, refl))

  pub follow_leader_term :
      (r : RaftNode L T) (req : AppendEntriesRequest)
      → ltb req.term r.current_term ≡ false
      → (follow_leader logs stable r req).current_term ≡ req.term
  unfolding follow_leader step_down persist_state
  follow_leader_term r req h = ground arith

  pub update_commit_log :
      (r : RaftNode L T) (n : ℕ)
      → ((update_commit logs stable r n).log_store ≡ r.log_store)
        × ((update_commit logs stable r n).current_term ≡ r.current_term)
  unfolding update_commit
  update_commit_log r n =
      if_both (λ a. (a.log_store ≡ r.log_store) × (a.current_term ≡ r.current_term))
        (ltb r.commit_index n) _ r (refl, refl) (refl, refl)
