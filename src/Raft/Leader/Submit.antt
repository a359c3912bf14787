-- ===== src/Raft/Leader/Submit.antt =====
-- A command that a leader takes stands behind its log.
use ds_collaborative_editor.Base.{ℕ, suc, ◌<◌, [], ◌∷◌, some, ◌≡◌, refl, ap, ◌∙◌, arith}
use ds_collaborative_editor.Base.Int.{add64, add64_lem, word_mod}
use ds_collaborative_editor.Base.Text.{Text}
use ds_collaborative_editor.Raft.Types.{leader, LogEntry, LogStore}
use ds_collaborative_editor.Raft.Node.{RaftNode, index_or_zero}
use ds_collaborative_editor.Raft.Leader.{waits, next_entry, placed, handle_in, handle_apply_request}
use ds_collaborative_editor.Raft.Append.Match.{IsLog, Agrees}

module _ {L T : Type 0} (logs : LogStore L) where
  next_entry_lem :
      (r : RaftNode L T) (data_bytes : Text) (last : ℕ)
      → logs.last_index r.log_store ≡ some last
      → suc last < word_mod
      → next_entry logs r data_bytes
        ≡ record { index = suc last; term = r.current_term; data_bytes = data_bytes }
  unfolding next_entry index_or_zero
  next_entry_lem r data_bytes last l h =
      let p : add64 (index_or_zero (logs.last_index r.log_store)) 1 ≡ suc last =
        ap (λ o. add64 (index_or_zero o) 1) l ∙ (add64_lem last 1 (omega arith) ∙ omega arith) in
      ap (λ (i : ℕ). record { index = i; term = r.current_term; data_bytes = data_bytes }) p

  handled :
      (r : RaftNode L T) (data_bytes : Text)
      → r.state ≡ leader
      → handle_apply_request logs r data_bytes
        ≡ placed logs r
            (next_entry logs r data_bytes).index
            (logs.store_logs r.log_store (next_entry logs r data_bytes ∷ []))
  unfolding handle_apply_request handle_in
  handled r data_bytes s = ap (λ st. handle_in logs st r data_bytes) s

  -- A leader with a log store that has the laws of `IsLog` and is not full stores the command
  -- with its own term at the index behind its last one, lets the future wait at that index, and
  -- changes nothing below it.
  pub handle_apply_request-stores :
      (r : RaftNode L T) (data_bytes : Text) (last : ℕ)
      → IsLog logs
      → r.state ≡ leader
      → logs.last_index r.log_store ≡ some last
      → suc last < word_mod
      → (after : L) × (handle_apply_request logs r data_bytes
          ≡ (record r { log_store = after }, waits (suc last)))
        × (logs.get_log after (suc last)
            ≡ some (record { index = suc last; term = r.current_term; data_bytes = data_bytes }))
        × Agrees logs (suc last) after r.log_store
  handle_apply_request-stores r data_bytes last law s l h =
      let e : LogEntry = record {
        index = suc last;
        term = r.current_term;
        data_bytes = data_bytes;
      } in
      let (after, w, g, b) = law.stores r.log_store (suc last) (e ∷ []) (refl, tt) in
      (
        after,
        handled r data_bytes s
            ∙ (ap (λ (x : LogEntry). placed logs r x.index (logs.store_logs r.log_store (x ∷ [])))
                  (next_entry_lem r data_bytes last l h)
                ∙ (ap (placed logs r (suc last)) w ∙ (unfold placed in refl))),
        g.0,
        b,
      )
