-- ===== src/Raft/Append/Effect.antt =====
-- What AppendEntries does to a follower, on every branch.
use ds_collaborative_editor.Base.{
  ℕ, suc, ◌≤◌, ◌<◌, ltb, ltb→lt, true, false, Bool, Bool-cases, ◌≡◌, refl, sym, subst, ◌∙◌, ap, ◌⊎◌,
  inl, inr, arith, All,
}
use ds_collaborative_editor.Raft.Types.{
  AppendEntriesRequest, AppendEntriesResponse, LogStore, StableStore,
}
use ds_collaborative_editor.Raft.Node.{RaftNode, index_or_zero}
use ds_collaborative_editor.Raft.Append.{
  Check, consistent, conflict, check_previous, append_loop, update_commit, stored, checked,
  follow_leader, handle_append_entries,
}
use ds_collaborative_editor.Raft.Append.Match.{
  IsRun, IsLog, Holds, Agrees, IsAppended, append_loop-IsAppended, follow_leader_log,
  follow_leader_term, update_commit_log,
}

abbrev answer : ℕ → Bool → ℕ → ℕ → AppendEntriesResponse
answer term success t i = record {
  term = term;
  success = success;
  conflict_term = t;
  conflict_index = i;
}

module _ {L T : Type 0} (logs : LogStore L) (stable : StableStore T) where
  -- The commit index stays, or it moves no further than the leader's and than the log.
  abbrev pub IsCommit : RaftNode L T → ℕ → ℕ → Type 0
  IsCommit after old leader_commit =
      (after.commit_index ≡ old)
      ⊎ (after.commit_index ≤ leader_commit)
        × (after.commit_index ≤ index_or_zero (logs.last_index after.log_store))

  -- A request of an earlier term is refused. A request that the log does not fit is refused with
  -- the conflict. Any other one succeeds: its entries are in the log, and what was before them
  -- still is.
  pub data AppendEffect (r : RaftNode L T) (req : AppendEntriesRequest) (after : RaftNode L T)
      (resp : AppendEntriesResponse) : Type 0 where
    stale :
        req.term < r.current_term
        → after ≡ r
        → resp ≡ answer r.current_term false 0 0
        → AppendEffect r req after resp
    conflicted :
        (t i : ℕ)
        → check_previous logs r.log_store req ≡ conflict t i
        → after.current_term ≡ req.term
        → after.log_store ≡ r.log_store
        → after.commit_index ≡ r.commit_index
        → resp ≡ answer req.term false t i
        → AppendEffect r req after resp
    appended :
        check_previous logs r.log_store req ≡ consistent
        → after.current_term ≡ req.term
        → All (Holds logs after.log_store) req.entries
        → Agrees logs (suc req.prev_log_index) after.log_store r.log_store
        → IsCommit after r.commit_index req.leader_commit
        → resp ≡ answer req.term true 0 0
        → AppendEffect r req after resp

  update-IsCommit :
      (r : RaftNode L T) (n : ℕ) → IsCommit (update_commit logs stable r n) r.commit_index n
  unfolding update_commit
  update-IsCommit r n = elim (Bool-cases (ltb r.commit_index n)) [
    | inl y ↦ elim (Bool-cases (ltb (index_or_zero (logs.last_index r.log_store)) n)) [
      | inl z ↦ rw y (rw z (inr (ground arith)))
      | inr z ↦ rw y (rw z (inr (ground arith)))
    ]
    | inr y ↦ rw y (inl refl)
  ]

  stored-Effect :
      (r f : RaftNode L T) (req : AppendEntriesRequest) (s : L × Bool)
      → check_previous logs r.log_store req ≡ consistent
      → f.current_term ≡ req.term
      → f.commit_index ≡ r.commit_index
      → IsAppended logs (suc req.prev_log_index) req.entries r.log_store s
      → AppendEffect r req ((stored logs stable f req s).0) ((stored logs stable f req s).1)
  unfolding stored
  stored-Effect r f req (l, true) c t k a =
      let next = record f { log_store = l } in
      let (log, term) = update_commit_log logs stable next req.leader_commit in
      appended c (term ∙ t) (rw log a.holds) (rw log a.below)
        (subst
          (λ n. IsCommit (update_commit logs stable next req.leader_commit) n req.leader_commit) k
          (update-IsCommit next req.leader_commit))
        (ap (λ n. answer n true 0 0) t)
  stored-Effect r f req (l, false) c t k a = let e = a.success in cc

  checked-Effect :
      (r f : RaftNode L T) (req : AppendEntriesRequest) (c : Check)
      → IsLog logs
      → IsRun (suc req.prev_log_index) req.entries
      → check_previous logs r.log_store req ≡ c
      → f.current_term ≡ req.term
      → f.log_store ≡ r.log_store
      → f.commit_index ≡ r.commit_index
      → AppendEffect r req ((checked logs stable f req c).0) ((checked logs stable f req c).1)
  unfolding checked
  checked-Effect r f req consistent law run c t l k = stored-Effect r f req _ c t k (
      subst
        (λ x.
          IsAppended logs (suc req.prev_log_index) req.entries x
            (append_loop logs f.log_store req.entries))
        l (append_loop-IsAppended logs f.log_store (suc req.prev_log_index) req.entries law run))
  checked-Effect r f req (conflict n i) law run c t l k =
      conflicted n i c t l k (ap (λ m. answer m false n i) t)

  -- For a log store with the laws of `IsLog` and a request whose entries follow its previous
  -- index, the handler does one of three things: it refuses an earlier term and changes nothing; it
  -- reports a conflict and keeps the log and the commit index; or it succeeds, every entry of
  -- the request is then in the log with its term, the log below them is as it was, and a commit
  -- index that moves goes no further than the leader's and than the end of the log.
  pub handle_append_entries-Effect :
      (r : RaftNode L T) (req : AppendEntriesRequest)
      → IsLog logs
      → IsRun (suc req.prev_log_index) req.entries
      → AppendEffect r req
          ((handle_append_entries logs stable r req).0)
          ((handle_append_entries logs stable r req).1)
  unfolding handle_append_entries
  handle_append_entries-Effect r req law run = elim (Bool-cases (ltb req.term r.current_term)) [
    | inl y ↦ rw y (stale (ltb→lt req.term r.current_term y) refl refl)
    | inr n ↦
        let f = follow_leader logs stable r req in
        let (l, k) = follow_leader_log logs stable r req in
        rw n (
          checked-Effect r f req (check_previous logs f.log_store req) law run
            (ap (λ x. check_previous logs x req) (sym l)) (follow_leader_term logs stable r req n) l
            k)
  ]
