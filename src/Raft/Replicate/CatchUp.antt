-- ===== src/Raft/Replicate/CatchUp.antt =====
-- The rounds of the leader with a peer whose log is behind or differs.
use ds_collaborative_editor.Base.{
  ℕ, zero, suc, ◌≤◌, ◌<◌, Option, some, ltb, true, false, Bool-cases, ◌≡◌, refl, sym, subst, ap,
  inl, inr, arith,
}
use ds_collaborative_editor.Base.Int.{sub64, sub64_lem, word_mod}
use ds_collaborative_editor.Raft.Types.{
  LogEntry, AppendEntriesRequest, AppendEntriesResponse, LogStore, StableStore,
}
use ds_collaborative_editor.Raft.Node.{RaftNode}
use ds_collaborative_editor.Raft.Append.{handle_append_entries}
use ds_collaborative_editor.Raft.Append.Match.{IsLog}
use ds_collaborative_editor.Raft.Append.Effect.{
  AppendEffect, stale, conflicted, appended, handle_append_entries-Effect,
}
use ds_collaborative_editor.Raft.Commit.{PeerState}
use ds_collaborative_editor.Raft.Replicate.{back_up, matched, request_for, catch_up, term_or_zero}
use ds_collaborative_editor.Raft.Replicate.Request.{IsWhole}
use ds_collaborative_editor.Raft.Replicate.Match.{
  IsMatched, request-IsPiece, request-IsRun, replicate-IsMatched,
}
use ds_collaborative_editor.Raft.Replicate.BackUp.{
  AreOrdered, IsConflict, conflict-IsConflict, backs_up,
}

module _ {L T : Type 0} (logs : LogStore L) (stable : StableStore T) where
  -- A refused round of a peer in no later term is a conflict, and moves the peer to the term.
  refused_round :
      (f after : RaftNode L T) (req : AppendEntriesRequest) (resp : AppendEntriesResponse)
      → req.prev_log_index < word_mod
      → f.current_term ≤ req.term
      → AppendEffect logs stable f req after resp
      → resp.success ≡ false
      → (after.current_term ≡ req.term)
        × (after.log_store ≡ f.log_store)
        × IsConflict logs f.log_store req resp.conflict_term resp.conflict_index
  refused_round f after req resp s h (stale k _ _) n = absurd (omega arith)
  refused_round f after req resp s h (conflicted t i c e l _ a) n = (
    e,
    l,
    subst
        (λ (x : AppendEntriesResponse).
          IsConflict logs f.log_store req x.conflict_term x.conflict_index)
        (sym a) (conflict-IsConflict logs f.log_store req t i s c),
  )
  refused_round f after req resp s h (appended _ _ _ _ _ a) n =
      let z = ap (λ (x : AppendEntriesResponse). x.success) a in cc

  -- The rounds have ended with one that is accepted, no further ahead than the first.
  pub record IsCaughtUp (r : RaftNode L T) (p : PeerState) (last : ℕ)
      (result : Option (RaftNode L T × PeerState × PeerState)) : Type 0 where
    pub after : RaftNode L T
    pub from : PeerState
    pub to : PeerState
    pub ends : result ≡ some (after, from, to)
    pub positive : 0 < from.next_index
    pub back : from.next_index ≤ p.next_index
    pub is_matched : IsMatched logs stable r after from last
    pub notes : to ≡ matched from (request_for logs stable r from).entries

  further :
      (r : RaftNode L T) (p q : PeerState) (last : ℕ)
      (result : Option (RaftNode L T × PeerState × PeerState))
      → q.next_index ≤ p.next_index
      → IsCaughtUp r q last result
      → IsCaughtUp r p last result
  further r p q last result h c = record {
    after = c.after;
    from = c.from;
    to = c.to;
    ends = c.ends;
    positive = c.positive;
    back = let b = c.back in omega arith;
    is_matched = c.is_matched;
    notes = c.notes;
  }

  request_term :
      (r : RaftNode L T) (p : PeerState) → (request_for logs stable r p).term ≡ r.current_term
  unfolding request_for
  request_term r p = refl

  -- The index before the next one, and the leader's entry there.
  request_previous :
      (r : RaftNode L T) (p : PeerState) (last : ℕ)
      → IsWhole logs r.log_store last
      → 0 < p.next_index
      → p.next_index ≤ suc last
      → (suc ((request_for logs stable r p).prev_log_index) ≡ p.next_index)
        × (0 < (request_for logs stable r p).prev_log_index
            → (d : LogEntry) × (logs.get_log r.log_store
                  (request_for logs stable r p).prev_log_index
                ≡ some d)
              × (d.term ≡ (request_for logs stable r p).prev_log_term))
  unfolding request_for term_or_zero
  request_previous r p last w h k =
      let z = w.small in
      let prev : suc (sub64 p.next_index 1) ≡ p.next_index =
        omega (arith, sub64_lem p.next_index 1 (omega arith) (omega arith)) in
      (
        prev,
        λ pos.
            let (d, g, x) = w.stands (sub64 p.next_index 1) pos (omega (arith, prev)) in
            let positive : ltb 0 (sub64 p.next_index 1) ≡ true = ground arith in
            (d, g, rw (positive, g) refl),
      )

  -- A leader whose log has exactly the indexes from 1 to `last`, a peer whose next index is from 1
  -- to one behind `last`, and the peer's node, in no later term and with a lawful log store: if the
  -- leader's entries of a term at which the node's log differs from its own stand only before
  -- that place, then at most as many rounds as the next index says reach one that
  -- the node accepts, at no later index, after which its log has the leader's terms
  -- from before that index to `last`.
  pub catch_up-IsCaughtUp :
      (rounds : ℕ) (r f : RaftNode L T) (p : PeerState) (last : ℕ)
      → IsLog logs
      → IsWhole logs r.log_store last
      → AreOrdered logs r.log_store f.log_store
      → f.current_term ≤ r.current_term
      → 0 < p.next_index
      → p.next_index ≤ suc last
      → p.next_index ≤ rounds
      → IsCaughtUp r p last (catch_up logs stable rounds r p f)
  unfolding catch_up
  catch_up-IsCaughtUp zero r f p last law w o t h k s = absurd (omega arith)
  catch_up-IsCaughtUp (suc n) r f p last law w o t h k s =
      elim (Bool-cases
        ((handle_append_entries logs stable f (request_for logs stable r p)).1.success)) [
          | inl y ↦ rw y (record {
            after = _;
            from = p;
            to = _;
            ends = refl;
            positive = h;
            back = omega arith;
            is_matched = replicate-IsMatched logs stable r f p last law w h k y;
            notes = refl;
          })
          | inr y ↦
              let req = request_for logs stable r p in
              let (prev, before) = request_previous r p last w h k in
              let (e, l, c) =
                refused_round f _ req _ (let z = w.small in omega (arith, prev))
                  (omega (arith, t, request_term r p))
                  (handle_append_entries-Effect logs stable f req law (
                    request-IsRun logs stable r p last w h k
                      (request-IsPiece logs stable r p last w h k)))
                  y in
              let (d, g, m) = before c.positive in
              let (a, b) =
                backs_up logs r.log_store f.log_store p req d _ o
                  (let z = w.small in omega (arith, prev)) g m c in
              rw y (
                further r p _ last _ (omega (arith, prev, b)) (
                  catch_up-IsCaughtUp n r _ (back_up logs r.log_store p _) last law w
                    (subst (AreOrdered logs r.log_store) (sym l) o)
                    (omega (arith, e, request_term r p)) a (omega (arith, prev, b))
                    (omega (arith, prev, b))))
        ]
