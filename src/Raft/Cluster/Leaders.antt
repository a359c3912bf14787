-- ===== src/Raft/Cluster/Leaders.antt =====
-- Hearing of a leader, becoming one, and starting again are moves of the rules.
use ds_collaborative_editor.Base.{
  ℕ, ◌<◌, List, some, false, Bool-cases, ltb, ltb→lt, if_true, if_false, ◌≡◌, ◌≢◌, refl, sym, ◌∙◌,
  ap, subst, inl, inr, arith,
}
use ds_collaborative_editor.Base.Int.{word_mod}
use ds_collaborative_editor.Base.Text.{Text}
use ds_collaborative_editor.Raft.Types.{
  follower, candidate, leader, ServerState, AppendEntriesRequest, LogStore, StableStore,
}
use ds_collaborative_editor.Raft.Node.{RaftNode, persist_state, step_down, find_addr}
use ds_collaborative_editor.Raft.Vote.Once.{IsSaved, IsStable, persist-IsSaved}
use ds_collaborative_editor.Raft.Append.{
  check_previous, is_follower, follow_leader, handle_append_entries,
}
use ds_collaborative_editor.Raft.Election.Quorum.{IsIn}
use ds_collaborative_editor.Raft.Election.Rule.{Grant, Win, Change, later, stays, forgets}
use ds_collaborative_editor.Raft.Cluster.{view, IsSame}
use ds_collaborative_editor.Raft.Cluster.Moves.{IsMoved, checked-IsSame}

module _ {L T : Type 0} (logs : LogStore L) (stable : StableStore T) where
  IsSame-IsSaved :
      (r after : RaftNode L T)
      → IsSame logs stable r after
      → IsSaved logs stable r
      → IsSaved logs stable after
  IsSame-IsSaved r after m s = record {
    small = subst (λ n. n < word_mod) (sym m.term) s.small;
    term = rw (m.store) (s.term ∙ ap some (sym m.term));
    vote = rw (m.store) (s.vote ∙ ap some (sym m.vote));
  }

  IsSame-view :
      (r after : RaftNode L T)
      → IsSame logs stable r after
      → view logs stable after ≡ view logs stable r
  IsSame-view r after m = rw (m.term, m.vote, m.state) refl

  pub work-IsMoved :
      (ids : List Text) (i : Text) (gs : List Grant) (ws : List Win) (r after : RaftNode L T)
      → IsSaved logs stable r
      → IsSame logs stable r after
      → IsMoved logs stable ids i gs ws r after gs ws
  work-IsMoved ids i gs ws r after s m = record {
    change = stays m.term m.vote (inl m.state);
    server = m.server;
    peers = m.peers;
    saved = IsSame-IsSaved r after m s;
  }

  same-IsMoved :
      (ids : List Text) (i : Text) (gs : List Grant) (ws : List Win) (r f after : RaftNode L T)
      → IsMoved logs stable ids i gs ws r f gs ws
      → IsSame logs stable f after
      → IsMoved logs stable ids i gs ws r after gs ws
  same-IsMoved ids i gs ws r f after m e = record {
    change =
        subst (λ v. Change ids i gs ws (view logs stable r) v gs ws) (sym (IsSame-view f after e))
          m.change;
    server = e.server ∙ m.server;
    peers = e.peers ∙ m.peers;
    saved = IsSame-IsSaved f after e m.saved;
  }

  down-IsSaved :
      (r : RaftNode L T) (t : ℕ)
      → IsStable stable
      → t < word_mod
      → IsSaved logs stable (step_down logs stable t r)
  unfolding step_down
  down-IsSaved r t h k = persist-IsSaved logs stable _ h k

  pub depose-IsMoved :
      (ids : List Text) (i : Text) (gs : List Grant) (ws : List Win) (r : RaftNode L T) (t : ℕ)
      → IsStable stable
      → r.current_term < t
      → t < word_mod
      → IsMoved logs stable ids i gs ws r (step_down logs stable t r) gs ws
  unfolding step_down persist_state
  depose-IsMoved ids i gs ws r t h n k = record {
    change = later n refl;
    server = refl;
    peers = refl;
    saved = unfold step_down persist_state in down-IsSaved r t h k;
  }

  -- The fields that a request sets on a follower.
  abbrev led : AppendEntriesRequest → RaftNode L T → RaftNode L T
  led req a = record a {
    state = follower;
    leader_id = req.leader_id;
    leader_addr = find_addr a.config_peers req.leader_id a.leader_addr;
  }

  led-IsMoved :
      (ids : List Text) (i : Text) (gs : List Grant) (ws : List Win) (r a : RaftNode L T)
      (req : AppendEntriesRequest)
      → IsMoved logs stable ids i gs ws r a gs ws
      → a.state ≡ follower
      → IsMoved logs stable ids i gs ws r (led req a) gs ws
  led-IsMoved ids i gs ws r a req m f = same-IsMoved ids i gs ws r a (led req a) m (record {
    server = refl;
    peers = refl;
    term = refl;
    vote = refl;
    state = sym f;
    store = refl;
  })

  pub down_state : (r : RaftNode L T) (t : ℕ) → (step_down logs stable t r).state ≡ follower
  unfolding step_down persist_state
  down_state r t = refl

  forgets-IsMoved :
      (ids : List Text) (i : Text) (gs : List Grant) (ws : List Win) (r : RaftNode L T)
      (req : AppendEntriesRequest)
      → IsStable stable
      → req.leader_id ≢ i
      → req.term < word_mod
      → IsIn (req.leader_id, req.term) ws
      → req.term ≡ r.current_term
      → r.state ≢ follower
      → IsMoved logs stable ids i gs ws r (step_down logs stable req.term r) gs ws
  unfolding step_down persist_state
  forgets-IsMoved ids i gs ws r req h ne k w e f = record {
    change = forgets req.leader_id ne (subst (λ t. IsIn (req.leader_id, t) ws) e w) e f refl;
    server = refl;
    peers = refl;
    saved = unfold step_down persist_state in down-IsSaved r req.term h k;
  }

  not_follower : (s : ServerState) → is_follower s ≡ false → s ≢ follower
  unfolding is_follower
  not_follower follower h e = cc
  not_follower candidate h e = cc
  not_follower leader h e = cc

  follow-IsMoved :
      (ids : List Text) (i : Text) (gs : List Grant) (ws : List Win) (r : RaftNode L T)
      (req : AppendEntriesRequest)
      → IsStable stable
      → IsSaved logs stable r
      → req.leader_id ≢ i
      → req.term < word_mod
      → IsIn (req.leader_id, req.term) ws
      → ltb req.term r.current_term ≡ false
      → IsMoved logs stable ids i gs ws r (follow_leader logs stable r req) gs ws
  unfolding follow_leader
  follow-IsMoved ids i gs ws r req h s ne k w n = elim (Bool-cases (ltb r.current_term req.term)) [
    | inl y ↦
        subst (λ a. IsMoved logs stable ids i gs ws r (led req a) gs ws) (sym (if_true _ _ y))
          (led-IsMoved ids i gs ws r (step_down logs stable req.term r) req
            (depose-IsMoved ids i gs ws r req.term h (ltb→lt _ _ y) k) (down_state r req.term))
    | inr m ↦ elim (Bool-cases (is_follower r.state)) [
      | inl y ↦
          subst (λ a. IsMoved logs stable ids i gs ws r (led req a) gs ws)
            (sym (if_false _ _ m ∙ if_true _ _ y))
            (record {
              change = stays refl refl (inr refl);
              server = refl;
              peers = refl;
              saved = record { small = s.small; term = s.term; vote = s.vote };
            })
      | inr y ↦
          let e : req.term ≡ r.current_term = ground arith in
          subst (λ a. IsMoved logs stable ids i gs ws r (led req a) gs ws)
            (sym (if_false _ _ m ∙ if_false _ _ y))
            (led-IsMoved ids i gs ws r (step_down logs stable req.term r) req
              (forgets-IsMoved ids i gs ws r req h ne k w e (not_follower r.state y))
              (down_state r req.term))
    ]
  ]

  pub append-IsMoved :
      (ids : List Text) (i : Text) (gs : List Grant) (ws : List Win) (r : RaftNode L T)
      (req : AppendEntriesRequest)
      → IsStable stable
      → IsSaved logs stable r
      → req.leader_id ≢ i
      → req.term < word_mod
      → IsIn (req.leader_id, req.term) ws
      → IsMoved logs stable ids i gs ws r ((handle_append_entries logs stable r req).0) gs ws
  unfolding handle_append_entries
  append-IsMoved ids i gs ws r req h s ne k w = elim (Bool-cases (ltb req.term r.current_term)) [
    | inl y ↦
        rw y
          (record { change = stays refl refl (inl refl); server = refl; peers = refl; saved = s })
    | inr n ↦ rw n (
        same-IsMoved ids i gs ws r (follow_leader logs stable r req) _
          (follow-IsMoved ids i gs ws r req h s ne k w n)
          (checked-IsSame logs stable (follow_leader logs stable r req) req _))
  ]

  led_state :
      (r : RaftNode L T) (req : AppendEntriesRequest)
      → (follow_leader logs stable r req).state ≡ follower
  unfolding follow_leader
  led_state r req = refl

  -- A node that is a candidate after an AppendEntries request is in the term that it was in.
  pub handle_append_entries_kept :
      (r : RaftNode L T) (req : AppendEntriesRequest)
      → ((handle_append_entries logs stable r req).0).state ≡ candidate
      → ((handle_append_entries logs stable r req).0).current_term ≡ r.current_term
  unfolding handle_append_entries
  handle_append_entries_kept r req c = elim (Bool-cases (ltb req.term r.current_term)) [
    | inl y ↦ rw y refl
    | inr n ↦
        let f = follow_leader logs stable r req in
        let m = checked-IsSame logs stable f req (check_previous logs f.log_store req) in
        let z = sym (m.state ∙ led_state r req) ∙ (rw n at c) in cc
  ]
