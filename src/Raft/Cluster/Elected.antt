-- ===== src/Raft/Cluster/Elected.antt =====
-- Counting votes and starting again are moves of the rules.
use ds_collaborative_editor.Base.{
  ℕ, Option, suc, ◌+◌, List, ◌∷◌, length, some, true, false, if_true, if_false, ◌≡◌, ◌≢◌, refl, sym,
  ◌∙◌, subst, inl, inr, arith,
}
use ds_collaborative_editor.Base.Text.{Text}
use ds_collaborative_editor.Raft.Types.{
  follower, candidate, leader, ServerState, LogStore, StableStore,
}
use ds_collaborative_editor.Raft.Node.{RaftNode, restore_state, step_down}
use ds_collaborative_editor.Raft.Vote.Once.{
  IsSaved, IsStable, rebooted, restarted, restored, after_event,
}
use ds_collaborative_editor.Raft.Replicate.{is_leader}
use ds_collaborative_editor.Raft.Election.{is_candidate, become_leader, receive_vote}
use ds_collaborative_editor.Raft.Election.Quorum.{IsIn}
use ds_collaborative_editor.Raft.Election.Rule.{Grant, Win, IsElected, stays, wins}
use ds_collaborative_editor.Raft.Election.Count.{
  Answer, grants_of, Received, counted, refused, won, outdated, receive_vote-Received,
}
use ds_collaborative_editor.Raft.Cluster.{Cluster, Poll, ids_of, IsAnswer, with_win, next_poll}
use ds_collaborative_editor.Raft.Cluster.Polls.{
  IsPolling, IsPoll, answered-IsPolling, polled-IsElected,
}
use ds_collaborative_editor.Raft.Cluster.Moves.{IsMoved}
use ds_collaborative_editor.Raft.Cluster.Leaders.{depose-IsMoved, down_state}

some_inj : {A : Type 0} {x y : A} → some x ≡ some y → x ≡ y
some_inj e = cc

module _ {L T : Type 0} (logs : LogStore L) (stable : StableStore T) where
  pub is_candidate_lem : (s : ServerState) → is_candidate s ≡ true → s ≡ candidate
  unfolding is_candidate
  is_candidate_lem candidate h = refl
  is_candidate_lem follower h = cc
  is_candidate_lem leader h = cc

  candidate-is_leader : (s : ServerState) → is_candidate s ≡ true → is_leader s ≡ false
  unfolding is_candidate is_leader
  candidate-is_leader candidate h = refl
  candidate-is_leader follower h = cc
  candidate-is_leader leader h = cc

  follower-is_leader : (s : ServerState) → s ≡ follower → is_leader s ≡ false
  unfolding is_leader
  follower-is_leader follower h = refl
  follower-is_leader candidate h = refl
  follower-is_leader leader h = cc

  -- A candidate with a quorum wins.
  pub elected-IsMoved :
      (ids : List Text) (i : Text) (gs : List Grant) (ws : List Win) (r : RaftNode L T)
      → IsSaved logs stable r
      → is_candidate r.state ≡ true
      → IsElected ids gs i r.current_term
      → IsMoved logs stable ids i gs ws r
          (become_leader logs stable r)
          gs
          ((i, r.current_term) ∷ ws)
  unfolding become_leader
  elected-IsMoved ids i gs ws r s k e = record {
    change = wins refl refl (is_candidate_lem r.state k) e;
    server = refl;
    peers = refl;
    saved = record { small = s.small; term = s.term; vote = s.vote };
  }

  leader_win :
      (i : Text) (r : RaftNode L T) (ws : List Win)
      → with_win logs stable i (become_leader logs stable r) ws ≡ ((i, r.current_term) ∷ ws)
  unfolding become_leader is_leader
  leader_win i r ws = refl

  restarted-IsMoved :
      (ids : List Text) (i : Text) (gs : List Grant) (ws : List Win) (r : RaftNode L T)
      → IsSaved logs stable r
      → IsMoved logs stable ids i gs ws r (restarted logs stable r) gs ws
  unfolding rebooted
  restarted-IsMoved ids i gs ws r s = record {
    change = stays refl refl (inr refl);
    server = refl;
    peers = refl;
    saved = record { small = s.small; term = s.term; vote = s.vote };
  }

  -- What the node does with a vote, and the poll after it.
  pub record IsReceived (c : Cluster L T) (i : Text) (p : Poll) (a : Answer)
      (result : RaftNode L T × Option ℕ) : Type 0 where
    pub moved :
        IsMoved logs stable
          (ids_of (c.nodes i).config_peers)
          i
          c.grants
          c.wins
          (c.nodes i)
          result.0
          c.grants
          (with_win logs stable i result.0 c.wins)
    pub poll : IsPoll logs stable i c.grants result.0 (next_poll logs stable p a result)

  counted-IsReceived :
      (c : Cluster L T) (i : Text) (p : Poll) (a : Answer) (votes : ℕ)
      → IsSaved logs stable (c.nodes i)
      → IsPolling logs stable i c.grants (c.nodes i) p
      → IsAnswer logs stable c i p a
      → votes ≡ 1 + length (grants_of (a ∷ p.heard))
      → IsReceived c i p a (c.nodes i, some votes)
  counted-IsReceived c i p a votes s h k n = record {
    moved =
        subst
          (IsMoved logs stable (ids_of (c.nodes i).config_peers) i c.grants c.wins (c.nodes i)
            (c.nodes i) c.grants)
          (sym (if_false _ _ (candidate-is_leader _ h.candidate)))
          (record { change = stays refl refl (inl refl); server = refl; peers = refl; saved = s });
    poll =
        subst (IsPoll logs stable i c.grants (c.nodes i)) (sym (if_true _ _ h.candidate))
          (answered-IsPolling logs stable c i p a votes h k n);
  }

  received :
      (c : Cluster L T) (i : Text) (p : Poll) (a : Answer) (result : RaftNode L T × Option ℕ)
      → IsStable stable
      → IsSaved logs stable (c.nodes i)
      → IsIn (i, (c.nodes i).current_term, i) c.grants
      → IsPolling logs stable i c.grants (c.nodes i) p
      → IsAnswer logs stable c i p a
      → Received logs stable (c.nodes i) p.votes (a.1) result
      → IsReceived c i p a result
  received c i p a result st s own h k (counted v e _) =
      subst (IsReceived c i p a) (sym e)
        (counted-IsReceived c i p a (suc p.votes) s h k (rw v (omega (arith, h.counted))))
  received c i p a result st s own h k (refused v e) =
      subst (IsReceived c i p a) (sym e) (counted-IsReceived c i p a p.votes s h k (rw v h.counted))
  received c i p a result st s own h k (won v e q) =
      let all : IsPolling logs stable i c.grants (c.nodes i)
          (record p { votes = suc p.votes; heard = a ∷ p.heard }) =
        answered-IsPolling logs stable c i p a (suc p.votes) h k
          (rw v (omega (arith, h.counted))) in
      subst (IsReceived c i p a) (sym e) (record {
        moved =
            subst
              (IsMoved logs stable (ids_of (c.nodes i).config_peers) i c.grants c.wins (c.nodes i)
                (become_leader logs stable (c.nodes i)) c.grants)
              (sym (leader_win i (c.nodes i) c.wins))
              (elected-IsMoved _ i c.grants c.wins (c.nodes i) s h.candidate
                (polled-IsElected logs stable i c.grants (c.nodes i) _ own all q));
        poll = tt;
      })
  received c i p a result st s own h k (outdated n e) = subst (IsReceived c i p a) (sym e) (record {
    moved =
        subst
          (IsMoved logs stable (ids_of (c.nodes i).config_peers) i c.grants c.wins (c.nodes i)
            (step_down logs stable (a.1.term) (c.nodes i)) c.grants)
          (sym
            (if_false _ _ (follower-is_leader _ (down_state logs stable (c.nodes i) (a.1.term)))))
          (depose-IsMoved logs stable _ i c.grants c.wins (c.nodes i) (a.1.term) st n k.small);
    poll = tt;
  })

  pub receive-IsReceived :
      (c : Cluster L T) (i : Text) (p : Poll) (a : Answer)
      → IsStable stable
      → IsSaved logs stable (c.nodes i)
      → ((c.nodes i).state ≢ follower → IsIn (i, (c.nodes i).current_term, i) c.grants)
      → IsPolling logs stable i c.grants (c.nodes i) p
      → IsAnswer logs stable c i p a
      → IsReceived c i p a (receive_vote logs stable (c.nodes i) p.votes (a.1))
  receive-IsReceived c i p a st s own h k =
      received c i p a _ st s
        (own (λ e. let z = is_candidate_lem (c.nodes i).state h.candidate in cc)) h k
        (receive_vote-Received logs stable (c.nodes i) p.votes (a.1))

  pub restart-IsMoved :
      (ids : List Text) (i : Text) (gs : List Grant) (ws : List Win) (r after : RaftNode L T)
      → IsSaved logs stable r
      → restore_state logs stable (rebooted logs stable r) ≡ some after
      → IsMoved logs stable ids i gs ws r after gs ws
  unfolding after_event
  restart-IsMoved ids i gs ws r after s e =
      let f = restored logs stable r s in
      let g : restarted logs stable r ≡ after = some_inj (sym f ∙ e) in
      subst (λ x. IsMoved logs stable ids i gs ws r x gs ws) g (restarted-IsMoved ids i gs ws r s)
