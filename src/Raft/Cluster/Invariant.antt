-- ===== src/Raft/Cluster/Invariant.antt =====
-- What every cluster has that is reached without a step down of a waiting node.
use ds_collaborative_editor.Base.{List, Option, refl, ◌≡◌, ◌≢◌, sym, ◌∙◌, ap, subst, inl, inr}
use ds_collaborative_editor.Base.Text.{Text}
use ds_collaborative_editor.Raft.Types.{PeerConfig, LogStore, StableStore}
use ds_collaborative_editor.Raft.Node.{RaftNode}
use ds_collaborative_editor.Raft.Vote.Once.{IsSaved}
use ds_collaborative_editor.Raft.Election.Rule.{Grant, Win, Change, IsLawful}
use ds_collaborative_editor.Raft.Election.Lawful.{
  IsLed, Change_more, Change_keeps, Change-IsLawful, Change-IsLed,
}
use ds_collaborative_editor.Raft.Cluster.{Cluster, Poll, ids_of, view, place}
use ds_collaborative_editor.Raft.Cluster.Polls.{IsPoll, IsPoll-more}
use ds_collaborative_editor.Raft.Cluster.Moves.{IsMoved}
use ds_collaborative_editor.Raft.Cluster.Place.{same_or_other, place_same, place_other, placed}

module _ {L T : Type 0} (logs : LogStore L) (stable : StableStore T) where
  -- What every cluster has that is reached calmly.
  pub record IsSafe (peers : List PeerConfig) (c : Cluster L T) : Type 0 where
    pub law : IsLawful (ids_of peers) (λ i. view logs stable (c.nodes i)) c.grants c.wins
    pub led : (i : Text) → IsLed i (view logs stable (c.nodes i)) c.wins
    pub saved : (i : Text) → IsSaved logs stable (c.nodes i)
    pub peers_of : (i : Text) → (c.nodes i).config_peers ≡ peers
    pub server_of : (i : Text) → (c.nodes i).server_id ≡ i
    pub polls_of : (i : Text) → IsPoll logs stable i c.grants (c.nodes i) (c.polls i)

  -- A node moves by a rule, and its poll is right after it.
  pub moved-IsSafe :
      (peers : List PeerConfig) (c : Cluster L T) (i : Text) (r : RaftNode L T)
      (ps : Text → Option Poll) (gs : List Grant) (ws : List Win)
      → IsSafe peers c
      → IsMoved logs stable (ids_of (c.nodes i).config_peers) i c.grants c.wins (c.nodes i) r gs ws
      → ((j : Text) → j ≢ i → ps j ≡ c.polls j)
      → IsPoll logs stable i gs r (ps i)
      → IsSafe peers (record { nodes = place i r c.nodes; polls = ps; grants = gs; wins = ws })
  moved-IsSafe peers c i r ps gs ws s m0 frame poll =
      let m : IsMoved logs stable (ids_of peers) i c.grants c.wins (c.nodes i) r gs ws =
        subst (λ x. IsMoved logs stable (ids_of x) i c.grants c.wins (c.nodes i) r gs ws)
          (s.peers_of i) m0 in
      let more = Change_more (ids_of peers) i c.grants gs c.wins ws _ _ m.change in
      let keeps = Change_keeps (ids_of peers) i c.grants gs c.wins ws _ _ m.change in
      record {
        law =
            Change-IsLawful (ids_of peers) (λ j. view logs stable (c.nodes j))
              (λ j. view logs stable (place i r c.nodes j)) c.grants c.wins i s.law
              (λ j n. ap (view logs stable) (place_other i j r c.nodes n))
              (subst
                (λ x.
                  Change (ids_of peers) i c.grants c.wins (view logs stable (c.nodes i))
                    (view logs stable x) gs ws)
                (sym (place_same i r c.nodes)) m.change);
        led =
            placed (λ j x. IsLed j (view logs stable x) ws) i r c.nodes
              (Change-IsLed (ids_of peers) i c.grants gs c.wins ws _ _ m.change (s.led i))
              (λ j h. more _ (s.led j h));
        saved = placed (λ j. IsSaved logs stable) i r c.nodes m.saved s.saved;
        peers_of =
            placed (λ j x. x.config_peers ≡ peers) i r c.nodes (m.peers ∙ s.peers_of i) s.peers_of;
        server_of =
            placed (λ j x. x.server_id ≡ j) i r c.nodes (m.server ∙ s.server_of i) s.server_of;
        polls_of = λ j. elim (same_or_other i j) [
          | inl y ↦
              subst (λ z. IsPoll logs stable z gs (place i r c.nodes z) (ps z)) (sym y)
                (subst (λ x. IsPoll logs stable i gs x (ps i)) (sym (place_same i r c.nodes)) poll)
          | inr n ↦
              subst (λ x. IsPoll logs stable j gs x (ps j)) (sym (place_other i j r c.nodes n))
                (subst (IsPoll logs stable j gs (c.nodes j)) (sym (frame j n)) (
                  IsPoll-more logs stable j c.grants gs (c.nodes j) (c.nodes j) (c.polls j) keeps
                    refl refl refl (s.polls_of j)))
        ];
      }

  -- The same where the poll of the node is replaced.
  pub polled-IsSafe :
      (peers : List PeerConfig) (c : Cluster L T) (i : Text) (r : RaftNode L T) (p : Option Poll)
      (gs : List Grant) (ws : List Win)
      → IsSafe peers c
      → IsMoved logs stable (ids_of (c.nodes i).config_peers) i c.grants c.wins (c.nodes i) r gs ws
      → IsPoll logs stable i gs r p
      → IsSafe peers
          (record { nodes = place i r c.nodes; polls = place i p c.polls; grants = gs; wins = ws })
  polled-IsSafe peers c i r p gs ws s m h =
      moved-IsSafe peers c i r (place i p c.polls) gs ws s m (λ j n. place_other i j p c.polls n)
        (subst (IsPoll logs stable i gs r) (sym (place_same i p c.polls)) h)
