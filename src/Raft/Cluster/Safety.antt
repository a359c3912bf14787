-- ===== src/Raft/Cluster/Safety.antt =====
-- Election safety: a term has one leader at most.
use ds_collaborative_editor.Base.{
  suc, ◌<◌, List, [], ◌∷◌, ◌≤◌, none, some, refl, arith, ◌≡◌, ◌≢◌, sym, ◌∙◌, subst,
}
use ds_collaborative_editor.Base.Text.{Text}
use ds_collaborative_editor.Base.Int.{word_mod}
use ds_collaborative_editor.Raft.Types.{leader, follower, PeerConfig, LogStore, StableStore}
use ds_collaborative_editor.Raft.Node.{RaftNode, last_log_info, persist_state}
use ds_collaborative_editor.Raft.Vote.Once.{IsStable}
use ds_collaborative_editor.Raft.Vote.{start_election}
use ds_collaborative_editor.Raft.Election.{quorum, time_out, become_leader, is_candidate}
use ds_collaborative_editor.Raft.Election.Quorum.{IsIn}
use ds_collaborative_editor.Raft.Election.Rule.{Grant}
use ds_collaborative_editor.Raft.Election.Kept.{one_leader}
use ds_collaborative_editor.Raft.Election.Lawful.{Change_keeps}
use ds_collaborative_editor.Raft.Cluster.{
  Cluster, Poll, ids_of, place, Step, start, start_late, alone, receive, expire, vote, append,
  restart, depose, work, Reach, here, next, IsCalm, AreCalm, IsStart,
}
use ds_collaborative_editor.Raft.Cluster.Polls.{
  IsPolling, IsPoll, IsPoll-more, still-IsPoll, polled-IsElected,
}
use ds_collaborative_editor.Raft.Cluster.Moves.{
  IsMoved, start-IsMoved, start_late-IsMoved, vote-IsMoved, handle_request_vote_kept,
}
use ds_collaborative_editor.Raft.Cluster.Leaders.{
  append-IsMoved, depose-IsMoved, work-IsMoved, handle_append_entries_kept,
}
use ds_collaborative_editor.Raft.Cluster.Elected.{
  is_candidate_lem, elected-IsMoved, receive-IsReceived, restart-IsMoved,
}
use ds_collaborative_editor.Raft.Cluster.Place.{placed}
use ds_collaborative_editor.Raft.Cluster.Invariant.{IsSafe, moved-IsSafe, polled-IsSafe}

module _ {L T : Type 0} (logs : LogStore L) (stable : StableStore T) where
  own_grant :
      (peers : List PeerConfig) (c : Cluster L T) (i : Text)
      → IsSafe logs stable peers c
      → (c.nodes i).state ≢ follower
      → IsIn (i, (c.nodes i).current_term, i) c.grants
  own_grant peers c i s n = (s.law.own i n).1

  polling :
      (peers : List PeerConfig) (c : Cluster L T) (i : Text) (p : Poll)
      → IsSafe logs stable peers c
      → c.polls i ≡ some p
      → IsPolling logs stable i c.grants (c.nodes i) p
  polling peers c i p s e = subst (IsPoll logs stable i c.grants (c.nodes i)) e (s.polls_of i)

  alone-IsSafe :
      (peers : List PeerConfig) (c : Cluster L T) (i : Text) (p : Poll)
      → IsSafe logs stable peers c
      → c.polls i ≡ some p
      → quorum logs stable (c.nodes i) ≤ 1
      → IsSafe logs stable peers (record c {
        nodes = place i (become_leader logs stable (c.nodes i)) c.nodes;
        polls = place i none c.polls;
        wins = (i, (c.nodes i).current_term) ∷ c.wins;
      })
  alone-IsSafe peers c i p s e q =
      let h = polling peers c i p s e in
      polled-IsSafe logs stable peers c i _ none _ _ s
        (elected-IsMoved logs stable _ i c.grants c.wins (c.nodes i) (s.saved i) h.candidate (
          polled-IsElected logs stable i c.grants (c.nodes i) p
            (own_grant peers c i s
              (λ f. let z = is_candidate_lem logs stable (c.nodes i).state h.candidate in cc))
            h (omega (arith, q, h.counted))))
        tt

  started-IsPolling :
      (i : Text) (gs : List Grant) (r : RaftNode L T)
      → IsIn i (ids_of r.config_peers)
      → IsPolling logs stable i gs
          ((start_election logs stable (time_out logs stable r)).0)
          (record {
            term = (start_election logs stable (time_out logs stable r)).1.term;
            votes = 1;
            heard = [];
          })
  unfolding start_election time_out is_candidate last_log_info persist_state
  started-IsPolling i gs r m = record {
    candidate = refl;
    term = refl;
    counted = refl;
    distinct = (λ k. k, tt);
    members = (m, tt);
    given = tt;
  }

  start-step :
      (peers : List PeerConfig) (c : Cluster L T) (i : Text)
      → IsStable stable
      → i ≢ []
      → suc ((c.nodes i).current_term) < word_mod
      → IsSafe logs stable peers c
      → IsMoved logs stable
          (ids_of (c.nodes i).config_peers)
          i
          c.grants
          c.wins
          (c.nodes i)
          ((start_election logs stable (time_out logs stable (c.nodes i))).0)
          ((i, (start_election logs stable (time_out logs stable (c.nodes i))).1.term, i)
            ∷ c.grants)
          c.wins
  start-step peers c i h ne k s =
      subst
        (λ z.
          IsMoved logs stable (ids_of (c.nodes i).config_peers) z c.grants c.wins (c.nodes i)
            ((start_election logs stable (time_out logs stable (c.nodes i))).0)
            ((z, (start_election logs stable (time_out logs stable (c.nodes i))).1.term, z)
              ∷ c.grants)
            c.wins)
        (s.server_of i)
        (start-IsMoved logs stable (ids_of (c.nodes i).config_peers) c.grants c.wins (c.nodes i) h
          (λ e. ne (sym (s.server_of i) ∙ e)) k)

  start_late-step :
      (peers : List PeerConfig) (c : Cluster L T) (i : Text)
      → IsStable stable
      → i ≢ []
      → (c.nodes i).state ≡ follower
      → suc ((c.nodes i).current_term) < word_mod
      → IsSafe logs stable peers c
      → IsMoved logs stable
          (ids_of (c.nodes i).config_peers)
          i
          c.grants
          c.wins
          (c.nodes i)
          ((start_election logs stable (c.nodes i)).0)
          ((i, (start_election logs stable (c.nodes i)).1.term, i) ∷ c.grants)
          c.wins
  start_late-step peers c i h ne f k s =
      subst
        (λ z.
          IsMoved logs stable (ids_of (c.nodes i).config_peers) z c.grants c.wins (c.nodes i)
            ((start_election logs stable (c.nodes i)).0)
            ((z, (start_election logs stable (c.nodes i)).1.term, z) ∷ c.grants) c.wins)
        (s.server_of i)
        (start_late-IsMoved logs stable (ids_of (c.nodes i).config_peers) c.grants c.wins
          (c.nodes i) h f (λ e. ne (sym (s.server_of i) ∙ e)) k)

  Step-IsSafe :
      (peers : List PeerConfig) {c d : Cluster L T}
      → IsStable stable
      → (st : Step logs stable c d) → IsCalm logs stable st
      → IsSafe logs stable peers c
      → IsSafe logs stable peers d
  Step-IsSafe peers {c} h (start i ne mem _ k) q s =
      polled-IsSafe logs stable peers c i _ (some _) _ _ s (start-step peers c i h ne k s)
        (started-IsPolling i _ (c.nodes i) mem)
  Step-IsSafe peers {c} h (start_late i ne f _ k) q s =
      polled-IsSafe logs stable peers c i _ none _ _ s (start_late-step peers c i h ne f k s) tt
  Step-IsSafe peers {c} h (alone i p e n) q s = alone-IsSafe peers c i p s e n
  Step-IsSafe peers {c} h (receive i p a e k) q s =
      let m =
        receive-IsReceived logs stable c i p a h (s.saved i) (own_grant peers c i s)
          (polling peers c i p s e) k in
      polled-IsSafe logs stable peers c i _ _ _ _ s m.moved m.poll
  Step-IsSafe peers {c} h (expire i) q s = record {
    law = s.law;
    led = s.led;
    saved = s.saved;
    peers_of = s.peers_of;
    server_of = s.server_of;
    polls_of = placed (λ j. IsPoll logs stable j c.grants (c.nodes j)) i none c.polls tt s.polls_of;
  }
  Step-IsSafe peers {c} h (vote i req ne ns k) q s =
      let m =
        vote-IsMoved logs stable (ids_of (c.nodes i).config_peers) i c.grants c.wins (c.nodes i) req
          h (s.saved i) ne ns k in
      polled-IsSafe logs stable peers c i _ _ _ _ s m (
        still-IsPoll logs stable i c.grants _ (c.nodes i) _ (c.polls i)
          (Change_keeps _ i c.grants _ c.wins _ _ _ m.change)
          (λ y.
            handle_request_vote_kept logs stable (c.nodes i) req (is_candidate_lem logs stable _ y))
          m.peers (s.polls_of i))
  Step-IsSafe peers {c} h (append i req ne k w) q s =
      let m =
        append-IsMoved logs stable (ids_of (c.nodes i).config_peers) i c.grants c.wins (c.nodes i)
          req h (s.saved i) ne k w in
      polled-IsSafe logs stable peers c i _ _ _ _ s m (
        still-IsPoll logs stable i c.grants c.grants (c.nodes i) _ (c.polls i) (λ g b. b)
          (λ y.
            handle_append_entries_kept logs stable (c.nodes i) req
              (is_candidate_lem logs stable _ y))
          m.peers (s.polls_of i))
  Step-IsSafe peers {c} h (depose i t n k) q s =
      moved-IsSafe logs stable peers c i _ c.polls _ _ s
        (depose-IsMoved logs stable _ i c.grants c.wins (c.nodes i) t h n k) (λ j b. refl)
        (subst (IsPoll logs stable i c.grants _) (sym q) tt)
  Step-IsSafe peers {c} h (restart i after e) q s =
      polled-IsSafe logs stable peers c i _ none _ _ s
        (restart-IsMoved logs stable _ i c.grants c.wins (c.nodes i) after (s.saved i) e) tt
  Step-IsSafe peers {c} h (work i after m) q s =
      moved-IsSafe logs stable peers c i _ c.polls _ _ s
        (work-IsMoved logs stable _ i c.grants c.wins (c.nodes i) after (s.saved i) m) (λ j n. refl)
        (IsPoll-more logs stable i c.grants c.grants (c.nodes i) after (c.polls i) (λ g k. k)
          m.state m.term m.peers (s.polls_of i))

  Reach-IsSafe :
      (peers : List PeerConfig) {c d : Cluster L T}
      → IsStable stable
      → IsSafe logs stable peers c
      → (r : Reach logs stable c d) → AreCalm logs stable r
      → IsSafe logs stable peers d
  Reach-IsSafe peers h s here q = s
  Reach-IsSafe peers h s (next r st) q = Step-IsSafe peers h st q.1 (Reach-IsSafe peers h s r q.0)

  start-IsSafe :
      (peers : List PeerConfig) (c : Cluster L T)
      → IsStart logs stable peers c
      → IsSafe logs stable peers c
  start-IsSafe peers c s = record {
    law = record {
      own = λ i n. absurd (n (s.idle i));
      cast = λ x t d g. absurd (rw (s.no_grants) at g);
      named = λ x t d g. absurd (rw (s.no_grants) at g);
      pair = λ x t d e g k. absurd (rw (s.no_grants) at g);
      won = λ i t w. absurd (rw (s.no_wins) at w);
    };
    led = λ i l. let f = s.idle i in cc;
    saved = s.saved;
    peers_of = s.peers_of;
    server_of = s.server_of;
    polls_of = λ i. rw (s.no_polls) tt;
  }

  -- A cluster of nodes with the same peers, whose stable stores work, starts as followers. After any
  -- sequence of elections, votes, AppendEntries requests from elected leaders, answers counted one
  -- by one, restarts and steps down, in which no replicator steps a node down while that node
  -- waits for votes, two nodes that are leaders in the same term are one node.
  pub election_safety :
      (peers : List PeerConfig) (c d : Cluster L T) (a b : Text)
      → IsStable stable
      → IsStart logs stable peers c
      → (r : Reach logs stable c d) → AreCalm logs stable r
      → (d.nodes a).state ≡ leader
      → (d.nodes b).state ≡ leader
      → (d.nodes a).current_term ≡ (d.nodes b).current_term
      → a ≡ b
  election_safety peers c d a b h s r q x y t =
      let z = Reach-IsSafe peers h (start-IsSafe peers c s) r q in
      one_leader (ids_of peers) _ d.grants d.wins a b _ z.law (z.led a x)
        (subst (λ u. IsIn (b, u) d.wins) (sym t) (z.led b y))
