-- ===== src/Raft/Cluster/Polls.antt =====
-- What a candidate that waits for votes has counted.
use ds_collaborative_editor.Base.{
  ℕ, suc, ◌+◌, ◌≤◌, List, [], ◌∷◌, length, Option, none, some, true, Bool-cases, if_true, if_false,
  ◌≡◌, refl, sym, ◌∙◌, subst, ap, inl, inr, arith, All, All-map,
}
use ds_collaborative_editor.Base.Text.{Text}
use ds_collaborative_editor.Raft.Types.{PeerConfig, LogStore, StableStore}
use ds_collaborative_editor.Raft.Node.{RaftNode}
use ds_collaborative_editor.Raft.Election.{is_candidate, quorum}
use ds_collaborative_editor.Raft.Election.Quorum.{IsIn, AreDistinct}
use ds_collaborative_editor.Raft.Election.Rule.{Grant, IsElected}
use ds_collaborative_editor.Raft.Election.Count.{Answer, grants_of}
use ds_collaborative_editor.Raft.Cluster.{Cluster, Poll, ids_of, senders, still, IsAnswer}

-- The voters of a candidate that has won are itself and the peers that grant.
grants-IsIn :
    (answers : List Answer) (x : Text) → IsIn x (grants_of answers) → IsIn x (senders answers)
grants-IsIn [] x h = h
grants-IsIn (a ∷ answers) x h = elim (Bool-cases (a.1.vote_granted)) [
  | inl y ↦ elim (subst (IsIn x) (if_true _ _ y) h) [
    | inl e ↦ inl e
    | inr k ↦ inr (grants-IsIn answers x k)
  ]
  | inr n ↦ inr (grants-IsIn answers x (subst (IsIn x) (if_false _ _ n) h))
]

grants-AreDistinct :
    (answers : List Answer) → AreDistinct (senders answers) → AreDistinct (grants_of answers)
grants-AreDistinct [] d = tt
grants-AreDistinct (a ∷ answers) d = elim (Bool-cases (a.1.vote_granted)) [
  | inl y ↦
      subst AreDistinct (sym (if_true _ _ y))
        (λ h. d.0 (grants-IsIn answers (a.0) h), grants-AreDistinct answers d.1)
  | inr n ↦ subst AreDistinct (sym (if_false _ _ n)) (grants-AreDistinct answers d.1)
]

grants-All :
    (P : Text → Type 0) (answers : List Answer)
    → All (λ (a : Answer). a.1.vote_granted ≡ true → P (a.0)) answers
    → All P (grants_of answers)
grants-All P [] h = tt
grants-All P (a ∷ answers) h = elim (Bool-cases (a.1.vote_granted)) [
  | inl y ↦ subst (All P) (sym (if_true _ _ y)) (h.0 y, grants-All P answers h.1)
  | inr n ↦ subst (All P) (sym (if_false _ _ n)) (grants-All P answers h.1)
]

senders-All :
    (P : Text → Type 0) (answers : List Answer)
    → All P (senders answers)
    → All (λ (a : Answer). a.1.vote_granted ≡ true → P (a.0)) answers
senders-All P [] h = tt
senders-All P (a ∷ answers) h = (λ _. h.0, senders-All P answers h.1)

length_ids : (ps : List PeerConfig) → length (ids_of ps) ≡ length ps
length_ids [] = refl
length_ids (p ∷ ps) = ap suc (length_ids ps)

module _ {L T : Type 0} (logs : LogStore L) (stable : StableStore T) where
  -- The node is the candidate of its election, and its votes are its own and those of distinct
  -- members that have voted for it in the term of the election.
  pub record IsPolling (i : Text) (gs : List Grant) (r : RaftNode L T) (p : Poll) : Type 0 where
    pub candidate : is_candidate r.state ≡ true
    pub term : r.current_term ≡ p.term
    pub counted : p.votes ≡ 1 + length (grants_of p.heard)
    pub distinct : AreDistinct (i ∷ senders p.heard)
    pub members : All (λ x. IsIn x (ids_of r.config_peers)) (i ∷ senders p.heard)
    pub given : All (λ (a : Answer). a.1.vote_granted ≡ true → IsIn (a.0, p.term, i) gs) p.heard

  abbrev pub IsPoll : Text → List Grant → RaftNode L T → Option Poll → Type 0
  IsPoll i gs r none = Unit
  IsPoll i gs r (some p) = IsPolling i gs r p

  pub IsPoll-more :
      (i : Text) (gs gs' : List Grant) (r after : RaftNode L T) (p : Option Poll)
      → ((g : Grant) → IsIn g gs → IsIn g gs')
      → after.state ≡ r.state
      → after.current_term ≡ r.current_term
      → after.config_peers ≡ r.config_peers
      → IsPoll i gs r p
      → IsPoll i gs' after p
  IsPoll-more i gs gs' r after none more s t ps h = tt
  IsPoll-more i gs gs' r after (some p) more s t ps h = record {
    candidate = subst (λ x. is_candidate x ≡ true) (sym s) h.candidate;
    term = t ∙ h.term;
    counted = h.counted;
    distinct = h.distinct;
    members = subst (λ x. All (λ y. IsIn y (ids_of x)) (i ∷ senders p.heard)) (sym ps) h.members;
    given = All-map _ _ p.heard (λ a k y. more _ (k y)) h.given;
  }

  -- After a message the poll goes on only if the node is still a candidate, in its term then.
  pub still-IsPoll :
      (i : Text) (gs gs' : List Grant) (r after : RaftNode L T) (p : Option Poll)
      → ((g : Grant) → IsIn g gs → IsIn g gs')
      → (is_candidate after.state ≡ true → after.current_term ≡ r.current_term)
      → after.config_peers ≡ r.config_peers
      → IsPoll i gs r p
      → IsPoll i gs' after (still logs stable after p)
  still-IsPoll i gs gs' r after none more t ps h = elim (Bool-cases (is_candidate after.state)) [
    | inl y ↦ subst (IsPoll i gs' after) (sym (if_true _ _ y)) tt
    | inr n ↦ subst (IsPoll i gs' after) (sym (if_false _ _ n)) tt
  ]
  still-IsPoll i gs gs' r after (some p) more t ps h =
      elim (Bool-cases (is_candidate after.state)) [
        | inl y ↦ subst (IsPoll i gs' after) (sym (if_true _ _ y)) (record {
          candidate = y;
          term = t y ∙ h.term;
          counted = h.counted;
          distinct = h.distinct;
          members =
              subst (λ x. All (λ z. IsIn z (ids_of x)) (i ∷ senders p.heard)) (sym ps) h.members;
          given = All-map _ _ p.heard (λ a k z. more _ (k z)) h.given;
        })
        | inr n ↦ subst (IsPoll i gs' after) (sym (if_false _ _ n)) tt
      ]

  pub answered-IsPolling :
      (c : Cluster L T) (i : Text) (p : Poll) (a : Answer) (votes : ℕ)
      → IsPolling i c.grants (c.nodes i) p
      → IsAnswer logs stable c i p a
      → votes ≡ 1 + length (grants_of (a ∷ p.heard))
      → IsPolling i c.grants (c.nodes i) (record p { votes = votes; heard = a ∷ p.heard })
  answered-IsPolling c i p a votes h k n = record {
    candidate = h.candidate;
    term = h.term;
    counted = n;
    distinct = (
      λ m. elim m [ inl e ↦ k.distinct (inl (sym e)) | inr b ↦ h.distinct.0 b ],
      (λ m. k.distinct (inr m), h.distinct.1),
    );
    members = (h.members.0, (k.member, h.members.1));
    given = (k.given, h.given);
  }

  -- The votes of a candidate that has a quorum.
  pub polled-IsElected :
      (i : Text) (gs : List Grant) (r : RaftNode L T) (p : Poll)
      → IsIn (i, r.current_term, i) gs
      → IsPolling i gs r p
      → quorum logs stable r ≤ p.votes
      → IsElected (ids_of r.config_peers) gs i r.current_term
  unfolding quorum
  polled-IsElected i gs r p own h q = record {
    voters = i ∷ grants_of p.heard;
    distinct =
        (λ k. h.distinct.0 (grants-IsIn p.heard i k), grants-AreDistinct p.heard h.distinct.1);
    members = (h.members.0, grants-All _ p.heard (senders-All _ p.heard h.members.1));
    many = omega (arith, q, h.counted, length_ids r.config_peers);
    voted = (
      own,
      subst (λ t. All (λ x. IsIn (x, t, i) gs) (grants_of p.heard)) (sym h.term)
          (grants-All _ p.heard h.given),
    );
  }
