-- ===== src/Raft/Replicate/Late.antt =====
-- What a success does to the leader's fields, when it comes in time and when it comes late.
use ds_collaborative_editor.Base.{
  ℕ, suc, ◌<◌, List, [], ◌∷◌, ◌++◌, Option, none, some, ltb, true, false, Bool-cases, ◌≡◌, ◌⊎◌,
  refl, ap, ◌∙◌, inl, inr, if_true, arith, if◌then◌else◌,
}
use ds_collaborative_editor.Base.Int.{word_mod, add64_lem}
use ds_collaborative_editor.Base.Text.{Text, text_eq, text_eq-eq, text_eq_refl}
use ds_collaborative_editor.Raft.Types.{LogEntry, AppendEntriesResponse, LogStore, StableStore}
use ds_collaborative_editor.Raft.Node.{RaftNode}
use ds_collaborative_editor.Raft.Commit.{PeerState, advance_commit_index}
use ds_collaborative_editor.Raft.Commit.Majority.{IsAdvance, advance_commit_index-IsAdvance}
use ds_collaborative_editor.Raft.Replicate.{
  put_peer, last_of, matched, with_peers, handle_append_response,
}

-- `r.peers[id]`.
abbrev pub find_peer : List PeerState → Text → Option PeerState
find_peer [] id = none
find_peer (q ∷ ps) id = let rest = find_peer ps id in if text_eq q.id id then some q else rest

put_peer-find :
    (ps : List PeerState) (p q : PeerState)
    → find_peer ps p.id ≡ some q
    → find_peer (put_peer ps p) p.id ≡ some p
unfolding put_peer
put_peer-find [] p q e = cc
put_peer-find (x ∷ ps) p q e = elim (Bool-cases (text_eq x.id p.id)) [
  | inl y ↦ rw y (if_true _ _ (text_eq_refl p.id))
  | inr d ↦ rw d (rw d (put_peer-find ps p q (rw d at e)))
]

put_peer-find_other :
    (ps : List PeerState) (p : PeerState) (id : Text)
    → text_eq p.id id ≡ false
    → find_peer (put_peer ps p) id ≡ find_peer ps id
unfolding put_peer
put_peer-find_other [] p id n = refl
put_peer-find_other (x ∷ ps) p id n = elim (Bool-cases (text_eq x.id p.id)) [
  | inl y ↦
      let same : text_eq x.id id ≡ false = ap (λ i. text_eq i id) (text_eq-eq x.id p.id y) ∙ n in
      rw y (rw (n, same) refl)
  | inr d ↦ rw d (ap (λ o. if text_eq x.id id then some x else o) (put_peer-find_other ps p id n))
]

last_of-append :
    (e last : LogEntry) (front : List LogEntry) → last_of e (front ++ (last ∷ [])) ≡ last.index
unfolding last_of
last_of-append e last [] = refl
last_of-append e last (x ∷ front) = last_of-append x last front

-- A peer that holds the log up to an index.
abbrev pub up_to : PeerState → ℕ → PeerState
up_to p index = record p { match_index = index; next_index = suc index }

matched-append :
    (p : PeerState) (front : List LogEntry) (last : LogEntry)
    → suc last.index < word_mod
    → matched p (front ++ (last ∷ [])) ≡ up_to p last.index
unfolding matched last_of
matched-append p [] last h =
    rw (add64_lem last.index 1 (omega arith))
      (ap (λ n. record p { match_index = last.index; next_index = n }) (omega arith))
matched-append p (e ∷ front) last h =
    rw (last_of-append e last front, add64_lem last.index 1 (omega arith))
      (ap (λ n. record p { match_index = last.index; next_index = n }) (omega arith))

module _ {L T : Type 0} (logs : LogStore L) (stable : StableStore T) where
  success_lem :
      (r after : RaftNode L T) (peers : List PeerState) (p : PeerState) (entries : List LogEntry)
      (resp : AppendEntriesResponse)
      → ltb r.current_term resp.term ≡ false
      → resp.success ≡ true
      → advance_commit_index logs r (put_peer peers (matched p entries)) ≡ some after
      → handle_append_response logs stable r peers p entries resp
        ≡ some (after, put_peer peers (matched p entries))
  unfolding handle_append_response with_peers
  success_lem r after peers p entries resp n y a = rw n (rw y (rw a refl))

  -- A success of no later term, for a request with entries of which `last` is the last one, to a
  -- peer that is still in `r.peers`. Whatever the state of the node is, so also when it has become
  -- a follower since it sent the request, the peer's match index becomes the index of `last` and
  -- its next index the one behind it, no other peer changes, and the commit index stays or rises
  -- to an index of the node's term that a majority of the new match indexes holds.
  pub handle_append_response-late :
      (r : RaftNode L T) (peers : List PeerState) (p : PeerState) (front : List LogEntry)
      (last : LogEntry) (resp : AppendEntriesResponse)
      → ltb r.current_term resp.term ≡ false
      → resp.success ≡ true
      → find_peer peers p.id ≡ some p
      → suc last.index < word_mod
      → (after : RaftNode L T) × (list : List PeerState) × (handle_append_response logs stable r
            peers p
            (front ++ (last ∷ []))
            resp
          ≡ some (after, list))
        × (find_peer list p.id ≡ some (up_to p last.index))
        × ((id : Text) → text_eq p.id id ≡ false → find_peer list id ≡ find_peer peers id)
        × (advance_commit_index logs r list ≡ some after)
        × ((after ≡ r) ⊎ IsAdvance logs r after list)
  handle_append_response-late r peers p front last resp n y f small =
      let m = matched-append p front last small in
      let list = put_peer peers (matched p (front ++ (last ∷ []))) in
      let (after, a, k) = advance_commit_index-IsAdvance logs r list in
      (
        after,
        list,
        success_lem r after peers p (front ++ (last ∷ [])) resp n y a,
        ap (λ q. find_peer (put_peer peers q) p.id) m
            ∙ put_peer-find peers (up_to p last.index) p f,
        (λ id d.
            ap (λ q. find_peer (put_peer peers q) id) m
            ∙ put_peer-find_other peers (up_to p last.index) id d),
        a,
        k,
      )
