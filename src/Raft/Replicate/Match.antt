-- ===== src/Raft/Replicate/Match.antt =====
-- A round of the leader that a peer accepts: the peer then has the leader's entries.
use ds_collaborative_editor.Base.{
  length, ℕ, suc, ◌+◌, ◌-◌, ◌≤◌, ◌<◌, List, [], ◌∷◌, some, Option-cases, ltb, leb, leb→le, ◌==◌,
  if_true, if_false, true, Bool-cases, ◌≡◌, sym, subst, ◌∙◌, ap, inl, inr, arith, All,
}
use ds_collaborative_editor.Base.Int.{add64_lem, sub64, sub64_lem, word_mod}
use ds_collaborative_editor.Raft.Types.{
  LogEntry, AppendEntriesRequest, AppendEntriesResponse, LogStore, StableStore,
}
use ds_collaborative_editor.Raft.Node.{RaftNode, index_or_zero}
use ds_collaborative_editor.Raft.Append.{consistent, check_previous, handle_append_entries}
use ds_collaborative_editor.Raft.Append.Match.{IsRun, IsLog, Holds, Agrees}
use ds_collaborative_editor.Raft.Append.Effect.{
  AppendEffect, stale, conflicted, appended, handle_append_entries-Effect,
}
use ds_collaborative_editor.Raft.Commit.{PeerState}
use ds_collaborative_editor.Raft.Replicate.{
  entries_from, last_of, matched, term_or_zero, request_for,
}
use ds_collaborative_editor.Raft.Replicate.Request.{IsWhole, IsPiece, entries_from-IsPiece}

-- A run with two properties of its entries has an entry with both at each of its indexes.
run_at :
    {P Q : LogEntry → Type 0} (i : ℕ) (es : List LogEntry)
    → IsRun i es
    → All P es
    → All Q es
    → (j : ℕ) → i ≤ j
    → j < i + length es
    → (e : LogEntry) × (e.index ≡ j) × P e × Q e
run_at i [] run p q j h k = absurd (omega arith)
run_at i (e ∷ es) run p q j h k = elim (Bool-cases (j == i)) [
  | inl y ↦ (e, ground arith, p.0, q.0)
  | inr n ↦ run_at (suc i) es run.1 p.1 q.1 j (ground arith) (omega arith)
]

last_of_run :
    (i : ℕ) (e : LogEntry) (es : List LogEntry) → IsRun i (e ∷ es) → last_of e es ≡ i + length es
unfolding last_of
last_of_run i e [] run = omega (arith, run.0)
last_of_run i e (e' ∷ es) run = omega (arith, last_of_run (suc i) e' es run.1)

-- The leader's fields for a peer that has taken a run of entries.
matched_run :
    (p : PeerState) (i : ℕ) (es : List LogEntry)
    → IsRun i es
    → 0 < length es
    → i + length es < word_mod
    → (suc ((matched p es).match_index) ≡ i + length es)
      × ((matched p es).next_index ≡ i + length es)
unfolding matched
matched_run p i [] run h k = absurd (omega arith)
matched_run p i (e ∷ es) run h k =
    let l = last_of_run i e es run in
    (omega (arith, l), omega (arith, l, add64_lem (last_of e es) 1 (omega (arith, l))))

module _ {L : Type 0} (logs : LogStore L) where
  -- Two logs have entries of the same term at an index.
  pub record IsSame (a b : L) (i : ℕ) : Type 0 where
    pub one : LogEntry
    pub other : LogEntry
    pub in_one : logs.get_log a i ≡ some one
    pub in_other : logs.get_log b i ≡ some other
    pub terms : one.term ≡ other.term

  -- A log that passes the check has the previous entry.
  consistent_lem :
      (l : L) (req : AppendEntriesRequest)
      → check_previous logs l req ≡ consistent
      → 0 < req.prev_log_index
      → (e : LogEntry) × (logs.get_log l req.prev_log_index ≡ some e) × (e.term ≡ req.prev_log_term)
  unfolding check_previous
  consistent_lem l req h k = elim (Bool-cases (req.prev_log_index == 0)) [
    | inl y ↦ absurd (ground arith)
    | inr n ↦ elim (Bool-cases (ltb (index_or_zero (logs.last_index l)) req.prev_log_index)) [
      | inl y ↦ let e = sym (if_false _ _ n ∙ if_true _ _ y) ∙ h in cc
      | inr m ↦ elim (Option-cases (logs.get_log l req.prev_log_index)) [
        | inl g ↦ let e = sym (if_false _ _ n ∙ if_false _ _ m) ∙ h in let x = rw g at e in cc
        | inr (e, g) ↦ elim (Bool-cases (e.term == req.prev_log_term)) [
          | inl y ↦ (e, g, ground arith)
          | inr q ↦
              let x = sym (if_false _ _ n ∙ if_false _ _ m) ∙ h in let y = rw q at (rw g at x) in cc
        ]
      ]
    ]
  ]

  -- A piece of a log that another log holds.
  held :
      (a b : L) (i n : ℕ) (es : List LogEntry)
      → IsPiece logs a i n es
      → All (Holds logs b) es
      → (j : ℕ) → i ≤ j
      → j < i + n
      → IsSame a b j
  held a b i n es p h j below above =
      let (e, x, own, (other, g, t)) =
        run_at {P = λ e. logs.get_log a e.index ≡ some e} {Q = Holds logs b} i es p.run p.own h j
          below (omega (arith, p.many)) in
      record {
        one = e;
        other = other;
        in_one = ap (logs.get_log a) (sym x) ∙ own;
        in_other = ap (logs.get_log b) (sym x) ∙ g;
        terms = sym t;
      }

module _ {L T : Type 0} (logs : LogStore L) (stable : StableStore T) where
  -- The peer's log has the terms of the leader's from one before `next` to `last`, and the leader
  -- has noted so.
  pub record IsMatched (r after : RaftNode L T) (p : PeerState) (last : ℕ) : Type 0 where
    pub same :
        (i : ℕ)
        → 0 < i
        → p.next_index ≤ suc i
        → i ≤ last
        → IsSame logs r.log_store after.log_store i
    pub noted :
        p.next_index ≤ last
        → ((matched p (request_for logs stable r p).entries).match_index ≡ last)
          × ((matched p (request_for logs stable r p).entries).next_index ≡ suc last)

  -- The entry before `next` is the same in a log that agrees with one that passes the check.
  previous-IsSame :
      (r : RaftNode L T) (a b : L) (p : PeerState) (last i : ℕ)
      → IsWhole logs r.log_store last
      → p.next_index ≤ suc last
      → check_previous logs a (request_for logs stable r p) ≡ consistent
      → Agrees logs (suc ((request_for logs stable r p).prev_log_index)) b a
      → 0 < i
      → suc i ≡ p.next_index
      → IsSame logs r.log_store b i
  unfolding request_for term_or_zero
  previous-IsSame r a b p last i w k c below h n =
      let (one, own, x) = w.stands i h (omega arith) in
      let prev : sub64 p.next_index 1 ≡ i =
        let z = w.small in sub64_lem p.next_index 1 (omega arith) (omega arith) ∙ omega arith in
      let (other, g, t) =
        consistent_lem logs a (request_for logs stable r p) c (omega (arith, prev)) in
      let positive : ltb 0 i ≡ true = ground arith in
      record {
        one = one;
        other = other;
        in_one = own;
        in_other = ap (logs.get_log b) (sym prev) ∙ (below _ (omega arith) ∙ g);
        terms = sym (rw (prev, positive, own) at t);
      }

  pub request-IsPiece :
      (r : RaftNode L T) (p : PeerState) (last : ℕ)
      → IsWhole logs r.log_store last
      → 0 < p.next_index
      → p.next_index ≤ suc last
      → IsPiece logs r.log_store p.next_index
          (suc last - p.next_index)
          ((request_for logs stable r p).entries)
  unfolding request_for
  request-IsPiece r p last w h k = entries_from-IsPiece logs r.log_store last p.next_index w h k

  pub request-IsRun :
      (r : RaftNode L T) (p : PeerState) (last : ℕ)
      → IsWhole logs r.log_store last
      → 0 < p.next_index
      → p.next_index ≤ suc last
      → IsPiece logs r.log_store p.next_index
          (suc last - p.next_index)
          ((request_for logs stable r p).entries)
      → IsRun
          (suc ((request_for logs stable r p).prev_log_index))
          ((request_for logs stable r p).entries)
  unfolding request_for
  request-IsRun r p last w h k s =
      let z = w.small in
      let prev : p.next_index ≡ suc (sub64 p.next_index 1) =
        omega (arith, sub64_lem p.next_index 1 (omega arith) (omega arith)) in
      subst (λ i. IsRun i (entries_from logs r.log_store p.next_index)) prev s.run

  effect-IsMatched :
      (r f after : RaftNode L T) (p : PeerState) (last : ℕ) (resp : AppendEntriesResponse)
      → IsWhole logs r.log_store last
      → 0 < p.next_index
      → p.next_index ≤ suc last
      → IsPiece logs r.log_store p.next_index
          (suc last - p.next_index)
          ((request_for logs stable r p).entries)
      → AppendEffect logs stable f (request_for logs stable r p) after resp
      → resp.success ≡ true
      → IsMatched r after p last
  effect-IsMatched r f after p last resp w h k s (stale _ _ e) y =
      let z = ap (λ (a : AppendEntriesResponse). a.success) e in cc
  effect-IsMatched r f after p last resp w h k s (conflicted t i _ _ _ _ e) y =
      let z = ap (λ (a : AppendEntriesResponse). a.success) e in cc
  effect-IsMatched r f after p last resp w h k s (appended c t hs below m e) y = record {
    same = λ i z n l. elim (Bool-cases (leb p.next_index i)) [
      | inl x ↦
          held logs r.log_store after.log_store p.next_index _ _ s hs i (leb→le _ _ x) (omega arith)
      | inr x ↦ previous-IsSame r f.log_store after.log_store p last i w k c below z (ground arith)
    ];
    noted = λ n.
        let (a, b) =
          matched_run p p.next_index ((request_for logs stable r p).entries) s.run
            (omega (arith, s.many)) (omega (arith, s.many, w.small)) in
        (omega (arith, a, s.many), omega (arith, b, s.many));
  }

  -- A leader whose log has exactly the indexes from 1 to `last`, and a peer whose next index is
  -- from 1 to one behind `last`: when a node with a lawful log store accepts the request that the
  -- leader builds for the peer, then from the index before the next one up to `last` the two
  -- logs have entries with the same terms, and, if the request had entries, the leader
  -- notes `last` as the match index and the index behind it as the next one.
  pub replicate-IsMatched :
      (r f : RaftNode L T) (p : PeerState) (last : ℕ)
      → IsLog logs
      → IsWhole logs r.log_store last
      → 0 < p.next_index
      → p.next_index ≤ suc last
      → (handle_append_entries logs stable f (request_for logs stable r p)).1.success ≡ true
      → IsMatched r ((handle_append_entries logs stable f (request_for logs stable r p)).0) p last
  replicate-IsMatched r f p last law w h k y =
      let s = request-IsPiece r p last w h k in
      effect-IsMatched r f _ p last _ w h k s
        (handle_append_entries-Effect logs stable f (request_for logs stable r p) law
          (request-IsRun r p last w h k s))
        y
