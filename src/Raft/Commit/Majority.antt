-- ===== src/Raft/Commit/Majority.antt =====
-- A commit index that the leader takes is held by a majority, and is of its own term.
use ds_collaborative_editor.Base.{
  ℕ, zero, suc, ◌+◌, ◌-◌, ◌*◌, ◌/◌, ◌≤◌, ◌<◌, List, [], ◌∷◌, Option, none, some, length, get_elem?,
  leb, leb→le, ◌==◌, if◌then◌else◌, true, Bool-cases, ◌≡◌, refl, ◌∙◌, ◌⊎◌, inl, inr, arith,
}
use ds_collaborative_editor.Raft.Types.{LogEntry, LogStore}
use ds_collaborative_editor.Raft.Node.{RaftNode}
use ds_collaborative_editor.Raft.Commit.{
  PeerState, insert_desc, sort_desc, matches, commit_at, commit_majority, advance_commit_index,
}

-- How many of some numbers are at least `v`.
unfoldable pub at_least : ℕ → List ℕ → ℕ
at_least v [] = 0
at_least v (x ∷ xs) = let rest = at_least v xs in if leb v x then suc rest else rest

at_least-insert : (v x : ℕ) (xs : List ℕ) → at_least v (insert_desc x xs) ≡ at_least v (x ∷ xs)
unfolding at_least insert_desc
at_least-insert v x [] = refl
at_least-insert v x (y ∷ ys) = ground (arith, at_least-insert v x ys)

at_least-sort : (v : ℕ) (xs : List ℕ) → at_least v (sort_desc xs) ≡ at_least v xs
unfolding at_least sort_desc
at_least-sort v [] = refl
at_least-sort v (x ∷ xs) = ground (arith, at_least-sort v xs, at_least-insert v x (sort_desc xs))

length-insert : (x : ℕ) (xs : List ℕ) → length (insert_desc x xs) ≡ suc (length xs)
unfolding insert_desc
length-insert x [] = refl
length-insert x (y ∷ ys) = ground (arith, length-insert x ys)

length-sort : (xs : List ℕ) → length (sort_desc xs) ≡ length xs
unfolding sort_desc
length-sort [] = refl
length-sort (x ∷ xs) = omega (arith, length-insert x (sort_desc xs), length-sort xs)

-- Every element of a list is at most `b`, and at most each one before it.
abbrev IsDesc : ℕ → List ℕ → Type 0
IsDesc b [] = Unit
IsDesc b (x ∷ xs) = (x ≤ b) × IsDesc x xs

insert-IsDesc : (b x : ℕ) (xs : List ℕ) → x ≤ b → IsDesc b xs → IsDesc b (insert_desc x xs)
unfolding insert_desc
insert-IsDesc b x [] h d = (h, tt)
insert-IsDesc b x (y ∷ ys) h d = elim (Bool-cases (leb y x)) [
  | inl e ↦ rw e (h, (leb→le y x e, d.1))
  | inr e ↦ rw e (d.0, insert-IsDesc y x ys (ground arith) d.1)
]

greatest : List ℕ → ℕ
greatest [] = 0
greatest (x ∷ xs) = x + greatest xs

weaken-IsDesc : (a b : ℕ) (xs : List ℕ) → a ≤ b → IsDesc a xs → IsDesc b xs
weaken-IsDesc a b [] h d = tt
weaken-IsDesc a b (x ∷ xs) h d = (omega (arith, d), d.1)

sort-IsDesc : (xs : List ℕ) → IsDesc (greatest xs) (sort_desc xs)
unfolding sort_desc greatest
sort-IsDesc [] = tt
sort-IsDesc (x ∷ xs) =
    insert-IsDesc _ x (sort_desc xs) (omega arith)
      (weaken-IsDesc (greatest xs) (x + greatest xs) (sort_desc xs) (omega arith) (sort-IsDesc xs))

-- The element at place `k` of a descending list, and all before it, are at least as great.
get-at_least :
    (b k v : ℕ) (xs : List ℕ)
    → IsDesc b xs
    → get_elem? xs k ≡ some v
    → (v ≤ b) × (k < at_least v xs)
unfolding at_least
get-at_least b k v [] d e = ground arith
get-at_least b zero v (x ∷ xs) d e = ground (arith, d)
get-at_least b (suc k) v (x ∷ xs) d e =
    let (h, n) = get-at_least x k v xs d.1 e in ground (arith, d, h, n)

get_inside : (k : ℕ) (xs : List ℕ) → k < length xs → (v : ℕ) × (get_elem? xs k ≡ some v)
get_inside k [] h = absurd (omega arith)
get_inside zero (x ∷ xs) h = (x, refl)
get_inside (suc k) (x ∷ xs) h = get_inside k xs (omega arith)

module _ {L T : Type 0} (logs : LogStore L) where
  -- A commit index that a majority holds, of an entry of the leader's term.
  pub record IsAdvance (r after : RaftNode L T) (peers : List PeerState) : Type 0 where
    pub later : r.commit_index < after.commit_index
    pub held :
        length (matches logs r peers) < 2 * at_least after.commit_index (matches logs r peers)
    pub entry : LogEntry
    pub stands : logs.get_log r.log_store after.commit_index ≡ some entry
    pub current : entry.term ≡ r.current_term
    pub rest : after ≡ record r { commit_index = after.commit_index; commit_notify = true }

  commit_at-IsAdvance :
      (r : RaftNode L T) (peers : List PeerState) (n : ℕ) (o : Option LogEntry)
      → logs.get_log r.log_store n ≡ o
      → r.commit_index < n
      → length (matches logs r peers) < 2 * at_least n (matches logs r peers)
      → (commit_at logs r n o ≡ r) ⊎ IsAdvance r (commit_at logs r n o) peers
  unfolding commit_at
  commit_at-IsAdvance r peers n none s h m = inl refl
  commit_at-IsAdvance r peers n (some e) s h m = elim (Bool-cases (e.term == r.current_term)) [
    | inl y ↦ rw y (
        inr (record {
          later = h;
          held = m;
          entry = e;
          stands = s;
          current = ground arith;
          rest = refl;
        }))
    | inr y ↦ rw y (inl refl)
  ]

  commit_majority-IsAdvance :
      (r : RaftNode L T) (peers : List PeerState) (n : ℕ)
      → length (matches logs r peers) < 2 * at_least n (matches logs r peers)
      → (after : RaftNode L T) × (commit_majority logs r (some n) ≡ some after)
        × ((after ≡ r) ⊎ IsAdvance r after peers)
  unfolding commit_majority
  commit_majority-IsAdvance r peers n m = elim (Bool-cases (leb n r.commit_index)) [
    | inl y ↦ (r, rw y refl, inl refl)
    | inr y ↦ (_, rw y refl, commit_at-IsAdvance r peers n _ refl (ground arith) m)
  ]

  length-matches : (r : RaftNode L T) (peers : List PeerState) → 0 < length (matches logs r peers)
  unfolding matches
  length-matches r peers = omega arith

  middle :
      (r : RaftNode L T) (peers : List PeerState)
      → (n : ℕ) × (advance_commit_index logs r peers ≡ commit_majority logs r (some n))
        × (length (matches logs r peers) < 2 * at_least n (matches logs r peers))
  unfolding advance_commit_index
  middle r peers =
      let ms = matches logs r peers in
      let (n, e) =
        get_inside (length (sort_desc ms) / 2 + 1 - 1) (sort_desc ms)
          (omega (arith, length-sort ms, length-matches r peers)) in
      let (b, k) = get-at_least _ _ n (sort_desc ms) (sort-IsDesc ms) e in
      (n, rw e refl, omega (arith, k, length-sort ms, at_least-sort n ms))

  -- `advanceCommitIndex` never panics. It leaves the node as it is, or it only raises the commit
  -- index, to an index that a majority of the leader and its peers hold and at which the leader's
  -- log has an entry of the leader's own term.
  pub advance_commit_index-IsAdvance :
      (r : RaftNode L T) (peers : List PeerState)
      → (after : RaftNode L T) × (advance_commit_index logs r peers ≡ some after)
        × ((after ≡ r) ⊎ IsAdvance r after peers)
  advance_commit_index-IsAdvance r peers =
      let (n, e, m) = middle r peers in
      let (after, f, h) = commit_majority-IsAdvance r peers n m in (after, e ∙ f, h)
