-- ===== src/Raft/Election/Rule.antt =====
-- What votes and elections do to terms and votes, without the code's logs and messages.
use ds_collaborative_editor.Base.{ℕ, ◌+◌, ◌/◌, ◌≤◌, ◌<◌, List, [], ◌∷◌, length, ◌≡◌, ◌≢◌, ◌⊎◌, All}
use ds_collaborative_editor.Base.Text.{Text}
use ds_collaborative_editor.Raft.Types.{ServerState, follower, candidate, leader}
use ds_collaborative_editor.Raft.Election.Quorum.{IsIn, AreDistinct}

-- The part of a node that the rules are about.
pub record View : Type 0 where
  pub term : ℕ
  pub voted_for : Text
  pub state : ServerState

-- A voter, a term and the candidate that it has voted for.
abbrev pub Grant : Type 0
Grant = Text × ℕ × Text

-- A leader and its term.
abbrev pub Win : Type 0
Win = Text × ℕ

-- A majority of the members has voted for a candidate.
pub record IsElected (ids : List Text) (gs : List Grant) (i : Text) (t : ℕ) : Type 0 where
  pub voters : List Text
  pub distinct : AreDistinct voters
  pub members : All (λ x. IsIn x ids) voters
  pub many : length ids / 2 + 1 ≤ length voters
  pub voted : All (λ x. IsIn (x, t, i) gs) voters

-- How the node `i` may move, with the votes given and the elections won so far, before and after.
pub data Change (ids : List Text) (i : Text) (gs : List Grant) (ws : List Win) (v w : View)
    : List Grant → List Win → Type 0 where
  later : v.term < w.term → w.state ≡ follower → Change ids i gs ws v w gs ws
  later_vote :
      v.term < w.term
      → w.state ≡ follower
      → w.voted_for ≢ []
      → w.voted_for ≢ i
      → Change ids i gs ws v w ((i, w.term, w.voted_for) ∷ gs) ws
  starts :
      v.term < w.term
      → w.voted_for ≡ i
      → w.state ≢ leader
      → i ≢ []
      → Change ids i gs ws v w ((i, w.term, i) ∷ gs) ws
  stays :
      w.term ≡ v.term
      → w.voted_for ≡ v.voted_for
      → (w.state ≡ v.state) ⊎ (w.state ≡ follower)
      → Change ids i gs ws v w gs ws
  votes :
      w.term ≡ v.term
      → (v.voted_for ≡ []) ⊎ (v.voted_for ≡ w.voted_for)
      → w.voted_for ≢ []
      → w.voted_for ≢ i
      → w.state ≡ v.state
      → Change ids i gs ws v w ((i, w.term, w.voted_for) ∷ gs) ws
  -- It hears of another leader of its term.
  forgets :
      (l : Text)
      → l ≢ i
      → IsIn (l, v.term) ws
      → w.term ≡ v.term
      → v.state ≢ follower
      → w.state ≡ follower
      → Change ids i gs ws v w gs ws
  wins :
      w.term ≡ v.term
      → w.voted_for ≡ v.voted_for
      → v.state ≡ candidate
      → IsElected ids gs i v.term
      → Change ids i gs ws v w gs ((i, w.term) ∷ ws)

abbrev pub IsOwn : Text → View → List Grant → Type 0
IsOwn i v gs = v.state ≢ follower → (v.voted_for ≡ i) × IsIn (i, v.term, i) gs

-- A vote that a node has given is of an earlier term, or is its vote now, or was for itself
-- before it heard of another leader of the term.
abbrev pub IsCast : View → List Win → Text → ℕ → Text → Type 0
IsCast v ws x t c =
    (t < v.term)
    ⊎ ((t ≡ v.term) × ((v.voted_for ≡ c) ⊎ ((c ≡ x) × (v.state ≡ follower) × ¬ IsIn (x, t) ws)))

-- Two votes of a node in a term are the same, or one was for itself and it has not won.
abbrev pub IsPair : List Win → Text → ℕ → Text → Text → Type 0
IsPair ws x t c d = (c ≡ d) ⊎ (((c ≡ x) ⊎ (d ≡ x)) × ¬ IsIn (x, t) ws)

pub record IsLawful (ids : List Text) (views : Text → View) (gs : List Grant) (ws : List Win)
    : Type 0 where
  pub own : (i : Text) → IsOwn i (views i) gs
  pub cast : (x : Text) (t : ℕ) (c : Text) → IsIn (x, t, c) gs → IsCast (views x) ws x t c
  pub named : (x : Text) (t : ℕ) (c : Text) → IsIn (x, t, c) gs → c ≢ []
  pub pair :
      (x : Text) (t : ℕ) (c d : Text) → IsIn (x, t, c) gs → IsIn (x, t, d) gs → IsPair ws x t c d
  pub won : (i : Text) (t : ℕ) → IsIn (i, t) ws → IsIn (i, t, i) gs × IsElected ids gs i t
