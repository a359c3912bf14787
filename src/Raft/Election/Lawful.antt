-- ===== src/Raft/Election/Lawful.antt =====
-- Every move of the rules keeps their laws.
use ds_collaborative_editor.Base.{
  ℕ, ◌<◌, List, [], ◌∷◌, ◌≡◌, ◌≢◌, refl, sym, ◌∙◌, subst, ◌⊎◌, inl, inr, arith,
}
use ds_collaborative_editor.Base.Text.{Text}
use ds_collaborative_editor.Raft.Types.{follower, leader}
use ds_collaborative_editor.Raft.Election.Quorum.{IsIn}
use ds_collaborative_editor.Raft.Election.Rule.{
  View, Grant, Win, Change, later, later_vote, starts, stays, votes, forgets, wins, IsOwn, IsCast,
  IsPair, IsLawful,
}
use ds_collaborative_editor.Raft.Election.Kept.{one_leader, quiet, granted, elected}

module _ (ids : List Text) (before after : Text → View) (gs : List Grant) (ws : List Win) (i : Text)
    (law : IsLawful ids before gs ws) (frame : (j : Text) → j ≢ i → after j ≡ before j) where
  -- In a later term every vote given is of an earlier one.
  earlier :
      (before i).term < (after i).term → (u : ℕ) (d : Text) → IsIn (i, u, d) gs → u < (after i).term
  earlier h u d g = elim (law.cast i u d g) [ inl n ↦ omega arith | inr (e, _) ↦ omega arith ]

  kept-IsOwn :
      (after i).term ≡ (before i).term
      → (after i).voted_for ≡ (before i).voted_for
      → ((after i).state ≡ (before i).state) ⊎ ((after i).state ≡ follower)
      → IsOwn i (after i) gs
  kept-IsOwn te ve (inl s) n =
      let (v, k) = law.own i (λ e. n (s ∙ e)) in (ve ∙ v, subst (λ t. IsIn (i, t, i) gs) (sym te) k)
  kept-IsOwn te ve (inr f) n = absurd (n f)

  kept-IsCast :
      (after i).term ≡ (before i).term
      → (after i).voted_for ≡ (before i).voted_for
      → ((after i).state ≡ (before i).state) ⊎ ((after i).state ≡ follower)
      → (u : ℕ) (d : Text) → IsCast (before i) ws i u d
      → IsCast (after i) ws i u d
  kept-IsCast te ve s u d (inl n) = inl (omega arith)
  kept-IsCast te ve s u d (inr (e, inl v)) = inr (e ∙ sym te, inl (ve ∙ v))
  kept-IsCast te ve (inl s) u d (inr (e, inr (a, f, m))) = inr (e ∙ sym te, inr (a, s ∙ f, m))
  kept-IsCast te ve (inr s) u d (inr (e, inr (a, f, m))) = inr (e ∙ sym te, inr (a, s, m))

  -- A node that may vote for another candidate is a follower.
  free-IsOwn :
      (gs' : List Grant)
      → ((before i).voted_for ≡ []) ⊎ ((before i).voted_for ≡ (after i).voted_for)
      → (after i).voted_for ≢ i
      → (after i).state ≡ (before i).state
      → IsOwn i (after i) gs'
  free-IsOwn gs' fr ns s n =
      let (v, k) = law.own i (λ e. n (s ∙ e)) in
      elim fr [ inl z ↦ absurd (law.named i _ i k (sym v ∙ z)) | inr z ↦ absurd (ns (sym z ∙ v)) ]

  free-IsCast :
      (after i).term ≡ (before i).term
      → ((before i).voted_for ≡ []) ⊎ ((before i).voted_for ≡ (after i).voted_for)
      → (after i).state ≡ (before i).state
      → (u : ℕ) (d : Text) → IsIn (i, u, d) gs
      → IsCast (after i) ws i u d
  free-IsCast te fr s u d g = elim (law.cast i u d g) [
    | inl n ↦ inl (omega arith)
    | inr (e, inl v) ↦ elim fr [
      | inl z ↦ absurd (law.named i u d g (sym v ∙ z))
      | inr z ↦ inr (e ∙ sym te, inl (sym z ∙ v))
    ]
    | inr (e, inr (a, f, m)) ↦ inr (e ∙ sym te, inr (a, s ∙ f, m))
  ]

  free-IsPair :
      (after i).term ≡ (before i).term
      → ((before i).voted_for ≡ []) ⊎ ((before i).voted_for ≡ (after i).voted_for)
      → (d : Text) → IsIn (i, (after i).term, d) gs
      → IsPair ws i ((after i).term) ((after i).voted_for) d
  free-IsPair te fr d g = elim (law.cast i ((after i).term) d g) [
    | inl n ↦ absurd (omega arith)
    | inr (e, inl v) ↦ elim fr [
      | inl z ↦ absurd (law.named i _ d g (sym v ∙ z))
      | inr z ↦ inl (sym z ∙ v)
    ]
    | inr (e, inr (a, f, m)) ↦ inr (inr a, m)
  ]

  -- A node that hears of another leader of its term has not won it.
  forgets-IsCast :
      (l : Text)
      → l ≢ i
      → IsIn (l, (before i).term) ws
      → (after i).term ≡ (before i).term
      → (before i).state ≢ follower
      → (after i).state ≡ follower
      → (u : ℕ) (d : Text) → IsIn (i, u, d) gs
      → IsCast (after i) ws i u d
  forgets-IsCast l ne w te s f u d g = elim (law.cast i u d g) [
    | inl n ↦ inl (omega arith)
    | inr (e, inl v) ↦
        let (own, _) = law.own i s in
        inr (
          e ∙ sym te,
          inr (
            sym v ∙ own,
            f,
            λ m.
                ne
                  (one_leader ids before gs ws l i u law (subst (λ t. IsIn (l, t) ws) (sym e) w) m),
          ),
        )
    | inr (e, inr (a, _, m)) ↦ inr (e ∙ sym te, inr (a, f, m))
  ]

  pub Change-IsLawful :
      {gs' : List Grant} {ws' : List Win}
      → Change ids i gs ws (before i) (after i) gs' ws'
      → IsLawful ids after gs' ws'
  Change-IsLawful (later h f) =
      quiet ids before after gs ws i law frame (λ n. absurd (n f)) (λ u d g. inl (earlier h u d g))
  Change-IsLawful (later_vote h f ne ns) =
      granted ids before after gs ws i law frame ((after i).term) ((after i).voted_for) ne
        (λ n. absurd (n f)) (λ u d g. inl (earlier h u d g)) (inr (refl, inl refl))
        (λ d g. let k = earlier h ((after i).term) d g in absurd (omega arith))
  Change-IsLawful (starts h v _ ne) =
      granted ids before after gs ws i law frame ((after i).term) i ne (λ n. (v, inl refl))
        (λ u d g. inl (earlier h u d g)) (inr (refl, inl v))
        (λ d g. let k = earlier h ((after i).term) d g in absurd (omega arith))
  Change-IsLawful (stays te ve s) =
      quiet ids before after gs ws i law frame (kept-IsOwn te ve s)
        (λ u d g. kept-IsCast te ve s u d (law.cast i u d g))
  Change-IsLawful (votes te fr ne ns s) =
      granted ids before after gs ws i law frame ((after i).term) ((after i).voted_for) ne
        (free-IsOwn ((i, (after i).term, (after i).voted_for) ∷ gs) fr ns s) (free-IsCast te fr s)
        (inr (refl, inl refl)) (free-IsPair te fr)
  Change-IsLawful (forgets l ne w te s f) =
      quiet ids before after gs ws i law frame (λ n. absurd (n f)) (forgets-IsCast l ne w te s f)
  Change-IsLawful (wins te ve s el) = elected ids before after gs ws i law frame s te ve el

-- A node in the state of a leader has won its term.
abbrev pub IsLed : Text → View → List Win → Type 0
IsLed i v ws = v.state ≡ leader → IsIn (i, v.term) ws

pub Change-IsLed :
    (ids : List Text) (i : Text) (gs gs' : List Grant) (ws ws' : List Win) (v w : View)
    → Change ids i gs ws v w gs' ws'
    → IsLed i v ws
    → IsLed i w ws'
Change-IsLed ids i gs gs' ws ws' v w (later h f) led s = cc
Change-IsLed ids i gs gs' ws ws' v w (later_vote h f _ _) led s = cc
Change-IsLed ids i gs gs' ws ws' v w (starts h _ f _) led s = absurd (f s)
Change-IsLed ids i gs gs' ws ws' v w (stays te _ (inl e)) led s =
    subst (λ t. IsIn (i, t) ws) (sym te) (led (sym e ∙ s))
Change-IsLed ids i gs gs' ws ws' v w (stays te _ (inr f)) led s = cc
Change-IsLed ids i gs gs' ws ws' v w (votes te _ _ _ e) led s =
    subst (λ t. IsIn (i, t) ws) (sym te) (led (sym e ∙ s))
Change-IsLed ids i gs gs' ws ws' v w (forgets _ _ _ _ _ f) led s = cc
Change-IsLed ids i gs gs' ws ws' v w (wins _ _ _ _) led s = inl refl

-- No election that has been won is forgotten.
pub Change_more :
    (ids : List Text) (i : Text) (gs gs' : List Grant) (ws ws' : List Win) (v w : View)
    → Change ids i gs ws v w gs' ws'
    → (a : Win) → IsIn a ws
    → IsIn a ws'
Change_more ids i gs gs' ws ws' v w (later _ _) a h = h
Change_more ids i gs gs' ws ws' v w (later_vote _ _ _ _) a h = h
Change_more ids i gs gs' ws ws' v w (starts _ _ _ _) a h = h
Change_more ids i gs gs' ws ws' v w (stays _ _ _) a h = h
Change_more ids i gs gs' ws ws' v w (votes _ _ _ _ _) a h = h
Change_more ids i gs gs' ws ws' v w (forgets _ _ _ _ _ _) a h = h
Change_more ids i gs gs' ws ws' v w (wins _ _ _ _) a h = inr h

-- No vote that has been given is forgotten.
pub Change_keeps :
    (ids : List Text) (i : Text) (gs gs' : List Grant) (ws ws' : List Win) (v w : View)
    → Change ids i gs ws v w gs' ws'
    → (g : Grant) → IsIn g gs
    → IsIn g gs'
Change_keeps ids i gs gs' ws ws' v w (later _ _) g h = h
Change_keeps ids i gs gs' ws ws' v w (later_vote _ _ _ _) g h = inr h
Change_keeps ids i gs gs' ws ws' v w (starts _ _ _ _) g h = inr h
Change_keeps ids i gs gs' ws ws' v w (stays _ _ _) g h = h
Change_keeps ids i gs gs' ws ws' v w (votes _ _ _ _ _) g h = inr h
Change_keeps ids i gs gs' ws ws' v w (forgets _ _ _ _ _ _) g h = h
Change_keeps ids i gs gs' ws ws' v w (wins _ _ _ _) g h = h
