-- ===== src/Raft/Election/Kept.antt =====
-- Every move keeps the laws of votes and elections, and a term has one leader at most.
use ds_collaborative_editor.Base.{
  ℕ, ◌<◌, List, [], ◌∷◌, true, Bool-cases, ◌≡◌, ◌≢◌, sym, ◌∙◌, ap, subst, ◌⊎◌, inl, inr, All-map,
  arith,
}
use ds_collaborative_editor.Base.Text.{Text, text_eq, text_eq-eq, text_eq_refl}
use ds_collaborative_editor.Raft.Types.{candidate}
use ds_collaborative_editor.Raft.Election.Quorum.{IsIn, all_in, quorums_meet}
use ds_collaborative_editor.Raft.Election.Rule.{
  View, Grant, Win, IsElected, IsOwn, IsCast, IsPair, IsLawful,
}

-- A term has one leader at most.
pub one_leader :
    (ids : List Text) (views : Text → View) (gs : List Grant) (ws : List Win) (a b : Text) (t : ℕ)
    → IsLawful ids views gs ws
    → IsIn (a, t) ws
    → IsIn (b, t) ws
    → a ≡ b
one_leader ids views gs ws a b t law h k =
    let (_, va) = law.won a t h in
    let (_, vb) = law.won b t k in
    let (x, m, n) =
      quorums_meet ids va.voters vb.voters va.distinct vb.distinct va.members vb.members
        (omega (arith, va.many, vb.many)) in
    elim (law.pair x t a b (all_in _ va.voters va.voted x m) (all_in _ vb.voters vb.voted x n)) [
      | inl e ↦ e
      | inr (inl e, q) ↦ absurd (q (subst (λ y. IsIn (y, t) ws) e h))
      | inr (inr e, q) ↦ absurd (q (subst (λ y. IsIn (y, t) ws) e k))
    ]

module _ (ids : List Text) (before after : Text → View) (gs : List Grant) (ws : List Win) (i : Text)
    (law : IsLawful ids before gs ws) (frame : (j : Text) → j ≢ i → after j ≡ before j) where
  same_or_other : (j : Text) → (j ≡ i) ⊎ (j ≢ i)
  same_or_other j = elim (Bool-cases (text_eq j i)) [
    | inl e ↦ inl (text_eq-eq j i e)
    | inr n ↦ inr (λ e. let t = text_eq_refl j in let k = subst (λ z. text_eq j z ≡ true) e t in cc)
  ]

  -- A move without a vote or a leader.
  pub quiet :
      IsOwn i (after i) gs
      → ((t : ℕ) (c : Text) → IsIn (i, t, c) gs → IsCast (after i) ws i t c)
      → IsLawful ids after gs ws
  quiet own cast = record {
    own = λ j. elim (same_or_other j) [
      | inl e ↦ subst (λ z. IsOwn z (after z) gs) (sym e) own
      | inr n ↦ subst (λ v. IsOwn j v gs) (sym (frame j n)) (law.own j)
    ];
    cast = λ x t c g. elim (same_or_other x) [
      | inl e ↦
          subst (λ z. IsCast (after z) ws z t c) (sym e)
            (cast t c (subst (λ z. IsIn (z, t, c) gs) e g))
      | inr n ↦ subst (λ v. IsCast v ws x t c) (sym (frame x n)) (law.cast x t c g)
    ];
    named = law.named;
    pair = law.pair;
    won = law.won;
  }

  more-IsOwn : (g : Grant) (j : Text) (v : View) → IsOwn j v gs → IsOwn j v (g ∷ gs)
  more-IsOwn g j v own s = let (e, k) = own s in (e, inr k)

  more-IsElected :
      (g : Grant) (j : Text) (t : ℕ) → IsElected ids gs j t → IsElected ids (g ∷ gs) j t
  more-IsElected g j t v = record {
    voters = v.voters;
    distinct = v.distinct;
    members = v.members;
    many = v.many;
    voted = All-map _ _ v.voters (λ x h. inr h) v.voted;
  }

  IsPair-symm : (x : Text) (t : ℕ) (c d : Text) → IsPair ws x t c d → IsPair ws x t d c
  IsPair-symm x t c d (inl e) = inl (sym e)
  IsPair-symm x t c d (inr (inl e, n)) = inr (inr e, n)
  IsPair-symm x t c d (inr (inr e, n)) = inr (inl e, n)

  -- A move with a vote.
  pub granted :
      (t : ℕ) (c : Text)
      → c ≢ []
      → IsOwn i (after i) ((i, t, c) ∷ gs)
      → ((u : ℕ) (d : Text) → IsIn (i, u, d) gs → IsCast (after i) ws i u d)
      → IsCast (after i) ws i t c
      → ((d : Text) → IsIn (i, t, d) gs → IsPair ws i t c d)
      → IsLawful ids after ((i, t, c) ∷ gs) ws
  granted t c ne own old new pairs = record {
    own = λ j. elim (same_or_other j) [
      | inl e ↦ subst (λ z. IsOwn z (after z) ((i, t, c) ∷ gs)) (sym e) own
      | inr n ↦
          subst (λ v. IsOwn j v ((i, t, c) ∷ gs)) (sym (frame j n))
            (more-IsOwn (i, t, c) j (before j) (law.own j))
    ];
    cast = cast;
    named = named;
    pair = pair;
    won = λ j u w. let (k, v) = law.won j u w in (inr k, more-IsElected (i, t, c) j u v);
  }
    where
      cast :
          (x : Text) (u : ℕ) (d : Text)
          → IsIn (x, u, d) ((i, t, c) ∷ gs)
          → IsCast (after x) ws x u d
      cast x u d (inl e) =
          subst (λ (g : Grant). IsCast (after (g.0)) ws (g.0) (g.1) (g.2)) (sym e) new
      cast x u d (inr h) = elim (same_or_other x) [
        | inl e ↦
            subst (λ z. IsCast (after z) ws z u d) (sym e)
              (old u d (subst (λ z. IsIn (z, u, d) gs) e h))
        | inr n ↦ subst (λ v. IsCast v ws x u d) (sym (frame x n)) (law.cast x u d h)
      ]

      named : (x : Text) (u : ℕ) (d : Text) → IsIn (x, u, d) ((i, t, c) ∷ gs) → d ≢ []
      named x u d (inl e) = subst (λ (g : Grant). g.2 ≢ []) (sym e) ne
      named x u d (inr h) = law.named x u d h

      new_old :
          (x : Text) (u : ℕ) (a b : Text)
          → ◌≡◌ {A = Grant} (x, u, a) (i, t, c)
          → IsIn (x, u, b) gs
          → IsPair ws x u a b
      new_old x u a b e h =
          subst (λ (g : Grant). IsIn (g.0, g.1, b) gs → IsPair ws (g.0) (g.1) (g.2) b) (sym e)
            (pairs b) h

      pair :
          (x : Text) (u : ℕ) (a b : Text)
          → IsIn (x, u, a) ((i, t, c) ∷ gs)
          → IsIn (x, u, b) ((i, t, c) ∷ gs)
          → IsPair ws x u a b
      pair x u a b (inl e) (inl f) =
          inl (ap (λ (g : Grant). g.2) e ∙ sym (ap (λ (g : Grant). g.2) f))
      pair x u a b (inl e) (inr h) = new_old x u a b e h
      pair x u a b (inr h) (inl f) = IsPair-symm x u b a (new_old x u b a f h)
      pair x u a b (inr h) (inr k) = law.pair x u a b h k

  -- A candidate has voted for itself, and a vote that it has given is of an earlier term or is that one.
  candidate_own :
      (before i).state ≡ candidate → ((before i).voted_for ≡ i) × IsIn (i, (before i).term, i) gs
  candidate_own s = law.own i (λ e. cc)

  candidate_cast :
      (before i).state ≡ candidate
      → (u : ℕ) (a : Text) → IsIn (i, u, a) gs
      → (u < (before i).term) ⊎ ((u ≡ (before i).term) × ((before i).voted_for ≡ a))
  candidate_cast s u a h = elim (law.cast i u a h) [
    | inl n ↦ inl n
    | inr (e, inl v) ↦ inr (e, v)
    | inr (e, inr (_, f, _)) ↦ cc
  ]

  -- A move that makes a leader.
  pub elected :
      (before i).state ≡ candidate
      → (after i).term ≡ (before i).term
      → (after i).voted_for ≡ (before i).voted_for
      → IsElected ids gs i ((before i).term)
      → IsLawful ids after gs ((i, (after i).term) ∷ ws)
  elected s te ve el = record {
    own = λ j. elim (same_or_other j) [
      | inl e ↦ subst (λ z. IsOwn z (after z) gs) (sym e) (λ _. (ve ∙ (candidate_own s).0, own))
      | inr n ↦ subst (λ v. IsOwn j v gs) (sym (frame j n)) (law.own j)
    ];
    cast = cast;
    named = law.named;
    pair = pair;
    won = won;
  }
    where
      own : IsIn (i, (after i).term, i) gs
      own = subst (λ u. IsIn (i, u, i) gs) (sym te) ((candidate_own s).1)

      mine :
          (u : ℕ) (c : Text) → IsIn (i, u, c) gs → IsCast (after i) ((i, (after i).term) ∷ ws) i u c
      mine u c h = elim (candidate_cast s u c h) [
        | inl n ↦ inl (omega arith)
        | inr (e, v) ↦ inr (e ∙ sym te, inl (ve ∙ v))
      ]

      apart :
          (x : Text) (u : ℕ) → x ≢ i → ¬ IsIn (x, u) ws → ¬ IsIn (x, u) ((i, (after i).term) ∷ ws)
      apart x u n m (inl e) = n (ap (λ (w : Win). w.0) e)
      apart x u n m (inr h) = m h

      other :
          (x : Text) (u : ℕ) (c : Text)
          → x ≢ i
          → IsCast (before x) ws x u c
          → IsCast (before x) ((i, (after i).term) ∷ ws) x u c
      other x u c n (inl h) = inl h
      other x u c n (inr (e, inl v)) = inr (e, inl v)
      other x u c n (inr (e, inr (a, f, m))) = inr (e, inr (a, f, apart x u n m))

      cast :
          (x : Text) (u : ℕ) (c : Text)
          → IsIn (x, u, c) gs
          → IsCast (after x) ((i, (after i).term) ∷ ws) x u c
      cast x u c h = elim (same_or_other x) [
        | inl e ↦
            subst (λ z. IsCast (after z) ((i, (after i).term) ∷ ws) z u c) (sym e)
              (mine u c (subst (λ z. IsIn (z, u, c) gs) e h))
        | inr n ↦
            subst (λ v. IsCast v ((i, (after i).term) ∷ ws) x u c) (sym (frame x n))
              (other x u c n (law.cast x u c h))
      ]

      past :
          (u : ℕ)
          → u < (before i).term
          → ¬ IsIn (i, u) ws
          → ¬ IsIn (i, u) ((i, (after i).term) ∷ ws)
      past u n m (inl e) = let k : u ≡ (after i).term = ap (λ (w : Win). w.1) e in omega arith
      past u n m (inr h) = m h

      own_pair :
          (u : ℕ) (a b : Text)
          → IsIn (i, u, a) gs
          → IsIn (i, u, b) gs
          → IsPair ((i, (after i).term) ∷ ws) i u a b
      own_pair u a b h k = elim (law.pair i u a b h k) [
        | inl e ↦ inl e
        | inr (m, q) ↦ elim (candidate_cast s u a h) [
          | inl n ↦ inr (m, past u n q)
          | inr (e, v) ↦ elim (candidate_cast s u b k) [
            | inl n ↦ inr (m, past u n q)
            | inr (f, w) ↦ inl (sym v ∙ w)
          ]
        ]
      ]

      pair :
          (x : Text) (u : ℕ) (a b : Text)
          → IsIn (x, u, a) gs
          → IsIn (x, u, b) gs
          → IsPair ((i, (after i).term) ∷ ws) x u a b
      pair x u a b h k = elim (same_or_other x) [
        | inl e ↦
            subst (λ z. IsPair ((i, (after i).term) ∷ ws) z u a b) (sym e)
              (own_pair u a b (subst (λ z. IsIn (z, u, a) gs) e h)
                (subst (λ z. IsIn (z, u, b) gs) e k))
        | inr n ↦ elim (law.pair x u a b h k) [
          | inl e ↦ inl e
          | inr (m, q) ↦ inr (m, apart x u n q)
        ]
      ]

      won :
          (j : Text) (u : ℕ)
          → IsIn (j, u) ((i, (after i).term) ∷ ws)
          → IsIn (j, u, j) gs × IsElected ids gs j u
      won j u (inl e) =
          subst (λ (w : Win). IsIn (w.0, w.1, w.0) gs × IsElected ids gs (w.0) (w.1)) (sym e)
            (own, subst (IsElected ids gs i) (sym te) el)
      won j u (inr h) = law.won j u h
