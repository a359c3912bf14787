-- ===== src/Raft/Cluster/Place.antt =====
-- The values of the nodes of a cluster after one of them has changed.
use ds_collaborative_editor.Base.{
  true, ◌⊎◌, false, Bool-cases, if_true, if_false, ◌≡◌, ◌≢◌, sym, subst, inl, inr,
}
use ds_collaborative_editor.Base.Text.{Text, text_eq, text_eq-eq, text_eq_refl}
use ds_collaborative_editor.Raft.Cluster.{place}

differ : (i j : Text) → j ≢ i → text_eq j i ≡ false
differ i j n = elim (Bool-cases (text_eq j i)) [ inl y ↦ absurd (n (text_eq-eq j i y)) | inr m ↦ m ]

pub same_or_other : (i j : Text) → (j ≡ i) ⊎ (j ≢ i)
same_or_other i j = elim (Bool-cases (text_eq j i)) [
  | inl e ↦ inl (text_eq-eq j i e)
  | inr n ↦ inr (λ e. let t = text_eq_refl j in let k = subst (λ z. text_eq j z ≡ true) e t in cc)
]

pub place_same : {A : Type 0} (i : Text) (x : A) (f : Text → A) → place i x f i ≡ x
unfolding place
place_same i x f = if_true _ _ (text_eq_refl i)

pub place_other : {A : Type 0} (i j : Text) (x : A) (f : Text → A) → j ≢ i → place i x f j ≡ f j
unfolding place
place_other i j x f n = if_false _ _ (differ i j n)

-- A property of every index, of those that stay and of the one that gets a new value.
pub placed :
    {A : Type 0} (P : Text → A → Type 0) (i : Text) (x : A) (f : Text → A)
    → P i x
    → ((j : Text) → P j (f j))
    → (j : Text) → P j (place i x f j)
placed P i x f h k j = elim (same_or_other i j) [
  | inl y ↦ subst (λ z. P z (place i x f z)) (sym y) (subst (P i) (sym (place_same i x f)) h)
  | inr n ↦ subst (P j) (sym (place_other i j x f n)) (k j)
]
