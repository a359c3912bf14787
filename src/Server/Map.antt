-- ===== src/Server/Map.antt =====
-- The map of clients and the heap.
use ds_collaborative_editor.Base.{
  ℕ, List, [], ◌∷◌, Bool, true, false, Option, none, some, if◌then◌else◌, Bool-cases, eq-or-ne, ◌⊎◌,
  inl, inr, ◌≡◌, ◌≢◌, refl, ap, ◌∙◌, arith,
}
use ds_collaborative_editor.Base.Text.{Text, text_eq, text_eq-eq, text_eq_refl}
use ds_collaborative_editor.Server.Node.{find_client, delete_client, put_client, update}

pub text_eq_comm : (a b : Text) → text_eq a b ≡ text_eq b a
unfolding text_eq
text_eq_comm [] [] = refl
text_eq_comm [] (y ∷ ys) = refl
text_eq_comm (x ∷ xs) [] = refl
text_eq_comm (x ∷ xs) (y ∷ ys) = ground (arith, text_eq_comm xs ys)

pub update_self {ℓ} : {A : Type ℓ} (f : ℕ → A) (i : ℕ) (a : A) → update f i a i ≡ a
unfolding update
update_self f i a = ground arith

pub update_other {ℓ} : {A : Type ℓ} (f : ℕ → A) (i j : ℕ) (a : A) → i ≢ j → update f i a j ≡ f j
unfolding update
update_other f i j a h = ground arith

pub find-delete :
    (cs : List (Text × ℕ)) (id k : Text)
    → find_client (delete_client cs id) k ≡ (if text_eq id k then none else find_client cs k)
unfolding find_client delete_client
find-delete [] id k = ground arith
find-delete ((i, h) ∷ cs) id k = elim (Bool-cases (text_eq i id)) [
  | inl e ↦ rw (e, text_eq-eq i id e) (find-delete cs id k ∙ ground arith)
  | inr e ↦ elim (Bool-cases (text_eq i k)) [
    | inl f ↦
        let g : text_eq id k ≡ false = text_eq_comm id k ∙ (rw (← text_eq-eq i k f) e) in
        rw (e, f, g) refl
    | inr f ↦ rw (e, f) (find-delete cs id k)
  ]
]

pub find-put :
    (cs : List (Text × ℕ)) (id k : Text) (h : ℕ)
    → find_client (put_client cs id h) k ≡ (if text_eq id k then some h else find_client cs k)
unfolding find_client put_client
find-put cs id k h = ground (arith, find-delete cs id k)

-- A key stands in the map once.
abbrev pub IsMap : List (Text × ℕ) → Type 0
IsMap [] = Unit
IsMap ((k, h) ∷ cs) = (find_client cs k ≡ none) × IsMap cs

if_same : (b : Bool) → ◌≡◌ {A = Option ℕ} (if b then none else none) none
if_same true = refl
if_same false = refl

pub delete-IsMap : (cs : List (Text × ℕ)) (id : Text) → IsMap cs → IsMap (delete_client cs id)
unfolding delete_client
delete-IsMap [] id m = tt
delete-IsMap ((k, h) ∷ cs) id m = elim (Bool-cases (text_eq k id)) [
  | inl e ↦ rw e (delete-IsMap cs id m.1)
  | inr e ↦ rw e (find-delete cs id k ∙ (rw (m.0) (if_same (text_eq id k))), delete-IsMap cs id m.1)
]

pub put-IsMap : (cs : List (Text × ℕ)) (id : Text) (h : ℕ) → IsMap cs → IsMap (put_client cs id h)
unfolding put_client
put-IsMap cs id h m = (find-delete cs id id ∙ (rw (text_eq_refl id) refl), delete-IsMap cs id m)

-- What a function of the values says of both cases.
pub update_keeps {ℓ κ} :
    {A : Type ℓ} {B : Type κ} (g : A → B) (f : ℕ → A) (i : ℕ) (a : A) (j : ℕ)
    → g a ≡ g (f i)
    → g (update f i a j) ≡ g (f j)
update_keeps g f i a j h = elim (eq-or-ne i j) [
  | inl e ↦ rw (← e) (ap g (update_self f i a) ∙ h)
  | inr n ↦ ap g (update_other f i j a (λ e. ground arith))
]

pub update_inv :
    (f : ℕ → Option ℕ) (i : ℕ) (a : Option ℕ) (j h : ℕ)
    → update f i a j ≡ some h
    → ((i ≡ j) × (a ≡ some h)) ⊎ ((i ≢ j) × (f j ≡ some h))
unfolding update
update_inv f i a j h e = elim (eq-or-ne i j) [
  | inl p ↦ inl (p, ground arith)
  | inr n ↦ inr (λ p. ground arith, rw n at e)
]

pub find_put_inv :
    (cs : List (Text × ℕ)) (id k : Text) (h h' : ℕ)
    → find_client (put_client cs id h) k ≡ some h'
    → ((id ≡ k) × (h ≡ h')) ⊎ (find_client cs k ≡ some h')
find_put_inv cs id k h h' e = elim (Bool-cases (text_eq id k)) [
  | inl y ↦ inl (text_eq-eq id k y, ground (arith, find-put cs id k h))
  | inr n ↦ inr (ground (arith, find-put cs id k h))
]

pub find_delete_inv :
    (cs : List (Text × ℕ)) (id k : Text) (h : ℕ)
    → find_client (delete_client cs id) k ≡ some h
    → (id ≢ k) × (find_client cs k ≡ some h)
find_delete_inv cs id k h e = elim (Bool-cases (text_eq id k)) [
  | inl y ↦ absurd (ground (arith, find-delete cs id k))
  | inr n ↦ (
    λ p. let q : text_eq id id ≡ false = rw (← p) at n in ground (arith, text_eq_refl id),
    ground (arith, find-delete cs id k),
  )
]
