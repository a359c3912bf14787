-- ===== src/Raft/Election/Quorum.antt =====
-- Two majorities of one list share an element.
use ds_collaborative_editor.Base.{
  suc, ◌+◌, ◌≤◌, ◌<◌, List, [], ◌∷◌, ◌++◌, length, length-append, true, Bool-cases, ◌≡◌, refl, sym,
  ◌∙◌, ap, subst, ◌⊎◌, inl, inr, arith, All, All-append,
}
use ds_collaborative_editor.Base.Text.{Text, text_eq, text_eq-eq, text_eq_refl}

abbrev pub IsIn : {A : Type 0} → A → List A → Type 0
IsIn x [] = ⊥
IsIn x (y ∷ ys) = (x ≡ y) ⊎ IsIn x ys

abbrev pub AreDistinct : List Text → Type 0
AreDistinct [] = Unit
AreDistinct (x ∷ xs) = (¬ IsIn x xs) × AreDistinct xs

-- A list without one of its elements.
without :
    {A : Type 0} (x : A) (ys : List A)
    → IsIn x ys
    → (zs : List A) × (length ys ≡ suc (length zs)) × ((z : A) → IsIn z ys → (z ≡ x) ⊎ IsIn z zs)
without x [] h = elim h [ ]
without x (y ∷ ys) (inl e) = (ys, refl, λ z h. elim h [ inl k ↦ inl (k ∙ sym e) | inr k ↦ inr k ])
without x (y ∷ ys) (inr h) =
    let (zs, n, keep) = without x ys h in
    (
      y ∷ zs,
      ap suc n,
      λ z h. elim h [
        | inl k ↦ inr (inl k)
        | inr k ↦ elim (keep z k) [ inl e ↦ inl e | inr e ↦ inr (inr e) ]
      ],
    )

length_le : (xs ys : List Text) → AreDistinct xs → All (λ x. IsIn x ys) xs → length xs ≤ length ys
length_le [] ys d h = omega arith
length_le (x ∷ xs) ys d h =
    let (zs, n, keep) = without x ys h.0 in
    omega (arith, n, length_le xs zs d.1 (rest xs zs d.0 keep h.1))
  where
    rest :
        (xs zs : List Text)
        → (¬ IsIn x xs)
        → ((z : Text) → IsIn z ys → (z ≡ x) ⊎ IsIn z zs)
        → All (λ z. IsIn z ys) xs
        → All (λ z. IsIn z zs) xs
    rest [] zs apart keep h = tt
    rest (z ∷ xs) zs apart keep h = (
      elim (keep z h.0) [ inl e ↦ absurd (apart (inl (sym e))) | inr k ↦ k ],
      rest xs zs (λ k. apart (inr k)) keep h.1,
    )

find-IsIn : (x : Text) (ys : List Text) → IsIn x ys ⊎ (¬ IsIn x ys)
find-IsIn x [] = inr (λ h. h)
find-IsIn x (y ∷ ys) = elim (Bool-cases (text_eq x y)) [
  | inl e ↦ inl (inl (text_eq-eq x y e))
  | inr n ↦ elim (find-IsIn x ys) [
    | inl h ↦ inl (inr h)
    | inr apart ↦ inr (λ h. elim h [
      | inl e ↦ absurd (
          let t = text_eq_refl x in
          let k : text_eq x y ≡ true = subst (λ z. text_eq x z ≡ true) e t in cc)
      | inr k ↦ apart k
    ])
  ]
]

-- Two lists share an element, or the second and the first have none of each other.
shared :
    (xs ys : List Text)
    → ((x : Text) × IsIn x xs × IsIn x ys) ⊎ ((x : Text) → IsIn x xs → ¬ IsIn x ys)
shared [] ys = inr (λ x h k. h)
shared (x ∷ xs) ys = elim (find-IsIn x ys) [
  | inl h ↦ inl (x, inl refl, h)
  | inr apart ↦ elim (shared xs ys) [
    | inl (z, h, k) ↦ inl (z, inr h, k)
    | inr none ↦
        inr (λ z h k. elim h [ inl e ↦ apart (subst (λ a. IsIn a ys) e k) | inr m ↦ none z m k ])
  ]
]

IsIn-append : (x : Text) (xs ys : List Text) → IsIn x (xs ++ ys) → IsIn x xs ⊎ IsIn x ys
IsIn-append x [] ys h = inr h
IsIn-append x (z ∷ xs) ys (inl e) = inl (inl e)
IsIn-append x (z ∷ xs) ys (inr h) = elim (IsIn-append x xs ys h) [
  | inl k ↦ inl (inr k)
  | inr k ↦ inr k
]

AreDistinct-append :
    (xs ys : List Text)
    → AreDistinct xs
    → AreDistinct ys
    → ((x : Text) → IsIn x xs → ¬ IsIn x ys)
    → AreDistinct (xs ++ ys)
AreDistinct-append [] ys a b h = b
AreDistinct-append (x ∷ xs) ys a b h = (
  λ k. elim (IsIn-append x xs ys k) [ inl m ↦ a.0 m | inr m ↦ h x (inl refl) m ],
  AreDistinct-append xs ys a.1 b (λ z m. h z (inr m)),
)

pub all_in {κ} : {A : Type 0} (P : A → Type κ) (xs : List A) → All P xs → (x : A) → IsIn x xs → P x
all_in P [] h x k = elim k [ ]
all_in P (y ∷ ys) h x (inl e) = subst P (sym e) h.0
all_in P (y ∷ ys) h x (inr k) = all_in P ys h.1 x k

-- Two lists of distinct members of a list, each longer than half of it, share a member.
pub quorums_meet :
    (ids xs ys : List Text)
    → AreDistinct xs
    → AreDistinct ys
    → All (λ x. IsIn x ids) xs
    → All (λ x. IsIn x ids) ys
    → length ids < length xs + length ys
    → (x : Text) × IsIn x xs × IsIn x ys
quorums_meet ids xs ys a b h k n = elim (shared xs ys) [
  | inl s ↦ s
  | inr apart ↦ absurd (
      omega (
        arith,
        length-append xs ys,
        length_le (xs ++ ys) ids (AreDistinct-append xs ys a b apart) (All-append _ xs ys h k),
      ))
]
