-- ===== src/Base/Text.antt =====
-- Go strings: lists of bytes, compared byte by byte.
use Prim.Native.Nat.{ℕ}
use Prim.Native.Char.{code}
use Prim.Native.String.{String}
use mathlib.Core.Path.{◌≡◌, refl}
use mathlib.Core.Bool.{Bool, true, false, ◌&&◌}
use mathlib.Core.List.{List, [], ◌∷◌}
use native.Mathlib.Omega.{arith}
use ds_collaborative_editor.Base.Tests.{ltb, ◌==◌, if◌then◌else◌}

abbrev pub Text : Type 0
Text = List ℕ

-- The bytes of an ASCII literal.
abbrev pub codes : String → Text
codes String.[] = []
codes (String.◌∷◌ c s) = code c ∷ codes s

-- a <= b on strings: a prefix comes first, else the first byte that differs decides.
unfoldable pub le_text : Text → Text → Bool
le_text [] ys = true
le_text (x ∷ xs) [] = false
le_text (x ∷ xs) (y ∷ ys) =
    let rest = le_text xs ys in if ltb x y then true else if x == y then rest else false

-- a == b on strings.
unfoldable pub text_eq : Text → Text → Bool
text_eq [] [] = true
text_eq [] (y ∷ ys) = false
text_eq (x ∷ xs) [] = false
text_eq (x ∷ xs) (y ∷ ys) = x == y && text_eq xs ys

pub text_eq-eq : (xs ys : Text) → text_eq xs ys ≡ true → xs ≡ ys
unfolding text_eq
text_eq-eq [] [] h = refl
text_eq-eq [] (y ∷ ys) h = cc
text_eq-eq (x ∷ xs) [] h = cc
text_eq-eq (x ∷ xs) (y ∷ ys) h = ground (arith, text_eq-eq xs ys)

pub text_eq_refl : (xs : Text) → text_eq xs xs ≡ true
unfolding text_eq
text_eq_refl [] = refl
text_eq_refl (x ∷ xs) = ground (arith, text_eq_refl xs)

pub le_text_total : (xs ys : Text) → le_text xs ys ≡ false → le_text ys xs ≡ true
unfolding le_text
le_text_total [] ys h = cc
le_text_total (x ∷ xs) [] h = refl
le_text_total (x ∷ xs) (y ∷ ys) h = ground (arith, le_text_total xs ys)

pub le_text_antisymm : (xs ys : Text) → le_text xs ys ≡ true → le_text ys xs ≡ true → xs ≡ ys
unfolding le_text
le_text_antisymm [] [] h k = refl
le_text_antisymm [] (y ∷ ys) h k = cc
le_text_antisymm (x ∷ xs) [] h k = cc
le_text_antisymm (x ∷ xs) (y ∷ ys) h k = ground (arith, le_text_antisymm xs ys)

pub le_text_refl : (xs : Text) → le_text xs xs ≡ true
unfolding le_text
le_text_refl [] = refl
le_text_refl (x ∷ xs) = ground (arith, le_text_refl xs)
