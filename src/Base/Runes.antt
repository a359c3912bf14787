-- ===== src/Base/Runes.antt =====
-- Go's conversions between strings and runes: UTF-8, where a byte that fits nowhere becomes the
-- rune 0xFFFD.
use Prim.Native.Nat.{ℕ, zero, suc, ◌+◌, ◌*◌, ◌-◌, ◌/◌, ◌%◌, ◌<◌}
use mathlib.Core.Path.{◌≡◌}
use mathlib.Core.Bool.{Bool, ◌&&◌, ◌||◌}
use mathlib.Core.List.{List, [], ◌∷◌, ◌++◌}
use native.Mathlib.Omega.{arith}
use ds_collaborative_editor.Base.Tests.{ltb, leb, ◌==◌, if◌then◌else◌, if_both}
use ds_collaborative_editor.Base.Lists.{length, drop}
use ds_collaborative_editor.Base.Text.{Text}

-- `string(r)`.
unfoldable pub string_of : ℕ → Text
string_of r =
    if ltb r 0x80
    then r ∷ []
    else if ltb r 0x800
    then (0xC0 + r / 64) ∷ (0x80 + r % 64) ∷ []
    else if ltb 0x10FFFF r || (leb 0xD800 r && leb r 0xDFFF)
    then 0xEF ∷ 0xBF ∷ 0xBD ∷ []
    else if ltb r 0x10000
    then (0xE0 + r / 4096) ∷ (0x80 + (r / 64) % 64) ∷ (0x80 + r % 64) ∷ []
    else (0xF0 + r / 262144)
      ∷ (0x80 + (r / 4096) % 64)
      ∷ (0x80 + (r / 64) % 64)
      ∷ (0x80 + r % 64)
      ∷ []

unfoldable pub string_of_all : List ℕ → Text
unfolding string_of
string_of_all [] = []
string_of_all (r ∷ rs) = string_of r ++ string_of_all rs

is_next : ℕ → Bool
is_next b = leb 0x80 b && leb b 0xBF

-- What the second byte may be after a first one.
second_fits : ℕ → ℕ → Bool
second_fits b c =
    if b == 0xE0
    then leb 0xA0 c && leb c 0xBF
    else if b == 0xED
    then leb 0x80 c && leb c 0x9F
    else if b == 0xF0
    then leb 0x90 c && leb c 0xBF
    else if b == 0xF4
    then leb 0x80 c && leb c 0x8F
    else leb 0x80 c && leb c 0xBF

wrong : ℕ × ℕ
wrong = (0xFFFD, 1)

-- The first rune and its width.
unfoldable pub decode_rune : ℕ → Text → ℕ × ℕ
unfolding is_next second_fits wrong
decode_rune b [] = if ltb b 0x80 then (b, 1) else wrong
decode_rune b (c ∷ []) =
    if ltb b 0x80
    then (b, 1)
    else if leb 0xC2 b && leb b 0xDF && is_next c
    then ((b - 0xC0) * 64 + (c - 0x80), 2)
    else wrong
decode_rune b (c ∷ d ∷ []) =
    if ltb b 0x80
    then (b, 1)
    else if leb 0xC2 b && leb b 0xDF && is_next c
    then ((b - 0xC0) * 64 + (c - 0x80), 2)
    else if leb 0xE0 b && leb b 0xEF && second_fits b c && is_next d
    then ((b - 0xE0) * 4096 + (c - 0x80) * 64 + (d - 0x80), 3)
    else wrong
decode_rune b (c ∷ d ∷ e ∷ rest) =
    if ltb b 0x80
    then (b, 1)
    else if leb 0xC2 b && leb b 0xDF && is_next c
    then ((b - 0xC0) * 64 + (c - 0x80), 2)
    else if leb 0xE0 b && leb b 0xEF && second_fits b c && is_next d
    then ((b - 0xE0) * 4096 + (c - 0x80) * 64 + (d - 0x80), 3)
    else if leb 0xF0 b && leb b 0xF4 && second_fits b c && is_next d && is_next e
    then ((b - 0xF0) * 262144 + (c - 0x80) * 4096 + (d - 0x80) * 64 + (e - 0x80), 4)
    else wrong

runes_loop : ℕ → Text → List ℕ
unfolding decode_rune
runes_loop zero t = []
runes_loop (suc fuel) [] = []
runes_loop (suc fuel) (b ∷ t) =
    let (r, width) = decode_rune b t in r ∷ runes_loop fuel (drop width (b ∷ t))

-- `[]rune(t)`, on as many rounds as there are bytes.
unfoldable pub runes : Text → List ℕ
unfolding runes_loop
runes t = runes_loop (length t) t

-- Valid UTF-8: the runes stand for the same bytes.
abbrev pub IsUtf8 : Text → Type 0
IsUtf8 t = string_of_all (runes t) ≡ t

-- A rune is one to four bytes.
pub length-string_of : (r : ℕ) → (0 < length (string_of r)) × (length (string_of r) < 5)
unfolding string_of
length-string_of r =
    let P : Text → Type 0 = λ s. (0 < length s) × (length s < 5) in
    if_both P (ltb r 0x80) _ _ (omega arith, omega arith)
      (if_both P (ltb r 0x800) _ _ (omega arith, omega arith)
        (if_both P (ltb 0x10FFFF r || (leb 0xD800 r && leb r 0xDFFF)) _ _ (omega arith, omega arith)
          (if_both P (ltb r 0x10000) _ _ (omega arith, omega arith) (omega arith, omega arith))))
