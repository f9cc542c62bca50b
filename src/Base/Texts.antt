-- ===== src/Base/Texts.antt =====
-- Texts as lists of code points, and the functions of Go's `strings` that the program calls.
use Prim.Native.Char.{code}
use Prim.Native.String.{String}
use mathlib.Core.List.{reverse}
use on_call_agent.Base.Tests.{leb, ◌==◌, if◌then◌else◌}
use Prim.Native.Nat.{ℕ, ◌+◌}
use mathlib.Core.Path.{◌≡◌, refl}
use mathlib.Core.Bool.{Bool, true, false, ◌&&◌, ◌||◌}
use mathlib.Core.List.{List, [], ◌∷◌, ◌++◌}

abbrev pub Text : Type 0
Text = List ℕ

abbrev pub codes : String → Text
codes String.[] = []
codes (String.◌∷◌ c s) = code c ∷ codes s

abbrev pub is_empty {ℓ} : {A : Type ℓ} → List A → Bool
is_empty [] = true
is_empty (x ∷ xs) = false

-- unicode.IsSpace, the whole table.
unfoldable pub is_space : ℕ → Bool
is_space c =
    (leb 9 c && leb c 13)
    || c == 32
    || c == 133
    || c == 160
    || c == 5760
    || (leb 8192 c && leb c 8202)
    || c == 8232
    || c == 8233
    || c == 8239
    || c == 8287
    || c == 12288

unfoldable pub trim_left : Text → Text
trim_left [] = []
trim_left (c ∷ s) = if is_space c then trim_left s else c ∷ s

-- strings.TrimSpace
unfoldable pub trim_space : Text → Text
unfolding trim_left is_space
trim_space s = reverse (trim_left (reverse (trim_left s)))

-- A word that ends, in front of the words that follow.
abbrev pub flush : Text → List Text → List Text
flush [] rest = rest
flush (c ∷ w) rest = (c ∷ w) ∷ rest

-- strings.Fields: `word` holds the letters read since the last space.
unfoldable pub fields_from : Text → Text → List Text
fields_from word [] = flush word []
fields_from word (c ∷ s) =
    if is_space c then flush word (fields_from [] s) else fields_from (word ++ c ∷ []) s

unfoldable pub fields : Text → List Text
unfolding fields_from is_space
fields s = fields_from [] s

-- strings.Split at one code point.
unfoldable pub split_from : ℕ → Text → Text → List Text
split_from sep word [] = word ∷ []
split_from sep word (c ∷ s) =
    if c == sep then word ∷ split_from sep [] s else split_from sep (word ++ c ∷ []) s

unfoldable pub split : ℕ → Text → List Text
unfolding split_from
split sep s = split_from sep [] s

-- strings.Contains of one code point.
unfoldable pub has_code : ℕ → Text → Bool
has_code k [] = false
has_code k (c ∷ s) = c == k || has_code k s

-- The letters A to Z, folded to a to z.
unfoldable pub fold_ascii : ℕ → ℕ
fold_ascii c = if leb b'A' c && leb c b'Z' then c + 32 else c

padded : trim_space (codes " \tab ") ≡ codes "ab"
unfolding trim_space
padded = refl

two_words : fields (codes " Bearer  x.y") ≡ codes "Bearer" ∷ codes "x.y" ∷ []
unfolding fields
two_words = refl
