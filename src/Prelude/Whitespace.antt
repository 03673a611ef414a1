-- ===== src/Prelude/Whitespace.antt =====
-- `trim`, `trim_end` and `split_whitespace` of `str`, on UTF-8 bytes.
use rustbox.Prelude.Strings.{Text, strip_prefix}
use rustbox.Prelude.Tests.{if◌then◌else◌}
use rustbox.Prelude.Lists.{length, is_empty}
use Prim.Native.Nat.{ℕ, zero, suc}
use mathlib.Core.Option.{Option, none, some}
use mathlib.Core.List.{List, [], ◌∷◌, ◌++◌, map}

-- The characters with the property White_Space.
abbrev whitespace : List Text
whitespace =
    (9 ∷ [])
    ∷ (10 ∷ [])
    ∷ (11 ∷ [])
    ∷ (12 ∷ [])
    ∷ (13 ∷ [])
    ∷ (32 ∷ [])
    ∷ (194 ∷ 133 ∷ [])
    ∷ (194 ∷ 160 ∷ [])
    ∷ (225 ∷ 154 ∷ 128 ∷ [])
    ∷ (226 ∷ 128 ∷ 128 ∷ [])
    ∷ (226 ∷ 128 ∷ 129 ∷ [])
    ∷ (226 ∷ 128 ∷ 130 ∷ [])
    ∷ (226 ∷ 128 ∷ 131 ∷ [])
    ∷ (226 ∷ 128 ∷ 132 ∷ [])
    ∷ (226 ∷ 128 ∷ 133 ∷ [])
    ∷ (226 ∷ 128 ∷ 134 ∷ [])
    ∷ (226 ∷ 128 ∷ 135 ∷ [])
    ∷ (226 ∷ 128 ∷ 136 ∷ [])
    ∷ (226 ∷ 128 ∷ 137 ∷ [])
    ∷ (226 ∷ 128 ∷ 138 ∷ [])
    ∷ (226 ∷ 128 ∷ 168 ∷ [])
    ∷ (226 ∷ 128 ∷ 169 ∷ [])
    ∷ (226 ∷ 128 ∷ 175 ∷ [])
    ∷ (226 ∷ 129 ∷ 159 ∷ [])
    ∷ (227 ∷ 128 ∷ 128 ∷ [])
    ∷ []

abbrev reverse : List ℕ → List ℕ
reverse [] = []
reverse (b ∷ s) = reverse s ++ b ∷ []

-- The rest behind the first of the characters that stands in front.
abbrev strip_any : List Text → Text → Option Text
strip_any [] s = none
strip_any (c ∷ cs) s = elim (strip_prefix c s) [ none ↦ strip_any cs s | some rest ↦ some rest ]

-- Every round takes a byte, so the length bounds the rounds.
abbrev strip_all : ℕ → List Text → Text → Text
strip_all zero cs s = s
strip_all (suc fuel) cs s = elim (strip_any cs s) [ none ↦ s | some rest ↦ strip_all fuel cs rest ]

unfoldable pub trim_start : Text → Text
trim_start s = strip_all (length s) whitespace s

unfoldable pub trim_end : Text → Text
trim_end s = reverse (strip_all (length s) (map reverse whitespace) (reverse s))

unfoldable pub trim : Text → Text
unfolding trim_start trim_end
trim s = trim_end (trim_start s)

-- The first word of a text that begins with one, and what follows it.
abbrev break_word : Text → Text × Text
break_word [] = ([], [])
break_word (b ∷ s) = elim (strip_any whitespace (b ∷ s)) [
  | some rest ↦ ([], b ∷ s)
  | none ↦ let (word, rest) = break_word s in (b ∷ word, rest)
]

-- `split_whitespace`; each word takes a byte.
abbrev words : ℕ → Text → List Text
words zero s = []
words (suc fuel) s =
    let (word, rest) = break_word (trim_start s) in
    let later = words fuel rest in if is_empty word then [] else word ∷ later

unfoldable pub split_whitespace : Text → List Text
unfolding trim_start
split_whitespace s = words (length s) s
