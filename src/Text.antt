-- ===== src/Text.antt =====
-- Texts as lists of code points, with the string methods that the code uses. Letters are ASCII:
-- broker paths, symbols and currency codes are.
use Prim.Native.Char.{code}
use Prim.Native.String.{String}
use llm_trade.Prelude.{
  ℕ, ◌+◌, ◌-◌, Bool, true, false, ◌&&◌, ◌||◌, List, [], ◌∷◌, map, any, if◌then◌else◌, leb, ◌==◌,
  Option, none, some,
}

abbrev pub Text : Type 0
Text = List ℕ

-- A literal.
abbrev pub codes : String → Text
codes String.[] = []
codes (String.◌∷◌ c s) = code c ∷ codes s

abbrev pub is_upper_letter : ℕ → Bool
is_upper_letter c = leb b'A' c && leb c b'Z'

abbrev pub is_digit : ℕ → Bool
is_digit c = leb b'0' c && leb c b'9'

abbrev pub is_lower_letter : ℕ → Bool
is_lower_letter c = leb b'a' c && leb c b'z'

abbrev pub upper : Text → Text
upper = map (λ c. if is_lower_letter c then c - 32 else c)

abbrev pub lower : Text → Text
lower = map (λ c. if is_upper_letter c then c + 32 else c)

-- The rest after a prefix, if the text begins with it.
abbrev pub drop_prefix : Text → Text → Option Text
drop_prefix [] text = some text
drop_prefix (p ∷ ps) [] = none
drop_prefix (p ∷ ps) (c ∷ cs) = if p == c then drop_prefix ps cs else none

abbrev pub is_some {ℓ} : {A : Type ℓ} → Option A → Bool
is_some none = false
is_some (some a) = true

-- `word in text`
abbrev pub contains : Text → Text → Bool
contains word [] = is_some (drop_prefix word [])
contains word (c ∷ cs) = is_some (drop_prefix word (c ∷ cs)) || contains word cs

abbrev pub same_text : Text → Text → Bool
same_text [] [] = true
same_text (c ∷ cs) (d ∷ ds) = c == d && same_text cs ds
same_text _ _ = false

-- `text in words`
abbrev pub member : Text → List Text → Bool
member text = any (same_text text)
