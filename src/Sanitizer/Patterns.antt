-- ===== src/Sanitizer/Patterns.antt =====
-- internal/security/sanitizer.go: what a rule is, and the classes and expressions that the patterns are
-- made of. Classes and case folding are those of ASCII.
use cloud_sre_agent.Prelude.{
  ℕ, ◌==◌, Bool, false, ◌&&◌, ◌||◌, leb, List, [], ◌∷◌, ◌++◌, Option, none, some, Text, codes,
  to_lower_byte,
}
use cloud_sre_agent.Sanitizer.Matching.{Regex, empty, set, seq, either, Replacer}

abbrev pub placeholder : Text
placeholder = codes "[REDACTED]"

-- A rule; `repl` is the text that its template has after `$1`, if it has a template.
pub record Rule : Type 0 where
  pub name : Text
  pub pattern : Regex
  pub repl : Option Text

unfoldable pub replacer_of : Rule → Replacer
replacer_of r matched captured = elim r.repl [ none ↦ placeholder | some after ↦ captured ++ after ]

-- The classes.
abbrev pub is_in : Text → ℕ → Bool
is_in [] c = false
is_in (b ∷ bs) c = (c == b) || is_in bs c

abbrev pub is_lower : ℕ → Bool
is_lower c = leb 97 c && leb c 122

abbrev pub is_upper : ℕ → Bool
is_upper c = leb 65 c && leb c 90

abbrev pub is_digit : ℕ → Bool
is_digit c = leb 48 c && leb c 57

abbrev pub is_letter : ℕ → Bool
is_letter c = is_upper c || is_lower c

abbrev pub is_alphanumeric : ℕ → Bool
is_alphanumeric c = is_letter c || is_digit c

-- Letters, digits and the bytes of a text.
abbrev pub alphanumeric_or : Text → ℕ → Bool
alphanumeric_or t c = is_alphanumeric c || is_in t c

-- `\s`
abbrev pub is_blank : ℕ → Bool
is_blank c = (c == 9) || (c == 10) || (c == 12) || (c == 13) || (c == 32)

abbrev pub is_separator : ℕ → Bool
is_separator c = (c == 58) || (c == 61)

-- Texts, sequences and alternatives.
unfoldable pub lit : Text → Regex
lit [] = empty
lit (c ∷ t) = seq (set (λ b. b == c)) (lit t)

unfoldable pub lit_folded : Text → Regex
lit_folded [] = empty
lit_folded (c ∷ t) = seq (set (λ b. to_lower_byte b == to_lower_byte c)) (lit_folded t)

unfoldable pub all_of : List Regex → Regex
all_of [] = empty
all_of (r ∷ []) = r
all_of (r ∷ s ∷ rs) = seq r (all_of (s ∷ rs))

-- No alternatives match nothing, as `a^` does.
unfoldable pub any_of : List Regex → Regex
any_of [] = set (λ c. false)
any_of (r ∷ []) = r
any_of (r ∷ s ∷ rs) = either r (any_of (s ∷ rs))
