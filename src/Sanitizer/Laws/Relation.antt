-- ===== src/Sanitizer/Laws/Relation.antt =====
-- What the patterns of internal/security/sanitizer.go mean, without an order of search: the places
-- where a match from a place can end.
use cloud_sre_agent.Prelude.{ℕ, ◌≡◌, ◌⊎◌, Bool, true, [], ◌∷◌, ◌++◌, Option, some, Text, All}
use cloud_sre_agent.Sanitizer.Matching.{
  Regex, empty, set, seq, either, many, few, boundary, group, Spot, at_boundary,
}

-- The byte before what follows a text.
abbrev pub last_of : Option ℕ → Text → Option ℕ
last_of b [] = b
last_of b (c ∷ w) = last_of (some c) w

-- The text `w` lies between two places.
abbrev pub Spans : Text → Spot → Spot → Type 0
Spans w s e = (s.rest ≡ w ++ e.rest) × (e.before ≡ last_of s.before w)

abbrev pub Passes : (ℕ → Bool) → Text → Type 0
Passes p w = All (λ c. p c ≡ true) w

-- A repetition, of any number of bytes of a class.
abbrev pub Run : (ℕ → Bool) → Spot → Spot → Type 0
Run p s e = (w : Text) × Spans w s e × Passes p w × (e.captured ≡ s.captured)

unfoldable pub Matches : Regex → Spot → Spot → Type 0
Matches empty s e = s ≡ e
Matches (set p) s e = (c : ℕ) × Spans (c ∷ []) s e × (p c ≡ true) × (e.captured ≡ s.captured)
Matches (seq q r) s e = (m : Spot) × Matches q s m × Matches r m e
Matches (either q r) s e = Matches q s e ⊎ Matches r s e
Matches (many p) s e = Run p s e
Matches (few p) s e = Run p s e
Matches boundary s e = (s ≡ e) × (at_boundary s.before s.rest ≡ true)
Matches (group r) s e =
    (m : Spot) × Matches r s m × (e.before ≡ m.before) × (e.rest ≡ m.rest) × Spans e.captured s e
