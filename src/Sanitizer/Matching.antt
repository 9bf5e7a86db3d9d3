-- ===== src/Sanitizer/Matching.antt =====
-- The regular expressions of internal/security/sanitizer.go, as package regexp matches them: of the
-- matches at a place the preferred one is that of a backtracking search, which tries the left side
-- of an alternative and the longest repetition first (the shortest, for `*?`). Only classes of
-- single bytes are repeated without a bound, so the search needs no fuel.
use cloud_sre_agent.Prelude.{
  ℕ, zero, suc, ◌-◌, ◌==◌, Bool, false, not, ◌&&◌, ◌||◌, leb, List, [], ◌∷◌, ◌++◌, map, take,
  length, Option, none, some, Text, if◌then◌else◌,
}

pub data Regex : Type 0 where
  empty : Regex
  -- a byte of a class
  set : (ℕ → Bool) → Regex
  seq either : Regex → Regex → Regex
  -- `*` and `*?` of a class
  many few : (ℕ → Bool) → Regex
  -- `\b`
  boundary : Regex
  -- the first capturing group
  group : Regex → Regex

-- A place in the text: the byte before it, what comes after, and what the group has captured.
pub record Spot : Type 0 where
  pub before : Option ℕ
  pub rest : Text
  pub captured : Text

unfoldable pub is_word : ℕ → Bool
is_word c = (leb 48 c && leb c 57) || (leb 65 c && leb c 90) || (leb 97 c && leb c 122) || (c == 95)

unfoldable pub is_word_at : Option ℕ → Bool
unfolding is_word
is_word_at none = false
is_word_at (some c) = is_word c

abbrev pub first_byte : Text → Option ℕ
first_byte [] = none
first_byte (c ∷ t) = some c

unfoldable pub at_boundary : Option ℕ → Text → Bool
unfolding is_word_at
at_boundary b t =
    if is_word_at b then not (is_word_at (first_byte t)) else is_word_at (first_byte t)

unfoldable pub set_ends : (ℕ → Bool) → Text → Text → List Spot
set_ends p [] g = []
set_ends p (c ∷ t) g = if p c then record { before = some c; rest = t; captured = g } ∷ [] else []

unfoldable pub many_ends : (ℕ → Bool) → Option ℕ → Text → Text → List Spot
many_ends p b [] g = record { before = b; rest = []; captured = g } ∷ []
many_ends p b (c ∷ t) g =
    let longer = many_ends p (some c) t g in
    (if p c then longer else []) ++ record { before = b; rest = c ∷ t; captured = g } ∷ []

unfoldable pub few_ends : (ℕ → Bool) → Option ℕ → Text → Text → List Spot
few_ends p b [] g = record { before = b; rest = []; captured = g } ∷ []
few_ends p b (c ∷ t) g =
    let longer = few_ends p (some c) t g in
    record { before = b; rest = c ∷ t; captured = g } ∷ (if p c then longer else [])

-- The text between two places, of which the second is given by what comes after it.
unfoldable pub between : Text → Text → Text
between from to = take (length from - length to) from

unfoldable pub capture : Text → Spot → Spot
unfolding between
capture from e = record e { captured = between from e.rest }

unfoldable pub from_each : (Spot → List Spot) → List Spot → List Spot
from_each f [] = []
from_each f (s ∷ ss) = f s ++ from_each f ss

-- The places where a match from a place can end, in the order of the search.
unfoldable pub ends : Regex → Spot → List Spot
unfolding set_ends many_ends few_ends at_boundary from_each capture
ends empty s = s ∷ []
ends (set p) s = set_ends p s.rest s.captured
ends (seq a b) s = from_each (ends b) (ends a s)
ends (either a b) s = ends a s ++ ends b s
ends (many p) s = many_ends p s.before s.rest s.captured
ends (few p) s = few_ends p s.before s.rest s.captured
ends boundary s = if at_boundary s.before s.rest then s ∷ [] else []
ends (group r) s = map (capture s.rest) (ends r s)

abbrev pub first_end : List Spot → Option Spot
first_end [] = none
first_end (e ∷ es) = some e

-- What a replacement is made of: the text of the match, and of its group.
abbrev pub Replacer : Type 0
Replacer = Text → Text → Text

-- The replacement of a match that consumes a byte at least, with the number of its further bytes.
unfoldable pub cut_at : Replacer → Text → Option Spot → Option (Text × ℕ)
unfolding between
cut_at f s none = none
cut_at f s (some e) = elim (length s - length e.rest) [
  | zero ↦ none
  | suc k ↦ some (f (between s e.rest) e.captured, k)
]

-- `ReplaceAll` from a place on, of which the given number of bytes belong to the last match.
unfoldable pub replace_from : Regex → Replacer → ℕ → Option ℕ → Text → Text
unfolding ends cut_at
replace_from r f k b [] = []
replace_from r f (suc k) b (c ∷ t) = replace_from r f k (some c) t
replace_from r f zero b (c ∷ t) =
    elim (cut_at f (c ∷ t)
      (first_end (ends r (record { before = b; rest = c ∷ t; captured = [] })))) [
        | none ↦ c ∷ replace_from r f zero (some c) t
        | some (out, k) ↦ out ++ replace_from r f k (some c) t
      ]

unfoldable pub replace_all : Regex → Replacer → Text → Text
unfolding replace_from
replace_all r f s = replace_from r f zero none s

-- Repetitions, which are short for longer expressions.
unfoldable pub exactly : ℕ → Regex → Regex
exactly zero r = empty
exactly (suc n) r = seq r (exactly n r)

unfoldable pub up_to : ℕ → Regex → Regex
up_to zero r = empty
up_to (suc n) r = either (seq r (up_to n r)) empty

-- `{n,}` of a class, and `?`.
unfoldable pub at_least : ℕ → (ℕ → Bool) → Regex
unfolding exactly
at_least n p = seq (exactly n (set p)) (many p)

unfoldable pub optional : Regex → Regex
optional r = either r empty
