-- ===== src/Sanitizer/Laws/Passes.antt =====
-- internal/security/sanitizer.go: `Sanitize` as one pass for each rule, in the order of the rules, and
-- a last pass for the fields.
use mathlib.Core.Path.{subst}
use cloud_sre_agent.Prelude.{
  ◌≤◌, ◌≡◌, refl, inl, inr, sym, true, Bool-cases, leb, leb→le, all, List, [], ◌∷◌, ◌++◌, none,
  Text, All, arith,
}
use cloud_sre_agent.Sanitizer.Matching.{replace_all}
use cloud_sre_agent.Sanitizer.Patterns.{Rule, replacer_of, any_of, lit, lit_folded}
use cloud_sre_agent.Sanitizer.Rules.{default_rules, escaped, field_pattern, build_field_re}
use cloud_sre_agent.Sanitizer.{
  Sanitizer, default_sensitive_fields, new_with_fields, mask_field, apply_rules, sanitize,
}
use cloud_sre_agent.Sanitizer.Laws.Extent.{needs}
use cloud_sre_agent.Sanitizer.Laws.Replacement.{Redacted, replace_all-Redacted}

-- One pass after the other.
pub data Passed : List Rule → Text → Text → Type 0 where
  stop : {s : Text} → Passed [] s s
  pass :
      {r : Rule} {rs : List Rule} {s t u : Text}
      → Redacted r.pattern (replacer_of r) none s t
      → Passed rs t u
      → Passed (r ∷ rs) s u

abbrev IsLong : Rule → Type 0
IsLong r = 1 ≤ needs r.pattern

-- No rule's pattern matches the empty text.
all-IsLong : (rs : List Rule) → all (λ r. leb 1 (needs r.pattern)) rs ≡ true → All IsLong rs
unfolding all
all-IsLong [] _ = tt
all-IsLong (r ∷ rs) h = elim (Bool-cases (leb 1 (needs r.pattern))) [
  | inl long ↦ (leb→le 1 (needs r.pattern) long, all-IsLong rs (ground (arith, h)))
  | inr short ↦ absurd (ground (arith, h))
]

default_rules-IsLong : All IsLong default_rules
unfolding default_rules needs all lit lit_folded any_of
default_rules-IsLong = all-IsLong default_rules refl

field_pattern-long : (names : List Text) → 1 ≤ needs (field_pattern names)
unfolding field_pattern needs
field_pattern-long [] = omega arith
field_pattern-long (n ∷ ns) = omega arith

apply_rules-Passed : (rs : List Rule) (s : Text) → All IsLong rs → Passed rs s (apply_rules rs s)
unfolding apply_rules
apply_rules-Passed [] s _ = stop
apply_rules-Passed (r ∷ rs) s (long, hs) =
    pass (replace_all-Redacted r.pattern (replacer_of r) long s) (apply_rules-Passed rs _ hs)

-- What `Sanitize` gives for a text, of a sanitizer with further fields.
abbrev pub IsRedacted : List Text → Text → Text → Type 0
IsRedacted extra s out =
    (mid : Text) × Passed default_rules s mid
    × Redacted (build_field_re (default_sensitive_fields ++ extra)) mask_field none mid out

apply_rules-nil : (rs : List Rule) → apply_rules rs [] ≡ []
unfolding apply_rules
apply_rules-nil [] = refl
apply_rules-nil (r ∷ rs) = apply_rules-nil rs

-- The early return for an empty text changes nothing.
sanitize-passes :
    (z : Sanitizer) (s : Text)
    → sanitize z s ≡ replace_all z.field_re mask_field (apply_rules z.rules s)
unfolding sanitize
sanitize-passes z [] = rw (apply_rules-nil z.rules) refl
sanitize-passes z (c ∷ s) = refl

-- For any further field names and any text, `Sanitize` makes one pass for each default rule in their
-- order, then one for the fields. In a pass each match of the pattern, from the left and of those
-- at a place the one that the search prefers, is cut out for its replacement, and every byte that
-- begins no match and is in none stays.
pub sanitize-IsRedacted :
    (extra : List Text) (s : Text) → IsRedacted extra s (sanitize (new_with_fields extra) s)
unfolding new_with_fields build_field_re
sanitize-IsRedacted extra s =
    let mid = apply_rules default_rules s in
    let re = build_field_re (default_sensitive_fields ++ extra) in
    let long = field_pattern-long (escaped [] (default_sensitive_fields ++ extra)) in
    let out = replace_all-Redacted re mask_field long mid in
    (
      mid,
      apply_rules-Passed default_rules s default_rules-IsLong,
      subst (Redacted re mask_field none mid) (sym (sanitize-passes (new_with_fields extra) s)) out,
    )
