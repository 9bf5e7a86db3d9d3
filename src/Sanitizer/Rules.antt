-- ===== src/Sanitizer/Rules.antt =====
-- internal/security/sanitizer.go: the list of `defaultRules`, and the pattern of `buildFieldRE`.
use cloud_sre_agent.Prelude.{
  ◌==◌, not, ◌&&◌, ◌||◌, List, [], ◌∷◌, map, Text, codes, one_of, is_empty, trim_space, to_lower,
  if◌then◌else◌,
}
use cloud_sre_agent.Sanitizer.Matching.{Regex, set, many, boundary, group, at_least}
use cloud_sre_agent.Sanitizer.Patterns.{
  Rule, is_in, is_blank, is_separator, lit_folded, all_of, any_of,
}
use cloud_sre_agent.Sanitizer.Secrets.{
  openai_key, google_key, github_token, slack_token, aws_access_key, gcp_oauth_client, jwt, bearer,
  pem,
}
use cloud_sre_agent.Sanitizer.Identifiers.{
  medical_id, dob, email, date_iso, date_slash, ssn, ssn_plain, credit_card, phone,
}

-- `defaultRules`
unfoldable pub default_rules : List Rule
unfolding openai_key google_key github_token slack_token aws_access_key gcp_oauth_client jwt bearer
    pem medical_id dob email date_iso date_slash ssn ssn_plain credit_card phone
default_rules =
    openai_key ∷ google_key ∷ github_token ∷ slack_token ∷ aws_access_key ∷ gcp_oauth_client ∷ jwt
    ∷ bearer ∷ pem ∷ medical_id ∷ dob ∷ email ∷ date_iso ∷ date_slash ∷ ssn ∷ ssn_plain
    ∷ credit_card ∷ phone ∷ []

-- The loop of `buildFieldRE`, with the names seen so far in lower case.
unfoldable pub escaped : List Text → List Text → List Text
escaped seen [] = []
escaped seen (f ∷ fs) =
    let name = trim_space f in
    let fresh = not (is_empty name) && not (one_of (to_lower name) seen) in
    let rest = escaped (if fresh then to_lower name ∷ seen else seen) fs in
    if fresh then name ∷ rest else rest

-- The value of a field: in quotes of either kind, or up to a blank, a comma or a semicolon.
unfoldable pub value_pattern : Regex
unfolding all_of any_of at_least
value_pattern = any_of (
    all_of (set (λ c. c == 34) ∷ many (λ c. not (c == 34)) ∷ set (λ c. c == 34) ∷ [])
    ∷ all_of (set (λ c. c == 39) ∷ many (λ c. not (c == 39)) ∷ set (λ c. c == 39) ∷ [])
    ∷ at_least 1 (λ c. not (is_blank c || is_in (codes ",;") c))
    ∷ [])

-- A field with one of the names, its separator and its value.
unfoldable pub field_pattern : List Text → Regex
unfolding lit_folded all_of any_of value_pattern
field_pattern [] = any_of []
field_pattern (n ∷ ns) = all_of (
    boundary
    ∷ group (any_of (map lit_folded (n ∷ ns)))
    ∷ many is_blank
    ∷ set is_separator
    ∷ many is_blank
    ∷ value_pattern
    ∷ [])

-- `buildFieldRE`
unfoldable pub build_field_re : List Text → Regex
unfolding escaped field_pattern
build_field_re fields = field_pattern (escaped [] fields)
