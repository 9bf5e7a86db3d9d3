-- ===== src/Sanitizer.antt =====
-- internal/security/sanitizer.go: `Sanitizer`, `New`, `NewWithFields`, `Sanitize` and `SanitizeEvent`.
pub mod Matching
pub mod Patterns
pub mod Secrets
pub mod Identifiers
pub mod Rules
pub mod Laws
use cloud_sre_agent.Prelude.{
  ℕ, zero, suc, ◌==◌, Bool, ◌||◌, List, [], ◌∷◌, ◌++◌, map, Option, none, some, Text, codes, take,
  is_empty, if◌then◌else◌,
}
use cloud_sre_agent.Domain.{LogEvent, Labels}
use cloud_sre_agent.Sanitizer.Matching.{Regex, Replacer, replace_all}
use cloud_sre_agent.Sanitizer.Patterns.{placeholder, Rule, is_separator, replacer_of}
use cloud_sre_agent.Sanitizer.Rules.{default_rules, build_field_re}

pub record Sanitizer : Type 0 where
  pub rules : List Rule
  pub field_re : Regex

abbrev pub default_sensitive_fields : List Text
default_sensitive_fields =
    codes "password"
    ∷ codes "passwd"
    ∷ codes "pwd"
    ∷ codes "secret"
    ∷ codes "client_secret"
    ∷ codes "token"
    ∷ codes "access_token"
    ∷ codes "refresh_token"
    ∷ codes "id_token"
    ∷ codes "auth_token"
    ∷ codes "api_key"
    ∷ codes "apikey"
    ∷ codes "api-key"
    ∷ codes "authorization"
    ∷ codes "auth"
    ∷ codes "credential"
    ∷ codes "credentials"
    ∷ codes "private_key"
    ∷ codes "privatekey"
    ∷ codes "session"
    ∷ codes "session_id"
    ∷ codes "sessionid"
    ∷ codes "cookie"
    ∷ codes "set-cookie"
    ∷ codes "ssn"
    ∷ codes "dob"
    ∷ codes "mrn"
    ∷ []

-- `NewWithFields`
unfoldable pub new_with_fields : List Text → Sanitizer
unfolding build_field_re
new_with_fields extra = record {
  rules = default_rules;
  field_re = build_field_re (default_sensitive_fields ++ extra);
}

-- `New`
unfoldable pub new : Sanitizer
unfolding new_with_fields
new = new_with_fields []

-- The bytes up to the value, in the match of a field; `none` is -1.
unfoldable pub blanks_before : Text → Text
blanks_before [] = []
blanks_before (c ∷ m) = if (c == 32) || (c == 9) then c ∷ blanks_before m else []

unfoldable pub up_to_value : Text → Option Text
unfolding blanks_before
up_to_value [] = none
up_to_value (c ∷ m) =
    if is_separator c
    then some (c ∷ blanks_before m)
    else elim (up_to_value m) [ none ↦ none | some l ↦ some (c ∷ l) ]

-- The function that `Sanitize` gives to `ReplaceAllStringFunc`.
unfoldable pub mask_field : Replacer
unfolding up_to_value
mask_field matched captured = elim (up_to_value matched) [
  | none ↦ placeholder
  | some label ↦ label ++ placeholder
]

-- The loop over the rules.
unfoldable pub apply_rules : List Rule → Text → Text
unfolding replace_all replacer_of
apply_rules [] s = s
apply_rules (r ∷ rs) s = apply_rules rs (replace_all r.pattern (replacer_of r) s)

unfoldable pub sanitize : Sanitizer → Text → Text
unfolding apply_rules replace_all mask_field
sanitize z s = if is_empty s then s else replace_all z.field_re mask_field (apply_rules z.rules s)

unfoldable pub sanitize_labels : Sanitizer → Labels → Labels
sanitize_labels z [] = []
sanitize_labels z ((k, v) ∷ ls) = (k, sanitize z v) ∷ sanitize_labels z ls

unfoldable pub sanitize_event : Sanitizer → LogEvent → LogEvent
unfolding sanitize_labels
sanitize_event z e = record e {
  message = sanitize z e.message;
  source = sanitize z e.source;
  labels = sanitize_labels z e.labels;
}
