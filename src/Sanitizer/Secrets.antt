-- ===== src/Sanitizer/Secrets.antt =====
-- internal/security/sanitizer.go: the rules of `defaultRules` for keys, tokens and private keys.
use cloud_sre_agent.Prelude.{◌==◌, true, ◌||◌, [], ◌∷◌, ◌++◌, none, some, Text, codes}
use cloud_sre_agent.Sanitizer.Matching.{
  Regex, set, seq, either, many, few, boundary, group, exactly, up_to, at_least, optional,
}
use cloud_sre_agent.Sanitizer.Patterns.{
  Rule, placeholder, is_in, is_lower, is_upper, is_digit, is_alphanumeric, alphanumeric_or,
  is_blank, lit, lit_folded, all_of, any_of,
}

unfoldable pub openai_key : Rule
unfolding lit all_of at_least optional
openai_key = record {
  name = codes "openai_key";
  pattern = all_of (
      boundary
      ∷ lit (codes "sk-")
      ∷ optional (either (lit (codes "proj-")) (lit (codes "ant-")))
      ∷ at_least 16 (alphanumeric_or (codes "_-"))
      ∷ boundary
      ∷ []);
  repl = none;
}

unfoldable pub google_key : Rule
unfolding lit all_of exactly up_to
google_key = record {
  name = codes "google_key";
  pattern = all_of (
      boundary
      ∷ lit (codes "AIza")
      ∷ exactly 32 (set (alphanumeric_or (codes "_-")))
      ∷ up_to 12 (set (alphanumeric_or (codes "_-")))
      ∷ boundary
      ∷ []);
  repl = none;
}

unfoldable pub github_token : Rule
unfolding lit all_of at_least
github_token = record {
  name = codes "github_token";
  pattern = all_of (
      boundary
      ∷ either
          (all_of (
            lit (codes "gh")
            ∷ set (is_in (codes "pousr"))
            ∷ lit (codes "_")
            ∷ at_least 20 is_alphanumeric
            ∷ []))
          (seq (lit (codes "github_pat_")) (at_least 20 (alphanumeric_or (codes "_"))))
      ∷ boundary
      ∷ []);
  repl = none;
}

unfoldable pub slack_token : Rule
unfolding lit all_of at_least
slack_token = record {
  name = codes "slack_token";
  pattern = all_of (
      boundary
      ∷ lit (codes "xox")
      ∷ set (is_in (codes "baprs"))
      ∷ lit (codes "-")
      ∷ at_least 10 (alphanumeric_or (codes "-"))
      ∷ boundary
      ∷ []);
  repl = none;
}

unfoldable pub aws_access_key : Rule
unfolding lit all_of exactly
aws_access_key = record {
  name = codes "aws_access_key";
  pattern = all_of (
      boundary
      ∷ either (lit (codes "AKIA")) (lit (codes "ASIA"))
      ∷ exactly 16 (set (λ c. is_digit c || is_upper c))
      ∷ boundary
      ∷ []);
  repl = none;
}

unfoldable pub gcp_oauth_client : Rule
unfolding lit all_of at_least
gcp_oauth_client = record {
  name = codes "gcp_oauth_client";
  pattern = all_of (
      boundary
      ∷ at_least 6 is_digit
      ∷ lit (codes "-")
      ∷ at_least 20 (λ c. is_digit c || is_lower c)
      ∷ lit (codes ".apps.googleusercontent.com")
      ∷ boundary
      ∷ []);
  repl = none;
}

unfoldable pub jwt : Rule
unfolding lit all_of at_least
jwt = record {
  name = codes "jwt";
  pattern = all_of (
      boundary
      ∷ lit (codes "eyJ")
      ∷ at_least 6 (alphanumeric_or (codes "_-"))
      ∷ lit (codes ".")
      ∷ at_least 6 (alphanumeric_or (codes "_-"))
      ∷ lit (codes ".")
      ∷ at_least 6 (alphanumeric_or (codes "_-"))
      ∷ boundary
      ∷ []);
  repl = none;
}

unfoldable pub bearer : Rule
unfolding lit_folded all_of any_of at_least
bearer = record {
  name = codes "bearer";
  pattern = all_of (
      boundary
      ∷ group (
          any_of (
            lit_folded (codes "Bearer")
            ∷ lit_folded (codes "Basic")
            ∷ lit_folded (codes "Token")
            ∷ []))
      ∷ at_least 1 is_blank
      ∷ at_least 8 (alphanumeric_or (codes "._~+/=-"))
      ∷ []);
  repl = some (codes " " ++ placeholder);
}

-- The line that begins or ends a key, with the word given.
unfoldable pub pem_line : Text → Regex
unfolding lit all_of
pem_line word = all_of (
    lit (codes "-----" ++ (word ++ codes " "))
    ∷ many (λ c. is_upper c || (c == 32))
    ∷ lit (codes "PRIVATE KEY-----")
    ∷ [])

unfoldable pub pem : Rule
unfolding all_of pem_line
pem = record {
  name = codes "pem";
  pattern = all_of (pem_line (codes "BEGIN") ∷ few (λ c. true) ∷ pem_line (codes "END") ∷ []);
  repl = none;
}
