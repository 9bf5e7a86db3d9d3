-- ===== src/Obs/Redact.antt =====
-- internal/obs/redact.go: the attributes of a log record and their redaction. A value is a group of
-- attributes, a text, or any other value, by how it is printed.
use cloud_sre_agent.Prelude.{Bool, List, [], ◌∷◌, Text, codes, one_of, if◌then◌else◌}

mutual
  pub data Value : Type 0 where
    string any : Text → Value
    group : Attrs → Value

  pub data Attrs : Type 0 where
    end : Attrs
    attr : Text → Value → Attrs → Attrs

abbrev pub redacted_placeholder : Text
redacted_placeholder = codes "[REDACTED]"

abbrev pub sensitive_keys : List Text
sensitive_keys =
    codes "raw"
    ∷ codes "payload"
    ∷ codes "prompt"
    ∷ codes "message"
    ∷ codes "body"
    ∷ codes "content"
    ∷ codes "token"
    ∷ codes "api_key"
    ∷ codes "apikey"
    ∷ codes "secret"
    ∷ codes "password"
    ∷ codes "error"
    ∷ codes "err"
    ∷ codes "source"
    ∷ codes "error_detail"
    ∷ codes "error_type"
    ∷ []

unfoldable pub is_sensitive : Text → Bool
is_sensitive key = one_of key sensitive_keys

-- `redactAttr`: the value of the attribute that it returns.
unfoldable pub redact_attr : Text → Value → Value
unfolding is_sensitive
redact_attr key (group members) = group members
redact_attr key v = if is_sensitive key then string redacted_placeholder else v

-- `Redacted`
unfoldable pub redacted : Text → Value → Text × Value
unfolding is_sensitive
redacted key v = (key, if is_sensitive key then string redacted_placeholder else v)

-- How the handlers of slog call the hook: for each attribute that is no group, in groups too.
-- These are the attributes as the hook leaves them; the handlers then write no empty groups.
unfoldable mutual
  unfolding redact_attr

  pub written : Attrs → Attrs
  written end = end
  written (attr k v rest) = attr k (written_value k v) (written rest)

  pub written_value : Text → Value → Value
  written_value k (group members) = group (written members)
  written_value k (string s) = redact_attr k (string s)
  written_value k (any s) = redact_attr k (any s)
