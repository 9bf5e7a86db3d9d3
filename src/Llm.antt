-- ===== src/Llm.antt =====
-- internal/llm/port.go: requests to a language model and its responses. `Model`, `Temperature` and
-- `MaxTokens` are settings that the adapters read; token usage is left out.
pub mod Router
pub mod Adapters
pub mod Schema
pub mod Stub
use cloud_sre_agent.Prelude.{
  ℕ, List, [], ◌∷◌, Option, none, some, Text, codes, is_empty, if◌then◌else◌,
}
use cloud_sre_agent.Prelude.Json.{Json}

pub data Role : Type 0 where
  system user model : Role
  other_role : Text → Role

pub record Message : Type 0 where
  pub role : Role
  pub content : Text

pub record Request : Type 0 where
  pub model : Text
  pub messages : List Message
  pub max_tokens : ℕ
  pub schema : Option Json
  pub schema_name : Text

-- `Request.WithSchema`
unfoldable pub with_schema : Request → Json → Text → Request
with_schema r schema name = record r { schema = some schema; schema_name = name }

pub record Response : Type 0 where
  pub text : Text
  pub model : Text
  pub finish_reason : Text

-- `Response.Decode`: `parse` is the JSON reader of encoding/json, `store` the conversion into the
-- target's type.
unfoldable pub decode {ℓ} :
    {A : Type ℓ} → (Text → Option Json) → (Json → Option A) → Response → Option A
decode parse store r =
    if is_empty r.text then none else elim (parse r.text) [ none ↦ none | some j ↦ store j ]
