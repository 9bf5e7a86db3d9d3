-- ===== src/Llm/Adapters.antt =====
-- internal/llm/openai, ollama, anthropic and gemini: the adapters of the vendors' clients. A client is a function on a state `W` of the outside world. The sampling temperature and
-- the token usage are left out; a request's schema is a JSON value already.
pub mod OpenAi
pub mod Ollama
pub mod Anthropic
pub mod Gemini
pub mod Laws
use cloud_sre_agent.Prelude.{Bool, true, false, Option, none, some, Text, is_empty, if◌then◌else◌}

-- The request's model, or else the adapter's.
unfoldable pub model_or : Text → Text → Text
model_or requested default = if is_empty requested then default else requested

abbrev pub is_some : {A : Type 0} → Option A → Bool
is_some none = false
is_some (some a) = true
