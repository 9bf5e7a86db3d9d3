-- ===== src/Pipeline/Construct.antt =====
-- internal/pipeline/pipeline.go: `New` and its options. An interface value that may be nil is an
-- `Option`; the logger's option is left out.
use cloud_sre_agent.Prelude.{
  ◌≡◌, ◌≢◌, refl, List, [], ◌∷◌, Option, none, some, Result, ok, err, Text, codes, arith,
}
use cloud_sre_agent.Prelude.Json.{Json}
use cloud_sre_agent.Llm.{Request, Response}
use cloud_sre_agent.Scm.{Change, Ref}
use cloud_sre_agent.Pipeline.{Stage, ValidationResult, Pipeline, noop_validate, with_lang}

pub data NewError : Type 0 where
  provider_required sanitizer_required target_required : NewError

abbrev pub Validator : Type 0 → Type 0
Validator W = Text → Text → W → Result Text ValidationResult × W

-- The options that `New` takes.
pub data Setting (W : Type 0) : Type 0 where
  set_validator : Option (Validator W) → Setting W
  set_lang : Text → Setting W

module _ {W : Type 0} where
  -- `WithValidator`
  unfoldable pub with_validator : Option (Validator W) → Pipeline W → Pipeline W
  with_validator none p = p
  with_validator (some v) p = record p { ports = record p.ports { validate = v } }

  unfoldable pub apply_settings : List (Setting W) → Pipeline W → Pipeline W
  unfolding with_validator with_lang
  apply_settings [] p = p
  apply_settings (set_validator v ∷ ss) p = apply_settings ss (with_validator v p)
  apply_settings (set_lang l ∷ ss) p = apply_settings ss (with_lang l p)

  -- `New`; the last two arguments stand for the library's schemas and JSON reader.
  unfoldable pub new :
      Option (Request → W → Result Text Response × W)
      → Option (Text → Text)
      → Option (Change → W → Result Text Ref × W)
      → List (Setting W)
      → (Stage → Result Text Json)
      → (Text → Option Json)
      → Result NewError (Pipeline W)
  unfolding apply_settings
  new none sanitizer target settings schema_for parse = err provider_required
  new (some provider) none target settings schema_for parse = err sanitizer_required
  new (some provider) (some sanitizer) none settings schema_for parse = err target_required
  new (some provider) (some sanitizer) (some target) settings schema_for parse = ok (
      apply_settings settings (record {
        ports = record {
          generate = provider;
          sanitize = sanitizer;
          validate = noop_validate;
          deliver = target;
          schema_for = schema_for;
          parse_json = parse;
        };
        lang = codes "go";
      }))

  apply_settings-ports :
      (ss : List (Setting W)) (p : Pipeline W)
      → p.lang ≢ []
      → let q = apply_settings ss p in
        (q.ports.generate ≡ p.ports.generate)
        × (q.ports.sanitize ≡ p.ports.sanitize)
        × (q.ports.deliver ≡ p.ports.deliver)
        × (q.lang ≢ [])
  unfolding apply_settings with_validator with_lang
  apply_settings-ports [] p h = (refl, refl, refl, h)
  apply_settings-ports (set_validator none ∷ ss) p h = apply_settings-ports ss p h
  apply_settings-ports (set_validator (some v) ∷ ss) p h =
      apply_settings-ports ss (record p { ports = record p.ports { validate = v } }) h
  apply_settings-ports (set_lang [] ∷ ss) p h = apply_settings-ports ss p h
  apply_settings-ports (set_lang (c ∷ l) ∷ ss) p h =
      apply_settings-ports ss (record p { lang = c ∷ l }) (ground arith)

  -- With a provider, a sanitizer and a target, `New` succeeds, and no options replace any of the
  -- three in the pipeline or leave it without a language for the validator.
  pub new-ports :
      (provider : Request → W → Result Text Response × W) (sanitizer : Text → Text)
      (target : Change → W → Result Text Ref × W) (settings : List (Setting W))
      (schema_for : Stage → Result Text Json) (parse : Text → Option Json)
      → (p : Pipeline W) × (new
            (some provider)
            (some sanitizer)
            (some target)
            settings
            schema_for
            parse
          ≡ ok p)
        × (p.ports.generate ≡ provider)
        × (p.ports.sanitize ≡ sanitizer)
        × (p.ports.deliver ≡ target)
        × (p.lang ≢ [])
  unfolding new
  new-ports provider sanitizer target settings schema_for parse =
      let (g, s, d, l) = apply_settings-ports settings (_) (ground arith) in (_, refl, g, s, d, l)
