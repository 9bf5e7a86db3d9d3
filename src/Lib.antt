-- ===== src/Lib.antt =====
-- cloud-sre-agent: an agent that reads log events, detects incidents over a sliding window, asks a
-- language model for a triage, an analysis and a patch, has the patch validated, and delivers it.
--
-- Events from the sources go one by one to the detector's `Observe`, which may emit an incident;
-- `Process` of the pipeline runs the incident through three requests to the provider chain, the
-- validator's gate and the delivery target. The configuration selects provider chain, target,
-- validator and sources, and is checked before any of them is built.
--
-- - Prelude: the names that all files share, lists and byte strings, signed integers, decimals,
--   JSON values, `Result`, and the interface `Runtime` of float64 numbers and formatting.
-- - Domain (internal/domain/domain.go): `Domain.Levels` is `Severity` with `String`, `Valid` and
--   `ParseSeverity`; `Domain` has the records and their `Validate`; `Domain.Decode` the JSON forms.
-- - Detect (internal/detect/detect.go): `Detector` is the source's struct; `Detect.Observe` has
--   `Observe` cut into `record_event`, `evaluate` and `fire`, and `run` over a list of events;
--   `Detect.Window` is `evict` and `counts`, `Detect.Services` `affectedServices`,
--   `Detect.Samples` `samples`, `Detect.Build` `buildIncident`.
-- - Llm (internal/llm/port.go) and Llm.Router (internal/llm/router/router.go): requests, responses
--   and the fallback chain `New`, `Name`, `Generate`; Llm.Adapters.OpenAi, Llm.Adapters.Ollama,
--   Llm.Adapters.Anthropic and Llm.Adapters.Gemini (internal/llm/openai/openai.go,
--   internal/llm/ollama/ollama.go, internal/llm/anthropic/anthropic.go and
--   internal/llm/gemini/gemini.go): `Generate` over the vendors' clients; Llm.Stub
--   (internal/llm/stub/stub.go): the canned answers; Llm.Schema (internal/llm/schema.go):
--   `SchemaFor` on decoded documents.
-- - Pipeline (internal/pipeline/pipeline.go, port.go): the ports; `Pipeline.Prompt` has the prompts,
--   `Pipeline.Stages` is `triage`, `analyze` and `remediate`, `Pipeline.Process` is `Process`, with
--   one helper for what follows each stage; `Pipeline.Construct` has `New` and its options.
-- - Scm (internal/scm/port.go), Scm.Naming and Scm.GitHub (internal/scm/github/github.go): the
--   change, the names made from it, and `Deliver` as a pull request; Scm.GitLab
--   (internal/scm/gitlab/gitlab.go): `Deliver` as a merge request; Scm.Local
--   (internal/scm/local/local.go): `Deliver` as a file in a directory.
-- - Config (internal/config/config.go): the records; `Config.Validate` is `Validate` and its parts,
--   `Config.Load` is `Load`.
-- - Resilience (internal/resilience/resilience.go): the policies, as what their builders receive.
-- - Ingest.File (internal/ingest/file/file.go): `Ingest.File` is `New`, `Ingest.File.Parse` has
--   `parseLine` and what it calls, `Ingest.File.Drain` `drainFile`, `scan`, `run` and `Stream`.
-- - Ingest.PubSub (internal/ingest/pubsub/pubsub.go): `New`, `setErr`, `Close` and the two ends of
--   `Stream`; `Ingest.PubSub.Entry` is `mapMessage`, `Ingest.PubSub.Handle` is `handle`.
-- - Sanitizer (internal/security/sanitizer.go): `Sanitize` and `SanitizeEvent`; `Sanitizer.Secrets` and
--   `Sanitizer.Identifiers` have the rules, `Sanitizer.Rules` their list and the pattern of the
--   fields, `Sanitizer.Matching` the regular expressions, as package regexp matches them.
-- - PatchValidator (internal/validate/validate.go): `Validate` with its gates.
-- - App (internal/app/app.go): `App.Build` has the builders of provider, target, validator, sources;
--   `App.Consume` is `consume`, `sourcesErr`, `handleIncident` and the loop of `merge`; `App.FanIn` is
--   `fanIn`, as the steps that its goroutines take in any order; `App.Run` is `Run`.
-- - Obs (internal/obs/obs.go and internal/obs/redact.go): `Setup` and its parts, and the flow id;
--   `Obs.Redact` has the redaction of attributes.
-- - Command (cmd/sre-agent/main.go): `run` with the loading before it, and the exit status.
-- - Tests: runs of all these at concrete inputs.
--
-- A component that acts on the outside world is a function of a state `W` of that world, which is a
-- parameter: the provider, the validator, the delivery target, the clients of GitHub, GitLab, Pub/Sub
-- and the providers' vendors, the file system, the subprocesses, the `select`s, the adapters'
-- constructors, the store of koanf, the exporters, the environment and the JSON reader are
-- third-party code or wrap it. What a theorem needs of them is a record of laws among its hypotheses.
-- The states of the pipeline, of the sources and of the patch validator also keep the list of what
-- was called, emitted or done, which the source does not store, so that statements can speak of it.
--
-- Strings are lists of bytes, with the case and the white space of ASCII. Times are nanoseconds
-- since Go's zero time; a difference of times saturates at the largest int64, as in Go. `seq` wraps
-- around at 2^64. Counts are natural numbers, which a Go int holds for any slice. The detector's
-- settings, of which New only asks whether they are positive, are natural numbers too; the durations
-- of the resilience policies are integers. `Severity` is an integer, so that values outside the
-- constants occur. All loops are recursions over lists, among them the loops over what a channel or a
-- timer delivers, so there is no fuel except in the printing of numbers, where a number n has at most
-- n + 1 digits.
--
-- Not modelled: the sampling temperature and the token usage of the providers' adapters, the
-- execution of resilience policies, the reflection of schemas, the store and the parsers of koanf,
-- the writing of logs and spans, and the parsing of the command line. Error texts are constructors
-- with the values that the texts name.
pub mod Prelude
pub mod Domain
pub mod Detect
pub mod Llm
pub mod Scm
pub mod Ingest
pub mod Sanitizer
pub mod Obs
pub mod PatchValidator
pub mod App
pub mod Resilience
pub mod Command
pub mod Tests
pub mod Pipeline
pub mod Config
