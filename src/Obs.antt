-- ===== src/Obs.antt =====
-- internal/obs/obs.go: the choice of log handler and trace exporter, `Setup` with its fallback, and
-- the flow id of a context. The writer of the log and the exporters' constructors are a parameter; a
-- tracer provider is known by the exporter that its span processor has.
pub mod Redact
pub mod Laws
use cloud_sre_agent.Prelude.{
  Bool, List, [], ◌∷◌, ◌++◌, Option, none, some, Result, ok, err, Text, codes, text_eq, one_of,
  to_lower, trim_space, is_empty, if◌then◌else◌,
}

abbrev pub trace_exporter_none : Text
trace_exporter_none = codes "none"

abbrev pub trace_exporter_stdout : Text
trace_exporter_stdout = codes "stdout"

abbrev pub trace_exporter_cloud_trace : Text
trace_exporter_cloud_trace = codes "cloudtrace"

abbrev pub allowed_trace_exporters : List Text
allowed_trace_exporters =
    trace_exporter_none ∷ trace_exporter_stdout ∷ trace_exporter_cloud_trace ∷ []

pub record TracingOptions : Type 0 where
  pub exporter : Text
  pub project : Text

pub record Options (O : Type 0) : Type 0 where
  pub level : Text
  pub format : Text
  pub writer : Option O
  pub tracing : TracingOptions

-- The writer that discards, and the constructors of the exporters.
pub record Sdk (O E : Type 0) : Type 0 where
  pub discard : O
  pub new_stdout : O → Result Text E
  pub new_cloud_trace : Text → Result Text E

pub data TracerProvider (E : Type 0) : Type 0 where
  no_exporter : TracerProvider E
  with_batcher : E → TracerProvider E

pub data TracingError : Type 0 where
  stdout_failed : Text → TracingError
  project_required : TracingError
  cloud_trace_failed : Text → TracingError
  exporter_unknown : Text → TracingError

-- `normalizeExporter`
unfoldable pub normalize_exporter : Text → Text
normalize_exporter e = if is_empty e then trace_exporter_none else to_lower e

-- `ValidTraceExporter`
unfoldable pub valid_trace_exporter : Text → Bool
unfolding normalize_exporter
valid_trace_exporter e = one_of (normalize_exporter e) allowed_trace_exporters

pub data Level : Type 0 where
  level_debug level_info level_warn level_error : Level

-- `parseLevel`
unfoldable pub parse_level : Text → Level
parse_level s =
    if text_eq (to_lower s) (codes "debug")
    then level_debug
    else if one_of (to_lower s) (codes "warn" ∷ codes "warning" ∷ [])
    then level_warn
    else if text_eq (to_lower s) (codes "error")
    then level_error
    else level_info

pub data Format : Type 0 where
  text_format json_format : Format

-- `strings.EqualFold(opts.Format, "text")`
unfoldable pub format_of : Text → Format
format_of s = if text_eq (to_lower s) (codes "text") then text_format else json_format

-- A logger: its handler, and the attributes of `With`.
pub record Logger (O : Type 0) : Type 0 where
  pub out : O
  pub format : Format
  pub level : Level
  pub attributes : List (Text × Text)

-- `Providers`, with the warning that `Setup` logs.
pub record Providers (O E : Type 0) : Type 0 where
  pub logger : Logger O
  pub tracer : TracerProvider E
  pub warning : Option (Text × TracingError)

module _ {O E : Type 0} (sdk : Sdk O E) where
  -- A provider over a constructed exporter, or the error in the constructor's place.
  unfoldable pub over_exporter :
      (Text → TracingError) → Result Text E → Result TracingError (TracerProvider E)
  over_exporter f (err e) = err (f e)
  over_exporter f (ok exp) = ok (with_batcher exp)

  unfoldable pub cloud_trace_provider : Text → Result TracingError (TracerProvider E)
  unfolding over_exporter
  cloud_trace_provider project =
      let built = over_exporter cloud_trace_failed (sdk.new_cloud_trace project) in
      if is_empty (trim_space project) then err project_required else built

  -- The switch of `buildTracerProvider`, on the normalized name.
  unfoldable pub provider_for : Text → TracingOptions → O → Result TracingError (TracerProvider E)
  unfolding over_exporter cloud_trace_provider
  provider_for e opts w =
      if text_eq e trace_exporter_none
      then ok no_exporter
      else if text_eq e trace_exporter_stdout
      then over_exporter stdout_failed (sdk.new_stdout w)
      else if text_eq e trace_exporter_cloud_trace
      then cloud_trace_provider opts.project
      else err (exporter_unknown opts.exporter)

  -- `buildTracerProvider`
  unfoldable pub build_tracer_provider : TracingOptions → O → Result TracingError (TracerProvider E)
  unfolding normalize_exporter provider_for
  build_tracer_provider opts w = provider_for (normalize_exporter opts.exporter) opts w

  unfoldable pub writer_of : Options O → O
  writer_of opts = elim opts.writer [ none ↦ sdk.discard | some w ↦ w ]

  -- What `Setup` makes of the tracer provider or its error.
  unfoldable pub with_tracer :
      Options O → Logger O → Result TracingError (TracerProvider E) → Providers O E
  with_tracer opts logger (ok tp) = record { logger = logger; tracer = tp; warning = none }
  with_tracer opts logger (err e) = record {
    logger = logger;
    tracer = no_exporter;
    warning = some (opts.tracing.exporter, e);
  }

  -- `Setup`
  unfoldable pub setup : Options O → Providers O E
  unfolding build_tracer_provider writer_of with_tracer parse_level format_of
  setup opts =
      let logger : Logger O = record {
        out = writer_of opts;
        format = format_of opts.format;
        level = parse_level opts.level;
        attributes = [];
      } in
      with_tracer opts logger (build_tracer_provider opts.tracing (writer_of opts))

-- A context, of which only the value under the key of the flow id is read.
pub record Context : Type 0 where
  pub flow_value : Option Text

-- `WithFlowID`
unfoldable pub with_flow_id : Context → Text → Context
with_flow_id ctx id = record ctx { flow_value = some id }

-- `FlowID`
unfoldable pub flow_id : Context → Text
flow_id ctx = elim ctx.flow_value [ none ↦ [] | some id ↦ id ]

-- `LoggerFrom`, with the default logger of slog.
unfoldable pub logger_from : {O : Type 0} → Logger O → Context → Option (Logger O) → Logger O
unfolding flow_id
logger_from {O} default ctx base =
    let l : Logger O = elim base [ none ↦ default | some l ↦ l ] in
    if is_empty (flow_id ctx)
    then l
    else record l { attributes = l.attributes ++ (codes "flow_id", flow_id ctx) ∷ [] }
