-- ===== src/Obs/Laws/Tracing.antt =====
-- internal/obs/obs.go: when the trace exporter is set up, for the configurations that
-- internal/config/config.go accepts.
use cloud_sre_agent.Prelude.{◌≡◌, ◌≢◌, ◌⊎◌, [], none, ok, Result, Text, trim_space}
use cloud_sre_agent.Obs.{
  Options, Sdk, TracerProvider, Providers, TracingError, no_exporter, with_batcher,
  normalize_exporter, trace_exporter_none, trace_exporter_stdout, trace_exporter_cloud_trace,
  writer_of,
}

module _ {O E : Type 0} (sdk : Sdk O E) where
  -- The provider of a constructor's exporter.
  abbrev Exports : Result Text E → TracerProvider E → Type 0
  Exports r tp = (exp : E) × (r ≡ ok exp) × (tp ≡ with_batcher exp)

  -- The provider that the normalized name stands for.
  abbrev Names : Text → Text → O → TracerProvider E → Type 0
  Names e project w tp =
      ((e ≡ trace_exporter_none) × (tp ≡ no_exporter))
      ⊎ ((e ≡ trace_exporter_stdout) × Exports (sdk.new_stdout w) tp)
      ⊎ ((e ≡ trace_exporter_cloud_trace)
          × (trim_space project ≢ [])
          × Exports (sdk.new_cloud_trace project) tp)

  -- The provider that the options ask for, with the exporter that its constructor returned.
  abbrev pub IsProvider : Options O → TracerProvider E → Type 0
  IsProvider opts tp =
      Names (normalize_exporter opts.tracing.exporter) opts.tracing.project (writer_of sdk opts) tp

  -- What `with_tracer` makes of a provider or its error.
  abbrev pub Keeps : Providers O E → Result TracingError (TracerProvider E) → Type 0
  Keeps out r =
      ((tp : TracerProvider E) × (r ≡ ok tp) × (out.warning ≡ none) × (out.tracer ≡ tp))
      ⊎ (((tp : TracerProvider E) → r ≢ ok tp) × (out.warning ≢ none) × (out.tracer ≡ no_exporter))

  -- A warning, or none, and the tracer that goes with it.
  abbrev pub IsSetUp : Options O → Providers O E → Type 0
  IsSetUp opts out =
      ((out.warning ≡ none) × IsProvider opts out.tracer)
      ⊎ (((tp : TracerProvider E) → ¬ IsProvider opts tp)
          × (out.warning ≢ none)
          × (out.tracer ≡ no_exporter))
