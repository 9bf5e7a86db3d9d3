-- ===== src/Tests/Logging.antt =====
-- Runs of the set-up of logs and traces.
use cloud_sre_agent.Prelude.{
  ℕ, ◌≡◌, ◌↔◌, refl, true, false, [], ◌∷◌, none, some, ok, Text, codes, text_eq, one_of, to_lower,
  trim_space,
}
use cloud_sre_agent.Obs.{
  Options, Sdk, setup, no_exporter, with_batcher, project_required, valid_trace_exporter,
  level_warn, level_info, Context, Logger, with_flow_id, logger_from, text_format, json_format,
}
use cloud_sre_agent.Obs.Redact.{Attrs, end, attr, string, any, group, written}
use cloud_sre_agent.Obs.Laws.Redaction.{SameOutside, written-SameOutside_iff}

abbrev pub sdk : Sdk ℕ Text
sdk = record {
  discard = 0;
  new_stdout = λ w. ok (codes "stdout exporter");
  new_cloud_trace = λ project. ok project;
}

abbrev options : Text → Text → Options ℕ
options exporter project = record {
  level = codes "WARN";
  format = codes "Text";
  writer = some 1;
  tracing = record { exporter = exporter; project = project };
}

exporters-test :
    ((setup sdk (options (codes "STDOUT") [])).tracer ≡ with_batcher (codes "stdout exporter"))
    × ((setup sdk (options [] [])).tracer ≡ no_exporter)
    × ((setup sdk (options (codes "cloudtrace") [])).warning
        ≡ some (codes "cloudtrace", project_required))
    × ((setup sdk (options [] [])).logger.level ≡ level_warn)
    × ((setup sdk (options [] [])).logger.format ≡ text_format)
unfolding setup to_lower text_eq trim_space one_of
exporters-test = (refl, refl, refl, refl, refl)

valid-test :
    (valid_trace_exporter (codes "CloudTrace") ≡ true)
    × (valid_trace_exporter (codes "jaeger") ≡ false)
unfolding valid_trace_exporter to_lower one_of text_eq
valid-test = (refl, refl)

abbrev secret_attrs : Text → Attrs
secret_attrs secret = attr (codes "id") (string (codes "7")) (
    attr (codes "request")
      (group (attr (codes "payload") (any secret) (attr (codes "size") (any (codes "12")) end)))
      (attr (codes "err") (string secret) end))

written-test :
    written (secret_attrs (codes "hunter2"))
    ≡ attr (codes "id") (string (codes "7")) (
        attr
          (codes "request")
          (group (
            attr
              (codes "payload")
              (string (codes "[REDACTED]"))
              (attr (codes "size") (any (codes "12")) end)))
          (attr (codes "err") (string (codes "[REDACTED]")) end))
unfolding written one_of text_eq
written-test = refl

written-SameOutside_iff_example :
    (written (secret_attrs (codes "hunter2")) ≡ written (secret_attrs (codes "swordfish")))
    ↔ SameOutside (secret_attrs (codes "hunter2")) (secret_attrs (codes "swordfish"))
written-SameOutside_iff_example =
    written-SameOutside_iff (secret_attrs (codes "hunter2")) (secret_attrs (codes "swordfish"))

-- The flow id of a context is an attribute of the logger.
abbrev base : Logger ℕ
base = record { out = 1; format = json_format; level = level_info; attributes = [] }

abbrev no_context : Context
no_context = record { flow_value = none }

logger_from-test :
    (logger_from base (with_flow_id no_context (codes "f1")) none
      ≡ record base { attributes = (codes "flow_id", codes "f1") ∷ [] })
    × (logger_from base no_context none ≡ base)
unfolding logger_from with_flow_id
logger_from-test = (refl, refl)
