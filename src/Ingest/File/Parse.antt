-- ===== src/Ingest/File/Parse.antt =====
-- internal/ingest/file/file.go: `parseLine` and what it calls. A line is parsed at a reading of the
-- clock; the counter of identifiers is passed through.
use mathlib.Core.List.{reverse}
use mathlib.Core.Option
use cloud_sre_agent.Prelude.{
  ℕ, ◌+◌, ◌%◌, ◌^◌, Bool, false, ◌&&◌, ◌||◌, List, [], ◌∷◌, ◌++◌, Option, none, some, Text, codes,
  text_eq, is_empty, to_upper, trim_space, has_prefix, contains, if◌then◌else◌,
}
use cloud_sre_agent.Prelude.Decimal.{format_int}
use cloud_sre_agent.Prelude.Int.{eq_ℤ}
use cloud_sre_agent.Prelude.Json.{Json, names_field, store_string, store_struct}
use cloud_sre_agent.Domain.{LogEvent, Time, Labels}
use cloud_sre_agent.Domain.Levels.{
  Severity, severity_unknown, severity_debug, severity_info, severity_warning, severity_error,
  severity_critical, parse_severity,
}
use cloud_sre_agent.Ingest.Labels.{store_labels}
use cloud_sre_agent.Ingest.File.{Library, encoding_auto, encoding_json, encoding_text}

-- `nextID` advances a uint64.
unfoldable pub next_seq : ℕ → ℕ
next_seq seq = (seq + 1) % 2 ^ 64

unfoldable pub event_id : ℕ → Text
event_id seq = codes "file-" ++ format_int seq

unfoldable pub contains_token : Text → List Text → Bool
contains_token s [] = false
contains_token s (t ∷ ts) = contains s t || contains_token s ts

unfoldable pub infer_severity : Text → Severity
unfolding contains_token
infer_severity text =
    let u = to_upper text in
    if contains_token u (codes "CRITICAL" ∷ codes "FATAL" ∷ codes "EMERG" ∷ codes "PANIC" ∷ [])
    then severity_critical
    else if contains_token u (codes "ERROR" ∷ codes "ERR" ∷ codes "EXCEPTION" ∷ codes "FAIL" ∷ [])
    then severity_error
    else if contains_token u (codes "WARNING" ∷ codes "WARN" ∷ [])
    then severity_warning
    else if contains_token u (codes "DEBUG" ∷ codes "TRACE" ∷ [])
    then severity_debug
    else if contains_token u (codes "INFO" ∷ codes "NOTICE" ∷ [])
    then severity_info
    else severity_info

-- `firstNonEmpty` of two texts.
unfoldable pub first_nonempty_of : Text → Text → Text
first_nonempty_of a b = if is_empty a then b else a

-- `strings.HasSuffix`
unfoldable pub has_suffix : Text → Text → Bool
has_suffix s t = has_prefix (reverse s) (reverse t)

unfoldable pub looks_json : Text → Bool
unfolding has_suffix
looks_json line =
    has_prefix (trim_space line) (codes "{") && has_suffix (trim_space line) (codes "}")

pub record JsonLine : Type 0 where
  pub timestamp : Text
  pub time : Text
  pub severity : Text
  pub level : Text
  pub message : Text
  pub msg : Text
  pub labels : Labels

-- A member of a JSON line, stored into its field.
store_member : Text → Json → JsonLine → Option JsonLine
store_member k v l =
    if names_field k (codes "timestamp")
    then Option.map (λ x. record l { timestamp = x }) (store_string v l.timestamp)
    else if names_field k (codes "time")
    then Option.map (λ x. record l { time = x }) (store_string v l.time)
    else if names_field k (codes "severity")
    then Option.map (λ x. record l { severity = x }) (store_string v l.severity)
    else if names_field k (codes "level")
    then Option.map (λ x. record l { level = x }) (store_string v l.level)
    else if names_field k (codes "message")
    then Option.map (λ x. record l { message = x }) (store_string v l.message)
    else if names_field k (codes "msg")
    then Option.map (λ x. record l { msg = x }) (store_string v l.msg)
    else if names_field k (codes "labels")
    then Option.map (λ x. record l { labels = x }) (store_labels v l.labels)
    else some l

unfoldable pub decode_line : Json → Option JsonLine
unfolding store_member
decode_line = store_struct store_member (record {
  timestamp = [];
  time = [];
  severity = [];
  level = [];
  message = [];
  msg = [];
  labels = [];
})

unfoldable pub timestamp_layouts : List Text
timestamp_layouts =
    codes "2006-01-02T15:04:05.999999999Z07:00"
    ∷ codes "2006-01-02T15:04:05Z07:00"
    ∷ codes "2006-01-02T15:04:05"
    ∷ codes "2006-01-02 15:04:05"
    ∷ []

unfoldable pub line_severity : JsonLine → Text → Severity
line_severity l message =
    let sev = parse_severity (first_nonempty_of l.severity l.level) in
    if eq_ℤ sev severity_unknown then infer_severity message else sev

unfoldable pub or_text : Option LogEvent → LogEvent → LogEvent
or_text none e = e
or_text (some e') e = e'

module _ (lib : Library) where
  -- The loop over the layouts; the clock's time where none fits.
  unfoldable pub try_layouts : Text → Time → List Text → Time
  try_layouts v at [] = at
  try_layouts v at (layout ∷ layouts) =
      let rest = try_layouts v at layouts in
      elim (lib.parse_time layout v) [ none ↦ rest | some t ↦ t ]

  unfoldable pub parse_timestamp : Text → Time → Time
  unfolding try_layouts timestamp_layouts
  parse_timestamp v at = if is_empty v then at else try_layouts v at timestamp_layouts

  unfoldable pub source_of : Text → Text
  source_of path = codes "file:" ++ lib.base_name path

  unfoldable pub parse_text : Text → Text → Time → ℕ → LogEvent
  unfolding next_seq event_id
  parse_text path line at seq = record {
    id = event_id (next_seq seq);
    timestamp = at;
    severity = infer_severity line;
    message = line;
    source = source_of path;
    labels = [];
  }

  -- A JSON line without a message is left to `parseText`.
  unfoldable pub event_of_line : Text → JsonLine → Time → ℕ → Option LogEvent
  unfolding next_seq event_id line_severity
  event_of_line path l at seq =
      let message = first_nonempty_of l.message l.msg in
      if is_empty message
      then none
      else some (record {
        id = event_id (next_seq seq);
        timestamp = parse_timestamp (first_nonempty_of l.timestamp l.time) at;
        severity = line_severity l message;
        message = message;
        source = source_of path;
        labels = l.labels;
      })

  unfoldable pub parse_json_line : Text → Text → Time → ℕ → Option LogEvent
  unfolding event_of_line Option.bind decode_line
  parse_json_line path line at seq =
      Option.bind (lib.parse_json line)
        (λ j. Option.bind (decode_line j) (λ l. event_of_line path l at seq))

  -- `parseLine` advances the counter once, whichever way the line is read.
  unfoldable pub parse_line : Text → Text → Text → Time → ℕ → LogEvent × ℕ
  unfolding or_text parse_json_line parse_text looks_json next_seq
  parse_line enc path line at seq =
      let plain = parse_text path line at seq in
      let structured = or_text (parse_json_line path line at seq) plain in
      (
        if text_eq enc encoding_json
            then structured
            else if text_eq enc encoding_text
            then plain
            else if text_eq enc encoding_auto
            then (if looks_json line then structured else plain)
            else plain,
        next_seq seq,
      )
