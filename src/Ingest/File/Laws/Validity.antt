-- ===== src/Ingest/File/Laws/Validity.antt =====
-- The events of the file source pass `LogEvent.Validate`.
use mathlib.Core.Option
use cloud_sre_agent.Prelude.{
  ℕ, ◌+◌, ◌≡◌, ◌≢◌, refl, true, List, [], ◌∷◌, Option, none, some, Result, ok, err, Text,
  is_empty_iff, arith, All, All-append, trim_right, length, drop,
}
use cloud_sre_agent.Domain.{LogEvent, Time, validate_event}
use cloud_sre_agent.Domain.Levels.{valid}
use cloud_sre_agent.Domain.Levels.Laws.{parse_severity-valid}
use cloud_sre_agent.Ingest.File.{Library, Source}
use cloud_sre_agent.Ingest.File.Parse.{
  infer_severity, event_id, parse_text, line_severity, event_of_line, JsonLine, parse_json_line,
  or_text, decode_line, parse_line, first_nonempty_of,
}
use cloud_sre_agent.Ingest.File.Drain.{
  Env, State, Tracked, emit, emit_line, is_line_end, drain_line, drain_lines, drain_text,
  drain_opened, drain_file, after_drain, scan_stat, scan_paths, scan_matches, scan, read_files,
  Signal, tick, shutdown, watch_files, run, complete_lines,
}

abbrev pub IsAccepted : LogEvent → Type 0
IsAccepted e = validate_event e ≡ ok tt

infer_severity-valid : (text : Text) → valid (infer_severity text) ≡ true
unfolding infer_severity valid
infer_severity-valid text = ground arith

line_severity-valid : (l : JsonLine) (message : Text) → valid (line_severity l message) ≡ true
unfolding line_severity
line_severity-valid l message = ground (
  arith,
  infer_severity-valid message,
  parse_severity-valid (first_nonempty_of l.severity l.level),
)

-- An event, if there is one, that is accepted.
abbrev AllAccepted : Option LogEvent → Type 0
AllAccepted none = Unit
AllAccepted (some e) = IsAccepted e

AllAccepted-bind :
    {A : Type 0} (o : Option A) (f : A → Option LogEvent)
    → ((a : A) → AllAccepted (f a))
    → AllAccepted (Option.bind o f)
unfolding Option.bind
AllAccepted-bind none f h = tt
AllAccepted-bind (some a) f h = h a

or_text-IsAccepted :
    (o : Option LogEvent) (e : LogEvent) → AllAccepted o → IsAccepted e → IsAccepted (or_text o e)
unfolding or_text
or_text-IsAccepted none e _ h = h
or_text-IsAccepted (some e') e h _ = h

module _ (lib : Library) where
  parse_text-IsAccepted :
      (path line : Text) (at : Time) (seq : ℕ)
      → line ≢ []
      → IsAccepted (parse_text lib path line at seq)
  unfolding parse_text event_id validate_event
  parse_text-IsAccepted path line at seq h =
      ground (arith, is_empty_iff line, infer_severity-valid line)

  event_of_line-AllAccepted :
      (path : Text) (l : JsonLine) (at : Time) (seq : ℕ)
      → AllAccepted (event_of_line lib path l at seq)
  unfolding event_of_line event_id validate_event
  event_of_line-AllAccepted path l at seq = ground (
    arith,
    is_empty_iff (first_nonempty_of l.message l.msg),
    line_severity-valid l (first_nonempty_of l.message l.msg),
  )

  parse_json_line-AllAccepted :
      (path line : Text) (at : Time) (seq : ℕ) → AllAccepted (parse_json_line lib path line at seq)
  unfolding parse_json_line
  parse_json_line-AllAccepted path line at seq =
      AllAccepted-bind (lib.parse_json line) _
        (λ j. AllAccepted-bind (decode_line j) _ (λ l. event_of_line-AllAccepted path l at seq))

  -- Whatever the encoding and the line, unless it is empty, `parseLine` makes an event that
  -- `LogEvent.Validate` accepts.
  pub parse_line-IsAccepted :
      (enc path line : Text) (at : Time) (seq : ℕ)
      → line ≢ []
      → IsAccepted (parse_line lib enc path line at seq).0
  unfolding parse_line
  parse_line-IsAccepted enc path line at seq h =
      let plain = parse_text-IsAccepted path line at seq h in
      ground (
        arith,
        plain,
        or_text-IsAccepted (parse_json_line lib path line at seq) (parse_text lib path line at seq)
            (parse_json_line-AllAccepted path line at seq) plain,
      )

module _ {W Info : Type 0} (lib : Library) (env : Env W Info) (src : Source) where
  -- The state has only accepted events in the channel.
  abbrev pub IsClean : State W → Type 0
  IsClean s = All IsAccepted s.emitted

  emit-IsClean :
      (ev : LogEvent) (s : State W) → IsAccepted ev → IsClean s → IsClean (emit lib env src ev s).1
  unfolding emit
  emit-IsClean ev s a h = ground (arith, h, All-append IsAccepted s.emitted (ev ∷ []) h (a, tt))

  drain_line-IsClean :
      (path line : Text) (s : State W) → IsClean s → IsClean (drain_line lib env src path line s).1
  unfolding drain_line emit_line
  drain_line-IsClean path line s h =
      let w = (env.stopped s.world).1 in
      let trimmed = trim_right is_line_end line in
      let parsed = parse_line lib src.enc path trimmed (env.now w) s.seq in
      ground (
        arith,
        h,
        is_empty_iff trimmed,
        parse_line-IsAccepted lib src.enc path trimmed (env.now w) s.seq,
        emit-IsClean parsed.0 (record { world = w; seq = parsed.1; emitted = s.emitted }),
      )

  drain_lines-IsClean :
      (path : Text) (offset : ℕ) (ls : List Text) (s : State W)
      → IsClean s
      → IsClean (drain_lines lib env src path offset ls s).1
  unfolding drain_lines
  drain_lines-IsClean path offset [] s h = h
  drain_lines-IsClean path offset (l ∷ ls) s h =
      let once = drain_line-IsClean path l s h in
      ground (
        arith,
        once,
        drain_lines-IsClean path (offset + length l) ls (drain_line lib env src path l s).1 once,
      )

  drain_opened-IsClean :
      (path : Text) (start : ℕ) (failed : Option Text) (r : Result Text Text) (s : State W)
      → IsClean s
      → IsClean (drain_opened lib env src path start failed r s).1
  unfolding drain_opened drain_text
  drain_opened-IsClean path start failed (err e) s h = h
  drain_opened-IsClean path start (some e) (ok content) s h = h
  drain_opened-IsClean path start none (ok content) s h =
      drain_lines-IsClean path start (complete_lines (drop start content)) s h

  drain_file-IsClean :
      (path : Text) (start : ℕ) (s : State W)
      → IsClean s
      → IsClean (drain_file lib env src path start s).1
  unfolding drain_file
  drain_file-IsClean path start s h = drain_opened-IsClean path start _ _ _ h

  after_drain-snd :
      (path : Text) (info : Info) (tracked : Tracked Info) (r : Result Text ℕ × State W)
      → (after_drain lib env src path info tracked r).1 ≡ r.1
  unfolding after_drain
  after_drain-snd path info tracked (err e, s) = refl
  after_drain-snd path info tracked (ok end, s) = refl

  scan_stat-IsClean :
      (path : Text) (r : Result Text Info) (tracked : Tracked Info) (s : State W)
      → IsClean s
      → IsClean (scan_stat lib env src path r tracked s).1
  unfolding scan_stat
  scan_stat-IsClean path (err e) tracked s h = h
  scan_stat-IsClean path (ok info) tracked s h = rw after_drain-snd (drain_file-IsClean path _ s h)

  scan_paths-IsClean :
      (paths : List Text) (tracked : Tracked Info) (s : State W)
      → IsClean s
      → IsClean (scan_paths lib env src paths tracked s).1
  unfolding scan_paths
  scan_paths-IsClean [] tracked s h = h
  scan_paths-IsClean (path ∷ paths) tracked s h =
      let w = (env.stopped s.world).1 in
      let s' : State W = record s { world = w } in
      let once = scan_stat-IsClean path (env.stat path w) tracked s' h in
      let next = scan_stat lib env src path (env.stat path w) tracked s' in
      ground (arith, h, scan_paths-IsClean paths next.0 next.1 once)

  scan-IsClean :
      (r : Result Text (List Text)) (tracked : Tracked Info) (s : State W)
      → IsClean s
      → IsClean (scan_matches lib env src r tracked s).1
  unfolding scan_matches
  scan-IsClean (err e) tracked s h = h
  scan-IsClean (ok paths) tracked s h = scan_paths-IsClean paths tracked s h

  read_files-IsClean :
      (paths : List Text) (s : State W) → IsClean s → IsClean (read_files lib env src paths s)
  unfolding read_files
  read_files-IsClean [] s h = h
  read_files-IsClean (path ∷ paths) s h =
      let s' : State W = record s { world = (env.stopped s.world).1 } in
      let once = drain_file-IsClean path 0 s' h in
      ground (arith, h, read_files-IsClean paths (drain_file lib env src path 0 s').1 once)

  watch_files-IsClean :
      (signals : List (Signal W)) (tracked : Tracked Info) (s : State W)
      → IsClean s
      → IsClean (watch_files lib env src signals tracked s)
  unfolding watch_files scan
  watch_files-IsClean [] tracked s h = h
  watch_files-IsClean (shutdown ∷ signals) tracked s h = h
  watch_files-IsClean (tick wait ∷ signals) tracked s h =
      let s' : State W = record s { world = wait s.world } in
      watch_files-IsClean signals _ _ (scan-IsClean (env.glob src.cfg.path s'.world) tracked s' h)

  -- Whatever the files hold, however often they are read again, and wherever reading is cut off,
  -- every event that the source has put into its channel passes `LogEvent.Validate`.
  pub run-IsClean :
      (initial : List Text) (signals : List (Signal W)) (s : State W)
      → IsClean s
      → IsClean (run lib env src initial signals s)
  unfolding run scan
  run-IsClean initial signals s h = ground (
    arith,
    read_files-IsClean initial s h,
    watch_files-IsClean signals (scan lib env src [] s).0 (scan lib env src [] s).1
        (scan-IsClean (env.glob src.cfg.path s.world) [] s h),
  )
