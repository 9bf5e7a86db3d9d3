-- ===== src/Ingest/File/Drain.antt =====
-- internal/ingest/file/file.go: `drainFile`, `scan`, `run` and `Stream`. The operating system, the
-- context and the receiver of the channel are the parameter `Env` over a state `W` of the outside
-- world; the state also keeps the events that went into the channel, in order. A `FileInfo` is a
-- value of the type `Info`. The clock is read once for a line.
use cloud_sre_agent.Prelude.{
  ℕ, ◌+◌, Bool, true, false, not, ◌||◌, List, [], ◌∷◌, ◌++◌, Option, none, some, Result, ok, err,
  Text, text_eq, is_empty, trim_right, length, drop, ltb, if◌then◌else◌, ◌==◌,
}
use cloud_sre_agent.Domain.{LogEvent, Time}
use cloud_sre_agent.Ingest.File.{Library, Source}
use cloud_sre_agent.Ingest.File.Parse.{parse_line}

pub record Env (W Info : Type 0) : Type 0 where
  -- whether the context is done or the source closed; and the `select` that sends an event or is
  -- told to shut down
  pub stopped : W → Bool × W
  pub send : LogEvent → W → Bool × W
  pub now : W → Time
  -- `os.Open` with the bytes until the end of the file, and the error of `Seek` to an offset
  pub open_file : Text → W → Result Text Text × W
  pub seek_error : Text → ℕ → W → Option Text
  pub stat : Text → W → Result Text Info
  pub size : Info → ℕ
  pub same_file : Info → Info → Bool
  -- `filepath.Glob`
  pub glob : Text → W → Result Text (List Text)

pub record State (W : Type 0) : Type 0 where
  pub world : W
  pub seq : ℕ
  pub emitted : List LogEvent

pub record FileState (Info : Type 0) : Type 0 where
  pub offset : ℕ
  pub info : Option Info

-- `s.tracked`; a path without an entry has the zero state.
abbrev pub Tracked : Type 0 → Type 0
Tracked Info = List (Text × FileState Info)

unfoldable pub get_state : {Info : Type 0} → Text → Tracked Info → FileState Info
get_state path [] = record { offset = 0; info = none }
get_state path ((p, st) ∷ ts) = if text_eq p path then st else get_state path ts

unfoldable pub set_state : {Info : Type 0} → Text → FileState Info → Tracked Info → Tracked Info
set_state path st [] = (path, st) ∷ []
set_state path st ((p, st') ∷ ts) =
    if text_eq p path then (p, st) ∷ ts else (p, st') ∷ set_state path st ts

-- The lines that `ReadString` returns with their newline; the bytes after the last are no line.
unfoldable pub extend_first : ℕ → List Text → List Text
extend_first c [] = []
extend_first c (l ∷ ls) = (c ∷ l) ∷ ls

unfoldable pub complete_lines : Text → List Text
unfolding extend_first
complete_lines [] = []
complete_lines (c ∷ s) =
    let rest = complete_lines s in if c == 10 then (c ∷ []) ∷ rest else extend_first c rest

unfoldable pub is_line_end : ℕ → Bool
is_line_end c = (c == 13) || (c == 10)

-- How a line leaves the loop: stopped before it, after it, or not.
pub data Verdict : Type 0 where
  stop_before stop_after go_on : Verdict

-- What the `select` of watch mode receives; until a tick the outside world moves on.
pub data Signal (W : Type 0) : Type 0 where
  tick : (W → W) → Signal W
  shutdown : Signal W

module _ {W Info : Type 0} (lib : Library) (env : Env W Info) (src : Source) where
  -- `emit`
  unfoldable pub emit : LogEvent → State W → Bool × State W
  emit ev s =
      let (delivered, w) = env.send ev s.world in
      (
        delivered,
        if delivered
            then record s { world = w; emitted = s.emitted ++ ev ∷ [] }
            else record s { world = w },
      )

  unfoldable pub emit_line : Text → Text → State W → Verdict × State W
  unfolding emit
  emit_line path trimmed s =
      let (ev, seq) = parse_line lib src.enc path trimmed (env.now s.world) s.seq in
      let (delivered, s') = emit ev (record s { seq = seq }) in
      (if delivered then go_on else stop_after, s')

  -- One round of the loop of `drainFile` that reads a line.
  unfoldable pub drain_line : Text → Text → State W → Verdict × State W
  unfolding emit_line is_line_end
  drain_line path line s =
      let (stop, w) = env.stopped s.world in
      let s' : State W = record s { world = w } in
      let sent = emit_line path (trim_right is_line_end line) s' in
      if stop
      then (stop_before, s')
      else if is_empty (trim_right is_line_end line)
      then (go_on, s')
      else sent

  unfoldable pub drain_lines : Text → ℕ → List Text → State W → ℕ × State W
  drain_lines path offset [] s = (offset, record s { world = (env.stopped s.world).1 })
  drain_lines path offset (line ∷ ls) s =
      let (verdict, s') = drain_line path line s in
      let rest = drain_lines path (offset + length line) ls s' in
      elim verdict [
        | stop_before ↦ (offset, s')
        | stop_after ↦ (offset + length line, s')
        | go_on ↦ rest
      ]

  -- The bytes of a file from an offset on.
  unfoldable pub drain_text : Text → ℕ → Text → State W → ℕ × State W
  unfolding drain_lines complete_lines
  drain_text path start content s = drain_lines path start (complete_lines (drop start content)) s

  unfoldable pub drain_opened :
      Text → ℕ → Option Text → Result Text Text → State W → Result Text ℕ × State W
  unfolding drain_text
  drain_opened path start failed (err e) s = (err e, s)
  drain_opened path start (some e) (ok content) s = (err e, s)
  drain_opened path start none (ok content) s =
      let (offset, s') = drain_text path start content s in (ok offset, s')

  -- `drainFile`; without an error, the offset after the last line read.
  unfoldable pub drain_file : Text → ℕ → State W → Result Text ℕ × State W
  unfolding drain_opened
  drain_file path start s =
      let (opened, w) = env.open_file path s.world in
      drain_opened path start (if ltb 0 start then env.seek_error path start w else none) opened
        (record s { world = w })

  unfoldable pub differs : Option Info → Info → Bool
  differs none info = false
  differs (some old) info = not (env.same_file old info)

  -- Where reading resumes: from the beginning after a truncation or a rotation.
  unfoldable pub resume_at : FileState Info → Info → ℕ
  unfolding differs
  resume_at st info = if ltb (env.size info) st.offset || differs st.info info then 0 else st.offset

  unfoldable pub after_drain :
      Text → Info → Tracked Info → Result Text ℕ × State W → Tracked Info × State W
  after_drain path info tracked (err e, s) = (tracked, s)
  after_drain path info tracked (ok end, s) =
      (set_state path (record { offset = end; info = some info }) tracked, s)

  -- The body of the loop of `scan`, for a path that is not stopped at.
  unfoldable pub scan_stat :
      Text → Result Text Info → Tracked Info → State W → Tracked Info × State W
  unfolding after_drain drain_file resume_at
  scan_stat path (err e) tracked s = (tracked, s)
  scan_stat path (ok info) tracked s =
      after_drain path info tracked (drain_file path (resume_at (get_state path tracked) info) s)

  unfoldable pub scan_paths : List Text → Tracked Info → State W → Tracked Info × State W
  unfolding scan_stat
  scan_paths [] tracked s = (tracked, s)
  scan_paths (path ∷ paths) tracked s =
      let (stop, w) = env.stopped s.world in
      let s' : State W = record s { world = w } in
      let (tracked', s'') = scan_stat path (env.stat path w) tracked s' in
      let rest = scan_paths paths tracked' s'' in if stop then (tracked, s') else rest

  unfoldable pub scan_matches :
      Result Text (List Text) → Tracked Info → State W → Tracked Info × State W
  unfolding scan_paths
  scan_matches (err e) tracked s = (tracked, s)
  scan_matches (ok paths) tracked s = scan_paths paths tracked s

  -- `scan`
  unfoldable pub scan : Tracked Info → State W → Tracked Info × State W
  unfolding scan_matches
  scan tracked s = scan_matches (env.glob src.cfg.path s.world) tracked s

  -- The loop of `run` that reads each file once.
  unfoldable pub read_files : List Text → State W → State W
  unfolding drain_file
  read_files [] s = s
  read_files (path ∷ paths) s =
      let (stop, w) = env.stopped s.world in
      let s' : State W = record s { world = w } in
      let rest = read_files paths (drain_file path 0 s').1 in if stop then s' else rest

  -- The loop of `run` in watch mode over what its `select` receives.
  unfoldable pub watch_files : List (Signal W) → Tracked Info → State W → State W
  unfolding scan
  watch_files [] tracked s = s
  watch_files (shutdown ∷ signals) tracked s = s
  watch_files (tick wait ∷ signals) tracked s =
      let (tracked', s') = scan tracked (record s { world = wait s.world }) in
      watch_files signals tracked' s'

  -- `run`; the signals are those of watch mode.
  unfoldable pub run : List Text → List (Signal W) → State W → State W
  unfolding read_files watch_files scan
  run initial signals s =
      let first = scan [] s in
      if not src.cfg.watch then read_files initial s else watch_files signals first.0 first.1

pub data StreamError : Type 0 where
  already_called : StreamError
  bad_glob : Text → StreamError
  no_match : StreamError

-- `Stream`: the flag `started` after the call, and the files that `run` starts with.
module _ (src : Source) where
  unfoldable pub start_with : Result Text (List Text) → Result StreamError (List Text)
  start_with (err e) = err (bad_glob e)
  start_with (ok []) = if not src.cfg.watch then err no_match else ok []
  start_with (ok (p ∷ ps)) = ok (p ∷ ps)

  unfoldable pub stream : Result Text (List Text) → Bool → Result StreamError (List Text) × Bool
  unfolding start_with
  stream matches started =
      if started then (err already_called, true) else (start_with matches, true)
