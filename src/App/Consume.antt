-- ===== src/App/Consume.antt =====
-- internal/app/app.go: `consume`, `sourcesErr`, `handleIncident` and `merge`. The `select` of
-- `consume` receives a list of signals; an event comes with the wall clock's time for the detector.
-- `sanitize` is the method of the sanitizer, and `error_text` gives the text of an error of
-- `Process`, which may hold that of a collaborator. The log keeps what its lines say; the type of an
-- error is left out of them.
pub mod Laws
use cloud_sre_agent.Prelude.{List, [], ◌∷◌, ◌++◌, Option, none, some, Result, ok, err, Text}
use cloud_sre_agent.Prelude.Runtime.{Runtime}
use cloud_sre_agent.Domain.{LogEvent, Incident, Time}
use cloud_sre_agent.Detect.{Detector}
use cloud_sre_agent.Detect.Observe.{observe}
use cloud_sre_agent.Pipeline.{Pipeline, State, PipelineError, not_actionable}
use cloud_sre_agent.Pipeline.Process.{Outcome, process}

pub data LogLine : Type 0 where
  -- the text of the context's error, as it is
  stopping : Text → LogLine
  exhausted : LogLine
  -- the detail of an error
  source_failed : Text → LogLine
  -- an incident's identifier
  skipped : Text → LogLine
  -- an incident's identifier, and the detail of an error
  processing_failed : Text → Text → LogLine
  -- an incident's identifier, and the reference's and its URL
  remediated : Text → Text → Text → LogLine

pub data Signal : Type 0 where
  -- with the text of `ctx.Err()`
  context_done : Text → Signal
  received : Time → LogEvent → Signal
  channel_closed : Signal

-- How `consume` ends, if it has; `failed` has the error of a source.
pub data End : Type 0 where
  waiting : End
  stopped : End
  drained : End
  failed : Text → End

-- A source as `sourcesErr` sees it: its `Err()`, if it has that method.
pub data Source : Type 0 where
  plain : Source
  reporting : Option Text → Source

unfoldable pub sources_err : List Source → Option Text
sources_err [] = none
sources_err (plain ∷ ss) = sources_err ss
sources_err (reporting none ∷ ss) = sources_err ss
sources_err (reporting (some e) ∷ ss) = some e

pub data MergeError : Type 0 where
  start_failed : Text → Text → MergeError

-- `merge`, without the fan-in: start the streams one after another. The parameters are `Name` and
-- `Stream` of a source, over a state `W` of the outside world.
module _ {S C W : Type 0} (name : S → Text) (stream : S → W → Result Text C × W) where
  unfoldable pub start_streams : List S → List C → W → Result MergeError (List C) × W
  start_streams [] chans w = (ok chans, w)
  start_streams (s ∷ ss) chans w =
      let (r, w') = stream s w in
      elim r [
        | err e ↦ (err (start_failed (name s) e), w')
        | ok ch ↦ start_streams ss (chans ++ ch ∷ []) w'
      ]

pub record Agent (rt : Runtime) (W : Type 0) : Type 0 where
  pub detector : Detector rt
  pub pipeline : State W
  pub log : List LogLine

module _ (rt : Runtime) {W : Type 0} (p : Pipeline W) (sanitize : Text → Text)
    (error_text : PipelineError → Text) where
  unfoldable pub outcome_line : Text → Outcome rt → Option PipelineError → LogLine
  outcome_line id res none = remediated id res.ref.id res.ref.url
  outcome_line id res (some not_actionable) = skipped id
  outcome_line id res (some e) = processing_failed id (sanitize (error_text e))

  -- `handleIncident`
  unfoldable pub handle_incident : Incident rt → Agent rt W → Agent rt W
  unfolding outcome_line
  handle_incident inc a =
      let (res, s) = process rt p inc a.pipeline in
      record a { pipeline = s; log = a.log ++ outcome_line inc.id res res.error ∷ [] }

  unfoldable pub handle_found : Option (Incident rt) → Agent rt W → Agent rt W
  unfolding handle_incident
  handle_found none a = a
  handle_found (some inc) a = handle_incident inc a

  unfoldable pub receive : Time → LogEvent → Agent rt W → Agent rt W
  unfolding handle_found
  receive now ev a =
      let (d, found) = observe rt now ev a.detector in
      handle_found found (record a { detector = d })

  -- The output of the fan-in is closed.
  unfoldable pub finish : Option Text → Agent rt W → End × Agent rt W
  finish (some e) a = (failed e, record a { log = a.log ++ source_failed (sanitize e) ∷ [] })
  finish none a = (drained, record a { log = a.log ++ exhausted ∷ [] })

  -- The loop of `consume`.
  unfoldable pub consume : List Source → List Signal → Agent rt W → End × Agent rt W
  unfolding receive finish sources_err
  consume sources [] a = (waiting, a)
  consume sources (context_done reason ∷ signals) a =
      (stopped, record a { log = a.log ++ stopping reason ∷ [] })
  consume sources (channel_closed ∷ signals) a = finish (sources_err sources) a
  consume sources (received now ev ∷ signals) a = consume sources signals (receive now ev a)
