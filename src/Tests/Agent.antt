-- ===== src/Tests/Agent.antt =====
-- Runs of the fan-in and of the agent's loop.
use cloud_sre_agent.Prelude.{
  ℕ, zero, suc, ◌+◌, ◌*◌, ◌≤◌, ◌<◌, ◌≡◌, ◌≢◌, refl, true, false, List, [], ◌∷◌, ◌++◌, map, length,
  All, none, some, Text, codes,
}
use mathlib.Core.Option
use cloud_sre_agent.Detect.{new}
use cloud_sre_agent.Detect.Observe.{run}
use cloud_sre_agent.Pipeline.{PipelineError}
use cloud_sre_agent.Ingest.PubSub
use cloud_sre_agent.Ingest.PubSub.{received}
use cloud_sre_agent.App.FanIn
use cloud_sre_agent.App.FanIn.{
  Worker, update, move, Action, by, cancel, close, take, finish, put, quit, Fan, all_finished,
  moved, fire, fan_in,
}
use cloud_sre_agent.App.FanIn.Order.{from, held, run_complete}
use cloud_sre_agent.App.FanIn.Progress.{sum, run-terminates}
use cloud_sre_agent.App.FanIn.Completion.{run-finishes}
use cloud_sre_agent.App.Consume.{
  Agent, Signal, context_done, channel_closed, plain, reporting, failed, consume,
}
use cloud_sre_agent.App.Consume.Laws.{
  signals_of, journeys, line_of, consume-run, consume-source_failed, IsScrubbed, consume-IsScrubbed,
}
use cloud_sre_agent.Tests.{fraction_runtime, outage}
use cloud_sre_agent.Tests.Detection.{settings}
use cloud_sre_agent.Tests.Remediation.{pipe}
use cloud_sre_agent.Tests.Remediation

-- Two inputs, of two events and of one.
abbrev inputs : ℕ → List ℕ
inputs zero = 10 ∷ 11 ∷ []
inputs (suc i) = 20 ∷ []

-- The second goroutine overtakes the first, which has an event in its hand.
abbrev schedule : List Action
schedule = by 0 take ∷ by 1 take ∷ by 1 put ∷ by 0 put ∷ by 1 finish ∷ by 0 take ∷ []

abbrev reached : Fan ℕ
reached = record {
  count = 2;
  workers =
      update 0 (record { incoming = []; holding = some 11; finished = false })
        (update 1 (record { incoming = []; holding = none; finished = true })
          (update 0 (record { incoming = 11 ∷ []; holding = none; finished = false })
            (update 1 (record { incoming = []; holding = none; finished = false })
              (update 1 (record { incoming = []; holding = some 20; finished = false })
                (update 0 (record { incoming = 11 ∷ []; holding = some 10; finished = false })
                  (fan_in 2 inputs).workers)))));
  out = (1, 20) ∷ (0, 10) ∷ [];
  done = false;
  closed = false;
}

schedule_runs : FanIn.run schedule (fan_in 2 inputs) ≡ some reached
unfolding FanIn.run Option.bind fire moved move update all_finished fan_in
schedule_runs = refl

run_complete_example :
    ((i : ℕ)
      → from i reached.out ++ (held (reached.workers i).holding ++ (reached.workers i).incoming)
        ≡ inputs i)
    × (reached.done ≡ false
        → reached.closed ≡ true
        → (i : ℕ) → i < 2
        → from i reached.out ≡ inputs i)
run_complete_example = run_complete 2 inputs schedule reached schedule_runs

run-terminates_example :
    (length schedule ≤ sum 2 (λ i. 1 + 2 * length (inputs i)) + 2)
    × (reached.closed ≡ false → (a : Action) × (fire a reached ≢ none) × (a ≢ cancel))
run-terminates_example = run-terminates 2 inputs schedule reached schedule_runs

run-finishes_example :
    (rest : List Action) × (g : Fan ℕ) × (FanIn.run rest reached ≡ some g)
    × (g.closed ≡ true)
    × (reached.done ≡ false → (i : ℕ) → i < 2 → from i g.out ≡ inputs i)
run-finishes_example = run-finishes 2 inputs schedule reached schedule_runs

abbrev scrub : Text → Text
scrub s = codes "[clean] " ++ s

abbrev text_of : PipelineError → Text
text_of e = codes "error"

abbrev agent : Agent fraction_runtime ℕ
agent = record { detector = new fraction_runtime settings; pipeline = Remediation.start; log = [] }

abbrev signals : List Signal
signals = signals_of outage ++ channel_closed ∷ []

abbrev subscription : PubSub.Source ℕ
subscription = record {
  cfg = record { project_id = codes "p"; subscription_id = codes "s" };
  client = 0;
  closed = false;
  started = true;
  fatal_err = none;
}

abbrev dead : PubSub.Source ℕ
dead = received (some (record { text = codes "permission denied"; canceled = false })) subscription

consume-run_example : consume fraction_runtime pipe scrub text_of (plain ∷ []) signals agent ≡ (
    let (d, incs) = run fraction_runtime outage agent.detector in
    let travelled = journeys fraction_runtime pipe scrub text_of incs agent.pipeline in
    consume fraction_runtime pipe scrub text_of (plain ∷ []) (channel_closed ∷ []) (record {
      detector = d;
      pipeline = travelled.1;
      log = agent.log ++ map (line_of fraction_runtime pipe scrub text_of) travelled.0;
    }))
consume-run_example =
    consume-run fraction_runtime pipe scrub text_of (plain ∷ []) outage (channel_closed ∷ []) agent

consume-source_failed_example :
    (consume fraction_runtime pipe scrub text_of
      (plain ∷ reporting dead.fatal_err ∷ [])
      signals
      agent).0
    ≡ failed (codes "permission denied")
consume-source_failed_example =
    consume-source_failed fraction_runtime pipe scrub text_of (plain ∷ []) [] subscription
      (record { text = codes "permission denied"; canceled = false }) outage [] agent (tt, tt) refl
      refl

abbrev stopped_signals : List Signal
stopped_signals = signals_of outage ++ context_done (codes "context canceled") ∷ []

abbrev IsCancellation : Text → Type 0
IsCancellation t = t ≡ codes "context canceled"

consume-IsScrubbed_example :
    All
      (IsScrubbed fraction_runtime pipe scrub text_of IsCancellation)
      (consume fraction_runtime pipe scrub text_of (plain ∷ []) stopped_signals agent).1.log
consume-IsScrubbed_example =
    consume-IsScrubbed fraction_runtime pipe scrub text_of IsCancellation (plain ∷ [])
      stopped_signals agent (tt, (tt, (tt, (tt, (tt, (refl, tt)))))) tt
