-- ===== src/App/FanIn.antt =====
-- internal/app/app.go: `fanIn`, as the steps of its goroutines. Each forwarding goroutine holds at
-- most one event between its two `select`s; an event goes into the unbuffered output when the reader
-- of the output takes it. A goroutine that has returned keeps what it held and did not read, so that
-- statements can speak of it.
pub mod Order
pub mod Progress
pub mod Completion
use cloud_sre_agent.Prelude.{
  ℕ, zero, suc, ◌==◌, Bool, true, false, ◌&&◌, not, List, [], ◌∷◌, ◌++◌, map, Option, none, some,
  ltb, if◌then◌else◌,
}
use mathlib.Core.Option

-- A forwarding goroutine: the events that its input has yet to yield before it is closed, and the
-- event that it holds.
pub record Worker (A : Type 0) : Type 0 where
  pub incoming : List A
  pub holding : Option A
  pub finished : Bool

pub data Move : Type 0 where
  -- the outer `select` receives an event, or that the input is closed
  take finish : Move
  -- the inner `select` sends
  put : Move
  -- either `select` sees that the context is done
  quit : Move

pub data Action : Type 0 where
  by : ℕ → Move → Action
  -- the context is cancelled
  cancel : Action
  -- after `wg.Wait()`, the output is closed
  close : Action

-- The output has the events in their order, each with the number of its goroutine.
pub record Fan (A : Type 0) : Type 0 where
  pub count : ℕ
  pub workers : ℕ → Worker A
  pub out : List (ℕ × A)
  pub done : Bool
  pub closed : Bool

module _ {A : Type 0} where
  unfoldable pub update : ℕ → Worker A → (ℕ → Worker A) → ℕ → Worker A
  update i w ws j = if i == j then w else ws j

  -- A goroutine's move, and the event that it sends.
  unfoldable pub move : Move → Bool → List A → Option A → Option (Worker A × List A)
  move take done (e ∷ es) none =
      some (record { incoming = es; holding = some e; finished = false }, [])
  move finish done [] none = some (record { incoming = []; holding = none; finished = true }, [])
  move put done es (some e) =
      some (record { incoming = es; holding = none; finished = false }, e ∷ [])
  move quit true es held = some (record { incoming = es; holding = held; finished = true }, [])
  move _ _ _ _ = none

  unfoldable pub all_finished : ℕ → (ℕ → Worker A) → Bool
  all_finished zero ws = true
  all_finished (suc n) ws = (ws n).finished && all_finished n ws

  unfoldable pub moved : ℕ → Fan A → Option (Worker A × List A) → Option (Fan A)
  unfolding update
  moved i f none = none
  moved i f (some (w, sent)) =
      some (record f { workers = update i w f.workers; out = f.out ++ map (λ e. (i, e)) sent })

  -- One step; `none` where the step is not possible.
  unfoldable pub fire : Action → Fan A → Option (Fan A)
  unfolding move moved all_finished
  fire (by i m) f =
      if ltb i f.count && not (f.workers i).finished
      then moved i f (move m f.done (f.workers i).incoming (f.workers i).holding)
      else none
  fire cancel f = if f.done then none else some (record f { done = true })
  fire close f =
      if all_finished f.count f.workers && not f.closed
      then some (record f { closed = true })
      else none

  unfoldable pub run : List Action → Fan A → Option (Fan A)
  unfolding Option.bind fire
  run [] f = some f
  run (a ∷ actions) f = Option.bind (fire a f) (run actions)

  -- `fanIn` over the events that its inputs yield.
  unfoldable pub fan_in : ℕ → (ℕ → List A) → Fan A
  fan_in n inputs = record {
    count = n;
    workers = λ i. record { incoming = inputs i; holding = none; finished = false };
    out = [];
    done = false;
    closed = false;
  }
