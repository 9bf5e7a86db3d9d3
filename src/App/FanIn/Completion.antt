-- ===== src/App/FanIn/Completion.antt =====
-- Every run of `fanIn` can be brought to its end.
use cloud_sre_agent.Prelude.{
  ℕ, zero, suc, ◌<◌, ◌≤◌, ◌≡◌, ◌≢◌, refl, ◌∙◌, inl, inr, true, false, List, [], ◌∷◌, ◌++◌, Option,
  none, some, arith, Bool-cases, Option-cases,
}
use mathlib.Core.Option
use mathlib.Core.Path.{subst}
use cloud_sre_agent.App.FanIn.{
  Worker, move, Action, by, cancel, close, Fan, moved, fire, run, fan_in,
}
use cloud_sre_agent.App.FanIn.Order.{Holds, from, run_complete}
use cloud_sre_agent.App.FanIn.Progress.{steps_of, fire-fewer, fire-possible}

module _ {A : Type 0} where
  moved-same :
      (i : ℕ) (f : Fan A) (r : Option (Worker A × List A))
      → Holds (λ g. g.done ≡ f.done) (moved i f r)
  unfolding moved
  moved-same i f none = tt
  moved-same i f (some (w, sent)) = refl

  fire-same : (a : Action) (f : Fan A) → a ≢ cancel → Holds (λ g. g.done ≡ f.done) (fire a f)
  unfolding fire
  fire-same (by i m) f h =
      ground (arith, moved-same i f (move m f.done (f.workers i).incoming (f.workers i).holding))
  fire-same cancel f h = absurd (h refl)
  fire-same close f h = ground arith

  -- A continuation of a run that closes the output and cancels nothing.
  pub record Finishes (f : Fan A) : Type 0 where
    pub rest : List Action
    pub last : Fan A
    pub runs : run rest f ≡ some last
    pub at_end : last.closed ≡ true
    pub same_done : last.done ≡ f.done

  step-first :
      (a : Action) (f g : Fan A) → fire a f ≡ some g → g.done ≡ f.done → Finishes g → Finishes f
  unfolding run Option.bind
  step-first a f g h d k = record {
    rest = a ∷ k.rest;
    last = k.last;
    runs = rw h k.runs;
    at_end = k.at_end;
    same_done = k.same_done ∙ d;
  }

  finishes : (fuel : ℕ) (f : Fan A) → steps_of f ≤ fuel → Finishes f
  unfolding run
  finishes zero f h = record {
    rest = [];
    last = f;
    runs = refl;
    at_end = ground (arith, h);
    same_done = refl;
  }
  finishes (suc fuel) f h = elim (Bool-cases f.closed) [
    | inl c ↦ record { rest = []; last = f; runs = refl; at_end = c; same_done = refl }
    | inr c ↦
        let (a, possible, quiet) = fire-possible f c in
        elim (Option-cases (fire a f)) [
          | inl none_eq ↦ absurd (possible none_eq)
          | inr (g, e) ↦
              let fewer : steps_of g < steps_of f =
                subst (Holds (λ x. steps_of x < steps_of f)) e (fire-fewer a f) in
              let same = subst (Holds (λ x. x.done ≡ f.done)) e (fire-same a f quiet) in
              step-first a f g e same (finishes fuel g (omega (arith, h, fewer)))
        ]
  ]

  run-append :
      (xs ys : List Action) (f : Fan A) → run (xs ++ ys) f ≡ Option.bind (run xs f) (run ys)
  unfolding run Option.bind
  run-append [] ys f = refl
  run-append (a ∷ xs) ys f = elim (Option-cases (fire a f)) [
    | inl e ↦ rw e refl
    | inr (g, e) ↦ rw e (run-append xs ys g)
  ]

  run-after : (xs ys : List Action) (f g : Fan A) → run xs f ≡ some g → run (xs ++ ys) f ≡ run ys g
  unfolding Option.bind
  run-after xs ys f g h = rw (run-append xs ys f, h) refl

  -- From every state that the goroutines of `fanIn` reach, steps without a cancellation lead to the
  -- closing of the output; and if the context was not cancelled before, each input is then delivered
  -- whole and in its order.
  pub run-finishes :
      (n : ℕ) (inputs : ℕ → List A) (actions : List Action) (f : Fan A)
      → run actions (fan_in n inputs) ≡ some f
      → (rest : List Action) × (g : Fan A) × (run rest f ≡ some g)
        × (g.closed ≡ true)
        × (f.done ≡ false → (i : ℕ) → i < n → from i g.out ≡ inputs i)
  run-finishes n inputs actions f h =
      let k = finishes (steps_of f) f (omega arith) in
      (
        k.rest,
        k.last,
        k.runs,
        k.at_end,
        λ d.
            (run_complete n inputs (actions ++ k.rest) k.last
                (run-after actions k.rest (fan_in n inputs) f h ∙ k.runs)).1
              (k.same_done ∙ d) k.at_end,
      )
