-- ===== src/App/FanIn/Progress.antt =====
-- `fanIn` is never stuck and does not run for ever.
use cloud_sre_agent.Prelude.{
  ℕ, zero, suc, ◌+◌, ◌*◌, ◌<◌, ◌≤◌, ◌==◌, ◌≡◌, ◌≢◌, ◌⊎◌, refl, ap, inl, inr, Bool, true, false, not,
  ◌&&◌, List, [], ◌∷◌, length, Option, none, some, ltb, arith, Bool-cases, if◌then◌else◌,
}
use mathlib.Core.Path.{subst}
use cloud_sre_agent.App.FanIn.{
  Worker, Move, take, finish, put, quit, Action, by, cancel, close, Fan, update, move, moved,
  all_finished, fire, run, fan_in,
}
use cloud_sre_agent.App.FanIn.Order.{Holds, Holds-bind}

other_number : (a b : ℕ) → b < a → (a == b) ≡ false
other_number a b k = ground (arith, k)

same_number : (i j : ℕ) → (i == j) ≡ true → i ≡ j
same_number i j e = ground (arith, e)

Holds-map :
    {B : Type 0} (P Q : B → Type 0) (o : Option B) → ((b : B) → P b → Q b) → Holds P o → Holds Q o
Holds-map P Q none f h = tt
Holds-map P Q (some b) f h = f b h

abbrev pub sum : ℕ → (ℕ → ℕ) → ℕ
sum zero f = 0
sum (suc n) f = f n + sum n f

sum-ext : (n : ℕ) (f g : ℕ → ℕ) → ((i : ℕ) → f i ≡ g i) → sum n f ≡ sum n g
sum-ext zero f g h = refl
sum-ext (suc n) f g h = omega (arith, h n, sum-ext n f g h)

module _ {A : Type 0} where
  abbrev pub held_count : Option A → ℕ
  held_count none = 0
  held_count (some e) = 1

  -- The moves that a goroutine can make at most.
  abbrev pub moves_of : Worker A → ℕ
  moves_of w = if w.finished then 0 else 1 + (held_count w.holding + 2 * length w.incoming)

  abbrev pub steps_of : Fan A → ℕ
  steps_of f =
      sum f.count (λ i. moves_of (f.workers i))
      + ((if f.done then 0 else 1) + (if f.closed then 0 else 1))

  sum-update_outside :
      (n i : ℕ) (w : Worker A) (ws : ℕ → Worker A)
      → n ≤ i
      → sum n (λ j. moves_of (update i w ws j)) ≡ sum n (λ j. moves_of (ws j))
  unfolding update
  sum-update_outside zero i w ws h = refl
  sum-update_outside (suc n) i w ws h =
      rw (other_number i n (omega (arith, h)))
        (ap (λ s. moves_of (ws n) + s) (sum-update_outside n i w ws (omega (arith, h))))

  sum-update :
      (n i : ℕ) (w : Worker A) (ws : ℕ → Worker A)
      → i < n
      → sum n (λ j. moves_of (update i w ws j)) + moves_of (ws i)
        ≡ sum n (λ j. moves_of (ws j)) + moves_of w
  unfolding update
  sum-update zero i w ws h = absurd (omega (arith, h))
  sum-update (suc n) i w ws h = elim (Bool-cases (i == n)) [
    | inl e ↦
        let same = same_number i n e in
        rw e (
          omega (
            arith,
            sum-update_outside n i w ws (ground (arith, same)),
            ap (λ k. moves_of (ws k)) same,
          ))
    | inr e ↦ rw e (omega (arith, sum-update n i w ws (ground (arith, h, e))))
  ]

  move-fewer :
      (m : Move) (done : Bool) (es : List A) (h : Option A)
      → Holds (λ r. moves_of r.0 < 1 + (held_count h + 2 * length es)) (move m done es h)
  unfolding move
  move-fewer take done (e ∷ es) none = omega arith
  move-fewer finish done [] none = omega arith
  move-fewer put done es (some e) = omega arith
  move-fewer quit true es h = omega arith
  move-fewer take done [] none = tt
  move-fewer take done [] (some e) = tt
  move-fewer take done (x ∷ es) (some e) = tt
  move-fewer finish done (x ∷ es) h = tt
  move-fewer finish done [] (some e) = tt
  move-fewer put done es none = tt
  move-fewer quit false es h = tt

  moved-fewer :
      (i : ℕ) (f : Fan A) (r : Option (Worker A × List A))
      → Holds (λ r. moves_of r.0 < moves_of (f.workers i)) r
      → i < f.count
      → Holds (λ g. steps_of g < steps_of f) (moved i f r)
  unfolding moved
  moved-fewer i f none h lt = tt
  moved-fewer i f (some (w, sent)) h lt = omega (arith, h, sum-update f.count i w f.workers lt)

  pub fire-fewer : (a : Action) (f : Fan A) → Holds (λ g. steps_of g < steps_of f) (fire a f)
  unfolding fire
  fire-fewer (by i m) f =
      let w = f.workers i in
      ground (
        arith,
        move-fewer m f.done w.incoming w.holding,
        moved-fewer i f (move m f.done w.incoming w.holding),
      )
  fire-fewer cancel f = elim (Bool-cases f.done) [ inl d ↦ rw d tt | inr d ↦ rw d (omega arith) ]
  fire-fewer close f = ground arith

  run-fewer :
      (actions : List Action) (f : Fan A)
      → Holds (λ g. length actions + steps_of g ≤ steps_of f) (run actions f)
  unfolding run
  run-fewer [] f = omega arith
  run-fewer (a ∷ actions) f =
      Holds-bind (λ g. steps_of g < steps_of f) _ (fire a f) (run actions)
        (λ g fewer.
          Holds-map (λ g'. length actions + steps_of g' ≤ steps_of g)
            (λ g'. length (a ∷ actions) + steps_of g' ≤ steps_of f) (run actions g)
            (λ g' k. omega (arith, fewer, k)) (run-fewer actions g))
        (fire-fewer a f)

  -- A goroutine that has not returned can move, and needs no cancellation for it.
  abbrev pub next_move : List A → Option A → Move
  next_move es (some e) = put
  next_move [] none = finish
  next_move (e ∷ es) none = take

  next_move-moves :
      (done : Bool) (es : List A) (h : Option A) → move (next_move es h) done es h ≢ none
  unfolding move
  next_move-moves done es (some e) k = ground (arith, k)
  next_move-moves done [] none k = ground (arith, k)
  next_move-moves done (e ∷ es) none k = ground (arith, k)

  first_working :
      (n : ℕ) (ws : ℕ → Worker A)
      → (all_finished n ws ≡ true) ⊎ ((i : ℕ) × (i < n) × ((ws i).finished ≡ false))
  unfolding all_finished
  first_working zero ws = inl refl
  first_working (suc n) ws = elim (Bool-cases (ws n).finished) [
    | inl e ↦ elim (first_working n ws) [
      | inl all ↦ inl (rw (e, all) refl)
      | inr (i, lt, u) ↦ inr (i, omega (arith, lt), u)
    ]
    | inr e ↦ inr (n, omega arith, e)
  ]

  moved-possible :
      (i : ℕ) (f : Fan A) (r : Option (Worker A × List A)) → r ≢ none → moved i f r ≢ none
  unfolding moved
  moved-possible i f none h k = h refl
  moved-possible i f (some (w, sent)) h k = ground (arith, k)

  guard :
      (i : ℕ) (f : Fan A)
      → i < f.count
      → (f.workers i).finished ≡ false
      → (ltb i f.count && not (f.workers i).finished) ≡ true
  guard i f lt u = ground (arith, lt, u)

  pub fire-possible :
      (f : Fan A) → f.closed ≡ false → (a : Action) × (fire a f ≢ none) × (a ≢ cancel)
  unfolding fire moved
  fire-possible f not_closed = elim (first_working f.count f.workers) [
    | inl all ↦ (close, λ k. ground (arith, all, not_closed, k), λ k. ground (arith, k))
    | inr (i, lt, u) ↦
        let w = f.workers i in
        (
          by i (next_move w.incoming w.holding),
          rw (guard i f lt u) (moved-possible i f _ (next_move-moves f.done w.incoming w.holding)),
          λ k. ground (arith, k),
        )
  ]

  -- In whatever order the goroutines of `fanIn` run, they make no more steps than one for each input,
  -- two for each of its events, and two for the cancellation and the closing; and as long as the
  -- output is not closed, a step that is no cancellation is possible.
  pub run-terminates :
      (n : ℕ) (inputs : ℕ → List A) (actions : List Action) (f : Fan A)
      → run actions (fan_in n inputs) ≡ some f
      → (length actions ≤ sum n (λ i. 1 + 2 * length (inputs i)) + 2)
        × (f.closed ≡ false → (a : Action) × (fire a f ≢ none) × (a ≢ cancel))
  unfolding fan_in
  run-terminates n inputs actions f h =
      let k : length actions + steps_of f ≤ steps_of (fan_in n inputs) =
        subst (Holds (λ g. length actions + steps_of g ≤ steps_of (fan_in n inputs))) h
          (run-fewer actions (fan_in n inputs)) in
      let initial =
        sum-ext n (λ i. moves_of ((fan_in n inputs).workers i)) (λ i. 1 + 2 * length (inputs i))
          (λ i. omega arith) in
      (omega (arith, k, initial), fire-possible f)
