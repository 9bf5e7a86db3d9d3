-- ===== src/App/FanIn/Order.antt =====
-- What `fanIn` does to the order of the events, in every interleaving of its goroutines.
use mathlib.Core.List.{append_assoc, append-nil}
use cloud_sre_agent.Prelude.{
  ℕ, zero, suc, ◌==◌, ◌<◌, ◌≡◌, refl, ap, sym, ◌∙◌, inl, inr, Bool, true, false, not, ◌&&◌, List,
  [], ◌∷◌, ◌++◌, map, Option, none, some, arith, Bool-cases, if◌then◌else◌,
}
use mathlib.Core.Option
use mathlib.Core.Path.{subst}
use cloud_sre_agent.App.FanIn.{
  Worker, Move, take, finish, put, quit, Action, by, cancel, close, Fan, update, move, moved,
  all_finished, fire, run, fan_in,
}

abbrev pub Holds : {B : Type 0} → (B → Type 0) → Option B → Type 0
Holds P none = Unit
Holds P (some b) = P b

pub Holds-bind :
    {B C : Type 0} (P : B → Type 0) (Q : C → Type 0) (o : Option B) (g : B → Option C)
    → ((b : B) → P b → Holds Q (g b))
    → Holds P o
    → Holds Q (Option.bind o g)
unfolding Option.bind
Holds-bind P Q none g h p = tt
Holds-bind P Q (some b) g h p = h b p

same_number : (i j : ℕ) → (i == j) ≡ true → i ≡ j
same_number i j e = ground (arith, e)

pub all_finished-at :
    {A : Type 0} (n i : ℕ) (ws : ℕ → Worker A)
    → all_finished n ws ≡ true
    → i < n
    → (ws i).finished ≡ true
unfolding all_finished
all_finished-at zero i ws h lt = absurd (omega (arith, lt))
all_finished-at (suc n) i ws h lt = elim (Bool-cases (i == n)) [
  | inl e ↦ rw (same_number i n e) (ground (arith, h))
  | inr e ↦ all_finished-at n i ws (ground (arith, h)) (ground (arith, lt, e))
]

module _ {A : Type 0} where
  -- The events of one goroutine in the output.
  abbrev pub from : ℕ → List (ℕ × A) → List A
  from i [] = []
  from i ((j, e) ∷ out) = let rest = from i out in if j == i then e ∷ rest else rest

  abbrev pub held : Option A → List A
  held none = []
  held (some e) = e ∷ []

  from-append : (i : ℕ) (xs ys : List (ℕ × A)) → from i (xs ++ ys) ≡ from i xs ++ from i ys
  from-append i [] ys = refl
  from-append i ((j, e) ∷ xs) ys = ground (arith, from-append i xs ys)

  from-tagged :
      (i j : ℕ) (sent : List A) → from i (map (λ e. (j, e)) sent) ≡ (if j == i then sent else [])
  from-tagged i j [] = ground arith
  from-tagged i j (e ∷ sent) = ground (arith, from-tagged i j sent)

  -- What a goroutine that returned without a cancellation has left behind: nothing.
  abbrev pub IsDrained : Worker A → Type 0
  IsDrained w = (w.holding ≡ none) × (w.incoming ≡ [])

  -- A move sends, holds and leaves unread what was held and unread before, in that order; and it
  -- ends a goroutine only where nothing is left or the context is done.
  abbrev pub IsMove : Bool → List A → Worker A × List A → Type 0
  IsMove done old (w, sent) =
      (sent ++ (held w.holding ++ w.incoming) ≡ old)
      × (done ≡ false → w.finished ≡ true → IsDrained w)

  move-IsMove :
      (m : Move) (done : Bool) (es : List A) (h : Option A)
      → Holds (IsMove done (held h ++ es)) (move m done es h)
  unfolding move
  move-IsMove take done (e ∷ es) none = (refl, λ _ k. absurd (ground (arith, k)))
  move-IsMove finish done [] none = (refl, λ _ _. (refl, refl))
  move-IsMove put done es (some e) = (refl, λ _ k. absurd (ground (arith, k)))
  move-IsMove quit true es h = (refl, λ k _. absurd (ground (arith, k)))
  move-IsMove take done [] none = tt
  move-IsMove take done [] (some e) = tt
  move-IsMove take done (x ∷ es) (some e) = tt
  move-IsMove finish done (x ∷ es) h = tt
  move-IsMove finish done [] (some e) = tt
  move-IsMove put done es none = tt
  move-IsMove quit false es h = tt

  -- Of each goroutine: what it sent, what it holds and what it has not read are its input; without
  -- a cancellation it has returned only with nothing left. The output is closed after all have.
  module _ (n : ℕ) (inputs : ℕ → List A) where
    pub record IsKept (f : Fan A) : Type 0 where
      pub sized : f.count ≡ n
      pub kept :
          (i : ℕ)
          → from i f.out ++ (held (f.workers i).holding ++ (f.workers i).incoming) ≡ inputs i
      pub drained :
          (i : ℕ) → f.done ≡ false → (f.workers i).finished ≡ true → IsDrained (f.workers i)
      pub ended : f.closed ≡ true → all_finished f.count f.workers ≡ true

    moved-IsKept :
        (i : ℕ) (f : Fan A) (r : Option (Worker A × List A))
        → Holds (IsMove f.done (held (f.workers i).holding ++ (f.workers i).incoming)) r
        → i < f.count
        → (f.workers i).finished ≡ false
        → IsKept f
        → Holds IsKept (moved i f r)
    unfolding moved update
    moved-IsKept i f none m lt u k = tt
    moved-IsKept i f (some (w, sent)) (same, left) lt u k = record {
      sized = k.sized;
      kept = λ j.
          let split = from-append j f.out (map (λ e. (i, e)) sent) in
          elim (Bool-cases (i == j)) [
            | inl e ↦
                rw (split, from-tagged j i sent, e, sym (same_number i j e))
                  (append_assoc (from i f.out) sent (held w.holding ++ w.incoming)
                    ∙ ap (λ rest. from i f.out ++ rest) same
                    ∙ k.kept i)
            | inr e ↦ rw (split, from-tagged j i sent, e, append-nil (from j f.out)) (k.kept j)
          ];
      drained = λ j d. elim (Bool-cases (i == j)) [
        | inl e ↦ rw e (left d)
        | inr e ↦ rw e (k.drained j d)
      ];
      ended = λ c. absurd (ground (arith, u, all_finished-at f.count i f.workers (k.ended c) lt));
    }

    all_finished-close :
        (f : Fan A)
        → IsKept f
        → all_finished f.count f.workers ≡ true
        → IsKept (record f { closed = true })
    all_finished-close f k h = record {
      sized = k.sized;
      kept = k.kept;
      drained = k.drained;
      ended = λ _. h;
    }

    fire-IsKept : (a : Action) (f : Fan A) → IsKept f → Holds IsKept (fire a f)
    unfolding fire
    fire-IsKept (by i m) f k =
        let w = f.workers i in
        let moving = move-IsMove m f.done w.incoming w.holding in
        ground (arith, k, moved-IsKept i f (move m f.done w.incoming w.holding) moving)
    fire-IsKept cancel f k = elim (Bool-cases f.done) [
      | inl d ↦ rw d tt
      | inr d ↦ rw d (record {
        sized = k.sized;
        kept = k.kept;
        drained = λ _ c. absurd (ground (arith, c));
        ended = k.ended;
      })
    ]
    fire-IsKept close f k = elim (Bool-cases (all_finished f.count f.workers && not f.closed)) [
      | inl g ↦ rw g (all_finished-close f k (ground (arith, g)))
      | inr g ↦ rw g tt
    ]

    run-IsKept : (actions : List Action) (f : Fan A) → IsKept f → Holds IsKept (run actions f)
    unfolding run
    run-IsKept [] f k = k
    run-IsKept (a ∷ actions) f k =
        Holds-bind IsKept IsKept (fire a f) (run actions) (run-IsKept actions) (fire-IsKept a f k)

  -- In whatever order the goroutines of `fanIn` run, the output has, of each input, a beginning of
  -- its events in their order, and no event twice; what is missing of it is the event that the
  -- goroutine holds and then those that it has not read. Once the output is closed without a
  -- cancellation, nothing is missing of any input.
  pub run_complete :
      (n : ℕ) (inputs : ℕ → List A) (actions : List Action) (f : Fan A)
      → run actions (fan_in n inputs) ≡ some f
      → ((i : ℕ)
          → from i f.out ++ (held (f.workers i).holding ++ (f.workers i).incoming) ≡ inputs i)
        × (f.done ≡ false → f.closed ≡ true → (i : ℕ) → i < n → from i f.out ≡ inputs i)
  unfolding fan_in
  run_complete n inputs actions f h =
      let k : IsKept n inputs f = subst (Holds (IsKept n inputs)) h (
        run-IsKept n inputs actions (fan_in n inputs) (record {
          sized = refl;
          kept = λ _. refl;
          drained = λ _ _ c. absurd (ground (arith, c));
          ended = λ c. absurd (ground (arith, c));
        })) in
      (
        k.kept,
        λ d c i lt.
            let (none_held, none_left) =
              k.drained i d (all_finished-at f.count i f.workers (k.ended c) (rw k.sized lt)) in
            sym (append-nil (from i f.out)) ∙ (rw (none_held, none_left) at (k.kept i)),
      )
