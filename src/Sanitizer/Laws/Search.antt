-- ===== src/Sanitizer/Laws/Search.antt =====
-- internal/security/sanitizer.go: the search for a match finds exactly the matches.
use mathlib.Core.Path.{subst}
use mathlib.Core.List.{Memᴰ}
use mathlib.Core.List.Memᴰ
use mathlib.Core.List.Memᴰ.{head, tail}
use cloud_sre_agent.Prelude.{
  ℕ, ◌≡◌, refl, sym, ap, ◌∙◌, ◌↔◌, inl, inr, Bool, true, false, List, [], ◌∷◌, ◌++◌, map, Option,
  some, Text, if◌then◌else◌,
}
use cloud_sre_agent.Sanitizer.Matching.{
  Regex, empty, set, seq, either, many, few, boundary, group, Spot, at_boundary, ends, set_ends,
  many_ends, few_ends, from_each, capture, between,
}
use cloud_sre_agent.Sanitizer.Laws.Extent.{Matches-Spans, between-append}
use cloud_sre_agent.Sanitizer.Laws.Relation.{Spans, Passes, Run, Matches, last_of}

-- Members of a list that a test guards.
module _ {x : Spot} {l : List Spot} where
  guard_of_mem : (b : Bool) → Memᴰ x (if b then l else []) → (b ≡ true) × Memᴰ x l
  guard_of_mem true m = (refl, m)
  guard_of_mem false m = absurd (Memᴰ.not-nil m)

  mem_of_guard : (b : Bool) → b ≡ true → Memᴰ x l → Memᴰ x (if b then l else [])
  mem_of_guard b h m = rw h m

abbrev at : Option ℕ → Text → Text → Spot
at b t g = record { before = b; rest = t; captured = g }

at_ext :
    (e : Spot) {b : Option ℕ} {t g : Text}
    → e.before ≡ b
    → e.rest ≡ t
    → e.captured ≡ g
    → e ≡ at b t g
at_ext e p q r = λ i. at (p i) (q i) (r i)

module _ (p : ℕ → Bool) where
  Run-here : (e : Spot) (b : Option ℕ) (t g : Text) → e ≡ at b t g → Run p (at b t g) e
  Run-here e b t g h =
      ([], (ap (λ x. x.rest) (sym h), ap (λ x. x.before) h), tt, ap (λ x. x.captured) h)

  Run-next :
      (e : Spot) (b : Option ℕ) (c : ℕ) (t g : Text)
      → p c ≡ true
      → Run p (at (some c) t g) e
      → Run p (at b (c ∷ t) g) e
  Run-next e b c t g h (w, (split, before), passes, captured) =
      (c ∷ w, (ap (λ l. c ∷ l) split, before), (h, passes), captured)

  many_ends-Run :
      (e : Spot) (b : Option ℕ) (t g : Text) → Memᴰ e (many_ends p b t g) → Run p (at b t g) e
  unfolding many_ends
  many_ends-Run e b [] g m = Run-here e b [] g (Memᴰ.eq_of_singleton m)
  many_ends-Run e b (c ∷ t) g m =
      elim (Memᴰ.append_cases (if p c then many_ends p (some c) t g else []) m) [
        | inl m ↦
            let (h, m) = guard_of_mem (p c) m in
            Run-next e b c t g h (many_ends-Run e (some c) t g m)
        | inr m ↦ Run-here e b (c ∷ t) g (Memᴰ.eq_of_singleton m)
      ]

  few_ends-Run :
      (e : Spot) (b : Option ℕ) (t g : Text) → Memᴰ e (few_ends p b t g) → Run p (at b t g) e
  unfolding few_ends
  few_ends-Run e b [] g m = Run-here e b [] g (Memᴰ.eq_of_singleton m)
  few_ends-Run e b (c ∷ t) g m = elim (Memᴰ.cases_cons m) [
    | inl h ↦ Run-here e b (c ∷ t) g h
    | inr m ↦
        let (h, m) = guard_of_mem (p c) m in Run-next e b c t g h (few_ends-Run e (some c) t g m)
  ]

  -- Both repetitions list every run.
  many_ends_of_run :
      (b : Option ℕ) (w t g : Text)
      → Passes p w
      → Memᴰ (at (last_of b w) t g) (many_ends p b (w ++ t) g)
  unfolding many_ends
  many_ends_of_run b [] [] g _ = head refl
  many_ends_of_run b [] (c ∷ t) g _ =
      Memᴰ.append_right (if p c then many_ends p (some c) t g else []) (head refl)
  many_ends_of_run b (c ∷ w) t g (h, hs) =
      Memᴰ.append_left _ (mem_of_guard (p c) h (many_ends_of_run (some c) w t g hs))

  few_ends_of_run :
      (b : Option ℕ) (w t g : Text)
      → Passes p w
      → Memᴰ (at (last_of b w) t g) (few_ends p b (w ++ t) g)
  unfolding few_ends
  few_ends_of_run b [] [] g _ = head refl
  few_ends_of_run b [] (c ∷ t) g _ = head refl
  few_ends_of_run b (c ∷ w) t g (h, hs) =
      tail (mem_of_guard (p c) h (few_ends_of_run (some c) w t g hs))

-- Continuations of several places.
module _ (f : Spot → List Spot) where
  from_each-mem :
      (e : Spot) (l : List Spot) → Memᴰ e (from_each f l) → (m : Spot) × Memᴰ m l × Memᴰ e (f m)
  unfolding from_each
  from_each-mem e [] h = absurd (Memᴰ.not-nil h)
  from_each-mem e (x ∷ l) h = elim (Memᴰ.append_cases (f x) h) [
    | inl h ↦ (x, head refl, h)
    | inr h ↦ let (m, hm, he) = from_each-mem e l h in (m, tail hm, he)
  ]

  mem-from_each : (e m : Spot) (l : List Spot) → Memᴰ m l → Memᴰ e (f m) → Memᴰ e (from_each f l)
  unfolding from_each
  mem-from_each e m [] h he = absurd (Memᴰ.not-nil h)
  mem-from_each e m (x ∷ l) (head h) he = Memᴰ.append_left _ (subst (λ y. Memᴰ e (f y)) h he)
  mem-from_each e m (x ∷ l) (tail hm) he = Memᴰ.append_right (f x) (mem-from_each e m l hm he)

mem_of_mem-map :
    (g : Spot → Spot) (e : Spot) (l : List Spot)
    → Memᴰ e (map g l)
    → (m : Spot) × Memᴰ m l × (e ≡ g m)
mem_of_mem-map g e [] h = absurd (Memᴰ.not-nil h)
mem_of_mem-map g e (x ∷ l) (head h) = (x, head refl, h)
mem_of_mem-map g e (x ∷ l) (tail h) = let (m, hm, he) = mem_of_mem-map g e l h in (m, tail hm, he)

set_ends-Matches :
    (p : ℕ → Bool) (e : Spot) (b : Option ℕ) (t g : Text)
    → Memᴰ e (set_ends p t g)
    → Matches (set p) (at b t g) e
unfolding set_ends Matches
set_ends-Matches p e b [] g h = absurd (Memᴰ.not-nil h)
set_ends-Matches p e b (c ∷ t) g h =
    let (b, h) = guard_of_mem (p c) h in
    let same = Memᴰ.eq_of_singleton h in
    (c, (λ i. c ∷ (sym same i).rest, ap (λ x. x.before) same), b, ap (λ x. x.captured) same)

mem-set_ends :
    (p : ℕ → Bool) (e : Spot) (c : ℕ) (t g : Text)
    → e ≡ at (some c) t g
    → p c ≡ true
    → Memᴰ e (set_ends p (c ∷ t) g)
unfolding set_ends
mem-set_ends p e c t g same h = mem_of_guard (p c) h (head same)

between-Spans : (s m : Spot) (w : Text) → Spans w s m → between s.rest m.rest ≡ w
between-Spans s m w (split, _) = rw split (between-append w m.rest)

capture-Spans : (s m : Spot) (w : Text) → Spans w s m → Spans (capture s.rest m).captured s m
unfolding capture
capture-Spans s m w span = subst (λ v. Spans v s m) (sym (between-Spans s m w span)) span

-- A run that ends at a place is found, by a search that finds runs.
found_run :
    (f : Text → List Spot) (s e : Spot) (w : Text) (b : Option ℕ)
    → s.rest ≡ w ++ e.rest
    → e ≡ at b e.rest s.captured
    → Memᴰ (at b e.rest s.captured) (f (w ++ e.rest))
    → Memᴰ e (f s.rest)
found_run f s e w b split same h = subst (λ t. Memᴰ e (f t)) (sym split) (Memᴰ.cast same h)

ends-Matches : (r : Regex) (s e : Spot) → Memᴰ e (ends r s) → Matches r s e
unfolding ends Matches capture
ends-Matches empty s e h = sym (Memᴰ.eq_of_singleton h)
ends-Matches (set p) s e h = set_ends-Matches p e s.before s.rest s.captured h
ends-Matches (seq q r) s e h =
    let (m, hm, he) = from_each-mem (ends r) e (ends q s) h in
    (m, ends-Matches q s m hm, ends-Matches r m e he)
ends-Matches (either q r) s e h = elim (Memᴰ.append_cases (ends q s) h) [
  | inl h ↦ inl (ends-Matches q s e h)
  | inr h ↦ inr (ends-Matches r s e h)
]
ends-Matches (many p) s e h = many_ends-Run p e s.before s.rest s.captured h
ends-Matches (few p) s e h = few_ends-Run p e s.before s.rest s.captured h
ends-Matches boundary s e h =
    let (b, h) = guard_of_mem (at_boundary s.before s.rest) h in (sym (Memᴰ.eq_of_singleton h), b)
ends-Matches (group r) s e h =
    let (m, hm, same) = mem_of_mem-map (capture s.rest) e (ends r s) h in
    let matched = ends-Matches r s m hm in
    let (w, span, _) = Matches-Spans r s m matched in
    subst (λ x. Matches (group r) s x) (sym same) (m, matched, refl, refl, capture-Spans s m w span)

mem-ends : (r : Regex) (s e : Spot) → Matches r s e → Memᴰ e (ends r s)
unfolding ends Matches capture
mem-ends empty s e h = head (sym h)
mem-ends (set p) s e h =
    let (c, (split, last), b, captured) = h in
    found_run (λ t. set_ends p t s.captured) s e (c ∷ []) (some c) split
      (at_ext e last refl captured)
      (mem-set_ends p (at (some c) e.rest s.captured) c e.rest s.captured refl b)
mem-ends (seq q r) s e (m, hq, hr) =
    mem-from_each (ends r) e m (ends q s) (mem-ends q s m hq) (mem-ends r m e hr)
mem-ends (either q r) s e (inl h) = Memᴰ.append_left (ends r s) (mem-ends q s e h)
mem-ends (either q r) s e (inr h) = Memᴰ.append_right (ends q s) (mem-ends r s e h)
mem-ends (many p) s e (w, (split, last), passes, captured) =
    found_run (λ t. many_ends p s.before t s.captured) s e w (last_of s.before w) split
      (at_ext e last refl captured) (many_ends_of_run p s.before w e.rest s.captured passes)
mem-ends (few p) s e (w, (split, last), passes, captured) =
    found_run (λ t. few_ends p s.before t s.captured) s e w (last_of s.before w) split
      (at_ext e last refl captured) (few_ends_of_run p s.before w e.rest s.captured passes)
mem-ends boundary s e (h, b) = mem_of_guard (at_boundary s.before s.rest) b (head (sym h))
mem-ends (group r) s e (m, hm, before, rest, span) =
    let same = ap (λ t. between s.rest t) (sym rest) ∙ between-Spans s e e.captured span in
    Memᴰ.cast (at_ext e before rest (sym same)) (Memᴰ.map (capture s.rest) (mem-ends r s m hm))

-- The search lists a place exactly when a match of the pattern ends there.
pub ends-Matches_iff : (r : Regex) (s e : Spot) → Memᴰ e (ends r s) ↔ Matches r s e
ends-Matches_iff r s e = (ends-Matches r s e, mem-ends r s e)
