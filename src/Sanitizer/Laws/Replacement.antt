-- ===== src/Sanitizer/Laws/Replacement.antt =====
-- internal/security/sanitizer.go: what `ReplaceAll` does to a text, and so what a rule does to it.
use mathlib.Core.Path.{subst}
use mathlib.Core.List.{Memᴰ}
use mathlib.Core.List.Memᴰ
use mathlib.Core.List.Memᴰ.{head}
use cloud_sre_agent.Prelude.{
  ℕ, zero, suc, ◌-◌, ◌≤◌, ◌≡◌, refl, sym, ap, ◌∙◌, ◌⊎◌, inl, inr, List, [], ◌∷◌, ◌++◌, Option, none,
  some, Text, length, length-append, drop, arith,
}
use cloud_sre_agent.Sanitizer.Matching.{
  Regex, Spot, Replacer, ends, first_byte, first_end, cut_at, replace_from, replace_all,
}
use cloud_sre_agent.Sanitizer.Laws.Relation.{last_of, Spans, Matches}
use cloud_sre_agent.Sanitizer.Laws.Extent.{needs, Matches-Spans, between-append}
use cloud_sre_agent.Sanitizer.Laws.Search.{ends-Matches_iff}

-- The place before a text, where nothing is captured.
abbrev pub start : Option ℕ → Text → Spot
start b t = record { before = b; rest = t; captured = [] }

-- The text `out` is what comes of a text when each match, from the left and of those at a place the
-- one that the search prefers, is cut out for its replacement, and every other byte stays.
pub data Redacted (r : Regex) (f : Replacer) : Option ℕ → Text → Text → Type 0 where
  done : {b : Option ℕ} → Redacted r f b [] []
  keep :
      {b : Option ℕ} {c : ℕ} {t out : Text}
      → ((e : Spot) → ¬ Matches r (start b (c ∷ t)) e)
      → Redacted r f (some c) t out
      → Redacted r f b (c ∷ t) (c ∷ out)
  cut :
      {b : Option ℕ} {s out : Text} (c : ℕ) (w : Text) (e : Spot)
      → s ≡ c ∷ w ++ e.rest
      → Matches r (start b s) e
      → first_end (ends r (start b s)) ≡ some e
      → Redacted r f e.before e.rest out
      → Redacted r f b s (f (c ∷ w) e.captured ++ out)

List-cases : (l : List Spot) → (l ≡ []) ⊎ ((e : Spot) × (es : List Spot) × (l ≡ e ∷ es))
List-cases [] = inl refl
List-cases (e ∷ es) = inr (e, es, refl)

module _ (r : Regex) (f : Replacer) where
  -- The bytes that belong to a match are passed over.
  replace_from-skip :
      (w : Text) (b : Option ℕ) (t : Text)
      → replace_from r f (length w) b (w ++ t) ≡ replace_from r f zero (last_of b w) t
  unfolding replace_from
  replace_from-skip [] b t = refl
  replace_from-skip (c ∷ w) b t = replace_from-skip w (some c) t

  cut_at-append :
      (c : ℕ) (w : Text) (e : Spot)
      → cut_at f (c ∷ w ++ e.rest) (some e) ≡ some (f (c ∷ w) e.captured, length w)
  unfolding cut_at
  cut_at-append c w e =
      let size : length (c ∷ w ++ e.rest) - length e.rest ≡ suc (length w) =
        omega (arith, length-append w e.rest) in
      rw (cut_at, size, between-append (c ∷ w) e.rest) refl

  replace_from-cut :
      (b : Option ℕ) (c d : ℕ) (t w : Text) (e : Spot)
      → first_end (ends r (start b (c ∷ t))) ≡ some e
      → c ∷ t ≡ d ∷ w ++ e.rest
      → e.before ≡ last_of (some d) w
      → replace_from r f zero b (c ∷ t)
        ≡ f (d ∷ w) e.captured ++ replace_from r f zero e.before e.rest
  unfolding replace_from
  replace_from-cut b c d t w e first split last =
      let onwards : replace_from r f (length w) (some c) t ≡ replace_from r f zero e.before e.rest =
        ap (λ x. replace_from r f (length w) (some c) x) (ap (drop 1) split)
        ∙ replace_from-skip w (some c) e.rest
        ∙ ap (λ x. replace_from r f zero (last_of x w) e.rest) (ap first_byte split)
        ∙ ap (λ x. replace_from r f zero x e.rest) (sym last) in
      let found = ap (λ s. cut_at f s (some e)) split ∙ cut_at-append d w e in
      rw (replace_from, first, found) (ap (λ x. f (d ∷ w) e.captured ++ x) onwards)

  replace_from-keep :
      (b : Option ℕ) (c : ℕ) (t : Text)
      → ends r (start b (c ∷ t)) ≡ []
      → replace_from r f zero b (c ∷ t) ≡ c ∷ replace_from r f zero (some c) t
  unfolding replace_from cut_at
  replace_from-keep b c t h = rw (replace_from, h) refl

  module _ (long : 1 ≤ needs r) where
    -- A place at which the search finds a match, which spans the text given.
    redact_cut :
        (n c : ℕ) (b : Option ℕ) (t v : Text) (e : Spot)
        → first_end (ends r (start b (c ∷ t))) ≡ some e
        → Matches r (start b (c ∷ t)) e
        → Spans v (start b (c ∷ t)) e
        → 1 ≤ length v
        → length t ≤ n
        → ((b : Option ℕ) (t : Text) → length t ≤ n → Redacted r f b t (replace_from r f zero b t))
        → Redacted r f b (c ∷ t) (replace_from r f zero b (c ∷ t))
    redact_cut n c b t [] e first matched _ one _ _ = absurd (omega arith)
    redact_cut n c b t (d ∷ w) e first matched (split, last) _ le below =
        let bytes = ap length split in
        let rest = below e.before e.rest (omega (arith, length-append w e.rest)) in
        subst (Redacted r f b (c ∷ t)) (sym (replace_from-cut b c d t w e first split last))
          (cut d w e split matched first rest)

    redact :
        (n : ℕ) (b : Option ℕ) (t : Text)
        → length t ≤ n
        → Redacted r f b t (replace_from r f zero b t)
    unfolding replace_from
    redact n b [] le = done
    redact zero b (c ∷ t) le = absurd (omega arith)
    redact (suc n) b (c ∷ t) le = elim (List-cases (ends r (start b (c ∷ t)))) [
      | inl h ↦
          let none_here = λ (e : Spot) (matched : Matches r (start b (c ∷ t)) e).
            Memᴰ.not-nil (subst (Memᴰ e) h ((ends-Matches_iff r (start b (c ∷ t)) e).1 matched)) in
          subst (Redacted r f b (c ∷ t)) (sym (replace_from-keep b c t h))
            (keep none_here (redact n (some c) t (omega arith)))
      | inr (e, es, h) ↦
          let found = subst (Memᴰ e) (sym h) (head refl) in
          let matched = (ends-Matches_iff r (start b (c ∷ t)) e).0 found in
          let (v, span, size) = Matches-Spans r (start b (c ∷ t)) e matched in
          redact_cut n c b t v e (ap first_end h) matched span (omega arith) (omega arith)
            (redact n)
    ]

    -- `ReplaceAll` with a pattern whose matches have a byte at least redacts the text.
    pub replace_all-Redacted : (s : Text) → Redacted r f none s (replace_all r f s)
    unfolding replace_all
    replace_all-Redacted s = redact (length s) none s (omega arith)
