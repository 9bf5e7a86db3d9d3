-- ===== src/Sanitizer/Laws/Extent.antt =====
-- internal/security/sanitizer.go: what a match of a pattern spans, and how long it is at least.
use Prim.Native.Nat.{min}
use cloud_sre_agent.Prelude.{
  ℕ, ◌+◌, ◌-◌, ◌≤◌, ◌≡◌, refl, sym, ap, ◌∙◌, inl, inr, [], ◌∷◌, ◌++◌, Option, some, Text, length,
  length-append, take, arith,
}
use cloud_sre_agent.Sanitizer.Matching.{
  Regex, empty, set, seq, either, many, few, boundary, group, Spot, between,
}
use cloud_sre_agent.Sanitizer.Laws.Relation.{last_of, Spans, Matches}

-- The fewest bytes of a match.
unfoldable pub needs : Regex → ℕ
needs empty = 0
needs (set p) = 1
needs (seq q r) = needs q + needs r
needs (either q r) = min (needs q) (needs r)
needs (many p) = 0
needs (few p) = 0
needs boundary = 0
needs (group r) = needs r

last_of-append : (b : Option ℕ) (v w : Text) → last_of b (v ++ w) ≡ last_of (last_of b v) w
last_of-append b [] w = refl
last_of-append b (c ∷ v) w = last_of-append (some c) v w

append_assoc : (u v w : Text) → (u ++ v) ++ w ≡ u ++ (v ++ w)
append_assoc [] v w = refl
append_assoc (c ∷ u) v w = λ i. c ∷ append_assoc u v w i

pub Spans-append : (s m e : Spot) (v w : Text) → Spans v s m → Spans w m e → Spans (v ++ w) s e
Spans-append s m e v w (r, b) (r', b') = (
  r ∙ ap (λ t. v ++ t) r' ∙ sym (append_assoc v w e.rest),
  b' ∙ ap (λ x. last_of x w) b ∙ sym (last_of-append s.before v w),
)

pub Matches-Spans :
    (r : Regex) (s e : Spot) → Matches r s e → (w : Text) × Spans w s e × (needs r ≤ length w)
unfolding Matches needs
Matches-Spans empty s e h = ([], (ap (λ x. x.rest) h, ap (λ x. x.before) (sym h)), omega arith)
Matches-Spans (set p) s e (c, span, _, _) = (c ∷ [], span, omega arith)
Matches-Spans (seq q r) s e (m, hq, hr) =
    let (v, span, le) = Matches-Spans q s m hq in
    let (w, span', le') = Matches-Spans r m e hr in
    (v ++ w, Spans-append s m e v w span span', omega (arith, length-append v w))
Matches-Spans (either q r) s e (inl h) =
    let (w, span, le) = Matches-Spans q s e h in (w, span, omega arith)
Matches-Spans (either q r) s e (inr h) =
    let (w, span, le) = Matches-Spans r s e h in (w, span, omega arith)
Matches-Spans (many p) s e (w, span, _, _) = (w, span, omega arith)
Matches-Spans (few p) s e (w, span, _, _) = (w, span, omega arith)
Matches-Spans boundary s e (h, _) =
    ([], (ap (λ x. x.rest) h, ap (λ x. x.before) (sym h)), omega arith)
Matches-Spans (group r) s e (m, h, before, rest, _) =
    let (w, (split, last), le) = Matches-Spans r s m h in
    (w, (split ∙ ap (λ t. w ++ t) (sym rest), before ∙ last), le)

take-length : (w t : Text) → take (length w) (w ++ t) ≡ w
take-length [] t = refl
take-length (c ∷ w) t = λ i. c ∷ take-length w t i

pub between-append : (w t : Text) → between (w ++ t) t ≡ w
unfolding between
between-append w t =
    let same : length (w ++ t) - length t ≡ length w = omega (arith, length-append w t) in
    rw same (take-length w t)
