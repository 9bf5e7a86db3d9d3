-- ===== src/Sanitizer/Laws/Fields.antt =====
-- internal/security/sanitizer.go: what the replacement of a field keeps of it, by `fieldSepIdx`.
use mathlib.Core.Path.{subst}
use cloud_sre_agent.Prelude.{
  ℕ, ◌≤◌, ◌≡◌, refl, sym, ap, ◌∙◌, ◌⊎◌, inl, inr, true, false, ◌||◌, ◌==◌, Bool-cases, List, [],
  ◌∷◌, ◌++◌, none, some, Text, length, map, arith, to_lower, to_lower_byte,
}
use cloud_sre_agent.Sanitizer.Matching.{Spot, first_byte}
use cloud_sre_agent.Sanitizer.Patterns.{placeholder, is_separator, is_blank, any_of, lit_folded}
use cloud_sre_agent.Sanitizer.Rules.{value_pattern, field_pattern}
use cloud_sre_agent.Sanitizer.{blanks_before, up_to_value, mask_field}
use cloud_sre_agent.Sanitizer.Laws.Relation.{Spans, Passes, Matches}
use cloud_sre_agent.Sanitizer.Laws.Extent.{needs, Matches-Spans, Spans-append}

abbrev pub IsPrefix : Text → Text → Type 0
IsPrefix t s = (rest : Text) × (s ≡ t ++ rest)

-- The text has a separator.
abbrev HasSeparator : Text → Type 0
HasSeparator [] = ⊥
HasSeparator (c ∷ t) = (is_separator c ≡ true) ⊎ HasSeparator t

-- The text begins with a byte that is no blank.
abbrev IsSolid : Text → Type 0
IsSolid [] = ⊥
IsSolid (c ∷ t) = is_blank c ≡ false

IsPrefix-cons : (c : ℕ) (t s : Text) → IsPrefix t s → IsPrefix (c ∷ t) (c ∷ s)
IsPrefix-cons c t s (rest, split) = (rest, ap (λ x. c ∷ x) split)

blanks_before-IsPrefix : (h v : Text) → IsSolid v → IsPrefix (blanks_before (h ++ v)) h
unfolding blanks_before
blanks_before-IsPrefix [] [] solid = absurd solid
blanks_before-IsPrefix [] (c ∷ v) solid =
    let other : ((c == 32) || (c == 9)) ≡ false = ground (arith, solid) in rw other ([], refl)
blanks_before-IsPrefix (c ∷ h) v solid = elim (Bool-cases ((c == 32) || (c == 9))) [
  | inl blank ↦ rw blank (IsPrefix-cons c _ _ (blanks_before-IsPrefix h v solid))
  | inr other ↦ rw other (c ∷ h, refl)
]

up_to_value-IsPrefix :
    (h v : Text)
    → HasSeparator h
    → IsSolid v
    → (label : Text) × (up_to_value (h ++ v) ≡ some label) × IsPrefix label h
unfolding up_to_value
up_to_value-IsPrefix [] v has solid = absurd has
up_to_value-IsPrefix (c ∷ h) v has solid = elim (Bool-cases (is_separator c)) [
  | inl sep ↦ (
    c ∷ blanks_before (h ++ v),
    rw sep refl,
    IsPrefix-cons c _ _ (blanks_before-IsPrefix h v solid),
  )
  | inr other ↦
      let later : HasSeparator h = elim has [
        | inl sep ↦ absurd (cc (sep, other))
        | inr has ↦ has
      ] in
      let (label, found, prefix) = up_to_value-IsPrefix h v later solid in
      (c ∷ label, rw (other, found) refl, IsPrefix-cons c _ _ prefix)
]

HasSeparator-append : (h t : Text) → HasSeparator t → HasSeparator (h ++ t)
HasSeparator-append [] t has = has
HasSeparator-append (c ∷ h) t has = inr (HasSeparator-append h t has)

abbrev BeginsSolid : Spot → Type 0
BeginsSolid s = (c : ℕ) × (t : Text) × (s.rest ≡ c ∷ t) × (is_blank c ≡ false)

value-BeginsSolid : (s e : Spot) → Matches value_pattern s e → BeginsSolid s
unfolding Matches value_pattern
value-BeginsSolid s e (inl (m, (c, (split, _), quote, _), _)) =
    (c, m.rest, split, ground (arith, quote))
value-BeginsSolid s e (inr (inl (m, (c, (split, _), quote, _), _))) =
    (c, m.rest, split, ground (arith, quote))
value-BeginsSolid s e (inr (inr (m, (k, (c, (split, _), run, _), _), _))) =
    (c, k.rest, split, ground (arith, run))

span-IsSolid : (v : Text) (s e : Spot) → BeginsSolid s → Spans v s e → 1 ≤ length v → IsSolid v
span-IsSolid [] s e _ _ one = absurd (omega arith)
span-IsSolid (d ∷ v) s e (c, t, begins, solid) (split, _) _ =
    let same : some c ≡ some d = ap first_byte (sym begins ∙ split) in
    subst (λ x. is_blank x ≡ false) (ap (λ o. elim o [ none ↦ 0 | some x ↦ x ]) same) solid

value_nonempty : (v : Text) → needs value_pattern ≤ length v → 1 ≤ length v
unfolding needs value_pattern
value_nonempty v le = omega arith

-- The text is one of the names, but for the case of its letters.
abbrev pub IsNameOf : List Text → Text → Type 0
IsNameOf [] v = ⊥
IsNameOf (n ∷ ns) v = (to_lower v ≡ to_lower n) ⊎ IsNameOf ns v

lit_folded-name :
    (n : Text) (s e : Spot)
    → Matches (lit_folded n) s e
    → (v : Text) × Spans v s e × (to_lower v ≡ to_lower n)
unfolding lit_folded Matches to_lower
lit_folded-name [] s e h = ([], (ap (λ x. x.rest) h, ap (λ x. x.before) (sym h)), refl)
lit_folded-name (c ∷ n) s e (m, (b, span, same, _), rest) =
    let (v, v_span, folded) = lit_folded-name n m e rest in
    let byte : to_lower_byte b ≡ to_lower_byte c = ground (arith, same) in
    (b ∷ v, Spans-append s m e (b ∷ []) v span v_span, λ i. byte i ∷ folded i)

any_of-name :
    (n : Text) (ns : List Text) (s e : Spot)
    → Matches (any_of (map lit_folded (n ∷ ns))) s e
    → (v : Text) × Spans v s e × IsNameOf (n ∷ ns) v
unfolding any_of Matches
any_of-name n [] s e h = let (v, span, folded) = lit_folded-name n s e h in (v, span, inl folded)
any_of-name n (o ∷ ns) s e (inl h) =
    let (v, span, folded) = lit_folded-name n s e h in (v, span, inl folded)
any_of-name n (o ∷ ns) s e (inr h) =
    let (v, span, named) = any_of-name o ns s e h in (v, span, inr named)

-- A match of a field, in its parts: one of the names, blanks, a separator and blanks again, and a
-- value that begins with a byte that is no blank.
pub record Field (names : List Text) (s e : Spot) : Type 0 where
  pub name : Text
  pub gap : Text
  pub separator : ℕ
  pub pause : Text
  pub value : Text
  pub is_name : IsNameOf names name
  pub gap_blank : Passes is_blank gap
  pub separates : is_separator separator ≡ true
  pub pause_blank : Passes is_blank pause
  pub solid : IsSolid value
  pub middle : Spot
  pub head_span : Spans ((name ++ gap) ++ (separator ∷ pause)) s middle
  pub is_value : Matches value_pattern middle e
  pub value_span : Spans value middle e

-- What stands before the value.
abbrev pub head_of : {names : List Text} {s e : Spot} → Field names s e → Text
head_of f = (f.name ++ f.gap) ++ (f.separator ∷ f.pause)

match-Field : (names : List Text) (s e : Spot) → Matches (field_pattern names) s e → Field names s e
unfolding Matches field_pattern
match-Field [] s e (c, _, never, _) = absurd (cc never)
match-Field (n ∷ ns) s e
      (
        m1,
        (start, _),
        (
          m2,
          (g, named, before, rest, _),
          (
            m3,
            (w, w_span, w_blank, _),
            (m4, (c, sep_span, sep, _), (m5, (x, x_span, x_blank, _), is_value)),
          ),
        ),
      ) =
    let (v, (split, last), is_name) = any_of-name n ns m1 g named in
    let v_span : Spans v m1 m2 = (split ∙ ap (λ t. v ++ t) (sym rest), before ∙ last) in
    let from_start : Spans v s m2 = subst (λ m. Spans v m m2) (sym start) v_span in
    let (value, value_span, size) = Matches-Spans value_pattern m5 e is_value in
    let begins = value-BeginsSolid m5 e is_value in
    record {
      name = v;
      gap = w;
      separator = c;
      pause = x;
      value = value;
      is_name = is_name;
      gap_blank = w_blank;
      separates = sep;
      pause_blank = x_blank;
      solid = span-IsSolid value m5 e begins value_span (value_nonempty value size);
      middle = m5;
      head_span =
          Spans-append s m3 m5 (v ++ w) (c ∷ x) (Spans-append s m2 m3 v w from_start w_span)
            (Spans-append m3 m4 m5 (c ∷ []) x sep_span x_span);
      is_value = is_value;
      value_span = value_span;
    }

-- A match of the pattern of fields, with any names, is one of the names in any case, blanks, a separator,
-- blanks, and then a value that begins with no blank and that the pattern of values matches. The
-- replacement of the match is a prefix of what stands before the value and then the placeholder, so
-- that nothing of the value stays.
pub mask_field-hides :
    (names : List Text) (s e : Spot)
    → Matches (field_pattern names) s e
    → (f : Field names s e) × (label : Text) × IsPrefix label (head_of f)
      × ((captured : Text) → mask_field (head_of f ++ f.value) captured ≡ label ++ placeholder)
unfolding mask_field
mask_field-hides names s e matched =
    let f = match-Field names s e matched in
    let has = HasSeparator-append (f.name ++ f.gap) (f.separator ∷ f.pause) (inl f.separates) in
    let (label, found, prefix) = up_to_value-IsPrefix (head_of f) f.value has f.solid in
    (f, label, prefix, λ captured. rw (mask_field, found) refl)
