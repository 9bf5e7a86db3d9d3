-- ===== src/Obs/Laws/Redaction.antt =====
-- internal/obs/redact.go: what a reader of the written attributes learns of the values.
use cloud_sre_agent.Prelude.{◌≡◌, refl, sym, ap, ◌∙◌, ◌↔◌, Bool, true, false, [], arith, Text}
use cloud_sre_agent.Obs.Redact.{
  Value, string, any, group, Attrs, end, attr, is_sensitive, written, written_value,
}

-- The same keys and the same groups in the same order, and the same values under every key that is
-- not sensitive.
unfoldable mutual
  pub SameOutside : Attrs → Attrs → Type 0
  SameOutside end end = Unit
  SameOutside end (attr k v as1) = ⊥
  SameOutside (attr k v as1) end = ⊥
  SameOutside (attr k v as1) (attr l w as2) = (k ≡ l) × SameValue k v w × SameOutside as1 as2

  pub SameValue : Text → Value → Value → Type 0
  SameValue k (group as1) (group as2) = SameOutside as1 as2
  SameValue k (group as1) (string s) = ⊥
  SameValue k (group as1) (any s) = ⊥
  SameValue k (string s) (group as2) = ⊥
  SameValue k (any s) (group as2) = ⊥
  SameValue k (string s) (string t) = is_sensitive k ≡ false → s ≡ t
  SameValue k (any s) (any t) = is_sensitive k ≡ false → s ≡ t
  SameValue k (string s) (any t) = is_sensitive k ≡ true
  SameValue k (any s) (string t) = is_sensitive k ≡ true

abbrev key_of : Attrs → Text
key_of end = []
key_of (attr k v rest) = k

abbrev value_of : Attrs → Value
value_of end = any []
value_of (attr k v rest) = v

abbrev rest_of : Attrs → Attrs
rest_of end = end
rest_of (attr k v rest) = rest

abbrev is_end : Attrs → Bool
is_end end = true
is_end (attr k v rest) = false

abbrev members_of : Value → Attrs
members_of (group g) = g
members_of _ = end

mutual
  unfolding SameOutside written

  written_of_same : (a b : Attrs) → SameOutside a b → written a ≡ written b
  written_of_same end end h = refl
  written_of_same end (attr k v r) h = absurd h
  written_of_same (attr k v r) end h = absurd h
  written_of_same (attr k v r) (attr l w q) (hk, hv, h) =
      let value = value_of_same k v w hv ∙ ap (λ x. written_value x w) hk in
      λ i. attr (hk i) (value i) (written_of_same r q h i)

  value_of_same : (k : Text) (v w : Value) → SameValue k v w → written_value k v ≡ written_value k w
  value_of_same k (group a) (group b) h = ap group (written_of_same a b h)
  value_of_same k (group a) (string s) h = absurd h
  value_of_same k (group a) (any s) h = absurd h
  value_of_same k (string s) (group b) h = absurd h
  value_of_same k (any s) (group b) h = absurd h
  value_of_same k (string s) (string t) h = ground (arith, h)
  value_of_same k (any s) (any t) h = ground (arith, h)
  value_of_same k (string s) (any t) h = ground (arith, h)
  value_of_same k (any s) (string t) h = ground (arith, h)

mutual
  unfolding SameOutside written

  same_of_written : (a b : Attrs) → written a ≡ written b → SameOutside a b
  same_of_written end end h = tt
  same_of_written end (attr k v r) h = absurd (cc h)
  same_of_written (attr k v r) end h = absurd (cc h)
  same_of_written (attr k v r) (attr l w q) h =
      let hk = ap key_of h in
      let value = ap value_of h ∙ ap (λ x. written_value x w) (sym hk) in
      (hk, same_of_value k v w value, same_of_written r q (ap rest_of h))

  same_of_value : (k : Text) (v w : Value) → written_value k v ≡ written_value k w → SameValue k v w
  same_of_value k (group a) (group b) h = same_of_written a b (ap members_of h)
  same_of_value k (group a) (string s) h = ground (arith, h)
  same_of_value k (group a) (any s) h = ground (arith, h)
  same_of_value k (string s) (group b) h = ground (arith, h)
  same_of_value k (any s) (group b) h = ground (arith, h)
  same_of_value k (string s) (string t) h = λ open_key. ground (arith, h, open_key)
  same_of_value k (any s) (any t) h = λ open_key. ground (arith, h, open_key)
  same_of_value k (string s) (any t) h = ground (arith, h)
  same_of_value k (any s) (string t) h = ground (arith, h)

-- Two lists of attributes are written alike exactly if they have the same keys and groups in the same
-- order, also within groups, and agree in every value whose key is not sensitive: of the values
-- under sensitive keys nothing is written.
pub written-SameOutside_iff : (a b : Attrs) → (written a ≡ written b) ↔ SameOutside a b
written-SameOutside_iff a b = (same_of_written a b, written_of_same a b)
