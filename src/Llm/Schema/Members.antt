-- ===== src/Llm/Schema/Members.antt =====
-- internal/llm/schema.go: assignments to a member of a map, and what is read afterwards.

use cloud_sre_agent.Prelude.{
  ◌≡◌, refl, inl, inr, false, some, Text, text_eq, text_eq_iff, Bool-cases, arith,
}
use cloud_sre_agent.Prelude.Json.{Json, Fields, end, field}
use cloud_sre_agent.Llm.Schema.{get_field, set_field}

pub get_field-set_field :
    (k : Text) (v : Json) (fs : Fields) → get_field k (set_field k v fs) ≡ some v
unfolding get_field set_field
get_field-set_field k v end = rw ((text_eq_iff k k).1 refl) refl
get_field-set_field k v (field l w fs) = elim (Bool-cases (text_eq k l)) [
  | inl same ↦ rw same (rw same refl)
  | inr other ↦ rw other (rw other (get_field-set_field k v fs))
]

pub get_field-set_field_other :
    (j k : Text) (v : Json) (fs : Fields)
    → text_eq j k ≡ false
    → get_field j (set_field k v fs) ≡ get_field j fs
unfolding get_field set_field
get_field-set_field_other j k v end h = rw h refl
get_field-set_field_other j k v (field l w fs) h = elim (Bool-cases (text_eq k l)) [
  | inl same ↦ rw same (ground (arith, (text_eq_iff k l).0 same, h))
  | inr other ↦ rw other (ground (arith, get_field-set_field_other j k v fs h))
]

pub set_field-same :
    (k : Text) (v : Json) (fs : Fields) → get_field k fs ≡ some v → set_field k v fs ≡ fs
unfolding get_field set_field
set_field-same k v end h = cc
set_field-same k v (field l w fs) h = elim (Bool-cases (text_eq k l)) [
  | inl same ↦ rw same (ground (arith, same, h))
  | inr other ↦ rw other (ground (arith, other, h, set_field-same k v fs))
]
