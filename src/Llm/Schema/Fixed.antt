-- ===== src/Llm/Schema/Fixed.antt =====
-- internal/llm/schema.go: the walk leaves alone exactly the schemas that are strict already.
use mathlib.Core.Path.{subst}
use cloud_sre_agent.Prelude.{
  ◌≡◌, refl, ap, ◌∙◌, ◌↔◌, inl, inr, Bool, true, false, ◌&&◌, Text, Bool-cases,
}
use cloud_sre_agent.Prelude.Json.{
  Json, null, boolean, number, string, array, object, Fields, end, field,
}
use cloud_sre_agent.Llm.Schema.{
  get_field, properties, is_section, is_items, require, walk_member, walk_members, walk_section,
  walk_schemas, recurse_schema, require_all_properties,
}
use cloud_sre_agent.Llm.Schema.Laws.{
  IsComplete, AreStrict, IsStrictSection, AllStrict, IsStrict, require_of_complete,
  recurse_schema-IsStrict, require_all_properties-IsComplete,
}

walk_member_fixed :
    (below : Bool) (k : Text) (v section element : Json)
    → (is_section k ≡ true → section ≡ v)
    → (is_section k ≡ false → (below && is_items k) ≡ true → element ≡ v)
    → walk_member below k v section element ≡ v
unfolding walk_member
walk_member_fixed below k v section element hs hi = elim (Bool-cases (is_section k)) [
  | inl s ↦ rw s (hs s)
  | inr s ↦ elim (Bool-cases (below && is_items k)) [
    | inl i ↦ rw (s, i) (hi s i)
    | inr i ↦ rw (s, i) refl
  ]
]

mutual
  unfolding AreStrict walk_members

  walk_members_fixed :
      (below : Bool) (fs : Fields) → AreStrict below fs → walk_members below fs ≡ fs
  walk_members_fixed below end h = refl
  walk_members_fixed below (field k v fs) (hs, hi, h) =
      let member =
        walk_member_fixed below k v (walk_section v) (recurse_schema v)
          (λ s. walk_section_fixed v (hs s)) (λ s i. recurse_schema_fixed v (hi s i)) in
      λ i. field k (member i) (walk_members_fixed below fs h i)

  walk_section_fixed : (v : Json) → IsStrictSection v → walk_section v ≡ v
  walk_section_fixed (object fs) h = ap object (walk_schemas_fixed fs h)
  walk_section_fixed null h = refl
  walk_section_fixed (boolean b) h = refl
  walk_section_fixed (number t) h = refl
  walk_section_fixed (string t) h = refl
  walk_section_fixed (array xs) h = refl

  walk_schemas_fixed : (fs : Fields) → AllStrict fs → walk_schemas fs ≡ fs
  walk_schemas_fixed end h = refl
  walk_schemas_fixed (field k v fs) (hv, h) =
      λ i. field k (recurse_schema_fixed v hv i) (walk_schemas_fixed fs h i)

  recurse_schema_fixed : (v : Json) → IsStrict v → recurse_schema v ≡ v
  recurse_schema_fixed (object fs) (complete, h) = ap object (
      ap (λ w. require (get_field properties w) w) (walk_members_fixed true fs h)
      ∙ require_of_complete (get_field properties fs) fs refl complete)
  recurse_schema_fixed null h = refl
  recurse_schema_fixed (boolean b) h = refl
  recurse_schema_fixed (number t) h = refl
  recurse_schema_fixed (string t) h = refl
  recurse_schema_fixed (array xs) h = refl

-- `recurseSchema` leaves a schema alone exactly if in each object of it that the walk reaches the
-- required members are the names of the properties in the order of bytes, each as often as there are
-- properties of the name.
pub recurse_schema-IsStrict_iff : (v : Json) → (recurse_schema v ≡ v) ↔ IsStrict v
recurse_schema-IsStrict_iff v =
    (λ e. subst IsStrict e (recurse_schema-IsStrict v), recurse_schema_fixed v)

require_all_properties_fixed :
    (node : Fields) → IsComplete node → AreStrict false node → require_all_properties node ≡ node
unfolding require_all_properties
require_all_properties_fixed node complete h =
    ap (λ w. require (get_field properties w) w) (walk_members_fixed false node h)
    ∙ require_of_complete (get_field properties node) node refl complete

-- A second call of `requireAllProperties` changes nothing.
pub require_all_properties_twice :
    (node : Fields)
    → require_all_properties (require_all_properties node) ≡ require_all_properties node
require_all_properties_twice node =
    let (complete, strict) = require_all_properties-IsComplete node in
    require_all_properties_fixed (require_all_properties node) complete strict
