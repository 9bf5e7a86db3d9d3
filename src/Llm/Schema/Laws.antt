-- ===== src/Llm/Schema/Laws.antt =====
-- internal/llm/schema.go: at every level of an object schema the required members are all of its
-- properties.
use mathlib.Core.Path.{subst}
use cloud_sre_agent.Prelude.{
  ◌≡◌, refl, sym, ap, ◌∙◌, inl, inr, Bool, true, false, ◌&&◌, List, Option, none, some, Text,
  text_eq, text_eq_iff, Bool-cases,
}
use cloud_sre_agent.Prelude.Json.{
  Json, null, boolean, number, string, array, object, Fields, end, field,
}
use cloud_sre_agent.Llm.Schema.{
  get_field, set_field, properties, required, is_section, is_items, required_of, require,
  walk_member, walk_members, walk_section, walk_schemas, recurse_schema, require_all_properties,
}
use cloud_sre_agent.Detect.Services.{sort_texts}
use cloud_sre_agent.Llm.Schema.Order.{
  quoted, names_of, IsOrderOf, sort_texts-IsOrderOf, required_of_lem, required_of_unique,
}
use cloud_sre_agent.Llm.Schema.Members.{
  get_field-set_field, get_field-set_field_other, set_field-same,
}

-- The required members of a node are the names of its properties in order, each as often as there
-- are properties of the name.
abbrev pub IsComplete : Fields → Type 0
IsComplete node =
    (props : Fields)
    → get_field properties node ≡ some (object props)
    → (names : List Text) × (get_field required node ≡ some (array (quoted names)))
      × IsOrderOf names (names_of props)

unfoldable mutual
  -- The schemas below a node are strict; `below` as in the walk.
  pub AreStrict : Bool → Fields → Type 0
  AreStrict below end = Unit
  AreStrict below (field k v fs) =
      (is_section k ≡ true → IsStrictSection v)
      × (is_section k ≡ false → (below && is_items k) ≡ true → IsStrict v)
      × AreStrict below fs

  pub IsStrictSection : Json → Type 0
  IsStrictSection (object fs) = AllStrict fs
  IsStrictSection v = Unit

  pub AllStrict : Fields → Type 0
  AllStrict end = Unit
  AllStrict (field k v fs) = IsStrict v × AllStrict fs

  pub IsStrict : Json → Type 0
  IsStrict (object fs) = IsComplete fs × AreStrict true fs
  IsStrict v = Unit

-- Assigning the required members.
abbrev members_of : Option Json → Fields
members_of (some (object fs)) = fs
members_of _ = end

distinct : text_eq properties required ≡ false
unfolding text_eq
distinct = refl

plain : is_section required ≡ false
unfolding is_section text_eq
plain = refl

plain_items : is_items required ≡ false
unfolding is_items text_eq
plain_items = refl

require-IsComplete_at :
    (o : Option Json) (node : Fields) → get_field properties node ≡ o → IsComplete (require o node)
unfolding require
require-IsComplete_at none node e props h = cc
require-IsComplete_at (some null) node e props h = cc
require-IsComplete_at (some (boolean b)) node e props h = cc
require-IsComplete_at (some (number t)) node e props h = cc
require-IsComplete_at (some (string t)) node e props h = cc
require-IsComplete_at (some (array xs)) node e props h = cc
require-IsComplete_at (some (object fs)) node e props h =
    let kept = get_field-set_field_other properties required (required_of fs) node distinct in
    let same = ap members_of (sym e ∙ sym kept ∙ h) in
    (
      sort_texts (names_of props),
      get_field-set_field required (required_of fs) node
          ∙ ap (λ x. some (required_of x)) same
          ∙ ap some (required_of_lem props),
      sort_texts-IsOrderOf (names_of props),
    )

require-IsComplete : (node : Fields) → IsComplete (require (get_field properties node) node)
require-IsComplete node = require-IsComplete_at (get_field properties node) node refl

pub require_of_complete :
    (o : Option Json) (node : Fields)
    → get_field properties node ≡ o
    → IsComplete node
    → require o node ≡ node
unfolding require
require_of_complete none node e h = refl
require_of_complete (some null) node e h = refl
require_of_complete (some (boolean b)) node e h = refl
require_of_complete (some (number t)) node e h = refl
require_of_complete (some (string t)) node e h = refl
require_of_complete (some (array xs)) node e h = refl
require_of_complete (some (object fs)) node e h =
    let (names, found, order) = h fs e in
    set_field-same required (required_of fs) node
      (found ∙ ap some (required_of_unique fs names order))

-- What is asked of a member that is neither a section nor `items`.
unless :
    (k : Text) (v : Json)
    → is_section k ≡ false
    → is_items k ≡ false
    → is_section k ≡ true
    → IsStrictSection v
unless k v s i t = absurd (cc (s, t))

unless_items :
    (below : Bool) (k : Text) (v : Json)
    → is_items k ≡ false
    → is_section k ≡ false
    → (below && is_items k) ≡ true
    → IsStrict v
unless_items true k v i _ t = absurd (cc (i, t))
unless_items false k v i _ t = absurd (cc t)

set_field-AreStrict :
    (below : Bool) (k : Text) (v : Json) (fs : Fields)
    → is_section k ≡ false
    → is_items k ≡ false
    → AreStrict below fs
    → AreStrict below (set_field k v fs)
unfolding set_field AreStrict
set_field-AreStrict below k v end s i h = (unless k v s i, unless_items below k v i, tt)
set_field-AreStrict below k v (field l w fs) s i (hs, hi, h) = elim (Bool-cases (text_eq k l)) [
  | inl same ↦ rw same (
      let e = (text_eq_iff k l).0 same in
      let s' = subst (λ x. is_section x ≡ false) e s in
      let i' = subst (λ x. is_items x ≡ false) e i in
      (unless l v s' i', unless_items below l v i', h))
  | inr other ↦ rw other (hs, hi, set_field-AreStrict below k v fs s i h)
]

require-AreStrict :
    (below : Bool) (o : Option Json) (node : Fields)
    → AreStrict below node
    → AreStrict below (require o node)
unfolding require
require-AreStrict below none node h = h
require-AreStrict below (some null) node h = h
require-AreStrict below (some (boolean b)) node h = h
require-AreStrict below (some (number t)) node h = h
require-AreStrict below (some (string t)) node h = h
require-AreStrict below (some (array xs)) node h = h
require-AreStrict below (some (object fs)) node h =
    set_field-AreStrict below required (required_of fs) node plain plain_items h

walk_member-IsStrictSection :
    (below : Bool) (k : Text) (v section element : Json)
    → IsStrictSection section
    → is_section k ≡ true
    → IsStrictSection (walk_member below k v section element)
unfolding walk_member
walk_member-IsStrictSection below k v section element h s = rw s h

walk_member-IsStrict :
    (below : Bool) (k : Text) (v section element : Json)
    → IsStrict element
    → is_section k ≡ false
    → (below && is_items k) ≡ true
    → IsStrict (walk_member below k v section element)
unfolding walk_member
walk_member-IsStrict below k v section element h s i = rw (s, i) h

mutual
  unfolding AreStrict walk_members

  pub walk_members-AreStrict :
      (below : Bool) (fs : Fields) → AreStrict below (walk_members below fs)
  walk_members-AreStrict below end = tt
  walk_members-AreStrict below (field k v fs) = (
    walk_member-IsStrictSection below k v _ _ (walk_section-IsStrictSection v),
    walk_member-IsStrict below k v _ _ (recurse_schema-IsStrict v),
    walk_members-AreStrict below fs,
  )

  walk_section-IsStrictSection : (v : Json) → IsStrictSection (walk_section v)
  walk_section-IsStrictSection (object fs) = walk_schemas-AllStrict fs
  walk_section-IsStrictSection null = tt
  walk_section-IsStrictSection (boolean b) = tt
  walk_section-IsStrictSection (number t) = tt
  walk_section-IsStrictSection (string t) = tt
  walk_section-IsStrictSection (array xs) = tt

  walk_schemas-AllStrict : (fs : Fields) → AllStrict (walk_schemas fs)
  walk_schemas-AllStrict end = tt
  walk_schemas-AllStrict (field k v fs) = (recurse_schema-IsStrict v, walk_schemas-AllStrict fs)

  pub recurse_schema-IsStrict : (v : Json) → IsStrict (recurse_schema v)
  recurse_schema-IsStrict (object fs) = (
    require-IsComplete (walk_members true fs),
    require-AreStrict true _ (walk_members true fs) (walk_members-AreStrict true fs),
  )
  recurse_schema-IsStrict null = tt
  recurse_schema-IsStrict (boolean b) = tt
  recurse_schema-IsStrict (number t) = tt
  recurse_schema-IsStrict (string t) = tt
  recurse_schema-IsStrict (array xs) = tt

-- `requireAllProperties`, on any document: in the node, and in every schema below it that the walk
-- reaches, the required members are the names of the properties in the order of bytes, each as often
-- as there are properties of the name.
pub require_all_properties-IsComplete :
    (node : Fields)
    → IsComplete (require_all_properties node) × AreStrict false (require_all_properties node)
unfolding require_all_properties
require_all_properties-IsComplete node = (
  require-IsComplete (walk_members false node),
  require-AreStrict false _ (walk_members false node) (walk_members-AreStrict false node),
)
