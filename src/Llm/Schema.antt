-- ===== src/Llm/Schema.antt =====
-- internal/llm/schema.go: `SchemaFor`, `requireAllProperties` and `recurseSchema`, on decoded JSON
-- documents. A map is the list of its keys with their values; an assignment to a new key adds it at
-- the end. What the reflector and encoding/json make of a type is a parameter.
pub mod Members
pub mod Laws
pub mod Order
pub mod Fixed
use cloud_sre_agent.Prelude.{
  Bool, true, false, ◌&&◌, ◌||◌, List, [], ◌∷◌, Option, none, some, Result, ok, err, Text, codes,
  text_eq, if◌then◌else◌,
}
use cloud_sre_agent.Prelude.Json.{
  Json, null, boolean, number, string, array, object, Items, nil, cons, Fields, end, field,
}
use cloud_sre_agent.Detect.Services.{sort_texts}

-- `node[key]`
unfoldable pub get_field : Text → Fields → Option Json
get_field k end = none
get_field k (field l v fs) = if text_eq k l then some v else get_field k fs

-- `node[key] = value`
unfoldable pub set_field : Text → Json → Fields → Fields
set_field k v end = field k v end
set_field k v (field l w fs) =
    let rest = set_field k v fs in if text_eq k l then field l v fs else field l w rest

unfoldable pub keys_of : Fields → List Text
keys_of end = []
keys_of (field k v fs) = k ∷ keys_of fs

unfoldable pub texts : List Text → Items
texts [] = nil
texts (s ∷ ss) = cons (string s) (texts ss)

abbrev pub properties : Text
properties = codes "properties"

abbrev pub required : Text
required = codes "required"

-- The members whose values are maps of schemas.
unfoldable pub is_section : Text → Bool
is_section k = text_eq k properties || text_eq k (codes "$defs") || text_eq k (codes "definitions")

unfoldable pub is_items : Text → Bool
is_items k = text_eq k (codes "items")

-- The list of all the properties, in order.
unfoldable pub required_of : Fields → Json
unfolding keys_of texts
required_of props = array (texts (sort_texts (keys_of props)))

unfoldable pub require : Option Json → Fields → Fields
unfolding set_field required_of
require (some (object props)) node = set_field required (required_of props) node
require _ node = node

-- A member of a node, given what the walk makes of its value as a map of schemas and as a schema;
-- `below` tells whether `recurseSchema` follows `items` in the node.
unfoldable pub walk_member : Bool → Text → Json → Json → Json → Json
unfolding is_section is_items
walk_member below k v section element =
    if is_section k then section else if below && is_items k then element else v

unfoldable mutual
  unfolding require get_field walk_member

  pub walk_members : Bool → Fields → Fields
  walk_members below end = end
  walk_members below (field k v fs) =
      field k (walk_member below k v (walk_section v) (recurse_schema v)) (walk_members below fs)

  -- The schemas of a section, if it is a map.
  pub walk_section : Json → Json
  walk_section (object fs) = object (walk_schemas fs)
  walk_section v = v

  pub walk_schemas : Fields → Fields
  walk_schemas end = end
  walk_schemas (field k v fs) = field k (recurse_schema v) (walk_schemas fs)

  -- `recurseSchema`
  pub recurse_schema : Json → Json
  recurse_schema (object fs) =
      let walked = walk_members true fs in object (require (get_field properties walked) walked)
  recurse_schema v = v

-- `requireAllProperties`
unfoldable pub require_all_properties : Fields → Fields
unfolding walk_members require get_field
require_all_properties node =
    let walked = walk_members false node in require (get_field properties walked) walked

pub data SchemaError : Type 0 where
  marshal_failed : Text → SchemaError
  decode_failed : SchemaError

-- `SchemaFor`, with what the marshalled schema of the type reads as.
unfoldable pub schema_for : Result Text Json → Result SchemaError Json
unfolding require_all_properties
schema_for (err e) = err (marshal_failed e)
schema_for (ok (object fs)) = ok (object (require_all_properties fs))
schema_for (ok null) = ok null
schema_for (ok _) = err decode_failed
