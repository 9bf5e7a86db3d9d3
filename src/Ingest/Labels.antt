-- ===== src/Ingest/Labels.antt =====
-- Label maps of Go type map[string]string, as association lists with one entry for a key.
use cloud_sre_agent.Prelude.{
  ◌≡◌, [], ◌∷◌, Option, none, some, Text, text_eq, text_eq_iff, if◌then◌else◌, arith,
}
use mathlib.Core.Option
use cloud_sre_agent.Prelude.Json.{Json, null, object, Fields, end, field, store_string}
use cloud_sre_agent.Domain.{Labels}

unfoldable pub get_label : Text → Labels → Option Text
get_label k [] = none
get_label k ((k', v) ∷ ls) = if text_eq k' k then some v else get_label k ls

-- `m[k] = v`
unfoldable pub set_label : Text → Text → Labels → Labels
set_label k v [] = (k, v) ∷ []
set_label k v ((k', v') ∷ ls) = if text_eq k' k then (k', v) ∷ ls else (k', v') ∷ set_label k v ls

-- `for k, v := range from { to[k] = v }`
unfoldable pub copy_labels : Labels → Labels → Labels
unfolding set_label
copy_labels [] to = to
copy_labels ((k, v) ∷ from) to = copy_labels from (set_label k v to)

-- `json.Unmarshal` of the members of an object into a label map; a null member is an empty text.
unfoldable pub store_members : Fields → Labels → Option Labels
unfolding set_label Option.bind
store_members end ls = some ls
store_members (field k v fs) ls =
    Option.bind (store_string v []) (λ s. store_members fs (set_label k s ls))

unfoldable pub store_labels : Json → Labels → Option Labels
unfolding store_members
store_labels null ls = some ls
store_labels (object fs) ls = store_members fs ls
store_labels _ ls = none

pub get_label-set_label :
    (k j v : Text) (ls : Labels)
    → get_label j (set_label k v ls) ≡ (if text_eq k j then some v else get_label j ls)
unfolding get_label set_label
get_label-set_label k j v [] = ground arith
get_label-set_label k j v ((k', v') ∷ ls) =
    ground
      (arith, text_eq_iff k' k, text_eq_iff k' j, text_eq_iff k j, get_label-set_label k j v ls)
