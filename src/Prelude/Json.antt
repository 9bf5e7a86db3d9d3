-- ===== src/Prelude/Json.antt =====
-- JSON values as package encoding/json reads them, and the parts of `json.Unmarshal` that store a
-- value into a Go variable. `none` is an `UnmarshalTypeError`; `null` leaves a variable as it is.
-- A key of an object is matched with a field's name without regard to ASCII case, and of keys that
-- name one field the later is stored last.

use mathlib.Core.Bool.{Bool}
use mathlib.Core.List.{List, [], ◌∷◌}
use mathlib.Core.Option
use mathlib.Core.Option.{Option, none, some}
use cloud_sre_agent.Prelude.Strings.{Text, text_eq, to_lower}

mutual
  pub data Json : Type 0 where
    null : Json
    boolean : Bool → Json
    -- the literal, as it is spelled
    number : Text → Json
    string : Text → Json
    array : Items → Json
    object : Fields → Json

  pub data Items : Type 0 where
    nil : Items
    cons : Json → Items → Items

  pub data Fields : Type 0 where
    end : Fields
    field : Text → Json → Fields → Fields

unfoldable pub names_field : Text → Text → Bool
names_field key name = text_eq (to_lower key) name

unfoldable pub store_string : Json → Text → Option Text
store_string null s = some s
store_string (string t) s = some t
store_string _ s = none

unfoldable pub store_bool : Json → Bool → Option Bool
store_bool null b = some b
store_bool (boolean c) b = some c
store_bool _ b = none

unfoldable pub strings_of : Items → Option (List Text)
unfolding store_string Option.bind
strings_of nil = some []
strings_of (cons j js) =
    Option.bind (store_string j []) (λ s. Option.bind (strings_of js) (λ ss. some (s ∷ ss)))

unfoldable pub store_strings : Json → List Text → Option (List Text)
unfolding strings_of
store_strings null ss = some []
store_strings (array js) ss = strings_of js
store_strings _ ss = none

-- A struct is stored field by field; `store` takes a key and its value.
module _ {ℓ} {S : Type ℓ} (store : Text → Json → S → Option S) where
  unfoldable pub store_fields : Fields → S → Option S
  unfolding Option.bind
  store_fields end s = some s
  store_fields (field k v fs) s = Option.bind (store k v s) (λ s'. store_fields fs s')

  unfoldable pub store_struct : S → Json → Option S
  unfolding store_fields
  store_struct s null = some s
  store_struct s (object fs) = store_fields fs s
  store_struct s _ = none
