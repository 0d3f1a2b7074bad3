-- ===== src/Json.antt =====
-- `serde_json::Value`. A number is kept as the text that it is written with; an object is the list
-- of its members in the order in which they are iterated.
use project_black_monolith.Prelude.{Bool, Option, none, some, List, [], ◌∷◌, if◌then◌else◌}
use project_black_monolith.Text.{Text, text_eq}

mutual
  pub data Json : Type 0 where
    null : Json
    bool : Bool → Json
    number : Text → Json
    string : Text → Json
    array : Items → Json
    object : Members → Json

  pub data Items : Type 0 where
    nil : Items
    cons : Json → Items → Items

  pub data Members : Type 0 where
    end : Members
    member : Text → Json → Members → Members

-- an object with the given members
abbrev pub members : List (Text × Json) → Members
members [] = end
members ((k, v) ∷ rest) = member k v (members rest)

abbrev pub entries : Members → List (Text × Json)
entries end = []
entries (member k v rest) = (k, v) ∷ entries rest

abbrev pub items : Items → List Json
items nil = []
items (cons v rest) = v ∷ items rest

unfoldable pub find_member : Text → Members → Option Json
unfolding text_eq
find_member key end = none
find_member key (member k v rest) = if text_eq k key then some v else find_member key rest

-- value.get(key)
unfoldable pub get_member : Json → Text → Option Json
unfolding find_member
get_member (object ms) key = find_member key ms
get_member _ key = none

-- Value::as_str
abbrev pub as_str : Option Json → Option Text
as_str (some (string s)) = some s
as_str _ = none

-- Value::as_array
abbrev pub as_array : Option Json → Option Items
as_array (some (array values)) = some values
as_array _ = none

-- an optional text as `json!` writes it
abbrev pub string_or_null : Option Text → Json
string_or_null none = null
string_or_null (some s) = string s
