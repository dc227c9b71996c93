-- ===== src/Webhook/Json.antt =====
-- The values that `json.loads` returns: an object keeps its keys in order, and a float is its text.
use line_message_playground.Prelude.{ℕ, suc, Bool, Option, none, some, if◌then◌else◌}
use line_message_playground.Prelude.Text.{Text, text_eq}

mutual
  pub data Json : Type 0 where
    null : Json
    boolean : Bool → Json
    whole negative : ℕ → Json
    float string : Text → Json
    array : Items → Json
    object : Fields → Json

  pub data Items : Type 0 where
    no_items : Items
    item : Json → Items → Items

  pub data Fields : Type 0 where
    no_fields : Fields
    field : Text → Json → Fields → Fields

abbrev pub later : Option Json → Option Json → Option Json
later (some v) w = some v
later none w = w

-- `dict.get(key)`: of a repeated key the last value counts.
abbrev pub get : Text → Fields → Option Json
get key no_fields = none
get key (field k v rest) = later (get key rest) (if text_eq k key then some v else none)

abbrev pub count : Items → ℕ
count no_items = 0
count (item v rest) = suc (count rest)
