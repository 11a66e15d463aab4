-- ===== src/ToolFormat/Value.antt =====
-- `serde_json::Value`. A `Map` without the feature `preserve_order` is ordered by its keys; the
-- program reads that order only where it derives a JSON format, whose model looks for the least key.
-- Elsewhere the model keeps the order of insertion.
use rampipe.Common.{Bool, Option, none, some, if◌then◌else◌, ◌==◌}
use rampipe.Common.Text.{Text, text_eq}

mutual
  pub data Json : Type 0 where
    null : Json
    boolean : Bool → Json
    number : Text → Json
    string : Text → Json
    array : Items → Json
    object : Fields → Json

  pub data Items : Type 0 where
    nil : Items
    cons : Json → Items → Items

  pub data Fields : Type 0 where
    end : Fields
    field : Text → Json → Fields → Fields

-- `Map::insert` writes over a key that is there.
unfoldable pub insert_field : Text → Json → Fields → Fields
insert_field k v end = field k v end
insert_field k v (field j w fs) =
    let rest = insert_field k v fs in if j == k then field j v fs else field j w rest

unfoldable pub get_field : Text → Fields → Option Json
get_field k end = none
get_field k (field j w fs) = let rest = get_field k fs in if j == k then some w else rest

-- `Value::get` by a key.
unfoldable pub get : Text → Json → Option Json
unfolding get_field
get k (object fs) = get_field k fs
get k null = none
get k (boolean b) = none
get k (number n) = none
get k (string s) = none
get k (array xs) = none

-- `Value::as_str`.
unfoldable pub as_str : Json → Option Text
as_str (string s) = some s
as_str null = none
as_str (boolean b) = none
as_str (number n) = none
as_str (array xs) = none
as_str (object fs) = none
