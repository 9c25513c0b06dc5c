-- ===== src/Json.antt =====
-- Values that `JSON.parse` makes. An object is the list of its entries; a number that is no integer is
-- not told from another.
use kody_celld.Prelude.{Bool, Option, none, some, List, [], ◌∷◌, Text, same, if◌then◌else◌}
use kody_celld.Integers.{ℤ}

mutual
  pub data Json : Type 0 where
    null fractional : Json
    boolean : Bool → Json
    integral : ℤ → Json
    string : Text → Json
    array : JsonList → Json
    object : JsonEntries → Json

  pub data JsonList : Type 0 where
    no_items : JsonList
    item : Json → JsonList → JsonList

  pub data JsonEntries : Type 0 where
    no_entries : JsonEntries
    entry : Text → Json → JsonEntries → JsonEntries

unfoldable pub items : JsonList → List Json
items no_items = []
items (item v vs) = v ∷ items vs

-- `value[name]`, where `none` is `undefined`; the names of an object are distinct.
unfoldable pub field : Text → JsonEntries → Option Json
field name no_entries = none
field name (entry key value entries) =
    let rest = field name entries in if same key name then some value else rest
