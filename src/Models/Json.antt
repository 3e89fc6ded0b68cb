-- ===== src/Models/Json.antt =====
-- The JSON values that payload columns hold (`dict`, `list`, text, numbers, booleans, null).
use muti_ai.Prelude.{ℕ, Bool, String, Option, none, some, List, [], ◌∷◌}

mutual
  pub data Json : Type 0 where
    null : Json
    bool : Bool → Json
    num : ℕ → Json
    str : String → Json
    arr : Items → Json
    obj : Fields → Json

  pub data Items : Type 0 where
    nil : Items
    cons : Json → Items → Items

  pub data Fields : Type 0 where
    end : Fields
    field : String → Json → Fields → Fields

-- A list of texts, as `list(values)` puts it into a payload.
unfoldable pub strs : List String → Json
strs values = arr (items values)
  where
    items : List String → Items
    items [] = nil
    items (v ∷ vs) = cons (str v) (items vs)

abbrev pub opt_str : Option String → Json
opt_str none = null
opt_str (some s) = str s
