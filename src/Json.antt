-- ===== src/Json.antt =====
-- JSON values as Python's `json` module reads and writes them, and the module as an interface.
use ai_runtime.Prelude.{ℕ, String, Bool, Option, none, some, List, [], ◌∷◌, str_eq, if◌then◌else◌}

mutual
  pub data Json : Type 0 where
    null : Json
    bool : Bool → Json
    num : ℕ → Json
    -- A negative number or a fraction, by its text.
    other_num : String → Json
    text : String → Json
    arr : Items → Json
    obj : Fields → Json

  pub data Items : Type 0 where
    nil : Items
    cons : Json → Items → Items

  pub data Fields : Type 0 where
    end : Fields
    field : String → Json → Fields → Fields

-- `data.get(key)`
unfoldable pub get_field : String → Fields → Option Json
get_field k end = none
get_field k (field j v fs) = if str_eq j k then some v else get_field k fs

-- `[f(x) for x in xs]`
unfoldable pub map_items {ℓ} : {A : Type ℓ} → (A → Json) → List A → Items
map_items f [] = nil
map_items f (x ∷ xs) = cons (f x) (map_items f xs)

-- Python's `json` module; `loads` is `none` where it raises.
pub record JsonCodec : Type 0 where
  pub dumps : Json → String
  pub loads : String → Option Json
