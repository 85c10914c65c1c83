-- ===== src/Json.antt =====
-- JSON values: what `Record<string, unknown>` holds when it was parsed from JSON, and the fields of
-- an object as an association list in the order of its keys.
pub mod Print
pub mod Stable
use sun_pilot.Base.{ℕ, String, Bool, Option, none, some, List, [], ◌∷◌, ◌===◌, if◌then◌else◌}

-- Numbers are the natural ones: the code that is modelled reads no other.
mutual
  pub data Json : Type 0 where
    null : Json
    bool : Bool → Json
    num : ℕ → Json
    str : String → Json
    arr : Items → Json
    obj : Fields → Json

  pub data Items : Type 0 where
    nil : Items
    cons : Json → Items → Items

  pub data Fields : Type 0 where
    end : Fields
    field : String → Json → Fields → Fields

-- `args[key]`; `none` is `undefined`.
unfoldable pub get_field : String → Fields → Option Json
get_field k end = none
get_field k (field j v fs) = if j === k then some v else get_field k fs

-- `Object.keys(args)`
abbrev pub keys : Fields → List String
keys end = []
keys (field k v fs) = k ∷ keys fs

-- `{ ...args, [key]: value }`
unfoldable pub set_field : String → Json → Fields → Fields
set_field k w end = field k w end
set_field k w (field j v fs) = if j === k then field j w fs else field j v (set_field k w fs)
