-- ===== src/Data/Values.antt =====
-- What the annotation `Any` stands for. The program looks into dicts alone; an object of any other
-- class is a number, its identity.
use unified_runtime_primitiv.Base.{
  ℕ, String, Option, none, some, Bool, List, [], ◌∷◌, ◌==◌, if◌then◌else◌,
}

mutual
  pub data Value : Type 0 where
    null : Value
    truth : Bool → Value
    text : String → Value
    object : ℕ → Value
    array : Items → Value
    dict : Fields → Value

  pub data Items : Type 0 where
    nil : Items
    cons : Value → Items → Items

  pub data Fields : Type 0 where
    end : Fields
    field : String → Value → Fields → Fields

-- `d.get(key)` of a dict.
abbrev pub find_field : String → Fields → Option Value
find_field key end = none
find_field key (field name value fields) = if name == key then some value else find_field key fields

-- A list of texts.
abbrev pub texts : List String → Items
texts [] = nil
texts (s ∷ ss) = cons (text s) (texts ss)

-- `x or None` of an optional text, as a value.
abbrev pub optional_text : Option String → Value
optional_text none = null
optional_text (some s) = text s
