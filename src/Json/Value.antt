-- ===== src/Json/Value.antt =====
-- A decoded JSON value. A number keeps its literal, which the target type decides how to read.
use api_key_rotator.Base.{Bool, List, [], ◌∷◌}
use api_key_rotator.Base.Text.{Bytes}

mutual
  pub data Json : Type 0 where
    null : Json
    bool : Bool → Json
    num : Bytes → Json
    str : Bytes → Json
    arr : Items → Json
    obj : Fields → Json

  pub data Items : Type 0 where
    nil : Items
    cons : Json → Items → Items

  pub data Fields : Type 0 where
    end : Fields
    field : Bytes → Json → Fields → Fields

abbrev pub items : Items → List Json
items nil = []
items (cons v vs) = v ∷ items vs

abbrev pub fields : Fields → List (Bytes × Json)
fields end = []
fields (field k v fs) = (k, v) ∷ fields fs
