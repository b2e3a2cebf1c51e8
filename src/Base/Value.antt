-- ===== src/Base/Value.antt =====
-- The values of `Any` that a JSON document, a request body or an evidence dict can hold.
use Prim.Native.String.{String}
use mathlib.Core.Bool.{Bool}
use mathlib.Core.List.{[], ◌∷◌}
use craftcontrol.Base.Dict.{Dict}
use craftcontrol.Base.Int.{ℤ}
use Prim.Native.Nat.{ℕ}

-- A float that is not whole is kept as its text, since the modelled code computes with none.
mutual
  pub data Value : Type 0 where
    null : Value
    bool : Bool → Value
    int : ℤ → Value
    float : String → Value
    text : String → Value
    time : ℕ → Value
    obj : Fields → Value
    arr : Items → Value

  pub data Fields : Type 0 where
    field : String → Value → Fields → Fields
    end : Fields

  pub data Items : Type 0 where
    item : Value → Items → Items
    no_items : Items

-- A dict that stands as a value inside another.
unfoldable pub fields : Dict Value → Fields
fields [] = end
fields ((k, v) ∷ d) = field k v (fields d)

abbrev pub nested : Dict Value → Value
nested d = obj (fields d)

-- The dict that such a value holds.
unfoldable pub entries : Fields → Dict Value
entries end = []
entries (field k v fs) = (k, v) ∷ entries fs
