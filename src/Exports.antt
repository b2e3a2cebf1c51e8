-- ===== src/Exports.antt =====
-- apps/server/controlplane/src/core/exports.py: the cells of an exported CSV file, and the limits.
-- Python's `str` of a value, the writer of the `csv` module and the size of a text in UTF-8 are
-- parameters.
pub mod Cells
mod Scenarios
use Prim.Native.Char.{code}
use craftcontrol.Base.{
  ℕ, Bool, false, ◌||◌, Option, none, some, List, [], ◌∷◌, map, String, if◌then◌else◌, ltb, ◌==◌,
  concat,
}
use craftcontrol.Base.Dict.{Dict, lookup, insert}
use craftcontrol.Base.Value.{
  Value, null, bool, text, obj, arr, Fields, field, end, Items, item, no_items, fields,
}

-- The `FORMULA_PREFIXES`: = + - @, tab and carriage return
abbrev pub is_prefix : ℕ → Bool
is_prefix c = c == 61 || c == 43 || c == 45 || c == 64 || c == 9 || c == 13

-- `value.startswith(FORMULA_PREFIXES)`
abbrev pub is_formula : String → Bool
is_formula String.[] = false
is_formula (String.◌∷◌ c s) = is_prefix (code c)

unfoldable pub neutralize_formula : String → String
neutralize_formula s = if is_formula s then String.◌∷◌ "'" s else s

-- What a file comes to: its text, or `ExportTooLarge` with the limit and the two numbers.
pub data Exported : Type 0 where
  exported : String → Exported
  too_large : (limit : String) (measured allowed : ℕ) → Exported

abbrev pub measured : (String → ℕ) → ℕ → String → Exported
measured size allowed payload =
    if ltb allowed (size payload) then too_large "byte" (size payload) allowed else exported payload

module _ (str : Value → String) where
  -- `" ".join(str(item) for item in value)`
  unfoldable pub joined : Items → String
  joined no_items = ""
  joined (item v no_items) = str v
  joined (item v vs) = let rest = joined vs in concat (str v) (concat " " rest)

  unfoldable mutual
    unfolding insert

    -- A value under its column, or the columns of a nested record.
    pub flatten_value : String → Value → Dict Value → Dict Value
    flatten_value column (obj fs) flat = flatten_fields (concat column ".") fs flat
    flatten_value column (arr vs) flat = insert column (text (joined vs)) flat
    flatten_value column v flat = insert column v flat

    -- `flatten`, into a dict that has columns already
    pub flatten_fields : String → Fields → Dict Value → Dict Value
    flatten_fields prefix end flat = flat
    flatten_fields prefix (field key v fs) flat =
        flatten_fields prefix fs (flatten_value (concat prefix key) v flat)

  unfoldable pub flatten : Dict Value → Dict Value
  unfolding fields flatten_fields
  flatten record_fields = flatten_fields "" (fields record_fields) []

  unfoldable pub cell : Option Value → String
  unfolding neutralize_formula
  cell none = ""
  cell (some null) = ""
  cell (some (bool b)) = if b then "true" else "false"
  cell (some (text s)) = neutralize_formula s
  cell (some v) = str v

  -- The cells of one record.
  unfoldable pub row : List String → Dict Value → List String
  unfolding flatten cell lookup
  row columns d = map (λ column. cell (lookup column (flatten d))) columns

  -- `serialize_csv`, with the writer of the header and of the rows
  unfoldable pub serialize_csv :
      (List String → List (List String) → String)
      → (String → ℕ)
      → ℕ
      → List (Dict Value)
      → List String
      → Exported
  unfolding row
  serialize_csv write size allowed records columns =
      measured size allowed (write columns (map (row columns) records))
