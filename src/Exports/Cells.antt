-- ===== src/Exports/Cells.antt =====
-- core/exports.py: no text of an exported cell is a formula.
use craftcontrol.Base.{
  ◌≡◌, refl, Bool, true, false, Option, none, some, [], String, arith, inl, inr, Bool-cases, concat,
  str_eq,
}
use craftcontrol.Base.Dict.{Dict, lookup, insert, lookup-insert}
use craftcontrol.Base.Value.{
  Value, null, bool, int, float, time, text, obj, arr, Fields, field, end, fields,
}
use craftcontrol.Exports.{
  is_formula, neutralize_formula, joined, flatten_value, flatten_fields, flatten, cell,
}

-- A value that is no record and no list.
abbrev pub is_plain : Option Value → Bool
is_plain (some (obj fs)) = false
is_plain (some (arr vs)) = false
is_plain _ = true

-- A number, whose text may begin with a sign.
abbrev pub is_number : Option Value → Bool
is_number (some (int n)) = true
is_number (some (float s)) = true
is_number (some (time t)) = true
is_number _ = false

-- Every column holds a plain value.
abbrev pub IsFlat : Dict Value → Type 0
IsFlat flat = (column : String) → is_plain (lookup column flat) ≡ true

insert-IsFlat :
    (column : String) (v : Value) (flat : Dict Value)
    → is_plain (some v) ≡ true
    → IsFlat flat
    → IsFlat (insert column v flat)
insert-IsFlat column v flat p h = λ other. elim (Bool-cases (str_eq column other)) [
  | inl same ↦ rw (lookup-insert column other v flat, same) p
  | inr apart ↦ rw (lookup-insert column other v flat, apart) (h other)
]

neutralize_formula-inert : (s : String) → is_formula (neutralize_formula s) ≡ false
unfolding neutralize_formula
neutralize_formula-inert s = elim (Bool-cases (is_formula s)) [
  | inl formula ↦ rw formula refl
  | inr plain ↦ rw plain plain
]

module _ (str : Value → String) where
  mutual
    unfolding flatten_value

    flatten_value-IsFlat :
        (column : String) (v : Value) (flat : Dict Value)
        → IsFlat flat
        → IsFlat (flatten_value str column v flat)
    flatten_value-IsFlat column (obj fs) flat h =
        flatten_fields-IsFlat (concat column ".") fs flat h
    flatten_value-IsFlat column (arr vs) flat h =
        insert-IsFlat column (text (joined str vs)) flat refl h
    flatten_value-IsFlat column null flat h = insert-IsFlat column null flat refl h
    flatten_value-IsFlat column (bool b) flat h = insert-IsFlat column (bool b) flat refl h
    flatten_value-IsFlat column (int n) flat h = insert-IsFlat column (int n) flat refl h
    flatten_value-IsFlat column (float s) flat h = insert-IsFlat column (float s) flat refl h
    flatten_value-IsFlat column (text s) flat h = insert-IsFlat column (text s) flat refl h
    flatten_value-IsFlat column (time t) flat h = insert-IsFlat column (time t) flat refl h

    flatten_fields-IsFlat :
        (prefix : String) (fs : Fields) (flat : Dict Value)
        → IsFlat flat
        → IsFlat (flatten_fields str prefix fs flat)
    flatten_fields-IsFlat prefix end flat h = h
    flatten_fields-IsFlat prefix (field key v fs) flat h =
        flatten_fields-IsFlat prefix fs (flatten_value str (concat prefix key) v flat)
          (flatten_value-IsFlat (concat prefix key) v flat h)

  flatten-IsFlat : (d : Dict Value) → IsFlat (flatten str d)
  unfolding flatten lookup
  flatten-IsFlat d = flatten_fields-IsFlat "" (fields d) [] (λ column. refl)

  cell-is_number :
      (v : Option Value) → is_plain v ≡ true → is_formula (cell str v) ≡ true → is_number v ≡ true
  unfolding cell
  cell-is_number none p h = cc
  cell-is_number (some null) p h = cc
  cell-is_number (some (bool true)) p h = cc
  cell-is_number (some (bool false)) p h = cc
  cell-is_number (some (text s)) p h = ground (arith, h, neutralize_formula-inert s)
  cell-is_number (some (obj fs)) p h = cc
  cell-is_number (some (arr vs)) p h = cc
  cell-is_number (some v) p h = refl

  -- In the cells of an exported record, whatever its values and however they are nested, only a
  -- number can open with a character with which a spreadsheet begins a formula.
  pub flatten-is_number :
      (d : Dict Value) (column : String)
      → is_formula (cell str (lookup column (flatten str d))) ≡ true
      → is_number (lookup column (flatten str d)) ≡ true
  flatten-is_number d column h =
      cell-is_number (lookup column (flatten str d)) (flatten-IsFlat d column) h
