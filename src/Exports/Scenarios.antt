-- ===== src/Exports/Scenarios.antt =====
-- Scenarios of the exports, at concrete inputs.
use craftcontrol.Base.{◌≡◌, refl, true, [], ◌∷◌, String}
use craftcontrol.Base.Dict.{Dict, lookup, insert}
use craftcontrol.Base.Value.{Value, text, int, nested, fields}
use craftcontrol.Base.Int.{negsuc}
use craftcontrol.Exports.{is_formula, neutralize_formula, flatten, flatten_value, cell, row}
use craftcontrol.Exports.Cells.{is_number, flatten-is_number}

abbrev plain : Value → String
plain (int (negsuc n)) = "-5"
plain (text s) = s
plain _ = "other"

abbrev session : Dict Value
session = ("player", nested (("gamertag", text "=cmd") ∷ ("offset", int (negsuc 4)) ∷ [])) ∷ []

session_row :
    row plain ("player.gamertag" ∷ "player.offset" ∷ "left" ∷ []) session ≡ "'=cmd" ∷ "-5" ∷ "" ∷ []
unfolding row flatten flatten_value cell neutralize_formula lookup insert fields
session_row = refl

offset_formula : is_formula (cell plain (lookup "player.offset" (flatten plain session))) ≡ true
unfolding flatten flatten_value cell lookup insert fields
offset_formula = refl

flatten-is_number_example : is_number (lookup "player.offset" (flatten plain session)) ≡ true
flatten-is_number_example = flatten-is_number plain session "player.offset" offset_formula
