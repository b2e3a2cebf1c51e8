-- ===== src/Schema.antt =====
-- apps/server/controlplane/src/core/schema.py: the settings and game rules, and the validation of a
-- value. The labels, groups and descriptions, which only the client shows, are left out.
-- What `str` and `int` do with a value of any type is the parameter `Conversions`.
pub mod Tables
pub mod Stable
mod Scenarios
use Prim.Native.Char.{code}
use craftcontrol.Base.{
  ℕ, ◌+◌, Bool, true, false, Option, none, some, List, String, ◌==◌, str_eq, if◌then◌else◌, any,
  not, ltb, ◌&&◌, ◌||◌, leb,
}
use craftcontrol.Base.Int.{ℤ, pos, leb_ℤ}
use craftcontrol.Base.Value.{Value, bool, text, float}

pub data Kind : Type 0 where
  boolean number select free : Kind

pub record Field : Type 0 where
  pub kind : Kind
  pub options : List String
  pub minimum : Option ℕ
  pub maximum : Option ℕ

-- The five `ValueError`s.
pub data Invalid : Type 0 where
  invalid_boolean invalid_number out_of_range invalid_option invalid_text : Invalid

unfoldable pub message : Invalid → String
message invalid_boolean = "valor booleano inválido"
message invalid_number = "valor numérico inválido"
message out_of_range = "valor fora do intervalo"
message invalid_option = "opção inválida"
message invalid_text = "texto inválido"

pub data Validated : Type 0 where
  valid : String → Validated
  invalid : Invalid → Validated

pub record Conversions : Type 0 where
  -- `str(value)`
  pub str : Value → String
  -- `int(value)`, where `none` stands for `TypeError` and `ValueError`
  pub int_of : Value → Option ℤ
  -- `str(number)`
  pub str_int : ℤ → String

-- What `str.isspace` holds of.
unfoldable pub is_space : ℕ → Bool
is_space c =
    (leb 9 c && leb c 13)
    || (leb 28 c && leb c 32)
    || c == 133
    || c == 160
    || c == 5760
    || (leb 8192 c && leb c 8202)
    || c == 8232
    || c == 8233
    || c == 8239
    || c == 8287
    || c == 12288

unfoldable pub strip_left : String → String
strip_left String.[] = String.[]
strip_left (String.◌∷◌ c s) =
    let rest = strip_left s in if is_space (code c) then rest else String.◌∷◌ c s

-- A space before nothing but spaces goes.
abbrev pub cons_stripped : ℕ → String → String → String
cons_stripped c kept String.[] = if is_space c then String.[] else kept
cons_stripped c kept (String.◌∷◌ d r) = kept

unfoldable pub strip_right : String → String
strip_right String.[] = String.[]
strip_right (String.◌∷◌ c s) =
    let rest = strip_right s in cons_stripped (code c) (String.◌∷◌ c rest) rest

-- `str.strip`
abbrev pub strip : String → String
strip s = strip_right (strip_left s)

unfoldable pub chars : String → ℕ
chars String.[] = 0
chars (String.◌∷◌ c s) = chars s + 1

-- `any(character in text for character in "\n\r\0")`
unfoldable pub has_control : String → Bool
has_control String.[] = false
has_control (String.◌∷◌ c s) = code c == 10 || code c == 13 || code c == 0 || has_control s

abbrev pub is_empty_text : String → Bool
is_empty_text String.[] = true
is_empty_text (String.◌∷◌ c s) = false

-- `number < definition.get("min", number)`
abbrev pub below : ℤ → Option ℕ → Bool
below n none = false
below n (some m) = not (leb_ℤ (pos m) n)

abbrev pub above : ℤ → Option ℕ → Bool
above n none = false
above n (some m) = not (leb_ℤ n (pos m))

unfoldable pub validate_boolean : Value → Validated
validate_boolean (bool b) = valid (if b then "true" else "false")
validate_boolean (text s) =
    if str_eq s "true"
    then valid "true"
    else if str_eq s "false"
    then valid "false"
    else invalid invalid_boolean
validate_boolean _ = invalid invalid_boolean

-- The last test of the validation, on the stripped text.
abbrev pub bad_text : String → Bool
bad_text s = is_empty_text s || ltb 120 (chars s) || has_control s

unfoldable pub validate_text : Kind → List String → String → Validated
unfolding chars has_control
validate_text Kind.select options s =
    if any (λ o. str_eq o s) options
    then if bad_text s then invalid invalid_text else valid s
    else invalid invalid_option
validate_text _ options s = if bad_text s then invalid invalid_text else valid s

module _ (p : Conversions) where
  abbrev pub in_range : Field → Option ℤ → Validated
  in_range d none = invalid invalid_number
  in_range d (some n) =
      if below n d.minimum || above n d.maximum then invalid out_of_range else valid (p.str_int n)

  unfoldable pub validate_number : Field → Value → Validated
  validate_number d (bool b) = invalid invalid_number
  validate_number d (float s) = invalid invalid_number
  validate_number d v = in_range d (p.int_of v)

  unfoldable pub validate_kind : Kind → Field → Value → Validated
  unfolding validate_boolean validate_number validate_text strip_left strip_right
  validate_kind Kind.boolean d v = validate_boolean v
  validate_kind Kind.number d v = validate_number d v
  validate_kind kind d v = validate_text kind d.options (strip (p.str v))

  -- `validate_value`
  unfoldable pub validate_value : Field → Value → Validated
  unfolding validate_kind
  validate_value d v = validate_kind d.kind d v
