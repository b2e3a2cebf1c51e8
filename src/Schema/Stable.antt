-- ===== src/Schema/Stable.antt =====
-- core/schema.py: a value that has been validated is its own validation.
use mathlib.Core.Path.{subst}
use Prim.Native.Char.{Char, code}
use craftcontrol.Base.{
  ◌≡◌, refl, sym, true, false, Option, none, some, List, String, arith, str_eq, Bool-cases, any,
  ◌||◌, inl, inr,
}
use craftcontrol.Base.Int.{ℤ}
use craftcontrol.Base.Value.{Value, text, bool, float}
use craftcontrol.Schema.{
  Field, Kind, Conversions, valid, is_space, strip_left, strip_right, cons_stripped, strip,
  validate_boolean, validate_text, validate_number, validate_value, validate_kind, bad_text,
  in_range, below, above,
}

strip_right-cons :
    (c : Char) (r : String)
    → strip_right r ≡ r
    → strip_right (cons_stripped (code c) (String.◌∷◌ c r) r)
      ≡ cons_stripped (code c) (String.◌∷◌ c r) r
unfolding strip_right
strip_right-cons c String.[] h = elim (Bool-cases (is_space (code c))) [
  | inl y ↦ rw y refl
  | inr n ↦ rw n (rw n refl)
]
strip_right-cons c (String.◌∷◌ d r) h = rw h refl

-- Stripping at the right end changes nothing more the second time.
strip_right_twice : (s : String) → strip_right (strip_right s) ≡ strip_right s
unfolding strip_right
strip_right_twice String.[] = refl
strip_right_twice (String.◌∷◌ c s) = strip_right-cons c (strip_right s) (strip_right_twice s)

-- What is left of a text at its left end: nothing, or a character that is no space.
abbrev Starts : String → Type 0
Starts String.[] = Unit
Starts (String.◌∷◌ c s) = is_space (code c) ≡ false

strip_left-Starts : (s : String) → Starts (strip_left s)
unfolding strip_left
strip_left-Starts String.[] = tt
strip_left-Starts (String.◌∷◌ c s) = elim (Bool-cases (is_space (code c))) [
  | inl y ↦ rw y (strip_left-Starts s)
  | inr n ↦ rw n n
]

strip_left-strip_right : (s : String) → Starts s → strip_left (strip_right s) ≡ strip_right s
unfolding strip_left strip_right
strip_left-strip_right String.[] h = refl
strip_left-strip_right (String.◌∷◌ c s) h = keep (strip_right s)
  where
    keep :
        (r : String)
        → strip_left (cons_stripped (code c) (String.◌∷◌ c r) r)
          ≡ cons_stripped (code c) (String.◌∷◌ c r) r
    keep String.[] = rw h (rw h refl)
    keep (String.◌∷◌ d r) = rw h refl

strip_twice : (s : String) → strip (strip s) ≡ strip s
strip_twice s =
    rw (strip_left-strip_right (strip_left s) (strip_left-Starts s))
      (strip_right_twice (strip_left s))

valid_injective : {s t : String} → valid s ≡ valid t → s ≡ t
valid_injective h = cc

-- An accepted text is the text that was looked at.
validate_text-same :
    (k : Kind) (options : List String) (t s : String) → validate_text k options t ≡ valid s → t ≡ s
unfolding validate_text
validate_text-same Kind.select options t s h = elim (Bool-cases (any (λ o. str_eq o t) options)) [
  | inr n ↦ ground (arith, rw n at h)
  | inl y ↦ elim (Bool-cases (bad_text t)) [
    | inl bad ↦ ground (arith, rw (y, bad) at h)
    | inr good ↦ valid_injective (rw (y, good) at h)
  ]
]
validate_text-same _ options t s h = elim (Bool-cases (bad_text t)) [
  | inl bad ↦ ground (arith, rw bad at h)
  | inr good ↦ valid_injective (rw good at h)
]

validate_boolean_again :
    (v : Value) (s : String) → validate_boolean v ≡ valid s → validate_boolean (text s) ≡ valid s
unfolding validate_boolean
validate_boolean_again (bool true) s h = rw (sym (valid_injective h)) refl
validate_boolean_again (bool false) s h = rw (sym (valid_injective h)) refl
validate_boolean_again (text t) s h = elim (Bool-cases (str_eq t "true")) [
  | inl y ↦ rw (sym (valid_injective (rw y at h))) refl
  | inr n ↦ elim (Bool-cases (str_eq t "false")) [
    | inl y ↦ rw (sym (valid_injective (rw (n, y) at h))) refl
    | inr m ↦ ground (arith, rw (n, m) at h)
  ]
]
validate_boolean_again _ s h = cc

module _ (p : Conversions) (str_text : (s : String) → p.str (text s) ≡ s)
    (int_str : (n : ℤ) → p.int_of (text (p.str_int n)) ≡ some n) where
  in_range_again :
      (d : Field) (o : Option ℤ) (s : String)
      → in_range p d o ≡ valid s
      → in_range p d (p.int_of (text s)) ≡ valid s
  in_range_again d none s h = cc
  in_range_again d (some n) s h = elim (Bool-cases (below n d.minimum || above n d.maximum)) [
    | inl bad ↦ ground (arith, rw bad at h)
    | inr good ↦
        let e = valid_injective (rw good at h) in rw (sym e) (rw (int_str n) (rw good refl))
  ]

  validate_number_again :
      (d : Field) (v : Value) (s : String)
      → validate_number p d v ≡ valid s
      → validate_number p d (text s) ≡ valid s
  unfolding validate_number
  validate_number_again d (bool b) s h = cc
  validate_number_again d (float t) s h = cc
  validate_number_again d v s h = in_range_again d (p.int_of v) s h

  validate_kind_again :
      (k : Kind) (d : Field) (v : Value) (s : String)
      → validate_kind p k d v ≡ valid s
      → validate_kind p k d (text s) ≡ valid s
  unfolding validate_kind
  validate_kind_again Kind.boolean d v s h = validate_boolean_again v s h
  validate_kind_again Kind.number d v s h = validate_number_again d v s h
  validate_kind_again k d v s h =
      let e : strip (p.str v) ≡ s = validate_text-same k d.options (strip (p.str v)) s h in
      let again : strip s ≡ s = subst (λ t. strip t ≡ t) e (strip_twice (p.str v)) in
      rw (str_text s, again) (subst (λ t. validate_text k d.options t ≡ valid s) e h)

  -- A value that passes the validation of a setting, whatever its type, has a text that passes it
  -- again and stays as it is: a retry of an operation sees the changes that the operation applied.
  -- Python's `str` of a text is the text, and `int` reads back what `str` makes of a number.
  pub validate_value_again :
      (d : Field) (v : Value) (s : String)
      → validate_value p d v ≡ valid s
      → validate_value p d (text s) ≡ valid s
  unfolding validate_value
  validate_value_again d v s h = validate_kind_again d.kind d v s h
