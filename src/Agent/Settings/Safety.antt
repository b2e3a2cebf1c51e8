-- ===== src/Agent/Settings/Safety.antt =====
-- runtime/operations.py: what validation guarantees of the properties that are written.
use craftcontrol.Base.{
  ◌≡◌, refl, Bool, true, false, none, some, List, [], ◌∷◌, String, arith, Option-cases, inl, inr,
  All, eq_iff, not, ◌&&◌,
}
use craftcontrol.Base.Dict.{Dict, lookup}
use craftcontrol.Base.Value.{Value, bool, int, float}
use craftcontrol.Base.Int.{ℤ}
use craftcontrol.Agent.Settings.{
  enum_allowed, has_newline, value_error, validate, render, build_updates, member, field_map,
}

abbrev all_clean : List String → Bool
all_clean [] = true
all_clean (s ∷ ss) = not (has_newline s) && all_clean ss

abbrev all_options_clean : Dict (List String) → Bool
all_options_clean [] = true
all_options_clean ((f, ss) ∷ d) = all_clean ss && all_options_clean d

member_clean :
    (s : String) (ss : List String)
    → all_clean ss ≡ true
    → member s ss ≡ true
    → has_newline s ≡ false
member_clean s [] c m = cc
member_clean s (t ∷ ss) c m = ground (arith, eq_iff t s, member_clean s ss)

lookup_clean :
    (f : String) (d : Dict (List String)) (ss : List String)
    → all_options_clean d ≡ true
    → lookup f d ≡ some ss
    → all_clean ss ≡ true
unfolding lookup
lookup_clean f [] ss c h = cc
lookup_clean f ((g, os) ∷ d) ss c h = ground (arith, lookup_clean f d ss)

table_clean : all_options_clean enum_allowed ≡ true
unfolding enum_allowed has_newline
table_clean = refl

abbrev all_keys_clean : Dict String → Bool
all_keys_clean [] = true
all_keys_clean ((f, k) ∷ d) = not (has_newline k) && all_keys_clean d

key_clean :
    (f : String) (d : Dict String) (k : String)
    → all_keys_clean d ≡ true
    → lookup f d ≡ some k
    → has_newline k ≡ false
unfolding lookup
key_clean f [] k c h = cc
key_clean f ((g, j) ∷ d) k c h = ground (arith, key_clean f d k)

keys_clean : all_keys_clean field_map ≡ true
unfolding field_map has_newline
keys_clean = refl

-- No line break in a key or a value, so that each pair is one line of the file.
abbrev pub CleanUpdates : Dict String → Type 0
CleanUpdates = All (λ (e : String × String). (has_newline e.0 ≡ false) × (has_newline e.1 ≡ false))

module _ (str : Value → String) (listing : List String → String)
    (str_int : (n : ℤ) → has_newline (str (int n)) ≡ false)
    (str_float : (s : String) → has_newline (str (float s)) ≡ false) where
  render_clean :
      (field : String) (value : Value)
      → value_error str listing field value ≡ none
      → has_newline (render str value) ≡ false
  unfolding value_error render
  render_clean field (bool true) h = refl
  render_clean field (bool false) h = refl
  render_clean field (int n) h = str_int n
  render_clean field (float s) h = str_float s
  render_clean field value h = elim (Option-cases (lookup field enum_allowed)) [
    | inl p ↦ ground arith
    | inr (options, p) ↦ ground (
      arith,
      member_clean (str value) options (lookup_clean field enum_allowed options table_clean p),
    )
  ]

  -- If the intended state passes validation, no key and no value of the rendered properties holds
  -- `\n` or `\r`, whatever the fields and their values, provided that Python's text of a number
  -- holds none.
  pub build_updates-CleanUpdates :
      (state : Dict Value)
      → validate str listing state ≡ none
      → CleanUpdates (build_updates str state)
  unfolding validate build_updates
  build_updates-CleanUpdates [] h = tt
  build_updates-CleanUpdates ((field, value) ∷ rest) h =
      elim (Option-cases (value_error str listing field value)) [
        | inr (message, p) ↦ absurd (ground arith)
        | inl p ↦ elim (Option-cases (lookup field field_map)) [
          | inl q ↦ rw (q, build_updates) (build_updates-CleanUpdates rest (ground arith))
          | inr (key, q) ↦
              rw (q, build_updates)
                (
                  (key_clean field field_map key keys_clean q, render_clean field value p),
                  build_updates-CleanUpdates rest (ground arith),
                )
        ]
      ]
