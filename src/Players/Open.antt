-- ===== src/Players/Open.antt =====
-- players/repository.py: which identities have an open session after each change of the sessions, and
-- the profile of an identity after each change of the profiles.
use craftcontrol.Base.{
  ◌≡◌, refl, Bool, true, false, ◌||◌, Option, none, some, List, [], ◌∷◌, ◌++◌, String, str_eq,
  if◌then◌else◌, any, arith, eq_iff, inl, inr, Bool-cases, Option-cases,
}
use craftcontrol.Base.Dict.{Dict, lookup, lookup-insert}
use craftcontrol.Base.Rows.{update_where, find_last, update_last}
use craftcontrol.Players.{Profile, Session, move_sessions}
use craftcontrol.Players.Presence.{is_open, modify}

abbrev pub has_open : String → List Session → Bool
has_open i ss = any (is_open i) ss

pub has_open-append :
    (i : String) (ss : List Session) (s : Session)
    → has_open i (ss ++ s ∷ []) ≡ (has_open i ss || is_open i s)
has_open-append i [] s = ground arith
has_open-append i (x ∷ ss) s = ground (arith, has_open-append i ss s)

module _ (j : String) (f : Session → Session)
    (keeps : (s : Session) → (f s).identity ≡ s.identity) where
  pub has_open-update_last_other :
      (i : String) (ss : List Session)
      → str_eq j i ≡ false
      → has_open i (update_last (is_open j) f ss) ≡ has_open i ss
  unfolding update_last
  has_open-update_last_other i [] n = refl
  has_open-update_last_other i (x ∷ ss) n = elim (Bool-cases (any (is_open j) ss)) [
    | inl later ↦ rw later (ground (arith, has_open-update_last_other i ss n))
    | inr last ↦ elim (Bool-cases (is_open j x)) [
      | inr miss ↦ rw (last, miss) refl
      | inl hit ↦
          rw (last, hit, keeps x)
            (ground (arith, eq_iff x.identity j, eq_iff x.identity i, eq_iff j i, hit))
    ]
  ]

pub has_open-move_other :
    (i a b : String) (ss : List Session)
    → str_eq a i ≡ false
    → str_eq b i ≡ false
    → has_open i (move_sessions a b ss) ≡ has_open i ss
unfolding move_sessions update_where
has_open-move_other i a b [] n m = refl
has_open-move_other i a b (x ∷ ss) n m =
    ground (
      arith,
      has_open-move_other i a b ss n m,
      eq_iff x.identity a,
      eq_iff x.identity i,
      eq_iff a i,
    )

pub has_open-move_self :
    (a b : String) (ss : List Session)
    → str_eq a b ≡ false
    → has_open b (move_sessions a b ss) ≡ (has_open a ss || has_open b ss)
unfolding move_sessions update_where
has_open-move_self a b [] n = refl
has_open-move_self a b (x ∷ ss) n = ground (
  arith,
  has_open-move_self a b ss n,
  eq_iff x.identity a,
  eq_iff x.identity b,
  eq_iff a b,
  eq_iff b b,
)

pub find_last-none :
    {A : Type 0} (p : A → Bool) (xs : List A) → find_last p xs ≡ none → any p xs ≡ false
unfolding find_last
find_last-none p [] h = refl
find_last-none p (x ∷ xs) h = elim (Option-cases (find_last p xs)) [
  | inl later ↦ ground (arith, later, find_last-none p xs later, h)
  | inr (y, e) ↦ ground (arith, e, h)
]

pub find_last-some :
    {A : Type 0} (p : A → Bool) (xs : List A) (y : A) → find_last p xs ≡ some y → any p xs ≡ true
unfolding find_last
find_last-some p [] y h = cc
find_last-some p (x ∷ xs) y h = elim (Option-cases (find_last p xs)) [
  | inl later ↦ ground (arith, later, h)
  | inr (z, e) ↦ ground (arith, find_last-some p xs z e)
]

abbrev pub mapped : (Profile → Profile) → Option Profile → Option Profile
mapped f none = none
mapped f (some p) = some (f p)

pub lookup-modify :
    (k i : String) (f : Profile → Profile) (ps : Dict Profile)
    → lookup i (modify k f ps) ≡ (if str_eq k i then mapped f (lookup i ps) else lookup i ps)
unfolding modify
lookup-modify k i f ps = elim (Option-cases (lookup k ps)) [
  | inl e ↦ rw (e, modify) (ground (arith, eq_iff k i, e))
  | inr (p, e) ↦ rw (e, modify) (ground (arith, lookup-insert k i (f p) ps, eq_iff k i, e))
]
