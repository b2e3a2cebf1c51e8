-- ===== src/Backup/Retention.antt =====
-- operations/backup.py: what a pruning leaves.
use mathlib.Core.Path.{subst}
use craftcontrol.Base.{
  ℕ, zero, suc, ◌≡◌, refl, sym, ap, ◌∙◌, Bool, false, ◌||◌, List, [], ◌∷◌, ◌++◌, String, str_eq,
  arith, inl, inr, Bool-cases, eq_iff, is_some, ltb, if◌then◌else◌,
}
use craftcontrol.Backup.{
  Entry, Item, list, drop, take, valid_ids, candidates, remove, Backups, delete_all, prune,
}

-- `id` is one of the ids.
abbrev pub has_id : String → List Item → Bool
has_id id [] = false
has_id id (x ∷ l) = str_eq x.id id || has_id id l

unfoldable remove_item : String → List Item → List Item
remove_item id [] = []
remove_item id (x ∷ l) = let rest = remove_item id l in if str_eq x.id id then rest else x ∷ rest

-- The entries of a directory have distinct names, and so have the items of its listing.
abbrev pub AreDistinct : List Item → Type 0
AreDistinct [] = Unit
AreDistinct (x ∷ l) = (has_id x.id l ≡ false) × AreDistinct l

list-remove : (id : String) (es : List Entry) → list (remove id es) ≡ remove_item id (list es)
unfolding list remove remove_item
list-remove id [] = refl
list-remove id (e ∷ es) = ground (arith, list-remove id es)

-- The newest items stay in front when one that is not among them goes.
take-remove_item :
    (k : ℕ) (id : String) (l : List Item)
    → has_id id (take k l) ≡ false
    → take k (remove_item id l) ≡ take k l
unfolding take remove_item
take-remove_item zero id l h = refl
take-remove_item (suc k) id [] h = refl
take-remove_item (suc k) id (x ∷ l) h = ground (arith, h, take-remove_item k id l)

-- None of the ids is among the items.
abbrev AreOutside : List String → List Item → Type 0
AreOutside [] l = Unit
AreOutside (id ∷ ids) l = (has_id id l ≡ false) × AreOutside ids l

delete_all-retains :
    (deletable : String → Bool) (keep : ℕ) (deleted ids : List String) (b : Backups)
    → AreOutside ids (take keep (list b.entries))
    → take keep (list (delete_all deletable deleted ids b).1.entries) ≡ take keep (list b.entries)
unfolding delete_all
delete_all-retains deletable keep deleted [] b h = refl
delete_all-retains deletable keep deleted (id ∷ ids) b h = elim (Bool-cases (deletable id)) [
  | inr stuck ↦ rw stuck refl
  | inl gone ↦
      let e =
        ap (take keep) (list-remove id b.entries) ∙ take-remove_item keep id (list b.entries) h.0 in
      rw gone (
        delete_all-retains deletable keep (deleted ++ id ∷ []) ids
          (record b { entries = remove id b.entries }) (subst (λ l. AreOutside ids l) (sym e) h.1)
        ∙ e)
]

-- The id is none of the ids.
abbrev IsAbsent : String → List String → Type 0
IsAbsent i [] = Unit
IsAbsent i (j ∷ ids) = (str_eq i j ≡ false) × IsAbsent i ids

valid_ids-IsAbsent : (i : String) (l : List Item) → has_id i l ≡ false → IsAbsent i (valid_ids l)
unfolding valid_ids
valid_ids-IsAbsent i [] h = tt
valid_ids-IsAbsent i (x ∷ l) h = elim (Bool-cases (is_some x.shown)) [
  | inr invalid ↦ rw (invalid, IsAbsent) (valid_ids-IsAbsent i l (ground (arith, h)))
  | inl valid ↦
      rw (valid, IsAbsent)
        (
          ground (arith, h, eq_iff x.id i, eq_iff i x.id),
          valid_ids-IsAbsent i l (ground (arith, h)),
        )
]

has_id-drop :
    (k : ℕ) (i : String) (l : List Item) → has_id i l ≡ false → has_id i (drop k l) ≡ false
unfolding drop
has_id-drop zero i l h = h
has_id-drop (suc k) i [] h = refl
has_id-drop (suc k) i (x ∷ l) h = has_id-drop k i l (ground (arith, h))

AreOutside-nil : (ids : List String) → AreOutside ids []
AreOutside-nil [] = tt
AreOutside-nil (id ∷ ids) = (refl, AreOutside-nil ids)

AreOutside-cons :
    (x : Item) (ids : List String) (l : List Item)
    → IsAbsent x.id ids
    → AreOutside ids l
    → AreOutside ids (x ∷ l)
AreOutside-cons x [] l a h = tt
AreOutside-cons x (id ∷ ids) l a h = (ground (arith, a.0, h.0), AreOutside-cons x ids l a.1 h.1)

drop-AreOutside :
    (k : ℕ) (l : List Item) → AreDistinct l → AreOutside (valid_ids (drop k l)) (take k l)
unfolding drop take
drop-AreOutside zero l d = AreOutside-nil (valid_ids l)
drop-AreOutside (suc k) [] d = AreOutside-nil (valid_ids [])
drop-AreOutside (suc k) (x ∷ l) d =
    AreOutside-cons x (valid_ids (drop k l)) (take k l)
      (valid_ids-IsAbsent x.id (drop k l) (has_id-drop k x.id l d.0)) (drop-AreOutside k l d.1)

-- A pruning that keeps a number of backups leaves that many of the newest items of the listing as
-- they are and in their order, whether it is confirmed or not and whichever deletion raises, in a
-- directory whose entries have distinct names.
pub prune-retains :
    (deletable : String → Bool) (keep : ℕ) (confirmed : Bool) (b : Backups)
    → AreDistinct (list b.entries)
    → take keep (list (prune deletable keep confirmed b).1.entries) ≡ take keep (list b.entries)
unfolding prune
prune-retains deletable keep confirmed b d = elim (Bool-cases (ltb keep 1)) [
  | inl small ↦ rw small refl
  | inr enough ↦ elim (Bool-cases confirmed) [
    | inr dry ↦ rw (enough, dry) refl
    | inl meant ↦
        rw (enough, meant)
          (delete_all-retains deletable keep [] (candidates keep b.entries) b
            (drop-AreOutside keep (list b.entries) d))
  ]
]
