-- ===== src/Backup.antt =====
-- apps/server/controlplane/src/operations/backup.py: the listing and the retention of backups, and
-- the console commands around the creation of one.
-- The directory of the backups is the list of its entries in the order of `sorted(…, reverse=True)`.
-- Whether an archive, a digest or a deletion succeeds is a parameter.
pub mod Retention
pub mod Hold
mod Scenarios
use craftcontrol.Base.{
  ℕ, zero, suc, ◌+◌, Bool, true, false, not, ◌&&◌, Option, List, [], ◌∷◌, ◌++◌, String, str_eq,
  if◌then◌else◌, ltb, length, is_some,
}
use craftcontrol.Base.Value.{Value}

-- The fields of a manifest that the listing shows.
pub record Manifest : Type 0 where
  pub created_at : Value
  pub world : Value
  pub format : Value

-- An entry of the directory; `manifest` is `none` where manifest.json cannot be read.
pub record Entry : Type 0 where
  pub name : String
  pub is_dir : Bool
  pub has_manifest : Bool
  pub manifest : Option Manifest

-- What `list` shows of an entry: its manifest, or that it is invalid.
pub record Item : Type 0 where
  pub id : String
  pub shown : Option Manifest

unfoldable pub list : List Entry → List Item
list [] = []
list (e ∷ es) =
    let rest = list es in
    if e.is_dir && e.has_manifest then (record { id = e.name; shown = e.manifest }) ∷ rest else rest

unfoldable pub drop : ℕ → List Item → List Item
drop zero l = l
drop (suc n) [] = []
drop (suc n) (x ∷ l) = drop n l

unfoldable pub take : ℕ → List Item → List Item
take zero l = []
take (suc n) [] = []
take (suc n) (x ∷ l) = x ∷ take n l

unfoldable pub valid_ids : List Item → List String
valid_ids [] = []
valid_ids (x ∷ l) = let rest = valid_ids l in if is_some x.shown then x.id ∷ rest else rest

-- `[… for item in self.list()[keep:] if not item.get("invalid")]`
abbrev pub candidates : ℕ → List Entry → List String
candidates keep es = valid_ids (drop keep (list es))

-- `shutil.rmtree`
unfoldable pub remove : String → List Entry → List Entry
remove id [] = []
remove id (e ∷ es) = let rest = remove id es in if str_eq e.name id then rest else e ∷ rest

-- What `prune` comes to: a report, or the `ValueError` of `keep`, or what a deletion raised.
pub data Pruned : Type 0 where
  report : (deleted left : List String) (dry_run : Bool) → Pruned
  keep_too_small : Pruned
  not_deleted : String → Pruned

-- The directory, and the number of deletions of each audit entry.
pub record Backups : Type 0 where
  pub entries : List Entry
  pub audits : List ℕ

abbrev pub audit_pruned : List String → Backups → Pruned × Backups
audit_pruned deleted b =
    (report deleted [] false, record b { audits = b.audits ++ length deleted ∷ [] })

-- The loop of `prune`, with the ids of which `_backup_directory` and `rmtree` do not raise.
unfoldable pub delete_all : (String → Bool) → List String → List String → Backups → Pruned × Backups
unfolding remove
delete_all deletable deleted [] b = audit_pruned deleted b
delete_all deletable deleted (id ∷ ids) b =
    let rest =
      delete_all deletable (deleted ++ id ∷ []) ids (record b { entries = remove id b.entries }) in
    if deletable id then rest else (not_deleted id, b)

unfoldable pub prune : (String → Bool) → ℕ → Bool → Backups → Pruned × Backups
unfolding list drop valid_ids delete_all
prune deletable keep confirmed b =
    if ltb keep 1
    then (keep_too_small, b)
    else if not confirmed
    then (report [] (candidates keep b.entries) true, b)
    else delete_all deletable [] (candidates keep b.entries) b
