-- ===== src/Backup/Scenarios.antt =====
-- Scenarios of the backups, at concrete inputs.
use craftcontrol.Base.{ℕ, zero, suc, ◌≡◌, refl, true, false, none, some, [], ◌∷◌, String}
use craftcontrol.Base.Value.{text, int}
use craftcontrol.Base.Int.{pos}
use craftcontrol.Operation.Worker.State.{Reply, answer, broken}
use craftcontrol.Backup.{
  Manifest, Entry, list, take, drop, valid_ids, remove, Backups, delete_all, prune,
}
use craftcontrol.Backup.Retention.{AreDistinct, prune-retains}
use craftcontrol.Backup.Hold.{Creation}

abbrev manifest : Manifest
manifest = record { created_at = text "2026-01-01"; world = text "Bedrock"; format = int (pos 1) }

abbrev good : String → Entry
good name = record { name = name; is_dir = true; has_manifest = true; manifest = some manifest }

abbrev spoilt : String → Entry
spoilt name = record { name = name; is_dir = true; has_manifest = true; manifest = none }

-- The newest backup is unreadable, and the directory has an entry of another kind.
abbrev stored : Backups
stored = record {
  entries =
      spoilt "20260103"
      ∷ good "20260102"
      ∷ (record { name = "notes.txt"; is_dir = false; has_manifest = false; manifest = none })
      ∷ good "20260101"
      ∷ [];
  audits = [];
}

stored-AreDistinct : AreDistinct (list stored.entries)
unfolding list
stored-AreDistinct = (refl, (refl, (refl, tt)))

prune-retains_example :
    take 1 (list (prune (λ id. true) 1 true stored).1.entries) ≡ take 1 (list stored.entries)
prune-retains_example = prune-retains (λ id. true) 1 true stored stored-AreDistinct

-- The unreadable backup counts as the one that is kept, and no backup that can be read is left.
nothing_left : valid_ids (list (prune (λ id. true) 1 true stored).1.entries) ≡ []
unfolding prune list drop valid_ids delete_all remove
nothing_left = refl

-- A server that answers the second query, and an archive that cannot be written.
abbrev answers : ℕ → Reply String
answers zero = answer "a gravar"
answers (suc n) = answer "files are now ready to be copied."

abbrev creation : Creation
creation = record {
  server_running = answer true;
  hold_sent = answer tt;
  query_output = answers;
  database = answer tt;
  world = broken "no space left on device";
  configuration = answer tt;
  manifest = answer tt;
  replace = answer tt;
  permissions = answer tt;
  resume_sent = answer tt;
}
