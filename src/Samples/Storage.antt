-- ===== src/Samples/Storage.antt =====
-- Concrete runs of the reclaim and of the boot-time mount of storage.py.
use sbnb.Reclaim.Paths.{is_owner_tag, owner_tag_for_path}
use sbnb.Prelude.{any, String, true, false, ◌≡◌, refl, some, List, [], ◌∷◌, elem, if◌then◌else◌}
use sbnb.Prelude.Dict.{lookup, keys, Dict}
use sbnb.ApplyResults.Record.{Text, codes}
use sbnb.Devices.{same_text}
use sbnb.Volume.{code}
use sbnb.Reclaim.{
  tags_of, targets, listed, World, Desired, is_orphan, live_owner_tags, live_identifiers,
  managed_paths, seed_and_reclaim, reclaim_deleted_instance_lvs,
}
use sbnb.Reclaim.Orphans.{is_justified, only_orphans_removed}
use sbnb.Reclaim.Live.{live_volumes_kept}
use sbnb.Reclaim.Attempted.{was_inspected, every_orphan_attempted}

abbrev camera_tag : Text → String
camera_tag t = if same_text t (codes "u1") then "reefy_owner_1" else "reefy_owner_2"

abbrev camera_tags : List String
camera_tags = "reefy_managed_app_volume" ∷ "reefy_owner_1" ∷ []

-- the volume of an app that is gone, the camera's volume, and one without tags
abbrev volumes : Dict (List String)
volumes =
    ("reefy_backup_0123456789ab", "reefy_managed_app_volume" ∷ "reefy_owner_2" ∷ [])
    ∷ ("reefy_backup_aaaaaaaaaaaa", camera_tags)
    ∷ ("reefy_backup_bbbbbbbbbbbb", [])
    ∷ []

abbrev host : World
host = record {
  has_thin_pool = true;
  tag = camera_tag;
  volume_lv_name = λ path. "reefy_backup_aaaaaaaaaaaa";
  metadata = λ es. some volumes;
  volume_tags = λ es name. some camera_tags;
  metadata_exists = λ es name. some false;
  findmnt = λ es name. targets ("/mnt/old" ∷ []);
  umount = λ es target. code 0;
}

abbrev nothing_desired : Desired
nothing_desired = record { backup_paths = []; cap_paths = []; app_volumes = []; instances = [] }

abbrev camera_desired : Desired
camera_desired = record nothing_desired { cap_paths = "/mnt/reefy-data/apps/u1/media" ∷ [] }

only_orphans_removed_example :
    is_justified
      (live_owner_tags camera_tag
        (live_identifiers camera_desired (managed_paths camera_desired [])))
      (reclaim_deleted_instance_lvs host nothing_desired camera_desired [])
    ≡ true
only_orphans_removed_example = only_orphans_removed host nothing_desired camera_desired []

live_volumes_kept_example :
    is_orphan
      (live_owner_tags camera_tag
        (live_identifiers camera_desired (managed_paths camera_desired [])))
      "reefy_backup_aaaaaaaaaaaa"
      camera_tags
    ≡ false
unfolding elem owner_tag_for_path is_owner_tag
live_volumes_kept_example =
    live_volumes_kept host camera_desired [] "/mnt/reefy-data/apps/u1/media" "reefy_owner_1"
      "reefy_backup_aaaaaaaaaaaa" camera_tags refl refl refl refl

every_orphan_attempted_example :
    was_inspected "reefy_backup_0123456789ab"
      (seed_and_reclaim host ("reefy_owner_1" ∷ []) [] (some volumes) (listed (some volumes) ∷ []))
    ≡ true
unfolding elem keys is_orphan tags_of lookup any
every_orphan_attempted_example =
    every_orphan_attempted host ("reefy_owner_1" ∷ []) [] volumes volumes
      "reefy_backup_0123456789ab" refl refl refl
