-- ===== src/Volume.antt =====
-- storage.py: `_ensure_volume_lv`, which puts the volume of an app on a logical volume (LV) of its
-- own. What is done or looked at is a list of events, the latest first; what a command answers may
-- depend on all events before it (`World`).
pub mod Mounting
pub mod Boot
use sbnb.Prelude.{
  ℕ, String, Bool, true, false, not, ◌&&◌, ◌||◌, Option, none, some, List, [], ◌∷◌, ltb, ◌==◌,
  if◌then◌else◌,
}

-- What a command ends with: an exception, or an exit code.
pub data Reply : Type 0 where
  raised : Reply
  code : ℕ → Reply

-- What `findmnt` says of the volume's path: an exception, a source that is the volume's device, one
-- that is not, an empty one, that nothing is mounted (code 1), or another code.
pub data Mount : Type 0 where
  no_answer on_device elsewhere no_source not_mounted odd_code : Mount

-- The calls of `lvcreate`, `lvremove`, `mkfs.xfs`, `mount`, `umount`, `xfs_repair` without and with
-- `-L` and `lvchange --addtag`, the marker file and the moves of data that is in the way, and the
-- readings of `findmnt` and of the LVM metadata.
pub data Event : Type 0 where
  created removed formatted mounted unmounted repaired log_reset tagged marked : Event
  moved restored : Event
  looked : Event
  seen : Option Bool → Event

pub record World : Type 0 where
  pub findmnt : List Event → Mount
  -- `_lv_metadata_exists`
  pub lv_metadata : List Event → Option Bool
  -- `_desired_volume_size` and `_lv_virtual_size`
  pub desired_size : Option ℕ
  pub virtual_size : List Event → Option ℕ
  pub lvcreate : Reply
  pub mkfs : Reply
  pub umount : Reply
  pub lvchange : Reply
  -- `os.makedirs` and `mount`
  pub mount : List Event → Reply
  pub xfs_repair : List Event → Reply
  -- the tags that `lvs` prints, of which the first tells that the LV is managed; whether the LV has
  -- the tag of the path's owner
  pub tags : List Event → Option (Bool × Bool)
  -- whether the directory at the path holds files
  pub has_data : Bool
  pub is_xfs : Bool
  pub marker_made : Bool
  pub docker_stopped : Bool
  -- `os.rename` of the data, and `os.makedirs` of the empty mount point
  pub rename_succeeds : Bool
  pub makedirs_succeeds : Bool

-- The call: the flags, `path in self._volume_caps`, and what the path and the machine are.
pub record Request : Type 0 where
  pub has_thin_pool : Bool
  pub capped : Bool
  pub allow_create : Bool
  pub expect_existing : Bool
  pub recover_fallback : Bool
  -- `_valid_owned_volume_path`; the LV's name is computed from the path
  pub valid_path : Bool
  -- `MANAGED_VOLUME_RE`, the LV's node exists and `xfs_repair` is installed
  pub managed_name : Bool
  pub has_node : Bool
  pub has_xfs_repair : Bool
  pub is_link : Bool

-- `unavailable` is an `ExistingVolumeUnavailableError`, `failed` another exception.
pub data Outcome : Type 0 where
  returned : Bool → Outcome
  unavailable failed : Outcome

pub succeeded : Reply → Bool
succeeded raised = false
succeeded (code n) = n == 0

unfoldable pub is_absent : Option Bool → Bool
is_absent (some false) = true
is_absent _ = false

-- `_remove_new_volume_lv`, with the first reading of the metadata
remove_seen : World → Option Bool → List Event → List Event × Bool
unfolding is_absent
remove_seen w (some false) es = (seen (some false) ∷ es, true)
remove_seen w none es = (seen none ∷ es, false)
remove_seen w (some true) es =
    let after = removed ∷ seen (some true) ∷ es in
    (seen (w.lv_metadata after) ∷ after, is_absent (w.lv_metadata after))

unfoldable pub remove_new_volume_lv : World → List Event → List Event × Bool
unfolding remove_seen
remove_new_volume_lv w es = remove_seen w (w.lv_metadata es) es

-- `_require_new_volume_cleanup`, and then the outcome that the caller gives
pub cleaned_with : Outcome → List Event × Bool → List Event × Outcome
cleaned_with outcome (es, true) = (es, outcome)
cleaned_with outcome (es, false) = (es, unavailable)

unfoldable pub require_new_volume_cleanup : World → Outcome → List Event → List Event × Outcome
unfolding cleaned_with remove_new_volume_lv
require_new_volume_cleanup w outcome es = cleaned_with outcome (remove_new_volume_lv w es)

-- `_remember_owned_volume`, with the tags that are read
pub remember_tags : World → Option (Bool × Bool) → List Event → List Event × Bool
unfolding succeeded
remember_tags w none es = (es, false)
remember_tags w (some (true, true)) es = (es, true)
remember_tags w (some (_, _)) es = (tagged ∷ es, succeeded w.lvchange)

unfoldable pub remember_owned_volume : World → Request → List Event → List Event × Bool
unfolding remember_tags
remember_owned_volume w r es = if r.valid_path then remember_tags w (w.tags es) es else (es, false)

-- `_remove_mounted_new_volume`, with what `findmnt` says; the caller returns False
remove_mounted : World → Mount → List Event → List Event × Outcome
unfolding require_new_volume_cleanup succeeded
remove_mounted w on_device es =
    if succeeded w.umount
    then require_new_volume_cleanup w (returned false) (unmounted ∷ looked ∷ es)
    else (unmounted ∷ looked ∷ es, unavailable)
remove_mounted w not_mounted es = require_new_volume_cleanup w (returned false) (looked ∷ es)
remove_mounted w _ es = (looked ∷ es, unavailable)

unfoldable pub remove_mounted_new_volume : World → List Event → List Event × Outcome
unfolding remove_mounted
remove_mounted_new_volume w es = remove_mounted w (w.findmnt es) es

-- The new volume is mounted: it stays if it could be tagged, with the caller's answer.
pub keep_if_owned : World → Bool → List Event × Bool → List Event × Outcome
unfolding remove_mounted_new_volume
keep_if_owned w answer (es, true) = (es, returned answer)
keep_if_owned w answer (es, false) = remove_mounted_new_volume w es

-- `_resolve_new_volume_mount_failure` and its caller, with what `findmnt` says
resolve_failure : World → Request → Bool → Mount → List Event → List Event × Outcome
unfolding keep_if_owned remember_owned_volume require_new_volume_cleanup
resolve_failure w r answer on_device es =
    keep_if_owned w answer (remember_owned_volume w r (looked ∷ es))
resolve_failure w r answer not_mounted es =
    require_new_volume_cleanup w (returned false) (looked ∷ es)
resolve_failure w r answer _ es = (looked ∷ es, unavailable)

unfoldable pub resolve_new_volume_mount_failure :
    World → Request → Bool → List Event → List Event × Outcome
unfolding resolve_failure
resolve_new_volume_mount_failure w r answer es = resolve_failure w r answer (w.findmnt es) es
