-- ===== src/Reclaim.antt =====
-- storage.py: `_reclaim_deleted_instance_lvs`, the removal of the logical volumes of apps that are
-- gone. What commands answer is given; what is done is recorded, the latest first.
pub mod Paths
pub mod Orphans
pub mod Live
pub mod Attempted
use sbnb.Prelude.{
  zero, suc, suc, String, Bool, true, false, not, ◌&&◌, ◌||◌, Option, none, some, List, [], ◌∷◌,
  ◌++◌, str_eq, elem, filter, any, if◌then◌else◌,
}
use sbnb.Prelude.Dict.{Dict, lookup, keys}
use sbnb.Json.{Json, text, object}
use sbnb.Json.Access.{find}
use sbnb.ApplyResults.Record.{Text, codes}
use sbnb.Project.{sort_names}
use sbnb.Volume.{Reply, raised, code}
use sbnb.Reclaim.Paths.{
  valid_owned_volume_path, owner_tag_for_instance, owner_tag_for_path, is_managed_name,
  is_owner_tag, collect_uuids,
}

-- What `findmnt` says of a device: it fails, the targets, or that nothing is mounted (code 1).
pub data Inspection : Type 0 where
  failed nowhere : Inspection
  targets : List String → Inspection

pub data Event : Type 0 where
  listed : Option (Dict (List String)) → Event
  tagged : String → List String → Event
  inspected : String → Inspection → Event
  unmounted : String → Bool → Event
  removed : String → Event
  checked : String → Option Bool → Event

pub record World : Type 0 where
  pub has_thin_pool : Bool
  -- OWNER_TAG_PREFIX and the token of an identifier; `_volume_lv_name`
  pub tag : Text → String
  pub volume_lv_name : String → String
  -- `_lv_metadata_with_tags`, `_volume_tags` and `_lv_metadata_exists`
  pub metadata : List Event → Option (Dict (List String))
  pub volume_tags : List Event → String → Option (List String)
  pub metadata_exists : List Event → String → Option Bool
  pub findmnt : List Event → String → Inspection
  pub umount : List Event → String → Reply

-- What is read of a desired state. A member that is no text where a text is meant is left out.
pub record Desired : Type 0 where
  -- the paths of the instances of `backup`, and the keys of `volume_caps`
  pub backup_paths : List String
  pub cap_paths : List String
  pub app_volumes : List Json
  pub instances : List Json

abbrev pub managed_tag : String
managed_tag = "reefy_managed_app_volume"

-- a truthy text
pub truthy_text : Json → List String
truthy_text (text s) = if str_eq s "" then [] else s ∷ []
truthy_text _ = []

pub volume_path : Json → List String
unfolding truthy_text find
volume_path (object fs) = truthy_text (find "path" fs)
volume_path _ = []

pub volume_paths : List Json → List String
unfolding volume_path
volume_paths [] = []
volume_paths (v ∷ volumes) = volume_path v ++ volume_paths volumes

pub identifiers : Json → List String
unfolding truthy_text find
identifiers (object fs) =
    truthy_text (find "instance_uuid" fs)
    ++ truthy_text (find "uuid" fs)
    ++ truthy_text (find "instance_name" fs)
identifiers _ = []

pub codes_of : List String → List Text
codes_of [] = []
codes_of (s ∷ names) = codes s ∷ codes_of names

pub uuids_of_paths : List String → List Text
unfolding collect_uuids
uuids_of_paths [] = []
uuids_of_paths (p ∷ paths) = collect_uuids (text p) ++ uuids_of_paths paths

pub uuids_of_values : List Json → List Text
unfolding collect_uuids
uuids_of_values [] = []
uuids_of_values (v ∷ volumes) = collect_uuids v ++ uuids_of_values volumes

pub uuids_of_instances : List Json → List Text
unfolding collect_uuids codes_of identifiers
uuids_of_instances [] = []
uuids_of_instances (i ∷ instances) =
    codes_of (identifiers i) ++ collect_uuids i ++ uuids_of_instances instances

-- `live`
unfoldable pub live_identifiers : Desired → List String → List Text
unfolding uuids_of_paths uuids_of_values uuids_of_instances
live_identifiers new managed =
    uuids_of_paths managed ++ uuids_of_values new.app_volumes ++ uuids_of_instances new.instances

-- `live_owner_tags`
pub some_tag : Option String → List String
some_tag none = []
some_tag (some t) = t ∷ []

unfoldable pub live_owner_tags : (Text → String) → List Text → List String
unfolding some_tag owner_tag_for_instance
live_owner_tags tag [] = []
live_owner_tags tag (i ∷ live) = some_tag (owner_tag_for_instance tag i) ++ live_owner_tags tag live

-- a set, in the order of the first occurrences from the end
pub distinct : List String → List String
distinct [] = []
distinct (x ∷ xs) = let rest = distinct xs in if elem x rest then rest else x ∷ rest

-- `_remember_owned_volume`, once the tags are read
pub remember_missing : World → String → List String → List Event → List Event
remember_missing w lv [] es = es
remember_missing w lv (t ∷ missing) es = tagged lv (t ∷ missing) ∷ es

pub remember_tags : World → String → String → Option (List String) → List Event → List Event
unfolding remember_missing
remember_tags w lv owner none es = es
remember_tags w lv owner (some tags) es =
    remember_missing w lv (filter (λ t. not (elem t tags)) (managed_tag ∷ owner ∷ [])) es

pub remember_owner : World → String → Option String → List Event → List Event
unfolding remember_tags
remember_owner w lv none es = es
remember_owner w lv (some owner) es = remember_tags w lv owner (w.volume_tags es lv) es

-- `_remember_owned_volume`, whose answer is not read here
unfoldable pub remember_owned_volume : World → String → List Event → List Event
unfolding remember_owner owner_tag_for_path
remember_owned_volume w path es =
    remember_owner w (w.volume_lv_name path) (owner_tag_for_path w.tag (codes path)) es

-- the loop over the paths that may be adopted
unfoldable pub seed : World → Dict (List String) → List String → List Event → List Event
unfolding remember_owned_volume valid_owned_volume_path
seed w metadata [] es = es
seed w metadata (path ∷ paths) es =
    let remembering = seed w metadata paths (remember_owned_volume w path es) in
    let passing = seed w metadata paths es in
    if elem (w.volume_lv_name path) (keys metadata) && valid_owned_volume_path (codes path)
    then remembering
    else passing

-- whether an LV belongs to an app that is gone
unfoldable pub is_orphan : List String → String → List String → Bool
unfolding is_managed_name is_owner_tag
is_orphan live name tags =
    is_managed_name name
    && elem managed_tag tags
    && any is_owner_tag tags
    && not (any (λ t. is_owner_tag t && elem t live) tags)

pub unmount_reply :
    String → Reply → List Event → (List Event → List Event × Bool) → List Event × Bool
unmount_reply target raised es next = (unmounted target false ∷ es, false)
unmount_reply target (code zero) es next = next (unmounted target true ∷ es)
unmount_reply target (code (suc n)) es next = (unmounted target false ∷ es, false)

-- the loop over the mount points; it ends at the first failure
pub unmount_each : World → List String → List Event → List Event × Bool
unfolding unmount_reply
unmount_each w [] es = (es, true)
unmount_each w (t ∷ ts) es = unmount_reply t (w.umount es t) es (unmount_each w ts)

pub release : World → Inspection → List Event → List Event × Bool
unfolding unmount_each
release w failed es = (es, false)
release w nowhere es = (es, true)
release w (targets ts) es = unmount_each w ts es

pub remove_released : World → String → List Event × Bool → List Event
remove_released w name (es, true) =
    checked name (w.metadata_exists (removed name ∷ es) name) ∷ removed name ∷ es
remove_released w name (es, false) = es

-- an LV that is to be removed
pub reclaim_volume : World → String → List Event → List Event
unfolding release remove_released
reclaim_volume w name es =
    let answer = w.findmnt es name in
    remove_released w name (release w answer (inspected name answer ∷ es))

unfoldable pub tags_of : Option (List String) → List String
tags_of none = []
tags_of (some tags) = tags

-- the loop over the names, in order
unfoldable pub reclaim_each :
    World → List String → Dict (List String) → List String → List Event → List Event
unfolding is_orphan reclaim_volume tags_of
reclaim_each w live metadata [] es = es
reclaim_each w live metadata (name ∷ names) es =
    let reclaiming = reclaim_each w live metadata names (reclaim_volume w name es) in
    let passing = reclaim_each w live metadata names es in
    if is_orphan live name (tags_of (lookup name metadata)) then reclaiming else passing

pub reclaim_listed : World → List String → Option (Dict (List String)) → List Event → List Event
unfolding reclaim_each sort_names
reclaim_listed w live none es = es
reclaim_listed w live (some metadata) es =
    reclaim_each w live metadata (sort_names (keys metadata)) es

-- the second reading of the metadata
pub list_again : World → List String → List Event → List Event
unfolding reclaim_listed
list_again w live es = reclaim_listed w live (w.metadata es) (listed (w.metadata es) ∷ es)

pub seed_and_reclaim :
    World → List String → List String → Option (Dict (List String)) → List Event → List Event
unfolding list_again seed
seed_and_reclaim w live paths none es = es
seed_and_reclaim w live paths (some metadata) es = list_again w live (seed w metadata paths es)

-- `new_managed_paths`
abbrev pub managed_paths : Desired → List String → List String
managed_paths new backup_paths = backup_paths ++ new.cap_paths

-- `seed_paths`, sorted
pub seed_paths : Desired → Desired → List String → List String
unfolding volume_paths distinct sort_names
seed_paths old new managed = sort_names (
    distinct (
      old.backup_paths
      ++ old.cap_paths
      ++ managed
      ++ volume_paths old.app_volumes
      ++ volume_paths new.app_volumes))

-- `_reclaim_deleted_instance_lvs`
unfoldable pub reclaim_deleted_instance_lvs : World → Desired → Desired → List String → List Event
unfolding live_owner_tags live_identifiers seed_paths seed_and_reclaim
reclaim_deleted_instance_lvs w old new new_backup_paths =
    let managed = managed_paths new new_backup_paths in
    let live = live_owner_tags w.tag (live_identifiers new managed) in
    if w.has_thin_pool
    then seed_and_reclaim w live (seed_paths old new managed) (w.metadata [])
        (listed (w.metadata []) ∷ [])
    else []
