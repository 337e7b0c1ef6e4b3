-- ===== src/Reclaim/Paths.antt =====
-- storage.py: the paths of app volumes, the LVM tags of their owners and the names of their devices;
-- and `_collect_uuids` of `_reclaim_deleted_instance_lvs`.
pub mod Search
use sbnb.Prelude.{
  ◌||◌, ℕ, String, Bool, true, false, not, ◌&&◌, Option, none, some, List, [], ◌∷◌, ◌++◌, ◌==◌,
  if◌then◌else◌,
}
use sbnb.Json.{Json, text, array, object, Items, nil, cons, Fields, end, field}
use sbnb.ApplyResults.Record.{Text, codes, hex_group, at_end}
use sbnb.Devices.{same_text}

-- `text.startswith(prefix)`, with what follows the prefix
unfoldable pub after_prefix : Text → Text → Option Text
after_prefix [] t = some t
after_prefix (c ∷ p) [] = none
after_prefix (c ∷ p) (d ∷ t) = let rest = after_prefix p t in if c == d then rest else none

pub is_found : Option Text → Bool
is_found none = false
is_found (some t) = true

-- the text before the first slash and, when there is one, the text after it
pub prepend : ℕ → Text × Option Text → Text × Option Text
prepend c (segment, rest) = (c ∷ segment, rest)

unfoldable pub cut_at_slash : Text → Text × Option Text
unfolding prepend
cut_at_slash [] = ([], none)
cut_at_slash (c ∷ t) =
    let rest = prepend c (cut_at_slash t) in if c == 47 then ([], some t) else rest

-- a segment other than '', '.' and '..'
pub is_segment : Text → Bool
unfolding same_text
is_segment t = not (same_text t [] || same_text t (46 ∷ []) || same_text t (46 ∷ 46 ∷ []))

pub is_last_segment : Text × Option Text → Bool
unfolding is_segment
is_last_segment (segment, none) = is_segment segment
is_last_segment (segment, some rest) = false

pub is_two_segments : Text × Option Text → Bool
unfolding is_segment is_last_segment cut_at_slash
is_two_segments (segment, none) = false
is_two_segments (segment, some rest) = is_segment segment && is_last_segment (cut_at_slash rest)

pub is_relative_root : Option Text → Bool
unfolding is_two_segments cut_at_slash
is_relative_root none = false
is_relative_root (some relative) = is_two_segments (cut_at_slash relative)

-- f'{shared.REEFY_DATA_MNT}/apps/'
abbrev pub apps_prefix : Text
apps_prefix = codes "/mnt/reefy-data/apps/"

-- `_valid_owned_volume_path`. A path that starts with the prefix and has two such segments after it
-- is its own `normpath`.
unfoldable pub valid_owned_volume_path : Text → Bool
unfolding is_relative_root after_prefix
valid_owned_volume_path path = is_relative_root (after_prefix apps_prefix path)

-- `_owner_tag_for_instance`; the tag's token, a hash of the identifier, is given
unfoldable pub owner_tag_for_instance : (Text → String) → Text → Option String
owner_tag_for_instance tag [] = none
owner_tag_for_instance tag (c ∷ t) = some (tag (c ∷ t))

pub tag_of_relative : (Text → String) → Option Text → Option String
unfolding owner_tag_for_instance cut_at_slash
tag_of_relative tag none = none
tag_of_relative tag (some relative) = owner_tag_for_instance tag (cut_at_slash relative).0

-- `_owner_tag_for_path`
unfoldable pub owner_tag_for_path : (Text → String) → Text → Option String
unfolding valid_owned_volume_path tag_of_relative after_prefix
owner_tag_for_path tag path =
    if valid_owned_volume_path path
    then tag_of_relative tag (after_prefix apps_prefix path)
    else none

pub is_hash : Option Text → Bool
unfolding hex_group at_end
is_hash none = false
is_hash (some t) = hex_group 12 at_end t

-- MANAGED_VOLUME_RE
unfoldable pub is_managed_name : String → Bool
unfolding is_hash after_prefix
is_managed_name name = is_hash (after_prefix (codes "reefy_backup_") (codes name))

-- `tag.startswith(OWNER_TAG_PREFIX)`
unfoldable pub is_owner_tag : String → Bool
unfolding is_found after_prefix
is_owner_tag tag = is_found (after_prefix (codes "reefy_owner_") (codes tag))

-- `/apps/([^/]+)/` where it is tried: after the prefix, what stands before a slash
pub closed_segment : Text × Option Text → Option Text
closed_segment (c ∷ segment, some rest) = some (c ∷ segment)
closed_segment _ = none

pub group_of : Option Text → Option Text
unfolding closed_segment cut_at_slash
group_of none = none
group_of (some t) = closed_segment (cut_at_slash t)

unfoldable pub match_app : Text → Option Text
unfolding group_of after_prefix
match_app t = group_of (after_prefix (codes "/apps/") t)

pub or_else : Option Text → Option Text → Option Text
or_else (some t) other = some t
or_else none other = other

-- `re.search`
unfoldable pub search_app : Text → Option Text
unfolding or_else match_app
search_app [] = none
search_app (c ∷ t) = or_else (match_app (c ∷ t)) (search_app t)

unfoldable pub found : Option Text → List Text
found none = []
found (some t) = t ∷ []

-- `_collect_uuids`
unfoldable mutual
  unfolding search_app found

  pub collect_uuids : Json → List Text
  collect_uuids (text s) = found (search_app (codes s))
  collect_uuids (object fs) = collect_fields fs
  collect_uuids (array xs) = collect_items xs
  collect_uuids _ = []

  pub collect_fields : Fields → List Text
  collect_fields end = []
  collect_fields (field k v fs) = collect_uuids v ++ collect_fields fs

  pub collect_items : Items → List Text
  collect_items nil = []
  collect_items (cons x xs) = collect_uuids x ++ collect_items xs
