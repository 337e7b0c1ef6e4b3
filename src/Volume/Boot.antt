-- ===== src/Volume/Boot.antt =====
-- storage.py: `boot_mount`, which mounts the volumes of all apps before docker starts.
pub mod Creates
use sbnb.Prelude.{
  String, Bool, true, false, not, ◌&&◌, Option, none, some, List, [], ◌∷◌, ◌++◌, str_eq, elem,
  is_some, if◌then◌else◌,
}
use sbnb.Project.{sort_names}
use sbnb.Volume.{Event, World, Request, Outcome, returned, unavailable, failed}
use sbnb.Volume.Mounting.{ensure_volume_lv}

-- an app of schema-v2 state: the paths of `volumes`, the keys of `volume_caps` and the paths of
-- `backup`
pub record App : Type 0 where
  pub volumes : List String
  pub caps : List String
  pub backup : List String

-- the same of a whole state; `app_volumes` without a path are left out
pub record State : Type 0 where
  pub app_paths : List String
  pub caps : List String
  pub backup_paths : List String

-- The file: it is missing, cannot be read, or holds the state of either schema.
pub data Stored : Type 0 where
  missing unreadable : Stored
  version_2 : List App → Stored
  version_1 : State → Stored

-- the state of schema v2 as one of schema v1
unfoldable pub flatten : List App → State
flatten [] = record { app_paths = []; caps = []; backup_paths = [] }
flatten (a ∷ apps) =
    let rest = flatten apps in
    record {
      app_paths = a.volumes ++ rest.app_paths;
      caps = a.caps ++ rest.caps;
      backup_paths = a.backup ++ rest.backup_paths;
    }

-- The machine: the LV names, or none when they cannot be read; the name of a path's LV; the machine
-- and the request of a path for `_ensure_volume_lv`; `_dedicated_volume_mount_status(p) is True`.
pub record Machine : Type 0 where
  pub names : Option (List String)
  pub storage_pool : String
  pub volume_lv_name : String → String
  pub site : String → World
  pub call : String → Request
  pub is_dedicated : String → Bool

-- What becomes of a path: it is prepared, uses the default storage, or its failure is logged.
pub data Conclusion : Type 0 where
  prepared defaulted failing : Conclusion

pub has_name : Option (List String) → String → Bool
has_name none name = false
has_name (some names) name = elem name names

abbrev pub managed_paths : State → List String
managed_paths s = s.caps ++ s.backup_paths

-- whether the loop passes a path over
unfoldable pub is_passed_over : Machine → State → String → Bool
unfolding has_name
is_passed_over m s p =
    is_some m.names && not (elem p (managed_paths s)) && not (has_name m.names (m.volume_lv_name p))

-- the call of `_ensure_volume_lv`
unfoldable pub boot_request : Machine → State → String → Request
unfolding has_name
boot_request m s p = record (m.call p) {
  capped = elem p s.caps;
  allow_create = elem p (managed_paths s) && is_some m.names;
  expect_existing = has_name m.names (m.volume_lv_name p);
  recover_fallback = true;
}

-- after the call: a backup volume must be on its own storage when the pool is there
pub conclude : Machine → State → String → Outcome → Conclusion
unfolding has_name
conclude m s p (returned true) = prepared
conclude m s p (returned false) =
    if elem p s.backup_paths && has_name m.names m.storage_pool && not (m.is_dedicated p)
    then failing
    else defaulted
conclude m s p unavailable = failing
conclude m s p failed = failing

unfoldable pub mount_path : Machine → State → String → List Event × Conclusion
unfolding boot_request conclude ensure_volume_lv
mount_path m s p =
    let (es, outcome) = ensure_volume_lv (m.site p) (boot_request m s p) in
    (es, conclude m s p outcome)

-- a set without its empty member, which the loop skips
pub distinct_paths : List String → List String
distinct_paths [] = []
distinct_paths (p ∷ paths) =
    let rest = distinct_paths paths in
    if str_eq p "" then rest else if elem p rest then rest else p ∷ rest

-- the loop; each path's failure is its own
unfoldable pub mount_each :
    Machine → State → List String → List (String × (List Event × Conclusion))
unfolding is_passed_over mount_path
mount_each m s [] = []
mount_each m s (p ∷ paths) =
    let rest = mount_each m s paths in
    if is_passed_over m s p then rest else (p, mount_path m s p) ∷ rest

pub boot_paths : State → List String
unfolding distinct_paths sort_names
boot_paths s = sort_names (distinct_paths (managed_paths s ++ s.app_paths))

-- `boot_mount`
unfoldable pub boot_mount : Machine → Stored → List (String × (List Event × Conclusion))
unfolding mount_each flatten boot_paths
boot_mount m missing = []
boot_mount m unreadable = []
boot_mount m (version_1 s) = mount_each m s (boot_paths s)
boot_mount m (version_2 apps) = mount_each m (flatten apps) (boot_paths (flatten apps))
