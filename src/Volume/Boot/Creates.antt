-- ===== src/Volume/Boot/Creates.antt =====
-- storage.py: what `boot_mount` may create.
use sbnb.Prelude.{
  All, String, true, false, ◌&&◌, ◌≡◌, List, [], ◌∷◌, elem, is_some, arith, Bool-cases, inl, inr,
}
use sbnb.Volume.{Event}
use sbnb.Volume.Mounting.Untouched.{harmless, uncreating_harmless}
use sbnb.Volume.Boot.{
  Stored, missing, unreadable, version_1, version_2, State, flatten, Machine, Conclusion,
  managed_paths, boot_request, mount_path, mount_each, is_passed_over, boot_paths, boot_mount,
}

-- the state that is mounted
abbrev pub state_of : Stored → State
state_of missing = record { app_paths = []; caps = []; backup_paths = [] }
state_of unreadable = record { app_paths = []; caps = []; backup_paths = [] }
state_of (version_1 s) = s
state_of (version_2 apps) = flatten apps

-- A path may be given a new volume only when it is managed and the LVs could be listed.
abbrev pub MayCreate : Machine → State → String → Type 0
MayCreate m s p = (elem p (managed_paths s) && is_some m.names) ≡ true

-- Each path is left harmless, or may be given a new volume.
abbrev pub IsCautious : Machine → State → String × (List Event × Conclusion) → Type 0
IsCautious m s (p, (es, c)) = harmless es ≡ false → MayCreate m s p

module _ (m : Machine) (s : State) where
  IsCautious-path : (p : String) → IsCautious m s (p, mount_path m s p)
  unfolding mount_path boot_request
  IsCautious-path p h = ground (arith, uncreating_harmless (m.site p) (boot_request m s p))

  mount_each-IsCautious : (paths : List String) → All (IsCautious m s) (mount_each m s paths)
  unfolding mount_each
  mount_each-IsCautious [] = tt
  mount_each-IsCautious (p ∷ paths) = elim (Bool-cases (is_passed_over m s p)) [
    | inl e ↦ rw e (mount_each-IsCautious paths)
    | inr e ↦ rw e (IsCautious-path p, mount_each-IsCautious paths)
  ]

-- Whatever is stored and whatever the commands answer, the mount at boot creates, removes or
-- formats a volume only for a path that the state backs up or caps, and only when the logical
-- volumes could be listed.
pub boot_creates_with_care :
    (m : Machine) (stored : Stored) → All (IsCautious m (state_of stored)) (boot_mount m stored)
unfolding boot_mount flatten
boot_creates_with_care m missing = tt
boot_creates_with_care m unreadable = tt
boot_creates_with_care m (version_1 s) = mount_each-IsCautious m s (boot_paths s)
boot_creates_with_care m (version_2 apps) =
    mount_each-IsCautious m (flatten apps) (boot_paths (flatten apps))
