-- ===== src/Volume/Mounting.antt =====
-- storage.py: the repair of an owned volume, the data that is in its way, its mount, and the whole
-- of `_ensure_volume_lv`.
pub mod Untouched
pub mod Cleanup
pub mod Promise
pub mod Capped
pub mod Owned
use sbnb.Prelude.{
  ℕ, Bool, true, false, not, ◌&&◌, ◌||◌, Option, none, some, List, [], ◌∷◌, ltb, ◌==◌,
  if◌then◌else◌,
}
use sbnb.Volume.{
  Reply, raised, code, Mount, no_answer, on_device, elsewhere, not_mounted, Event, created,
  formatted, mounted, repaired, log_reset, marked, moved, restored, looked, seen, World, Request,
  Outcome, returned, unavailable, failed, succeeded, require_new_volume_cleanup,
  remember_owned_volume, keep_if_owned, resolve_new_volume_mount_failure,
}

-- `_repair_owned_xfs_volume`, with the reply of the first `xfs_repair`
pub repair_log : World → Reply → List Event → List Event × Bool
unfolding succeeded
repair_log w raised es = (es, false)
repair_log w (code n) es =
    if n == 2 then (log_reset ∷ es, succeeded (w.xfs_repair (log_reset ∷ es))) else (es, n == 0)

pub repair_marked : World → List Event → List Event × Bool
unfolding repair_log
repair_marked w es =
    if w.marker_made
    then repair_log w (w.xfs_repair (repaired ∷ marked ∷ es)) (repaired ∷ marked ∷ es)
    else (marked ∷ es, false)

pub repair_unmounted : World → Mount → List Event → List Event × Bool
unfolding repair_marked
repair_unmounted w not_mounted es =
    if w.is_xfs then repair_marked w (looked ∷ es) else (looked ∷ es, false)
repair_unmounted w _ es = (looked ∷ es, false)

unfoldable pub repair_owned_xfs_volume : World → Request → List Event → List Event × Bool
unfolding repair_unmounted
repair_owned_xfs_volume w r es =
    if r.valid_path && r.managed_name && r.has_node && r.has_xfs_repair
    then repair_unmounted w (w.findmnt es) es
    else (es, false)

-- `_preserve_owned_volume_fallback`
owned : Option (Bool × Bool) → Bool
owned (some (true, true)) = true
owned _ = false

pub move_aside : World → List Event → List Event × Bool
move_aside w es =
    if w.rename_succeeds
    then (if w.makedirs_succeeds then (moved ∷ es, true) else (restored ∷ moved ∷ es, false))
    else (es, false)

unfoldable pub preserve_owned_volume_fallback : World → Request → List Event → List Event × Bool
unfolding move_aside owned
preserve_owned_volume_fallback w r es =
    if r.valid_path && r.managed_name && not r.is_link && w.docker_stopped && owned (w.tags es)
    then move_aside w es
    else (es, false)

-- the last part: the volume is mounted
pub finish : World → Request → Bool → Bool → List Event → List Event × Outcome
unfolding keep_if_owned remember_owned_volume
finish w r true answer es = keep_if_owned w answer (remember_owned_volume w r es)
finish w r false answer es = ((remember_owned_volume w r es).0, returned answer)

pub mount_again : World → Request → Bool → List Event × Bool → List Event × Outcome
unfolding finish succeeded
mount_again w r answer (es, false) = (es, unavailable)
mount_again w r answer (es, true) =
    if succeeded (w.mount es)
    then finish w r false answer (mounted ∷ es)
    else (mounted ∷ es, unavailable)

pub mount_failed : World → Request → Bool → Bool → Bool → List Event → List Event × Outcome
unfolding mount_again resolve_new_volume_mount_failure repair_owned_xfs_volume
mount_failed w r true was_raised answer es = resolve_new_volume_mount_failure w r answer es
mount_failed w r false true answer es = (es, unavailable)
mount_failed w r false false answer es = mount_again w r answer (repair_owned_xfs_volume w r es)

pub mount_reply : World → Request → Bool → Bool → Reply → List Event → List Event × Outcome
unfolding mount_failed finish
mount_reply w r created_here answer raised es = mount_failed w r created_here true answer es
mount_reply w r created_here answer (code n) es =
    if n == 0
    then finish w r created_here answer es
    else mount_failed w r created_here false answer es

-- from `os.makedirs` on
unfoldable pub mount_volume : World → Request → Bool → Bool → List Event → List Event × Outcome
unfolding mount_reply
mount_volume w r created_here answer es =
    mount_reply w r created_here answer (w.mount es) (mounted ∷ es)

-- `actual is None or actual > desired`
pub exceeds : Option ℕ → ℕ → Bool
exceeds none desired = true
exceeds (some actual) desired = ltb desired actual

-- `if not lv_exists`, once the size is known
pub format_reply : World → Request → Reply → List Event → List Event × Outcome
unfolding mount_volume require_new_volume_cleanup
format_reply w r raised es = require_new_volume_cleanup w failed es
format_reply w r (code n) es =
    if n == 0
    then mount_volume w r true true es
    else require_new_volume_cleanup w (returned false) es

pub create_reply : World → Request → ℕ → Reply → List Event → List Event × Outcome
unfolding format_reply exceeds require_new_volume_cleanup
create_reply w r desired raised es = require_new_volume_cleanup w failed es
create_reply w r desired (code n) es =
    if not (n == 0)
    then require_new_volume_cleanup w (returned false) es
    else if r.capped && exceeds (w.virtual_size es) desired
    then require_new_volume_cleanup w (returned false) es
    else format_reply w r w.mkfs (formatted ∷ es)

pub create_volume : World → Request → Option ℕ → List Event → List Event × Outcome
unfolding create_reply
create_volume w r none es = (es, returned false)
create_volume w r (some desired) es = create_reply w r desired w.lvcreate (created ∷ es)

-- whether the cap is confirmed of the size that is read
pub confirmed : Option ℕ → Option ℕ → Bool
unfolding exceeds
confirmed none actual = false
confirmed (some desired) actual = not (exceeds actual desired)

-- an LV that exists, whose mount path holds no data
pub mount_existing : World → Request → List Event → List Event × Outcome
unfolding mount_volume confirmed
mount_existing w r es =
    mount_volume w r false (not r.capped || confirmed w.desired_size (w.virtual_size es)) es

pub mount_preserved : World → Request → List Event × Bool → List Event × Outcome
unfolding mount_existing
mount_preserved w r (es, true) = mount_existing w r es
mount_preserved w r (es, false) = (es, unavailable)

-- after the metadata are read
pub by_metadata : World → Request → Option Bool → List Event → List Event × Outcome
unfolding mount_existing mount_preserved create_volume preserve_owned_volume_fallback
by_metadata w r none es = (es, if r.expect_existing then unavailable else returned false)
by_metadata w r (some true) es =
    if w.has_data
    then (if r.recover_fallback
        then mount_preserved w r (preserve_owned_volume_fallback w r es)
        else (es, unavailable))
    else mount_existing w r es
by_metadata w r (some false) es =
    if r.expect_existing
    then (es, unavailable)
    else if w.has_data || not r.allow_create
    then (es, returned false)
    else create_volume w r w.desired_size es

-- after the first `findmnt`
pub by_mount : World → Request → Mount → List Event → List Event × Outcome
unfolding by_metadata remember_owned_volume confirmed
by_mount w r no_answer es = (es, if r.expect_existing then unavailable else failed)
by_mount w r on_device es =
    let after = (remember_owned_volume w r es).0 in
    (after, returned (not r.capped || confirmed w.desired_size (w.virtual_size after)))
by_mount w r elsewhere es =
    (es, if r.expect_existing then unavailable else returned (not r.capped && not r.allow_create))
by_mount w r not_mounted es = by_metadata w r (w.lv_metadata es) (seen (w.lv_metadata es) ∷ es)
by_mount w r _ es = (es, if r.expect_existing then unavailable else returned false)

-- `_ensure_volume_lv`
unfoldable pub ensure_volume_lv : World → Request → List Event × Outcome
unfolding by_mount
ensure_volume_lv w r =
    if r.has_thin_pool
    then by_mount w r (w.findmnt []) (looked ∷ [])
    else ([], if r.expect_existing then unavailable else returned false)
