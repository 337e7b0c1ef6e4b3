-- ===== src/Volume/Mounting/Promise.antt =====
-- When the mount of a volume (storage.py) is answered with True: only if the caller was to.
use sbnb.Prelude.{Bool, true, false, ◌≡◌, refl, List, ◌∷◌, arith, Bool-cases}
use sbnb.Volume.{
  Reply, raised, code, Mount, on_device, not_mounted, Event, looked, mounted, unmounted, World,
  Request, Outcome, returned, cleaned_with, require_new_volume_cleanup, remove_new_volume_lv,
  remove_mounted, remove_mounted_new_volume, keep_if_owned, resolve_failure,
  resolve_new_volume_mount_failure, remember_owned_volume,
}
use sbnb.Volume.Mounting.{finish, mount_again, mount_failed, mount_reply, repair_owned_xfs_volume}

abbrev pub says_true : Outcome → Bool
says_true (returned answer) = answer
says_true _ = false

module _ (w : World) where
  pub cleanup_denies :
      (o : Outcome) (es : List Event)
      → says_true o ≡ false
      → says_true (require_new_volume_cleanup w o es).1 ≡ false
  unfolding require_new_volume_cleanup cleaned_with
  cleanup_denies o es h = ground (arith, Bool-cases (remove_new_volume_lv w es).1)

  removal_denies : (m : Mount) (es : List Event) → says_true (remove_mounted w m es).1 ≡ false
  unfolding remove_mounted
  removal_denies Mount.no_answer es = refl
  removal_denies Mount.elsewhere es = refl
  removal_denies Mount.no_source es = refl
  removal_denies Mount.odd_code es = refl
  removal_denies not_mounted es = cleanup_denies (returned false) (looked ∷ es) refl
  removal_denies on_device es =
      ground (arith, cleanup_denies (returned false) (unmounted ∷ looked ∷ es) refl)

  kept_says :
      (answer : Bool) (es : List Event) (b : Bool)
      → says_true (keep_if_owned w answer (es, b)).1 ≡ true
      → answer ≡ true
  unfolding keep_if_owned remove_mounted_new_volume
  kept_says answer es true h = h
  kept_says answer es false h = ground (arith, removal_denies (w.findmnt es) es)

  module _ (r : Request) where
    finish_says :
        (created_here answer : Bool) (es : List Event)
        → says_true (finish w r created_here answer es).1 ≡ true
        → answer ≡ true
    unfolding finish
    finish_says true answer es h =
        kept_says answer (remember_owned_volume w r es).0 (remember_owned_volume w r es).1 h
    finish_says false answer es h = h

    resolve_says :
        (answer : Bool) (m : Mount) (es : List Event)
        → says_true (resolve_failure w r answer m es).1 ≡ true
        → answer ≡ true
    unfolding resolve_failure
    resolve_says answer Mount.no_answer es h = cc
    resolve_says answer Mount.elsewhere es h = cc
    resolve_says answer Mount.no_source es h = cc
    resolve_says answer Mount.odd_code es h = cc
    resolve_says answer not_mounted es h =
        ground (arith, cleanup_denies (returned false) (looked ∷ es) refl)
    resolve_says answer on_device es h =
        kept_says answer (remember_owned_volume w r (looked ∷ es)).0
          (remember_owned_volume w r (looked ∷ es)).1 h

    again_says :
        (answer ready : Bool) (es : List Event)
        → says_true (mount_again w r answer (es, ready)).1 ≡ true
        → answer ≡ true
    unfolding mount_again
    again_says answer false es h = cc
    again_says answer true es h = ground (arith, finish_says false answer (mounted ∷ es))

    failed_says :
        (created_here was_raised answer : Bool) (es : List Event)
        → says_true (mount_failed w r created_here was_raised answer es).1 ≡ true
        → answer ≡ true
    unfolding mount_failed resolve_new_volume_mount_failure
    failed_says true was_raised answer es h = resolve_says answer (w.findmnt es) es h
    failed_says false true answer es h = cc
    failed_says false false answer es h =
        again_says answer (repair_owned_xfs_volume w r es).1 (repair_owned_xfs_volume w r es).0 h

    pub reply_says :
        (created_here answer : Bool) (p : Reply) (es : List Event)
        → says_true (mount_reply w r created_here answer p es).1 ≡ true
        → answer ≡ true
    unfolding mount_reply
    reply_says created_here answer raised es h = failed_says created_here true answer es h
    reply_says created_here answer (code n) es h =
        ground (arith, finish_says created_here answer es, failed_says created_here false answer es)
