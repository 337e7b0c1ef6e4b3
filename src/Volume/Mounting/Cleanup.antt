-- ===== src/Volume/Mounting/Cleanup.antt =====
-- A new logical volume that a call of `_ensure_volume_lv` (storage.py) cannot put to use.
use sbnb.Prelude.{
  not, ◌∙◌, ℕ, Bool, true, false, ◌≡◌, refl, Option, none, some, List, [], ◌∷◌, arith,
}
use sbnb.Volume.{
  Reply, raised, code, Mount, on_device, not_mounted, Event, created, removed, formatted, looked,
  mounted, unmounted, seen, World, Request, Outcome, returned, unavailable, failed, is_absent,
  remove_seen, cleaned_with, require_new_volume_cleanup, remove_new_volume_lv, remove_mounted,
  remove_mounted_new_volume, keep_if_owned, resolve_failure, resolve_new_volume_mount_failure,
  remember_owned_volume,
}
use sbnb.Volume.Mounting.{
  finish, mount_failed, mount_reply, mount_volume, format_reply, create_reply, create_volume,
  by_metadata, by_mount, ensure_volume_lv,
}
use sbnb.Volume.Mounting.Untouched.{harmless, harmless-remember, harmless-by_metadata}

-- No volume was created, or after the last creation LVM said that it is absent.
unfoldable pub is_clean : List Event → Bool
is_clean [] = true
is_clean (created ∷ es) = false
is_clean (seen (some false) ∷ es) = true
is_clean (e ∷ es) = is_clean es

-- The call ends with its own storage not in use, and the caller may go on.
abbrev pub fell_back : Outcome → Bool
fell_back (returned answer) = not answer
fell_back unavailable = false
fell_back failed = true

clean_of_harmless : (es : List Event) → harmless es ≡ true → is_clean es ≡ true
unfolding harmless is_clean
clean_of_harmless [] h = refl
clean_of_harmless (created ∷ es) h = cc
clean_of_harmless (removed ∷ es) h = cc
clean_of_harmless (formatted ∷ es) h = cc
clean_of_harmless (Event.mounted ∷ es) h = clean_of_harmless es h
clean_of_harmless (Event.unmounted ∷ es) h = clean_of_harmless es h
clean_of_harmless (Event.repaired ∷ es) h = clean_of_harmless es h
clean_of_harmless (Event.log_reset ∷ es) h = clean_of_harmless es h
clean_of_harmless (Event.tagged ∷ es) h = clean_of_harmless es h
clean_of_harmless (Event.marked ∷ es) h = clean_of_harmless es h
clean_of_harmless (Event.moved ∷ es) h = clean_of_harmless es h
clean_of_harmless (Event.restored ∷ es) h = clean_of_harmless es h
clean_of_harmless (Event.looked ∷ es) h = clean_of_harmless es h
clean_of_harmless (seen none ∷ es) h = clean_of_harmless es h
clean_of_harmless (seen (some true) ∷ es) h = clean_of_harmless es h
clean_of_harmless (seen (some false) ∷ es) h = refl

clean_of_absent :
    (m : Option Bool) (es : List Event) → is_absent m ≡ true → is_clean (seen m ∷ es) ≡ true
unfolding is_absent is_clean
clean_of_absent none es h = cc
clean_of_absent (some true) es h = cc
clean_of_absent (some false) es h = refl

-- the outcome, and what it says of the events
abbrev IsTidy : List Event × Outcome → Type 0
IsTidy (es, o) = fell_back o ≡ true → is_clean es ≡ true

module _ (w : World) where
  clean_of_removal :
      (m : Option Bool) (es : List Event)
      → (remove_seen w m es).1 ≡ true
      → is_clean (remove_seen w m es).0 ≡ true
  unfolding remove_seen is_clean
  clean_of_removal none es h = cc
  clean_of_removal (some false) es h = refl
  clean_of_removal (some true) es h = clean_of_absent _ (removed ∷ seen (some true) ∷ es) h

  IsTidy-cleaned :
      (o : Outcome) (es : List Event) (b : Bool)
      → (b ≡ true → is_clean es ≡ true)
      → IsTidy (cleaned_with o (es, b))
  unfolding cleaned_with
  IsTidy-cleaned o es true h f = h refl
  IsTidy-cleaned o es false h f = cc

  IsTidy-cleanup : (o : Outcome) (es : List Event) → IsTidy (require_new_volume_cleanup w o es)
  unfolding require_new_volume_cleanup remove_new_volume_lv
  IsTidy-cleanup o es =
      IsTidy-cleaned o (remove_seen w (w.lv_metadata es) es).0
        (remove_seen w (w.lv_metadata es) es).1 (clean_of_removal (w.lv_metadata es) es)

  IsTidy-removed : (m : Mount) (es : List Event) → IsTidy (remove_mounted w m es)
  unfolding remove_mounted
  IsTidy-removed Mount.no_answer es f = cc
  IsTidy-removed Mount.elsewhere es f = cc
  IsTidy-removed Mount.no_source es f = cc
  IsTidy-removed Mount.odd_code es f = cc
  IsTidy-removed not_mounted es f = IsTidy-cleanup (returned false) (looked ∷ es) f
  IsTidy-removed on_device es f =
      ground (arith, IsTidy-cleanup (returned false) (unmounted ∷ looked ∷ es))

  IsTidy-keep : (es : List Event) (b : Bool) → IsTidy (keep_if_owned w true (es, b))
  unfolding keep_if_owned remove_mounted_new_volume
  IsTidy-keep es true f = cc
  IsTidy-keep es false f = IsTidy-removed (w.findmnt es) es f

  module _ (r : Request) where
    IsTidy-resolve : (m : Mount) (es : List Event) → IsTidy (resolve_failure w r true m es)
    unfolding resolve_failure
    IsTidy-resolve Mount.no_answer es f = cc
    IsTidy-resolve Mount.elsewhere es f = cc
    IsTidy-resolve Mount.no_source es f = cc
    IsTidy-resolve Mount.odd_code es f = cc
    IsTidy-resolve not_mounted es f = IsTidy-cleanup (returned false) (looked ∷ es) f
    IsTidy-resolve on_device es f =
        IsTidy-keep (remember_owned_volume w r (looked ∷ es)).0
          (remember_owned_volume w r (looked ∷ es)).1 f

    IsTidy-finish : (es : List Event) → IsTidy (finish w r true true es)
    unfolding finish
    IsTidy-finish es = IsTidy-keep (remember_owned_volume w r es).0 (remember_owned_volume w r es).1

    IsTidy-mount_reply : (p : Reply) (es : List Event) → IsTidy (mount_reply w r true true p es)
    unfolding mount_reply mount_failed resolve_new_volume_mount_failure
    IsTidy-mount_reply raised es f = IsTidy-resolve (w.findmnt es) es f
    IsTidy-mount_reply (code n) es f =
        ground (arith, IsTidy-finish es, IsTidy-resolve (w.findmnt es) es)

    IsTidy-format_reply : (p : Reply) (es : List Event) → IsTidy (format_reply w r p es)
    unfolding format_reply mount_volume
    IsTidy-format_reply raised es f = IsTidy-cleanup failed es f
    IsTidy-format_reply (code n) es f =
        ground (
          arith,
          IsTidy-mount_reply (w.mount es) (mounted ∷ es),
          IsTidy-cleanup (returned false) es,
        )

    IsTidy-create_reply :
        (desired : ℕ) (p : Reply) (es : List Event) → IsTidy (create_reply w r desired p es)
    unfolding create_reply
    IsTidy-create_reply desired raised es f = IsTidy-cleanup failed es f
    IsTidy-create_reply desired (code n) es f =
        ground
          (arith, IsTidy-format_reply w.mkfs (formatted ∷ es), IsTidy-cleanup (returned false) es)

    IsTidy-create :
        (size : Option ℕ) (es : List Event)
        → is_clean es ≡ true
        → IsTidy (create_volume w r size es)
    unfolding create_volume
    IsTidy-create none es h f = h
    IsTidy-create (some desired) es h f = IsTidy-create_reply desired w.lvcreate (created ∷ es) f

    IsTidy-absent :
        (es : List Event) → harmless es ≡ true → IsTidy (by_metadata w r (some false) es)
    unfolding by_metadata
    IsTidy-absent es h f = ground (arith, clean_of_harmless es h, IsTidy-create w.desired_size es)

    IsTidy-by_metadata :
        (m : Option Bool) (es : List Event) → harmless es ≡ true → IsTidy (by_metadata w r m es)
    unfolding is_absent
    IsTidy-by_metadata none es h f = clean_of_harmless _ (harmless-by_metadata w r none es refl ∙ h)
    IsTidy-by_metadata (some true) es h f =
        clean_of_harmless _ (harmless-by_metadata w r (some true) es refl ∙ h)
    IsTidy-by_metadata (some false) es h f = IsTidy-absent es h f

    IsTidy-by_mount : (m : Mount) → IsTidy (by_mount w r m (looked ∷ []))
    unfolding by_mount is_clean harmless
    IsTidy-by_mount Mount.no_answer f = refl
    IsTidy-by_mount Mount.elsewhere f = refl
    IsTidy-by_mount Mount.no_source f = refl
    IsTidy-by_mount Mount.odd_code f = refl
    IsTidy-by_mount on_device f =
        clean_of_harmless (remember_owned_volume w r (looked ∷ [])).0
          (harmless-remember w r (looked ∷ []))
    IsTidy-by_mount not_mounted f =
        IsTidy-by_metadata (w.lv_metadata (looked ∷ []))
          (seen (w.lv_metadata (looked ∷ [])) ∷ looked ∷ []) refl f

-- When a call answers False or ends with another exception than the one for an unavailable volume,
-- no volume was created, or after its creation LVM said that it is absent.
pub failure_leaves_no_volume :
    (w : World) (r : Request)
    → fell_back (ensure_volume_lv w r).1 ≡ true
    → is_clean (ensure_volume_lv w r).0 ≡ true
unfolding ensure_volume_lv is_clean
failure_leaves_no_volume w r h = ground (arith, IsTidy-by_mount w r (w.findmnt []))
