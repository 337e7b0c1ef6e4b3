-- ===== src/Volume/Mounting/Untouched.antt =====
-- A logical volume that is there, or may be there, before a call of `_ensure_volume_lv` (storage.py).
use sbnb.Prelude.{◌∙◌, Bool, true, false, ◌≡◌, refl, Option, none, some, List, [], ◌∷◌, arith}
use sbnb.Volume.{
  Reply, raised, code, Mount, on_device, not_mounted, Event, created, removed, formatted, looked,
  mounted, marked, repaired, seen, World, Request, remember_owned_volume, remember_tags, is_absent,
}
use sbnb.Volume.Mounting.{
  repair_log, repair_marked, repair_unmounted, repair_owned_xfs_volume, move_aside,
  preserve_owned_volume_fallback, finish, mount_again, mount_failed, mount_reply, mount_volume,
  mount_existing, mount_preserved, by_metadata, by_mount, ensure_volume_lv,
}

-- No volume is created, removed or formatted.
unfoldable pub harmless : List Event → Bool
harmless [] = true
harmless (created ∷ es) = false
harmless (removed ∷ es) = false
harmless (formatted ∷ es) = false
harmless (e ∷ es) = harmless es

module _ (w : World) (r : Request) where
  pub harmless-remember :
      (es : List Event) → harmless (remember_owned_volume w r es).0 ≡ harmless es
  unfolding remember_owned_volume remember_tags harmless
  harmless-remember es = ground arith

  harmless-repair_log : (p : Reply) (es : List Event) → harmless (repair_log w p es).0 ≡ harmless es
  unfolding repair_log harmless
  harmless-repair_log raised es = refl
  harmless-repair_log (code n) es = ground arith

  harmless-repair : (es : List Event) → harmless (repair_owned_xfs_volume w r es).0 ≡ harmless es
  unfolding repair_owned_xfs_volume repair_unmounted repair_marked harmless
  harmless-repair es = ground (
    arith,
    harmless-repair_log (w.xfs_repair (repaired ∷ marked ∷ looked ∷ es))
        (repaired ∷ marked ∷ looked ∷ es),
  )

  harmless-preserve :
      (es : List Event) → harmless (preserve_owned_volume_fallback w r es).0 ≡ harmless es
  unfolding preserve_owned_volume_fallback move_aside harmless
  harmless-preserve es = ground arith

  harmless-finish :
      (answer : Bool) (es : List Event) → harmless (finish w r false answer es).0 ≡ harmless es
  unfolding finish
  harmless-finish answer es = harmless-remember es

  harmless-mount_again :
      (answer ready : Bool) (es : List Event)
      → harmless (mount_again w r answer (es, ready)).0 ≡ harmless es
  unfolding mount_again harmless
  harmless-mount_again answer false es = refl
  harmless-mount_again answer true es = ground (arith, harmless-finish answer (mounted ∷ es))

  harmless-mount_failed :
      (was_raised answer : Bool) (es : List Event)
      → harmless (mount_failed w r false was_raised answer es).0 ≡ harmless es
  unfolding mount_failed
  harmless-mount_failed true answer es = refl
  harmless-mount_failed false answer es =
      harmless-mount_again answer (repair_owned_xfs_volume w r es).1
        (repair_owned_xfs_volume w r es).0
      ∙ harmless-repair es

  harmless-mount_reply :
      (answer : Bool) (p : Reply) (es : List Event)
      → harmless (mount_reply w r false answer p es).0 ≡ harmless es
  unfolding mount_reply
  harmless-mount_reply answer raised es = harmless-mount_failed true answer es
  harmless-mount_reply answer (code n) es =
      ground (arith, harmless-finish answer es, harmless-mount_failed false answer es)

  pub harmless-mount :
      (answer : Bool) (es : List Event)
      → harmless (mount_volume w r false answer es).0 ≡ harmless es
  unfolding mount_volume harmless
  harmless-mount answer es = harmless-mount_reply answer (w.mount es) (mounted ∷ es)

  harmless-existing : (es : List Event) → harmless (mount_existing w r es).0 ≡ harmless es
  unfolding mount_existing
  harmless-existing es = harmless-mount _ es

  harmless-preserved :
      (es : List Event) (ready : Bool) → harmless (mount_preserved w r (es, ready)).0 ≡ harmless es
  unfolding mount_preserved
  harmless-preserved es true = harmless-existing es
  harmless-preserved es false = refl

  pub harmless-by_metadata :
      (m : Option Bool) (es : List Event)
      → is_absent m ≡ false
      → harmless (by_metadata w r m es).0 ≡ harmless es
  unfolding by_metadata
  harmless-by_metadata none es h = refl
  harmless-by_metadata (some false) es h = cc
  harmless-by_metadata (some true) es h = ground (
    arith,
    harmless-existing es,
    harmless-preserved (preserve_owned_volume_fallback w r es).0
        (preserve_owned_volume_fallback w r es).1,
    harmless-preserve es,
  )

  by_mount-harmless :
      (m : Mount)
      → is_absent (w.lv_metadata (looked ∷ [])) ≡ false
      → harmless (by_mount w r m (looked ∷ [])).0 ≡ true
  unfolding by_mount harmless
  by_mount-harmless Mount.no_answer h = refl
  by_mount-harmless on_device h = harmless-remember (looked ∷ [])
  by_mount-harmless Mount.elsewhere h = refl
  by_mount-harmless Mount.no_source h = refl
  by_mount-harmless Mount.odd_code h = refl
  by_mount-harmless not_mounted h =
      harmless-by_metadata (w.lv_metadata (looked ∷ []))
        (seen (w.lv_metadata (looked ∷ [])) ∷ looked ∷ []) h

-- Unless the LVM metadata, read after the path was found not mounted, say that the volume is
-- absent, a call creates, removes and formats no volume, whatever the commands answer.
pub existing_untouched :
    (w : World) (r : Request)
    → is_absent (w.lv_metadata (looked ∷ [])) ≡ false
    → harmless (ensure_volume_lv w r).0 ≡ true
unfolding ensure_volume_lv harmless
existing_untouched w r h = ground (arith, by_mount-harmless w r (w.findmnt []) h)

-- the same, however the metadata read, for a call that may not create
module _ (w : World) (r : Request) (forbidden : r.allow_create ≡ false) where
  harmless-uncreating :
      (m : Option Bool) (es : List Event) → harmless (by_metadata w r m es).0 ≡ harmless es
  unfolding by_metadata
  harmless-uncreating none es = harmless-by_metadata w r none es refl
  harmless-uncreating (some true) es = harmless-by_metadata w r (some true) es refl
  harmless-uncreating (some false) es = ground arith

  by_mount-uncreating : (m : Mount) → harmless (by_mount w r m (looked ∷ [])).0 ≡ true
  unfolding by_mount harmless
  by_mount-uncreating Mount.no_answer = refl
  by_mount-uncreating on_device = harmless-remember w r (looked ∷ [])
  by_mount-uncreating Mount.elsewhere = refl
  by_mount-uncreating Mount.no_source = refl
  by_mount-uncreating Mount.odd_code = refl
  by_mount-uncreating not_mounted =
      harmless-uncreating (w.lv_metadata (looked ∷ []))
        (seen (w.lv_metadata (looked ∷ [])) ∷ looked ∷ [])

  -- a call that may not create leaves what is there
  pub uncreating_harmless : harmless (ensure_volume_lv w r).0 ≡ true
  unfolding ensure_volume_lv harmless
  uncreating_harmless = ground (arith, by_mount-uncreating (w.findmnt []))
