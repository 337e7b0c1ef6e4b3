-- ===== src/Volume/Mounting/Owned.antt =====
-- An owned volume, which `_ensure_volume_lv` (storage.py) must find (`expect_existing`).
use sbnb.Prelude.{
  ap, sym, ◌∙◌, ◌==◌, Bool, true, false, not, ◌||◌, ◌≡◌, refl, Option, none, some, List, [], ◌∷◌,
  Bool-cases, inl, inr, ◌⊎◌,
}
use sbnb.Volume.{
  Reply, raised, code, Mount, on_device, not_mounted, Event, looked, mounted, seen, World, Request,
  Outcome, returned, succeeded,
}
use sbnb.Volume.Mounting.{
  confirmed, mount_again, mount_failed, mount_reply, mount_volume, mount_existing, mount_preserved,
  by_metadata, by_mount, ensure_volume_lv, repair_owned_xfs_volume, preserve_owned_volume_fallback,
}

abbrev is_answer : Outcome → Bool
is_answer (returned answer) = true
is_answer _ = false

-- The volume was found at its path, or its mount there succeeded.
abbrev pub IsMounted : World → Type 0
IsMounted w = (w.findmnt [] ≡ on_device) ⊎ ((es : List Event) × (succeeded (w.mount es) ≡ true))

module _ (w : World) (r : Request) where
  again-IsMounted :
      (answer ready : Bool) (es : List Event)
      → is_answer (mount_again w r answer (es, ready)).1 ≡ true
      → IsMounted w
  unfolding mount_again
  again-IsMounted answer false es h = cc
  again-IsMounted answer true es h = elim (Bool-cases (succeeded (w.mount es))) [
    | inl e ↦ inr (es, e)
    | inr e ↦ cc (rw e at h)
  ]

  reply-IsMounted :
      (answer : Bool) (p : Reply) (before es : List Event)
      → p ≡ w.mount before
      → is_answer (mount_reply w r false answer p es).1 ≡ true
      → IsMounted w
  unfolding mount_reply mount_failed
  reply-IsMounted answer raised before es e h = cc
  reply-IsMounted answer (code n) before es e h = elim (Bool-cases (n == 0)) [
    | inl z ↦ inr (before, ap succeeded (sym e) ∙ z)
    | inr z ↦
        again-IsMounted answer (repair_owned_xfs_volume w r es).1 (repair_owned_xfs_volume w r es).0
          (rw z at h)
  ]

  existing-IsMounted : (es : List Event) → is_answer (mount_existing w r es).1 ≡ true → IsMounted w
  unfolding mount_existing mount_volume
  existing-IsMounted es h =
      reply-IsMounted (not r.capped || confirmed w.desired_size (w.virtual_size es)) (w.mount es) es
        (mounted ∷ es) refl h

  preserved-IsMounted :
      (es : List Event) (ready : Bool)
      → is_answer (mount_preserved w r (es, ready)).1 ≡ true
      → IsMounted w
  unfolding mount_preserved
  preserved-IsMounted es true h = existing-IsMounted es h
  preserved-IsMounted es false h = cc

  module _ (owned : r.expect_existing ≡ true) where
    metadata-IsMounted :
        (m : Option Bool) (es : List Event)
        → is_answer (by_metadata w r m es).1 ≡ true
        → IsMounted w
    unfolding by_metadata
    metadata-IsMounted none es h = cc (rw owned at h)
    metadata-IsMounted (some false) es h = cc (rw owned at h)
    metadata-IsMounted (some true) es h = elim (Bool-cases w.has_data) [
      | inr e ↦ existing-IsMounted es (rw e at h)
      | inl e ↦ elim (Bool-cases r.recover_fallback) [
        | inl f ↦
            preserved-IsMounted (preserve_owned_volume_fallback w r es).0
              (preserve_owned_volume_fallback w r es).1 (rw (e, f) at h)
        | inr f ↦ cc (rw (e, f) at h)
      ]
    ]

    mount-IsMounted :
        (m : Mount)
        → w.findmnt [] ≡ m
        → is_answer (by_mount w r m (looked ∷ [])).1 ≡ true
        → IsMounted w
    unfolding by_mount
    mount-IsMounted Mount.no_answer e h = cc (rw owned at h)
    mount-IsMounted Mount.elsewhere e h = cc (rw owned at h)
    mount-IsMounted Mount.no_source e h = cc (rw owned at h)
    mount-IsMounted Mount.odd_code e h = cc (rw owned at h)
    mount-IsMounted on_device e h = inl e
    mount-IsMounted not_mounted e h =
        metadata-IsMounted (w.lv_metadata (looked ∷ []))
          (seen (w.lv_metadata (looked ∷ [])) ∷ looked ∷ []) h

-- When a call for a volume that must exist gives an answer, the volume was found at its path or its
-- mount there succeeded.
pub owned_never_falls_back :
    (w : World) (r : Request) (answer : Bool)
    → r.expect_existing ≡ true
    → (ensure_volume_lv w r).1 ≡ returned answer
    → IsMounted w
unfolding ensure_volume_lv
owned_never_falls_back w r answer owned h = elim (Bool-cases r.has_thin_pool) [
  | inl e ↦ mount-IsMounted w r owned (w.findmnt []) refl (ap is_answer (rw e at h))
  | inr e ↦ cc (rw (e, owned) at h)
]
