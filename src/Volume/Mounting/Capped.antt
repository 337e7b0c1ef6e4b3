-- ===== src/Volume/Mounting/Capped.antt =====
-- A capped volume for which `_ensure_volume_lv` (storage.py) answers True.
use sbnb.Prelude.{
  sym, ap, ◌≢◌, if◌then◌else◌, ℕ, Bool, true, false, not, ◌||◌, ◌≡◌, ◌≤◌, refl, Option, none, some,
  List, [], ◌∷◌, arith, Bool-cases, inl, inr,
}
use sbnb.Volume.{
  Reply, raised, code, Mount, on_device, not_mounted, Event, created, looked, mounted, seen, World,
  Request, returned, unavailable, failed, remember_owned_volume,
}
use sbnb.Volume.Mounting.{
  exceeds, confirmed, mount_volume, mount_existing, mount_preserved, create_reply, create_volume,
  by_metadata, by_mount, ensure_volume_lv, preserve_owned_volume_fallback,
}
use sbnb.Volume.Mounting.Promise.{says_true, cleanup_denies, reply_says}

-- The size that LVM reported is at most the size that the cap allows.
abbrev pub IsCapped : World → Type 0
IsCapped w =
    (desired : ℕ) × (w.desired_size ≡ some desired)
    × ((es : List Event) × ((actual : ℕ) × (w.virtual_size es ≡ some actual) × (actual ≤ desired)))

size_of_fitting :
    (a : Option ℕ) (desired : ℕ)
    → exceeds a desired ≡ false
    → (actual : ℕ) × (a ≡ some actual) × (actual ≤ desired)
unfolding exceeds
size_of_fitting none desired h = cc
size_of_fitting (some a) desired h = (a, refl, ground arith)

sizes_of_confirmed :
    (d a : Option ℕ)
    → confirmed d a ≡ true
    → (desired : ℕ) × (d ≡ some desired) × (exceeds a desired ≡ false)
unfolding confirmed
sizes_of_confirmed none a h = cc
sizes_of_confirmed (some d) a h = (d, refl, ground arith)

denied : (b : Bool) → says_true (if b then unavailable else returned false) ≢ true
denied b h = ground arith

denied_failed : (b : Bool) → says_true (if b then unavailable else failed) ≢ true
denied_failed b h = ground arith

module _ (w : World) (r : Request) (capped : r.capped ≡ true) where
  confirmed-IsCapped :
      (es : List Event) → confirmed w.desired_size (w.virtual_size es) ≡ true → IsCapped w
  confirmed-IsCapped es h =
      let (d, e, fits) = sizes_of_confirmed w.desired_size (w.virtual_size es) h in
      (d, e, (es, size_of_fitting (w.virtual_size es) d fits))

  existing_says :
      (es : List Event)
      → says_true (mount_existing w r es).1 ≡ true
      → confirmed w.desired_size (w.virtual_size es) ≡ true
  unfolding mount_existing mount_volume
  existing_says es h = ground (
    arith,
    reply_says w r false (not r.capped || confirmed w.desired_size (w.virtual_size es)) (w.mount es)
        (mounted ∷ es) h,
    capped,
  )

  existing-IsCapped : (es : List Event) → says_true (mount_existing w r es).1 ≡ true → IsCapped w
  existing-IsCapped es h = confirmed-IsCapped es (existing_says es h)

  preserved-IsCapped :
      (es : List Event) (ready : Bool)
      → says_true (mount_preserved w r (es, ready)).1 ≡ true
      → IsCapped w
  unfolding mount_preserved
  preserved-IsCapped es true h = existing-IsCapped es h
  preserved-IsCapped es false h = cc

  create_says :
      (desired : ℕ) (p : Reply) (es : List Event)
      → says_true (create_reply w r desired p es).1 ≡ true
      → exceeds (w.virtual_size es) desired ≡ false
  unfolding create_reply
  create_says desired raised es h = ground (arith, cleanup_denies w failed es refl)
  create_says desired (code n) es h =
      ground (arith, cleanup_denies w (returned false) es refl, capped)

  create-IsCapped :
      (size : Option ℕ) (es : List Event)
      → size ≡ w.desired_size
      → says_true (create_volume w r size es).1 ≡ true
      → IsCapped w
  unfolding create_volume confirmed
  create-IsCapped none es e h = cc
  create-IsCapped (some d) es e h =
      let fits = create_says d w.lvcreate (created ∷ es) h in
      (d, sym e, (created ∷ es, size_of_fitting (w.virtual_size (created ∷ es)) d fits))

  absent-IsCapped :
      (es : List Event) → says_true (by_metadata w r (some false) es).1 ≡ true → IsCapped w
  unfolding by_metadata
  absent-IsCapped es h = elim (Bool-cases r.expect_existing) [
    | inl e ↦ cc (rw e at h)
    | inr e ↦ elim (Bool-cases (w.has_data || not r.allow_create)) [
      | inl f ↦ cc (rw (e, f) at h)
      | inr f ↦ create-IsCapped w.desired_size es refl (rw (e, f) at h)
    ]
  ]

  present-IsCapped :
      (es : List Event) → says_true (by_metadata w r (some true) es).1 ≡ true → IsCapped w
  unfolding by_metadata
  present-IsCapped es h = elim (Bool-cases w.has_data) [
    | inr e ↦ existing-IsCapped es (rw e at h)
    | inl e ↦ elim (Bool-cases r.recover_fallback) [
      | inl f ↦
          preserved-IsCapped (preserve_owned_volume_fallback w r es).0
            (preserve_owned_volume_fallback w r es).1 (rw (e, f) at h)
      | inr f ↦ cc (rw (e, f) at h)
    ]
  ]

  metadata-IsCapped :
      (m : Option Bool) (es : List Event) → says_true (by_metadata w r m es).1 ≡ true → IsCapped w
  unfolding by_metadata
  metadata-IsCapped none es h = absurd (denied r.expect_existing h)
  metadata-IsCapped (some true) es h = present-IsCapped es h
  metadata-IsCapped (some false) es h = absent-IsCapped es h

  mount-IsCapped : (m : Mount) → says_true (by_mount w r m (looked ∷ [])).1 ≡ true → IsCapped w
  unfolding by_mount
  mount-IsCapped Mount.no_answer h = absurd (denied_failed r.expect_existing h)
  mount-IsCapped Mount.elsewhere h = ground (arith, capped)
  mount-IsCapped Mount.no_source h = absurd (denied r.expect_existing h)
  mount-IsCapped Mount.odd_code h = absurd (denied r.expect_existing h)
  mount-IsCapped on_device h =
      confirmed-IsCapped (remember_owned_volume w r (looked ∷ [])).0 (rw capped at h)
  mount-IsCapped not_mounted h =
      metadata-IsCapped (w.lv_metadata (looked ∷ []))
        (seen (w.lv_metadata (looked ∷ [])) ∷ looked ∷ []) h

-- When a call for a capped volume answers True, the size that the cap allows was known, and the
-- size that LVM reported is at most that.
pub true_means_capped :
    (w : World) (r : Request)
    → r.capped ≡ true
    → (ensure_volume_lv w r).1 ≡ returned true
    → IsCapped w
unfolding ensure_volume_lv
true_means_capped w r capped h = elim (Bool-cases r.has_thin_pool) [
  | inl e ↦ mount-IsCapped w r capped (w.findmnt []) (ap says_true (rw e at h))
  | inr e ↦ absurd (denied r.expect_existing (ap says_true (rw e at h)))
]
