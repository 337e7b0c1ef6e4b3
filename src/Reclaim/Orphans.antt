-- ===== src/Reclaim/Orphans.antt =====
-- storage.py: which volumes `_reclaim_deleted_instance_lvs` removes.
use sbnb.Prelude.{
  ◌++◌, ◌∙◌, zero, suc, ◌∙◌, suc, String, Bool, true, false, ◌&&◌, ◌≡◌, refl, Option, none, some,
  List, [], ◌∷◌, str_eq, arith, Bool-cases, inl, inr, eq_refl,
}
use sbnb.Prelude.Dict.{keys, Dict, lookup}
use sbnb.Volume.{Reply, raised, code}
use sbnb.Reclaim.{
  seed_paths, sort_names, codes, owner_tag_for_path, Inspection, failed, nowhere, targets, Event,
  listed, inspected, unmounted, removed, World, Desired, is_orphan, tags_of, unmount_reply,
  unmount_each, release, remove_released, reclaim_volume, reclaim_each, reclaim_listed, list_again,
  seed, seed_and_reclaim, reclaim_deleted_instance_lvs, remember_missing, remember_tags,
  remember_owner, remember_owned_volume, live_owner_tags, live_identifiers, managed_paths,
}

-- the tags of a volume in the latest reading of the metadata
abbrev pub read_tags : String → Option (Dict (List String)) → List String
read_tags name none = []
read_tags name (some metadata) = tags_of (lookup name metadata)

unfoldable pub known_tags : String → List Event → List String
known_tags name [] = []
known_tags name (listed m ∷ es) = read_tags name m
known_tags name (e ∷ es) = known_tags name es

abbrev same_names : List String → List String → Bool
same_names [] [] = true
same_names (x ∷ xs) (y ∷ ys) = str_eq x y && same_names xs ys
same_names _ _ = false

-- The volume was inspected last, and each of its mounts was undone since; `done` is undone later.
abbrev answers : String → List String → String → Inspection → Bool
answers name done lv failed = false
answers name done lv nowhere = str_eq lv name && same_names done []
answers name done lv (targets ts) = str_eq lv name && same_names done ts

unfoldable pub is_released : String → List String → List Event → Bool
is_released name done [] = false
is_released name done (unmounted t ok ∷ es) = ok && is_released name (t ∷ done) es
is_released name done (inspected lv answer ∷ es) = answers name done lv answer
is_released name done (e ∷ es) = false

-- Each removal is of a volume that its tags show to be an orphan, and that is mounted nowhere.
unfoldable pub is_justified : List String → List Event → Bool
is_justified live [] = true
is_justified live (removed name ∷ es) =
    is_orphan live name (known_tags name es) && is_released name [] es && is_justified live es
is_justified live (e ∷ es) = is_justified live es

same_names_refl : (xs : List String) → same_names (xs ++ []) xs ≡ true
same_names_refl [] = refl
same_names_refl (x ∷ xs) = ground (arith, same_names_refl xs, eq_refl x)

module _ (live : List String) (w : World) where
  justified-remember_missing :
      (lv : String) (missing : List String) (es : List Event)
      → is_justified live (remember_missing w lv missing es) ≡ is_justified live es
  unfolding remember_missing is_justified
  justified-remember_missing lv [] es = refl
  justified-remember_missing lv (t ∷ ts) es = refl

  justified-remember_tags :
      (lv owner : String) (tags : Option (List String)) (es : List Event)
      → is_justified live (remember_tags w lv owner tags es) ≡ is_justified live es
  unfolding remember_tags
  justified-remember_tags lv owner none es = refl
  justified-remember_tags lv owner (some tags) es = justified-remember_missing lv _ es

  justified-remember_owner :
      (lv : String) (owner : Option String) (es : List Event)
      → is_justified live (remember_owner w lv owner es) ≡ is_justified live es
  unfolding remember_owner
  justified-remember_owner lv none es = refl
  justified-remember_owner lv (some owner) es =
      justified-remember_tags lv owner (w.volume_tags es lv) es

  justified-seed :
      (metadata : Dict (List String)) (paths : List String) (es : List Event)
      → is_justified live (seed w metadata paths es) ≡ is_justified live es
  unfolding seed remember_owned_volume
  justified-seed metadata [] es = refl
  justified-seed metadata (p ∷ paths) es = ground (
    arith,
    justified-seed metadata paths es,
    justified-seed metadata paths (remember_owned_volume w p es),
    justified-remember_owner (w.volume_lv_name p) (owner_tag_for_path w.tag (codes p)) es,
  )

  -- what the undoing of the mounts leaves
  module _ (name : String) where
    abbrev Undoes : (List Event → Bool) → List Event → List Event × Bool → Type 0
    Undoes goal es x =
        (is_justified live x.0 ≡ is_justified live es)
        × ((n : String) → known_tags n x.0 ≡ known_tags n es)
        × (x.1 ≡ true → goal x.0 ≡ true)

    Undoes-reply :
        (done : List String) (t : String) (ts : List String) (r : Reply) (es : List Event)
        (next : List Event → List Event × Bool)
        → ((fs : List Event)
            → is_released name (ts ++ done) fs ≡ true
            → Undoes (is_released name done) fs (next fs))
        → is_released name (t ∷ ts ++ done) es ≡ true
        → Undoes (is_released name done) es (unmount_reply t r es next)
    unfolding unmount_reply is_justified known_tags is_released
    Undoes-reply done t ts raised es next h k = (refl, λ n. refl, λ e. ground arith)
    Undoes-reply done t ts (code zero) es next h k = h (unmounted t true ∷ es) k
    Undoes-reply done t ts (code (suc n)) es next h k = (refl, λ n. refl, λ e. ground arith)

    Undoes-unmount_each :
        (done ts : List String) (es : List Event)
        → is_released name (ts ++ done) es ≡ true
        → Undoes (is_released name done) es (unmount_each w ts es)
    unfolding unmount_each
    Undoes-unmount_each done [] es k = (refl, λ n. refl, λ e. k)
    Undoes-unmount_each done (t ∷ ts) es k =
        Undoes-reply done t ts (w.umount es t) es (unmount_each w ts) (Undoes-unmount_each done ts)
          k

    -- a release that succeeds leaves the volume mounted nowhere
    Undoes-release :
        (answer : Inspection) (es : List Event)
        → Undoes (is_released name []) es (release w answer (inspected name answer ∷ es))
    unfolding release is_released is_justified known_tags
    Undoes-release failed es = (refl, λ n. refl, λ e. ground arith)
    Undoes-release nowhere es = (refl, λ n. refl, λ e. ground (arith, eq_refl name))
    Undoes-release (targets ts) es =
        Undoes-unmount_each [] ts (inspected name (targets ts) ∷ es)
          (ground (arith, eq_refl name, same_names_refl ts))

    -- the removal, when the tags that were read make it an orphan
    justified-removal :
        (es : List Event) (x : List Event × Bool)
        → is_orphan live name (known_tags name es) ≡ true
        → is_justified live es ≡ true
        → Undoes (is_released name []) es x
        → is_justified live (remove_released w name x) ≡ true
    unfolding remove_released is_justified
    justified-removal es (fs, false) o j h = h.0 ∙ j
    justified-removal es (fs, true) o j h = ground (arith, h.0, h.2 refl, h.1 name)

    known-removal :
        (n : String) (x : List Event × Bool)
        → known_tags n (remove_released w name x) ≡ known_tags n x.0
    unfolding remove_released known_tags
    known-removal n (fs, true) = refl
    known-removal n (fs, false) = refl

  known-reclaim_volume :
      (name n : String) (es : List Event)
      → known_tags n (reclaim_volume w name es) ≡ known_tags n es
  unfolding reclaim_volume
  known-reclaim_volume name n es =
      known-removal name n (release w (w.findmnt es name) (inspected name (w.findmnt es name) ∷ es))
      ∙ (Undoes-release name (w.findmnt es name) es).1 n

  justified-reclaim_volume :
      (name : String) (es : List Event)
      → is_orphan live name (known_tags name es) ≡ true
      → is_justified live es ≡ true
      → is_justified live (reclaim_volume w name es) ≡ true
  unfolding reclaim_volume
  justified-reclaim_volume name es o j =
      justified-removal name es
        (release w (w.findmnt es name) (inspected name (w.findmnt es name) ∷ es)) o j
        (Undoes-release name (w.findmnt es name) es)

  -- While no new reading is made, the tags that are known are those of the last one.
  justified-reclaim_each :
      (metadata : Dict (List String)) (names : List String) (es : List Event)
      → ((n : String) → known_tags n es ≡ tags_of (lookup n metadata))
      → is_justified live es ≡ true
      → is_justified live (reclaim_each w live metadata names es) ≡ true
  unfolding reclaim_each
  justified-reclaim_each metadata [] es k j = j
  justified-reclaim_each metadata (name ∷ names) es k j =
      elim (Bool-cases (is_orphan live name (tags_of (lookup name metadata)))) [
        | inr e ↦ rw e (justified-reclaim_each metadata names es k j)
        | inl e ↦ rw e (
            justified-reclaim_each metadata names _ (λ n. known-reclaim_volume name n es ∙ k n)
              (justified-reclaim_volume name es (ground (arith, k name)) j))
      ]

  justified-reclaim_listed :
      (metadata : Option (Dict (List String))) (es : List Event)
      → is_justified live es ≡ true
      → is_justified live (reclaim_listed w live metadata (listed metadata ∷ es)) ≡ true
  unfolding reclaim_listed is_justified known_tags
  justified-reclaim_listed none es j = j
  justified-reclaim_listed (some metadata) es j =
      justified-reclaim_each metadata (sort_names (keys metadata)) (listed (some metadata) ∷ es)
        (λ n. refl) j

  justified-seed_and_reclaim :
      (paths : List String) (metadata : Option (Dict (List String))) (es : List Event)
      → is_justified live es ≡ true
      → is_justified live (seed_and_reclaim w live paths metadata es) ≡ true
  unfolding seed_and_reclaim list_again
  justified-seed_and_reclaim paths none es j = j
  justified-seed_and_reclaim paths (some metadata) es j =
      let seeded = seed w metadata paths es in
      justified-reclaim_listed (w.metadata seeded) seeded (justified-seed metadata paths es ∙ j)

-- Whatever the commands answer, each logical volume that a reclaim removes was, in the latest
-- reading of the metadata, a managed one with the tag of an owner and without the tag of any live
-- owner, and it was inspected just before and unmounted from each of its mount points.
pub only_orphans_removed :
    (w : World) (old new : Desired) (backup : List String)
    → is_justified
        (live_owner_tags w.tag (live_identifiers new (managed_paths new backup)))
        (reclaim_deleted_instance_lvs w old new backup)
      ≡ true
unfolding reclaim_deleted_instance_lvs is_justified
only_orphans_removed w old new backup = elim (Bool-cases w.has_thin_pool) [
  | inl e ↦ rw e (
      justified-seed_and_reclaim _ w (seed_paths old new (managed_paths new backup)) (w.metadata [])
        (listed (w.metadata []) ∷ []) refl)
  | inr e ↦ rw e refl
]
