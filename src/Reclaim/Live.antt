-- ===== src/Reclaim/Live.antt =====
-- storage.py: the volumes of apps that the new desired state still names.
use sbnb.Prelude.{
  subst, String, Bool, true, false, not, ◌&&◌, ◌||◌, ◌≡◌, refl, ◌∙◌, some, List, [], ◌∷◌, ◌++◌,
  str_eq, arith, Bool-cases, inl, inr, eq_refl, eq_iff, elem, elem-append, any,
}
use sbnb.ApplyResults.Record.{Text, codes}
use sbnb.Reclaim.{
  managed_tag, uuids_of_instances, uuids_of_values, World, Desired, is_orphan, live_owner_tags,
  live_identifiers, managed_paths, uuids_of_paths, some_tag,
}
use sbnb.Reclaim.Paths.{
  is_managed_name, owner_tag_for_instance, owner_tag_for_path, search_app, collect_uuids, found,
  is_owner_tag,
}
use sbnb.Reclaim.Paths.Search.{tagged_by_search}

module _ (tag : Text → String) where
  live-append :
      (owner : String) (xs ys : List Text)
      → elem owner (live_owner_tags tag (xs ++ ys))
        ≡ (elem owner (live_owner_tags tag xs) || elem owner (live_owner_tags tag ys))
  unfolding live_owner_tags elem
  live-append owner [] ys = refl
  live-append owner (x ∷ xs) ys = ground (
    arith,
    live-append owner xs ys,
    elem-append owner (some_tag (owner_tag_for_instance tag x)) (live_owner_tags tag (xs ++ ys)),
    elem-append owner (some_tag (owner_tag_for_instance tag x)) (live_owner_tags tag xs),
  )

  live-found :
      (owner : String) (app : Text) (path : Text)
      → search_app path ≡ some app
      → owner_tag_for_instance tag app ≡ some owner
      → elem owner (live_owner_tags tag (found (search_app path))) ≡ true
  unfolding live_owner_tags some_tag elem found
  live-found owner app path e h = rw (e, h) (ground (arith, eq_refl owner))

  -- the owner of a managed path is live
  live_of_managed :
      (owner path : String) (managed : List String)
      → elem path managed ≡ true
      → owner_tag_for_path tag (codes path) ≡ some owner
      → elem owner (live_owner_tags tag (uuids_of_paths managed)) ≡ true
  unfolding uuids_of_paths elem collect_uuids
  live_of_managed owner path [] h o = ground arith
  live_of_managed owner path (p ∷ managed) h o =
      live-append owner (found (search_app (codes p))) (uuids_of_paths managed)
      ∙ (elim (Bool-cases (str_eq path p)) [
        | inl e ↦ ground (
          arith,
          subst
              (λ (x : String).
                elem owner (live_owner_tags tag (found (search_app (codes x)))) ≡ true)
              ((eq_iff path p).0 e) (live-found owner app.0 (codes path) app.1 app.2),
        )
        | inr e ↦ ground (arith, live_of_managed owner path managed, h, o)
      ])
    where
      app :
          (a : Text) × (search_app (codes path) ≡ some a)
          × (owner_tag_for_instance tag a ≡ some owner)
      app = tagged_by_search tag (codes path) owner o

any-elem :
    (p : String → Bool) (x : String) (xs : List String)
    → elem x xs ≡ true
    → p x ≡ true
    → any p xs ≡ true
unfolding elem any
any-elem p x [] h k = h
any-elem p x (y ∷ ys) h k = elim (Bool-cases (str_eq x y)) [
  | inl e ↦ ground (arith, subst (λ (z : String). p z ≡ true) ((eq_iff x y).0 e) k)
  | inr e ↦ ground (arith, any-elem p x ys, k)
]

last_refuses : (a b c d : Bool) → d ≡ true → (a && b && c && not d) ≡ false
last_refuses a b c d h = ground arith

-- an owner's tag that is live keeps a volume
kept_by_tag :
    (live : List String) (owner name : String) (tags : List String)
    → elem owner tags ≡ true
    → is_owner_tag owner ≡ true
    → elem owner live ≡ true
    → is_orphan live name tags ≡ false
unfolding is_orphan
kept_by_tag live owner name tags t o l =
    last_refuses (is_managed_name name) (elem managed_tag tags) (any is_owner_tag tags) _
      (any-elem (λ (x : String). is_owner_tag x && elem x live) owner tags t (ground (arith, o, l)))

-- When the new state backs up or caps a path, and the tag of the path's owner is an owner tag, no
-- volume that has this tag is an orphan: the app that `_collect_uuids` finds in the path is the one
-- whose tag the path gives.
pub live_volumes_kept :
    (w : World) (new : Desired) (backup : List String) (path owner name : String)
    (tags : List String)
    → elem path (managed_paths new backup) ≡ true
    → owner_tag_for_path w.tag (codes path) ≡ some owner
    → is_owner_tag owner ≡ true
    → elem owner tags ≡ true
    → is_orphan (live_owner_tags w.tag (live_identifiers new (managed_paths new backup))) name tags
      ≡ false
unfolding live_identifiers
live_volumes_kept w new backup path owner name tags p o i t =
    let managed = managed_paths new backup in
    kept_by_tag _ owner name tags t i (
      ground (
        arith,
        live_of_managed w.tag owner path managed p o,
        live-append w.tag owner (uuids_of_paths managed) (uuids_of_values new.app_volumes),
        live-append w.tag owner (uuids_of_paths managed ++ uuids_of_values new.app_volumes)
            (uuids_of_instances new.instances),
      ))
