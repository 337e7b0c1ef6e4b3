-- ===== src/Reclaim/Paths/Search.antt =====
-- storage.py: the app that a volume's path names is the one that `_collect_uuids` finds in it.
use sbnb.Prelude.{
  if◌then◌else◌, String, Bool, true, false, ◌≡◌, refl, sym, Option, none, some, [], ◌∷◌, ◌++◌,
  arith,
}
use mathlib.Core.Bool.{true≢false}
use mathlib.Core.Option.{some-injective}
use sbnb.Devices.{same_text}
use sbnb.ApplyResults.Record.{Text}
use sbnb.Reclaim.Paths.{
  same_text, after_prefix, cut_at_slash, apps_prefix, valid_owned_volume_path,
  owner_tag_for_instance, owner_tag_for_path, tag_of_relative, search_app, match_app, group_of,
  closed_segment, or_else, is_relative_root, is_two_segments, is_segment,
}

after_prefix_lem : (p t r : Text) → after_prefix p t ≡ some r → t ≡ p ++ r
unfolding after_prefix
after_prefix_lem [] t r h = some-injective t r h
after_prefix_lem (c ∷ p) [] r h = ground arith
after_prefix_lem (c ∷ p) (d ∷ t) r h = ground (arith, after_prefix_lem p t r)

search-prefix :
    (r seg : Text)
    → closed_segment (cut_at_slash r) ≡ some seg
    → search_app (apps_prefix ++ r) ≡ some seg
unfolding search_app match_app group_of or_else after_prefix
search-prefix r seg h = rw h refl

-- two segments, the first of which is not empty
closed_by_two : (x : Text × Option Text) → is_two_segments x ≡ true → closed_segment x ≡ some x.0
unfolding is_two_segments closed_segment is_segment same_text
closed_by_two (segment, none) h = ground arith
closed_by_two ([], some rest) h = ground arith
closed_by_two (c ∷ segment, some rest) h = refl

taken_branch :
    (b : Bool) (x : Option String) (owner : String)
    → (if b then x else none) ≡ some owner
    → (b ≡ true) × (x ≡ some owner)
taken_branch true x owner h = (refl, h)
taken_branch false x owner h = ground arith

module _ (tag : Text → String) where
  tagged_by_relative :
      (path : Text) (relative : Option Text) (owner : String)
      → after_prefix apps_prefix path ≡ relative
      → is_relative_root relative ≡ true
      → tag_of_relative tag relative ≡ some owner
      → (app : Text) × (search_app path ≡ some app) × (owner_tag_for_instance tag app ≡ some owner)
  unfolding is_relative_root tag_of_relative
  tagged_by_relative path none owner e v h = absurd (true≢false (sym v))
  tagged_by_relative path (some r) owner e v h = (
    (cut_at_slash r).0,
    rw (after_prefix_lem apps_prefix path r e)
        (search-prefix r (cut_at_slash r).0 (closed_by_two (cut_at_slash r) v)),
    h,
  )

  -- the owner's tag of a path is that of the app that a search finds in it
  pub tagged_by_search :
      (path : Text) (owner : String)
      → owner_tag_for_path tag path ≡ some owner
      → (app : Text) × (search_app path ≡ some app) × (owner_tag_for_instance tag app ≡ some owner)
  unfolding owner_tag_for_path valid_owned_volume_path
  tagged_by_search path owner h =
      let given = taken_branch (valid_owned_volume_path path) _ owner h in
      tagged_by_relative path (after_prefix apps_prefix path) owner refl given.0 given.1
