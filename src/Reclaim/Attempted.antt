-- ===== src/Reclaim/Attempted.antt =====
-- storage.py: a volume that cannot be removed does not keep the others of `_reclaim_deleted_instance_lvs`.
use sbnb.Prelude.{
  subst, zero, suc, suc, String, Bool, true, false, ◌||◌, ◌≡◌, refl, sym, ◌∙◌, some, List, [], ◌∷◌,
  str_eq, arith, Bool-cases, inl, inr, eq_iff, elem,
}
use mathlib.Core.Bool.{true≢false}
use sbnb.Prelude.Dict.{Dict, lookup, keys}
use sbnb.Volume.{Reply, raised, code}
use sbnb.Project.{sort_names}
use sbnb.Project.Rounds.{elem-sort_names}
use sbnb.Reclaim.{
  seed_and_reclaim, Inspection, failed, nowhere, targets, Event, listed, inspected, unmounted,
  World, is_orphan, tags_of, unmount_reply, unmount_each, release, remove_released, reclaim_volume,
  reclaim_each, reclaim_listed, seed, list_again,
}

abbrev pub inspects : String → Event → Bool
inspects name (inspected lv answer) = str_eq lv name
inspects name _ = false

-- The mounts of the volume were looked at.
abbrev pub was_inspected : String → List Event → Bool
was_inspected name [] = false
was_inspected name (e ∷ es) = inspects name e || was_inspected name es

or_true : (a b : Bool) → b ≡ true → (a || b) ≡ true
or_true a b h = ground arith

or_false : (a b : Bool) → a ≡ false → (a || b) ≡ true → b ≡ true
or_false a b h k = ground arith

module _ (w : World) (name : String) where
  inspected-reply :
      (t : String) (r : Reply) (es : List Event) (next : List Event → List Event × Bool)
      → ((fs : List Event) → was_inspected name (next fs).0 ≡ was_inspected name fs)
      → was_inspected name (unmount_reply t r es next).0 ≡ was_inspected name es
  unfolding unmount_reply
  inspected-reply t raised es next h = refl
  inspected-reply t (code zero) es next h = h (unmounted t true ∷ es)
  inspected-reply t (code (suc n)) es next h = refl

  inspected-unmount_each :
      (ts : List String) (es : List Event)
      → was_inspected name (unmount_each w ts es).0 ≡ was_inspected name es
  unfolding unmount_each
  inspected-unmount_each [] es = refl
  inspected-unmount_each (t ∷ ts) es =
      inspected-reply t (w.umount es t) es (unmount_each w ts) (inspected-unmount_each ts)

  inspected-release :
      (answer : Inspection) (es : List Event)
      → was_inspected name (release w answer es).0 ≡ was_inspected name es
  unfolding release
  inspected-release failed es = refl
  inspected-release nowhere es = refl
  inspected-release (targets ts) es = inspected-unmount_each ts es

  inspected-removal :
      (lv : String) (x : List Event × Bool)
      → was_inspected name (remove_released w lv x) ≡ was_inspected name x.0
  unfolding remove_released
  inspected-removal lv (es, true) = refl
  inspected-removal lv (es, false) = refl

  -- a volume that is taken is inspected, and what was inspected stays so
  inspected-reclaim_volume :
      (lv : String) (es : List Event)
      → was_inspected name (reclaim_volume w lv es) ≡ (str_eq lv name || was_inspected name es)
  unfolding reclaim_volume
  inspected-reclaim_volume lv es =
      inspected-removal lv (release w (w.findmnt es lv) (inspected lv (w.findmnt es lv) ∷ es))
      ∙ inspected-release (w.findmnt es lv) (inspected lv (w.findmnt es lv) ∷ es)

  inspected_before :
      (live : List String) (metadata : Dict (List String)) (names : List String) (es : List Event)
      → was_inspected name es ≡ true
      → was_inspected name (reclaim_each w live metadata names es) ≡ true
  unfolding reclaim_each
  inspected_before live metadata [] es h = h
  inspected_before live metadata (n ∷ names) es h =
      elim (Bool-cases (is_orphan live n (tags_of (lookup n metadata)))) [
        | inr e ↦ rw e (inspected_before live metadata names es h)
        | inl e ↦ rw e (
            inspected_before live metadata names (reclaim_volume w n es)
              (inspected-reclaim_volume n es ∙ or_true (str_eq n name) _ h))
      ]

  inspected-reclaim_each :
      (live : List String) (metadata : Dict (List String)) (names : List String) (es : List Event)
      → elem name names ≡ true
      → is_orphan live name (tags_of (lookup name metadata)) ≡ true
      → was_inspected name (reclaim_each w live metadata names es) ≡ true
  unfolding reclaim_each elem
  inspected-reclaim_each live metadata [] es h o = ground arith
  inspected-reclaim_each live metadata (n ∷ names) es h o =
      elim (Bool-cases (is_orphan live n (tags_of (lookup n metadata)))) [
        | inl e ↦ rw e (elim (Bool-cases (str_eq name n)) [
          | inl same ↦
              inspected_before live metadata names (reclaim_volume w n es)
                (inspected-reclaim_volume n es ∙ ground (arith, eq_iff name n, eq_iff n name, same))
          | inr other ↦
              inspected-reclaim_each live metadata names (reclaim_volume w n es)
                (or_false (str_eq name n) _ other h) o
        ])
        | inr e ↦ rw e (
            inspected-reclaim_each live metadata names es
              (elim (Bool-cases (str_eq name n)) [
                | inl same ↦ absurd (
                    true≢false (
                      sym o
                      ∙ subst
                          (λ (x : String). is_orphan live x (tags_of (lookup x metadata)) ≡ false)
                          (sym ((eq_iff name n).0 same)) e))
                | inr other ↦ or_false (str_eq name n) _ other h
              ])
              o)
      ]

-- A volume that the second reading of the metadata shows to be an orphan has its mounts looked at,
-- whatever happens to the volumes before it: one that cannot be unmounted or removed does not keep
-- the others.
pub every_orphan_attempted :
    (w : World) (live paths : List String) (first metadata : Dict (List String)) (name : String)
    → w.metadata (seed w first paths (listed (some first) ∷ [])) ≡ some metadata
    → elem name (keys metadata) ≡ true
    → is_orphan live name (tags_of (lookup name metadata)) ≡ true
    → was_inspected name (seed_and_reclaim w live paths (some first) (listed (some first) ∷ []))
      ≡ true
unfolding seed_and_reclaim list_again reclaim_listed
every_orphan_attempted w live paths first metadata name m k o = rw m (
    inspected-reclaim_each w name live metadata (sort_names (keys metadata)) _
      (elem-sort_names name (keys metadata) ∙ k) o)
