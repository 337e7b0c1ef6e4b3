-- ===== src/Artifacts.antt =====
-- artifacts.py: the garbage collection of the artifact store, `ArtifactManager.gc`. The names that
-- `_protected_digests` gives, what is mounted and which commands succeed are given. A digest stands by
-- its hex form; none is a layer whose digest is refused.
pub mod Kept
pub mod Newest
pub mod Retained
use sbnb.Prelude.{
  ℕ, zero, suc, String, Bool, true, false, not, ◌&&◌, Option, none, some, List, [], ◌∷◌, ◌++◌, ltb,
  if◌then◌else◌, elem, str_eq, take, filter,
}

pub record Manifest : Type 0 where
  pub digest_hex : String
  pub identity : String
  pub layers : List (Option String)
  pub last_used_at : ℕ

pub record Store : Type 0 where
  pub manifests : List Manifest
  pub blobs : List String

pub record World : Type 0 where
  pub mounted : String → ℕ → Bool
  pub unmounts : String → ℕ → Bool
  -- whether the file of a blob can be removed
  pub unlinks : String → Bool

-- `values.sort(key=last_used_at, reverse=True)`, which keeps the order of equal ones
insert_newest : Manifest → List Manifest → List Manifest
insert_newest m [] = m ∷ []
insert_newest m (x ∷ xs) =
    let rest = insert_newest m xs in
    if ltb m.last_used_at x.last_used_at then x ∷ rest else m ∷ x ∷ xs

pub newest_first : List Manifest → List Manifest
unfolding insert_newest
newest_first [] = []
newest_first (m ∷ ms) = insert_newest m (newest_first ms)

pub digests : List Manifest → List String
digests [] = []
digests (m ∷ ms) = m.digest_hex ∷ digests ms

-- the keys of `identities`
identities_of : List Manifest → List String → List String
identities_of [] seen = seen
identities_of (m ∷ ms) seen =
    identities_of ms (if elem m.identity seen then seen else seen ++ m.identity ∷ [])

-- the three that are kept of an identity
pub newest_of : List Manifest → String → List String
unfolding newest_first digests filter
newest_of manifests identity =
    digests (take 3 (newest_first (filter (λ m. str_eq m.identity identity) manifests)))

newest_of_each : List Manifest → List String → List String
unfolding newest_of
newest_of_each manifests [] = []
newest_of_each manifests (identity ∷ identities) =
    newest_of manifests identity ++ newest_of_each manifests identities

unfoldable pub retained_digests : List String → List Manifest → List String
unfolding newest_of_each identities_of
retained_digests protected manifests =
    protected ++ newest_of_each manifests (identities_of manifests [])

-- whether each mounted layer of a manifest is unmounted, the last first
unmount_layers : World → String → List (Option String) → ℕ → Bool
unmount_layers w digest [] index = true
unmount_layers w digest (l ∷ layers) index =
    let later = unmount_layers w digest layers (suc index) in
    if later then (if w.mounted digest index then w.unmounts digest index else true) else false

pub record Swept : Type 0 where
  pub manifests : List Manifest
  pub removed_manifests : List String
  -- an ArtifactError ends the loop
  pub failed : Bool

keep : Manifest → Swept → Swept
keep m s = record s { manifests = m ∷ s.manifests }

drop_manifest : Manifest → Swept → Swept
drop_manifest m s = record s { removed_manifests = m.digest_hex ∷ s.removed_manifests }

pub sweep_on : Bool → Bool → Manifest → List Manifest → Swept → Swept
unfolding keep drop_manifest
sweep_on true unmounted m ms rest = keep m rest
sweep_on false true m ms rest = drop_manifest m rest
sweep_on false false m ms rest = record {
  manifests = m ∷ ms;
  removed_manifests = [];
  failed = true;
}

-- the loop that removes manifests
pub sweep : World → List String → List Manifest → Swept
unfolding sweep_on unmount_layers
sweep w retained [] = record { manifests = []; removed_manifests = []; failed = false }
sweep w retained (m ∷ ms) =
    sweep_on (elem m.digest_hex retained) (unmount_layers w m.digest_hex m.layers 0) m ms
      (sweep w retained ms)

add_layers : List (Option String) → Option (List String) → Option (List String)
add_layers layers none = none
add_layers [] (some blobs) = some blobs
add_layers (none ∷ layers) (some blobs) = none
add_layers (some l ∷ layers) (some blobs) = elim (add_layers layers (some blobs)) [
  | none ↦ none
  | some rest ↦ some (l ∷ rest)
]

-- `referenced_blobs`; none where a digest is refused
pub referenced_blobs : List String → List Manifest → Option (List String)
unfolding add_layers
referenced_blobs retained [] = some []
referenced_blobs retained (m ∷ ms) =
    let rest = referenced_blobs retained ms in
    if elem m.digest_hex retained then add_layers m.layers rest else rest

-- the loop over the blobs
pub sweep_blobs : World → List String → List String → List String
sweep_blobs w referenced [] = []
sweep_blobs w referenced (b ∷ blobs) =
    let rest = sweep_blobs w referenced blobs in
    if elem b referenced then b ∷ rest else if w.unlinks b then rest else b ∷ rest

pub blobs_after : World → Bool → Option (List String) → List String → List String
unfolding sweep_blobs
blobs_after w true referenced blobs = blobs
blobs_after w false none blobs = blobs
blobs_after w false (some referenced) blobs = sweep_blobs w referenced blobs

-- `gc`: the store that it leaves
unfoldable pub gc : World → List String → Store → Store
unfolding retained_digests sweep blobs_after referenced_blobs
gc w protected s =
    let retained = retained_digests protected s.manifests in
    let swept = sweep w retained s.manifests in
    record {
      manifests = swept.manifests;
      blobs = blobs_after w swept.failed (referenced_blobs retained s.manifests) s.blobs;
    }
