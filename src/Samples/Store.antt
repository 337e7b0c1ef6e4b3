-- ===== src/Samples/Store.antt =====
-- Samples for the artifact store.
use sbnb.Prelude.{ℕ, String, List, map, inr, arith, true, ◌≡◌, refl, some, [], ◌∷◌, elem, inl}
use sbnb.Artifacts.{Manifest, Store, World, gc}
use sbnb.Artifacts.Kept.{IsIn, gc_keeps_blobs}
use sbnb.Artifacts.Retained.{gc_keeps_manifests}

abbrev manifest : Manifest
manifest = record { digest_hex = "a"; identity = "app/x"; layers = some "b" ∷ []; last_used_at = 1 }

abbrev store : Store
store = record { manifests = manifest ∷ []; blobs = "b" ∷ "c" ∷ [] }

abbrev world : World
world = record { mounted = λ d i. true; unmounts = λ d i. true; unlinks = λ b. true }

abbrev used_at : String → ℕ → Manifest
used_at digest time = record manifest { digest_hex = digest; last_used_at = time }

-- Five manifests of one identity. The third most recent is not protected; the oldest goes.
abbrev five : Store
five = record {
  manifests = used_at "p" 5 ∷ used_at "q" 1 ∷ used_at "r" 7 ∷ used_at "s" 3 ∷ used_at "t" 9 ∷ [];
  blobs = [];
}

abbrev digests_left : Store → List String
digests_left s = map (λ (m : Manifest). m.digest_hex) s.manifests

oldest_go : digests_left (gc world [] five) ≡ "p" ∷ "r" ∷ "t" ∷ []
unfolding elem gc
oldest_go = refl

gc_keeps_manifests_example : IsIn (used_at "p" 5) (gc world [] five).manifests
unfolding elem
gc_keeps_manifests_example =
    gc_keeps_manifests world [] five (used_at "p" 5) (inl refl) (inr (omega arith))

gc_keeps_blobs_example : elem "b" (gc world ("a" ∷ []) store).blobs ≡ true
unfolding elem gc
gc_keeps_blobs_example = gc_keeps_blobs world ("a" ∷ []) store manifest "b" (inl refl) refl refl
