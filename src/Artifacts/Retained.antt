-- ===== src/Artifacts/Retained.antt =====
-- Which manifests the garbage collection of artifacts (artifacts.py) retains.
use sbnb.Artifacts.Newest.{as_recent, newest_of-has}
use sbnb.Prelude.{
  ◌≤◌, elem-append, String, true, ◌≡◌, List, [], ◌∷◌, ◌++◌, arith, Bool-cases, inl, inr, ◌⊎◌, elem,
  str_eq, eq_iff, eq_refl, if◌then◌else◌, subst,
}
use sbnb.Artifacts.{
  Manifest, Store, World, newest_of, identities_of, newest_of_each, retained_digests, gc,
}
use sbnb.Artifacts.Kept.{IsIn, left-of_retained}

identities-keep :
    (ms : List Manifest) (i : String) (seen : List String)
    → elem i seen ≡ true
    → elem i (identities_of ms seen) ≡ true
unfolding identities_of elem
identities-keep [] i seen h = h
identities-keep (m ∷ ms) i seen h =
    identities-keep ms i (if elem m.identity seen then seen else seen ++ m.identity ∷ [])
      (ground (arith, elem-append i seen (m.identity ∷ []), h))

identities-has :
    (ms : List Manifest) (m : Manifest) (seen : List String)
    → IsIn m ms
    → elem m.identity (identities_of ms seen) ≡ true
unfolding identities_of elem
identities-has [] m seen h = absurd h
identities-has (x ∷ ms) m seen (inl same) =
    identities-keep ms m.identity (if elem x.identity seen then seen else seen ++ x.identity ∷ []) (
      subst
        (λ y.
          elem y.identity (if elem x.identity seen then seen else seen ++ x.identity ∷ []) ≡ true)
        same (ground (arith, elem-append x.identity seen (x.identity ∷ []), eq_refl x.identity)))
identities-has (x ∷ ms) m seen (inr h) =
    identities-has ms m (if elem x.identity seen then seen else seen ++ x.identity ∷ []) h

newest_of_each-has :
    (ms : List Manifest) (d i : String) (identities : List String)
    → elem i identities ≡ true
    → elem d (newest_of ms i) ≡ true
    → elem d (newest_of_each ms identities) ≡ true
unfolding newest_of_each elem
newest_of_each-has ms d i [] h e = cc
newest_of_each-has ms d i (x ∷ identities) h e = elim (Bool-cases (str_eq i x)) [
  | inl q ↦ ground (
    arith,
    elem-append d (newest_of ms x) (newest_of_each ms identities),
    subst (λ y. elem d (newest_of ms y) ≡ true) ((eq_iff i x).0 q) e,
  )
  | inr q ↦ ground (
    arith,
    elem-append d (newest_of ms x) (newest_of_each ms identities),
    newest_of_each-has ms d i identities (ground arith) e,
  )
]

retained_if :
    (protected : List String) (ms : List Manifest) (m : Manifest)
    → IsIn m ms
    → (elem m.digest_hex protected ≡ true) ⊎ (elem m.digest_hex (newest_of ms m.identity) ≡ true)
    → elem m.digest_hex (retained_digests protected ms) ≡ true
unfolding retained_digests
retained_if protected ms m i (inl h) =
    ground (arith, elem-append m.digest_hex protected (newest_of_each ms (identities_of ms [])))
retained_if protected ms m i (inr h) = ground (
  arith,
  elem-append m.digest_hex protected (newest_of_each ms (identities_of ms [])),
  newest_of_each-has ms m.digest_hex m.identity (identities_of ms []) (identities-has ms m [] i) h,
)

-- A manifest outlives a garbage collection when it is protected, or when at most three manifests of
-- its identity, itself counted, were last used at its time or later.
pub gc_keeps_manifests :
    (w : World) (protected : List String) (s : Store) (m : Manifest)
    → IsIn m s.manifests
    → (elem m.digest_hex protected ≡ true) ⊎ (as_recent m.identity m.last_used_at s.manifests ≤ 3)
    → IsIn m (gc w protected s).manifests
unfolding gc
gc_keeps_manifests w protected s m i (inl h) =
    left-of_retained w (retained_digests protected s.manifests) s.manifests m i
      (retained_if protected s.manifests m i (inl h))
gc_keeps_manifests w protected s m i (inr h) =
    left-of_retained w (retained_digests protected s.manifests) s.manifests m i
      (retained_if protected s.manifests m i (inr (newest_of-has s.manifests m i h)))
