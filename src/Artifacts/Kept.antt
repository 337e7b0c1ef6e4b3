-- ===== src/Artifacts/Kept.antt =====
-- What the garbage collection of artifacts (artifacts.py) keeps.
use mathlib.Core.Option.{some-injective}
use sbnb.Prelude.{
  String, Bool, true, false, ◌||◌, ◌≡◌, refl, Option, none, some, List, [], ◌∷◌, arith, Bool-cases,
  Option-cases, inl, inr, ◌⊎◌, elem, str_eq, eq_iff, eq_refl, sym, ◌∙◌, subst,
}
use sbnb.Artifacts.{
  Manifest, Store, World, retained_digests, unmount_layers, Swept, keep, drop_manifest, sweep_on,
  sweep, add_layers, referenced_blobs, sweep_blobs, blobs_after, gc,
}

abbrev pub IsIn : Manifest → List Manifest → Type 0
IsIn m [] = ⊥
IsIn m (x ∷ xs) = (x ≡ m) ⊎ IsIn m xs

abbrev pub has_layer : String → List (Option String) → Bool
has_layer l [] = false
has_layer l (none ∷ layers) = has_layer l layers
has_layer l (some x ∷ layers) = str_eq l x || has_layer l layers

true_is_no_false : ¬ (false ≡ true)
true_is_no_false h = ground arith

module _ (w : World) (retained : List String) where
  left_on :
      (stays unmounted : Bool) (x : Manifest) (ms : List Manifest) (m : Manifest) (rest : Swept)
      → elem x.digest_hex retained ≡ stays
      → (rest.failed ≡ false
          → IsIn m rest.manifests
          → IsIn m ms × (elem m.digest_hex retained ≡ true))
      → (sweep_on stays unmounted x ms rest).failed ≡ false
      → IsIn m (sweep_on stays unmounted x ms rest).manifests
      → IsIn m (x ∷ ms) × (elem m.digest_hex retained ≡ true)
  unfolding sweep_on keep drop_manifest
  left_on true unmounted x ms m rest s k f (inl same) =
      (inl same, subst (λ y. elem y.digest_hex retained ≡ true) same s)
  left_on true unmounted x ms m rest s k f (inr h) = let (i, e) = k f h in (inr i, e)
  left_on false true x ms m rest s k f h = let (i, e) = k f h in (inr i, e)
  left_on false false x ms m rest s k f h = cc

  stays_on :
      (stays unmounted : Bool) (x : Manifest) (ms : List Manifest) (m : Manifest) (rest : Swept)
      → elem x.digest_hex retained ≡ stays
      → elem m.digest_hex retained ≡ true
      → (IsIn m ms → IsIn m rest.manifests)
      → IsIn m (x ∷ ms)
      → IsIn m (sweep_on stays unmounted x ms rest).manifests
  unfolding sweep_on keep drop_manifest
  stays_on true unmounted x ms m rest s e k (inl same) = inl same
  stays_on true unmounted x ms m rest s e k (inr h) = inr (k h)
  stays_on false true x ms m rest s e k (inl same) =
      absurd (true_is_no_false (sym (subst (λ y. elem y.digest_hex retained ≡ false) same s) ∙ e))
  stays_on false true x ms m rest s e k (inr h) = k h
  stays_on false false x ms m rest s e k h = h

  -- a manifest that is left after the loop ended was retained
  retained_of_left :
      (ms : List Manifest) (m : Manifest)
      → (sweep w retained ms).failed ≡ false
      → IsIn m (sweep w retained ms).manifests
      → IsIn m ms × (elem m.digest_hex retained ≡ true)
  unfolding sweep
  retained_of_left [] m f h = absurd h
  retained_of_left (x ∷ ms) m f h =
      left_on (elem x.digest_hex retained) (unmount_layers w x.digest_hex x.layers 0) x ms m
        (sweep w retained ms) refl (retained_of_left ms m) f h

  pub left-of_retained :
      (ms : List Manifest) (m : Manifest)
      → IsIn m ms
      → elem m.digest_hex retained ≡ true
      → IsIn m (sweep w retained ms).manifests
  unfolding sweep
  left-of_retained [] m h e = absurd h
  left-of_retained (x ∷ ms) m h e =
      stays_on (elem x.digest_hex retained) (unmount_layers w x.digest_hex x.layers 0) x ms m
        (sweep w retained ms) refl e (λ i. left-of_retained ms m i e) h

  layers-add_layers :
      (l : String) (layers : List (Option String)) (r : Option (List String)) (blobs : List String)
      → add_layers layers r ≡ some blobs
      → has_layer l layers ≡ true
      → elem l blobs ≡ true
  unfolding add_layers elem
  layers-add_layers l layers none blobs h e = cc
  layers-add_layers l [] (some r) blobs h e = cc
  layers-add_layers l (none ∷ layers) (some r) blobs h e = cc
  layers-add_layers l (some x ∷ layers) (some r) blobs h e =
      elim (Option-cases (add_layers layers (some r))) [
        | inl f ↦ cc (rw (f, add_layers) at h)
        | inr (q, f) ↦
            let same : x ∷ q ≡ blobs = some-injective _ _ (rw (f, add_layers) at h) in
            subst (λ b. elem l b ≡ true) same
              (ground (arith, layers-add_layers l layers (some r) q f))
      ]

  kept-add_layers :
      (l : String) (layers : List (Option String)) (r blobs : List String)
      → add_layers layers (some r) ≡ some blobs
      → elem l r ≡ true
      → elem l blobs ≡ true
  unfolding add_layers elem
  kept-add_layers l [] r blobs h e = subst (λ b. elem l b ≡ true) (some-injective _ _ h) e
  kept-add_layers l (none ∷ layers) r blobs h e = cc
  kept-add_layers l (some x ∷ layers) r blobs h e =
      elim (Option-cases (add_layers layers (some r))) [
        | inl f ↦ cc (rw (f, add_layers) at h)
        | inr (q, f) ↦
            let same : x ∷ q ≡ blobs = some-injective _ _ (rw (f, add_layers) at h) in
            subst (λ b. elem l b ≡ true) same (ground (arith, kept-add_layers l layers r q f e))
      ]

  sweep_blobs-keeps :
      (l : String) (referenced blobs : List String)
      → elem l referenced ≡ true
      → elem l blobs ≡ true
      → elem l (sweep_blobs w referenced blobs) ≡ true
  unfolding sweep_blobs elem
  sweep_blobs-keeps l referenced [] e h = cc
  sweep_blobs-keeps l referenced (b ∷ blobs) e h = elim (Bool-cases (str_eq l b)) [
    | inl q ↦ ground (arith, eq_iff l b, eq_refl l)
    | inr q ↦ ground (arith, sweep_blobs-keeps l referenced blobs e (ground arith))
  ]

  none_added : (layers : List (Option String)) → add_layers layers none ≡ none
  unfolding add_layers
  none_added layers = refl

  referenced_of_retained :
      (l : String) (ms : List Manifest) (m : Manifest) (blobs : List String)
      → IsIn m ms
      → elem m.digest_hex retained ≡ true
      → has_layer l m.layers ≡ true
      → referenced_blobs retained ms ≡ some blobs
      → elem l blobs ≡ true
  unfolding referenced_blobs
  referenced_of_retained l [] m blobs i e h r = absurd i
  referenced_of_retained l (x ∷ ms) m blobs (inl same) e h r =
      let here : elem x.digest_hex retained ≡ true =
        subst (λ y. elem y.digest_hex retained ≡ true) (sym same) e in
      layers-add_layers l x.layers (referenced_blobs retained ms) blobs
        (rw (here, referenced_blobs) at r) (subst (λ y. has_layer l y.layers ≡ true) (sym same) h)
  referenced_of_retained l (x ∷ ms) m blobs (inr i) e h r =
      elim (Bool-cases (elem x.digest_hex retained)) [
        | inr f ↦ referenced_of_retained l ms m blobs i e h (rw (f, referenced_blobs) at r)
        | inl f ↦
            let added : add_layers x.layers (referenced_blobs retained ms) ≡ some blobs =
              rw (f, referenced_blobs) at r in
            elim (Option-cases (referenced_blobs retained ms)) [
              | inl g ↦ cc (none_added x.layers, rw g at added)
              | inr (q, g) ↦
                  kept-add_layers l x.layers q blobs (rw g at added)
                    (referenced_of_retained l ms m q i e h g)
            ]
      ]

  blobs_stay :
      (ms : List Manifest) (m : Manifest) (l : String) (failed : Bool)
      (referenced : Option (List String)) (blobs : List String)
      → (sweep w retained ms).failed ≡ failed
      → referenced_blobs retained ms ≡ referenced
      → IsIn m (sweep w retained ms).manifests
      → has_layer l m.layers ≡ true
      → elem l blobs ≡ true
      → elem l (blobs_after w failed referenced blobs) ≡ true
  unfolding blobs_after
  blobs_stay ms m l true referenced blobs f r i h e = e
  blobs_stay ms m l false none blobs f r i h e = e
  blobs_stay ms m l false (some q) blobs f r i h e =
      let (stands, stays) = retained_of_left ms m f i in
      sweep_blobs-keeps l q blobs (referenced_of_retained l ms m q stands stays h r) e

-- Each blob that a manifest left after a garbage collection names as a layer, and that was there
-- before, is still there, even when the collection ends early.
pub gc_keeps_blobs :
    (w : World) (protected : List String) (s : Store) (m : Manifest) (l : String)
    → IsIn m (gc w protected s).manifests
    → has_layer l m.layers ≡ true
    → elem l s.blobs ≡ true
    → elem l (gc w protected s).blobs ≡ true
unfolding gc
gc_keeps_blobs w protected s m l i h e =
    let retained = retained_digests protected s.manifests in
    blobs_stay w retained s.manifests m l (sweep w retained s.manifests).failed
      (referenced_blobs retained s.manifests) s.blobs refl refl i h e
