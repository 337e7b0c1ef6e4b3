-- ===== src/Compatibility/Accepted.antt =====
-- What a compatibility manifest (compatibility.py) that is accepted holds.
use sbnb.Prelude.{
  sym, ◌∙◌, subst, ℕ, ◌<◌, String, true, false, ◌≡◌, ◌≢◌, refl, some, arith, str_eq, eq_iff,
}
use sbnb.Json.{
  Json, null, boolean, int, neg, float, real, text, array, object, Items, nil, cons, Fields, end,
  field, equals_nat, is_positive_int,
}
use sbnb.Json.Access.{find, has_key}
use sbnb.Compatibility.{
  revisions_ok, all_positive, has_version, all_differ, versions_ok, family_ok, features_ok,
  desired_state_ok, protocols_ok, validate_manifest,
}

-- each entry has a name and a positive revision
abbrev pub IsRevisions : Fields → Type 0
IsRevisions end = Unit
IsRevisions (field name revision fs) =
    (name ≢ "") × ((n : ℕ) × (revision ≡ int n) × (0 < n)) × IsRevisions fs

abbrev pub IsOther : ℕ → Items → Type 0
IsOther n nil = Unit
IsOther n (cons v vs) = (v ≢ int n) × IsOther n vs

-- positive integers that are all different
abbrev pub IsVersions : Items → Type 0
IsVersions nil = Unit
IsVersions (cons v vs) = ((n : ℕ) × (v ≡ int n) × (0 < n) × IsOther n vs) × IsVersions vs

positive_of : (v : Json) → is_positive_int v ≡ true → (n : ℕ) × (v ≡ int n) × (0 < n)
unfolding is_positive_int
positive_of null h = cc
positive_of (boolean b) h = cc
positive_of (int n) h = (n, refl, ground arith)
positive_of (neg n) h = cc
positive_of (float n) h = cc
positive_of (real n) h = cc
positive_of (text s) h = cc
positive_of (array xs) h = cc
positive_of (object fs) h = cc

named : (name : String) → str_eq name "" ≡ false → name ≢ ""
named name h e = ground (arith, eq_iff name "", h, e)

revisions_ok-IsRevisions : (fs : Fields) → revisions_ok fs ≡ true → IsRevisions fs
unfolding revisions_ok
revisions_ok-IsRevisions end h = tt
revisions_ok-IsRevisions (field name revision fs) h = (
  named name (ground arith),
  positive_of revision (ground arith),
  revisions_ok-IsRevisions fs (ground arith),
)

same_int : {n m : ℕ} → int n ≡ int m → n ≡ m
same_int h = cc

by_number :
    (n m : ℕ) (vs : Items) (x : Json)
    → x ≡ int m
    → has_version (int n) (cons (int m) vs) ≡ false
    → (x ≢ int n) × (has_version (int n) vs ≡ false)
unfolding has_version
by_number n m vs x e h =
    let apart : n ≢ m = ground arith in (λ f. apart (same_int (sym f ∙ e)), ground arith)

other_of :
    (n m : ℕ) (x : Json) (vs : Items)
    → x ≡ int m
    → has_version (int n) (cons x vs) ≡ false
    → (x ≢ int n) × (has_version (int n) vs ≡ false)
other_of n m x vs e h =
    by_number n m vs x e (subst (λ y. has_version (int n) (cons y vs) ≡ false) e h)

has_version-IsOther :
    (n : ℕ) (vs : Items) → all_positive vs ≡ true → has_version (int n) vs ≡ false → IsOther n vs
unfolding all_positive
has_version-IsOther n nil p h = tt
has_version-IsOther n (cons x vs) p h =
    let (m, e, positive) = positive_of x (ground arith) in
    let (differs, rest) = other_of n m x vs e h in
    (differs, has_version-IsOther n vs (ground arith) rest)

all_differ-IsVersions : (vs : Items) → all_positive vs ≡ true → all_differ vs ≡ true → IsVersions vs
unfolding all_positive all_differ
all_differ-IsVersions nil p d = tt
all_differ-IsVersions (cons v vs) p d =
    let (n, e, positive) = positive_of v (ground arith) in
    let absent : has_version v vs ≡ false = ground arith in
    (
      (
        n,
        e,
        positive,
        has_version-IsOther n vs (ground arith) (subst (λ y. has_version y vs ≡ false) e absent),
      ),
      all_differ-IsVersions vs (ground arith) (ground arith),
    )

abbrev pub IsVersionList : Json → Type 0
IsVersionList (array (cons v vs)) = IsVersions (cons v vs)
IsVersionList _ = ⊥

abbrev pub IsFamily : Json → Type 0
IsFamily null = Unit
IsFamily (object fs) = IsRevisions fs
IsFamily _ = ⊥

abbrev pub IsFeatures : Json → Type 0
IsFeatures (object fs) = IsRevisions fs
IsFeatures _ = ⊥

abbrev pub IsDesiredState : Json → Type 0
IsDesiredState null = Unit
IsDesiredState (object fs) =
    IsVersionList (find "versions" fs)
    × (has_key "features" fs ≡ true → IsFeatures (find "features" fs))
IsDesiredState _ = ⊥

abbrev pub IsProtocols : Json → Type 0
IsProtocols (object fs) =
    IsDesiredState (find "desired_state" fs)
    × IsFamily (find "commands" fs)
    × IsFamily (find "events" fs)
IsProtocols _ = ⊥

versions_ok-IsVersionList : (v : Json) → versions_ok v ≡ true → IsVersionList v
unfolding versions_ok
versions_ok-IsVersionList null h = cc
versions_ok-IsVersionList (boolean b) h = cc
versions_ok-IsVersionList (int n) h = cc
versions_ok-IsVersionList (neg n) h = cc
versions_ok-IsVersionList (float n) h = cc
versions_ok-IsVersionList (real n) h = cc
versions_ok-IsVersionList (text s) h = cc
versions_ok-IsVersionList (array nil) h = cc
versions_ok-IsVersionList (array (cons v vs)) h =
    all_differ-IsVersions (cons v vs) (ground arith) (ground arith)
versions_ok-IsVersionList (object fs) h = cc

family_ok-IsFamily : (v : Json) → family_ok v ≡ true → IsFamily v
unfolding family_ok
family_ok-IsFamily null h = tt
family_ok-IsFamily (boolean b) h = cc
family_ok-IsFamily (int n) h = cc
family_ok-IsFamily (neg n) h = cc
family_ok-IsFamily (float n) h = cc
family_ok-IsFamily (real n) h = cc
family_ok-IsFamily (text s) h = cc
family_ok-IsFamily (array nil) h = cc
family_ok-IsFamily (array (cons v vs)) h = cc
family_ok-IsFamily (object fs) h = revisions_ok-IsRevisions fs h

features_ok-IsFeatures : (v : Json) → features_ok v ≡ true → IsFeatures v
unfolding features_ok
features_ok-IsFeatures null h = cc
features_ok-IsFeatures (boolean b) h = cc
features_ok-IsFeatures (int n) h = cc
features_ok-IsFeatures (neg n) h = cc
features_ok-IsFeatures (float n) h = cc
features_ok-IsFeatures (real n) h = cc
features_ok-IsFeatures (text s) h = cc
features_ok-IsFeatures (array nil) h = cc
features_ok-IsFeatures (array (cons v vs)) h = cc
features_ok-IsFeatures (object fs) h = revisions_ok-IsRevisions fs h

desired_state_ok-IsDesiredState : (v : Json) → desired_state_ok v ≡ true → IsDesiredState v
unfolding desired_state_ok
desired_state_ok-IsDesiredState null h = tt
desired_state_ok-IsDesiredState (boolean b) h = cc
desired_state_ok-IsDesiredState (int n) h = cc
desired_state_ok-IsDesiredState (neg n) h = cc
desired_state_ok-IsDesiredState (float n) h = cc
desired_state_ok-IsDesiredState (real n) h = cc
desired_state_ok-IsDesiredState (text s) h = cc
desired_state_ok-IsDesiredState (array nil) h = cc
desired_state_ok-IsDesiredState (array (cons v vs)) h = cc
desired_state_ok-IsDesiredState (object fs) h = (
  versions_ok-IsVersionList (find "versions" fs) (ground arith),
  λ k. features_ok-IsFeatures (find "features" fs) (ground arith),
)

protocols_ok-IsProtocols : (v : Json) → protocols_ok v ≡ true → IsProtocols v
unfolding protocols_ok
protocols_ok-IsProtocols null h = cc
protocols_ok-IsProtocols (boolean b) h = cc
protocols_ok-IsProtocols (int n) h = cc
protocols_ok-IsProtocols (neg n) h = cc
protocols_ok-IsProtocols (float n) h = cc
protocols_ok-IsProtocols (real n) h = cc
protocols_ok-IsProtocols (text s) h = cc
protocols_ok-IsProtocols (array nil) h = cc
protocols_ok-IsProtocols (array (cons v vs)) h = cc
protocols_ok-IsProtocols (object fs) h = (
  desired_state_ok-IsDesiredState (find "desired_state" fs) (ground arith),
  family_ok-IsFamily (find "commands" fs) (ground arith),
  family_ok-IsFamily (find "events" fs) (ground arith),
)

-- A manifest that is accepted is returned unchanged; its version equals 1, and its protocols are an
-- object in which the versions of desired state are different positive integers and every feature,
-- command and event has a name and a positive integer as its revision.
pub validate_manifest-IsProtocols :
    (fs : Fields) (r : Json)
    → validate_manifest (object fs) ≡ some r
    → (r ≡ object fs)
      × (equals_nat (find "manifest_version" fs) 1 ≡ true)
      × IsProtocols (find "protocols" fs)
unfolding validate_manifest
validate_manifest-IsProtocols fs r h =
    (ground arith, ground arith, protocols_ok-IsProtocols (find "protocols" fs) (ground arith))
