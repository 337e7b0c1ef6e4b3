-- ===== src/Artifacts/Newest.antt =====
-- artifacts.py: the sort of the manifests of an identity by their last use.
use sbnb.Prelude.{
  ap, ℕ, zero, suc, ◌≤◌, String, Bool, true, not, ◌&&◌, ◌≡◌, refl, ◌∙◌, sym, List, [], ◌∷◌, ltb,
  str_eq, eq_refl, take, filter, elem, All, All-map, arith, Bool-cases, inl, inr, if◌then◌else◌,
  subst,
}
use sbnb.Artifacts.{Manifest, insert_newest, newest_first, digests, newest_of}
use sbnb.Artifacts.Kept.{IsIn}

-- how many manifests of an identity were last used at this time or later
abbrev pub as_recent : String → ℕ → List Manifest → ℕ
as_recent identity time [] = 0
as_recent identity time (m ∷ ms) =
    let rest = as_recent identity time ms in
    if str_eq m.identity identity && not (ltb m.last_used_at time) then suc rest else rest

-- the same, of all identities
abbrev recent : ℕ → List Manifest → ℕ
recent time [] = 0
recent time (m ∷ ms) =
    let rest = recent time ms in if ltb m.last_used_at time then rest else suc rest

abbrev is_of : String → Manifest → Bool
is_of identity m = str_eq m.identity identity

recent-filter :
    (identity : String) (time : ℕ) (ms : List Manifest)
    → recent time (filter (is_of identity) ms) ≡ as_recent identity time ms
unfolding filter
recent-filter identity time [] = refl
recent-filter identity time (m ∷ ms) = elim (Bool-cases (str_eq m.identity identity)) [
  | inl e ↦ rw e (ground (arith, recent-filter identity time ms))
  | inr e ↦ rw e (recent-filter identity time ms)
]

recent-insert :
    (time : ℕ) (m : Manifest) (xs : List Manifest)
    → recent time (insert_newest m xs) ≡ recent time (m ∷ xs)
unfolding insert_newest
recent-insert time m [] = refl
recent-insert time m (x ∷ xs) = ground (arith, recent-insert time m xs)

recent-sort : (time : ℕ) (ms : List Manifest) → recent time (newest_first ms) ≡ recent time ms
unfolding newest_first
recent-sort time [] = refl
recent-sort time (m ∷ ms) =
    ground (arith, recent-insert time m (newest_first ms), recent-sort time ms)

-- The latest first.
abbrev Descends : List Manifest → Type 0
Descends [] = Unit
Descends (x ∷ xs) = All (λ (y : Manifest). y.last_used_at ≤ x.last_used_at) xs × Descends xs

All-insert :
    (P : Manifest → Type 0) (m : Manifest) (xs : List Manifest)
    → P m
    → All P xs
    → All P (insert_newest m xs)
unfolding insert_newest
All-insert P m [] h k = (h, tt)
All-insert P m (x ∷ xs) h k = elim (Bool-cases (ltb m.last_used_at x.last_used_at)) [
  | inl e ↦ rw e (k.0, All-insert P m xs h k.1)
  | inr e ↦ rw e (h, k)
]

Descends-insert : (m : Manifest) (xs : List Manifest) → Descends xs → Descends (insert_newest m xs)
unfolding insert_newest
Descends-insert m [] h = (tt, tt)
Descends-insert m (x ∷ xs) h = elim (Bool-cases (ltb m.last_used_at x.last_used_at)) [
  | inl e ↦ rw e (
    All-insert (λ (y : Manifest). y.last_used_at ≤ x.last_used_at) m xs (ground arith) h.0,
    Descends-insert m xs h.1,
  )
  | inr e ↦
      let latest : x.last_used_at ≤ m.last_used_at = ground arith in
      rw e ((latest, All-map _ _ xs (λ y l. omega (arith, l, latest)) h.0), h)
]

Descends-sort : (ms : List Manifest) → Descends (newest_first ms)
unfolding newest_first
Descends-sort [] = tt
Descends-sort (m ∷ ms) = Descends-insert m (newest_first ms) (Descends-sort ms)

inserted : (m : Manifest) (xs : List Manifest) → IsIn m (insert_newest m xs)
unfolding insert_newest
inserted m [] = inl refl
inserted m (x ∷ xs) = elim (Bool-cases (ltb m.last_used_at x.last_used_at)) [
  | inl e ↦ rw e (inr (inserted m xs))
  | inr e ↦ rw e (inl refl)
]

still-IsIn : (m x : Manifest) (xs : List Manifest) → IsIn m xs → IsIn m (insert_newest x xs)
unfolding insert_newest
still-IsIn m x [] h = absurd h
still-IsIn m x (y ∷ ys) h = elim (Bool-cases (ltb x.last_used_at y.last_used_at)) [
  | inr e ↦ rw e (inr h)
  | inl e ↦ rw e (elim h [ inl same ↦ inl same | inr later ↦ inr (still-IsIn m x ys later) ])
]

IsIn-sort : (m : Manifest) (ms : List Manifest) → IsIn m ms → IsIn m (newest_first ms)
unfolding newest_first
IsIn-sort m [] h = absurd h
IsIn-sort m (x ∷ ms) (inl same) =
    subst (λ y. IsIn y (insert_newest x (newest_first ms))) same (inserted x (newest_first ms))
IsIn-sort m (x ∷ ms) (inr h) = still-IsIn m x (newest_first ms) (IsIn-sort m ms h)

IsIn-filter :
    (identity : String) (m : Manifest) (ms : List Manifest)
    → str_eq m.identity identity ≡ true
    → IsIn m ms
    → IsIn m (filter (is_of identity) ms)
unfolding filter
IsIn-filter identity m [] e h = absurd h
IsIn-filter identity m (x ∷ ms) e (inl same) =
    rw (ap (λ (y : Manifest). str_eq y.identity identity) same ∙ e) (inl same)
IsIn-filter identity m (x ∷ ms) e (inr h) = elim (Bool-cases (str_eq x.identity identity)) [
  | inl q ↦ rw q (inr (IsIn-filter identity m ms e h))
  | inr q ↦ rw q (IsIn-filter identity m ms e h)
]

All-IsIn : (P : Manifest → Type 0) (m : Manifest) (xs : List Manifest) → All P xs → IsIn m xs → P m
All-IsIn P m [] a h = absurd h
All-IsIn P m (x ∷ xs) a (inl same) = subst P same a.0
All-IsIn P m (x ∷ xs) a (inr h) = All-IsIn P m xs a.1 h

first_is_latest :
    (m x : Manifest) (xs : List Manifest)
    → Descends (x ∷ xs)
    → IsIn m (x ∷ xs)
    → m.last_used_at ≤ x.last_used_at
first_is_latest m x xs d (inl same) =
    subst (λ (y : Manifest). y.last_used_at ≤ x.last_used_at) same (omega arith)
first_is_latest m x xs d (inr h) =
    All-IsIn (λ (y : Manifest). y.last_used_at ≤ x.last_used_at) m xs d.0 h

counted :
    (time : ℕ) (x : Manifest) (xs : List Manifest)
    → time ≤ x.last_used_at
    → recent time (x ∷ xs) ≡ suc (recent time xs)
counted time x xs h = ground arith

none_left : (n : ℕ) → suc n ≤ 0 → ⊥
none_left n h = omega arith

-- of a list with the latest first, one that is among the n most recent is taken with the first n
taken :
    (n : ℕ) (m : Manifest) (xs : List Manifest)
    → Descends xs
    → IsIn m xs
    → recent m.last_used_at xs ≤ n
    → elem m.digest_hex (digests (take n xs)) ≡ true
unfolding digests elem
taken n m [] d h r = absurd h
taken zero m (x ∷ xs) d h r = absurd (
    none_left (recent m.last_used_at xs)
      (subst (λ k. k ≤ 0) (counted m.last_used_at x xs (first_is_latest m x xs d h)) r))
taken (suc n) m (x ∷ xs) d (inl same) r = ground (
  arith,
  subst (λ (y : Manifest). str_eq m.digest_hex y.digest_hex ≡ true) (sym same)
      (eq_refl m.digest_hex),
)
taken (suc n) m (x ∷ xs) d (inr h) r = ground (
  arith,
  taken n m xs d.1 h
      (omega (arith, r, counted m.last_used_at x xs (first_is_latest m x xs d (inr h)))),
)

pub newest_of-has :
    (ms : List Manifest) (m : Manifest)
    → IsIn m ms
    → as_recent m.identity m.last_used_at ms ≤ 3
    → elem m.digest_hex (newest_of ms m.identity) ≡ true
unfolding newest_of
newest_of-has ms m h r =
    let own = filter (is_of m.identity) ms in
    taken 3 m (newest_first own) (Descends-sort own)
      (IsIn-sort m own (IsIn-filter m.identity m ms (eq_refl m.identity) h))
      (omega (arith, r, recent-sort m.last_used_at own, recent-filter m.identity m.last_used_at ms))
