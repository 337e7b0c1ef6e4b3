-- ===== src/Luks/SectorSize.antt =====
-- The sector size that is chosen is safe for every disk, and the largest such.
use sbnb.Prelude.{
  ◌⊎◌, sym, ◌∙◌, subst, ℕ, ◌≤◌, ◌%◌, ◌≡◌, refl, true, Bool, none, List, [], ◌∷◌, arith, All, all,
  inl, inr, Bool-cases, ◌&&◌,
}
use sbnb.Luks.{
  Geometry, ok, suits, is_supported, first_suiting, choose_luks_sector_size, luks_sector_sizes,
}

-- A sector of size n can be laid over the disk: it is a whole number of logical sectors, a physical
-- sector holds a whole number of it, and so does the disk.
pub record IsSafe (n : ℕ) (g : Geometry) : Type 0 where
  pub above : g.logical ≤ n
  pub below : n ≤ g.physical
  pub whole : n % g.logical ≡ 0
  pub nested : g.physical % n ≡ 0
  pub covers : g.size % n ≡ 0

suits-IsSafe : (n : ℕ) (g : Geometry) → suits n g ≡ true → IsSafe n g
unfolding suits
suits-IsSafe n g h = ground arith

IsSafe-suits : (n : ℕ) (g : Geometry) → IsSafe n g → suits n g ≡ true
unfolding suits
IsSafe-suits n g h = ground arith

all-IsSafe : (n : ℕ) (gs : List Geometry) → all (suits n) gs ≡ true → All (IsSafe n) gs
unfolding all
all-IsSafe n [] h = tt
all-IsSafe n (g ∷ gs) h = (suits-IsSafe n g (ground arith), all-IsSafe n gs (ground arith))

safe_all : (n : ℕ) (gs : List Geometry) → All (IsSafe n) gs → all (suits n) gs ≡ true
unfolding all
safe_all n [] h = refl
safe_all n (g ∷ gs) h = rw (IsSafe-suits n g h.0) (safe_all n gs h.1)

and_parts : (a b : Bool) → a && b ≡ true → (a ≡ true) × (b ≡ true)
and_parts a b h = ground arith

same_of_ok : (a b : ℕ) → ok a ≡ ok b → a ≡ b
same_of_ok a b h = ground arith

pub first_suiting-IsSafe :
    (cs : List ℕ) (gs : List Geometry) (n : ℕ)
    → first_suiting cs gs ≡ ok n
    → (is_supported n ≡ true) × All (IsSafe n) gs
unfolding first_suiting
first_suiting-IsSafe [] gs n h = cc
first_suiting-IsSafe (c ∷ cs) gs n h = elim (Bool-cases (is_supported c && all (suits c) gs)) [
  | inl e ↦
      let (supported, suited) = and_parts (is_supported c) (all (suits c) gs) e in
      let same : c ≡ n = same_of_ok c n (rw e at h) in
      subst (λ k. (is_supported k ≡ true) × All (IsSafe k) gs) same
        (supported, all-IsSafe c gs suited)
  | inr e ↦ first_suiting-IsSafe cs gs n (rw e at h)
]

-- A size that is safe for every disk and supported is tried, so one is chosen that is no smaller.
module _ (gs : List Geometry) (m : ℕ) (supported : is_supported m ≡ true)
    (safe : All (IsSafe m) gs) where
  stops : (c n : ℕ) (cs : List ℕ) → m ≡ c → first_suiting (c ∷ cs) gs ≡ ok n → m ≤ n
  unfolding first_suiting
  stops c n cs e h =
      let chosen : first_suiting (m ∷ cs) gs ≡ ok m = rw (supported, safe_all m gs safe) in
      omega (arith, same_of_ok m n (sym chosen ∙ rw (← e) at h))

  passes :
      (c n : ℕ) (cs : List ℕ)
      → m ≤ c
      → ((k : ℕ) → first_suiting cs gs ≡ ok k → m ≤ k)
      → first_suiting (c ∷ cs) gs ≡ ok n
      → m ≤ n
  unfolding first_suiting
  passes c n cs l rest h = elim (Bool-cases (is_supported c && all (suits c) gs)) [
    | inl e ↦ subst (λ k. m ≤ k) (same_of_ok c n (rw e at h)) l
    | inr e ↦ rest n (rw e at h)
  ]

  at_least_here :
      (m ≡ 4096) ⊎ ((m ≡ 2048) ⊎ ((m ≡ 1024) ⊎ (m ≡ 512)))
      → (n : ℕ) → first_suiting luks_sector_sizes gs ≡ ok n
      → m ≤ n
  at_least_here (inl e) n h = stops 4096 n _ e h
  at_least_here (inr (inl e)) n h = passes 4096 n _ (omega arith) (λ k. stops 2048 k _ e) h
  at_least_here (inr (inr (inl e))) n h =
      passes 4096 n _ (omega arith) (λ k. passes 2048 k _ (omega arith) (λ j. stops 1024 j _ e)) h
  at_least_here (inr (inr (inr e))) n h =
      passes 4096 n _ (omega arith)
        (λ k.
          passes 2048 k _ (omega arith) (λ j. passes 1024 j _ (omega arith) (λ i. stops 512 i _ e)))
        h

supported_cases :
    (m : ℕ) → is_supported m ≡ true → (m ≡ 4096) ⊎ ((m ≡ 2048) ⊎ ((m ≡ 1024) ⊎ (m ≡ 512)))
supported_cases m h = ground arith

-- The size that is chosen freely is a supported one that is safe for every disk of the batch, and
-- no supported size that is safe for every disk is larger.
pub chosen_size_best :
    (gs : List Geometry) (n : ℕ)
    → choose_luks_sector_size gs none ≡ ok n
    → (is_supported n ≡ true)
      × All (IsSafe n) gs
      × ((m : ℕ) → is_supported m ≡ true → All (IsSafe m) gs → m ≤ n)
unfolding choose_luks_sector_size
chosen_size_best [] n h = cc
chosen_size_best (g ∷ gs) n h =
    let (supported, safe) = first_suiting-IsSafe luks_sector_sizes (g ∷ gs) n h in
    (supported, safe, λ m s all_fit. at_least_here (g ∷ gs) m s all_fit (supported_cases m s) n h)
