-- ===== src/Cap/Bounds.antt =====
-- What the virtual size of a capped volume (storage.py) keeps to.
use native.Mathlib.Nat.{
  mul-mod_left, mul_assoc, mul_comm, mod-add-div', div-mul-le_self, mod-lt, mul-le-mul_right,
  mul-lt-mul_of_pos_left, lt-div-mul-add,
}
use sbnb.Prelude.{
  ◌∙◌, sym, some, ◌≤◌, ◌<◌, ℕ, zero, suc, ◌+◌, ◌-◌, ◌*◌, ◌/◌, ◌%◌, ◌^◌, ◌≡◌, refl, ◌==◌, arith,
  Bool-cases, inl, inr,
}
use sbnb.Cap.Rounding.{slack, rounded_near}
use sbnb.Cap.{
  round_digits, decimal, aligned_size, capped_decimal, lcm, capped_virtual_size, lcm_from,
}

-- the alignment is a multiple of both sizes
lcm_from-multiple :
    (fuel k a b : ℕ) → ((q : ℕ) × (lcm_from fuel k a b ≡ q * a)) × (lcm_from fuel k a b % b ≡ 0)
unfolding lcm_from
lcm_from-multiple zero k a b = ((b, refl), rw (mul_comm b a) (mul-mod_left a b))
lcm_from-multiple (suc fuel) k a b = elim (Bool-cases ((k * a) % b == 0)) [
  | inl e ↦ rw (e, lcm_from) ((k, refl), ground arith)
  | inr e ↦ rw (e, lcm_from) (lcm_from-multiple fuel (k + 1) a b)
]

multiple-mod : (q l a p : ℕ) → l ≡ p * a → (q * l) % a ≡ 0
multiple-mod q l a p h = rw (h, ← mul_assoc q p a) (mul-mod_left (q * p) a)

rounded : (raw alignment : ℕ) → raw - raw % alignment ≡ raw / alignment * alignment
rounded raw alignment = omega (arith, mod-add-div' raw alignment)

smaller : (raw alignment n : ℕ) → raw - raw % alignment ≡ n → n ≤ raw
smaller raw alignment n h = omega (arith, h)

power_positive : (places : ℕ) → 0 < 10 ^ places
power_positive zero = omega arith
power_positive (suc places) = omega (arith, power_positive places)

larger : (raw alignment n : ℕ) → raw - raw % alignment ≡ n → 0 < alignment → raw + 1 ≤ n + alignment
larger raw alignment n h positive = omega (arith, h, mod-lt raw positive)

add-mul : (a b : ℕ) → (a + 1) * b ≡ a * b + b
add-mul a b = omega arith

hundred_positive : (places : ℕ) → 0 < 100 * 10 ^ places
hundred_positive places = omega (arith, power_positive places)

aligned_of_some :
    (pool raw alignment n : ℕ)
    → aligned_size pool raw alignment ≡ some n
    → (raw - raw % alignment ≡ n) × (0 < n) × (n ≤ pool)
unfolding aligned_size
aligned_of_some pool raw alignment n h = ground arith

-- a size in bytes for a cap in percent, by its digits and the number of them behind the point
pub record IsCap (pool digits places sector allocation n : ℕ) : Type 0 where
  pub some_bytes : 0 < n
  pub fits : n ≤ pool
  pub within : n * (100 * 10 ^ places) ≤ pool * digits + slack (pool * digits)
  pub whole_sectors : n % sector ≡ 0
  pub whole_extents : n % allocation ≡ 0
  pub close :
      pool * digits < (n + lcm sector allocation) * (100 * 10 ^ places) + slack (pool * digits)

module _ (pool digits places sector allocation n : ℕ) where
  aligned-IsCap :
      0 < lcm sector allocation
      → aligned_size pool
          (round_digits (pool * digits) / (100 * 10 ^ places))
          (lcm sector allocation)
        ≡ some n
      → IsCap pool digits places sector allocation n
  unfolding lcm
  aligned-IsCap positive h =
      let whole_percents = 100 * 10 ^ places in
      let raw = round_digits (pool * digits) / whole_percents in
      let alignment = lcm sector allocation in
      let (same, some_bytes, fits) = aligned_of_some pool raw alignment n h in
      let ((p, times), whole) = lcm_from-multiple allocation 1 sector allocation in
      let multiple : n ≡ raw / alignment * alignment = sym same ∙ rounded raw alignment in
      let of_extents : alignment ≡ alignment / allocation * allocation =
        omega (arith, whole, mod-add-div' alignment allocation) in
      record {
        some_bytes = some_bytes;
        fits = fits;
        within = omega (
          arith,
          mul-le-mul_right whole_percents (smaller raw alignment n same),
          div-mul-le_self (round_digits (pool * digits)) whole_percents,
          (rounded_near (pool * digits)).0,
        );
        whole_sectors = rw multiple (multiple-mod (raw / alignment) alignment sector p times);
        whole_extents = rw multiple (
            multiple-mod (raw / alignment) alignment allocation (alignment / allocation)
              of_extents);
        close = omega (
          arith,
          mul-le-mul_right whole_percents (larger raw alignment n same positive),
          lt-div-mul-add {a = round_digits (pool * digits)} (hundred_positive places),
          add-mul raw whole_percents,
          (rounded_near (pool * digits)).1,
        );
      }

pos_of_mul : (a k : ℕ) → 0 < a → 0 < k → 0 < k * a
pos_of_mul a k p q = let more : k * 0 < k * a = mul-lt-mul_of_pos_left p q in omega (arith, more)

accepted :
    (pool digits places sector allocation n : ℕ)
    → capped_decimal pool digits places sector allocation ≡ some n
    → (0 < sector)
      × (0 < allocation)
      × (aligned_size pool
            (round_digits (pool * digits) / (100 * 10 ^ places))
            (lcm sector allocation)
          ≡ some n)
unfolding capped_decimal
accepted pool digits places sector allocation n h = ground arith

lcm_positive : (fuel k a b : ℕ) → 0 < k → 0 < a → 0 < b → 0 < lcm_from fuel k a b
unfolding lcm_from
lcm_positive zero k a b p q r = pos_of_mul a b q r
lcm_positive (suc fuel) k a b p q r = elim (Bool-cases ((k * a) % b == 0)) [
  | inl e ↦ rw (e, lcm_from) (pos_of_mul a k q p)
  | inr e ↦ rw (e, lcm_from) (lcm_positive fuel (k + 1) a b (omega arith) q r)
]

-- The size for a cap is not zero, is at most the pool, is a whole number of sectors and of extents,
-- is at most the cap's percentage of the pool, and falls short of it by less than their common
-- alignment: exactly so while the product of the pool and the cap has at most 28 digits, and
-- otherwise up to one part in 2 * 10 ^ 27 of that product.
pub capped_size-IsCap :
    (pool digits places sector allocation n : ℕ)
    → capped_virtual_size pool (decimal digits places) sector allocation ≡ some n
    → IsCap pool digits places sector allocation n
unfolding capped_virtual_size capped_decimal lcm
capped_size-IsCap pool digits places sector allocation n h =
    let (sector_positive, allocation_positive, sized) =
      accepted pool digits places sector allocation n h in
    aligned-IsCap pool digits places sector allocation n
      (lcm_positive allocation 1 sector allocation (omega arith) sector_positive
        allocation_positive)
      sized
