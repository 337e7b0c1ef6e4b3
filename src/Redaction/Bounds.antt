-- ===== src/Redaction/Bounds.antt =====
-- The scanners of redaction.py stay within the message.
use sbnb.Prelude.{
  ℕ, zero, suc, ◌≤◌, true, false, ◌≡◌, refl, Option, none, some, List, [], ◌∷◌, length, arith,
  Bool-cases, Option-cases, inl, inr, if◌then◌else◌, ◌==◌, ◌&&◌, ◌||◌,
}
use sbnb.ApplyResults.Record.{Text}
use sbnb.Redaction.{
  backslash, is_quote, closer_of, escaped_quoted_value_end, quoted_value_end, Mode, outside,
  in_quote, in_escaped, escaped_step, on_closer, on_char, balanced_value_end, unescaped_value_end,
  structured_value_end, ends_scalar, scalar_end, Replaced, nothing, value, key_error, with_end,
  is_opener, scalar, is_escaped_quote, replaced,
}

length-escaped :
    (q slashes : ℕ) (s : Text) → length (escaped_quoted_value_end q slashes s) ≤ length s
unfolding escaped_quoted_value_end
length-escaped q slashes [] = omega arith
length-escaped q zero (c ∷ s) = omega (arith, length-escaped q (if c == backslash then 1 else 0) s)
length-escaped q (suc slashes) (c ∷ s) =
    ground (arith, length-escaped q 0 s, length-escaped q (suc (suc slashes)) s)

length-quoted : (q : ℕ) (s : Text) → length (quoted_value_end q s) ≤ length s
unfolding quoted_value_end
length-quoted q [] = omega arith
length-quoted q (c ∷ []) = omega arith
length-quoted q (c ∷ d ∷ s) = ground (arith, length-quoted q s, length-quoted q (d ∷ s))

length-on_closer :
    (c : ℕ) (stack : List ℕ) (s : Text) (next : List ℕ → Mode → Text)
    → ((t : List ℕ) (m : Mode) → length (next t m) ≤ length s)
    → length (on_closer c stack s next) ≤ length s
unfolding on_closer
length-on_closer c [] s next k = k [] outside
length-on_closer c (top ∷ []) s next k = elim (Bool-cases (c == top)) [
  | inl b ↦ rw b (omega arith)
  | inr b ↦ rw b (k (top ∷ []) outside)
]
length-on_closer c (top ∷ below ∷ stack) s next k = elim (Bool-cases (c == top)) [
  | inl b ↦ rw b (k (below ∷ stack) outside)
  | inr b ↦ rw b (k (top ∷ below ∷ stack) outside)
]

length-on_char :
    (c : ℕ) (stack : List ℕ) (s : Text) (next : List ℕ → Mode → Text)
    → ((t : List ℕ) (m : Mode) → length (next t m) ≤ length s)
    → length (on_char c stack s next) ≤ length s
unfolding on_char on_closer
length-on_char c stack s next k = elim (Bool-cases (is_quote c)) [
  | inl b ↦ rw b (k stack (in_quote c))
  | inr b ↦ elim (Option-cases (closer_of c)) [
    | inl e ↦ rw (b, e) (length-on_closer c stack s next k)
    | inr (closer, e) ↦ rw (b, e) (k (closer ∷ stack) outside)
  ]
]

length-balanced :
    (stack : List ℕ) (m : Mode) (s : Text) → length (balanced_value_end stack m s) ≤ length s
unfolding balanced_value_end
length-balanced stack m [] = omega arith
length-balanced stack (in_escaped q slashes) (c ∷ s) =
    omega (arith, length-balanced stack (escaped_step q slashes c) s)
length-balanced stack (in_quote q) (c ∷ []) = omega arith
length-balanced stack (in_quote q) (c ∷ d ∷ s) = ground (
  arith,
  length-balanced stack (in_quote q) s,
  length-balanced stack (if c == q then outside else in_quote q) (d ∷ s),
)
length-balanced stack outside (c ∷ []) = omega (
  arith,
  length-on_char c stack [] (λ t m. balanced_value_end t m []) (λ t m. length-balanced t m []),
)
length-balanced stack outside (c ∷ d ∷ s) = ground (
  arith,
  length-balanced stack (in_escaped d 0) s,
  length-on_char c stack (d ∷ s) (λ t m. balanced_value_end t m (d ∷ s))
      (λ t m. length-balanced t m (d ∷ s)),
)

length-scalar_end : (s : Text) → length (scalar_end s) ≤ length s
unfolding scalar_end
length-scalar_end [] = omega arith
length-scalar_end (c ∷ s) = elim (Bool-cases (ends_scalar c)) [
  | inl b ↦ rw b (omega arith)
  | inr b ↦ rw b (omega (arith, length-scalar_end s))
]

-- The text after a value is no longer than the text that the value starts.
abbrev pub Within : Text → Replaced → Type 0
Within s nothing = Unit
Within s (value replacement rest) = length rest ≤ length s
Within s key_error = true ≡ false

-- A value has an end, and it lies in a text of this length.
abbrev pub EndsIn : ℕ → Option Text → Type 0
EndsIn n none = true ≡ false
EndsIn n (some rest) = length rest ≤ n

unescaped-EndsIn :
    (c : ℕ) (s : Text)
    → (is_quote c || is_opener c) ≡ true
    → EndsIn (suc (length s)) (unescaped_value_end c s)
unfolding unescaped_value_end is_opener
unescaped-EndsIn c s h = elim (Bool-cases (is_quote c)) [
  | inl b ↦ rw b (omega (arith, length-quoted c s))
  | inr b ↦ elim (Option-cases (closer_of c)) [
    | inl e ↦ ground arith
    | inr (closer, e) ↦ rw (b, e) (omega (arith, length-balanced (closer ∷ []) outside s))
  ]
]

structured-EndsIn :
    (c : ℕ) (s : Text)
    → (is_quote c || is_opener c || is_escaped_quote (c ∷ s)) ≡ true
    → EndsIn (suc (length s)) (structured_value_end (c ∷ s))
unfolding structured_value_end is_escaped_quote
structured-EndsIn c [] h = unescaped-EndsIn c [] (ground (arith, h))
structured-EndsIn c (d ∷ s) h = elim (Bool-cases (c == backslash && is_quote d)) [
  | inl b ↦ rw b (omega (arith, length-escaped d 0 s))
  | inr b ↦ rw b (unescaped-EndsIn c (d ∷ s) (ground (arith, h, b)))
]

with_end-Within :
    (s replacement : Text) (o : Option Text)
    → EndsIn (length s) o
    → Within s (with_end replacement o)
unfolding with_end
with_end-Within s replacement none h = h
with_end-Within s replacement (some rest) h = h

scalar-Within : (s : Text) → Within s (scalar s)
unfolding scalar
scalar-Within [] = tt
scalar-Within (c ∷ s) = elim (Bool-cases (ends_scalar c)) [
  | inl b ↦ rw b tt
  | inr b ↦ rw b (omega (arith, length-scalar_end s))
]

pub replaced-Within : (s : Text) → Within s (replaced s)
unfolding replaced
replaced-Within [] = tt
replaced-Within (c ∷ s) = elim (Bool-cases (is_quote c)) [
  | inl b ↦ rw b (with_end-Within (c ∷ s) _ _ (structured-EndsIn c s (rw b refl)))
  | inr b ↦ elim (Bool-cases (is_opener c)) [
    | inl d ↦ rw (b, d) (with_end-Within (c ∷ s) _ _ (structured-EndsIn c s (rw (b, d) refl)))
    | inr d ↦ elim (Bool-cases (is_escaped_quote (c ∷ s))) [
      | inl e ↦
          rw (b, d, e) (with_end-Within (c ∷ s) _ _ (structured-EndsIn c s (rw (b, d, e) refl)))
      | inr e ↦ rw (b, d, e) (scalar-Within (c ∷ s))
    ]
  ]
]
