-- ===== src/Json.antt =====
-- JSON values as Python holds them, and what Python's operators do on them: `get`, `or`, `==`,
-- `isinstance`, iteration. A call that would raise gives `none`.
pub mod Access
use sbnb.Prelude.{ℕ, String, Bool, true, false, not, List, [], ◌∷◌, ◌==◌, str_eq}

-- `int n` is a natural number and `neg n` is -(n + 1); `float n` is a float whose value is the
-- natural number n, and `real n` any other float, by an index.
mutual
  pub data Json : Type 0 where
    null : Json
    boolean : Bool → Json
    int neg float real : ℕ → Json
    text : String → Json
    array : Items → Json
    object : Fields → Json

  pub data Items : Type 0 where
    nil : Items
    cons : Json → Items → Items

  pub data Fields : Type 0 where
    end : Fields
    field : String → Json → Fields → Fields

-- `bool(value)`
unfoldable pub truthy : Json → Bool
truthy null = false
truthy (boolean b) = b
truthy (int n) = not (n == 0)
truthy (float n) = not (n == 0)
truthy (neg n) = true
truthy (real n) = true
truthy (text s) = not (str_eq s "")
truthy (array nil) = false
truthy (array (cons x xs)) = true
truthy (object end) = false
truthy (object (field k v fs)) = true

-- `value == n`; a `bool` is an `int` in Python.
unfoldable pub equals_nat : Json → ℕ → Bool
equals_nat (boolean true) n = n == 1
equals_nat (boolean false) n = n == 0
equals_nat (int m) n = m == n
equals_nat (float m) n = m == n
equals_nat _ n = false

-- `value == s` for a text
unfoldable pub equals_text : Json → String → Bool
equals_text (text t) s = str_eq t s
equals_text _ s = false

-- `isinstance(value, int) and not isinstance(value, bool) and value > 0`
unfoldable pub is_positive_int : Json → Bool
is_positive_int (int n) = not (n == 0)
is_positive_int _ = false

unfoldable pub is_object : Json → Bool
is_object (object fs) = true
is_object _ = false

unfoldable pub is_null : Json → Bool
is_null null = true
is_null _ = false

abbrev pub items : Items → List Json
items nil = []
items (cons x xs) = x ∷ items xs
