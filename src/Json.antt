-- ===== src/Json.antt =====
-- The values of an `interface{}` that the program builds or reads from JSON, and its
-- `map[string]interface{}` as a list of fields with different keys.
pub mod Put
use logryph.Base.{ℕ, suc, Bool, Option, none, some, String, ◌==◌, if◌then◌else◌}

-- A float64 is its bit pattern; an int too. A `time.Time` inside a map is its `opaque` number.
mutual
  pub data Value : Type 0 where
    null : Value
    boolean : Bool → Value
    float64 : ℕ → Value
    float32 : ℕ → Value
    int : ℕ → Value
    int64 : ℕ → Value
    uint64 : ℕ → Value
    text : String → Value
    opaque : ℕ → Value
    array : Values → Value
    object : Fields → Value

  pub data Values : Type 0 where
    nil : Values
    cons : Value → Values → Values

  pub data Fields : Type 0 where
    end : Fields
    field : String → Value → Fields → Fields

-- `v, ok := m[k]`
unfoldable pub get : String → Fields → Option Value
get k end = none
get k (field j v m) = if j == k then some v else get k m

-- `m[k] = v`
unfoldable pub put : String → Value → Fields → Fields
put k v end = field k v end
put k v (field j w m) = if j == k then field j v m else field j w (put k v m)

-- `len(m)`
unfoldable pub size : Fields → ℕ
size end = 0
size (field k v m) = suc (size m)
