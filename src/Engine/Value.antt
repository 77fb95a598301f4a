-- ===== src/Engine/Value.antt =====
-- The `unknown` of the validators in shared/engine.ts, shared/persist.ts and electron/main: a value
-- that came through JSON or a structured clone.
use vanilla_bus.Prelude.{ℕ, Bool, true, false, List, [], ◌∷◌, Option, none, some, Text}
use vanilla_bus.Prelude.Int.{ℤ, pos}
use vanilla_bus.Prelude.Strings.{same}

-- A double, as far as the code can tell one from another by `typeof`, `Number.isFinite`,
-- `Number.isInteger` and comparisons with integers. `fractional n k` lies strictly between `n` and
-- `n + 1`; `k` tells apart those that do. `-0` is `integral (pos 0)`.
pub data Number : Type 0 where
  integral : ℤ → Number
  fractional : ℤ → ℕ → Number
  nan : Number
  infinite : Bool → Number

mutual
  pub data Value : Type 0 where
    undefined null : Value
    boolean : Bool → Value
    number : Number → Value
    string : Text → Value
    array : Items → Value
    object : Fields → Value

  pub data Items : Type 0 where
    nil : Items
    item : Value → Items → Items

  -- the own properties, in the order of `Object.entries`
  pub data Fields : Type 0 where
    end : Fields
    field : Text → Value → Fields → Fields

abbrev pub items : Items → List Value
items nil = []
items (item v vs) = v ∷ items vs

abbrev pub entries : Fields → List (Text × Value)
entries end = []
entries (field k v fs) = (k, v) ∷ entries fs

-- `record[key]`
unfoldable pub get : Text → Fields → Value
get k end = undefined
get k (field j v fs) = elim (same j k) [ true ↦ v | false ↦ get k fs ]

-- past the guard `raw === null || typeof raw !== 'object' || Array.isArray(raw)`
abbrev pub as_record : Value → Option Fields
as_record (object fs) = some fs
as_record _ = none

-- `Number.isFinite(n)`
abbrev pub is_finite : Number → Bool
is_finite (integral z) = true
is_finite (fractional z k) = true
is_finite nan = false
is_finite (infinite b) = false

-- past `typeof v !== 'string' || v.length === 0`
abbrev pub nonempty_string : Value → Option Text
nonempty_string (string []) = none
nonempty_string (string (c ∷ s)) = some (c ∷ s)
nonempty_string _ = none

-- past `typeof v !== 'number' || !Number.isInteger(v) || v < 0`
abbrev pub natural : Value → Option ℕ
natural (number (integral (pos n))) = some n
natural _ = none

-- past `typeof v !== 'number' || !Number.isFinite(v)`
abbrev pub finite_number : Value → Option Number
finite_number (number (integral z)) = some (integral z)
finite_number (number (fractional z k)) = some (fractional z k)
finite_number _ = none

-- past `typeof v !== 'string'`
abbrev pub a_string : Value → Option Text
a_string (string s) = some s
a_string _ = none

-- past `typeof v !== 'boolean'`
abbrev pub a_boolean : Value → Option Bool
a_boolean (boolean b) = some b
a_boolean _ = none
