-- ===== src/Main/Samples.antt =====
-- A text form of the values that JSON has, and its reader, for runs of electron/main/userStore.ts. As
-- in JSON, a field that is `undefined` is not written, and what is no JSON value becomes `null`.
use vanilla_bus.Prelude.{
  ℕ, zero, suc, refl, true, false, [], ◌∷◌, ◌++◌, Option, none, some, Text, codes, length, take,
  drop, ◌==◌, if◌then◌else◌,
}
use vanilla_bus.Prelude.Int.{pos}
use vanilla_bus.Engine.Value.{
  Value, undefined, null, boolean, number, string, array, object, Items, nil, item, Fields, end,
  field, integral,
}
use vanilla_bus.Prelude.Strings.{same}
use vanilla_bus.Persist.Build.{of_snapshot}
use vanilla_bus.Persist.Samples.{saved}
use vanilla_bus.Main.Host.{JsonText, ReadsBack}

-- A sign for the kind first; a string and a key have their length in front.
unfoldable mutual
  pub written : Value → Text
  written (boolean true) = b't' ∷ []
  written (boolean false) = b'f' ∷ []
  written (number (integral (pos n))) = b'#' ∷ n ∷ []
  written (string s) = b's' ∷ length s ∷ s
  written (array vs) = b'[' ∷ written_items vs
  written (object fs) = b'{' ∷ written_fields fs
  written _ = b'n' ∷ []

  written_items : Items → Text
  written_items nil = b']' ∷ []
  written_items (item v vs) = b',' ∷ written v ++ written_items vs

  written_fields : Fields → Text
  written_fields end = b'}' ∷ []
  written_fields (field k undefined fs) = written_fields fs
  written_fields (field k v fs) = b',' ∷ length k ∷ k ++ written v ++ written_fields fs

abbrev map_first {ℓ} : {A B C : Type ℓ} → (A → B) → Option (A × C) → Option (B × C)
map_first f none = none
map_first f (some (a, c)) = some (f a, c)

abbrev read_plain : ℕ → Text → Option (Value × Text)
read_plain c [] =
    if c == b't'
    then some (boolean true, [])
    else if c == b'f'
    then some (boolean false, [])
    else if c == b'n'
    then some (null, [])
    else none
read_plain c (n ∷ s) =
    if c == b't'
    then some (boolean true, n ∷ s)
    else if c == b'f'
    then some (boolean false, n ∷ s)
    else if c == b'n'
    then some (null, n ∷ s)
    else if c == b'#'
    then some (number (integral (pos n)), s)
    else if c == b's'
    then some (string (take n s), drop n s)
    else none

-- on fuel; a text has at most as many parts as units
unfoldable mutual
  read_value : ℕ → Text → Option (Value × Text)
  read_value zero s = none
  read_value (suc fuel) [] = none
  read_value (suc fuel) (c ∷ s) = elim (c == b'[') [
    | true ↦ map_first array (read_items fuel s)
    | false ↦ elim (c == b'{') [
      | true ↦ map_first object (read_fields fuel s)
      | false ↦ read_plain c s
    ]
  ]

  read_items : ℕ → Text → Option (Items × Text)
  read_items zero s = none
  read_items (suc fuel) [] = none
  read_items (suc fuel) (c ∷ s) = elim (c == b',') [
    | true ↦ items_after fuel (read_value fuel s)
    | false ↦ some (nil, s)
  ]

  items_after : ℕ → Option (Value × Text) → Option (Items × Text)
  items_after fuel none = none
  items_after zero (some (v, s)) = none
  items_after (suc fuel) (some (v, s)) = map_first (item v) (read_items fuel s)

  read_fields : ℕ → Text → Option (Fields × Text)
  read_fields zero s = none
  read_fields (suc fuel) [] = none
  read_fields (suc fuel) (c ∷ []) = some (end, [])
  read_fields (suc fuel) (c ∷ n ∷ s) = elim (c == b',') [
    | true ↦ fields_after fuel (take n s) (read_value fuel (drop n s))
    | false ↦ some (end, n ∷ s)
  ]

  fields_after : ℕ → Text → Option (Value × Text) → Option (Fields × Text)
  fields_after fuel k none = none
  fields_after zero k (some (v, s)) = none
  fields_after (suc fuel) k (some (v, s)) = map_first (field k v) (read_fields fuel s)

-- the value that the whole text is, up to a line end
abbrev whole : Option (Value × Text) → Option Value
whole none = none
whole (some (v, s)) = if same s (codes "\n") then some v else none

unfoldable pub read_text : Text → Option Value
unfolding read_value
read_text s = whole (read_value (length s) s)

abbrev pub tagged : JsonText
tagged = record { parse = read_text; stringify = written }

pub saved-ReadsBack : ReadsBack tagged (of_snapshot saved)
unfolding read_text written same of_snapshot
saved-ReadsBack = refl
