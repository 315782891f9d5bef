-- ===== src/Derive/Struct.antt =====
-- `serialize` as uavcan-derive/src/lib.rs writes it for a struct with named fields, and the constants
-- beside it. What it serializes is fixed, and no argument.
use cyphal_rs.Base.{
  ℕ, zero, suc, ◌+◌, ◌-◌, not, ◌&&◌, Bool, true, false, Option, none, some, List, [], ◌∷◌, ltb, leb,
  ◌==◌, if◌then◌else◌, Result, ok, panic,
}

-- The two values of `SerializationResult` that the code names.
pub data SerializationResult : Type 0 where
  finished buffer_full : SerializationResult

-- The variables that `serialize` is given by reference.
pub record Cursor (Buffer : Type 0) : Type 0 where
  pub flattened_field : ℕ
  pub bit : ℕ
  pub buffer : Buffer

-- A field, by what the code uses of its type: its constants, 1 in place of the number of flattened
-- fields if it is primitive, and its `serialize`, which is told whether it is the last field.
pub record Field (Buffer : Type 0) : Type 0 where
  pub bit_length_min : ℕ
  pub flattened_fields_number : ℕ
  pub serialize : Bool → Cursor Buffer → Cursor Buffer × SerializationResult

module _ {Buffer : Type 0} where
  -- `BIT_LENGTH_MIN` and `FLATTENED_FIELDS_NUMBER`.
  abbrev pub bit_length_min : List (Field Buffer) → ℕ
  bit_length_min [] = 0
  bit_length_min (field ∷ fields) = field.bit_length_min + bit_length_min fields

  abbrev pub flattened_fields : List (Field Buffer) → ℕ
  flattened_fields [] = 0
  flattened_fields (field ∷ fields) = field.flattened_fields_number + flattened_fields fields

  abbrev pub is_last : List (Field Buffer) → Bool
  is_last [] = true
  is_last (field ∷ fields) = false

  -- The branch of a field, behind its own `serialize`; the answer is whether the code returns.
  abbrev pub serialized : ℕ → Cursor Buffer × SerializationResult → Cursor Buffer × Bool
  serialized field_index (inner, finished) =
      (record inner { flattened_field = field_index + inner.flattened_field; bit = 0 }, false)
  serialized field_index (inner, buffer_full) =
      (record inner { flattened_field = field_index + inner.flattened_field }, true)

  -- `serialize_body`: an `if` for each field, the next one in its `else`.
  unfoldable pub serialize_body :
      List (Field Buffer) → ℕ → Bool → Cursor Buffer → Cursor Buffer × Bool
  serialize_body [] field_index last_field cursor = (cursor, false)
  serialize_body (field ∷ fields) field_index last_field cursor =
      let rest =
        serialize_body fields (field_index + field.flattened_fields_number) last_field cursor in
      if leb field_index cursor.flattened_field
        && ltb cursor.flattened_field (field_index + field.flattened_fields_number)
      then serialized field_index (
          field.serialize (is_last fields && last_field)
            (record cursor { flattened_field = cursor.flattened_field - field_index }))
      else rest

  -- The `while` loop, on fuel.
  unfoldable pub serialize_loop :
      {E : Type 0}
      → ℕ
      → List (Field Buffer)
      → Bool
      → Cursor Buffer
      → Option (Result E (Cursor Buffer × SerializationResult))
  serialize_loop zero fields last_field cursor = none
  serialize_loop (suc fuel) fields last_field cursor =
      let (cursor', returns) = serialize_body fields 0 last_field cursor in
      let rest = serialize_loop fuel fields last_field cursor' in
      if cursor.flattened_field == flattened_fields fields
      then some (ok (cursor, finished))
      else if not (ltb cursor.flattened_field (flattened_fields fields))
      then some panic
      else if returns
      then some (ok (cursor', buffer_full))
      else rest

  unfoldable pub serialize :
      {E : Type 0}
      → ℕ
      → List (Field Buffer)
      → Bool
      → Cursor Buffer
      → Option (Result E (Cursor Buffer × SerializationResult))
  serialize fuel fields last_field cursor =
      if not (ltb cursor.flattened_field (flattened_fields fields))
      then some panic
      else serialize_loop fuel fields last_field cursor
