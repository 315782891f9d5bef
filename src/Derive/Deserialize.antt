-- ===== src/Derive/Deserialize.antt =====
-- `deserialize` as uavcan-derive/src/lib.rs writes it for a struct with named fields.
use cyphal_rs.Base.{
  ℕ, zero, suc, ◌+◌, ◌-◌, not, ◌&&◌, Bool, true, false, Option, none, some, List, [], ◌∷◌, ltb, leb,
  ◌==◌, if◌then◌else◌, Result, ok, panic,
}
use cyphal_rs.Derive.Struct.{Cursor}
use cyphal_rs.Derive.Serializable.{
  DeserializationResult, complete, buffer_insufficient, Serializable, Struct,
}

module _ {D : Type 0} where
  -- The branch of a field, behind its own `deserialize`; the answer is whether the code returns.
  abbrev pub deserialized :
      {V : Type 0} → ℕ → (V × Cursor D) × DeserializationResult → (V × Cursor D) × Bool
  deserialized field_index ((value, inner), complete) = (
    (value, record inner { flattened_field = field_index + inner.flattened_field; bit = 0 }),
    false,
  )
  deserialized field_index ((value, inner), buffer_insufficient) =
      ((value, record inner { flattened_field = field_index + inner.flattened_field }), true)

  -- The field, or the fields behind it, take their new values.
  abbrev pub with_value : {V W : Type 0} → W → (V × Cursor D) × Bool → ((V × W) × Cursor D) × Bool
  with_value self ((value, cursor), returns) = (((value, self), cursor), returns)

  abbrev pub with_rest : {V W : Type 0} → V → (W × Cursor D) × Bool → ((V × W) × Cursor D) × Bool
  with_rest value ((self, cursor), returns) = (((value, self), cursor), returns)

module _ {S D : Type 0} where
  abbrev pub flattened_types : List (Serializable S D) → ℕ
  flattened_types [] = 0
  flattened_types (t ∷ types) = t.flattened_fields_number + flattened_types types

  abbrev pub is_last_type : List (Serializable S D) → Bool
  is_last_type [] = true
  is_last_type (t ∷ types) = false

  -- `deserialize_body`: an `if` for each field, the next one in its `else`.
  unfoldable pub deserialize_body :
      (types : List (Serializable S D))
      → Struct types
      → ℕ
      → Bool
      → Cursor D
      → (Struct types × Cursor D) × Bool
  deserialize_body [] self field_index last_field cursor = ((self, cursor), false)
  deserialize_body (t ∷ types) (value, self) field_index last_field cursor =
      let rest =
        deserialize_body types self (field_index + t.flattened_fields_number) last_field cursor in
      if leb field_index cursor.flattened_field
        && ltb cursor.flattened_field (field_index + t.flattened_fields_number)
      then with_value self (
          deserialized field_index (
            t.deserialize value (is_last_type types && last_field)
              (record cursor { flattened_field = cursor.flattened_field - field_index })))
      else with_rest value rest

  -- The `while` loop, on fuel.
  unfoldable pub deserialize_loop :
      {E : Type 0}
      → ℕ
      → (types : List (Serializable S D)) → Struct types
      → Bool
      → Cursor D
      → Option (Result E ((Struct types × Cursor D) × DeserializationResult))
  deserialize_loop zero types self last_field cursor = none
  deserialize_loop (suc fuel) types self last_field cursor =
      let ((self', cursor'), returns) = deserialize_body types self 0 last_field cursor in
      let rest = deserialize_loop fuel types self' last_field cursor' in
      if cursor.flattened_field == flattened_types types
      then some (ok ((self, cursor), complete))
      else if not (ltb cursor.flattened_field (flattened_types types))
      then some panic
      else if returns
      then some (ok ((self', cursor'), buffer_insufficient))
      else rest

  unfoldable pub deserialize :
      {E : Type 0}
      → ℕ
      → (types : List (Serializable S D)) → Struct types
      → Bool
      → Cursor D
      → Option (Result E ((Struct types × Cursor D) × DeserializationResult))
  deserialize fuel types self last_field cursor =
      if not (ltb cursor.flattened_field (flattened_types types))
      then some panic
      else deserialize_loop fuel types self last_field cursor
