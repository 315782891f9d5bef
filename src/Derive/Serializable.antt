-- ===== src/Derive/Serializable.antt =====
-- The trait `Serializable`, which the code that uavcan-derive/src/lib.rs makes calls: it is that of
-- another crate, and a parameter. `S` and `D` are its two buffers.
use cyphal_rs.Base.{ℕ, Bool, List, [], ◌∷◌}
use cyphal_rs.Derive.Struct.{SerializationResult, Cursor, Field}

-- The two values of `DeserializationResult` that the code names.
pub data DeserializationResult : Type 0 where
  complete buffer_insufficient : DeserializationResult

-- A type with its implementation.
pub record Serializable (S D : Type 0) : Type 1 where
  pub Value : Type 0
  pub bit_length_min : ℕ
  pub flattened_fields_number : ℕ
  pub serialize : Value → Bool → Cursor S → Cursor S × SerializationResult
  pub deserialize : Value → Bool → Cursor D → (Value × Cursor D) × DeserializationResult

module _ {S D : Type 0} where
  -- A struct of fields of these types.
  abbrev pub Struct : List (Serializable S D) → Type 0
  Struct [] = Unit
  Struct (t ∷ types) = t.Value × Struct types

  -- `&self.#field_ident`, for one field and for each.
  abbrev pub borrow : (t : Serializable S D) → t.Value → Field S
  borrow t value = record {
    bit_length_min = t.bit_length_min;
    flattened_fields_number = t.flattened_fields_number;
    serialize = t.serialize value;
  }

  abbrev pub borrowed : (types : List (Serializable S D)) → Struct types → List (Field S)
  borrowed [] self = []
  borrowed (t ∷ types) (value, self) = borrow t value ∷ borrowed types self
