-- ===== src/Tests/Derive.antt =====
-- The derived `serialize` and `deserialize` of small structs, with small buffers.
use cyphal_rs.Base.{
  ℕ, ◌≡◌, refl, true, false, Bool-cases, inl, inr, some, List, [], ◌∷◌, ◌++◌, ◌+◌, ◌-◌, ◌≤◌, Bool,
  length-append, ltb, if◌then◌else◌, ok, arith, length,
}
use cyphal_rs.Derive.Struct.{
  finished, buffer_full, Cursor, Field, serialize, serialize_body, serialize_loop,
}
use cyphal_rs.Derive.Progress.{Keeps, Returns, serialize-Returns}
use cyphal_rs.Derive.Order.{Writes, cursor_at}
use cyphal_rs.Derive.Serializable.{
  DeserializationResult, complete, buffer_insufficient, Serializable, borrow, borrowed,
}
use cyphal_rs.Derive.Deserialize.{deserialize, deserialize_loop, deserialize_body}
use cyphal_rs.Derive.RoundTrip.{Buffers, Codec, deserialize-serialize}

abbrev byte : ℕ → Field (List ℕ)
byte value = record {
  bit_length_min = 8;
  flattened_fields_number = 1;
  serialize = λ last_field cursor.
      if ltb (length cursor.buffer) 2
      then (record cursor { flattened_field = 1; buffer = value ∷ cursor.buffer }, finished)
      else (cursor, buffer_full);
}

abbrev fields : List (Field (List ℕ))
fields = byte 5 ∷ (byte 6 ∷ (byte 7 ∷ []))

abbrev start : List ℕ → ℕ → Cursor (List ℕ)
start buffer i = record { flattened_field = i; bit = 3; buffer = buffer }

-- Two fields fill the buffer, and the third one is for the next call.
serialize_full :
    serialize {E = ⊥} 4 fields true (start [] 0)
    ≡ some (ok (record { flattened_field = 2; bit = 0; buffer = 6 ∷ (5 ∷ []) }, buffer_full))
unfolding serialize serialize_loop serialize_body
serialize_full = refl

-- The next call, with a buffer that is empty again.
serialize_rest :
    serialize {E = ⊥} 4 fields true (start [] 2)
    ≡ some (ok (record { flattened_field = 3; bit = 0; buffer = 7 ∷ [] }, finished))
unfolding serialize serialize_loop serialize_body
serialize_rest = refl

byte-Keeps : (value : ℕ) → Keeps (byte value)
byte-Keeps value last_field cursor inside = elim (Bool-cases (ltb (length cursor.buffer) 2)) [
  | inl room ↦ rw room refl
  | inr full ↦ rw full (omega arith, inside)
]

serialize-Returns_example : Returns {E = ⊥} 3 0 (serialize 4 fields true (start [] 0))
serialize-Returns_example =
    serialize-Returns ⊥ fields true (start [] 0) (byte-Keeps 5, (byte-Keeps 6, (byte-Keeps 7, tt)))
      (omega arith)

-- One bit, in buffers of three.
abbrev take_bit :
    Cursor (List Bool) → Bool → List Bool → (Bool × Cursor (List Bool)) × DeserializationResult
take_bit cursor value [] = ((value, cursor), buffer_insufficient)
take_bit cursor value (bit ∷ bits) =
    ((bit, record cursor { flattened_field = 1; buffer = bits }), complete)

abbrev bool : Serializable (List Bool) (List Bool)
bool = record {
  Value = Bool;
  bit_length_min = 1;
  flattened_fields_number = 1;
  serialize = λ value last_field cursor.
      if ltb (length cursor.buffer) 3
      then (record cursor { flattened_field = 1; buffer = cursor.buffer ++ (value ∷ []) }, finished)
      else (cursor, buffer_full);
  deserialize = λ value last_field cursor. take_bit cursor value cursor.buffer;
}

abbrev bits : Buffers (List Bool) (List Bool)
bits = record { written = λ bs. bs; room = λ bs. 3 - length bs; unread = λ bs. bs }

bool-Writes :
    (value last_field : Bool) (before : List Bool)
    → 1 ≤ 3 - length before
    → (after : List Bool) × (Writes last_field (borrow bool value) before after
        × ((after ≡ before ++ (value ∷ [])) × (3 - length after + 1 ≡ 3 - length before)))
bool-Writes value last_field before fits =
    let there : ltb (length before) 3 ≡ true = ground arith in
    (
      before ++ (value ∷ []),
      ((0, rw there refl), (refl, omega (arith, length-append before (value ∷ [])))),
    )

abbrev bool_codec : Codec bits bool
bool_codec = record {
  some_field = omega arith;
  encode = λ last_field value. value ∷ [];
  writes = bool-Writes;
  reads = λ new old last_field before rest holds ends. (rest, ((0, rw holds refl), refl));
}

-- The second bit is not there.
deserialize_insufficient :
    deserialize {E = ⊥} 3 (bool ∷ (bool ∷ [])) (false, (false, tt)) true (cursor_at 0 (true ∷ []))
    ≡ some (ok (((true, (false, tt)), cursor_at 1 []), buffer_insufficient))
unfolding deserialize deserialize_loop deserialize_body
deserialize_insufficient = refl

deserialize-serialize_example :
    ((after : List Bool) × (serialize {E = ⊥} 3
          (borrowed (bool ∷ (bool ∷ [])) (true, (false, tt)))
          false
          (cursor_at 0 (true ∷ []))
        ≡ some (ok (cursor_at 2 after, finished)))
      × (after ≡ true ∷ (true ∷ (false ∷ []))))
    × ((left : List Bool) × (deserialize {E = ⊥} 3
            (bool ∷ (bool ∷ []))
            (false, (true, tt))
            false
            (cursor_at 0 (true ∷ (false ∷ (true ∷ []))))
          ≡ some (ok (((true, (false, tt)), cursor_at 2 left), complete)))
        × (left ≡ true ∷ []))
deserialize-serialize_example =
    deserialize-serialize bits ⊥ bool (bool ∷ []) (bool_codec, (bool_codec, tt)) (true, (false, tt))
      (false, (true, tt)) false (true ∷ []) (true ∷ (false ∷ (true ∷ []))) (true ∷ []) (omega arith)
      refl (λ last. cc)
