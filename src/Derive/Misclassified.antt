-- ===== src/Derive/Misclassified.antt =====
-- A type that uavcan-derive/src/lib.rs takes for a primitive one by its name.
use Prim.Native.String.{String}
use cyphal_rs.Base.{
  ℕ, suc, ◌<◌, ◌≡◌, refl, ap, ◌∙◌, Bool, true, false, not, some, List, [], ◌∷◌, ltb, ◌==◌, ok,
  panic, arith,
}
use cyphal_rs.Derive.Struct.{
  Cursor, serialized, serialize, serialize_body, serialize_loop, Field, flattened_fields,
}
use cyphal_rs.Derive.Order.{Writes, cursor_at, serialize_body_at}
use cyphal_rs.Derive.Serializable.{Serializable, borrow}
use cyphal_rs.Derive.Syn.{named, Syn, Regex}
use cyphal_rs.Derive.Classify.{primitive_type, classify_type}
use cyphal_rs.Derive.Patterns.{Patterns, Ends, is_primitive_type-Ends}
use cyphal_rs.Derive.Expand.{Impls, struct_code, struct_fields, generate}

classify_type_float :
    (syn : Syn) (regex : Regex) (p : Patterns regex) (E : Type 0) (ty : syn.Ty)
    (segment : syn.Segment)
    → Ends syn ty segment
    → p.float (syn.ident segment) ≡ true
    → classify_type {E = E} syn regex ty ≡ ok primitive_type
unfolding classify_type
classify_type_float syn regex p E ty segment ends matches =
    rw (is_primitive_type-Ends syn regex p E ty segment ends) (ground arith)

module _ {Buffer : Type 0} where
  -- One turn of the loop, and the turn behind the last flattened field.
  serialize_loop_turn :
      (E : Type 0) (fuel : ℕ) (fields : List (Field Buffer)) (last_field : Bool)
      (cursor cursor' : Cursor Buffer)
      → cursor.flattened_field < flattened_fields fields
      → serialize_body fields 0 last_field cursor ≡ (cursor', false)
      → serialize_loop {E = E} (suc fuel) fields last_field cursor
        ≡ serialize_loop fuel fields last_field cursor'
  unfolding serialize_loop
  serialize_loop_turn E fuel fields last_field cursor cursor' below body =
      let n = flattened_fields fields in
      let more : (cursor.flattened_field == n) ≡ false = ground arith in
      let inside : not (ltb cursor.flattened_field n) ≡ false = ground arith in
      rw more (rw inside (rw body refl))

  serialize_loop_past :
      (E : Type 0) (fuel : ℕ) (fields : List (Field Buffer)) (last_field : Bool)
      (cursor : Cursor Buffer)
      → flattened_fields fields < cursor.flattened_field
      → serialize_loop {E = E} (suc fuel) fields last_field cursor ≡ some panic
  unfolding serialize_loop
  serialize_loop_past E fuel fields last_field cursor past =
      let n = flattened_fields fields in
      let more : (cursor.flattened_field == n) ≡ false = ground arith in
      let outside : not (ltb cursor.flattened_field n) ≡ true = ground arith in
      rw more (rw outside refl)

module _ {S D : Type 0} where
  -- A field whose `serialize` ends behind what the struct takes for its last flattened field.
  serialize_overshoot :
      (E : Type 0) (fuel : ℕ) (t : Serializable S D) (value : t.Value) (last_field : Bool)
      (before after : S)
      → 1 < t.flattened_fields_number
      → Writes last_field (borrow t value) before after
      → serialize {E = E}
          (suc (suc fuel))
          (borrow (record t { flattened_fields_number = 1 }) value ∷ [])
          last_field
          (cursor_at 0 before)
        ≡ some panic
  unfolding serialize
  serialize_overshoot E fuel t value last_field before after long (bit, own) =
      let field = borrow (record t { flattened_fields_number = 1 }) value in
      let body =
        serialize_body_at [] field [] 0 last_field (cursor_at 0 before) refl (omega arith)
        ∙ ap (serialized 0) own in
      serialize_loop_turn E (suc fuel) (field ∷ []) last_field (cursor_at 0 before) _ (omega arith)
        body
      ∙ serialize_loop_past E fuel (field ∷ []) last_field _ (omega arith)

module _ {S D : Type 0} (syn : Syn) (regex : Regex) (impls : Impls S D syn.Ty) where
  -- A struct whose only field has a type with a name that the pattern for floats matches, as it does
  -- every name with 32 or 64 in it, and that is no primitive one: it has more than one flattened
  -- field, and `serialize` finishes behind the last of them. The five patterns of the macro are
  -- valid. The macro takes the field for one flattened field, and the derived `serialize` panics at
  -- the assertion in its loop.
  pub generate-serialize_panic :
      (E : Type 0) (p : Patterns regex) (crate_name : String) (ty : syn.Ty) (segment : syn.Segment)
      → Ends syn ty segment
      → p.float (syn.ident segment) ≡ true
      → (value : (impls.of_type crate_name ty).Value) → (last_field : Bool) → (before after : S)
      → 1 < (impls.of_type crate_name ty).flattened_fields_number
      → Writes last_field (borrow (impls.of_type crate_name ty) value) before after
      → (t : Serializable S D) × (generate {E = E} syn regex impls crate_name (named (ty ∷ []))
          ≡ ok (struct_code (t ∷ [])))
        × ((self : t.Value) × (serialize {E = E} 2
                (borrow t self ∷ [])
                last_field
                (cursor_at 0 before)
              ≡ some panic))
  unfolding generate struct_fields
  generate-serialize_panic E p crate_name ty segment ends matches value last_field before after long
        own =
      let t = impls.of_type crate_name ty in
      let kind = classify_type_float syn regex p E ty segment ends matches in
      (
        record t { flattened_fields_number = 1 },
        rw kind refl,
        (value, serialize_overshoot E 0 t value last_field before after long own),
      )
