-- ===== src/Derive/Order.antt =====
-- The derived `serialize` of uavcan-derive/src/lib.rs, when every field finishes.
use mathlib.Core.List.{append_assoc}
use cyphal_rs.Base.{
  ℕ, zero, suc, ◌+◌, ◌-◌, ◌<◌, ◌≡◌, refl, ap, ◌∙◌, Bool, true, false, not, ◌&&◌, some, List, [],
  ◌∷◌, ◌++◌, length, ltb, leb, ◌==◌, ok, arith,
}
use cyphal_rs.Derive.Struct.{
  finished, Cursor, Field, flattened_fields, is_last, serialized, serialize_body, serialize_loop,
  serialize,
}

module _ {Buffer : Type 0} where
  -- A field that, begun at its first bit, finishes and takes the first buffer to the second one.
  abbrev pub Writes : Bool → Field Buffer → Buffer → Buffer → Type 0
  Writes last_field field before after =
      (bit : ℕ) × (field.serialize last_field
          (record { flattened_field = 0; bit = 0; buffer = before })
        ≡ (
          record { flattened_field = field.flattened_fields_number; bit = bit; buffer = after },
          finished,
        ))

  -- Each field once, in the order of the declaration; the last one alone is told so, if the struct is.
  abbrev pub WritesAll : Bool → List (Field Buffer) → Buffer → Buffer → Type 0
  WritesAll last_field [] before after = before ≡ after
  WritesAll last_field (field ∷ fields) before after =
      (0 < field.flattened_fields_number)
      × ((between : Buffer) × (Writes (is_last fields && last_field) field before between
            × WritesAll last_field fields between after))

  -- The branch that is taken at the first flattened field of a field.
  pub serialize_body_at :
      (passed : List (Field Buffer)) (field : Field Buffer) (fields : List (Field Buffer))
      (index : ℕ) (last_field : Bool) (cursor : Cursor Buffer)
      → cursor.flattened_field ≡ index + flattened_fields passed
      → 0 < field.flattened_fields_number
      → serialize_body (passed ++ (field ∷ fields)) index last_field cursor
        ≡ serialized cursor.flattened_field
            (field.serialize (is_last fields && last_field) (record cursor { flattened_field = 0 }))
  unfolding serialize_body
  serialize_body_at [] field fields index last_field cursor at some_field =
      let i = cursor.flattened_field in
      let hit : leb index i && ltb i (index + field.flattened_fields_number) ≡ true =
        ground arith in
      let here : index ≡ i = omega arith in
      let first : i - index ≡ 0 = omega arith in rw hit (rw first (rw here refl))
  serialize_body_at (other ∷ passed) field fields index last_field cursor at some_field =
      let i = cursor.flattened_field in
      let miss : leb index i && ltb i (index + other.flattened_fields_number) ≡ false =
        ground arith in
      rw miss (
        serialize_body_at passed field fields (index + other.flattened_fields_number) last_field
          cursor (omega arith) some_field)

  flattened_fields-append :
      (passed fields : List (Field Buffer))
      → flattened_fields (passed ++ fields) ≡ flattened_fields passed + flattened_fields fields
  flattened_fields-append [] fields = omega arith
  flattened_fields-append (field ∷ passed) fields =
      omega (arith, flattened_fields-append passed fields)

  abbrev pub cursor_at : ℕ → Buffer → Cursor Buffer
  cursor_at i buffer = record { flattened_field = i; bit = 0; buffer = buffer }

  serialize_loop_from :
      (E : Type 0)
      → (fuel i : ℕ) → (passed fields : List (Field Buffer)) → (last_field : Bool)
      → (before after : Buffer) → i ≡ flattened_fields passed
      → WritesAll last_field fields before after
      → length fields < fuel
      → serialize_loop {E = E} fuel (passed ++ fields) last_field (cursor_at i before)
        ≡ some (ok (cursor_at (flattened_fields (passed ++ fields)) after, finished))
  unfolding serialize_loop
  serialize_loop_from E zero i passed fields last_field before after at writes enough =
      absurd (omega arith)
  serialize_loop_from E (suc fuel) i passed [] last_field before after at writes enough =
      let total = flattened_fields-append passed [] in
      let all : i ≡ flattened_fields (passed ++ []) = omega (arith, total) in
      let end : (i == flattened_fields (passed ++ [])) ≡ true = ground arith in
      rw end (rw (← all, writes) refl)
  serialize_loop_from E (suc fuel) i passed (field ∷ fields) last_field before after at
        (some_field, (between, ((bit, own), writes))) enough =
      let n = flattened_fields (passed ++ (field ∷ fields)) in
      let total = flattened_fields-append passed (field ∷ fields) in
      let below : i < n = omega (arith, total) in
      let more : (i == n) ≡ false = ground arith in
      let inside : not (ltb i n) ≡ false = ground arith in
      let body : serialize_body (passed ++ (field ∷ fields)) 0 last_field (cursor_at i before)
          ≡ (cursor_at (i + field.flattened_fields_number) between, false) =
        serialize_body_at passed field fields 0 last_field (cursor_at i before) (omega arith)
          some_field
        ∙ ap (serialized i) own in
      let next : (passed ++ (field ∷ [])) ++ fields ≡ passed ++ (field ∷ fields) =
        append_assoc passed (field ∷ []) fields in
      let rest =
        serialize_loop_from E fuel (i + field.flattened_fields_number) (passed ++ (field ∷ []))
          fields last_field between after
          (omega (arith, flattened_fields-append passed (field ∷ []))) writes (omega arith) in
      rw more (rw inside (rw body (rw next at rest)))

  -- A struct with at least one field, serialized from its start, when each field finishes on its
  -- own and has at least one flattened field: each field is serialized once, in the order of the
  -- declaration, to the buffer that the one before it left, and the last one alone is told that it
  -- is, if the struct is; `serialize` has finished, behind the last flattened field. One turn of
  -- the loop for each field, and one to see the end, are enough.
  pub serialize-WritesAll :
      (E : Type 0)
      → (fuel : ℕ) → (field : Field Buffer) → (fields : List (Field Buffer)) → (last_field : Bool)
      → (before after : Buffer) → WritesAll last_field (field ∷ fields) before after
      → length (field ∷ fields) < fuel
      → serialize {E = E} fuel (field ∷ fields) last_field (cursor_at 0 before)
        ≡ some (ok (cursor_at (flattened_fields (field ∷ fields)) after, finished))
  unfolding serialize
  serialize-WritesAll E fuel field fields last_field before after writes enough =
      let n = flattened_fields (field ∷ fields) in
      let passes : not (ltb 0 n) ≡ false = let some_field = writes.0 in ground arith in
      rw passes (
        serialize_loop_from E fuel 0 [] (field ∷ fields) last_field before after refl writes enough)
