-- ===== src/Derive/Progress.antt =====
-- The loop of the derived `serialize`, uavcan-derive/src/lib.rs, turn by turn.
use cyphal_rs.Base.{
  ℕ, zero, suc, ◌+◌, ◌-◌, ◌≤◌, ◌<◌, ◌≡◌, inl, inr, Bool, true, false, Bool-cases, not, ◌&&◌, Option,
  none, some, List, [], ◌∷◌, All, ltb, leb, ◌==◌, if◌then◌else◌, Result, ok, err, panic, arith,
}
use cyphal_rs.Derive.Struct.{
  SerializationResult, finished, buffer_full, Cursor, Field, flattened_fields, is_last, serialized,
  serialize_body, serialize_loop, serialize,
}

module _ {Buffer : Type 0} where
  -- What `serialize` promises of a type with `n` flattened fields, from flattened field `i`: it is
  -- behind the last one when it has finished, and at one not before `i` when the buffer is full.
  abbrev pub Reached : ℕ → ℕ → Cursor Buffer × SerializationResult → Type 0
  Reached n i (cursor, finished) = cursor.flattened_field ≡ n
  Reached n i (cursor, buffer_full) = (i ≤ cursor.flattened_field) × (cursor.flattened_field < n)

  -- A field whose type keeps the promise.
  abbrev pub Keeps : Field Buffer → Type 0
  Keeps field =
      (last_field : Bool) (cursor : Cursor Buffer)
      → cursor.flattened_field < field.flattened_fields_number
      → Reached field.flattened_fields_number cursor.flattened_field
          (field.serialize last_field cursor)

  -- What one turn of the loop does to the cursor.
  abbrev Moved : ℕ → ℕ → Cursor Buffer × Bool → Type 0
  Moved n i (cursor, false) = (i < cursor.flattened_field) × (cursor.flattened_field ≤ n)
  Moved n i (cursor, true) = (i ≤ cursor.flattened_field) × (cursor.flattened_field < n)

  serialized-Moved :
      (index n m i : ℕ) (out : Cursor Buffer × SerializationResult)
      → Reached n (i - index) out
      → index ≤ i
      → i < index + n
      → Moved (index + (n + m)) i (serialized index out)
  serialized-Moved index n m i (cursor, finished) reached from to = (omega arith, omega arith)
  serialized-Moved index n m i (cursor, buffer_full) (after, before) from to =
      (omega arith, omega arith)

  serialize_body-Moved :
      (fields : List (Field Buffer)) (index : ℕ) (last_field : Bool) (cursor : Cursor Buffer)
      → All Keeps fields
      → index ≤ cursor.flattened_field
      → cursor.flattened_field < index + flattened_fields fields
      → Moved
          (index + flattened_fields fields)
          cursor.flattened_field
          (serialize_body fields index last_field cursor)
  unfolding serialize_body
  serialize_body-Moved [] index last_field cursor keeps from to = absurd (omega arith)
  serialize_body-Moved (field ∷ fields) index last_field cursor (keep, keeps) from to =
      let n = field.flattened_fields_number in
      let i = cursor.flattened_field in
      elim (Bool-cases (leb index i && ltb i (index + n))) [
        | inl hit ↦
            let from' : index ≤ i = ground arith in
            let to' : i < index + n = ground arith in
            let own =
              keep (is_last fields && last_field) (record cursor { flattened_field = i - index })
                (omega arith) in
            rw hit (serialized-Moved index n (flattened_fields fields) i _ own from' to')
        | inr miss ↦
            let behind : index + n ≤ i = ground arith in
            let later =
              serialize_body-Moved fields (index + n) last_field cursor keeps behind
                (omega arith) in
            let same : index + n + flattened_fields fields ≡ index + (n + flattened_fields fields) =
              omega arith in
            rw miss (rw (← same) later)
      ]

  -- It returns, and keeps the promise.
  abbrev pub Returns :
      {E : Type 0} → ℕ → ℕ → Option (Result E (Cursor Buffer × SerializationResult)) → Type 0
  Returns n i none = ⊥
  Returns n i (some panic) = ⊥
  Returns n i (some (err e)) = ⊥
  Returns n i (some (ok out)) = Reached n i out

  -- One turn, from the decided end of it: the loop goes on, or the buffer is full.
  turn-Returns :
      (E : Type 0)
      → (n i : ℕ) → (before : Cursor Buffer) → (after : Cursor Buffer × Bool)
      → (rest : Option (Result E (Cursor Buffer × SerializationResult)))
      → i ≤ before.flattened_field
      → Moved n before.flattened_field after
      → (before.flattened_field < after.0.flattened_field
          → after.0.flattened_field ≤ n
          → Returns {E = E} n i rest)
      → Returns {E = E} n i (if after.1 then some (ok (after.0, buffer_full)) else rest)
  turn-Returns E n i before (cursor, true) rest from (after, to) go = (omega arith, to)
  turn-Returns E n i before (cursor, false) rest from (after, to) go = go after to

  serialize_loop-Returns :
      (E : Type 0)
      → (fuel i : ℕ) → (fields : List (Field Buffer)) → (last_field : Bool)
      → (cursor : Cursor Buffer) → All Keeps fields
      → i ≤ cursor.flattened_field
      → cursor.flattened_field ≤ flattened_fields fields
      → flattened_fields fields < cursor.flattened_field + fuel
      → Returns (flattened_fields fields) i (serialize_loop {E = E} fuel fields last_field cursor)
  unfolding serialize_loop
  serialize_loop-Returns E zero i fields last_field cursor keeps from to enough =
      absurd (omega arith)
  serialize_loop-Returns E (suc fuel) i fields last_field cursor keeps from to enough =
      let n = flattened_fields fields in
      let at = cursor.flattened_field in
      elim (Bool-cases (at == n)) [
        | inl all ↦ let end : at ≡ n = ground arith in rw all end
        | inr more ↦
            let below : at < n = ground arith in
            let inside : not (ltb at n) ≡ false = ground arith in
            let start : 0 + n ≡ n = omega arith in
            let moved : Moved n at (serialize_body fields 0 last_field cursor) =
              rw (← start) (
                serialize_body-Moved fields 0 last_field cursor keeps (omega arith)
                  (omega arith)) in
            rw more (
              rw inside (
                turn-Returns E n i cursor (serialize_body fields 0 last_field cursor) _ from moved
                  (λ after to'.
                    serialize_loop-Returns E fuel i fields last_field _ keeps (omega arith) to'
                      (omega arith))))
      ]

  -- When each field, begun inside its flattened fields, finishes behind its last one or fills the
  -- buffer at one not before where it began, then so does the struct: begun inside its flattened
  -- fields, `serialize` neither panics nor runs its loop more than once for each of them and once
  -- to see the end.
  pub serialize-Returns :
      (E : Type 0)
      → (fields : List (Field Buffer)) → (last_field : Bool) → (cursor : Cursor Buffer)
      → All Keeps fields
      → cursor.flattened_field < flattened_fields fields
      → Returns
          (flattened_fields fields)
          cursor.flattened_field
          (serialize {E = E} (suc (flattened_fields fields)) fields last_field cursor)
  unfolding serialize
  serialize-Returns E fields last_field cursor keeps inside =
      let n = flattened_fields fields in
      let passes : not (ltb cursor.flattened_field n) ≡ false = ground arith in
      rw passes (
        serialize_loop-Returns E (suc n) cursor.flattened_field fields last_field cursor keeps
          (omega arith) (omega arith) (omega arith))
