-- ===== src/Derive/Reading.antt =====
-- The derived `deserialize` of uavcan-derive/src/lib.rs, when every field is complete.
use cyphal_rs.Base.{
  ℕ, zero, suc, ◌+◌, ◌-◌, ◌≤◌, ◌<◌, ◌≡◌, refl, ap, ◌⊎◌, inl, inr, Bool, true, false, not, ◌&&◌,
  some, List, [], ◌∷◌, length, ltb, leb, ◌==◌, ok, arith,
}
use cyphal_rs.Derive.Order.{cursor_at}
use cyphal_rs.Derive.Serializable.{complete, Serializable, Struct}
use cyphal_rs.Derive.Deserialize.{
  flattened_types, is_last_type, deserialize_body, deserialize_loop, deserialize,
}

module _ {S D : Type 0} where
  -- A type whose `deserialize`, begun at its first bit over the second value, is complete with the
  -- first one and takes the first buffer to the second one.
  abbrev pub Reads : Bool → (t : Serializable S D) → t.Value → t.Value → D → D → Type 0
  Reads last_field t new old before after =
      (bit : ℕ) × (t.deserialize old last_field (cursor_at 0 before) ≡ (
        (new, record { flattened_field = t.flattened_fields_number; bit = bit; buffer = after }),
        complete,
      ))

  -- Each field once, in the order of the declaration.
  abbrev pub ReadsAll :
      Bool → (types : List (Serializable S D)) → Struct types → Struct types → D → D → Type 0
  ReadsAll last_field [] new old before after = before ≡ after
  ReadsAll last_field (t ∷ types) (v, new) (w, old) before after =
      (0 < t.flattened_fields_number)
      × ((between : D) × (Reads (is_last_type types && last_field) t v w before between
            × ReadsAll last_field types new old between after))

  -- The first `k` fields are new, and the others are still to be read.
  abbrev From :
      Bool → ℕ → (types : List (Serializable S D)) → Struct types → Struct types → D → D → Type 0
  From last_field zero types new old before after = ReadsAll last_field types new old before after
  From last_field (suc k) [] new old before after = ⊥
  From last_field (suc k) (t ∷ types) (v, new) (w, old) before after =
      From last_field k types new old before after

  abbrev mixed : ℕ → (types : List (Serializable S D)) → Struct types → Struct types → Struct types
  mixed zero types new old = old
  mixed (suc k) [] new old = old
  mixed (suc k) (t ∷ types) (v, new) (w, old) = (v, mixed k types new old)

  abbrev offset : ℕ → List (Serializable S D) → ℕ
  offset zero types = 0
  offset (suc k) [] = 0
  offset (suc k) (t ∷ types) = t.flattened_fields_number + offset k types

  -- One turn of the loop reads the next field.
  abbrev Turn :
      Bool
      → ℕ
      → ℕ
      → (types : List (Serializable S D)) → Struct types
      → Struct types
      → D
      → D
      → Type 0
  Turn last_field index k types new old before after =
      (between : D) × ((offset k types < flattened_types types)
        × ((deserialize_body types (mixed k types new old) index last_field
                (cursor_at (index + offset k types) before)
              ≡ (
                (mixed (suc k) types new old, cursor_at (index + offset (suc k) types) between),
                false,
              ))
            × From last_field (suc k) types new old between after))

  abbrev End : ℕ → (types : List (Serializable S D)) → Struct types → Struct types → D → D → Type 0
  End k types new old before after =
      (offset k types ≡ flattened_types types) × ((mixed k types new old ≡ new) × (before ≡ after))

  From-cases :
      (last_field : Bool) (index k : ℕ) (types : List (Serializable S D)) (new old : Struct types)
      (before after : D)
      → From last_field k types new old before after
      → End k types new old before after ⊎ Turn last_field index k types new old before after
  unfolding deserialize_body
  From-cases last_field index zero [] new old before after reads = inl (refl, (refl, reads))
  From-cases last_field index zero (t ∷ types) (v, new) (w, old) before after
        (some_field, (between, ((bit, own), reads))) =
      let n = t.flattened_fields_number in
      let i = index + 0 in
      let hit : leb index i && ltb i (index + n) ≡ true = ground arith in
      let first : i - index ≡ 0 = omega arith in
      let next : index + (n + 0) ≡ index + n = omega arith in
      inr (between, (omega arith, (rw hit (rw first (rw (own, next) refl)), reads)))
  From-cases last_field index (suc k) [] new old before after reads = absurd reads
  From-cases last_field index (suc k) (t ∷ types) (v, new) (w, old) before after reads =
      let n = t.flattened_fields_number in
      elim (From-cases last_field (index + n) k types new old before after reads) [
        | inl (all, (same, end)) ↦ inl (omega arith, (ap (λ rest. (v, rest)) same, end))
        | inr (between, (below, (turn, rest))) ↦
            let i = index + (n + offset k types) in
            let miss : leb index i && ltb i (index + n) ≡ false = ground arith in
            let here : index + n + offset k types ≡ i = omega arith in
            let there : index + n + offset (suc k) types ≡ index + (n + offset (suc k) types) =
              omega arith in
            inr (between, (omega arith, (rw miss (rw (rw (here, there) at turn) refl), rest)))
      ]

  From-le :
      (last_field : Bool) (k : ℕ) (types : List (Serializable S D)) (new old : Struct types)
      (before after : D)
      → From last_field k types new old before after
      → k ≤ length types
  From-le last_field zero types new old before after reads = omega arith
  From-le last_field (suc k) [] new old before after reads = absurd reads
  From-le last_field (suc k) (t ∷ types) (v, new) (w, old) before after reads =
      omega (arith, From-le last_field k types new old before after reads)

  deserialize_loop-From :
      (E : Type 0)
      → (fuel k : ℕ) → (types : List (Serializable S D)) → (new old : Struct types)
      → (last_field : Bool) → (before after : D) → From last_field k types new old before after
      → length types < k + fuel
      → deserialize_loop {E = E} fuel types
          (mixed k types new old)
          last_field
          (cursor_at (offset k types) before)
        ≡ some (ok ((new, cursor_at (flattened_types types) after), complete))
  unfolding deserialize_loop
  deserialize_loop-From E zero k types new old last_field before after reads enough =
      let inside = From-le last_field k types new old before after reads in absurd (omega arith)
  deserialize_loop-From E (suc fuel) k types new old last_field before after reads enough =
      let n = flattened_types types in
      elim (From-cases last_field 0 k types new old before after reads) [
        | inl (all, (same, end)) ↦
            let over : (offset k types == n) ≡ true = ground arith in
            rw over (rw (same, all, end) refl)
        | inr (between, (below, (turn, rest))) ↦
            let more : (offset k types == n) ≡ false = ground arith in
            let inside : not (ltb (offset k types) n) ≡ false = ground arith in
            let here : 0 + offset k types ≡ offset k types = omega arith in
            let there : 0 + offset (suc k) types ≡ offset (suc k) types = omega arith in
            let turn' = rw (here, there) at turn in
            rw more (
              rw inside (
                rw turn' (
                  deserialize_loop-From E fuel (suc k) types new old last_field between after rest
                    (omega arith))))
      ]

  pub deserialize-ReadsAll :
      (E : Type 0)
      → (fuel : ℕ) → (types : List (Serializable S D)) → (new old : Struct types)
      → (last_field : Bool) → (before after : D) → ReadsAll last_field types new old before after
      → 0 < flattened_types types
      → length types < fuel
      → deserialize {E = E} fuel types old last_field (cursor_at 0 before)
        ≡ some (ok ((new, cursor_at (flattened_types types) after), complete))
  unfolding deserialize
  deserialize-ReadsAll E fuel types new old last_field before after reads some_field enough =
      let passes : not (ltb 0 (flattened_types types)) ≡ false = ground arith in
      rw passes
        (deserialize_loop-From E fuel 0 types new old last_field before after reads (omega arith))
