-- ===== src/Derive/RoundTrip.antt =====
-- What the derived `serialize` of uavcan-derive/src/lib.rs writes, read by the derived `deserialize`.
use mathlib.Core.List.{append_assoc, append-nil}
use cyphal_rs.Base.{
  ℕ, suc, ◌+◌, ◌≤◌, ◌<◌, ◌≡◌, refl, sym, ap, ◌∙◌, Bool, true, ◌&&◌, some, List, [], ◌∷◌, ◌++◌,
  length, length-append, All, ok, arith,
}
use cyphal_rs.Derive.Struct.{finished, flattened_fields, is_last, serialize}
use cyphal_rs.Derive.Order.{Writes, WritesAll, cursor_at, serialize-WritesAll}
use cyphal_rs.Derive.Serializable.{complete, Serializable, Struct, borrow, borrowed}
use cyphal_rs.Derive.Deserialize.{flattened_types, is_last_type, deserialize}
use cyphal_rs.Derive.Reading.{Reads, ReadsAll, deserialize-ReadsAll}

-- What the buffers hold: the bits that are written and the number that there is room for, and the
-- bits that are not read yet.
pub record Buffers (S D : Type 0) : Type 0 where
  pub written : S → List Bool
  pub room : S → ℕ
  pub unread : D → List Bool

module _ {S D : Type 0} (b : Buffers S D) where
  -- The contract of a type: there are bits for a value, which `serialize` appends where there is
  -- room and `deserialize` reads. The last field may end where the buffer ends.
  pub record Codec (t : Serializable S D) : Type 0 where
    pub some_field : 0 < t.flattened_fields_number
    pub encode : Bool → t.Value → List Bool
    pub writes :
        (value : t.Value) (last_field : Bool) (before : S)
        → length (encode last_field value) ≤ b.room before
        → (after : S) × (Writes last_field (borrow t value) before after
            × ((b.written after ≡ b.written before ++ encode last_field value)
                × (b.room after + length (encode last_field value) ≡ b.room before)))
    pub reads :
        (new old : t.Value) (last_field : Bool) (before : D) (rest : List Bool)
        → b.unread before ≡ encode last_field new ++ rest
        → (last_field ≡ true → rest ≡ [])
        → (after : D) × (Reads last_field t new old before after × (b.unread after ≡ rest))

  abbrev pub encoded :
      (types : List (Serializable S D)) → All Codec types → Bool → Struct types → List Bool
  encoded [] codecs last_field self = []
  encoded (t ∷ types) (codec, codecs) last_field (value, self) =
      codec.encode (is_last_type types && last_field) value ++ encoded types codecs last_field self

  is_last-borrowed :
      (types : List (Serializable S D)) (self : Struct types)
      → is_last (borrowed types self) ≡ is_last_type types
  is_last-borrowed [] self = refl
  is_last-borrowed (t ∷ types) self = refl

  length-borrowed :
      (types : List (Serializable S D)) (self : Struct types)
      → length (borrowed types self) ≡ length types
  length-borrowed [] self = refl
  length-borrowed (t ∷ types) (value, self) = ap suc (length-borrowed types self)

  borrowed-WritesAll :
      (types : List (Serializable S D)) (codecs : All Codec types) (self : Struct types)
      (last_field : Bool) (before : S)
      → length (encoded types codecs last_field self) ≤ b.room before
      → (after : S) × (WritesAll last_field (borrowed types self) before after
          × (b.written after ≡ b.written before ++ encoded types codecs last_field self))
  borrowed-WritesAll [] codecs self last_field before fits = (before, (refl, sym (append-nil _)))
  borrowed-WritesAll (t ∷ types) (codec, codecs) (value, self) last_field before fits =
      let last = is_last_type types && last_field in
      let split = length-append (codec.encode last value) (encoded types codecs last_field self) in
      let (between, (own, (wrote, left))) = codec.writes value last before (omega (arith, split)) in
      let (after, (others, wrote')) =
        borrowed-WritesAll types codecs self last_field between (omega (arith, split)) in
      let tail =
        append_assoc (b.written before) (codec.encode last value)
          (encoded types codecs last_field self) in
      (
        after,
        (
          (codec.some_field, (between, (rw (is_last-borrowed types self) own, others))),
          wrote' ∙ rw wrote tail,
        ),
      )

  -- The last field ends where the struct ends.
  ends_behind :
      (types : List (Serializable S D)) (codecs : All Codec types) (self : Struct types)
      (last_field : Bool) (rest : List Bool)
      → (last_field ≡ true → rest ≡ [])
      → (is_last_type types && last_field) ≡ true
      → encoded types codecs last_field self ++ rest ≡ []
  ends_behind [] codecs self last_field rest ends last = ends last
  ends_behind (t ∷ types) codecs self last_field rest ends last = cc

  ReadsAll-encoded :
      (types : List (Serializable S D)) (codecs : All Codec types) (new old : Struct types)
      (last_field : Bool) (before : D) (rest : List Bool)
      → b.unread before ≡ encoded types codecs last_field new ++ rest
      → (last_field ≡ true → rest ≡ [])
      → (after : D) × (ReadsAll last_field types new old before after × (b.unread after ≡ rest))
  ReadsAll-encoded [] codecs new old last_field before rest holds ends = (before, (refl, holds))
  ReadsAll-encoded (t ∷ types) (codec, codecs) (v, new) (w, old) last_field before rest holds ends =
      let others = encoded types codecs last_field new in
      let last = is_last_type types && last_field in
      let holds' = holds ∙ append_assoc (codec.encode last v) others rest in
      let (between, (own, left)) =
        codec.reads v w last before (others ++ rest) holds'
          (ends_behind types codecs new last_field rest ends) in
      let (after, (tail, left')) =
        ReadsAll-encoded types codecs new old last_field between rest left ends in
      (after, ((codec.some_field, (between, (own, tail))), left'))

  -- A struct with at least one field, each with bits for its values that its `serialize` appends
  -- where there is room and its `deserialize` reads back, the last one of a last struct up to the
  -- end of the buffer: where there is room for the bits of all fields, the derived `serialize`
  -- finishes and has appended them in the order of the declaration; and from a buffer with these
  -- bits, and behind them what is left, which is nothing if the struct is the last one, the derived
  -- `deserialize` gives every field the value that was serialized and leaves the rest, whatever the
  -- fields held before. Both take one turn for each field and one to see the end.
  pub deserialize-serialize :
      (E : Type 0)
      → (t : Serializable S D) → (types : List (Serializable S D))
      → (codecs : All Codec (t ∷ types)) → (self old : Struct (t ∷ types)) → (last_field : Bool)
      → (buffer : S) → (source : D) → (rest : List Bool)
      → length (encoded (t ∷ types) codecs last_field self) ≤ b.room buffer
      → b.unread source ≡ encoded (t ∷ types) codecs last_field self ++ rest
      → (last_field ≡ true → rest ≡ [])
      → ((after : S) × (serialize {E = E}
              (2 + length types)
              (borrowed (t ∷ types) self)
              last_field
              (cursor_at 0 buffer)
            ≡ some (ok (cursor_at (flattened_fields (borrowed (t ∷ types) self)) after, finished)))
          × (b.written after ≡ b.written buffer ++ encoded (t ∷ types) codecs last_field self))
        × ((left : D) × (deserialize {E = E}
                (2 + length types)
                (t ∷ types)
                old
                last_field
                (cursor_at 0 source)
              ≡ some (ok ((self, cursor_at (flattened_types (t ∷ types)) left), complete)))
            × (b.unread left ≡ rest))
  deserialize-serialize E t types codecs self old last_field buffer source rest fits holds ends =
      let (after, (writes, wrote)) =
        borrowed-WritesAll (t ∷ types) codecs self last_field buffer fits in
      let (left, (reads, unread)) =
        ReadsAll-encoded (t ∷ types) codecs self old last_field source rest holds ends in
      let some_field = codecs.0.some_field in
      let counted = length-borrowed types self.1 in
      let fuel = 2 + length types in
      (
        (
          after,
          serialize-WritesAll E fuel (borrow t self.0) (borrowed types self.1) last_field buffer
              after writes (omega arith),
          wrote,
        ),
        (
          left,
          deserialize-ReadsAll E fuel (t ∷ types) self old last_field source left reads
              (omega arith) (omega arith),
          unread,
        ),
      )
