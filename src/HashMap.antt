-- ===== src/HashMap.antt =====
-- `std::collections::HashMap` from `u64` keys, as an association list with at most one entry for a
-- key. Its order stands for the unspecified order of iteration.
use cyphal_rs.Base.{
  ℕ, ◌≡◌, refl, Option, none, some, List, [], ◌∷◌, ◌==◌, ==-refl, if◌then◌else◌, Bool-cases, inl,
  inr, Result, ok, ◌>>=◌, >>=-eq-ok, arith,
}

module _ {ℓ} {V : Type ℓ} where
  unfoldable pub get : ℕ → List (ℕ × V) → Option V
  get key [] = none
  get key (entry ∷ rest) = if entry.0 == key then some entry.1 else get key rest

  unfoldable pub insert : ℕ → V → List (ℕ × V) → List (ℕ × V)
  insert key value [] = (key, value) ∷ []
  insert key value (entry ∷ rest) =
      let kept = insert key value rest in
      if entry.0 == key then (key, value) ∷ rest else entry ∷ kept

  unfoldable pub remove : ℕ → List (ℕ × V) → List (ℕ × V)
  remove k [] = []
  remove k ((j, w) ∷ m) = if j == k then remove k m else (j, w) ∷ remove k m

  -- `for (_, value) in map.iter_mut()`, with a body that may panic.
  unfoldable pub for_values :
      {E : Type 0} → (V → Result E V) → List (ℕ × V) → Result E (List (ℕ × V))
  for_values body [] = ok []
  for_values body ((k, v) ∷ m) = do v' ← body v; m' ← for_values body m; ok ((k, v') ∷ m')

  pub get-insert :
      (key other : ℕ) (value : V) (entries : List (ℕ × V))
      → get other (insert key value entries)
        ≡ (if key == other then some value else get other entries)
  unfolding get insert
  get-insert key other value [] = refl
  get-insert key other value (entry ∷ rest) = ground (arith, get-insert key other value rest)

  pub get-insert_self : (k : ℕ) (v : V) (m : List (ℕ × V)) → get k (insert k v m) ≡ some v
  get-insert_self k v m = rw (get-insert, ==-refl k)

  pub get-remove :
      (k j : ℕ) (m : List (ℕ × V)) → get j (remove k m) ≡ (if k == j then none else get j m)
  unfolding get remove
  get-remove k j [] = ground arith
  get-remove k j ((i, w) ∷ m) = ground (arith, get-remove k j m)

  pub get-remove_self : (k : ℕ) (m : List (ℕ × V)) → get k (remove k m) ≡ none
  get-remove_self k m = rw (get-remove, ==-refl k)

  -- A loop that ends has run its body once on the value of each key.
  pub get-for_values :
      {E : Type 0} (body : V → Result E V) (m m' : List (ℕ × V)) (k : ℕ) (v : V)
      → for_values body m ≡ ok m'
      → get k m ≡ some v
      → (v' : V) × (body v ≡ ok v') × (get k m' ≡ some v')
  unfolding for_values get
  get-for_values body [] m' k v e h = cc
  get-for_values body ((i, w) ∷ m) m' k v e h =
      let (w', done, rest) = >>=-eq-ok (body w) _ e in
      let (m″, more, made) = >>=-eq-ok (for_values body m) _ rest in
      elim (Bool-cases (i == k)) [
        | inl hit ↦ (w', ground arith, ground arith)
        | inr miss ↦
            let (v', e₁, e₂) = get-for_values body m m″ k v more (ground arith) in
            (v', e₁, ground arith)
      ]

  -- And each value that is left was made by the body from the value that the key had.
  pub get-for_values_before :
      {E : Type 0} (body : V → Result E V) (m m' : List (ℕ × V)) (k : ℕ) (v' : V)
      → for_values body m ≡ ok m'
      → get k m' ≡ some v'
      → (v : V) × (get k m ≡ some v) × (body v ≡ ok v')
  unfolding for_values get
  get-for_values_before body [] m' k v' e h = cc
  get-for_values_before body ((i, w) ∷ m) m' k v' e h =
      let (w', done, rest) = >>=-eq-ok (body w) _ e in
      let (m″, more, made) = >>=-eq-ok (for_values body m) _ rest in
      elim (Bool-cases (i == k)) [
        | inl hit ↦ (w, ground arith, ground arith)
        | inr miss ↦
            let (v, e₁, e₂) = get-for_values_before body m m″ k v' more (ground arith) in
            (v, ground arith, e₂)
      ]
