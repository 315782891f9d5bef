-- ===== src/Packing/Words.antt =====
-- What `insert_u8_array_in_u32_array` writes, examples/embedded/src/util.rs.
use mathlib.Core.List.{append_assoc}
use cyphal_rs.Base.{
  ℕ, suc, ◌+◌, ◌-◌, ◌*◌, ◌/◌, ◌%◌, ◌^◌, ◌≤◌, ◌<◌, ◌≡◌, refl, ap, ◌∙◌, List, [], ◌∷◌, ◌++◌, leb, ltb,
  ◌==◌, if◌then◌else◌, true, false, length, length-append, set, set-append, take, drop, take-append,
  drop-append, ok, arith,
}
use cyphal_rs.Packing.{slice_into_u32, fill_words, insert_u8_array_in_u32_array}

-- Whole words, four bytes each.
abbrev pub packed : List (List ℕ) → List ℕ
packed [] = []
packed (q ∷ qs) = slice_into_u32 q ∷ packed qs

abbrev pub flat : List (List ℕ) → List ℕ
flat [] = []
flat (q ∷ qs) = q ++ flat qs

abbrev pub Fours : List (List ℕ) → Type 0
Fours [] = Unit {0}
Fours (q ∷ qs) = (length q ≡ 4) × Fours qs

length-flat : (qs : List (List ℕ)) → Fours qs → length (flat qs) ≡ 4 * length qs
length-flat [] h = refl
length-flat (q ∷ qs) (four, h) = omega (arith, length-append q (flat qs), length-flat qs h)

length-packed : (qs : List (List ℕ)) → length (packed qs) ≡ length qs
length-packed [] = refl
length-packed (q ∷ qs) = ap suc (length-packed qs)

-- The loop fills the words of the quads that stand behind `before`.
fill_words_lem :
    {E : Type 0} (qs : List (List ℕ)) (index : ℕ) (before tail front back : List ℕ)
    → Fours qs
    → length before ≡ index * 4
    → length front ≡ length qs
    → fill_words {E = E} (length qs) index (before ++ (flat qs ++ tail)) (front ++ back)
      ≡ ok (packed qs ++ back)
unfolding fill_words
fill_words_lem [] index before tail [] back fours at len = refl
fill_words_lem [] index before tail (x ∷ front) back fours at len = absurd (omega arith)
fill_words_lem (q ∷ qs) index before tail [] back fours at len = absurd (omega arith)
fill_words_lem {E} (q ∷ qs) index before tail (x ∷ front) back (four, fours) at len =
    let bytes = before ++ (flat (q ∷ qs) ++ tail) in
    let here : drop (index * 4) bytes ≡ q ++ (flat qs ++ tail) =
      rw (← at, append_assoc) (drop-append before (q ++ (flat qs ++ tail))) in
    let quad : take 4 (q ++ (flat qs ++ tail)) ≡ q =
      rw (← four) (take-append q (flat qs ++ tail)) in
    let moved : (before ++ q) ++ (flat qs ++ tail) ≡ bytes = rw (append_assoc, append_assoc) refl in
    let rest =
      fill_words_lem {E = E} qs (suc index) (before ++ q) tail front back fours
        (omega (arith, length-append before q)) (omega arith) in
    let room : index * 4 + 4 ≤ length bytes = omega (
      arith,
      length-append before (flat (q ∷ qs) ++ tail),
      length-append q (flat qs),
      length-append (q ++ flat qs) tail,
    ) in
    let all = rw moved at rest in
    let cell = ap slice_into_u32 (ap (take 4) here ∙ quad) in
    let fits : leb (index * 4 + 4) (length bytes) ≡ true = ground arith in rw (all, fits, cell) refl

-- Any number of quads, and then one to four bytes: `insert_u8_array_in_u32_array` writes a word for
-- each quad and one for the bytes that are left, in order, and leaves the words behind them.
pub insert_u8_array_in_u32_array_lem :
    {E : Type 0} (qs : List (List ℕ)) (tail front back : List ℕ) (word : ℕ)
    → Fours qs
    → 0 < length tail
    → length tail ≤ 4
    → length front ≡ length qs
    → insert_u8_array_in_u32_array {E = E} (flat qs ++ tail) (front ++ (word ∷ back))
      ≡ ok (packed qs ++ (slice_into_u32 tail ∷ back))
unfolding insert_u8_array_in_u32_array
insert_u8_array_in_u32_array_lem {E} qs tail front back word fours some_left few len =
    let bytes = flat qs ++ tail in
    let total : length bytes ≡ 4 * length qs + length tail =
      omega (arith, length-append (flat qs) tail, length-flat qs fours) in
    let final : (length bytes + 3) / 4 - 1 ≡ length qs = omega arith in
    let filled = fill_words_lem {E = E} qs 0 [] tail front (word ∷ back) fours refl len in
    let behind : drop (length (flat qs)) bytes ≡ tail = drop-append (flat qs) tail in
    let at = length-packed qs in
    let wide = length-append (packed qs) (word ∷ back) in
    let written = set-append (packed qs) word (slice_into_u32 tail) back in
    let some_words : ((length bytes + 3) / 4 == 0) ≡ false = ground arith in
    let left : length bytes - (if length bytes % 4 == 0 then 4 else length bytes % 4)
        ≡ length (flat qs) =
      ground (arith, length-flat qs fours) in
    let fits : ltb (length qs) (length (packed qs ++ (word ∷ back))) ≡ true = ground arith in
    let written' : set (packed qs ++ (word ∷ back)) (length qs) (slice_into_u32 tail)
        ≡ packed qs ++ (slice_into_u32 tail ∷ back) =
      rw at at written in
    rw (some_words, final, filled, fits, left, behind, written') refl

-- The bytes of a word, first the highest.
abbrev bytes_of : ℕ → List ℕ
bytes_of w = w / 2 ^ 24 % 256 ∷ (w / 2 ^ 16 % 256 ∷ (w / 2 ^ 8 % 256 ∷ (w % 256 ∷ [])))

four_bytes :
    (w a b c d : ℕ)
    → a < 256
    → b < 256
    → c < 256
    → d < 256
    → w ≡ a * 2 ^ 24 + b * 2 ^ 16 + c * 2 ^ 8 + d
    → bytes_of w ≡ a ∷ (b ∷ (c ∷ (d ∷ [])))
four_bytes w a b c d ha hb hc hd made =
    let e₁ : w / 2 ^ 24 % 256 ≡ a = omega arith in
    let e₂ : w / 2 ^ 16 % 256 ≡ b = omega arith in
    let e₃ : w / 2 ^ 8 % 256 ≡ c = omega arith in let e₄ : w % 256 ≡ d = omega arith in cc

-- One to four bytes are the first bytes of the word that `slice_into_u32` makes of them, from the
-- highest on, and the others are 0.
bytes_of-slice_into_u32 :
    (a b c d : ℕ)
    → a < 256
    → b < 256
    → c < 256
    → d < 256
    → (bytes_of (slice_into_u32 (a ∷ (b ∷ (c ∷ (d ∷ []))))) ≡ a ∷ (b ∷ (c ∷ (d ∷ []))))
      × (bytes_of (slice_into_u32 (a ∷ (b ∷ (c ∷ [])))) ≡ a ∷ (b ∷ (c ∷ (0 ∷ []))))
      × (bytes_of (slice_into_u32 (a ∷ (b ∷ []))) ≡ a ∷ (b ∷ (0 ∷ (0 ∷ []))))
      × (bytes_of (slice_into_u32 (a ∷ [])) ≡ a ∷ (0 ∷ (0 ∷ (0 ∷ []))))
unfolding slice_into_u32
bytes_of-slice_into_u32 a b c d ha hb hc hd = (
  four_bytes _ a b c d ha hb hc hd refl,
  four_bytes _ a b c 0 ha hb hc (omega arith) (omega arith),
  four_bytes _ a b 0 0 ha hb (omega arith) (omega arith) (omega arith),
  four_bytes _ a 0 0 0 ha (omega arith) (omega arith) (omega arith) (omega arith),
)
