-- ===== src/Bitfields/CanMessageId.antt =====
-- The fields of a message frame's CAN ID, `CanMessageId` of
-- cyphal/src/transport/can/bitfields.rs. An ID is the `u32` that the type wraps.
use cyphal_rs.Base.{
  not, ap, ℕ, ◌+◌, ◌*◌, ◌%◌, ◌^◌, ◌≤◌, ◌≡◌, Bool, true, false, ◌||◌, Option, none, some,
  if◌then◌else◌, flag, flag_lem, Result, ok, ◌>>=◌, unwrap, arith,
}
use cyphal_rs.Crates.{Crates, bit_eq}
use cyphal_rs.Types.{Priority, PortId, NodeId, priority_as_u8, priority-lt}

-- `Option::unwrap_or(4)`.
abbrev pub source_or_four : Option NodeId → NodeId
source_or_four none = 4
source_or_four (some id) = id

abbrev pub is_none : Option NodeId → Bool
is_none none = true
is_none (some id) = false

module _ ⦃c : Crates⦄ where
  unfoldable pub priority : ℕ → ℕ
  priority id = c.bit_range id 28 26

  set_priority : ℕ → ℕ → ℕ
  set_priority id = c.set_bit_range id 28 26

  unfoldable pub is_svc : ℕ → Bool
  is_svc id = c.bit id 25

  set_svc : ℕ → Bool → ℕ
  set_svc id = c.set_bit id 25

  unfoldable pub is_anon : ℕ → Bool
  is_anon id = c.bit id 24

  set_anon : ℕ → Bool → ℕ
  set_anon id = c.set_bit id 24

  unfoldable pub subject_id : ℕ → PortId
  subject_id id = c.bit_range id 20 8

  set_subject_id : ℕ → PortId → ℕ
  set_subject_id id = c.set_bit_range id 20 8

  unfoldable pub source_id : ℕ → NodeId
  source_id id = c.bit_range id 6 0

  set_source_id : ℕ → NodeId → ℕ
  set_source_id id = c.set_bit_range id 6 0

  rsvd0 : ℕ → Bool
  rsvd0 id = c.bit id 23

  set_rsvd0 : ℕ → Bool → ℕ
  set_rsvd0 id = c.set_bit id 23

  set_rsvd1 : ℕ → Bool → ℕ
  set_rsvd1 id = c.set_bit id 22

  set_rsvd2 : ℕ → Bool → ℕ
  set_rsvd2 id = c.set_bit id 21

  rsvd3 : ℕ → Bool
  rsvd3 id = c.bit id 7

  set_rsvd3 : ℕ → Bool → ℕ
  set_rsvd3 id = c.set_bit id 7

  unfoldable pub is_message : ℕ → Bool
  is_message id = not (is_svc id)

  unfoldable pub valid : ℕ → Bool
  unfolding is_svc rsvd0 rsvd3
  valid id = if is_svc id then false else if rsvd0 id || rsvd3 id then false else true

  -- The setters that `new` calls, in order.
  fill : ℕ → Bool → PortId → NodeId → ℕ
  unfolding set_priority set_svc set_anon set_subject_id set_source_id set_rsvd0 set_rsvd1 set_rsvd2
      set_rsvd3
  fill p anon subject source =
      let id = set_priority 0 p in
      let id = set_svc id false in
      let id = set_anon id anon in
      let id = set_subject_id id subject in
      let id = set_source_id id source in
      let id = set_rsvd0 id false in
      let id = set_rsvd1 id true in let id = set_rsvd2 id true in set_rsvd3 id false

  unfoldable pub new {ℓ} : {E : Type ℓ} → Priority → PortId → Option NodeId → Result E c.ExtendedId
  unfolding fill
  new p subject source = do
    n ← unwrap (c.to_u8 p)
    unwrap (c.extended_id (fill n (is_none source) subject (source_or_four source)))

  fill_lem :
      (p : ℕ) (anon : Bool) (subject : PortId) (source : NodeId)
      → fill p anon subject source
        ≡ p % 8 * 2 ^ 26 + flag anon (2 ^ 24) + 3 * 2 ^ 21 + subject % 8192 * 256 + source % 128
  unfolding fill
  fill_lem p anon subject source =
      let w₀ = c.set_bit_range 0 28 26 p in
      let w₁ = c.set_bit w₀ 25 false in
      let w₂ = c.set_bit w₁ 24 anon in
      let w₃ = c.set_bit_range w₂ 20 8 subject in
      let w₄ = c.set_bit_range w₃ 6 0 source in
      let w₅ = c.set_bit w₄ 23 false in
      let w₆ = c.set_bit w₅ 22 true in
      let w₇ = c.set_bit w₆ 21 true in
      let t = flag_lem anon (2 ^ 24) in
      let v = p % 8 * 2 ^ 26 + flag anon (2 ^ 24) in
      let u = v + subject % 8192 * 256 in
      let e₀ : w₀ ≡ p % 8 * 2 ^ 26 = omega (arith, c.set_bit_range_lem 0 28 26 p) in
      let e₁ : w₁ ≡ p % 8 * 2 ^ 26 = omega (arith, c.set_bit_lem w₀ 25 false) in
      let e₂ : w₂ ≡ v = omega (arith, c.set_bit_lem w₁ 24 anon) in
      let e₃ : w₃ ≡ u = omega (arith, c.set_bit_range_lem w₂ 20 8 subject) in
      let e₄ : w₄ ≡ u + source % 128 = omega (arith, c.set_bit_range_lem w₃ 6 0 source) in
      let e₅ : w₅ ≡ u + source % 128 = omega (arith, c.set_bit_lem w₄ 23 false) in
      let e₆ : w₆ ≡ u + source % 128 + 2 ^ 22 = omega (arith, c.set_bit_lem w₅ 22 true) in
      let e₇ : w₇ ≡ u + source % 128 + 3 * 2 ^ 21 = omega (arith, c.set_bit_lem w₆ 21 true) in
      omega (arith, c.set_bit_lem w₇ 7 false)

  -- What the accessors read from the ID that `new` builds.
  pub record IsMessage (p : Priority) (subject : PortId) (source : Option NodeId) (raw : ℕ)
      : Type 0 where
    pub priority_eq : priority raw ≡ priority_as_u8 p
    pub is_svc_eq : is_svc raw ≡ false
    pub is_message_eq : is_message raw ≡ true
    pub is_anon_eq : is_anon raw ≡ is_none source
    pub subject_id_eq : subject_id raw ≡ subject % 8192
    pub source_id_eq : source_id raw ≡ source_or_four source % 128
    pub valid_eq : valid raw ≡ true

  fill-IsMessage :
      (p : Priority) (subject : PortId) (source : Option NodeId)
      → IsMessage p subject source
          (fill (priority_as_u8 p) (is_none source) subject (source_or_four source))
  unfolding priority is_svc is_message is_anon subject_id source_id rsvd0 rsvd3 valid
  fill-IsMessage p subject source =
      let raw = fill (priority_as_u8 p) (is_none source) subject (source_or_four source) in
      let e = fill_lem (priority_as_u8 p) (is_none source) subject (source_or_four source) in
      let t = flag_lem (is_none source) (2 ^ 24) in
      let b = priority-lt p in
      record {
        priority_eq = omega (arith, c.bit_range_lem raw 28 26);
        is_svc_eq = bit_eq false raw 25 (omega arith);
        is_message_eq = ap not (bit_eq false raw 25 (omega arith));
        is_anon_eq = bit_eq (is_none source) raw 24 (omega arith);
        subject_id_eq = omega (arith, c.bit_range_lem raw 20 8);
        source_id_eq = omega (arith, c.bit_range_lem raw 6 0);
        valid_eq = rw (
          bit_eq false raw 25 (omega arith),
          bit_eq false raw 23 (omega arith),
          bit_eq false raw 7 (omega arith),
        );
      }

  fill-le :
      (p : Priority) (anon : Bool) (subject : PortId) (source : NodeId)
      → fill (priority_as_u8 p) anon subject source ≤ 0x1fff_ffff
  fill-le p anon subject source =
      omega (arith, fill_lem (priority_as_u8 p) anon subject source, flag_lem anon (2 ^ 24))

  -- `new` never panics: it returns an ID of 29 bits that passes `valid`, is a message ID and no service ID, is marked anonymous exactly when no
  -- source is given, and holds the priority, the subject's low 13 bits and the source's (or 4's) low 7.
  pub new-IsMessage :
      {E : Type 0} (p : Priority) (subject : PortId) (source : Option NodeId)
      → (id : c.ExtendedId) × (new {E = E} p subject source ≡ ok id)
        × IsMessage p subject source (c.as_raw id)
  unfolding new
  new-IsMessage p subject source =
      let word = fill (priority_as_u8 p) (is_none source) subject (source_or_four source) in
      let (id, made, raw) =
        c.extended_id_lem word (fill-le p (is_none source) subject (source_or_four source)) in
      (id, rw (c.to_u8_lem p, made), rw raw (fill-IsMessage p subject source))
