-- ===== src/Bitfields/CanServiceId.antt =====
-- The fields of a service frame's CAN ID, `CanServiceId` of
-- cyphal/src/transport/can/bitfields.rs. An ID is the `u32` that the type wraps.
use cyphal_rs.Base.{
  ℕ, ◌+◌, ◌*◌, ◌%◌, ◌^◌, ◌≤◌, ◌≡◌, Bool, true, false, if◌then◌else◌, flag, flag_lem, Result, ok,
  ◌>>=◌, unwrap, arith,
}
use cyphal_rs.Crates.{Crates, bit_eq}
use cyphal_rs.Types.{Priority, PortId, NodeId, priority_as_u8, priority-lt}

module _ ⦃c : Crates⦄ where
  unfoldable pub priority : ℕ → ℕ
  priority id = c.bit_range id 28 26

  set_priority : ℕ → ℕ → ℕ
  set_priority id = c.set_bit_range id 28 26

  unfoldable pub is_svc : ℕ → Bool
  is_svc id = c.bit id 25

  set_svc : ℕ → Bool → ℕ
  set_svc id = c.set_bit id 25

  unfoldable pub is_req : ℕ → Bool
  is_req id = c.bit id 24

  set_req : ℕ → Bool → ℕ
  set_req id = c.set_bit id 24

  rsvd0 : ℕ → Bool
  rsvd0 id = c.bit id 23

  set_rsvd0 : ℕ → Bool → ℕ
  set_rsvd0 id = c.set_bit id 23

  unfoldable pub service_id : ℕ → PortId
  service_id id = c.bit_range id 22 14

  set_service_id : ℕ → PortId → ℕ
  set_service_id id = c.set_bit_range id 22 14

  unfoldable pub destination_id : ℕ → NodeId
  destination_id id = c.bit_range id 13 7

  set_destination_id : ℕ → NodeId → ℕ
  set_destination_id id = c.set_bit_range id 13 7

  unfoldable pub source_id : ℕ → NodeId
  source_id id = c.bit_range id 6 0

  set_source_id : ℕ → NodeId → ℕ
  set_source_id id = c.set_bit_range id 6 0

  unfoldable pub valid : ℕ → Bool
  unfolding rsvd0
  valid id = if rsvd0 id then false else true

  -- The setters that `new` calls, in order.
  fill : ℕ → Bool → PortId → NodeId → NodeId → ℕ
  unfolding set_priority set_svc set_req set_rsvd0 set_service_id set_destination_id set_source_id
  fill p req service destination source =
      let id = set_priority 0 p in
      let id = set_svc id true in
      let id = set_req id req in
      let id = set_rsvd0 id false in
      let id = set_service_id id service in
      let id = set_destination_id id destination in set_source_id id source

  unfoldable pub new {ℓ} :
      {E : Type ℓ} → Priority → Bool → PortId → NodeId → NodeId → Result E c.ExtendedId
  unfolding fill
  new p req service destination source = do
    n ← unwrap (c.to_u8 p)
    unwrap (c.extended_id (fill n req service destination source))

  fill_lem :
      (p : ℕ) (req : Bool) (service : PortId) (destination source : NodeId)
      → fill p req service destination source
        ≡ p % 8 * 2 ^ 26
          + 2 ^ 25
          + flag req (2 ^ 24)
          + service % 512 * 2 ^ 14
          + destination % 128 * 128
          + source % 128
  unfolding fill
  fill_lem p req service destination source =
      let w₀ = c.set_bit_range 0 28 26 p in
      let w₁ = c.set_bit w₀ 25 true in
      let w₂ = c.set_bit w₁ 24 req in
      let w₃ = c.set_bit w₂ 23 false in
      let w₄ = c.set_bit_range w₃ 22 14 service in
      let w₅ = c.set_bit_range w₄ 13 7 destination in
      let t = flag_lem req (2 ^ 24) in
      let v = p % 8 * 2 ^ 26 + 2 ^ 25 in
      let u = v + flag req (2 ^ 24) in
      let x = u + service % 512 * 2 ^ 14 in
      let e₀ : w₀ ≡ p % 8 * 2 ^ 26 = omega (arith, c.set_bit_range_lem 0 28 26 p) in
      let e₁ : w₁ ≡ v = omega (arith, c.set_bit_lem w₀ 25 true) in
      let e₂ : w₂ ≡ u = omega (arith, c.set_bit_lem w₁ 24 req) in
      let e₃ : w₃ ≡ u = omega (arith, c.set_bit_lem w₂ 23 false) in
      let e₄ : w₄ ≡ x = omega (arith, c.set_bit_range_lem w₃ 22 14 service) in
      let e₅ : w₅ ≡ x + destination % 128 * 128 =
        omega (arith, c.set_bit_range_lem w₄ 13 7 destination) in
      omega (arith, c.set_bit_range_lem w₅ 6 0 source)

  -- What the accessors read from the ID that `new` builds.
  pub record IsService (p : Priority) (req : Bool) (service : PortId) (destination source : NodeId)
      (raw : ℕ) : Type 0 where
    pub priority_eq : priority raw ≡ priority_as_u8 p
    pub is_svc_eq : is_svc raw ≡ true
    pub is_req_eq : is_req raw ≡ req
    pub service_id_eq : service_id raw ≡ service % 512
    pub destination_id_eq : destination_id raw ≡ destination % 128
    pub source_id_eq : source_id raw ≡ source % 128
    pub valid_eq : valid raw ≡ true

  fill-IsService :
      (p : Priority) (req : Bool) (service : PortId) (destination source : NodeId)
      → IsService p req service destination source
          (fill (priority_as_u8 p) req service destination source)
  unfolding priority is_svc is_req service_id destination_id source_id rsvd0 valid
  fill-IsService p req service destination source =
      let raw = fill (priority_as_u8 p) req service destination source in
      let e = fill_lem (priority_as_u8 p) req service destination source in
      let t = flag_lem req (2 ^ 24) in
      let b = priority-lt p in
      record {
        priority_eq = omega (arith, c.bit_range_lem raw 28 26);
        is_svc_eq = bit_eq true raw 25 (omega arith);
        is_req_eq = bit_eq req raw 24 (omega arith);
        service_id_eq = omega (arith, c.bit_range_lem raw 22 14);
        destination_id_eq = omega (arith, c.bit_range_lem raw 13 7);
        source_id_eq = omega (arith, c.bit_range_lem raw 6 0);
        valid_eq = rw (bit_eq false raw 23 (omega arith));
      }

  fill-le :
      (p : ℕ) (req : Bool) (service : PortId) (destination source : NodeId)
      → fill p req service destination source ≤ 0x1fff_ffff
  fill-le p req service destination source =
      omega (arith, fill_lem p req service destination source, flag_lem req (2 ^ 24))

  -- `new` never panics: it returns an ID of 29 bits that passes `valid`, is a service ID, is a
  -- request exactly when `req` says so, and holds the priority, the service's low 9 bits and the
  -- low 7 of both node IDs.
  pub new-IsService :
      {E : Type 0} (p : Priority) (req : Bool) (service : PortId) (destination source : NodeId)
      → (id : c.ExtendedId) × (new {E = E} p req service destination source ≡ ok id)
        × IsService p req service destination source (c.as_raw id)
  unfolding new
  new-IsService p req service destination source =
      let word = fill (priority_as_u8 p) req service destination source in
      let (id, made, raw) =
        c.extended_id_lem word (fill-le (priority_as_u8 p) req service destination source) in
      (id, rw (c.to_u8_lem p, made), rw raw (fill-IsService p req service destination source))
