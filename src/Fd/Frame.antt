-- ===== src/Fd/Frame.antt =====
-- `FdCanFrame` of cyphal/src/transport/can/fd.rs, and the padding of its payload.
use cyphal_rs.Base.{ℕ, ◌-◌, leb, replicate, take, if◌then◌else◌, Result, ok, panic, ◌>>=◌, unwrap}
use cyphal_rs.Crates.{Crates}
use cyphal_rs.Fd.Api.{FdApi}
use cyphal_rs.Fd.ArrayVec.{ArrayVec}

abbrev pub mtu_size : ℕ
mtu_size = 64

module _ ⦃c : Crates⦄ ⦃v : ArrayVec⦄ ⦃api : FdApi⦄ where
  pub record FdCanFrame : Type 0 where
    pub timestamp : api.Timestamp
    pub id : c.ExtendedId
    pub dlc : ℕ
    pub payload : v.Vec

  -- `FdCanFrame::new`.
  unfoldable pub new : {E : Type 0} → api.Timestamp → ℕ → Result E FdCanFrame
  new timestamp id = do
    id ← unwrap (c.extended_id id)
    ok (record { timestamp = timestamp; id = id; dlc = 0; payload = v.new })

  -- An arm of the match on the length: zeroes up to `size`, and its code.
  abbrev pub fill : {E : Type 0} → FdCanFrame → (copy_len size dlc : ℕ) → Result E FdCanFrame
  fill frame copy_len size dlc = do
    payload ←
        unwrap (v.try_extend_from_slice frame.payload (take (size - copy_len) (replicate 16 0)))
    ok (record frame { dlc = dlc; payload = payload })

  -- The end of `advance`: the DLC, and the zeroes that it asks for.
  unfoldable pub set_dlc : {E : Type 0} → FdCanFrame → ℕ → Result E FdCanFrame
  set_dlc frame copy_len =
      if leb copy_len 8
      then ok (record frame { dlc = copy_len })
      else if leb copy_len 12
      then fill frame copy_len 12 9
      else if leb copy_len 16
      then fill frame copy_len 16 10
      else if leb copy_len 20
      then fill frame copy_len 20 11
      else if leb copy_len 24
      then fill frame copy_len 24 12
      else if leb copy_len 32
      then fill frame copy_len 32 13
      else if leb copy_len 48
      then fill frame copy_len 48 14
      else if leb copy_len 64
      then fill frame copy_len 64 15
      else panic
