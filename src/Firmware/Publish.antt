-- ===== src/Firmware/Publish.antt =====
-- The loop of examples/embedded/src/main.rs, and `publish`.
use cyphal_rs.Base.{
  ℕ, zero, suc, ◌%◌, ◌^◌, false, Option, none, some, List, length, Result, ok, err, panic,
}
use cyphal_rs.Firmware.Api.{Hal, NbError, would_block, other, standard, TxFrameHeader}
use cyphal_rs.Uavcan.{Uavcan}
use cyphal_rs.Packing.{insert_u8_array_in_u32_array}

module _ {E : Type 0} ⦃hal : Hal⦄ where
  -- `block!` on `FdCan::transmit`, and `unwrap`, on fuel.
  unfoldable pub block :
      ℕ
      → hal.FdCan
      → TxFrameHeader hal.ExtendedId
      → (List ℕ → Result NbError (List ℕ))
      → Option (Result E hal.FdCan)
  block zero can header write = none
  block (suc fuel) can header write =
      let (can', result) = hal.transmit can header write in
      let rest = block fuel can' header write in
      elim result [
        | ok _ ↦ some (ok can')
        | panic ↦ some panic
        | err would_block ↦ rest
        | err other ↦ some panic
      ]

module _ ⦃u : Uavcan⦄ ⦃hal : Hal⦄ where
  abbrev pub header : u.Frame → hal.ExtendedId → TxFrameHeader hal.ExtendedId
  header frame id = record {
    bit_rate_switching = false;
    frame_format = standard;
    id = id;
    len = length (u.payload frame) % 2 ^ 8;
    marker = none;
  }

  -- One turn of the `while let` loop in `publish`.
  unfoldable pub publish_frame :
      {E : Type 0} → ℕ → hal.FdCan → u.Frame → Option (Result E hal.FdCan)
  publish_frame fuel can frame = elim (hal.extended_id (u.as_raw frame)) [
    | none ↦ some panic
    | some id ↦ block fuel can (header frame id) (insert_u8_array_in_u32_array (u.payload frame))
  ]

  -- The loop, on fuel for the frames and for the blocking of each.
  unfoldable pub publish_loop :
      {E : Type 0} → ℕ → ℕ → u.FrameIter → hal.FdCan → Option (Result E hal.FdCan)
  publish_loop zero blocking iter can = none
  publish_loop (suc fuel) blocking iter can =
      let (iter', item) = u.next iter in
      elim item [
        | none ↦ some (ok can)
        | some frame ↦ elim (publish_frame blocking can frame) [
          | none ↦ none
          | some panic ↦ some panic
          | some (err e) ↦ some (err e)
          | some (ok can') ↦ publish_loop fuel blocking iter' can'
        ]
      ]

  unfoldable pub publish :
      {E : Type 0}
      → ℕ
      → ℕ
      → u.Node
      → u.Transfer
      → hal.FdCan
      → Option (Result E (u.Node × hal.FdCan))
  publish fuel blocking node transfer can = elim (u.transmit node transfer) [
    | none ↦ some panic
    | some (node', iter) ↦ elim (publish_loop fuel blocking iter can) [
      | none ↦ none
      | some panic ↦ some panic
      | some (err e) ↦ some (err e)
      | some (ok can') ↦ some (ok (node', can'))
    ]
  ]
